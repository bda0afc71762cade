-- ===== src/Context/Expand.antt =====
-- The expansion of the text of a range: `do_range_expand` of source/src/range.c, and the interface to it
-- in source/src/libcrange.c. The parser, which is generated from its grammar, is a parameter.
pub mod Correct
mod Tests
use libcrange.Base.{Text, text, List, [], ◌∷◌, ◌++◌, Option, none, some, ◌⊎◌, inl, inr}
use libcrange.Base.{Run, ok, fault, null_pointer, ◌>>=◌}
use libcrange.Range.{Range, range_new, set_pack_from_range}
use libcrange.Request.{
  Request, range_request_new, range_request_warn, range_request_set, range_request_results,
  range_request_nodes,
}
use libcrange.Compress.{Captures}
use libcrange.Compress.Warnings.{range_request_compressed}
use libcrange.Evaluate.{Env, Ast, range_evaluate}
use libcrange.Context.{range_compress}

-- `yyerror`, on the request that `current_rr` points to
pub yyerror : Request → Text → Request
yyerror rr msg = range_request_warn rr msg

-- the result, a null pointer being no range
abbrev pub result_of : Option Range → Run Range
result_of none = fault null_pointer
result_of (some r) = ok r

-- `yyparse` gives the message of an error, or the tree of the expression.
module _ (env : Env) (yyparse : Text → Text ⊎ Ast) where
  -- a text that is there
  pub expand_text : Request → Text → Run (Range × Request)
  expand_text rr line = elim (yyparse line) [
    | inl msg ↦ range_new >>= λ r. ok (
      r,
      range_request_set
          (range_request_warn (yyerror rr msg) (text "parsing [" ++ (line ++ text "]"))) r,
    )
    | inr theast ↦ range_evaluate env theast rr >>= λ x.
        let rr' = range_request_set x.1 x.0 in
        result_of (range_request_results rr') >>= λ r. ok (r, rr')
  ]

  pub do_range_expand : Request → Option Text → Run (Range × Request)
  do_range_expand rr none = range_new >>= λ r. ok (r, range_request_set rr r)
  do_range_expand rr (some line) = expand_text rr line

  pub range_expand : Option Text → Run Request
  range_expand line = do_range_expand range_request_new line >>= λ x. ok x.1

  pub range_expand_rr : Request → Option Text → Run Request
  range_expand_rr rr line = do_range_expand rr line >>= λ x. ok x.1

  pub range_easy_eval : (Text → Option Captures) → Option Text → Run Text
  range_easy_eval numbered_node_re c_range =
      range_expand c_range >>= λ rr. range_request_compressed numbered_node_re rr >>= λ x. ok x.0

  -- The names are copied.
  pub range_easy_expand : Option Text → Run (List Text)
  range_easy_expand c_range = range_expand c_range >>= range_request_nodes

  -- source/src/range_request.c has this one.
  pub range_easy_expand_as_packed_set : Option Text → Run Text
  range_easy_expand_as_packed_set c_range = range_expand c_range >>= λ rr.
      result_of (range_request_results rr) >>= λ r. ok (set_pack_from_range r)

pub range_easy_compress : (Text → Option Captures) → List Text → Run Text
range_easy_compress numbered_node_re c_nodes =
    range_compress numbered_node_re c_nodes >>= λ x. ok x.0
