-- ===== src/Evaluate.antt =====
-- The evaluation of a range expression: source/src/ast.c, with `range_from_match`,
-- `range_from_group` and `range_from_function` of source/src/range.c.
pub mod Meaning
pub mod Matching
pub mod Correct
pub mod Quotes
mod Tests
use libcrange.Base.{
  Text, text, List, [], ◌∷◌, ◌++◌, Option, none, some, Bool, if◌then◌else◌, ltb, ◌⊎◌, inl, inr,
}
use libcrange.Base.{Run, ok, ◌>>=◌}
use libcrange.Range.{
  Range, RangeParts, range_new, range_add, range_get_hostnames, range_from_literal,
  range_from_nonrange_literal, range_from_braces, range_from_inter, range_union_inplace,
  range_diff_inplace, range_from_rangeparts,
}
use libcrange.Request.{Request, range_request_warn, range_request_warn_type}

-- A function of a module, as the evaluator calls it.
abbrev pub RangeFunction : Type 0
RangeFunction = Request → List Range → Run (Range × Request)

-- What the evaluator takes from outside: PCRE, which compiles a pattern to an error message or a
-- test, and the functions that the Perl, Python and C modules provide, each by its name.
pub record Env : Type 0 where
  pub pcre_compile : Text → Text ⊎ (Text → Bool)
  pub perl_function : Text → Option RangeFunction
  pub python_function : Text → Option RangeFunction
  pub c_function : Text → Option RangeFunction

-- `rangeast`: a node is its type with its data, and its children in the place of the links
mutual
  pub data Ast : Type 0 where
    literal : Text → Ast
    nonrange_literal : Text → Ast
    union : Ast → Ast → Ast
    group : Ast → Ast
    braces : Ast → Ast → Ast → Ast
    diff : Ast → Ast → Ast
    inter : Ast → Ast → Ast
    not_in : Ast → Ast
    regex : Text → Ast
    parts : RangeParts → Ast
    function : Text → Args → Ast
    nothing : Ast

  pub data Args : Type 0 where
    end : Args
    arg : Ast → Args → Args

-- `ast->type == AST_REGEX`, with its string
unfoldable pub regex_of : Ast → Option Text
regex_of (literal _) = none
regex_of (nonrange_literal _) = none
regex_of (union _ _) = none
regex_of (group _) = none
regex_of (braces _ _ _) = none
regex_of (diff _ _) = none
regex_of (inter _ _) = none
regex_of (not_in _) = none
regex_of (regex s) = some s
regex_of (parts _) = none
regex_of (function _ _) = none
regex_of nothing = none

-- `for (i = 0; members[i]; i++) if (matched) range_add(ret, members[i]);`
pub add_matching : (Text → Bool) → Range → List Text → Run Range
add_matching matches r [] = ok r
add_matching matches r (name ∷ names) =
    (if matches name then range_add r name else ok r) >>= λ r'. add_matching matches r' names

-- The larger range takes the names of the smaller, the second at a tie.
pub union_ranges : Range → Range → Run Range
union_ranges r₁ r₂ =
    if ltb r₂.nodes.members r₁.nodes.members
    then range_union_inplace r₁ r₂
    else range_union_inplace r₂ r₁

module _ (env : Env) where
  -- the names as `range_get_hostnames` gives them, in quotes for a quoted range
  pub range_from_match : Request → Range → Text → Run (Range × Request)
  range_from_match rr r pattern' = range_new >>= λ ret. elim (env.pcre_compile pattern') [
    | inl error ↦ ok (
      ret,
      range_request_warn rr (text "regex [" ++ (pattern' ++ (text "] [" ++ (error ++ text "]")))),
    )
    | inr matches ↦ add_matching matches ret (range_get_hostnames r) >>= λ ret'. ok (ret', rr)
  ]

  pub range_from_function : Text → RangeFunction
  range_from_function name rr args = elim (env.perl_function name) [
    | some f ↦ f rr args
    | none ↦ elim (env.python_function name) [
      | some f ↦ f rr args
      | none ↦ elim (env.c_function name) [
        | some f ↦ f rr args
        | none ↦ range_request_warn_type rr (text "NO_FUNCTION") name >>= λ rr'.
            range_new >>= λ r. ok (r, rr')
      ]
    ]
  ]

  pub range_from_group : Request → Range → Run (Range × Request)
  range_from_group rr r = range_from_function (text "group") rr (r ∷ [])

  -- `cluster(all:CLUSTER)`, all the nodes
  pub all_nodes : Request → Run (Range × Request)
  all_nodes rr = range_from_literal (text "all:CLUSTER") >>= λ all.
      range_from_function (text "cluster") rr (all ∷ [])

  -- The second child of a difference or an intersection: a pattern selects from the first range.
  pub second_range :
      Option Text → (Request → Run (Range × Request)) → Range → Request → Run (Range × Request)
  second_range none evaluate r₁ rr = evaluate rr
  second_range (some pattern') evaluate r₁ rr = range_from_match rr r₁ pattern'

  mutual
    pub range_evaluate : Ast → Request → Run (Range × Request)
    range_evaluate (literal s) rr = range_from_literal s >>= λ r. ok (r, rr)
    range_evaluate (nonrange_literal s) rr = range_from_nonrange_literal s >>= λ r. ok (r, rr)
    range_evaluate (union a b) rr = range_evaluate a rr >>= λ x.
        range_evaluate b x.1 >>= λ y. union_ranges x.0 y.0 >>= λ r. ok (r, y.1)
    range_evaluate (group a) rr = range_evaluate a rr >>= λ x. range_from_group x.1 x.0
    range_evaluate (braces a b c) rr = range_evaluate a rr >>= λ x. range_evaluate b x.1 >>= λ y.
        range_evaluate c y.1 >>= λ z. range_from_braces x.0 y.0 z.0 >>= λ r. ok (r, z.1)
    range_evaluate (diff a b) rr = range_evaluate a rr >>= λ x.
        second_range (regex_of b) (range_evaluate b) x.0 x.1 >>= λ y.
        ok (range_diff_inplace x.0 y.0, y.1)
    range_evaluate (inter a b) rr = range_evaluate a rr >>= λ x.
        second_range (regex_of b) (range_evaluate b) x.0 x.1 >>= λ y.
        range_from_inter x.0 y.0 >>= λ r. ok (r, y.1)
    range_evaluate (not_in a) rr =
        all_nodes rr >>= λ x. range_evaluate a x.1 >>= λ y. ok (range_diff_inplace x.0 y.0, y.1)
    range_evaluate (regex s) rr = all_nodes rr >>= λ x. range_from_match x.1 x.0 s
    range_evaluate (parts p) rr = range_from_rangeparts p >>= λ r. ok (r, rr)
    range_evaluate (function name args) rr =
        evaluate_args args rr >>= λ x. range_from_function name x.1 x.0
    range_evaluate nothing rr = range_new >>= λ r. ok (r, rr)

    -- the ranges of the arguments, first to last
    pub evaluate_args : Args → Request → Run (List Range × Request)
    evaluate_args end rr = ok ([], rr)
    evaluate_args (arg a rest) rr =
        range_evaluate a rr >>= λ x. evaluate_args rest x.1 >>= λ y. ok (x.0 ∷ y.0, y.1)
