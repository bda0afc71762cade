-- ===== src/Context/Expand/Correct.antt =====
-- The names that the library gives for the text of a range.
use libcrange.Base.{◌≡◌, ◌≤◌, ◌↔◌, refl, Text, text, ◌++◌, some, true, arith, length, ◌⊎◌, inl, inr}
use libcrange.Base.{◌>>=◌, Returns}
use libcrange.HashSet.Resize.{size_limit}
use libcrange.HashSet.{set_members}
use libcrange.Range.Meaning.{
  Denotes, listed, range_new-Denotes, set_members-Denotes, hostnames_plain,
}
use libcrange.Range.{Range, names_of}
use libcrange.Request.{
  range_request_new, range_request_warn, range_request_set, range_request_results,
  range_request_nodes,
}
use libcrange.Evaluate.Meaning.{Meaning, IsPure, IsPlain, weight}
use libcrange.Evaluate.Correct.{range_evaluate-Evaluates}
use libcrange.Evaluate.{Env, Ast}
use libcrange.Context.Expand.{
  yyerror, expand_text, do_range_expand, range_expand, range_easy_expand,
}

-- For a text that the parser takes for an expression without groups, functions, negation, standing
-- patterns and quoted literals, whose ranges of hosts are numbered, in which a pattern stands only
-- right of a difference or an intersection, and whose weight (a bound on its names) is at most
-- 1610612741, `range_easy_expand` runs without a fault and lists exactly the names that the expression
-- stands for, at most as many as its weight.
pub range_easy_expand-Evaluates :
    (env : Env) (yyparse : Text → Text ⊎ Ast) (line : Text) (ast : Ast)
    → yyparse line ≡ inr ast
    → IsPure ast
    → IsPlain ast
    → weight ast ≤ size_limit
    → Returns (range_easy_expand env yyparse (some line)) λ nodes.
      ((q : Text) → (listed q nodes ≡ true) ↔ Meaning env ast q) × (length nodes ≤ weight ast)
unfolding range_easy_expand range_expand do_range_expand expand_text range_request_nodes
    range_request_set range_request_results
range_easy_expand-Evaluates env yyparse line ast parsed pure plain small =
    let (x, run, (d, unquoted)) = range_evaluate-Evaluates env ast range_request_new pure small in
    let (exact, len) = set_members-Denotes d in
    (
      names_of (set_members x.0.nodes),
      rw (expand_text, parsed, run, ◌>>=◌, hostnames_plain x.0 (unquoted plain)) refl,
      (exact, omega (arith, len, d.few)),
    )

-- For a text that the parser refuses, `range_expand` runs without a fault. Its request has a range
-- without names as the result, and as warnings the message of the parser and `parsing [..]` with the
-- text, joined by a bar.
pub range_expand_unparsed :
    (env : Env) (yyparse : Text → Text ⊎ Ast) (line msg : Text)
    → yyparse line ≡ inl msg
    → Returns (range_expand env yyparse (some line)) λ rr.
      ((r : Range) × (rr.r ≡ some r) × Denotes r (λ _. ⊥) 0)
      × (rr.warnings ≡ some (msg ++ (text "|parsing [" ++ (line ++ text "]"))))
unfolding range_expand do_range_expand expand_text yyerror range_request_warn range_request_set
    range_request_new
range_expand_unparsed env yyparse line msg bad =
    let (r, run, (d, _)) = range_new-Denotes in
    (
      range_request_set
          (range_request_warn (range_request_warn range_request_new msg)
            (text "parsing [" ++ (line ++ text "]")))
          r,
      rw (expand_text, bad, run, ◌>>=◌) refl,
      ((r, refl, d), refl),
    )
