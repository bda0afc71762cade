-- ===== src/Evaluate/Tests.antt =====
-- The theorems on the evaluator of source/src/ast.c at concrete expressions.
use libcrange.Base.{
  ◌≡◌, ◌≤◌, refl, text, none, false, true, inl, inr, arith, leb, length, if◌then◌else◌,
}
use libcrange.Base.{Returns}
use libcrange.HashSet.Resize.{size_limit}
use libcrange.Range.Decimal.{digits_value}
use libcrange.Range.Meaning.{Denotes}
use libcrange.Range.Algebra.{range_from_literal-Denotes}
use libcrange.Range.{RangeParts, range_from_literal}
use libcrange.Request.{Request}
use libcrange.Evaluate.Matching.{Matches, range_from_match-Denotes}
use libcrange.Evaluate.Meaning.{Evaluates, IsPure, weight}
use libcrange.Evaluate.Correct.{range_evaluate-Evaluates}
use libcrange.Evaluate.Quotes.{quoted_literal_kept}
use libcrange.Evaluate.{
  regex_of, Env, Ast, literal, nonrange_literal, union, braces, diff, inter, regex, parts, nothing,
  range_from_match, range_evaluate,
}

-- PCRE with one pattern, `.....`, that matches the names of five bytes or more; no modules
abbrev sample_env : Env
sample_env = record {
  pcre_compile =
      λ s. if leb (length s) 4 then inl (text "unknown") else inr (λ name. leb 5 (length name));
  perl_function = λ _. none;
  python_function = λ _. none;
  c_function = λ _. none;
}

abbrev fresh : Request
fresh = record { warnings = none; warn_type = none; warn_enabled = true; r = none }

abbrev ten_nodes : RangeParts
ten_nodes = record {
  prefix = text "node";
  first = text "8";
  last = text "12";
  domain = text ".example";
}

-- a{b,c},&(node8..12.example,-/...../)
abbrev sample : Ast
sample =
    inter (braces (literal (text "a")) (union (literal (text "b")) (literal (text "c"))) nothing)
      (diff (parts ten_nodes) (regex (text ".....")))

sample-IsPure : IsPure sample
unfolding digits_value regex_of
sample-IsPure = (
  (tt, (tt, tt), tt),
  (
    record {
      first_digits = (refl, tt);
      last_digits = (refl, (refl, tt));
      some_digit = omega arith;
      last_small = omega arith;
      first_small = omega arith;
    },
    tt,
  ),
)

sample-weight : weight sample ≤ size_limit
unfolding digits_value
sample-weight = omega arith

range_evaluate-Evaluates_example :
    Returns (range_evaluate sample_env sample fresh) (Evaluates sample_env sample)
range_evaluate-Evaluates_example =
    range_evaluate-Evaluates sample_env sample fresh sample-IsPure sample-weight

web_made :
    Returns
      (range_from_literal (text "web12"))
      λ r. Denotes r (λ q. text "web12" ≡ q) 1 × (r.quoted ≡ false)
web_made = range_from_literal-Denotes (text "web12")

range_from_match-Denotes_example :
    Returns (range_from_match sample_env fresh web_made.0 (text ".....")) λ x.
      Denotes x.0 (λ q. (text "web12" ≡ q) × Matches sample_env (text ".....") q) 1
      × (x.0.quoted ≡ false)
range_from_match-Denotes_example =
    range_from_match-Denotes sample_env fresh web_made.0 (text ".....") web_made.2.0 web_made.2.1
      (omega arith)

quoted_literal_kept_example :
    Returns
      (range_evaluate sample_env
        (diff (nonrange_literal (text "web12")) (regex (text ".....")))
        fresh)
      λ x. Denotes x.0 (λ q. text "web12" ≡ q) 1 × (x.0.quoted ≡ true)
quoted_literal_kept_example = quoted_literal_kept sample_env fresh (text "web12") (text ".....")
