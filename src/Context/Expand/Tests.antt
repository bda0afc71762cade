-- ===== src/Context/Expand/Tests.antt =====
-- The theorems on the expansion of texts at concrete texts.
use libcrange.Base.{
  ◌≡◌, ◌≤◌, ◌↔◌, refl, Text, text, [], ◌∷◌, none, some, true, arith, length, ◌⊎◌, inl, inr,
  if◌then◌else◌, ◌==◌,
}
use libcrange.Base.{Returns}
use libcrange.Range.Meaning.{Denotes, listed}
use libcrange.Range.{Range}
use libcrange.Evaluate.Meaning.{Meaning, IsPure}
use libcrange.Evaluate.{Env, Ast, literal, union, diff, regex_of}
use libcrange.Context.Expand.{range_expand, range_easy_expand}
use libcrange.Context.Expand.Correct.{range_easy_expand-Evaluates, range_expand_unparsed}

abbrev no_modules : Env
no_modules = record {
  pcre_compile = λ _. inl (text "unknown");
  perl_function = λ _. none;
  python_function = λ _. none;
  c_function = λ _. none;
}

-- a,b,-b
abbrev less : Ast
less = diff (union (literal (text "a")) (literal (text "b"))) (literal (text "b"))

-- a parser that knows no text but those that begin with `a`
abbrev one_parser : Text → Text ⊎ Ast
one_parser [] = inl (text "syntax error")
one_parser (c ∷ _) = if c == b'a' then inr less else inl (text "syntax error")

less-IsPure : IsPure less
unfolding regex_of
less-IsPure = ((tt, tt), tt)

range_easy_expand-Evaluates_example :
    Returns (range_easy_expand no_modules one_parser (some (text "a,b,-b"))) λ nodes.
      ((q : Text) → (listed q nodes ≡ true) ↔ Meaning no_modules less q) × (length nodes ≤ 3)
range_easy_expand-Evaluates_example =
    range_easy_expand-Evaluates no_modules one_parser (text "a,b,-b") less refl less-IsPure
      ((tt, tt), tt) (omega arith)

range_expand_unparsed_example :
    Returns (range_expand no_modules one_parser (some (text "{a"))) λ rr.
      ((r : Range) × (rr.r ≡ some r) × Denotes r (λ _. ⊥) 0)
      × (rr.warnings ≡ some (text "syntax error|parsing [{a]"))
range_expand_unparsed_example =
    range_expand_unparsed no_modules one_parser (text "{a") (text "syntax error") refl
