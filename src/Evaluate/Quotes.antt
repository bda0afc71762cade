-- ===== src/Evaluate/Quotes.antt =====
-- Quoted ranges in source/src/ast.c: a pattern is tried on names in quotes, and the flag of a
-- union depends on the order and the sizes of its parts.
use mathlib.Core.Logic.{⊎_elim}
use libcrange.Base.{
  ℕ, suc, ◌+◌, ◌≡◌, ◌≢◌, ◌≤◌, refl, sym, ap, ◌∙◌, Text, List, [], ◌∷◌, ◌++◌, map, true, false,
  arith, length, length-append, str_eq, str_eq_iff, str_eq_refl, inl, inr, ◌>>=◌, Returns,
  Sum-cases, Bool-cases, text, ltb,
}
use libcrange.HashSet.Resize.{size_limit}
use libcrange.HashSet.{set_members}
use libcrange.Range.Meaning.{
  Denotes, Denotes_ext, listed, range_new-Denotes, set_members-Denotes, hostnames_quoted,
  members_pos,
}
use libcrange.Range.Algebra.{
  range_from_nonrange_literal-Denotes, range_from_literal-Denotes, range_diff_inplace-Denotes,
  range_union_inplace-Denotes,
}
use libcrange.Range.{Range, range_get_hostnames, names_of, in_quotes, range_diff_inplace}
use libcrange.Request.{Request, range_request_warn}
use libcrange.Evaluate.Matching.{add_matching-Denotes}
use libcrange.Evaluate.{
  Env, diff, regex, nonrange_literal, literal, union, range_from_match, range_evaluate,
  second_range, regex_of, union_ranges,
}

listed-in_quotes :
    (q : Text) (names : List Text)
    → listed q (map in_quotes names) ≡ true
    → (n : Text) × (listed n names ≡ true) × (in_quotes n ≡ q)
listed-in_quotes q [] h = absurd (cc)
listed-in_quotes q (n ∷ names) h = elim (Bool-cases (str_eq (in_quotes n) q)) [
  | inl same ↦ (n, rw (str_eq_refl n), (str_eq_iff (in_quotes n) q).0 same)
  | inr other ↦ let (m, l, e) = listed-in_quotes q names (ground arith) in (m, ground arith, e)
]

length-quotes : (names : List Text) → length (map in_quotes names) ≡ length names
length-quotes [] = refl
length-quotes (n ∷ names) = ap suc (length-quotes names)

-- Every name that `range_from_match` selects from a quoted range is one of its names in quotes.
range_from_match-quoted :
    (env : Env) (rr : Request) (r : Range) {P : Text → Type 0} {n : ℕ} (s : Text)
    → Denotes r P n
    → r.quoted ≡ true
    → n ≤ size_limit
    → Returns (range_from_match env rr r s) λ x.
      (Q : Text → Type 0) × Denotes x.0 Q n
      × ((q : Text) → Q q → (m : Text) × P m × (in_quotes m ≡ q))
unfolding range_from_match
range_from_match-quoted env rr r {P} {n} s d quoted few =
    let (ret, run, (d₀, _)) = range_new-Denotes in
    elim (Sum-cases (env.pcre_compile s)) [
      | inl (error, e) ↦ (
        (ret, range_request_warn rr (text "regex [" ++ (s ++ (text "] [" ++ (error ++ text "]"))))),
        rw (run, ◌>>=◌, e),
        ((λ _. ⊥), Denotes_ext d₀ (λ q. (λ x. x, λ x. x)) (omega arith), λ q x. absurd x),
      )
      | inr (matches, e) ↦
          let (exact, len) = set_members-Denotes d in
          let names = names_of (set_members r.nodes) in
          let shown : range_get_hostnames r ≡ map in_quotes names = hostnames_quoted r quoted in
          let (ret', run', (d', _)) =
            add_matching-Denotes matches ret (map in_quotes names) d₀
              (omega (arith, d.few, length-quotes names)) in
          (
            (ret', rr),
            rw (run, ◌>>=◌, e, shown, run'),
            (
              _,
              Denotes_ext d' (λ q. (λ x. x, λ x. x)) (omega (arith, d.few, length-quotes names)),
              λ q.
                  ⊎_elim
                    (λ x.
                      let (m, l, same) = listed-in_quotes q names x.0 in (m, (exact m).0 l, same))
                    (λ x. absurd x),
            ),
          )
    ]

longer_in_quotes : (s : Text) → in_quotes s ≢ s
longer_in_quotes s e = absurd (omega (arith, ap length e, length-append s (34 ∷ [])))

-- The difference of a quoted literal and a pattern, every pattern and every literal, keeps the literal,
-- also where the pattern matches it: the pattern is tried on the name in quotes, and what it selects is
-- no name of the set.
pub quoted_literal_kept :
    (env : Env) (rr : Request) (s pattern' : Text)
    → Returns
        (range_evaluate env (diff (nonrange_literal s) (regex pattern')) rr)
        λ x. Denotes x.0 (λ q. s ≡ q) 1 × (x.0.quoted ≡ true)
unfolding range_evaluate second_range regex_of
quoted_literal_kept env rr s pattern' =
    let (r, run, (d, quoted)) = range_from_nonrange_literal-Denotes s in
    let (x, run', (Q, d', inside)) =
      range_from_match-quoted env rr r pattern' d quoted (omega arith) in
    let (d'', same) = range_diff_inplace-Denotes d d' in
    (
      (range_diff_inplace r x.0, x.1),
      rw (run, ◌>>=◌, run'),
      (
        Denotes_ext d''
            (λ q. (
              λ h. h.0,
              λ h. (
                h,
                λ picked. let (m, e, e') = inside q picked in longer_in_quotes m (e' ∙ (sym h ∙ e)),
              ),
            ))
            (omega arith),
        same ∙ quoted,
      ),
    )

-- where the first range is not larger, a union has the flag of the second
union_flag :
    {r₁ r₂ : Range} {P Q : Text → Type 0} {n m : ℕ}
    → Denotes r₁ P n
    → Denotes r₂ Q m
    → r₁.nodes.members ≤ r₂.nodes.members
    → n + m ≤ size_limit
    → Returns (union_ranges r₁ r₂) (λ r. r.quoted ≡ r₂.quoted)
unfolding union_ranges
union_flag {r₁} {r₂} d d' h few =
    let other : ltb r₂.nodes.members r₁.nodes.members ≡ false = ground arith in
    let (r, run, (_, same)) = range_union_inplace-Denotes d' d (omega arith) in
    (r, rw other run, same)

-- A union of a plain and a quoted literal is quoted where the quoted one stands last, and is not quoted
-- where it stands first.
union_flag_by_order :
    (env : Env) (rr : Request) (a b : Text)
    → Returns
        (range_evaluate env (union (literal a) (nonrange_literal b)) rr)
        (λ x. x.0.quoted ≡ true)
      × Returns
          (range_evaluate env (union (nonrange_literal b) (literal a)) rr)
          (λ x. x.0.quoted ≡ false)
unfolding range_evaluate
union_flag_by_order env rr a b =
    let (x, run, (d, plain)) = range_from_literal-Denotes a in
    let (y, run', (d', quoted)) = range_from_nonrange_literal-Denotes b in
    let some_x = members_pos a d refl in
    let some_y = members_pos b d' refl in
    let (r, run₁, flag) = union_flag d d' (omega (arith, d.few)) (omega arith) in
    let (r', run₂, flag') = union_flag d' d (omega (arith, d'.few)) (omega arith) in
    (
      ((r, rr), rw (run, ◌>>=◌, run', ◌>>=◌, run₁), flag ∙ quoted),
      ((r', rr), rw (run', ◌>>=◌, run, ◌>>=◌, run₂), flag' ∙ plain),
    )
