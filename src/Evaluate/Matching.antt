-- ===== src/Evaluate/Matching.antt =====
-- `range_from_match` of source/src/range.c: the names of a range that match a pattern.
use libcrange.Base.{
  ℕ, ◌+◌, ◌≡◌, ◌≤◌, refl, ◌∙◌, Text, text, ◌++◌, List, [], ◌∷◌, Bool, true, false, arith, length,
  str_eq_iff, ◌⊎◌, inl, inr, Bool-cases, Sum-cases,
}
use libcrange.Base.{◌>>=◌, Returns}
use libcrange.HashSet.Resize.{size_limit}
use libcrange.HashSet.{set_members}
use libcrange.Range.Meaning.{
  Denotes, Denotes_ext, listed, range_new-Denotes, range_add-Denotes, set_members-Denotes,
  hostnames_plain,
}
use libcrange.Range.{Range, range_get_hostnames, names_of}
use libcrange.Request.{Request, range_request_warn}
use libcrange.Evaluate.{Env, add_matching, range_from_match}

pub add_matching-Denotes :
    (matches : Text → Bool) (r : Range) {P : Text → Type 0} {n : ℕ} (names : List Text)
    → Denotes r P n
    → n + length names ≤ size_limit
    → Returns (add_matching matches r names) λ r'.
      Denotes r' (λ q. (listed q names ≡ true) × (matches q ≡ true) ⊎ P q) (n + length names)
      × (r'.quoted ≡ r.quoted)
unfolding add_matching
add_matching-Denotes matches r [] d h =
    (r, refl, (Denotes_ext d (λ q. ground arith) (omega arith), refl))
add_matching-Denotes matches r (name ∷ names) d h = elim (Bool-cases (matches name)) [
  | inl hit ↦
      let (r', run, (d', same)) = range_add-Denotes r name d (omega arith) in
      let (r'', run', (d'', same')) = add_matching-Denotes matches r' names d' (omega arith) in
      (
        r'',
        rw (hit, run) run',
        (Denotes_ext d'' (λ q. ground (arith, str_eq_iff name q)) (omega arith), same' ∙ same),
      )
  | inr miss ↦
      let (r'', run', (d'', same')) = add_matching-Denotes matches r names d (omega arith) in
      (
        r'',
        rw miss run',
        (Denotes_ext d'' (λ q. ground (arith, str_eq_iff name q)) (omega arith), same'),
      )
]

-- the names that a pattern matches: none, if it does not compile
abbrev pub Matches : Env → Text → Text → Type 0
Matches env s q = elim (env.pcre_compile s) [ inl _ ↦ ⊥ | inr matches ↦ matches q ≡ true ]

-- `range_from_match` returns exactly those names of a well-formed range, not quoted and of at most
-- 1610612741 names, that the pattern matches, and none if the pattern does not compile. The result is
-- not quoted.
pub range_from_match-Denotes :
    (env : Env) (rr : Request) (r : Range) {P : Text → Type 0} {n : ℕ} (s : Text)
    → Denotes r P n
    → r.quoted ≡ false
    → n ≤ size_limit
    → Returns
        (range_from_match env rr r s)
        λ x. Denotes x.0 (λ q. P q × Matches env s q) n × (x.0.quoted ≡ false)
unfolding range_from_match
range_from_match-Denotes env rr r {P} {n} s d plain few =
    let (ret, run, (d₀, q₀)) = range_new-Denotes in
    elim (Sum-cases (env.pcre_compile s)) [
      | inl (error, e) ↦ (
        (ret, range_request_warn rr (text "regex [" ++ (s ++ (text "] [" ++ (error ++ text "]"))))),
        rw (run, ◌>>=◌, e),
        (Denotes_ext d₀ (λ q. rw (e, Matches) (ground arith)) (omega arith), q₀),
      )
      | inr (matches, e) ↦
          let (exact, len) = set_members-Denotes d in
          let names = names_of (set_members r.nodes) in
          let bare : range_get_hostnames r ≡ names = hostnames_plain r plain in
          let (ret', run', (d', same)) =
            add_matching-Denotes matches ret names d₀ (omega (arith, d.few)) in
          (
            (ret', rr),
            rw (run, ◌>>=◌, e, bare, run'),
            (
              Denotes_ext d' (λ q. rw (e, Matches) (ground (arith, exact q)))
                  (omega (arith, d.few)),
              same ∙ q₀,
            ),
          )
    ]
