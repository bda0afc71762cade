-- ===== src/Range/Braces.antt =====
-- `range_from_braces` of source/src/range.c: every join of a name of each part.
use Prim.Native.Nat.{max}
use mathlib.Core.Logic.{⊎_elim}
use mathlib.Core.Path.{subst}
use native.Mathlib.Nat.{mul-le-mul}
use libcrange.Base.{
  ℕ, ◌*◌, ◌≡◌, ◌≤◌, ◌<◌, refl, Text, List, [], ◌∷◌, ◌++◌, none, true, false, ◌||◌, arith, length,
  str_eq_iff, str_eq_refl, ◌⊎◌, inl, inr, ◌↔◌, Bool-cases, ◌==◌,
}
use libcrange.Base.{ok, ◌>>=◌, Returns}
use libcrange.HashSet.Resize.{set_new-Models, size_limit}
use libcrange.HashSet.Laws.{set_add-Models}
use libcrange.HashSet.{set_members, set_new, set_add}
use libcrange.Range.Meaning.{
  Denotes, of_Models, Denotes_ext, set_quoted, listed, range_new-Denotes, add_names-Denotes,
  set_members-Denotes,
}
use libcrange.Range.Joins.{join_all_sound, join_all_complete, length-join_all}
use libcrange.Range.{Range, range_from_braces, brace_names, join_all, names_of}

-- the names of a part of the braces: the empty name stands in for a part with none
abbrev pub OrBlank : (Text → Type 0) → Text → Type 0
OrBlank P q = P q ⊎ (((n : Text) → ¬ P n) × ([] ≡ q))

-- the joins of a name of each part
abbrev pub Joins : (Text → Type 0) → (Text → Type 0) → (Text → Type 0) → Text → Type 0
Joins P Q R q = (a b c : Text) × OrBlank P a × OrBlank Q b × OrBlank R c × (a ++ (b ++ c) ≡ q)

listed_of_pos : (ns : List Text) → 0 < length ns → (a : Text) × (listed a ns ≡ true)
listed_of_pos [] h = elim h [ ]
listed_of_pos (a ∷ ns) h = (a, rw (str_eq_refl a))

not_listed_of_zero : (q : Text) (ns : List Text) → length ns ≡ 0 → listed q ns ≡ false
not_listed_of_zero q [] h = refl
not_listed_of_zero q (a ∷ ns) h = absurd (omega arith)

-- the temporary set has the empty name alone
blank_names :
    Returns
      (set_new {D = Text} 1 >>= λ temp. set_add temp [] none >>= λ t. ok (names_of (set_members t)))
      λ ms. ((q : Text) → (listed q ms ≡ true) ↔ ([] ≡ q)) × (length ms ≤ 1)
blank_names =
    let (temp, run, (m, _, empty)) = set_new-Models {D = Text} 1 (omega arith) in
    let (t, run', (m', count, _)) = set_add-Models temp [] none m (omega arith) in
    let d : Denotes (record { nodes = t; quoted = false }) (λ q. [] ≡ q) 1 =
      of_Models false 1 m' (λ q. ground (arith, str_eq_iff [] q)) (omega arith) in
    let (exact, len) = set_members-Denotes d in
    (names_of (set_members t), rw (run, ◌>>=◌, run'), (exact, omega (arith, d.few)))

brace_names-OrBlank :
    (r : Range) {P : Text → Type 0} {n : ℕ}
    → Denotes r P n
    → Returns
        (brace_names r)
        λ ms. ((q : Text) → (listed q ms ≡ true) ↔ OrBlank P q) × (length ms ≤ max 1 n)
unfolding brace_names
brace_names-OrBlank r {P} {n} d =
    let (exact, len) = set_members-Denotes d in
    let ns = names_of (set_members r.nodes) in
    elim (Bool-cases (r.nodes.members == 0)) [
      | inl empty ↦
          let (ms, run, (blank, few)) = blank_names in
          let no_name : (q : Text) → ¬ P q =
            λ q p. let l = (exact q).1 p in let z = not_listed_of_zero q ns (ground arith) in cc in
          (
            ms,
            rw empty run,
            (
              λ q. (
                λ l. inr (no_name, (blank q).0 l),
                ⊎_elim (λ p. absurd (no_name q p)) (λ x. (blank q).1 x.1),
              ),
              omega arith,
            ),
          )
      | inr some_name ↦
          let (a, l) = listed_of_pos ns (ground arith) in
          let has = (exact a).0 l in
          (
            ns,
            rw some_name,
            (
              λ q. (λ l. inl ((exact q).0 l), ⊎_elim (exact q).1 (λ x. absurd (x.0 a has))),
              omega (arith, d.few),
            ),
          )
    ]

product_mono : {a b c a' b' c' : ℕ} → a ≤ a' → b ≤ b' → c ≤ c' → a * (b * c) ≤ a' * (b' * c')
product_mono h h' h'' = mul-le-mul h (mul-le-mul h' h'')

Joins-iff :
    {P Q R : Text → Type 0} (m₁ m₂ m₃ : List Text)
    → ((q : Text) → (listed q m₁ ≡ true) ↔ OrBlank P q)
    → ((q : Text) → (listed q m₂ ≡ true) ↔ OrBlank Q q)
    → ((q : Text) → (listed q m₃ ≡ true) ↔ OrBlank R q)
    → (q : Text) → ((listed q (join_all m₁ m₂ m₃) ≡ true) ⊎ ⊥) ↔ Joins P Q R q
Joins-iff m₁ m₂ m₃ e₁ e₂ e₃ q = (
  ⊎_elim
      (λ l.
        let (a, b, c, la, lb, lc, e) = join_all_sound q m₁ m₂ m₃ l in
        (a, b, c, (e₁ a).0 la, (e₂ b).0 lb, (e₃ c).0 lc, e))
      (λ x. absurd x),
  λ (a, b, c, pa, pb, pc, e). inl (
      subst (λ x. listed x (join_all m₁ m₂ m₃) ≡ true) e
        (join_all_complete a b c m₁ m₂ m₃ ((e₁ a).1 pa) ((e₂ b).1 pb) ((e₃ c).1 pc))),
)

-- `range_from_braces` returns exactly the joins of a name of each of the three parts, where the empty
-- name stands in for a part without names, and is quoted if one of the parts is. The parts are well-
-- formed, and the product of the bounds on their sizes (each at least 1) is at most 1610612741.
pub range_from_braces-Denotes :
    (r₁ r₂ r₃ : Range) {P Q R : Text → Type 0} {n₁ n₂ n₃ : ℕ}
    → Denotes r₁ P n₁
    → Denotes r₂ Q n₂
    → Denotes r₃ R n₃
    → max 1 n₁ * (max 1 n₂ * max 1 n₃) ≤ size_limit
    → Returns (range_from_braces r₁ r₂ r₃) λ r.
      Denotes r (Joins P Q R) (max 1 n₁ * (max 1 n₂ * max 1 n₃))
      × (r.quoted ≡ r₁.quoted || (r₂.quoted || r₃.quoted))
unfolding range_from_braces
range_from_braces-Denotes r₁ r₂ r₃ {P} {Q} {R} {n₁} {n₂} {n₃} d₁ d₂ d₃ h =
    let (m₁, run₁, (e₁, l₁)) = brace_names-OrBlank r₁ d₁ in
    let (m₂, run₂, (e₂, l₂)) = brace_names-OrBlank r₂ d₂ in
    let (m₃, run₃, (e₃, l₃)) = brace_names-OrBlank r₃ d₃ in
    let (r, run, (d, _)) = range_new-Denotes in
    let few : length (join_all m₁ m₂ m₃) ≤ max 1 n₁ * (max 1 n₂ * max 1 n₃) =
      rw (length-join_all m₁ m₂ m₃) (product_mono l₁ l₂ l₃) in
    let (r', run', (d', _)) = add_names-Denotes r (join_all m₁ m₂ m₃) d (omega arith) in
    (
      record r' { quoted = r₁.quoted || (r₂.quoted || r₃.quoted) },
      rw (run₁, ◌>>=◌, run₂, ◌>>=◌, run₃, ◌>>=◌, run, ◌>>=◌, run'),
      (set_quoted _ (Denotes_ext d' (λ q. Joins-iff m₁ m₂ m₃ e₁ e₂ e₃ q) (omega arith)), refl),
    )
