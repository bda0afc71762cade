-- ===== src/Compress/Segments.antt =====
-- The groups of `do_range_compress`, source/src/range_compress.c, against the names that they are
-- made of.
use libcrange.Base.{
  ℕ, zero, suc, ◌+◌, ◌^◌, ◌≡◌, ◌≤◌, ◌<◌, refl, ◌∙◌, Text, List, [], ◌∷◌, ◌++◌, Option, none, some,
  true, false, length, arith, ◌==◌, ltb, str_eq_iff, Bool-cases, ◌⊎◌, inl, inr, ◌↔◌,
}
use libcrange.Base.{ok, Returns}
use libcrange.HashSet.Resize.{size_limit}
use libcrange.Range.Decimal.{digits_value, format_padded, int_max}
use libcrange.Range.Digits.{format_padded_fits}
use libcrange.Range.Meaning.{listed, Denotes, Denotes_ext}
use libcrange.Range.Numbers.{AllDigits, digits_value-lt, zero_pad-digits_value}
use libcrange.Range.{RangeParts, range_from_rangeparts}
use libcrange.Compress.Groups.{GroupNames, print_parts, fmt_group-Numbers}
use libcrange.Compress.Unnumbered.{numbered, unnumbered}
use libcrange.Compress.{
  NodeParts, init_prev_parts, continues, add_int, int_eq, close_group, next_width,
}

-- The text of a group stands for the names: it is the only one, or it is a range of hosts that
-- expands to them.
pub data Stands : Text → List Text → Type 0 where
  alone : (name : Text) → Stands name (name ∷ [])
  expands :
      (p : RangeParts) (names : List Text)
      → Returns
          (range_from_rangeparts p)
          (λ r. Denotes r (λ q. listed q names ≡ true) (length names))
      → Stands (print_parts p) names

-- The names are, in their order, those of the first group, then those of the second, and so on.
pub data Segments : List Text → List Text → Type 0 where
  no_group : Segments [] []
  then_group :
      (g : Text) (names : List Text) (gs rest : List Text)
      → Stands g names
      → Segments gs rest
      → Segments (g ∷ gs) (names ++ rest)

-- What `node_to_parts` makes of a name: a name without a number, or a prefix, digits that an `int`
-- holds and a domain, other than the sole number 1.
pub data IsNode : NodeParts → Type 0 where
  plain : (name : Text) → 0 < length name → IsNode (unnumbered name)
  counted :
      (prefix domain digits : Text)
      → AllDigits digits
      → 0 < length digits
      → digits_value 0 digits < int_max
      → (digits_value 0 digits ≡ 1 → 0 < length prefix + length domain)
      → IsNode
          (numbered prefix domain (digits_value 0 digits) digits (prefix ++ (digits ++ domain)))

-- the state of the loop at the group that `prev` begins, and the names of the group so far
pub data Current : NodeParts → Option ℕ → ℕ → List Text → Type 0 where
  sole :
      (name : Text) (len : Option ℕ) → 0 < length name → Current (unnumbered name) len 0 (name ∷ [])
  running :
      (prefix domain digits : Text) (count : ℕ) (others : List Text)
      → AllDigits digits
      → 0 < length digits
      → digits_value 0 digits + count < 10 ^ length digits
      → digits_value 0 digits + count < int_max
      → length others ≡ count
      → ((q : Text)
          → (listed q ((prefix ++ (digits ++ domain)) ∷ others) ≡ true)
            ↔ GroupNames prefix domain (length digits) (digits_value 0 digits) count q)
      → Current
          (numbered prefix domain (digits_value 0 digits) digits (prefix ++ (digits ++ domain)))
          (some (length digits))
          count
          ((prefix ++ (digits ++ domain)) ∷ others)

pub close_group-Stands :
    {prev : NodeParts} {len : Option ℕ} {count : ℕ} {names : List Text}
    → Current prev len count names
    → length names ≤ size_limit
    → (g : Text) × (close_group prev count ≡ ok g) × Stands g names
unfolding close_group
close_group-Stands (sole name len h) few = (name, refl, alone name)
close_group-Stands (running prefix domain digits zero [] all wide fits small counted' exact) few =
    (prefix ++ (digits ++ domain), refl, alone (prefix ++ (digits ++ domain)))
close_group-Stands (running prefix domain digits zero (o ∷ os) all wide fits small c exact) few =
    absurd (omega arith)
close_group-Stands (running prefix domain digits (suc n) others all wide fits small c exact) few =
    let names = (prefix ++ (digits ++ domain)) ∷ others in
    let (last, printed, (r, run, d)) =
      fmt_group-Numbers prefix domain digits (prefix ++ (digits ++ domain)) (suc n) all wide
        (omega arith) fits small (omega arith) in
    let p : RangeParts = record { prefix = prefix; first = digits; last = last; domain = domain } in
    let more : ltb 0 (suc n) ≡ true = ground arith in
    (
      print_parts p,
      rw more printed,
      expands p names (r, run, Denotes_ext d (λ q. ((exact q).1, (exact q).0)) (omega arith)),
    )

-- digits are what their value prints in their width
format_padded_digits :
    (t : Text) (w j : ℕ)
    → AllDigits t
    → 0 < length t
    → length t ≡ w
    → digits_value 0 t ≡ j
    → format_padded w j ≡ t
format_padded_digits t w j all wide same value =
    rw (← same, ← value)
      (format_padded_fits (length t) (digits_value 0 t) (digits_value-lt t all) wide
        ∙ zero_pad-digits_value t all)

listed-snoc :
    (q n : Text) (names : List Text)
    → (listed q (names ++ n ∷ []) ≡ true) ↔ ((listed q names ≡ true) ⊎ (n ≡ q))
listed-snoc q n [] = ground (arith, str_eq_iff n q)
listed-snoc q n (m ∷ names) = ground (arith, str_eq_iff n q, listed-snoc q n names)

pub starts-IsNode : {p : NodeParts} → IsNode p → continues p init_prev_parts 0 none ≡ ok false
unfolding continues add_int int_eq
starts-IsNode (plain name h) = ground arith
starts-IsNode (counted prefix domain digits all wide small bare) = ground arith

pub fresh-Current :
    {p : NodeParts} (len : Option ℕ) → IsNode p → Current p (next_width p len) 0 (p.full_name ∷ [])
unfolding next_width
fresh-Current len (plain name h) = sole name len h
fresh-Current len (counted prefix domain digits all wide small bare) =
    let fits = digits_value-lt digits all in
    let printed : (j : ℕ) → digits_value 0 digits ≡ j → format_padded (length digits) j ≡ digits =
      λ j. format_padded_digits digits (length digits) j all wide refl in
    running prefix domain digits 0 [] all wide (omega arith) (omega arith) refl λ q. (
      λ h. (
        digits_value 0 digits,
        omega arith,
        omega arith,
        rw (printed (digits_value 0 digits) refl)
            (ground (arith, str_eq_iff (prefix ++ (digits ++ domain)) q, h)),
      ),
      λ (j, lo, hi, e).
          let here : prefix ++ (digits ++ domain) ≡ q = rw (printed j (omega arith)) at e in
          ground (arith, str_eq_iff (prefix ++ (digits ++ domain)) q, here),
    )

-- A group goes on with the name whose number is the next, in the same width.
pub extended :
    (prefix domain digits next : Text) (count : ℕ) (names : List Text)
    → AllDigits next
    → 0 < length next
    → length next ≡ length digits
    → digits_value 0 next ≡ digits_value 0 digits + (count + 1)
    → ((q : Text)
        → (listed q names ≡ true)
          ↔ GroupNames prefix domain (length digits) (digits_value 0 digits) count q)
    → (q : Text)
    → (listed q (names ++ (prefix ++ (next ++ domain)) ∷ []) ≡ true)
      ↔ GroupNames prefix domain (length digits) (digits_value 0 digits) (count + 1) q
extended prefix domain digits next count names all wide same value exact q =
    let printed : (j : ℕ) → digits_value 0 next ≡ j → format_padded (length digits) j ≡ next =
      λ j. format_padded_digits next (length digits) j all wide same in
    let last = digits_value 0 next in
    let snoc = listed-snoc q (prefix ++ (next ++ domain)) names in
    (
      λ h. elim (snoc.0 h) [
        | inl before ↦ let (j, lo, hi, e) = (exact q).0 before in (j, lo, omega arith, e)
        | inr here ↦ (last, omega arith, omega arith, rw (printed last refl) here)
      ],
      λ (j, lo, hi, e). elim (Bool-cases (j == last)) [
        | inl at_last ↦
            let eq : last ≡ j = ground (arith, at_last) in snoc.1 (inr (rw (printed j eq) at e))
        | inr before ↦
            let less : j ≤ digits_value 0 digits + count = ground (arith, before) in
            snoc.1 (inl ((exact q).1 (j, lo, less, e)))
      ],
    )
