-- ===== src/Range/Parts.antt =====
-- `range_from_rangeparts` of source/src/range.c: every number from the first to the last.
use mathlib.Core.Logic.{⊎_elim}
use mathlib.Core.List.{append_assoc}
use mathlib.Core.Path.{subst}
use native.Mathlib.Decide.{ℕ_discrete}
use native.Mathlib.Nat.{mod-eq_of_lt, div-add-mod', mul-add-div_right, div-eq_of_lt}
use libcrange.Base.{
  ap, ℕ, zero, suc, ◌+◌, ◌-◌, ◌*◌, ◌/◌, ◌%◌, ◌^◌, ◌≡◌, ◌≤◌, ◌<◌, refl, sym, ◌∙◌, Text, ◌++◌, true,
  false, arith, length, if◌then◌else◌, ltb, ◌==◌, Bool-cases, inl, inr, ◌⊎◌, ◌↔◌, ok, ◌>>=◌,
  Returns, str_eq, str_eq_iff, str_eq_refl,
}
use libcrange.HashSet.Resize.{size_limit}
use libcrange.Range.Decimal.{zero_pad, format_padded, atoi, int_max}
use libcrange.Range.Digits.{
  pow10_pos, length-zero_pad, zero_pad-add, zero_pad-append, format_padded_fits, atoi-zero_pad,
  take-zero_pad, drop-zero_pad,
}
use libcrange.Range.Meaning.{Denotes, Denotes_ext, listed, range_new-Denotes, add_names-Denotes}
use libcrange.Range.{RangeParts, part_names, range_from_rangeparts}

pub length-part_names :
    (parts : RangeParts) (pad : Text) (k c i : ℕ) → length (part_names parts pad k c i) ≡ c
unfolding part_names
length-part_names parts pad k zero i = refl
length-part_names parts pad k (suc c) i = ap suc (length-part_names parts pad k c (i + 1))

-- the name of the number `j`
abbrev pub part_name : RangeParts → Text → ℕ → ℕ → Text
part_name parts pad k j = parts.prefix ++ (pad ++ (format_padded k j ++ parts.domain))

pub part_names_sound :
    (parts : RangeParts) (pad : Text) (k c i : ℕ) (q : Text)
    → listed q (part_names parts pad k c i) ≡ true
    → (j : ℕ) × (i ≤ j) × (j < i + c) × (part_name parts pad k j ≡ q)
unfolding part_names
part_names_sound parts pad k zero i q h = absurd (cc)
part_names_sound parts pad k (suc c) i q h =
    elim (Bool-cases (str_eq (part_name parts pad k i) q)) [
      | inl same ↦ (i, omega arith, omega arith, (str_eq_iff (part_name parts pad k i) q).0 same)
      | inr other ↦
          let (j, lo, hi, e) = part_names_sound parts pad k c (i + 1) q (ground arith) in
          (j, omega arith, omega arith, e)
    ]

pub part_names_complete :
    (parts : RangeParts) (pad : Text) (k c i j : ℕ)
    → i ≤ j
    → j < i + c
    → listed (part_name parts pad k j) (part_names parts pad k c i) ≡ true
unfolding part_names
part_names_complete parts pad k zero i j lo hi = absurd (omega arith)
part_names_complete parts pad k (suc c) i j lo hi = elim (ℕ_discrete i j) [
  | yes same ↦ rw (same, str_eq_refl (part_name parts pad k j))
  | no other ↦
      ground (arith, part_names_complete parts pad k c (i + 1) j (omega arith) (omega arith))
]

-- the text of the number `j` in a width of `a + k`, with `q` in front of its last `k` digits
join_digits :
    (a k q j : ℕ)
    → j < 10 ^ k
    → 0 < k
    → zero_pad a q ++ format_padded k j ≡ zero_pad (a + k) (q * 10 ^ k + j)
join_digits a k q j h pos =
    let top : (q * 10 ^ k + j) / 10 ^ k ≡ q =
      mul-add-div_right (pow10_pos k) q j ∙ rw (div-eq_of_lt h) (omega arith) in
    rw (zero_pad-append a k (q * 10 ^ k + j), top, zero_pad-add k q j, format_padded_fits k j h pos)

module _ (pre dom : Text) (a k n v : ℕ) (pos : 0 < k) (fits : v < 10 ^ k) where
  abbrev pub parts : RangeParts
  parts = record { prefix = pre; first = zero_pad (a + k) n; last = zero_pad k v; domain = dom }

  -- the numbers from `n` up to the one that `v` ends, in the width of the first
  abbrev pub Numbered : Text → Type 0
  Numbered q =
      (j : ℕ) × (n ≤ j) × (j ≤ n / 10 ^ k * 10 ^ k + v) × (pre ++ (zero_pad (a + k) j ++ dom) ≡ q)

  part_name-eq :
      (j : ℕ)
      → j < 10 ^ k
      → part_name parts (zero_pad a (n / 10 ^ k)) k j
        ≡ pre ++ (zero_pad (a + k) (n / 10 ^ k * 10 ^ k + j) ++ dom)
  part_name-eq j h =
      ap (λ t. pre ++ t)
        (sym (append_assoc (zero_pad a (n / 10 ^ k)) (format_padded k j) dom)
          ∙ ap (λ t. t ++ dom) (join_digits a k (n / 10 ^ k) j h pos))

  Numbered-iff :
      (q : Text)
      → ((listed q (part_names parts (zero_pad a (n / 10 ^ k)) k (v + 1 - n % 10 ^ k) (n % 10 ^ k))
            ≡ true)
          ⊎ ⊥)
        ↔ Numbered q
  Numbered-iff q =
      let base = n / 10 ^ k * 10 ^ k in
      let whole : base + n % 10 ^ k ≡ n = div-add-mod' n (10 ^ k) in
      let pad = zero_pad a (n / 10 ^ k) in
      let c = v + 1 - n % 10 ^ k in
      (
        ⊎_elim
            (λ l.
              let (j, lo, hi, e) = part_names_sound parts pad k c (n % 10 ^ k) q l in
              (base + j, omega arith, omega arith, sym (part_name-eq j (omega arith)) ∙ e))
            (λ x. absurd x),
        λ (j, lo, hi, e).
            let i = j - base in
            let back : base + i ≡ j = omega arith in
            let same : part_name parts pad k i ≡ q = part_name-eq i (omega arith) ∙ rw back e in
            inl (
              subst (λ x. listed x (part_names parts pad k c (n % 10 ^ k)) ≡ true) same
                (part_names_complete parts pad k c (n % 10 ^ k) i (omega arith) (omega arith))),
      )

  -- A last number of `k` digits, no longer than the first, stands for the first number with its
  -- last `k` digits replaced. The range has the numbers from the first to that one, each in the
  -- width of the first, and no other name. The numbers after the padding fit an `int`.
  pub range_from_rangeparts-Denotes :
      v < int_max
      → n % 10 ^ k ≤ int_max
      → v + 1 - n % 10 ^ k ≤ size_limit
      → Returns
          (range_from_rangeparts parts)
          λ r. Denotes r Numbered (v + 1 - n % 10 ^ k) × (r.quoted ≡ false)
  unfolding range_from_rangeparts
  range_from_rangeparts-Denotes small small' few =
      let lf = length-zero_pad (a + k) n in
      let ll = length-zero_pad k v in
      let extra : length parts.first - length parts.last ≡ a = rw (lf, ll) (omega arith) in
      let width : (if ltb (length parts.last) (length parts.first)
            then length parts.last
            else length parts.first)
          ≡ k =
        rw (lf, ll) (ground arith) in
      let same : v % 10 ^ k ≡ v = mod-eq_of_lt fits in
      let last_value : atoi (zero_pad k v) ≡ ok v = atoi-zero_pad k v (omega arith) ∙ ap ok same in
      let inside : (v == int_max) ≡ false = ground arith in
      let names = part_names parts (zero_pad a (n / 10 ^ k)) k (v + 1 - n % 10 ^ k) (n % 10 ^ k) in
      let count =
        length-part_names parts (zero_pad a (n / 10 ^ k)) k (v + 1 - n % 10 ^ k) (n % 10 ^ k) in
      let (r, run, (d, plain)) = range_new-Denotes in
      let (r', run', (d', same')) = add_names-Denotes r names d (omega arith) in
      (
        r',
        rw
            (
              run,
              ◌>>=◌,
              extra,
              width,
              drop-zero_pad a k n,
              take-zero_pad a k n,
              atoi-zero_pad k n small',
              ◌>>=◌,
              last_value,
              ◌>>=◌,
              inside,
            )
            run',
        (Denotes_ext d' Numbered-iff (omega arith), same' ∙ plain),
      )
