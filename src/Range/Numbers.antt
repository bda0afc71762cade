-- ===== src/Range/Numbers.antt =====
-- `range_from_rangeparts` of source/src/range.c on any two texts of digits.
use mathlib.Core.Logic.{⊎_elim}
use mathlib.Core.Path.{subst}
use native.Mathlib.Nat.{
  div-lt_iff_lt-mul, lt_of_lt_of_le, pow-le-pow_right, mod-eq_of_lt, div-add-mod',
  mul-add-div_right, div-eq_of_lt, pow-suc, mul-le-mul_right,
}
use libcrange.Base.{
  ap, ℕ, ◌+◌, ◌-◌, ◌*◌, ◌/◌, ◌%◌, ◌^◌, ◌≡◌, ◌≤◌, ◌<◌, refl, sym, ◌∙◌, Text, [], ◌∷◌, ◌++◌, true,
  false, arith, length, if◌then◌else◌, ltb, leb, leb→le, le→leb, ◌==◌, Bool-cases, inl, inr, ok,
  ◌>>=◌, Returns,
}
use libcrange.HashSet.Resize.{size_limit}
use libcrange.Range.Decimal.{zero_pad, format_padded, atoi, int_max, digits_value, is_digit}
use libcrange.Range.Digits.{pow10_pos, zero_pad-add, format_padded_fits, pow-add}
use libcrange.Range.Meaning.{listed, Denotes, Denotes_ext, range_new-Denotes, add_names-Denotes}
use libcrange.Range.Parts.{
  range_from_rangeparts-Denotes, parts, length-part_names, part_names_sound, part_names_complete,
}
use libcrange.Range.{RangeParts, range_from_rangeparts, part_names}

abbrev pub AllDigits : Text → Type 0
AllDigits [] = Unit
AllDigits (c ∷ cs) = (is_digit c ≡ true) × AllDigits cs

digits_value-acc :
    (t : Text) (acc : ℕ) → AllDigits t → digits_value acc t ≡ acc * 10 ^ length t + digits_value 0 t
unfolding digits_value
digits_value-acc [] acc h = omega arith
digits_value-acc (c ∷ t) acc h =
    rw
      (
        h.0,
        digits_value-acc t (acc * 10 + (c - 48)) h.1,
        digits_value-acc t (0 * 10 + (c - 48)) h.1,
        pow-suc 10 (length t),
      )
      (omega arith)

pub digits_value-lt : (t : Text) → AllDigits t → digits_value 0 t < 10 ^ length t
unfolding digits_value
digits_value-lt [] h = omega arith
digits_value-lt (c ∷ t) h =
    let digit : c - 48 ≤ 9 = ground (arith, h.0) in
    rw (h.0, digits_value-acc t (0 * 10 + (c - 48)) h.1, pow-suc 10 (length t))
      (omega (arith, digits_value-lt t h.1, mul-le-mul_right (10 ^ length t) digit))

-- A text of digits is what its value prints in its width.
pub zero_pad-digits_value : (t : Text) → AllDigits t → zero_pad (length t) (digits_value 0 t) ≡ t
unfolding zero_pad digits_value
zero_pad-digits_value [] h = refl
zero_pad-digits_value (c ∷ t) h =
    let w = length t in
    let d = 0 * 10 + (c - 48) in
    let small = digits_value-lt t h.1 in
    let top : (d * 10 ^ w + digits_value 0 t) / 10 ^ w ≡ d =
      mul-add-div_right (pow10_pos w) d (digits_value 0 t)
      ∙ rw (div-eq_of_lt small) (omega arith) in
    let back : 48 + d % 10 ≡ c = ground (arith, h.0) in
    rw (
      h.0,
      digits_value-acc t d h.1,
      top,
      back,
      zero_pad-add w d (digits_value 0 t),
      zero_pad-digits_value t h.1,
    )

-- the value of the first number, and the last number that a range reaches: where `last` is no
-- longer than `first`, it replaces the last digits of `first`
abbrev pub first_number : RangeParts → ℕ
first_number p = digits_value 0 p.first

abbrev pub last_number : RangeParts → ℕ
last_number p =
    let k = length p.last in
    if leb k (length p.first)
    then first_number p / 10 ^ k * 10 ^ k + digits_value 0 p.last
    else digits_value 0 p.last

-- the names from the first number to the last, in the width of the first
abbrev pub Numbers : RangeParts → Text → Type 0
Numbers p q =
    (j : ℕ) × (first_number p ≤ j)
    × (j ≤ last_number p)
    × (p.prefix ++ (format_padded (length p.first) j ++ p.domain) ≡ q)

abbrev pub numbers_count : RangeParts → ℕ
numbers_count p = last_number p + 1 - first_number p

-- Both ends are digits, and the numbers that the loop counts fit an `int`.
pub record IsNumbered (p : RangeParts) : Type 0 where
  pub first_digits : AllDigits p.first
  pub last_digits : AllDigits p.last
  pub some_digit : 0 < length p.last
  pub last_small : digits_value 0 p.last < int_max
  pub first_small : first_number p % 10 ^ length p.last ≤ int_max

atoi_value : (t : Text) → digits_value 0 t ≤ int_max → atoi t ≡ ok (digits_value 0 t)
unfolding atoi
atoi_value t h = rw (le→leb (digits_value 0 t) int_max h)

-- where the last number has more digits than the first
long_last :
    (p : RangeParts)
    → IsNumbered p
    → length p.first < length p.last
    → numbers_count p ≤ size_limit
    → Returns
        (range_from_rangeparts p)
        λ r. Denotes r (Numbers p) (numbers_count p) × (r.quoted ≡ false)
unfolding range_from_rangeparts
long_last p h long few =
    let w = length p.first in
    let n = first_number p in
    let v = digits_value 0 p.last in
    let c = v + 1 - n in
    let not_short : leb (length p.last) w ≡ false = ground arith in
    let extra : w - length p.last ≡ 0 = omega arith in
    let shorter : ltb (length p.last) w ≡ false = ground arith in
    let low : n < 10 ^ length p.last =
      lt_of_lt_of_le (digits_value-lt p.first h.first_digits)
        (pow-le-pow_right (omega arith) (omega arith)) in
    let first_small : n ≤ int_max = rw (mod-eq_of_lt low) at h.first_small in
    let inside : (v == int_max) ≡ false = ground (arith, h.last_small) in
    let names = part_names p [] w c n in
    let count = length-part_names p [] w c n in
    let reach : last_number p ≡ v = rw not_short in
    let (r, run, (d, plain)) = range_new-Denotes in
    let (r', run', (d', same)) = add_names-Denotes r names d (omega arith) in
    (
      r',
      rw
          (
            run,
            ◌>>=◌,
            extra,
            atoi_value p.first first_small,
            ◌>>=◌,
            atoi_value p.last (omega (arith, h.last_small)),
            ◌>>=◌,
            shorter,
            inside,
          )
          run',
      (
        Denotes_ext d'
            (λ q. (
              ⊎_elim
                  (λ l.
                    let (j, lo, hi, e) = part_names_sound p [] w c n q l in (j, lo, omega arith, e))
                  (λ x. absurd x),
              λ (j, lo, hi, e). inl (
                  subst (λ x. listed x names ≡ true) e
                    (part_names_complete p [] w c n j lo (omega arith))),
            ))
            (omega arith),
        same ∙ plain,
      ),
    )

reach-lt : (a k n v : ℕ) → n < 10 ^ (a + k) → v < 10 ^ k → n / 10 ^ k * 10 ^ k + v < 10 ^ (a + k)
reach-lt a k n v h h' =
    let top : n / 10 ^ k < 10 ^ a = (div-lt_iff_lt-mul (pow10_pos k)).1 (rw (pow-add a k) at h) in
    rw (pow-add a k) (omega (arith, mul-le-mul_right (10 ^ k) top))

-- where it has not
short_last :
    (p : RangeParts)
    → IsNumbered p
    → length p.last ≤ length p.first
    → numbers_count p ≤ size_limit
    → Returns
        (range_from_rangeparts p)
        λ r. Denotes r (Numbers p) (numbers_count p) × (r.quoted ≡ false)
short_last p h short few =
    let k = length p.last in
    let a = length p.first - k in
    let n = first_number p in
    let v = digits_value 0 p.last in
    let width : a + k ≡ length p.first = omega arith in
    let fits = digits_value-lt p.last h.last_digits in
    let first_text : zero_pad (a + k) n ≡ p.first =
      rw width (zero_pad-digits_value p.first h.first_digits) in
    let last_text = zero_pad-digits_value p.last h.last_digits in
    let is : parts p.prefix p.domain a k n v h.some_digit fits ≡ p = λ i. record {
      prefix = p.prefix;
      first = first_text i;
      last = last_text i;
      domain = p.domain;
    } in
    let reach : last_number p ≡ n / 10 ^ k * 10 ^ k + v = rw (le→leb k (length p.first) short) in
    let whole : n / 10 ^ k * 10 ^ k + n % 10 ^ k ≡ n = div-add-mod' n (10 ^ k) in
    let bound : n / 10 ^ k * 10 ^ k + v < 10 ^ length p.first =
      rw (← width) (reach-lt a k n v (rw width (digits_value-lt p.first h.first_digits)) fits) in
    let same_text : (j : ℕ)
        → j ≤ n / 10 ^ k * 10 ^ k + v
        → p.prefix ++ (zero_pad (a + k) j ++ p.domain)
          ≡ p.prefix ++ (format_padded (length p.first) j ++ p.domain) =
      λ j le. rw (
        width,
        format_padded_fits (length p.first) j (omega arith) (omega (arith, h.some_digit)),
      ) in
    let (r, run, (d, plain)) =
      range_from_rangeparts-Denotes p.prefix p.domain a k n v h.some_digit fits h.last_small
        h.first_small (omega arith) in
    (
      r,
      ap range_from_rangeparts (sym is) ∙ run,
      (
        Denotes_ext d
            (λ q. (
              λ (j, lo, hi, e). (j, lo, omega arith, sym (same_text j (omega arith)) ∙ e),
              λ (j, lo, hi, e). (j, lo, omega arith, same_text j (omega arith) ∙ e),
            ))
            (omega arith),
        plain,
      ),
    )

-- For ends that are digits, of which the last has one, where the last number is below 2147483647, the
-- digits of the first that are not padding are at most 2147483647, and at most 1610612741 numbers lie
-- between them, `range_from_rangeparts` runs without a fault and returns exactly the names with the
-- numbers from the first to the last between the prefix and the domain, each in at least the width of
-- the first, where the digits that the last leaves out are those of the first. The range is not quoted.
pub range_from_rangeparts-Numbers :
    (p : RangeParts)
    → IsNumbered p
    → numbers_count p ≤ size_limit
    → Returns
        (range_from_rangeparts p)
        λ r. Denotes r (Numbers p) (numbers_count p) × (r.quoted ≡ false)
range_from_rangeparts-Numbers p h few = elim (Bool-cases (leb (length p.last) (length p.first))) [
  | inl short ↦ short_last p h (leb→le _ _ short) few
  | inr long ↦ long_last p h (ground arith) few
]
