-- ===== src/Range/Digits.antt =====
-- Decimal numbers of a fixed width: what `atoi` reads of what `%0*d` prints, and how such a text splits.
use Prim.Native.Nat.{max}
use native.Mathlib.Nat.{
  pow-suc, div-add-mod, mod-lt, mod-eq_of_lt, mul-le-mul_right, mul-add-mod_self_left,
  mul-add-mod_self_right, mul-add-div_right, zero-add, mul_comm, div-div-eq-div-mul,
}
use libcrange.Base.{
  ap, ℕ, zero, suc, ◌+◌, ◌-◌, ◌*◌, ◌/◌, ◌%◌, ◌^◌, ◌≡◌, ◌≤◌, ◌<◌, refl, ◌∙◌, ◌++◌, true, arith,
  length, take, drop, ltb, Bool-cases, inl, inr, lt→ltb, le→leb, ok, take-append_width,
  drop-append_width,
}
use libcrange.Range.Decimal.{
  digits_value, is_digit, zero_pad, digits_count, format_padded, atoi, int_max,
}

pub pow10_pos : (k : ℕ) → 0 < 10 ^ k
pow10_pos zero = omega arith
pow10_pos (suc k) = rw pow-suc (omega (arith, pow10_pos k))

pub length-zero_pad : (w n : ℕ) → length (zero_pad w n) ≡ w
unfolding zero_pad
length-zero_pad zero n = refl
length-zero_pad (suc w) n = ap suc (length-zero_pad w n)

pub pow-add : (a b : ℕ) → 10 ^ (a + b) ≡ 10 ^ a * 10 ^ b
pow-add zero b = rw zero-add (omega arith)
pow-add (suc a) b =
    let e : suc a + b ≡ suc (a + b) = omega arith in
    rw (e, pow-suc 10 (a + b), pow-suc 10 a, pow-add a b) (omega arith)

mod_suc : (p n : ℕ) → 0 < p → n % (p * 10) ≡ n / p % 10 * p + n % p
mod_suc p n h =
    let c = n / p % 10 * p + n % p in
    let split : n ≡ p * 10 * (n / p / 10) + c =
      omega (arith, div-add-mod n p, ap (λ (t : ℕ). p * t) (div-add-mod (n / p) 10)) in
    let digit : n / p % 10 ≤ 9 = omega arith in
    let small : c < p * 10 = omega (arith, mul-le-mul_right p digit, mod-lt n h) in
    ap (λ (t : ℕ). t % (p * 10)) split
    ∙ mul-add-mod_self_left (p * 10) (n / p / 10) c
    ∙ mod-eq_of_lt small

pub digits_value-zero_pad :
    (w n acc : ℕ) → digits_value acc (zero_pad w n) ≡ acc * 10 ^ w + n % 10 ^ w
unfolding digits_value zero_pad
digits_value-zero_pad zero n acc = omega arith
digits_value-zero_pad (suc w) n acc =
    let d = n / 10 ^ w % 10 in
    let digit : is_digit (48 + d) ≡ true = ground arith in
    let plain : 48 + d - 48 ≡ d = omega arith in
    rw
      (
        digit,
        plain,
        digits_value-zero_pad w n (acc * 10 + d),
        pow-suc,
        mod_suc (10 ^ w) n (pow10_pos w),
      )
      (omega arith)

-- only the last digits count
pub zero_pad-add : (k q i : ℕ) → zero_pad k (q * 10 ^ k + i) ≡ zero_pad k i
unfolding zero_pad
zero_pad-add zero q i = refl
zero_pad-add (suc k) q i =
    let p = 10 ^ k in
    let shift : q * 10 ^ suc k + i ≡ q * 10 * p + i = rw pow-suc (omega arith) in
    let head_digit : (q * 10 * p + i) / p % 10 ≡ i / p % 10 =
      rw (mul-add-div_right (pow10_pos k) (q * 10) i, mul-add-mod_self_right q 10 (i / p)) in
    rw (shift, head_digit, zero_pad-add k (q * 10) i)

pub zero_pad-append : (a b n : ℕ) → zero_pad (a + b) n ≡ zero_pad a (n / 10 ^ b) ++ zero_pad b n
unfolding zero_pad
zero_pad-append zero b n = rw zero-add
zero_pad-append (suc a) b n =
    let e : suc a + b ≡ suc (a + b) = omega arith in
    let d : n / 10 ^ b / 10 ^ a ≡ n / 10 ^ (a + b) =
      rw (pow-add a b, mul_comm (10 ^ a) (10 ^ b)) (div-div-eq-div-mul n (10 ^ b) (10 ^ a)) in
    rw (e, d, ← zero_pad-append a b n)

pub digits_count_le : (fuel w n : ℕ) → n < 10 ^ w → 0 < w → digits_count fuel n ≤ w
unfolding digits_count
digits_count_le zero w n h pos = pos
digits_count_le (suc fuel) zero n h pos = elim pos [ ]
digits_count_le (suc fuel) (suc zero) n h pos = rw (lt→ltb n 10 h) (omega arith)
digits_count_le (suc fuel) (suc (suc w)) n h pos = elim (Bool-cases (ltb n 10)) [
  | inl one_digit ↦ rw one_digit (omega arith)
  | inr more ↦
      let small : n / 10 < 10 ^ suc w = omega (arith, pow-suc 10 (suc w)) in
      rw more (omega (arith, digits_count_le fuel (suc w) (n / 10) small (omega arith)))
]

-- A number that fits the width is printed with leading zeros up to the width.
pub format_padded_fits : (w n : ℕ) → n < 10 ^ w → 0 < w → format_padded w n ≡ zero_pad w n
unfolding format_padded
format_padded_fits w n h pos =
    let width : max w (digits_count 10 n) ≡ w = omega (arith, digits_count_le 10 w n h pos) in
    rw width

-- `atoi` reads back the number that was printed with leading zeros in a given width, modulo 10 to that
-- width, where this is at most 2147483647.
pub atoi-zero_pad : (w n : ℕ) → n % 10 ^ w ≤ int_max → atoi (zero_pad w n) ≡ ok (n % 10 ^ w)
unfolding atoi
atoi-zero_pad w n h =
    let value : digits_value 0 (zero_pad w n) ≡ n % 10 ^ w =
      rw (digits_value-zero_pad w n 0) (omega arith) in
    rw (value, le→leb (n % 10 ^ w) int_max h)

pub take-zero_pad : (a b n : ℕ) → take a (zero_pad (a + b) n) ≡ zero_pad a (n / 10 ^ b)
take-zero_pad a b n =
    rw (zero_pad-append a b n) (take-append_width a _ _ (length-zero_pad a (n / 10 ^ b)))

pub drop-zero_pad : (a b n : ℕ) → drop a (zero_pad (a + b) n) ≡ zero_pad b n
drop-zero_pad a b n =
    rw (zero_pad-append a b n) (drop-append_width a _ _ (length-zero_pad a (n / 10 ^ b)))
