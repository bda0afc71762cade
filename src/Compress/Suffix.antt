-- ===== src/Compress/Suffix.antt =====
-- What `ignore_common_prefix` of source/src/range_compress.c leaves of the last number of a group.
use native.Mathlib.Nat.{pow-suc, div-div-eq-div-mul, div-eq_of_lt}
use libcrange.Base.{
  ℕ, zero, suc, ◌+◌, ◌/◌, ◌%◌, ◌^◌, ◌≡◌, ◌≤◌, ◌<◌, refl, sym, ◌∙◌, false, ltb, ◌==◌, length, arith,
  Bool-cases, inl, inr, ==_iff,
}
use libcrange.Range.Decimal.{zero_pad, itoa, digits_count, int_max}
use libcrange.Range.Digits.{length-zero_pad, digits_count_le}
use libcrange.Compress.{strip_common, ignore_common_prefix, itoa_int, pos}

div_pow_suc : (w a : ℕ) → a / 10 ^ w / 10 ≡ a / 10 ^ suc w
div_pow_suc w a = rw (pow-suc 10 w) (div-div-eq-div-mul a (10 ^ w) 10)

-- the digits of `b` behind a common front of `a` and `b`
strip_common-zero_pad :
    (w a b : ℕ)
    → a / 10 ^ w ≡ b / 10 ^ w
    → (k : ℕ) × (k ≤ w)
      × (a / 10 ^ k ≡ b / 10 ^ k)
      × (strip_common (zero_pad w a) (zero_pad w b) ≡ zero_pad k b)
unfolding strip_common zero_pad
strip_common-zero_pad zero a b h = (0, omega arith, h, refl)
strip_common-zero_pad (suc w) a b h =
    elim (Bool-cases ((48 + a / 10 ^ w % 10) == (48 + b / 10 ^ w % 10))) [
      | inl same ↦
          let digit : a / 10 ^ w % 10 ≡ b / 10 ^ w % 10 =
            omega (arith, (==_iff (48 + a / 10 ^ w % 10) (48 + b / 10 ^ w % 10)).0 same) in
          let front : a / 10 ^ w / 10 ≡ b / 10 ^ w / 10 =
            div_pow_suc w a ∙ h ∙ sym (div_pow_suc w b) in
          let (k, le, eq, cut) = strip_common-zero_pad w a b (omega arith) in
          (k, omega arith, eq, rw same cut)
      | inr other ↦ (suc w, omega arith, h, rw other)
    ]

digits_count_pos : (fuel n : ℕ) → 0 < digits_count fuel n
unfolding digits_count
digits_count_pos zero n = omega arith
digits_count_pos (suc fuel) n = ground arith

-- With enough fuel the digits hold the number.
digits_count_holds : (fuel n : ℕ) → n < 10 ^ fuel → n < 10 ^ digits_count fuel n
unfolding digits_count
digits_count_holds zero n h = omega arith
digits_count_holds (suc fuel) n h = elim (Bool-cases (ltb n 10)) [
  | inl small ↦ rw small (ground arith)
  | inr big ↦
      let shorter : n / 10 < 10 ^ fuel = omega (arith, pow-suc 10 fuel) in
      let rest = digits_count_holds fuel (n / 10) shorter in
      rw (big, pow-suc 10 (digits_count fuel (n / 10))) (omega arith)
]

shared_front_pos : (a b k : ℕ) → a < b → a / 10 ^ k ≡ b / 10 ^ k → 0 < k
shared_front_pos a b zero less h = absurd (omega arith)
shared_front_pos a b (suc k) less h = omega arith

not_shorter : (x y : ℕ) → ltb x y ≡ false → y ≤ x
not_shorter x y h = ground arith

-- For a group within the width of its first number, the last digits of the last number, behind the
-- digits that it shares with the first.
pub ignore_common_prefix-zero_pad :
    (a b w : ℕ)
    → a < b
    → b < 10 ^ w
    → 0 < w
    → b ≤ int_max
    → (k : ℕ) × (0 < k)
      × (k ≤ w)
      × (a / 10 ^ k ≡ b / 10 ^ k)
      × (ignore_common_prefix (pos a) (pos b) ≡ zero_pad k b)
unfolding ignore_common_prefix itoa_int itoa
ignore_common_prefix-zero_pad a b w less fits wide small =
    let n = digits_count 10 a in
    let m = digits_count 10 b in
    let bound : b < 10 ^ m = digits_count_holds 10 b (omega arith) in
    let m_le : m ≤ w = digits_count_le 10 w b fits wide in
    let n_le : n ≤ m = digits_count_le 10 m a (omega arith) (digits_count_pos 10 b) in
    let none_left : (x : ℕ) → x ≤ b → x / 10 ^ m ≡ 0 = λ x le. div-eq_of_lt (omega arith) in
    elim (Bool-cases (ltb (length (zero_pad n a)) (length (zero_pad m b)))) [
      | inl shorter ↦ (
        m,
        digits_count_pos 10 b,
        m_le,
        none_left a (omega arith) ∙ sym (none_left b (omega arith)),
        rw shorter,
      )
      | inr as_long ↦
          let same : n ≡ m =
            omega (arith, not_shorter _ _ as_long, length-zero_pad n a, length-zero_pad m b) in
          let (k, le, eq, cut) =
            strip_common-zero_pad m a b
              (none_left a (omega arith) ∙ sym (none_left b (omega arith))) in
          (k, shared_front_pos a b k less eq, omega arith, eq, rw as_long (rw same cut))
    ]
