-- ===== src/Range/Decimal.antt =====
-- Decimal numbers as the C library prints and reads them: `atoi`, `%d`, `%0*d`.
use Prim.Native.Nat.{max}
use libcrange.Base.{
  ℕ, zero, suc, ◌+◌, ◌-◌, ◌*◌, ◌/◌, ◌%◌, ◌^◌, Text, [], ◌∷◌, ltb, leb, if◌then◌else◌, ◌&&◌, Bool,
}
use libcrange.Base.{Run, ok, fault, overflow}

abbrev pub is_digit : ℕ → Bool
is_digit c = leb 48 c && leb c 57

-- The value of the digits at the front, after those that gave `acc`.
unfoldable pub digits_value : ℕ → Text → ℕ
digits_value acc [] = acc
digits_value acc (c ∷ cs) =
    let rest = digits_value (acc * 10 + (c - 48)) cs in if is_digit c then rest else acc

abbrev pub int_max : ℕ
int_max = 2 ^ 31 - 1

-- `atoi` of a text that begins with no blank and no sign. A value that no `int` holds is
-- undefined behaviour.
unfoldable pub atoi : Text → Run ℕ
unfolding digits_value
atoi s = let n = digits_value 0 s in if leb n int_max then ok n else fault overflow

-- the last `w` decimal digits of a number, with leading zeros
unfoldable pub zero_pad : ℕ → ℕ → Text
zero_pad zero n = []
zero_pad (suc w) n = (48 + n / 10 ^ w % 10) ∷ zero_pad w n

-- The number of decimal digits, for numbers below 10 to the fuel. An `int` has at most ten.
unfoldable pub digits_count : ℕ → ℕ → ℕ
digits_count zero n = 1
digits_count (suc fuel) n =
    let rest = digits_count fuel (n / 10) in if ltb n 10 then 1 else suc rest

-- `%0*d` of a width and a number that is not negative
unfoldable pub format_padded : ℕ → ℕ → Text
unfolding zero_pad digits_count
format_padded w n = zero_pad (max w (digits_count 10 n)) n

-- `%d` and `apr_itoa` of a number that is not negative
unfoldable pub itoa : ℕ → Text
unfolding zero_pad digits_count
itoa n = zero_pad (digits_count 10 n) n
