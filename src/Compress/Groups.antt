-- ===== src/Compress/Groups.antt =====
-- A group that `fmt_group` of source/src/range_compress.c prints stands, as the range expression that
-- it is, for the names that it was made of.
use native.Mathlib.Nat.{div-add-mod, mod-le}
use libcrange.Base.{
  ℕ, zero, suc, ◌+◌, ◌/◌, ◌^◌, ◌≡◌, ◌≤◌, ◌<◌, Text, text, ◌++◌, some, true, length, arith, leb,
  le→leb,
}
use libcrange.Base.{ok, Returns}
use libcrange.HashSet.Resize.{size_limit}
use libcrange.Range.Decimal.{zero_pad, format_padded, int_max, digits_value}
use libcrange.Range.Digits.{length-zero_pad, digits_value-zero_pad}
use libcrange.Range.Meaning.{Denotes, Denotes_ext}
use libcrange.Range.Numbers.{AllDigits, IsNumbered, last_number, range_from_rangeparts-Numbers}
use libcrange.Range.{RangeParts, range_from_rangeparts}
use libcrange.Compress.Suffix.{ignore_common_prefix-zero_pad}
use libcrange.Compress.{pos, fmt_group, add_int}

AllDigits-zero_pad : (w n : ℕ) → AllDigits (zero_pad w n)
unfolding zero_pad
AllDigits-zero_pad zero n = tt
AllDigits-zero_pad (suc w) n = (ground arith, AllDigits-zero_pad w n)

-- a range of hosts as the parser reads it
abbrev pub print_parts : RangeParts → Text
print_parts p = p.prefix ++ (p.first ++ (text ".." ++ (p.last ++ p.domain)))

-- the names of a group: those with the numbers from `a` on, `count` more, in the width `w`
abbrev pub GroupNames : Text → Text → ℕ → ℕ → ℕ → Text → Type 0
GroupNames prefix domain w a count q =
    (j : ℕ) × (a ≤ j) × (j ≤ a + count) × (prefix ++ (format_padded w j ++ domain) ≡ q)

module _ (prefix domain digits : Text) where
  abbrev parts_to : ℕ → ℕ → RangeParts
  parts_to k b = record { prefix = prefix; first = digits; last = zero_pad k b; domain = domain }

  last_number-parts_to :
      (k b : ℕ)
      → k ≤ length digits
      → digits_value 0 digits / 10 ^ k ≡ b / 10 ^ k
      → last_number (parts_to k b) ≡ b
  last_number-parts_to k b le same =
      let within : leb (length (zero_pad k b)) (length digits) ≡ true =
        le→leb _ _ (omega (arith, length-zero_pad k b)) in
      rw (within, length-zero_pad k b, digits_value-zero_pad k b 0, same)
        (omega (arith, div-add-mod b (10 ^ k)))

  parts_to-IsNumbered :
      (k b : ℕ)
      → AllDigits digits
      → 0 < k
      → b < int_max
      → digits_value 0 digits ≤ b
      → IsNumbered (parts_to k b)
  parts_to-IsNumbered k b all kpos small le = record {
    first_digits = all;
    last_digits = AllDigits-zero_pad k b;
    some_digit = omega (arith, length-zero_pad k b);
    last_small = rw (digits_value-zero_pad k b 0) (omega (arith, mod-le b (10 ^ k)));
    first_small = omega (arith, mod-le (digits_value 0 digits) (10 ^ length (zero_pad k b)));
  }

  -- For a first number in digits, with a count above 0, where the last number has no more digits than
  -- the first is written with and is below 2147483647, and the group has at most 1610612741 names,
  -- `fmt_group` prints a range of hosts that `range_from_rangeparts` expands to exactly the names of
  -- the group: those with the numbers from the first on, in the width of the first.
  pub fmt_group-Numbers :
      (full_name : Text) (count : ℕ)
      → AllDigits digits
      → 0 < length digits
      → 0 < count
      → digits_value 0 digits + count < 10 ^ length digits
      → digits_value 0 digits + count < int_max
      → count + 1 ≤ size_limit
      → (last : Text) × (fmt_group
            (record {
              prefix = prefix;
              domain = domain;
              num = pos (digits_value 0 digits);
              num_str = some digits;
              full_name = full_name;
            })
            count
          ≡ ok (
              print_parts
                (record { prefix = prefix; first = digits; last = last; domain = domain })))
        × Returns
            (range_from_rangeparts
              (record { prefix = prefix; first = digits; last = last; domain = domain }))
            λ r.
              Denotes r
                (GroupNames prefix domain (length digits) (digits_value 0 digits) count)
                (count + 1)
  unfolding fmt_group add_int
  fmt_group-Numbers full_name count all wide some_more fits small few =
      let a = digits_value 0 digits in
      let b = a + count in
      let (k, kpos, le, same, cut) =
        ignore_common_prefix-zero_pad a b (length digits) (omega arith) fits wide (omega arith) in
      let end : last_number (parts_to k b) ≡ b = last_number-parts_to k b le same in
      let (r, run, (d, _)) =
        range_from_rangeparts-Numbers (parts_to k b)
          (parts_to-IsNumbered k b all kpos small (omega arith)) (omega (arith, end)) in
      (
        zero_pad k b,
        rw cut,
        (
          r,
          run,
          Denotes_ext d
              (λ q. (
                λ (j, lo, hi, e). (j, lo, omega (arith, end), e),
                λ (j, lo, hi, e). (j, lo, omega (arith, end), e),
              ))
              (omega (arith, end)),
        ),
      )
