-- ===== src/Compress/Tests.antt =====
-- Tests of the compression of ranges, and its theorems at concrete names.
use libcrange.Base.{
  ◌≡◌, refl, Text, text, [], ◌∷◌, Option, none, some, if◌then◌else◌, arith, strcmp, str_eq, map,
}
use libcrange.Base.{ok, ◌>>=◌, Returns}
use libcrange.Range.Decimal.{digits_value, itoa, is_digit, atoi}
use libcrange.Range.Meaning.{Denotes}
use libcrange.Range.{range_from_rangeparts}
use libcrange.Compress.Groups.{fmt_group-Numbers, GroupNames, print_parts}
use libcrange.Compress.Unnumbered.{numbered, unnumbered}
use libcrange.Compress.{
  Captures, pos, negsuc, init_prev_parts, compress_loop, continues, add_int, int_eq, same_width,
  close_group, fmt_group, next_width, ignore_common_prefix, strip_common, itoa_int, sort_parts,
  insert_parts, compare_parts, compare_int, or_compare, join_groups, node_to_parts, all_parts,
}

-- names of digits alone
abbrev all_digits : Text → Option Captures
all_digits [] = some (record { before = []; digits = []; behind = none })
all_digits (c ∷ cs) = elim (all_digits cs) [
  | none ↦ none
  | some m ↦
      if is_digit c then some (record { before = []; digits = c ∷ cs; behind = none }) else none
]

suffixes :
    (ignore_common_prefix (pos 1098) (pos 1101) ≡ text "101")
    × (ignore_common_prefix (pos 8) (pos 12) ≡ text "12")
    × (ignore_common_prefix (negsuc 1) (pos 7) ≡ text "7")
unfolding ignore_common_prefix strip_common itoa_int itoa
suffixes = (refl, refl, refl)

grouped :
    compress_loop
      (numbered (text "web") [] 8 (text "08") (text "web08")
        ∷ numbered (text "web") [] 9 (text "09") (text "web09")
        ∷ numbered (text "web") [] 10 (text "10") (text "web10")
        ∷ numbered (text "web") [] 11 (text "011") (text "web011")
        ∷ [])
      init_prev_parts
      none
      0
      []
    ≡ ok (some (text "web08..10" ∷ text "web011" ∷ []))
unfolding compress_loop continues add_int int_eq same_width close_group fmt_group next_width
    ignore_common_prefix strip_common itoa_int itoa str_eq
grouped = refl

joined : join_groups (text "a" ∷ text "b" ∷ text "c" ∷ []) ≡ text "a,b,c"
unfolding join_groups
joined = refl

-- the order that leads to a name without a number between two with one
sorted :
    (all_parts all_digits (text "1" ∷ text "foo" ∷ text "0" ∷ [])
      >>= (λ ps. ok (map (λ p. p.full_name) (sort_parts ps))))
    ≡ ok (text "0" ∷ text "foo" ∷ text "1" ∷ [])
unfolding all_parts node_to_parts atoi sort_parts insert_parts compare_parts compare_int or_compare
    strcmp
sorted = refl

fmt_group-Numbers_example :
    (last : Text) × (fmt_group
        (record {
          prefix = text "web";
          domain = [];
          num = pos (digits_value 0 (text "08"));
          num_str = some (text "08");
          full_name = text "web08";
        })
        2
      ≡ ok (
          print_parts
            (record { prefix = text "web"; first = text "08"; last = last; domain = [] })))
    × Returns
        (range_from_rangeparts
          (record { prefix = text "web"; first = text "08"; last = last; domain = [] }))
        λ r. Denotes r (GroupNames (text "web") [] 2 (digits_value 0 (text "08")) 2) 3
unfolding digits_value
fmt_group-Numbers_example =
    fmt_group-Numbers (text "web") [] (text "08") (text "web08") 2 (refl, (refl, tt)) (omega arith)
      (omega arith) (omega arith) (omega arith) (omega arith)

-- The name without a number is lost, and the null text of its number is printed.
lost_name :
    compress_loop
      (numbered [] [] 0 (text "0") (text "0")
        ∷ unnumbered (text "foo")
        ∷ numbered [] [] 1 (text "1") (text "1")
        ∷ [])
      init_prev_parts
      none
      0
      []
    ≡ ok (some (text "0" ∷ text "(null)..1" ∷ []))
unfolding compress_loop continues str_eq int_eq add_int close_group same_width next_width fmt_group
    ignore_common_prefix itoa_int itoa strip_common
lost_name = refl
