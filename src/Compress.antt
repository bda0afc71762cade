-- ===== src/Compress.antt =====
-- The compression of ranges: source/src/range_parts.c, source/src/range_sort.c and
-- source/src/range_compress.c. Runs of names with consecutive numbers are written as groups.
pub mod Suffix
pub mod Groups
pub mod Unnumbered
pub mod Warnings
pub mod Segments
pub mod Order
pub mod Correct
pub mod Sorted
pub mod Whole
mod Tests
use Prim.Native.Nat.{compare, Ordering}
use libcrange.Base.{
  ℕ, zero, suc, ◌+◌, ◌-◌, Text, text, List, [], ◌∷◌, ◌++◌, Option, none, some, Bool, true, false,
  ◌&&◌, if◌then◌else◌, ltb, leb, ◌==◌, length, strcmp, str_eq,
}
use libcrange.Base.{Run, ok, fault, null_pointer, ◌>>=◌}
use libcrange.Range.Decimal.{atoi, itoa}
use libcrange.Range.{Range, names_of}
use libcrange.HashSet.{set_members}
use libcrange.Request.{Request, range_request_warn}

-- The captures of NUMBERED_NODE_RE: the prefix, the digits and, where it takes part, the domain.
pub record Captures : Type 0 where
  pub before : Text
  pub digits : Text
  pub behind : Option Text

-- an `int`: `pos n` is n, and `negsuc n` is -(n + 1)
pub data ℤ : Type 0 where
  pos negsuc : ℕ → ℤ

-- `node_parts_int`: the number's text is `none` where it is null
pub record NodeParts : Type 0 where
  pub prefix : Text
  pub domain : Text
  pub num : ℤ
  pub num_str : Option Text
  pub full_name : Text

-- `num + n` for a count `n`
pub add_int : ℤ → ℕ → ℤ
add_int (pos m) n = pos (m + n)
add_int (negsuc m) n = if leb (m + 1) n then pos (n - (m + 1)) else negsuc (m - n)

pub int_eq : ℤ → ℤ → Bool
int_eq (pos m) (pos n) = m == n
int_eq (pos m) (negsuc n) = false
int_eq (negsuc m) (pos n) = false
int_eq (negsuc m) (negsuc n) = m == n

-- the sign of `a - b`
pub compare_int : ℤ → ℤ → Ordering
compare_int (pos m) (pos n) = compare m n
compare_int (pos m) (negsuc n) = Ordering.gt
compare_int (negsuc m) (pos n) = Ordering.lt
compare_int (negsuc m) (negsuc n) = compare n m

-- `apr_itoa`
pub itoa_int : ℤ → Text
itoa_int (pos n) = itoa n
itoa_int (negsuc n) = 45 ∷ itoa (n + 1)

-- `if (x) return x;` before the next comparison
pub or_compare : Ordering → Ordering → Ordering
or_compare Ordering.lt y = Ordering.lt
or_compare Ordering.gt y = Ordering.gt
or_compare Ordering.eq y = y

pub compare_parts : NodeParts → NodeParts → Ordering
compare_parts a b = or_compare (strcmp a.prefix b.prefix) (
    or_compare (strcmp a.domain b.domain)
      (or_compare (compare_int a.num b.num) (strcmp a.full_name b.full_name)))

-- The sorted list that `qsort` leaves, by insertion: entries that compare as equal are the same, so that
-- every way to sort gives this list.
pub insert_parts : NodeParts → List NodeParts → List NodeParts
insert_parts a [] = a ∷ []
insert_parts a (b ∷ bs) =
    let rest = insert_parts a bs in
    elim (compare_parts a b) [
      | Ordering.lt ↦ a ∷ b ∷ bs
      | Ordering.eq ↦ a ∷ b ∷ bs
      | Ordering.gt ↦ b ∷ rest
    ]

pub sort_parts : List NodeParts → List NodeParts
sort_parts [] = []
sort_parts (a ∷ as') = insert_parts a (sort_parts as')

-- the initial `prev`, whose number no other follows
abbrev pub init_prev_parts : NodeParts
init_prev_parts = record {
  prefix = [];
  domain = [];
  num = negsuc 1;
  num_str = some [];
  full_name = [];
}

-- `while (n < len1 && s1[n] == s2[n]) ++n; return s2 + n;`
pub strip_common : Text → Text → Text
strip_common [] s₂ = s₂
strip_common (c ∷ s₁) [] = []
strip_common (c ∷ s₁) (d ∷ s₂) = let rest = strip_common s₁ s₂ in if c == d then rest else d ∷ s₂

pub ignore_common_prefix : ℤ → ℤ → Text
ignore_common_prefix n₁ n₂ =
    let s₁ = itoa_int n₁ in
    let s₂ = itoa_int n₂ in if ltb (length s₁) (length s₂) then s₂ else strip_common s₁ s₂

-- `apr_psprintf` prints a null `num_str` as `(null)`.
pub fmt_group : NodeParts → ℕ → Run Text
fmt_group parts count = ok (
    parts.prefix
    ++ (elim parts.num_str [ none ↦ text "(null)" | some digits ↦ digits ]
        ++ (text ".."
            ++ (ignore_common_prefix parts.num (add_int parts.num count) ++ parts.domain))))

-- `strlen(parts->num_str) == prev_num_str_len`, a length of -1 as `none`
pub same_width : Option Text → Option ℕ → Run Bool
same_width none len = fault null_pointer
same_width (some digits) none = ok false
same_width (some digits) (some len) = ok (length digits == len)

-- whether the next name goes on with the group of `prev`
pub continues : NodeParts → NodeParts → ℕ → Option ℕ → Run Bool
continues parts prev count len =
    if str_eq parts.prefix prev.prefix
      && (str_eq parts.domain prev.domain && int_eq parts.num (add_int prev.num (count + 1)))
    then same_width parts.num_str len
    else ok false

-- the text of the group that ends
pub close_group : NodeParts → ℕ → Run Text
close_group prev count = if ltb 0 count then fmt_group prev count else ok prev.full_name

abbrev pub max_num_groups : ℕ
max_num_groups = 65536

-- `prev_num_str_len` keeps its value where the name has no number.
pub next_width : NodeParts → Option ℕ → Option ℕ
next_width prev len = elim prev.num_str [ none ↦ len | some digits ↦ some (length digits) ]

-- The loop of `do_range_compress` with the groups so far: `none` if there are too many.
pub compress_loop : List NodeParts → NodeParts → Option ℕ → ℕ → List Text → Run (Option (List Text))
compress_loop [] prev len count groups =
    close_group prev count >>= λ last. ok (some (groups ++ last ∷ []))
compress_loop (parts ∷ rest) prev len count groups =
    let go_on = compress_loop rest prev len (count + 1) groups in
    let start : List Text → Run (Option (List Text)) =
      λ closed. compress_loop rest parts (next_width parts len) 0 closed in
    continues parts prev count len >>= λ same.
    if same
    then go_on
    else (if length prev.full_name == 0
        then start groups
        else (close_group prev count >>= λ group.
            if length groups + 1 == max_num_groups then ok none else start (groups ++ group ∷ [])))

-- the groups with commas between them
pub join_groups : List Text → Text
join_groups [] = []
join_groups (g ∷ []) = g
join_groups (g ∷ h ∷ gs) = g ++ (44 ∷ join_groups (h ∷ gs))

module _ (numbered_node_re : Text → Option Captures) where
  pub node_to_parts : Text → Run NodeParts
  node_to_parts name = elim (numbered_node_re name) [
    | none ↦ ok (record { prefix = []; domain = []; num = pos 0; num_str = none; full_name = name })
    | some m ↦ atoi m.digits >>= λ n. ok (record {
      prefix = m.before;
      domain = elim m.behind [ some d ↦ d | none ↦ [] ];
      num = pos n;
      num_str = some m.digits;
      full_name = name;
    })
  ]

  pub all_parts : List Text → Run (List NodeParts)
  all_parts [] = ok []
  all_parts (name ∷ names) = node_to_parts name >>= λ p. all_parts names >>= λ ps. ok (p ∷ ps)

  -- The sorted names, each with its parts: `do_range_compress` takes them apart again.
  pub do_range_sort : Range → Run (List NodeParts)
  do_range_sort r = all_parts (names_of (set_members r.nodes)) >>= λ ps. ok (sort_parts ps)

  pub do_range_compress : Request → Range → Run (Text × Request)
  do_range_compress rr r =
      if r.nodes.members == 0
      then ok ([], rr)
      else (do_range_sort r >>= λ sorted. compress_loop sorted init_prev_parts none 0 [] >>= λ done.
          ok (elim done [
            | none ↦ ([], range_request_warn rr (text "too many compressed groups" ++ 10 ∷ []))
            | some groups ↦ (join_groups groups, rr)
          ]))
