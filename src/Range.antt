-- ===== src/Range.antt =====
-- The ranges of source/src/range.c: a set of names with a flag. Memory pools are not modelled, and
-- `range_request` is a parameter only where an operation warns (see `Request`).
pub mod Grouped
pub mod Decimal
pub mod Digits
pub mod Meaning
pub mod Algebra
pub mod Joins
pub mod Braces
pub mod Parts
pub mod Numbers
pub mod Hostname
mod Tests
use libcrange.Base.{
  ℕ, zero, suc, ◌+◌, ◌-◌, ◌<◌, Text, text, List, [], ◌∷◌, ◌++◌, Option, none, some, Bool, true,
  false, ◌||◌, if◌then◌else◌, ltb, ◌==◌, length, take, drop, map,
}
use libcrange.Base.{Run, ok, fault, overflow, out_of_bounds, ◌>>=◌}
use libcrange.HashSet.Bucket.{Element}
use libcrange.HashSet.Packed.{set_pack}
use libcrange.HashSet.{
  Set, set_new, set_add, set_remove, set_members, set_union, set_union_inplace, set_diff,
  set_diff_inplace, set_intersect,
}
use libcrange.Range.Decimal.{atoi, format_padded, int_max}

pub record Range : Type 0 where
  pub nodes : Set Text
  pub quoted : Bool

pub record RangeParts : Type 0 where
  pub prefix : Text
  pub first : Text
  pub last : Text
  pub domain : Text

unfoldable pub range_from_set : Set Text → Range
range_from_set s = record { nodes = s; quoted = false }

-- what source/src/set.c gives for the packed form of a range
pub set_pack_from_range : Range → Text
set_pack_from_range r = set_pack r.nodes

pub range_new : Run Range
range_new = set_new 0 >>= λ s. ok (record { nodes = s; quoted = false })

pub copy_range : Range → Run Range
copy_range r = do
  fresh ← set_new 0
  nodes ← set_union_inplace fresh r.nodes
  ok (record { nodes = nodes; quoted = r.quoted })

pub range_add : Range → Text → Run Range
range_add r name = set_add r.nodes name none >>= λ s. ok (record r { nodes = s })

pub range_remove : Range → Text → Range
range_remove r name = record r { nodes = set_remove r.nodes name }

-- `"\"%s\""`
abbrev pub in_quotes : Text → Text
in_quotes name = 34 ∷ name ++ 34 ∷ []

abbrev pub names_of : List (Element Text) → List Text
names_of = map (λ e. e.name)

unfoldable pub range_get_hostnames : Range → List Text
range_get_hostnames r =
    let names = names_of (set_members r.nodes) in if r.quoted then map in_quotes names else names

-- `for (i = 0; names[i]; i++) range_add(r, names[i]);`
pub add_names : Range → List Text → Run Range
add_names r [] = ok r
add_names r (name ∷ names) = range_add r name >>= λ r'. add_names r' names

pub range_from_hostnames : List Text → Run Range
range_from_hostnames names = range_new >>= λ r. add_names r names

pub range_from_literal : Text → Run Range
range_from_literal literal = range_new >>= λ r. range_add r literal

pub range_from_nonrange_literal : Text → Run Range
range_from_nonrange_literal literal = do
  r ← range_new
  r' ← range_add r literal
  ok (record r' { quoted = true })

-- The names that stand for a part of `range_from_braces`: for an empty one, those of a
-- temporary set that holds the empty name.
pub brace_names : Range → Run (List Text)
brace_names r =
    if r.nodes.members == 0
    then (do
      temp ← set_new {D = Text} 1
      temp' ← set_add temp [] none
      ok (names_of (set_members temp')))
    else ok (names_of (set_members r.nodes))

-- the three nested loops, innermost first
abbrev pub join_last : Text → Text → List Text → List Text
join_last a b = map (λ c. a ++ (b ++ c))

pub join_middle : Text → List Text → List Text → List Text
join_middle a [] cs = []
join_middle a (b ∷ bs) cs = join_last a b cs ++ join_middle a bs cs

pub join_all : List Text → List Text → List Text → List Text
join_all [] bs cs = []
join_all (a ∷ as') bs cs = join_middle a bs cs ++ join_all as' bs cs

pub range_from_braces : Range → Range → Range → Run Range
range_from_braces r₁ r₂ r₃ = do
  m₁ ← brace_names r₁
  m₂ ← brace_names r₂
  m₃ ← brace_names r₃
  bigrange ← range_new
  bigrange' ← add_names bigrange (join_all m₁ m₂ m₃)
  ok (record bigrange' { quoted = r₁.quoted || (r₂.quoted || r₃.quoted) })

pub range_from_union : Range → Range → Run Range
range_from_union r₁ r₂ =
    set_union r₁.nodes r₂.nodes >>= λ s. ok (record { nodes = s; quoted = r₁.quoted || r₂.quoted })

pub range_union_inplace : Range → Range → Run Range
range_union_inplace dst src =
    set_union_inplace dst.nodes src.nodes >>= λ s. ok (record dst { nodes = s })

pub range_from_inter : Range → Range → Run Range
range_from_inter r₁ r₂ = set_intersect r₁.nodes r₂.nodes >>= λ s.
    ok (record { nodes = s; quoted = r₁.quoted || r₂.quoted })

pub range_diff_inplace : Range → Range → Range
range_diff_inplace dst r₂ = record dst { nodes = set_diff_inplace dst.nodes r₂.nodes }

pub range_from_diff : Range → Range → Run Range
range_from_diff r₁ r₂ =
    set_diff r₁.nodes r₂.nodes >>= λ s. ok (record { nodes = s; quoted = r₁.quoted || r₂.quoted })

-- the names of the loop `for (i = f; i <= l; i++)` with `n` rounds left
pub part_names : RangeParts → Text → ℕ → ℕ → ℕ → List Text
part_names parts pad length' zero i = []
part_names parts pad length' (suc n) i =
    (parts.prefix ++ (pad ++ (format_padded length' i ++ parts.domain)))
    ∷ part_names parts pad length' n (i + 1)

-- The digits of `first` that `last` leaves out are padding. The loop counter overflows where
-- the last number is the largest `int`.
pub range_from_rangeparts : RangeParts → Run Range
range_from_rangeparts parts = do
  r ← range_new
  let firstlength = length parts.first
  let lastlength = length parts.last
  let extra = firstlength - lastlength
  f ← atoi (drop extra parts.first)
  l ← atoi parts.last
  let width = if ltb lastlength firstlength then lastlength else firstlength
  let names = part_names parts (take extra parts.first) width (l + 1 - f) f
  if l == int_max then fault overflow else add_names r names

-- The loop of `validate_range_args`, and the test after it: the arguments end after `n`.
unfoldable pub has_args : ℕ → List Range → Bool
has_args zero [] = true
has_args zero (_ ∷ _) = false
has_args (suc n) [] = false
has_args (suc n) (_ ∷ r) = has_args n r

-- For no expected argument `r[1]` is read first, which lies outside an array with none.
unfoldable pub validate_range_args : List Range → ℕ → Run Bool
validate_range_args r expected =
    if expected == 0
    then elim r [
      | [] ↦ fault out_of_bounds
      | a ∷ others ↦ elim others [ [] ↦ ok true | b ∷ rest ↦ ok (has_args 0 (a ∷ b ∷ rest)) ]
    ]
    else ok (has_args expected r)
