-- ===== src/Compress/Whole/Tests.antt =====
-- The compression of a range at concrete names, for a matcher of one letter and digits.
use mathlib.Core.Option.{some-injective, none-ne-some}
use mathlib.Core.Path.{subst}
use mathlib.Core.List.{Perm, append-nil}
use libcrange.Base.{
  ◌≡◌, ◌<◌, ◌+◌, ◌∙◌, sym, refl, ap, Text, text, List, [], ◌∷◌, ◌++◌, Option, none, some, Bool,
  Bool-cases, true, ◌&&◌, if◌then◌else◌, arith, str_eq, str_eq_iff, ◌⊎◌, inl, inr, ◌↔◌, length, ltb,
}
use libcrange.Base.{ok, Returns}
use libcrange.Range.Decimal.{digits_value, is_digit, int_max}
use libcrange.Range.Meaning.{listed, Denotes, range_new-Denotes, add_names-Denotes, members_pos}
use libcrange.Range.Numbers.{AllDigits}
use libcrange.Range.{Range, range_new, add_names}
use libcrange.Request.{Request}
use libcrange.Compress.Segments.{Segments}
use libcrange.Compress.Sorted.{IsSorted, sort_parts-IsSorted}
use libcrange.Compress.Unnumbered.{numbered, unnumbered}
use libcrange.Compress.Whole.{IsName, domain_of, do_range_compress-Segments}
use libcrange.Compress.{Captures, NodeParts, do_range_compress, join_groups, sort_parts}

all_digits : Text → Bool
all_digits [] = true
all_digits (c ∷ cs) = is_digit c && all_digits cs

abbrev after_letter : Text → Option Captures
after_letter [] = none
after_letter (c ∷ cs) =
    if all_digits cs && ltb 0 (length cs)
    then some (record { before = c ∷ []; digits = cs; behind = none })
    else none

all_digits-AllDigits : (t : Text) → all_digits t ≡ true → AllDigits t
unfolding all_digits
all_digits-AllDigits [] h = tt
all_digits-AllDigits (c ∷ cs) h = (ground arith, all_digits-AllDigits cs (ground arith))

after_letter_found :
    (name : Text) (m : Captures)
    → after_letter name ≡ some m
    → (m.before ++ (m.digits ++ domain_of m) ≡ name) × AllDigits m.digits × (0 < length m.digits)
after_letter_found [] m h = absurd (cc)
after_letter_found (c ∷ cs) m h = elim (Bool-cases (all_digits cs && ltb 0 (length cs))) [
  | inl fits ↦
      let e : some _ ≡ some m = rw fits at h in
      subst
        (λ x.
          (x.before ++ (x.digits ++ domain_of x) ≡ c ∷ cs)
          × AllDigits x.digits
          × (0 < length x.digits))
        (some-injective _ _ e)
        (ap (λ t. c ∷ t) (append-nil cs), all_digits-AllDigits cs (ground arith), ground arith)
  | inr other ↦ absurd (cc)
]

-- a name that the matcher takes apart, or does not, in the way given
known-IsName :
    (name : Text) (m : Captures)
    → after_letter name ≡ some m
    → 0 < length name
    → digits_value 0 m.digits < int_max
    → 0 < length m.before
    → IsName after_letter name
known-IsName name m known some_text small lettered = record {
  whole = λ m h. (after_letter_found name m h).0;
  all_digits = λ m h. (after_letter_found name m h).1;
  some_digit = λ m h. (after_letter_found name m h).2;
  some_text = some_text;
  small = λ m' h.
      let e : some m ≡ some m' = sym known ∙ h in
      subst (λ x. digits_value 0 x.digits < int_max) (some-injective _ _ e) small;
  not_bare = λ m' h one.
      let e : some m ≡ some m' = sym known ∙ h in
      subst (λ x. 0 < length x.before + length (domain_of x)) (some-injective _ _ e)
        (omega (arith, lettered));
}

unknown-IsName :
    (name : Text) → after_letter name ≡ none → 0 < length name → IsName after_letter name
unknown-IsName name known some_text = record {
  whole = λ m h. (after_letter_found name m h).0;
  all_digits = λ m h. (after_letter_found name m h).1;
  some_digit = λ m h. (after_letter_found name m h).2;
  some_text = some_text;
  small = λ m h. absurd (none-ne-some m (sym known ∙ h));
  not_bare = λ m h one. absurd (none-ne-some m (sym known ∙ h));
}

abbrev names : List Text
names = text "n10" ∷ text "db" ∷ text "n08" ∷ text "n09" ∷ []

made :
    Returns range_new
      λ r. Returns (add_names r names) λ r'. Denotes r' (λ q. (listed q names ≡ true) ⊎ ⊥) 4
made =
    let (r, run, (d, _)) = range_new-Denotes in
    let (r', run', (d', _)) = add_names-Denotes r names d (omega arith) in (r, run, (r', run', d'))

abbrev AllNames : List Text → Type 0
AllNames [] = Unit
AllNames (n ∷ ns) = IsName after_letter n × AllNames ns

listed-IsName :
    (q : Text) (ns : List Text) → AllNames ns → (listed q ns ≡ true) ⊎ ⊥ → IsName after_letter q
listed-IsName q ns all (inr none_of) = absurd none_of
listed-IsName q [] all (inl h) = absurd (cc)
listed-IsName q (n ∷ ns) all (inl h) = elim (Bool-cases (str_eq n q)) [
  | inl here ↦ subst (IsName after_letter) ((str_eq_iff n q).0 here) all.0
  | inr there ↦ listed-IsName q ns all.1 (inl (rw there at h))
]

names-AllNames : AllNames names
unfolding all_digits digits_value
names-AllNames = (
  known-IsName (text "n10") (record { before = text "n"; digits = text "10"; behind = none }) refl
      (omega arith) (omega arith) (omega arith),
  (
    unknown-IsName (text "db") refl (omega arith),
    (
      known-IsName (text "n08") (record { before = text "n"; digits = text "08"; behind = none })
          refl (omega arith) (omega arith) (omega arith),
      (
        known-IsName (text "n09") (record { before = text "n"; digits = text "09"; behind = none })
            refl (omega arith) (omega arith) (omega arith),
        tt,
      ),
    ),
  ),
)

db_listed : listed (text "db") names ≡ true
unfolding str_eq
db_listed = refl

abbrev request : Request
request = record { warnings = none; warn_type = none; warn_enabled = true; r = none }

abbrev r : Range
r = made.2.0

do_range_compress-Segments_example :
    (groups written : List Text) × (do_range_compress after_letter request r
      ≡ ok (join_groups groups, request))
    × Segments groups written
    × ((q : Text) → (listed q written ≡ true) ↔ ((listed q names ≡ true) ⊎ ⊥))
    × (length written ≡ r.nodes.members)
do_range_compress-Segments_example =
    do_range_compress-Segments after_letter request r made.2.2
      (λ q h. listed-IsName q names names-AllNames h)
      (members_pos (text "db") made.2.2 (inl db_listed)) (omega (arith, made.2.2.few))

some_parts : List NodeParts
some_parts =
    numbered (text "n") [] 10 (text "10") (text "n10")
    ∷ unnumbered (text "db")
    ∷ numbered (text "n") [] 9 (text "09") (text "n09")
    ∷ []

sort_parts-IsSorted_example :
    IsSorted (sort_parts some_parts) × Perm (sort_parts some_parts) some_parts
sort_parts-IsSorted_example = sort_parts-IsSorted some_parts
