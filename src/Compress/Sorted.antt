-- ===== src/Compress/Sorted.antt =====
-- The list that `do_range_sort` of source/src/range_sort.c sorts by `compare_parts`.
use mathlib.Core.List.{Perm}
use mathlib.Core.List.Perm
use libcrange.Base.{◌+◌, ◌≡◌, refl, Text, List, [], ◌∷◌, arith, length, ◌⊎◌, inl, inr}
use libcrange.Range.Meaning.{listed}
use libcrange.Compress.Correct.{AllNodes, full_names}
use libcrange.Compress.Order.{
  NotAfter, Precedes-NotAfter, Precedes, Precedes-through, compare_parts_greater, Ordering-cases,
}
use libcrange.Compress.Segments.{IsNode}
use libcrange.Compress.{NodeParts, compare_parts, insert_parts, sort_parts}

-- The entry precedes all of the list, by the comparison of the code.
abbrev First : NodeParts → List NodeParts → Type 0
First a [] = Unit
First a (b ∷ bs) = Precedes a b × First a bs

abbrev IsOrdered : List NodeParts → Type 0
IsOrdered [] = Unit
IsOrdered (a ∷ ps) = First a ps × IsOrdered ps

First-through : (a b : NodeParts) (ps : List NodeParts) → Precedes a b → First b ps → First a ps
First-through a b [] h k = tt
First-through a b (c ∷ ps) h k = (Precedes-through a b c h k.0, First-through a b ps h k.1)

-- An entry goes before the first of the list, or behind it.
insert_cases :
    (a b : NodeParts) (ps : List NodeParts)
    → (Precedes a b × (insert_parts a (b ∷ ps) ≡ a ∷ b ∷ ps))
      ⊎ (Precedes b a × (insert_parts a (b ∷ ps) ≡ b ∷ insert_parts a ps))
unfolding insert_parts
insert_cases a b ps = elim (Ordering-cases (compare_parts a b)) [
  | inl lt ↦ inl (λ e. absurd (cc), rw (insert_parts, lt))
  | inr (inl eq) ↦ inl (λ e. absurd (cc), rw (insert_parts, eq))
  | inr (inr gt) ↦ inr (compare_parts_greater a b gt, rw (insert_parts, gt))
]

First-insert_parts :
    (a b : NodeParts) (ps : List NodeParts)
    → Precedes a b
    → First a ps
    → First a (insert_parts b ps)
unfolding insert_parts
First-insert_parts a b [] h k = (h, tt)
First-insert_parts a b (c ∷ ps) h k = elim (insert_cases b c ps) [
  | inl (le, e) ↦ rw e (h, k)
  | inr (ge, e) ↦ rw e (k.0, First-insert_parts a b ps h k.1)
]

insert_parts-IsOrdered :
    (a : NodeParts) (ps : List NodeParts) → IsOrdered ps → IsOrdered (insert_parts a ps)
unfolding insert_parts
insert_parts-IsOrdered a [] h = (tt, tt)
insert_parts-IsOrdered a (b ∷ ps) h = elim (insert_cases a b ps) [
  | inl (le, e) ↦ rw e ((le, First-through a b ps le h.0), h)
  | inr (ge, e) ↦ rw e (First-insert_parts b a ps ge h.0, insert_parts-IsOrdered a ps h.1)
]

insert_parts-perm : (a : NodeParts) (ps : List NodeParts) → Perm (insert_parts a ps) (a ∷ ps)
unfolding insert_parts
insert_parts-perm a [] = Perm.rfl
insert_parts-perm a (b ∷ ps) = elim (insert_cases a b ps) [
  | inl (le, e) ↦ rw e Perm.rfl
  | inr (ge, e) ↦ rw e (Perm.trans (Perm.cons b (insert_parts-perm a ps)) (Perm.swap a b ps))
]

sort_parts-IsOrdered : (ps : List NodeParts) → IsOrdered (sort_parts ps) × Perm (sort_parts ps) ps
unfolding sort_parts
sort_parts-IsOrdered [] = (tt, Perm.nil)
sort_parts-IsOrdered (a ∷ ps) =
    let (sorted, perm) = sort_parts-IsOrdered ps in
    (
      insert_parts-IsOrdered a (sort_parts ps) sorted,
      Perm.trans (insert_parts-perm a (sort_parts ps)) (Perm.cons a perm),
    )

-- `a` comes after none of the list, by prefix, domain, number and name
abbrev pub AllAfter : NodeParts → List NodeParts → Type 0
AllAfter a [] = Unit
AllAfter a (b ∷ bs) = NotAfter a b × AllAfter a bs

-- no entry comes after one that follows it
abbrev pub IsSorted : List NodeParts → Type 0
IsSorted [] = Unit
IsSorted (a ∷ ps) = AllAfter a ps × IsSorted ps

First-AllAfter : (a : NodeParts) (ps : List NodeParts) → First a ps → AllAfter a ps
First-AllAfter a [] h = tt
First-AllAfter a (b ∷ ps) h = (Precedes-NotAfter a b h.0, First-AllAfter a ps h.1)

IsOrdered-IsSorted : (ps : List NodeParts) → IsOrdered ps → IsSorted ps
IsOrdered-IsSorted [] h = tt
IsOrdered-IsSorted (a ∷ ps) h = (First-AllAfter a ps h.0, IsOrdered-IsSorted ps h.1)

-- The sorted list is a permutation of the names, and none of its entries comes after one that follows
-- it: first the prefixes are compared byte by byte, then the domains, then the numbers, then the names.
pub sort_parts-IsSorted : (ps : List NodeParts) → IsSorted (sort_parts ps) × Perm (sort_parts ps) ps
sort_parts-IsSorted ps =
    let (ordered, perm) = sort_parts-IsOrdered ps in
    (IsOrdered-IsSorted (sort_parts ps) ordered, perm)

insert_parts-AllNodes :
    (a : NodeParts) (ps : List NodeParts) → IsNode a → AllNodes ps → AllNodes (insert_parts a ps)
unfolding insert_parts
insert_parts-AllNodes a [] h all = (h, tt)
insert_parts-AllNodes a (b ∷ ps) h all = elim (insert_cases a b ps) [
  | inl (le, e) ↦ rw e (h, all)
  | inr (ge, e) ↦ rw e (all.0, insert_parts-AllNodes a ps h all.1)
]

pub sort_parts-AllNodes : (ps : List NodeParts) → AllNodes ps → AllNodes (sort_parts ps)
unfolding sort_parts
sort_parts-AllNodes [] all = tt
sort_parts-AllNodes (a ∷ ps) all =
    insert_parts-AllNodes a (sort_parts ps) all.0 (sort_parts-AllNodes ps all.1)

insert_parts_names :
    (q : Text) (a : NodeParts) (ps : List NodeParts)
    → (listed q (full_names (insert_parts a ps)) ≡ listed q (full_names (a ∷ ps)))
      × (length (insert_parts a ps) ≡ length ps + 1)
unfolding insert_parts
insert_parts_names q a [] = (refl, refl)
insert_parts_names q a (b ∷ ps) =
    let (same, count) = insert_parts_names q a ps in
    elim (insert_cases a b ps) [
      | inl (le, e) ↦ rw e (refl, omega arith)
      | inr (ge, e) ↦ rw e (ground (arith, same), omega (arith, count))
    ]

-- Sorting keeps the names and their count.
pub sort_parts_names :
    (q : Text) (ps : List NodeParts)
    → (listed q (full_names (sort_parts ps)) ≡ listed q (full_names ps))
      × (length (sort_parts ps) ≡ length ps)
unfolding sort_parts
sort_parts_names q [] = (refl, refl)
sort_parts_names q (a ∷ ps) =
    let (same, count) = sort_parts_names q ps in
    let (same', count') = insert_parts_names q a (sort_parts ps) in
    (ground (arith, same, same'), omega (arith, count, count'))
