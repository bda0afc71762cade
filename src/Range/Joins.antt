-- ===== src/Range/Joins.antt =====
-- The three nested loops of `range_from_braces` in source/src/range.c list every join.
use libcrange.Base.{
  ap, suc, ◌*◌, ◌≡◌, refl, Text, List, [], ◌∷◌, ◌++◌, true, ◌||◌, arith, length, length-append,
  str_eq, str_eq_iff, str_eq_refl, inl, inr, Bool-cases,
}
use libcrange.Range.Meaning.{listed}
use libcrange.Range.{join_last, join_middle, join_all}

listed-append : (q : Text) (xs ys : List Text) → listed q (xs ++ ys) ≡ listed q xs || listed q ys
listed-append q [] ys = refl
listed-append q (x ∷ xs) ys = ground (arith, listed-append q xs ys)

join_last_sound :
    (q a b : Text) (cs : List Text)
    → listed q (join_last a b cs) ≡ true
    → (c : Text) × (listed c cs ≡ true) × (a ++ (b ++ c) ≡ q)
join_last_sound q a b [] h = absurd (cc)
join_last_sound q a b (c ∷ cs) h = elim (Bool-cases (str_eq (a ++ (b ++ c)) q)) [
  | inl same ↦ (c, rw (str_eq_refl c), (str_eq_iff (a ++ (b ++ c)) q).0 same)
  | inr other ↦ let (c', l, e) = join_last_sound q a b cs (ground arith) in (c', ground arith, e)
]

join_last_complete :
    (a b c : Text) (cs : List Text)
    → listed c cs ≡ true
    → listed (a ++ (b ++ c)) (join_last a b cs) ≡ true
join_last_complete a b c [] h = absurd (cc)
join_last_complete a b c (x ∷ cs) h =
    ground (
      arith,
      str_eq_iff x c,
      str_eq_iff (a ++ (b ++ x)) (a ++ (b ++ c)),
      join_last_complete a b c cs,
    )

join_middle_sound :
    (q a : Text) (bs cs : List Text)
    → listed q (join_middle a bs cs) ≡ true
    → (b c : Text) × (listed b bs ≡ true) × (listed c cs ≡ true) × (a ++ (b ++ c) ≡ q)
unfolding join_middle
join_middle_sound q a [] cs h = absurd (cc)
join_middle_sound q a (b ∷ bs) cs h = elim (Bool-cases (listed q (join_last a b cs))) [
  | inl here ↦ let (c, l, e) = join_last_sound q a b cs here in (b, c, rw (str_eq_refl b), l, e)
  | inr other ↦
      let (b', c, l, l', e) =
        join_middle_sound q a bs cs
          (ground (arith, listed-append q (join_last a b cs) (join_middle a bs cs))) in
      (b', c, ground arith, l', e)
]

join_middle_complete :
    (a b c : Text) (bs cs : List Text)
    → listed b bs ≡ true
    → listed c cs ≡ true
    → listed (a ++ (b ++ c)) (join_middle a bs cs) ≡ true
unfolding join_middle
join_middle_complete a b c [] cs h h' = absurd (cc)
join_middle_complete a b c (x ∷ bs) cs h h' = ground (
  arith,
  str_eq_iff x b,
  join_last_complete a b c cs h',
  join_middle_complete a b c bs cs,
  listed-append (a ++ (b ++ c)) (join_last a x cs) (join_middle a bs cs),
)

pub join_all_sound :
    (q : Text) (as' bs cs : List Text)
    → listed q (join_all as' bs cs) ≡ true
    → (a b c : Text) × (listed a as' ≡ true)
      × (listed b bs ≡ true)
      × (listed c cs ≡ true)
      × (a ++ (b ++ c) ≡ q)
unfolding join_all
join_all_sound q [] bs cs h = absurd (cc)
join_all_sound q (a ∷ as') bs cs h = elim (Bool-cases (listed q (join_middle a bs cs))) [
  | inl here ↦
      let (b, c, l, l', e) = join_middle_sound q a bs cs here in
      (a, b, c, rw (str_eq_refl a), l, l', e)
  | inr other ↦
      let (a', b, c, l, l', l'', e) =
        join_all_sound q as' bs cs
          (ground (arith, listed-append q (join_middle a bs cs) (join_all as' bs cs))) in
      (a', b, c, ground arith, l', l'', e)
]

pub join_all_complete :
    (a b c : Text) (as' bs cs : List Text)
    → listed a as' ≡ true
    → listed b bs ≡ true
    → listed c cs ≡ true
    → listed (a ++ (b ++ c)) (join_all as' bs cs) ≡ true
unfolding join_all
join_all_complete a b c [] bs cs h h' h'' = absurd (cc)
join_all_complete a b c (x ∷ as') bs cs h h' h'' = ground (
  arith,
  str_eq_iff x a,
  join_middle_complete a b c bs cs h' h'',
  join_all_complete a b c as' bs cs,
  listed-append (a ++ (b ++ c)) (join_middle x bs cs) (join_all as' bs cs),
)

length-join_last : (a b : Text) (cs : List Text) → length (join_last a b cs) ≡ length cs
length-join_last a b [] = refl
length-join_last a b (c ∷ cs) = ap suc (length-join_last a b cs)

length-join_middle :
    (a : Text) (bs cs : List Text) → length (join_middle a bs cs) ≡ length bs * length cs
unfolding join_middle
length-join_middle a [] cs = omega arith
length-join_middle a (b ∷ bs) cs = grind (
  arith,
  length-append (join_last a b cs) (join_middle a bs cs),
  length-join_last a b cs,
  length-join_middle a bs cs,
)

pub length-join_all :
    (as' bs cs : List Text) → length (join_all as' bs cs) ≡ length as' * (length bs * length cs)
unfolding join_all
length-join_all [] bs cs = omega arith
length-join_all (a ∷ as') bs cs = grind (
  arith,
  length-append (join_middle a bs cs) (join_all as' bs cs),
  length-join_middle a bs cs,
  length-join_all as' bs cs,
)
