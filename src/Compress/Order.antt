-- ===== src/Compress/Order.antt =====
-- The order of `compare_parts`, source/src/range_sort.c: first the prefix, then the domain, then the
-- number, then the name.
use Prim.Native.Nat.{Ordering}
use libcrange.Base.{◌≡◌, ◌≢◌, ◌<◌, ◌⊎◌, inl, inr, refl, ap, ap₂, Text, [], ◌∷◌, arith, strcmp}
use libcrange.Compress.{ℤ, pos, negsuc, NodeParts, compare_int, or_compare, compare_parts}

-- a comparison that is a total order
pub record IsOrder {ℓ} {A : Type ℓ} (cmp : A → A → Ordering) : Type ℓ where
  pub same : {a b : A} → cmp a b ≡ Ordering.eq → a ≡ b
  pub itself : (a : A) → cmp a a ≡ Ordering.eq
  pub greater : {a b : A} → cmp a b ≡ Ordering.gt → cmp b a ≡ Ordering.lt
  pub smaller : {a b : A} → cmp a b ≡ Ordering.lt → cmp b a ≡ Ordering.gt
  pub through : {a b c : A} → cmp a b ≡ Ordering.lt → cmp b c ≡ Ordering.lt → cmp a c ≡ Ordering.lt

strcmp_same : (a b : Text) → strcmp a b ≡ Ordering.eq → a ≡ b
unfolding strcmp
strcmp_same [] [] h = refl
strcmp_same [] (y ∷ ys) h = cc
strcmp_same (x ∷ xs) [] h = cc
strcmp_same (x ∷ xs) (y ∷ ys) h = ground (arith, strcmp_same xs ys)

strcmp_itself : (a : Text) → strcmp a a ≡ Ordering.eq
unfolding strcmp
strcmp_itself [] = refl
strcmp_itself (x ∷ xs) = ground (arith, strcmp_itself xs)

strcmp_greater : (a b : Text) → strcmp a b ≡ Ordering.gt → strcmp b a ≡ Ordering.lt
unfolding strcmp
strcmp_greater [] [] h = cc
strcmp_greater [] (y ∷ ys) h = cc
strcmp_greater (x ∷ xs) [] h = refl
strcmp_greater (x ∷ xs) (y ∷ ys) h = ground (arith, strcmp_greater xs ys)

strcmp_smaller : (a b : Text) → strcmp a b ≡ Ordering.lt → strcmp b a ≡ Ordering.gt
unfolding strcmp
strcmp_smaller [] [] h = cc
strcmp_smaller [] (y ∷ ys) h = refl
strcmp_smaller (x ∷ xs) [] h = cc
strcmp_smaller (x ∷ xs) (y ∷ ys) h = ground (arith, strcmp_smaller xs ys)

strcmp_through :
    (a b c : Text) → strcmp a b ≡ Ordering.lt → strcmp b c ≡ Ordering.lt → strcmp a c ≡ Ordering.lt
unfolding strcmp
strcmp_through [] [] [] h k = cc
strcmp_through [] (y ∷ ys) [] h k = cc
strcmp_through (x ∷ xs) [] [] h k = cc
strcmp_through (x ∷ xs) (y ∷ ys) [] h k = cc
strcmp_through [] b (z ∷ zs) h k = refl
strcmp_through (x ∷ xs) [] (z ∷ zs) h k = cc
strcmp_through (x ∷ xs) (y ∷ ys) (z ∷ zs) h k = ground (arith, strcmp_through xs ys zs)

strcmp-IsOrder : IsOrder strcmp
strcmp-IsOrder = record {
  same = λ {a} {b} h. strcmp_same a b h;
  itself = strcmp_itself;
  greater = λ {a} {b} h. strcmp_greater a b h;
  smaller = λ {a} {b} h. strcmp_smaller a b h;
  through = λ {a} {b} {c} h k. strcmp_through a b c h k;
}

int_same : (a b : ℤ) → compare_int a b ≡ Ordering.eq → a ≡ b
unfolding compare_int
int_same (pos m) (pos n) h = ap pos (ground arith)
int_same (pos m) (negsuc n) h = cc
int_same (negsuc m) (pos n) h = cc
int_same (negsuc m) (negsuc n) h = ap negsuc (ground arith)

int_itself : (a : ℤ) → compare_int a a ≡ Ordering.eq
unfolding compare_int
int_itself (pos m) = ground arith
int_itself (negsuc m) = ground arith

int_greater : (a b : ℤ) → compare_int a b ≡ Ordering.gt → compare_int b a ≡ Ordering.lt
unfolding compare_int
int_greater (pos m) (pos n) h = ground arith
int_greater (pos m) (negsuc n) h = refl
int_greater (negsuc m) (pos n) h = cc
int_greater (negsuc m) (negsuc n) h = ground arith

int_smaller : (a b : ℤ) → compare_int a b ≡ Ordering.lt → compare_int b a ≡ Ordering.gt
unfolding compare_int
int_smaller (pos m) (pos n) h = ground arith
int_smaller (pos m) (negsuc n) h = cc
int_smaller (negsuc m) (pos n) h = refl
int_smaller (negsuc m) (negsuc n) h = ground arith

int_through :
    (a b c : ℤ)
    → compare_int a b ≡ Ordering.lt
    → compare_int b c ≡ Ordering.lt
    → compare_int a c ≡ Ordering.lt
unfolding compare_int
int_through (pos m) (pos n) (pos l) h k = ground arith
int_through (negsuc m) (negsuc n) (negsuc l) h k = ground arith
int_through (negsuc m) b (pos l) h k = refl
int_through (pos m) (negsuc n) c h k = cc
int_through (pos m) (pos n) (negsuc l) h k = cc
int_through (negsuc m) (pos n) (negsuc l) h k = cc

compare_int-IsOrder : IsOrder compare_int
compare_int-IsOrder = record {
  same = λ {a} {b} h. int_same a b h;
  itself = int_itself;
  greater = λ {a} {b} h. int_greater a b h;
  smaller = λ {a} {b} h. int_smaller a b h;
  through = λ {a} {b} {c} h k. int_through a b c h k;
}

pub Ordering-cases : (o : Ordering) → (o ≡ Ordering.lt) ⊎ ((o ≡ Ordering.eq) ⊎ (o ≡ Ordering.gt))
Ordering-cases Ordering.lt = inl refl
Ordering-cases Ordering.eq = inr (inl refl)
Ordering-cases Ordering.gt = inr (inr refl)

-- one order after the other
lexicographic :
    {A B : Type 0} {f : A → A → Ordering} {g : B → B → Ordering}
    → IsOrder f
    → IsOrder g
    → IsOrder {A = A × B} (λ x y. or_compare (f x.0 y.0) (g x.1 y.1))
unfolding or_compare
lexicographic {f} {g} f-order g-order = record {
  same = λ {a} {b} h. elim (Ordering-cases (f a.0 b.0)) [
    | inl lt ↦ absurd (cc)
    | inr (inl eq) ↦
        let rest : g a.1 b.1 ≡ Ordering.eq = rw eq at h in
        ap₂ (λ x y. (x, y)) (f-order.same eq) (g-order.same rest)
    | inr (inr gt) ↦ absurd (cc)
  ];
  itself = λ a. rw (f-order.itself a.0) (g-order.itself a.1);
  greater = λ {a} {b} h. elim (Ordering-cases (f a.0 b.0)) [
    | inl lt ↦ absurd (cc)
    | inr (inl eq) ↦ rw (f-order.same eq, f-order.itself b.0) (g-order.greater (rw eq at h))
    | inr (inr gt) ↦ rw (f-order.greater gt)
  ];
  smaller = λ {a} {b} h. elim (Ordering-cases (f a.0 b.0)) [
    | inl lt ↦ rw (f-order.smaller lt)
    | inr (inl eq) ↦ rw (f-order.same eq, f-order.itself b.0) (g-order.smaller (rw eq at h))
    | inr (inr gt) ↦ absurd (cc)
  ];
  through = λ {a} {b} {c} h k. elim (Ordering-cases (f a.0 b.0)) [
    | inl lt ↦ elim (Ordering-cases (f b.0 c.0)) [
      | inl lt' ↦ rw (f-order.through lt lt')
      | inr (inl eq) ↦ rw (← f-order.same eq, lt)
      | inr (inr gt) ↦ absurd (cc)
    ]
    | inr (inl eq) ↦ elim (Ordering-cases (f b.0 c.0)) [
      | inl lt' ↦ rw (f-order.same eq, lt')
      | inr (inl eq') ↦ rw (f-order.same eq, eq') (g-order.through (rw eq at h) (rw eq' at k))
      | inr (inr gt) ↦ absurd (cc)
    ]
    | inr (inr gt) ↦ absurd (cc)
  ];
}

not_greater :
    {A : Type 0} {f : A → A → Ordering}
    → IsOrder f
    → (a b c : A) → f a b ≢ Ordering.gt
    → f b c ≢ Ordering.gt
    → f a c ≢ Ordering.gt
not_greater {f} order a b c h k = elim (Ordering-cases (f a b)) [
  | inl lt ↦ elim (Ordering-cases (f b c)) [
    | inl lt' ↦ λ gt. let l = order.through lt lt' in absurd (cc)
    | inr (inl eq) ↦ rw (← order.same eq) h
    | inr (inr gt) ↦ absurd (k gt)
  ]
  | inr (inl eq) ↦ rw (order.same eq) k
  | inr (inr gt) ↦ absurd (h gt)
]

abbrev key : NodeParts → Text × (Text × (ℤ × Text))
key p = (p.prefix, (p.domain, (p.num, p.full_name)))

keys-IsOrder : IsOrder {A = Text × (Text × (ℤ × Text))} (λ x y. or_compare (strcmp x.0 y.0) (
    or_compare
      (strcmp x.1.0 y.1.0)
      (or_compare (compare_int x.1.1.0 y.1.1.0) (strcmp x.1.1.1 y.1.1.1))))
keys-IsOrder =
    lexicographic strcmp-IsOrder
      (lexicographic strcmp-IsOrder (lexicographic compare_int-IsOrder strcmp-IsOrder))

-- `a` does not come after `b`
abbrev pub Precedes : NodeParts → NodeParts → Type 0
Precedes a b = compare_parts a b ≢ Ordering.gt

pub compare_parts_greater : (a b : NodeParts) → compare_parts a b ≡ Ordering.gt → Precedes b a
unfolding compare_parts
compare_parts_greater a b h k =
    let l = keys-IsOrder.greater {a = key a} {b = key b} h in absurd (cc)

pub Precedes-through : (a b c : NodeParts) → Precedes a b → Precedes b c → Precedes a c
unfolding compare_parts
Precedes-through a b c h k = not_greater keys-IsOrder (key a) (key b) (key c) h k

-- the order of texts, byte by byte, a text before those that it begins
abbrev pub TextBefore : Text → Text → Type 0
TextBefore [] [] = ⊥
TextBefore [] (y ∷ ys) = Unit
TextBefore (x ∷ xs) [] = ⊥
TextBefore (x ∷ xs) (y ∷ ys) = (x < y) ⊎ ((x ≡ y) × TextBefore xs ys)

abbrev pub IntBefore : ℤ → ℤ → Type 0
IntBefore (pos m) (pos n) = m < n
IntBefore (pos m) (negsuc n) = ⊥
IntBefore (negsuc m) (pos n) = Unit
IntBefore (negsuc m) (negsuc n) = n < m

-- The prefix comes before, or is the same and the domain does, or both are the same and the number does, or all
-- three are the same and the name does or is the same too.
abbrev pub NotAfter : NodeParts → NodeParts → Type 0
NotAfter a b =
    TextBefore a.prefix b.prefix
    ⊎ ((a.prefix ≡ b.prefix)
        × (TextBefore a.domain b.domain
            ⊎ ((a.domain ≡ b.domain)
                × (IntBefore a.num b.num
                    ⊎ ((a.num ≡ b.num)
                        × (TextBefore a.full_name b.full_name ⊎ (a.full_name ≡ b.full_name)))))))

strcmp-TextBefore : (a b : Text) → strcmp a b ≡ Ordering.lt → TextBefore a b
unfolding strcmp
strcmp-TextBefore [] [] h = absurd (cc)
strcmp-TextBefore [] (y ∷ ys) h = tt
strcmp-TextBefore (x ∷ xs) [] h = absurd (cc)
strcmp-TextBefore (x ∷ xs) (y ∷ ys) h = ground (arith, strcmp-TextBefore xs ys)

compare_int-IntBefore : (a b : ℤ) → compare_int a b ≡ Ordering.lt → IntBefore a b
unfolding compare_int
compare_int-IntBefore (pos m) (pos n) h = ground arith
compare_int-IntBefore (pos m) (negsuc n) h = absurd (cc)
compare_int-IntBefore (negsuc m) (pos n) h = tt
compare_int-IntBefore (negsuc m) (negsuc n) h = ground arith

-- one level of the comparison
level :
    {A : Type 0} {cmp : A → A → Ordering} {Before Rest : Type 0}
    → IsOrder cmp
    → (a b : A) (rest : Ordering) → (cmp a b ≡ Ordering.lt → Before)
    → (rest ≢ Ordering.gt → Rest)
    → or_compare (cmp a b) rest ≢ Ordering.gt
    → Before ⊎ ((a ≡ b) × Rest)
unfolding or_compare
level {cmp} order a b rest before next h = elim (Ordering-cases (cmp a b)) [
  | inl lt ↦ inl (before lt)
  | inr (inl eq) ↦ inr (order.same eq, next (rw eq at h))
  | inr (inr gt) ↦ absurd (h (rw gt))
]

last_level : (a b : Text) → strcmp a b ≢ Ordering.gt → TextBefore a b ⊎ (a ≡ b)
last_level a b h = elim (Ordering-cases (strcmp a b)) [
  | inl lt ↦ inl (strcmp-TextBefore a b lt)
  | inr (inl eq) ↦ inr (strcmp_same a b eq)
  | inr (inr gt) ↦ absurd (h gt)
]

pub Precedes-NotAfter : (a b : NodeParts) → Precedes a b → NotAfter a b
unfolding compare_parts
Precedes-NotAfter a b =
    level strcmp-IsOrder a.prefix b.prefix _ (strcmp-TextBefore a.prefix b.prefix) (
      level strcmp-IsOrder a.domain b.domain _ (strcmp-TextBefore a.domain b.domain) (
        level compare_int-IsOrder a.num b.num _ (compare_int-IntBefore a.num b.num)
          (last_level a.full_name b.full_name)))
