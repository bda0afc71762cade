-- ===== src/HashSet/Bucket.antt =====
-- One bucket of the table of source/src/set.c: a linked list of elements.
use mathlib.Core.Option.{or_else}
use libcrange.Base.{
  suc, ◌≡◌, refl, Text, str_eq, List, [], ◌∷◌, ◌++◌, Option, none, some, false, if◌then◌else◌,
  arith, length, str_eq_iff, Option-cases, inl, inr, ◌⊎◌, ap, Bool-cases,
}

-- `set_element`: the `data` pointer is `none` where it is null
pub record Element {ℓ} (D : Type ℓ) : Type ℓ where
  pub name : Text
  pub value : Option D

abbrev pub Chain {ℓ} : Type ℓ → Type ℓ
Chain D = List (Element D)

module _ {ℓ} {D : Type ℓ} where
  -- the loop of `set_get`: the first element of that name
  unfoldable pub find : Text → Chain D → Option (Element D)
  find k [] = none
  find k (e ∷ c) = if str_eq e.name k then some e else find k c

  -- the loop of `set_add_noresize`: `n->data = data` at the first element of that name
  unfoldable pub assign : Text → Option D → Chain D → Option (Chain D)
  assign k v [] = none
  assign k v (e ∷ c) =
      let rest = assign k v c in
      if str_eq e.name k
      then some (record e { value = v } ∷ c)
      else elim rest [ none ↦ none | some c' ↦ some (e ∷ c') ]

  -- the loop of `set_remove`: the first element of that name is taken out of the list
  unfoldable pub unlink : Text → Chain D → Option (Chain D)
  unlink k [] = none
  unlink k (e ∷ c) =
      let rest = unlink k c in
      if str_eq e.name k then some c else elim rest [ none ↦ none | some c' ↦ some (e ∷ c') ]

  -- No two elements of the list have one name.
  abbrev pub IsDistinct : Chain D → Type ℓ
  IsDistinct [] = Unit
  IsDistinct (e ∷ c) = (find e.name c ≡ none) × IsDistinct c

  pub find_name : (k : Text) (c : Chain D) (e : Element D) → find k c ≡ some e → e.name ≡ k
  unfolding find
  find_name k [] e h = absurd (cc)
  find_name k (x ∷ c) e h = ground (arith, str_eq_iff x.name k, find_name k c e)

  pub find-append :
      (front back : Chain D) (q : Text)
      → find q (front ++ back) ≡ or_else (find q front) (find q back)
  unfolding or_else find
  find-append [] back q = refl
  find-append (first ∷ front) back q = ground (arith, find-append front back q)

  pub assign-eq-none :
      (k : Text) (v : Option D) (c : Chain D) → assign k v c ≡ none → find k c ≡ none
  unfolding find assign
  assign-eq-none k v [] h = refl
  assign-eq-none k v (e ∷ c) h = ground (arith, assign-eq-none k v c)

  pub unlink-eq-none : (k : Text) (c : Chain D) → unlink k c ≡ none → find k c ≡ none
  unfolding find unlink
  unlink-eq-none k [] h = refl
  unlink-eq-none k (e ∷ c) h = ground (arith, unlink-eq-none k c)

  pub assign_absent :
      (k : Text) (v : Option D) (c : Chain D) → find k c ≡ none → assign k v c ≡ none
  unfolding find assign
  assign_absent k v [] h = refl
  assign_absent k v (e ∷ c) h = ground (arith, assign_absent k v c)

  pub unlink_absent : (k : Text) (c : Chain D) → find k c ≡ none → unlink k c ≡ none
  unfolding find unlink
  unlink_absent k [] h = refl
  unlink_absent k (e ∷ c) h = ground (arith, unlink_absent k c)

  pub find-assign :
      (k q : Text) (v : Option D) (c c' : Chain D)
      → assign k v c ≡ some c'
      → find q c' ≡ (if str_eq k q then some (record { name = k; value = v }) else find q c)
  unfolding find assign
  find-assign k q v [] c' h = absurd (cc)
  find-assign k q v (e ∷ c) c' h = elim (Option-cases (assign k v c)) [
    | inl none' ↦ ground (arith, str_eq_iff e.name k, str_eq_iff e.name q, str_eq_iff k q)
    | inr (r, ok') ↦
        ground (
          arith,
          str_eq_iff e.name k,
          str_eq_iff e.name q,
          str_eq_iff k q,
          find-assign k q v c r ok',
        )
  ]

  pub length-assign :
      (k : Text) (v : Option D) (c c' : Chain D) → assign k v c ≡ some c' → length c' ≡ length c
  unfolding assign
  length-assign k v [] c' h = absurd (cc)
  length-assign k v (e ∷ c) c' h = elim (Option-cases (assign k v c)) [
    | inl none' ↦ ground arith
    | inr (r, ok') ↦ ground (arith, length-assign k v c r ok')
  ]

  assign-cases :
      (k : Text) (v : Option D) (e : Element D) (c c' : Chain D)
      → assign k v (e ∷ c) ≡ some c'
      → ((c' ≡ record e { value = v } ∷ c)
          ⊎ ((r : Chain D) × (str_eq e.name k ≡ false) × (assign k v c ≡ some r) × (c' ≡ e ∷ r)))
  unfolding assign
  assign-cases k v e c c' h = elim (Option-cases (assign k v c)) [
    | inl none' ↦ inl (ground arith)
    | inr (r, ok') ↦ elim (Bool-cases (str_eq e.name k)) [
      | inl same ↦ inl (ground arith)
      | inr other ↦ inr (r, other, ok', ground arith)
    ]
  ]

  pub assign-IsDistinct :
      (k : Text) (v : Option D) (c c' : Chain D)
      → assign k v c ≡ some c'
      → IsDistinct c
      → IsDistinct c'
  unfolding assign
  assign-IsDistinct k v [] c' h d = absurd (cc)
  assign-IsDistinct k v (e ∷ c) c' h d = elim (assign-cases k v e c c' h) [
    | inl same ↦ rw same d
    | inr (r, other, done, eq) ↦ rw eq (
      ground
          (arith, find-assign k e.name v c r done, str_eq_iff e.name k, str_eq_iff k e.name, d.0),
      assign-IsDistinct k v c r done d.1,
    )
  ]

  unlink-cases :
      (k : Text) (e : Element D) (c c' : Chain D)
      → unlink k (e ∷ c) ≡ some c'
      → ((c' ≡ c) × (e.name ≡ k)
          ⊎ ((r : Chain D) × (str_eq e.name k ≡ false) × (unlink k c ≡ some r) × (c' ≡ e ∷ r)))
  unfolding unlink
  unlink-cases k e c c' h = elim (Option-cases (unlink k c)) [
    | inl none' ↦ inl (ground (arith, str_eq_iff e.name k))
    | inr (r, ok') ↦ elim (Bool-cases (str_eq e.name k)) [
      | inl same ↦ inl (ground (arith, str_eq_iff e.name k))
      | inr other ↦ inr (r, other, ok', ground arith)
    ]
  ]

  pub find-unlink :
      (k q : Text) (c c' : Chain D)
      → unlink k c ≡ some c'
      → IsDistinct c
      → find q c' ≡ (if str_eq k q then none else find q c)
  unfolding find
  find-unlink k q [] c' h d = absurd (unfold unlink in cc)
  find-unlink k q (e ∷ c) c' h d = elim (unlink-cases k e c c' h) [
    | inl (eq, same) ↦
        let gone : find k c ≡ none = rw (← same) d.0 in
        rw (eq, same) (ground (arith, str_eq_iff k q, gone))
    | inr (r, other, done, eq) ↦ rw eq (
        ground (
          arith,
          find-unlink k q c r done,
          str_eq_iff e.name k,
          str_eq_iff e.name q,
          str_eq_iff k q,
        ))
  ]

  pub length-unlink :
      (k : Text) (c c' : Chain D) → unlink k c ≡ some c' → suc (length c') ≡ length c
  length-unlink k [] c' h = absurd (unfold unlink in cc)
  length-unlink k (e ∷ c) c' h = elim (unlink-cases k e c c' h) [
    | inl (eq, same) ↦ rw eq
    | inr (r, other, done, eq) ↦ rw eq (ap suc (length-unlink k c r done))
  ]

  pub unlink-IsDistinct :
      (k : Text) (c c' : Chain D) → unlink k c ≡ some c' → IsDistinct c → IsDistinct c'
  unlink-IsDistinct k [] c' h d = absurd (unfold unlink in cc)
  unlink-IsDistinct k (e ∷ c) c' h d = elim (unlink-cases k e c c' h) [
    | inl (eq, same) ↦ rw eq d.1
    | inr (r, other, done, eq) ↦
        rw eq (
          ground (arith, find-unlink k e.name c r done, d.0, d.1),
          unlink-IsDistinct k c r done d.1,
        )
  ]
