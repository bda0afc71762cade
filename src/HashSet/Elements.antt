-- ===== src/HashSet/Elements.antt =====
-- The elements of a table of source/src/set.c, bucket after bucket, hold what the table holds.
use mathlib.Core.Option.{or_else}
use libcrange.Base.{
  ℕ, zero, suc, ◌+◌, ◌≡◌, ◌≢◌, refl, ap, ◌∙◌, Text, List, [], ◌∷◌, ◌++◌, Option, none, arith,
  length, length-append, str_eq_refl, ◌⊎◌, inl, inr,
}
use libcrange.HashSet.Bucket.{Element, Chain, find, find-append, IsDistinct}
use libcrange.HashSet.Table.{Holds}
use libcrange.HashSet.{slot, bucket, count_members, elements, Set, set_members}

module _ {ℓ} {D : Type ℓ} where
  -- The name `q` stands in no bucket but the one at `j`.
  abbrev OnlyAt : Text → List (Chain D) → ℕ → Type ℓ
  OnlyAt q t j = (i : ℕ) → i ≢ j → find q (bucket t i) ≡ none

  find-elements-none :
      (q : Text) (t : List (Chain D))
      → ((i : ℕ) → find q (bucket t i) ≡ none)
      → find q (elements t) ≡ none
  unfolding elements find or_else
  find-elements-none q [] h = refl
  find-elements-none q (c ∷ t) h =
      find-append c (elements t) q ∙ rw (h 0) (find-elements-none q t (λ i. h (suc i)))

  find-elements_at :
      (q : Text) (t : List (Chain D)) (j : ℕ)
      → OnlyAt q t j
      → find q (elements t) ≡ find q (bucket t j)
  unfolding elements find or_else
  find-elements_at q [] j h = refl
  find-elements_at q (c ∷ t) zero h =
      ground
        (arith, find-append c (elements t) q, find-elements-none q t (λ i. h (suc i) (omega arith)))
  find-elements_at q (c ∷ t) (suc j) h = ground (
    arith,
    find-append c (elements t) q,
    h 0,
    find-elements_at q t j (λ i ne. h (suc i) (omega arith)),
  )

  pub append-IsDistinct :
      (a b : Chain D)
      → IsDistinct a
      → IsDistinct b
      → ((q : Text) → (find q a ≡ none) ⊎ (find q b ≡ none))
      → IsDistinct (a ++ b)
  unfolding find or_else
  append-IsDistinct [] b da db apart = db
  append-IsDistinct (e ∷ a) b da db apart = (
    ground (arith, find-append a b e.name, apart e.name, str_eq_refl e.name),
    append-IsDistinct a b da.1 db (λ q. ground (arith, apart q)),
  )

  elements-IsDistinct :
      (t : List (Chain D))
      → ((i : ℕ) → IsDistinct (bucket t i))
      → ((q : Text) → (j : ℕ) × OnlyAt q t j)
      → IsDistinct (elements t)
  unfolding elements
  elements-IsDistinct [] d h = tt
  elements-IsDistinct (c ∷ t) d h =
      append-IsDistinct c (elements t) (d 0)
        (elements-IsDistinct t (λ i. d (suc i)) (λ q. shift q (h q))) (λ q. apart q (h q))
    where
      shift : (q : Text) → (j : ℕ) × OnlyAt q (c ∷ t) j → (j : ℕ) × OnlyAt q t j
      shift q (zero, o) = (0, λ i _. o (suc i) (omega arith))
      shift q (suc j, o) = (j, λ i ne. o (suc i) (omega arith))

      apart :
          (q : Text)
          → (j : ℕ) × OnlyAt q (c ∷ t) j
          → (find q c ≡ none) ⊎ (find q (elements t) ≡ none)
      apart q (zero, o) = inr (find-elements-none q t (λ i. o (suc i) (omega arith)))
      apart q (suc j, o) = inl (o 0 (omega arith))

  pub length-elements : (t : List (Chain D)) → length (elements t) ≡ count_members t
  unfolding elements count_members
  length-elements [] = refl
  length-elements (c ∷ t) =
      length-append c (elements t) ∙ ap (λ n. length c + n) (length-elements t)

  -- The list of the elements has the members of the table, each name once.
  pub record Lists (es : Chain D) (n : ℕ) (f : Text → Option (Element D)) : Type ℓ where
    pub distinct : IsDistinct es
    pub counted : length es ≡ n
    pub reads : (q : Text) → find q es ≡ f q

  pub elements-Lists :
      {t : List (Chain D)} {n : ℕ} {f : Text → Option (Element D)}
      → Holds t n f
      → Lists (elements t) n f
  elements-Lists {t} h = record {
    distinct = elements-IsDistinct t h.distinct (λ q. (slot q (length t), h.placed q));
    counted = length-elements t ∙ h.counted;
    reads = λ q. find-elements_at q t (slot q (length t)) (h.placed q) ∙ h.reads q;
  }

  pub set_members_lem : (s : Set D) → set_members s ≡ elements s.table
  unfolding set_members
  set_members_lem s = refl
