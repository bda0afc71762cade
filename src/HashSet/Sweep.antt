-- ===== src/HashSet/Sweep.antt =====
-- `set_diff_inplace` of source/src/set.c.
use libcrange.Base.{
  ℕ, zero, suc, ◌+◌, ◌≡◌, ◌≤◌, refl, ap, ap₂, ◌∙◌, Text, List, [], ◌∷◌, Option, none, arith, length,
  str_eq_iff, if◌then◌else◌, map, Bool-cases, inl, inr,
}
use libcrange.HashSet.Bucket.{Element, Chain, find, IsDistinct}
use libcrange.HashSet.Table.{Holds}
use libcrange.HashSet.Resize.{Models}
use libcrange.HashSet.Laws.{set_get-Models}
use libcrange.HashSet.Algebra.{without}
use libcrange.HashSet.{
  Set, hashsize, slot, bucket, count_members, size_pred, present, sweep_chain, sweep_table,
  set_diff_inplace,
}

module _ {ℓ} {D : Type ℓ} where
  -- the elements of a bucket that the second set lacks
  abbrev keep : Set D → Chain D → Chain D
  keep s [] = []
  keep s (e ∷ c) = let rest = keep s c in if present s e.name then rest else e ∷ rest

  sweep_chain-keep :
      (s : Set D) (c : Chain D) (m : ℕ)
      → length c ≤ m
      → ((sweep_chain s c m).0 ≡ keep s c)
        × ((sweep_chain s c m).1 + length c ≡ m + length (keep s c))
  unfolding sweep_chain
  sweep_chain-keep s [] m h = (refl, refl)
  sweep_chain-keep s (e ∷ c) m h =
      ground (arith, sweep_chain-keep s c m, sweep_chain-keep s c (size_pred m))

  sweep_table-keep :
      (s : Set D) (t : List (Chain D)) (m : ℕ)
      → count_members t ≤ m
      → ((sweep_table s t m).0 ≡ map (keep s) t)
        × ((sweep_table s t m).1 + count_members t ≡ m + count_members (map (keep s) t))
  unfolding sweep_table count_members
  sweep_table-keep s [] m h = (refl, refl)
  sweep_table-keep s (c ∷ t) m h =
      let (same, count) = sweep_chain-keep s c m (omega arith) in
      let (same', count') = sweep_table-keep s t (sweep_chain s c m).1 (omega arith) in
      (ap₂ ◌∷◌ same same', omega (arith, ap length same))

  bucket-keep :
      (s : Set D) (t : List (Chain D)) (i : ℕ) → bucket (map (keep s) t) i ≡ keep s (bucket t i)
  bucket-keep s [] i = refl
  bucket-keep s (c ∷ t) zero = refl
  bucket-keep s (c ∷ t) (suc i) = bucket-keep s t i

  length-keep : (s : Set D) (t : List (Chain D)) → length (map (keep s) t) ≡ length t
  length-keep s [] = refl
  length-keep s (c ∷ t) = ap suc (length-keep s t)

  find-keep :
      (s : Set D) (q : Text) (c : Chain D)
      → find q (keep s c) ≡ (if present s q then none else find q c)
  unfolding find
  find-keep s q [] = ground arith
  find-keep s q (e ∷ c) = ground (arith, find-keep s q c, str_eq_iff e.name q)

  keep-IsDistinct : (s : Set D) (c : Chain D) → IsDistinct c → IsDistinct (keep s c)
  keep-IsDistinct s [] d = tt
  keep-IsDistinct s (e ∷ c) d = elim (Bool-cases (present s e.name)) [
    | inl gone ↦ rw gone (keep-IsDistinct s c d.1)
    | inr stays ↦ rw stays (ground (arith, find-keep s e.name c, d.0), keep-IsDistinct s c d.1)
  ]

  length-keep-le : (s : Set D) (c : Chain D) → length (keep s c) ≤ length c
  length-keep-le s [] = omega arith
  length-keep-le s (e ∷ c) = ground (arith, length-keep-le s c)

  count_members-keep-le :
      (s : Set D) (t : List (Chain D)) → count_members (map (keep s) t) ≤ count_members t
  unfolding count_members
  count_members-keep-le s [] = omega arith
  count_members-keep-le s (c ∷ t) = omega (arith, length-keep-le s c, count_members-keep-le s t)

  keep-Holds :
      (s s₂ : Set D) {f g : Text → Option (Element D)} (n : ℕ)
      → Models s f
      → Models s₂ g
      → count_members (map (keep s₂) s.table) ≡ n
      → Holds (map (keep s₂) s.table) n (λ q. without (f q) (g q))
  unfolding present
  keep-Holds s s₂ {f} {g} n m m₂ h =
      let t = s.table in
      let width = length-keep s₂ t in
      record {
        roomy = rw width m.holds.roomy;
        placed = λ q i ne.
            let old = m.holds.placed q i (rw width at ne) in
            rw (bucket-keep s₂ t i, find-keep s₂ q (bucket t i), old) (ground arith);
        distinct = λ i. rw (bucket-keep s₂ t i) (keep-IsDistinct s₂ _ (m.holds.distinct i));
        counted = h;
        reads = λ q.
            let i = slot q (length t) in
            rw (width, bucket-keep s₂ t i, find-keep s₂ q (bucket t i), m.holds.reads q)
              (ground (arith, set_get-Models q m₂));
      }

  -- For two well-formed sets, `set_diff_inplace` takes the names of the second out of the first, keeps
  -- every other lookup and the number of buckets, does not raise the count of members, and leaves a
  -- well-formed set.
  pub set_diff_inplace-Models :
      (s s₂ : Set D) {f g : Text → Option (Element D)}
      → Models s f
      → Models s₂ g
      → Models (set_diff_inplace s s₂) (λ q. without (f q) (g q))
        × ((set_diff_inplace s s₂).members ≤ s.members)
        × (hashsize (set_diff_inplace s s₂) ≡ hashsize s)
  unfolding set_diff_inplace
  set_diff_inplace-Models s s₂ {f} {g} m m₂ =
      let (same, count) = sweep_table-keep s₂ s.table s.members (omega (arith, m.holds.counted)) in
      let fewer = count_members-keep-le s₂ s.table in
      let width = length-keep s₂ s.table in
      let held =
        keep-Holds s s₂ (sweep_table s₂ s.table s.members).1 m m₂
          (omega (arith, m.holds.counted)) in
      (
        rw same (record { sized = rw width m.sized; small = rw width m.small; holds = held }),
        omega (arith, m.holds.counted),
        ap length same ∙ width,
      )
