-- ===== src/HashSet/Table.antt =====
-- What a table of buckets of source/src/set.c means, and a write to one bucket.
use native.Mathlib.Decide.{ℕ_discrete}
use libcrange.Base.{
  ℕ, zero, suc, ◌+◌, ◌≡◌, ◌≢◌, ◌<◌, refl, ◌∙◌, Text, str_eq, List, [], ◌∷◌, Option, none, some,
  if◌then◌else◌, arith, length, set, str_eq_iff,
}
use libcrange.Base.{length-set, get_or-set_self, get_or-set_ne}
use libcrange.HashSet.Bucket.{Element, Chain, find, IsDistinct}
use libcrange.HashSet.{slot, bucket, count_members}

pub slot-lt : (k : Text) (n : ℕ) → 0 < n → slot k n < n
unfolding slot
slot-lt k n h = grind arith

module _ {ℓ} {D : Type ℓ} where
  -- The table `t` has `n` elements, each in the bucket of its name, no name stands twice, and a
  -- search in its bucket gives `f`.
  pub record Holds (t : List (Chain D)) (n : ℕ) (f : Text → Option (Element D)) : Type ℓ where
    pub roomy : 0 < length t
    pub placed : (q : Text) (i : ℕ) → i ≢ slot q (length t) → find q (bucket t i) ≡ none
    pub distinct : (i : ℕ) → IsDistinct (bucket t i)
    pub counted : count_members t ≡ n
    pub reads : (q : Text) → find q (bucket t (slot q (length t))) ≡ f q

  pub count_members-set :
      (t : List (Chain D)) (i : ℕ) (c : Chain D)
      → i < length t
      → count_members (set t i c) + length (bucket t i) ≡ count_members t + length c
  unfolding count_members
  count_members-set [] i c h = elim h [ ]
  count_members-set (x ∷ t) zero c h = omega arith
  count_members-set (x ∷ t) (suc i) c h = omega (arith, count_members-set t i c (omega arith))

  -- A bucket is replaced by one that differs from it at the name `k` alone.
  pub set-Holds :
      {t : List (Chain D)} {n : ℕ} {f : Text → Option (Element D)} (h : Holds t n f) (k : Text)
      (v : Option (Element D)) (c : Chain D) (m : ℕ)
      → IsDistinct c
      → length c + n ≡ length (bucket t (slot k (length t))) + m
      → ((q : Text) → find q c ≡ (if str_eq k q then v else find q (bucket t (slot k (length t)))))
      → Holds (set t (slot k (length t)) c) m (λ q. if str_eq k q then v else f q)
  set-Holds {t} {n} {f} h k v c m d len look = record {
    roomy = rw length-set h.roomy;
    placed = λ q j ne. elim (ℕ_discrete i j) [
      | yes e ↦
          let other : j ≢ slot q (length t) = rw (length-set t i c) at ne in
          rw (← e, get_or-set_self t i c [] lt)
            (ground (arith, look q, str_eq_iff k q, h.placed q i))
      | no e ↦ rw (get_or-set_ne t i j c [] e) (h.placed q j (rw (length-set t i c) at ne))
    ];
    distinct = λ j. elim (ℕ_discrete i j) [
      | yes e ↦ rw (← e, get_or-set_self t i c [] lt) d
      | no e ↦ rw (get_or-set_ne t i j c [] e) (h.distinct j)
    ];
    counted = omega (arith, count_members-set t i c lt, h.counted);
    reads = λ q. elim (ℕ_discrete i (slot q (length t))) [
      | yes e ↦
          rw (length-set t i c, ← e, get_or-set_self t i c [] lt)
            (ground (arith, look q, h.reads q))
      | no e ↦
          rw (length-set t i c, get_or-set_ne t i (slot q (length t)) c [] e)
            (ground (arith, str_eq_iff k q, h.reads q))
    ];
  }
    where
      i : ℕ
      i = slot k (length t)

      lt : i < length t
      lt = slot-lt k (length t) h.roomy

  -- A new name goes to the front of its bucket.
  pub push-Holds :
      {t : List (Chain D)} {n : ℕ} {f : Text → Option (Element D)} (h : Holds t n f) (e : Element D)
      → f e.name ≡ none
      → Holds
          (set t (slot e.name (length t)) (e ∷ bucket t (slot e.name (length t))))
          (n + 1)
          (λ q. if str_eq e.name q then some e else f q)
  push-Holds {t} h e new =
      let i = slot e.name (length t) in
      set-Holds h e.name (some e) (e ∷ bucket t i) _ (h.reads e.name ∙ new, h.distinct i)
        (omega arith) (λ q. unfold find in refl)

  pub Holds-ext :
      {t : List (Chain D)} {n m : ℕ} {f g : Text → Option (Element D)}
      → Holds t n f
      → n ≡ m
      → ((q : Text) → f q ≡ g q)
      → Holds t m g
  Holds-ext h e same = record {
    roomy = h.roomy;
    placed = h.placed;
    distinct = h.distinct;
    counted = h.counted ∙ e;
    reads = λ q. h.reads q ∙ same q;
  }
