-- ===== src/HashSet/Laws.antt =====
-- `set_add`, `set_get`, `set_remove` of source/src/set.c against finite maps.
use libcrange.Base.{
  ℕ, ◌+◌, ◌≡◌, ◌<◌, refl, sym, ◌∙◌, Text, Option, none, some, arith, str_eq, str_eq_iff,
  Option-cases, inl, inr, Bool-cases, is_some, if◌then◌else◌, length-set, set,
}
use libcrange.Base.{Returns}
use libcrange.HashSet.Bucket.{
  Element, Chain, assign, unlink, assign-eq-none, assign_absent, unlink_absent, unlink-eq-none,
  find-assign, find-unlink, length-assign, length-unlink, assign-IsDistinct, unlink-IsDistinct,
}
use libcrange.HashSet.Table.{Holds, push-Holds, set-Holds, Holds-ext, slot-lt, count_members-set}
use libcrange.HashSet.Elements.{Lists, elements-Lists, set_members_lem}
use libcrange.HashSet.Resize.{Models, resize-Models, size_limit}
use libcrange.HashSet.{
  Set, hashsize, slot, bucket, set_add_noresize, set_add, set_get, present, set_remove, set_members,
  set_get_data,
}

module _ {ℓ} {D : Type ℓ} where
  -- the finite map `f` changed at `k`
  abbrev pub update :
      (Text → Option (Element D)) → Text → Option (Element D) → Text → Option (Element D)
  update f k v q = if str_eq k q then v else f q

  -- 1 if the entry is there, else 0
  abbrev pub entries : Option (Element D) → ℕ
  entries none = 0
  entries (some _) = 1

  Models-set :
      {s : Set D} {f g : Text → Option (Element D)} (i : ℕ) (c : Chain D) (n : ℕ)
      → Models s f
      → Holds (set s.table i c) n g
      → Models (record { table = set s.table i c; members = n }) g
  Models-set {s} i c n m h =
      let width = length-set s.table i c in
      record { sized = rw width m.sized; small = rw width m.small; holds = h }

  pub set_get-Models :
      {s : Set D} {f : Text → Option (Element D)} (q : Text) → Models s f → set_get s q ≡ f q
  unfolding set_get
  set_get-Models q m = m.holds.reads q

  pub Models_ext :
      {s : Set D} {f g : Text → Option (Element D)}
      → Models s f
      → ((q : Text) → f q ≡ g q)
      → Models s g
  Models_ext m same = record {
    sized = m.sized;
    small = m.small;
    holds = Holds-ext m.holds refl same;
  }

  -- a set stands for the map that `set_get` reads
  pub self-Models : {s : Set D} {f : Text → Option (Element D)} → Models s f → Models s (set_get s)
  self-Models {s} m = Models_ext m (λ q. sym (set_get-Models q m))

  pub set_add_noresize-Models :
      (s : Set D) {f : Text → Option (Element D)} (k : Text) (v : Option D) (m : Models s f)
      → Models (set_add_noresize s k v) (update f k (some (record { name = k; value = v })))
        × ((set_add_noresize s k v).members + entries (f k) ≡ s.members + 1)
        × (hashsize (set_add_noresize s k v) ≡ hashsize s)
  unfolding set_add_noresize
  set_add_noresize-Models s {f} k v m =
      let i = slot k (hashsize s) in
      let c = bucket s.table i in
      let old = m.holds.reads k in
      elim (Option-cases (assign k v c)) [
        | inl none' ↦
            let new : f k ≡ none = sym old ∙ assign-eq-none k v c none' in
            rw (none', set_add_noresize)
              (
                Models-set i _ _ m (push-Holds m.holds (record { name = k; value = v }) new),
                ground arith,
                length-set s.table i _,
              )
        | inr (c', done) ↦
            rw (done, set_add_noresize)
              (
                Models-set i c' s.members m (
                    set-Holds m.holds k (some (record { name = k; value = v })) c' s.members
                      (assign-IsDistinct k v c c' done (m.holds.distinct i))
                      (omega (arith, length-assign k v c c' done))
                      (λ q. find-assign k q v c c' done)),
                ground (arith, old, assign_absent k v c),
                length-set s.table i c',
              )
      ]

  -- the data of what `set_get` finds
  abbrev pub data_of : Option (Element D) → Option D
  data_of none = none
  data_of (some e) = e.value

  pub set_get_data_of :
      (s : Set D) (q : Text) (o : Option (Element D))
      → set_get s q ≡ o
      → set_get_data s q ≡ data_of o
  unfolding set_get_data
  set_get_data_of s q none h = rw (set_get_data, h) refl
  set_get_data_of s q (some e) h = rw (set_get_data, h) refl

  -- what a name is given is found under it
  pub update_data :
      {s s' : Set D} {f : Text → Option (Element D)} (k : Text) (v : Option D) (q : Text)
      → Models s f
      → Models s' (update f k (some (record { name = k; value = v })))
      → set_get_data s' q ≡ (if str_eq k q then v else set_get_data s q)
  update_data {s} {s'} {f} k v q m m' = elim (Bool-cases (str_eq k q)) [
    | inl eq ↦
        set_get_data_of s' q (some (record { name = k; value = v }))
          (set_get-Models q m' ∙ rw eq refl)
        ∙ rw eq refl
    | inr ne ↦
        set_get_data_of s' q (f q) (set_get-Models q m' ∙ rw ne refl)
        ∙ rw ne (sym (set_get_data_of s q (f q) (set_get-Models q m)))
  ]

  -- For a well-formed set with fewer than 1610612741 members, `set_add` runs without a fault, stores
  -- the value under the name, keeps every other lookup, counts one member more exactly if the name is
  -- new, has more buckets than the set had members, and returns a well-formed set.
  pub set_add-Models :
      (s : Set D) {f : Text → Option (Element D)} (k : Text) (v : Option D) (m : Models s f)
      → s.members < size_limit
      → Returns (set_add s k v) λ r.
        Models r (update f k (some (record { name = k; value = v })))
        × (r.members + entries (f k) ≡ s.members + 1)
        × (s.members < hashsize r)
  unfolding set_add
  set_add-Models s k v m h =
      let (r, run, (m', same, _, roomy)) = resize-Models s (s.members + 1) m (omega arith) in
      let (m'', count, width) = set_add_noresize-Models r k v m' in
      (set_add_noresize r k v, rw run, (m'', omega arith, omega arith))

  -- For a well-formed set, `set_remove` takes the name out, keeps every other lookup, counts one member
  -- less exactly if the name was there, and leaves a well-formed set.
  pub set_remove-Models :
      (s : Set D) {f : Text → Option (Element D)} (k : Text) (m : Models s f)
      → Models (set_remove s k) (update f k none)
        × ((set_remove s k).members + entries (f k) ≡ s.members)
  unfolding set_remove
  set_remove-Models s {f} k m =
      let i = slot k (hashsize s) in
      let c = bucket s.table i in
      let old = m.holds.reads k in
      elim (Option-cases (unlink k c)) [
        | inl none' ↦
            let gone : f k ≡ none = sym old ∙ unlink-eq-none k c none' in
            rw (none', set_remove)
              (Models_ext m (λ q. ground (arith, str_eq_iff k q)), ground arith)
        | inr (c', done) ↦
            let shorter = length-unlink k c c' done in
            let total = count_members-set s.table i c' (slot-lt k (hashsize s) m.holds.roomy) in
            let pos : 0 < s.members = omega (arith, m.holds.counted) in
            rw (done, set_remove)
              (
                Models-set i c' _ m (
                    set-Holds m.holds k none c' _
                      (unlink-IsDistinct k c c' done (m.holds.distinct i)) (ground arith)
                      (λ q. find-unlink k q c c' done (m.holds.distinct i))),
                ground (arith, old, unlink_absent k c),
              )
      ]

  pub present-Models :
      {s : Set D} {f : Text → Option (Element D)} (q : Text)
      → Models s f
      → present s q ≡ is_some (f q)
  unfolding present
  present-Models {s} q m = ground (arith, set_get-Models q m)

  -- For a well-formed set, `set_members` gives the element of every name in the set once, and exactly
  -- as many elements as the set counts: they fill the array that is allocated for them, up to the null
  -- at its end.
  pub set_members-Lists :
      (s : Set D) {f : Text → Option (Element D)} → Models s f → Lists (set_members s) s.members f
  set_members-Lists s m = rw (set_members_lem s) (elements-Lists m.holds)
