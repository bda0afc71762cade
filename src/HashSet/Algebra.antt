-- ===== src/HashSet/Algebra.antt =====
-- The operations of source/src/set.c on two sets: union, difference and intersection.
use mathlib.Core.Option.{or_else}
use libcrange.Base.{
  ◌+◌, ◌≡◌, ◌≤◌, refl, sym, ap, ◌∙◌, Text, List, [], ◌∷◌, ◌++◌, Option, none, some, true, false,
  not, Bool, arith, length, str_eq_iff, inl, inr, if◌then◌else◌, ltb, Bool-cases, ◌==◌, ==_iff,
  ltb→lt, length-replicate, replicate, Option-cases,
}
use libcrange.Base.{ok, ◌>>=◌, Returns}
use libcrange.HashSet.Bucket.{Element, Chain, find, find_name, IsDistinct}
use libcrange.HashSet.Elements.{elements-Lists}
use libcrange.HashSet.Primes.{next_prime_self}
use libcrange.HashSet.Resize.{Models, set_new-Models, resize-Models, size_limit, int_to_ulong_small}
use libcrange.HashSet.Laws.{Models_ext, set_add_noresize-Models, set_get-Models}
use libcrange.HashSet.{
  Set, hashsize, elements, count_members, set_new, set_add_noresize, present, copy_chain,
  copy_table, set_union, set_union_inplace, first_buckets, set_diff, set_intersect,
}

module _ {ℓ} {D : Type ℓ} where
  -- the finite map `f` with those entries of `g` laid over it that pass the test
  abbrev pub overlay :
      (Element D → Bool)
      → (Text → Option (Element D))
      → (Text → Option (Element D))
      → Text
      → Option (Element D)
  overlay p g f q = elim (g q) [ some e ↦ if p e then some e else f q | none ↦ f q ]

  -- the entry of `x`, if `y` has none (`without`), or if `y` has one (`within`)
  abbrev pub without : Option (Element D) → Option (Element D) → Option (Element D)
  without x y = elim y [ some _ ↦ none | none ↦ x ]

  abbrev pub within : Option (Element D) → Option (Element D) → Option (Element D)
  within x y = elim y [ some _ ↦ x | none ↦ none ]

  copy_chain-append :
      (p : Element D → Bool) (a b : Chain D) (s : Set D)
      → copy_chain p (a ++ b) s ≡ copy_chain p b (copy_chain p a s)
  unfolding copy_chain
  copy_chain-append p [] b s = refl
  copy_chain-append p (e ∷ a) b s = copy_chain-append p a b _

  copy_table-elements :
      (p : Element D → Bool) (t : List (Chain D)) (s : Set D)
      → copy_table p t s ≡ copy_chain p (elements t) s
  unfolding copy_table copy_chain elements
  copy_table-elements p [] s = refl
  copy_table-elements p (c ∷ t) s =
      copy_table-elements p t (copy_chain p c s) ∙ sym (copy_chain-append p c (elements t) s)

  copy_chain-cons :
      (p : Element D → Bool) (e : Element D) (es : Chain D) (s : Set D) (b : Bool)
      → p e ≡ b
      → copy_chain p (e ∷ es) s
        ≡ copy_chain p es (if b then set_add_noresize s e.name e.value else s)
  unfolding copy_chain
  copy_chain-cons p e es s b h = rw (← h) refl

  copy_chain-Models :
      (p : Element D → Bool) (es : Chain D) (s : Set D) {f : Text → Option (Element D)}
      → IsDistinct es
      → Models s f
      → Models (copy_chain p es s) (overlay p (λ q. find q es) f)
        × ((copy_chain p es s).members ≤ s.members + length es)
  unfolding find
  copy_chain-Models p [] s d m = (unfold copy_chain in m, unfold copy_chain in omega arith)
  copy_chain-Models p (e ∷ es) s {f} d m = elim (Bool-cases (p e)) [
    | inl take_it ↦
        let (m', count, _) = set_add_noresize-Models s e.name e.value m in
        let (m'', bound) = copy_chain-Models p es (set_add_noresize s e.name e.value) d.1 m' in
        rw (copy_chain-cons p e es s true take_it)
          (Models_ext m'' (λ q. ground (arith, str_eq_iff e.name q, d.0, take_it)), omega arith)
    | inr skip ↦
        let (m'', bound) = copy_chain-Models p es s d.1 m in
        rw (copy_chain-cons p e es s false skip)
          (Models_ext m'' (λ q. ground (arith, str_eq_iff e.name q, d.0, skip)), omega arith)
  ]

  -- All the buckets of a set are copied into another set.
  copy_table-Models :
      (p : Element D → Bool) (s₂ s : Set D) {f g : Text → Option (Element D)}
      → Models s₂ g
      → Models s f
      → Models (copy_table p s₂.table s) (overlay p g f)
        × ((copy_table p s₂.table s).members ≤ s.members + s₂.members)
  copy_table-Models p s₂ s {f} {g} m₂ m =
      let l = elements-Lists m₂.holds in
      let (m', bound) = copy_chain-Models p (elements s₂.table) s l.distinct m in
      rw (copy_table-elements p s₂.table s)
        (Models_ext m' (λ q. ground (arith, l.reads q)), omega (arith, l.counted))

  -- For two well-formed sets with at most 1610612741 members together, `set_union` returns a well-
  -- formed set with the names of both, with the data of the second where both have a name.
  pub set_union-Models :
      (s₁ s₂ : Set D) {f g : Text → Option (Element D)}
      → Models s₁ f
      → Models s₂ g
      → s₁.members + s₂.members ≤ size_limit
      → Returns
          (set_union s₁ s₂)
          λ r. Models r (λ q. or_else (g q) (f q)) × (r.members ≤ s₁.members + s₂.members)
  unfolding set_union or_else
  set_union-Models s₁ s₂ {f} {g} m₁ m₂ h =
      let (s, run, (m, _, empty)) = set_new-Models {D = D} (s₁.members + s₂.members) h in
      let (m', bound) = copy_table-Models (λ _. true) s₁ s m₁ m in
      let (m'', bound') = copy_table-Models (λ _. true) s₂ _ m₂ m' in
      (_, rw run, (Models_ext m'' (λ q. ground (arith)), omega arith))

  -- For two well-formed sets with at most 1610612741 members together, `set_union_inplace` runs without
  -- a fault, so that its assertion on the count holds, and returns a well-formed set with the names of
  -- both, with the data of the second where both have a name.
  pub set_union_inplace-Models :
      (s s₂ : Set D) {f g : Text → Option (Element D)}
      → Models s f
      → Models s₂ g
      → s.members + s₂.members ≤ size_limit
      → Returns
          (set_union_inplace s s₂)
          λ r. Models r (λ q. or_else (g q) (f q)) × (r.members ≤ s.members + s₂.members)
  unfolding set_union_inplace or_else
  set_union_inplace-Models s s₂ {f} {g} m m₂ h =
      let (r, run, (m', same, _, _)) = resize-Models s (s.members + s₂.members) m h in
      let (m'', bound) = copy_table-Models (λ _. true) s₂ r m₂ m' in
      let r' = copy_table (λ _. true) s₂.table r in
      let agree : (r'.members == count_members r'.table) ≡ true =
        (==_iff r'.members (count_members r'.table)).1 (sym m''.holds.counted) in
      (r', rw (run, ◌>>=◌, agree), (Models_ext m'' (λ q. ground arith), omega arith))

  first_buckets_all : (t : List (Chain D)) → first_buckets (length t) t ≡ ok t
  unfolding first_buckets
  first_buckets_all [] = refl
  first_buckets_all (c ∷ t) = rw (first_buckets_all t)

  -- A new set of the size of another has exactly that size.
  set_new_same :
      (s : Set D) {f : Text → Option (Element D)}
      → Models s f
      → Returns
          (set_new {D = D} (hashsize s))
          λ r. Models r (λ _. none) × (hashsize r ≡ hashsize s) × (r.members ≡ 0)
  unfolding set_new
  set_new_same s m =
      let width = length-replicate {A = Chain D} (hashsize s) [] in
      let same = next_prime_self (hashsize s) m.sized (omega (arith, m.small)) in
      let (r, run, (m', _, empty)) = set_new-Models {D = D} (hashsize s) m.small in
      let built : set_new {D = D} (hashsize s)
          ≡ ok (record { table = replicate (hashsize s) []; members = 0 }) =
        rw (int_to_ulong_small (hashsize s) m.small, same) in
      let is : r ≡ record { table = replicate (hashsize s) []; members = 0 } = cc in
      (r, run, (m', ap hashsize is ∙ width, empty))

  name_of :
      {s : Set D} {f : Text → Option (Element D)} (q : Text) (e : Element D)
      → Models s f
      → f q ≡ some e
      → e.name ≡ q
  name_of q e m h = find_name q _ e (m.holds.reads q ∙ h)

  diff_reads :
      (s₁ s₂ : Set D) {f g : Text → Option (Element D)} (q : Text)
      → Models s₁ f
      → Models s₂ g
      → overlay (λ e. not (present s₂ e.name)) f (λ _. none) q ≡ without (f q) (g q)
  unfolding present
  diff_reads s₁ s₂ {f} {g} q m₁ m₂ = elim (Option-cases (f q)) [
    | inl absent ↦ ground arith
    | inr (e, found) ↦ ground (arith, name_of q e m₁ found, set_get-Models e.name m₂)
  ]

  inter_reads :
      (s₁ s₂ : Set D) {f g : Text → Option (Element D)} (q : Text)
      → Models s₁ f
      → Models s₂ g
      → overlay (λ e. present s₂ e.name) f (λ _. none) q ≡ within (f q) (g q)
  unfolding present
  inter_reads s₁ s₂ {f} {g} q m₁ m₂ = elim (Option-cases (f q)) [
    | inl absent ↦ ground arith
    | inr (e, found) ↦ ground (arith, name_of q e m₁ found, set_get-Models e.name m₂)
  ]

  -- For two well-formed sets, `set_diff` reads no bucket out of bounds and returns a well-formed set
  -- with the names of the first that the second lacks, with their data.
  pub set_diff-Models :
      (s₁ s₂ : Set D) {f g : Text → Option (Element D)}
      → Models s₁ f
      → Models s₂ g
      → Returns (set_diff s₁ s₂) λ r. Models r (λ q. without (f q) (g q)) × (r.members ≤ s₁.members)
  unfolding set_diff
  set_diff-Models s₁ s₂ {f} {g} m₁ m₂ =
      let (s, run, (m, width, empty)) = set_new_same s₁ m₁ in
      let (m', bound) = copy_table-Models (λ e. not (present s₂ e.name)) s₁ s m₁ m in
      (
        _,
        rw (run, ◌>>=◌, width, first_buckets_all s₁.table),
        (Models_ext m' (λ q. diff_reads s₁ s₂ q m₁ m₂), omega arith),
      )

  inter_loop :
      (big small : Set D) {f g : Text → Option (Element D)}
      → Models big f
      → Models small g
      → Returns
          (set_new (hashsize big) >>= λ s. ok (copy_table (λ e. present big e.name) small.table s))
          λ r. Models r (λ q. within (g q) (f q)) × (r.members ≤ small.members)
  inter_loop big small m₁ m₂ =
      let (s, run, (m, _, empty)) = set_new-Models {D = D} (hashsize big) m₁.small in
      let (m', bound) = copy_table-Models (λ e. present big e.name) small s m₂ m in
      (_, rw run, (Models_ext m' (λ q. inter_reads small big q m₂ m₁), omega arith))

  -- For two well-formed sets, `set_intersect` returns a well-formed set with the names of both, at most
  -- as many as either has, with the data of the set that has fewer members, and of the second where
  -- neither has.
  pub set_intersect-Models :
      (s₁ s₂ : Set D) {f g : Text → Option (Element D)}
      → Models s₁ f
      → Models s₂ g
      → Returns (set_intersect s₁ s₂) λ r.
        Models r (λ q. if ltb s₁.members s₂.members then within (f q) (g q) else within (g q) (f q))
        × (r.members ≤ s₁.members)
        × (r.members ≤ s₂.members)
  unfolding set_intersect
  set_intersect-Models s₁ s₂ m₁ m₂ = elim (Bool-cases (ltb s₁.members s₂.members)) [
    | inl swap ↦
        let (r, run, (m, bound)) = inter_loop s₂ s₁ m₂ m₁ in
        rw swap (r, run, (m, bound, omega (arith, ltb→lt _ _ swap)))
    | inr keep ↦
        let (r, run, (m, bound)) = inter_loop s₁ s₂ m₁ m₂ in
        rw keep (r, run, (m, ground arith, bound))
  ]
