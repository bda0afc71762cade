-- ===== src/HashSet.antt =====
-- The operations of source/src/set.c. A set is its table of buckets, whose length is `hashsize`,
-- with the count of members. The pools of memory are not modelled: an allocation succeeds, and
-- the sets that an operation takes are different objects. A result pointer into the set is given
-- as the element that it points to.
pub mod Hash
pub mod Primes
pub mod Bucket
pub mod Table
pub mod Elements
pub mod Resize
pub mod Laws
pub mod Algebra
pub mod Sweep
pub mod Packed
mod Tests
use libcrange.Base.{
  ℕ, zero, suc, ◌+◌, ◌-◌, ◌%◌, ◌^◌, Text, List, [], ◌∷◌, ◌++◌, Option, none, some, Bool, true,
  false, not, if◌then◌else◌, ltb, ◌==◌, length, get_or, set, replicate,
}
use libcrange.Base.{Run, ok, fault, assertion, out_of_bounds, ◌>>=◌}
use libcrange.HashSet.Hash.{string_hash}
use libcrange.HashSet.Primes.{next_prime, int_to_ulong}
use libcrange.HashSet.Bucket.{Element, Chain, find, assign, unlink}

pub record Set {ℓ} (D : Type ℓ) : Type ℓ where
  pub table : List (Chain D)
  pub members : ℕ

-- `--members` on a `size_t`
abbrev pub size_pred : ℕ → ℕ
size_pred m = if m == 0 then 2 ^ 64 - 1 else m - 1

-- `set_hash`, for a table of `n` buckets
pub slot : Text → ℕ → ℕ
slot k n = string_hash k % n

module _ {ℓ} {D : Type ℓ} where
  abbrev pub hashsize : Set D → ℕ
  hashsize s = length s.table

  abbrev pub bucket : List (Chain D) → ℕ → Chain D
  bucket t i = get_or t i []

  -- `_count_members`
  pub count_members : List (Chain D) → ℕ
  count_members [] = 0
  count_members (c ∷ t) = length c + count_members t

  -- `set_new`, whose parameter is an `int`
  pub set_new : ℕ → Run (Set D)
  set_new size =
      next_prime (int_to_ulong size) >>= λ n. ok (record { table = replicate n []; members = 0 })

  -- One element is linked in front of its bucket of the new table.
  pub relink : Element D → List (Chain D) → List (Chain D)
  unfolding slot
  relink e t = let i = slot e.name (length t) in set t i (e ∷ bucket t i)

  pub relink_chain : Chain D → List (Chain D) → List (Chain D)
  relink_chain [] t = t
  relink_chain (e ∷ c) t = relink_chain c (relink e t)

  pub relink_table : List (Chain D) → List (Chain D) → List (Chain D)
  relink_table [] t = t
  relink_table (c ∷ cs) t = relink_table cs (relink_chain c t)

  pub resize : Set D → ℕ → Run (Set D)
  resize s hint =
      if ltb (hashsize s) hint
      then (next_prime hint >>= λ n. ok (
          if ltb (hashsize s) n
          then record s { table = relink_table s.table (replicate n []) }
          else s))
      else ok s

  pub set_add_noresize : Set D → Text → Option D → Set D
  set_add_noresize s k v =
      let i = slot k (hashsize s) in
      elim (assign k v (bucket s.table i)) [
        | some c ↦ record s { table = set s.table i c }
        | none ↦ record {
          table = set s.table i (record { name = k; value = v } ∷ bucket s.table i);
          members = s.members + 1;
        }
      ]

  pub set_add : Set D → Text → Option D → Run (Set D)
  set_add s k v = resize s (s.members + 1) >>= λ s'. ok (set_add_noresize s' k v)

  pub set_get : Set D → Text → Option (Element D)
  set_get s k = find k (bucket s.table (slot k (hashsize s)))

  pub set_get_data : Set D → Text → Option D
  set_get_data s k = elim (set_get s k) [ some e ↦ e.value | none ↦ none ]

  -- `set_get(s, name)` as a test
  pub present : Set D → Text → Bool
  present s k = elim (set_get s k) [ some _ ↦ true | none ↦ false ]

  -- The array that `set_members` fills, bucket after bucket, without the null at its end.
  unfoldable pub elements : List (Chain D) → List (Element D)
  elements [] = []
  elements (c ∷ t) = c ++ elements t

  unfoldable pub set_members : Set D → List (Element D)
  set_members s = elements s.table

  -- `for (n = bucket; n; n = n->next) if (test(n)) set_add_noresize(s, n->name, n->data);`
  pub copy_chain : (Element D → Bool) → Chain D → Set D → Set D
  copy_chain p [] s = s
  copy_chain p (e ∷ c) s = copy_chain p c (if p e then set_add_noresize s e.name e.value else s)

  -- the same over all the buckets
  pub copy_table : (Element D → Bool) → List (Chain D) → Set D → Set D
  copy_table p [] s = s
  copy_table p (c ∷ t) s = copy_table p t (copy_chain p c s)

  pub set_union : Set D → Set D → Run (Set D)
  set_union s₁ s₂ = set_new (s₁.members + s₂.members) >>= λ s.
      ok (copy_table (λ _. true) s₂.table (copy_table (λ _. true) s₁.table s))

  -- with the assertion at its end
  pub set_union_inplace : Set D → Set D → Run (Set D)
  set_union_inplace s s₂ = resize s (s.members + s₂.members) >>= λ r.
      let s' = copy_table (λ _. true) s₂.table r in
      if s'.members == count_members s'.table then ok s' else fault assertion

  -- `table[0]` to `table[n - 1]`, as a loop up to `n` reads them
  pub first_buckets : ℕ → List (Chain D) → Run (List (Chain D))
  first_buckets zero t = ok []
  first_buckets (suc n) [] = fault out_of_bounds
  first_buckets (suc n) (c ∷ t) = first_buckets n t >>= λ cs. ok (c ∷ cs)

  -- The loop runs up to the size of the new table, over the buckets of `s1`.
  pub set_diff : Set D → Set D → Run (Set D)
  set_diff s₁ s₂ = set_new (hashsize s₁) >>= λ s. first_buckets (hashsize s) s₁.table >>= λ t.
      ok (copy_table (λ e. not (present s₂ e.name)) t s)

  -- One bucket of `set_diff_inplace`: the elements that stay, and the count of members.
  pub sweep_chain : Set D → Chain D → ℕ → Chain D × ℕ
  sweep_chain s₂ [] m = ([], m)
  sweep_chain s₂ (e ∷ c) m =
      let drop_it = present s₂ e.name in
      let rest = sweep_chain s₂ c (if drop_it then size_pred m else m) in
      if drop_it then rest else (e ∷ rest.0, rest.1)

  pub sweep_table : Set D → List (Chain D) → ℕ → List (Chain D) × ℕ
  sweep_table s₂ [] m = ([], m)
  sweep_table s₂ (c ∷ t) m =
      let first = sweep_chain s₂ c m in
      let rest = sweep_table s₂ t first.1 in (first.0 ∷ rest.0, rest.1)

  pub set_diff_inplace : Set D → Set D → Set D
  set_diff_inplace s s₂ =
      let swept = sweep_table s₂ s.table s.members in record { table = swept.0; members = swept.1 }

  -- The elements come from the set with fewer members, the second at a tie.
  pub set_intersect : Set D → Set D → Run (Set D)
  set_intersect s₁ s₂ =
      let swap = ltb s₁.members s₂.members in
      let big = if swap then s₂ else s₁ in
      let small = if swap then s₁ else s₂ in
      set_new (hashsize big) >>= λ s. ok (copy_table (λ e. present big e.name) small.table s)

  pub set_remove : Set D → Text → Set D
  set_remove s k =
      let i = slot k (hashsize s) in
      elim (unlink k (bucket s.table i)) [
        | some c ↦ record { table = set s.table i c; members = size_pred s.members }
        | none ↦ s
      ]
