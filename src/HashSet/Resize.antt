-- ===== src/HashSet/Resize.antt =====
-- `set_new` and `resize` of source/src/set.c.
use mathlib.Core.Option.{or_else}
use mathlib.Core.List.{Memᴰ}
use libcrange.Base.{
  ℕ, zero, suc, ◌+◌, ◌≡◌, ◌≤◌, ◌<◌, refl, sym, ◌∙◌, Text, List, [], ◌∷◌, ◌++◌, Option, none, true,
  arith, length, ltb, replicate, length-set, length-replicate, get_or-replicate, str_eq_iff,
  str_eq_refl, Bool-cases, ◌⊎◌, inl, inr,
}
use libcrange.Base.{ltb→lt, ◌>>=◌, Returns}
use libcrange.HashSet.Primes.{next_prime, int_to_ulong, prime_list, next_prime-IsNextIn, prime_pos}
use libcrange.HashSet.Bucket.{Element, Chain, find, IsDistinct}
use libcrange.HashSet.Table.{Holds, push-Holds, Holds-ext}
use libcrange.HashSet.Elements.{elements-Lists}
use libcrange.HashSet.{
  Set, hashsize, count_members, elements, set_new, relink, relink_chain, relink_table, resize,
}

-- The largest size of the table below 2 ^ 31: up to it an index fits the `int` that holds it.
abbrev pub size_limit : ℕ
size_limit = 1610612741

pub limit_mem : Memᴰ size_limit prime_list
limit_mem = search (Memᴰ.head, Memᴰ.tail) depth 60

-- A size that `next_prime` chooses for a number up to the limit is itself up to the limit.
next_prime_small :
    (n : ℕ)
    → n ≤ size_limit
    → Returns (next_prime n) (λ p. Memᴰ p prime_list × (n ≤ p) × (p ≤ size_limit))
next_prime_small n h =
    let (p, run, (mem, le, least)) = next_prime-IsNextIn n (omega arith) in
    (p, run, (mem, le, least size_limit limit_mem h))

pub int_to_ulong_small : (n : ℕ) → n ≤ size_limit → int_to_ulong n ≡ n
unfolding int_to_ulong
int_to_ulong_small n h = ground arith

count_members-replicate {ℓ} : (D : Type ℓ) (n : ℕ) → count_members {D = D} (replicate n []) ≡ 0
unfolding count_members
count_members-replicate D zero = refl
count_members-replicate D (suc n) = omega (arith, count_members-replicate D n)

module _ {ℓ} {D : Type ℓ} where
  replicate-Holds : (n : ℕ) → 0 < n → Holds {D = D} (replicate n []) 0 (λ _. none)
  unfolding find
  replicate-Holds n h = record {
    roomy = omega (arith, length-replicate {A = Chain D} n []);
    placed = λ q i _. rw (get_or-replicate {A = Chain D} n i []);
    distinct = λ i. rw (get_or-replicate {A = Chain D} n i []) tt;
    counted = count_members-replicate D n;
    reads = λ q. rw (get_or-replicate {A = Chain D} n _ []);
  }

  relink_chain-append :
      (a b : Chain D) (t : List (Chain D))
      → relink_chain (a ++ b) t ≡ relink_chain b (relink_chain a t)
  unfolding relink_chain
  relink_chain-append [] b t = refl
  relink_chain-append (e ∷ a) b t = relink_chain-append a b (relink e t)

  relink_table-elements : (cs t : List (Chain D)) → relink_table cs t ≡ relink_chain (elements cs) t
  unfolding relink_table relink_chain elements
  relink_table-elements [] t = refl
  relink_table-elements (c ∷ cs) t =
      relink_table-elements cs (relink_chain c t) ∙ sym (relink_chain-append c (elements cs) t)

  length-relink_chain : (es : Chain D) (t : List (Chain D)) → length (relink_chain es t) ≡ length t
  unfolding relink_chain relink
  length-relink_chain [] t = refl
  length-relink_chain (e ∷ es) t = length-relink_chain es (relink e t) ∙ length-set t _ _

  relink_chain-Holds :
      (es : Chain D) {t : List (Chain D)} {n : ℕ} {f : Text → Option (Element D)}
      → Holds t n f
      → IsDistinct es
      → ((q : Text) → (find q es ≡ none) ⊎ (f q ≡ none))
      → Holds (relink_chain es t) (n + length es) (λ q. or_else (f q) (find q es))
  unfolding relink_chain relink find or_else
  relink_chain-Holds [] {n} {f} h d apart = Holds-ext h (omega arith) (λ q. ground arith)
  relink_chain-Holds (e ∷ es) {n} {f} h d apart =
      let new : f e.name ≡ none = ground (arith, apart e.name, str_eq_refl e.name) in
      Holds-ext
        (relink_chain-Holds es (push-Holds h e new) d.1
          (λ q. ground (arith, apart q, str_eq_iff e.name q, d.0)))
        (omega arith) (λ q. ground (arith, apart q, str_eq_iff e.name q, d.0))

  -- The elements of a table move to an empty one of `p` buckets.
  rehash-Holds :
      {t : List (Chain D)} {n : ℕ} {f : Text → Option (Element D)} (p : ℕ)
      → Holds t n f
      → 0 < p
      → Holds (relink_table t (replicate p [])) n f × (length (relink_table t (replicate p [])) ≡ p)
  unfolding or_else
  rehash-Holds {t} p h pos =
      let l = elements-Lists h in
      rw (relink_table-elements t (replicate p [])) (
        Holds-ext
            (relink_chain-Holds (elements t) (replicate-Holds p pos) l.distinct (λ q. inr refl))
            (omega (arith, l.counted)) l.reads,
        length-relink_chain (elements t) (replicate p []) ∙ length-replicate p [],
      )

  -- The set `s` stands for the finite map `f`, and its size is one of the table's.
  pub record Models (s : Set D) (f : Text → Option (Element D)) : Type ℓ where
    pub sized : Memᴰ (hashsize s) prime_list
    pub small : hashsize s ≤ size_limit
    pub holds : Holds s.table s.members f

  -- For a size of at most 1610612741, `set_new` returns a well-formed empty set with at least that many
  -- buckets.
  pub set_new-Models :
      (size : ℕ)
      → size ≤ size_limit
      → Returns
          (set_new {D = D} size)
          λ s. Models s (λ _. none) × (size ≤ hashsize s) × (s.members ≡ 0)
  unfolding set_new
  set_new-Models size h =
      let (p, run, (mem, le, lt)) = next_prime_small size h in
      let width = length-replicate {A = Chain D} p [] in
      (
        record { table = replicate p []; members = 0 },
        rw (int_to_ulong_small size h, run),
        (
          record {
            sized = rw width mem;
            small = omega arith;
            holds = replicate-Holds p (omega (arith, prime_pos p mem));
          },
          omega arith,
          refl,
        ),
      )

  -- For a well-formed set and a hint of at most 1610612741, `resize` runs without a fault, keeps the
  -- count of members and every lookup, makes the table at least as large as the hint, never shrinks it,
  -- and returns a well-formed set.
  pub resize-Models :
      (s : Set D) {f : Text → Option (Element D)} (hint : ℕ)
      → Models s f
      → hint ≤ size_limit
      → Returns (resize s hint) λ r.
        Models r f × (r.members ≡ s.members) × (hashsize s ≤ hashsize r) × (hint ≤ hashsize r)
  unfolding resize
  resize-Models s {f} hint m h = elim (Bool-cases (ltb (hashsize s) hint)) [
    | inr enough ↦ (s, rw enough, (m, refl, omega arith, ground arith))
    | inl more ↦
        let (p, run, (mem, le, lt)) = next_prime_small hint h in
        let (moved, width) = rehash-Holds p m.holds (omega (arith, prime_pos p mem)) in
        let less = ltb→lt _ _ more in
        let grows : ltb (hashsize s) p ≡ true = ground arith in
        (
          record s { table = relink_table s.table (replicate p []) },
          rw (more, run, ◌>>=◌, grows),
          (
            record { sized = rw width mem; small = omega arith; holds = moved },
            refl,
            omega arith,
            omega arith,
          ),
        )
  ]
