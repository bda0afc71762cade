-- ===== src/HashSet/Primes.antt =====
-- The table sizes of source/src/set.c.
use mathlib.Core.List.{Memᴰ}
use mathlib.Core.List.Memᴰ
use mathlib.Core.Logic.{⊎_elim}
use libcrange.Base.{
  ℕ, ◌+◌, ◌-◌, ◌%◌, ◌^◌, ◌≤◌, ◌<◌, ◌≡◌, refl, List, [], ◌∷◌, arith, ltb, if◌then◌else◌,
}
use libcrange.Base.{
  Run, ok, fault, assertion, out_of_bounds, Returns, Bool-cases, inl, inr, ltb→lt, lt→ltb,
}

abbrev pub prime_list : List ℕ
prime_list =
    19 ∷ 53 ∷ 97 ∷ 193 ∷ 389 ∷ 769 ∷ 1543 ∷ 3079 ∷ 6151 ∷ 12289 ∷ 24593 ∷ 49157 ∷ 98317 ∷ 196613
    ∷ 393241 ∷ 786433 ∷ 1572869 ∷ 3145739 ∷ 6291469 ∷ 12582917 ∷ 25165843 ∷ 50331653 ∷ 100663319
    ∷ 201326611 ∷ 402653189 ∷ 805306457 ∷ 1610612741 ∷ 3221225473 ∷ 4294967291 ∷ []

-- `prime_list[NUM_PRIMES - 1]`
abbrev pub last_prime : ℕ
last_prime = 4294967291

-- `while (*prime < n) ++prime; return *prime;`
seek_prime : ℕ → List ℕ → Run ℕ
seek_prime n [] = fault out_of_bounds
seek_prime n (p ∷ ps) = if ltb p n then seek_prime n ps else ok p

unfoldable pub next_prime : ℕ → Run ℕ
unfolding seek_prime
next_prime n = if ltb n last_prime then seek_prime n prime_list else fault assertion

-- A `size_t` passed as an `int` and widened to `unsigned long`: above 2 ^ 31 the sign is extended.
unfoldable pub int_to_ulong : ℕ → ℕ
int_to_ulong n = let low = n % 2 ^ 32 in if ltb low (2 ^ 31) then low else low + (2 ^ 64 - 2 ^ 32)

abbrev Ascending : ℕ → List ℕ → Type 0
Ascending p [] = Unit
Ascending p (q ∷ qs) = (p < q) × Ascending q qs

below : (p : ℕ) (ps : List ℕ) → Ascending p ps → (q : ℕ) → Memᴰ q ps → p < q
below p [] h q m = absurd (Memᴰ.not-nil m)
below p (x ∷ xs) h q (Memᴰ.head e) = omega arith
below p (x ∷ xs) h q (Memᴰ.tail m) = omega (arith, below x xs h.1 q m)

-- what `next_prime n` promises of its result
abbrev pub IsNextIn : List ℕ → ℕ → ℕ → Type 0
IsNextIn ps n p = Memᴰ p ps × (n ≤ p) × ((q : ℕ) → Memᴰ q ps → n ≤ q → p ≤ q)

drop_below : (n p r : ℕ) (ps : List ℕ) → p < n → IsNextIn ps n r → IsNextIn (p ∷ ps) n r
drop_below n p r ps less (mem, le, least) = (
  Memᴰ.tail mem,
  le,
  λ q m h. ⊎_elim (λ e. absurd (omega arith)) (λ t. least q t h) (Memᴰ.cases_cons m),
)

keep_first : (n p : ℕ) (ps : List ℕ) → Ascending p ps → n ≤ p → IsNextIn (p ∷ ps) n p
keep_first n p ps asc le = (
  Memᴰ.head refl,
  le,
  λ q m _. ⊎_elim (λ e. omega arith) (λ t. omega (arith, below p ps asc q t)) (Memᴰ.cases_cons m),
)

seek_prime-IsNextIn :
    (n p : ℕ) (ps : List ℕ) (last : ℕ)
    → Ascending p ps
    → Memᴰ last (p ∷ ps)
    → n ≤ last
    → Returns (seek_prime n (p ∷ ps)) (IsNextIn (p ∷ ps) n)
unfolding seek_prime
seek_prime-IsNextIn n p [] last asc m h =
    let same = Memᴰ.eq_of_singleton m in (p, ground arith, keep_first n p [] asc (omega arith))
seek_prime-IsNextIn n p (q ∷ qs) last asc m h = elim (Bool-cases (ltb p n)) [
  | inl less ↦
      let rest =
        ⊎_elim (λ e. absurd (omega (arith, ltb→lt p n less))) (λ t. t) (Memᴰ.cases_cons m) in
      let (r, run, next) = seek_prime-IsNextIn n q qs last asc.1 rest h in
      (r, rw less run, drop_below n p r (q ∷ qs) (ltb→lt p n less) next)
  | inr done ↦ (p, rw done, keep_first n p (q ∷ qs) asc (ground arith))
]

-- For an argument below 4294967291, `next_prime` returns the least size of its list that is not below
-- the argument.
pub next_prime-IsNextIn : (n : ℕ) → n < last_prime → Returns (next_prime n) (IsNextIn prime_list n)
unfolding next_prime
next_prime-IsNextIn n h =
    let (p, run, next) =
      seek_prime-IsNextIn n 19 _ last_prime (omega arith) mem_last (omega arith) in
    (p, rw (lt→ltb n last_prime h) run, next)
  where
    mem_last : Memᴰ last_prime prime_list
    mem_last = search (Memᴰ.head, Memᴰ.tail) depth 60

-- At and above the last size the assertion of `next_prime` fails.
pub next_prime_aborts : (n : ℕ) → last_prime ≤ n → next_prime n ≡ fault assertion
unfolding next_prime
next_prime_aborts n h = ground arith

-- A size of the table is its own next size, but for the last.
pub next_prime_self : (p : ℕ) → Memᴰ p prime_list → p < last_prime → next_prime p ≡ ok p
next_prime_self p m h =
    let (q, run, (_, le, least)) = next_prime-IsNextIn p h in
    let same : q ≡ p = omega (arith, least p m (omega arith)) in rw (run, same)

pub prime_pos : (p : ℕ) → Memᴰ p prime_list → 19 ≤ p
prime_pos p m = omega (arith, below 18 prime_list (omega arith) p m)
