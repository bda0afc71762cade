-- ===== src/HashSet/Packed/Fuel.antt =====
-- The loop of `set_unpack` of source/src/set.c ends: every round that does not stop reads bytes.
use libcrange.Base.{
  ℕ, zero, suc, ◌-◌, ◌≡◌, ◌≤◌, ◌<◌, refl, ap, Text, [], ◌∷◌, Bool, true, false, if◌then◌else◌, leb,
  ◌==◌, length, arith,
}
use libcrange.Base.{Run, ok, fault, ◌>>=◌}
use libcrange.HashSet.Packed.{minus_one, read_int, read_string, read_data, unpack_loop}
use libcrange.HashSet.{Set, set_add}

-- a run that faults, or ends in a value of which `P` holds
abbrev Ends : {A : Type 0} (run : Run A) (P : A → Type 0) → Type 0
Ends (fault why) P = Unit
Ends (ok x) P = P x

Ends-bind :
    {A B : Type 0} (run : Run A) (f : A → Run B) {P : A → Type 0} (Q : B → Type 0)
    → Ends run P
    → ((x : A) → P x → Ends (f x) Q)
    → Ends (run >>= f) Q
Ends-bind (fault why) f Q p next = tt
Ends-bind (ok x) f Q p next = next x p

Ends-if :
    {A : Type 0} (b : Bool) (yes_run no_run : Run A) (P : A → Type 0)
    → Ends yes_run P
    → Ends no_run P
    → Ends (if b then yes_run else no_run) P
Ends-if true yes_run no_run P p q = p
Ends-if false yes_run no_run P p q = q

-- Two ways to go on from a run are the same where they agree on its values.
bind_ext :
    {A B : Type 0} (run : Run A) {f g : A → Run B} {P : A → Type 0}
    → Ends run P
    → ((x : A) → P x → f x ≡ g x)
    → (run >>= f) ≡ (run >>= g)
bind_ext (fault why) p same = refl
bind_ext (ok x) p same = same x p

-- What is left behind a read has fewer bytes.
read_int_shorter : (p : Text) → Ends (read_int p) (λ x. length x.1 < length p)
unfolding read_int
read_int_shorter [] = tt
read_int_shorter (a ∷ []) = tt
read_int_shorter (a ∷ b ∷ []) = tt
read_int_shorter (a ∷ b ∷ c ∷ []) = tt
read_int_shorter (a ∷ b ∷ c ∷ d ∷ p) = omega arith

read_string_shorter : (p : Text) → Ends (read_string p) (λ x. length x.1 < length p)
unfolding read_string
read_string_shorter [] = tt
read_string_shorter (c ∷ p) =
    Ends-if (c == 0) _ _ _ (omega arith)
      (Ends-bind (read_string p) _ _ (read_string_shorter p) (λ x less. omega (arith, less)))

read_data_shorter : (p : Text) → Ends (read_data p) (λ x. length x.1 < length p)
unfolding read_data
read_data_shorter p = Ends-bind (read_int p) _ _ (read_int_shorter p) λ x less.
    Ends-if (x.0 == minus_one) _ _ _ less (
      Ends-bind (read_string x.1) _ _ (read_string_shorter x.1)
        (λ y less'. omega (arith, less, less')))

any : {A : Type 0} (run : Run A) → Ends run (λ _. Unit {0})
any (fault why) = tt
any (ok x) = tt

-- From as much fuel as there are bytes left, the loop of `set_unpack` gives the same result for any
-- fuel, whatever the bytes, the sizes and the set are.
unpack_loop_fuel :
    (n m total size : ℕ) (p : Text) (s : Set Text)
    → length p ≤ n
    → length p ≤ m
    → unpack_loop n total size p s ≡ unpack_loop m total size p s
unfolding unpack_loop read_int
unpack_loop_fuel zero zero total size p s h h' = refl
unpack_loop_fuel zero (suc m) total size [] s h h' = refl
unpack_loop_fuel (suc n) zero total size [] s h h' = refl
unpack_loop_fuel zero (suc m) total size (c ∷ p) s h h' = absurd (omega arith)
unpack_loop_fuel (suc n) zero total size (c ∷ p) s h h' = absurd (omega arith)
unpack_loop_fuel (suc n) (suc m) total size p s h h' =
    bind_ext (read_int p) (read_int_shorter p) λ x less.
      bind_ext (read_string x.1) (read_string_shorter x.1) λ key less'.
        bind_ext (read_data key.1) (read_data_shorter key.1) λ val less''.
          bind_ext (set_add s key.0 val.0) (any (set_add s key.0 val.0)) λ s' _.
            ap (λ rest. if leb size (total - length val.1) then ok s' else rest)
              (unpack_loop_fuel n m total size val.1 s' (omega (arith, less, less', less''))
                (omega (arith, less, less', less'')))
