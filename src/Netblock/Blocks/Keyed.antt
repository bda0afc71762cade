-- ===== src/Netblock/Blocks/Keyed.antt =====
-- The set of blocks by key that source/functions/netblock.c keeps, as a relation.
use mathlib.Core.Logic.{⊎_elim}
use mathlib.Core.Option.{none-ne-some, some-injective}
use libcrange.Base.{
  ℕ, ◌+◌, ◌≡◌, ◌≤◌, ◌<◌, refl, sym, ap, ◌∙◌, Text, none, some, arith, str_eq, str_eq_iff, ◌⊎◌, inl,
  inr, Bool-cases,
}
use libcrange.Base.{Returns}
use libcrange.HashSet.Bucket.{Element}
use libcrange.HashSet.Resize.{Models, size_limit, set_new-Models}
use libcrange.HashSet.Laws.{self-Models, set_add-Models, set_get-Models, update}
use libcrange.HashSet.{Set, set_new, set_add, set_get}
use libcrange.Netblock.{NetColo}

-- The set has a block under each key that `M` relates to blocks, and it is one of these.
pub record IsKeyed (s : Set NetColo) (M : Text → NetColo → Type 0) (n : ℕ) : Type 0 where
  pub models : Models s (set_get s)
  pub few : s.members ≤ n
  pub found :
      (key : Text) (e : Element NetColo)
      → set_get s key ≡ some e
      → (nc : NetColo) × (e.value ≡ some nc) × M key nc
  pub missing : (key : Text) → set_get s key ≡ none → (nc : NetColo) → ¬ M key nc

pub IsKeyed-ext :
    {s : Set NetColo} {M M' : Text → NetColo → Type 0} {n m : ℕ}
    → IsKeyed s M n
    → ((k : Text) (nc : NetColo) → (M k nc → M' k nc) × (M' k nc → M k nc))
    → n ≤ m
    → IsKeyed s M' m
IsKeyed-ext h same le = record {
  models = h.models;
  few = omega (arith, h.few);
  found =
      λ key e there. let (nc, value, at) = h.found key e there in (nc, value, (same key nc).0 at);
  missing = λ key absent nc at. h.missing key absent nc ((same key nc).1 at);
}

pub set_add-IsKeyed :
    (s : Set NetColo) (key : Text) (nc : NetColo) (M : Text → NetColo → Type 0) (n : ℕ)
    → IsKeyed s M n
    → n < size_limit
    → Returns
        (set_add s key (some nc))
        (λ s'. IsKeyed s' (λ k x. (key ≡ k) × (nc ≡ x) ⊎ M k x) (n + 1))
set_add-IsKeyed s key nc M n h room =
    let (s', run, (m, count, _)) = set_add-Models s key (some nc) h.models (omega (arith, h.few)) in
    let stored : (q : Text)
        → set_get s' q ≡ update (set_get s) key (some (record { name = key; value = some nc })) q =
      λ q. set_get-Models q m in
    (
      s',
      run,
      record {
        models = self-Models m;
        few = omega (arith, count, h.few);
        found = λ k e there. elim (Bool-cases (str_eq key k)) [
          | inl eq ↦
              let same : some (record { name = key; value = some nc }) ≡ some e =
                sym (stored k ∙ rw eq refl) ∙ there in
              (
                nc,
                ap (λ x. x.value) (sym (some-injective _ _ same)),
                inl ((str_eq_iff key k).0 eq, refl),
              )
          | inr ne ↦
              let (old, value, at) = h.found k e (sym (stored k ∙ rw ne refl) ∙ there) in
              (old, value, inr at)
        ];
        missing = λ k absent x. elim (Bool-cases (str_eq key k)) [
          | inl eq ↦
              let there : set_get s' k ≡ some (record { name = key; value = some nc }) =
                stored k ∙ rw eq refl in
              absurd (none-ne-some _ (sym absent ∙ there))
          | inr ne ↦
              ⊎_elim (λ at. absurd (cc (ne, (str_eq_iff key k).1 at.0)))
                (h.missing k (sym (stored k ∙ rw ne refl) ∙ absent) x)
        ];
      },
    )

pub set_new-IsKeyed : Returns (set_new 0) (λ s. IsKeyed s (λ _ _. ⊥) 0)
set_new-IsKeyed =
    let (s, run, (m, _, empty)) = set_new-Models {D = NetColo} 0 (omega arith) in
    (
      s,
      run,
      record {
        models = self-Models m;
        few = omega arith;
        found = λ key e there. absurd (none-ne-some e (sym (set_get-Models key m) ∙ there));
        missing = λ key absent nc none_of. none_of;
      },
    )
