-- ===== src/Range/Grouped.antt =====
-- A set whose data are ranges, as several parts of the library keep one: the warnings by type of
-- source/src/range_request.c, and the caches by key of source/functions/hosts-netblocks.c and
-- source/functions/netblock.c.
use mathlib.Core.Option.{none-ne-some, some-injective}
use mathlib.Core.Path.{subst}
use libcrange.Base.{
  List, ◌∷◌, ℕ, ◌+◌, ◌≡◌, ◌≤◌, ◌<◌, refl, sym, ap, ◌∙◌, Text, none, some, Bool, true, false, arith,
  str_eq, str_eq_iff, str_eq_refl, ◌⊎◌, inl, inr, Bool-cases, if◌then◌else◌,
}
use libcrange.Base.{Returns}
use libcrange.HashSet.Bucket.{Element}
use libcrange.HashSet.Resize.{Models, size_limit, set_new-Models}
use libcrange.HashSet.Laws.{
  self-Models, set_get-Models, set_add-Models, set_add_noresize-Models, entries, update,
}
use libcrange.HashSet.{Set, set_new, set_add, set_add_noresize, set_get}
use libcrange.Range.Meaning.{listed, Denotes, Denotes_ext, range_new-Denotes, range_add-Denotes}
use libcrange.Range.{Range, range_new, range_add}

-- The set has a range for each key that has names, of exactly the names that `W` relates to the key, at
-- most `n` of them, in a well-formed set of at most `n` keys.
pub record IsGrouped (s : Set Range) (W : Text → Text → Type 0) (n : ℕ) : Type 0 where
  pub models : Models s (set_get s)
  pub few : s.members ≤ n
  pub entry_names :
      (key : Text) (e : Element Range)
      → set_get s key ≡ some e
      → (r : Range) × (e.value ≡ some r) × Denotes r (W key) n
  pub no_names : (key : Text) → set_get s key ≡ none → (q : Text) → ¬ W key q

pub IsGrouped-ext :
    {s : Set Range} {W V : Text → Text → Type 0} {n m : ℕ}
    → IsGrouped s W n
    → ((key q : Text) → (W key q → V key q) × (V key q → W key q))
    → n ≤ m
    → IsGrouped s V m
IsGrouped-ext g same le = record {
  models = g.models;
  few = omega (arith, g.few);
  entry_names = λ key e found.
      let (r, there, d) = g.entry_names key e found in (r, there, Denotes_ext d (same key) le);
  no_names = λ key absent q v. g.no_names key absent q ((same key q).1 v);
}

-- an empty set
pub set_new-IsGrouped :
    (size : ℕ) → size ≤ size_limit → Returns (set_new size) (λ s. IsGrouped s (λ _ _. ⊥) 0)
set_new-IsGrouped size le =
    let (s, run, (m, _, empty)) = set_new-Models {D = Range} size le in
    (
      s,
      run,
      record {
        models = self-Models m;
        few = omega arith;
        entry_names = λ key e found. absurd (none-ne-some e (sym (set_get-Models key m) ∙ found));
        no_names = λ key absent q none_of. none_of;
      },
    )

-- one more name under its key
abbrev pub One : Text → Text → (Text → Text → Type 0) → Text → Text → Type 0
One key name W k q = (key ≡ k) × (name ≡ q) ⊎ W k q

store-IsGrouped :
    (s s' : Set Range) (key name : Text) (r : Range) (W : Text → Text → Type 0) (n : ℕ)
    → IsGrouped s W n
    → Models s' (set_get s')
    → s'.members ≤ n + 1
    → Denotes r (λ q. (name ≡ q) ⊎ W key q) (n + 1)
    → ((q : Text)
        → set_get s' q
          ≡ (if str_eq key q then some (record { name = key; value = some r }) else set_get s q))
    → IsGrouped s' (One key name W) (n + 1)
store-IsGrouped s s' key name r W n g m few d stored =
    let here : Denotes r (One key name W key) (n + 1) =
      Denotes_ext d (λ q. ground arith) (omega arith) in
    record {
      models = m;
      few = few;
      entry_names = λ k e found. elim (Bool-cases (str_eq key k)) [
        | inl eq ↦
            let same : some (record { name = key; value = some r }) ≡ some e =
              sym (stored k ∙ rw eq refl) ∙ found in
            (
              r,
              ap (λ x. x.value) (sym (some-injective _ _ same)),
              subst (λ t. Denotes r (One key name W t) (n + 1)) ((str_eq_iff key k).0 eq) here,
            )
        | inr ne ↦
            let (old, there, d') = g.entry_names k e (sym (stored k ∙ rw ne refl) ∙ found) in
            (old, there, Denotes_ext d' (λ q. ground (arith, str_eq_iff key k)) (omega arith))
      ];
      no_names = λ k absent q. elim (Bool-cases (str_eq key k)) [
        | inl eq ↦
            let there : set_get s' k ≡ some (record { name = key; value = some r }) =
              stored k ∙ rw eq refl in
            absurd (none-ne-some _ (sym absent ∙ there))
        | inr ne ↦
            let none_before = g.no_names k (sym (stored k ∙ rw ne refl) ∙ absent) q in
            ground (arith, str_eq_iff key k)
      ];
    }

-- A range that is there under its key takes one more name.
pub old_group :
    (s : Set Range) (key name : Text) (e : Element Range) (W : Text → Text → Type 0) (n : ℕ)
    → IsGrouped s W n
    → n < size_limit
    → set_get s key ≡ some e
    → (r : Range) × (e.value ≡ some r)
      × Returns
          (range_add r name)
          (λ r'. IsGrouped (set_add_noresize s key (some r')) (One key name W) (n + 1))
old_group s key name e W n g room found =
    let (r, there, d) = g.entry_names key e found in
    let (r', run, (d', _)) = range_add-Denotes r name d room in
    let (m, count, _) = set_add_noresize-Models s key (some r') g.models in
    let one : entries (set_get s key) ≡ 1 = rw found refl in
    (
      r,
      there,
      (
        r',
        run,
        store-IsGrouped s (set_add_noresize s key (some r')) key name r' W n g (self-Models m)
            (omega (arith, count, one, g.few)) d' (λ q. set_get-Models q m),
      ),
    )

if_twice {ℓ} :
    {A : Type ℓ} (b : Bool) (x y z : A)
    → (if b then x else (if b then y else z)) ≡ (if b then x else z)
if_twice true x y z = refl
if_twice false x y z = refl

-- A range is made for its key, marked in some way that keeps its names, and stored, and takes the name.
pub new_group :
    (s : Set Range) (key name : Text) (mark : Range → Range) (W : Text → Text → Type 0) (n : ℕ)
    → ((r : Range) (P : Text → Type 0) (k : ℕ) → Denotes r P k → Denotes (mark r) P k)
    → IsGrouped s W n
    → n < size_limit
    → set_get s key ≡ none
    → Returns range_new λ r. Returns (set_add s key (some (mark r))) λ s'.
      Returns
        (range_add (mark r) name)
        (λ r'. IsGrouped (set_add_noresize s' key (some r')) (One key name W) (n + 1))
new_group s key name mark W n keeps g room absent =
    let (r, made, (d, _)) = range_new-Denotes in
    let (s', run, (m, count, _)) =
      set_add-Models s key (some (mark r)) g.models (omega (arith, g.few)) in
    let empty : Denotes (mark r) (W key) n =
      Denotes_ext (keeps r _ _ d) (λ q. (λ x. absurd x, g.no_names key absent q)) (omega arith) in
    let (r', run', (d', _)) = range_add-Denotes (mark r) name empty room in
    let (m', count', _) = set_add_noresize-Models s' key (some r') m in
    let one : entries
          (update (set_get s) key (some (record { name = key; value = some (mark r) })) key)
        ≡ 1 =
      rw (str_eq_refl key) refl in
    let none_before : entries (set_get s key) ≡ 0 = rw absent refl in
    (
      r,
      made,
      (
        s',
        run,
        (
          r',
          run',
          store-IsGrouped s (set_add_noresize s' key (some r')) key name r' W n g (self-Models m')
              (omega (arith, one, count, count', g.few, none_before)) d'
              (λ q. set_get-Models q m' ∙ if_twice (str_eq key q) _ _ _),
        ),
      ),
    )

-- one of the keys has the name
abbrev pub OneOf : (Text → Text → Type 0) → List Text → Text → Type 0
OneOf W keys q = (key : Text) × (listed key keys ≡ true) × W key q

-- the first of some keys
pub listed_head :
    (W : Text → Text → Type 0) (key : Text) (keys : List Text) (q : Text) (C : Type 0)
    → ((OneOf W keys q ⊎ (C ⊎ W key q)) → OneOf W (key ∷ keys) q ⊎ C)
      × ((OneOf W (key ∷ keys) q ⊎ C) → (OneOf W keys q ⊎ (C ⊎ W key q)))
listed_head W key keys q C = (
  elim [
    | inl (k, l, w) ↦ inl (k, ground (arith, l), w)
    | inr (inl c) ↦ inr c
    | inr (inr w) ↦ inl (key, ground (arith, str_eq_iff key key), w)
  ],
  elim [
    | inl (k, l, w) ↦ elim (Bool-cases (str_eq key k)) [
      | inl eq ↦ inr (inr (let same = (str_eq_iff key k).0 eq in rw same w))
      | inr ne ↦ inl (k, rw ne at l, w)
    ]
    | inr c ↦ inr (inl c)
  ],
)
