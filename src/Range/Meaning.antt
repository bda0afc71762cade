-- ===== src/Range/Meaning.antt =====
-- The set of names that a range of source/src/range.c stands for.
use mathlib.Core.Logic.{⊎_elim}
use libcrange.Base.{
  map, ap, suc, ℕ, ◌+◌, ◌≡◌, ◌≤◌, ◌<◌, refl, ◌∙◌, Text, List, [], ◌∷◌, Option, none, Bool, true,
  false, ◌||◌, arith, length, str_eq, str_eq_iff, ◌⊎◌, inr, is_some, ◌↔◌,
}
use libcrange.Base.{Returns}
use libcrange.HashSet.Bucket.{find, Chain, Element}
use libcrange.HashSet.Elements.{elements-Lists, set_members_lem}
use libcrange.HashSet.Resize.{Models, set_new-Models, size_limit}
use libcrange.HashSet.Laws.{self-Models, set_add-Models, present-Models}
use libcrange.HashSet.{set_members, elements, Set, set_get, present}
use libcrange.Range.{
  Range, range_new, range_add, add_names, names_of, range_get_hostnames, in_quotes,
}

-- whether the name stands in the list
abbrev pub listed : Text → List Text → Bool
listed q [] = false
listed q (n ∷ ns) = str_eq n q || listed q ns

-- The range `r` has the names of which `P` holds, and no others, at most `n` of them, in a
-- well-formed set.
pub record Denotes (r : Range) (P : Text → Type 0) (n : ℕ) : Type 0 where
  pub models : Models r.nodes (set_get r.nodes)
  pub exact : (q : Text) → (present r.nodes q ≡ true) ↔ P q
  pub few : r.nodes.members ≤ n

pub of_Models :
    {s : Set Text} {f : Text → Option (Element Text)} {P : Text → Type 0} (b : Bool) (n : ℕ)
    → Models s f
    → ((q : Text) → (is_some (f q) ≡ true) ↔ P q)
    → s.members ≤ n
    → Denotes (record { nodes = s; quoted = b }) P n
of_Models b n m exact few = record {
  models = self-Models m;
  exact = λ q. rw (present-Models q m) (exact q);
  few = few;
}

pub Denotes_ext :
    {r : Range} {P Q : Text → Type 0} {n m : ℕ}
    → Denotes r P n
    → ((q : Text) → P q ↔ Q q)
    → n ≤ m
    → Denotes r Q m
Denotes_ext d same le = record {
  models = d.models;
  exact = λ q. (λ h. (same q).0 ((d.exact q).0 h), λ h. (d.exact q).1 ((same q).1 h));
  few = omega (arith, d.few);
}

-- The flag is no part of the meaning.
pub set_quoted :
    {r : Range} {P : Text → Type 0} {n : ℕ} (b : Bool)
    → Denotes r P n
    → Denotes (record r { quoted = b }) P n
set_quoted b d = record { models = d.models; exact = d.exact; few = d.few }

-- what `set_get` finds, in terms of the predicate
pub found_iff :
    {r : Range} {P : Text → Type 0} {n : ℕ} (q : Text)
    → Denotes r P n
    → (is_some (set_get r.nodes q) ≡ true) ↔ P q
found_iff q d = rw (present-Models q d.models) at (d.exact q)

pub range_new-Denotes : Returns range_new λ r. Denotes r (λ _. ⊥) 0 × (r.quoted ≡ false)
unfolding range_new
range_new-Denotes =
    let (s, run, (m, _, empty)) = set_new-Models {D = Text} 0 (omega arith) in
    (
      record { nodes = s; quoted = false },
      rw run,
      (of_Models false 0 m (λ q. (λ h. absurd (cc), λ h. absurd h)) (omega arith), refl),
    )

-- `range_add` adds one name.
pub range_add-Denotes :
    (r : Range) {P : Text → Type 0} {n : ℕ} (name : Text)
    → Denotes r P n
    → n < size_limit
    → Returns
        (range_add r name)
        λ r'. Denotes r' (λ q. (name ≡ q) ⊎ P q) (n + 1) × (r'.quoted ≡ r.quoted)
unfolding range_add
range_add-Denotes r {P} {n} name d h =
    let (s, run, (m, count, _)) =
      set_add-Models r.nodes name none d.models (omega (arith, d.few)) in
    (
      record r { nodes = s },
      rw run,
      (
        of_Models r.quoted (n + 1) m (λ q. ground (arith, str_eq_iff name q, found_iff q d))
            (omega (arith, d.few)),
        refl,
      ),
    )

-- `add_names` adds the names of a list.
pub add_names-Denotes :
    (r : Range) {P : Text → Type 0} {n : ℕ} (names : List Text)
    → Denotes r P n
    → n + length names ≤ size_limit
    → Returns (add_names r names) λ r'.
      Denotes r' (λ q. (listed q names ≡ true) ⊎ P q) (n + length names) × (r'.quoted ≡ r.quoted)
unfolding add_names
add_names-Denotes r [] d h =
    (r, refl, (Denotes_ext d (λ q. (inr, ⊎_elim (λ e. absurd (cc)) (λ p. p))) (omega arith), refl))
add_names-Denotes r (name ∷ names) d h =
    let (r', run, (d', same)) = range_add-Denotes r name d (omega arith) in
    let (r'', run', (d'', same')) = add_names-Denotes r' names d' (omega arith) in
    (
      r'',
      rw run run',
      (Denotes_ext d'' (λ q. ground (arith, str_eq_iff name q)) (omega arith), same' ∙ same),
    )

-- a sole name, or a name of the list, in terms of the predicate
listed_names : (q : Text) (es : Chain Text) → listed q (names_of es) ≡ is_some (find q es)
unfolding find
listed_names q [] = refl
listed_names q (e ∷ es) = ground (arith, listed_names q es)

length-names_of : (es : Chain Text) → length (names_of es) ≡ length es
length-names_of [] = refl
length-names_of (e ∷ es) = ap suc (length-names_of es)

-- `set_members` lists the names of a range, as many as the count of members.
pub set_members-Denotes :
    {r : Range} {P : Text → Type 0} {n : ℕ}
    → Denotes r P n
    → ((q : Text) → (listed q (names_of (set_members r.nodes)) ≡ true) ↔ P q)
      × (length (names_of (set_members r.nodes)) ≡ r.nodes.members)
set_members-Denotes {r} d =
    let l = elements-Lists d.models.holds in
    (
      λ q.
          rw (set_members_lem r.nodes, listed_names q (elements r.nodes.table), l.reads q)
            (found_iff q d),
      rw (set_members_lem r.nodes, length-names_of (elements r.nodes.table)) l.counted,
    )

-- The names that a range gives out are the bare names, unless it is quoted.
pub hostnames_plain :
    (r : Range) → r.quoted ≡ false → range_get_hostnames r ≡ names_of (set_members r.nodes)
unfolding range_get_hostnames
hostnames_plain r h = rw h

pub hostnames_quoted :
    (r : Range)
    → r.quoted ≡ true
    → range_get_hostnames r ≡ map in_quotes (names_of (set_members r.nodes))
unfolding range_get_hostnames
hostnames_quoted r h = rw h

listed-pos : (q : Text) (names : List Text) → listed q names ≡ true → 0 < length names
listed-pos q [] h = absurd (cc)
listed-pos q (n ∷ names) h = omega arith

-- A range with a name has a member.
pub members_pos :
    {r : Range} {P : Text → Type 0} {n : ℕ} (q : Text) → Denotes r P n → P q → 0 < r.nodes.members
members_pos {r} q d p =
    let (exact, len) = set_members-Denotes d in
    omega (arith, listed-pos q (names_of (set_members r.nodes)) ((exact q).1 p))
