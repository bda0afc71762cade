-- ===== src/Request/Warned.antt =====
-- The warnings by type of source/src/range_request.c, as a relation between types and nodes.
use libcrange.Base.{
  ℕ, ◌+◌, ◌≡◌, ◌≤◌, ◌<◌, refl, ◌∙◌, Text, Option, none, some, Bool, true, false, arith, ◌⊎◌, inl,
  inr, Bool-cases, Option-cases, if◌then◌else◌,
}
use libcrange.Base.{◌>>=◌, Returns}
use libcrange.HashSet.Resize.{size_limit}
use libcrange.HashSet.Laws.{set_get_data_of}
use libcrange.HashSet.{Set, set_add_noresize, set_get}
use libcrange.Range.Grouped.{IsGrouped, IsGrouped-ext, set_new-IsGrouped, One, old_group, new_group}
use libcrange.Range.{Range, range_add}
use libcrange.Request.{Request, warn_set, warn_nodes, range_request_warn_type}

-- the warnings of a request, none before the first
unfoldable pub IsWarned : Option (Set Range) → (Text → Text → Type 0) → ℕ → Type 0
IsWarned none W n = (type q : Text) → ¬ W type q
IsWarned (some s) W n = IsGrouped s W n

pub IsWarned-le :
    (o : Option (Set Range)) (W : Text → Text → Type 0) (n m : ℕ)
    → IsWarned o W n
    → n ≤ m
    → IsWarned o W m
unfolding IsWarned
IsWarned-le none W n m h le = h
IsWarned-le (some s) W n m h le = IsGrouped-ext h (λ t q. (λ w. w, λ w. w)) le

warn_set-IsGrouped :
    (rr : Request) (W : Text → Text → Type 0) (n : ℕ)
    → IsWarned rr.warn_type W n
    → Returns (warn_set rr) (λ s. IsGrouped s W n)
unfolding warn_set IsWarned
warn_set-IsGrouped rr W n h = elim (Option-cases rr.warn_type) [
  | inr (s, there) ↦ (s, rw (warn_set, there) refl, rw (IsWarned, there) at h)
  | inl first ↦
      let (s, run, g) = set_new-IsGrouped 0 (omega arith) in
      let none_yet = rw (IsWarned, first) at h in
      (
        s,
        rw (warn_set, first, run) refl,
        IsGrouped-ext g (λ key q. (λ x. absurd x, none_yet key q)) (omega arith),
      )
]

-- the range of a type, which is made and stored if there was none, and takes the node
warn_nodes-IsGrouped :
    (s : Set Range) (type node : Text) (W : Text → Text → Type 0) (n : ℕ)
    → IsGrouped s W n
    → n < size_limit
    → Returns (warn_nodes s type) λ x.
      Returns
        (range_add x.1 node)
        (λ nodes. IsGrouped (set_add_noresize x.0 type (some nodes)) (One type node W) (n + 1))
unfolding warn_nodes
warn_nodes-IsGrouped s type node W n g room = elim (Option-cases (set_get s type)) [
  | inr (e, found) ↦
      let (nodes, there, added) = old_group s type node e W n g room found in
      let known = set_get_data_of s type (some e) found ∙ there in
      ((s, nodes), rw (warn_nodes, known) refl, added)
  | inl absent ↦
      let (nodes, made, (s', run, added)) =
        new_group s type node (λ r. r) W n (λ r P k d. d) g room absent in
      let unknown = set_get_data_of s type none absent in
      ((s', nodes), rw (warn_nodes, unknown, made, ◌>>=◌, run) refl, added)
]

if_true {ℓ} : {A : Type ℓ} {c : Bool} (x y : A) → c ≡ true → (if c then x else y) ≡ x
if_true x y h = rw h

-- where warnings are disabled
unchanged :
    (o : Option (Set Range)) (enabled : Bool) (W V : Text → Text → Type 0) (n : ℕ)
    → enabled ≡ false
    → IsWarned o W n
    → IsWarned o (λ t q. (enabled ≡ true) × V t q ⊎ W t q) (n + 1)
unfolding IsWarned
unchanged none enabled W V n off h = λ t q. ground (arith, off, h t q)
unchanged (some s) enabled W V n off h =
    IsGrouped-ext h (λ t q. (inr, ground (arith, off))) (omega arith)

-- For a request whose warnings by type are a well-formed set of well-formed ranges, with less than
-- 1610612741 types and nodes of a type, `range_request_warn_type` runs without a fault, and the set,
-- which is made at the first warning, then has the node under its type, exactly if warnings are
-- enabled, and the nodes that it had under each type, and no others. The rest of the request is kept.
pub range_request_warn_type-IsWarned :
    (rr : Request) (type node : Text) (W : Text → Text → Type 0) (n : ℕ)
    → IsWarned rr.warn_type W n
    → n < size_limit
    → Returns (range_request_warn_type rr type node) λ rr'.
      IsWarned rr'.warn_type
        (λ t q. (rr.warn_enabled ≡ true) × ((type ≡ t) × (node ≡ q)) ⊎ W t q)
        (n + 1)
      × (rr' ≡ record rr { warn_type = rr'.warn_type })
unfolding range_request_warn_type IsWarned
range_request_warn_type-IsWarned rr type node W n h room = elim (Bool-cases rr.warn_enabled) [
  | inr off ↦ (
    rr,
    rw off refl,
    (unchanged rr.warn_type rr.warn_enabled W (λ t q. (type ≡ t) × (node ≡ q)) n off h, refl),
  )
  | inl on ↦
      let (s, run, g) = warn_set-IsGrouped rr W n h in
      let ((s', nodes), run', (nodes', run'', added)) =
        warn_nodes-IsGrouped s type node W n g room in
      (
        record rr { warn_type = some (set_add_noresize s' type (some nodes')) },
        rw (run, ◌>>=◌, run', run'') (if_true _ _ on),
        (IsGrouped-ext added (λ t q. (ground (arith, on), ground arith)) (omega arith), refl),
      )
]
