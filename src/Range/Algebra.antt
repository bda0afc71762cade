-- ===== src/Range/Algebra.antt =====
-- The operations of source/src/range.c on whole ranges, in terms of the names.
use mathlib.Core.Option.{or_else}
use libcrange.Base.{ℕ, ◌+◌, ◌≡◌, ◌≤◌, refl, ◌∙◌, Text, true, false, ◌||◌, arith, str_eq_iff, ◌⊎◌}
use libcrange.Base.{◌>>=◌, Returns}
use libcrange.HashSet.Resize.{set_new-Models, size_limit}
use libcrange.HashSet.Laws.{set_remove-Models}
use libcrange.HashSet.Algebra.{
  set_union-Models, set_union_inplace-Models, set_diff-Models, set_intersect-Models,
}
use libcrange.HashSet.Sweep.{set_diff_inplace-Models}
use libcrange.Range.Meaning.{
  Denotes, of_Models, set_quoted, Denotes_ext, found_iff, range_new-Denotes, range_add-Denotes,
}
use libcrange.Range.{
  Range, range_remove, copy_range, range_from_literal, range_from_nonrange_literal,
  range_from_union, range_union_inplace, range_from_inter, range_diff_inplace, range_from_diff,
}

-- A literal stands for its one name, and is not quoted.
pub range_from_literal-Denotes :
    (name : Text)
    → Returns (range_from_literal name) λ r. Denotes r (λ q. name ≡ q) 1 × (r.quoted ≡ false)
unfolding range_from_literal
range_from_literal-Denotes name =
    let (r, run, (d, plain)) = range_new-Denotes in
    let (r', run', (d', same)) = range_add-Denotes r name d (omega arith) in
    (r', rw run run', (Denotes_ext d' (λ q. ground arith) (omega arith), same ∙ plain))

-- A quoted literal stands for its one name, and is quoted.
pub range_from_nonrange_literal-Denotes :
    (name : Text)
    → Returns
        (range_from_nonrange_literal name)
        λ r. Denotes r (λ q. name ≡ q) 1 × (r.quoted ≡ true)
unfolding range_from_nonrange_literal
range_from_nonrange_literal-Denotes name =
    let (r, run, (d, plain)) = range_new-Denotes in
    let (r', run', (d', same)) = range_add-Denotes r name d (omega arith) in
    let one = Denotes_ext d' (λ q. ground arith) (omega arith) in
    (record r' { quoted = true }, rw (run, ◌>>=◌, run'), (set_quoted true one, refl))

module _ {r₁ r₂ : Range} {P Q : Text → Type 0} {n m : ℕ} (d : Denotes r₁ P n)
    (d' : Denotes r₂ Q m) where
  -- For two well-formed ranges, where the bounds on their sizes add up to at most 1610612741,
  -- `range_union_inplace` leaves exactly the names of either, and keeps the flag of the first.
  pub range_union_inplace-Denotes :
      n + m ≤ size_limit
      → Returns
          (range_union_inplace r₁ r₂)
          λ r. Denotes r (λ q. P q ⊎ Q q) (n + m) × (r.quoted ≡ r₁.quoted)
  unfolding range_union_inplace or_else
  range_union_inplace-Denotes h =
      let (s, run, (ms, few)) =
        set_union_inplace-Models r₁.nodes r₂.nodes d.models d'.models
          (omega (arith, d.few, d'.few)) in
      (
        record r₁ { nodes = s },
        rw run,
        (
          of_Models r₁.quoted (n + m) ms (λ q. ground (arith, found_iff q d, found_iff q d'))
              (omega (arith, d.few, d'.few)),
          refl,
        ),
      )

  -- For two well-formed ranges, where the bounds on their sizes add up to at most 1610612741,
  -- `range_from_union` returns a range of exactly the names of either, quoted if one of them is.
  pub range_from_union-Denotes :
      n + m ≤ size_limit
      → Returns
          (range_from_union r₁ r₂)
          λ r. Denotes r (λ q. P q ⊎ Q q) (n + m) × (r.quoted ≡ r₁.quoted || r₂.quoted)
  unfolding range_from_union or_else
  range_from_union-Denotes h =
      let (s, run, (ms, few)) =
        set_union-Models r₁.nodes r₂.nodes d.models d'.models (omega (arith, d.few, d'.few)) in
      (
        record { nodes = s; quoted = r₁.quoted || r₂.quoted },
        rw run,
        (
          of_Models (r₁.quoted || r₂.quoted) (n + m) ms
              (λ q. ground (arith, found_iff q d, found_iff q d')) (omega (arith, d.few, d'.few)),
          refl,
        ),
      )

  -- For two well-formed ranges, `range_from_inter` returns a range of exactly the common names, at most
  -- as many as the bound of either, quoted if one of them is.
  pub range_from_inter-Denotes : Returns (range_from_inter r₁ r₂) λ r.
      Denotes r (λ q. P q × Q q) n × (r.nodes.members ≤ m) × (r.quoted ≡ r₁.quoted || r₂.quoted)
  unfolding range_from_inter
  range_from_inter-Denotes =
      let (s, run, (ms, few, few')) = set_intersect-Models r₁.nodes r₂.nodes d.models d'.models in
      (
        record { nodes = s; quoted = r₁.quoted || r₂.quoted },
        rw run,
        (
          of_Models (r₁.quoted || r₂.quoted) n ms
              (λ q. ground (arith, found_iff q d, found_iff q d')) (omega (arith, d.few)),
          omega (arith, d'.few),
          refl,
        ),
      )

  -- For two well-formed ranges, `range_diff_inplace` leaves exactly the names of the first that the
  -- second lacks, and keeps the flag of the first.
  pub range_diff_inplace-Denotes :
      Denotes (range_diff_inplace r₁ r₂) (λ q. P q × (¬ Q q)) n
      × ((range_diff_inplace r₁ r₂).quoted ≡ r₁.quoted)
  unfolding range_diff_inplace
  range_diff_inplace-Denotes =
      let (ms, few, _) = set_diff_inplace-Models r₁.nodes r₂.nodes d.models d'.models in
      (
        of_Models r₁.quoted n ms (λ q. ground (arith, found_iff q d, found_iff q d'))
            (omega (arith, d.few)),
        refl,
      )

  -- For two well-formed ranges, `range_from_diff` returns a range of exactly the names of the first
  -- that the second lacks, quoted if one of them is.
  pub range_from_diff-Denotes :
      Returns
        (range_from_diff r₁ r₂)
        λ r. Denotes r (λ q. P q × (¬ Q q)) n × (r.quoted ≡ r₁.quoted || r₂.quoted)
  unfolding range_from_diff
  range_from_diff-Denotes =
      let (s, run, (ms, few)) = set_diff-Models r₁.nodes r₂.nodes d.models d'.models in
      (
        record { nodes = s; quoted = r₁.quoted || r₂.quoted },
        rw run,
        (
          of_Models (r₁.quoted || r₂.quoted) n ms
              (λ q. ground (arith, found_iff q d, found_iff q d')) (omega (arith, d.few)),
          refl,
        ),
      )

module _ {r : Range} {P : Text → Type 0} {n : ℕ} (d : Denotes r P n) where
  -- For a well-formed range of at most 1610612741 names, `copy_range` returns a range of the same names
  -- and the same flag.
  pub copy_range-Denotes :
      n ≤ size_limit → Returns (copy_range r) λ r'. Denotes r' P n × (r'.quoted ≡ r.quoted)
  unfolding copy_range or_else
  copy_range-Denotes h =
      let (s, run, (m, _, empty)) = set_new-Models {D = Text} 0 (omega arith) in
      let (s', run', (m', few)) =
        set_union_inplace-Models s r.nodes m d.models (omega (arith, d.few)) in
      (
        record { nodes = s'; quoted = r.quoted },
        rw (run, ◌>>=◌, run'),
        (of_Models r.quoted n m' (λ q. ground (arith, found_iff q d)) (omega (arith, d.few)), refl),
      )

  -- For a well-formed range, `range_remove` leaves exactly its names other than the one that is taken
  -- out.
  pub range_remove-Denotes :
      (name : Text) → Denotes (range_remove r name) (λ q. P q × (¬ (name ≡ q))) n
  unfolding range_remove
  range_remove-Denotes name =
      let (m, count) = set_remove-Models r.nodes name d.models in
      of_Models r.quoted n m (λ q. ground (arith, found_iff q d, str_eq_iff name q))
        (omega (arith, d.few))
