-- ===== src/Evaluate/Correct.antt =====
-- The evaluator of source/src/ast.c computes what an expression stands for.
use Prim.Native.Nat.{max}
use native.Mathlib.Nat.{one-le-mul, le-mul_of_pos_right, le_trans}
use libcrange.Base.{
  ℕ, ◌+◌, ◌*◌, ◌≡◌, ◌≤◌, ◌∙◌, Text, Option, none, some, false, arith, ◌⊎◌, inl, inr, ◌↔◌,
  Bool-cases, ltb,
}
use libcrange.Base.{Run, ◌>>=◌, Returns}
use libcrange.HashSet.Resize.{size_limit}
use libcrange.Range.Meaning.{Denotes, Denotes_ext, range_new-Denotes}
use libcrange.Range.Algebra.{
  range_from_literal-Denotes, range_from_nonrange_literal-Denotes, range_union_inplace-Denotes,
  range_from_inter-Denotes, range_diff_inplace-Denotes,
}
use libcrange.Range.Braces.{range_from_braces-Denotes}
use libcrange.Range.Numbers.{range_from_rangeparts-Numbers}
use libcrange.Range.{Range, range_diff_inplace}
use libcrange.Request.{Request}
use libcrange.Evaluate.Matching.{Matches, range_from_match-Denotes}
use libcrange.Evaluate.{
  Env, Ast, literal, nonrange_literal, union, group, braces, diff, inter, not_in, regex, parts,
  function, nothing, regex_of, union_ranges, second_range, range_evaluate,
}
use libcrange.Evaluate.Meaning.{Selected, Meaning, IsPlain, Selects, IsPure, weight, Evaluates}

union_ranges-Denotes :
    {r₁ r₂ : Range} {P Q : Text → Type 0} {n m : ℕ}
    → Denotes r₁ P n
    → Denotes r₂ Q m
    → n + m ≤ size_limit
    → Returns
        (union_ranges r₁ r₂)
        λ r. Denotes r (λ q. P q ⊎ Q q) (n + m) × ((r.quoted ≡ r₁.quoted) ⊎ (r.quoted ≡ r₂.quoted))
unfolding union_ranges
union_ranges-Denotes {r₁} {r₂} {n} {m} d d' h =
    elim (Bool-cases (ltb r₂.nodes.members r₁.nodes.members)) [
      | inl larger ↦
          let (r, run, (e, same)) = range_union_inplace-Denotes d d' h in
          (r, rw larger run, (e, inl same))
      | inr other ↦
          let (r, run, (e, same)) = range_union_inplace-Denotes d' d (omega arith) in
          (r, rw other run, (Denotes_ext e (λ q. ground arith) (omega arith), inr same))
    ]

-- A factor is no more than the product.
factor-le :
    (x y z : ℕ) → 1 ≤ x → 1 ≤ y → 1 ≤ z → (x ≤ x * (y * z)) × (y ≤ x * (y * z)) × (z ≤ x * (y * z))
factor-le x y z hx hy hz =
    let y_le = le-mul_of_pos_right y hz in
    let z_le = le-mul_of_pos_right z hy in
    let all_le = le-mul_of_pos_right (y * z) hx in
    (le-mul_of_pos_right x (one-le-mul hy hz), omega arith, omega arith)

weights : (a b c : ℕ) → let n = max 1 a * (max 1 b * max 1 c) in (a ≤ n) × (b ≤ n) × (c ≤ n)
weights a b c =
    let (x, y, z) =
      factor-le (max 1 a) (max 1 b) (max 1 c) (omega arith) (omega arith) (omega arith) in
    (omega arith, omega arith, omega arith)

module _ (env : Env) where
  -- the names of the second range of a difference or an intersection
  abbrev Picked : Option Text → (Text → Type 0) → (Text → Type 0) → Text → Type 0
  Picked none P Q q = Q q
  Picked (some s) P Q q = P q × Matches env s q

  Picked-out :
      (o : Option Text) (P Q : Text → Type 0) (q : Text)
      → (P q × (¬ Picked o P Q q)) ↔ (P q × (¬ Selected env o Q q))
  Picked-out none P Q q = (λ h. h, λ h. h)
  Picked-out (some s) P Q q = (λ h. (h.0, λ m. h.1 (h.0, m)), λ h. (h.0, λ m. h.1 m.1))

  Picked-in :
      (o : Option Text) (P Q : Text → Type 0) (q : Text)
      → (P q × Picked o P Q q) ↔ (P q × Selected env o Q q)
  Picked-in none P Q q = (λ h. h, λ h. h)
  Picked-in (some s) P Q q = (λ h. (h.0, h.1.1), λ h. (h.0, (h.0, h.1)))

  second_range-Denotes :
      (o : Option Text) (evaluate : Request → Run (Range × Request)) (r₁ : Range) (rr : Request)
      {P Q : Text → Type 0} {n m : ℕ} (pure plain plain₂ : Type 0)
      → Denotes r₁ P n
      → n ≤ size_limit
      → Selects o pure plain
      → (plain → r₁.quoted ≡ false)
      → (pure → Returns (evaluate rr) λ y. Denotes y.0 Q m × (plain₂ → y.0.quoted ≡ false))
      → Returns
          (second_range env o evaluate r₁ rr)
          λ y. Denotes y.0 (Picked o P Q) (n + m) × (plain₂ → y.0.quoted ≡ false)
  unfolding second_range
  second_range-Denotes none evaluate r₁ rr pure plain plain₂ d h sel q ev =
      let (y, run, (d', q')) = ev sel in
      (y, run, (Denotes_ext d' (λ q. (λ x. x, λ x. x)) (omega arith), q'))
  second_range-Denotes (some s) evaluate r₁ rr pure plain plain₂ d h sel q ev =
      let (y, run, (d', q')) = range_from_match-Denotes env rr r₁ s d (q sel) h in
      (y, run, (Denotes_ext d' (λ q. (λ x. x, λ x. x)) (omega arith), λ _. q'))

  -- For an expression without groups, functions, negation and standing patterns, whose ranges of hosts
  -- are numbered, in which a pattern stands only right of a difference or an intersection and behind an
  -- expression without quoted literals, and whose weight (a bound on its names) is at most 1610612741,
  -- the evaluator runs without a fault and returns a well-formed range of exactly the names that the
  -- expression stands for, at most as many as its weight. Without quoted literals the range is not
  -- quoted.
  pub range_evaluate-Evaluates :
      (ast : Ast) (rr : Request)
      → IsPure ast
      → weight ast ≤ size_limit
      → Returns (range_evaluate env ast rr) (Evaluates env ast)
  unfolding range_evaluate
  range_evaluate-Evaluates (literal s) rr p w =
      let (r, run, (d, plain)) = range_from_literal-Denotes s in ((r, rr), rw run, (d, λ _. plain))
  range_evaluate-Evaluates (nonrange_literal s) rr p w =
      let (r, run, (d, _)) = range_from_nonrange_literal-Denotes s in
      ((r, rr), rw run, (d, λ h. absurd h))
  range_evaluate-Evaluates (union a b) rr p w =
      let (x, run, (d, plain)) = range_evaluate-Evaluates a rr p.0 (omega arith) in
      let (y, run', (d', plain')) = range_evaluate-Evaluates b x.1 p.1 (omega arith) in
      let (r, run'', (d'', q)) = union_ranges-Denotes d d' w in
      (
        (r, y.1),
        rw (run, ◌>>=◌, run', ◌>>=◌, run''),
        (d'', λ h. ground (arith, plain h.0, plain' h.1)),
      )
  range_evaluate-Evaluates (group a) rr p w = absurd p
  range_evaluate-Evaluates (braces a b c) rr p w =
      let (x, run, (d, plain)) =
        range_evaluate-Evaluates a rr p.0
          (le_trans (weights (weight a) (weight b) (weight c)).0 w) in
      let (y, run', (d', plain')) =
        range_evaluate-Evaluates b x.1 p.1
          (le_trans (weights (weight a) (weight b) (weight c)).1 w) in
      let (z, run'', (d'', plain'')) =
        range_evaluate-Evaluates c y.1 p.2
          (le_trans (weights (weight a) (weight b) (weight c)).2 w) in
      let (r, run₃, (d₃, q)) = range_from_braces-Denotes x.0 y.0 z.0 d d' d'' w in
      (
        (r, z.1),
        rw (run, ◌>>=◌, run', ◌>>=◌, run'', ◌>>=◌, run₃),
        (d₃, λ h. ground (arith, plain h.0, plain' h.1, plain'' h.2)),
      )
  range_evaluate-Evaluates (diff a b) rr p w =
      let (x, run, (d, plain)) = range_evaluate-Evaluates a rr p.0 (omega arith) in
      let (y, run', (d', plain')) =
        second_range-Denotes (regex_of b) (range_evaluate env b) x.0 x.1 (IsPure b) (IsPlain a)
          (IsPlain b) d (omega arith) p.1 plain
          (λ pb. range_evaluate-Evaluates b x.1 pb (omega arith)) in
      let (d'', q) = range_diff_inplace-Denotes d d' in
      (
        (range_diff_inplace x.0 y.0, y.1),
        rw (run, ◌>>=◌, run'),
        (
          Denotes_ext d'' (Picked-out (regex_of b) (Meaning env a) (Meaning env b)) (omega arith),
          λ h. q ∙ plain h.0,
        ),
      )
  range_evaluate-Evaluates (inter a b) rr p w =
      let (x, run, (d, plain)) = range_evaluate-Evaluates a rr p.0 (omega arith) in
      let (y, run', (d', plain')) =
        second_range-Denotes (regex_of b) (range_evaluate env b) x.0 x.1 (IsPure b) (IsPlain a)
          (IsPlain b) d (omega arith) p.1 plain
          (λ pb. range_evaluate-Evaluates b x.1 pb (omega arith)) in
      let (r, run'', (d'', _, q)) = range_from_inter-Denotes d d' in
      (
        (r, y.1),
        rw (run, ◌>>=◌, run', ◌>>=◌, run''),
        (
          Denotes_ext d'' (Picked-in (regex_of b) (Meaning env a) (Meaning env b)) (omega arith),
          λ h. ground (arith, plain h.0, plain' h.1, q),
        ),
      )
  range_evaluate-Evaluates (not_in a) rr p w = absurd p
  range_evaluate-Evaluates (regex s) rr p w = absurd p
  range_evaluate-Evaluates (parts p) rr h w =
      let (r, run, (d, plain)) = range_from_rangeparts-Numbers p h w in
      ((r, rr), rw run, (d, λ _. plain))
  range_evaluate-Evaluates (function name args) rr p w = absurd p
  range_evaluate-Evaluates nothing rr p w =
      let (r, run, (d, plain)) = range_new-Denotes in ((r, rr), rw run, (d, λ _. plain))
