-- ===== src/Evaluate/Meaning.antt =====
-- What a range expression of source/src/ast.c stands for, where it calls no function of a module:
-- the evaluator computes it.
use Prim.Native.Nat.{max}
use libcrange.Base.{ℕ, ◌+◌, ◌*◌, ◌≡◌, Text, Option, none, some, false, ◌⊎◌}
use libcrange.Range.Meaning.{Denotes}
use libcrange.Range.Braces.{Joins}
use libcrange.Range.Numbers.{Numbers, IsNumbered, numbers_count}
use libcrange.Range.{Range}
use libcrange.Request.{Request}
use libcrange.Evaluate.Matching.{Matches}
use libcrange.Evaluate.{
  Env, Ast, literal, nonrange_literal, union, group, braces, diff, inter, not_in, regex, parts,
  function, nothing, regex_of,
}

module _ (env : Env) where
  -- the names of a second child: those that match, if it is a pattern
  abbrev pub Selected : Option Text → (Text → Type 0) → Text → Type 0
  Selected none P q = P q
  Selected (some s) P q = Matches env s q

  -- the set of names that an expression stands for
  abbrev pub Meaning : Ast → Text → Type 0
  Meaning (literal s) q = s ≡ q
  Meaning (nonrange_literal s) q = s ≡ q
  Meaning (union a b) q = Meaning a q ⊎ Meaning b q
  Meaning (group a) q = ⊥
  Meaning (braces a b c) q = Joins (Meaning a) (Meaning b) (Meaning c) q
  Meaning (diff a b) q = Meaning a q × (¬ Selected (regex_of b) (Meaning b) q)
  Meaning (inter a b) q = Meaning a q × Selected (regex_of b) (Meaning b) q
  Meaning (not_in a) q = ⊥
  Meaning (regex s) q = ⊥
  Meaning (parts p) q = Numbers p q
  Meaning (function name args) q = ⊥
  Meaning nothing q = ⊥

-- no quoted literal stands in the expression
abbrev pub IsPlain : Ast → Type 0
IsPlain (literal s) = Unit
IsPlain (nonrange_literal s) = ⊥
IsPlain (union a b) = IsPlain a × IsPlain b
IsPlain (group a) = IsPlain a
IsPlain (braces a b c) = IsPlain a × IsPlain b × IsPlain c
IsPlain (diff a b) = IsPlain a × IsPlain b
IsPlain (inter a b) = IsPlain a × IsPlain b
IsPlain (not_in a) = IsPlain a
IsPlain (regex s) = Unit
IsPlain (parts p) = Unit
IsPlain (function name args) = Unit
IsPlain nothing = Unit

-- A pattern selects from an expression without quoted literals.
abbrev pub Selects : Option Text → Type 0 → Type 0 → Type 0
Selects none pure plain = pure
Selects (some s) pure plain = plain

-- The expression calls no function of a module, and a pattern stands only to the right of `-` or
-- `&`, behind an expression without quoted literals.
abbrev pub IsPure : Ast → Type 0
IsPure (literal s) = Unit
IsPure (nonrange_literal s) = Unit
IsPure (union a b) = IsPure a × IsPure b
IsPure (group a) = ⊥
IsPure (braces a b c) = IsPure a × IsPure b × IsPure c
IsPure (diff a b) = IsPure a × Selects (regex_of b) (IsPure b) (IsPlain a)
IsPure (inter a b) = IsPure a × Selects (regex_of b) (IsPure b) (IsPlain a)
IsPure (not_in a) = ⊥
IsPure (regex s) = ⊥
IsPure (parts p) = IsNumbered p
IsPure (function name args) = ⊥
IsPure nothing = Unit

-- a bound on the names of the expression and of every part of it
abbrev pub weight : Ast → ℕ
weight (literal s) = 1
weight (nonrange_literal s) = 1
weight (union a b) = weight a + weight b
weight (group a) = 0
weight (braces a b c) = max 1 (weight a) * (max 1 (weight b) * max 1 (weight c))
weight (diff a b) = weight a + weight b
weight (inter a b) = weight a + weight b
weight (not_in a) = 0
weight (regex s) = 0
weight (parts p) = numbers_count p
weight (function name args) = 0
weight nothing = 0

-- The result of evaluating `ast`: its names and, without quoted literals, no quotes.
abbrev pub Evaluates : Env → Ast → Range × Request → Type 0
Evaluates env ast x =
    Denotes x.0 (Meaning env ast) (weight ast) × (IsPlain ast → x.0.quoted ≡ false)
