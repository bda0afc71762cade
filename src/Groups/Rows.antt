-- ===== src/Groups/Rows.antt =====
-- The names that `rangefunc_group` of source/functions/pgsql.c gives.
use mathlib.Core.Logic.{⊎_elim}
use native.Mathlib.Nat.{suc-mul, mul-le-mul_right}
use libcrange.Base.{
  ℕ, ◌+◌, ◌*◌, ◌≡◌, ◌≤◌, refl, ap, ap₂, ◌∙◌, Text, text, List, [], ◌∷◌, some, true, false, arith,
  length, ◌⊎◌, inl, inr, str_eq_iff,
}
use libcrange.Base.{ok, ◌>>=◌, Returns}
use libcrange.HashSet.Resize.{size_limit}
use libcrange.HashSet.{set_members}
use libcrange.Range.Grouped.{OneOf, listed_head}
use libcrange.Range.Meaning.{
  listed, Denotes, Denotes_ext, range_new-Denotes, range_add-Denotes, set_members-Denotes,
  hostnames_plain,
}
use libcrange.Range.{Range, names_of}
use libcrange.Cluster.Arguments.{first_arg}
use libcrange.Cluster.{World, arg_names}
use libcrange.Groups.{
  Postgres, GroupStore, or_default, pgsql_text, add_elements, pgsql_groups, pgsql_with, pgsql_group,
}

add_elements-Denotes :
    (elements : List Text) (r : Range) (P : Text → Type 0) (n : ℕ)
    → Denotes r P n
    → n + length elements ≤ size_limit
    → Returns
        (add_elements elements r)
        (λ r'. Denotes r' (λ q. P q ⊎ (listed q elements ≡ true)) (n + length elements))
unfolding add_elements
add_elements-Denotes [] r P n d room =
    (r, refl, Denotes_ext d (λ q. (inl, ⊎_elim (λ p. p) (λ e. absurd (cc)))) (omega arith))
add_elements-Denotes (e ∷ elements) r P n d room =
    let (r', run, (d', _)) = range_add-Denotes r e d (omega arith) in
    let (r'', run', d'') = add_elements-Denotes elements r' _ (n + 1) d' (omega arith) in
    (r'', rw (run, ◌>>=◌) run', Denotes_ext d'' (λ q. ground (arith, str_eq_iff e q)) (omega arith))

module _ {C : Type 0} (postgres : Postgres C) (namespace : Text) (conn : C)
    (elements : Text → List Text) (n : ℕ) where
  -- The query for a group is answered by its elements.
  abbrev pub AnswersFor : Text → Type 0
  AnswersFor member =
      (postgres.exec conn (pgsql_text namespace member) ≡ inr (elements member))
      × (length (elements member) ≤ n)

  pgsql_groups-Denotes :
      (members : List Text) (r : Range) (w : World (GroupStore C)) (P : Text → Type 0) (i : ℕ)
      → ((m : Text) → listed m members ≡ true → AnswersFor m)
      → Denotes r P i
      → i + length members * n ≤ size_limit
      → Returns (pgsql_groups postgres namespace conn members r w) λ x.
        Denotes x.0
          (λ q. OneOf (λ m q'. listed q' (elements m) ≡ true) members q ⊎ P q)
          (i + length members * n)
        × (x.1 ≡ w)
  unfolding pgsql_groups
  pgsql_groups-Denotes [] r w P i answers d room = (
    (r, w),
    refl,
    (Denotes_ext d (λ q. (inr, ⊎_elim (λ x. absurd (cc (x.1))) (λ p. p))) (omega arith), refl),
  )
  pgsql_groups-Denotes (member ∷ members) r w P i answers d room =
      let size = suc-mul (length members) n in
      let (answered, few) = answers member (ground (arith, str_eq_iff member member)) in
      let (r', run, d') = add_elements-Denotes (elements member) r P i d (omega (arith, size)) in
      let (x, run', (d'', same)) =
        pgsql_groups-Denotes members r' w _ (i + n) (λ m l. answers m (ground (arith, l)))
          (Denotes_ext d' (λ q. (λ h. h, λ h. h)) (omega (arith, few))) (omega (arith, size)) in
      (
        x,
        rw (pgsql_groups, answered, run, ◌>>=◌) run',
        (
          Denotes_ext d''
              (λ q. listed_head (λ m q'. listed q' (elements m) ≡ true) member members q (P q))
              (omega (arith, size)),
          same,
        ),
      )

  -- With a connection in the cache and an argument that is well-formed, not quoted and has at most `k`
  -- names, where the query for each of these groups in the namespace of the configuration is answered
  -- by at most `n` elements, and `k` times `n` is at most 1610612741, the function `group` for
  -- PostgreSQL returns exactly the elements of the groups, and leaves the request and the cache as they
  -- were.
  pub pgsql_group-Denotes :
      (r : Range) (w : World (GroupStore C)) (P : Text → Type 0) (k : ℕ)
      → or_default (w.store.getcfg (text "default_namespace")) (text "yst") ≡ namespace
      → w.store.conn ≡ some conn
      → Denotes r P k
      → r.quoted ≡ false
      → ((m : Text) → P m → AnswersFor m)
      → k * n ≤ size_limit
      → Returns (pgsql_group postgres (r ∷ []) w) λ x.
        Denotes x.0 (λ q. (m : Text) × P m × (listed q (elements m) ≡ true)) (k * n) × (x.1 ≡ w)
  unfolding pgsql_group pgsql_with
  pgsql_group-Denotes r w P k chosen there d plain answers room =
      let (ret, made, (empty, _)) = range_new-Denotes in
      let names = names_of (set_members r.nodes) in
      let args : arg_names (r ∷ []) 0 ≡ ok names =
        first_arg r [] ∙ ap ok (hostnames_plain r plain) in
      let (exact, len) = set_members-Denotes d in
      let count : length names ≤ k = omega (arith, d.few, len) in
      let size = mul-le-mul_right n count in
      let (x, run, (dx, same)) =
        pgsql_groups-Denotes names ret w _ 0 (λ m l. answers m ((exact m).0 l)) empty
          (omega (arith, size)) in
      (
        x,
        rw (pgsql_group, made, ◌>>=◌, args)
            (ap₂ (λ c ns. pgsql_with postgres c ns names ret w) there chosen ∙ run),
        (
          Denotes_ext dx
              (λ q. (
                ⊎_elim (λ y. (y.0, (exact y.0).0 y.1, y.2)) (λ y. absurd y),
                λ y. inl (y.0, (exact y.0).1 y.1, y.2),
              ))
              (omega (arith, size)),
          same,
        ),
      )
