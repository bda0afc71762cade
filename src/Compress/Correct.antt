-- ===== src/Compress/Correct.antt =====
-- The loop of `do_range_compress`, source/src/range_compress.c, on the names of a range.
use mathlib.Core.List.{append_assoc}
use libcrange.Base.{
  ℕ, suc, ◌+◌, ◌^◌, ◌≡◌, ◌≤◌, ◌<◌, refl, ap, Text, List, [], ◌∷◌, ◌++◌, Option, none, some, true,
  false, ◌&&◌, length, length-append, arith, ◌==◌, str_eq, str_eq_iff, Bool-cases, ◌⊎◌, inl, inr,
}
use libcrange.Base.{ok, ◌>>=◌}
use libcrange.HashSet.Resize.{size_limit}
use libcrange.Range.Decimal.{digits_value}
use libcrange.Range.Numbers.{digits_value-lt}
use libcrange.Compress.Segments.{
  Segments, no_group, then_group, IsNode, plain, counted, Current, sole, running,
  close_group-Stands, starts-IsNode, fresh-Current, extended,
}
use libcrange.Compress.{
  NodeParts, init_prev_parts, compress_loop, continues, add_int, int_eq, same_width, max_num_groups,
}

-- Only the sole number 1 follows a name without a number.
follows_plain :
    (prefix domain : Text) (n : ℕ)
    → (n ≡ 1 → 0 < length prefix + length domain)
    → (str_eq prefix [] && (str_eq domain [] && (n == 1))) ≡ false
unfolding str_eq
follows_plain [] [] n bare = ground arith
follows_plain [] (d ∷ domain) n bare = refl
follows_plain (c ∷ prefix) domain n bare = refl

-- The next name goes on with the group, as the next number of it, or it does not.
advance :
    {prev p : NodeParts} {len : Option ℕ} {count : ℕ} {names : List Text}
    → Current prev len count names
    → IsNode p
    → ((continues p prev count len ≡ ok true)
        × Current prev len (count + 1) (names ++ p.full_name ∷ []))
      ⊎ (continues p prev count len ≡ ok false)
unfolding continues add_int int_eq same_width
advance (sole name len h) (plain name' h') = inr (ground arith)
advance (running prefix domain digits count others all wide fits small c exact) (plain name' h') =
    let ahead : (0 == digits_value 0 digits + (count + 1)) ≡ false = ground arith in
    inr (ground (arith, ahead))
advance (sole name len h) (counted prefix domain digits all wide small bare) =
    inr (rw (follows_plain prefix domain (digits_value 0 digits) bare))
advance (running prefix domain digits count others all wide fits small c exact)
      (counted prefix' domain' digits' all' wide' small' bare) =
    elim (Bool-cases (
      str_eq prefix' prefix
      && (str_eq domain' domain
          && (digits_value 0 digits' == digits_value 0 digits + (count + 1))))) [
            | inr other ↦ inr (rw other)
            | inl next ↦ elim (Bool-cases (length digits' == length digits)) [
              | inr wider ↦ inr (rw (next, wider))
              | inl same ↦
                  let px : prefix' ≡ prefix = ground (arith, str_eq_iff prefix' prefix, next) in
                  let dx : domain' ≡ domain = ground (arith, str_eq_iff domain' domain, next) in
                  let vx : digits_value 0 digits' ≡ digits_value 0 digits + (count + 1) =
                    ground (arith, next) in
                  let wx : length digits' ≡ length digits = ground (arith, same) in
                  inl (
                    rw (next, same),
                    rw (px, dx)
                        (running prefix domain digits (count + 1)
                          (others ++ (prefix ++ (digits' ++ domain)) ∷ []) all wide
                          (omega (arith, digits_value-lt digits' all', ap (λ (t : ℕ). 10 ^ t) wx))
                          (omega (arith))
                          (omega
                            (arith, length-append others ((prefix ++ (digits' ++ domain)) ∷ [])))
                          (extended prefix domain digits digits' count
                            ((prefix ++ (digits ++ domain)) ∷ others) all' wide' wx vx exact)),
                  )
            ]
          ]

named :
    {prev : NodeParts} {len : Option ℕ} {count : ℕ} {names : List Text}
    → Current prev len count names
    → 0 < length prev.full_name
named (sole name len h) = h
named (running prefix domain digits count others all wide fits small c exact) =
    omega (arith, length-append prefix (digits ++ domain), length-append digits domain)

-- every name has the parts that `node_to_parts` makes
abbrev pub AllNodes : List NodeParts → Type 0
AllNodes [] = Unit
AllNodes (p ∷ ps) = IsNode p × AllNodes ps

abbrev pub full_names : List NodeParts → List Text
full_names [] = []
full_names (p ∷ ps) = p.full_name ∷ full_names ps

pub length-full_names : (ps : List NodeParts) → length (full_names ps) ≡ length ps
length-full_names [] = refl
length-full_names (p ∷ ps) = ap suc (length-full_names ps)

loop :
    (ps : List NodeParts) {prev : NodeParts} {len : Option ℕ} {count : ℕ} {names : List Text}
    (groups : List Text)
    → AllNodes ps
    → Current prev len count names
    → length names + length ps ≤ size_limit
    → length groups + length ps < max_num_groups
    → (gs : List Text) × (compress_loop ps prev len count groups ≡ ok (some (groups ++ gs)))
      × Segments gs (names ++ full_names ps)
unfolding compress_loop
loop [] groups all cur few room =
    let (g, closed, st) = close_group-Stands cur (omega arith) in
    (g ∷ [], rw closed refl, then_group g _ [] [] st no_group)
loop (p ∷ ps) {prev} {len} {count} {names} groups all cur few room = elim (advance cur all.0) [
  | inl (same, cur') ↦
      let (gs, run, seg) =
        loop ps groups all.1 cur' (omega (arith, length-append names (p.full_name ∷ [])))
          (omega arith) in
      (gs, rw (same, ◌>>=◌) run, rw (append_assoc names (p.full_name ∷ []) (full_names ps)) at seg)
  | inr other ↦
      let (g, closed, st) = close_group-Stands cur (omega arith) in
      let some_name : (length prev.full_name == 0) ≡ false = ground (arith, named cur) in
      let below : (length groups + 1 == max_num_groups) ≡ false = ground arith in
      let (gs, run, seg) =
        loop ps (groups ++ g ∷ []) all.1 (fresh-Current len all.0) (omega arith)
          (omega (arith, length-append groups (g ∷ []))) in
      (
        g ∷ gs,
        rw (other, ◌>>=◌, some_name, closed, below, run, append_assoc groups (g ∷ []) gs),
        then_group g names gs (p.full_name ∷ full_names ps) st seg,
      )
]

-- For at most 65534 names that `node_to_parts` took apart, none of them empty or the sole number 1, ...
pub compress_loop-Segments :
    (ps : List NodeParts)
    → AllNodes ps
    → 0 < length ps
    → length ps ≤ max_num_groups
    → (gs : List Text) × (compress_loop ps init_prev_parts none 0 [] ≡ ok (some gs))
      × Segments gs (full_names ps)
unfolding compress_loop
compress_loop-Segments [] all some_name room = elim some_name [ ]
compress_loop-Segments (p ∷ ps) all some_name room =
    let (gs, run, seg) = loop ps [] all.1 (fresh-Current none all.0) (omega arith) (omega arith) in
    (gs, rw (starts-IsNode all.0, ◌>>=◌, run), seg)
