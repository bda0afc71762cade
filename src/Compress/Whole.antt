-- ===== src/Compress/Whole.antt =====
-- `do_range_compress` of source/src/range_compress.c as a whole: the names of a set are taken apart,
-- sorted and written in groups.
mod Tests
use libcrange.Base.{
  ℕ, zero, suc, ◌+◌, ◌≡◌, ◌≤◌, ◌<◌, refl, ◌∙◌, Text, List, [], ◌∷◌, ◌++◌, Option, none, some,
  Option-cases, true, false, arith, length, ◌==◌, str_eq, str_eq_iff, ◌⊎◌, inl, inr, ◌↔◌, leb,
  le→leb,
}
use libcrange.Base.{ok, ◌>>=◌}
use libcrange.Range.Decimal.{digits_value, atoi, int_max}
use libcrange.Range.Meaning.{listed, Denotes, set_members-Denotes}
use libcrange.Range.Numbers.{AllDigits}
use libcrange.Range.{Range, names_of}
use libcrange.HashSet.{set_members}
use libcrange.Request.{Request}
use libcrange.Compress.Correct.{AllNodes, full_names, length-full_names, compress_loop-Segments}
use libcrange.Compress.Segments.{Segments, IsNode, plain, counted}
use libcrange.Compress.Sorted.{sort_parts-AllNodes, sort_parts_names}
use libcrange.Compress.Unnumbered.{numbered}
use libcrange.Compress.{
  Captures, NodeParts, node_to_parts, all_parts, sort_parts, do_range_sort, do_range_compress,
  join_groups, compress_loop, init_prev_parts, max_num_groups,
}

-- the domain of the captures, empty where it takes no part
abbrev pub domain_of : Captures → Text
domain_of m = elim m.behind [ some d ↦ d | none ↦ [] ]

module _ (numbered_node_re : Text → Option Captures) where
  -- a name that is not empty, whose captures are the name in parts, the second of digits, and whose number
  -- is below 2147483647 and is not the sole number 1
  pub record IsName (name : Text) : Type 0 where
    pub whole :
        (m : Captures)
        → numbered_node_re name ≡ some m
        → m.before ++ (m.digits ++ domain_of m) ≡ name
    pub all_digits : (m : Captures) → numbered_node_re name ≡ some m → AllDigits m.digits
    pub some_digit : (m : Captures) → numbered_node_re name ≡ some m → 0 < length m.digits
    pub some_text : 0 < length name
    pub small : (m : Captures) → numbered_node_re name ≡ some m → digits_value 0 m.digits < int_max
    pub not_bare :
        (m : Captures)
        → numbered_node_re name ≡ some m
        → digits_value 0 m.digits ≡ 1
        → 0 < length m.before + length (domain_of m)

  node_to_parts-IsNode :
      (name : Text)
      → IsName name
      → (p : NodeParts) × (node_to_parts numbered_node_re name ≡ ok p)
        × IsNode p
        × (p.full_name ≡ name)
  unfolding node_to_parts atoi
  node_to_parts-IsNode name h = elim (Option-cases (numbered_node_re name)) [
    | inl none_of ↦ (_, rw (node_to_parts, none_of) refl, plain name h.some_text, refl)
    | inr (m, found) ↦
        let fits = le→leb (digits_value 0 m.digits) int_max (omega (arith, h.small m found)) in
        (
          numbered m.before (domain_of m) (digits_value 0 m.digits) m.digits name,
          rw (node_to_parts, found, atoi, fits) refl,
          rw (h.whole m found) at (
              counted m.before (domain_of m) m.digits (h.all_digits m found) (h.some_digit m found)
                (h.small m found) (h.not_bare m found)),
          refl,
        )
  ]

  all_parts-AllNodes :
      (names : List Text)
      → ((q : Text) → listed q names ≡ true → IsName q)
      → (ps : List NodeParts) × (all_parts numbered_node_re names ≡ ok ps)
        × AllNodes ps
        × (full_names ps ≡ names)
        × (length ps ≡ length names)
  unfolding all_parts
  all_parts-AllNodes [] h = ([], refl, tt, refl, refl)
  all_parts-AllNodes (name ∷ names) h =
      let (p, run, node, same) =
        node_to_parts-IsNode name (h name (ground (arith, str_eq_iff name name))) in
      let (ps, run', all, same', count) =
        all_parts-AllNodes names (λ q l. h q (ground (arith, l))) in
      (p ∷ ps, rw (run, ◌>>=◌, run'), (node, all), rw (same, same'), omega (arith, count))

  -- For a well-formed range of at least 1 and at most 65536 names, none of which is empty, for each of
  -- which the captures, where there are some, are its parts with digits in the second, with a number
  -- below 2147483647 that is not the number 1 alone, `do_range_compress` runs without a fault or a
  -- warning. It prints, with commas between them, groups whose names in order list each name of the
  -- range, and no other, as many as its members: each group is the text of one name, or a range of
  -- hosts that `range_from_rangeparts` expands to exactly its names.
  pub do_range_compress-Segments :
      (rr : Request) (r : Range) {P : Text → Type 0} {n : ℕ}
      → Denotes r P n
      → ((q : Text) → P q → IsName q)
      → 0 < r.nodes.members
      → r.nodes.members ≤ max_num_groups
      → (groups names : List Text) × (do_range_compress numbered_node_re rr r
          ≡ ok (join_groups groups, rr))
        × Segments groups names
        × ((q : Text) → (listed q names ≡ true) ↔ P q)
        × (length names ≡ r.nodes.members)
  unfolding do_range_compress do_range_sort
  do_range_compress-Segments rr r d name some_name few =
      let (lists, members) = set_members-Denotes d in
      let (ps, run, all, same, count) =
        all_parts-AllNodes (names_of (set_members r.nodes)) (λ q l. name q ((lists q).0 l)) in
      let (_, len) = sort_parts_names [] ps in
      let (groups, run', seg) =
        compress_loop-Segments (sort_parts ps) (sort_parts-AllNodes ps all) (omega (arith, len))
          (omega (arith, len)) in
      let present : (r.nodes.members == 0) ≡ false = ground arith in
      (
        groups,
        full_names (sort_parts ps),
        rw (present, run, ◌>>=◌, run') refl,
        seg,
        λ q. rw ((sort_parts_names q ps).0, same) (lists q),
        omega (arith, length-full_names (sort_parts ps), len, count, members),
      )
