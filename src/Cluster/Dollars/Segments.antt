-- ===== src/Cluster/Dollars/Segments.antt =====
-- What `_substitute_dollars` makes of a line, by the parts of the line: single bytes, patterns between
-- slashes, and names of sections behind a dollar.
use libcrange.Base.{
  ℕ, ◌≡◌, refl, ap, ◌∙◌, Text, List, [], ◌∷◌, ◌++◌, Bool, true, false, not, ◌&&◌, ◌==◌, length, ltb,
  if◌then◌else◌,
}
use libcrange.Base.{ok, fault, out_of_bounds}
use libcrange.Cluster.Dollars.{
  is_word, outside, in_regex, in_name, call_of, rewrite, buffer_size, substitute_dollars,
}

-- a part of a line; an unclosed pattern is the last one
pub data Segment : Type 0 where
  byte : ℕ → Segment
  pattern_between unclosed section_name : Text → Segment

-- the line of some parts
abbrev pub written : List Segment → Text
written [] = []
written (byte c ∷ s) = c ∷ written s
written (pattern_between t ∷ s) = b'/' ∷ (t ++ (b'/' ∷ written s))
written (unclosed t ∷ s) = b'/' ∷ (t ++ written s)
written (section_name name ∷ s) = b'$' ∷ (name ++ written s)

-- The line in which the name of a section is the expansion of that section of the cluster.
abbrev pub expanded : Text → List Segment → Text
expanded cluster [] = []
expanded cluster (byte c ∷ s) = c ∷ expanded cluster s
expanded cluster (pattern_between t ∷ s) = b'/' ∷ (t ++ (b'/' ∷ expanded cluster s))
expanded cluster (unclosed t ∷ s) = b'/' ∷ (t ++ expanded cluster s)
expanded cluster (section_name name ∷ s) = call_of cluster ++ (name ++ (b')' ∷ expanded cluster s))

abbrev pub no_slash : Text → Bool
no_slash [] = true
no_slash (c ∷ t) = not (c == b'/') && no_slash t

abbrev pub all_word : Bool → Text → Bool
all_word dash [] = true
all_word dash (c ∷ t) = is_word dash c && all_word dash t

-- no byte that goes on with a name
abbrev pub ends_name : Bool → List Segment → Bool
ends_name dash [] = true
ends_name dash (byte c ∷ _) = not (is_word dash c)
ends_name dash (pattern_between _ ∷ _) = true
ends_name dash (unclosed _ ∷ _) = true
ends_name dash (section_name _ ∷ _) = true

-- The parts are those that stand in their line.
unfoldable pub IsLine : Bool → List Segment → Type 0
IsLine dash [] = Unit {0}
IsLine dash (byte c ∷ s) = ((c == b'$') ≡ false) × ((c == b'/') ≡ false) × IsLine dash s
IsLine dash (pattern_between t ∷ s) = (no_slash t ≡ true) × IsLine dash s
IsLine dash (unclosed t ∷ s) = (no_slash t ≡ true) × (s ≡ [])
IsLine dash (section_name name ∷ s) =
    (all_word dash name ≡ true) × (ends_name dash s ≡ true) × IsLine dash s

and_parts : (a b : Bool) → a && b ≡ true → (a ≡ true) × (b ≡ true)
and_parts true b h = (refl, h)
and_parts false b h = absurd (cc h)

not-false : (a : Bool) → not a ≡ true → a ≡ false
not-false true h = absurd (cc h)
not-false false h = refl

and_false : (a : Bool) → a && false ≡ false
and_false true = refl
and_false false = refl

module _ (dash : Bool) (cluster : Text) where
  rewrite_name :
      (name line : Text)
      → all_word dash name ≡ true
      → rewrite dash cluster in_name (name ++ line) ≡ name ++ rewrite dash cluster in_name line
  unfolding rewrite
  rewrite_name [] line h = refl
  rewrite_name (c ∷ name) line h =
      let (word, later) = and_parts (is_word dash c) (all_word dash name) h in
      rw word (ap (λ t. c ∷ t) (rewrite_name name line later))

  rewrite_regex :
      (t line : Text)
      → no_slash t ≡ true
      → rewrite dash cluster in_regex (t ++ (b'/' ∷ line))
        ≡ t ++ (b'/' ∷ rewrite dash cluster outside line)
  unfolding rewrite
  rewrite_regex [] line h = refl
  rewrite_regex (c ∷ t) line h =
      let (plain, later) = and_parts (not (c == b'/')) (no_slash t) h in
      rw (not-false (c == b'/') plain) (ap (λ u. c ∷ u) (rewrite_regex t line later))

  rewrite_unclosed :
      (t : Text) → no_slash t ≡ true → rewrite dash cluster in_regex (t ++ []) ≡ t ++ []
  unfolding rewrite
  rewrite_unclosed [] h = refl
  rewrite_unclosed (c ∷ t) h =
      let (plain, later) = and_parts (not (c == b'/')) (no_slash t) h in
      rw (not-false (c == b'/') plain) (ap (λ u. c ∷ u) (rewrite_unclosed t later))

  rewrite_end :
      (s : List Segment)
      → IsLine dash s
      → ends_name dash s ≡ true
      → rewrite dash cluster in_name (written s) ≡ b')' ∷ rewrite dash cluster outside (written s)
  unfolding rewrite IsLine
  rewrite_end [] line h = refl
  rewrite_end (byte c ∷ s) (d, r, line) h = rw (not-false (is_word dash c) h, d, r) refl
  rewrite_end (pattern_between t ∷ s) line h = rw (and_false dash) refl
  rewrite_end (unclosed t ∷ s) line h = rw (and_false dash) refl
  rewrite_end (section_name name ∷ s) line h = rw (and_false dash) refl

  rewrite-written :
      (s : List Segment)
      → IsLine dash s
      → rewrite dash cluster outside (written s) ≡ expanded cluster s
  unfolding rewrite IsLine
  rewrite-written [] line = refl
  rewrite-written (byte c ∷ s) (d, r, line) = rw (d, r) (ap (λ t. c ∷ t) (rewrite-written s line))
  rewrite-written (pattern_between t ∷ s) (plain, line) =
      ap (λ u. b'/' ∷ u)
        (rewrite_regex t (written s) plain ∙ ap (λ u. t ++ (b'/' ∷ u)) (rewrite-written s line))
  rewrite-written (unclosed t ∷ s) (plain, last) =
      rw last (ap (λ u. b'/' ∷ u) (rewrite_unclosed t plain))
  rewrite-written (section_name name ∷ s) (word, stop, line) =
      ap (λ u. call_of cluster ++ u)
        (rewrite_name name (written s) word
          ∙ ap (λ u. name ++ u)
              (rewrite_end s line stop ∙ ap (λ u. b')' ∷ u) (rewrite-written s line)))

  -- For a line of single bytes, patterns between slashes and names of sections behind a dollar,
  -- `substitute_dollars` puts `cluster(`, the name of the cluster, a colon, the name of the section and
  -- `)` in the place of each section and keeps the rest, patterns included. It writes beyond its buffer
  -- exactly if the result has 262144 bytes or more.
  pub substitute_dollars-written :
      (s : List Segment)
      → IsLine dash s
      → substitute_dollars dash cluster (written s) ≡ (
          if ltb (length (expanded cluster s)) buffer_size
          then ok (expanded cluster s)
          else fault out_of_bounds)
  unfolding substitute_dollars
  substitute_dollars-written s line = rw (rewrite-written s line) refl
