-- ===== src/Cluster/Dollars.antt =====
-- The texts of cluster definitions, which source/functions/yamlfile.c, source/functions/nodescf.c and
-- source/functions/sqlite.c rewrite with the same code: `_substitute_dollars` and `_join_elements`.
pub mod Segments
mod Tests
use libcrange.Base.{
  ℕ, ◌+◌, Text, text, [], ◌∷◌, ◌++◌, List, Option, none, some, Bool, true, false, ◌&&◌, ◌||◌,
  if◌then◌else◌, ltb, leb, ◌==◌, length,
}
use libcrange.Base.{drop_last}
use libcrange.Base.{Run, ok, fault, out_of_bounds}
use libcrange.HashSet.{Set, set_members}
use libcrange.HashSet.Bucket.{Element, Chain}

-- `isalnum` in the C locale
abbrev pub is_alnum : ℕ → Bool
is_alnum c =
    (leb b'0' c && leb c b'9') || ((leb b'A' c && leb c b'Z') || (leb b'a' c && leb c b'z'))

-- The bytes of a section's name after `$`. A dash is one of them in source/functions/yamlfile.c only.
abbrev pub is_word : Bool → ℕ → Bool
is_word dash c = is_alnum c || (c == b'_' || (dash && c == b'-'))

-- where the loops of `_substitute_dollars` stand
pub data Place : Type 0 where
  outside in_regex in_name : Place

-- `cluster(`, the cluster's name and a colon
abbrev pub call_of : Text → Text
call_of cluster = text "cluster(" ++ (cluster ++ (b':' ∷ []))

-- what the loops write for the rest of a line
pub rewrite : Bool → Text → Place → Text → Text
rewrite dash cluster outside [] = []
rewrite dash cluster in_regex [] = []
rewrite dash cluster in_name [] = b')' ∷ []
rewrite dash cluster outside (c ∷ line) =
    let named = rewrite dash cluster in_name line in
    let regex = rewrite dash cluster in_regex line in
    let plain = rewrite dash cluster outside line in
    if c == b'$' then call_of cluster ++ named else if c == b'/' then c ∷ regex else c ∷ plain
rewrite dash cluster in_regex (c ∷ line) =
    let regex = rewrite dash cluster in_regex line in
    let plain = rewrite dash cluster outside line in if c == b'/' then c ∷ plain else c ∷ regex
rewrite dash cluster in_name (c ∷ line) =
    let named = rewrite dash cluster in_name line in
    let regex = rewrite dash cluster in_regex line in
    let plain = rewrite dash cluster outside line in
    if is_word dash c
    then c ∷ named
    else if c == b'$'
    then b')' ∷ (call_of cluster ++ named)
    else if c == b'/'
    then b')' ∷ (c ∷ regex)
    else b')' ∷ (c ∷ plain)

-- the bytes of the static buffer
abbrev pub buffer_size : ℕ
buffer_size = 262144

-- `_substitute_dollars`: the text and its zero have to fit the buffer.
pub substitute_dollars : Bool → Text → Text → Run Text
substitute_dollars dash cluster line =
    let out = rewrite dash cluster outside line in
    if ltb (length out) buffer_size then ok out else fault out_of_bounds

module _ {ℓ} {D : Type ℓ} where
  -- the loop that copies the names: each is followed by the separator
  pub separated : ℕ → Chain D → Text
  separated sep [] = []
  separated sep (e ∷ es) = e.name ++ (sep ∷ separated sep es)

  pub join_elements : ℕ → Set D → Option Text
  join_elements sep s =
      if length (separated sep (set_members s)) == 0
      then none
      else some (drop_last (separated sep (set_members s)))
