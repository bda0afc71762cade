-- ===== src/HashSet/Packed/Tests.antt =====
-- Tests of the packed form of a set in source/src/set.c, and its theorems at concrete sets.
use libcrange.Base.{
  ◌≡◌, refl, ap, Text, text, [], ◌∷◌, ◌++◌, Option, none, some, arith, str_eq, length,
}
use libcrange.Base.{fault, out_of_bounds, Returns}
use libcrange.HashSet.Hash.{string_hash}
use libcrange.HashSet.Bucket.{Element, assign}
use libcrange.HashSet.Resize.{Models}
use libcrange.HashSet.Laws.{update, set_add_noresize-Models}
use libcrange.HashSet.Packed.{set_pack, set_unpack, set_pack_size, entries_size, pack_elements}
use libcrange.HashSet.Packed.Sample.{nobody, nobody-Models}
use libcrange.HashSet.Packed.RoundTrip.{
  set_unpack-set_pack, set_unpack_empty, length-set_pack, IsPackable,
}
use libcrange.HashSet.{Set, set_add_noresize, set_members, elements, slot}

abbrev host : Element Text
host = record { name = text "web1"; value = some (text "up") }

abbrev hosts : Set Text
hosts = set_add_noresize nobody (text "web1") (some (text "up"))

abbrev only_host : Text → Option (Element Text)
only_host = update (λ _. none) (text "web1") (some host)

hosts-Models : Models hosts only_host
hosts-Models = (set_add_noresize-Models nobody (text "web1") (some (text "up")) nobody-Models).0

hosts_members : (set_members hosts ≡ host ∷ []) × (hosts.members ≡ 1)
unfolding set_members elements set_add_noresize slot string_hash assign str_eq
hosts_members = (refl, refl)

hosts_bytes :
    set_pack hosts
    ≡ 20 ∷ 0 ∷ 0 ∷ 0 ∷ 4 ∷ 0 ∷ 0 ∷ 0 ∷ text "web1" ++ 0 ∷ 2 ∷ 0 ∷ 0 ∷ 0 ∷ text "up" ++ 0 ∷ []
unfolding set_pack set_pack_size entries_size pack_elements
hosts_bytes = rw (hosts_members.0)

hosts-IsPackable : IsPackable (set_members hosts)
hosts-IsPackable = rw (hosts_members.0) (
  (omega arith, (omega arith, (omega arith, (omega arith, tt)))),
  (omega arith, (omega arith, tt)),
  tt,
)

hosts_size : entries_size (set_members hosts) ≡ 16
unfolding entries_size
hosts_size = rw (hosts_members.0)

set_unpack-set_pack_example :
    Returns (set_unpack (set_pack hosts)) λ r. Models r only_host × (r.members ≡ hosts.members)
set_unpack-set_pack_example =
    set_unpack-set_pack hosts hosts-Models hosts-IsPackable (omega (arith, hosts_members.1))
      (omega (arith, hosts_members.1)) (omega (arith, hosts_size))

set_unpack_empty_example : set_unpack (set_pack nobody) ≡ fault out_of_bounds
set_unpack_empty_example = set_unpack_empty nobody nobody-Models refl

length-set_pack_example : length (set_pack hosts) ≡ set_pack_size hosts
length-set_pack_example = length-set_pack hosts (omega (arith, ap length hosts_bytes))
