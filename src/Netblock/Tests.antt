-- ===== src/Netblock/Tests.antt =====
-- Tests of source/functions/netblock.c, and its theorem at a concrete table.
use libcrange.Base.{
  Bool, true, str_eq, ◌+◌, ◌*◌, List, [], ◌∷◌, false, ◌≡◌, ◌≤◌, refl, Text, text, Option, none,
  some, arith,
}
use libcrange.Base.{ok, fault, null_pointer, Returns}
use libcrange.HashSet.Bucket.{Element}
use libcrange.HashSet.Resize.{Models, set_new-Models}
use libcrange.HashSet.Laws.{update, set_add_noresize-Models}
use libcrange.HashSet.{Set, set_new, set_add_noresize}
use libcrange.Range.Decimal.{itoa}
use libcrange.Range.Algebra.{range_from_literal-Denotes}
use libcrange.Range.Meaning.{Denotes}
use libcrange.Range.{range_from_literal}
use libcrange.Request.Warned.{IsWarned}
use libcrange.Request.{range_request_new}
use libcrange.Netblock.Hosts.{AllNamed, HostsBy}
use libcrange.Netblock.Lookups.{IsSound, hosts_in_dc_uncached, rangefunc_hosts_dc-init_caches}
use libcrange.Netblock.Longest.{IsLongest, netcolo_for_ip-IsLongest}
use libcrange.Netblock.{
  Ip, NetColo, hex, hex_digit, key_of, address_key, imask, netcolo_for_ip, drop_dot, drop_domain,
  IpHost, HostContext, hosts_in_dc, rangefunc_hosts_dc,
}

keys :
    (address_key 3232235786 24 ≡ text "c0a80100/24")
    × (address_key 3232235786 32 ≡ text "c0a8010a/32")
unfolding address_key key_of hex hex_digit imask itoa
keys = (refl, refl)

hosts :
    (drop_dot (text "a.example.") ≡ ok (text "a.example"))
    × (drop_domain (some (text "example")) (text "a.example") ≡ text "a")
    × (drop_domain (some (text "example")) (text "example") ≡ text "example")
unfolding drop_dot drop_domain str_eq
hosts = (refl, refl, refl)

abbrev office : NetColo
office = record {
  net = record { base = 3232235776; bits = 24; str = text "192.168.1.0/24" };
  colo = text "office";
}

abbrev no_blocks : Text → Option (Element NetColo)
no_blocks _ = none

made : Returns (set_new {D = NetColo} 0) λ s. Models s no_blocks × (0 ≤ 0) × (s.members ≡ 0)
made =
    let (s, run, (m, _, e)) = set_new-Models {D = NetColo} 0 (omega arith) in
    (s, run, (m, omega arith, e))

abbrev blocks : Set NetColo
blocks = set_add_noresize made.0 (text "c0a80100/24") (some office)

abbrev only_office : Text → Option (Element NetColo)
only_office =
    update no_blocks (text "c0a80100/24")
      (some (record { name = text "c0a80100/24"; value = some office }))

blocks-Models : Models blocks only_office
blocks-Models = (set_add_noresize-Models made.0 (text "c0a80100/24") (some office) made.2.0).0

abbrev node_ip : Ip
node_ip = record { binary = 3232235786; str = text "192.168.1.10" }

netcolo_for_ip-IsLongest_example :
    IsLongest only_office 3232235786 32 (netcolo_for_ip blocks node_ip)
netcolo_for_ip-IsLongest_example = netcolo_for_ip-IsLongest blocks node_ip blocks-Models

abbrev one_host : List IpHost
one_host = record { ip = node_ip; hostname = text "a.example." } ∷ []

one_host-AllNamed : AllNamed one_host
unfolding AllNamed
one_host-AllNamed = (omega arith, tt)

argument :
    Returns
      (range_from_literal (text "office"))
      λ r. Denotes r (λ q. text "office" ≡ q) 1 × (r.quoted ≡ false)
argument = range_from_literal-Denotes (text "office")

new-IsSound : IsSound 0 range_request_new
unfolding IsSound IsWarned range_request_new
new-IsSound = (λ _ _. ⊥, λ t q x. x)

abbrev context : Bool → HostContext
context want_caching = record {
  want_caching = want_caching;
  netblocks = blocks;
  default_domain = some (text "example");
  all_hosts = one_host;
  stored = none;
}

rangefunc_hosts_dc-init_caches_example :
    Returns (rangefunc_hosts_dc (range_request_new, context true) (argument.0 ∷ [])) λ x.
      Denotes x.0
        (λ q.
          (dc : Text) × (text "office" ≡ dc)
          × HostsBy blocks (some (text "example")) (λ nc. nc.colo) one_host dc q)
        (1 * 1)
      × IsSound (0 + 1) x.1.0
rangefunc_hosts_dc-init_caches_example =
    rangefunc_hosts_dc-init_caches (context true) range_request_new argument.0
      (λ q. text "office" ≡ q) 1 0 refl refl one_host-AllNamed (omega arith) argument.2.0
      argument.2.1 new-IsSound (omega arith) (omega arith)

hosts_in_dc_uncached_example :
    hosts_in_dc (text "office") (range_request_new, context false) ≡ fault null_pointer
hosts_in_dc_uncached_example =
    hosts_in_dc_uncached (context false) range_request_new (text "office") refl refl
      one_host-AllNamed (omega arith)
