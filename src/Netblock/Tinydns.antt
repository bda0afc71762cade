-- ===== src/Netblock/Tinydns.antt =====
-- Addresses of hosts: source/functions/tinydns_ip.c, and the function `ip` of source/functions/ip.c. The
-- resolver, `sscanf`, PCRE and the file of tinydns are parameters.
use libcrange.Base.{
  ℕ, ◌+◌, ◌*◌, ◌%◌, Text, text, [], ◌∷◌, ◌++◌, List, Option, none, some, Bool, ◌&&◌, ◌||◌, not,
  is_some, if◌then◌else◌, leb, ◌==◌, length, ends_in_newline,
}
use libcrange.Base.{Run, ok, fault, null_pointer, exits, ◌>>=◌}
use libcrange.HashSet.{Set, set_new, set_add, set_members}
use libcrange.HashSet.Bucket.{Chain}
use libcrange.Range.Decimal.{itoa}
use libcrange.Range.{Range, range_new, range_get_hostnames}
use libcrange.Request.{Request}
use libcrange.Netblock.{Ip, IpHost, add_lookups}

-- `cache_entry`
pub record Dns : Type 0 where
  pub mtime : ℕ
  pub hosts_ip : Set Ip
  pub cnames : Set Text

-- The four numbers of an address, as `sscanf` reads them and as the resolver gives its bytes: `none` within
-- is an answer of another kind than IPv4. The lines of the file are as `fgets` gives them.
pub record Resolver : Type 0 where
  pub sscanf : Text → Option (ℕ × ℕ × ℕ × ℕ)
  pub gethostbyname : Text → Option (Option (ℕ × ℕ × ℕ × ℕ))
  pub stat : Option ℕ
  pub lines : Option (List Text)
  pub a_re : Text → Option (Text × Text)
  pub cname_re : Text → Option (Text × Text)

-- the cache, if it is there, and whether the context wants to cache
pub record DnsCache : Type 0 where
  pub entry : Option Dns
  pub want_caching : Bool

-- the entry in the cache if it was there, or if it could be stored
pub store_dns : DnsCache → Dns → DnsCache
store_dns c e = if is_some c.entry || c.want_caching then record c { entry = some e } else c

-- one set stands in both places
pub dummy_cache_entry : Run (Set Ip × Set Text)
dummy_cache_entry = set_new 0 >>= λ hosts. set_new 0 >>= λ cnames. ok (hosts, cnames)

-- four numbers in decimal, with dots
pub dotted : ℕ → ℕ → ℕ → ℕ → Text
dotted a b c d = itoa a ++ (b'.' ∷ (itoa b ++ (b'.' ∷ (itoa c ++ (b'.' ∷ itoa d)))))

module _ (resolver : Resolver) where
  unfoldable pub str2ip : Text → ℕ
  str2ip str = elim (resolver.sscanf str) [
    | none ↦ 0
    | some (a, b, c, d) ↦ (a * 16777216 + b * 65536 + c * 256 + d) % 4294967296
  ]

  pub ip_new : Text → Ip
  ip_new ipaddr = record { binary = str2ip ipaddr; str = ipaddr }

  -- the address of a name: none for an empty answer or one that is not IPv4
  pub resolve : Text → Option Ip
  resolve hostname = elim (resolver.gethostbyname hostname) [
    | none ↦ none
    | some answer ↦ elim answer [ none ↦ none | some (a, b, c, d) ↦ some (ip_new (dotted a b c d)) ]
  ]

  pub tinydns_get_ip : Text → Option Ip
  tinydns_get_ip [] = resolve []
  tinydns_get_ip (c ∷ name) =
      if leb b'0' c && leb c b'9' then some (ip_new (c ∷ name)) else resolve (c ∷ name)

  -- one line of the file
  pub add_record : Text → Set Ip → Set Text → Run (Set Ip × Set Text)
  add_record line hosts cnames = elim (resolver.a_re line) [
    | some (host, address) ↦
        set_add hosts host (some (ip_new address)) >>= λ hosts'. ok (hosts', cnames)
    | none ↦ elim (resolver.cname_re line) [
      | some (alias, canon) ↦ set_add cnames alias (some canon) >>= λ cnames'. ok (hosts, cnames')
      | none ↦ ok (hosts, cnames)
    ]
  ]

  pub add_records : List Text → Set Ip → Set Text → Run (Set Ip × Set Text)
  add_records [] hosts cnames = ok (hosts, cnames)
  add_records (line ∷ lines) hosts cnames =
      if leb 8192 (length line + 1) && not (ends_in_newline line)
      then fault exits
      else (add_record line hosts cnames >>= λ x. add_records lines x.0 x.1)

  -- The file is read into an entry, which stands in the cache also where the file cannot be opened.
  pub read_dns : ℕ → DnsCache → Run ((Set Ip × Set Text) × DnsCache)
  read_dns mtime c = set_new 50000 >>= λ hosts. set_new 1000 >>= λ cnames. elim resolver.lines [
    | none ↦ dummy_cache_entry >>= λ e.
        ok (e, store_dns c (record { mtime = mtime; hosts_ip = hosts; cnames = cnames }))
    | some lines ↦ add_records lines hosts cnames >>= λ x.
        ok (x, store_dns c (record { mtime = mtime; hosts_ip = x.0; cnames = x.1 }))
  ]

  pub tinydns_read : DnsCache → Run ((Set Ip × Set Text) × DnsCache)
  tinydns_read c = elim resolver.stat [
    | none ↦ dummy_cache_entry >>= λ e. ok (e, c)
    | some mtime ↦ elim c.entry [
      | none ↦ read_dns mtime c
      | some e ↦ if e.mtime == mtime then ok ((e.hosts_ip, e.cnames), c) else read_dns mtime c
    ]
  ]

  -- Every element has an address: a null one, which is only copied here, is followed by the callers.
  pub ip_hosts : Chain Ip → Run (List IpHost)
  ip_hosts [] = ok []
  ip_hosts (e ∷ es) = elim e.value [
    | none ↦ fault null_pointer
    | some ip ↦ ip_hosts es >>= λ rest. ok (record { hostname = e.name; ip = ip } ∷ rest)
  ]

  pub tinydns_all_ip_hosts : DnsCache → Run (List IpHost × DnsCache)
  tinydns_all_ip_hosts c =
      tinydns_read c >>= λ x. ip_hosts (set_members x.0.0) >>= λ result. ok (result, x.1)

  -- The argument is read without a test that there is one.
  pub rangefunc_ip : List Range → Request → Run (Range × Request)
  rangefunc_ip [] rr = fault null_pointer
  rangefunc_ip (a ∷ _) rr = range_new >>= λ ret.
      add_lookups {S = Unit {0}}
        (λ name w. ok (elim (tinydns_get_ip name) [ none ↦ none | some ip ↦ some ip.str ], w))
        (text "NOTINYDNS") (range_get_hostnames a) ret (rr, tt)
      >>= λ x. ok (x.0, x.1.0)
