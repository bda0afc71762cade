-- ===== src/Netblock.antt =====
-- Network blocks and data centres: source/functions/netblock.c, source/functions/hosts-netblocks.c and
-- source/functions/yst-ip-list.c. What they read from files and the configuration is a parameter.
pub mod Longest
pub mod Hosts
pub mod Filled
pub mod Lookups
pub mod Tinydns
pub mod Blocks
mod Tests
use Prim.Native.Nat.{bit_and}
use libcrange.Base.{
  ℕ, zero, suc, ◌+◌, ◌-◌, ◌/◌, ◌%◌, ◌^◌, Text, text, List, [], ◌∷◌, ◌++◌, Option, none, some, Bool,
  true, false, if◌then◌else◌, ltb, ◌==◌, length, take, drop, str_eq,
}
use libcrange.Base.{Run, ok, fault, out_of_bounds, null_pointer, ◌>>=◌}
use libcrange.HashSet.Bucket.{Element}
use libcrange.HashSet.{Set, set_new, set_add, set_add_noresize, set_get, set_get_data}
use libcrange.Range.Decimal.{itoa}
use libcrange.Range.{
  Range, range_new, range_add, range_get_hostnames, range_union_inplace, validate_range_args,
}
use libcrange.Request.{Request, range_request_warn_type}

pub record Ip : Type 0 where
  pub binary : ℕ
  pub str : Text

-- `netblock`, with its own name for the text
pub record Block : Type 0 where
  pub base : ℕ
  pub bits : ℕ
  pub str : Text

pub record NetColo : Type 0 where
  pub net : Block
  pub colo : Text

pub record IpHost : Type 0 where
  pub ip : Ip
  pub hostname : Text

-- a digit of `%x`
pub hex_digit : ℕ → ℕ
hex_digit d = if ltb d 10 then 48 + d else 87 + d

-- `%x` of a number below 16 ^ (fuel + 1): an `unsigned` has at most eight digits
pub hex : ℕ → ℕ → Text
hex zero n = hex_digit (n % 16) ∷ []
hex (suc fuel) n =
    let rest = hex fuel (n / 16) in
    if ltb n 16 then hex_digit n ∷ [] else rest ++ hex_digit (n % 16) ∷ []

-- `"%x/%d"`
pub key_of : ℕ → ℕ → Text
key_of base bits = hex 7 base ++ (47 ∷ itoa bits)

-- `netblock_key`, whose buffers of 32 bytes hold every key
pub netblock_key : Block → Text
netblock_key block = key_of block.base block.bits

-- `IMASK(n)` as an `unsigned`, for 1 to 32 bits. For one bit the source shifts into the sign of an `int`,
-- where this is the value of a machine that wraps around.
pub imask : ℕ → ℕ
imask n = 2 ^ 32 - 2 ^ (32 - n)

-- the key of the block with a prefix of `bits` bits that holds the address
pub address_key : ℕ → ℕ → Text
address_key bin_ip bits = key_of (bit_and bin_ip (imask bits)) bits

-- `if (elt) return elt->data;`, and what the loop gives behind it
abbrev pub value_or : Option (Element NetColo) → Option NetColo → Option NetColo
value_or none rest = rest
value_or (some elt) rest = elt.value

-- `for (bits = 32; bits > 0; --bits)`, with `bits` to go
pub seek_netcolo : Set NetColo → ℕ → ℕ → Option NetColo
seek_netcolo netblocks bin_ip zero = none
seek_netcolo netblocks bin_ip (suc bits) =
    let rest = seek_netcolo netblocks bin_ip bits in
    value_or (set_get netblocks (address_key bin_ip (suc bits))) rest

pub netcolo_for_ip : Set NetColo → Ip → Option NetColo
netcolo_for_ip netblocks node_ip = seek_netcolo netblocks node_ip.binary 32

-- the four caches of source/functions/hosts-netblocks.c
pub record Caches : Type 0 where
  pub hosts_netblocks : Set Block
  pub hosts_dc : Set Text
  pub netblock_hosts : Set Range
  pub datacenter_hosts : Set Range

-- The range under a key, an empty one if there is none, gets one more host.
pub add_to_group : Set Range → Text → Text → Run (Set Range)
add_to_group groups key host = elim (set_get groups key) [
  | none ↦ range_new >>= λ r. set_add groups key (some r) >>= λ g.
      range_add r host >>= λ r'. ok (set_add_noresize g key (some r'))
  | some elt ↦ elim elt.value [
    | none ↦ fault null_pointer
    | some r ↦ range_add r host >>= λ r'. ok (set_add_noresize groups key (some r'))
  ]
]

-- The name without a dot at its end: for an empty name the byte before the buffer is read.
pub drop_dot : Text → Run Text
drop_dot name =
    if length name == 0
    then fault out_of_bounds
    else ok (
        if str_eq (drop (length name - 1) name) (text ".")
        then take (length name - 1) name
        else name)

-- The name without the default domain and the byte before it.
pub drop_domain : Option Text → Text → Text
drop_domain none name = name
drop_domain (some domain) name =
    let rest = length name - length domain in
    if ltb (length domain) (length name)
    then (if str_eq (drop rest name) domain then take (rest - 1) name else name)
    else name

-- One host of the loop of `init_caches`: its name fits a buffer of 512 bytes.
pub add_host : Set NetColo → Option Text → IpHost → Caches → Run Caches
add_host netblocks default_domain iph caches = elim (netcolo_for_ip netblocks iph.ip) [
  | none ↦ ok caches
  | some nc ↦ drop_dot (take 511 iph.hostname) >>= λ name.
      let short_hostname = drop_domain default_domain name in
      set_add caches.hosts_netblocks short_hostname (some nc.net) >>= λ hn.
      set_add hn iph.ip.str (some nc.net) >>= λ hn'.
      set_add caches.hosts_dc short_hostname (some nc.colo) >>= λ hd.
      set_add hd iph.ip.str (some nc.colo) >>= λ hd'.
      add_to_group caches.netblock_hosts (netblock_key nc.net) short_hostname >>= λ nh.
      add_to_group caches.datacenter_hosts nc.colo short_hostname >>= λ dh.
      ok (record {
        hosts_netblocks = hn';
        hosts_dc = hd';
        netblock_hosts = nh;
        datacenter_hosts = dh;
      })
]

pub add_hosts : Set NetColo → Option Text → List IpHost → Caches → Run Caches
add_hosts netblocks default_domain [] caches = ok caches
add_hosts netblocks default_domain (iph ∷ hosts) caches =
    add_host netblocks default_domain iph caches >>= λ c. add_hosts netblocks default_domain hosts c

-- the four sets that `init_caches` makes
pub fill_caches : Set NetColo → Option Text → List IpHost → Run Caches
fill_caches netblocks default_domain all_hosts = set_new 100000 >>= λ hn. set_new 100000 >>= λ hd.
    set_new 1500 >>= λ nh. set_new 0 >>= λ dh.
    add_hosts netblocks default_domain all_hosts
      (record { hosts_netblocks = hn; hosts_dc = hd; netblock_hosts = nh; datacenter_hosts = dh })

-- What the context has: whether it caches, what `read_netblocks` gives, the default domain, the hosts, and
-- the four caches, which are set together.
pub record HostContext : Type 0 where
  pub want_caching : Bool
  pub netblocks : Set NetColo
  pub default_domain : Option Text
  pub all_hosts : List IpHost
  pub stored : Option Caches

-- `libcrange_set_cache` stores the sets only where the context caches.
pub init_caches : HostContext → Run HostContext
init_caches h = fill_caches h.netblocks h.default_domain h.all_hosts >>= λ c.
    ok (if h.want_caching then record h { stored = some c } else h)

-- `hosts_netblocks`, `netblock_hosts`, `datacenter_hosts` and `hosts_dc` with the `set_get` behind them,
-- which follows a null pointer where the caches are still not there
pub find_caches : HostContext → Run (Caches × HostContext)
find_caches h = elim h.stored [
  | some c ↦ ok (c, h)
  | none ↦
      init_caches h >>= λ h'. elim h'.stored [ some c ↦ ok (c, h') | none ↦ fault null_pointer ]
]

-- The range that a cache holds under a key: `netblocks_for_dc`, `hosts_in_netblock` and `hosts_in_dc`,
-- each with its type of warning.
pub cached_range : Set Range → Text → Text → Request → Run (Range × Request)
cached_range cache warning key rr = elim (set_get cache key) [
  | some elt ↦ elim elt.value [ none ↦ fault null_pointer | some r ↦ ok (r, rr) ]
  | none ↦ range_request_warn_type rr warning key >>= λ rr'. range_new >>= λ r. ok (r, rr')
]

pub netblocks_for_dc : Set Range → Text → Request → Run (Range × Request)
netblocks_for_dc colo_nets = cached_range colo_nets (text "NO_DC")

pub hosts_in_netblock : Text → Request × HostContext → Run (Range × (Request × HostContext))
hosts_in_netblock key (rr, h) = find_caches h >>= λ x.
    cached_range x.0.netblock_hosts (text "NETBLOCK_NOT_FOUND") key rr >>= λ y. ok (y.0, (y.1, x.1))

pub hosts_in_dc : Text → Request × HostContext → Run (Range × (Request × HostContext))
hosts_in_dc dc (rr, h) = find_caches h >>= λ x.
    cached_range x.0.datacenter_hosts (text "DC_NOT_FOUND") dc rr >>= λ y. ok (y.0, (y.1, x.1))

pub netblock_for_host : Text → HostContext → Run (Option Block × HostContext)
netblock_for_host host h = find_caches h >>= λ x. ok (set_get_data x.0.hosts_netblocks host, x.1)

pub dc_for_host : Text → HostContext → Run (Option Text × HostContext)
dc_for_host host h = find_caches h >>= λ x. ok (set_get_data x.0.hosts_dc host, x.1)

-- The union of what a lookup gives for each member.
pub union_lookups :
    {S : Type 0} → (Text → S → Run (Range × S)) → List Text → Range → S → Run (Range × S)
union_lookups lookup [] result w = ok (result, w)
union_lookups lookup (member ∷ members) result w = lookup member w >>= λ x.
    range_union_inplace result x.0 >>= λ result'. union_lookups lookup members result' x.1

-- The data of each member are added, or it is recorded with a type of warning.
pub add_lookups :
    {S : Type 0}
    → (Text → S → Run (Option Text × S))
    → Text
    → List Text
    → Range
    → Request × S
    → Run (Range × (Request × S))
add_lookups lookup warning [] ret (rr, h) = ok (ret, (rr, h))
add_lookups lookup warning (node ∷ nodes) ret (rr, h) = lookup node h >>= λ x. elim x.0 [
  | some found ↦ range_add ret found >>= λ ret'. add_lookups lookup warning nodes ret' (rr, x.1)
  | none ↦ range_request_warn_type rr warning node >>= λ rr'.
      add_lookups lookup warning nodes ret (rr', x.1)
]

-- A function of one argument: for another number of arguments its result is empty.
pub one_argument :
    {S : Type 0} → List Range → S → (List Text → Range → Run (Range × S)) → Run (Range × S)
one_argument [] w body = range_new >>= λ result. ok (result, w)
one_argument (r ∷ others) w body = range_new >>= λ result.
    validate_range_args (r ∷ others) 1 >>= λ valid.
    if valid then body (range_get_hostnames r) result else ok (result, w)

-- `netblocks_for_dc` stands with the file of blocks.
pub rangefunc_vlans_dc :
    {S : Type 0} → (Text → S → Run (Range × S)) → S → List Range → Run (Range × S)
rangefunc_vlans_dc netblocks_for_dc w r =
    one_argument r w (λ members result. union_lookups netblocks_for_dc members result w)

pub rangefunc_hosts_dc : Request × HostContext → List Range → Run (Range × (Request × HostContext))
rangefunc_hosts_dc w r =
    one_argument r w (λ members result. union_lookups hosts_in_dc members result w)

-- `netblock_from_string` reads a member by patterns of PCRE, and aborts where none matches.
pub rangefunc_hosts_v :
    (Text → Run Block) → Request × HostContext → List Range → Run (Range × (Request × HostContext))
rangefunc_hosts_v netblock_from_string w r = one_argument r w (λ members result.
    union_lookups
      (λ net w'. netblock_from_string net >>= λ blk. hosts_in_netblock (netblock_key blk) w')
      members result w)

pub block_str : Text → HostContext → Run (Option Text × HostContext)
block_str node h =
    netblock_for_host node h >>= λ x. ok (elim x.0 [ none ↦ none | some b ↦ some b.str ], x.1)

pub rangefunc_vlan : Request × HostContext → List Range → Run (Range × (Request × HostContext))
rangefunc_vlan w r = one_argument r w (λ members ret.
    add_lookups block_str (text "HOST_NO_NETBLOCK") members (record ret { quoted = true }) w)

pub rangefunc_dc : Request × HostContext → List Range → Run (Range × (Request × HostContext))
rangefunc_dc w r =
    one_argument r w (λ members ret. add_lookups dc_for_host (text "NO_COLO") members ret w)
