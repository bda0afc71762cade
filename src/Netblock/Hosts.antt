-- ===== src/Netblock/Hosts.antt =====
-- The hosts of each block and of each data centre, as `init_caches` of
-- source/functions/hosts-netblocks.c caches them.
use mathlib.Core.Option.{none-ne-some, some-injective}
use libcrange.Base.{
  sym, ap, ◌∙◌, ◌≡◌, ◌<◌, Text, List, [], ◌∷◌, Option, none, some, length, take, ◌⊎◌, inl, inr,
}
use libcrange.Base.{ok}
use libcrange.HashSet.{Set}
use libcrange.Netblock.{NetColo, IpHost, netcolo_for_ip, drop_dot, drop_domain}

-- the name under which a host is cached
abbrev pub ShortName : Option Text → IpHost → Text → Type 0
ShortName default_domain iph q =
    (name : Text) × (drop_dot (take 511 iph.hostname) ≡ ok name)
    × (drop_domain default_domain name ≡ q)

-- The host lies in a block with the key, and has the name.
abbrev pub Lies : Set NetColo → Option Text → (NetColo → Text) → IpHost → Text → Text → Type 0
Lies netblocks default_domain key_of iph k q =
    (nc : NetColo) × (netcolo_for_ip netblocks iph.ip ≡ some nc)
    × (key_of nc ≡ k)
    × ShortName default_domain iph q

-- one of the hosts does
unfoldable pub HostsBy :
    Set NetColo → Option Text → (NetColo → Text) → List IpHost → Text → Text → Type 0
HostsBy netblocks default_domain key_of [] k q = ⊥
HostsBy netblocks default_domain key_of (iph ∷ hosts) k q =
    Lies netblocks default_domain key_of iph k q ⊎ HostsBy netblocks default_domain key_of hosts k q

-- the names of all hosts have a byte
unfoldable pub AllNamed : List IpHost → Type 0
AllNamed [] = Unit
AllNamed (iph ∷ hosts) = (0 < length iph.hostname) × AllNamed hosts

-- a host in a block is added under the key of the block, and one in none is passed over
pub within :
    (netblocks : Set NetColo) (default_domain : Option Text) (key_of : NetColo → Text)
    (iph : IpHost) (nc : NetColo) (name k q : Text) (W : Type 0)
    → netcolo_for_ip netblocks iph.ip ≡ some nc
    → drop_dot (take 511 iph.hostname) ≡ ok name
    → ((key_of nc ≡ k) × (drop_domain default_domain name ≡ q) ⊎ W
        → Lies netblocks default_domain key_of iph k q ⊎ W)
      × (Lies netblocks default_domain key_of iph k q ⊎ W
          → (key_of nc ≡ k) × (drop_domain default_domain name ≡ q) ⊎ W)
within netblocks default_domain key_of iph nc name k q W inside dropped = (
  elim [ inl (at_key, named) ↦ inl (nc, inside, at_key, (name, dropped, named)) | inr w ↦ inr w ],
  elim [
    | inl (nc', inside', at_key, (name', dropped', named)) ↦
        let same : some nc ≡ some nc' = sym inside ∙ inside' in
        let alike : ok name ≡ ok name' = sym dropped ∙ dropped' in
        inl (
          ap key_of (some-injective _ _ same) ∙ at_key,
          ap (drop_domain default_domain) (cc) ∙ named,
        )
    | inr w ↦ inr w
  ],
)

pub outside :
    (netblocks : Set NetColo) (default_domain : Option Text) (key_of : NetColo → Text)
    (iph : IpHost) (k q : Text) (W : Type 0)
    → netcolo_for_ip netblocks iph.ip ≡ none
    → (W → Lies netblocks default_domain key_of iph k q ⊎ W)
      × (Lies netblocks default_domain key_of iph k q ⊎ W → W)
outside netblocks default_domain key_of iph k q W nowhere = (
  inr,
  elim [ inl (nc, inside, _, _) ↦ absurd (none-ne-some nc (sym nowhere ∙ inside)) | inr w ↦ w ],
)
