-- ===== src/Netblock/Filled.antt =====
-- The four sets that `init_caches` of source/functions/hosts-netblocks.c fills.
use mathlib.Core.Logic.{⊎_elim}
use libcrange.Base.{
  ℕ, ◌+◌, ◌-◌, ◌*◌, ◌≡◌, ◌≤◌, ◌<◌, refl, Text, List, [], ◌∷◌, Option, some, arith, length, take,
  ◌⊎◌, inl, inr, Option-cases, ◌==◌, false, drop, text, str_eq, if◌then◌else◌,
}
use libcrange.Base.{ok, ◌>>=◌, Returns}
use libcrange.HashSet.Resize.{Models, size_limit, set_new-Models}
use libcrange.HashSet.Laws.{self-Models, set_add-Models}
use libcrange.HashSet.{Set, set_add, set_get}
use libcrange.Range.Grouped.{IsGrouped, IsGrouped-ext, set_new-IsGrouped, One, old_group, new_group}
use libcrange.Range.{Range}
use libcrange.Netblock.{
  Block, NetColo, IpHost, Caches, netblock_key, netcolo_for_ip, add_to_group, drop_dot, drop_domain,
  add_host, add_hosts, fill_caches,
}
use libcrange.Netblock.Hosts.{Lies, HostsBy, AllNamed, within, outside}

pub add_to_group-IsGrouped :
    (groups : Set Range) (key host : Text) (W : Text → Text → Type 0) (n : ℕ)
    → IsGrouped groups W n
    → n < size_limit
    → Returns (add_to_group groups key host) (λ g. IsGrouped g (One key host W) (n + 1))
unfolding add_to_group
add_to_group-IsGrouped groups key host W n g room = elim (Option-cases (set_get groups key)) [
  | inr (e, found) ↦
      let (r, there, (r', run, added)) = old_group groups key host e W n g room found in
      (_, rw (add_to_group, found, there, run) refl, added)
  | inl absent ↦
      let (r, made, (g', run, (r', run', added))) =
        new_group groups key host (λ r. r) W n (λ r P k d. d) g room absent in
      (_, rw (add_to_group, absent, made, ◌>>=◌, run, run') refl, added)
]

-- The caches are well-formed after `n` hosts, and hold the hosts by the relations `B` and `C`.
pub record IsCached (c : Caches) (B C : Text → Text → Type 0) (n : ℕ) : Type 0 where
  pub blocks : Models c.hosts_netblocks (set_get c.hosts_netblocks)
  pub few_blocks : c.hosts_netblocks.members ≤ 2 * n
  pub dcs : Models c.hosts_dc (set_get c.hosts_dc)
  pub few_dcs : c.hosts_dc.members ≤ 2 * n
  pub by_block : IsGrouped c.netblock_hosts B n
  pub by_dc : IsGrouped c.datacenter_hosts C n

IsCached-ext :
    {c : Caches} {B C B' C' : Text → Text → Type 0} {n m : ℕ}
    → IsCached c B C n
    → ((k q : Text) → (B k q → B' k q) × (B' k q → B k q))
    → ((k q : Text) → (C k q → C' k q) × (C' k q → C k q))
    → n ≤ m
    → IsCached c B' C' m
IsCached-ext h blocks_same dcs_same le = record {
  blocks = h.blocks;
  few_blocks = omega (arith, h.few_blocks);
  dcs = h.dcs;
  few_dcs = omega (arith, h.few_dcs);
  by_block = IsGrouped-ext h.by_block blocks_same le;
  by_dc = IsGrouped-ext h.by_dc dcs_same le;
}

-- two names for one datum
twice_added {ℓ} :
    {D : Type ℓ} (s : Set D) (a b : Text) (v : Option D) (n : ℕ)
    → Models s (set_get s)
    → s.members ≤ 2 * n
    → 2 * n + 2 ≤ size_limit
    → Returns
        (set_add s a v)
        λ s'. Returns (set_add s' b v) λ s''. Models s'' (set_get s'') × (s''.members ≤ 2 * (n + 1))
twice_added s a b v n m few room =
    let (s', run, (m', count, _)) = set_add-Models s a v m (omega arith) in
    let (s'', run', (m'', count', _)) = set_add-Models s' b v m' (omega (arith, count)) in
    (s', run, (s'', run', (self-Models m'', omega (arith, count, count'))))

drop_dot_named : (t : Text) → 0 < length t → (name : Text) × (drop_dot t ≡ ok name)
unfolding drop_dot
drop_dot_named t h =
    let some_byte : (length t == 0) ≡ false = ground arith in
    (if str_eq (drop (length t - 1) t) (text ".") then take (length t - 1) t else t, rw some_byte)

short_name :
    (hostname : Text)
    → 0 < length hostname
    → (name : Text) × (drop_dot (take 511 hostname) ≡ ok name)
short_name [] h = absurd (omega arith)
short_name (c ∷ hostname) h = drop_dot_named (take 511 (c ∷ hostname)) (omega arith)

add_host-IsCached :
    (netblocks : Set NetColo) (default_domain : Option Text) (iph : IpHost) (c : Caches)
    (B C : Text → Text → Type 0) (n : ℕ)
    → IsCached c B C n
    → 0 < length iph.hostname
    → 2 * n + 2 ≤ size_limit
    → Returns (add_host netblocks default_domain iph c) λ c'.
      IsCached c'
        (λ k q. Lies netblocks default_domain (λ nc. netblock_key nc.net) iph k q ⊎ B k q)
        (λ k q. Lies netblocks default_domain (λ nc. nc.colo) iph k q ⊎ C k q)
        (n + 1)
unfolding add_host
add_host-IsCached netblocks default_domain iph c B C n h named room =
    elim (Option-cases (netcolo_for_ip netblocks iph.ip)) [
      | inl nowhere ↦ (
        c,
        rw (add_host, nowhere) refl,
        IsCached-ext h
            (λ k q.
              outside netblocks default_domain (λ x. netblock_key x.net) iph k q (B k q) nowhere)
            (λ k q. outside netblocks default_domain (λ x. x.colo) iph k q (C k q) nowhere)
            (omega arith),
      )
      | inr (nc, inside) ↦
          let (name, dropped) = short_name iph.hostname named in
          let short = drop_domain default_domain name in
          let (hn', run₁, (hn, run₂, (m, few))) =
            twice_added c.hosts_netblocks short iph.ip.str (some nc.net) n h.blocks h.few_blocks
              room in
          let (hd', run₃, (hd, run₄, (m', few'))) =
            twice_added c.hosts_dc short iph.ip.str (some nc.colo) n h.dcs h.few_dcs room in
          let (nh, run₅, by_block) =
            add_to_group-IsGrouped c.netblock_hosts (netblock_key nc.net) short B n h.by_block
              (omega arith) in
          let (dh, run₆, by_dc) =
            add_to_group-IsGrouped c.datacenter_hosts nc.colo short C n h.by_dc (omega arith) in
          (
            record {
              hosts_netblocks = hn;
              hosts_dc = hd;
              netblock_hosts = nh;
              datacenter_hosts = dh;
            },
            rw (add_host, inside, dropped, ◌>>=◌, run₁, run₂, run₃, run₄, run₅, run₆) refl,
            record {
              blocks = m;
              few_blocks = few;
              dcs = m';
              few_dcs = few';
              by_block =
                  IsGrouped-ext by_block
                    (λ k q.
                      within netblocks default_domain (λ x. netblock_key x.net) iph nc name k q
                        (B k q) inside dropped)
                    (omega arith);
              by_dc =
                  IsGrouped-ext by_dc
                    (λ k q.
                      within netblocks default_domain (λ x. x.colo) iph nc name k q (C k q) inside
                        dropped)
                    (omega arith);
            },
          )
    ]

add_hosts-IsCached :
    (netblocks : Set NetColo) (default_domain : Option Text) (hosts : List IpHost) (c : Caches)
    (B C : Text → Text → Type 0) (n : ℕ)
    → IsCached c B C n
    → AllNamed hosts
    → 2 * (n + length hosts) ≤ size_limit
    → Returns (add_hosts netblocks default_domain hosts c) λ c'.
      IsCached c'
        (λ k q. HostsBy netblocks default_domain (λ nc. netblock_key nc.net) hosts k q ⊎ B k q)
        (λ k q. HostsBy netblocks default_domain (λ nc. nc.colo) hosts k q ⊎ C k q)
        (n + length hosts)
unfolding add_hosts AllNamed HostsBy
add_hosts-IsCached netblocks default_domain [] c B C n h named room = (
  c,
  refl,
  IsCached-ext h (λ k q. (inr, ⊎_elim (λ x. absurd x) (λ b. b)))
      (λ k q. (inr, ⊎_elim (λ x. absurd x) (λ b. b))) (omega arith),
)
add_hosts-IsCached netblocks default_domain (iph ∷ hosts) c B C n h named room =
    let (c', run, h') =
      add_host-IsCached netblocks default_domain iph c B C n h named.0 (omega arith) in
    let (c'', run', h'') =
      add_hosts-IsCached netblocks default_domain hosts c' _ _ (n + 1) h' named.1 (omega arith) in
    (
      c'',
      rw (run, ◌>>=◌, run') refl,
      IsCached-ext h'' (λ k q. (ground arith, ground arith)) (λ k q. (ground arith, ground arith))
          (omega arith),
    )

-- For hosts whose names are not empty, at most 805306370 of them, `fill_caches` runs without a fault,
-- and its caches hold, in well-formed ranges, exactly the hosts of each block under the key of the
-- block, and exactly the hosts of each data centre under its name.
pub fill_caches-HostsBy :
    (netblocks : Set NetColo) (default_domain : Option Text) (all_hosts : List IpHost)
    → AllNamed all_hosts
    → 2 * length all_hosts ≤ size_limit
    → Returns (fill_caches netblocks default_domain all_hosts) λ c.
      IsGrouped c.netblock_hosts
        (HostsBy netblocks default_domain (λ nc. netblock_key nc.net) all_hosts)
        (length all_hosts)
      × IsGrouped c.datacenter_hosts
          (HostsBy netblocks default_domain (λ nc. nc.colo) all_hosts)
          (length all_hosts)
unfolding fill_caches
fill_caches-HostsBy netblocks default_domain all_hosts named room =
    let (hn, run₁, (m, _, empty)) = set_new-Models {D = Block} 100000 (omega arith) in
    let (hd, run₂, (m', _, empty')) = set_new-Models {D = Text} 100000 (omega arith) in
    let (nh, run₃, g) = set_new-IsGrouped 1500 (omega arith) in
    let (dh, run₄, g') = set_new-IsGrouped 0 (omega arith) in
    let start : IsCached
        (record { hosts_netblocks = hn; hosts_dc = hd; netblock_hosts = nh; datacenter_hosts = dh })
        (λ _ _. ⊥) (λ _ _. ⊥) 0 =
      record {
        blocks = self-Models m;
        few_blocks = omega arith;
        dcs = self-Models m';
        few_dcs = omega arith;
        by_block = g;
        by_dc = g';
      } in
    let (c, run, h) =
      add_hosts-IsCached netblocks default_domain all_hosts _ _ _ 0 start named (omega arith) in
    (
      c,
      rw (run₁, ◌>>=◌, run₂, run₃, run₄, run) refl,
      (
        IsGrouped-ext h.by_block (λ k q. (⊎_elim (λ b. b) (λ x. absurd x), inl)) (omega arith),
        IsGrouped-ext h.by_dc (λ k q. (⊎_elim (λ b. b) (λ x. absurd x), inl)) (omega arith),
      ),
    )
