-- ===== src/Netblock/Blocks.antt =====
-- The list of network blocks of source/functions/netblock.c: its file, its lines and its two caches. The
-- patterns that PCRE matches, `sscanf` and the file are parameters.
pub mod Keyed
pub mod Lines
pub mod Read
pub mod Cached
mod Tests
use libcrange.Base.{
  ℕ, ◌+◌, Text, text, List, [], ◌∷◌, ◌++◌, Option, none, some, Bool, true, false, ◌&&◌, ◌||◌,
  if◌then◌else◌, leb, ◌==◌, length, ends_in_newline,
}
use libcrange.Base.{Run, ok, fault, out_of_bounds, null_pointer, exits, ◌>>=◌}
use libcrange.HashSet.{Set, set_new, set_add, set_add_noresize, set_get}
use libcrange.Range.Decimal.{atoi}
use libcrange.Range.{Range, range_new, range_add}
use libcrange.Request.{Request}
use libcrange.Netblock.{Block, NetColo, netblock_key, netblocks_for_dc}
use libcrange.Netblock.Tinydns.{Resolver, str2ip}

-- The captures of TWO_FIELDS_RE and NETMASK_RE, and the match of IP_RE. The lines of the file that
-- `yst_ip_list` names are as `fgets` gives them, `none` where it cannot be opened.
pub record BlockFile : Type 0 where
  pub two_fields_re : Text → Option (Text × Text)
  pub netmask_re : Text → Option (Text × Text)
  pub ip_re : Text → Option Text
  pub lines : Option (List Text)

-- the caches NET_COLO_CACHE and COLO_NET_CACHE, `none` where they are not set
pub record NetCaches : Type 0 where
  pub want_caching : Bool
  pub net_colo : Option (Set NetColo)
  pub colo_net : Option (Set Range)

-- `isspace`
abbrev pub is_blank : ℕ → Bool
is_blank c = c == 32 || leb 9 c && leb c 13

-- `while (*p && isspace(*p)) ++p;`
pub skip_space : Text → Text
skip_space [] = []
skip_space (c ∷ p) = let rest = skip_space p in if is_blank c then rest else c ∷ p

-- `*p == '#'`
pub is_comment : Text → Bool
is_comment [] = false
is_comment (c ∷ p) = c == b'#'

-- the text of a block is put into the range of its data centre
pub add_colo_net : Set Range → Text → Text → Run (Set Range)
add_colo_net colo_nets colo str = elim (set_get colo_nets colo) [
  | none ↦ range_new >>= λ r. set_add colo_nets colo (some (record r { quoted = true })) >>= λ s.
      range_add (record r { quoted = true }) str >>= λ r'. ok (set_add_noresize s colo (some r'))
  | some elt ↦ elim elt.value [
    | none ↦ fault null_pointer
    | some r ↦ range_add r str >>= λ r'. ok (set_add_noresize colo_nets colo (some r'))
  ]
]

module _ (resolver : Resolver) (file : BlockFile) where
  -- `abort` stops the program on a text of another form.
  pub netblock_from_string : Text → Run Block
  netblock_from_string netmask = elim (file.netmask_re netmask) [
    | some (base, bits) ↦
        atoi bits >>= λ n. ok (record { base = str2ip resolver base; bits = n; str = netmask })
    | none ↦ elim (file.ip_re netmask) [
      | none ↦ fault exits
      | some base ↦
          ok (record { base = str2ip resolver base; bits = 32; str = netmask ++ text "/32" })
    ]
  ]

  -- one line with two fields
  pub add_block : Text → Text → Set NetColo → Set Range → Run (Set NetColo × Set Range)
  add_block colo netblock_str result colo_nets = netblock_from_string netblock_str >>= λ net.
      set_add result (netblock_key net) (some (record { net = net; colo = colo })) >>= λ result'.
      add_colo_net colo_nets colo net.str >>= λ colo_nets'. ok (result', colo_nets')

  -- The loop over the lines: `none` where a line is too long. An empty line has no last byte to read.
  pub read_block_lines :
      List Text → Set NetColo → Set Range → Run (Option (Set NetColo × Set Range))
  read_block_lines [] result colo_nets = ok (some (result, colo_nets))
  read_block_lines (line ∷ lines) result colo_nets =
      let p = skip_space line in
      let skip = read_block_lines lines result colo_nets in
      let next : Set NetColo × Set Range → Run (Option (Set NetColo × Set Range)) =
        λ x. read_block_lines lines x.0 x.1 in
      if is_comment p
      then skip
      else (if length line == 0
          then fault out_of_bounds
          else (if ends_in_newline line
              then elim (file.two_fields_re p) [
                | none ↦ skip
                | some (colo, str) ↦ add_block colo str result colo_nets >>= next
              ]
              else ok none))

  pub read_netblocks : NetCaches → Run (Set NetColo × NetCaches)
  read_netblocks c = elim c.net_colo [
    | some result ↦ ok (result, c)
    | none ↦ set_new 0 >>= λ result. set_new 0 >>= λ colo_nets. elim file.lines [
      | none ↦ set_new 0 >>= λ empty. ok (empty, c)
      | some lines ↦ read_block_lines lines result colo_nets >>= λ done. elim done [
        | none ↦ set_new 0 >>= λ empty. ok (empty, c)
        | some (blocks, nets) ↦ ok (
          blocks,
          if c.want_caching then record c { net_colo = some blocks; colo_net = some nets } else c,
        )
      ]
    ]
  ]

  -- `netblocks_for_dc` with the reading of the caches: `set_get` follows a null pointer where
  -- COLO_NET_CACHE is not set, as always where the context does not cache.
  pub dc_netblocks : NetCaches → Text → Request → Run (Range × Request × NetCaches)
  dc_netblocks c dc rr = read_netblocks c >>= λ x. elim x.1.colo_net [
    | none ↦ fault null_pointer
    | some colo_nets ↦ netblocks_for_dc colo_nets dc rr >>= λ y. ok (y.0, y.1, x.1)
  ]
