-- ===== src/Netblock/Blocks/Cached.antt =====
-- What `read_netblocks` and `netblocks_for_dc` of source/functions/netblock.c keep and give of a file.
use libcrange.Base.{
  ℕ, ◌+◌, ◌≡◌, ◌≤◌, ◌<◌, refl, Text, text, List, none, some, true, false, if◌then◌else◌, length,
  arith, inl,
}
use mathlib.Core.Logic.{⊎_elim}
use libcrange.Base.{ok, fault, null_pointer, ◌>>=◌, Returns}
use libcrange.HashSet.Resize.{size_limit}
use libcrange.HashSet.{Set}
use libcrange.Range.Grouped.{IsGrouped, IsGrouped-ext, set_new-IsGrouped}
use libcrange.Range.Meaning.{Denotes}
use libcrange.Range.{Range}
use libcrange.Request.{Request}
use libcrange.Netblock.{NetColo, netblocks_for_dc}
use libcrange.Netblock.Lookups.{IsSound, cached_range-LooksUp}
use libcrange.Netblock.Tinydns.{Resolver}
use libcrange.Netblock.Blocks.Keyed.{IsKeyed, IsKeyed-ext, set_new-IsKeyed}
use libcrange.Netblock.Blocks.Lines.{Texts, Keys, AllLines}
use libcrange.Netblock.Blocks.Read.{read_block_lines-IsKeyed}
use libcrange.Netblock.Blocks.{BlockFile, NetCaches, read_netblocks, dc_netblocks}

module _ (resolver : Resolver) (file : BlockFile) (c : NetCaches) (empty : c.net_colo ≡ none) where
  --
  pub read_netblocks-IsKeyed :
      (lines : List Text)
      → file.lines ≡ some lines
      → AllLines resolver file lines
      → length lines ≤ size_limit
      → (blocks : Set NetColo) × (nets : Set Range) × (read_netblocks resolver file c
          ≡ ok (
            blocks,
            if c.want_caching then record c { net_colo = some blocks; colo_net = some nets } else c,
          ))
        × IsKeyed blocks (Keys resolver file lines) (length lines)
        × IsGrouped nets (Texts resolver file lines) (length lines)
  unfolding read_netblocks
  read_netblocks-IsKeyed lines opened all few =
      let (s, run₁, keyed) = set_new-IsKeyed in
      let (t, run₂, grouped) = set_new-IsGrouped 0 (omega arith) in
      let (blocks, nets, run, keyed', grouped') =
        read_block_lines-IsKeyed resolver file lines s t _ _ 0 all keyed grouped (omega arith) in
      (
        blocks,
        nets,
        simp (read_netblocks, empty, run₁, ◌>>=◌, run₂, opened, run),
        IsKeyed-ext keyed' (λ k nc. (⊎_elim (λ x. x) (λ x. absurd x), inl)) (omega arith),
        IsGrouped-ext grouped' (λ k q. (⊎_elim (λ x. x) (λ x. absurd x), inl)) (omega arith),
      )

  -- The context caches, the cache of blocks by address is not set, the file is there, and each of its
  -- lines is a comment, has no two fields, or gives a block, with the newline at its end. The lines are
  -- at most 1610612741, and the warnings of the request fewer. Then `netblocks_for_dc` runs without a
  -- fault and returns exactly the texts of the blocks that the lines give the data centre. The warnings
  -- of the request stay well-formed.
  pub dc_netblocks-Texts :
      (lines : List Text) (dc : Text) (rr : Request) (m : ℕ)
      → c.want_caching ≡ true
      → file.lines ≡ some lines
      → AllLines resolver file lines
      → length lines ≤ size_limit
      → IsSound m rr
      → m < size_limit
      → Returns
          (dc_netblocks resolver file c dc rr)
          λ x. Denotes x.0 (Texts resolver file lines dc) (length lines) × IsSound (m + 1) x.1
  unfolding dc_netblocks netblocks_for_dc
  dc_netblocks-Texts lines dc rr m caching opened all few sound room =
      let (blocks, nets, run, _, grouped) = read_netblocks-IsKeyed lines opened all few in
      let (x, run', found) =
        cached_range-LooksUp nets (text "NO_DC") _ _ grouped dc rr m sound room in
      (
        (x.0, x.1, record c { net_colo = some blocks; colo_net = some nets }),
        simp (run, ◌>>=◌, caching, run'),
        found,
      )

  -- For a context that does not cache, where neither cache of blocks is set and the file is there, with
  -- lines that are comments, have no two fields or give a block, with the newline at their end, at most
  -- 1610612741 of them, `netblocks_for_dc` follows a null pointer.
  pub dc_netblocks_uncached :
      (lines : List Text) (dc : Text) (rr : Request)
      → c.want_caching ≡ false
      → c.colo_net ≡ none
      → file.lines ≡ some lines
      → AllLines resolver file lines
      → length lines ≤ size_limit
      → dc_netblocks resolver file c dc rr ≡ fault null_pointer
  unfolding dc_netblocks
  dc_netblocks_uncached lines dc rr not_caching unset opened all few =
      let (blocks, nets, run, _, _) = read_netblocks-IsKeyed lines opened all few in
      simp (dc_netblocks, run, ◌>>=◌, not_caching, unset)

  -- Where neither cache of blocks is set and the file cannot be opened, `netblocks_for_dc` looks up the
  -- data centre in a null set.
  pub dc_netblocks_unreadable :
      (dc : Text) (rr : Request)
      → c.colo_net ≡ none
      → file.lines ≡ none
      → dc_netblocks resolver file c dc rr ≡ fault null_pointer
  unfolding dc_netblocks read_netblocks
  dc_netblocks_unreadable dc rr unset missing =
      let (s, run₁, _) = set_new-IsKeyed in
      let (t, run₂, _) = set_new-IsGrouped 0 (omega arith) in
      rw (read_netblocks, empty, run₁, ◌>>=◌, run₂, missing, run₁, unset) refl
