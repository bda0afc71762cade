-- ===== src/Netblock/Blocks/Read.antt =====
-- The loop of `read_netblocks` of source/functions/netblock.c over the lines of its file.
use mathlib.Core.Logic.{⊎_elim}
use mathlib.Core.Option.{none-ne-some}
use mathlib.Core.Bool.{true≢false}
use libcrange.Base.{
  ℕ, ◌+◌, ◌≡◌, ◌≤◌, ◌<◌, refl, sym, ◌∙◌, Text, List, [], ◌∷◌, some, true, false, arith, length,
  ◌==◌, ◌⊎◌, inl, inr, Option-cases,
}
use libcrange.Base.{ok, ◌>>=◌, Returns}
use libcrange.HashSet.Resize.{size_limit}
use libcrange.HashSet.{Set, set_get}
use libcrange.Range.Grouped.{IsGrouped, IsGrouped-ext, One, old_group, new_group}
use libcrange.Range.Meaning.{set_quoted}
use libcrange.Range.{Range}
use libcrange.Netblock.{NetColo, netblock_key}
use libcrange.Netblock.Tinydns.{Resolver}
use libcrange.Netblock.Blocks.Lines.{
  Texts, Keys, comment, other, given, AllLines, skipped-Texts, skipped-Keys, given-Texts,
  given-Keys,
}
use libcrange.Netblock.Blocks.Keyed.{IsKeyed, IsKeyed-ext, set_add-IsKeyed}
use libcrange.Netblock.Blocks.{BlockFile, add_colo_net, add_block, read_block_lines}

add_colo_net-IsGrouped :
    (nets : Set Range) (colo str : Text) (W : Text → Text → Type 0) (n : ℕ)
    → IsGrouped nets W n
    → n < size_limit
    → Returns (add_colo_net nets colo str) (λ g. IsGrouped g (One colo str W) (n + 1))
unfolding add_colo_net
add_colo_net-IsGrouped nets colo str W n g room = elim (Option-cases (set_get nets colo)) [
  | inr (e, found) ↦
      let (r, there, (r', run, added)) = old_group nets colo str e W n g room found in
      (_, rw (add_colo_net, found, there, run) refl, added)
  | inl absent ↦
      let (r, made, (g', run, (r', run', added))) =
        new_group nets colo str (λ r. record r { quoted = true }) W n (λ r P k d. set_quoted true d)
          g room absent in
      (_, rw (add_colo_net, absent, made, ◌>>=◌, run, run') refl, added)
]

module _ (resolver : Resolver) (file : BlockFile) where
  pub read_block_lines-IsKeyed :
      (lines : List Text) (result : Set NetColo) (nets : Set Range) (M : Text → NetColo → Type 0)
      (W : Text → Text → Type 0) (n : ℕ)
      → AllLines resolver file lines
      → IsKeyed result M n
      → IsGrouped nets W n
      → n + length lines ≤ size_limit
      → (result' : Set NetColo) × (nets' : Set Range) × (read_block_lines resolver file lines result
            nets
          ≡ ok (some (result', nets')))
        × IsKeyed result' (λ k nc. Keys resolver file lines k nc ⊎ M k nc) (n + length lines)
        × IsGrouped nets' (λ k q. Texts resolver file lines k q ⊎ W k q) (n + length lines)
  unfolding read_block_lines add_block AllLines Keys Texts
  read_block_lines-IsKeyed [] result nets M W n all keyed grouped room = (
    result,
    nets,
    refl,
    IsKeyed-ext keyed (λ k nc. (inr, ⊎_elim (λ x. absurd x) (λ m. m))) (omega arith),
    IsGrouped-ext grouped (λ k q. (inr, ⊎_elim (λ x. absurd x) (λ w. w))) (omega arith),
  )
  read_block_lines-IsKeyed (line ∷ lines) result nets M W n (comment _ c, all) keyed grouped room =
      let (result', nets', run, keyed', grouped') =
        read_block_lines-IsKeyed lines result nets M W n all keyed grouped (omega arith) in
      (
        result',
        nets',
        rw c run,
        IsKeyed-ext keyed'
            (λ k nc.
              skipped-Keys resolver file line lines (λ x b g. true≢false (sym c ∙ g.no_comment)) k
                nc (M k nc))
            (omega arith),
        IsGrouped-ext grouped'
            (λ k q.
              skipped-Texts resolver file line lines (λ x b g. true≢false (sym c ∙ g.no_comment)) k
                q (W k q))
            (omega arith),
      )
  read_block_lines-IsKeyed (line ∷ lines) result nets M W n (other _ c some_byte ends none_of, all)
        keyed grouped room =
      let present : (length line == 0) ≡ false = ground arith in
      let (result', nets', run, keyed', grouped') =
        read_block_lines-IsKeyed lines result nets M W n all keyed grouped (omega arith) in
      (
        result',
        nets',
        rw (c, present, ends, none_of) run,
        IsKeyed-ext keyed'
            (λ k nc.
              skipped-Keys resolver file line lines
                (λ x b g. none-ne-some _ (sym none_of ∙ g.fields)) k nc (M k nc))
            (omega arith),
        IsGrouped-ext grouped'
            (λ k q.
              skipped-Texts resolver file line lines
                (λ x b g. none-ne-some _ (sym none_of ∙ g.fields)) k q (W k q))
            (omega arith),
      )
  read_block_lines-IsKeyed (line ∷ lines) result nets M W n (given _ colo b some_byte ends g, all)
        keyed grouped room =
      let present : (length line == 0) ≡ false = ground arith in
      let (s, run₁, keyed₁) =
        set_add-IsKeyed result (netblock_key b) (record { net = b; colo = colo }) M n keyed
          (omega arith) in
      let (t, run₂, grouped₁) = add_colo_net-IsGrouped nets colo b.str W n grouped (omega arith) in
      let (result', nets', run, keyed', grouped') =
        read_block_lines-IsKeyed lines s t _ _ (n + 1) all keyed₁ grouped₁ (omega arith) in
      (
        result',
        nets',
        rw (g.no_comment, present, ends, g.fields, add_block, g.reads, ◌>>=◌, run₁, run₂) run,
        IsKeyed-ext keyed' (λ k nc. given-Keys resolver file line colo b lines g k nc (M k nc))
            (omega arith),
        IsGrouped-ext grouped' (λ k q. given-Texts resolver file line colo b lines g k q (W k q))
            (omega arith),
      )
