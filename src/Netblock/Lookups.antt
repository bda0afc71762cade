-- ===== src/Netblock/Lookups.antt =====
-- What the functions of source/functions/hosts-netblocks.c, source/functions/netblock.c and
-- source/functions/yst-ip-list.c give for the keys of their argument: the union of the ranges that a cache
-- holds under them.
use mathlib.Core.Logic.{⊎_elim}
use native.Mathlib.Nat.{suc-mul, mul-le-mul_right}
use libcrange.Base.{
  ℕ, ◌+◌, ◌*◌, ◌≡◌, ◌≤◌, ◌<◌, refl, ◌∙◌, Text, text, List, [], ◌∷◌, none, some, true, false, arith,
  length, ◌⊎◌, inl, inr, Option-cases,
}
use libcrange.Base.{ok, fault, null_pointer, ◌>>=◌, Returns, Run}
use libcrange.HashSet.Resize.{size_limit}
use libcrange.HashSet.{Set, set_get, set_members}
use libcrange.Range.Algebra.{range_union_inplace-Denotes}
use libcrange.Range.Grouped.{IsGrouped, OneOf, listed_head}
use libcrange.Range.Meaning.{
  Denotes, Denotes_ext, range_new-Denotes, set_members-Denotes, hostnames_plain,
}
use libcrange.Range.{Range, range_new, names_of, validate_range_args, has_args}
use libcrange.Request.Warned.{IsWarned, IsWarned-le, range_request_warn_type-IsWarned}
use libcrange.Request.{Request}
use libcrange.Netblock.Hosts.{AllNamed, HostsBy}
use libcrange.Netblock.Filled.{fill_caches-HostsBy}
use libcrange.Netblock.{
  HostContext, init_caches, find_caches, Caches, cached_range, union_lookups, one_argument,
  hosts_in_dc, rangefunc_hosts_dc,
}

-- The request has warnings by type in a well-formed set, at most `m` types and nodes of a type.
unfoldable pub IsSound : ℕ → Request → Type 1
IsSound m rr = (V : Text → Text → Type 0) × IsWarned rr.warn_type V m

IsSound-le : (n m : ℕ) (rr : Request) → IsSound n rr → n ≤ m → IsSound m rr
unfolding IsSound
IsSound-le n m rr (V, h) le = (V, IsWarned-le rr.warn_type V n m h le)

-- A lookup runs without a fault on a state that is good for `m` warnings, gives the names of its key, at
-- most `n`, and warns at most once.
abbrev pub LooksUp :
    {S : Type 0}
    → (ℕ → S → Type 1)
    → (Text → S → Run (Range × S))
    → (Text → Text → Type 0)
    → ℕ
    → Type 1
LooksUp {S} Good lookup W n =
    (key : Text) (w : S) (m : ℕ)
    → Good m w
    → m < size_limit
    → Returns (lookup key w) λ x. Denotes x.0 (W key) n × Good (m + 1) x.1

pub cached_range-LooksUp :
    (cache : Set Range) (warning : Text) (W : Text → Text → Type 0) (n : ℕ)
    → IsGrouped cache W n
    → LooksUp IsSound (cached_range cache warning) W n
unfolding cached_range IsSound
cached_range-LooksUp cache warning W n g key rr m (V, h) room =
    elim (Option-cases (set_get cache key)) [
      | inr (e, found) ↦
          let (r, there, d) = g.entry_names key e found in
          (
            (r, rr),
            rw (cached_range, found, there) refl,
            (d, (V, IsWarned-le rr.warn_type V m (m + 1) h (omega arith))),
          )
      | inl absent ↦
          let (rr', run, (h', _)) = range_request_warn_type-IsWarned rr warning key V m h room in
          let (r, made, (d, _)) = range_new-Denotes in
          (
            (r, rr'),
            rw (cached_range, absent, run, ◌>>=◌, made) refl,
            (Denotes_ext d (λ q. (λ x. absurd x, g.no_names key absent q)) (omega arith), (_, h')),
          )
    ]

module _ {S : Type 0} (Good : ℕ → S → Type 1)
    (good_le : (n m : ℕ) (w : S) → Good n w → n ≤ m → Good m w) where
  union_lookups-Denotes :
      (lookup : Text → S → Run (Range × S)) (W : Text → Text → Type 0) (n : ℕ)
      → LooksUp Good lookup W n
      → (keys : List Text) (r : Range) (rr : S) (C : Text → Type 0) (i m : ℕ) → Denotes r C i
      → Good m rr
      → i + length keys * n ≤ size_limit
      → m + length keys ≤ size_limit
      → Returns (union_lookups lookup keys r rr) λ x.
        Denotes x.0 (λ q. OneOf W keys q ⊎ C q) (i + length keys * n) × Good (m + length keys) x.1
  unfolding union_lookups
  union_lookups-Denotes lookup W n looks [] r rr C i m d sound small few = (
    (r, rr),
    refl,
    (
      Denotes_ext d (λ q. (inr, ⊎_elim (λ x. absurd (cc (x.1))) (λ c. c))) (omega arith),
      good_le _ _ rr sound (omega arith),
    ),
  )
  union_lookups-Denotes lookup W n looks (key ∷ keys) r rr C i m d sound small few =
      let size = suc-mul (length keys) n in
      let (x, run, (dx, sound')) = looks key rr m sound (omega arith) in
      let (r', run', (d', _)) = range_union_inplace-Denotes d dx (omega (arith, size)) in
      let (y, run'', (dy, sound'')) =
        union_lookups-Denotes lookup W n looks keys r' x.1 _ (i + n) (m + 1) d' sound'
          (omega (arith, size)) (omega arith) in
      (
        y,
        rw (run, ◌>>=◌, run') run'',
        (
          Denotes_ext dy (λ q. listed_head W key keys q (C q)) (omega (arith, size)),
          good_le _ _ y.1 sound'' (omega arith),
        ),
      )

  one_argument_runs :
      (r : Range) (rr : S) (body : List Text → Range → Run (Range × S)) (ret : Range)
      → range_new ≡ ok ret
      → r.quoted ≡ false
      → one_argument (r ∷ []) rr body ≡ body (names_of (set_members r.nodes)) ret
  unfolding one_argument validate_range_args has_args
  one_argument_runs r rr body ret made plain = rw (made, ◌>>=◌, hostnames_plain r plain) refl

  -- a function of one argument that takes the union of what a lookup gives
  lookups-Denotes :
      (lookup : Text → S → Run (Range × S)) (W : Text → Text → Type 0) (n : ℕ)
      → LooksUp Good lookup W n
      → (r : Range) (rr : S) (P : Text → Type 0) (k m : ℕ) → Denotes r P k
      → r.quoted ≡ false
      → Good m rr
      → k * n ≤ size_limit
      → m + k ≤ size_limit
      → Returns
          (one_argument (r ∷ []) rr (λ members result. union_lookups lookup members result rr))
          λ x. Denotes x.0 (λ q. (key : Text) × P key × W key q) (k * n) × Good (m + k) x.1
  lookups-Denotes lookup W n looks r rr P k m d plain sound small few =
      let (ret, made, (empty, _)) = range_new-Denotes in
      let names = names_of (set_members r.nodes) in
      let (exact, len) = set_members-Denotes d in
      let count : length names ≤ k = omega (arith, d.few, len) in
      let size = mul-le-mul_right n count in
      let (x, run, (dx, sound')) =
        union_lookups-Denotes lookup W n looks names ret rr _ 0 m empty sound (omega (arith, size))
          (omega arith) in
      (
        x,
        one_argument_runs r rr _ ret made plain ∙ run,
        (
          Denotes_ext dx
              (λ q. (
                ⊎_elim (λ y. (y.0, (exact y.0).0 y.1, y.2)) (λ y. absurd y),
                λ y. inl (y.0, (exact y.0).1 y.1, y.2),
              ))
              (omega (arith, size)),
          good_le _ _ x.1 sound' (omega arith),
        ),
      )

-- The request is sound, and the caches are `c`, in the context `h'`, as soon as they are asked for.
Ready : Caches → HostContext → ℕ → Request × HostContext → Type 1
Ready c h' m w = IsSound m w.0 × (find_caches w.1 ≡ ok (c, h'))

Ready-le :
    (c : Caches) (h' : HostContext) (n m : ℕ) (w : Request × HostContext)
    → Ready c h' n w
    → n ≤ m
    → Ready c h' m w
unfolding Ready
Ready-le c h' n m w (sound, found) le = (IsSound-le n m w.0 sound le, found)

found_stored : (h : HostContext) (c : Caches) → h.stored ≡ some c → find_caches h ≡ ok (c, h)
unfolding find_caches
found_stored h c there = simp (find_caches, there)

hosts_in_dc-LooksUp :
    (c : Caches) (h' : HostContext) (W : Text → Text → Type 0) (n : ℕ)
    → h'.stored ≡ some c
    → IsGrouped c.datacenter_hosts W n
    → LooksUp (Ready c h') hosts_in_dc W n
unfolding hosts_in_dc Ready
hosts_in_dc-LooksUp c h' W n there g dc (rr, h) m (sound, found) room =
    let (y, run, (d, sound')) =
      cached_range-LooksUp c.datacenter_hosts (text "DC_NOT_FOUND") W n g dc rr m sound room in
    ((y.0, (y.1, h')), rw (found, ◌>>=◌, run) refl, (d, (sound', found_stored h' c there)))

-- For a context that caches and whose caches of hosts are not set, with hosts whose names are not
-- empty, at most 805306370 of them, and an argument that is well-formed, not quoted and has at most `k`
-- names, where `k` times the count of hosts is at most 1610612741, `rangefunc_hosts_dc` runs without a
-- fault and returns exactly the hosts whose address lies in a block of one of the data centres of the
-- argument, under the name without the dot at its end and the default domain. The warnings of the
-- request stay well-formed, with at most `k` types and nodes of a type more, at most 1610612741 in all.
pub rangefunc_hosts_dc-init_caches :
    (h : HostContext) (rr : Request) (r : Range) (P : Text → Type 0) (k m : ℕ)
    → h.want_caching ≡ true
    → h.stored ≡ none
    → AllNamed h.all_hosts
    → 2 * length h.all_hosts ≤ size_limit
    → Denotes r P k
    → r.quoted ≡ false
    → IsSound m rr
    → k * length h.all_hosts ≤ size_limit
    → m + k ≤ size_limit
    → Returns (rangefunc_hosts_dc (rr, h) (r ∷ [])) λ x.
      Denotes x.0
        (λ q.
          (dc : Text) × P dc
          × HostsBy h.netblocks h.default_domain (λ nc. nc.colo) h.all_hosts dc q)
        (k * length h.all_hosts)
      × IsSound (m + k) x.1.0
unfolding rangefunc_hosts_dc find_caches init_caches Ready
rangefunc_hosts_dc-init_caches h rr r P k m caching unset named few d plain sound small room =
    let (c, run, (_, grouped)) =
      fill_caches-HostsBy h.netblocks h.default_domain h.all_hosts named few in
    let h' : HostContext = record h { stored = some c } in
    let found : find_caches h ≡ ok (c, h') =
      simp (find_caches, unset, init_caches, run, ◌>>=◌, caching) in
    let (x, run', (dx, (sound', _))) =
      lookups-Denotes (Ready c h') (Ready-le c h') hosts_in_dc _ _
        (hosts_in_dc-LooksUp c h' _ _ refl grouped) r (rr, h) P k m d plain (sound, found) small
        room in
    (x, run', (dx, sound'))

-- For a context that does not cache and whose caches of hosts are not set, with hosts whose names are
-- not empty, at most 805306370 of them, `hosts_in_dc` follows a null pointer for every data centre.
pub hosts_in_dc_uncached :
    (h : HostContext) (rr : Request) (dc : Text)
    → h.want_caching ≡ false
    → h.stored ≡ none
    → AllNamed h.all_hosts
    → 2 * length h.all_hosts ≤ size_limit
    → hosts_in_dc dc (rr, h) ≡ fault null_pointer
unfolding hosts_in_dc find_caches init_caches
hosts_in_dc_uncached h rr dc not_caching unset named few =
    let (c, run, _) = fill_caches-HostsBy h.netblocks h.default_domain h.all_hosts named few in
    simp (hosts_in_dc, find_caches, unset, init_caches, run, ◌>>=◌, not_caching)
