-- ===== src/Cluster/Sections.antt =====
-- The cache of the sections of clusters, `nodescf:cluster_keys` in the library context, which the
-- functions `_expand_cluster` of the modules of cluster functions keep.
pub mod Coherence
mod Tests
use libcrange.Base.{ℕ, Text, Option, none, some, Bool, ◌||◌, is_some, if◌then◌else◌}
use libcrange.Base.{Run, ok, ◌>>=◌}
use libcrange.HashSet.{Set, set_new, set_add, set_add_noresize, set_get_data}

-- `cache_entry`
pub record Entry : Type 0 where
  pub mtime : ℕ
  pub sections : Set Text

-- the cache in the context, if it is there, and whether the context wants to cache
pub record Store : Type 0 where
  pub keys : Option (Set Entry)
  pub want_caching : Bool

-- `libcrange_get_cache`, and a new set where it gives null
pub open_cache : Store → Run (Set Entry)
open_cache s = elim s.keys [ none ↦ set_new 0 | some cache ↦ ok cache ]

-- The changed cache is in the context if it was there, or if it could be stored.
pub close_cache : Store → Set Entry → Store
close_cache s cache = if is_some s.keys || s.want_caching then record s { keys = some cache } else s

-- The sections under a file, read by `cluster_keys` at the time `now` if they are not in the cache or
-- are not `fresh` any more. Reading them may change the state `W` of the caller.
pub cached_sections :
    {W : Type 0}
    → (Entry → Bool)
    → ℕ
    → (W → Run (Set Text × W))
    → Text
    → Set Entry
    → W
    → Run (Set Text × Set Entry × W)
cached_sections fresh now cluster_keys file cache w = elim (set_get_data cache file) [
  | none ↦ cluster_keys w >>= λ x.
      set_add cache file (some (record { mtime = now; sections = x.0 })) >>= λ cache'.
      ok (x.0, cache', x.1)
  | some e ↦
      if fresh e
      then ok (e.sections, cache, w)
      else (cluster_keys w >>= λ x.
          ok
            (x.0, set_add_noresize cache file (some (record { mtime = now; sections = x.0 })), x.1))
]
