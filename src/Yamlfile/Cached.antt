-- ===== src/Yamlfile/Cached.antt =====
-- `_expand_cluster` of source/functions/yamlfile.c with its cache against the sections that the file has.
use libcrange.Base.{ℕ, ◌≡◌, ◌<◌, refl, Text, some, ◌⊎◌, ◌==◌, ==_iff}
use libcrange.Base.{ok, ◌>>=◌}
use libcrange.HashSet.Resize.{Models, size_limit}
use libcrange.HashSet.{Set, set_get, set_get_data}
use libcrange.Range.{Range}
use libcrange.Request.{Request}
use libcrange.Cluster.Sections.{Entry, Store, close_cache}
use libcrange.Cluster.Sections.Coherence.{
  open_cache_stored, close_cache_stored, cached_sections-cluster_keys,
}
use libcrange.Cluster.{World, Act}
use libcrange.Yamlfile.{Files, cluster_file, cluster_keys, expand_section, expand_cluster}

-- The file of a cluster is there, and its sections are read without a fault. The cache is stored and
-- well-formed, has less than 1610612741 entries, and an entry of the file with the time of the file
-- holds its sections. Then `expand_cluster` does what `expand_section` does with these sections, on a
-- request as it was or as reading left it, and the cache holds the sections for the file.
pub expand_cluster-expand_section :
    (files : Files) (do_range_expand : Text → Act Store Range) (cluster section : Text) (mtime : ℕ)
    (cache : Set Entry) (w : World Store) (sections : Set Text) (rr : Request)
    → w.store.keys ≡ some cache
    → Models cache (set_get cache)
    → cache.members < size_limit
    → files.stat (cluster_file files cluster) ≡ some mtime
    → cluster_keys files cluster (cluster_file files cluster) w.request ≡ ok (sections, rr)
    → ((e : Entry)
        → set_get_data cache (cluster_file files cluster) ≡ some e
        → e.mtime ≡ mtime
        → e.sections ≡ sections)
    → (v : World Store) × (expand_cluster files do_range_expand cluster section w
        ≡ expand_section files do_range_expand cluster section sections v)
      × ((v.request ≡ rr) ⊎ (v.request ≡ w.request))
      × ((cache' : Set Entry) × (v.store.keys ≡ some cache')
          × ((e : Entry) × (set_get_data cache' (cluster_file files cluster) ≡ some e)
              × (e.sections ≡ sections)))
unfolding expand_cluster
expand_cluster-expand_section files do_range_expand cluster section mtime cache w sections rr stored
      m small there read held =
    let file = cluster_file files cluster in
    let (x, run, (same, state, _, (e, found, holds), _)) =
      cached_sections-cluster_keys (λ e. e.mtime == mtime) mtime (cluster_keys files cluster file)
        file cache w.request rr sections m small read
        (λ e kept good. held e kept ((==_iff e.mtime mtime).0 good)) in
    (
      record { request = x.2; store = close_cache w.store x.1 },
      rw (open_cache_stored w.store cache stored, ◌>>=◌, there, run, same) refl,
      state,
      (x.1, close_cache_stored w.store cache x.1 stored, (e, found, holds)),
    )
