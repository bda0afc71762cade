-- ===== src/Cluster/Sections/Coherence.antt =====
-- The cache of sections against reading them each time.
use libcrange.Base.{
  ℕ, ◌≡◌, ◌<◌, refl, ap, is_some, if◌then◌else◌, ◌||◌, ◌∙◌, Text, some, Bool, true, false, str_eq,
  str_eq_refl, ◌⊎◌, inl, inr, Bool-cases, Option-cases,
}
use libcrange.Base.{Run, ok, ◌>>=◌, Returns}
use libcrange.HashSet.Resize.{Models, size_limit}
use libcrange.HashSet.Laws.{self-Models, set_add-Models, set_add_noresize-Models, update_data}
use libcrange.HashSet.{Set, set_add_noresize, set_get, set_get_data}
use libcrange.Cluster.Sections.{Entry, Store, open_cache, close_cache, cached_sections}

pub open_cache_stored :
    (s : Store) (cache : Set Entry) → s.keys ≡ some cache → open_cache s ≡ ok cache
unfolding open_cache
open_cache_stored s cache h = rw (open_cache, h) refl

pub close_cache_stored :
    (s : Store) (cache cache' : Set Entry)
    → s.keys ≡ some cache
    → (close_cache s cache').keys ≡ some cache'
unfolding close_cache
close_cache_stored s cache cache' h =
    ap (λ o. (if is_some o || s.want_caching then record s { keys = some cache' } else s).keys) h

-- For a well-formed cache of less than 1610612741 entries, in which an entry of the file that is fresh
-- holds the sections that `cluster_keys` reads, `cached_sections` gives these sections, with the state
-- behind reading or the one before. Afterwards the cache holds them for the file, and what it held for
-- every other file.
pub cached_sections-cluster_keys :
    {W : Type 0} (fresh : Entry → Bool) (now : ℕ) (cluster_keys : W → Run (Set Text × W))
    (file : Text) (cache : Set Entry) (w w' : W) (sections : Set Text)
    → Models cache (set_get cache)
    → cache.members < size_limit
    → cluster_keys w ≡ ok (sections, w')
    → ((e : Entry) → set_get_data cache file ≡ some e → fresh e ≡ true → e.sections ≡ sections)
    → Returns (cached_sections fresh now cluster_keys file cache w) λ x.
      (x.0 ≡ sections)
      × ((x.2 ≡ w') ⊎ (x.2 ≡ w))
      × Models x.1 (set_get x.1)
      × ((e : Entry) × (set_get_data x.1 file ≡ some e) × (e.sections ≡ sections))
      × ((other : Text)
          → str_eq file other ≡ false
          → set_get_data x.1 other ≡ set_get_data cache other)
unfolding cached_sections
cached_sections-cluster_keys fresh now cluster_keys file cache w w' sections m small read held =
    let e : Entry = record { mtime = now; sections = sections } in
    elim (Option-cases (set_get_data cache file)) [
      | inl absent ↦
          let (c, run, (m', _, _)) = set_add-Models cache file (some e) m small in
          (
            (sections, c, w'),
            rw (cached_sections, absent, read, ◌>>=◌, run) refl,
            (
              refl,
              inl refl,
              self-Models m',
              (e, update_data file (some e) file m m' ∙ rw (str_eq_refl file) refl, refl),
              λ other h. update_data file (some e) other m m' ∙ rw h refl,
            ),
          )
      | inr (old, there) ↦ elim (Bool-cases (fresh old)) [
        | inl good ↦
            let same = held old there good in
            (
              (old.sections, cache, w),
              rw (cached_sections, there, good) refl,
              (same, inr refl, m, (old, there, same), λ other h. refl),
            )
        | inr stale ↦
            let (m', _, _) = set_add_noresize-Models cache file (some e) m in
            (
              (sections, set_add_noresize cache file (some e), w'),
              rw (cached_sections, there, stale, read, ◌>>=◌) refl,
              (
                refl,
                inl refl,
                self-Models m',
                (e, update_data file (some e) file m m' ∙ rw (str_eq_refl file) refl, refl),
                λ other h. update_data file (some e) other m m' ∙ rw h refl,
              ),
            )
      ]
    ]
