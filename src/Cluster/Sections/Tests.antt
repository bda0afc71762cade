-- ===== src/Cluster/Sections/Tests.antt =====
-- The cache of sections at a concrete cache, which holds a file.
use libcrange.Base.{
  ℕ, ◌≡◌, ◌<◌, refl, sym, ap, ◌∙◌, Text, text, none, some, true, false, ◌==◌, ◌⊎◌, arith, str_eq,
}
use libcrange.Base.{ok, Returns}
use libcrange.HashSet.Resize.{Models, set_new-Models, size_limit}
use libcrange.HashSet.Laws.{self-Models, set_add_noresize-Models, update, update_data}
use libcrange.HashSet.{Set, set_add_noresize, set_get, set_get_data}
use libcrange.Cluster.Sections.{Entry, cached_sections}
use libcrange.Cluster.Sections.Coherence.{cached_sections-cluster_keys}

abbrev known : Set Text
known = (set_new-Models {D = Text} 0 (omega arith)).0

abbrev entry : Entry
entry = record { mtime = 7; sections = known }

abbrev version : ℕ
version = 1

abbrev file : Text
file = text "/etc/range/web.yaml"

abbrev start : Set Entry
start = (set_new-Models {D = Entry} 0 (omega arith)).0

start-Models : Models start (set_get start)
start-Models = self-Models ((set_new-Models {D = Entry} 0 (omega arith)).2.0)

abbrev cache : Set Entry
cache = set_add_noresize start file (some entry)

cache-Models :
    Models cache (update (set_get start) file (some (record { name = file; value = some entry })))
cache-Models = (set_add_noresize-Models start file (some entry) start-Models).0

cache_small : cache.members < size_limit
cache_small = omega (
  arith,
  (set_add_noresize-Models start file (some entry) start-Models).1,
  (set_new-Models {D = Entry} 0 (omega arith)).2.2,
)

cache_holds : set_get_data cache file ≡ some entry
unfolding str_eq
cache_holds = update_data file (some entry) file start-Models cache-Models

cache_coherent :
    (e : Entry) → set_get_data cache file ≡ some e → (e.mtime == 7) ≡ true → e.sections ≡ known
cache_coherent e h fresh =
    ap (λ o. (elim o [ some x ↦ x.sections | none ↦ known ])) (sym h ∙ cache_holds)

cached_sections-cluster_keys_example :
    Returns (cached_sections (λ e. e.mtime == 7) 7 (λ w. ok (known, w)) file cache version) λ x.
      (x.0 ≡ known)
      × ((x.2 ≡ version) ⊎ (x.2 ≡ version))
      × Models x.1 (set_get x.1)
      × ((e : Entry) × (set_get_data x.1 file ≡ some e) × (e.sections ≡ known))
      × ((other : Text)
          → str_eq file other ≡ false
          → set_get_data x.1 other ≡ set_get_data cache other)
cached_sections-cluster_keys_example =
    cached_sections-cluster_keys (λ e. e.mtime == 7) 7 (λ w. ok (known, w)) file cache version
      version known (self-Models cache-Models) cache_small refl cache_coherent
