-- ===== src/Mdbm/Section.antt =====
-- A section that source/functions/sqlite_mdbm.c reads from its file, where the file holds the packed form of
-- a range under the section's key.
use libcrange.Base.{
  ℕ, ◌+◌, ◌^◌, ◌≡◌, ◌≤◌, ◌<◌, refl, Text, ◌∷◌, ◌++◌, some, false, leb, length, arith,
}
use libcrange.Base.{ok, ◌>>=◌, Returns}
use libcrange.HashSet.Resize.{size_limit}
use libcrange.HashSet.Packed.{set_pack, entries_size}
use libcrange.HashSet.Packed.RoundTrip.{IsPackable, set_unpack-set_pack, set_pack_some}
use libcrange.HashSet.{set_members}
use libcrange.Range.Meaning.{Denotes, of_Models, found_iff}
use libcrange.Range.{Range, range_from_set}
use libcrange.Cluster.{World}
use libcrange.Mdbm.{MdbmFile, MdbmStore, open_mdbm, fetch_key, expand_cluster}

open_mdbm_cached :
    {Db M : Type 0} (mdbm : MdbmFile M) (default_mdbm_db : Text) (w : World (MdbmStore Db M))
    (m : M)
    → w.store.mdbm_cache ≡ some m
    → open_mdbm mdbm default_mdbm_db w ≡ ok (m, w)
unfolding open_mdbm
open_mdbm_cached mdbm default_mdbm_db w m there = simp (open_mdbm, there)

fetch_key_fits :
    (cluster section : Text)
    → length cluster + (1 + length section) < 8192
    → fetch_key cluster section ≡ ok (cluster ++ (b':' ∷ section))
unfolding fetch_key
fetch_key_fits cluster section h =
    let fits : leb 8192 (length cluster + (1 + length section)) ≡ false = ground arith in rw fits

-- Where MDBM is open and holds, under a cluster, a colon and a section of together fewer than 8192
-- bytes, the bytes that `set_pack` writes for the set of a well-formed range, `_expand_cluster` of
-- sqlite_mdbm.c returns a range of exactly the same names, which is not quoted, and leaves the request
-- and the caches as they were. The range has at least one and at most 1610612741 names, its names and
-- data are C strings, and the packed form has fewer than 2147483648 bytes.
pub expand_cluster-set_pack :
    {Db M : Type 0} (mdbm : MdbmFile M) (default_mdbm_db cluster section : Text)
    (w : World (MdbmStore Db M)) (m : M) (r : Range) (P : Text → Type 0) (n : ℕ)
    → w.store.mdbm_cache ≡ some m
    → length cluster + (1 + length section) < 8192
    → mdbm.fetch m (cluster ++ (b':' ∷ section)) ≡ set_pack r.nodes
    → Denotes r P n
    → IsPackable (set_members r.nodes)
    → 0 < r.nodes.members
    → n ≤ size_limit
    → entries_size (set_members r.nodes) + 4 < 2 ^ 31
    → Returns
        (expand_cluster mdbm default_mdbm_db cluster section w)
        λ x. Denotes x.0 P n × (x.0.quoted ≡ false) × (x.1 ≡ w)
unfolding expand_cluster range_from_set
expand_cluster-set_pack mdbm default_mdbm_db cluster section w m r P n there fits stored d packable
      some_name few small =
    let (s, run, (models, count)) =
      set_unpack-set_pack r.nodes d.models packable some_name (omega (arith, d.few)) small in
    (
      (range_from_set s, w),
      rw
          (
            expand_cluster,
            open_mdbm_cached mdbm default_mdbm_db w m there,
            ◌>>=◌,
            fetch_key_fits cluster section fits,
            stored,
            set_pack_some r.nodes,
            run,
          )
          refl,
      (of_Models false n models (λ q. found_iff q d) (omega (arith, count, d.few)), refl, refl),
    )
