-- ===== src/Mdbm/Tests.antt =====
-- Tests of source/functions/sqlite_mdbm.c: the key of a section, and a file that holds a section of one name.
use libcrange.Base.{◌≡◌, refl, text, none, some, true, false, is_some, arith}
use libcrange.Base.{ok, Returns}
use libcrange.HashSet.Packed.Sample.{
  web, only_web, web-Models, web_members, web-IsPackable, web_size,
}
use libcrange.HashSet.Packed.{set_pack}
use libcrange.Range.Meaning.{Denotes, of_Models}
use libcrange.Range.{Range}
use libcrange.Request.{range_request_new}
use libcrange.Cluster.{World}
use libcrange.Mdbm.Section.{expand_cluster-set_pack}
use libcrange.Mdbm.{MdbmFile, MdbmStore, fetch_key, expand_cluster}

section_key : fetch_key (text "web") (text "ALL") ≡ ok (text "web:ALL")
unfolding fetch_key
section_key = refl

abbrev stored : Range
stored = record { nodes = web; quoted = false }

stored-Denotes : Denotes stored (λ q. is_some (only_web q) ≡ true) 1
stored-Denotes = of_Models false 1 web-Models (λ q. (λ h. h, λ h. h)) (omega (arith, web_members.1))

abbrev file : MdbmFile (Unit {0})
file = record { open_file = λ _. none; fetch = λ m key. set_pack web }

abbrev world : World (MdbmStore (Unit {0}) (Unit {0}))
world = record {
  request = range_request_new;
  store = record {
    nodes = record {
      clusters = record { keys = none; want_caching = true };
      nodes = none;
      sqlitedb = none;
    };
    mdbm_cache = some tt;
    mdbmdb = none;
  };
}

expand_cluster-set_pack_example :
    Returns
      (expand_cluster file (text "/tmp/range.mdbm") (text "web") (text "ALL") world)
      λ x. Denotes x.0 (λ q. is_some (only_web q) ≡ true) 1 × (x.0.quoted ≡ false) × (x.1 ≡ world)
expand_cluster-set_pack_example =
    expand_cluster-set_pack file (text "/tmp/range.mdbm") (text "web") (text "ALL") world tt stored
      (λ q. is_some (only_web q) ≡ true) 1 refl (omega arith) refl stored-Denotes web-IsPackable
      (omega (arith, web_members.1)) (omega arith) (omega (arith, web_size))
