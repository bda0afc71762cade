-- ===== src/Mdbm.antt =====
-- The cluster functions of source/functions/sqlite_mdbm.c: the module of source/functions/sqlite.c, but
-- the sections of clusters are packed sets in a file of MDBM, which is a parameter too.
pub mod Section
mod Tests
use libcrange.Base.{
  ℕ, ◌+◌, Text, text, [], ◌∷◌, ◌++◌, List, Option, none, some, Bool, true, false, if◌then◌else◌,
  leb, ◌==◌, length,
}
use libcrange.Base.{Run, ok, fault, assertion, out_of_bounds, ◌>>=◌}
use libcrange.HashSet.{Set}
use libcrange.HashSet.Packed.{set_unpack}
use libcrange.Range.{Range, range_new, range_from_set, range_get_hostnames}
use libcrange.Cluster
use libcrange.Cluster.{World, Act, warn, warn_type, arg_names, first_name, non_null}
use libcrange.Sqlite
use libcrange.Sqlite.{Database, Caches, Statement, range_from_tags, keys_of_node, second_value}

-- What the module for SQLite keeps, with the variables `mdbm_cache` and, of the configuration, `mdbmdb`.
pub record MdbmStore (Db M : Type 0) : Type 0 where
  pub nodes : Caches Db
  pub mdbm_cache : Option M
  pub mdbmdb : Option Text

-- `mdbm_open` and `mdbm_fetch`
pub record MdbmFile (M : Type 0) : Type 0 where
  pub open_file : Text → Option M
  pub fetch : M → Text → Text

-- the key of a section in its buffer of 8192 bytes
pub fetch_key : Text → Text → Run Text
fetch_key cluster section =
    if leb 8192 (length cluster + (1 + length section))
    then fault out_of_bounds
    else ok (cluster ++ (b':' ∷ section))

module _ {Db M : Type 0} where
  -- what the module for SQLite does
  pub on_nodes : {A : Type 0} → Act (Caches Db) A → Act (MdbmStore Db M) A
  on_nodes act w = act (record { request = w.request; store = w.store.nodes }) >>= λ x.
      ok (x.0, record { request = x.1.request; store = record w.store { nodes = x.1.store } })

  -- A file that cannot be opened fails the assertion behind the warning.
  pub open_mdbm : MdbmFile M → Text → Act (MdbmStore Db M) M
  open_mdbm mdbm default_mdbm_db w = elim w.store.mdbm_cache [
    | some m ↦ ok (m, w)
    | none ↦
        elim (mdbm.open_file (elim w.store.mdbmdb [ some path ↦ path | none ↦ default_mdbm_db ])) [
          | none ↦ fault assertion
          | some m ↦ ok (m, record w { store = record w.store { mdbm_cache = some m } })
        ]
  ]

  -- The length of what is fetched is 0 where there is nothing.
  pub expand_cluster : MdbmFile M → Text → Text → Text → Act (MdbmStore Db M) Range
  expand_cluster mdbm default_mdbm_db cluster section w = open_mdbm mdbm default_mdbm_db w >>= λ db.
      fetch_key cluster section >>= λ key.
      if length (mdbm.fetch db.0 key) == 0
      then (warn_type (text "NOCLUSTER") key db.1 >>= λ w'. range_new >>= λ r. ok (r, w'))
      else (set_unpack (mdbm.fetch db.0 key) >>= λ s. ok (range_from_set s, db.1))

module _ {Db M : Type 0} (sqlite : Database Db) (default_db : Text) (now : ℕ) (mdbm : MdbmFile M)
    (default_mdbm_db : Text) where
  pub open_db : Act (MdbmStore Db M) (Option Db)
  open_db = on_nodes (Sqlite.open_db sqlite default_db now)

  pub cluster_keys : Text → Act (MdbmStore Db M) (Set Text)
  cluster_keys cluster = on_nodes (Sqlite.cluster_keys sqlite default_db now cluster)

  pub all_clusters : Act (MdbmStore Db M) (Option (List Text))
  all_clusters = on_nodes (Sqlite.all_clusters sqlite default_db now)

  -- `_do_has_mem` behind its first argument: a statement that cannot be prepared is no failed assertion.
  pub has_mem_names : Statement → Text → Option Text → Range → Act (Caches Db) Range
  has_mem_names statement tag_name tag_value ret w =
      Sqlite.open_db sqlite default_db now w >>= λ db. non_null tag_value >>= λ value.
      if sqlite.prepares db.0 statement
      then (Sqlite.add_query sqlite default_db now db.0 statement (tag_name ∷ value ∷ []) ret
          >>= λ ret'. ok (ret', db.1))
      else ok (
        ret,
        warn (text "has(" ++ (tag_name ++ (b',' ∷ (value ++ text "): cannot query sqlite db"))))
            db.1,
      )

  pub do_has_mem : Statement → List Range → Act (Caches Db) Range
  do_has_mem statement [] w = range_new >>= λ ret. ok (ret, w)
  do_has_mem statement (a ∷ r) w = range_new >>= λ ret. elim (first_name (range_get_hostnames a)) [
    | none ↦ ok (ret, w)
    | some tag_name ↦ has_mem_names statement tag_name (second_value r) ret w
  ]

  pub rangefunc_has : List Range → Act (MdbmStore Db M) Range
  rangefunc_has r = on_nodes (do_has_mem range_from_tags r)

  pub rangefunc_mem : List Range → Act (MdbmStore Db M) Range
  rangefunc_mem r = on_nodes (do_has_mem keys_of_node r)

  pub get_clusters : Act (MdbmStore Db M) (Set (List Text))
  get_clusters =
      Cluster.get_clusters (expand_cluster mdbm default_mdbm_db) all_clusters (text "CLUSTER")

  pub rangefunc_get_cluster : List Range → Act (MdbmStore Db M) Range
  rangefunc_get_cluster r = on_nodes (Sqlite.rangefunc_get_cluster sqlite default_db now r)

  pub rangefunc_clusters : List Range → Act (MdbmStore Db M) Range
  rangefunc_clusters r = on_nodes (Sqlite.rangefunc_clusters sqlite default_db now r)

  pub rangefunc_get_groups : List Range → Act (MdbmStore Db M) Range
  rangefunc_get_groups r = on_nodes (Sqlite.rangefunc_get_groups sqlite default_db now r)

  pub rangefunc_allclusters : List Range → Act (MdbmStore Db M) Range
  rangefunc_allclusters r = Cluster.allclusters (expand_cluster mdbm default_mdbm_db) all_clusters

  pub rangefunc_cluster : List Range → Act (MdbmStore Db M) Range
  rangefunc_cluster r w = range_new >>= λ ret. arg_names r 0 >>= λ names.
      Cluster.cluster_loop (expand_cluster mdbm default_mdbm_db) all_clusters names ret w

  pub rangefunc_group : List Range → Act (MdbmStore Db M) Range
  rangefunc_group r w = open_db w >>= λ db. range_new >>= λ ret. arg_names r 0 >>= λ group_names.
      Cluster.group_loop (expand_cluster mdbm default_mdbm_db) all_clusters
        (λ _. ok (text "GROUPS")) group_names ret db.1
