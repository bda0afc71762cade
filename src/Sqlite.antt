-- ===== src/Sqlite.antt =====
-- The cluster functions of source/functions/sqlite.c, which ask a database. SQLite is a parameter: it opens
-- a file, prepares a statement or does not, and gives the rows of a statement with its parameters.
mod Tests
use libcrange.Base.{
  ℕ, ◌+◌, Text, text, [], ◌∷◌, ◌++◌, List, Option, none, some, Bool, true, false, not,
  if◌then◌else◌, ltb,
}
use libcrange.Base.{Run, ok, fault, assertion, null_pointer, ◌>>=◌}
use libcrange.HashSet.{Set, set_new, set_add, set_get_data, set_members}
use libcrange.Range.{Range, range_new, range_add, range_get_hostnames, names_of}
use libcrange.Request.{range_request_warn_enabled}
use libcrange.Cluster.Dollars.{substitute_dollars, join_elements}
use libcrange.Cluster.Sections.{Entry, Store, open_cache, close_cache, cached_sections}
use libcrange.Cluster
use libcrange.Cluster.{World, Act, warn, warn_type, arg_names, first_name, non_null}

-- the statements of the module: KEYVALUE_SQL and the others
pub data Statement : Type 0 where
  key_value all_cluster range_from_tags groups clusters_of_node keys_of_node mmap_pragma : Statement

pub record Database (Db : Type 0) : Type 0 where
  pub open_file : Text → Option Db
  pub prepares : Option Db → Statement → Bool
  pub rows : Option Db → Statement → List Text → List (Option Text × Option Text)

-- the caches `nodescf:cluster_keys` and `sqlite:nodes`, and the variable `sqlitedb`
pub record Caches (Db : Type 0) : Type 0 where
  pub clusters : Store
  pub nodes : Option Db
  pub sqlitedb : Option Text

-- the loop over the pairs of keys and values
pub add_pairs : Text → List (Option Text × Option Text) → Set Text → Run (Set Text)
add_pairs cluster [] sections = ok sections
add_pairs cluster ((key, value) ∷ rows) sections = non_null key >>= λ k.
    substitute_dollars false cluster (elim value [ some v ↦ v | none ↦ [] ]) >>= λ line.
    set_add sections k (some line) >>= λ sections'. add_pairs cluster rows sections'

-- `set_add(clusters, cluster, 0)` for each row
pub add_row_names : List (Option Text × Option Text) → Set Text → Run (Set Text)
add_row_names [] res = ok res
add_row_names ((name, _) ∷ rows) res =
    non_null name >>= λ n. set_add res n none >>= λ res'. add_row_names rows res'

-- `range_add(ret, answer)` for each row, with its assertion
pub add_answers : List (Option Text × Option Text) → Range → Run Range
add_answers [] ret = ok ret
add_answers ((answer, _) ∷ rows) ret = elim answer [
  | none ↦ fault assertion
  | some a ↦ range_add ret a >>= λ ret'. add_answers rows ret'
]

-- the value of the second argument: an empty text where there is no second argument
pub second_value : List Range → Option Text
second_value [] = some []
second_value (b ∷ _) = first_name (range_get_hostnames b)

-- `while (*p_nodes) { …; break; }`: the first node alone
pub first_only : List Text → List Text
first_only [] = []
first_only (node ∷ _) = node ∷ []

module _ {Db : Type 0} (sqlite : Database Db) (default_db : Text) (now : ℕ) where
  pub open_db : Act (Caches Db) (Option Db)
  open_db w = elim w.store.nodes [
    | some db ↦ ok (some db, w)
    | none ↦
        elim (sqlite.open_file (elim w.store.sqlitedb [ some path ↦ path | none ↦ default_db ])) [
          | none ↦ ok (none, w)
          | some db ↦
              if sqlite.prepares (some db) mmap_pragma
              then ok (
                some db,
                if w.store.clusters.want_caching
                    then record w { store = record w.store { nodes = some db } }
                    else w,
              )
              else ok (none, warn (text "allclusters(): cannot query sqlite db") w)
        ]
  ]

  pub cluster_keys : Text → Act (Caches Db) (Set Text)
  cluster_keys cluster w = open_db w >>= λ db. set_new 0 >>= λ sections.
      if sqlite.prepares db.0 key_value
      then (add_pairs cluster (sqlite.rows db.0 key_value (cluster ∷ [])) sections >>= λ s.
          set_add s (text "KEYS") (join_elements b',' s) >>= λ s'. ok (s', db.1))
      else ok (sections, warn (cluster ++ text ": cannot query sqlite db") db.1)

  pub all_clusters : Act (Caches Db) (Option (List Text))
  all_clusters w = set_new 0 >>= λ res. open_db w >>= λ db.
      if sqlite.prepares db.0 all_cluster
      then (add_row_names (sqlite.rows db.0 all_cluster []) res >>= λ res'.
          ok (some (names_of (set_members res')), db.1))
      else ok (none, warn (text "allclusters(): cannot query sqlite db") db.1)

  -- the rows of a statement with its parameters, added to a range
  pub add_query : Option Db → Statement → List Text → Range → Run Range
  add_query db statement values ret = add_answers (sqlite.rows db statement values) ret

  -- `_do_has_mem` behind its first argument: the second is null where it names nothing
  pub has_mem_names : Statement → Text → Option Text → Range → Act (Caches Db) Range
  has_mem_names statement tag_name tag_value ret w = open_db w >>= λ db.
      if sqlite.prepares db.0 statement
      then (non_null tag_value >>= λ value.
          add_query db.0 statement (tag_name ∷ value ∷ []) ret >>= λ ret'. ok (ret', db.1))
      else if range_request_warn_enabled w.request
      then (non_null tag_value >>= λ value. ok (
        ret,
        warn (text "has(" ++ (tag_name ++ (b',' ∷ (value ++ text "): cannot query sqlite db"))))
            db.1,
      ))
      else fault assertion

  pub do_has_mem : Statement → List Range → Act (Caches Db) Range
  do_has_mem statement [] w = range_new >>= λ ret. ok (ret, w)
  do_has_mem statement (a ∷ r) w = range_new >>= λ ret. elim (first_name (range_get_hostnames a)) [
    | none ↦ ok (ret, w)
    | some tag_name ↦ has_mem_names statement tag_name (second_value r) ret w
  ]

  pub rangefunc_has : List Range → Act (Caches Db) Range
  rangefunc_has = do_has_mem range_from_tags

  pub rangefunc_mem : List Range → Act (Caches Db) Range
  rangefunc_mem = do_has_mem keys_of_node

  -- the rows for each node
  pub add_nodes : Option Db → List Text → Range → Run Range
  add_nodes db [] ret = ok ret
  add_nodes db (node ∷ nodes) ret =
      add_query db clusters_of_node (node ∷ []) ret >>= λ ret'. add_nodes db nodes ret'

  -- `rangefunc_clusters`, and `rangefunc_get_cluster` for the first node
  pub clusters_query : (List Text → List Text) → List Range → Act (Caches Db) Range
  clusters_query select r w = range_new >>= λ ret. arg_names r 0 >>= λ nodes. open_db w >>= λ db.
      if sqlite.prepares db.0 clusters_of_node
      then (add_nodes db.0 (select nodes) ret >>= λ ret'. ok (ret', db.1))
      else ok (ret, warn (text "clusters(): cannot query sqlite db") db.1)

  pub rangefunc_get_cluster : List Range → Act (Caches Db) Range
  rangefunc_get_cluster = clusters_query first_only

  pub rangefunc_clusters : List Range → Act (Caches Db) Range
  rangefunc_clusters = clusters_query (λ nodes. nodes)

  pub rangefunc_get_groups : List Range → Act (Caches Db) Range
  rangefunc_get_groups r w = range_new >>= λ ret. arg_names r 0 >>= λ tag_names.
      elim (first_name tag_names) [
        | none ↦ ok (ret, w)
        | some tag_name ↦ open_db w >>= λ db.
            if sqlite.prepares db.0 groups
            then (add_query db.0 groups (tag_name ∷ []) ret >>= λ ret'. ok (ret', db.1))
            else ok (ret, warn (b'?' ∷ (tag_name ++ text ": cannot query sqlite db")) db.1)
      ]

  module _ (do_range_expand : Text → Act (Caches Db) Range) where
    pub expand_cluster : Text → Text → Act (Caches Db) Range
    expand_cluster cluster section w = open_cache w.store.clusters >>= λ cache.
        cached_sections (λ e. not (ltb (e.mtime + 30) now)) now (cluster_keys cluster) cluster cache
          w
        >>= λ x.
            let w' : World (Caches Db) = record x.2 {
              store = record x.2.store { clusters = close_cache w.store.clusters x.1 };
            } in
            elim (set_get_data x.0 section) [
              | some res ↦ do_range_expand res w'
              | none ↦ warn_type (text "NOCLUSTER") (cluster ++ (b':' ∷ section)) w' >>= λ w''.
                  range_new >>= λ r. ok (r, w'')
            ]

    pub rangefunc_allclusters : List Range → Act (Caches Db) Range
    rangefunc_allclusters r = Cluster.allclusters expand_cluster all_clusters

    pub rangefunc_cluster : List Range → Act (Caches Db) Range
    rangefunc_cluster r w = range_new >>= λ ret.
        arg_names r 0 >>= λ names. Cluster.cluster_loop expand_cluster all_clusters names ret w

    pub rangefunc_group : List Range → Act (Caches Db) Range
    rangefunc_group r w = open_db w >>= λ db. range_new >>= λ ret. arg_names r 0 >>= λ group_names.
        Cluster.group_loop expand_cluster all_clusters (λ _. ok (text "GROUPS")) group_names ret
          db.1
