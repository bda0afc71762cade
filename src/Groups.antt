-- ===== src/Groups.antt =====
-- The function `group` of the modules for databases: source/functions/group-sqlite.c,
-- source/functions/group-mysql.c and source/functions/pgsql.c. The libraries of the databases are parameters.
pub mod Rows
mod Tests
use libcrange.Base.{
  ℕ, Text, text, List, [], ◌∷◌, ◌++◌, Option, none, some, Bool, is_some, ◌&&◌, if◌then◌else◌,
  str_eq, ◌⊎◌, inl, inr,
}
use libcrange.Base.{Run, ok, fault, assertion, exits, ◌>>=◌}
use libcrange.HashSet.{set_union_inplace}
use libcrange.Range.{Range, range_new, range_add}
use libcrange.Cluster.{World, Act, warn, arg_names, non_null}

-- the connection in the caches of the library, whether it caches, and its variables
pub record GroupStore (C : Type 0) : Type 0 where
  pub conn : Option C
  pub want_caching : Bool
  pub getcfg : Text → Option Text

-- a connection is stored where the library caches
pub keep_conn : {C : Type 0} → C → World (GroupStore C) → World (GroupStore C)
keep_conn conn w =
    if w.store.want_caching then record w { store = record w.store { conn = some conn } } else w

-- the value of a variable, or what stands in for it
abbrev pub or_default : Option Text → Text → Text
or_default none value = value
or_default (some value) _ = value

-- `strcmp(members[i], "ALL") == 0`
pub is_all : Text → Bool
is_all member = str_eq member (text "ALL")

-- `range_add(ret, result)` for each row; a null pointer is followed
pub add_rows : List (Option Text) → Range → Run Range
add_rows [] ret = ok ret
add_rows (row ∷ rows) ret =
    non_null row >>= λ name. range_add ret name >>= λ ret'. add_rows rows ret'

-- The names of each row, which `do_range_expand` expands, are taken into the set of the result.
pub expand_rows : {S : Type 0} → (Text → Act S Range) → List (Option Text) → Range → Act S Range
expand_rows expand [] ret w = ok (ret, w)
expand_rows expand (row ∷ rows) ret w = non_null row >>= λ line. expand line w >>= λ this_group.
    set_union_inplace ret.nodes this_group.0.nodes >>= λ nodes.
    expand_rows expand rows (record ret { nodes = nodes }) this_group.1

-- ALL_NODES_SQL and RANGE_FROM_TAGS
pub data TagStatement : Type 0 where
  all_nodes range_of_tag : TagStatement

-- SQLite: it opens a file, prepares a statement, and gives the first column of its rows.
pub record Sqlite3 (C : Type 0) : Type 0 where
  pub sqlite3_open : Text → Option C
  pub prepares : C → TagStatement → Bool
  pub rows : C → TagStatement → Text → List (Option Text)

module _ {C : Type 0} (sqlite : Sqlite3 C) (default_sqlite_db : Text)
    (expand : Text → Act (GroupStore C) Range) where
  -- the loop over the groups
  pub sqlite_groups : C → List Text → Range → Act (GroupStore C) Range
  sqlite_groups db [] ret w = ok (ret, w)
  sqlite_groups db (member ∷ members) ret w =
      let added = add_rows (sqlite.rows db all_nodes []) ret >>= λ ret'. ok (ret', w) in
      let expanded = expand_rows expand (sqlite.rows db range_of_tag member) ret w in
      (if is_all member then added else expanded) >>= λ x. sqlite_groups db members x.0 x.1

  -- A statement for all nodes that cannot be prepared aborts, and one for a tag fails an assertion.
  pub sqlite_query : C → List Text → Range → Act (GroupStore C) Range
  sqlite_query db members ret w =
      if sqlite.prepares db all_nodes
      then (if sqlite.prepares db range_of_tag
          then sqlite_groups db members ret w
          else fault assertion)
      else fault exits

  -- The path of the database: the variable `sqlitedb`, or DEFAULT_SQLITE_DB.
  pub sqlite_group : List Range → Act (GroupStore C) Range
  sqlite_group r w = range_new >>= λ ret. arg_names r 0 >>= λ members. elim w.store.conn [
    | some db ↦ sqlite_query db members ret w
    | none ↦
        elim (sqlite.sqlite3_open
          (or_default (w.store.getcfg (text "sqlitedb")) default_sqlite_db)) [
            | none ↦ ok (ret, w)
            | some db ↦ sqlite_query db members ret (keep_conn db w)
          ]
  ]

-- What MySQL answers to a query: an error, no result, or the first column of its rows.
pub data MysqlAnswer : Type 0 where
  failed no_result : MysqlAnswer
  mysql_rows : List (Option Text) → MysqlAnswer

-- MySQL: a connection for a user, a password and a database, which is not tested, and its queries.
pub record Mysql (C : Type 0) : Type 0 where
  pub real_connect : Option Text → Option Text → Option Text → C
  pub query : C → Text → MysqlAnswer

-- the query for a group
pub mysql_text : Text → Text
mysql_text member =
    if is_all member
    then text "select name from nodes"
    else text "select range from tags where name='" ++ (member ++ text "'")

module _ {C : Type 0} (mysql : Mysql C) (expand : Text → Act (GroupStore C) Range) where
  -- Where a query fails, the result is a new range.
  pub mysql_groups : C → List Text → Range → Act (GroupStore C) Range
  mysql_groups conn [] ret w = ok (ret, w)
  mysql_groups conn (member ∷ members) ret w = elim (mysql.query conn (mysql_text member)) [
    | failed ↦ range_new >>= λ empty. ok (empty, w)
    | no_result ↦ fault assertion
    | mysql_rows rows ↦
        (if is_all member
          then (add_rows rows ret >>= λ ret'. ok (ret', w))
          else expand_rows expand rows ret w)
        >>= λ x. mysql_groups conn members x.0 x.1
  ]

  pub mysql_group : List Range → Act (GroupStore C) Range
  mysql_group r w = range_new >>= λ ret. arg_names r 0 >>= λ members. elim w.store.conn [
    | some conn ↦ mysql_groups conn members ret w
    | none ↦
        let conn =
          mysql.real_connect (w.store.getcfg (text "mysqluser"))
            (w.store.getcfg (text "mysqlpasswd")) (w.store.getcfg (text "mysqldb")) in
        mysql_groups conn members ret (keep_conn conn w)
  ]

-- What PQconnectdb gives: nothing, a connection with the message of its error, or one that is ready.
pub data PgConnection (C : Type 0) : Type 0 where
  no_connection : PgConnection C
  refused : Text → PgConnection C
  connected : C → PgConnection C

-- PostgreSQL: an answer is the message of an error or the first column of the rows.
pub record Postgres (C : Type 0) : Type 0 where
  pub connect : Text → PgConnection C
  pub exec : C → Text → Text ⊎ List Text

-- a warning where a variable is not set
pub warn_unset : {S : Type 0} → Option Text → Text → World S → World S
warn_unset none what w = warn (text "pgsql no " ++ (what ++ text " specified")) w
warn_unset (some value) what w = w

-- the text for PQconnectdb
pub conninfo : Text → Text → Text → Text → Text → Text
conninfo host port user password dbname =
    text "host="
    ++ (host
        ++ (text " port="
            ++ (port
                ++ (text " user="
                    ++ (user
                        ++ (text " password=" ++ (password ++ (text " dbname=" ++ dbname))))))))

-- the query for a group in a namespace
pub pgsql_text : Text → Text → Text
pgsql_text namespace member =
    if is_all member
    then text "select distinct element from velementgroups where namespace='"
      ++ (namespace ++ text "'")
    else text "select element from velementgroups where namespace='"
      ++ (namespace ++ (text "' and groupname='" ++ (member ++ text "'")))

-- `range_add(ret, element)` for each row
pub add_elements : List Text → Range → Run Range
add_elements [] ret = ok ret
add_elements (element ∷ elements) ret = range_add ret element >>= λ ret'. add_elements elements ret'

module _ {C : Type 0} (postgres : Postgres C) where
  -- Where a query fails, the result is what was found before, with a warning.
  pub pgsql_groups : Text → C → List Text → Range → Act (GroupStore C) Range
  pgsql_groups namespace conn [] ret w = ok (ret, w)
  pgsql_groups namespace conn (member ∷ members) ret w =
      elim (postgres.exec conn (pgsql_text namespace member)) [
        | inl message ↦ ok (ret, warn (text "pgsql_group: " ++ message) w)
        | inr elements ↦
            add_elements elements ret >>= λ ret'. pgsql_groups namespace conn members ret' w
      ]

  -- a new connection: with the warning it gives, where there is none
  pub pgsql_connect : World (GroupStore C) → World (GroupStore C) ⊎ (C × World (GroupStore C))
  pgsql_connect w =
      let user = w.store.getcfg (text "pgsql_user") in
      let db = w.store.getcfg (text "pgsql_db") in
      let password = w.store.getcfg (text "pgsql_passwd") in
      let host = or_default (w.store.getcfg (text "pgsql_host")) (text "localhost") in
      let port = or_default (w.store.getcfg (text "pgsql_port")) (text "5432") in
      let info =
        conninfo host port (or_default user []) (or_default password []) (or_default db []) in
      if is_some user && (is_some db && is_some password)
      then elim (postgres.connect info)
          as (λ _. World (GroupStore C) ⊎ (C × World (GroupStore C))) [
            | no_connection ↦
                inl (warn (text "pgsql dbname=" ++ (or_default db [] ++ text ": can't connect")) w)
            | refused message ↦ inl (warn (text "pgsql connection: " ++ message) w)
            | connected conn ↦ inr (conn, keep_conn conn w)
          ]
      else inl (
          warn_unset password (text "passwd")
            (warn_unset db (text "db") (warn_unset user (text "user") w)))

  -- the groups with the connection of the cache or a new one; without one, the result as it is
  pub pgsql_with : Option C → Text → List Text → Range → Act (GroupStore C) Range
  pgsql_with (some conn) namespace members ret w = pgsql_groups namespace conn members ret w
  pgsql_with none namespace members ret w = elim (pgsql_connect w) [
    | inl w' ↦ ok (ret, w')
    | inr (conn, w') ↦ pgsql_groups namespace conn members ret w'
  ]

  pub pgsql_group : List Range → Act (GroupStore C) Range
  pgsql_group r w = range_new >>= λ ret. arg_names r 0 >>= λ members.
      let namespace = or_default (w.store.getcfg (text "default_namespace")) (text "yst") in
      pgsql_with w.store.conn namespace members ret w
