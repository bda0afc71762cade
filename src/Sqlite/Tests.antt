-- ===== src/Sqlite/Tests.antt =====
-- Tests of source/functions/sqlite.c: statements that cannot be prepared, and arguments.
use libcrange.Base.{◌≡◌, refl, text, [], ◌∷◌, none, some, Bool, true, false}
use libcrange.Base.{fault, assertion}
use libcrange.Range.{Range}
use libcrange.Request.{range_request_warn_enabled}
use libcrange.Cluster.{World}
use libcrange.Sqlite.{Database, Caches, Statement, open_db, has_mem_names, second_value, first_only}

-- a database that can be opened and prepares nothing
abbrev broken : Database (Unit {0})
broken = record { open_file = λ _. none; prepares = λ _ _. false; rows = λ _ _ _. [] }

abbrev world : Bool → World (Caches (Unit {0}))
world enabled = record {
  request = record { warnings = none; warn_type = none; warn_enabled = enabled; r = none };
  store = record {
    clusters = record { keys = none; want_caching = true };
    nodes = none;
    sqlitedb = none;
  };
}

-- The query of `has` fails an assertion while warnings are disabled.
unprepared :
    (ret : Range)
    → has_mem_names broken
        (text "/etc/range.sqlite")
        0
        Statement.range_from_tags
        (text "ENV")
        (some (text "qa"))
        ret
        (world false)
      ≡ fault assertion
unfolding has_mem_names open_db range_request_warn_enabled
unprepared ret = refl

arguments : (second_value [] ≡ some []) × (first_only (text "a" ∷ text "b" ∷ []) ≡ text "a" ∷ [])
unfolding second_value first_only
arguments = (refl, refl)
