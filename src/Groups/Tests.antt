-- ===== src/Groups/Tests.antt =====
-- Tests of the modules for groups in databases, and the theorem on source/functions/pgsql.c at a concrete
-- database of one group.
use libcrange.Base.{
  ◌≡◌, ◌*◌, refl, Text, text, List, [], ◌∷◌, none, some, true, false, arith, str_eq, inr,
}
use libcrange.Base.{Returns}
use libcrange.Range.Algebra.{range_from_literal-Denotes}
use libcrange.Range.Meaning.{listed, Denotes}
use libcrange.Range.{range_from_literal}
use libcrange.Request.{range_request_new}
use libcrange.Cluster.{World}
use libcrange.Groups.Rows.{pgsql_group-Denotes}
use libcrange.Groups.{Postgres, connected, GroupStore, pgsql_group, pgsql_text, mysql_text, is_all}

queries :
    (mysql_text (text "web") ≡ text "select range from tags where name='web'")
    × (mysql_text (text "ALL") ≡ text "select name from nodes")
    × (pgsql_text (text "yst") (text "web")
        ≡ text "select element from velementgroups where namespace='yst' and groupname='web'")
unfolding mysql_text pgsql_text is_all str_eq
queries = (refl, refl, refl)

abbrev two_elements : Text → List Text
two_elements _ = text "web1" ∷ text "web2" ∷ []

abbrev postgres : Postgres (Unit {0})
postgres = record { connect = λ info. connected tt; exec = λ conn query. inr (two_elements query) }

abbrev world : World (GroupStore (Unit {0}))
world = record {
  request = range_request_new;
  store = record { conn = some tt; want_caching = true; getcfg = λ name. none };
}

made :
    Returns
      (range_from_literal (text "web"))
      λ r. Denotes r (λ q. text "web" ≡ q) 1 × (r.quoted ≡ false)
made = range_from_literal-Denotes (text "web")

pgsql_group-Denotes_example : Returns (pgsql_group postgres (made.0 ∷ []) world) λ x.
    Denotes x.0 (λ q. (m : Text) × (text "web" ≡ m) × (listed q (two_elements m) ≡ true)) (1 * 2)
    × (x.1 ≡ world)
pgsql_group-Denotes_example =
    pgsql_group-Denotes postgres (text "yst") tt two_elements 2 made.0 world (λ q. text "web" ≡ q) 1
      refl refl made.2.0 made.2.1 (λ m e. (refl, omega arith)) (omega arith)
