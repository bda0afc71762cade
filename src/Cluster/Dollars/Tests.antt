-- ===== src/Cluster/Dollars/Tests.antt =====
-- Tests of the rewriting of definitions, and its theorem at a concrete line.
use libcrange.Base.{◌≡◌, refl, text, List, [], ◌∷◌, true, false}
use libcrange.Base.{ok}
use libcrange.Cluster.Dollars.{Place, rewrite, substitute_dollars}
use libcrange.Cluster.Dollars.Segments.{
  Segment, byte, pattern_between, section_name, IsLine, substitute_dollars-written,
}

dollars :
    (rewrite true (text "web") Place.outside (text "$A-B,/$C/") ≡ text "cluster(web:A-B),/$C/")
    × (rewrite false (text "web") Place.outside (text "$A-B") ≡ text "cluster(web:A)-B")
unfolding rewrite
dollars = (refl, refl)

-- `a,/$x/,$ALL`
abbrev parts : List Segment
parts =
    byte b'a' ∷ byte b',' ∷ pattern_between (text "$x") ∷ byte b',' ∷ section_name (text "ALL") ∷ []

parts-IsLine : IsLine true parts
unfolding IsLine
parts-IsLine = (refl, refl, (refl, refl, (refl, (refl, refl, (refl, refl, tt)))))

substitute_dollars-written_example :
    substitute_dollars true (text "web") (text "a,/$x/,$ALL") ≡ ok (text "a,/$x/,cluster(web:ALL)")
substitute_dollars-written_example = substitute_dollars-written true (text "web") parts parts-IsLine
