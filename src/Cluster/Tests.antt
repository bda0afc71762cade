-- ===== src/Cluster/Tests.antt =====
-- Tests of what the cluster modules share.
use libcrange.Base.{◌≡◌, refl, text, none, some}
use libcrange.Cluster.{split_colon}

colons :
    (split_colon (text "web:ALL:x") ≡ some (text "web", text "ALL:x"))
    × (split_colon (text "web") ≡ none)
unfolding split_colon
colons = (refl, refl)
