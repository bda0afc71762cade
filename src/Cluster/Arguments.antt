-- ===== src/Cluster/Arguments.antt =====
-- The arguments of the functions over clusters.
use libcrange.Base.{◌≡◌, refl, List, ◌∷◌}
use libcrange.Base.{ok}
use libcrange.Range.{Range, range_get_hostnames}
use libcrange.Cluster.{arg_names}

pub first_arg : (a : Range) (r : List Range) → arg_names (a ∷ r) 0 ≡ ok (range_get_hostnames a)
unfolding arg_names
first_arg a r = refl
