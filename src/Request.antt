-- ===== src/Request.antt =====
-- The request of source/src/range_request.c: the warnings of a query and its result. The memory
-- pool is not modelled, and the library handle is the environment of `Evaluate`.
pub mod Warned
mod Tests
use libcrange.Base.{
  Text, List, ◌∷◌, ◌++◌, Option, none, some, Bool, true, false, ◌||◌, is_some, if◌then◌else◌,
}
use libcrange.Base.{Run, ok, fault, assertion, ◌>>=◌}
use libcrange.HashSet.{Set, set_new, set_add, set_add_noresize, set_get_data}
use libcrange.Range.{Range, range_new, range_add, range_get_hostnames}

pub record Request : Type 0 where
  pub warnings : Option Text
  pub warn_type : Option (Set Range)
  pub warn_enabled : Bool
  pub r : Option Range

unfoldable pub range_request_new : Request
range_request_new = record { warnings = none; warn_type = none; warn_enabled = true; r = none }

unfoldable pub range_request_warn_enabled : Request → Bool
range_request_warn_enabled rr = rr.warn_enabled

unfoldable pub range_request_disable_warns : Request → Request
range_request_disable_warns rr = record rr { warn_enabled = false }

unfoldable pub range_request_enable_warns : Request → Request
range_request_enable_warns rr = record rr { warn_enabled = true }

unfoldable pub range_request_results : Request → Option Range
range_request_results rr = rr.r

unfoldable pub range_request_set : Request → Range → Request
range_request_set rr r = record rr { r = some r }

pub range_request_has_warnings : Request → Bool
range_request_has_warnings rr = is_some rr.warnings || is_some rr.warn_type

-- with its assertion that a result is set
unfoldable pub range_request_nodes : Request → Run (List Text)
range_request_nodes rr = elim rr.r [ none ↦ fault assertion | some r ↦ ok (range_get_hostnames r) ]

-- The warning is given as it stands after its format is filled in. Warnings are joined by `|`.
unfoldable pub range_request_warn : Request → Text → Request
range_request_warn rr warn =
    if rr.warn_enabled
    then record rr {
      warnings = some (elim rr.warnings [ none ↦ warn | some p ↦ p ++ (124 ∷ warn) ]);
    }
    else rr

-- The set of warnings, made at the first one.
pub warn_set : Request → Run (Set Range)
warn_set rr = elim rr.warn_type [ none ↦ set_new 0 | some s ↦ ok s ]

-- The nodes of one type of warning, with the set that holds them.
pub warn_nodes : Set Range → Text → Run (Set Range × Range)
warn_nodes s type = elim (set_get_data s type) [
  | some nodes ↦ ok (s, nodes)
  | none ↦ range_new >>= λ nodes. set_add s type (some nodes) >>= λ s'. ok (s', nodes)
]

-- `range_add` changes the range that the set points to: it is written back under its type.
unfoldable pub range_request_warn_type : Request → Text → Text → Run Request
range_request_warn_type rr type node =
    if rr.warn_enabled
    then (do
      s ← warn_set rr
      (s', nodes) ← warn_nodes s type
      nodes' ← range_add nodes node
      ok (record rr { warn_type = some (set_add_noresize s' type (some nodes')) }))
    else ok rr
