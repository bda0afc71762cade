-- ===== src/Request/Tests.antt =====
-- Tests of the warnings by type of source/src/range_request.c, and their theorem at a new request.
use libcrange.Base.{◌≡◌, text, true, ◌⊎◌, arith}
use libcrange.Base.{Returns}
use libcrange.Request.Warned.{IsWarned, range_request_warn_type-IsWarned}
use libcrange.Request.{range_request_new, range_request_warn_type}

none_yet : IsWarned range_request_new.warn_type (λ _ _. ⊥) 0
unfolding IsWarned range_request_new
none_yet = λ type q none_of. none_of

range_request_warn_type-IsWarned_example :
    Returns (range_request_warn_type range_request_new (text "NO_CLUSTER") (text "web1")) λ rr'.
      IsWarned rr'.warn_type
        (λ t q. (true ≡ true) × ((text "NO_CLUSTER" ≡ t) × (text "web1" ≡ q)) ⊎ ⊥)
        1
      × (rr' ≡ record range_request_new { warn_type = rr'.warn_type })
unfolding range_request_new
range_request_warn_type-IsWarned_example =
    range_request_warn_type-IsWarned range_request_new (text "NO_CLUSTER") (text "web1") (λ _ _. ⊥)
      0 none_yet (omega arith)
