-- ===== src/HashSet/Packed/Sample.antt =====
-- Small sets on which the theorems of the packed form in source/src/set.c, and of what is built on it, are
-- tested.
use libcrange.Base.{◌≡◌, refl, Text, text, [], ◌∷◌, Option, none, some, replicate, str_eq, arith}
use libcrange.Base.{ok}
use libcrange.HashSet.Hash.{string_hash}
use libcrange.HashSet.Primes.{next_prime, int_to_ulong}
use libcrange.HashSet.Bucket.{Element, assign}
use libcrange.HashSet.Resize.{Models, set_new-Models}
use libcrange.HashSet.Laws.{update, set_add_noresize-Models}
use libcrange.HashSet.Packed.{entries_size}
use libcrange.HashSet.Packed.RoundTrip.{IsPackable}
use libcrange.HashSet.{Set, set_new, set_add_noresize, set_members, elements, slot}

abbrev pub nobody : Set Text
nobody = record { table = replicate 19 []; members = 0 }

nobody_new : set_new {D = Text} 0 ≡ ok nobody
unfolding set_new next_prime int_to_ulong
nobody_new = refl

pub nobody-Models : Models nobody (λ _. none)
nobody-Models =
    let (s, run, (m, _, _)) = set_new-Models {D = Text} 0 (omega arith) in
    let same : s ≡ nobody = cc nobody_new in rw (← same) m

-- one name without data
abbrev pub web : Set Text
web = set_add_noresize nobody (text "web1") none

abbrev pub only_web : Text → Option (Element Text)
only_web = update (λ _. none) (text "web1") (some (record { name = text "web1"; value = none }))

pub web-Models : Models web only_web
web-Models = (set_add_noresize-Models nobody (text "web1") none nobody-Models).0

pub web_members :
    (set_members web ≡ record { name = text "web1"; value = none } ∷ []) × (web.members ≡ 1)
unfolding set_members elements set_add_noresize slot string_hash assign str_eq
web_members = (refl, refl)

pub web-IsPackable : IsPackable (set_members web)
web-IsPackable =
    rw (web_members.0) ((omega arith, (omega arith, (omega arith, (omega arith, tt)))), tt, tt)

pub web_size : entries_size (set_members web) ≡ 13
unfolding entries_size
web_size = rw (web_members.0)
