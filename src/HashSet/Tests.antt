-- ===== src/HashSet/Tests.antt =====
-- Tests of the set of source/src/set.c, and its theorems at concrete sets.
use mathlib.Core.Option.{or_else}
use libcrange.Base.{
  ◌+◌, ◌≡◌, ◌≤◌, ◌<◌, refl, Text, text, [], ◌∷◌, Option, none, some, arith, replicate,
}
use libcrange.Base.{str_eq, ok, fault, assertion, ◌>>=◌, Returns}
use libcrange.HashSet.Hash.{string_hash}
use libcrange.HashSet.Primes.{next_prime, next_prime_aborts}
use libcrange.HashSet.Bucket.{Element, assign, unlink}
use libcrange.HashSet.Elements.{Lists}
use libcrange.HashSet.Resize.{Models, set_new-Models, resize-Models}
use libcrange.HashSet.Laws.{update, entries, set_add-Models, set_remove-Models, set_members-Lists}
use libcrange.HashSet.Algebra.{without, set_union_inplace-Models, set_diff-Models}
use libcrange.HashSet.Sweep.{set_diff_inplace-Models}
use libcrange.HashSet.{
  Set, hashsize, set_new, set_add, set_add_noresize, resize, set_remove, set_members, elements,
  slot, set_union_inplace, set_diff, set_diff_inplace,
}

-- all four remainders of the length, the bytes above 127 as signed characters
hash_values :
    (string_hash (text "a") ≡ 291415938)
    × (string_hash (text "ab") ≡ 1366002500)
    × (string_hash (text "foo") ≡ 1810910381)
    × (string_hash (text "web1") ≡ 2143634403)
    × (string_hash (text "web1.example") ≡ 1934230631)
    × (string_hash (0xe9 ∷ 0xff ∷ 0xfe ∷ []) ≡ 322486725)
unfolding string_hash
hash_values = (refl, refl, refl, refl, refl, refl)

next_prime_values :
    (next_prime 0 ≡ ok 19) × (next_prime 20 ≡ ok 53) × (next_prime 4294967291 ≡ fault assertion)
unfolding next_prime
next_prime_values = (refl, refl, refl)

abbrev entry : Text → Element Text
entry k = record { name = k; value = none }

-- An empty set, one with a name and one with two, as the operations build them.
made : Returns (set_new {D = Text} 0) λ s. Models s (λ _. none) × (0 ≤ hashsize s) × (s.members ≡ 0)
made = set_new-Models 0 (omega arith)

abbrev empty : Set Text
empty = made.0

empty-Models : Models empty (λ _. none)
empty-Models = made.2.0

abbrev only_web : Text → Option (Element Text)
only_web = update (λ _. none) (text "web1") (some (entry (text "web1")))

web_made :
    Returns
      (set_add empty (text "web1") none)
      λ r. Models r only_web × (r.members + 0 ≡ empty.members + 1) × (empty.members < hashsize r)
web_made = set_add-Models empty (text "web1") none empty-Models (omega (arith, made.2.2))

abbrev web : Set Text
web = web_made.0

web-Models : Models web only_web
web-Models = web_made.2.0

web_members : web.members ≡ 1
web_members = omega (arith, web_made.2.1, made.2.2)

abbrev both_names : Text → Option (Element Text)
both_names = update only_web (text "db1") (some (entry (text "db1")))

both_made : Returns (set_add web (text "db1") none) λ r.
    Models r both_names
    × (r.members + entries (only_web (text "db1")) ≡ web.members + 1)
    × (web.members < hashsize r)
both_made = set_add-Models web (text "db1") none web-Models (omega (arith, web_members))

abbrev both : Set Text
both = both_made.0

both-Models : Models both both_names
both-Models = both_made.2.0

abbrev empty_table : Set Text
empty_table = record { table = replicate 19 []; members = 0 }

-- the operations run on the set of two names
two_names :
    (set_add empty_table (text "web1") none
      >>= (λ s. set_add s (text "db1") none)
      >>= (λ s. ok (set_members (set_remove s (text "web1")))))
    ≡ ok (entry (text "db1") ∷ [])
unfolding set_add resize set_add_noresize set_remove set_members elements slot string_hash assign
    unlink next_prime str_eq
two_names = refl

next_prime_aborts_example : next_prime 4294967300 ≡ fault assertion
next_prime_aborts_example = next_prime_aborts 4294967300 (omega arith)

set_add-Models_example : Returns (set_add web (text "cache1") none) λ r.
    Models r (update only_web (text "cache1") (some (entry (text "cache1"))))
    × (r.members + entries (only_web (text "cache1")) ≡ web.members + 1)
    × (web.members < hashsize r)
set_add-Models_example =
    set_add-Models web (text "cache1") none web-Models (omega (arith, web_members))

set_remove-Models_example :
    Models (set_remove web (text "web1")) (update only_web (text "web1") none)
    × ((set_remove web (text "web1")).members + entries (only_web (text "web1")) ≡ web.members)
set_remove-Models_example = set_remove-Models web (text "web1") web-Models

set_union_inplace-Models_example :
    Returns
      (set_union_inplace empty web)
      λ r. Models r (λ q. or_else (only_web q) none) × (r.members ≤ empty.members + web.members)
set_union_inplace-Models_example =
    set_union_inplace-Models empty web empty-Models web-Models
      (omega (arith, web_members, made.2.2))

set_diff_inplace-Models_example :
    Models (set_diff_inplace both web) (λ q. without (both_names q) (only_web q))
    × ((set_diff_inplace both web).members ≤ both.members)
    × (hashsize (set_diff_inplace both web) ≡ hashsize both)
set_diff_inplace-Models_example = set_diff_inplace-Models both web both-Models web-Models

resize-Models_example : Returns (resize web 60) λ r.
    Models r only_web × (r.members ≡ web.members) × (hashsize web ≤ hashsize r) × (60 ≤ hashsize r)
resize-Models_example = resize-Models web 60 web-Models (omega arith)

set_members-Lists_example : Lists (set_members web) web.members only_web
set_members-Lists_example = set_members-Lists web web-Models

set_diff-Models_example :
    Returns
      (set_diff both web)
      λ r. Models r (λ q. without (both_names q) (only_web q)) × (r.members ≤ both.members)
set_diff-Models_example = set_diff-Models both web both-Models web-Models
