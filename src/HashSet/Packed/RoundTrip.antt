-- ===== src/HashSet/Packed/RoundTrip.antt =====
-- `set_pack` and `set_unpack` of source/src/set.c: the size of the buffer, and what is read back.
use libcrange.Base.{
  ℕ, zero, suc, ◌+◌, ◌-◌, ◌*◌, ◌/◌, ◌%◌, ◌^◌, ◌≡◌, ◌≤◌, ◌<◌, refl, ◌∙◌, Text, [], ◌∷◌, ◌++◌, Option,
  none, some, true, false, if◌then◌else◌, leb, ◌==◌, length, arith, str_eq_iff, str_eq_refl, ap,
  ◌⊎◌, length-append, inr,
}
use libcrange.Base.{ok, fault, out_of_bounds, ◌>>=◌, Returns}
use libcrange.HashSet.Bucket.{Element, Chain, find, IsDistinct}
use libcrange.HashSet.Elements.{Lists}
use libcrange.HashSet.Resize.{Models, set_new-Models, size_limit}
use libcrange.HashSet.Laws.{entries, Models_ext, set_add-Models, set_members-Lists}
use libcrange.HashSet.Algebra.{overlay}
use libcrange.HashSet.Packed.{
  int_bytes, minus_one, entry_size, entries_size, set_pack_size, pack_text, pack_data,
  pack_elements, set_pack, read_int, read_string, read_data, unpack_loop, set_unpack,
}
use libcrange.HashSet.{Set, set_add, set_members}

-- a text as C stores it: no byte is the zero that ends it
abbrev pub IsCString : Text → Type 0
IsCString [] = Unit
IsCString (c ∷ t) = (0 < c) × IsCString t

abbrev pub IsData : Option Text → Type 0
IsData none = Unit
IsData (some d) = IsCString d

-- The names and the data of the elements are C strings.
abbrev pub IsPackable : Chain Text → Type 0
IsPackable [] = Unit
IsPackable (e ∷ es) = IsCString e.name × IsData e.value × IsPackable es

length-pack_data :
    (v : Option Text) → length (pack_data v) ≡ elim v [ some d ↦ length d + 1 + 4 | none ↦ 4 ]
length-pack_data none = refl
length-pack_data (some d) = omega (arith, length-append d (0 ∷ []))

length-pack_elements : (es : Chain Text) → length (pack_elements es) ≡ entries_size es
unfolding pack_elements entries_size
length-pack_elements [] = refl
length-pack_elements (e ∷ es) = omega (
  arith,
  length-append e.name (0 ∷ []),
  length-append (e.name ++ 0 ∷ []) (pack_data e.value ++ pack_elements es),
  length-append (pack_data e.value) (pack_elements es),
  length-pack_data e.value,
  length-pack_elements es,
)

-- Where the packed form has fewer than 2147483648 bytes, `set_pack` writes exactly the number of bytes
-- that `set_pack_size` allocates.
pub length-set_pack :
    (s : Set Text) → length (set_pack s) < 2 ^ 31 → length (set_pack s) ≡ set_pack_size s
unfolding set_pack set_pack_size
length-set_pack s small = omega (arith, length-pack_elements (set_members s), small)

set_pack_size_small :
    (s : Set Text)
    → entries_size (set_members s) + 4 < 2 ^ 31
    → set_pack_size s ≡ entries_size (set_members s) + 4
unfolding set_pack_size
set_pack_size_small s small = omega (arith, small)

-- It writes its size at least.
pub set_pack_some : (s : Set Text) → (length (set_pack s) == 0) ≡ false
unfolding set_pack
set_pack_some s = ground arith

read_int-int_bytes : (n : ℕ) (p : Text) → n < 2 ^ 32 → read_int (int_bytes n ++ p) ≡ ok (n, p)
unfolding read_int
read_int-int_bytes n p h =
    let whole : n % 2 ^ 8
          + n / 2 ^ 8 % 2 ^ 8 * 2 ^ 8
          + n / 2 ^ 16 % 2 ^ 8 * 2 ^ 16
          + n / 2 ^ 24 % 2 ^ 8 * 2 ^ 24
        ≡ n =
      omega arith in
    rw whole

read_string_back : (t p : Text) → IsCString t → read_string ((t ++ 0 ∷ []) ++ p) ≡ ok (t, p)
unfolding read_string
read_string_back [] p h = refl
read_string_back (c ∷ t) p (pos, h) =
    let more : (c == 0) ≡ false = ground arith in rw (more, read_string_back t p h)

read_data-pack_data :
    (v : Option Text) (p : Text)
    → IsData v
    → length (pack_data v) < 2 ^ 31
    → read_data (pack_data v ++ p) ≡ ok (v, p)
unfolding read_data
read_data-pack_data none p h few = rw (read_int-int_bytes minus_one p (omega arith))
read_data-pack_data (some d) p h few =
    let small : length d < 2 ^ 31 = omega (arith, length-append d (0 ∷ [])) in
    let real : (length d == minus_one) ≡ false = ground arith in
    rw (
      read_int-int_bytes (length d) ((d ++ 0 ∷ []) ++ p) (omega arith),
      ◌>>=◌,
      real,
      read_string_back d p h,
    )

-- One round reads back one element.
unpack_entry :
    (fuel total : ℕ) (e : Element Text) (rest : Text) (s : Set Text)
    → IsCString e.name
    → IsData e.value
    → entry_size e < 2 ^ 31
    → unpack_loop (suc fuel) total total (pack_text e.name ++ (pack_data e.value ++ rest)) s ≡ (
        set_add s e.name e.value >>= λ s'.
        if leb total (total - length rest) then ok s' else unpack_loop fuel total total rest s')
unfolding unpack_loop
unpack_entry fuel total e rest s name data' small =
    let behind = pack_data e.value ++ rest in
    let first = read_int-int_bytes (length e.name) ((e.name ++ 0 ∷ []) ++ behind) (omega arith) in
    let second = read_string_back e.name behind name in
    let third = read_data-pack_data e.value rest data' (omega (arith, length-pack_data e.value)) in
    rw (first, ◌>>=◌, second, third)

-- The loop over the bytes of some elements, up to the end of the buffer, adds those elements.
unpack_loop-Models :
    (fuel total : ℕ) (e : Element Text) (es : Chain Text) (s : Set Text)
    {f : Text → Option (Element Text)}
    → Models s f
    → IsDistinct (e ∷ es)
    → IsPackable (e ∷ es)
    → ((q : Text) → (find q (e ∷ es) ≡ none) ⊎ (f q ≡ none))
    → length es < fuel
    → s.members + length (e ∷ es) ≤ size_limit
    → entries_size (e ∷ es) ≤ total
    → total < 2 ^ 31
    → Returns (unpack_loop fuel total total (pack_elements (e ∷ es)) s) λ r.
      Models r (overlay (λ _. true) (λ q. find q (e ∷ es)) f)
      × (r.members ≡ s.members + length (e ∷ es))
unfolding pack_elements entries_size find
unpack_loop-Models zero total e es s m d ok' apart enough few fits small = absurd (omega arith)
unpack_loop-Models (suc fuel) total e [] s {f} m d ok' apart enough few fits small =
    let (r, run, (m', count, _)) = set_add-Models s e.name e.value m (omega arith) in
    let new : f e.name ≡ none = ground (arith, apart e.name, str_eq_refl e.name) in
    let last : leb total (total - 0) ≡ true = ground arith in
    (
      r,
      unpack_entry fuel total e [] s ok'.0 ok'.1 (omega arith) ∙ rw (run, ◌>>=◌, last),
      (Models_ext m' (λ q. ground (arith, str_eq_iff e.name q)), omega (arith, ap entries new)),
    )
unpack_loop-Models (suc fuel) total e (e' ∷ es) s {f} m d ok' apart enough few fits small =
    let (s', run, (m', count, _)) = set_add-Models s e.name e.value m (omega arith) in
    let new : f e.name ≡ none = ground (arith, apart e.name, str_eq_refl e.name) in
    let (r, run', (m'', count')) =
      unpack_loop-Models fuel total e' es s' m' d.1 ok'.2
        (λ q. ground (arith, apart q, str_eq_iff e.name q, d.0)) (omega arith)
        (omega (arith, ap entries new)) (omega arith) small in
    let rest = pack_elements (e' ∷ es) in
    let more : leb total (total - length rest) ≡ false =
      ground (arith, length-pack_elements (e' ∷ es)) in
    (
      r,
      unpack_entry fuel total e rest s ok'.0 ok'.1 (omega arith) ∙ rw (run, ◌>>=◌, more) run',
      (
        Models_ext m'' (λ q. ground (arith, str_eq_iff e.name q, d.0)),
        omega (arith, ap entries new),
      ),
    )

length-le-entries_size : (es : Chain Text) → length es ≤ entries_size es
unfolding entries_size
length-le-entries_size [] = omega arith
length-le-entries_size (e ∷ es) = omega (arith, length-le-entries_size es)

unpack_entries :
    (e : Element Text) (es : Chain Text)
    → IsDistinct (e ∷ es)
    → IsPackable (e ∷ es)
    → length (e ∷ es) ≤ size_limit
    → entries_size (e ∷ es) + 4 < 2 ^ 31
    → Returns
        (set_unpack (int_bytes (entries_size (e ∷ es) + 4) ++ pack_elements (e ∷ es)))
        λ r. Models r (λ q. find q (e ∷ es)) × (r.members ≡ length (e ∷ es))
unfolding set_unpack
unpack_entries e es d packable few small =
    let total = entries_size (e ∷ es) + 4 in
    let body = pack_elements (e ∷ es) in
    let width : length (int_bytes total ++ body) ≡ total =
      omega (arith, length-pack_elements (e ∷ es)) in
    let (fresh, made, (m₀, _, empty)) = set_new-Models {D = Text} 0 (omega arith) in
    let (r, run, (m', count)) =
      unpack_loop-Models total total e es fresh m₀ d packable (λ q. inr refl)
        (omega (arith, length-le-entries_size (e ∷ es))) (omega arith) (omega arith) small in
    (
      r,
      rw (read_int-int_bytes total body (omega arith), ◌>>=◌, made, width) run,
      (Models_ext m' (λ q. ground arith), omega arith),
    )

-- For a well-formed set with at least one and at most 1610612741 members, whose names and data are C
-- strings, and whose packed form has fewer than 2147483648 bytes, `set_unpack` reads the bytes of
-- `set_pack` without leaving the buffer and returns a well-formed set with the same names, data and
-- count.
pub set_unpack-set_pack :
    (s : Set Text) {f : Text → Option (Element Text)}
    → Models s f
    → IsPackable (set_members s)
    → 0 < s.members
    → s.members ≤ size_limit
    → entries_size (set_members s) + 4 < 2 ^ 31
    → Returns (set_unpack (set_pack s)) λ r. Models r f × (r.members ≡ s.members)
unfolding set_pack
set_unpack-set_pack s {f} m packable some_member few small =
    let whole : set_pack_size s ≡ entries_size (set_members s) + 4 = set_pack_size_small s small in
    rw whole (of_list (set_members s) (set_members-Lists s m) packable small)
  where
    of_list :
        (es : Chain Text)
        → Lists es s.members f
        → IsPackable es
        → entries_size es + 4 < 2 ^ 31
        → Returns
            (set_unpack (int_bytes (entries_size es + 4) ++ pack_elements es))
            λ r. Models r f × (r.members ≡ s.members)
    of_list [] l ok' small' = absurd (omega (arith, l.counted))
    of_list (e ∷ es) l ok' small' =
        let (r, run, (m', count)) =
          unpack_entries e es l.distinct ok' (omega (arith, l.counted)) small' in
        (r, run, (Models_ext m' l.reads, omega (arith, l.counted)))

-- For a well-formed set without members, `set_unpack` reads past the end of the buffer that `set_pack`
-- writes.
pub set_unpack_empty :
    (s : Set Text) {f : Text → Option (Element Text)}
    → Models s f
    → s.members ≡ 0
    → set_unpack (set_pack s) ≡ fault out_of_bounds
unfolding set_pack set_pack_size
set_unpack_empty s {f} m empty = of_list (set_members s) (set_members-Lists s m)
  where
    of_list :
        (es : Chain Text)
        → Lists es s.members f
        → set_unpack (int_bytes ((entries_size es + 4) % 2 ^ 32) ++ pack_elements es)
          ≡ fault out_of_bounds
    of_list [] l =
        let (fresh, made, _) = set_new-Models {D = Text} 0 (omega arith) in
        unfold set_unpack unpack_loop pack_elements entries_size read_int in rw (made, ◌>>=◌)
    of_list (e ∷ es) l = absurd (omega (arith, l.counted))
