-- ===== src/HashSet/Packed.antt =====
-- The packed form of a set in source/src/set.c: its bytes in one buffer, for a set whose data are C
-- strings. A C string is followed by its zero, and an `int` is four bytes, the low one first.
pub mod RoundTrip
mod Fuel
pub mod Sample
mod Tests
use libcrange.Base.{
  ℕ, zero, suc, ◌+◌, ◌-◌, ◌*◌, ◌/◌, ◌%◌, ◌^◌, Text, List, [], ◌∷◌, ◌++◌, Option, none, some,
  if◌then◌else◌, leb, ◌==◌, length,
}
use libcrange.Base.{Run, ok, fault, out_of_bounds, ◌>>=◌}
use libcrange.HashSet.Bucket.{Element, Chain}
use libcrange.HashSet.{Set, set_new, set_add, set_members}

-- the bytes of an `int`, which `memcpy` copies
abbrev pub int_bytes : ℕ → Text
int_bytes n = n % 2 ^ 8 ∷ n / 2 ^ 8 % 2 ^ 8 ∷ n / 2 ^ 16 % 2 ^ 8 ∷ n / 2 ^ 24 % 2 ^ 8 ∷ []

-- -1, the length of data that is null
abbrev pub minus_one : ℕ
minus_one = 2 ^ 32 - 1

-- the bytes that one element adds
abbrev pub entry_size : Element Text → ℕ
entry_size e = length e.name + 1 + 4 + elim e.value [ some d ↦ length d + 1 + 4 | none ↦ 4 ]

pub entries_size : Chain Text → ℕ
entries_size [] = 0
entries_size (e ∷ es) = entry_size e + entries_size es

-- The sum is kept in an `int`, which wraps around: its 32 bits as an `unsigned`.
pub set_pack_size : Set Text → ℕ
set_pack_size s = (entries_size (set_members s) + 4) % 2 ^ 32

-- the length, the text and its zero
abbrev pub pack_text : Text → Text
pack_text t = int_bytes (length t) ++ (t ++ 0 ∷ [])

abbrev pub pack_data : Option Text → Text
pack_data none = int_bytes minus_one
pack_data (some t) = pack_text t

-- the loops over the buckets and their elements
pub pack_elements : Chain Text → Text
pack_elements [] = []
pack_elements (e ∷ es) = pack_text e.name ++ (pack_data e.value ++ pack_elements es)

-- the bytes that are written, which a size that wrapped around leaves too little room for
pub set_pack : Set Text → Text
set_pack s = int_bytes (set_pack_size s) ++ pack_elements (set_members s)

-- `memcpy(&n, p, sizeof(n)); p += sizeof(n);`
pub read_int : Text → Run (ℕ × Text)
read_int (a ∷ b ∷ c ∷ d ∷ p) = ok (a + b * 2 ^ 8 + c * 2 ^ 16 + d * 2 ^ 24, p)
read_int _ = fault out_of_bounds

-- `s = p; p += strlen(p) + 1;`
pub read_string : Text → Run (Text × Text)
read_string [] = fault out_of_bounds
read_string (c ∷ p) =
    let rest = read_string p in if c == 0 then ok ([], p) else (rest >>= λ x. ok (c ∷ x.0, x.1))

-- the data behind a key
pub read_data : Text → Run (Option Text × Text)
read_data p = read_int p >>= λ x.
    if x.0 == minus_one then ok (none, x.1) else (read_string x.1 >>= λ y. ok (some y.0, y.1))

-- The loop of `set_unpack` over the bytes `p` that are left of a buffer of `total` bytes. Every
-- round reads a byte or stops, so that the buffer's length is enough fuel: without fuel no byte is left.
pub unpack_loop : ℕ → ℕ → ℕ → Text → Set Text → Run (Set Text)
unpack_loop zero total size p s = fault out_of_bounds
unpack_loop (suc fuel) total size p s = read_int p >>= λ x. read_string x.1 >>= λ key.
    read_data key.1 >>= λ val. set_add s key.0 val.0 >>= λ s'.
    let rest = unpack_loop fuel total size val.1 s' in
    if leb size (total - length val.1) then ok s' else rest

pub set_unpack : Text → Run (Set Text)
set_unpack packed = read_int packed >>= λ x.
    set_new 0 >>= λ ret. unpack_loop (length packed) (length packed) x.0 x.1 ret
