-- ===== src/Netblock/Longest.antt =====
-- `netcolo_for_ip` of source/functions/netblock.c finds the block with the longest prefix.
use libcrange.Base.{
  ℕ, zero, suc, ◌≡◌, ◌≤◌, ◌<◌, refl, ap, ◌∙◌, Text, Option, none, some, arith, ◌⊎◌, inl, inr,
  Option-cases, Bool-cases, leb, leb→le,
}
use libcrange.HashSet.Bucket.{Element}
use libcrange.HashSet.Resize.{Models}
use libcrange.HashSet.Laws.{set_get-Models}
use libcrange.HashSet.{Set, set_get}
use libcrange.Netblock.{Ip, NetColo, address_key, value_or, seek_netcolo, netcolo_for_ip}

-- Of the keys of the address with at most `n` bits, the one with the most bits that the map `f` has gives
-- `found`, and nothing is found if it has none.
abbrev pub IsLongest : (Text → Option (Element NetColo)) → ℕ → ℕ → Option NetColo → Type 0
IsLongest f ip n found =
    ((b : ℕ) × (0 < b)
      × (b ≤ n)
      × ((e : Element NetColo) × (f (address_key ip b) ≡ some e) × (found ≡ e.value))
      × ((c : ℕ) → b < c → c ≤ n → f (address_key ip c) ≡ none))
    ⊎ (((c : ℕ) → 0 < c → c ≤ n → f (address_key ip c) ≡ none) × (found ≡ none))

at_most :
    (f : Text → Option (Element NetColo)) (ip n c : ℕ)
    → f (address_key ip (suc n)) ≡ none
    → c ≤ suc n
    → (c ≤ n → f (address_key ip c) ≡ none)
    → f (address_key ip c) ≡ none
at_most f ip n c top le low = elim (Bool-cases (leb c n)) [
  | inl below ↦ low (leb→le c n below)
  | inr above ↦ let last : c ≡ suc n = ground arith in rw last top
]

seek_netcolo_found :
    (netblocks : Set NetColo) (ip n : ℕ) (e : Element NetColo)
    → set_get netblocks (address_key ip (suc n)) ≡ some e
    → seek_netcolo netblocks ip (suc n) ≡ e.value
unfolding seek_netcolo
seek_netcolo_found netblocks ip n e h = ap (λ o. value_or o (seek_netcolo netblocks ip n)) h

seek_netcolo_missing :
    (netblocks : Set NetColo) (ip n : ℕ)
    → set_get netblocks (address_key ip (suc n)) ≡ none
    → seek_netcolo netblocks ip (suc n) ≡ seek_netcolo netblocks ip n
unfolding seek_netcolo
seek_netcolo_missing netblocks ip n h = ap (λ o. value_or o (seek_netcolo netblocks ip n)) h

seek_netcolo-IsLongest :
    (netblocks : Set NetColo) {f : Text → Option (Element NetColo)} (ip n : ℕ)
    → Models netblocks f
    → IsLongest f ip n (seek_netcolo netblocks ip n)
unfolding seek_netcolo
seek_netcolo-IsLongest netblocks ip zero m = inr (λ c lo hi. absurd (omega arith), refl)
seek_netcolo-IsLongest netblocks {f} ip (suc n) m =
    let read = set_get-Models (address_key ip (suc n)) m in
    elim (Option-cases (f (address_key ip (suc n)))) [
      | inr (e, here) ↦ inl (
        suc n,
        omega arith,
        omega arith,
        (e, here, seek_netcolo_found netblocks ip n e (read ∙ here)),
        λ c lo hi. absurd (omega arith),
      )
      | inl missing ↦
          rw (seek_netcolo_missing netblocks ip n (read ∙ missing))
            (elim (seek_netcolo-IsLongest netblocks ip n m) [
              | inl (b, lo, hi, found, longer) ↦ inl (
                b,
                lo,
                omega arith,
                found,
                λ c lo' hi'. at_most f ip n c missing hi' (longer c lo'),
              )
              | inr (none', e) ↦ inr (λ c lo hi. at_most f ip n c missing hi (none' c lo), e)
            ])
    ]

-- For a well-formed set of blocks, `netcolo_for_ip` gives the data of the block with the most bits,
-- from 32 down to 1, whose key the address has under the mask of that many bits, and nothing if the set
-- has no such key.
pub netcolo_for_ip-IsLongest :
    (netblocks : Set NetColo) {f : Text → Option (Element NetColo)} (node_ip : Ip)
    → Models netblocks f
    → IsLongest f node_ip.binary 32 (netcolo_for_ip netblocks node_ip)
unfolding netcolo_for_ip
netcolo_for_ip-IsLongest netblocks node_ip m = seek_netcolo-IsLongest netblocks node_ip.binary 32 m
