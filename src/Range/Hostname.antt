-- ===== src/Range/Hostname.antt =====
-- `rangeparts_from_hostname` of source/src/range.c, which takes a text such as `web1..9.example` apart, with
-- `libcrange_get_pcre_substring` of source/src/libcrange.c. What PCRE captures of a text is a parameter.
use libcrange.Base.{
  ℕ, ◌+◌, ◌-◌, ◌≡◌, ◌≤◌, refl, ap, sym, Text, [], ◌∷◌, ◌++◌, Option, none, some, true, false, ◌&&◌,
  if◌then◌else◌, ltb, leb, ◌==◌, length, take, drop, length-append, take-append_width,
  drop-append_width, arith,
}
use libcrange.Base.{Run, ok, fault, out_of_bounds, ◌>>=◌, Returns}
use libcrange.HashSet.Resize.{size_limit}
use libcrange.Range.Meaning.{Denotes}
use libcrange.Range.Numbers.{Numbers, IsNumbered, numbers_count, range_from_rangeparts-Numbers}
use libcrange.Range.{RangeParts, range_from_rangeparts}

-- the offsets of a group, the first byte of it and the first behind it: both are -1 where it is unset
abbrev pub Offsets : Type 0
Offsets = ℕ → Option (ℕ × ℕ)

-- `offsets[2 * k + 1] - offsets[2 * k]`, where it is positive
pub capture_size : Offsets → ℕ → ℕ
capture_size offsets k = elim (offsets k) [ none ↦ 0 | some (from, to) ↦ to - from ]

-- The bytes that are copied have to lie in the text.
pub libcrange_get_pcre_substring : Text → Offsets → ℕ → Run Text
libcrange_get_pcre_substring string offsets substr = elim (offsets substr) [
  | none ↦ ok []
  | some (from, to) ↦
      if to == from
      then ok []
      else if leb from to && leb to (length string)
      then ok (take (to - from) (drop from string))
      else fault out_of_bounds
]

-- the domain: that of the first number, else that of the last
pub parts_domain : Text → Offsets → Run Text
parts_domain hostname offsets =
    if ltb 0 (capture_size offsets 3)
    then libcrange_get_pcre_substring hostname offsets 3
    else if ltb 0 (capture_size offsets 6)
    then libcrange_get_pcre_substring hostname offsets 6
    else ok []

-- The pattern gives the offsets of its groups, `none` where it does not match.
pub rangeparts_from_hostname : (Text → Option Offsets) → Text → Run (Option RangeParts)
rangeparts_from_hostname node_re hostname = elim (node_re hostname) [
  | none ↦ ok none
  | some offsets ↦ libcrange_get_pcre_substring hostname offsets 1 >>= λ prefix.
      libcrange_get_pcre_substring hostname offsets 2 >>= λ first.
      libcrange_get_pcre_substring hostname offsets 5 >>= λ last.
      parts_domain hostname offsets >>= λ domain.
      ok (some (record { prefix = prefix; first = first; last = last; domain = domain }))
]

-- The offsets of a group stand around a text, or the group is unset and the text is empty.
pub data Captured (string : Text) (offsets : Offsets) (k : ℕ) : Text → Type 0 where
  unset : offsets k ≡ none → Captured string offsets k []
  around :
      (before piece after : Text)
      → before ++ (piece ++ after) ≡ string
      → offsets k ≡ some (length before, length before + length piece)
      → Captured string offsets k piece

capture_size_lem :
    (string : Text) (offsets : Offsets) (k : ℕ) (t : Text)
    → Captured string offsets k t
    → capture_size offsets k ≡ length t
unfolding capture_size
capture_size_lem string offsets k t (unset e) = rw (capture_size, e)
capture_size_lem string offsets k t (around before piece after whole e) =
    rw (capture_size, e) (omega arith)

cut_middle :
    (before piece after : Text) (n : ℕ)
    → n ≡ length piece
    → take n (drop (length before) (before ++ (piece ++ after))) ≡ piece
cut_middle before piece after n count =
    rw (drop-append_width (length before) before (piece ++ after) refl)
      (take-append_width n piece after (sym count))

substring-Captured :
    (string : Text) (offsets : Offsets) (k : ℕ) (t : Text)
    → Captured string offsets k t
    → libcrange_get_pcre_substring string offsets k ≡ ok t
unfolding libcrange_get_pcre_substring
substring-Captured string offsets k t (unset e) = rw (libcrange_get_pcre_substring, e)
substring-Captured string offsets k t (around before [] after whole e) =
    let none_left : (length before + 0 == length before) ≡ true = ground arith in
    rw (libcrange_get_pcre_substring, e, none_left)
substring-Captured string offsets k t (around before (c ∷ piece) after whole e) =
    let size = length (c ∷ piece) in
    let some_left : (length before + size == length before) ≡ false = ground arith in
    let ordered : leb (length before) (length before + size) ≡ true = ground arith in
    let inside : leb (length before + size) (length string) ≡ true = ground (
      arith,
      ap length whole,
      length-append before ((c ∷ piece) ++ after),
      length-append piece after,
    ) in
    let cut =
      cut_middle before (c ∷ piece) after (length before + size - length before) (omega arith) in
    rw (libcrange_get_pcre_substring, e, some_left, ordered, inside) (ap ok (rw whole at cut))

-- the domain that a text stands for: the first that is not empty
abbrev pub first_domain : Text → Text → Text
first_domain [] own = own
first_domain (c ∷ repeated) own = c ∷ repeated

parts_domain-first_domain :
    (string : Text) (offsets : Offsets) (d d' : Text)
    → Captured string offsets 3 d
    → Captured string offsets 6 d'
    → parts_domain string offsets ≡ ok (first_domain d d')
unfolding parts_domain
parts_domain-first_domain string offsets [] [] c c' =
    rw (capture_size_lem string offsets 3 _ c, capture_size_lem string offsets 6 _ c')
parts_domain-first_domain string offsets [] (b ∷ d') c c' =
    let more : ltb 0 (length (b ∷ d')) ≡ true = ground arith in
    rw (capture_size_lem string offsets 3 _ c, capture_size_lem string offsets 6 _ c', more)
      (substring-Captured string offsets 6 _ c')
parts_domain-first_domain string offsets (b ∷ d) d' c c' =
    let more : ltb 0 (length (b ∷ d)) ≡ true = ground arith in
    rw (capture_size_lem string offsets 3 _ c, more) (substring-Captured string offsets 3 _ c)

-- what the groups of the pattern hold
abbrev pub captured_parts : Text → Text → Text → Text → Text → RangeParts
captured_parts prefix first last repeated own = record {
  prefix = prefix;
  first = first;
  last = last;
  domain = first_domain repeated own;
}

-- Where the pattern for ranges of hosts matches a text, and its groups stand around a prefix, a first
-- and a last number and two domains, or are unset and empty, `rangeparts_from_hostname` gives the
-- prefix, the two numbers and the first domain, or the second where the first is empty. For ends that
-- are numbered and at most 1610612741 numbers between them, `range_from_rangeparts` then returns
-- exactly the names with these numbers.
pub rangeparts_from_hostname-Numbers :
    (node_re : Text → Option Offsets) (hostname : Text) (offsets : Offsets)
    (prefix first last repeated own : Text)
    → node_re hostname ≡ some offsets
    → Captured hostname offsets 1 prefix
    → Captured hostname offsets 2 first
    → Captured hostname offsets 5 last
    → Captured hostname offsets 3 repeated
    → Captured hostname offsets 6 own
    → IsNumbered (captured_parts prefix first last repeated own)
    → numbers_count (captured_parts prefix first last repeated own) ≤ size_limit
    → (rangeparts_from_hostname node_re hostname
        ≡ ok (some (captured_parts prefix first last repeated own)))
      × Returns (range_from_rangeparts (captured_parts prefix first last repeated own)) λ r.
        Denotes r
          (Numbers (captured_parts prefix first last repeated own))
          (numbers_count (captured_parts prefix first last repeated own))
unfolding rangeparts_from_hostname
rangeparts_from_hostname-Numbers node_re hostname offsets p f l d d' matched cp cf cl cd cd'
      numbered few =
    let (r, run, (dr, _)) =
      range_from_rangeparts-Numbers (captured_parts p f l d d') numbered few in
    (
      rw (
        rangeparts_from_hostname,
        matched,
        substring-Captured hostname offsets 1 p cp,
        ◌>>=◌,
        substring-Captured hostname offsets 2 f cf,
        substring-Captured hostname offsets 5 l cl,
        parts_domain-first_domain hostname offsets d d' cd cd',
      ),
      (r, run, dr),
    )
