-- ===== src/Range/Tests.antt =====
-- Tests of the ranges of source/src/range.c, and their theorems at concrete ranges.
use libcrange.Base.{
  if◌then◌else◌, ◌==◌, ◌≡◌, ◌≤◌, refl, Text, text, some, none, [], ◌∷◌, false, true, ◌||◌, arith,
}
use libcrange.Base.{ok, fault, overflow, Returns}
use libcrange.HashSet.Resize.{size_limit}
use libcrange.Range.Decimal.{digits_value, atoi, format_padded, itoa}
use libcrange.Range.Meaning.{Denotes}
use libcrange.Range.Algebra.{range_from_literal-Denotes, range_from_nonrange_literal-Denotes}
use libcrange.Range.Braces.{Joins, range_from_braces-Denotes}
use libcrange.Range.Numbers.{
  IsNumbered, Numbers, numbers_count, first_number, last_number, range_from_rangeparts-Numbers,
}
use libcrange.Range.Hostname.{
  Offsets, unset, around, captured_parts, rangeparts_from_hostname,
  rangeparts_from_hostname-Numbers,
}
use libcrange.Range.{
  Range, RangeParts, range_from_literal, range_from_nonrange_literal, range_from_braces,
  range_from_rangeparts, part_names,
}

decimal_values :
    (atoi (text "0042") ≡ ok 42)
    × (format_padded 4 42 ≡ text "0042")
    × (format_padded 1 42 ≡ text "42")
    × (itoa 2147483647 ≡ text "2147483647")
    × (atoi (text "2147483648") ≡ fault overflow)
unfolding atoi format_padded itoa
decimal_values = (refl, refl, refl, refl, refl)

-- node1098..101
abbrev nodes : RangeParts
nodes = record { prefix = text "node"; first = text "1098"; last = text "101"; domain = [] }

nodes_names :
    part_names nodes (text "1") 3 4 98
    ≡ text "node1098" ∷ text "node1099" ∷ text "node1100" ∷ text "node1101" ∷ []
unfolding part_names format_padded
nodes_names = refl

nodes_last : (first_number nodes ≡ 1098) × (last_number nodes ≡ 1101)
unfolding digits_value
nodes_last = (refl, refl)

nodes-IsNumbered : IsNumbered nodes
unfolding digits_value
nodes-IsNumbered = record {
  first_digits = (refl, (refl, (refl, (refl, tt))));
  last_digits = (refl, (refl, (refl, tt)));
  some_digit = omega arith;
  last_small = omega arith;
  first_small = omega arith;
}

nodes_few : numbers_count nodes ≤ size_limit
unfolding digits_value
nodes_few = omega arith

range_from_rangeparts-Numbers_example :
    Returns
      (range_from_rangeparts nodes)
      λ r. Denotes r (Numbers nodes) (numbers_count nodes) × (r.quoted ≡ false)
range_from_rangeparts-Numbers_example =
    range_from_rangeparts-Numbers nodes nodes-IsNumbered nodes_few

web_made :
    Returns
      (range_from_literal (text "web"))
      λ r. Denotes r (λ q. text "web" ≡ q) 1 × (r.quoted ≡ false)
web_made = range_from_literal-Denotes (text "web")

db_made :
    Returns
      (range_from_nonrange_literal (text "db"))
      λ r. Denotes r (λ q. text "db" ≡ q) 1 × (r.quoted ≡ true)
db_made = range_from_nonrange_literal-Denotes (text "db")

abbrev web : Range
web = web_made.0

abbrev db : Range
db = db_made.0

web-Denotes : Denotes web (λ q. text "web" ≡ q) 1
web-Denotes = web_made.2.0

db-Denotes : Denotes db (λ q. text "db" ≡ q) 1
db-Denotes = db_made.2.0

range_from_nonrange_literal-Denotes_example :
    Returns
      (range_from_nonrange_literal (text "a b"))
      λ r. Denotes r (λ q. text "a b" ≡ q) 1 × (r.quoted ≡ true)
range_from_nonrange_literal-Denotes_example = range_from_nonrange_literal-Denotes (text "a b")

range_from_braces-Denotes_example : Returns (range_from_braces web db web) λ r.
    Denotes r (Joins (λ q. text "web" ≡ q) (λ q. text "db" ≡ q) (λ q. text "web" ≡ q)) 1
    × (r.quoted ≡ web.quoted || (db.quoted || web.quoted))
range_from_braces-Denotes_example =
    range_from_braces-Denotes web db web web-Denotes db-Denotes web-Denotes (omega arith)

-- node1098..101.example: the first number has no domain
abbrev spread : Text
spread = text "node1098..101.example"

abbrev spread_offsets : Offsets
spread_offsets k =
    if k == 1
    then some (0, 4)
    else if k == 2
    then some (4, 8)
    else if k == 5
    then some (10, 13)
    else if k == 6
    then some (13, 21)
    else none

abbrev spread_parts : RangeParts
spread_parts = captured_parts (text "node") (text "1098") (text "101") [] (text ".example")

spread-IsNumbered : IsNumbered spread_parts
unfolding digits_value
spread-IsNumbered = record {
  first_digits = (refl, (refl, (refl, (refl, tt))));
  last_digits = (refl, (refl, (refl, tt)));
  some_digit = omega arith;
  last_small = omega arith;
  first_small = omega arith;
}

spread_few : numbers_count spread_parts ≤ size_limit
unfolding digits_value
spread_few = omega arith

rangeparts_from_hostname-Numbers_example :
    (rangeparts_from_hostname (λ _. some spread_offsets) spread ≡ ok (some spread_parts))
    × Returns
        (range_from_rangeparts spread_parts)
        λ r. Denotes r (Numbers spread_parts) (numbers_count spread_parts)
rangeparts_from_hostname-Numbers_example =
    rangeparts_from_hostname-Numbers (λ _. some spread_offsets) spread spread_offsets (text "node")
      (text "1098") (text "101") [] (text ".example") refl
      (around [] (text "node") (text "1098..101.example") refl refl)
      (around (text "node") (text "1098") (text "..101.example") refl refl)
      (around (text "node1098..") (text "101") (text ".example") refl refl) (unset refl)
      (around (text "node1098..101") (text ".example") [] refl refl) spread-IsNumbered spread_few
