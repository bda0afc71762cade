-- ===== src/Netblock/Blocks/Tests.antt =====
-- Tests of the list of blocks of source/functions/netblock.c, and its theorems at a concrete file.
use libcrange.Base.{
  ℕ, ◌≡◌, ◌+◌, refl, Text, text, List, [], ◌∷◌, ◌++◌, Option, none, some, Bool, true, false, arith,
  str_eq, if◌then◌else◌, length, ends_in_newline,
}
use libcrange.Base.{fault, null_pointer, Returns}
use libcrange.Range.Decimal.{atoi, digits_value}
use libcrange.Range.Meaning.{Denotes}
use libcrange.Request.{range_request_new}
use libcrange.Request.Warned.{IsWarned}
use libcrange.Netblock.{Block}
use libcrange.Netblock.Lookups.{IsSound}
use libcrange.Netblock.Tinydns.{Resolver, str2ip}
use libcrange.Netblock.Blocks.Cached.{
  dc_netblocks-Texts, dc_netblocks_uncached, dc_netblocks_unreadable,
}
use libcrange.Netblock.Blocks.Lines.{Gives, comment, given, AllLines, Texts}
use libcrange.Netblock.Blocks.{
  BlockFile, NetCaches, is_comment, skip_space, netblock_from_string, dc_netblocks,
}

abbrev only_ten : Text → Option (ℕ × ℕ × ℕ × ℕ)
only_ten s = if str_eq s (text "10.0.0.0") then some (10, 0, 0, 0) else none

abbrev resolver : Resolver
resolver = record {
  sscanf = only_ten;
  gethostbyname = λ _. none;
  stat = none;
  lines = none;
  a_re = λ _. none;
  cname_re = λ _. none;
}

abbrev block_line : Text
block_line = text " dc1 10.0.0.0/8" ++ (10 ∷ [])

abbrev comment_line : Text
comment_line = text "# blocks" ++ (10 ∷ [])

abbrev all_lines : List Text
all_lines = comment_line ∷ block_line ∷ []

abbrev fields : Text → Option (Text × Text)
fields p =
    if str_eq p (text "dc1 10.0.0.0/8" ++ (10 ∷ []))
    then some (text "dc1", text "10.0.0.0/8")
    else none

abbrev mask : Text → Option (Text × Text)
mask s = if str_eq s (text "10.0.0.0/8") then some (text "10.0.0.0", text "8") else none

abbrev file : BlockFile
file = record {
  two_fields_re = fields;
  netmask_re = mask;
  ip_re = λ _. none;
  lines = some all_lines;
}

abbrev missing_file : BlockFile
missing_file = record file { lines = none }

abbrev ten : Block
ten = record { base = 167772160; bits = 8; str = text "10.0.0.0/8" }

block_line-Gives : Gives resolver file block_line (text "dc1") ten
unfolding is_comment skip_space netblock_from_string atoi digits_value str2ip str_eq
block_line-Gives = record {
  no_comment = refl;
  str = text "10.0.0.0/8";
  fields = refl;
  reads = refl;
}

all_lines-AllLines : AllLines resolver file all_lines
unfolding AllLines is_comment skip_space ends_in_newline
all_lines-AllLines = (
  comment comment_line refl,
  (given block_line (text "dc1") ten (omega arith) refl block_line-Gives, tt),
)

abbrev unset : Bool → NetCaches
unset want_caching = record { want_caching = want_caching; net_colo = none; colo_net = none }

new-IsSound : IsSound 0 range_request_new
unfolding IsSound IsWarned range_request_new
new-IsSound = (λ _ _. ⊥, λ t q x. x)

dc_netblocks-Texts_example :
    Returns (dc_netblocks resolver file (unset true) (text "dc1") range_request_new) λ x.
      Denotes x.0 (Texts resolver file all_lines (text "dc1")) (length all_lines)
      × IsSound (0 + 1) x.1
dc_netblocks-Texts_example =
    dc_netblocks-Texts resolver file (unset true) refl all_lines (text "dc1") range_request_new 0
      refl refl all_lines-AllLines (omega arith) new-IsSound (omega arith)

dc_netblocks_unreadable_example :
    dc_netblocks resolver missing_file (unset true) (text "dc1") range_request_new
    ≡ fault null_pointer
dc_netblocks_unreadable_example =
    dc_netblocks_unreadable resolver missing_file (unset true) refl (text "dc1") range_request_new
      refl refl

dc_netblocks_uncached_example :
    dc_netblocks resolver file (unset false) (text "dc1") range_request_new ≡ fault null_pointer
dc_netblocks_uncached_example =
    dc_netblocks_uncached resolver file (unset false) refl all_lines (text "dc1") range_request_new
      refl refl refl all_lines-AllLines (omega arith)
