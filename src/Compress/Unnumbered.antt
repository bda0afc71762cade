-- ===== src/Compress/Unnumbered.antt =====
-- The parts of a name with and without a number, as `node_to_parts` of source/src/range_parts.c gives
-- them.
use libcrange.Base.{ℕ, Text, [], none, some}
use libcrange.Compress.{NodeParts, pos}

-- the parts of a name that NUMBERED_NODE_RE does not match
abbrev pub unnumbered : Text → NodeParts
unnumbered name = record { prefix = []; domain = []; num = pos 0; num_str = none; full_name = name }

abbrev pub numbered : Text → Text → ℕ → Text → Text → NodeParts
numbered prefix domain n digits name = record {
  prefix = prefix;
  domain = domain;
  num = pos n;
  num_str = some digits;
  full_name = name;
}
