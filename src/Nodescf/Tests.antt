-- ===== src/Nodescf/Tests.antt =====
-- Tests of source/functions/nodescf.c: lines of its files, and headers of sections.
use libcrange.Base.{◌≡◌, refl, Text, text, [], ◌∷◌, none, some, drop_last, ends_in_newline}
use libcrange.Base.{ok, fault, out_of_bounds}
use libcrange.HashSet.{Set}
use libcrange.Nodescf.Lines.{clean_line, cut_comment, trim_end, trim_line, ignored_name}
use libcrange.Nodescf.Keys.{Patterns, Reading, is_header, read_text}
use libcrange.Nodescf.{home_cluster}

-- The last byte is taken for a newline, and blanks alone are read past their start.
lines :
    (clean_line (text "ALL # all\n") ≡ ok (some (text "ALL")))
    × (clean_line (text "# none\n") ≡ ok none)
    × (clean_line (text "ALL") ≡ ok (some (text "AL")))
    × (clean_line (text "  \n") ≡ fault out_of_bounds)
    × (ignored_name (text "all") ≡ ok (some (text "all")))
unfolding clean_line cut_comment trim_end trim_line ignored_name drop_last ends_in_newline
lines = (refl, refl, refl, refl, refl)

abbrev no_patterns : Patterns
no_patterns = record { include_re = λ _. none; exclude_re = λ _. none }

-- behind the line of a section ALL
abbrev in_all : Set Text → Reading
in_all sections = record {
  section = some (text "ALL");
  cur_section = some (text "ALL");
  working_range = text "(a)" ∷ [];
  sections = sections;
}

-- A header keeps the lines of the section before it, which is stored at the next line only.
headers :
    (sections : Set Text)
    → read_text no_patterns (text "web") (text "CLUSTER") (in_all sections)
      ≡ ok (record (in_all sections) { cur_section = some (text "CLUSTER") })
unfolding read_text is_header
headers sections = refl

homes :
    (home_cluster (text "joe") ≡ ok (text "HOSTS"))
    × (home_cluster (text "Admins") ≡ ok (text "GROUPS"))
unfolding home_cluster
homes = (refl, refl)
