-- ===== src/Nodescf/Keys.antt =====
-- The sections of a file nodes.cf: the function `_cluster_keys` of source/functions/nodescf.c.
use libcrange.Base.{
  Text, text, [], ◌∷◌, ◌++◌, List, Option, none, some, Bool, true, false, ◌&&◌, if◌then◌else◌,
  str_eq,
}
use libcrange.Base.{Run, ok, ◌>>=◌}
use libcrange.HashSet.{Set, set_new, set_add, set_get_data, present}
use libcrange.Compress.{join_groups}
use libcrange.Cluster.{non_null}
use libcrange.Cluster.Dollars.{substitute_dollars, join_elements}
use libcrange.Nodescf.Lines.{is_space, clean_line}

-- what INCLUDE_RE and EXCLUDE_RE capture of a line
pub record Patterns : Type 0 where
  pub include_re : Text → Option Text
  pub exclude_re : Text → Option Text

-- the variables of the loop: the section that has lines, the section of the last header, the
-- lines of the first, and the sections that are complete
pub record Reading : Type 0 where
  pub section : Option Text
  pub cur_section : Option Text
  pub working_range : List Text
  pub sections : Set Text

-- the first byte is no blank
unfoldable pub is_header : Text → Bool
is_header [] = true
is_header (c ∷ _) = if is_space c then false else true

-- The lines of a section are complete where the header has changed.
pub change_section : Reading → Run Reading
change_section r = elim r.section [
  | none ↦ ok r
  | some section ↦ non_null r.cur_section >>= λ cur.
      if str_eq cur section
      then ok r
      else (set_add r.sections section (some (join_groups r.working_range)) >>= λ s.
          ok (record r { sections = s; working_range = [] }))
]

module _ (patterns : Patterns) (cluster : Text) where
  -- the text of an INCLUDE or EXCLUDE line, added to the lines of the section
  pub push_pattern : Text → Reading → Run Reading
  push_pattern line r = elim (patterns.include_re line) [
    | some included ↦ substitute_dollars false cluster included >>= λ t.
        ok (record r { working_range = r.working_range ++ (b'(' ∷ (t ++ b')' ∷ [])) ∷ [] })
    | none ↦ elim (patterns.exclude_re line) [
      | some excluded ↦ substitute_dollars false cluster excluded >>= λ t.
          ok (record r { working_range = r.working_range ++ (text "-(" ++ (t ++ b')' ∷ [])) ∷ [] })
      | none ↦ ok r
    ]
  ]

  -- one line that has text
  unfoldable pub read_text : Text → Reading → Run Reading
  read_text line r =
      if is_header line
      then ok (record r { cur_section = some line })
      else (change_section r >>= λ r'. push_pattern line (record r' { section = r'.cur_section }))

  pub read_lines : List Text → Reading → Run Reading
  read_lines [] r = ok r
  read_lines (line ∷ lines) r = clean_line line >>= λ cleaned. elim cleaned [
    | none ↦ read_lines lines r
    | some t ↦ read_text t r >>= λ r'. read_lines lines r'
  ]

  -- DOWN, where there are both ALL and CLUSTER
  pub add_down : Set Text → Run (Set Text)
  add_down s =
      if present s (text "ALL") && present s (text "CLUSTER")
      then (non_null (set_get_data s (text "ALL")) >>= λ all.
          non_null (set_get_data s (text "CLUSTER")) >>= λ up.
          set_add s (text "DOWN") (some (b'(' ∷ (all ++ (text ")-(" ++ (up ++ b')' ∷ []))))))
      else ok s

  -- The lines go to the section of the last header. The sections KEYS, UP and DOWN follow.
  pub finish_keys : Reading → Run (Set Text)
  finish_keys r =
      (elim r.cur_section [
        | none ↦ ok r.sections
        | some cur ↦ set_add r.sections cur (some (join_groups r.working_range))
      ])
      >>= λ s. set_add s (text "KEYS") (join_elements b',' s) >>= λ s'.
          set_add s' (text "UP") (set_get_data s' (text "CLUSTER")) >>= λ s''. add_down s''

  pub read_keys : List Text → Run (Set Text)
  read_keys lines = set_new 0 >>= λ sections.
      read_lines lines
        (record { section = none; cur_section = none; working_range = []; sections = sections })
      >>= finish_keys
