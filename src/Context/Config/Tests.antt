-- ===== src/Context/Config/Tests.antt =====
-- Tests of the configuration of source/src/libcrange.c, and its theorem at a concrete file.
use libcrange.Base.{
  ℕ, ◌≡◌, refl, Text, text, [], ◌∷◌, List, Option, none, some, true, false, arith, ◌==◌,
  if◌then◌else◌, drop_last, ends_in_newline,
}
use libcrange.Base.{Returns}
use libcrange.HashSet.Resize.{set_new-Models}
use libcrange.HashSet.Laws.{self-Models}
use libcrange.HashSet.{Set}
use libcrange.Context.{Context, libcrange_getcfg}
use libcrange.Context.Config.{System, module_file, parse_config_file}
use libcrange.Context.Config.Variables.{
  IsAssignment, no_lines, assignment, last_value, libcrange_getcfg-parse_config_file,
}

module_files :
    (module_file (text "/usr/lib/libcrange") (text "ip") ≡ text "/usr/lib/libcrange/ip.so")
    × (module_file (text "/usr/lib/libcrange") (text "/opt/ip") ≡ text "//opt/ip.so")
unfolding module_file
module_files = (refl, refl)

-- variables of one letter
abbrev one_letter : Text → Option (Text × Text)
one_letter [] = none
one_letter (c ∷ []) = none
one_letter (c ∷ d ∷ value) = if d == b'=' then some (c ∷ [], value) else none

abbrev file_lines : List Text
file_lines = text "a=1\n" ∷ text "b=2\n" ∷ text "a=3\n" ∷ []

abbrev system : System Text Text
system = record {
  lines = λ _. some file_lines;
  readable = λ _. true;
  dlopen = λ _. none;
  dlsym = λ _ _. none;
  functions_provided = λ _. none;
  perl_exports = λ _ _ _. none;
  python_exports = λ _ _ _. none;
  loadmodule_re = λ _. none;
  var_re = one_letter;
  perlmodule_re = λ _. none;
  pythonmodule_re = λ _. none;
}

first_byte : {b c : ℕ} {s t : Text} → b ∷ s ≡ c ∷ t → b ≡ c
first_byte h = cc h

a_comment : (c : ℕ) (rest s : Text) → b'a' ∷ s ≡ c ∷ rest → (c == b'#') ≡ false
a_comment c rest s h = rw⁻¹ (first_byte h) refl

b_comment : (c : ℕ) (rest s : Text) → b'b' ∷ s ≡ c ∷ rest → (c == b'#') ≡ false
b_comment c rest s h = rw⁻¹ (first_byte h) refl

a_is_1 : IsAssignment system (text "a=1\n") (text "a") (text "1")
unfolding drop_last ends_in_newline
a_is_1 = record {
  complete = refl;
  no_comment = λ rest c h. a_comment c rest (text "=1\n") h;
  some_text = refl;
  no_module = refl;
  captures = refl;
}

b_is_2 : IsAssignment system (text "b=2\n") (text "b") (text "2")
unfolding drop_last ends_in_newline
b_is_2 = record {
  complete = refl;
  no_comment = λ rest c h. b_comment c rest (text "=2\n") h;
  some_text = refl;
  no_module = refl;
  captures = refl;
}

a_is_3 : IsAssignment system (text "a=3\n") (text "a") (text "3")
unfolding drop_last ends_in_newline
a_is_3 = record {
  complete = refl;
  no_comment = λ rest c h. a_comment c rest (text "=3\n") h;
  some_text = refl;
  no_module = refl;
  captures = refl;
}

abbrev pairs : List (Text × Text)
pairs = (text "a", text "1") ∷ (text "b", text "2") ∷ (text "a", text "3") ∷ []

abbrev nothing_set : Set Text
nothing_set = (set_new-Models {D = Text} 0 (omega arith)).0

abbrev context : Context Text Text
context = record {
  caches = nothing_set;
  functions = nothing_set;
  perl_functions = none;
  python_functions = none;
  vars = nothing_set;
  default_domain = none;
  config_file = text "/etc/range.conf";
  funcdir = text "/usr/lib/libcrange";
  want_caching = true;
}

libcrange_getcfg-parse_config_file_example : Returns (parse_config_file system context) λ x.
    (x.0 ≡ true)
    × ((q : Text) → libcrange_getcfg x.1 q ≡ last_value pairs q (libcrange_getcfg context q))
libcrange_getcfg-parse_config_file_example =
    libcrange_getcfg-parse_config_file system context file_lines pairs refl
      (assignment a_is_1 (assignment b_is_2 (assignment a_is_3 no_lines)))
      (self-Models ((set_new-Models {D = Text} 0 (omega arith)).2.0))
      (omega (arith, (set_new-Models {D = Text} 0 (omega arith)).2.2))
