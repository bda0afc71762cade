-- ===== src/Bridge.antt =====
-- The functions that a module in Perl or in Python provides: source/src/perl_functions.c and
-- source/src/python_functions.c. The interpreters are parameters.
pub mod Call
pub mod Load
mod Tests
use mathlib.Core.List.{reverse}
use libcrange.Base.{
  Text, text, List, [], ◌∷◌, ◌++◌, Option, none, some, Bool, if◌then◌else◌, ltb, length, take, map,
  ◌⊎◌, inl, inr,
}
use libcrange.Base.{Run, ok, fault, assertion, null_pointer, out_of_bounds, ◌>>=◌}
use libcrange.HashSet.{Set, set_add}
use libcrange.Range.{Range, range_new, range_add, range_get_hostnames}
use libcrange.Request.{Request, range_request_warn}

-- The interpreter of Perl with its state: it runs the script that starts it, loads a module under a prefix, and
-- calls a function on lists of names. An answer is the text of an error, or the values that are left on
-- the stack, from the first pushed to the last, `none` for a null pointer.
pub record Perl (I : Type 0) : Type 0 where
  pub perl_parse : Text → I
  pub perl_destruct : I → I
  pub load_file : Text → Text → I → (Text ⊎ List Text) × I
  pub call_func : Text → List (List Text) → Request → I → (Text ⊎ List (Option Text)) × Request × I

-- What a call of Python gives: an exception, a value that cannot be iterated over, or the texts of the
-- items, `none` for an item without one.
pub data PyAnswer : Type 0 where
  raised no_iterator : PyAnswer
  items : List (Option Text) → PyAnswer

-- The interpreter of Python: whether `libcrange_call_func` is there to be called, and its call.
pub record Python (I : Type 0) : Type 0 where
  pub callable : I → Bool
  pub call_object : Text → List (List Text) → I → PyAnswer × I

-- the names of a range in the order of `range_get_hostnames`, as many as the set has members
pub range_to_array_ref : Range → List Text
range_to_array_ref r = take r.nodes.members (range_get_hostnames r)

pub range_to_py_array : Range → List Text
range_to_py_array r = take r.nodes.members (range_get_hostnames r)

-- A value that is null fails the assertion of the one loop, and is followed in the other.
pub add_values : Run Range → List (Option Text) → Range → Run Range
add_values on_null [] ret = ok ret
add_values on_null (value ∷ values) ret = elim value [
  | none ↦ on_null
  | some node ↦ range_add ret node >>= λ ret'. add_values on_null values ret'
]

-- `perlboot`, in its buffer of 4096 bytes
pub perl_script : Text → Option Text → Run Text
perl_script perlboot perl_inc_path =
    let whole : Text = elim perl_inc_path [
      | none ↦ perlboot
      | some path ↦
          text "BEGIN { my @paths = split ':', q{"
          ++ (path ++ (text "}; push @INC, @paths; }" ++ (10 ∷ perlboot)))
    ] in
    if ltb (length whole) 4096 then ok whole else fault out_of_bounds

module _ {I : Type 0} (perl : Perl I) where
  -- The last value of the stack is the first of the array: `none` at an error.
  pub get_exported_functions : Text → Text → I → Option (List Text) × I
  get_exported_functions mod_name prefix i =
      let answer = perl.load_file prefix mod_name i in
      (elim answer.0 [ inl error ↦ none | inr functions ↦ some (reverse functions) ], answer.1)

  -- `perl_interp` is started once, with the script.
  pub start_perl : Text → Option Text → Option I → Run I
  start_perl perlboot perl_inc_path none =
      perl_script perlboot perl_inc_path >>= λ script. ok (perl.perl_parse script)
  start_perl perlboot perl_inc_path (some i) = ok i

  -- `perl_interp` still points to the interpreter.
  pub destruct_perl : Option I → Option I
  destruct_perl none = none
  destruct_perl (some i) = some (perl.perl_destruct i)

  -- the functions that a module exports, with the interpreter that stays
  pub perl_exports : Text → Option Text → Option I → Text → Text → Run (Option (List Text) × I)
  perl_exports perlboot perl_inc_path perl_interp mod_name prefix =
      start_perl perlboot perl_inc_path perl_interp >>= λ i.
      ok (get_exported_functions mod_name prefix i)

  -- what is made of an answer
  pub perl_answer : Range → (Text ⊎ List (Option Text)) × Request × I → Run (Range × Request × I)
  perl_answer ret (inl error, rr, i) =
      ok (ret, range_request_warn rr (text "Calling ::libcrange_call_func: " ++ error), i)
  perl_answer ret (inr values, rr, i) =
      add_values (fault assertion) (reverse values) ret >>= λ ret'. ok (ret', rr, i)

  -- The interpreter has to be there.
  pub perl_function : Text → Option I → Request → List Range → Run (Range × Request × I)
  perl_function funcname none rr r = fault null_pointer
  perl_function funcname (some i) rr r =
      range_new >>= λ ret. perl_answer ret (perl.call_func funcname (map range_to_array_ref r) rr i)

module _ {I : Type 0} (python : Python I) where
  -- After an exception `PyObject_GetIter` follows a null pointer.
  pub python_answer : Range → PyAnswer × I → Run (Range × I)
  python_answer result (raised, i) = fault null_pointer
  python_answer result (no_iterator, i) = ok (result, i)
  python_answer result (items values, i) =
      add_values (fault null_pointer) values result >>= λ result'. ok (result', i)

  pub python_function : Text → I → List Range → Run (Range × I)
  python_function funcname i r = range_new >>= λ result.
      let answer = python.call_object funcname (map range_to_py_array r) i in
      if python.callable i then python_answer result answer else ok (result, i)

-- The interpreter of Python as the loading of a module uses it: its start with the script PYTHON_BOOT and
-- the call that is given the variable `python_inc_path`, the import of a module into its globals, and
-- `libcrange_load_file`, whether it is there to be called, and its call. `none` is an exception, and
-- in the list an item that is no text.
pub record PythonLoader (I : Type 0) : Type 0 where
  pub start : Option Text → I → I
  pub import_module : Text → I → Bool × I
  pub can_load : I → Bool
  pub load_file : Text → I → Option (List (Option Text)) × I

-- The loop from one pointer to the next, up to a null pointer: beyond the memory that is given, it reads
-- out of bounds.
pub add_pointers : List (Option Text) → Text → Set Text → Run (Set Text)
add_pointers [] mod_name pythonfunctions = fault out_of_bounds
add_pointers (none ∷ _) mod_name pythonfunctions = ok pythonfunctions
add_pointers (some function_name ∷ p) mod_name pythonfunctions =
    set_add pythonfunctions function_name (some mod_name) >>= λ pythonfunctions'.
    add_pointers p mod_name pythonfunctions'

module _ {I : Type 0} (python : PythonLoader I) where
  -- The array has one entry more than there are functions, which nothing writes: `unset` is what it
  -- holds, and `behind` the memory behind the array that may be read. After an exception a null pointer is released, and without `libcrange_load_file` the array is one.
  pub get_and_load_exported_functions :
      Option Text → List (Option Text) → Text → I → Run (List (Option Text) × I)
  get_and_load_exported_functions unset behind mod_name i =
      let answer = python.load_file mod_name i in
      if python.can_load i
      then elim answer.0 as (λ _. Run (List (Option Text) × I)) [
        | none ↦ fault null_pointer
        | some functions ↦ ok (functions ++ unset ∷ behind, answer.1)
      ]
      else fault null_pointer

  -- The interpreter is started for every module, since `python_interp` stays 0. A module that cannot be
  -- imported is no error.
  pub add_functions_from_pythonmodule :
      Option Text → List (Option Text) → Option Text → Text → Set Text → I → Run (Set Text × I)
  add_functions_from_pythonmodule unset behind python_inc_path mod_name pythonfunctions i =
      let imported = python.import_module mod_name (python.start python_inc_path i) in
      if imported.0
      then (get_and_load_exported_functions unset behind mod_name imported.1 >>= λ x.
          add_pointers x.0 mod_name pythonfunctions >>= λ pythonfunctions'.
          ok (pythonfunctions', x.1))
      else ok (pythonfunctions, imported.1)
