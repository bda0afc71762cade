-- ===== src/Context/Config.antt =====
-- The configuration of source/src/libcrange.c: `parse_config_file` reads variables and the modules to load.
-- The dynamic linker, the file system, PCRE and the interpreters of Perl and Python are parameters.
pub mod Variables
mod Tests
use libcrange.Base.{
  ℕ, ◌+◌, Text, text, [], ◌∷◌, ◌++◌, List, Option, none, some, Bool, true, false, not,
  if◌then◌else◌, ltb, leb, ◌==◌, length, take, drop_last, ends_in_newline,
}
use libcrange.Base.{Run, ok, fault, assertion, out_of_bounds, ◌>>=◌}
use libcrange.HashSet.{Set, set_new, set_add}
use libcrange.Context.{Context, libcrange_new}

-- What the context takes from outside: files, shared objects (`H` is a handle, `F` a function) and what
-- the interpreters export of a module, which may depend on the variables of the context. The patterns give the captures of a line.
pub record System (H F : Type 0) : Type 0 where
  pub lines : Text → Option (List Text)
  pub readable : Text → Bool
  pub dlopen : Text → Option H
  pub dlsym : H → Text → Option F
  pub functions_provided : H → Option (Set Text → Option (List Text))
  pub perl_exports : Set Text → Text → Text → Option (List Text)
  pub python_exports : Set Text → Text → Text → Option (List Text)
  pub loadmodule_re : Text → Option (Text × Option Text)
  pub var_re : Text → Option (Text × Text)
  pub perlmodule_re : Text → Option (Text × Option Text)
  pub pythonmodule_re : Text → Option (Text × Option Text)

-- an empty text where there is no prefix
abbrev pub prefix_of : Option Text → Text
prefix_of none = []
prefix_of (some prefix) = prefix

-- The names that a module exports are given the module.
pub add_module_names : List Text → Text → Set Text → Run (Set Text)
add_module_names [] mod_name functions = ok functions
add_module_names (name ∷ names) mod_name functions =
    set_add functions name (some mod_name) >>= λ functions'.
    add_module_names names mod_name functions'

-- `add_functions_from_perlmodule` and `add_functions_from_pythonmodule` behind the interpreters: a module
-- that exports nothing is no error.
pub add_exports : Option (List Text) → Text → Set Text → Run (Set Text)
add_exports none mod_name functions = ok functions
add_exports (some names) mod_name functions = add_module_names names mod_name functions

-- the table, made at the first module
pub open_table : Option (Set Text) → Run (Set Text)
open_table none = set_new 0
open_table (some functions) = ok functions

-- the file of a module: the first byte of an absolute name leaves out the directory
pub module_file : Text → Text → Text
module_file funcdir [] = take 511 (funcdir ++ text "/.so")
module_file funcdir (c ∷ name) =
    take 511 ((if c == b'/' then [] else funcdir) ++ (b'/' ∷ ((c ∷ name) ++ text ".so")))

module _ {H F : Type 0} (system : System H F) where
  -- The first component says whether the function was found. `strncat` is given the size of the whole
  -- buffer of 512 bytes.
  pub add_function : H → Text → Text → Set F → Run (Bool × Set F)
  add_function handle prefix function_name functions =
      if leb 512 (10 + length (take 512 function_name))
      then fault out_of_bounds
      else elim (system.dlsym handle (text "rangefunc_" ++ function_name))
          as (λ _. Run (Bool × Set F)) [
            | none ↦ ok (false, functions)
            | some f ↦
                if not (ltb (length prefix) 16)
                then fault assertion
                else if not (ltb (length function_name) 256)
                then fault assertion
                else (set_add functions (prefix ++ function_name) (some f) >>= λ functions'.
                    ok (true, functions'))
          ]

  -- the function `functions_provided` of a module, where it has one, called
  pub get_function_names : H → Set Text → Option (List Text)
  get_function_names handle vars = elim (system.functions_provided handle) [
    | none ↦ none
    | some f ↦ f vars
  ]

  -- the loop over the names of the functions: it stops at the first error
  pub add_function_list : H → Text → List Text → Set F → Run (Bool × Set F)
  add_function_list handle prefix [] functions = ok (true, functions)
  add_function_list handle prefix (name ∷ names) functions =
      add_function handle prefix name functions >>= λ x.
      if x.0 then add_function_list handle prefix names x.1 else ok x

  pub add_functions_from_module : Text → Set Text → Text → Text → Set F → Run (Bool × Set F)
  add_functions_from_module funcdir vars mod_name prefix functions =
      let filename = module_file funcdir mod_name in
      if not (system.readable filename)
      then ok (false, functions)
      else elim (system.dlopen filename) as (λ _. Run (Bool × Set F)) [
        | none ↦ ok (false, functions)
        | some handle ↦ elim (get_function_names handle vars) as (λ _. Run (Bool × Set F)) [
          | none ↦ ok (false, functions)
          | some names ↦ add_function_list handle prefix names functions
        ]
      ]

-- what the loop changes: the tables of the context, and the two that it is given at the end
pub record Tables (F : Type 0) : Type 0 where
  pub functions : Set F
  pub vars : Set Text
  pub perl_functions : Option (Set Text)
  pub python_functions : Option (Set Text)

module _ {H F : Type 0} (system : System H F) (funcdir : Text) where
  -- A line that is no `loadmodule` and no variable. The first component says whether to go on.
  pub read_script : Text → Tables F → Run (Bool × Tables F)
  read_script line t = elim (system.perlmodule_re line) as (λ _. Run (Bool × Tables F)) [
    | some (mod_name, prefix) ↦ open_table t.perl_functions >>= λ table.
        add_exports (system.perl_exports t.vars mod_name (prefix_of prefix)) mod_name table
        >>= λ table'. ok (true, record t { perl_functions = some table' })
    | none ↦ elim (system.pythonmodule_re line) as (λ _. Run (Bool × Tables F)) [
      | some (mod_name, prefix) ↦ open_table t.python_functions >>= λ table.
          add_exports (system.python_exports t.vars mod_name (prefix_of prefix)) mod_name table
          >>= λ table'. ok (true, record t { python_functions = some table' })
      | none ↦ ok (false, t)
    ]
  ]

  -- a line without its newline
  pub read_entry : Text → Tables F → Run (Bool × Tables F)
  read_entry line t = elim (system.loadmodule_re line) as (λ _. Run (Bool × Tables F)) [
    | some (mod_name, prefix) ↦
        add_functions_from_module system funcdir t.vars mod_name (prefix_of prefix) t.functions
        >>= λ x. ok (x.0, record t { functions = x.1 })
    | none ↦ elim (system.var_re line) as (λ _. Run (Bool × Tables F)) [
      | some (var, value) ↦
          set_add t.vars var (some value) >>= λ vars. ok (true, record t { vars = vars })
      | none ↦ read_script line t
    ]
  ]

  -- a line as `fgets` gives it, at most 255 bytes of it
  pub read_line : Text → Tables F → Run (Bool × Tables F)
  read_line [] t = fault out_of_bounds
  read_line (c ∷ rest) t =
      if not (ends_in_newline (c ∷ rest))
      then ok (false, t)
      else if c == b'#'
      then ok (true, t)
      else if length (drop_last (c ∷ rest)) == 0
      then ok (true, t)
      else read_entry (drop_last (c ∷ rest)) t

  pub read_file : List Text → Tables F → Run (Bool × Tables F)
  read_file [] t = ok (true, t)
  read_file (line ∷ rest) t = read_line line t >>= λ x. if x.0 then read_file rest x.1 else ok x

module _ {H C F : Type 0} (system : System H F) where
  -- The tables of functions of Perl and Python are set at the end only.
  pub parse_config_file : Context C F → Run (Bool × Context C F)
  parse_config_file lr = elim (system.lines lr.config_file) as (λ _. Run (Bool × Context C F)) [
    | none ↦ ok (false, lr)
    | some lines ↦
        read_file system lr.funcdir lines (record {
          functions = lr.functions;
          vars = lr.vars;
          perl_functions = none;
          python_functions = none;
        })
        >>= λ x.
            let lr' : Context C F = record lr { functions = x.1.functions; vars = x.1.vars } in
            ok (
              x.0,
              if x.0
                  then record lr' {
                    perl_functions = x.1.perl_functions;
                    python_functions = x.1.python_functions;
                  }
                  else lr',
            )
  ]

  -- the end of `libcrange_new`: `none` is a null pointer
  pub configure : Context C F → Run (Option (Context C F))
  configure lr =
      if system.readable lr.config_file
      then (parse_config_file lr >>= λ x. ok (if x.0 then some x.1 else none))
      else ok (some lr)

  -- `libcrange_new` as a whole, and the context of `range_easy_create`
  pub range_easy_create : Option (Set Text) → Text → Text → Option Text → Run (Option (Context C F))
  range_easy_create garbage libcrange_conf libcrange_funcdir config_file =
      libcrange_new garbage libcrange_conf libcrange_funcdir config_file >>= configure

  -- The static context is made at the first call, and again where it could not be made.
  pub get_static_lr :
      Option (Set Text) → Text → Text → Option (Context C F) → Run (Option (Context C F))
  get_static_lr garbage libcrange_conf libcrange_funcdir static_lr = elim static_lr [
    | some lr ↦ ok (some lr)
    | none ↦ libcrange_new garbage libcrange_conf libcrange_funcdir none >>= configure
  ]
