-- ===== src/Context.antt =====
-- The context of source/src/libcrange.c: its caches, variables and tables of functions.
pub mod Caches
pub mod Expand
pub mod Config
mod Tests
use libcrange.Base.{ℕ, Text, text, List, Option, none, some, Bool, true, false, if◌then◌else◌}
use libcrange.Base.{Run, ok, ◌>>=◌}
use libcrange.HashSet.{Set, set_new, set_add, set_get, set_get_data}
use libcrange.Range.{range_from_hostnames}
use libcrange.Request.{Request, range_request_new}
use libcrange.Compress.{Captures, do_range_compress}

-- `libcrange`, where `C` is what a cache holds and `F` a function of a module
pub record Context (C F : Type 0) : Type 0 where
  pub caches : Set C
  pub functions : Set F
  pub perl_functions : Option (Set Text)
  pub python_functions : Option (Set Text)
  pub vars : Set Text
  pub default_domain : Option Text
  pub config_file : Text
  pub funcdir : Text
  pub want_caching : Bool

-- a module's name in a table of functions, if there is a table
pub module_of : Option (Set Text) → Text → Option Text
module_of none funcname = none
module_of (some table) funcname = set_get_data table funcname

module _ {C F : Type 0} where
  -- `libcrange_new` up to the access of the configuration, with the field that it does not set as `garbage`
  pub libcrange_new : Option (Set Text) → Text → Text → Option Text → Run (Context C F)
  libcrange_new garbage libcrange_conf libcrange_funcdir config_file = set_new 0 >>= λ caches.
      set_new 0 >>= λ functions. set_new 0 >>= λ vars. ok (record {
        caches = caches;
        functions = functions;
        perl_functions = none;
        python_functions = garbage;
        vars = vars;
        default_domain = none;
        config_file = elim config_file [ some file ↦ file | none ↦ libcrange_conf ];
        funcdir = libcrange_funcdir;
        want_caching = true;
      })

  pub libcrange_get_default_domain : Context C F → Option Text
  libcrange_get_default_domain lr = lr.default_domain

  pub libcrange_set_default_domain : Context C F → Text → Context C F
  libcrange_set_default_domain lr domain = record lr { default_domain = some domain }

  pub libcrange_get_perl_module : Context C F → Text → Option Text
  libcrange_get_perl_module lr = module_of lr.perl_functions

  pub libcrange_get_python_module : Context C F → Text → Option Text
  libcrange_get_python_module lr = module_of lr.python_functions

  pub libcrange_get_function : Context C F → Text → Option F
  libcrange_get_function lr funcname = set_get_data lr.functions funcname

  pub libcrange_get_cache : Context C F → Text → Option C
  libcrange_get_cache lr name = elim (set_get lr.caches name) [ some se ↦ se.value | none ↦ none ]

  pub libcrange_clear_caches : Context C F → Run (Context C F)
  libcrange_clear_caches lr = set_new 317 >>= λ caches. ok (record lr { caches = caches })

  pub libcrange_set_cache : Context C F → Text → C → Run (Context C F)
  libcrange_set_cache lr name value =
      if lr.want_caching
      then (set_add lr.caches name (some value) >>= λ caches. ok (record lr { caches = caches }))
      else ok lr

  pub libcrange_want_caching : Context C F → Bool → Context C F
  libcrange_want_caching lr want = record lr { want_caching = want }

  pub libcrange_getcfg : Context C F → Text → Option Text
  libcrange_getcfg lr what = set_get_data lr.vars what

-- `range_compress`
pub range_compress : (Text → Option Captures) → List Text → Run (Text × Request)
range_compress numbered_node_re nodes =
    range_from_hostnames nodes >>= λ r. do_range_compress numbered_node_re range_request_new r
