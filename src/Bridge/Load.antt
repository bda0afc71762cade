-- ===== src/Bridge/Load.antt =====
-- The functions that a module in Python adds to the table of the library:
-- source/src/python_functions.c.
use libcrange.Base.{
  ◌+◌, ◌≡◌, ◌≤◌, ◌<◌, refl, Text, List, [], ◌∷◌, ◌++◌, Option, none, some, true, if◌then◌else◌, map,
  length, str_eq, arith,
}
use libcrange.Base.{fault, out_of_bounds, ◌>>=◌, Returns}
use libcrange.HashSet.Resize.{size_limit, Models}
use libcrange.HashSet.Laws.{set_add-Models, update_data, self-Models}
use libcrange.HashSet.{Set, set_get, set_get_data}
use libcrange.Range.Meaning.{listed}
use libcrange.Bridge.{
  PythonLoader, add_pointers, get_and_load_exported_functions, add_functions_from_pythonmodule,
}

-- The names of the list are found with the module, and every other name as before.
abbrev pub Provides : Set Text → List Text → Text → Set Text → Type 0
Provides s names mod_name s' =
    (q : Text) → set_get_data s' q ≡ (if listed q names then some mod_name else set_get_data s q)

Provides-head :
    (s s₁ s₂ : Set Text) (name : Text) (names : List Text) (mod_name : Text)
    → ((q : Text) → set_get_data s₁ q ≡ (if str_eq name q then some mod_name else set_get_data s q))
    → Provides s₁ names mod_name s₂
    → Provides s (name ∷ names) mod_name s₂
Provides-head s s₁ s₂ name names mod_name head rest q = ground (arith, head q, rest q)

add_pointers-Provides :
    (names : List Text) (behind : List (Option Text)) (mod_name : Text) (s : Set Text)
    → Models s (set_get s)
    → s.members + length names ≤ size_limit
    → Returns
        (add_pointers (map some names ++ none ∷ behind) mod_name s)
        λ s'. Models s' (set_get s') × Provides s names mod_name s'
unfolding add_pointers
add_pointers-Provides [] behind mod_name s m few = (s, refl, (m, λ q. refl))
add_pointers-Provides (name ∷ names) behind mod_name s m few =
    let (s₁, run, (m₁, count, _)) = set_add-Models s name (some mod_name) m (omega arith) in
    let (s₂, run', (m₂, rest)) =
      add_pointers-Provides names behind mod_name s₁ (self-Models m₁) (omega (arith, count)) in
    (
      s₂,
      rw (run, ◌>>=◌) run',
      (
        m₂,
        Provides-head s s₁ s₂ name names mod_name (λ q. update_data name (some mod_name) q m m₁)
            rest,
      ),
    )

-- The pointers are all texts, up to the end of the memory.
endless :
    (names : List Text) (word mod_name : Text) (s : Set Text)
    → Models s (set_get s)
    → s.members + length names < size_limit
    → add_pointers (map some names ++ some word ∷ []) mod_name s ≡ fault out_of_bounds
unfolding add_pointers
endless [] word mod_name s m few =
    let (s₁, run, _) = set_add-Models s word (some mod_name) m (omega arith) in rw (run, ◌>>=◌)
endless (name ∷ names) word mod_name s m few =
    let (s₁, run, (m₁, count, _)) = set_add-Models s name (some mod_name) m (omega arith) in
    rw (run, ◌>>=◌) (endless names word mod_name s₁ (self-Models m₁) (omega (arith, count)))

module _ {I : Type 0} (python : PythonLoader I) (inc_path : Option Text) (mod_name : Text)
    (s : Set Text) (i i' i'' : I) (names : List Text)
    (imported : python.import_module mod_name (python.start inc_path i) ≡ (true, i'))
    (there : python.can_load i' ≡ true)
    (loaded : python.load_file mod_name i' ≡ (some (map some names), i''))
    (m : Models s (set_get s)) where
  -- For a module that can be imported and whose functions `libcrange_load_file` gives as texts, and a
  -- well-formed table with room for them up to 1610612741 members, where the entry behind the
  -- functions, which nothing writes, is null, `add_functions_from_pythonmodule` gives a well-formed
  -- table with the module under each of these names, and with every other name as before.
  pub add_functions_from_pythonmodule-Provides :
      (behind : List (Option Text))
      → s.members + length names ≤ size_limit
      → Returns
          (add_functions_from_pythonmodule python none behind inc_path mod_name s i)
          λ x. Models x.0 (set_get x.0) × Provides s names mod_name x.0 × (x.1 ≡ i'')
  unfolding add_functions_from_pythonmodule get_and_load_exported_functions
  add_functions_from_pythonmodule-Provides behind few =
      let (s', run, (m', provides)) = add_pointers-Provides names behind mod_name s m few in
      (
        (s', i''),
        rw (
          add_functions_from_pythonmodule, imported, get_and_load_exported_functions, there, loaded,
          ◌>>=◌, run, imported, loaded,
        ),
        (m', provides, refl),
      )

  -- For a module that can be imported and whose functions `libcrange_load_file` gives as texts, and a
  -- well-formed table with room for one name more than these, where the entry behind the functions
  -- holds the pointer of a text and no memory behind the array may be read,
  -- `add_functions_from_pythonmodule` reads out of bounds.
  pub add_functions_from_pythonmodule_unset :
      (word : Text)
      → s.members + length names < size_limit
      → add_functions_from_pythonmodule python (some word) [] inc_path mod_name s i
        ≡ fault out_of_bounds
  unfolding add_functions_from_pythonmodule get_and_load_exported_functions
  add_functions_from_pythonmodule_unset word few = rw (
    add_functions_from_pythonmodule,
    imported,
    get_and_load_exported_functions,
    there,
    loaded,
    ◌>>=◌,
    endless names word mod_name s m few,
  )
