-- ===== src/Bridge/Tests.antt =====
-- Tests of the bridges to Perl and Python, and their theorems at concrete interpreters.
use libcrange.Base.{
  ◌≡◌, refl, Text, text, List, [], ◌∷◌, Option, none, some, true, false, inr, arith,
}
use libcrange.Bridge.{raised}
use libcrange.Base.{ok, fault, out_of_bounds, Returns}
use libcrange.Range.Algebra.{range_from_literal-Denotes}
use libcrange.Range.Meaning.{Denotes}
use libcrange.Range.{range_from_literal}
use libcrange.HashSet.Resize.{Models, set_new-Models}
use libcrange.HashSet.Laws.{self-Models}
use libcrange.HashSet.{set_new, set_get}
use libcrange.Request.{range_request_new}
use libcrange.Bridge.Call.{
  AllModels, Answered, after_answer, IsSafe, Iterated, IsPlain, AllTexts, perl_function-Answered,
  python_function-Iterated,
}
use libcrange.Bridge.Load.{
  Provides, add_functions_from_pythonmodule-Provides, add_functions_from_pythonmodule_unset,
}
use libcrange.Bridge.{
  PythonLoader, add_functions_from_pythonmodule, Perl, Python, items, perl_function,
  python_function, perl_script,
}

abbrev two_names : List (Option Text)
two_names = some (text "web1") ∷ some (text "web2") ∷ []

abbrev perl : Perl (Unit {0})
perl = record {
  perl_parse = λ script. tt;
  perl_destruct = λ i. i;
  load_file = λ prefix mod_name i. (inr (text "nodes" ∷ []), i);
  call_func = λ funcname args rr i. (inr two_names, rr, i);
}

abbrev python : Python (Unit {0})
python = record { callable = λ i. true; call_object = λ funcname args i. (items two_names, i) }

made :
    Returns
      (range_from_literal (text "web"))
      λ r. Denotes r (λ q. text "web" ≡ q) 1 × (r.quoted ≡ false)
made = range_from_literal-Denotes (text "web")

arguments-AllModels : AllModels (made.0 ∷ [])
unfolding AllModels
arguments-AllModels = (made.2.0.models, tt)

two_names-AllTexts : AllTexts two_names
unfolding AllTexts
two_names-AllTexts = (refl, (refl, tt))

two_names-IsSafe : IsSafe (inr two_names) 2
unfolding IsSafe
two_names-IsSafe = (two_names-AllTexts, omega arith, omega arith)

two_names-IsPlain : IsPlain (items two_names) 2
unfolding IsPlain
two_names-IsPlain = (two_names-AllTexts, omega arith, omega arith)

perl_function-Answered_example :
    Returns (perl_function perl (text "nodes") (some tt) range_request_new (made.0 ∷ [])) λ x.
      Denotes x.0 (Answered (inr two_names)) 2
      × (x.1 ≡ after_answer (inr two_names) range_request_new)
      × (x.2 ≡ tt)
perl_function-Answered_example =
    perl_function-Answered perl (text "nodes") tt tt range_request_new range_request_new
      (made.0 ∷ []) (inr two_names) 2 arguments-AllModels refl two_names-IsSafe

python_function-Iterated_example :
    Returns
      (python_function python (text "nodes") tt (made.0 ∷ []))
      (λ x. Denotes x.0 (Iterated (items two_names)) 2 × (x.1 ≡ tt))
python_function-Iterated_example =
    python_function-Iterated python (text "nodes") tt tt (made.0 ∷ []) (items two_names) 2
      arguments-AllModels refl refl two_names-IsPlain

script :
    perl_script (text "use strict;") (some (text "/p"))
    ≡ ok (text "BEGIN { my @paths = split ':', q{/p}; push @INC, @paths; }\nuse strict;")
unfolding perl_script
script = refl

-- a function that raises an exception
abbrev raising : Python (Unit {0})
raising = record { callable = λ i. true; call_object = λ funcname args i. (raised, i) }

-- a module of two functions
abbrev loader : PythonLoader (Unit {0})
loader = record {
  start = λ path i. i;
  import_module = λ mod_name i. (true, i);
  can_load = λ i. true;
  load_file = λ mod_name i. (some two_names, i);
}

fresh : Returns (set_new {D = Text} 0) λ s. Models s (set_get s) × (s.members ≡ 0)
fresh =
    let (s, run, (m, _, empty)) = set_new-Models {D = Text} 0 (omega arith) in
    (s, run, (self-Models m, empty))

add_functions_from_pythonmodule-Provides_example :
    Returns (add_functions_from_pythonmodule loader none [] none (text "nodes") fresh.0 tt) λ x.
      Models x.0 (set_get x.0)
      × Provides fresh.0 (text "web1" ∷ text "web2" ∷ []) (text "nodes") x.0
      × (x.1 ≡ tt)
add_functions_from_pythonmodule-Provides_example =
    add_functions_from_pythonmodule-Provides loader none (text "nodes") fresh.0 tt tt tt
      (text "web1" ∷ text "web2" ∷ []) refl refl refl fresh.2.0 [] (omega (arith, fresh.2.1))

add_functions_from_pythonmodule_unset_example :
    add_functions_from_pythonmodule loader (some (text "x")) [] none (text "nodes") fresh.0 tt
    ≡ fault out_of_bounds
add_functions_from_pythonmodule_unset_example =
    add_functions_from_pythonmodule_unset loader none (text "nodes") fresh.0 tt tt tt
      (text "web1" ∷ text "web2" ∷ []) refl refl refl fresh.2.0 (text "x")
      (omega (arith, fresh.2.1))
