-- ===== src/Context/Config/Variables.antt =====
-- The variables that a configuration sets, and the reading of them by `libcrange_getcfg`.
use libcrange.Base.{
  ℕ, ◌+◌, ◌≡◌, ◌≤◌, refl, ap, ◌∙◌, Text, [], ◌∷◌, List, Option, none, some, true, false, arith,
  length, ◌==◌, drop_last, ends_in_newline, str_eq, if◌then◌else◌,
}
use libcrange.Base.{ok, ◌>>=◌, Returns}
use libcrange.HashSet.Resize.{Models, size_limit}
use libcrange.HashSet.Laws.{self-Models, set_add-Models, update_data}
use libcrange.HashSet.{set_add, set_get, set_get_data}
use libcrange.Context.{Context, libcrange_getcfg}
use libcrange.Context.Config.{System, Tables, read_entry, read_line, read_file, parse_config_file}

-- The line is read as the assignment of the value to the variable.
pub record IsAssignment {H F : Type 0} (system : System H F) (line : Text) (var value : Text)
    : Type 0 where
  pub complete : ends_in_newline line ≡ true
  pub no_comment : (rest : Text) → (c : ℕ) → line ≡ c ∷ rest → (c == b'#') ≡ false
  pub some_text : (length (drop_last line) == 0) ≡ false
  pub no_module : system.loadmodule_re (drop_last line) ≡ none
  pub captures : system.var_re (drop_last line) ≡ some (var, value)

-- the lines of a file with what they assign
pub data Assignments {H F : Type 0} (system : System H F)
    : List Text → List (Text × Text) → Type 0 where
  no_lines : Assignments system [] []
  assignment :
      {line var value : Text} {lines : List Text} {pairs : List (Text × Text)}
      → IsAssignment system line var value
      → Assignments system lines pairs
      → Assignments system (line ∷ lines) ((var, value) ∷ pairs)

-- what a variable has after some assignments: the last of them counts
abbrev pub last_value : List (Text × Text) → Text → Option Text → Option Text
last_value [] q old = old
last_value ((var, value) ∷ pairs) q old =
    last_value pairs q (if str_eq var q then some value else old)

module _ {H F : Type 0} (system : System H F) (funcdir : Text) where
  read_line-IsAssignment :
      (line var value : Text) (t : Tables F)
      → IsAssignment system line var value
      → read_line system funcdir line t
        ≡ (set_add t.vars var (some value) >>= λ vars. ok (true, record t { vars = vars }))
  unfolding read_line read_entry ends_in_newline
  read_line-IsAssignment [] var value t a = absurd (cc a.complete)
  read_line-IsAssignment (c ∷ rest) var value t a =
      rw (a.complete, a.no_comment rest c refl, a.some_text, read_entry, a.no_module, a.captures)
        refl

  read_file-Assignments :
      {lines : List Text} {pairs : List (Text × Text)} (t : Tables F)
      → Assignments system lines pairs
      → Models t.vars (set_get t.vars)
      → t.vars.members + length pairs ≤ size_limit
      → Returns (read_file system funcdir lines t) λ x.
        (x.0 ≡ true)
        × ((q : Text) → set_get_data x.1.vars q ≡ last_value pairs q (set_get_data t.vars q))
  unfolding read_file
  read_file-Assignments t no_lines m h = ((true, t), refl, (refl, λ q. refl))
  read_file-Assignments t (assignment {line} {var} {value} {lines} {pairs} a rest) m h =
      let (vars, run, (m', count, _)) =
        set_add-Models t.vars var (some value) m (omega (arith, h)) in
      let t' : Tables F = record t { vars = vars } in
      let (x, run', (done, reads)) =
        read_file-Assignments t' rest (self-Models m') (omega (arith, h, count)) in
      (
        x,
        rw (read_line-IsAssignment line var value t a, run, ◌>>=◌) run',
        (done, λ q. reads q ∙ ap (last_value pairs q) (update_data var (some value) q m m')),
      )

-- For a readable configuration of lines that each assign a value to a variable, and a well-formed set
-- of variables, whose members with the lines are at most 1610612741, `parse_config_file` succeeds, and
-- `libcrange_getcfg` then gives the last value that is assigned to a variable, or what it gave before
-- if there is none.
pub libcrange_getcfg-parse_config_file :
    {H C F : Type 0} (system : System H F) (lr : Context C F) (lines : List Text)
    (pairs : List (Text × Text))
    → system.lines lr.config_file ≡ some lines
    → Assignments system lines pairs
    → Models lr.vars (set_get lr.vars)
    → lr.vars.members + length pairs ≤ size_limit
    → Returns (parse_config_file system lr) λ x.
      (x.0 ≡ true)
      × ((q : Text) → libcrange_getcfg x.1 q ≡ last_value pairs q (libcrange_getcfg lr q))
unfolding parse_config_file libcrange_getcfg
libcrange_getcfg-parse_config_file {F = F} system lr lines pairs there a m h =
    let t : Tables F = record {
      functions = lr.functions;
      vars = lr.vars;
      perl_functions = none;
      python_functions = none;
    } in
    let (x, run, (done, reads)) = read_file-Assignments system lr.funcdir t a m h in
    (
      (
        true,
        record lr {
          functions = x.1.functions;
          vars = x.1.vars;
          perl_functions = x.1.perl_functions;
          python_functions = x.1.python_functions;
        },
      ),
      rw (parse_config_file, there, run, ◌>>=◌, done) refl,
      (refl, reads),
    )
