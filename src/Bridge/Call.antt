-- ===== src/Bridge/Call.antt =====
-- What a call of a function in Perl or Python gives: source/src/perl_functions.c and
-- source/src/python_functions.c.
use mathlib.Core.Logic.{⊎_elim}
use mathlib.Core.List.{reverse, reverse_aux}
use libcrange.Base.{
  ℕ, zero, suc, ◌+◌, ◌≡◌, ◌≤◌, ◌↔◌, refl, ap, ap₂, ◌∙◌, Text, text, List, [], ◌∷◌, ◌++◌, Option,
  none, some, true, arith, length, take, map, ◌⊎◌, inl, inr, Bool-cases, is_some,
}
use libcrange.Base.{Run, fault, assertion, null_pointer, ◌>>=◌, Returns}
use libcrange.HashSet.Resize.{Models, size_limit}
use libcrange.HashSet.{set_get, set_members}
use libcrange.Range.Meaning.{
  Denotes, Denotes_ext, of_Models, range_new-Denotes, range_add-Denotes, set_members-Denotes,
  hostnames_plain, hostnames_quoted,
}
use libcrange.Range.{Range, range_get_hostnames, names_of, in_quotes}
use libcrange.Request.{Request, range_request_warn}
use libcrange.Bridge.{
  Perl, Python, PyAnswer, raised, no_iterator, items, range_to_array_ref, range_to_py_array,
  add_values, perl_answer, perl_function, python_answer, python_function,
}

take_all {ℓ} : {A : Type ℓ} (xs : List A) (n : ℕ) → length xs ≡ n → take n xs ≡ xs
take_all [] zero h = refl
take_all [] (suc n) h = refl
take_all (x ∷ xs) zero h = absurd (omega arith)
take_all (x ∷ xs) (suc n) h = ap (λ t. x ∷ t) (take_all xs n (omega arith))

length-map {ℓ} : {A B : Type ℓ} (f : A → B) (xs : List A) → length (map f xs) ≡ length xs
length-map f [] = refl
length-map f (x ∷ xs) = ap suc (length-map f xs)

-- An array of as many names as the set has members has all names of its range.
all_names :
    (r : Range)
    → Models r.nodes (set_get r.nodes)
    → take r.nodes.members (range_get_hostnames r) ≡ range_get_hostnames r
all_names r m =
    let d =
      of_Models {s = r.nodes} r.quoted r.nodes.members m (λ q. (λ h. h, λ h. h)) (omega arith) in
    let count = (set_members-Denotes d).1 in
    elim (Bool-cases r.quoted) [
      | inl quoted ↦ take_all (range_get_hostnames r) r.nodes.members (
          ap length (hostnames_quoted r quoted)
          ∙ length-map in_quotes (names_of (set_members r.nodes))
          ∙ count)
      | inr plain ↦
          take_all (range_get_hostnames r) r.nodes.members
            (ap length (hostnames_plain r plain) ∙ count)
    ]

-- the ranges are well-formed
unfoldable pub AllModels : List Range → Type 0
AllModels [] = Unit
AllModels (r ∷ rs) = Models r.nodes (set_get r.nodes) × AllModels rs

array_refs_all :
    (rs : List Range) → AllModels rs → map range_to_array_ref rs ≡ map range_get_hostnames rs
unfolding AllModels range_to_array_ref
array_refs_all [] all = refl
array_refs_all (r ∷ rs) all = ap₂ (λ x y. x ∷ y) (all_names r all.0) (array_refs_all rs all.1)

py_arrays_all :
    (rs : List Range) → AllModels rs → map range_to_py_array rs ≡ map range_get_hostnames rs
unfolding AllModels range_to_py_array
py_arrays_all [] all = refl
py_arrays_all (r ∷ rs) all = ap₂ (λ x y. x ∷ y) (all_names r all.0) (py_arrays_all rs all.1)

-- one of the values is the text
unfoldable pub Given : List (Option Text) → Text → Type 0
Given [] q = ⊥
Given (value ∷ values) q = (value ≡ some q) ⊎ Given values q

-- no value is null
unfoldable pub AllTexts : List (Option Text) → Type 0
AllTexts [] = Unit
AllTexts (value ∷ values) = (is_some value ≡ true) × AllTexts values

add_values-Denotes :
    (on_null : Run Range) (values : List (Option Text)) (r : Range) (P : Text → Type 0) (n : ℕ)
    → AllTexts values
    → Denotes r P n
    → n + length values ≤ size_limit
    → Returns
        (add_values on_null values r)
        (λ r'. Denotes r' (λ q. Given values q ⊎ P q) (n + length values))
unfolding add_values AllTexts Given
add_values-Denotes on_null [] r P n all d room =
    (r, refl, Denotes_ext d (λ q. (inr, ⊎_elim (λ x. absurd x) (λ p. p))) (omega arith))
add_values-Denotes on_null (none ∷ values) r P n all d room = absurd (cc)
add_values-Denotes on_null (some v ∷ values) r P n all d room =
    let (r', run, (d', _)) = range_add-Denotes r v d (omega arith) in
    let (r'', run', d'') = add_values-Denotes on_null values r' _ (n + 1) all.1 d' (omega arith) in
    (
      r'',
      rw (run, ◌>>=◌) run',
      Denotes_ext d''
          (λ q. (
            elim [
              | inl g ↦ inl (inr g)
              | inr (inl e) ↦ inl (inl (ap some e))
              | inr (inr p) ↦ inr p
            ],
            elim [ inl (inl e) ↦ inr (inl (cc)) | inl (inr g) ↦ inl g | inr p ↦ inr (inr p) ],
          ))
          (omega arith),
    )

reverse_aux-AllTexts :
    (xs ys : List (Option Text)) → AllTexts xs → AllTexts ys → AllTexts (reverse_aux xs ys)
unfolding AllTexts
reverse_aux-AllTexts [] ys all all' = all'
reverse_aux-AllTexts (x ∷ xs) ys all all' = reverse_aux-AllTexts xs (x ∷ ys) all.1 (all.0, all')

reverse_aux-Given :
    (xs ys : List (Option Text)) (q : Text)
    → Given (reverse_aux xs ys) q ↔ (Given xs q ⊎ Given ys q)
unfolding Given
reverse_aux-Given [] ys q = (inr, ⊎_elim (λ x. absurd x) (λ g. g))
reverse_aux-Given (x ∷ xs) ys q =
    let (there, back) = reverse_aux-Given xs (x ∷ ys) q in
    (
      λ g. elim (there g) [ inl a ↦ inl (inr a) | inr (inl e) ↦ inl (inl e) | inr (inr b) ↦ inr b ],
      elim [
        | inl (inl e) ↦ back (inr (inl e))
        | inl (inr a) ↦ back (inl a)
        | inr b ↦ back (inr (inr b))
      ],
    )

length-reverse_aux :
    (xs ys : List (Option Text)) → length (reverse_aux xs ys) ≡ length xs + length ys
length-reverse_aux [] ys = omega arith
length-reverse_aux (x ∷ xs) ys = omega (arith, length-reverse_aux xs (x ∷ ys))

-- the names that an answer of Perl gives, the request after it, and what is asked of it: no value is
-- null, and there are not too many
unfoldable pub Answered : Text ⊎ List (Option Text) → Text → Type 0
Answered (inl error) q = ⊥
Answered (inr values) q = Given values q

unfoldable pub after_answer : Text ⊎ List (Option Text) → Request → Request
after_answer (inl error) rr =
    range_request_warn rr (text "Calling ::libcrange_call_func: " ++ error)
after_answer (inr values) rr = rr

unfoldable pub IsSafe : Text ⊎ List (Option Text) → ℕ → Type 0
IsSafe (inl error) n = Unit
IsSafe (inr values) n = AllTexts values × (length values ≤ n) × (n ≤ size_limit)

-- For well-formed arguments and a started interpreter, `perl_function` calls the function on all the
-- names of each argument. Where the call ends in an error, the result is empty and the error is warned
-- of. Where it gives values, none of them null and at most `n` of them, at most 1610612741, the result
-- has exactly their texts. The rest of the request and the interpreter are as the call left them.
pub perl_function-Answered :
    {I : Type 0} (perl : Perl I) (funcname : Text) (i i' : I) (rr rr' : Request) (r : List Range)
    (answer : Text ⊎ List (Option Text)) (n : ℕ)
    → AllModels r
    → perl.call_func funcname (map range_get_hostnames r) rr i ≡ (answer, rr', i')
    → IsSafe answer n
    → Returns
        (perl_function perl funcname (some i) rr r)
        λ x. Denotes x.0 (Answered answer) n × (x.1 ≡ after_answer answer rr') × (x.2 ≡ i')
unfolding perl_function perl_answer Answered after_answer IsSafe AllTexts Given
perl_function-Answered perl funcname i i' rr rr' r (inl error) n all called safe =
    let asked = ap (λ a. perl.call_func funcname a rr i) (array_refs_all r all) ∙ called in
    let (ret, made, (d, _)) = range_new-Denotes in
    (
      (ret, range_request_warn rr' (text "Calling ::libcrange_call_func: " ++ error), i'),
      rw (made, ◌>>=◌) (ap (perl_answer perl ret) (asked)),
      (Denotes_ext d (λ q. (λ x. x, λ x. x)) (omega arith), refl, refl),
    )
perl_function-Answered perl funcname i i' rr rr' r (inr values) n all called safe =
    let asked = ap (λ a. perl.call_func funcname a rr i) (array_refs_all r all) ∙ called in
    let (ret, made, (d, _)) = range_new-Denotes in
    let count = length-reverse_aux values [] in
    let (ret', run, d') =
      add_values-Denotes (fault assertion) (reverse values) ret _ 0
        (reverse_aux-AllTexts values [] safe.0 tt) d (omega (arith, count, safe.1, safe.2)) in
    (
      (ret', rr', i'),
      rw (made, ◌>>=◌) (ap (perl_answer perl ret) asked ∙ rw run refl),
      (
        Denotes_ext d'
            (λ q. (
              ⊎_elim (λ g. ⊎_elim (λ a. a) (λ x. absurd x) ((reverse_aux-Given values [] q).0 g))
                  (λ x. absurd x),
              λ g. inl ((reverse_aux-Given values [] q).1 (inl g)),
            ))
            (omega (arith, count, safe.1)),
        refl,
        refl,
      ),
    )

-- the texts that Python gives, none where there is no iterator
unfoldable pub Iterated : PyAnswer → Text → Type 0
Iterated raised q = ⊥
Iterated no_iterator q = ⊥
Iterated (items values) q = Given values q

unfoldable pub IsPlain : PyAnswer → ℕ → Type 0
IsPlain raised n = ⊥
IsPlain no_iterator n = Unit
IsPlain (items values) n = AllTexts values × (length values ≤ n) × (n ≤ size_limit)

-- For well-formed arguments and a `libcrange_call_func` that can be called, `python_function` calls the
-- function on all the names of each argument. Where the call raises no exception and gives nothing to
-- iterate over, the result is empty. Where it gives items, all of them texts and at most `n`, at most
-- 1610612741, the result has exactly these.
pub python_function-Iterated :
    {I : Type 0} (python : Python I) (funcname : Text) (i i' : I) (r : List Range)
    (answer : PyAnswer) (n : ℕ)
    → AllModels r
    → python.callable i ≡ true
    → python.call_object funcname (map range_get_hostnames r) i ≡ (answer, i')
    → IsPlain answer n
    → Returns
        (python_function python funcname i r)
        (λ x. Denotes x.0 (Iterated answer) n × (x.1 ≡ i'))
unfolding python_function python_answer Iterated IsPlain
python_function-Iterated python funcname i i' r raised n all there called safe = absurd safe
python_function-Iterated python funcname i i' r no_iterator n all there called safe =
    let asked = ap (λ a. python.call_object funcname a i) (py_arrays_all r all) ∙ called in
    let (result, made, (d, _)) = range_new-Denotes in
    (
      (result, i'),
      rw (made, ◌>>=◌, there) (ap (python_answer python result) asked),
      (Denotes_ext d (λ q. (λ x. x, λ x. x)) (omega arith), refl),
    )
python_function-Iterated python funcname i i' r (items values) n all there called safe =
    let asked = ap (λ a. python.call_object funcname a i) (py_arrays_all r all) ∙ called in
    let (result, made, (d, _)) = range_new-Denotes in
    let (result', run, d') =
      add_values-Denotes (fault null_pointer) values result _ 0 safe.0 d
        (omega (arith, safe.1, safe.2)) in
    (
      (result', i'),
      rw (made, ◌>>=◌, there) (ap (python_answer python result) asked ∙ rw run refl),
      (Denotes_ext d' (λ q. (⊎_elim (λ g. g) (λ x. absurd x), inl)) (omega (arith, safe.1)), refl),
    )
