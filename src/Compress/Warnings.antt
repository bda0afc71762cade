-- ===== src/Compress/Warnings.antt =====
-- The text of the results and of the warnings of a request, source/src/range_request.c.
use libcrange.Base.{Text, text, List, [], ◌∷◌, ◌++◌, Option, none, some}
use libcrange.Base.{Run, ok, fault, assertion, null_pointer, ◌>>=◌}
use libcrange.HashSet.Bucket.{Element}
use libcrange.HashSet.{set_members}
use libcrange.Range.{Range}
use libcrange.Request.{Request}
use libcrange.Compress.{Captures, do_range_compress}

-- `"%s | %s"`, or the second text alone where there is no first
pub with_bar : Option Text → Text → Text
with_bar none line = line
with_bar (some result) line = result ++ (text " | " ++ line)

module _ (numbered_node_re : Text → Option Captures) where
  pub range_request_compressed : Request → Run (Text × Request)
  range_request_compressed rr = elim rr.r [
    | none ↦ fault assertion
    | some r ↦ do_range_compress numbered_node_re rr r
  ]

  -- the loop over the types of warnings, each with the nodes that it is about
  pub type_warnings : List (Element Range) → Option Text → Request → Run (Option Text × Request)
  type_warnings [] result rr = ok (result, rr)
  type_warnings (e ∷ es) result rr = elim e.value [
    | none ↦ fault null_pointer
    | some nodes ↦ do_range_compress numbered_node_re rr nodes >>= λ x.
        type_warnings es (some (with_bar result (e.name ++ (text ": " ++ x.0)))) x.1
  ]

  -- The result is `none` where the C function returns a null pointer.
  pub range_request_warnings : Request → Run (Option Text × Request)
  range_request_warnings rr =
      let typed = elim rr.warn_type as (λ _. Run (Option Text × Request)) [
        | none ↦ ok (none, rr)
        | some types ↦ type_warnings (set_members types) none rr
      ] in
      let finish =
        (typed >>= λ x. elim x.1.warnings as (λ _. Run (Option Text × Request)) [
          | none ↦ ok x
          | some warnings ↦ ok (some (with_bar x.0 warnings), x.1)
        ]) in
      elim rr.warn_type [
        | none ↦ elim rr.warnings [ none ↦ ok (some [], rr) | some _ ↦ finish ]
        | some _ ↦ finish
      ]
