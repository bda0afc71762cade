-- ===== src/Cluster.antt =====
-- What the modules of cluster functions share, source/functions/yamlfile.c, source/functions/nodescf.c and
-- source/functions/sqlite.c: the same code stands in each of them. A module gives the expansion
-- of a section of a cluster and the list of all clusters.
pub mod Dollars
pub mod Sections
pub mod Arguments
mod Tests
use libcrange.Base.{
  ℕ, ◌-◌, Text, text, [], ◌∷◌, ◌++◌, List, Option, none, some, Bool, true, false, ◌||◌,
  if◌then◌else◌, ltb, ◌==◌, length,
}
use libcrange.Base.{Run, ok, fault, out_of_bounds, null_pointer, ◌>>=◌}
use libcrange.HashSet.{Set, set_new, set_add, set_add_noresize, set_get_data, present}
use libcrange.Range.{
  Range, range_new, range_add, range_get_hostnames, range_union_inplace, add_names,
  validate_range_args,
}
use libcrange.Request.{
  Request, range_request_warn, range_request_warn_type, range_request_warn_enabled,
  range_request_enable_warns, range_request_disable_warns,
}

-- The request with what a module keeps in the caches of the library context.
pub record World (S : Type 0) : Type 0 where
  pub request : Request
  pub store : S

-- an operation on the request and the caches
abbrev pub Act : Type 0 → Type 0 → Type 0
Act S A = World S → Run (A × World S)

module _ {S : Type 0} where
  pub warn : Text → World S → World S
  warn line w = record w { request = range_request_warn w.request line }

  pub warn_type : Text → Text → World S → Run (World S)
  warn_type type node w =
      range_request_warn_type w.request type node >>= λ rr. ok (record w { request = rr })

  -- `if (warn_enabled) range_request_enable_warns(rr);`
  pub restore_warns : Bool → World S → World S
  restore_warns enabled w =
      if enabled then record w { request = range_request_enable_warns w.request } else w

  pub disable_warns : World S → World S
  disable_warns w = record w { request = range_request_disable_warns w.request }

  -- The body runs where the number of arguments is as expected, else the result is empty.
  pub with_args : List Range → ℕ → (Range → Act S Range) → Act S Range
  with_args r expected body w = range_new >>= λ ret.
      validate_range_args r expected >>= λ valid. if valid then body ret w else ok (ret, w)

-- the names of `r[i]`, which is null behind the last argument
pub arg_names : List Range → ℕ → Run (List Text)
arg_names [] i = fault null_pointer
arg_names (a ∷ r) i = if i == 0 then ok (range_get_hostnames a) else arg_names r (i - 1)

-- the first of some names, a null pointer if there is none
abbrev pub first_name : List Text → Option Text
first_name [] = none
first_name (n ∷ _) = some n

-- a null pointer is followed
abbrev pub non_null : Option Text → Run Text
non_null none = fault null_pointer
non_null (some n) = ok n

-- `while (*p_wanted) if (set_get(nodes, *p_wanted)) …`
pub any_present : Set Text → List Text → Bool
any_present s [] = false
any_present s (wanted ∷ more) = present s wanted || any_present s more

-- The text before the first colon and the text behind it: `strchr(p, ':')`.
pub split_colon : Text → Option (Text × Text)
split_colon [] = none
split_colon (c ∷ p) =
    let rest = split_colon p in
    if c == b':'
    then some ([], p)
    else elim rest [ none ↦ none | some (cl, sec) ↦ some (c ∷ cl, sec) ]

-- The larger range takes the names of the smaller, the first at a tie.
pub union_larger : Range → Range → Run Range
union_larger ret r₁ =
    if ltb ret.nodes.members r₁.nodes.members
    then range_union_inplace r₁ ret
    else range_union_inplace ret r₁

-- `apr_array_push` on the array of a node, which is made at its first key
pub push_key : Set (List Text) → Text → Text → Run (Set (List Text))
push_key s node key = elim (set_get_data s node) [
  | none ↦ set_add s node (some []) >>= λ s'. ok (set_add_noresize s' node (some (key ∷ [])))
  | some keys ↦ ok (set_add_noresize s node (some (keys ++ key ∷ [])))
]

pub push_keys : Set (List Text) → List Text → Text → Run (Set (List Text))
push_keys s [] key = ok s
push_keys s (node ∷ nodes) key = push_key s node key >>= λ s'. push_keys s' nodes key

module _ {S : Type 0} where
  -- For every key, its nodes get the key in their arrays.
  pub gather : (Text → Act S Range) → List Text → Set (List Text) → Act S (Set (List Text))
  gather nodes_of [] s w = ok (s, w)
  gather nodes_of (key ∷ keys) s w = nodes_of key w >>= λ x.
      push_keys s (range_get_hostnames x.0) key >>= λ s'. gather nodes_of keys s' x.1

  -- all the keys of each node, or a warning
  pub report_all : Text → Set (List Text) → List Text → Range → Act S Range
  report_all warning s [] ret w = ok (ret, w)
  report_all warning s (node ∷ nodes) ret w = elim (set_get_data s node) [
    | none ↦ warn_type warning node w >>= λ w'. report_all warning s nodes ret w'
    | some keys ↦ add_names ret keys >>= λ ret'. report_all warning s nodes ret' w
  ]

  -- the first key of each node, or a warning
  pub report_first : Text → Set (List Text) → List Text → Range → Act S Range
  report_first warning s [] ret w = ok (ret, w)
  report_first warning s (node ∷ nodes) ret w = elim (set_get_data s node) [
    | none ↦ warn_type warning node w >>= λ w'. report_first warning s nodes ret w'
    | some keys ↦ elim keys [
      | [] ↦ fault out_of_bounds
      | key ∷ _ ↦ range_add ret key >>= λ ret'. report_first warning s nodes ret' w
    ]
  ]

-- `expand` is `_expand_cluster`, and `clusters` is `_all_clusters`, `none` where it returns null.
module _ {S : Type 0} (expand : Text → Text → Act S Range)
    (clusters : Act S (Option (List Text))) where
  pub allclusters : Act S Range
  allclusters w = range_new >>= λ ret. clusters w >>= λ x.
      let enabled = range_request_warn_enabled x.1.request in
      elim x.0 [
        | none ↦ ok (ret, x.1)
        | some all ↦
            add_names ret all >>= λ ret'. ok (ret', restore_warns enabled (disable_warns x.1))
      ]

  -- the loop of `rangefunc_has`
  pub has_loop : Option Text → Option Text → List Text → Range → Act S Range
  has_loop tag_name tag_value [] ret w = ok (ret, w)
  has_loop tag_name tag_value (cluster ∷ all) ret w = non_null tag_name >>= λ name.
      expand cluster name w >>= λ vals. non_null tag_value >>= λ value.
      (if present vals.0.nodes value then range_add ret cluster else ok ret) >>= λ ret'.
      has_loop tag_name tag_value all ret' vals.1

  pub has_clusters : Option Text → Option Text → Range → Act S Range
  has_clusters tag_name tag_value ret w = clusters w >>= λ x.
      let enabled = range_request_warn_enabled x.1.request in
      elim x.0 [
        | none ↦ ok (ret, x.1)
        | some all ↦ has_loop tag_name tag_value all ret (disable_warns x.1) >>= λ y.
            ok (y.0, restore_warns enabled y.1)
      ]

  pub has : List Range → Act S Range
  has r = with_args r 2 (λ ret w. arg_names r 0 >>= λ tag_names. arg_names r 1 >>= λ tag_values.
      has_clusters (first_name tag_names) (first_name tag_values) ret w)

  -- the loop of `rangefunc_mem` over the sections of a cluster
  pub mem_loop : Text → List Text → List Text → Range → Act S Range
  mem_loop cluster wanted [] ret w = ok (ret, w)
  mem_loop cluster wanted (section ∷ sections) ret w = expand cluster section w >>= λ r_s.
      (if any_present r_s.0.nodes wanted then range_add ret section else ok ret) >>= λ ret'.
      mem_loop cluster wanted sections ret' r_s.1

  pub mem : List Range → Act S Range
  mem r = with_args r 2 (λ ret w. arg_names r 0 >>= λ names. arg_names r 1 >>= λ wanted.
      non_null (first_name names) >>= λ cluster. expand cluster (text "KEYS") w >>= λ keys.
      mem_loop cluster wanted (range_get_hostnames keys.0) ret keys.1)

  -- `cluster:section`, or the section CLUSTER of a name without a colon
  pub expand_name : Text → Act S Range
  expand_name name = elim (split_colon name) [
    | some (cl, sec) ↦ expand cl sec
    | none ↦ expand name (text "CLUSTER")
  ]

  -- the loop of `rangefunc_cluster`
  pub cluster_loop : List Text → Range → Act S Range
  cluster_loop [] ret w = ok (ret, w)
  cluster_loop (name ∷ names) ret w =
      expand_name name w >>= λ r₁. union_larger ret r₁.0 >>= λ ret'. cluster_loop names ret' r₁.1

  -- `_get_clusters`, by the nodes of one section of each cluster
  pub get_clusters : Text → Act S (Set (List Text))
  get_clusters section w = clusters w >>= λ x. set_new 40000 >>= λ node_cluster. elim x.0 [
    | none ↦ ok (node_cluster, x.1)
    | some all ↦ gather (λ cluster. expand cluster section) all node_cluster x.1
  ]

  pub get_cluster : Text → List Range → Act S Range
  get_cluster section r = with_args r 1 (λ ret w. arg_names r 0 >>= λ nodes.
      get_clusters section w >>= λ x. report_first (text "NO_CLUSTER") x.0 nodes ret x.1)

  pub clusters_of : Text → List Range → Act S Range
  clusters_of section r = with_args r 1 (λ ret w. arg_names r 0 >>= λ nodes.
      get_clusters section w >>= λ x. report_all (text "NO_CLUSTER") x.0 nodes ret x.1)

  -- the loop of `rangefunc_group`, where `home` is the cluster of a group
  pub group_loop : (Text → Run Text) → List Text → Range → Act S Range
  group_loop home [] ret w = ok (ret, w)
  group_loop home (group ∷ groups) ret w = home group >>= λ cluster. expand cluster group w >>= λ x.
      range_union_inplace ret x.0 >>= λ ret'. group_loop home groups ret' x.1

  pub get_groups : List Range → Act S Range
  get_groups r = with_args r 1 (λ ret w. arg_names r 0 >>= λ in_nodes.
      set_new 40000 >>= λ node_group. expand (text "GROUPS") (text "KEYS") w >>= λ groups_r.
      gather (expand (text "GROUPS")) (range_get_hostnames groups_r.0) node_group groups_r.1
      >>= λ x. report_all (text "NO_GROUPS") x.0 in_nodes ret x.1)
