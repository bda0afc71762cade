-- ===== src/Yamlfile.antt =====
-- The cluster functions of source/functions/yamlfile.c. A cluster is a file of YAML, which libyaml
-- reads: a mapping from the names of sections to a text or a list of texts.
pub mod Cached
mod Tests
use libcrange.Base.{
  ℕ, ◌-◌, Text, text, [], ◌∷◌, ◌++◌, List, Option, none, some, Bool, true, if◌then◌else◌, ltb, ◌==◌,
  length, take, drop, str_eq,
}
use libcrange.Base.{Run, ok, fault, out_of_bounds, wrong_member, ◌>>=◌}
use libcrange.HashSet.{Set, set_new, set_add, set_get_data, set_members}
use libcrange.Range.{Range, range_new, names_of}
use libcrange.Request.{Request, range_request_warn}
use libcrange.Compress.{join_groups}
use libcrange.Cluster.Dollars.{substitute_dollars, join_elements}
use libcrange.Cluster.Sections.{Store, open_cache, close_cache, cached_sections}
use libcrange.Cluster
use libcrange.Cluster.{World, Act, warn, warn_type, with_args, arg_names}

-- `yaml_node_t`, with the nodes that it refers to in their places
mutual
  pub data Node : Type 0 where
    no_node : Node
    scalar : Text → Node
    sequence : Items → Node
    mapping : Pairs → Node

  pub data Items : Type 0 where
    no_items : Items
    item : Node → Items → Items

  pub data Pairs : Type 0 where
    no_pairs : Pairs
    pair : Node → Node → Pairs → Pairs

-- What libyaml makes of a file: it cannot be opened, the parser cannot be set up, it is not well
-- formed, or it is a document, whose root may be missing.
pub data Loaded : Type 0 where
  unreadable no_parser malformed : Loaded
  document : Option Node → Loaded

-- What the module reads from outside: the files, their times and directories, and `apr_strnatcmp` as a test.
pub record Files : Type 0 where
  pub yaml_path : Text
  pub load : Text → Loaded
  pub stat : Text → Option ℕ
  pub readable : Text → Bool
  pub opendir : Text → Option (List Text)
  pub natural_eq : Text → Text → Bool

-- `"(%s)"` of each item of a list: `none` if one is no scalar
pub list_parts : Text → Items → Run (Option (List Text))
list_parts cluster no_items = ok (some [])
list_parts cluster (item no_node items) = ok none
list_parts cluster (item (sequence _) items) = ok none
list_parts cluster (item (mapping _) items) = ok none
list_parts cluster (item (scalar value) items) = substitute_dollars true cluster value >>= λ line.
    list_parts cluster items >>= λ rest.
    ok (elim rest [ none ↦ none | some parts ↦ some ((b'(' ∷ (line ++ b')' ∷ [])) ∷ parts) ])

-- the text of a section: `inl` of a malformed list, `none` for a value that is passed over
pub data Value : Type 0 where
  malformed_list passed : Value
  value_text : Text → Value

pub section_value : Text → Node → Run Value
section_value cluster no_node = ok passed
section_value cluster (mapping _) = ok passed
section_value cluster (scalar value) =
    substitute_dollars true cluster value >>= λ line. ok (value_text line)
section_value cluster (sequence items) = list_parts cluster items >>= λ parts.
    ok (elim parts [ none ↦ malformed_list | some ps ↦ value_text (join_groups ps) ])

-- `keynode->data.scalar.value`, with no test that the key is a scalar
pub key_name : Node → Run Text
key_name (scalar name) = ok name
key_name no_node = fault wrong_member
key_name (sequence _) = fault wrong_member
key_name (mapping _) = fault wrong_member

-- the loop over the pairs: `none` at a malformed list
pub add_sections : Text → Pairs → Set Text → Run (Option (Set Text))
add_sections cluster no_pairs sections = ok (some sections)
add_sections cluster (pair key value pairs) sections = key_name key >>= λ cur_section.
    section_value cluster value >>= λ v. elim v [
      | malformed_list ↦ ok none
      | passed ↦ add_sections cluster pairs sections
      | value_text line ↦ set_add sections cur_section (some line) >>= λ sections'.
          add_sections cluster pairs sections'
    ]

-- the section KEYS, which names all the others
pub add_keys : Set Text → Run (Set Text)
add_keys sections = set_add sections (text "KEYS") (join_elements b',' sections)

pub malformed_warning : Text → Text → Text
malformed_warning cluster file = cluster ++ (text ": malformatted cluster definition " ++ file)

-- An empty set of sections, with a warning.
pub no_sections : Request → Text → Run (Set Text × Request)
no_sections rr warning = set_new 0 >>= λ s. ok (s, range_request_warn rr warning)

pub mapping_keys : Text → Text → Pairs → Request → Run (Set Text × Request)
mapping_keys cluster file pairs rr = set_new 0 >>= λ sections.
    add_sections cluster pairs sections >>= λ done. elim done [
      | none ↦ no_sections rr (cluster ++ (text ": malformed cluster definition " ++ file))
      | some sections' ↦ add_keys sections' >>= λ s. ok (s, rr)
    ]

pub document_keys : Text → Text → Option Node → Request → Run (Set Text × Request)
document_keys cluster file none rr = no_sections rr (malformed_warning cluster file)
document_keys cluster file (some no_node) rr = no_sections rr (malformed_warning cluster file)
document_keys cluster file (some (scalar _)) rr = no_sections rr (malformed_warning cluster file)
document_keys cluster file (some (sequence _)) rr = no_sections rr (malformed_warning cluster file)
document_keys cluster file (some (mapping pairs)) rr = mapping_keys cluster file pairs rr

module _ (files : Files) where
  pub cluster_keys : Text → Text → Request → Run (Set Text × Request)
  cluster_keys cluster file rr = elim (files.load file) [
    | unreadable ↦ no_sections rr (cluster ++ (text ": " ++ (file ++ text " not readable")))
    | no_parser ↦ no_sections rr (cluster ++ text ": cannot initialize yaml parser")
    | malformed ↦ no_sections rr (malformed_warning cluster file)
    | document root ↦ document_keys cluster file root rr
  ]

  pub cluster_file : Text → Text
  cluster_file cluster = files.yaml_path ++ (b'/' ∷ (cluster ++ text ".yaml"))

  -- the names of the files of a directory that are readable and end in `.yaml`, without that end
  pub yaml_names : List Text → Set Text → Run (Set Text)
  yaml_names [] res = ok res
  yaml_names (entry ∷ entries) res =
      let path = take 8191 (files.yaml_path ++ (b'/' ∷ entry)) in
      (if ltb (length path) 5
        then fault out_of_bounds
        else if str_eq (drop (length path - 5) path) (text ".yaml")
        then (if files.readable path
            then (if ltb (length entry) 5
                then fault out_of_bounds
                else set_add res (take (length entry - 5) entry) none)
            else ok res)
        else ok res)
      >>= λ res'. yaml_names entries res'

  pub all_clusters : Act Store (Option (List Text))
  all_clusters w = set_new 0 >>= λ res. elim (files.opendir files.yaml_path) [
    | none ↦ ok (none, warn (files.yaml_path ++ text ": can't opendir") w)
    | some entries ↦ yaml_names entries res >>= λ res'. ok (some (names_of (set_members res')), w)
  ]

  module _ (do_range_expand : Text → Act Store Range) where
    -- `_expand_cluster` behind the cache
    pub expand_section : Text → Text → Set Text → Act Store Range
    expand_section cluster section sections w = elim (set_get_data sections section) [
      | some res ↦ do_range_expand res w
      | none ↦
          if files.natural_eq section (text "CLUSTER")
          then do_range_expand [] w
          else (warn_type (text "NOCLUSTER") (cluster ++ (b':' ∷ section)) w >>= λ w'.
              range_new >>= λ r. ok (r, w'))
    ]

    pub expand_cluster : Text → Text → Act Store Range
    expand_cluster cluster section w =
        let file = cluster_file cluster in
        open_cache w.store >>= λ cache. elim (files.stat file) [
          | none ↦
              warn_type (text "NOCLUSTERDEF") cluster
                (record w { store = close_cache w.store cache })
              >>= λ w'. range_new >>= λ r. ok (r, w')
          | some mtime ↦
              cached_sections (λ e. e.mtime == mtime) mtime (cluster_keys cluster file) file cache
                w.request
              >>= λ x.
                  expand_section cluster section x.0
                    (record { request = x.2; store = close_cache w.store x.1 })
        ]

    pub rangefunc_allclusters : List Range → Act Store Range
    rangefunc_allclusters r = Cluster.allclusters expand_cluster all_clusters

    pub rangefunc_has : List Range → Act Store Range
    rangefunc_has = Cluster.has expand_cluster all_clusters

    pub rangefunc_mem : List Range → Act Store Range
    rangefunc_mem = Cluster.mem expand_cluster all_clusters

    pub rangefunc_cluster : List Range → Act Store Range
    rangefunc_cluster r = with_args r 1 (λ ret w.
        arg_names r 0 >>= λ names. Cluster.cluster_loop expand_cluster all_clusters names ret w)

    pub rangefunc_get_cluster : List Range → Act Store Range
    rangefunc_get_cluster = Cluster.get_cluster expand_cluster all_clusters (text "CLUSTER")

    pub rangefunc_clusters : List Range → Act Store Range
    rangefunc_clusters = Cluster.clusters_of expand_cluster all_clusters (text "CLUSTER")

    -- The argument is read without a test that there is one.
    pub rangefunc_group : List Range → Act Store Range
    rangefunc_group r w = range_new >>= λ ret. arg_names r 0 >>= λ groups.
        Cluster.group_loop expand_cluster all_clusters (λ _. ok (text "GROUPS")) groups ret w

    pub rangefunc_get_groups : List Range → Act Store Range
    rangefunc_get_groups = Cluster.get_groups expand_cluster all_clusters
