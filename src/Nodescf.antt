-- ===== src/Nodescf.antt =====
-- The cluster functions of source/functions/nodescf.c. A cluster is a directory with a file nodes.cf of
-- sections and a file vips.cf of addresses.
pub mod Lines
pub mod Keys
mod Tests
use libcrange.Base.{
  ℕ, ◌+◌, ◌-◌, Text, text, [], ◌∷◌, ◌++◌, List, Option, none, some, Bool, true, false, ◌&&◌, ◌||◌,
  not, is_some, if◌then◌else◌, leb, ◌==◌, length, take, str_eq,
}
use libcrange.Base.{Run, ok, ◌>>=◌}
use libcrange.HashSet.{Set, set_new, set_add, set_add_noresize, set_get_data, set_members, present}
use libcrange.Range.{Range, range_new, range_add, range_from_set, range_get_hostnames, names_of}
use libcrange.Request.{Request, range_request_warn}
use libcrange.Cluster.Sections.{Entry, Store, open_cache, close_cache, cached_sections}
use libcrange.Cluster
use libcrange.Cluster.{World, Act, warn, warn_type, with_args, arg_names}
use libcrange.Nodescf.Lines.{clean_line, ignored_name}
use libcrange.Nodescf.Keys.{Patterns, read_keys}

-- `vips`: the addresses and their hosts, with the time of the file
pub record Vips : Type 0 where
  pub mtime : ℕ
  pub vips : Set Text
  pub viphosts : Set Text

-- the two caches of this module, `nodescf:cluster_keys` and `nodescf:cluster_vips`
pub record Caches : Type 0 where
  pub clusters : Store
  pub addresses : Option (Set Vips)

-- What the module reads from outside: the files by their lines, their times and directories, and
-- what PCRE captures of a line.
pub record Files : Type 0 where
  pub nodescf_path : Text
  pub lines : Text → Option (List Text)
  pub stat : Text → Option ℕ
  pub readable : Text → Bool
  pub opendir : Text → Option (List Text)
  pub patterns : Patterns
  pub vips_re : Text → Option (Text × Text × Text)

-- the loop of `_get_ignore_set`
pub add_ignored : List Text → Set Text → Run (Set Text)
add_ignored [] ret = ok ret
add_ignored (line ∷ lines) ret = ignored_name line >>= λ name. elim name [
  | none ↦ add_ignored lines ret
  | some n ↦ set_add ret n none >>= λ ret'. add_ignored lines ret'
]

-- the loop of `_parse_cluster_vips`
pub add_vips :
    (Text → Option (Text × Text × Text))
    → List Text
    → Set Text
    → Set Text
    → Run (Set Text × Set Text)
add_vips vips_re [] vips viphosts = ok (vips, viphosts)
add_vips vips_re (line ∷ lines) vips viphosts = clean_line line >>= λ cleaned. elim cleaned [
  | none ↦ add_vips vips_re lines vips viphosts
  | some t ↦ elim (vips_re t) [
    | none ↦ add_vips vips_re lines vips viphosts
    | some (address, host, _) ↦ set_add vips address none >>= λ vips'.
        set_add viphosts host none >>= λ viphosts'. add_vips vips_re lines vips' viphosts'
  ]
]

-- `_empty_vips`, whose time is not set: one set stands in both places
pub empty_vips : ℕ → Run Vips
empty_vips mtime = set_new 0 >>= λ s. ok (record { mtime = mtime; vips = s; viphosts = s })

-- the cache of the addresses: `libcrange_get_cache`, and a new set where it gives null
pub open_vips : Caches → Run (Set Vips)
open_vips c = elim c.addresses [ none ↦ set_new 0 | some cache ↦ ok cache ]

pub close_vips : Caches → Set Vips → Caches
close_vips c cache =
    if is_some c.addresses || c.clusters.want_caching
    then record c { addresses = some cache }
    else c

-- An entry without addresses: `_parse_cluster_vips` fills it, also where one was there.
pub blank_vips : ℕ → Run Vips
blank_vips mtime = set_new 0 >>= λ vips.
    set_new 0 >>= λ viphosts. ok (record { mtime = mtime; vips = vips; viphosts = viphosts })

-- `islower` of the first byte of a group's name
pub home_cluster : Text → Run Text
home_cluster [] = ok (text "GROUPS")
home_cluster (c ∷ _) = ok (if leb b'a' c && leb c b'z' then text "HOSTS" else text "GROUPS")

-- each node gets the admin, in the place of an earlier one
pub set_admin : Set Text → List Text → Text → Run (Set Text)
set_admin s [] admin = ok s
set_admin s (node ∷ nodes) admin = set_add s node (some admin) >>= λ s'. set_admin s' nodes admin

pub report_admins : Set Text → List Text → Range → Act Caches Range
report_admins s [] ret w = ok (ret, w)
report_admins s (node ∷ nodes) ret w = elim (set_get_data s node) [
  | none ↦ warn_type (text "NO_ADMIN") node w >>= λ w'. report_admins s nodes ret w'
  | some admin ↦ range_add ret admin >>= λ ret'. report_admins s nodes ret' w
]

module _ (files : Files) where
  pub get_ignore_set : Run (Set Text)
  get_ignore_set = set_new 0 >>= λ ret.
      elim (files.lines (files.nodescf_path ++ text "/all/IGNORE")) [
        | none ↦ ok ret
        | some lines ↦ add_ignored lines ret
      ]

  -- The file is read into the entry, which stands in the cache. If it cannot be opened the entry
  -- stays empty, and another empty one is given.
  pub read_vips : Text → Text → Vips → Set Vips → Act Caches Vips
  read_vips cluster path v cache w = elim (files.lines path) [
    | none ↦
        warn_type (text "NOVIPS") cluster (record w { store = close_vips w.store cache }) >>= λ w'.
        empty_vips v.mtime >>= λ e. ok (e, w')
    | some lines ↦ add_vips files.vips_re lines v.vips v.viphosts >>= λ x.
        let v' : Vips = record { mtime = v.mtime; vips = x.0; viphosts = x.1 } in
        ok (v', record w { store = close_vips w.store (set_add_noresize cache path (some v')) })
  ]

  pub parse_cluster_vips : Text → Act Caches Vips
  parse_cluster_vips cluster w =
      let path = files.nodescf_path ++ (b'/' ∷ (cluster ++ text "/vips.cf")) in
      open_vips w.store >>= λ cache. elim (files.stat path) [
        | none ↦
            warn_type (text "NOVIPS") cluster (record w { store = close_vips w.store cache })
            >>= λ w'. empty_vips 0 >>= λ e. ok (e, w')
        | some mtime ↦ elim (set_get_data cache path) [
          | none ↦ blank_vips mtime >>= λ v.
              set_add cache path (some v) >>= λ cache'. read_vips cluster path v cache' w
          | some v ↦
              if v.mtime == mtime
              then ok (v, record w { store = close_vips w.store cache })
              else (blank_vips mtime >>= λ v'.
                  read_vips cluster path v' (set_add_noresize cache path (some v')) w)
        ]
      ]

  -- The range shares the set of the cache; what is done to the one is not modelled for the other.
  pub cluster_vips : Text → Act Caches Range
  cluster_vips cluster w = parse_cluster_vips cluster w >>= λ x. ok (range_from_set x.0.vips, x.1)

  pub cluster_viphosts : Text → Act Caches Range
  cluster_viphosts cluster w =
      parse_cluster_vips cluster w >>= λ x. ok (range_from_set x.0.viphosts, x.1)

  pub cluster_keys : Text → Text → Request → Run (Set Text × Request)
  cluster_keys cluster file rr = elim (files.lines file) [
    | none ↦ set_new 0 >>= λ s.
        ok (s, range_request_warn rr (cluster ++ (text ": " ++ (file ++ text " not readable"))))
    | some lines ↦ read_keys files.patterns cluster lines >>= λ s. ok (s, rr)
  ]

  pub cluster_file : Text → Text
  cluster_file cluster = files.nodescf_path ++ (b'/' ∷ (cluster ++ text "/nodes.cf"))

  -- the names of a directory that are not ignored and hold a readable nodes.cf
  pub cluster_names : Set Text → List Text → Set Text → Run (Set Text)
  cluster_names ignore [] res = ok res
  cluster_names ignore (entry ∷ entries) res =
      (if not (present ignore entry) && files.readable (take 8191 (cluster_file entry))
        then set_add res entry none
        else ok res)
      >>= λ res'. cluster_names ignore entries res'

  pub all_clusters : Act Caches (Option (List Text))
  all_clusters w = set_new 0 >>= λ res. get_ignore_set >>= λ ignore.
      elim (files.opendir files.nodescf_path) [
        | none ↦ ok (none, warn (files.nodescf_path ++ text ": can't opendir") w)
        | some entries ↦
            cluster_names ignore entries res >>= λ res'. ok (some (names_of (set_members res')), w)
      ]

  module _ (do_range_expand : Text → Act Caches Range) where
    -- a section that nodes.cf defines
    pub expand_defined : Text → Text → Act Caches Range
    expand_defined cluster section w =
        let file = cluster_file cluster in
        open_cache w.store.clusters >>= λ cache. elim (files.stat file) [
          | none ↦
              warn_type (text "NOCLUSTERDEF") cluster (record w {
                store = record w.store { clusters = close_cache w.store.clusters cache };
              })
              >>= λ w'. range_new >>= λ r. ok (r, w')
          | some mtime ↦
              cached_sections (λ e. e.mtime == mtime) mtime (cluster_keys cluster file) file cache
                w.request
              >>= λ x.
                  let w' : World Caches = record {
                    request = x.2;
                    store = record w.store { clusters = close_cache w.store.clusters x.1 };
                  } in
                  elim (set_get_data x.0 section) [
                    | some res ↦ do_range_expand res w'
                    | none ↦
                        warn_type (text "NOCLUSTER") (cluster ++ (b':' ∷ section)) w' >>= λ w''.
                        range_new >>= λ r. ok (r, w'')
                  ]
        ]

    pub expand_cluster : Text → Text → Act Caches Range
    expand_cluster cluster section w =
        if str_eq section (text "VIPS")
        then cluster_vips cluster w
        else if str_eq section (text "VIPHOSTS")
        then cluster_viphosts cluster w
        else expand_defined cluster section w

    pub rangefunc_allclusters : List Range → Act Caches Range
    rangefunc_allclusters r = Cluster.allclusters expand_cluster all_clusters

    pub rangefunc_has : List Range → Act Caches Range
    rangefunc_has = Cluster.has expand_cluster all_clusters

    pub rangefunc_mem : List Range → Act Caches Range
    rangefunc_mem = Cluster.mem expand_cluster all_clusters

    pub rangefunc_cluster : List Range → Act Caches Range
    rangefunc_cluster r = with_args r 1 (λ ret w.
        arg_names r 0 >>= λ names. Cluster.cluster_loop expand_cluster all_clusters names ret w)

    pub rangefunc_get_cluster : List Range → Act Caches Range
    rangefunc_get_cluster = Cluster.get_cluster expand_cluster all_clusters (text "ALL")

    pub rangefunc_clusters : List Range → Act Caches Range
    rangefunc_clusters = Cluster.clusters_of expand_cluster all_clusters (text "ALL")

    pub rangefunc_group : List Range → Act Caches Range
    rangefunc_group r = with_args r 1 (λ ret w. arg_names r 0 >>= λ groups.
        Cluster.group_loop expand_cluster all_clusters home_cluster groups ret w)

    pub rangefunc_get_groups : List Range → Act Caches Range
    rangefunc_get_groups = Cluster.get_groups expand_cluster all_clusters

    pub gather_admins : List Text → Set Text → Act Caches (Set Text)
    gather_admins [] s w = ok (s, w)
    gather_admins (admin ∷ admins) s w = expand_cluster (text "HOSTS") admin w >>= λ x.
        set_admin s (range_get_hostnames x.0) admin >>= λ s'. gather_admins admins s' x.1

    pub rangefunc_get_admin : List Range → Act Caches Range
    rangefunc_get_admin r = with_args r 1 (λ ret w. arg_names r 0 >>= λ in_nodes.
        set_new 40000 >>= λ node_admin.
        expand_cluster (text "HOSTS") (text "KEYS") w >>= λ admins_r.
        gather_admins (range_get_hostnames admins_r.0) node_admin admins_r.1 >>= λ x.
        report_admins x.0 in_nodes ret x.1)
