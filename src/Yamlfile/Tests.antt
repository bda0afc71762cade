-- ===== src/Yamlfile/Tests.antt =====
-- Tests of source/functions/yamlfile.c, and its theorem at a concrete file.
use libcrange.Base.{
  ◌≡◌, ◌<◌, refl, Text, text, [], ◌∷◌, Option, none, some, true, false, ◌⊎◌, arith,
}
use libcrange.Base.{ok, fault, wrong_member, ◌>>=◌}
use libcrange.HashSet.Resize.{Models, set_new-Models, size_limit}
use libcrange.HashSet.Laws.{self-Models, set_get-Models, set_get_data_of, set_add-Models}
use libcrange.HashSet.{Set, set_get, set_get_data}
use libcrange.Range.{Range, range_from_literal}
use libcrange.Request.{range_request_new}
use libcrange.Cluster.Dollars.{substitute_dollars, join_elements}
use libcrange.Cluster.Dollars.Segments.{byte, IsLine, substitute_dollars-written}
use libcrange.Cluster.Sections.{Entry, Store}
use libcrange.Cluster.{World, Act}
use libcrange.Yamlfile.{
  Node, Pairs, Loaded, Files, scalar, sequence, item, no_items, no_node, list_parts, key_name,
  section_value, add_sections, add_keys, mapping_keys, document_keys, cluster_keys, cluster_file,
  expand_section, expand_cluster,
}
use libcrange.Yamlfile.Cached.{expand_cluster-expand_section}

-- A list with an item that is no scalar is malformed, a key that is none is read as one.
malformed_lists :
    (list_parts (text "web") (item no_node no_items) ≡ ok none)
    × (key_name (sequence no_items) ≡ fault wrong_member)
unfolding list_parts key_name
malformed_lists = (refl, refl)

-- `ALL: a`
abbrev files : Files
files = record {
  yaml_path = text "/etc/range";
  load = λ _.
      Loaded.document
        (some (Node.mapping (Pairs.pair (scalar (text "ALL")) (scalar (text "a")) Pairs.no_pairs)));
  stat = λ _. some 7;
  readable = λ _. true;
  opendir = λ _. none;
  natural_eq = λ _ _. false;
}

file_name : cluster_file files (text "web") ≡ text "/etc/range/web.yaml"
unfolding cluster_file
file_name = refl

abbrev begun : Set Text
begun = (set_new-Models {D = Text} 0 (omega arith)).0

begun-Models : Models begun (set_get begun)
begun-Models = self-Models ((set_new-Models {D = Text} 0 (omega arith)).2.0)

begun_small : begun.members < size_limit
begun_small = omega (arith, (set_new-Models {D = Text} 0 (omega arith)).2.2)

abbrev with_all : Set Text
with_all = (set_add-Models begun (text "ALL") (some (text "a")) begun-Models begun_small).0

with_all-Models : Models with_all (set_get with_all)
with_all-Models =
    self-Models ((set_add-Models begun (text "ALL") (some (text "a")) begun-Models begun_small).2.0)

with_all_small : with_all.members < size_limit
with_all_small = omega (
  arith,
  (set_add-Models begun (text "ALL") (some (text "a")) begun-Models begun_small).2.1,
  (set_new-Models {D = Text} 0 (omega arith)).2.2,
)

abbrev keys : Option Text
keys = join_elements b',' with_all

abbrev sections : Set Text
sections = (set_add-Models with_all (text "KEYS") keys with_all-Models with_all_small).0

plain : substitute_dollars true (text "web") (text "a") ≡ ok (text "a")
unfolding IsLine
plain = substitute_dollars-written true (text "web") (byte b'a' ∷ []) (refl, refl, tt)

keys_read :
    cluster_keys files (text "web") (cluster_file files (text "web")) range_request_new
    ≡ ok (sections, range_request_new)
unfolding cluster_keys document_keys mapping_keys add_sections key_name section_value add_keys
keys_read =
    rw
      (
        (set_new-Models {D = Text} 0 (omega arith)).1,
        ◌>>=◌,
        plain,
        (set_add-Models begun (text "ALL") (some (text "a")) begun-Models begun_small).1,
        (set_add-Models with_all (text "KEYS") keys with_all-Models with_all_small).1,
      )
      refl

abbrev cache : Set Entry
cache = (set_new-Models {D = Entry} 0 (omega arith)).0

cache-Models : Models cache (set_get cache)
cache-Models = self-Models ((set_new-Models {D = Entry} 0 (omega arith)).2.0)

cache_small : cache.members < size_limit
cache_small = omega (arith, (set_new-Models {D = Entry} 0 (omega arith)).2.2)

cache_absent : (q : Text) → set_get_data cache q ≡ none
cache_absent q =
    set_get_data_of cache q none
      (set_get-Models q ((set_new-Models {D = Entry} 0 (omega arith)).2.0))

cache_coherent :
    (e : Entry)
    → set_get_data cache (cluster_file files (text "web")) ≡ some e
    → e.mtime ≡ 7
    → e.sections ≡ sections
cache_coherent e h time = absurd (cc (h, cache_absent (cluster_file files (text "web"))))

abbrev world : World Store
world = record {
  request = range_request_new;
  store = record { keys = some cache; want_caching = true };
}

abbrev lone_literal : Text → Act Store Range
lone_literal name w = range_from_literal name >>= λ r. ok (r, w)

expand_cluster-expand_section_example :
    (v : World Store) × (expand_cluster files lone_literal (text "web") (text "ALL") world
      ≡ expand_section files lone_literal (text "web") (text "ALL") sections v)
    × ((v.request ≡ range_request_new) ⊎ (v.request ≡ range_request_new))
    × ((cache' : Set Entry) × (v.store.keys ≡ some cache')
        × ((e : Entry) × (set_get_data cache' (cluster_file files (text "web")) ≡ some e)
            × (e.sections ≡ sections)))
expand_cluster-expand_section_example =
    expand_cluster-expand_section files lone_literal (text "web") (text "ALL") 7 cache world
      sections range_request_new refl cache-Models cache_small refl keys_read cache_coherent
