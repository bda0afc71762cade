-- ===== src/Context/Tests.antt =====
-- The theorem on the caches of source/src/libcrange.c at a concrete context.
use libcrange.Base.{◌≡◌, Text, text, [], none, some, true, arith, if◌then◌else◌, str_eq}
use libcrange.Base.{Returns}
use libcrange.HashSet.Resize.{Models, set_new-Models}
use libcrange.HashSet.{set_new}
use libcrange.Context.Caches.{libcrange_get_cache-libcrange_set_cache}
use libcrange.Context.{Context, libcrange_get_cache, libcrange_set_cache}

made : Returns (set_new {D = Text} 0) λ s. Models s (λ _. none) × (s.members ≡ 0)
made = let (s, run, (m, _, e)) = set_new-Models {D = Text} 0 (omega arith) in (s, run, (m, e))

abbrev context : Context Text Text
context = record {
  caches = made.0;
  functions = made.0;
  perl_functions = none;
  python_functions = none;
  vars = made.0;
  default_domain = none;
  config_file = [];
  funcdir = [];
  want_caching = true;
}

libcrange_get_cache-libcrange_set_cache_example :
    Returns (libcrange_set_cache context (text "dns") (text "data")) λ lr'.
      (q : Text)
      → libcrange_get_cache lr' q ≡ (
          if true
          then (if str_eq (text "dns") q then some (text "data") else libcrange_get_cache context q)
          else libcrange_get_cache context q)
libcrange_get_cache-libcrange_set_cache_example =
    libcrange_get_cache-libcrange_set_cache context (text "dns") (text "data") made.2.0
      (omega (arith, made.2.1))
