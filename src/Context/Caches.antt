-- ===== src/Context/Caches.antt =====
-- The caches of a context of source/src/libcrange.c.
use libcrange.Base.{
  ◌≡◌, ◌<◌, Text, Option, none, some, arith, if◌then◌else◌, str_eq, Bool-cases, inl, inr,
}
use libcrange.Base.{Returns}
use libcrange.HashSet.Bucket.{Element}
use libcrange.HashSet.Resize.{Models, size_limit}
use libcrange.HashSet.Laws.{set_add-Models, set_get-Models}
use libcrange.Context.{Context, libcrange_get_cache, libcrange_set_cache}

-- what is found under a name
abbrev data_of : {C : Type 0} → Option (Element C) → Option C
data_of none = none
data_of (some e) = e.value

module _ {C F : Type 0} where
  libcrange_get_cache-Models :
      (lr : Context C F) {f : Text → Option (Element C)} (q : Text)
      → Models lr.caches f
      → libcrange_get_cache lr q ≡ data_of (f q)
  unfolding libcrange_get_cache
  libcrange_get_cache-Models lr q m = ground (arith, set_get-Models q m)

  -- For a well-formed set of caches with fewer than 1610612741 members, after `libcrange_set_cache` a
  -- lookup by `libcrange_get_cache` gives the value under its name and what it gave before under every
  -- other name, if the context wants caching, and what it gave before under every name if not.
  pub libcrange_get_cache-libcrange_set_cache :
      (lr : Context C F) {f : Text → Option (Element C)} (name : Text) (value : C)
      → Models lr.caches f
      → lr.caches.members < size_limit
      → Returns (libcrange_set_cache lr name value) λ lr'.
        (q : Text)
        → libcrange_get_cache lr' q ≡ (
            if lr.want_caching
            then (if str_eq name q then some value else libcrange_get_cache lr q)
            else libcrange_get_cache lr q)
  unfolding libcrange_set_cache
  libcrange_get_cache-libcrange_set_cache lr {f} name value m few =
      elim (Bool-cases lr.want_caching) [
        | inl want ↦
            let (caches, run, (m', _, _)) = set_add-Models lr.caches name (some value) m few in
            (
              record lr { caches = caches },
              rw (want, run),
              λ q. rw want (
                  ground (
                    arith,
                    libcrange_get_cache-Models (record lr { caches = caches }) q m',
                    libcrange_get_cache-Models lr q m,
                  )),
            )
        | inr off ↦ (lr, rw off, λ q. rw off)
      ]
