-- ===== src/Map/Lookup.antt =====
-- The map as a partial function: what a key is bound to.
use cs_bsc_technion.Base.{
  ◌≡◌, refl, true, false, Option, none, some, List, [], ◌∷◌, if◌then◌else◌, arith,
}
use cs_bsc_technion.Map.{
  Element, Map, MapOps, same_key, contains_from, contains, get_element_by_key, get, value_at,
  write_at, link, unlink,
}
use cs_bsc_technion.Map.Order.{KeyOrder, Above, IsSorted}

-- The data of the first element with the key; NULL if there is none.
unfoldable pub find : {K V : Type 0} → MapOps K V → List (Element K V) → K → Option V
find ops [] k = none
find ops (e ∷ es) k = if same_key ops e.key k then e.value else find ops es k

module _ {K V : Type 0} (ops : MapOps K V) where
  find_absent :
      (es : List (Element K V)) (k : K) → contains_from ops es k ≡ false → find ops es k ≡ none
  unfolding find contains_from
  find_absent [] k h = refl
  find_absent (e ∷ es) k h = ground (arith, find_absent es k)

  find_present :
      (es : List (Element K V)) (k : K)
      → contains_from ops es k ≡ true
      → find ops es k ≡ value_at (get_element_by_key ops es k)
  unfolding find contains_from get_element_by_key value_at
  find_present [] k h = refl
  find_present (e ∷ es) k h = ground (arith, find_present es k)

  pub get-eq-find : (m : Map K V) (k : K) → get ops m (some k) ≡ find ops m.head k
  unfolding get contains
  get-eq-find m k = ground (arith, find_absent m.head k, find_present m.head k)

module _ {K V : Type 0} {ops : MapOps K V} (o : KeyOrder ops) where
  pub contains-Above :
      (k : K) (es : List (Element K V)) → Above o k es → contains_from ops es k ≡ false
  unfolding contains_from
  contains-Above k [] a = refl
  contains-Above k (e ∷ es) a = ground (arith, contains-Above k es a.1, o.same_iff e.key k)

  pub find-write_at :
      (es : List (Element K V)) (k j : K) (v : Option V)
      → contains_from ops es k ≡ true
      → find ops (write_at ops es k v) j ≡ (if same_key ops k j then v else find ops es j)
  unfolding find contains_from write_at
  find-write_at [] k j v h = ground arith
  find-write_at (e ∷ es) k j v h =
      ground (arith, find-write_at es k j v, o.same_iff e.key k, o.same_iff e.key j, o.same_iff k j)

  pub find-link :
      (es : List (Element K V)) (new : Element K V) (j : K)
      → contains_from ops es new.key ≡ false
      → find ops (link ops new es) j ≡ (if same_key ops new.key j then new.value else find ops es j)
  unfolding find contains_from link
  find-link [] new j h = refl
  find-link (e ∷ es) new j h = ground (
    arith,
    find-link es new j,
    o.same_iff e.key new.key,
    o.same_iff e.key j,
    o.same_iff new.key j,
  )

  pub find-unlink :
      (es : List (Element K V)) (k j : K)
      → IsSorted o es
      → find ops (unlink ops es k) j ≡ (if same_key ops k j then none else find ops es j)
  unfolding find unlink
  find-unlink [] k j h = ground arith
  find-unlink (e ∷ es) k j h = ground (
    arith,
    find-unlink es k j h.1,
    find_absent ops es e.key,
    contains-Above e.key es h.0,
    o.same_iff e.key k,
    o.same_iff e.key j,
    o.same_iff k j,
  )

  pub find_missing :
      (es : List (Element K V)) (k j : K)
      → contains_from ops es k ≡ false
      → same_key ops k j ≡ true
      → find ops es j ≡ none
  unfolding find contains_from
  find_missing [] k j c h = refl
  find_missing (e ∷ es) k j c h =
      ground (arith, find_missing es k j, o.same_iff e.key k, o.same_iff e.key j, o.same_iff k j)

-- Lookups depend on the comparison alone: two sets of functions that compare alike agree on them.
module _ {K V : Type 0} (ops ops' : MapOps K V)
    (alike : (a b : K) → same_key ops a b ≡ same_key ops' a b) where
  contains_from-alike :
      (es : List (Element K V)) (k : K) → contains_from ops es k ≡ contains_from ops' es k
  unfolding contains_from
  contains_from-alike [] k = refl
  contains_from-alike (e ∷ es) k = ground (arith, alike e.key k, contains_from-alike es k)

  find-alike : (es : List (Element K V)) (k : K) → find ops es k ≡ find ops' es k
  unfolding find
  find-alike [] k = refl
  find-alike (e ∷ es) k = ground (arith, alike e.key k, find-alike es k)

  pub contains-alike : (m : Map K V) (k : K) → contains ops m (some k) ≡ contains ops' m (some k)
  unfolding contains
  contains-alike m k = contains_from-alike m.head k

  pub get-alike : (m : Map K V) (k : K) → get ops m (some k) ≡ get ops' m (some k)
  get-alike m k = rw (get-eq-find ops m k, get-eq-find ops' m k) (find-alike m.head k)
