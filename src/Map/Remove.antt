-- ===== src/Map/Remove.antt =====
-- `mapRemove` and `mapClear`: the binding, the order and the size.
use cs_bsc_technion.Base.{
  suc, ◌≡◌, true, Option, none, some, List, [], ◌∷◌, length, if◌then◌else◌, arith,
}
use cs_bsc_technion.Map.{
  Element, Map, MapOps, map_success, map_item_does_not_exist, same_key, contains_from, contains,
  get, get_size, unlink, remove,
}
use cs_bsc_technion.Map.Order.{KeyOrder, Above, IsSorted}
use cs_bsc_technion.Map.Lookup.{get-eq-find, find-unlink, find_missing}

module _ {K V : Type 0} {ops : MapOps K V} (o : KeyOrder ops) where
  Above-unlink : (j k : K) (es : List (Element K V)) → Above o j es → Above o j (unlink ops es k)
  unfolding unlink
  Above-unlink j k [] a = tt
  Above-unlink j k (e ∷ es) a = ground (arith, Above-unlink j k es a.1)

  unlink-IsSorted : (k : K) (es : List (Element K V)) → IsSorted o es → IsSorted o (unlink ops es k)
  unfolding unlink
  unlink-IsSorted k [] s = tt
  unlink-IsSorted k (e ∷ es) s =
      ground (arith, unlink-IsSorted k es s.1, Above-unlink e.key k es s.0)

  -- The keys ascend after `mapRemove` if they did before, whatever it returns.
  pub remove-IsSorted :
      (m : Map K V) (k : Option K) → IsSorted o m.head → IsSorted o (remove ops m k).1.head
  unfolding remove contains
  remove-IsSorted m none s = s
  remove-IsSorted m (some k) s = ground (arith, unlink-IsSorted k m.head s)

  -- On a map whose keys ascend, `mapRemove` unbinds its key and leaves every other key bound as
  -- before.
  pub get-remove :
      (m : Map K V) (k j : K)
      → IsSorted o m.head
      → get ops (remove ops m (some k)).1 (some j)
        ≡ (if same_key ops k j then none else get ops m (some j))
  unfolding remove contains
  get-remove m k j s = ground (
    arith,
    get-eq-find ops m j,
    get-eq-find ops (remove ops m (some k)).1 j,
    find-unlink o m.head k j s,
    find_missing o m.head k j,
  )

module _ {K V : Type 0} (ops : MapOps K V) where
  length-unlink :
      (es : List (Element K V)) (k : K)
      → contains_from ops es k ≡ true
      → suc (length (unlink ops es k)) ≡ length es
  unfolding unlink contains_from
  length-unlink [] k c = ground arith
  length-unlink (e ∷ es) k c = ground (arith, length-unlink es k)

  -- `mapRemove` succeeds exactly on the keys of the map, and takes one element out; on any other key
  -- the elements stay as they are. Either way the iterator is reset.
  pub remove_result :
      (m : Map K V) (k : K)
      → let (result, m') = remove ops m (some k) in
        let known = contains ops m (some k) in
        (result ≡ (if known then map_success else map_item_does_not_exist))
        × (get_size m ≡ (if known then suc (get_size m') else get_size m'))
        × (m'.iterator ≡ none)
  unfolding remove contains get_size
  remove_result m k = ground (arith, length-unlink m.head k)
