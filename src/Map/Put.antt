-- ===== src/Map/Put.antt =====
-- `mapPut`: what it returns on every branch, what the map is afterwards, and its order.
use cs_bsc_technion.Base.{
  suc, ◌≡◌, refl, ◌<◌, Bool, true, false, ◌||◌, ◌&&◌, not, Option, none, some, List, [], ◌∷◌,
  length, if◌then◌else◌, arith,
}
use cs_bsc_technion.Map.{
  Element, Map, MapOps, copy_result, map_success, map_out_of_memory, same_key, contains_from,
  contains, get, get_size, write_at, link, put_element, put,
}
use cs_bsc_technion.Map.Order.{KeyOrder, Above, IsSorted, Above-mono}
use cs_bsc_technion.Map.Lookup.{get-eq-find, find-write_at, find-link}

module _ {K V : Type 0} (ops : MapOps K V) where
  length-link :
      (new : Element K V) (es : List (Element K V)) → length (link ops new es) ≡ suc (length es)
  unfolding link
  length-link new [] = refl
  length-link new (e ∷ es) = ground (arith, length-link new es)

  length-write_at :
      (es : List (Element K V)) (k : K) (v : Option V) → length (write_at ops es k v) ≡ length es
  unfolding write_at
  length-write_at [] k v = refl
  length-write_at (e ∷ es) k v = ground (arith, length-write_at es k v)

module _ {K V : Type 0} {ops : MapOps K V} (o : KeyOrder ops) where
  Above-link :
      (k : K) (new : Element K V) (es : List (Element K V))
      → o.rank k < o.rank new.key
      → Above o k es
      → Above o k (link ops new es)
  unfolding link
  Above-link k new [] h a = (h, tt)
  Above-link k new (e ∷ es) h a = ground (arith, Above-link k new es h a.1)

  link-IsSorted :
      (new : Element K V) (es : List (Element K V))
      → contains_from ops es new.key ≡ false
      → IsSorted o es
      → IsSorted o (link ops new es)
  unfolding link contains_from
  link-IsSorted new [] c s = (tt, tt)
  link-IsSorted new (e ∷ es) c s = ground (
    arith,
    link-IsSorted new es,
    Above-link e.key new es,
    Above-mono o new.key e.key es,
    o.before_iff e.key new.key,
    o.rank_injective e.key new.key,
    o.same_iff e.key new.key,
  )

  pub Above-write_at :
      (j k : K) (v : Option V) (es : List (Element K V))
      → Above o j es
      → Above o j (write_at ops es k v)
  unfolding write_at
  Above-write_at j k v [] a = tt
  Above-write_at j k v (e ∷ es) a = ground (arith, Above-write_at j k v es a.1)

  pub write_at-IsSorted :
      (k : K) (v : Option V) (es : List (Element K V))
      → IsSorted o es
      → IsSorted o (write_at ops es k v)
  unfolding write_at
  write_at-IsSorted k v [] s = tt
  write_at-IsSorted k v (e ∷ es) s =
      ground (arith, write_at-IsSorted k v es s.1, Above-write_at e.key k v es s.0)

  -- The keys ascend after `mapPut` if they did before, whatever it returns.
  pub put-IsSorted :
      (allocated : Bool) (m : Map K V) (k : Option K) (v : Option V)
      → IsSorted o m.head
      → IsSorted o (put ops allocated m k v).1.head
  unfolding put put_element contains
  put-IsSorted allocated m none v s = s
  put-IsSorted allocated m (some k) none s = s
  put-IsSorted allocated m (some k) (some v) s = ground (
    arith,
    write_at-IsSorted k (ops.copy_data v) m.head s,
    link-IsSorted (record { key = k; value = ops.copy_data v }) m.head,
  )

  -- After `mapPut` the key is bound to the copy of the data (to none if the copy failed), unless the
  -- key is new and there is no room for its element. Every other key is bound as before.
  pub get-put :
      (allocated : Bool) (m : Map K V) (k j : K) (v : V)
      → get ops (put ops allocated m (some k) (some v)).1 (some j) ≡ (
          if same_key ops k j && (contains ops m (some k) || allocated)
          then ops.copy_data v
          else get ops m (some j))
  unfolding put put_element contains
  get-put allocated m k j v = ground (
    arith,
    get-eq-find ops m j,
    get-eq-find ops (put ops allocated m (some k) (some v)).1 j,
    find-write_at o m.head k j (ops.copy_data v),
    find-link o m.head (record { key = k; value = ops.copy_data v }) j,
  )

module _ {K V : Type 0} (ops : MapOps K V) (allocated : Bool) (m : Map K V) where
  -- `mapPut` of a key and data that are not NULL: it reports a failed copy only for a key that the
  -- map has, and a failed allocation only for a new one; the size grows by one exactly when a new
  -- key goes in, and the iterator is reset.
  pub put_result :
      (k : K) (v : V)
      → let (result, m') = put ops allocated m (some k) (some v) in
        let known = contains ops m (some k) in
        (result ≡ (
          if known
          then copy_result (ops.copy_data v)
          else if allocated
          then map_success
          else map_out_of_memory))
        × (get_size m' ≡ (if not known && allocated then suc (get_size m) else get_size m))
        × (m'.iterator ≡ none)
  unfolding put put_element contains get_size
  put_result k v = ground (
    arith,
    length-link ops (record { key = k; value = ops.copy_data v }) m.head,
    length-write_at ops m.head k (ops.copy_data v),
  )

-- A new key that finds room is linked in.
pub put_fresh :
    {K V : Type 0} (ops : MapOps K V) (m : Map K V) (k : K) (v : V)
    → contains ops m (some k) ≡ false
    → put ops true m (some k) (some v) ≡ (
      map_success,
      record {
        head = link ops (record { key = k; value = ops.copy_data v }) m.head;
        iterator = none;
      },
    )
unfolding put put_element contains
put_fresh ops m k v h = ground arith
