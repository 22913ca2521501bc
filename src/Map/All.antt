-- ===== src/Map/All.antt =====
-- A property of all the data of a map, and how the operations carry it along.
use cs_bsc_technion.Base.{◌≡◌, refl, Bool, true, false, Option, none, some, List, [], ◌∷◌, arith}
use cs_bsc_technion.Map.{
  Element, Map, MapOps, contains, contains_from, get, write_at, link, unlink, put_element, put,
  remove,
}
use cs_bsc_technion.Map.Lookup.{find, get-eq-find}
use cs_bsc_technion.Map.Counted.{IsFull}

-- Data that is not NULL and has the property.
abbrev pub Holds : {V : Type 0} → (V → Type 0) → Option V → Type 0
Holds P none = ⊥
Holds P (some v) = P v

abbrev pub All : {K V : Type 0} → (V → Type 0) → List (Element K V) → Type 0
All P [] = Unit {0}
All P (e ∷ es) = Holds P e.value × All P es

pub Holds-full : {V : Type 0} (P : V → Type 0) (o : Option V) → Holds P o → (v : V) × (o ≡ some v)
Holds-full P none h = absurd h
Holds-full P (some v) h = (v, refl)

module _ {K V : Type 0} (P : V → Type 0) where
  pub All-IsFull : (es : List (Element K V)) → All P es → IsFull es
  All-IsFull [] h = tt
  All-IsFull (e ∷ es) h = (Holds-full P e.value h.0, All-IsFull es h.1)

module _ {K V : Type 0} (P : V → Type 0) (ops : MapOps K V) where
  All-find : (es : List (Element K V)) (k : K) (v : V) → All P es → find ops es k ≡ some v → P v
  unfolding find
  All-find [] k v h e = cc
  All-find (x ∷ es) k v h e = ground (arith, All-find es k v h.1)

  -- What is read from the map has the property.
  pub All-get : (m : Map K V) (k : K) {v : V} → All P m.head → get ops m (some k) ≡ some v → P v
  All-get m k {v} h e = All-find m.head k v h (rw (← get-eq-find ops m k) e)

  pub All-write_at :
      (es : List (Element K V)) (k : K) (v : V)
      → All P es
      → P v
      → All P (write_at ops es k (some v))
  unfolding write_at
  All-write_at [] k v h p = tt
  All-write_at (x ∷ es) k v h p = ground (arith, All-write_at es k v h.1 p)

  pub All-link :
      (k : K) (v : V) (es : List (Element K V))
      → All P es
      → P v
      → All P (link ops (record { key = k; value = some v }) es)
  unfolding link
  All-link k v [] h p = (p, tt)
  All-link k v (x ∷ es) h p = ground (arith, All-link k v es h.1 p)

  pub All-unlink : (es : List (Element K V)) (k : K) → All P es → All P (unlink ops es k)
  unfolding unlink
  All-unlink [] k h = tt
  All-unlink (x ∷ es) k h = ground (arith, All-unlink es k h.1)

  -- `mapPut` of data whose copy succeeds and has the property.
  pub All-put :
      (allocated : Bool) (m : Map K V) (k : K) (v : V) {w : V}
      → All P m.head
      → ops.copy_data v ≡ some w
      → P w
      → All P (put ops allocated m (some k) (some v)).1.head
  unfolding put put_element
  All-put allocated m k v {w} h e p =
      rw e (ground (arith, All-write_at m.head k w h p, All-link k w m.head h p))

  pub All-remove : (m : Map K V) (k : K) → All P m.head → All P (remove ops m (some k)).1.head
  unfolding remove
  All-remove m k h = ground (arith, All-unlink m.head k h)

  find-contains :
      (es : List (Element K V)) (k : K)
      → All P es
      → contains_from ops es k ≡ true
      → Holds P (find ops es k)
  unfolding find contains_from
  find-contains [] k h c = cc
  find-contains (x ∷ es) k h c = ground (arith, find-contains es k h.1)

  -- In a map with no NULL, `mapGet` finds what `mapContains` says is there.
  pub get-contains :
      (m : Map K V) (k : K)
      → All P m.head
      → contains ops m (some k) ≡ true
      → Holds P (get ops m (some k))
  unfolding contains
  get-contains m k h c = rw (get-eq-find ops m k) (find-contains m.head k h c)

pub contains-get :
    {K V : Type 0} (ops : MapOps K V) (m : Map K V) (k : K) (v : V)
    → get ops m (some k) ≡ some v
    → contains ops m (some k) ≡ true
unfolding get
contains-get ops m k v h = ground arith

pub get_absent :
    {K V : Type 0} (ops : MapOps K V) (m : Map K V) (k : K)
    → contains ops m (some k) ≡ false
    → get ops m (some k) ≡ none
unfolding get
get_absent ops m k h = ground arith
