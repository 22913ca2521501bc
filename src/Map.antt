-- ===== src/Map.antt =====
-- The generic map of "Systems Programming c,c++ & python/Project C -chessSystem and Map/mtm_map/map.c":
-- a linked list of elements in ascending order of the keys, with an internal iterator.
-- The chain of `next` pointers is a list, a pointer to an element is the list that begins at it, and
-- NULL is the empty list; NULL keys and data are `none`. Of the function pointers in `struct Map_t`
-- the two that bear on the contents are the fields of `MapOps`: a copy of the data may fail; a key
-- is copied as it is, and the two `free` functions leave no trace in the contents.
-- Whether `malloc` finds memory is an argument of each operation that allocates an element.
pub mod Order
pub mod Lookup
pub mod Put
pub mod Remove
pub mod Copy
pub mod Iterate
pub mod Counted
pub mod Tour
pub mod All
pub mod Walk
mod Tests
use cs_bsc_technion.Base.{
  ℕ, ◌+◌, ◌==◌, ◌&&◌, not, Bool, true, false, Option, none, some, List, [], ◌∷◌, length, ℤ, pos,
  ltb_ℤ, eqb_ℤ, if◌then◌else◌,
}

-- The results that `map.c` names (its header is not in the repository).
pub data MapResult : Type 0 where
  map_success map_out_of_memory map_null_argument map_item_does_not_exist : MapResult

pub record Element (K V : Type 0) : Type 0 where
  pub key : K
  pub value : Option V

pub record Map (K V : Type 0) : Type 0 where
  pub head : List (Element K V)
  pub iterator : Option K

pub record MapOps (K V : Type 0) : Type 0 where
  pub copy_data : V → Option V
  pub compare_keys : K → K → ℤ

-- The head of a list of elements, as a pointer to its key.
unfoldable pub first_key : {K V : Type 0} → List (Element K V) → Option K
first_key [] = none
first_key (e ∷ es) = some e.key

unfoldable pub value_at : {K V : Type 0} → List (Element K V) → Option V
value_at [] = none
value_at (e ∷ es) = e.value

-- `mapCreate` with five functions given: `allocated` says whether `malloc` found memory.
unfoldable pub create : {K V : Type 0} → Bool → Option (Map K V)
create allocated = if allocated then some (record { head = []; iterator = none }) else none

-- `mapGetSize` of a map that is not NULL.
unfoldable pub get_size : {K V : Type 0} → Map K V → ℕ
get_size m = length m.head

-- The end of `mapPut` on a key that is there: a copy that failed is reported.
abbrev pub copy_result : {V : Type 0} → Option V → MapResult
copy_result none = map_out_of_memory
copy_result (some v) = map_success

module _ {K V : Type 0} (ops : MapOps K V) where
  -- The two tests that the code makes on a comparison, `== 0` and `< 0`.
  unfoldable pub same_key : K → K → Bool
  same_key a b = eqb_ℤ (ops.compare_keys a b) (pos 0)

  unfoldable pub before_key : K → K → Bool
  before_key a b = ltb_ℤ (ops.compare_keys a b) (pos 0)

  -- The `while` loop of `mapContains`.
  unfoldable pub contains_from : List (Element K V) → K → Bool
  contains_from [] k = false
  contains_from (e ∷ es) k = if same_key e.key k then true else contains_from es k

  unfoldable pub contains : Map K V → Option K → Bool
  unfolding contains_from
  contains m none = false
  contains m (some k) = contains_from m.head k

  -- The pointer that the search ends at. On a list with no such key the code reads past its end;
  -- here the result is then NULL.
  unfoldable pub get_element_by_key : List (Element K V) → K → List (Element K V)
  get_element_by_key [] k = []
  get_element_by_key (e ∷ es) k = if same_key e.key k then e ∷ es else get_element_by_key es k

  unfoldable pub get : Map K V → Option K → Option V
  unfolding get_element_by_key contains value_at
  get m none = none
  get m (some k) = if contains m (some k) then value_at (get_element_by_key m.head k) else none

  -- A write through the pointer that `getElementByKey` gives.
  unfoldable pub write_at : List (Element K V) → K → Option V → List (Element K V)
  write_at [] k v = []
  write_at (e ∷ es) k v =
      if same_key e.key k then record e { value = v } ∷ es else e ∷ write_at es k v

  -- The loop of `mapPut` that finds the place, with the two cases that link the element in.
  unfoldable pub link : Element K V → List (Element K V) → List (Element K V)
  link new [] = new ∷ []
  link new (e ∷ es) = if before_key e.key new.key then e ∷ link new es else new ∷ e ∷ es

  -- `mapPut` past its guards.
  pub put_element : Bool → Map K V → K → V → MapResult × Map K V
  unfolding contains write_at link
  put_element allocated m k v =
      if contains m (some k)
      then (copy_result (ops.copy_data v), record m { head = write_at m.head k (ops.copy_data v) })
      else if allocated
      then (
        map_success,
        record m { head = link (record { key = k; value = ops.copy_data v }) m.head },
      )
      else (map_out_of_memory, m)

  unfoldable pub put : Bool → Map K V → Option K → Option V → MapResult × Map K V
  unfolding put_element
  put allocated m none v = (map_null_argument, record m { iterator = none })
  put allocated m (some k) none = (map_null_argument, record m { iterator = none })
  put allocated m (some k) (some v) = put_element allocated (record m { iterator = none }) k v

  -- The loop of `mapRemove` that finds the element, and the two cases that unlink it.
  unfoldable pub unlink : List (Element K V) → K → List (Element K V)
  unlink [] k = []
  unlink (e ∷ es) k = if same_key e.key k then es else e ∷ unlink es k

  unfoldable pub remove : Map K V → Option K → MapResult × Map K V
  unfolding contains unlink
  remove m none = (map_null_argument, record m { iterator = none })
  remove m (some k) =
      if contains m (some k)
      then (map_success, record { head = unlink m.head k; iterator = none })
      else (map_item_does_not_exist, record m { iterator = none })

-- `mapGetFirst`: the iterator of an empty map stays where it is.
unfoldable pub get_first : {K V : Type 0} → Map K V → Option K × Map K V
get_first m = elim m.head [
  | [] ↦ (none, m)
  | e ∷ _ ↦ (some e.key, record m { iterator = some e.key })
]

-- `mapGetNext`. The outer `none` is the fault of reading `next` of no element, which the code does
-- when the key under the iterator is no longer in the map.
unfoldable pub next_after :
    {K V : Type 0} → Map K V → List (Element K V) → Option (Option K × Map K V)
unfolding first_key
next_after m [] = none
next_after m (e ∷ es) = some (first_key es, record m { iterator = first_key es })

unfoldable pub get_next : {K V : Type 0} → MapOps K V → Map K V → Option (Option K × Map K V)
unfolding next_after get_element_by_key
get_next ops m = elim m.iterator [
  | none ↦ some (none, m)
  | some k ↦ next_after m (get_element_by_key ops m.head k)
]

-- `mapClear`, which leaves the iterator as it is.
pub clear : {K V : Type 0} → Map K V → MapResult × Map K V
clear m = (map_success, record m { head = [] })

-- An element of the copy. A NULL is copied to NULL, as all the copy functions of the program do.
pub copy_element : {K V : Type 0} → MapOps K V → Element K V → Element K V
copy_element ops e = record e { value = elim e.value [ none ↦ none | some v ↦ ops.copy_data v ] }

module _ {K V : Type 0} (ops : MapOps K V) (allocated : ℕ → Bool) where
  -- The `for` loop of `mapCopy` over the elements behind the first: `second` is what hangs at
  -- `lastNext->next`. `lastNext` stays at the first element, so each new copy takes the place of the
  -- one before. `allocated i` says whether the i-th element finds memory.
  pub copy_rest : List (Element K V) → ℕ → List (Element K V) → Option (List (Element K V))
  unfolding copy_element
  copy_rest [] i second = some second
  copy_rest (e ∷ es) i second =
      let onward = copy_rest es (i + 1) (copy_element ops e ∷ []) in
      if allocated i then onward else none

  pub copy_elements : List (Element K V) → Option (List (Element K V))
  unfolding copy_rest copy_element
  copy_elements [] = some []
  copy_elements (e ∷ es) = elim (copy_rest es 1 []) [
    | none ↦ none
    | some second ↦ some (copy_element ops e ∷ second)
  ]

  -- `mapCopy`: the new map, NULL if it fails, and what is left of the old one, which is freed if the
  -- first element finds no memory. `created` is for the map itself.
  unfoldable pub copy : Bool → Map K V → Option (Map K V) × Option (Map K V)
  unfolding copy_elements
  copy created m =
      if not created
      then (none, some m)
      else if not (allocated 0) && not (get_size m == 0)
      then (none, none)
      else (
        (elim (copy_elements m.head) [
          | none ↦ none
          | some es ↦ some (record { head = es; iterator = none })
        ]),
        some (record m { iterator = none }),
      )
