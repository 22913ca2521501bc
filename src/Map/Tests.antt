-- ===== src/Map/Tests.antt =====
-- Runs of the map, and the theorems at concrete maps.
use cs_bsc_technion.Base.{
  ℕ, ◌+◌, ◌≡◌, refl, true, false, ◌&&◌, ◌||◌, Option, none, some, [], ◌∷◌, sub_ℕ, if◌then◌else◌,
  arith, ltb, ◌==◌, map,
}
use cs_bsc_technion.Map.{
  Map, Element, MapOps, map_success, create, same_key, contains, get, put, remove, get_first,
  get_next, next_after, get_element_by_key, first_key, contains_from, before_key, link, unlink,
  clear, copy_element,
}
use cs_bsc_technion.Map.Order.{KeyOrder, IsSorted, difference_order}
use cs_bsc_technion.Map.Put.{get-put}
use cs_bsc_technion.Map.Remove.{get-remove}
use cs_bsc_technion.Map.Copy.{ends}
use cs_bsc_technion.Map.Iterate.{Round, iterate, scan_map, iterate-eq-scan}
use cs_bsc_technion.Map.Counted.{Look, look_over}

-- Numbers under numbers; the copy of 13 fails.
abbrev copy_number : ℕ → Option ℕ
copy_number v = if v == 13 then none else some v

abbrev ops : MapOps ℕ ℕ
ops = record { copy_data = copy_number; compare_keys = sub_ℕ }

ops-order : KeyOrder ops
ops-order = difference_order ops (λ a b. refl)

abbrev entry : ℕ → ℕ → Element ℕ ℕ
entry k v = record { key = k; value = some v }

abbrev squares : Map ℕ ℕ
squares = record { head = entry 2 4 ∷ entry 3 9 ∷ entry 5 25 ∷ entry 7 49 ∷ []; iterator = some 3 }

squares-IsSorted : IsSorted ops-order squares.head
unfolding ops-order difference_order
squares-IsSorted = omega arith

created : create {K = ℕ} {V = ℕ} true ≡ some (record { head = []; iterator = none })
unfolding create
created = refl

put_in_order : put ops true squares (some 4) (some 16) ≡ (
  map_success,
  record {
    head = entry 2 4 ∷ entry 3 9 ∷ entry 4 16 ∷ entry 5 25 ∷ entry 7 49 ∷ [];
    iterator = none;
  },
)
unfolding put contains_from contains before_key same_key link
put_in_order = refl

removed : (remove ops squares (some 5)).1.head ≡ entry 2 4 ∷ entry 3 9 ∷ entry 7 49 ∷ []
unfolding remove contains same_key unlink
removed = refl

first_then_next : get_next ops squares ≡ some (some 5, record squares { iterator = some 5 })
unfolding get_next same_key next_after get_element_by_key first_key
first_then_next = refl

first_of_squares : (get_first squares).0 ≡ some 2
unfolding get_first
first_of_squares = refl

-- After `mapClear` the iterator still names a key, and `mapGetNext` reads through NULL.
next_after_clear : get_next ops (clear squares).1 ≡ none
unfolding get_next clear next_after get_element_by_key
next_after_clear = refl

get-put_example : get ops (put ops true squares (some 4) (some 16)).1 (some 4) ≡ (
    if same_key ops 4 4 && (contains ops squares (some 4) || true)
    then some 16
    else get ops squares (some 4))
get-put_example = get-put ops-order true squares 4 4 16

get-remove_example :
    get ops (remove ops squares (some 5)).1 (some 7)
    ≡ (if same_key ops 5 7 then none else get ops squares (some 7))
get-remove_example = get-remove ops-order squares 5 7 squares-IsSorted

-- The copy of four elements has two.
copy_loses : ends (map (copy_element ops) squares.head) ≡ entry 2 4 ∷ entry 7 49 ∷ []
unfolding ends copy_element
copy_loses = refl

-- Adds the data up and doubles each, up to the first that is above 20.
abbrev double_up : ℕ → ℕ → Round ℕ ℕ
double_up v s = record { written = v + v; state = s + v; stop = ltb 20 v }

iterate-eq-scan_example : iterate ops double_up squares 0 ≡ some (scan_map double_up squares 0)
iterate-eq-scan_example = iterate-eq-scan ops-order double_up squares 0 squares-IsSorted

walked : scan_map double_up squares 0 ≡ (
  record { head = entry 2 8 ∷ entry 3 18 ∷ entry 5 50 ∷ entry 7 49 ∷ []; iterator = some 5 },
  38,
)
unfolding scan_map
walked = refl

abbrev add_up : ℕ → ℕ → Look ℕ
add_up v s = record { state = s + v; stop = false }

summed : look_over add_up squares.head 0 ≡ 87
unfolding look_over
summed = refl
