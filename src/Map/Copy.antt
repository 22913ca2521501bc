-- ===== src/Map/Copy.antt =====
-- `mapCopy`: which elements the copy has.

use cs_bsc_technion.Base.{ℕ, ◌+◌, ◌≡◌, refl, Bool, true, none, some, List, [], ◌∷◌, arith, map}
use cs_bsc_technion.Map.{Element, Map, MapOps, copy_element, copy_rest, copy_elements, copy}

-- The last element of a list, as a list; `before` if there is none.
last_or : {A : Type 0} → List A → List A → List A
last_or before [] = before
last_or before (x ∷ xs) = last_or (x ∷ []) xs

-- The first element of a list and the last of those behind it.
unfoldable pub ends : {A : Type 0} → List A → List A
unfolding last_or
ends [] = []
ends (x ∷ xs) = x ∷ last_or [] xs

module _ {K V : Type 0} (ops : MapOps K V) (allocated : ℕ → Bool) where
  copy_rest-last :
      (es : List (Element K V)) (i : ℕ) (second : List (Element K V))
      → ((j : ℕ) → allocated j ≡ true)
      → copy_rest ops allocated es i second ≡ some (last_or second (map (copy_element ops) es))
  unfolding copy_rest last_or
  copy_rest-last [] i second a = refl
  copy_rest-last (e ∷ es) i second a =
      ground (arith, a i, copy_rest-last es (i + 1) (copy_element ops e ∷ []) a)

  copy_elements-ends :
      (es : List (Element K V))
      → ((j : ℕ) → allocated j ≡ true)
      → copy_elements ops allocated es ≡ some (ends (map (copy_element ops) es))
  unfolding copy_elements ends
  copy_elements-ends [] a = refl
  copy_elements-ends (e ∷ es) a = ground (arith, copy_rest-last es 1 [] a)

  -- With memory for the map and every element, `mapCopy` gives copies of the first element and of
  -- the last, and of none between them; the old map keeps its elements.
  pub copy-ends :
      (m : Map K V)
      → ((j : ℕ) → allocated j ≡ true)
      → copy ops allocated true m ≡ (
        some (record { head = ends (map (copy_element ops) m.head); iterator = none }),
        some (record m { iterator = none }),
      )
  unfolding copy
  copy-ends m a = ground (arith, a 0, copy_elements-ends m.head a)
