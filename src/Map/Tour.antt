-- ===== src/Map/Tour.antt =====
-- A third loop of the client over a map, in the functions of the statistics: a counter runs down, and
-- each round takes the first element if it is the first round, and the next one otherwise.
use mathlib.Core.List.{append_assoc}
use mathlib.Core.Path.{subst}
use cs_bsc_technion.Base.{
  ℕ, zero, suc, ◌≡◌, refl, Bool, true, false, Option, none, some, List, [], ◌∷◌, ◌++◌, length,
  arith, if◌then◌else◌, ◌∙◌,
}
use cs_bsc_technion.Map.{Element, Map, MapOps, get, get_size, get_first, get_next, first_key}
use cs_bsc_technion.Map.Order.{KeyOrder, IsSorted}
use cs_bsc_technion.Map.Lookup.{find, get-eq-find}
use cs_bsc_technion.Map.Iterate.{find_at, next_at}
use cs_bsc_technion.Map.Counted.{IsFull, Look, look_over}

module _ {K V S : Type 0} (ops : MapOps K V) (body : V → S → Look S) where
  -- The rounds that are left; `none` is a read through NULL.
  unfoldable pub tour_rounds : ℕ → Bool → Map K V → S → Option S
  tour_rounds zero first m s = some s
  tour_rounds (suc left) first m s = elim (if first then some (get_first m) else get_next ops m) [
    | none ↦ none
    | some (id, m') ↦ elim (get ops m' id) [
      | none ↦ none
      | some v ↦ elim (body v s).stop [
        | true ↦ some (body v s).state
        | false ↦ tour_rounds left false m' (body v s).state
      ]
    ]
  ]

  unfoldable pub tour : Map K V → S → Option S
  tour m s = tour_rounds (get_size m) true m s

module _ {K V S : Type 0} {ops : MapOps K V} (o : KeyOrder ops) (body : V → S → Look S) where
  -- The map with the iterator at an element that has others before it.
  abbrev pub at_element : List (Element K V) → Element K V → List (Element K V) → Map K V
  at_element pre e es = record { head = pre ++ e ∷ es; iterator = some e.key }

  shift :
      (pre : List (Element K V)) (e d : Element K V) (es : List (Element K V))
      → at_element (pre ++ e ∷ []) d es ≡ record { head = pre ++ e ∷ d ∷ es; iterator = some d.key }
  shift pre e d es = simp append_assoc refl

  get_there :
      (pre : List (Element K V)) (e d : Element K V) (es : List (Element K V))
      → IsSorted o (pre ++ e ∷ d ∷ es)
      → get ops (record { head = pre ++ e ∷ d ∷ es; iterator = some d.key }) (some d.key) ≡ d.value
  get_there pre e d es sorted =
      get-eq-find ops _ d.key
      ∙ subst (λ (xs : List (Element K V)). find ops xs d.key ≡ d.value) (simp append_assoc refl)
          (find_at o (pre ++ e ∷ []) d es (rw append_assoc sorted))

  -- From an element on, with a round for each element behind it.
  pub tour_rounds-eq-look_over :
      (pre : List (Element K V)) (e : Element K V) (es : List (Element K V)) (s : S)
      → IsSorted o (pre ++ e ∷ es)
      → IsFull es
      → tour_rounds ops body (length es) false (at_element pre e es) s ≡ some (look_over body es s)
  unfolding tour_rounds look_over first_key
  tour_rounds-eq-look_over pre e [] s sorted full = refl
  tour_rounds-eq-look_over pre e (d ∷ es) s sorted full = ground (
    arith,
    full.0.1,
    next_at o pre e (d ∷ es) sorted,
    get_there pre e d es sorted,
    subst
        (λ (m : Map K V).
          tour_rounds ops body (length es) false m (body full.0.0 s).state
          ≡ some (look_over body es (body full.0.0 s).state))
        (shift pre e d es)
        (tour_rounds-eq-look_over (pre ++ e ∷ []) d es (body full.0.0 s).state
          (rw append_assoc sorted) full.1),
  )

  -- One round more reads through NULL, if the body does not leave the loop.
  pub tour_rounds-past :
      (pre : List (Element K V)) (e : Element K V) (es : List (Element K V)) (s : S)
      → ((v : V) (s' : S) → (body v s').stop ≡ false)
      → IsSorted o (pre ++ e ∷ es)
      → IsFull es
      → tour_rounds ops body (suc (length es)) false (at_element pre e es) s ≡ none
  unfolding tour_rounds first_key get
  tour_rounds-past pre e [] s on sorted full = ground (arith, next_at o pre e [] sorted)
  tour_rounds-past pre e (d ∷ es) s on sorted full = ground (
    arith,
    full.0.1,
    on full.0.0 s,
    next_at o pre e (d ∷ es) sorted,
    get_there pre e d es sorted,
    subst
        (λ (m : Map K V).
          tour_rounds ops body (suc (length es)) false m (body full.0.0 s).state ≡ none)
        (shift pre e d es)
        (tour_rounds-past (pre ++ e ∷ []) d es (body full.0.0 s).state on (rw append_assoc sorted)
          full.1),
  )

  tour_from :
      (es : List (Element K V)) (id : Option K) (s : S)
      → IsSorted o es
      → IsFull es
      → tour ops body (record { head = es; iterator = id }) s ≡ some (look_over body es s)
  unfolding tour tour_rounds get_first get_size look_over
  tour_from [] id s sorted full = refl
  tour_from (e ∷ es) id s sorted full = ground (
    arith,
    full.0.1,
    get-eq-find ops (at_element [] e es) e.key ∙ find_at o [] e es sorted,
    tour_rounds-eq-look_over [] e es (body full.0.0 s).state sorted full.1,
  )

  -- On a map whose keys ascend and whose data are all there, a tour never faults: it looks at the
  -- elements in order, up to the one at which its body leaves it.
  pub tour-eq-look_over :
      (m : Map K V) (s : S)
      → IsSorted o m.head
      → IsFull m.head
      → tour ops body m s ≡ some (look_over body m.head s)
  tour-eq-look_over m s sorted full = tour_from m.head m.iterator s sorted full
