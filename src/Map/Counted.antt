-- ===== src/Map/Counted.antt =====
-- The client's other loop over a map, `for (i = 0; i < mapGetSize(m); i++)` with a `mapGetNext` in
-- each round: it counts the elements instead of waiting for NULL, so data that is NULL is a fault.
use mathlib.Core.List.{append_assoc}
use cs_bsc_technion.Base.{
  ℕ, zero, suc, ◌≡◌, refl, Bool, Option, none, some, List, [], ◌∷◌, ◌++◌, length, arith,
  if◌then◌else◌, ◌∙◌,
}
use cs_bsc_technion.Map.{Element, Map, MapOps, get, get_size, get_first, get_next, first_key}
use cs_bsc_technion.Map.Order.{KeyOrder, IsSorted}
use cs_bsc_technion.Map.Lookup.{get-eq-find}
use cs_bsc_technion.Map.Iterate.{find_at, next_at}

-- No element has NULL for its data.
abbrev pub IsFull : {K V : Type 0} → List (Element K V) → Type 0
IsFull [] = Unit {0}
IsFull {V = V} (e ∷ es) = ((v : V) × (e.value ≡ some v)) × IsFull es

-- What a round that only reads does: its variables, and whether it leaves the loop.
pub record Look (S : Type 0) : Type 0 where
  pub state : S
  pub stop : Bool

module _ {K V S : Type 0} (ops : MapOps K V) (body : V → S → Look S) where
  pub count_rounds : ℕ → Map K V → Option K → S → Option S
  count_rounds zero m id s = some s
  count_rounds (suc left) m id s = elim (get ops m id) [
    | none ↦ none
    | some v ↦ if (body v s).stop then some (body v s).state else (elim (get_next ops m) [
      | none ↦ none
      | some (id', m') ↦ count_rounds left m' id' (body v s).state
    ])
  ]

  unfoldable pub count_through : Map K V → S → Option S
  unfolding count_rounds
  count_through m s = let (id, m') = get_first m in count_rounds (get_size m) m' id s

-- The same walk as a recursion on the elements.
unfoldable pub look_over : {K V S : Type 0} → (V → S → Look S) → List (Element K V) → S → S
look_over body [] s = s
look_over body (e ∷ es) s = elim e.value [
  | none ↦ s
  | some v ↦
      let onward = look_over body es (body v s).state in
      if (body v s).stop then (body v s).state else onward
]

module _ {K V S : Type 0} {ops : MapOps K V} (o : KeyOrder ops) (body : V → S → Look S) where
  count_rounds-eq-look_over :
      (pre es : List (Element K V)) (s : S)
      → IsSorted o (pre ++ es)
      → IsFull es
      → count_rounds ops body
          (length es)
          (record { head = pre ++ es; iterator = first_key es })
          (first_key es)
          s
        ≡ some (look_over body es s)
  unfolding count_rounds look_over first_key
  count_rounds-eq-look_over pre [] s sorted full = refl
  count_rounds-eq-look_over pre (e ∷ es) s sorted full = ground (
    arith,
    full.0.1,
    get_here,
    next_at o pre e es sorted,
    onward (body full.0.0 s).state (
        count_rounds-eq-look_over (pre ++ e ∷ []) es (body full.0.0 s).state
          (rw append_assoc sorted) full.1),
  )
    where
      get_here :
          get ops (record { head = pre ++ e ∷ es; iterator = some e.key }) (some e.key) ≡ e.value
      get_here = get-eq-find ops _ e.key ∙ find_at o pre e es sorted

      onward :
          (s' : S)
          → count_rounds ops body
              (length es)
              (record { head = (pre ++ e ∷ []) ++ es; iterator = first_key es })
              (first_key es)
              s'
            ≡ some (look_over body es s')
          → count_rounds ops body
              (length es)
              (record { head = pre ++ e ∷ es; iterator = first_key es })
              (first_key es)
              s'
            ≡ some (look_over body es s')
      onward s' ih = simp append_assoc at ih

  count_from :
      (es : List (Element K V)) (id : Option K) (s : S)
      → IsSorted o es
      → IsFull es
      → count_through ops body (record { head = es; iterator = id }) s ≡ some (look_over body es s)
  unfolding count_through get_first get_size look_over count_rounds first_key
  count_from [] id s sorted full = refl
  count_from (e ∷ es) id s sorted full = count_rounds-eq-look_over [] (e ∷ es) s sorted full

  -- On a map whose keys ascend and whose data are all there, the counted loop never faults: it looks
  -- at the elements in order, up to the one at which its body leaves it.
  pub count_through-eq-look_over :
      (m : Map K V) (s : S)
      → IsSorted o m.head
      → IsFull m.head
      → count_through ops body m s ≡ some (look_over body m.head s)
  count_through-eq-look_over m s sorted full = count_from m.head m.iterator s sorted full
