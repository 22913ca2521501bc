-- ===== src/Map/Iterate.antt =====
-- The loop by which the client visits a map: `id = mapGetFirst(m); x = mapGet(m, id); while (x) { …;
-- id = mapGetNext(m); x = mapGet(m, id); }`. The body reads the data, may write it back in place
-- through the pointer, and may leave the loop; it is shown to run over the elements in their order.
use mathlib.Core.List.{append_assoc}
use cs_bsc_technion.Base.{
  ℕ, zero, suc, ◌≡◌, refl, ◌<◌, Bool, Option, none, some, List, [], ◌∷◌, ◌++◌, length,
  if◌then◌else◌, arith, Option-cases, inl, inr, ◌∙◌,
}
use cs_bsc_technion.Map.{
  Element, Map, MapOps, get, get_size, get_first, get_next, first_key, write_at, get_element_by_key,
}
use cs_bsc_technion.Map.Order.{KeyOrder, Above, IsSorted}
use cs_bsc_technion.Map.Lookup.{get-eq-find, find}

-- What one round of the body does: the data it leaves, its variables, and whether it leaves the loop.
pub record Round (V S : Type 0) : Type 0 where
  pub written : V
  pub state : S
  pub stop : Bool

module _ {K V S : Type 0} (ops : MapOps K V) (body : V → S → Round V S) where
  pub advance : Round V S → K → Map K V → Map K V
  advance r k m = record m { head = write_at ops m.head k (some r.written) }

  -- The `while` loop, from the key in hand; `none` if the fuel runs out or `mapGetNext` faults.
  pub visit : ℕ → Map K V → Option K → S → Option (Map K V × S)
  unfolding advance
  visit zero m id s = none
  visit (suc fuel) m none s = some (m, s)
  visit (suc fuel) m (some k) s = elim (get ops m (some k)) [
    | none ↦ some (m, s)
    | some v ↦
        if (body v s).stop
        then some (advance (body v s) k m, (body v s).state)
        else (elim (get_next ops (advance (body v s) k m)) [
          | none ↦ none
          | some (id, m') ↦ visit fuel m' id (body v s).state
        ])
  ]

  -- A round for each element, and one to find the end.
  unfoldable pub iterate : Map K V → S → Option (Map K V × S)
  unfolding visit
  iterate m s = let (id, m') = get_first m in visit (suc (get_size m)) m' id s

module _ {K V S : Type 0} (body : V → S → Round V S) where
  -- The same walk as a recursion on the elements: what they become, where the iterator stops, and
  -- the body's variables at the end.
  unfoldable pub scan : List (Element K V) → S → List (Element K V) × Option K × S
  scan [] s = ([], none, s)
  scan (e ∷ es) s = elim e.value [
    | none ↦ (e ∷ es, some e.key, s)
    | some v ↦
        let r = body v s in
        let e' : Element K V = record { key = e.key; value = some r.written } in
        let after = scan es r.state in
        if r.stop then (e' ∷ es, some e.key, r.state) else (e' ∷ after.0, after.1, after.2)
  ]

  unfoldable pub scan_map : Map K V → S → Map K V × S
  unfolding scan
  scan_map m s = elim m.head [
    | [] ↦ (m, s)
    | e ∷ es ↦ let (es', id, s') = scan (e ∷ es) s in (record { head = es'; iterator = id }, s')
  ]

module _ {K V : Type 0} {ops : MapOps K V} (o : KeyOrder ops) where
  Above-last :
      (k : K) (pre : List (Element K V)) (e : Element K V) (es : List (Element K V))
      → Above o k (pre ++ e ∷ es)
      → o.rank k < o.rank e.key
  Above-last k [] e es a = a.0
  Above-last k (p ∷ pre) e es a = Above-last k pre e es a.1

  pub find_at :
      (pre : List (Element K V)) (e : Element K V) (es : List (Element K V))
      → IsSorted o (pre ++ e ∷ es)
      → find ops (pre ++ e ∷ es) e.key ≡ e.value
  unfolding find
  find_at [] e es s = ground (arith, o.same_iff e.key e.key)
  find_at (p ∷ pre) e es s =
      ground (arith, find_at pre e es s.1, o.same_iff p.key e.key, Above-last p.key pre e es s.0)

  element_at :
      (pre : List (Element K V)) (e : Element K V) (es : List (Element K V))
      → IsSorted o (pre ++ e ∷ es)
      → get_element_by_key ops (pre ++ e ∷ es) e.key ≡ e ∷ es
  unfolding get_element_by_key
  element_at [] e es s = ground (arith, o.same_iff e.key e.key)
  element_at (p ∷ pre) e es s =
      ground (arith, element_at pre e es s.1, o.same_iff p.key e.key, Above-last p.key pre e es s.0)

  write_here :
      (pre : List (Element K V)) (e : Element K V) (es : List (Element K V)) (v : Option V)
      → IsSorted o (pre ++ e ∷ es)
      → write_at ops (pre ++ e ∷ es) e.key v ≡ pre ++ record e { value = v } ∷ es
  unfolding write_at
  write_here [] e es v s = ground (arith, o.same_iff e.key e.key)
  write_here (p ∷ pre) e es v s =
      ground
        (arith, write_here pre e es v s.1, o.same_iff p.key e.key, Above-last p.key pre e es s.0)

  Above-rewrite :
      (k : K) (pre : List (Element K V)) (e : Element K V) (es : List (Element K V)) (v : Option V)
      → Above o k (pre ++ e ∷ es)
      → Above o k (pre ++ record e { value = v } ∷ es)
  Above-rewrite k [] e es v a = a
  Above-rewrite k (p ∷ pre) e es v a = (a.0, Above-rewrite k pre e es v a.1)

  IsSorted-rewrite :
      (pre : List (Element K V)) (e : Element K V) (es : List (Element K V)) (v : Option V)
      → IsSorted o (pre ++ e ∷ es)
      → IsSorted o (pre ++ record e { value = v } ∷ es)
  IsSorted-rewrite [] e es v s = s
  IsSorted-rewrite (p ∷ pre) e es v s =
      (Above-rewrite p.key pre e es v s.0, IsSorted-rewrite pre e es v s.1)

  pub next_at :
      (pre : List (Element K V)) (e : Element K V) (es : List (Element K V))
      → IsSorted o (pre ++ e ∷ es)
      → get_next ops (record { head = pre ++ e ∷ es; iterator = some e.key })
        ≡ some (first_key es, record { head = pre ++ e ∷ es; iterator = first_key es })
  unfolding get_next
  next_at pre e es s = rw (element_at pre e es s)

module _ {K V S : Type 0} {ops : MapOps K V} (o : KeyOrder ops) (body : V → S → Round V S) where
  visit-eq-scan :
      (fuel : ℕ) (pre es : List (Element K V)) (s : S)
      → length es < fuel
      → IsSorted o (pre ++ es)
      → visit ops body fuel (record { head = pre ++ es; iterator = first_key es }) (first_key es) s
        ≡ (let (es', id, s') = scan body es s in
            some (record { head = pre ++ es'; iterator = id }, s'))
  unfolding visit scan first_key
  visit-eq-scan zero pre es s h sorted = elim h [ ]
  visit-eq-scan (suc fuel) pre [] s h sorted = refl
  visit-eq-scan (suc fuel) pre (e ∷ es) s h sorted = elim (Option-cases e.value) [
    | inl empty ↦ ground (arith, empty, get_here)
    | inr (v, found) ↦
        let r : Round V S = body v s in
        let e' : Element K V = record e { value = some r.written } in
        ground (
          arith,
          found,
          get_here,
          write_here o pre e es (some r.written) sorted,
          next_at o pre e' es (IsSorted-rewrite o pre e es (some r.written) sorted),
          onward (some r.written) r.state (
              visit-eq-scan fuel (pre ++ record e { value = some r.written } ∷ []) es r.state
                (omega arith)
                (rw append_assoc (IsSorted-rewrite o pre e es (some r.written) sorted))),
        )
  ]
    where
      get_here :
          get ops (record { head = pre ++ e ∷ es; iterator = some e.key }) (some e.key) ≡ e.value
      get_here = get-eq-find ops _ e.key ∙ find_at o pre e es sorted

      onward :
          (v : Option V) (s' : S)
          → visit ops body fuel
              (record {
                head = (pre ++ record e { value = v } ∷ []) ++ es;
                iterator = first_key es;
              })
              (first_key es)
              s'
            ≡ (let (es', id, s'') = scan body es s' in
                some (
                  record { head = (pre ++ record e { value = v } ∷ []) ++ es'; iterator = id },
                  s'',
                ))
          → visit ops body fuel
              (record { head = pre ++ record e { value = v } ∷ es; iterator = first_key es })
              (first_key es)
              s'
            ≡ (let (es', id, s'') = scan body es s' in
                some (record { head = pre ++ record e { value = v } ∷ es'; iterator = id }, s''))
      onward v s' ih = simp append_assoc at ih

  iterate_from :
      (es : List (Element K V)) (id : Option K) (s : S)
      → IsSorted o es
      → iterate ops body (record { head = es; iterator = id }) s
        ≡ some (scan_map body (record { head = es; iterator = id }) s)
  unfolding iterate scan_map get_first get_size visit get first_key
  iterate_from [] id s sorted = refl
  iterate_from (e ∷ es) id s sorted =
      visit-eq-scan (suc (suc (length es))) [] (e ∷ es) s (omega arith) sorted

  -- On a map whose keys ascend the loop never faults and always ends: it runs its body on the
  -- elements in order, writes each back in place, and stops where the body leaves it.
  pub iterate-eq-scan :
      (m : Map K V) (s : S) → IsSorted o m.head → iterate ops body m s ≡ some (scan_map body m s)
  iterate-eq-scan m s sorted = iterate_from m.head m.iterator s sorted
