-- ===== src/Map/Walk.antt =====
-- Rules for the walk over a map: its order is kept, and what each round keeps the walk keeps.
use cs_bsc_technion.Base.{
  ◌≡◌, false, Option, some, List, [], ◌∷◌, arith, Option-cases, Bool-cases, inl, inr, sym, ◌∙◌,
}
use mathlib.Core.Path.{subst}
use cs_bsc_technion.Map.{Element, Map, MapOps, same_key, get}
use cs_bsc_technion.Map.Order.{KeyOrder, Above, IsSorted}
use cs_bsc_technion.Map.Lookup.{find, get-eq-find}
use cs_bsc_technion.Map.Iterate.{Round, scan, scan_map}
use cs_bsc_technion.Map.All.{All, Holds, Holds-full}

module _ {K V S : Type 0} {ops : MapOps K V} (o : KeyOrder ops) (body : V → S → Round V S) where
  Above-scan :
      (k : K) (es : List (Element K V)) (s : S) → Above o k es → Above o k (scan body es s).0
  unfolding scan
  Above-scan k [] s a = tt
  Above-scan k (e ∷ es) s a = elim (Option-cases e.value) [
    | inl empty ↦ ground (arith, empty, a)
    | inr (v, found) ↦ ground (arith, found, Above-scan k es (body v s).state a.1)
  ]

  scan-IsSorted : (es : List (Element K V)) (s : S) → IsSorted o es → IsSorted o (scan body es s).0
  unfolding scan
  scan-IsSorted [] s h = tt
  scan-IsSorted (e ∷ es) s h = elim (Option-cases e.value) [
    | inl empty ↦ ground (arith, empty, h)
    | inr (v, found) ↦ ground (
      arith,
      found,
      scan-IsSorted es (body v s).state h.1,
      Above-scan e.key es (body v s).state h.0,
    )
  ]

  -- The keys stay, so they ascend as before.
  pub scan_map-IsSorted :
      (m : Map K V) (s : S) → IsSorted o m.head → IsSorted o (scan_map body m s).0.head
  scan_map-IsSorted m s h = from m.head m.iterator h
    where
      from :
          (es : List (Element K V)) (id : Option K)
          → IsSorted o es
          → IsSorted o (scan_map body (record { head = es; iterator = id }) s).0.head
      from [] id h = unfold scan_map in h
      from (e ∷ es) id h = unfold scan_map in scan-IsSorted (e ∷ es) s h

-- A round that reads data with `P` in a state with `I` goes on, leaves data that is related to what
-- it read, and keeps `I`.
module _ {K V S : Type 0} (body : V → S → Round V S) (P : V → Type 0) (R : V → V → Type 0)
    (I : S → Type 0)
    (step : (v : V) (s : S)
      → P v
      → I s
      → ((body v s).stop ≡ false) × R v (body v s).written × I (body v s).state) where
  -- Then so does the walk as a whole.
  scan_state : (es : List (Element K V)) (s : S) → All P es → I s → I (scan body es s).2
  unfolding scan
  scan_state [] s h i = i
  scan_state (e ∷ es) s h i =
      let (v, found) = Holds-full P e.value h.0 in
      let (goes_on, _, kept) = step v s (subst (Holds P) found h.0) i in
      ground (arith, found, goes_on, scan_state es (body v s).state h.1 kept)

  scan-All :
      (Q : V → Type 0)
      → ((v w : V) → P v → R v w → Q w)
      → (es : List (Element K V)) (s : S) → All P es
      → I s
      → All Q (scan body es s).0
  unfolding scan
  scan-All Q then_q [] s h i = tt
  scan-All Q then_q (e ∷ es) s h i =
      let (v, found) = Holds-full P e.value h.0 in
      let p : P v = subst (Holds P) found h.0 in
      let (goes_on, related, kept) = step v s p i in
      ground (
        arith,
        found,
        goes_on,
        then_q v (body v s).written p related,
        scan-All Q then_q es (body v s).state h.1 kept,
      )

  scan-find :
      (ops : MapOps K V) (es : List (Element K V)) (s : S) (k : K) (v : V)
      → All P es
      → I s
      → find ops es k ≡ some v
      → (w : V) × (find ops (scan body es s).0 k ≡ some w) × R v w
  unfolding scan find
  scan-find ops [] s k v h i e = cc
  scan-find ops (x ∷ es) s k v h i e =
      let (u, found) = Holds-full P x.value h.0 in
      let (goes_on, related, kept) = step u s (subst (Holds P) found h.0) i in
      elim (Bool-cases (same_key ops x.key k)) [
        | inl here ↦
            let same : u ≡ v = ground (arith, found, here) in
            (
              (body u s).written,
              ground (arith, found, goes_on, here),
              subst (λ z. R z (body u s).written) same related,
            )
        | inr further ↦
            let (w, there, r) =
              scan-find ops es (body u s).state k v h.1 kept (ground (arith, further)) in
            (w, ground (arith, found, goes_on, further, there), r)
      ]

  -- The walk goes to the end, keeps the state's property, and leaves data with `Q`.
  pub scan_map_rule :
      (Q : V → Type 0)
      → ((v w : V) → P v → R v w → Q w)
      → (m : Map K V) (s : S) → All P m.head
      → I s
      → All Q (scan_map body m s).0.head × I (scan_map body m s).1
  scan_map_rule Q then_q m s h i = from m.head m.iterator h
    where
      from :
          (es : List (Element K V)) (id : Option K)
          → All P es
          → All Q (scan_map body (record { head = es; iterator = id }) s).0.head
            × I (scan_map body (record { head = es; iterator = id }) s).1
      from [] id h = unfold scan_map in (tt, i)
      from (e ∷ es) id h =
          unfold scan_map in (scan-All Q then_q (e ∷ es) s h i, scan_state (e ∷ es) s h i)

  -- What a key was bound to, it is bound to something related after the walk.
  pub get-scan_map :
      (ops : MapOps K V) (m : Map K V) (s : S) (k : K) (v : V)
      → All P m.head
      → I s
      → get ops m (some k) ≡ some v
      → (w : V) × (get ops (scan_map body m s).0 (some k) ≡ some w) × R v w
  get-scan_map ops m s k v h i e =
      let (w, found, r) = from m.head m.iterator h (sym (get-eq-find ops m k) ∙ e) in
      (w, get-eq-find ops (scan_map body m s).0 k ∙ found, r)
    where
      from :
          (es : List (Element K V)) (id : Option K)
          → All P es
          → find ops es k ≡ some v
          → (w : V) × (find ops (scan_map body (record { head = es; iterator = id }) s).0.head k
              ≡ some w)
            × R v w
      from [] id h e = unfold find in cc
      from (x ∷ es) id h e = unfold scan_map in scan-find ops (x ∷ es) s k v h i e
