-- ===== src/Map/Order.antt =====
-- What the map needs of a comparison function, and the order of its keys.
use cs_bsc_technion.Base.{ℕ, ◌<◌, ◌≡◌, ◌↔◌, true, List, [], ◌∷◌, arith, sub_ℕ}
use cs_bsc_technion.Map.{Element, MapOps, same_key, before_key}

-- The comparison orders the keys as numbers are ordered.
pub record KeyOrder {K V : Type 0} (ops : MapOps K V) : Type 0 where
  pub rank : K → ℕ
  pub same_iff : (a b : K) → (same_key ops a b ≡ true) ↔ (a ≡ b)
  pub before_iff : (a b : K) → (before_key ops a b ≡ true) ↔ (rank a < rank b)
  pub rank_injective : (a b : K) → rank a ≡ rank b → a ≡ b

module _ {K V : Type 0} {ops : MapOps K V} (o : KeyOrder ops) where
  -- Every key of the list ranks above `k`.
  abbrev pub Above : K → List (Element K V) → Type 0
  Above k [] = Unit {0}
  Above k (e ∷ es) = (o.rank k < o.rank e.key) × Above k es

  -- The keys ascend, so no key stands twice.
  abbrev pub IsSorted : List (Element K V) → Type 0
  IsSorted [] = Unit {0}
  IsSorted (e ∷ es) = Above e.key es × IsSorted es

  pub Above-mono :
      (j k : K) (es : List (Element K V)) → o.rank j < o.rank k → Above k es → Above j es
  Above-mono j k [] h a = tt
  Above-mono j k (e ∷ es) h a = ground (arith, Above-mono j k es h a.1)

-- A comparison by subtraction orders numbers by themselves.
module _ {V : Type 0} (ops : MapOps ℕ V) (diff : (a b : ℕ) → ops.compare_keys a b ≡ sub_ℕ a b) where
  pub difference_same : (a b : ℕ) → (same_key ops a b ≡ true) ↔ (a ≡ b)
  unfolding same_key
  difference_same a b = rw (diff a b) (ground arith)

  pub difference_before : (a b : ℕ) → (before_key ops a b ≡ true) ↔ (a < b)
  unfolding before_key
  difference_before a b = rw (diff a b) (ground arith)

  unfoldable pub difference_order : KeyOrder ops
  difference_order = record {
    rank = λ k. k;
    same_iff = difference_same;
    before_iff = difference_before;
    rank_injective = λ a b e. e;
  }
