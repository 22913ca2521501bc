-- ===== src/Chess/GameId.antt =====
-- `generateGameId` of `chessSystem.c`: the search for a game identifier that no tournament uses.
use Prim.Native.Nat.{max}
use cs_bsc_technion.Base.{
  ℕ, zero, suc, ◌+◌, ◌≤◌, ◌<◌, ◌≡◌, Bool, true, false, Option, none, some, List, [], ◌∷◌,
  if◌then◌else◌, arith, Bool-cases, Option-cases, inl, inr,
}
use cs_bsc_technion.Map.{Element, Map, contains, contains_from, get}
use cs_bsc_technion.Map.Lookup.{find, get-eq-find}
use cs_bsc_technion.Map.Order.{IsSorted}
use cs_bsc_technion.Map.Counted.{IsFull, Look, count_through, look_over, count_through-eq-look_over}
use cs_bsc_technion.Chess.Types.{
  ChessGame, Tournament, games_ops, games_order, tournaments_ops, tournaments_order,
}

-- One round of the `for` loop: the first tournament that has the identifier ends it.
pub look_for_id : ℕ → Tournament → Bool → Look Bool
look_for_id id tournament taken =
    if contains (games_ops true) tournament.games (some id)
    then record { state = true; stop = true }
    else record { state = false; stop = false }

unfoldable pub is_taken : Map ℕ Tournament → ℕ → Option Bool
unfolding look_for_id
is_taken table id = count_through (tournaments_ops true) (look_for_id id) table false

-- The `while` loop, from the identifier in hand; `none` if the fuel runs out or a tournament is NULL.
pub search_id : ℕ → Map ℕ Tournament → ℕ → Option ℕ
unfolding is_taken
search_id zero table id = none
search_id (suc fuel) table id = elim (is_taken table id) [
  | none ↦ none
  | some taken ↦ let onward = search_id fuel table (id + 1) in if taken then onward else some id
]

-- The greatest identifier in use.
pub greatest_game : List (Element ℕ ChessGame) → ℕ
greatest_game [] = 0
greatest_game (e ∷ es) = max e.key (greatest_game es)

pub greatest_id : List (Element ℕ Tournament) → ℕ
unfolding greatest_game
greatest_id [] = 0
greatest_id (e ∷ es) =
    max (elim e.value [ none ↦ 0 | some t ↦ greatest_game t.games.head ]) (greatest_id es)

-- Fuel for every identifier up to the one behind the greatest.
unfoldable pub generate_game_id : Map ℕ Tournament → Option ℕ
unfolding search_id greatest_id
generate_game_id table = search_id (suc (greatest_id table.head)) table 1

-- No tournament of the list has a game with the identifier.
abbrev pub IsFreeId : ℕ → List (Element ℕ Tournament) → Type 0
IsFreeId id [] = Unit {0}
IsFreeId id (e ∷ es) =
    (elim e.value [
      | none ↦ Unit {0}
      | some t ↦ contains (games_ops true) t.games (some id) ≡ false
    ])
    × IsFreeId id es

module _ (id : ℕ) where
  taken_in : List (Element ℕ Tournament) → Bool
  unfolding look_over look_for_id
  taken_in es = look_over (look_for_id id) es false

  not_taken-IsFreeId :
      (es : List (Element ℕ Tournament)) → IsFull es → taken_in es ≡ false → IsFreeId id es
  unfolding taken_in
  not_taken-IsFreeId [] full h = tt
  not_taken-IsFreeId (e ∷ es) full h = ground (arith, full.0.1, not_taken-IsFreeId es full.1)

  contains-le-greatest :
      (es : List (Element ℕ ChessGame))
      → contains_from (games_ops true) es id ≡ true
      → id ≤ greatest_game es
  unfolding contains_from greatest_game
  contains-le-greatest [] h = ground arith
  contains-le-greatest (e ∷ es) h =
      ground (arith, contains-le-greatest es, (games_order true).same_iff e.key id)

  taken-le-greatest : (es : List (Element ℕ Tournament)) → taken_in es ≡ true → id ≤ greatest_id es
  unfolding taken_in greatest_id contains
  taken-le-greatest [] h = ground arith
  taken-le-greatest (e ∷ es) h = elim (Option-cases e.value) [
    | inl empty ↦ ground (arith, empty)
    | inr (t, found) ↦
        ground (arith, found, taken-le-greatest es, contains-le-greatest t.games.head)
  ]

module _ (table : Map ℕ Tournament) (sorted : IsSorted (tournaments_order true) table.head)
    (full : IsFull table.head) where
  is_taken_lem : (id : ℕ) → is_taken table id ≡ some (taken_in id table.head)
  unfolding is_taken taken_in
  is_taken_lem id =
      count_through-eq-look_over (tournaments_order true) (look_for_id id) table false sorted full

  search_id-IsFreeId :
      (fuel id : ℕ)
      → id ≤ suc (greatest_id table.head)
      → suc (greatest_id table.head) < id + fuel
      → (r : ℕ) × (search_id fuel table id ≡ some r) × IsFreeId r table.head × (id ≤ r)
  unfolding search_id
  search_id-IsFreeId zero id le h = absurd (omega arith)
  search_id-IsFreeId (suc fuel) id le h = elim (Bool-cases (taken_in id table.head)) [
    | inl taken ↦
        let (r, found, free, above) =
          search_id-IsFreeId fuel (id + 1) (omega (arith, taken-le-greatest id table.head taken))
            (omega arith) in
        (r, ground (arith, is_taken_lem id, taken, found), free, omega arith)
    | inr free ↦ (
      id,
      ground (arith, is_taken_lem id, free),
      not_taken-IsFreeId id table.head full free,
      omega arith,
    )
  ]

  -- On a sorted table whose tournaments are all there the search of `generateGameId` ends within
  -- its fuel, with a positive identifier that no game of any tournament has.
  pub generate_game_id-IsFreeId :
      (id : ℕ) × (generate_game_id table ≡ some id) × IsFreeId id table.head × (1 ≤ id)
  unfolding generate_game_id
  generate_game_id-IsFreeId =
      search_id-IsFreeId (suc (greatest_id table.head)) 1 (omega arith) (omega arith)

-- The identifier is free in each tournament that the table has.
IsFreeId-find :
    (id k : ℕ) (es : List (Element ℕ Tournament)) (t : Tournament)
    → IsFreeId id es
    → find (tournaments_ops true) es k ≡ some t
    → contains (games_ops true) t.games (some id) ≡ false
unfolding find
IsFreeId-find id k [] t free found = cc
IsFreeId-find id k (e ∷ es) t free found = elim (Option-cases e.value) [
  | inl empty ↦ ground (arith, empty, IsFreeId-find id k es t free.1)
  | inr (u, there) ↦ ground (arith, there, IsFreeId-find id k es t free.1)
]

pub IsFreeId-get :
    (id k : ℕ) (table : Map ℕ Tournament) (t : Tournament)
    → IsFreeId id table.head
    → get (tournaments_ops true) table (some k) ≡ some t
    → contains (games_ops true) t.games (some id) ≡ false
IsFreeId-get id k table t free found =
    IsFreeId-find id k table.head t free (rw (← get-eq-find (tournaments_ops true) table k) found)
