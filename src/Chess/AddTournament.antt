-- ===== src/Chess/AddTournament.antt =====
-- `chessCreate` and `chessAddTournament` of `chessSystem.c`. `alloc i` says whether the i-th
-- allocation of the call finds memory.
pub mod Outcome
use cs_bsc_technion.Base.{
  ℕ, suc, ◌+◌, ◌≤◌, ◌<◌, ◌≡◌, ◌≢◌, ◌⊎◌, inl, inr, refl, Bool, true, false, ◌&&◌, ◌||◌, not, Option,
  none, some, List, [], ◌∷◌, arith, if◌then◌else◌, ℤ, pos, leb_ℤ, pos_part,
}
use cs_bsc_technion.Map.{
  Element, Map, MapResult, map_success, map_out_of_memory, map_null_argument,
  map_item_does_not_exist, create, contains, get, put, same_key,
}
use cs_bsc_technion.Map.Order.{IsSorted}
use cs_bsc_technion.Map.All.{All}
use cs_bsc_technion.Chess.Types
use cs_bsc_technion.Chess.Types.{
  ChessResult, chess_success, chess_null_argument, chess_invalid_id, chess_invalid_location,
  chess_invalid_max_games, chess_out_of_memory, chess_tournament_already_exists, ChessGame, Player,
  Tournament, ChessSystem, tournaments_ops, tournaments_order,
}
use cs_bsc_technion.Chess.Location.{tournament_location_valid, IsLocation}
use cs_bsc_technion.Chess.Valid.{IsTournament, IsValid}

-- `chessCreate`: the struct and the two maps are allocated; if one is not, there is no system.
unfoldable pub chess_create : (ℕ → Bool) → Option ChessSystem
chess_create alloc = if not (alloc 0) then none else (elim (create (alloc 1)) [
  | none ↦ none
  | some table ↦ elim (create (alloc 2)) [
    | none ↦ none
    | some players ↦ some (record { chess_tournament_table = table; players_list = players })
  ]
])

abbrev pub no_games : Map ℕ ChessGame
no_games = record { head = []; iterator = none }

-- The tournament that `chessAddTournament` fills in.
pub new_tournament : ℕ → ℕ → List ℕ → Tournament
new_tournament id max_games location = record {
  tournament_location = location;
  max_games_per_player = max_games;
  games = no_games;
  winner_id = 0;
  in_progress = true;
  tournament_id = id;
  number_of_players = pos 0;
}

-- `MAP_SUCCESS` or not, as the code asks.
abbrev pub is_success : MapResult → Bool
is_success map_success = true
is_success _ = false

-- Past the guards. Where `mapCreate` has no memory for the games, the copy that `mapPut` makes of
-- the tournament fails, as it does when it has no memory itself.
pub store_tournament : (ℕ → Bool) → ChessSystem → Tournament → ChessResult × ChessSystem
store_tournament alloc chess tournament =
    if not (alloc 0) || not (alloc 1)
    then (chess_out_of_memory, chess)
    else (let (result, table) =
          put (tournaments_ops (alloc 2 && alloc 4)) (alloc 3) chess.chess_tournament_table
            (some tournament.tournament_id) (some tournament) in
        (
          if is_success result then chess_success else chess_null_argument,
          record chess { chess_tournament_table = table },
        ))

-- `chessAddTournament` of a system that is not NULL.
pub chess_add_tournament :
    (ℕ → Bool) → ChessSystem → ℤ → ℤ → Option (List ℕ) → ChessResult × ChessSystem
unfolding store_tournament new_tournament
chess_add_tournament alloc chess id max_games none = (chess_null_argument, chess)
chess_add_tournament alloc chess id max_games (some location) =
    if leb_ℤ id (pos 0)
    then (chess_invalid_id, chess)
    else if contains (tournaments_ops true) chess.chess_tournament_table (some (pos_part id))
    then (chess_tournament_already_exists, chess)
    else if not (tournament_location_valid location)
    then (chess_invalid_location, chess)
    else if leb_ℤ max_games (pos 0)
    then (chess_invalid_max_games, chess)
    else store_tournament alloc chess (new_tournament (pos_part id) (pos_part max_games) location)
