-- ===== src/Chess/Types.antt =====
-- The data of the chess system, with the functions that its maps are created with: `player.c`,
-- `chessGame.c`, `tournament.c` and the structs of their headers.
-- An identifier that has passed the guard `id <= 0` is a natural number; counters that the code also
-- lowers are integers. `found` says whether the allocations of a copy find memory.
use cs_bsc_technion.Base.{
  ℕ, ◌≡◌, refl, Bool, true, false, Option, none, some, List, ℤ, sub_ℕ, if◌then◌else◌, arith, ◌==◌,
}
use cs_bsc_technion.Map.{Map, MapOps, copy, same_key}
use cs_bsc_technion.Map.Order.{KeyOrder, difference_order}

-- The results that `chessSystem.c` names (its header is not in the repository).
pub data ChessResult : Type 0 where
  chess_success chess_null_argument chess_invalid_id chess_invalid_location : ChessResult
  chess_invalid_max_games chess_out_of_memory chess_tournament_already_exists : ChessResult
  chess_tournament_not_exist chess_tournament_ended chess_game_already_exists : ChessResult
  chess_invalid_play_time chess_exceeded_games chess_player_not_exist chess_no_games : ChessResult
  chess_no_tournaments_ended chess_save_failure : ChessResult

-- `FIRST_PLAYER`, `SECOND_PLAYER` and `DRAW`; C lets a caller pass any other integer as well.
pub data Winner : Type 0 where
  first_player second_player draw out_of_enum : Winner

pub data PlayerSide : Type 0 where
  player_one player_two : PlayerSide

-- `(int)player_side == (int)game_result`.
abbrev pub side_won : PlayerSide → Winner → Bool
side_won player_one first_player = true
side_won player_one _ = false
side_won player_two second_player = true
side_won player_two _ = false

-- `(Winner)player_side`.
abbrev pub winner_of_side : PlayerSide → Winner
winner_of_side player_one = first_player
winner_of_side player_two = second_player

abbrev pub is_draw : Winner → Bool
is_draw draw = true
is_draw _ = false

-- `winner==FIRST_PLAYER || winner==SECOND_PLAYER || winner==DRAW`.
abbrev pub in_enum : Winner → Bool
in_enum out_of_enum = false
in_enum _ = true

pub record Player : Type 0 where
  pub id_player : ℕ
  pub wins : ℤ
  pub loses : ℤ
  pub draws : ℤ
  pub total_game_time : ℤ

pub record ChessGame : Type 0 where
  pub first_player_id : ℕ
  pub second_player_id : ℕ
  pub game_result : Winner
  pub game_time : ℤ
  pub first_player_deleted : Bool
  pub second_player_deleted : Bool

pub record Tournament : Type 0 where
  pub tournament_location : List ℕ
  pub max_games_per_player : ℕ
  pub games : Map ℕ ChessGame
  pub winner_id : ℕ
  pub in_progress : Bool
  pub tournament_id : ℕ
  pub number_of_players : ℤ

pub record ChessSystem : Type 0 where
  pub chess_tournament_table : Map ℕ Tournament
  pub players_list : Map ℕ Player

-- `*(int *) first_id - *(int *) second_id`.
unfoldable pub compare_player_id : ℕ → ℕ → ℤ
compare_player_id first_id second_id = sub_ℕ first_id second_id

unfoldable pub compare_games_id : ℕ → ℕ → ℤ
compare_games_id first_id second_id = sub_ℕ first_id second_id

unfoldable pub compare_tournaments_id : ℕ → ℕ → ℤ
compare_tournaments_id first_id second_id = sub_ℕ first_id second_id

unfoldable pub copy_player_data : Bool → Player → Option Player
copy_player_data found player =
    if found
    then some (record {
      id_player = player.id_player;
      wins = player.wins;
      loses = player.loses;
      draws = player.draws;
      total_game_time = player.total_game_time;
    })
    else none

unfoldable pub copy_game_data : Bool → ChessGame → Option ChessGame
copy_game_data found game =
    if found
    then some (record {
      first_player_id = game.first_player_id;
      second_player_id = game.second_player_id;
      game_result = game.game_result;
      game_time = game.game_time;
      first_player_deleted = game.first_player_deleted;
      second_player_deleted = game.second_player_deleted;
    })
    else none

-- The function pointers of the three kinds of map.
abbrev pub players_ops : Bool → MapOps ℕ Player
players_ops found = record { copy_data = copy_player_data found; compare_keys = compare_player_id }

abbrev pub games_ops : Bool → MapOps ℕ ChessGame
games_ops found = record { copy_data = copy_game_data found; compare_keys = compare_games_id }

-- The struct, the location and the map of the games are allocated; if one is not, the others are
-- freed and the copy is NULL.
unfoldable pub copy_tournament_data : Bool → Tournament → Option Tournament
unfolding copy
copy_tournament_data found tournament =
    if found
    then (elim (copy (games_ops true) (λ _. true) true tournament.games).0 [
      | none ↦ none
      | some games ↦ some (record {
        tournament_location = tournament.tournament_location;
        max_games_per_player = tournament.max_games_per_player;
        games = games;
        winner_id = tournament.winner_id;
        in_progress = tournament.in_progress;
        tournament_id = tournament.tournament_id;
        number_of_players = tournament.number_of_players;
      })
    ])
    else none

abbrev pub tournaments_ops : Bool → MapOps ℕ Tournament
tournaments_ops found = record {
  copy_data = copy_tournament_data found;
  compare_keys = compare_tournaments_id;
}

-- The three comparisons order the identifiers, as the map needs.
unfoldable pub players_order : (found : Bool) → KeyOrder (players_ops found)
unfolding compare_player_id difference_order
players_order found = difference_order (players_ops found) (λ a b. refl)

unfoldable pub games_order : (found : Bool) → KeyOrder (games_ops found)
unfolding compare_games_id difference_order
games_order found = difference_order (games_ops found) (λ a b. refl)

unfoldable pub tournaments_order : (found : Bool) → KeyOrder (tournaments_ops found)
unfolding compare_tournaments_id difference_order
tournaments_order found = difference_order (tournaments_ops found) (λ a b. refl)

-- The test `== 0` on such a comparison is equality of the identifiers.
pub same_key-tournaments :
    (found : Bool) (a b : ℕ) → same_key (tournaments_ops found) a b ≡ (a == b)
unfolding same_key compare_tournaments_id
same_key-tournaments found a b = ground arith

pub same_key-games : (found : Bool) (a b : ℕ) → same_key (games_ops found) a b ≡ (a == b)
unfolding same_key compare_games_id
same_key-games found a b = ground arith

pub same_key-players : (found : Bool) (a b : ℕ) → same_key (players_ops found) a b ≡ (a == b)
unfolding same_key compare_player_id
same_key-players found a b = ground arith
