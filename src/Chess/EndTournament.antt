-- ===== src/Chess/EndTournament.antt =====
-- `chessEndTournament` of `chessSystem.c` with its table of points. The four rows of the table are the
-- fields of a column; its columns are the list. `alloc i` says whether the i-th allocation of the
-- call finds memory: the array of the rows, then each row.
pub mod Table
pub mod Tally
pub mod Winner
pub mod Outcome
mod Tests
use cs_bsc_technion.Base.{
  ℕ, zero, suc, ◌+◌, ◌*◌, Bool, true, false, ◌&&◌, ◌||◌, not, Option, none, some, List, [], ◌∷◌,
  if◌then◌else◌, ℤ, pos, leb_ℤ, ltb, pos_part, ◌==◌, ◌>>=◌,
}
use cs_bsc_technion.Map.{Map, get, get_size}
use cs_bsc_technion.Map.Iterate.{Round, iterate}
use cs_bsc_technion.Chess.Types.{
  ChessResult, chess_success, chess_invalid_id, chess_out_of_memory, chess_tournament_not_exist,
  chess_tournament_ended, chess_no_games, PlayerSide, player_one, player_two, side_won, is_draw,
  ChessGame, Tournament, ChessSystem, games_ops, tournaments_ops,
}
use cs_bsc_technion.Chess.AddGame.{write_tournament}

abbrev pub rows : ℕ
rows = 4

abbrev pub players_each_game : ℕ
players_each_game = 2

abbrev pub points_for_draw : ℕ
points_for_draw = 1

abbrev pub points_for_win : ℕ
points_for_win = 2

pub record Column : Type 0 where
  pub player_id : ℕ
  pub points : ℕ
  pub loses : ℕ
  pub wins : ℕ

abbrev pub blank : Column
blank = record { player_id = 0; points = 0; loses = 0; wins = 0 }

-- The loop of `createHistogram` over the rows that are left, from row `i` on.
unfoldable pub rows_found : (ℕ → Bool) → ℕ → ℕ → Bool
rows_found alloc i zero = true
rows_found alloc i (suc left) = alloc (i + 1) && rows_found alloc (i + 1) left

unfoldable pub blank_columns : ℕ → List Column
blank_columns zero = []
blank_columns (suc columns) = blank ∷ blank_columns columns

-- `createHistogram` with `ROWS` rows.
unfoldable pub create_histogram : (ℕ → Bool) → ℕ → Option (List Column)
create_histogram alloc columns =
    if alloc 0 && rows_found alloc 0 rows then some (blank_columns columns) else none

-- `playerExistInPointTable`; `none` is the read behind the end of the row.
unfoldable pub player_exist_in_point_table : List Column → ℕ → Option ℕ
player_exist_in_point_table [] id = none
player_exist_in_point_table (c ∷ cs) id =
    let onward : Option ℕ = (elim (player_exist_in_point_table cs id) [
      | none ↦ none
      | some i ↦ some (suc i)
    ]) in
    if c.player_id == 0 then some 0 else if c.player_id == id then some 0 else onward

-- What `UpdateHistogramPlayer` writes in the column of the player.
unfoldable pub update_column : Column → ChessGame → PlayerSide → ℕ → Column
update_column c game side id =
    if not (side_won side game.game_result)
    then (if is_draw game.game_result
        then record c { player_id = id; points = c.points + points_for_draw }
        else record c { player_id = id; loses = suc c.loses })
    else record c { player_id = id; wins = c.wins + 1; points = c.points + points_for_win }

-- `UpdateHistogramPlayer`; the position is always one that `playerExistInPointTable` gave.
unfoldable pub update_histogram_player : List Column → ChessGame → ℕ → PlayerSide → ℕ → List Column
update_histogram_player [] game player_position side id = []
update_histogram_player (c ∷ cs) game zero side id = update_column c game side id ∷ cs
update_histogram_player (c ∷ cs) game (suc player_position) side id =
    c ∷ update_histogram_player cs game player_position side id

-- One of the two `if`s of the loop.
unfoldable pub enter_player : Bool → ChessGame → PlayerSide → ℕ → List Column → Option (List Column)
enter_player deleted game side id table = if deleted then some table else do
  column ← player_exist_in_point_table table id
  some (update_histogram_player table game column side id)

unfoldable pub enter_players : ChessGame → List Column → Option (List Column)
enter_players game table = do
  one ← enter_player game.first_player_deleted game player_one game.first_player_id table
  enter_player game.second_player_deleted game player_two game.second_player_id one

-- One round of the loop over the games; a table that a fault has ended ends it.
unfoldable pub tally : ChessGame → Option (List Column) → Round ChessGame (Option (List Column))
tally game none = record { written = game; state = none; stop = true }
tally game (some table) = record { written = game; state = enter_players game table; stop = false }

-- The variables of `checkWinner`; the index of the leading column is the column.
pub record Leader : Type 0 where
  pub player_with_max_points : Column
  pub winner_games_lost : ℕ
  pub winner_games_win : ℕ
  pub max_points : ℕ

-- One round of the loop of `checkWinner`.
unfoldable pub challenge : Column → Leader → Leader
challenge c s =
    if ltb s.max_points c.points
    then record {
      player_with_max_points = c;
      max_points = c.points;
      winner_games_lost = c.loses;
      winner_games_win = c.wins;
    }
    else if not (c.points == s.max_points)
    then s
    else if ltb c.loses s.winner_games_lost
    then record s { player_with_max_points = c; winner_games_lost = c.loses }
    else if c.loses == s.winner_games_lost && ltb s.winner_games_win c.wins
    then record s {
      player_with_max_points = c;
      winner_games_lost = c.loses;
      winner_games_win = c.wins;
    }
    else if c.loses == s.winner_games_lost
        && c.wins == s.winner_games_win
        && ltb c.player_id s.player_with_max_points.player_id
    then record s {
      player_with_max_points = c;
      winner_games_lost = c.loses;
      winner_games_win = c.wins;
    }
    else s

unfoldable pub lead : List Column → Leader → Leader
lead [] s = s
lead (c ∷ cs) s = lead cs (challenge c s)

-- `checkWinner`; `none` is the read of a table with no column.
unfoldable pub check_winner : List Column → Option ℕ
check_winner [] = none
check_winner (c ∷ cs) =
    some
      (lead (c ∷ cs) (record {
        player_with_max_points = c;
        winner_games_lost = 0;
        winner_games_win = 0;
        max_points = 0;
      })).player_with_max_points.player_id

-- Past the guards.
unfoldable pub end_listed :
    (ℕ → Bool) → ChessSystem → ℕ → Tournament → Option (ChessResult × ChessSystem)
end_listed alloc chess id t = elim (create_histogram alloc (players_each_game * get_size t.games)) [
  | none ↦ some (chess_out_of_memory, chess)
  | some histogram ↦ do
    (_, tallied) ← iterate (games_ops true) tally t.games (some histogram)
    table ← tallied
    winner ← check_winner table
    some (
      chess_success,
      write_tournament chess id (record t { winner_id = winner; in_progress = false }),
    )
]

-- `chessEndTournament` of a system that is not NULL; the outer `none` is a read out of bounds.
unfoldable pub chess_end_tournament :
    (ℕ → Bool) → ChessSystem → ℤ → Option (ChessResult × ChessSystem)
chess_end_tournament alloc chess id =
    if leb_ℤ id (pos 0)
    then some (chess_invalid_id, chess)
    else (elim (get (tournaments_ops true) chess.chess_tournament_table (some (pos_part id))) [
      | none ↦ some (chess_tournament_not_exist, chess)
      | some t ↦
          if not t.in_progress
          then some (chess_tournament_ended, chess)
          else if get_size t.games == 0
          then some (chess_no_games, chess)
          else end_listed alloc chess (pos_part id) t
    ])
