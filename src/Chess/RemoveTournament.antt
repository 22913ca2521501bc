-- ===== src/Chess/RemoveTournament.antt =====
-- `chessRemoveTournament` of `chessSystem.c`: every game of the tournament is taken out of the cards
-- of its players, then the tournament is taken out of the table.
pub mod Cards
pub mod Outcome
use cs_bsc_technion.Base.{
  ℕ, Bool, true, false, Option, none, some, if◌then◌else◌, ℤ, pos, leb_ℤ, pos_part, ◌>>=◌,
}
use cs_bsc_technion.Map.{Map, get, remove, write_at}
use cs_bsc_technion.Map.Iterate.{Round, iterate}
use cs_bsc_technion.Chess.Types.{
  ChessResult, chess_success, chess_invalid_id, chess_tournament_not_exist, Winner, PlayerSide,
  player_one, player_two, ChessGame, Player, Tournament, ChessSystem, players_ops, games_ops,
  tournaments_ops,
}
use cs_bsc_technion.Chess.Score.{update_player_score, remove_point}
use cs_bsc_technion.Chess.AddTournament.{is_success}

-- The score of a player who still has a card is lowered.
unfoldable pub lower_score : Map ℕ Player → ℕ → PlayerSide → Winner → ℤ → Map ℕ Player
lower_score players id side game_result game_time =
    elim (get (players_ops true) players (some id)) [
      | none ↦ players
      | some player ↦ record players {
        head =
            write_at (players_ops true) players.head id
              (some (update_player_score player side game_result remove_point game_time));
      }
    ]

-- One round of the loop over the games.
unfoldable pub take_back : ChessGame → Map ℕ Player → Round ChessGame (Map ℕ Player)
take_back game players = record {
  written = game;
  state =
      lower_score
        (lower_score players game.first_player_id player_one game.game_result game.game_time)
        game.second_player_id player_two game.game_result game.game_time;
  stop = false;
}

-- Past the guards; the games of the tournament are read in place, and end with it.
unfoldable pub remove_listed : ChessSystem → ℕ → Tournament → Option (ChessResult × ChessSystem)
remove_listed chess id tournament = do
  (_, players) ← iterate (games_ops true) take_back tournament.games chess.players_list
  let removed = remove (tournaments_ops true) chess.chess_tournament_table (some id)
  some (
    if is_success removed.0 then chess_success else chess_invalid_id,
    record { chess_tournament_table = removed.1; players_list = players },
  )

-- `chessRemoveTournament` of a system that is not NULL; the outer `none` is a fault of the loop.
unfoldable pub chess_remove_tournament : ChessSystem → ℤ → Option (ChessResult × ChessSystem)
chess_remove_tournament chess id =
    if leb_ℤ id (pos 0)
    then some (chess_invalid_id, chess)
    else (elim (get (tournaments_ops true) chess.chess_tournament_table (some (pos_part id))) [
      | none ↦ some (chess_tournament_not_exist, chess)
      | some tournament ↦ remove_listed chess (pos_part id) tournament
    ])
