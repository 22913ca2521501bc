-- ===== src/Chess/RemovePlayer.antt =====
-- `chessRemovePlayer` of `chessSystem.c`: in every tournament in progress the player's games are
-- marked and go to the opponents that still have a card; then his own card is removed.
pub mod Forfeit
pub mod Leaving
pub mod Outcome
use cs_bsc_technion.Base.{
  ℕ, Bool, true, false, not, Option, none, some, if◌then◌else◌, ℤ, pos, leb_ℤ, pos_part, ◌==◌,
  ◌>>=◌,
}
use cs_bsc_technion.Map.{Map, contains, get, remove, write_at}
use cs_bsc_technion.Map.Iterate.{Round, iterate}
use cs_bsc_technion.Chess.Types.{
  ChessResult, chess_success, chess_null_argument, chess_invalid_id, chess_player_not_exist,
  PlayerSide, player_one, player_two, winner_of_side, ChessGame, Player, Tournament, ChessSystem,
  players_ops, games_ops, tournaments_ops,
}
use cs_bsc_technion.Chess.Score.{update_player_score, add_point, remove_point}
use cs_bsc_technion.Chess.AddTournament.{is_success}

-- The marks that the two `if`s set.
unfoldable pub mark_deleted : ℕ → ChessGame → ChessGame
mark_deleted id game = record game {
  first_player_deleted = if game.first_player_id == id then true else game.first_player_deleted;
  second_player_deleted = if game.second_player_id == id then true else game.second_player_deleted;
}

-- Whose card they fetch, and his side: the second `if` overrides the first.
unfoldable pub opponent : ℕ → ChessGame → Option (ℕ × PlayerSide)
opponent id game =
    if game.second_player_id == id
    then some (game.first_player_id, player_one)
    else if game.first_player_id == id
    then some (game.second_player_id, player_two)
    else none

-- `updatePlayerScore` twice, from the old result to a win, without the time of the game.
unfoldable pub award : Player → PlayerSide → ChessGame → Player
award player side game =
    update_player_score (update_player_score player side game.game_result remove_point (pos 0)) side
      (winner_of_side side) add_point (pos 0)

-- The third `if`: the opponent has a card.
unfoldable pub give_game :
    ChessGame → ChessGame → Map ℕ Player → Option (ℕ × PlayerSide) → Round ChessGame (Map ℕ Player)
give_game game marked players none = record { written = marked; state = players; stop = false }
give_game game marked players (some (id, side)) = elim (get (players_ops true) players (some id)) [
  | none ↦ record { written = marked; state = players; stop = false }
  | some player ↦ record {
    written = record marked { game_result = winner_of_side side };
    state = record players {
      head = write_at (players_ops true) players.head id (some (award player side game));
    };
    stop = false;
  }
]

-- One round of the loop over the games.
unfoldable pub forfeit : ℕ → ChessGame → Map ℕ Player → Round ChessGame (Map ℕ Player)
forfeit id game players = give_game game (mark_deleted id game) players (opponent id game)

-- One round of the loop over the tournaments; a fault of the inner loop ends it with no players.
unfoldable pub leave_tournament :
    ℕ → Tournament → Option (Map ℕ Player) → Round Tournament (Option (Map ℕ Player))
leave_tournament id t none = record { written = t; state = none; stop = true }
leave_tournament id t (some players) =
    if t.in_progress
    then (elim (iterate (games_ops true) (forfeit id) t.games players) [
      | none ↦ record { written = t; state = none; stop = true }
      | some (games, players') ↦ record {
        written = record t { games = games };
        state = some players';
        stop = false;
      }
    ])
    else record { written = t; state = some players; stop = false }

-- Past the guards.
unfoldable pub remove_card : ChessSystem → ℕ → Option (ChessResult × ChessSystem)
remove_card chess id = do
  (table, left) ←
      iterate (tournaments_ops true) (leave_tournament id) chess.chess_tournament_table
        (some chess.players_list)
  players ← left
  let removed = remove (players_ops true) players (some id)
  some (
    if is_success removed.0 then chess_success else chess_null_argument,
    record { chess_tournament_table = table; players_list = removed.1 },
  )

-- `chessRemovePlayer` of a system that is not NULL; the outer `none` is a fault of a loop.
unfoldable pub chess_remove_player : ChessSystem → ℤ → Option (ChessResult × ChessSystem)
chess_remove_player chess id =
    if leb_ℤ id (pos 0)
    then some (chess_invalid_id, chess)
    else if not (contains (players_ops true) chess.players_list (some (pos_part id)))
    then some (chess_player_not_exist, chess)
    else remove_card chess (pos_part id)
