-- ===== src/Chess/AddGame.antt =====
-- `chessAddGame` of `chessSystem.c`, with `addPlayer` and `updateTournamentPlayers`. The outer
-- `none` is a read through NULL. `alloc i` says whether the i-th allocation of the call finds memory:
-- the game (0), its element (1) and copy (2), and the card, element and copy of the first player
-- (3, 4, 5) and of the second (6, 7, 8).
pub mod Stored
pub mod Cards
pub mod Outcome
pub mod Success
use cs_bsc_technion.Base.{
  ℕ, ◌+◌, ◌≡◌, Bool, true, false, ◌&&◌, ◌||◌, not, Option, none, some, List, [], ◌∷◌, if◌then◌else◌,
  ℤ, pos, negsuc, ◌+ℤ◌, leb, leb_ℤ, ltb_ℤ, eqb_ℤ, pos_part, ◌==◌, ◌>>=◌,
}
use cs_bsc_technion.Map.{
  Map, MapResult, map_success, map_out_of_memory, contains, get, put, remove, write_at,
}
use cs_bsc_technion.Chess.Types.{
  ChessResult, chess_success, chess_null_argument, chess_invalid_id, chess_out_of_memory,
  chess_tournament_not_exist, chess_tournament_ended, chess_game_already_exists,
  chess_invalid_play_time, chess_exceeded_games, Winner, in_enum, PlayerSide, player_one,
  player_two, ChessGame, Player, Tournament, ChessSystem, players_ops, games_ops, tournaments_ops,
}
use cs_bsc_technion.Chess.Games.{check_already_exist_game, get_player_number_of_games}
use cs_bsc_technion.Chess.Score.{update_player_score, add_point, remove_point}
use cs_bsc_technion.Chess.GameId.{generate_game_id}
use cs_bsc_technion.Chess.AddTournament.{is_success}

-- The card that `addPlayer` fills in.
abbrev pub new_player : ℕ → Player
new_player id = record {
  id_player = id;
  wins = pos 0;
  loses = pos 0;
  draws = pos 0;
  total_game_time = pos 0;
}

-- `addPlayer`, whose allocations begin at `site`.
unfoldable pub add_player : (ℕ → Bool) → ℕ → Map ℕ Player → ℕ → MapResult × Map ℕ Player
add_player alloc site players id =
    if contains (players_ops true) players (some id)
    then (map_success, players)
    else if not (alloc site)
    then (map_out_of_memory, players)
    else put (players_ops (alloc (site + 2))) (alloc (site + 1)) players (some id)
        (some (new_player id))

-- One of the two halves of `updateTournamentPlayers`.
unfoldable pub update_number_of_players : Tournament → ℕ → ℤ → Option Tournament
update_number_of_players t id edit_command = do
  n ← get_player_number_of_games t id
  some (if n == 1 then record t { number_of_players = t.number_of_players +ℤ edit_command } else t)

unfoldable pub update_tournament_players : Tournament → ℕ → ℕ → ℤ → Option Tournament
update_tournament_players t first_player second_player edit_command = do
  t' ← update_number_of_players t first_player edit_command
  update_number_of_players t' second_player edit_command

-- The `updatePlayerScore` on the card that `mapGet` points to.
unfoldable pub score_at : Map ℕ Player → ℕ → PlayerSide → Winner → ℤ → ℤ → Option (Map ℕ Player)
score_at players id side game_result add_score game_time = do
  player ← get (players_ops true) players (some id)
  some (record players {
    head =
        write_at (players_ops true) players.head id
          (some (update_player_score player side game_result add_score game_time));
  })

-- The tournament that `mapGet` pointed to, changed in place.
unfoldable pub write_tournament : ChessSystem → ℕ → Tournament → ChessSystem
write_tournament chess id t = record chess {
  chess_tournament_table = record chess.chess_tournament_table {
    head = write_at (tournaments_ops true) chess.chess_tournament_table.head id (some t);
  };
}

-- The end of the call: both cards are there, and take the result in.
unfoldable pub score_game : ChessSystem → ChessGame → Option (ChessResult × ChessSystem)
score_game chess g = do
  one ← score_at chess.players_list g.first_player_id player_one g.game_result add_point g.game_time
  two ← score_at one g.second_player_id player_two g.game_result add_point g.game_time
  some (chess_success, record chess { players_list = two })

-- No memory for a card: the game is taken out again.
unfoldable pub roll_back :
    ChessSystem → ℕ → Tournament → ChessGame → ℕ → Option (ChessResult × ChessSystem)
roll_back chess id t g game_id = do
  t' ←
      update_tournament_players
        (record t { games = (remove (games_ops true) t.games (some game_id)).1 }) g.first_player_id
        g.second_player_id remove_point
  some (chess_out_of_memory, write_tournament chess id t')

-- From the first `addPlayer` on; `t` is the tournament with the game in it.
unfoldable pub list_players :
    (ℕ → Bool) → ChessSystem → ℕ → Tournament → ChessGame → ℕ → Option (ChessResult × ChessSystem)
list_players alloc chess id t g game_id =
    let (first_result, one) = add_player alloc 3 chess.players_list g.first_player_id in
    let (second_result, two) = add_player alloc 6 one g.second_player_id in
    if not (is_success first_result)
    then roll_back (record chess { players_list = one }) id t g game_id
    else if not (is_success second_result)
    then roll_back (record chess { players_list = two }) id t g game_id
    else score_game (write_tournament (record chess { players_list = two }) id t) g

-- From the allocation of the game on.
unfoldable pub store_game :
    (ℕ → Bool) → ChessSystem → ℕ → Tournament → ChessGame → Option (ChessResult × ChessSystem)
store_game alloc chess id t g = if not (alloc 0) then some (chess_out_of_memory, chess) else do
  game_id ← generate_game_id chess.chess_tournament_table
  let stored = put (games_ops (alloc 2)) (alloc 1) t.games (some game_id) (some g)
  if not (is_success stored.0)
      then some (chess_null_argument, write_tournament chess id (record t { games = stored.1 }))
      else (do
        t' ←
            update_tournament_players (record t { games = stored.1 }) g.first_player_id
              g.second_player_id add_point
        list_players alloc chess id t' g game_id)

-- The guard on the number of games, whose second half is read only if the first does not hold.
unfoldable pub exceeds_games : Tournament → ℕ → ℕ → Option Bool
exceeds_games t first_player second_player = do
  first ← get_player_number_of_games t first_player
  if leb t.max_games_per_player first then some true else (do
    second ← get_player_number_of_games t second_player
    some (leb t.max_games_per_player second))

-- The guards on a tournament that is there.
unfoldable pub add_game_to :
    (ℕ → Bool) → ChessSystem → ℕ → Tournament → ChessGame → Option (ChessResult × ChessSystem)
add_game_to alloc chess id t g =
    if not t.in_progress then some (chess_tournament_ended, chess) else do
      exists ← check_already_exist_game t g.first_player_id g.second_player_id
      if exists
          then some (chess_game_already_exists, chess)
          else if ltb_ℤ g.game_time (pos 0)
          then some (chess_invalid_play_time, chess)
          else (do
            exceeded ← exceeds_games t g.first_player_id g.second_player_id
            if exceeded then some (chess_exceeded_games, chess) else store_game alloc chess id t g)

abbrev pub new_game : ℕ → ℕ → Winner → ℤ → ChessGame
new_game first_player second_player winner play_time = record {
  first_player_id = first_player;
  second_player_id = second_player;
  game_result = winner;
  game_time = play_time;
  first_player_deleted = false;
  second_player_deleted = false;
}

-- The first guard of `chessAddGame`.
unfoldable pub has_invalid_id : ℤ → ℤ → ℤ → Winner → Bool
has_invalid_id id first_player second_player winner =
    leb_ℤ id (pos 0)
    || leb_ℤ first_player (pos 0)
    || leb_ℤ second_player (pos 0)
    || eqb_ℤ first_player second_player
    || not (in_enum winner)

-- `chessAddGame` of a system that is not NULL.
unfoldable pub chess_add_game :
    (ℕ → Bool) → ChessSystem → ℤ → ℤ → ℤ → Winner → ℤ → Option (ChessResult × ChessSystem)
chess_add_game alloc chess id first_player second_player winner play_time =
    if has_invalid_id id first_player second_player winner
    then some (chess_invalid_id, chess)
    else if not (contains (tournaments_ops true) chess.chess_tournament_table (some (pos_part id)))
    then some (chess_tournament_not_exist, chess)
    else do
      t ← get (tournaments_ops true) chess.chess_tournament_table (some (pos_part id))
      add_game_to alloc chess (pos_part id) t
          (new_game (pos_part first_player) (pos_part second_player) winner play_time)
