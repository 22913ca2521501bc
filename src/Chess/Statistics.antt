-- ===== src/Chess/Statistics.antt =====
-- `chessSaveTournamentStatistics` of `chessSystem.c` with `printTournamentsStatisticsToFile`,
-- `longestGameTimeAndAverage` and `checkIfAnyTournamentEnded`. The file is the list of its lines, and
-- `printed i` says whether the line behind i lines can be written. An average is the quotient that it
-- is computed from.
pub mod Longest
pub mod Outcome
mod Tests
use cs_bsc_technion.Base.{
  ℕ, ◌-◌, Bool, true, false, ◌&&◌, not, Option, none, some, List, [], ◌∷◌, ◌++◌, length,
  if◌then◌else◌, ltb, ℤ, pos, ◌+ℤ◌, ltb_ℤ, ◌>>=◌,
}
use cs_bsc_technion.Map.{get, get_size, get_first}
use cs_bsc_technion.Map.Counted.{Look}
use cs_bsc_technion.Map.Tour.{tour, tour_rounds}
use cs_bsc_technion.Chess.Types.{
  ChessResult, chess_success, chess_no_tournaments_ended, chess_save_failure, ChessGame, Tournament,
  ChessSystem, games_ops, tournaments_ops,
}

pub record Average : Type 0 where
  pub total : ℤ
  pub count : ℕ

-- `longest_game` and `total_time_of_tournament`.
pub record Times : Type 0 where
  pub longest_game : ℤ
  pub total_time : ℤ

-- What the function does with each game.
unfoldable pub read_time : ChessGame → Times → Look Times
read_time game s = record {
  state = record {
    longest_game = if ltb_ℤ s.longest_game game.game_time then game.game_time else s.longest_game;
    total_time = s.total_time +ℤ game.game_time;
  };
  stop = false;
}

abbrev pub no_times : Times
no_times = record { longest_game = pos 0; total_time = pos 0 }

-- `longestGameTimeAndAverage`; `none` is a read through NULL. The first game is counted off only if it
-- is longer than 0.
unfoldable pub longest_game_time_and_average : Tournament → Option (ℤ × Average)
longest_game_time_and_average t =
    let (id, m) = get_first t.games in
    elim (get (games_ops true) m id) [
      | none ↦ none
      | some game ↦ do
        times ←
            tour_rounds (games_ops true) read_time
              (if ltb_ℤ (pos 0) game.game_time then get_size t.games - 1 else get_size t.games)
              false m (read_time game no_times).state
        some (times.longest_game, record { total = times.total_time; count = get_size t.games })
    ]

pub data Line : Type 0 where
  number : ℤ → Line
  average : Average → Line
  text : List ℕ → Line

-- A chain of `fprintf`s joined by `||`: the first that fails ends it.
unfoldable pub print_lines : (ℕ → Bool) → List Line → List Line → Bool × List Line
print_lines printed file [] = (true, file)
print_lines printed file (line ∷ lines) =
    let onward = print_lines printed (file ++ line ∷ []) lines in
    if printed (length file) then onward else (false, file)

-- `printTournamentsStatisticsToFile`: the times are computed when the first line has been printed.
unfoldable pub print_tournaments_statistics_to_file :
    (ℕ → Bool) → List Line → Tournament → Option (ChessResult × List Line)
print_tournaments_statistics_to_file printed file t =
    let first = print_lines printed file (number (pos t.winner_id) ∷ []) in
    if not first.0 then some (chess_save_failure, first.1) else do
      (longest_game, average_time) ← longest_game_time_and_average t
      let rest = print_lines printed first.1 (
          number longest_game
          ∷ average average_time
          ∷ text t.tournament_location
          ∷ number (pos (get_size t.games))
          ∷ number t.number_of_players
          ∷ [])
      some (if rest.0 then chess_success else chess_save_failure, rest.1)

-- The round of `checkIfAnyTournamentEnded`.
unfoldable pub look_for_ended : Tournament → Bool → Look Bool
look_for_ended t s =
    if not t.in_progress
    then record { state = true; stop = true }
    else record { state = false; stop = false }

unfoldable pub check_if_any_tournament_ended : ChessSystem → Option Bool
check_if_any_tournament_ended chess =
    tour (tournaments_ops true) look_for_ended chess.chess_tournament_table false

abbrev pub is_chess_success : ChessResult → Bool
is_chess_success chess_success = true
is_chess_success _ = false

-- The round of `chessSaveTournamentStatistics`; its state is what the call has come to so far.
unfoldable pub save_statistics :
    (ℕ → Bool)
    → Tournament
    → Option (ChessResult × List Line)
    → Look (Option (ChessResult × List Line))
save_statistics printed t none = record { state = none; stop = true }
save_statistics printed t (some (result, file)) =
    if not t.in_progress && ltb 0 (get_size t.games)
    then (elim (print_tournaments_statistics_to_file printed file t) [
      | none ↦ record { state = none; stop = true }
      | some (result', file') ↦ record {
        state = some (result', file');
        stop = not (is_chess_success result');
      }
    ])
    else record { state = some (result, file); stop = false }

-- `chessSaveTournamentStatistics` of a system that is not NULL: the result, and what is in the file.
unfoldable pub chess_save_tournament_statistics :
    Bool → (ℕ → Bool) → ChessSystem → Option (ChessResult × List Line)
chess_save_tournament_statistics opened printed chess = do
  any_ended ← check_if_any_tournament_ended chess
  if not any_ended
      then some (chess_no_tournaments_ended, [])
      else if not opened
      then some (chess_save_failure, [])
      else (do
        saved ←
            tour (tournaments_ops true) (save_statistics printed) chess.chess_tournament_table
              (some (chess_success, []))
        saved)
