-- ===== src/Chess/Statistics/Tests.antt =====
-- Runs of the statistics, and the theorems at a concrete system.
use cs_bsc_technion.Base.{
  ℕ, ◌≡◌, ◌≤◌, refl, true, false, not, none, some, [], ◌∷◌, arith, int_laws, pos, ℤ, ◌+ℤ◌,
  if◌then◌else◌,
}
use cs_bsc_technion.Map.{
  get, get_size, contains, contains_from, same_key, get_element_by_key, value_at, get_first,
  get_next, next_after, first_key,
}
use cs_bsc_technion.Map.All.{All}
use cs_bsc_technion.Map.Tour.{tour, tour_rounds}
use cs_bsc_technion.Chess.Types.{
  chess_success, chess_no_tournaments_ended, chess_save_failure, ChessGame, Tournament, ChessSystem,
  compare_tournaments_id, compare_games_id, games_order, tournaments_order, players_order,
}
use cs_bsc_technion.Chess.Games.{number_of_games}
use cs_bsc_technion.Chess.Valid.{IsTournament, IsValid}
use cs_bsc_technion.Chess.Sample.{memory, opening, paris, sample, paris-IsTournament}
use cs_bsc_technion.Chess.Statistics.{
  number, average, text, longest_game_time_and_average, read_time, print_lines,
  print_tournaments_statistics_to_file, look_for_ended, check_if_any_tournament_ended,
  save_statistics, chess_save_tournament_statistics,
}
use cs_bsc_technion.Chess.Statistics.Longest.{
  total_of, NoneLonger, HasTime, longest_game_time_and_average_lem,
  longest_game_time_and_average_null,
}
use cs_bsc_technion.Chess.Statistics.Outcome.{
  any_ended, all_lines, IsPrintable, chess_save_tournament_statistics_lem,
}

-- The tournament of the sample when it has ended, and the system with it.
abbrev paris_over : Tournament
paris_over = record paris { winner_id = 3; in_progress = false }

abbrev over : ChessSystem
over = record sample {
  chess_tournament_table = record {
    head = record { key = 1; value = some paris_over } ∷ [];
    iterator = none;
  };
}

paris_over-IsTournament : IsTournament paris_over
paris_over-IsTournament = record {
  sorted = paris-IsTournament.sorted;
  all_games = paris-IsTournament.all_games;
  within = paris-IsTournament.within;
}

over-IsValid : IsValid over
unfolding tournaments_order players_order
over-IsValid = record {
  table_sorted = (tt, tt);
  tournaments = (paris_over-IsTournament, tt);
  players_sorted = omega arith;
  players = (tt, (tt, tt));
}

over-IsPrintable : All IsPrintable over.chess_tournament_table.head
over-IsPrintable = ((λ _ _. (opening, refl, omega int_laws)), tt)

-- A tournament with one game, of time 0.
abbrev blitz : ChessGame
blitz = record opening { game_time = pos 0 }

abbrev short : Tournament
short = record paris {
  games = record { head = record { key = 1; value = some blitz } ∷ []; iterator = none };
}

short_within : (id : ℕ) → number_of_games id short.games.head ≤ short.max_games_per_player
unfolding number_of_games
short_within id = ground arith

short-IsTournament : IsTournament short
unfolding games_order
short-IsTournament = record {
  sorted = (tt, tt);
  all_games = ((omega arith, omega arith, omega arith), tt);
  within = short_within;
}

short_faults : longest_game_time_and_average short ≡ none
unfolding longest_game_time_and_average get_first get contains contains_from same_key
    compare_games_id get_element_by_key value_at get_size tour_rounds get_next next_after first_key
    read_time
short_faults = refl

six_lines :
    chess_save_tournament_statistics true memory over
    ≡ some (
      chess_success,
      number (pos 3)
          ∷ number (pos 40)
          ∷ average (record { total = pos 40; count = 1 })
          ∷ text paris.tournament_location
          ∷ number (pos 1)
          ∷ number (pos 2)
          ∷ [],
    )
unfolding chess_save_tournament_statistics check_if_any_tournament_ended tour tour_rounds
    look_for_ended save_statistics print_tournaments_statistics_to_file print_lines
    longest_game_time_and_average read_time get_first get_next next_after first_key get get_size
    contains contains_from same_key compare_games_id compare_tournaments_id get_element_by_key
    value_at ◌+ℤ◌
six_lines = refl

longest_game_time_and_average_lem_example :
    (longest : ℤ) × (longest_game_time_and_average paris
      ≡ some (longest, record { total = total_of paris.games.head; count = get_size paris.games }))
    × NoneLonger longest paris.games.head
    × HasTime longest paris.games.head
longest_game_time_and_average_lem_example =
    longest_game_time_and_average_lem paris paris-IsTournament opening refl (omega int_laws)

longest_game_time_and_average_null_example : longest_game_time_and_average short ≡ none
longest_game_time_and_average_null_example =
    longest_game_time_and_average_null short short-IsTournament blitz refl (omega int_laws)

chess_save_tournament_statistics_lem_example : chess_save_tournament_statistics true memory over ≡ (
    if not (any_ended over.chess_tournament_table.head)
    then some (chess_no_tournaments_ended, [])
    else if not true
    then some (chess_save_failure, [])
    else some (chess_success, all_lines over.chess_tournament_table.head))
chess_save_tournament_statistics_lem_example =
    chess_save_tournament_statistics_lem memory (λ _. refl) true over over-IsValid over-IsPrintable
