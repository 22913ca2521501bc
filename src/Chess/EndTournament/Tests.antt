-- ===== src/Chess/EndTournament/Tests.antt =====
-- Runs of `chessEndTournament` and `checkWinner`, and the theorems at a concrete system.
use cs_bsc_technion.Base.{ℕ, ◌≡◌, ◌≤◌, refl, true, false, some, List, [], ◌∷◌, arith, pos}
use cs_bsc_technion.Map.{
  get, get_size, contains, contains_from, same_key, get_element_by_key, value_at, get_first,
  get_next, next_after, first_key, write_at,
}
use cs_bsc_technion.Map.Iterate.{iterate}
use cs_bsc_technion.Map.All.{Holds}
use cs_bsc_technion.Chess.Types.{
  ChessResult, chess_success, ChessSystem, tournaments_ops, compare_tournaments_id,
  compare_games_id,
}
use cs_bsc_technion.Chess.Valid.{IsValid}
use cs_bsc_technion.Chess.AddGame.{write_tournament}
use cs_bsc_technion.Chess.Sample.{memory, paris, sample, sample-IsValid}
use cs_bsc_technion.Chess.EndTournament.{
  Column, chess_end_tournament, end_listed, create_histogram, rows_found, blank_columns, tally,
  enter_players, enter_player, player_exist_in_point_table, update_histogram_player, update_column,
  check_winner, lead, challenge,
}
use cs_bsc_technion.Chess.EndTournament.Tally.{games_sum, points_of, loses_of}
use cs_bsc_technion.Chess.EndTournament.Outcome.{
  chess_end_tournament-IsValid, chess_end_tournament_success,
}

-- Player 3 has won the one game of tournament 1.
won_by_three :
    chess_end_tournament memory sample (pos 1)
    ≡ some (
      chess_success,
      record sample {
        chess_tournament_table = record sample.chess_tournament_table {
          head =
              record { key = 1; value = some (record paris { winner_id = 3; in_progress = false }) }
              ∷ [];
        };
      },
    )
unfolding chess_end_tournament get contains contains_from same_key compare_tournaments_id
    get_element_by_key value_at get_size end_listed create_histogram rows_found blank_columns
    iterate get_first get_next next_after first_key write_at compare_games_id tally enter_players
    enter_player player_exist_in_point_table update_histogram_player update_column check_winner lead
    challenge write_tournament
won_by_three = refl

-- A player with two wins and two games lost, one with a win and two draws, and one with two wins; the
-- last two have lost a game each.
abbrev three_players : List Column
three_players =
    record { player_id = 9; points = 4; loses = 2; wins = 2 }
    ∷ record { player_id = 3; points = 4; loses = 1; wins = 1 }
    ∷ record { player_id = 5; points = 4; loses = 1; wins = 2 }
    ∷ []

-- The second replaces the first, whose number of wins stays; so the third does not replace him,
-- although he has more wins.
stale_wins : check_winner three_players ≡ some 3
unfolding check_winner lead challenge
stale_wins = refl

paris_there : get (tournaments_ops true) sample.chess_tournament_table (some 1) ≡ some paris
unfolding get contains contains_from same_key compare_tournaments_id get_element_by_key value_at
paris_there = refl

three_has_points : 1 ≤ points_of 3 paris.games.head
unfolding games_sum
three_has_points = omega arith

chess_end_tournament_success_example :
    (chess' : ChessSystem) × (w : ℕ) × (chess_end_tournament memory sample (pos 1)
      ≡ some (chess_success, chess'))
    × (get (tournaments_ops true) chess'.chess_tournament_table (some 1)
        ≡ some (record paris { winner_id = w; in_progress = false }))
    × (chess'.players_list ≡ sample.players_list)
    × (points_of 5 paris.games.head ≤ points_of w paris.games.head)
    × (points_of 5 paris.games.head ≡ points_of w paris.games.head
        → loses_of w paris.games.head ≤ loses_of 5 paris.games.head)
chess_end_tournament_success_example =
    chess_end_tournament_success memory sample sample-IsValid 1 3 5 paris (λ _. refl) (omega arith)
      paris_there refl (omega arith) (omega arith) three_has_points

chess_end_tournament-IsValid_example :
    Holds
      (λ (r : ChessResult × ChessSystem). IsValid r.1)
      (chess_end_tournament memory sample (pos 1))
chess_end_tournament-IsValid_example =
    chess_end_tournament-IsValid memory sample sample-IsValid (pos 1)
