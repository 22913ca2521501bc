-- ===== src/Chess/PlayTime/Tests.antt =====
-- Runs of the average, and its theorem at a concrete system.
use cs_bsc_technion.Base.{◌≡◌, ◌≢◌, refl, true, some, pos, ◌+ℤ◌, arith, int_laws, ap, pos_part}
use cs_bsc_technion.Map.{get, contains, contains_from, same_key, get_element_by_key, value_at}
use cs_bsc_technion.Chess.Types.{
  chess_success, ChessSystem, draw, tournaments_ops, compare_tournaments_id, compare_player_id,
}
use cs_bsc_technion.Chess.Score.{games_played}
use cs_bsc_technion.Chess.AddGame.{chess_add_game}
use cs_bsc_technion.Chess.AddGame.Cards.{card_or_new}
use cs_bsc_technion.Chess.AddGame.Success.{CanPlay}
use cs_bsc_technion.Chess.Games.{number_of_games, has_game, is_same_game}
use cs_bsc_technion.Chess.Sample.{
  memory, paris, sample, paris-IsTournament, sample-IsValid, winner_card,
}
use cs_bsc_technion.Chess.PlayTime.{
  chess_calculate_average_play_time, chess_calculate_average_play_time-chess_add_game,
}

average_of_three :
    chess_calculate_average_play_time sample (pos 3)
    ≡ (chess_success, record { dividend = pos 40; divisor = pos 1 })
unfolding chess_calculate_average_play_time get contains contains_from same_key compare_player_id
    get_element_by_key value_at ◌+ℤ◌
average_of_three = refl

paris_there : get (tournaments_ops true) sample.chess_tournament_table (some 1) ≡ some paris
unfolding get contains contains_from same_key compare_tournaments_id get_element_by_key value_at
paris_there = refl

-- Player 3 meets player 7, and the game is a draw.
can_play : CanPlay memory (λ _. refl) sample sample-IsValid 1 3 7 draw (pos 25) paris paris_there
unfolding number_of_games has_game is_same_game
can_play = record {
  positive = (omega arith, omega arith, omega arith);
  different = λ e. absurd (omega (arith, e));
  known_result = refl;
  open_tournament = refl;
  first_meeting = refl;
  time = omega int_laws;
  first_has_room = omega arith;
  second_has_room = omega arith;
}

card_of_three : card_or_new sample.players_list 3 ≡ winner_card
unfolding get contains contains_from same_key compare_player_id get_element_by_key value_at
card_of_three = refl

two_games : games_played (card_or_new sample.players_list 3) +ℤ pos 1 ≢ pos 0
unfolding get contains contains_from same_key compare_player_id get_element_by_key value_at ◌+ℤ◌
two_games e = absurd (omega (arith, ap pos_part e))

chess_calculate_average_play_time-chess_add_game_example :
    (chess' : ChessSystem) × (chess_add_game memory sample (pos 1) (pos 3) (pos 7) draw (pos 25)
      ≡ some (chess_success, chess'))
    × (chess_calculate_average_play_time chess' (pos 3) ≡ (
      chess_success,
      record {
        dividend = (card_or_new sample.players_list 3).total_game_time +ℤ pos 25;
        divisor = games_played (card_or_new sample.players_list 3) +ℤ pos 1;
      },
    ))
chess_calculate_average_play_time-chess_add_game_example =
    chess_calculate_average_play_time-chess_add_game memory (λ _. refl) sample sample-IsValid 1 3 7
      draw (pos 25) paris paris_there paris-IsTournament can_play two_games
