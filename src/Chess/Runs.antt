-- ===== src/Chess/Runs.antt =====
-- Runs of the operations of the chess system.
use cs_bsc_technion.Base.{◌≡◌, refl, true, not, none, some, ◌==◌, pos, ◌+ℤ◌, ◌*ℤ◌}
use cs_bsc_technion.Map.{
  create, remove, contains, contains_from, get, get_size, same_key, get_element_by_key, value_at,
  get_first, get_next, next_after, write_at, before_key, put, link, first_key,
}
use cs_bsc_technion.Map.Counted.{count_through}
use cs_bsc_technion.Map.Iterate.{iterate}
use cs_bsc_technion.Chess.Types.{
  chess_game_already_exists, draw, players_ops, compare_tournaments_id, compare_player_id,
  compare_games_id, copy_game_data, copy_player_data,
}
use cs_bsc_technion.Chess.Games.{
  check_game, count_game, is_same_game, check_already_exist_game, get_player_number_of_games,
}
use cs_bsc_technion.Chess.Score.{update_player_score}
use cs_bsc_technion.Chess.GameId.{is_taken, generate_game_id}
use cs_bsc_technion.Chess.AddTournament.{chess_create}
use cs_bsc_technion.Chess.AddGame.{
  chess_add_game, has_invalid_id, add_game_to, exceeds_games, store_game, update_tournament_players,
  update_number_of_players, list_players, add_player, score_game, score_at, write_tournament,
}
use cs_bsc_technion.Chess.RemoveTournament.{
  chess_remove_tournament, take_back, lower_score, remove_listed,
}
use cs_bsc_technion.Chess.RemovePlayer.{
  chess_remove_player, remove_card, leave_tournament, forfeit, mark_deleted, opponent, give_game,
  award,
}
use cs_bsc_technion.Chess.Sample.{memory, winner_card, loser_card, sample}

-- Players 3 and 5 have met in tournament 1.
pub met_before :
    chess_add_game memory sample (pos 1) (pos 5) (pos 3) draw (pos 10)
    ≡ some (chess_game_already_exists, sample)
unfolding chess_add_game has_invalid_id contains_from contains same_key compare_tournaments_id get
    get_element_by_key value_at add_game_to check_already_exist_game check_game is_same_game iterate
    get_first get_size write_at compare_games_id
met_before = refl

card_after_seven :
    get
      (players_ops true)
      (elim (chess_add_game memory sample (pos 1) (pos 7) (pos 3) draw (pos 25)) [
        | none ↦ sample.players_list
        | some (_, chess') ↦ chess'.players_list
      ])
      (some 3)
    ≡ some (record winner_card { draws = pos 1; total_game_time = pos 65 })
unfolding chess_add_game has_invalid_id contains_from contains same_key before_key
    compare_tournaments_id get get_element_by_key value_at add_game_to check_already_exist_game
    check_game is_same_game iterate get_first get_next next_after get_size write_at compare_games_id
    exceeds_games get_player_number_of_games count_game store_game generate_game_id is_taken
    count_through put link copy_game_data update_tournament_players update_number_of_players
    list_players add_player compare_player_id copy_player_data score_game score_at
    update_player_score write_tournament first_key ◌+ℤ◌ ◌*ℤ◌
card_after_seven = refl

-- A system with no memory for its second map is not created.
created : chess_create (λ i. not (i == 2)) ≡ none
unfolding chess_create create
created = refl

-- Player 5 gets the game of player 3, who leaves, in his card.
card_of_five :
    get
      (players_ops true)
      (elim (chess_remove_player sample (pos 3)) [
        | none ↦ sample.players_list
        | some (_, chess') ↦ chess'.players_list
      ])
      (some 5)
    ≡ some (record loser_card { loses = pos 0; wins = pos 1 })
unfolding chess_remove_player contains_from contains same_key compare_player_id remove_card iterate
    get_first get_next next_after first_key get_size get get_element_by_key value_at
    leave_tournament compare_tournaments_id forfeit mark_deleted opponent give_game award
    update_player_score write_at compare_games_id remove ◌+ℤ◌ ◌*ℤ◌
card_of_five = refl

-- Without tournament 1 nobody has played.
card_of_three :
    get
      (players_ops true)
      (elim (chess_remove_tournament sample (pos 1)) [
        | none ↦ sample.players_list
        | some (_, chess') ↦ chess'.players_list
      ])
      (some 3)
    ≡ some (record winner_card { wins = pos 0; total_game_time = pos 0 })
unfolding chess_remove_tournament contains_from contains same_key compare_player_id remove_listed
    iterate get_first get_next next_after first_key get_size get get_element_by_key value_at
    compare_tournaments_id take_back lower_score update_player_score write_at compare_games_id
    remove ◌+ℤ◌ ◌*ℤ◌
card_of_three = refl
