-- ===== src/Chess/Tests.antt =====
-- The theorems of the chess system at concrete systems.
use mathlib.Core.Option
use cs_bsc_technion.Base.{
  ℕ, suc, ◌+◌, ◌≡◌, ◌≢◌, ◌≤◌, ◌↔◌, refl, Bool, true, false, ◌&&◌, not, none, some, List, [], ◌∷◌,
  if◌then◌else◌, ◌==◌, pos, ◌≤ℤ◌, arith, int_laws, inl,
}
use cs_bsc_technion.Map.{
  contains, contains_from, get, get_size, same_key, get_element_by_key, value_at,
}
use cs_bsc_technion.Map.All.{Holds}
use cs_bsc_technion.Map.Counted.{IsFull}
use cs_bsc_technion.Chess.Types.{
  ChessResult, chess_success, chess_game_already_exists, draw, Tournament, ChessSystem, players_ops,
  tournaments_ops, compare_tournaments_id, compare_player_id,
}
use cs_bsc_technion.Chess.Location.{IsLocation}
use cs_bsc_technion.Chess.Games.{is_same_game, has_game, number_of_games, places}
use cs_bsc_technion.Chess.GameId.{generate_game_id, generate_game_id-IsFreeId, IsFreeId}
use cs_bsc_technion.Chess.Valid.{IsValid}
use cs_bsc_technion.Chess.AddTournament.{chess_add_tournament}
use cs_bsc_technion.Chess.AddTournament.Outcome.{
  chess_add_tournament_iff, chess_add_tournament_null,
}
use cs_bsc_technion.Chess.AddGame.{new_game, chess_add_game}
use cs_bsc_technion.Chess.AddGame.Cards.{first_card, second_card}
use cs_bsc_technion.Chess.AddGame.Outcome.{chess_add_game-IsValid}
use cs_bsc_technion.Chess.AddGame.Success.{CanPlay, chess_add_game_success, chess_add_game_refused}
use cs_bsc_technion.Chess.RemoveTournament.{chess_remove_tournament}
use cs_bsc_technion.Chess.RemoveTournament.Cards.{take_out_all}
use cs_bsc_technion.Chess.RemoveTournament.Outcome.{
  chess_remove_tournament_success, chess_remove_tournament-IsValid,
}
use cs_bsc_technion.Chess.RemovePlayer.{chess_remove_player}
use cs_bsc_technion.Chess.RemovePlayer.Outcome.{
  chess_remove_player_success, chess_remove_player-IsValid,
}
use cs_bsc_technion.Chess.Sample.{memory, paris, sample, paris-IsTournament, sample-IsValid}
use cs_bsc_technion.Chess.Runs.{met_before}

abbrev oslo : List ℕ
oslo = b'O' ∷ b's' ∷ b'l' ∷ b'o' ∷ []

paris_there : get (tournaments_ops true) sample.chess_tournament_table (some 1) ≡ some paris
unfolding get contains contains_from same_key compare_tournaments_id get_element_by_key value_at
paris_there = refl

sample-IsFull : IsFull sample.chess_tournament_table.head
sample-IsFull = ((paris, refl), tt)

oslo-IsLocation : IsLocation oslo
oslo-IsLocation = (
  (omega arith, omega arith),
  (
    inl (omega arith, omega arith),
    (inl (omega arith, omega arith), (inl (omega arith, omega arith), tt)),
  ),
)

oslo_is_new : contains (tournaments_ops true) sample.chess_tournament_table (some 2) ≡ false
unfolding contains contains_from same_key compare_tournaments_id
oslo_is_new = refl

three_is_known : contains (players_ops true) sample.players_list (some 3) ≡ true
unfolding contains contains_from same_key compare_player_id
three_is_known = refl

-- Player 7 meets player 3, and the game is a draw.
can_play : CanPlay memory (λ _. refl) sample sample-IsValid 1 7 3 draw (pos 25) paris paris_there
unfolding number_of_games has_game is_same_game
can_play = record {
  positive = (omega arith, omega arith, omega arith);
  different = λ e. absurd (omega (arith, e));
  known_result = refl;
  open_tournament = refl;
  first_meeting = refl;
  time = omega int_laws;
  first_has_room = omega arith;
  second_has_room = omega arith;
}

chess_add_game_success_example :
    (chess' : ChessSystem) × (t' : Tournament) × (chess_add_game memory sample
        (pos 1)
        (pos 7)
        (pos 3)
        draw
        (pos 25)
      ≡ some (chess_success, chess'))
    × (get (tournaments_ops true) chess'.chess_tournament_table (some 1) ≡ some t')
    × (number_of_games 3 t'.games.head
        ≡ places 3 (new_game 7 3 draw (pos 25)) + number_of_games 3 paris.games.head)
    × (has_game 3 7 t'.games.head ≡ true)
    × (get (players_ops true) chess'.players_list (some 5) ≡ (
        if 7 == 5
        then some (first_card sample.players_list (new_game 7 3 draw (pos 25)))
        else if 3 == 5
        then some (second_card sample.players_list (new_game 7 3 draw (pos 25)))
        else get (players_ops true) sample.players_list (some 5)))
chess_add_game_success_example =
    chess_add_game_success memory (λ _. refl) sample sample-IsValid 1 7 3 draw (pos 25) paris
      paris_there 3 5 paris-IsTournament can_play

chess_add_game-IsValid_example :
    Holds
      (λ (r : ChessResult × ChessSystem). IsValid r.1)
      (chess_add_game memory sample (pos 1) (pos 7) (pos 3) draw (pos 25))
chess_add_game-IsValid_example =
    chess_add_game-IsValid memory (λ _. refl) sample sample-IsValid (pos 1) (pos 7) (pos 3) draw
      (pos 25)

not_success : chess_game_already_exists ≢ chess_success
not_success e = cc

chess_add_game_refused_example : sample ≡ sample
chess_add_game_refused_example =
    chess_add_game_refused memory (λ _. refl) sample sample-IsValid (pos 1) (pos 5) (pos 3) draw
      (pos 10) chess_game_already_exists sample met_before not_success

chess_remove_player_success_example :
    (chess' : ChessSystem) × (t' : Tournament) × (chess_remove_player sample (pos 3)
      ≡ some (chess_success, chess'))
    × (get (players_ops true) chess'.players_list (some 3) ≡ none)
    × (get (tournaments_ops true) chess'.chess_tournament_table (some 1) ≡ some t')
    × (t'.in_progress ≡ true)
    × (number_of_games 5 t'.games.head
        ≡ (if true && 5 == 3 then 0 else number_of_games 5 paris.games.head))
chess_remove_player_success_example =
    chess_remove_player_success sample sample-IsValid 3 three_is_known 1 5 paris (omega arith)
      paris_there

chess_remove_player-IsValid_example :
    Holds (λ (r : ChessResult × ChessSystem). IsValid r.1) (chess_remove_player sample (pos 3))
chess_remove_player-IsValid_example = chess_remove_player-IsValid sample (pos 3) sample-IsValid

chess_remove_tournament_success_example :
    (chess' : ChessSystem) × (chess_remove_tournament sample (pos 1) ≡ some (chess_success, chess'))
    × (get (tournaments_ops true) chess'.chess_tournament_table (some 1) ≡ (
        if 1 == 1 then none else get (tournaments_ops true) sample.chess_tournament_table (some 1)))
    × (get (players_ops true) chess'.players_list (some 3)
        ≡ Option.map
            (take_out_all 3 paris.games.head)
            (get (players_ops true) sample.players_list (some 3)))
chess_remove_tournament_success_example =
    chess_remove_tournament_success sample sample-IsValid 1 1 3 paris (omega arith) paris_there

chess_remove_tournament-IsValid_example :
    Holds (λ (r : ChessResult × ChessSystem). IsValid r.1) (chess_remove_tournament sample (pos 1))
chess_remove_tournament-IsValid_example =
    chess_remove_tournament-IsValid sample sample-IsValid (pos 1)

chess_add_tournament_iff_example :
    ((chess_add_tournament memory sample (pos 2) (pos 4) (some oslo)).0 ≡ chess_success) ↔ (
      (pos 1 ≤ℤ pos 2)
      × (contains (tournaments_ops true) sample.chess_tournament_table (some 2) ≡ false)
      × IsLocation oslo
      × (pos 1 ≤ℤ pos 4))
chess_add_tournament_iff_example =
    chess_add_tournament_iff memory (λ _. refl) sample (pos 2) (pos 4) oslo

oslo_added : (chess_add_tournament memory sample (pos 2) (pos 4) (some oslo)).0 ≡ chess_success
oslo_added =
    chess_add_tournament_iff_example.1 (omega arith, oslo_is_new, oslo-IsLocation, omega arith)

-- Memory for all but the copy of the tournament.
abbrev no_copy : ℕ → Bool
no_copy i = not (i == 4)

chess_add_tournament_null_example :
    let (result, chess') = chess_add_tournament no_copy sample (pos 2) (pos 4) (some oslo) in
    (result ≡ chess_success)
    × (get_size chess'.chess_tournament_table ≡ suc (get_size sample.chess_tournament_table))
    × (get (tournaments_ops true) chess'.chess_tournament_table (some 2) ≡ none)
chess_add_tournament_null_example =
    chess_add_tournament_null no_copy sample 2 4 oslo refl refl refl refl (omega arith)
      (omega arith) oslo-IsLocation oslo_is_new

generate_game_id-IsFreeId_example :
    (id : ℕ) × (generate_game_id sample.chess_tournament_table ≡ some id)
    × IsFreeId id sample.chess_tournament_table.head
    × (1 ≤ id)
generate_game_id-IsFreeId_example =
    generate_game_id-IsFreeId sample.chess_tournament_table sample-IsValid.table_sorted
      sample-IsFull
