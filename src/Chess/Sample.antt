-- ===== src/Chess/Sample.antt =====
-- A small chess system for the tests: tournament 1 has one game, between players 3 and 5.
use cs_bsc_technion.Base.{ℕ, ◌≤◌, Bool, true, false, none, some, [], ◌∷◌, pos, arith}
use cs_bsc_technion.Chess.Types.{
  ChessGame, Player, Tournament, ChessSystem, first_player, players_order, games_order,
  tournaments_order,
}
use cs_bsc_technion.Chess.Games.{number_of_games}
use cs_bsc_technion.Chess.Valid.{IsTournament, IsValid}

abbrev pub memory : ℕ → Bool
memory _ = true

abbrev pub opening : ChessGame
opening = record {
  first_player_id = 3;
  second_player_id = 5;
  game_result = first_player;
  game_time = pos 40;
  first_player_deleted = false;
  second_player_deleted = false;
}

abbrev pub paris : Tournament
paris = record {
  tournament_location = b'P' ∷ b'a' ∷ b'r' ∷ b'i' ∷ b's' ∷ [];
  max_games_per_player = 2;
  games = record { head = record { key = 1; value = some opening } ∷ []; iterator = none };
  winner_id = 0;
  in_progress = true;
  tournament_id = 1;
  number_of_players = pos 2;
}

abbrev pub winner_card : Player
winner_card = record {
  id_player = 3;
  wins = pos 1;
  loses = pos 0;
  draws = pos 0;
  total_game_time = pos 40;
}

abbrev pub loser_card : Player
loser_card = record {
  id_player = 5;
  wins = pos 0;
  loses = pos 1;
  draws = pos 0;
  total_game_time = pos 40;
}

abbrev pub sample : ChessSystem
sample = record {
  chess_tournament_table = record {
    head = record { key = 1; value = some paris } ∷ [];
    iterator = none;
  };
  players_list = record {
    head =
        record { key = 3; value = some winner_card }
        ∷ record { key = 5; value = some loser_card }
        ∷ [];
    iterator = none;
  };
}

paris_within : (id : ℕ) → number_of_games id paris.games.head ≤ paris.max_games_per_player
unfolding number_of_games
paris_within id = ground arith

pub paris-IsTournament : IsTournament paris
unfolding games_order
paris-IsTournament = record {
  sorted = (tt, tt);
  all_games = ((omega arith, omega arith, omega arith), tt);
  within = paris_within;
}

pub sample-IsValid : IsValid sample
unfolding tournaments_order players_order
sample-IsValid = record {
  table_sorted = (tt, tt);
  tournaments = (paris-IsTournament, tt);
  players_sorted = omega arith;
  players = (tt, (tt, tt));
}
