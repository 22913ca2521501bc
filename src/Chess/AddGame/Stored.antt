-- ===== src/Chess/AddGame/Stored.antt =====
-- The tournament in `chessAddGame`, when memory does not run out: the game stored and its players
-- counted.
use cs_bsc_technion.Base.{
  ℕ, ◌+◌, ◌≤◌, ◌<◌, ◌≡◌, refl, true, false, some, List, [], ◌∷◌, if◌then◌else◌, ℤ, ◌+ℤ◌, ◌==◌,
  arith,
}
use cs_bsc_technion.Map.{Element, contains, put, link}
use cs_bsc_technion.Map.Order.{IsSorted}
use cs_bsc_technion.Map.Put.{put-IsSorted, put_fresh}
use cs_bsc_technion.Map.All.{All, All-put}
use cs_bsc_technion.Chess.Types.{ChessGame, Tournament, games_ops, games_order, copy_game_data}
use cs_bsc_technion.Chess.Games.{number_of_games, places, get_player_number_of_games_lem}
use cs_bsc_technion.Chess.Valid.{IsGame, IsTournament}
use cs_bsc_technion.Chess.AddGame.{update_number_of_players, update_tournament_players}

-- A new game adds the places of its players, wherever it stands among the games.
pub number_of_games-link :
    (id k : ℕ) (g : ChessGame) (es : List (Element ℕ ChessGame))
    → All IsGame es
    → number_of_games id (link (games_ops true) (record { key = k; value = some g }) es)
      ≡ places id g + number_of_games id es
unfolding number_of_games link
number_of_games-link id k g [] h = ground arith
number_of_games-link id k g (e ∷ es) h = ground (arith, number_of_games-link id k g es h.1)

-- The games of a tournament after `mapPut` of a game under a new identifier.
unfoldable pub stored : Tournament → ℕ → ChessGame → Tournament
stored t k g = record t { games = (put (games_ops true) true t.games (some k) (some g)).1 }

pub copy-game : (g : ChessGame) → copy_game_data true g ≡ some g
unfolding copy_game_data
copy-game g = refl

pub stored-link :
    (t : Tournament) (k : ℕ) (g : ChessGame)
    → contains (games_ops true) t.games (some k) ≡ false
    → (stored t k g).games.head
      ≡ link (games_ops true) (record { key = k; value = some g }) t.games.head
unfolding stored copy_game_data
stored-link t k g fresh = ground (arith, put_fresh (games_ops true) t.games k g fresh)

pub number_of_games-stored :
    (t : Tournament) (k id : ℕ) (g : ChessGame)
    → IsTournament t
    → contains (games_ops true) t.games (some k) ≡ false
    → number_of_games id (stored t k g).games.head ≡ places id g + number_of_games id t.games.head
number_of_games-stored t k id g v fresh =
    rw (stored-link t k g fresh) (number_of_games-link id k g t.games.head v.all_games)

stored_within :
    (t : Tournament) (k id : ℕ) (g : ChessGame)
    → IsTournament t
    → contains (games_ops true) t.games (some k) ≡ false
    → IsGame g
    → number_of_games g.first_player_id t.games.head < t.max_games_per_player
    → number_of_games g.second_player_id t.games.head < t.max_games_per_player
    → number_of_games id (stored t k g).games.head ≤ t.max_games_per_player
stored_within t k id g v fresh ne one two =
    ground (arith, number_of_games-stored t k id g v fresh, v.within id)

-- The tournament keeps its limit: both players were below it, and nobody else has a new place.
pub stored-IsTournament :
    (t : Tournament) (k : ℕ) (g : ChessGame)
    → IsTournament t
    → contains (games_ops true) t.games (some k) ≡ false
    → IsGame g
    → number_of_games g.first_player_id t.games.head < t.max_games_per_player
    → number_of_games g.second_player_id t.games.head < t.max_games_per_player
    → IsTournament (stored t k g)
stored-IsTournament t k g v fresh ne one two = record {
  sorted = unfold stored in put-IsSorted (games_order true) true t.games (some k) (some g) v.sorted;
  all_games =
      unfold stored in
      All-put IsGame (games_ops true) true t.games k g v.all_games (copy-game g) ne;
  within = λ id. unfold stored in stored_within t k id g v fresh ne one two;
}

-- `updateTournamentPlayers` counts a player who now holds one place.
unfoldable pub counted : Tournament → ℕ → ℤ → Tournament
counted t id edit_command = record t {
  number_of_players =
      if number_of_games id t.games.head == 1
      then t.number_of_players +ℤ edit_command
      else t.number_of_players;
}

update_number_of_players_lem :
    (t : Tournament) (id : ℕ) (edit_command : ℤ)
    → IsSorted (games_order true) t.games.head
    → update_number_of_players t id edit_command ≡ some (counted t id edit_command)
unfolding update_number_of_players counted
update_number_of_players_lem t id edit_command sorted =
    ground (arith, get_player_number_of_games_lem t sorted id)

pub update_tournament_players_lem :
    (t : Tournament) (a b : ℕ) (edit_command : ℤ)
    → IsSorted (games_order true) t.games.head
    → update_tournament_players t a b edit_command
      ≡ some (counted (counted t a edit_command) b edit_command)
unfolding update_tournament_players
update_tournament_players_lem t a b edit_command sorted =
    rw (update_number_of_players_lem t a edit_command sorted) (
      update_number_of_players_lem (counted t a edit_command) b edit_command
        (unfold counted in sorted))

pub counted-IsTournament :
    (t : Tournament) (id : ℕ) (edit_command : ℤ)
    → IsTournament t
    → IsTournament (counted t id edit_command)
unfolding counted
counted-IsTournament t id edit_command v = record {
  sorted = v.sorted;
  all_games = v.all_games;
  within = v.within;
}
