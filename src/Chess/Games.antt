-- ===== src/Chess/Games.antt =====
-- The two loops of `chessSystem.c` that read the games of a tournament, `checkAlreadyExistGame` and
-- `getPlayerNumberOfGames`, and what they compute. The iterator moves of a loop that only reads are
-- not kept: each loop begins with `mapGetFirst`, which sets the iterator anew (on an empty map no
-- round follows that would read it).
use cs_bsc_technion.Base.{
  ℕ, suc, ◌+◌, ◌≡◌, refl, Bool, true, false, ◌&&◌, ◌||◌, not, Option, none, some, List, [], ◌∷◌,
  if◌then◌else◌, ◌==◌, arith, ◌>>=◌,
}
use cs_bsc_technion.Map.{Element, Map}
use cs_bsc_technion.Map.Order.{IsSorted}
use cs_bsc_technion.Map.Iterate.{Round, iterate, scan, scan_map, iterate-eq-scan}
use cs_bsc_technion.Chess.Types.{ChessGame, Tournament, games_ops, games_order}

-- The condition of `checkAlreadyExistGame`.
unfoldable pub is_same_game : ℕ → ℕ → ChessGame → Bool
is_same_game first_player second_player game =
    (game.first_player_id == first_player && game.second_player_id == second_player
      || game.first_player_id == second_player && game.second_player_id == first_player)
    && (not game.first_player_deleted && not game.second_player_deleted)

unfoldable pub check_game : ℕ → ℕ → ChessGame → Bool → Round ChessGame Bool
unfolding is_same_game
check_game a b game s =
    if is_same_game a b game
    then record { written = game; state = true; stop = true }
    else record { written = game; state = false; stop = false }

unfoldable pub check_already_exist_game : Tournament → ℕ → ℕ → Option Bool
check_already_exist_game t first_player second_player = do
  (_, found) ← iterate (games_ops true) (check_game first_player second_player) t.games false
  some found

-- The two `if`s of `getPlayerNumberOfGames`.
unfoldable pub count_game : ℕ → ChessGame → ℕ → Round ChessGame ℕ
count_game player_id game games_counter =
    let first : ℕ =
      if game.first_player_id == player_id && not game.first_player_deleted
      then suc games_counter
      else games_counter in
    record {
      written = game;
      state =
          if game.second_player_id == player_id && not game.second_player_deleted
          then suc first
          else first;
      stop = false;
    }

unfoldable pub get_player_number_of_games : Tournament → ℕ → Option ℕ
get_player_number_of_games t player_id = do
  (_, games_counter) ← iterate (games_ops true) (count_game player_id) t.games 0
  some games_counter

-- How many places the player holds in a game, and in the games of a list.
abbrev pub places : ℕ → ChessGame → ℕ
places player_id game =
    (if game.first_player_id == player_id && not game.first_player_deleted then 1 else 0)
    + (if game.second_player_id == player_id && not game.second_player_deleted then 1 else 0)

unfoldable pub number_of_games : ℕ → List (Element ℕ ChessGame) → ℕ
number_of_games player_id [] = 0
number_of_games player_id (e ∷ es) = elim e.value [
  | none ↦ 0
  | some game ↦ places player_id game + number_of_games player_id es
]

-- Whether some game of the list is between the two players and both still take part in it.
unfoldable pub has_game : ℕ → ℕ → List (Element ℕ ChessGame) → Bool
has_game a b [] = false
has_game a b (e ∷ es) = elim e.value [
  | none ↦ false
  | some game ↦ is_same_game a b game || has_game a b es
]

scan-count :
    (id : ℕ) (es : List (Element ℕ ChessGame)) (n : ℕ)
    → (scan (count_game id) es n).2 ≡ n + number_of_games id es
unfolding scan count_game number_of_games
scan-count id [] n = ground arith
scan-count id (e ∷ es) n =
    ground (arith, scan-count id es n, scan-count id es (suc n), scan-count id es (suc (suc n)))

scan-check :
    (a b : ℕ) (es : List (Element ℕ ChessGame))
    → (scan (check_game a b) es false).2 ≡ has_game a b es
unfolding scan check_game has_game
scan-check a b [] = refl
scan-check a b (e ∷ es) = ground (arith, scan-check a b es)

scan_map-count :
    (id : ℕ) (m : Map ℕ ChessGame) → (scan_map (count_game id) m 0).1 ≡ number_of_games id m.head
unfolding scan_map number_of_games
scan_map-count id m = ground (arith, scan-count id m.head 0)

scan_map-check :
    (a b : ℕ) (m : Map ℕ ChessGame) → (scan_map (check_game a b) m false).1 ≡ has_game a b m.head
unfolding scan_map has_game
scan_map-check a b m = ground (arith, scan-check a b m.head)

module _ (t : Tournament) (sorted : IsSorted (games_order true) t.games.head) where
  -- On a tournament whose games are sorted by their keys `getPlayerNumberOfGames` ends, and counts
  -- the places that the player still holds in the games.
  pub get_player_number_of_games_lem :
      (id : ℕ) → get_player_number_of_games t id ≡ some (number_of_games id t.games.head)
  unfolding get_player_number_of_games
  get_player_number_of_games_lem id =
      rw (iterate-eq-scan (games_order true) (count_game id) t.games 0 sorted)
        (ground (arith, scan_map-count id t.games))

  -- On a tournament whose games are sorted by their keys `checkAlreadyExistGame` ends, and finds a
  -- game exactly if the tournament has one between the two players, in either order, in which
  -- neither of them has been deleted.
  pub check_already_exist_game_lem :
      (a b : ℕ) → check_already_exist_game t a b ≡ some (has_game a b t.games.head)
  unfolding check_already_exist_game
  check_already_exist_game_lem a b =
      rw (iterate-eq-scan (games_order true) (check_game a b) t.games false sorted)
        (ground (arith, scan_map-check a b t.games))
