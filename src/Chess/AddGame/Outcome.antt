-- ===== src/Chess/AddGame/Outcome.antt =====
-- What `chessAddGame` returns on each branch and what it leaves, when memory does not run out.
use cs_bsc_technion.Base.{
  ℕ, ◌<◌, ◌≡◌, refl, Bool, true, false, ◌||◌, not, Option, some, if◌then◌else◌, ℤ, pos, arith,
  Bool-cases, inl, inr, leb, ltb_ℤ, pos_part,
}
use cs_bsc_technion.Map.{contains, get}
use cs_bsc_technion.Map.Put.{put-IsSorted, put_result, write_at-IsSorted}
use cs_bsc_technion.Map.All.{Holds, All-IsFull, All-write_at}
use cs_bsc_technion.Chess.Types.{
  ChessResult, chess_success, chess_tournament_ended, chess_game_already_exists,
  chess_invalid_play_time, chess_exceeded_games, Winner, ChessGame, Tournament, ChessSystem,
  games_ops, tournaments_ops, tournaments_order, games_order,
}
use cs_bsc_technion.Chess.Games.{
  has_game, number_of_games, check_already_exist_game_lem, get_player_number_of_games_lem,
}
use cs_bsc_technion.Chess.GameId.{generate_game_id-IsFreeId, IsFreeId-get}
use cs_bsc_technion.Chess.Score.{add_point}
use cs_bsc_technion.Chess.Valid.{IsGame, IsTournament, IsValid, find_tournament}
use cs_bsc_technion.Chess.AddGame.{
  write_tournament, list_players, store_game, exceeds_games, add_game_to, new_game, has_invalid_id,
  chess_add_game,
}
use cs_bsc_technion.Chess.AddGame.Stored.{
  copy-game, stored, counted, stored-IsTournament, counted-IsTournament,
  update_tournament_players_lem,
}
use cs_bsc_technion.Chess.AddGame.Cards.{
  add_player_lem, cards_after, cards_after-IsList, score_game_lem, both_listed, listed,
}
use cs_bsc_technion.Chess.Cards.{players-IsList}

-- The tournament with the game under an identifier, and its two players counted.
unfoldable pub with_game : Tournament → ℕ → ChessGame → Tournament
with_game t k g =
    counted (counted (stored t k g) g.first_player_id add_point) g.second_player_id add_point

-- The system after the game has been added.
unfoldable pub added : ChessSystem → ℕ → Tournament → ℕ → ChessGame → ChessSystem
added chess id t k g = record (write_tournament chess id (with_game t k g)) {
  players_list = cards_after chess.players_list g;
}

-- A game that passes the first guard is one.
pub new_game-IsGame :
    (id a b : ℤ) (winner : Winner) (play_time : ℤ)
    → has_invalid_id id a b winner ≡ false
    → IsGame (new_game (pos_part a) (pos_part b) winner play_time)
unfolding has_invalid_id
new_game-IsGame id a b winner play_time h = (ground arith, ground arith, ground arith)

module _ (alloc : ℕ → Bool) (plenty : (i : ℕ) → alloc i ≡ true) (chess : ChessSystem)
    (v : IsValid chess) where
  list_players_lem :
      (id k : ℕ) (t : Tournament) (g : ChessGame)
      → IsGame g
      → list_players alloc chess id t g k
        ≡ some (
          chess_success,
          record (write_tournament chess id t) { players_list = cards_after chess.players_list g },
        )
  unfolding list_players write_tournament
  list_players_lem id k t g ne =
      rw
        (
          list_players,
          add_player_lem alloc 3 chess.players_list g.first_player_id plenty,
          add_player_lem alloc 6 (listed chess.players_list g.first_player_id) g.second_player_id
              plenty,
        )
        (score_game_lem chess.players_list g (players-IsList v) ne _ (unfold both_listed in refl))

  -- A game that passes the guards is stored under a new identifier.
  store_game_lem :
      (id : ℕ) (t : Tournament) (g : ChessGame)
      → get (tournaments_ops true) chess.chess_tournament_table (some id) ≡ some t
      → IsTournament t
      → IsGame g
      → (k : ℕ) × (contains (games_ops true) t.games (some k) ≡ false)
        × (store_game alloc chess id t g ≡ some (chess_success, added chess id t k g))
  unfolding store_game added with_game stored
  store_game_lem id t g found vt ne =
      let (k, generated, free, _) =
        generate_game_id-IsFreeId chess.chess_tournament_table v.table_sorted
          (All-IsFull IsTournament chess.chess_tournament_table.head v.tournaments) in
      (
        k,
        IsFreeId-get k id chess.chess_tournament_table t free found,
        (ground (
          arith,
          plenty 0,
          plenty 1,
          plenty 2,
          generated,
          copy-game g,
          put_result (games_ops true) true t.games k g,
          update_tournament_players_lem (stored t k g) g.first_player_id g.second_player_id
              add_point (put-IsSorted (games_order true) true t.games (some k) (some g) vt.sorted),
          list_players_lem id k
              (counted (counted (stored t k g) g.first_player_id add_point) g.second_player_id
                add_point)
              g ne,
        )),
      )

  exceeds_games_lem :
      (t : Tournament) (a b : ℕ)
      → IsTournament t
      → exceeds_games t a b
        ≡ some (
            leb t.max_games_per_player (number_of_games a t.games.head)
            || leb t.max_games_per_player (number_of_games b t.games.head))
  unfolding exceeds_games
  exceeds_games_lem t a b vt = ground (
    arith,
    get_player_number_of_games_lem t vt.sorted a,
    get_player_number_of_games_lem t vt.sorted b,
  )

  -- The guards on a tournament in their order, with what the loops compute.
  pub add_game_to_lem :
      (id : ℕ) (t : Tournament) (g : ChessGame)
      → get (tournaments_ops true) chess.chess_tournament_table (some id) ≡ some t
      → IsTournament t
      → IsGame g
      → (k : ℕ) × (contains (games_ops true) t.games (some k) ≡ false)
        × (add_game_to alloc chess id t g ≡ (
            if not t.in_progress
            then some (chess_tournament_ended, chess)
            else if has_game g.first_player_id g.second_player_id t.games.head
            then some (chess_game_already_exists, chess)
            else if ltb_ℤ g.game_time (pos 0)
            then some (chess_invalid_play_time, chess)
            else if leb t.max_games_per_player (number_of_games g.first_player_id t.games.head)
                || leb t.max_games_per_player (number_of_games g.second_player_id t.games.head)
            then some (chess_exceeded_games, chess)
            else some (chess_success, added chess id t k g)))
  unfolding add_game_to
  add_game_to_lem id t g found vt ne =
      let (k, fresh, stored_as) = store_game_lem id t g found vt ne in
      (
        k,
        fresh,
        ground (
          arith,
          check_already_exist_game_lem t vt.sorted g.first_player_id g.second_player_id,
          exceeds_games_lem t g.first_player_id g.second_player_id vt,
          stored_as,
        ),
      )

  -- A well-formed system stays so when a game is added to a tournament with room for both players.
  added-IsValid :
      (id k : ℕ) (t : Tournament) (g : ChessGame)
      → contains (games_ops true) t.games (some k) ≡ false
      → IsTournament t
      → IsGame g
      → number_of_games g.first_player_id t.games.head < t.max_games_per_player
      → number_of_games g.second_player_id t.games.head < t.max_games_per_player
      → IsValid (added chess id t k g)
  unfolding added with_game write_tournament
  added-IsValid id k t g fresh vt ne one two = record {
    table_sorted =
        write_at-IsSorted (tournaments_order true) id (some (with_game t k g))
          chess.chess_tournament_table.head v.table_sorted;
    tournaments =
        All-write_at IsTournament (tournaments_ops true) chess.chess_tournament_table.head id
          (with_game t k g) v.tournaments
          (counted-IsTournament (counted (stored t k g) g.first_player_id add_point)
            g.second_player_id add_point
            (counted-IsTournament (stored t k g) g.first_player_id add_point
              (stored-IsTournament t k g vt fresh ne one two)));
    players_sorted = (cards_after-IsList chess.players_list g (players-IsList v) ne).sorted;
    players = (cards_after-IsList chess.players_list g (players-IsList v) ne).full;
  }

  -- Well formed, whatever the result.
  abbrev Fine : Option (ChessResult × ChessSystem) → Type 0
  Fine = Holds (λ (r : ChessResult × ChessSystem). IsValid r.1)

  add_game_to-Fine :
      (id : ℕ) (t : Tournament) (g : ChessGame)
      → get (tournaments_ops true) chess.chess_tournament_table (some id) ≡ some t
      → IsTournament t
      → IsGame g
      → Fine (add_game_to alloc chess id t g)
  add_game_to-Fine id t g found vt ne =
      let (k, fresh, e) = add_game_to_lem id t g found vt ne in
      rw e (ground (arith, added-IsValid id k t g fresh vt ne))

  -- On a well-formed system, if every allocation finds memory, `chessAddGame` never reads through
  -- NULL, and leaves a well-formed system on every branch: in particular no player ever holds more
  -- places in a tournament than it allows.
  pub chess_add_game-IsValid :
      (id a b : ℤ) (winner : Winner) (play_time : ℤ)
      → Holds
          (λ (r : ChessResult × ChessSystem). IsValid r.1)
          (chess_add_game alloc chess id a b winner play_time)
  unfolding chess_add_game
  chess_add_game-IsValid id a b winner play_time =
      elim (Bool-cases (has_invalid_id id a b winner)) [
        | inl bad ↦ ground (arith, bad)
        | inr good ↦
            elim (Bool-cases
              (contains (tournaments_ops true) chess.chess_tournament_table (some (pos_part id)))) [
                | inl known ↦
                    let (t, found, vt) = find_tournament chess (pos_part id) v known in
                    rw (good, known, found)
                      (add_game_to-Fine (pos_part id) t
                        (new_game (pos_part a) (pos_part b) winner play_time) found vt
                        (new_game-IsGame id a b winner play_time good))
                | inr unknown ↦ rw (good, unknown) v
              ]
      ]
