-- ===== src/Chess/AddGame/Success.antt =====
-- What a successful `chessAddGame` has done, and what a refused one leaves.
use cs_bsc_technion.Base.{
  ℕ, ◌+◌, ◌≤◌, ◌<◌, ◌≡◌, ◌≢◌, Bool, true, false, ◌||◌, some, List, [], ◌∷◌, if◌then◌else◌, ℤ, pos,
  ◌≤ℤ◌, ◌==◌, arith, Bool-cases, inl, inr, pos_part,
}
use cs_bsc_technion.Map.{Element, contains, get, link}
use cs_bsc_technion.Map.Lookup.{get-eq-find, find-write_at}
use cs_bsc_technion.Map.All.{All, contains-get}
use cs_bsc_technion.Chess.Types.{
  ChessResult, chess_success, Winner, in_enum, ChessGame, Tournament, ChessSystem, games_ops,
  tournaments_ops, tournaments_order, players_ops, same_key-tournaments,
}
use cs_bsc_technion.Chess.Games.{has_game, number_of_games, is_same_game, places}
use cs_bsc_technion.Chess.Valid.{IsGame, IsTournament, IsValid, find_tournament}
use cs_bsc_technion.Chess.AddGame.{write_tournament, new_game, has_invalid_id, chess_add_game}
use cs_bsc_technion.Chess.AddGame.Stored.{counted, stored-link, number_of_games-stored}
use cs_bsc_technion.Chess.AddGame.Cards.{get-cards_after, first_card, second_card}
use cs_bsc_technion.Chess.AddGame.Outcome.{with_game, added, add_game_to_lem, new_game-IsGame}
use cs_bsc_technion.Chess.Cards.{players-IsList}

-- A new game is found by the check, wherever it stands among the games.
has_game-link :
    (a b k : ℕ) (g : ChessGame) (es : List (Element ℕ ChessGame))
    → All IsGame es
    → has_game a b (link (games_ops true) (record { key = k; value = some g }) es)
      ≡ (is_same_game a b g || has_game a b es)
unfolding has_game link
has_game-link a b k g [] h = ground arith
has_game-link a b k g (e ∷ es) h = ground (arith, has_game-link a b k g es h.1)

pub get-write_tournament :
    (chess : ChessSystem) (id : ℕ) (t u : Tournament)
    → get (tournaments_ops true) chess.chess_tournament_table (some id) ≡ some u
    → get (tournaments_ops true) (write_tournament chess id t).chess_tournament_table (some id)
      ≡ some t
unfolding write_tournament contains
get-write_tournament chess id t u found = ground (
  arith,
  get-eq-find (tournaments_ops true) (write_tournament chess id t).chess_tournament_table id,
  find-write_at (tournaments_order true) chess.chess_tournament_table.head id id (some t),
  contains-get (tournaments_ops true) chess.chess_tournament_table id u found,
  same_key-tournaments true id id,
)

module _ (t : Tournament) (k : ℕ) (g : ChessGame) (vt : IsTournament t)
    (fresh : contains (games_ops true) t.games (some k) ≡ false) where
  number_of_games-with_game :
      (p : ℕ)
      → number_of_games p (with_game t k g).games.head ≡ places p g + number_of_games p t.games.head
  unfolding with_game counted
  number_of_games-with_game p = number_of_games-stored t k p g vt fresh

  has_game-with_game :
      (a b : ℕ)
      → has_game a b (with_game t k g).games.head
        ≡ (is_same_game a b g || has_game a b t.games.head)
  unfolding with_game counted
  has_game-with_game a b =
      rw (stored-link t k g fresh) (has_game-link a b k g t.games.head vt.all_games)

module _ (alloc : ℕ → Bool) (plenty : (i : ℕ) → alloc i ≡ true) (chess : ChessSystem)
    (v : IsValid chess) where
  -- On a well-formed system, if every allocation finds memory, a call of `chessAddGame` that does
  -- not succeed leaves the system as it was.
  pub chess_add_game_refused :
      (id a b : ℤ) (winner : Winner) (play_time : ℤ) (r : ChessResult) (chess' : ChessSystem)
      → chess_add_game alloc chess id a b winner play_time ≡ some (r, chess')
      → r ≢ chess_success
      → chess' ≡ chess
  unfolding chess_add_game
  chess_add_game_refused id a b winner play_time r chess' e ne =
      elim (Bool-cases (has_invalid_id id a b winner)) [
        | inl bad ↦ ground (arith, bad)
        | inr good ↦
            elim (Bool-cases
              (contains (tournaments_ops true) chess.chess_tournament_table (some (pos_part id)))) [
                | inl known ↦
                    let (t, found, vt) = find_tournament chess (pos_part id) v known in
                    let (k, _, outcome) =
                      add_game_to_lem alloc plenty chess v (pos_part id) t
                        (new_game (pos_part a) (pos_part b) winner play_time) found vt
                        (new_game-IsGame id a b winner play_time good) in
                    ground (arith, good, known, found, outcome)
                | inr unknown ↦ ground (arith, good, unknown)
              ]
      ]

  module _ (id a b : ℕ) (winner : Winner) (play_time : ℤ) (t : Tournament)
      (found : get (tournaments_ops true) chess.chess_tournament_table (some id) ≡ some t) where
    abbrev game : ChessGame
    game = new_game a b winner play_time

    -- The arguments of a call that is to succeed.
    pub record CanPlay : Type 0 where
      pub positive : (1 ≤ id) × (1 ≤ a) × (1 ≤ b)
      pub different : a ≢ b
      pub known_result : in_enum winner ≡ true
      pub open_tournament : t.in_progress ≡ true
      pub first_meeting : has_game a b t.games.head ≡ false
      pub time : pos 0 ≤ℤ play_time
      pub first_has_room : number_of_games a t.games.head < t.max_games_per_player
      pub second_has_room : number_of_games b t.games.head < t.max_games_per_player

    added_as :
        IsTournament t
        → CanPlay
        → (k : ℕ) × (contains (games_ops true) t.games (some k) ≡ false)
          × (chess_add_game alloc chess (pos id) (pos a) (pos b) winner play_time
              ≡ some (chess_success, added chess id t k game))
    unfolding chess_add_game has_invalid_id
    added_as vt c =
        let (k, fresh, outcome) =
          add_game_to_lem alloc plenty chess v id t game found vt
            (c.positive.1, c.positive.2, c.different) in
        (
          k,
          fresh,
          ground (
            arith,
            contains-get (tournaments_ops true) chess.chess_tournament_table id t found,
            found,
            outcome,
          ),
        )

    -- On a well-formed system, if every allocation finds memory, `chessAddGame` with good arguments
    -- for a tournament that is there succeeds (`CanPlay`: positive identifiers, two players, a
    -- known result, a tournament in progress, no game of the two so far, a time that is not
    -- negative, and room for both). In the tournament every player then holds the places that the
    -- new game gives him besides those he held, and the two count as having met; each of the two
    -- has a card that took the result in, and any other card is as it was.
    pub chess_add_game_success :
        (p j : ℕ)
        → IsTournament t
        → CanPlay
        → (chess' : ChessSystem) × (t' : Tournament) × (chess_add_game alloc chess
              (pos id)
              (pos a)
              (pos b)
              winner
              play_time
            ≡ some (chess_success, chess'))
          × (get (tournaments_ops true) chess'.chess_tournament_table (some id) ≡ some t')
          × (number_of_games p t'.games.head ≡ places p game + number_of_games p t.games.head)
          × (has_game b a t'.games.head ≡ true)
          × (get (players_ops true) chess'.players_list (some j) ≡ (
              if a == j
              then some (first_card chess.players_list game)
              else if b == j
              then some (second_card chess.players_list game)
              else get (players_ops true) chess.players_list (some j)))
    chess_add_game_success p j vt c =
        let (k, fresh, outcome) = added_as vt c in
        (
          added chess id t k game,
          with_game t k game,
          outcome,
          unfold added in get-write_tournament chess id (with_game t k game) t found,
          number_of_games-with_game t k game vt fresh p,
          rw (has_game-with_game t k game vt fresh b a) met,
          unfold added in
              get-cards_after chess.players_list game (players-IsList v)
                (c.positive.1, c.positive.2, c.different) j,
        )
      where
        met : (is_same_game b a game || has_game b a t.games.head) ≡ true
        met = unfold is_same_game in ground arith
