-- ===== src/Chess/PlayTime.antt =====
-- `chessCalculateAveragePlayTime` of `chessSystem.c`. The average is the quotient that it is computed
-- from, and the 0 that goes with an error is 0 / 1.
mod Tests
use cs_bsc_technion.Base.{
  ℕ, suc, ◌≡◌, refl, Bool, true, false, not, Option, none, some, if◌then◌else◌, ℤ, pos, ◌+ℤ◌, ◌*ℤ◌,
  *ℤ_one, leb_ℤ, eqb_ℤ, pos_part, ◌==◌, ◌≢◌, ◌≤◌, arith, ◌∙◌, ap, sym, eq_of_parts, Bool-cases, inl,
  inr,
}
use cs_bsc_technion.Map.{get, contains}
use cs_bsc_technion.Chess.Types.{
  ChessResult, chess_success, chess_null_argument, chess_invalid_id, chess_player_not_exist, Winner,
  Player, PlayerSide, Tournament, ChessSystem, players_ops, tournaments_ops, player_one,
}
use cs_bsc_technion.Chess.Score.{
  games_played, games_played-update_player_score, update_player_score, add_point,
}
use cs_bsc_technion.Chess.Valid.{IsTournament, IsValid}
use cs_bsc_technion.Chess.AddGame.{chess_add_game, new_game}
use cs_bsc_technion.Chess.AddGame.Cards.{card_or_new, first_card}
use cs_bsc_technion.Chess.AddGame.Success.{CanPlay, chess_add_game_success}

pub record Quotient : Type 0 where
  pub dividend : ℤ
  pub divisor : ℤ

abbrev pub no_average : Quotient
no_average = record { dividend = pos 0; divisor = pos 1 }

-- Of a player who has a card.
abbrev pub average_of : Player → ChessResult × Quotient
average_of player_card =
    if not (eqb_ℤ (games_played player_card) (pos 0))
    then (
      chess_success,
      record { dividend = player_card.total_game_time; divisor = games_played player_card },
    )
    else (chess_null_argument, no_average)

-- `chessCalculateAveragePlayTime` of a system that is not NULL.
unfoldable pub chess_calculate_average_play_time : ChessSystem → ℤ → ChessResult × Quotient
chess_calculate_average_play_time chess player_id =
    if leb_ℤ player_id (pos 0)
    then (chess_invalid_id, no_average)
    else (elim (get (players_ops true) chess.players_list (some (pos_part player_id))) [
      | none ↦ (chess_player_not_exist, no_average)
      | some player_card ↦ average_of player_card
    ])

average_of_lem :
    (p : Player) (n d : ℤ)
    → games_played p ≡ n
    → p.total_game_time ≡ d
    → n ≢ pos 0
    → average_of p ≡ (chess_success, record { dividend = d; divisor = n })
average_of_lem p n d games time some_games = elim (Bool-cases (eqb_ℤ (games_played p) (pos 0))) [
  | inl zero_games ↦
      absurd
        (some_games (sym games ∙ eq_of_parts (games_played p) (pos 0) (ground (arith, zero_games))))
  | inr games_there ↦ rw (games_there, games, time) refl
]

average_of_card :
    (chess : ChessSystem) (a : ℕ) (p : Player)
    → 1 ≤ a
    → get (players_ops true) chess.players_list (some a) ≡ some p
    → chess_calculate_average_play_time chess (pos a) ≡ average_of p
unfolding chess_calculate_average_play_time
average_of_card chess a p positive found = ground (arith, positive, found)

module _ (alloc : ℕ → Bool) (plenty : (i : ℕ) → alloc i ≡ true) (chess : ChessSystem)
    (v : IsValid chess) (id a b : ℕ) (winner : Winner) (play_time : ℤ) (t : Tournament)
    (found : get (tournaments_ops true) chess.chess_tournament_table (some id) ≡ some t) where
  -- On a well-formed system, if every allocation finds memory, after `chessAddGame` with good
  -- arguments (`CanPlay`) the average of the first player takes the game in, unless the new number
  -- of his games is 0: the time is added to the dividend and a game to the divisor of the card that
  -- he had, or of a new one.
  pub chess_calculate_average_play_time-chess_add_game :
      IsTournament t
      → CanPlay alloc plenty chess v id a b winner play_time t found
      → let card = card_or_new chess.players_list a in
        games_played card +ℤ pos 1 ≢ pos 0
        → (chess' : ChessSystem) × (chess_add_game alloc chess
              (pos id)
              (pos a)
              (pos b)
              winner
              play_time
            ≡ some (chess_success, chess'))
          × (chess_calculate_average_play_time chess' (pos a) ≡ (
            chess_success,
            record {
              dividend = card.total_game_time +ℤ play_time;
              divisor = games_played card +ℤ pos 1;
            },
          ))
  chess_calculate_average_play_time-chess_add_game vt c some_games =
      let (chess', t', outcome, _, _, _, cards) =
        chess_add_game_success alloc plenty chess v id a b winner play_time t found a a vt c in
      let (games, time, _) =
        games_played-update_player_score (card_or_new chess.players_list a) player_one winner
          add_point play_time in
      (
        chess',
        outcome,
        average_of_card chess' a (first_card chess.players_list (new_game a b winner play_time))
              c.positive.1 (ground (arith, cards))
            ∙ average_of_lem (first_card chess.players_list (new_game a b winner play_time))
                (games_played (card_or_new chess.players_list a) +ℤ pos 1)
                ((card_or_new chess.players_list a).total_game_time +ℤ play_time) games
                (time
                  ∙ ap (λ (x : ℤ). (card_or_new chess.players_list a).total_game_time +ℤ x)
                      (*ℤ_one play_time))
                some_games,
      )
