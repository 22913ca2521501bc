-- ===== src/Chess/Score.antt =====
-- `updatePlayerScore` of `chessSystem.c`: a game's result in a player's card, and taken out again.
use cs_bsc_technion.Base.{
  ◌≡◌, ℤ, pos, negsuc, ◌+ℤ◌, ◌*ℤ◌, *ℤ_one, *ℤ_minus_one, int_laws, if◌then◌else◌, arith,
}
use cs_bsc_technion.Chess.Types.{Player, PlayerSide, Winner, side_won, is_draw}

abbrev pub add_point : ℤ
add_point = pos 1

abbrev pub remove_point : ℤ
remove_point = negsuc 0

unfoldable pub update_player_score : Player → PlayerSide → Winner → ℤ → ℤ → Player
update_player_score player side game_result add_score game_time =
    let time : ℤ = player.total_game_time +ℤ game_time *ℤ add_score in
    if side_won side game_result
    then record player { wins = player.wins +ℤ add_score; total_game_time = time }
    else if is_draw game_result
    then record player { draws = player.draws +ℤ add_score; total_game_time = time }
    else record player { loses = player.loses +ℤ add_score; total_game_time = time }

undo_point : (a : ℤ) → a +ℤ add_point +ℤ remove_point ≡ a
undo_point a = omega int_laws

undo_time : (a t : ℤ) → a +ℤ t *ℤ add_point +ℤ t *ℤ remove_point ≡ a
undo_time a t = rw (*ℤ_one t, *ℤ_minus_one t) (omega int_laws)

-- Taking a game's result out of a card undoes putting it in, whatever the side and the result.
pub update_player_score_undo :
    (player : Player) (side : PlayerSide) (game_result : Winner) (game_time : ℤ)
    → update_player_score
        (update_player_score player side game_result add_point game_time)
        side
        game_result
        remove_point
        game_time
      ≡ player
unfolding update_player_score
update_player_score_undo p side r t = ground (
  arith,
  undo_point p.wins,
  undo_point p.draws,
  undo_point p.loses,
  undo_time p.total_game_time t,
)

-- The number of games of a card, as `chessCalculateAveragePlayTime` adds it up.
abbrev pub games_played : Player → ℤ
games_played player = player.wins +ℤ player.loses +ℤ player.draws

-- Each update moves the number of games on the card by exactly the score it adds, and the total time
-- by the time of the game with the same sign.
pub games_played-update_player_score :
    (player : Player) (side : PlayerSide) (game_result : Winner) (score game_time : ℤ)
    → let player' = update_player_score player side game_result score game_time in
      (games_played player' ≡ games_played player +ℤ score)
      × (player'.total_game_time ≡ player.total_game_time +ℤ game_time *ℤ score)
      × (player'.id_player ≡ player.id_player)
unfolding update_player_score
games_played-update_player_score p side r score t =
    ground (arith, regroup p.wins p.loses p.draws score)
  where
    regroup :
        (a b c s : ℤ)
        → ((a +ℤ s) +ℤ b +ℤ c ≡ a +ℤ b +ℤ c +ℤ s)
          × (a +ℤ (b +ℤ s) +ℤ c ≡ a +ℤ b +ℤ c +ℤ s)
          × (a +ℤ b +ℤ (c +ℤ s) ≡ a +ℤ b +ℤ c +ℤ s)
    regroup a b c s = (omega int_laws, omega int_laws, omega int_laws)
