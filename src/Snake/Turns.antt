-- ===== src/Snake/Turns.antt =====
-- The rounds of Snake Game.c: snakeMoves, startGame and main.
use cs_bsc_technion.Base.{
  ℕ, zero, suc, Bool, true, false, ◌&&◌, not, Option, none, some, List, [], ◌∷◌, if◌then◌else◌, ltb,
  leb, ◌==◌, ℤ, pos, negsuc, ltb_ℤ, ◌-ℤ◌, eqb_ℤ, ◌>>=◌,
}
use cs_bsc_technion.Snake.{
  n, food, Direction, Snake, Game, Player, init_snakes, is_board_full, read_board, add_direct_index,
  illegal_snake_move, get_snake_move, create_food, update_snake_hist, draw_move,
}

-- PERCENT or SHTRODEL loses by a move that is not legal or for want of food, or the board is full.
pub data Finish : Type 0 where
  illegal_move : Player → Finish
  food_lack : Player → Finish
  full_board : Finish

abbrev pub snake_of : Game → Player → Snake
snake_of g false = g.percent
snake_of g true = g.shtrodel

abbrev pub hist_of : Game → Player → ℕ → ℕ
hist_of g false = g.length_percent
hist_of g true = g.length_shtrodel

-- What a move writes: the board, the index of the head and the array of the player.
abbrev pub write_move : Game → Player → (ℕ → ℕ) → ℕ → (ℕ → ℕ) → Game
write_move g false board head_index snake_hist = record g {
  board = board;
  percent = record g.percent { head_index = head_index };
  length_percent = snake_hist;
}
write_move g true board head_index snake_hist = record g {
  board = board;
  shtrodel = record g.shtrodel { head_index = head_index };
  length_shtrodel = snake_hist;
}

-- `snakes[player-1].number_of_steps` and the write of it.
abbrev pub steps_before : Game → Player → ℤ
steps_before g false = g.stray_steps
steps_before g true = g.percent.number_of_steps

abbrev pub set_steps_before : Game → Player → ℤ → Game
set_steps_before g false steps = record g { stray_steps = steps }
set_steps_before g true steps = record g { percent = record g.percent { number_of_steps = steps } }

pub data Outcome : Type 0 where
  over : Finish → Outcome
  goes_on : Game → List ℤ → Outcome

unfoldable pub snake_eat_food : Player → ℤ → ℕ → Game → List ℤ → Option Outcome
snake_eat_food player max_steps size g input = do
  (board, rest) ← create_food size g.board input
  some (goes_on (record (set_steps_before g player max_steps) { board = board }) rest)

unfoldable pub carry_out : Player → Direction → ℕ → ℤ → Bool → Game → List ℤ → Option Outcome
carry_out player move size max_steps eat_food g input = do
  (board, snake_hist) ← update_snake_hist g.board (hist_of g player) move eat_food
  (drawn, head) ← draw_move board (snake_of g player).head_index snake_hist move eat_food
  if eat_food
      then snake_eat_food player max_steps size (write_move g player drawn head snake_hist) input
      else some (goes_on (write_move g player drawn head snake_hist) input)

unfoldable pub snake_moves : Player → Direction → ℕ → ℤ → Game → List ℤ → Option Outcome
snake_moves player move size max_steps g input = do
  head_dest ← add_direct_index (snake_of g player).head_index move
  content ← read_board g.board head_dest
  if illegal_snake_move move content
      then some (over (illegal_move player))
      else carry_out player move size max_steps (content == food) g input

-- A round of `startGame` behind the input of the move.
unfoldable pub play : Player → Direction → ℕ → ℤ → Game → List ℤ → Option Outcome
play player move size max_steps g input =
    if eqb_ℤ (snake_of g player).number_of_steps (pos 0)
    then some (over (food_lack player))
    else snake_moves player move size max_steps
        (set_steps_before g player (steps_before g player -ℤ pos 1)) input

-- The loop of `startGame`, with fuel: the next player is the one whose turn it is.
unfoldable pub rounds : ℕ → Player → ℕ → ℤ → Game → List ℤ → Option Finish
rounds zero player size max_steps g input = none
rounds (suc fuel) player size max_steps g input = elim (is_board_full size g.board) [
  | true ↦ some full_board
  | false ↦ elim (get_snake_move input) [
    | none ↦ none
    | some (move, rest) ↦ elim (play player move size max_steps g rest) [
      | none ↦ none
      | some (over finish) ↦ some finish
      | some (goes_on g' rest') ↦ rounds fuel (not player) size max_steps g' rest'
    ]
  ]
]

-- `askBoradSize` and `askMaxSteps`.
unfoldable pub ask_board_size : List ℤ → Option (ℕ × List ℤ)
ask_board_size [] = none
ask_board_size (pos size ∷ input) =
    let onward = ask_board_size input in
    if ltb 3 size && leb size n then some (size, input) else onward
ask_board_size (negsuc _ ∷ input) = ask_board_size input

unfoldable pub ask_max_steps : List ℤ → Option (ℤ × List ℤ)
ask_max_steps [] = none
ask_max_steps (max_steps ∷ input) =
    let onward = ask_max_steps input in
    if ltb_ℤ max_steps (pos 1) then onward else some (max_steps, input)

-- `main`
unfoldable pub main : ℕ → List ℤ → Option Finish
main fuel input = do
  (size, rest) ← ask_board_size input
  (max_steps, rest') ← ask_max_steps rest
  (board, rest'') ← create_food size (init_snakes size max_steps).board rest'
  rounds fuel false size max_steps (record (init_snakes size max_steps) { board = board }) rest''
