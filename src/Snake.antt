-- ===== src/Snake.antt =====
-- The game of "C - level1 BuiltUp/Snake game - 2 Snakes compete for food/Snake Game.c". The code
-- numbers the cell in row r and column c as r * N + c + 1 and reads it at [x / N][x % N - 1]. Memory is
-- taken to be flat, as compilers lay it out, so the cell with the number x is the int at x - 1 from the
-- start of the board; the number 0 is the int in front of it, which the code writes. So is
-- snakes[-1], which the code counts for the first player. Any other access outside an array is `none`,
-- and so is the end of the input, where the code loops. The input is the list of the numbers that
-- scanf reads, and of the output only the last message is kept.
pub mod Turns
pub mod History
pub mod Steps
pub mod Rounds
pub mod Draw
pub mod Shown
pub mod Room
pub mod Both
pub mod Play
pub mod Carry
pub mod Reached
pub mod Food
pub mod End
mod Tests
use cs_bsc_technion.Base.{
  ℕ, zero, suc, ◌+◌, ◌-◌, ◌*◌, ◌%◌, Bool, true, false, ◌&&◌, ◌||◌, not, Option, none, some, List,
  [], ◌∷◌, length, if◌then◌else◌, ltb, leb, ◌==◌, ℤ, pos, negsuc, ltb_ℤ, leb_ℤ, ◌-ℤ◌, eqb_ℤ, ◌>>=◌,
}

abbrev pub n : ℕ
n = 25

-- N * N
abbrev pub cells : ℕ
cells = 625

abbrev pub space : ℕ
space = 32

abbrev pub food : ℕ
food = 70

abbrev pub white_head : ℕ
white_head = 37

abbrev pub black_head : ℕ
black_head = 64

abbrev pub white_body : ℕ
white_body = 42

abbrev pub black_body : ℕ
black_body = 43

pub data Direction : Type 0 where
  right : Direction
  left : Direction
  up : Direction
  down : Direction
  -- a value with no name, which the input can have
  unnamed : Direction

-- `snake_t`, less the two symbols, which are never used.
pub record Snake : Type 0 where
  pub number_of_steps : ℤ
  pub head_index : ℕ

-- The globals, with the arrays of `initGame`. The board is a function of the number of a cell.
pub record Game : Type 0 where
  pub board : ℕ → ℕ
  pub percent : Snake
  pub shtrodel : Snake
  -- the steps in snakes[-1]
  pub stray_steps : ℤ
  pub length_percent : ℕ → ℕ
  pub length_shtrodel : ℕ → ℕ

-- `false` is PERCENT, the player 0.
abbrev pub Player : Type 0
Player = Bool

abbrev pub set_at : (ℕ → ℕ) → ℕ → ℕ → ℕ → ℕ
set_at f i v j = if j == i then v else f j

-- The number of the cell [row][column].
abbrev pub cell : ℕ → ℕ → ℕ
cell row column = row * n + column + 1

-- The row, from a column on, and the rows, from one on, that `init_board` fills.
unfoldable pub fill_columns : ℕ → ℕ → (ℕ → ℕ) → ℕ → ℕ
fill_columns row zero board = board
fill_columns row (suc column) board = set_at (fill_columns row column board) (cell row column) space

unfoldable pub fill_rows : ℕ → ℕ → (ℕ → ℕ) → ℕ → ℕ
unfolding fill_columns
fill_rows zero size board = board
fill_rows (suc row) size board = fill_columns row size (fill_rows row size board)

unfoldable pub init_board : ℕ → (ℕ → ℕ) → ℕ → ℕ
unfolding fill_rows
init_board size board =
    set_at
      (set_at
        (set_at
          (set_at
            (set_at (set_at (fill_rows size size board) (cell 0 0) white_head) (cell 0 1)
              white_body)
            (cell 0 2) white_body)
          (cell (size - 1) 0) black_head)
        (cell (size - 1) 1) black_body)
      (cell (size - 1) 2) black_body

-- The first three entries of an array of zeros.
abbrev pub three : ℕ → ℕ → ℕ → ℕ → ℕ
three a b c = set_at (set_at (set_at (λ i. 0) 0 a) 1 b) 2 c

-- `initGame` up to the first food, for globals that are 0.
unfoldable pub init_snakes : ℕ → ℤ → Game
unfolding init_board
init_snakes size max_steps = record {
  board = init_board size (λ i. 0);
  percent = record { number_of_steps = max_steps; head_index = 0 * n * (size - 1) + 1 };
  shtrodel = record { number_of_steps = max_steps; head_index = 1 * n * (size - 1) + 1 };
  stray_steps = pos 0;
  length_percent = three 1 2 3;
  length_shtrodel = three ((size - 1) * n + 1) ((size - 1) * n + 2) ((size - 1) * n + 3);
}

-- Whether a row has no empty cell before a column, and the rows before one.
unfoldable pub row_full : (ℕ → ℕ) → ℕ → ℕ → Bool
row_full board row zero = true
row_full board row (suc column) =
    not (board (cell row column) == space) && row_full board row column

unfoldable pub rows_full : (ℕ → ℕ) → ℕ → ℕ → Bool
rows_full board zero size = true
rows_full board (suc row) size = row_full board row size && rows_full board row size

unfoldable pub is_board_full : ℕ → (ℕ → ℕ) → Bool
unfolding row_full rows_full
is_board_full size board = rows_full board size size

-- A read of the board; a number below 0 has no value here.
unfoldable pub read_board : (ℕ → ℕ) → ℕ → Option ℕ
read_board board x = if leb x cells then some (board x) else none

-- The number of a cell with `get_direct_index` added to it, where that is not below 0.
unfoldable pub add_direct_index : ℕ → Direction → Option ℕ
add_direct_index x down = some (x + n)
add_direct_index x up = if ltb x n then none else some (x - n)
add_direct_index x right = some (x + 1)
add_direct_index x left = if x == 0 then none else some (x - 1)
add_direct_index x unnamed = some x

-- `true` for an illegal move, by what is in the cell that it leads to.
unfoldable pub illegal_snake_move : Direction → ℕ → Bool
illegal_snake_move unnamed content = true
illegal_snake_move _ content = not ((content == space) || (content == food))

-- The input that `get_snake_move` takes: the parity of a negative number is that of its size.
unfoldable pub is_move : ℤ → Bool
is_move (pos k) = (k % 2 == 0) && not (k == 0) && ltb k 10
is_move (negsuc k) = (k + 1) % 2 == 0

unfoldable pub direction_of : ℤ → Direction
direction_of (pos k) =
    if k == 6
    then right
    else if k == 4
    then left
    else if k == 8
    then up
    else if k == 2
    then down
    else unnamed
direction_of (negsuc k) = unnamed

unfoldable pub get_snake_move : List ℤ → Option (Direction × List ℤ)
unfolding is_move direction_of
get_snake_move [] = none
get_snake_move (k ∷ input) =
    let onward = get_snake_move input in if is_move k then some (direction_of k, input) else onward

-- The tests of `create_food` on a pair, and the write behind its loop.
unfoldable pub put_food : ℕ → (ℕ → ℕ) → ℤ → ℤ → Option (ℕ → ℕ)
put_food size board (pos row) (pos column) =
    if leb size row || leb size column
    then none
    else if not (board (cell row column) == space)
    then none
    else some (set_at board (cell row column) food)
put_food size board (pos row) (negsuc column) = none
put_food size board (negsuc row) column = none

-- The loop of `create_food`, with the column that it read last: the pairs are read until one is an empty
-- cell. Where the input ends behind a row, that column is taken again. `none` is a column that was never
-- read, or the loop that goes on without input.
unfoldable pub food_from : ℕ → (ℕ → ℕ) → Option ℤ → List ℤ → Option ((ℕ → ℕ) × List ℤ)
food_from size board before [] = none
food_from size board before (row ∷ []) = do
  column ← before
  placed ← put_food size board row column
  some (placed, [])
food_from size board before (row ∷ column ∷ input) =
    let onward = food_from size board (some column) input in
    elim (put_food size board row column) [ none ↦ onward | some placed ↦ some (placed, input) ]

unfoldable pub create_food : ℕ → (ℕ → ℕ) → List ℤ → Option ((ℕ → ℕ) × List ℤ)
create_food size board input = food_from size board none input

-- `checkSnakeLen`, from an index on; the fuel is what is left of the array.
unfoldable pub snake_len_from : ℕ → (ℕ → ℕ) → ℕ → Option ℕ
snake_len_from zero snake_hist length = none
snake_len_from (suc fuel) snake_hist length =
    let onward = snake_len_from fuel snake_hist (length + 1) in
    if snake_hist length == 0 then some length else onward

unfoldable pub check_snake_len : (ℕ → ℕ) → Option ℕ
unfolding snake_len_from
check_snake_len snake_hist = snake_len_from cells snake_hist 0

-- The loops that move the entries below an index up by one: the entry 0 stays.
unfoldable pub shift_up : ℕ → (ℕ → ℕ) → ℕ → ℕ
shift_up zero snake_hist = snake_hist
shift_up (suc i) snake_hist = shift_up i (set_at snake_hist (suc i) (snake_hist i))

-- `updateSnakeHist`: the board and the array.
unfoldable pub update_snake_hist : (ℕ → ℕ) → (ℕ → ℕ) → Direction → Bool → Option ((ℕ → ℕ) × (ℕ → ℕ))
unfolding shift_up
update_snake_hist board snake_hist move true = do
  length ← check_snake_len snake_hist
  first ← add_direct_index (shift_up length snake_hist 0) move
  some (board, set_at (shift_up length snake_hist) 0 first)
update_snake_hist board snake_hist move false = do
  length ← check_snake_len snake_hist
  first ← add_direct_index (shift_up (length - 1) snake_hist 0) move
  if length == 0
      then none
      else some (
        set_at board (snake_hist (length - 1)) space,
        set_at (shift_up (length - 1) snake_hist) 0 first,
      )

-- The loop of `drawMove` from an index on; the fuel is what is left of the array.
unfoldable pub draw_body : ℕ → ℕ → (ℕ → ℕ) → ℕ → (ℕ → ℕ) → Option (ℕ → ℕ)
draw_body zero i snake_hist snake_body board = none
draw_body (suc fuel) i snake_hist snake_body board =
    let onward =
      draw_body fuel (i + 1) snake_hist snake_body
        (set_at board (snake_hist i) (board snake_body)) in
    if snake_hist i == 0 then some (set_at board (snake_hist i) space) else onward

-- `drawMove`: the board and the new index of the head.
unfoldable pub draw_move : (ℕ → ℕ) → ℕ → (ℕ → ℕ) → Direction → Bool → Option ((ℕ → ℕ) × ℕ)
unfolding draw_body
draw_move board head_src snake_hist move eat_food = do
  head_dest ← add_direct_index head_src move
  let moved = set_at board head_dest (board head_src)
  drawn ←
      (if eat_food
        then some (set_at moved head_src (moved (snake_hist 2)))
        else draw_body (cells - 1) 1 snake_hist (snake_hist 2) moved)
  some (drawn, head_dest)
