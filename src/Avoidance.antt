-- ===== src/Avoidance.antt =====
-- The tic-tac-toe of "C - level1 BuiltUp/X_O game with different rules/hw3q1.c", in which whoever
-- completes a line loses. The board and the two rows of `moves` are functions of the indices; the
-- input is the list of the numbers that `scanf` reads, and the output is left out.
pub mod Lines
pub mod Turns
pub mod Plays
mod Tests
use cs_bsc_technion.Base.{
  ℕ, zero, suc, ◌+◌, ◌-◌, ◌*◌, ◌%◌, Bool, true, false, ◌&&◌, ◌||◌, not, Option, none, some, List,
  [], ◌∷◌, if◌then◌else◌, ltb, leb, ◌==◌, ℤ, pos, negsuc, ltb_ℤ, leb_ℤ, pos_part, neg_part,
}

abbrev pub empty_cell : ℕ
empty_cell = b'_'

abbrev pub player_one_index : ℕ
player_one_index = b'X'

abbrev pub player_two_index : ℕ
player_two_index = b'O'

abbrev pub max_moves : ℕ
max_moves = 121

abbrev pub Board : Type 0
Board = ℕ → ℕ → ℕ

-- The variables of `main`.
pub record Game : Type 0 where
  pub board : Board
  pub move_rows : ℕ → ℕ
  pub move_columns : ℕ → ℕ
  pub move_ptr : ℕ

unfoldable pub set_cell : Board → ℕ → ℕ → ℕ → Board
set_cell board row column c i j = if i == row && j == column then c else board i j

-- `FillBoard`: the rows below `rows`, each by its inner loop.
unfoldable pub fill_row : Board → ℕ → ℕ → Board
fill_row board i zero = board
fill_row board i (suc j) = set_cell (fill_row board i j) i j empty_cell

unfoldable pub fill_rows : Board → ℕ → ℕ → Board
fill_rows board boardsize zero = board
fill_rows board boardsize (suc i) = fill_row (fill_rows board boardsize i) i boardsize

unfoldable pub fill_board : Board → ℕ → Board
fill_board board boardsize = fill_rows board boardsize boardsize

-- `playerTurn`.
unfoldable pub player_turn : ℕ → ℕ
player_turn move_ptr = if move_ptr % 2 == 0 then 1 else 2

-- `excute_turn` at the indices `row-1` and `column-1`.
unfoldable pub excute_turn : Game → ℕ → ℕ → Game
excute_turn g row column = record {
  board =
      set_cell g.board row column
        (if g.move_ptr % 2 == 0 then player_one_index else player_two_index);
  move_rows = λ i. if i == g.move_ptr then row else g.move_rows i;
  move_columns = λ i. if i == g.move_ptr then column else g.move_columns i;
  move_ptr = g.move_ptr + 1;
}

-- The loop of `undo` over its first `steps` rounds.
unfoldable pub undo_cells : Game → ℕ → Board
undo_cells g zero = g.board
undo_cells g (suc i) =
    set_cell (undo_cells g i) (g.move_rows (g.move_ptr - i - 1))
      (g.move_columns (g.move_ptr - i - 1)) empty_cell

-- `undo` of `steps` moves, the number read without its sign.
unfoldable pub undo : Game → ℕ → Game
undo g steps = record g { board = undo_cells g steps; move_ptr = g.move_ptr - steps }

-- `Check_if_row_legal` for a negative number.
unfoldable pub check_if_row_legal : ℕ → ℤ → Bool
check_if_row_legal move_ptr row =
    not (ltb_ℤ row (pos 1) && neg_part row % 2 == 0 || ltb move_ptr (neg_part row))

-- The condition of an illegal move.
unfoldable pub is_illegal : Game → ℕ → ℤ → ℤ → Bool
is_illegal g boardsize row column =
    ltb_ℤ column (pos 1)
    || ltb_ℤ (pos boardsize) column
    || ltb_ℤ row (pos 1)
    || ltb_ℤ (pos boardsize) row
    || not (g.board (pos_part row - 1) (pos_part column - 1) == empty_cell)

-- The loop of `scan_check_sendforexcute`, with the column that it read last, and the input that is left.
-- Where the input ends behind a row, that column is taken again. `none` is the loop that goes on without
-- input, with a move that is not legal.
unfoldable pub scan_from : Game → ℕ → ℤ → List ℤ → Option (Game × List ℤ)
scan_from g boardsize before [] = none
scan_from g boardsize before (row ∷ []) =
    if ltb_ℤ row (pos 0)
    then (if check_if_row_legal g.move_ptr row then some (undo g (neg_part row), []) else none)
    else if is_illegal g boardsize row before
    then none
    else some (excute_turn g (pos_part row - 1) (pos_part before - 1), [])
scan_from g boardsize before (row ∷ column ∷ input) =
    let again = scan_from g boardsize before (column ∷ input) in
    let anew = scan_from g boardsize column input in
    if ltb_ℤ row (pos 0)
    then (if check_if_row_legal g.move_ptr row
        then some (undo g (neg_part row), column ∷ input)
        else again)
    else if is_illegal g boardsize row column
    then anew
    else some (excute_turn g (pos_part row - 1) (pos_part column - 1), input)

unfoldable pub scan_check_sendforexcute : Game → ℕ → List ℤ → Option (Game × List ℤ)
scan_check_sendforexcute g boardsize input = scan_from g boardsize (pos 0) input

-- Two neighbours with the same symbol.
unfoldable pub is_pair : ℕ → ℕ → Bool
is_pair a b = not (a == empty_cell) && not (b == empty_cell) && (a == b)

-- The inner loops that count pairs, up to the index `last`, along the cells of a line.
unfoldable pub counter : (ℕ → ℕ) → ℕ → ℕ
counter line zero = 0
counter line (suc last) =
    (if is_pair (line last) (line (suc last)) then suc (counter line last) else counter line last)

-- The test behind the inner loop.
unfoldable pub is_full : (ℕ → ℕ) → ℕ → Bool
is_full line size = counter line (size - 1) + 1 == size && not (size == 1)

-- The outer loops, over the first `lines` lines.
unfoldable pub any_full : (ℕ → ℕ → ℕ) → ℕ → ℕ → Bool
any_full line size zero = false
any_full line size (suc i) = any_full line size i || is_full (line i) size

unfoldable pub check_column : Board → ℕ → Bool
check_column board size = any_full board size size

unfoldable pub check_row : Board → ℕ → Bool
check_row board size = any_full (λ j i. board i j) size size

unfoldable pub check_diagonal_1 : Board → ℕ → Bool
check_diagonal_1 board size = is_full (λ i. board i i) size

-- The loop of `check_diagonal_2`, whose condition tests `board[i][i]` in place of `board[i][j]`.
unfoldable pub counter_2 : Board → ℕ → ℕ → ℕ
counter_2 board size zero = 0
counter_2 board size (suc j) =
    let i : ℕ = size - 2 - j in
    if board i (suc j) == board (i + 1) j
      && not (board i i == empty_cell)
      && not (board (i + 1) j == empty_cell)
    then suc (counter_2 board size j)
    else counter_2 board size j

unfoldable pub check_diagonal_2 : Board → ℕ → Bool
check_diagonal_2 board size = counter_2 board size (size - 1) + 1 == size && not (size == 1)

unfoldable pub check_for_win : Board → ℕ → Bool
check_for_win board size =
    check_column board size
    || check_row board size
    || check_diagonal_1 board size
    || check_diagonal_2 board size

-- What `check_which_kind_of_win` announces.
pub data Ending : Type 0 where
  tie : Ending
  winner : ℕ → Ending
  nothing : Ending

unfoldable pub check_which_kind_of_win : ℕ → ℕ → Ending
check_which_kind_of_win move_ptr boardsize =
    if move_ptr == boardsize * boardsize && not (boardsize == 1)
    then tie
    else if ltb move_ptr max_moves
    then winner (player_turn move_ptr)
    else nothing

-- The loop of `startgame`, on fuel; each round reads a number at least.
unfoldable pub rounds : ℕ → Game → ℕ → List ℤ → Option Ending
rounds zero g size input = none
rounds (suc fuel) g size input =
    elim (not (check_for_win g.board size) && ltb g.move_ptr (size * size)) [
      | false ↦ some (check_which_kind_of_win g.move_ptr size)
      | true ↦ elim (scan_check_sendforexcute g size input) [
        | none ↦ none
        | some (g', input') ↦ rounds fuel g' size input'
      ]
    ]

unfoldable pub startgame : ℕ → Game → ℕ → List ℤ → Option Ending
startgame fuel g size input = rounds fuel (record g { board = fill_board g.board size }) size input
