-- ===== src/Avoidance/Plays.antt =====
-- What the rounds of the game in hw3q1.c do, and that they end.
use cs_bsc_technion.Base.{
  ℕ, ◌*◌, ◌%◌, ◌≤◌, ◌<◌, ◌≡◌, ◌⊎◌, true, false, Option, none, some, List, length, ℤ,
}
use cs_bsc_technion.Avoidance.{
  Game, empty_cell, excute_turn, undo, scan_check_sendforexcute, check_for_win, Ending,
  check_which_kind_of_win,
}

-- A turn that is legal: an odd number of moves that were made is taken back, or an empty cell of the
-- board is marked.
pub data Turn (g : Game) (size : ℕ) : Game → Type 0 where
  taken_back : (k : ℕ) → k % 2 ≡ 1 → k ≤ g.move_ptr → Turn g size (undo g k)
  marked :
      (i j : ℕ) → i < size → j < size → g.board i j ≡ empty_cell → Turn g size (excute_turn g i j)

-- The game from a state and an input on, with no bound on its rounds: it ends at a line or with a
-- full board, or it stops at a turn that finds no legal move in the input.
pub data Plays (size : ℕ) : Game → List ℤ → Option Ending → Type 0 where
  ends :
      (g : Game) (input : List ℤ)
      → (check_for_win g.board size ≡ true) ⊎ (size * size ≤ g.move_ptr)
      → Plays size g input (some (check_which_kind_of_win g.move_ptr size))
  goes_on :
      (g : Game) (input : List ℤ) (g' : Game) (input' : List ℤ) (o : Option Ending)
      → check_for_win g.board size ≡ false
      → g.move_ptr < size * size
      → Turn g size g'
      → scan_check_sendforexcute g size input ≡ some (g', input')
      → Plays size g' input' o
      → Plays size g input o
  stops :
      (g : Game) (input : List ℤ)
      → check_for_win g.board size ≡ false
      → g.move_ptr < size * size
      → scan_check_sendforexcute g size input ≡ none
      → Plays size g input none

-- A legal turn, that read a number at least.
abbrev Reads : Game → ℕ → List ℤ → Game × List ℤ → Type 0
Reads g size input p = Turn g size p.0 × (length p.1 < length input)
