-- ===== src/Avoidance/Tests.antt =====
-- Runs of the game, and its theorems at concrete boards.
use cs_bsc_technion.Base.{
  ◌>>=◌, ℕ, ◌+◌, ◌<◌, ◌≡◌, ◌↔◌, refl, true, false, some, List, [], ◌∷◌, if◌then◌else◌, ◌==◌, pos,
  arith, length,
}
use cs_bsc_technion.Avoidance.{
  scan_from, player_one_index, Board, Game, empty_cell, fill_board, fill_rows, fill_row, set_cell,
  player_turn, excute_turn, undo, check_if_row_legal, is_illegal, scan_check_sendforexcute, is_pair,
  counter, is_full, any_full, check_column, check_row, check_diagonal_1, check_diagonal_2,
  counter_2, check_for_win, winner, check_which_kind_of_win, rounds, startgame,
}
use cs_bsc_technion.Avoidance.Lines.{IsFullLine, check_column_iff, check_diagonal_2_corner}
use cs_bsc_technion.Avoidance.Turns.{excute_turns, Playable, undo-excute_turns}
use cs_bsc_technion.Avoidance.Plays.{Plays}

abbrev nothing_yet : Game
nothing_yet = record {
  board = λ i j. empty_cell;
  move_rows = λ i. 0;
  move_columns = λ i. 0;
  move_ptr = 0;
}

-- On a board of two by two the first player takes (1,1) and loses with (1,2), behind an illegal move.
first_loses :
    startgame 9 nothing_yet 2 (pos 1 ∷ pos 1 ∷ pos 1 ∷ pos 1 ∷ pos 2 ∷ pos 2 ∷ pos 1 ∷ pos 2 ∷ [])
    ≡ some (winner 2)
unfolding startgame fill_board fill_rows fill_row set_cell rounds check_for_win check_column
    scan_from check_row check_diagonal_1 check_diagonal_2 is_pair counter is_full any_full counter_2
    player_turn check_which_kind_of_win scan_check_sendforexcute is_illegal check_if_row_legal
    excute_turn
first_loses = refl

-- The second diagonal full of one symbol, and nothing else.
abbrev second_diagonal : Board
second_diagonal i j = if i + j == 2 then b'X' else empty_cell

not_found : check_for_win second_diagonal 3 ≡ false
unfolding check_for_win check_column check_row check_diagonal_1 check_diagonal_2 is_pair counter
    is_full any_full counter_2
not_found = refl

abbrev two_turns : List (ℕ × ℕ)
two_turns = (0, 0) ∷ (1, 1) ∷ []

two_turns-Playable : Playable nothing_yet two_turns
unfolding excute_turn set_cell
two_turns-Playable = (refl, (refl, tt))

undo-excute_turns_example :
    ((undo (excute_turns nothing_yet two_turns) (length two_turns)).board 1 1
      ≡ nothing_yet.board 1 1)
    × ((undo (excute_turns nothing_yet two_turns) (length two_turns)).move_ptr
        ≡ nothing_yet.move_ptr)
undo-excute_turns_example = undo-excute_turns nothing_yet two_turns 1 1 two_turns-Playable

check_column_iff_example :
    (check_column second_diagonal 3 ≡ true) ↔ ((i : ℕ) × (i < 3) × IsFullLine (second_diagonal i) 3)
check_column_iff_example = check_column_iff second_diagonal 3

check_diagonal_2_corner_example : check_diagonal_2 second_diagonal 3 ≡ false
check_diagonal_2_corner_example = check_diagonal_2_corner second_diagonal 3 (omega arith) refl

-- The input ends behind a row: the column of the refused move before it is taken again.
row_alone :
    ((scan_check_sendforexcute nothing_yet 2 (pos 3 ∷ pos 2 ∷ pos 1 ∷ [])) >>= λ p.
    some (p.0.board 0 1))
    ≡ some player_one_index
unfolding scan_check_sendforexcute scan_from is_illegal excute_turn set_cell
row_alone = refl
