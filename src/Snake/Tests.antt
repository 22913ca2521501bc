-- ===== src/Snake/Tests.antt =====
-- Runs of the snake game, and its theorems at concrete inputs.
use cs_bsc_technion.Base.{
  ◌≡◌, ◌≢◌, refl, true, some, Option, List, [], ◌∷◌, arith, ℤ, pos, ◌-ℤ◌, ◌>>=◌, false, ◌+◌, ◌≤◌,
  length, ℕ,
}
use cs_bsc_technion.Snake.{
  cells, Game, Player, Direction, right, left, up, down, init_snakes, add_direct_index, cell, food,
  set_at, get_snake_move, create_food, check_snake_len, is_board_full, read_board,
  illegal_snake_move, update_snake_hist, draw_move, direction_of, draw_body, fill_columns,
  fill_rows, init_board, is_move, row_full, rows_full, shift_up, snake_len_from,
}
use cs_bsc_technion.Snake.Turns.{
  Outcome, goes_on, illegal_move, food_lack, play, rounds, main, snake_of, ask_board_size,
  ask_max_steps, snake_moves, carry_out, snake_eat_food,
}
use cs_bsc_technion.Snake.Both.{whole, IsPair}
use cs_bsc_technion.Snake.Rounds.{Moved, play-IsPair, first_bodies, init_snakes-IsPair}
use cs_bsc_technion.Snake.Steps.{main-ne-food_lack}
use cs_bsc_technion.Snake.Reached.{with_board, opens, plays, Reached, Reached-IsPair}

-- A board of 4 rows, 5 steps without food, food at (1, 1), and moves: PERCENT goes down and right,
-- which is food, SHTRODEL goes up twice.
abbrev moves : List ℤ
moves = pos 4 ∷ pos 5 ∷ pos 1 ∷ pos 1 ∷ pos 2 ∷ pos 8 ∷ pos 6 ∷ pos 3 ∷ pos 3 ∷ pos 8 ∷ []

abbrev leaves_the_board : List ℤ
leaves_the_board = pos 4 ∷ pos 5 ∷ pos 1 ∷ pos 1 ∷ pos 4 ∷ []

left_of_the_corner : main 9 leaves_the_board ≡ some (illegal_move false)
unfolding main ask_board_size ask_max_steps create_food init_snakes rounds
    cs_bsc_technion.Snake.food_from cs_bsc_technion.Snake.put_food
    cs_bsc_technion.Snake.is_board_full get_snake_move play snake_moves add_direct_index
    cs_bsc_technion.Snake.read_board cs_bsc_technion.Snake.illegal_snake_move
left_of_the_corner = refl

-- SHTRODEL comes to the cell below PERCENT's and may not go there.
runs_into_the_other : main 20 moves ≡ some (illegal_move true)
unfolding main ask_board_size ask_max_steps create_food init_snakes rounds is_board_full
    cs_bsc_technion.Snake.food_from cs_bsc_technion.Snake.put_food get_snake_move play snake_moves
    add_direct_index read_board illegal_snake_move carry_out update_snake_hist check_snake_len
    draw_move ◌-ℤ◌ direction_of draw_body fill_columns fill_rows init_board is_move row_full
    rows_full shift_up snake_eat_food snake_len_from
runs_into_the_other = refl

-- With one step PERCENT is out of food when SHTRODEL has moved once.
percent_starves :
    main 20 (pos 4 ∷ pos 1 ∷ pos 1 ∷ pos 2 ∷ pos 2 ∷ pos 8 ∷ pos 2 ∷ []) ≡ some (food_lack false)
unfolding main ask_board_size ask_max_steps create_food init_snakes rounds is_board_full
    cs_bsc_technion.Snake.food_from cs_bsc_technion.Snake.put_food get_snake_move play snake_moves
    add_direct_index read_board illegal_snake_move carry_out update_snake_hist check_snake_len
    draw_move ◌-ℤ◌ direction_of draw_body fill_columns fill_rows init_board is_move row_full
    rows_full shift_up snake_eat_food snake_len_from
percent_starves = refl

wrong_moves_skipped : get_snake_move (pos 3 ∷ pos 10 ∷ pos 0 ∷ pos 8 ∷ []) ≡ some (up, [])
unfolding get_snake_move
wrong_moves_skipped = refl

abbrev small : Game
small = init_snakes 4 (pos 5)

init_snakes-IsPair_example : IsPair small (first_bodies 4)
init_snakes-IsPair_example = init_snakes-IsPair 4 (pos 5) (omega arith) (omega arith)

-- The game behind a round.
abbrev game_after : Option Outcome → Game
game_after (some (goes_on g rest)) = g
game_after _ = small

abbrev first_round : Option Outcome
first_round = play false down 4 (pos 5) small []

first_round-goes_on : first_round ≡ some (goes_on (game_after first_round) [])
unfolding play init_snakes snake_moves add_direct_index read_board illegal_snake_move carry_out
    update_snake_hist check_snake_len draw_move
first_round-goes_on = refl

not_the_front : add_direct_index (snake_of small false).head_index down ≢ some 0
unfolding add_direct_index init_snakes
not_the_front e = ground arith

play-IsPair_example : Moved small (first_bodies 4) false down (game_after first_round)
play-IsPair_example =
    play-IsPair false down 4 (pos 5) small [] (first_bodies 4)
      (init_snakes-IsPair 4 (pos 5) (omega arith) (omega arith)) not_the_front first_round-goes_on

main-ne-food_lack_example : main 20 moves ≢ some (food_lack true)
main-ne-food_lack_example = main-ne-food_lack 20 moves

food_placed :
    create_food 4 small.board (pos 1 ∷ pos 1 ∷ []) ≡ some (set_at small.board (cell 1 1) food, [])
unfolding create_food cs_bsc_technion.Snake.food_from cs_bsc_technion.Snake.put_food init_snakes
food_placed = refl

-- The input ends behind a row: the column that was read before it is taken again.
column_kept :
    (create_food 4 small.board (pos 0 ∷ pos 1 ∷ pos 2 ∷ []) >>= λ p. some (p.0 (cell 2 1)))
    ≡ some food
unfolding create_food cs_bsc_technion.Snake.food_from cs_bsc_technion.Snake.put_food init_snakes
column_kept = refl

abbrev fed : Game
fed = with_board small (set_at small.board (cell 1 1) food)

abbrev fed_round : Option Outcome
fed_round = play false down 4 (pos 5) fed []

fed_round-goes_on : fed_round ≡ some (goes_on (game_after fed_round) [])
unfolding play init_snakes snake_moves add_direct_index read_board illegal_snake_move carry_out
    update_snake_hist check_snake_len draw_move
fed_round-goes_on = refl

not_full : is_board_full 4 fed.board ≡ false
unfolding is_board_full init_snakes
not_full = refl

fed-Reached : Reached 4 (pos 5) true (game_after fed_round)
fed-Reached =
    plays false down fed (game_after fed_round) [] []
      (opens (set_at small.board (cell 1 1) food) (pos 1 ∷ pos 1 ∷ []) [] food_placed) not_full
      not_the_front fed_round-goes_on

Reached-IsPair_example :
    (body : Player → List ℕ) × IsPair (game_after fed_round) body
    × (length (whole (game_after fed_round) body false)
          + length (whole (game_after fed_round) body true)
        ≤ cells)
Reached-IsPair_example = Reached-IsPair (omega arith) (omega arith) fed-Reached
