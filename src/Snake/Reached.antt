-- ===== src/Snake/Reached.antt =====
-- The states that a game of Snake Game.c can come to.
use cs_bsc_technion.Base.{ℕ, ◌+◌, ◌≤◌, ◌<◌, ◌≡◌, ◌≢◌, true, false, not, some, List, length, ℤ, sym}
use mathlib.Core.Path.{subst}
use cs_bsc_technion.Snake.{
  Game, Player, Direction, n, cells, init_snakes, create_food, is_board_full, add_direct_index,
}
use cs_bsc_technion.Snake.Turns.{snake_of, goes_on, play}
use cs_bsc_technion.Snake.Both.{whole, IsPair}
use cs_bsc_technion.Snake.Food.{create_food_lem}
use cs_bsc_technion.Snake.Carry.{food-IsPair, both_fit}
use cs_bsc_technion.Snake.Rounds.{first_bodies, init_snakes-IsPair, play-IsPair}

abbrev pub with_board : Game → (ℕ → ℕ) → Game
with_board g board = record g { board = board }

-- `main` and the loop of `startGame`, for any input: whose turn it is, and the game. No move leads to the
-- cell in front of the board.
pub data Reached (size : ℕ) (max_steps : ℤ) : Player → Game → Type 0 where
  opens :
      (board : ℕ → ℕ) (input rest : List ℤ)
      → create_food size (init_snakes size max_steps).board input ≡ some (board, rest)
      → Reached size max_steps false (with_board (init_snakes size max_steps) board)
  plays :
      (player : Player) (move : Direction) (g g' : Game) (input rest : List ℤ)
      → Reached size max_steps player g
      → is_board_full size g.board ≡ false
      → add_direct_index (snake_of g player).head_index move ≢ some 0
      → play player move size max_steps g input ≡ some (goes_on g' rest)
      → Reached size max_steps (not player) g'

begin-IsPair :
    (size : ℕ) (max_steps : ℤ) (board : ℕ → ℕ) (input rest : List ℤ)
    → 3 < size
    → size ≤ n
    → create_food size (init_snakes size max_steps).board input ≡ some (board, rest)
    → IsPair (with_board (init_snakes size max_steps) board) (first_bodies size)
begin-IsPair size max_steps board input rest low high e =
    let g = init_snakes size max_steps in
    let (x, empty, written) = create_food_lem size g.board input e in
    subst (λ (b : ℕ → ℕ). IsPair (with_board g b) (first_bodies size)) (sym written)
      (food-IsPair g (first_bodies size) false g.stray_steps x empty
        (init_snakes-IsPair size max_steps low high))

snakes_kept :
    {size : ℕ} {max_steps : ℤ} {player : Player} {g : Game}
    → 3 < size
    → size ≤ n
    → Reached size max_steps player g
    → (body : Player → List ℕ) × IsPair g body
snakes_kept {size} {max_steps} low high (opens board input rest e) =
    (first_bodies size, begin-IsPair size max_steps board input rest low high e)
snakes_kept {size} {max_steps} low high (plays player move g g' input rest r room inside e) =
    let (body, v) = snakes_kept low high r in
    let (d, goes, moved) = play-IsPair player move size max_steps g input body v inside e in
    (_, moved.1)

-- On a board of a size that `askBoradSize` accepts, in each state of a game in which no move has led to the
-- cell in front of the board, whatever the input: each of the two arrays holds a snake from its head on,
-- the board shows the cells of both in their signs, the snakes are apart, and together they have no more
-- cells than the largest board, so that no array is full.
pub Reached-IsPair :
    {size : ℕ} {max_steps : ℤ} {player : Player} {g : Game}
    → 3 < size
    → size ≤ n
    → Reached size max_steps player g
    → (body : Player → List ℕ) × IsPair g body
      × (length (whole g body false) + length (whole g body true) ≤ cells)
Reached-IsPair {g} low high r =
    let (body, v) = snakes_kept low high r in (body, v, both_fit g body false v)
