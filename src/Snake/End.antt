-- ===== src/Snake/End.antt =====
-- The rounds of startGame without fuel, and how much of the input they leave.
use mathlib.Core.Path.{subst}
use cs_bsc_technion.Base.{
  ℕ, zero, suc, ◌≤◌, ◌<◌, ◌≡◌, true, false, Bool, not, some, List, [], ◌∷◌, length, if◌then◌else◌,
  ◌==◌, arith, ap, Bool-cases, Option-cases, inl, inr, Option, none, ℤ, pos, >>=-eq-some,
  eq_of_some, eqb_ℤ,
}
use cs_bsc_technion.Snake.{
  Game, Player, Direction, food, update_snake_hist, draw_move, create_food, add_direct_index,
  read_board, illegal_snake_move, is_board_full, get_snake_move, is_move, direction_of,
}
use cs_bsc_technion.Snake.Food.{create_food-length}
use cs_bsc_technion.Snake.Turns.{
  snake_of, hist_of, write_move, Outcome, over, goes_on, snake_eat_food, carry_out, snake_moves,
  play, illegal_move, rounds, Finish, full_board,
}

get_snake_move-length :
    (input : List ℤ) {move : Direction} {rest : List ℤ}
    → get_snake_move input ≡ some (move, rest)
    → length rest < length input
unfolding get_snake_move
get_snake_move-length [] e = cc
get_snake_move-length (k ∷ input) {move} {rest} e = elim (Bool-cases (is_move k)) [
  | inl good ↦
      let same : ◌≡◌ {A = Direction × List ℤ} (direction_of k, input) (move, rest) =
        eq_of_some (rw good at e) in
      omega (arith, ap (λ (p : Direction × List ℤ). length p.1) same)
  | inr bad ↦ omega (arith, get_snake_move-length input {move = move} {rest = rest} (rw bad at e))
]

-- A round leaves no more input than it finds.
abbrev Shorter : List ℤ → Outcome → Type 0
Shorter input (over finish) = Unit
Shorter input (goes_on g rest) = length rest ≤ length input

snake_eat_food-Shorter :
    (p : Player) (max_steps : ℤ) (size : ℕ) (g : Game) (input : List ℤ) {o : Outcome}
    → snake_eat_food p max_steps size g input ≡ some o
    → Shorter input o
unfolding snake_eat_food
snake_eat_food-Shorter p max_steps size g input e =
    let ((board, rest), placed, out) = >>=-eq-some (create_food size g.board input) _ e in
    subst (Shorter input) (eq_of_some out)
      (omega (arith, create_food-length size g.board input {board' = board} {rest = rest} placed))

carry_out-Shorter :
    (p : Player) (move : Direction) (size : ℕ) (max_steps : ℤ) (eat : Bool) (g : Game)
    (input : List ℤ) {o : Outcome}
    → carry_out p move size max_steps eat g input ≡ some o
    → Shorter input o
unfolding carry_out
carry_out-Shorter p move size max_steps eat g input {o} e =
    let ((board, f), updated, e1) =
      >>=-eq-some (update_snake_hist g.board (hist_of g p) move eat) _ e in
    let ((drawn, h), shown, e2) =
      >>=-eq-some (draw_move board (snake_of g p).head_index f move eat) _ e1 in
    behind eat (write_move g p drawn h f) e2
  where
    behind :
        (eat : Bool) (g1 : Game)
        → (if eat then snake_eat_food p max_steps size g1 input else some (goes_on g1 input))
          ≡ some o
        → Shorter input o
    behind true g1 e = snake_eat_food-Shorter p max_steps size g1 input e
    behind false g1 e = subst (Shorter input) (eq_of_some e) (omega arith)

snake_moves-Shorter :
    (p : Player) (move : Direction) (size : ℕ) (max_steps : ℤ) (g : Game) (input : List ℤ)
    {o : Outcome}
    → snake_moves p move size max_steps g input ≡ some o
    → Shorter input o
unfolding snake_moves
snake_moves-Shorter p move size max_steps g input {o} e =
    let (d, goes, e1) = >>=-eq-some (add_direct_index (snake_of g p).head_index move) _ e in
    let (content, there, e2) = >>=-eq-some (read_board g.board d) _ e1 in legal content e2
  where
    legal :
        (content : ℕ)
        → (if illegal_snake_move move content
            then some (over (illegal_move p))
            else carry_out p move size max_steps (content == food) g input)
          ≡ some o
        → Shorter input o
    legal content e = elim (Bool-cases (illegal_snake_move move content)) [
      | inl bad ↦ subst (Shorter input) (eq_of_some (rw bad at e)) tt
      | inr good ↦ carry_out-Shorter p move size max_steps (content == food) g input (rw good at e)
    ]

play-Shorter :
    (p : Player) (move : Direction) (size : ℕ) (max_steps : ℤ) (g : Game) (input : List ℤ)
    {o : Outcome}
    → play p move size max_steps g input ≡ some o
    → Shorter input o
unfolding play
play-Shorter p move size max_steps g input e =
    elim (Bool-cases (eqb_ℤ (snake_of g p).number_of_steps (pos 0))) [
      | inl hungry ↦ subst (Shorter input) (eq_of_some (rw hungry at e)) tt
      | inr fed ↦ snake_moves-Shorter p move size max_steps _ input (rw fed at e)
    ]

-- The rounds of `startGame` from a turn on, with no bound on their number: the board is full, a round
-- ends the game, or it goes on with the other player; it stops where the input has no more move, and
-- where a round reads or writes behind an array.
pub data Played (size : ℕ) (max_steps : ℤ) : Player → Game → List ℤ → Option Finish → Type 0 where
  packed :
      (player : Player) (g : Game) (input : List ℤ)
      → is_board_full size g.board ≡ true
      → Played size max_steps player g input (some full_board)
  finished :
      (player : Player) (g : Game) (input : List ℤ) (move : Direction) (rest : List ℤ)
      (finish : Finish)
      → is_board_full size g.board ≡ false
      → get_snake_move input ≡ some (move, rest)
      → play player move size max_steps g rest ≡ some (over finish)
      → Played size max_steps player g input (some finish)
  passed_on :
      (player : Player) (g : Game) (input : List ℤ) (move : Direction) (rest : List ℤ) (g' : Game)
      (rest' : List ℤ) (o : Option Finish)
      → is_board_full size g.board ≡ false
      → get_snake_move input ≡ some (move, rest)
      → play player move size max_steps g rest ≡ some (goes_on g' rest')
      → Played size max_steps (not player) g' rest' o
      → Played size max_steps player g input o
  left_alone :
      (player : Player) (g : Game) (input : List ℤ)
      → is_board_full size g.board ≡ false
      → get_snake_move input ≡ none
      → Played size max_steps player g input none
  off_array :
      (player : Player) (g : Game) (input : List ℤ) (move : Direction) (rest : List ℤ)
      → is_board_full size g.board ≡ false
      → get_snake_move input ≡ some (move, rest)
      → play player move size max_steps g rest ≡ none
      → Played size max_steps player g input none

-- On fuel above the length of the input the loop of `startGame` gives the result of its rounds without
-- a bound on their number.
pub rounds-Played :
    (fuel : ℕ) (player : Player) (size : ℕ) (max_steps : ℤ) (g : Game) (input : List ℤ)
    → length input < fuel
    → Played size max_steps player g input (rounds fuel player size max_steps g input)
unfolding rounds
rounds-Played zero player size max_steps g input enough = absurd (omega arith)
rounds-Played (suc fuel) player size max_steps g input enough =
    elim (Bool-cases (is_board_full size g.board)) [
      | inl full ↦ rw (full, rounds) (packed player g input full)
      | inr room ↦ elim (Option-cases (get_snake_move input)) [
        | inl ended ↦ rw (room, ended, rounds) (left_alone player g input room ended)
        | inr ((move, rest), got) ↦ elim (Option-cases (play player move size max_steps g rest)) [
          | inl faulty ↦
              rw (room, got, faulty, rounds) (off_array player g input move rest room got faulty)
          | inr (over finish, played) ↦
              rw (room, got, played, rounds)
                (finished player g input move rest finish room got played)
          | inr (goes_on g' rest', played) ↦
              let less : length rest < length input =
                get_snake_move-length input {move = move} {rest = rest} got in
              let shorter : length rest' ≤ length rest =
                play-Shorter player move size max_steps g rest played in
              rw (room, got, played, rounds)
                (passed_on player g input move rest g' rest'
                  (rounds fuel (not player) size max_steps g' rest') room got played
                  (rounds-Played fuel (not player) size max_steps g' rest'
                    (omega (arith, less, shorter, enough))))
        ]
      ]
    ]
