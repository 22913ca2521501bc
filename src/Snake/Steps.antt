-- ===== src/Snake/Steps.antt =====
-- The steps that the snakes may still take without food.
use mathlib.Core.Path.{subst}
use cs_bsc_technion.Base.{
  ℕ, zero, suc, ◌≡◌, ◌≢◌, refl, true, false, Bool, not, some, List, [], ◌∷◌, if◌then◌else◌, ◌==◌,
  arith, sym, ◌∙◌, Bool-cases, Option-cases, inl, inr, ℤ, pos, >>=-eq-some, eq_of_some, ◌-ℤ◌, eqb_ℤ,
  ltb_ℤ, ◌≤ℤ◌,
}
use cs_bsc_technion.Snake.{
  Game, Player, Direction, food, update_snake_hist, draw_move, create_food, add_direct_index,
  read_board, illegal_snake_move, is_board_full, get_snake_move, init_snakes,
}
use cs_bsc_technion.Snake.Turns.{
  snake_of, hist_of, write_move, Outcome, over, goes_on, snake_eat_food, carry_out, snake_moves,
  play, set_steps_before, steps_before, illegal_move, food_lack, rounds, ask_board_size,
  ask_max_steps, main,
}

-- The steps of the second player.
abbrev pub shtrodel_steps : Game → ℤ
shtrodel_steps g = g.shtrodel.number_of_steps

abbrev KeepsSteps : Game → Outcome → Type 0
KeepsSteps g (over finish) = finish ≢ food_lack true
KeepsSteps g (goes_on g' rest) = shtrodel_steps g' ≡ shtrodel_steps g

write_move-steps :
    (g : Game) (p : Player) (board : ℕ → ℕ) (h : ℕ) (f : ℕ → ℕ)
    → shtrodel_steps (write_move g p board h f) ≡ shtrodel_steps g
write_move-steps g false board h f = refl
write_move-steps g true board h f = refl

set_steps_before-steps :
    (g : Game) (p : Player) (steps : ℤ)
    → shtrodel_steps (set_steps_before g p steps) ≡ shtrodel_steps g
set_steps_before-steps g false steps = refl
set_steps_before-steps g true steps = refl

snake_eat_food-steps :
    (p : Player) (max_steps : ℤ) (size : ℕ) (g : Game) (input : List ℤ) {o : Outcome}
    → snake_eat_food p max_steps size g input ≡ some o
    → KeepsSteps g o
unfolding snake_eat_food
snake_eat_food-steps p max_steps size g input {o} e =
    let ((board, rest), placed, out) = >>=-eq-some (create_food size g.board input) _ e in
    subst (KeepsSteps g) (eq_of_some out) (by_player p board)
  where
    by_player :
        (p : Player) (board : ℕ → ℕ)
        → shtrodel_steps (record (set_steps_before g p max_steps) { board = board })
          ≡ shtrodel_steps g
    by_player false board = refl
    by_player true board = refl

KeepsSteps-trans :
    (g g' : Game) (o : Outcome)
    → shtrodel_steps g' ≡ shtrodel_steps g
    → KeepsSteps g' o
    → KeepsSteps g o
KeepsSteps-trans g g' (over finish) e k = k
KeepsSteps-trans g g' (goes_on h rest) e k = k ∙ e

carry_out-steps :
    (p : Player) (move : Direction) (size : ℕ) (max_steps : ℤ) (eat : Bool) (g : Game)
    (input : List ℤ) {o : Outcome}
    → carry_out p move size max_steps eat g input ≡ some o
    → KeepsSteps g o
unfolding carry_out
carry_out-steps p move size max_steps eat g input {o} e =
    let ((board, f), updated, e1) =
      >>=-eq-some (update_snake_hist g.board (hist_of g p) move eat) _ e in
    let ((drawn, h), shown, e2) =
      >>=-eq-some (draw_move board (snake_of g p).head_index f move eat) _ e1 in
    behind eat (write_move g p drawn h f) (write_move-steps g p drawn h f) e2
  where
    behind :
        (eat : Bool) (g1 : Game)
        → shtrodel_steps g1 ≡ shtrodel_steps g
        → (if eat then snake_eat_food p max_steps size g1 input else some (goes_on g1 input))
          ≡ some o
        → KeepsSteps g o
    behind true g1 same e =
        KeepsSteps-trans g g1 o same (snake_eat_food-steps p max_steps size g1 input e)
    behind false g1 same e = subst (KeepsSteps g) (eq_of_some e) same

snake_moves-steps :
    (p : Player) (move : Direction) (size : ℕ) (max_steps : ℤ) (g : Game) (input : List ℤ)
    {o : Outcome}
    → snake_moves p move size max_steps g input ≡ some o
    → KeepsSteps g o
unfolding snake_moves
snake_moves-steps p move size max_steps g input {o} e =
    let (d, goes, e1) = >>=-eq-some (add_direct_index (snake_of g p).head_index move) _ e in
    let (content, there, e2) = >>=-eq-some (read_board g.board d) _ e1 in legal content e2
  where
    legal :
        (content : ℕ)
        → (if illegal_snake_move move content
            then some (over (illegal_move p))
            else carry_out p move size max_steps (content == food) g input)
          ≡ some o
        → KeepsSteps g o
    legal content e = elim (Bool-cases (illegal_snake_move move content)) [
      | inl bad ↦ subst (KeepsSteps g) (eq_of_some (rw bad at e)) (λ h. cc)
      | inr good ↦ carry_out-steps p move size max_steps (content == food) g input (rw good at e)
    ]

-- A round leaves the steps of SHTRODEL as they are, and does not end for want of food of SHTRODEL
-- while they are not 0.
pub play-steps :
    (p : Player) (move : Direction) (size : ℕ) (max_steps : ℤ) (g : Game) (input : List ℤ)
    {o : Outcome}
    → pos 1 ≤ℤ shtrodel_steps g
    → play p move size max_steps g input ≡ some o
    → KeepsSteps g o
unfolding play
play-steps p move size max_steps g input {o} enough e =
    elim (Bool-cases (eqb_ℤ (snake_of g p).number_of_steps (pos 0))) [
      | inl hungry ↦ subst (KeepsSteps g) (eq_of_some (rw hungry at e)) (who p hungry)
      | inr fed ↦
          KeepsSteps-trans g (set_steps_before g p (steps_before g p -ℤ pos 1)) o
            (set_steps_before-steps g p (steps_before g p -ℤ pos 1))
            (snake_moves-steps p move size max_steps _ input (rw fed at e))
    ]
  where
    who :
        (p : Player)
        → eqb_ℤ (snake_of g p).number_of_steps (pos 0) ≡ true
        → food_lack p ≢ food_lack true
    who false hungry h = cc
    who true hungry h = ground (arith, hungry, enough)

rounds-steps :
    (fuel : ℕ) (p : Player) (size : ℕ) (max_steps : ℤ) (g : Game) (input : List ℤ)
    → pos 1 ≤ℤ shtrodel_steps g
    → rounds fuel p size max_steps g input ≢ some (food_lack true)
unfolding rounds
rounds-steps zero p size max_steps g input enough e = cc
rounds-steps (suc fuel) p size max_steps g input enough e =
    elim (Bool-cases (is_board_full size g.board)) [
      | inl packed ↦ absurd (ground (arith, packed, e))
      | inr open_board ↦ elim (Option-cases (get_snake_move input)) [
        | inl ended ↦ absurd (ground (arith, open_board, ended, e))
        | inr ((move, rest), got) ↦ elim (Option-cases (play p move size max_steps g rest)) [
          | inl faulty ↦ absurd (ground (arith, open_board, got, faulty, e))
          | inr (o, played) ↦
              outcome move rest o open_board got played
                (play-steps p move size max_steps g rest enough played)
                (λ g' rest'. rounds-steps fuel (not p) size max_steps g' rest')
        ]
      ]
    ]
  where
    outcome :
        (move : Direction) (rest : List ℤ) (o : Outcome)
        → is_board_full size g.board ≡ false
        → get_snake_move input ≡ some (move, rest)
        → play p move size max_steps g rest ≡ some o
        → KeepsSteps g o
        → ((g' : Game) (rest' : List ℤ)
            → pos 1 ≤ℤ shtrodel_steps g'
            → rounds fuel (not p) size max_steps g' rest' ≢ some (food_lack true))
        → ⊥
    outcome move rest (over finish) open_board got played k onward =
        k (eq_of_some (rw (open_board, got, played, rounds) at e))
    outcome move rest (goes_on g' rest') open_board got played k onward =
        onward g' rest' (subst (λ (s : ℤ). pos 1 ≤ℤ s) (sym k) enough)
          (rw (open_board, got, played, rounds) at e)

ask_max_steps-some :
    (input : List ℤ) {max_steps : ℤ} {rest : List ℤ}
    → ask_max_steps input ≡ some (max_steps, rest)
    → pos 1 ≤ℤ max_steps
unfolding ask_max_steps
ask_max_steps-some [] e = cc
ask_max_steps-some (k ∷ input) {max_steps} {rest} e = elim (Bool-cases (ltb_ℤ k (pos 1))) [
  | inl low ↦ ask_max_steps-some input (rw low at e)
  | inr enough ↦ ground (arith, enough, e)
]

-- Whatever is played, the game does not end because SHTRODEL has found no food: only the steps of PERCENT
-- and those in front of the array are ever counted down.
pub main-ne-food_lack : (fuel : ℕ) (input : List ℤ) → main fuel input ≢ some (food_lack true)
unfolding main init_snakes
main-ne-food_lack fuel input e =
    let ((size, rest), sized, e1) = >>=-eq-some (ask_board_size input) _ e in
    let ((max_steps, rest'), asked, e2) = >>=-eq-some (ask_max_steps rest) _ e1 in
    let ((board, rest''), placed, e3) =
      >>=-eq-some (create_food size (init_snakes size max_steps).board rest')
        (λ (f : (ℕ → ℕ) × List ℤ).
          rounds fuel false size max_steps (record (init_snakes size max_steps) { board = f.0 })
            f.1)
        e2 in
    rounds-steps fuel false size max_steps (record (init_snakes size max_steps) { board = board })
      rest'' (ask_max_steps-some rest asked) e3
