-- ===== src/Snake/Carry.antt =====
-- A move that is carried out, with the food that comes after it, and a whole round.
use mathlib.Core.Path.{subst}
use cs_bsc_technion.Base.{
  ℕ, ◌+◌, ◌≤◌, ◌<◌, ◌≡◌, ◌≢◌, ◌⊎◌, refl, true, false, Bool, not, some, List, length, if◌then◌else◌,
  ◌==◌, arith, ap, sym, ◌∙◌, Bool-cases, inl, inr, ℤ, >>=-eq-some, eq_of_some,
}
use cs_bsc_technion.Snake.{
  Game, Player, Direction, cells, space, food, set_at, create_food, add_direct_index,
}
use cs_bsc_technion.Snake.Food.{create_food_lem}
use cs_bsc_technion.Snake.Turns.{
  snake_of, hist_of, write_move, goes_on, snake_eat_food, carry_out, set_steps_before,
}
use cs_bsc_technion.Snake.Draw.{has}
use cs_bsc_technion.Snake.Shown.{has-pos}
use cs_bsc_technion.Snake.Room.{length-apart}
use cs_bsc_technion.Snake.Both.{
  head_sign, body_sign, whole, IsPair, IsShown-fresh, IsShown-frame, moved_body, step_lem,
}
use cs_bsc_technion.Snake.Play.{set_body, apart_from, write_move-IsPair}

game_of : {g g' : Game} {rest rest' : List ℤ} → goes_on g rest ≡ goes_on g' rest' → g ≡ g'
game_of e = cc

-- A game with the same snakes, and a board that is the same where they are.
same_snakes-IsPair :
    (g g' : Game) (body : Player → List ℕ)
    → ((q : Player) → hist_of g' q ≡ hist_of g q)
    → ((q : Player) → (snake_of g' q).head_index ≡ (snake_of g q).head_index)
    → ((q : Player) (c : ℕ) → has c (whole g body q) ≡ true → g'.board c ≡ g.board c)
    → IsPair g body
    → IsPair g' body
same_snakes-IsPair g g' body hists heads same v = record {
  array = λ q. rw (hists q, heads q) (v.array q);
  shown = λ q. rw (heads q) (
      IsShown-frame g.board g'.board (head_sign q) (body_sign q) (snake_of g q).head_index (body q)
        (same q) (v.shown q));
  apart = rw (heads false, heads true) (v.apart);
  inside = λ q. rw (heads q) (v.inside q);
}

hist_of-set_steps_before :
    (g : Game) (p q : Player) (steps : ℤ) → hist_of (set_steps_before g p steps) q ≡ hist_of g q
hist_of-set_steps_before g false false steps = refl
hist_of-set_steps_before g false true steps = refl
hist_of-set_steps_before g true false steps = refl
hist_of-set_steps_before g true true steps = refl

pub head_of-set_steps_before :
    (g : Game) (p q : Player) (steps : ℤ)
    → (snake_of (set_steps_before g p steps) q).head_index ≡ (snake_of g q).head_index
head_of-set_steps_before g false false steps = refl
head_of-set_steps_before g false true steps = refl
head_of-set_steps_before g true false steps = refl
head_of-set_steps_before g true true steps = refl

pub board_of-set_steps_before :
    (g : Game) (p : Player) (steps : ℤ) → (set_steps_before g p steps).board ≡ g.board
board_of-set_steps_before g false steps = refl
board_of-set_steps_before g true steps = refl

pub set_steps_before-IsPair :
    (g : Game) (body : Player → List ℕ) (p : Player) (steps : ℤ)
    → IsPair g body
    → IsPair (set_steps_before g p steps) body
set_steps_before-IsPair g body p steps v =
    same_snakes-IsPair g (set_steps_before g p steps) body
      (λ q. hist_of-set_steps_before g p q steps) (λ q. head_of-set_steps_before g p q steps)
      (λ q c i. ap (λ (b : ℕ → ℕ). b c) (board_of-set_steps_before g p steps)) v

-- An empty cell has no sign of a snake.
empty-has :
    (g : Game) (body : Player → List ℕ) (q : Player) (x : ℕ)
    → IsPair g body
    → (g.board x ≡ space) ⊎ (g.board x ≡ food)
    → has x (whole g body q) ≡ false
empty-has g body q x v e =
    IsShown-fresh g.board (head_sign q) (body_sign q) _ (body q) x (v.shown q) (no_head q e)
      (no_body q e)
  where
    no_head : (q : Player) → (g.board x ≡ space) ⊎ (g.board x ≡ food) → g.board x ≢ head_sign q
    no_head false (inl e) h = omega (arith, e, h)
    no_head false (inr e) h = omega (arith, e, h)
    no_head true (inl e) h = omega (arith, e, h)
    no_head true (inr e) h = omega (arith, e, h)

    no_body : (q : Player) → (g.board x ≡ space) ⊎ (g.board x ≡ food) → g.board x ≢ body_sign q
    no_body false (inl e) h = omega (arith, e, h)
    no_body false (inr e) h = omega (arith, e, h)
    no_body true (inl e) h = omega (arith, e, h)
    no_body true (inr e) h = omega (arith, e, h)

pub food-IsPair :
    (g : Game) (body : Player → List ℕ) (p : Player) (steps : ℤ) (x : ℕ)
    → g.board x ≡ space
    → IsPair g body
    → IsPair (record (set_steps_before g p steps) { board = set_at g.board x food }) body
food-IsPair g body p steps x e v =
    same_snakes-IsPair g (record (set_steps_before g p steps) { board = set_at g.board x food })
      body (λ q. hists p q) (λ q. heads p q)
      (λ q c i. elim (Bool-cases (c == x)) [
        | inl here ↦
            let e' : c ≡ x = ground (arith, here) in
            let out : has c (whole g body q) ≡ false =
              ap (λ (y : ℕ). has y (whole g body q)) e' ∙ empty-has g body q x v (inl e) in
            absurd (ground (arith, out, i))
        | inr other ↦ rw other refl
      ])
      v
  where
    hists :
        (p q : Player)
        → hist_of (record (set_steps_before g p steps) { board = set_at g.board x food }) q
          ≡ hist_of g q
    hists false false = refl
    hists false true = refl
    hists true false = refl
    hists true true = refl

    heads :
        (p q : Player)
        → (snake_of
            (record (set_steps_before g p steps) { board = set_at g.board x food })
            q).head_index
          ≡ (snake_of g q).head_index
    heads false false = refl
    heads false true = refl
    heads true false = refl
    heads true true = refl

-- A snake that can grow: with the other one there is always room in its array.
-- The cells of both snakes are on the board together.
pub both_fit :
    (g : Game) (body : Player → List ℕ) (player : Player)
    → IsPair g body
    → length (whole g body player) + length (whole g body (not player)) ≤ cells
both_fit g body player v =
    length-apart cells (whole g body player) (whole g body (not player)) (v.shown player).distinct
      (v.shown (not player)).distinct
      (λ c i. (has-pos c (whole g body player) (v.array player).positive i, v.inside player c i))
      (λ c i. (
        has-pos c (whole g body (not player)) (v.array (not player)).positive i,
        v.inside (not player) c i,
      ))
      (λ c i. far c i)
  where
    far : (c : ℕ) → has c (whole g body player) ≡ true → has c (whole g body (not player)) ≡ false
    far c i = elim (Bool-cases (has c (whole g body (not player)))) [
      | inl both ↦ absurd (ground (arith, apart_from player c v both, i))
      | inr out ↦ out
    ]

room_left :
    (g : Game) (body : Player → List ℕ) (player : Player)
    → IsPair g body
    → length (body player) + 2 < cells
room_left g body player v = omega (arith, both_fit g body player v, (v.shown (not player)).long)

head_kept :
    (p q : Player) (g : Game) (steps : ℤ) (board : ℕ → ℕ)
    → (snake_of (record (set_steps_before g p steps) { board = board }) q).head_index
      ≡ (snake_of g q).head_index
head_kept false false g steps board = refl
head_kept false true g steps board = refl
head_kept true false g steps board = refl
head_kept true true g steps board = refl

head_written :
    (p : Player) (g : Game) (board snake_hist : ℕ → ℕ) (d : ℕ)
    → (snake_of (write_move g p board d snake_hist) p).head_index ≡ d
head_written false g board snake_hist d = refl
head_written true g board snake_hist d = refl

-- Two snakes, with the head of the player in the cell `d`.
abbrev pub IsPairAt : Game → (Player → List ℕ) → Player → ℕ → Type 0
IsPairAt g body player d = ((snake_of g player).head_index ≡ d) × IsPair g body

snake_eat_food-IsPair :
    (player : Player) (max_steps : ℤ) (size : ℕ) (g : Game) (input : List ℤ)
    (body : Player → List ℕ) (d : ℕ) {g' : Game} {rest : List ℤ}
    → IsPairAt g body player d
    → snake_eat_food player max_steps size g input ≡ some (goes_on g' rest)
    → IsPairAt g' body player d
unfolding snake_eat_food
snake_eat_food-IsPair player max_steps size g input body d {g'} {rest} v e =
    let ((board, rest'), placed, out) = >>=-eq-some (create_food size g.board input) _ e in
    let (x, empty, written) = create_food_lem size g.board input placed in
    let same : record (set_steps_before g player max_steps) { board = set_at g.board x food } ≡ g' =
      ap (λ (b : ℕ → ℕ). record (set_steps_before g player max_steps) { board = b }) (sym written)
      ∙ game_of (eq_of_some out) in
    subst (λ (h : Game). IsPairAt h body player d) same
      (
        head_kept player player g max_steps (set_at g.board x food) ∙ v.0,
        food-IsPair g body player max_steps x empty v.1,
      )

-- A move to an empty cell or to food that is carried out.
pub carry_out-IsPair :
    (player : Player) (move : Direction) (size : ℕ) (max_steps : ℤ) (eat_food : Bool) (g : Game)
    (input : List ℤ) (body : Player → List ℕ) (d : ℕ) {g' : Game} {rest : List ℤ}
    → IsPair g body
    → add_direct_index (snake_of g player).head_index move ≡ some d
    → 1 ≤ d
    → d ≤ cells
    → (g.board d ≡ space) ⊎ (g.board d ≡ food)
    → carry_out player move size max_steps eat_food g input ≡ some (goes_on g' rest)
    → IsPairAt g'
        (set_body body player (moved_body eat_food (snake_of g player).head_index (body player)))
        player
        d
unfolding carry_out
carry_out-IsPair player move size max_steps eat_food g input body d {g'} {rest} v goes p low free
      e =
    let (board1, snake_hist, board', out, drawn, step) =
      step_lem g.board (hist_of g player) (head_sign player) (body_sign player)
        (snake_of g player).head_index (body player) move d eat_food (v.array player)
        (v.shown player) goes p (empty-has g body player d v free) (room_left g body player v) in
    let v' =
      write_move-IsPair g body v d board' snake_hist
        (moved_body eat_food (snake_of g player).head_index (body player)) player low
        (empty-has g body (not player) d v free) step in
    behind eat_food (write_move g player board' d snake_hist) _
      (head_written player g board' snake_hist d, v') (rw (out, drawn) at e)
  where
    behind :
        (eat : Bool) (g1 : Game) (bodies : Player → List ℕ)
        → IsPairAt g1 bodies player d
        → (if eat then snake_eat_food player max_steps size g1 input else some (goes_on g1 input))
          ≡ some (goes_on g' rest)
        → IsPairAt g' bodies player d
    behind true g1 bodies v' e = snake_eat_food-IsPair player max_steps size g1 input bodies d v' e
    behind false g1 bodies v' e =
        subst (λ (h : Game). IsPairAt h bodies player d) (game_of (eq_of_some e)) v'
