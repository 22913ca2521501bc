-- ===== src/Snake/Rounds.antt =====
-- The rounds of startGame, and the state that they begin with.
use mathlib.Core.Path.{subst}
use cs_bsc_technion.Base.{
  ℕ, zero, suc, ◌+◌, ◌-◌, ◌*◌, ◌≤◌, ◌<◌, ◌≡◌, ◌≢◌, ◌⊎◌, refl, true, false, not, some, List, [], ◌∷◌,
  if◌then◌else◌, ◌==◌, arith, ap, sym, ◌∙◌, ◌||◌, Bool-cases, inl, inr, ℤ, pos, >>=-eq-some, ◌-ℤ◌,
  eqb_ℤ,
}
use cs_bsc_technion.Snake.{
  Game, Player, Direction, unnamed, right, left, up, down, n, cells, space, food, three, init_board,
  init_snakes, add_direct_index, read_board, illegal_snake_move,
}
use cs_bsc_technion.Snake.Turns.{
  snake_of, hist_of, over, goes_on, carry_out, snake_moves, play, set_steps_before, steps_before,
  illegal_move,
}
use cs_bsc_technion.Snake.History.{IsArray, entry}
use cs_bsc_technion.Snake.Draw.{has}
use cs_bsc_technion.Snake.Shown.{IsShown}
use cs_bsc_technion.Snake.Both.{head_sign, body_sign, whole, IsPair, moved_body}
use cs_bsc_technion.Snake.Play.{set_body}
use cs_bsc_technion.Snake.Carry.{IsPairAt, carry_out-IsPair, set_steps_before-IsPair}

empty_or_food :
    (content : ℕ)
    → not ((content == space) || (content == food)) ≡ false
    → (content ≡ space) ⊎ (content ≡ food)
empty_or_food content e = elim (Bool-cases (content == space)) [
  | inl h ↦ inl (ground (arith, h))
  | inr h ↦ inr (ground (arith, h, e))
]

-- A legal move leads to an empty cell or to food.
legal_content :
    (move : Direction) (content : ℕ)
    → illegal_snake_move move content ≡ false
    → (content ≡ space) ⊎ (content ≡ food)
unfolding illegal_snake_move
legal_content unnamed content e = cc
legal_content right content e = empty_or_food content e
legal_content left content e = empty_or_food content e
legal_content up content e = empty_or_food content e
legal_content down content e = empty_or_food content e

read_board-some :
    (board : ℕ → ℕ) (x content : ℕ)
    → read_board board x ≡ some content
    → (x ≤ cells) × (board x ≡ content)
unfolding read_board
read_board-some board x content e = ground arith

-- The head of the player comes to the cell `d`, and the snake is longer by one exactly if there was food.
abbrev pub Moved : Game → (Player → List ℕ) → Player → Direction → Game → Type 0
Moved g body player move g' =
    (d : ℕ) × (add_direct_index (snake_of g player).head_index move ≡ some d)
    × IsPairAt g'
        (set_body body player
          (moved_body (g.board d == food) (snake_of g player).head_index (body player)))
        player d

snake_moves-IsPair :
    (player : Player) (move : Direction) (size : ℕ) (max_steps : ℤ) (g : Game) (input : List ℤ)
    (body : Player → List ℕ) {g' : Game} {rest : List ℤ}
    → IsPair g body
    → add_direct_index (snake_of g player).head_index move ≢ some 0
    → snake_moves player move size max_steps g input ≡ some (goes_on g' rest)
    → Moved g body player move g'
unfolding snake_moves
snake_moves-IsPair player move size max_steps g input body {g'} {rest} v inside e =
    let (d, goes, e1) = >>=-eq-some (add_direct_index (snake_of g player).head_index move) _ e in
    let (content, there, e2) = >>=-eq-some (read_board g.board d) _ e1 in
    let (low, same) = read_board-some g.board d content there in
    (
      d,
      goes,
      subst
          (λ (c : ℕ).
            IsPairAt g'
              (set_body body player
                (moved_body (c == food) (snake_of g player).head_index (body player)))
              player d)
          (sym same) (legal d content goes low same e2),
    )
  where
    positive : (d : ℕ) → add_direct_index (snake_of g player).head_index move ≡ some d → 1 ≤ d
    positive zero goes = absurd (inside goes)
    positive (suc d) goes = omega arith

    legal :
        (d content : ℕ)
        → add_direct_index (snake_of g player).head_index move ≡ some d
        → d ≤ cells
        → g.board d ≡ content
        → (if illegal_snake_move move content
            then some (over (illegal_move player))
            else carry_out player move size max_steps (content == food) g input)
          ≡ some (goes_on g' rest)
        → IsPairAt g'
            (set_body body player
              (moved_body (content == food) (snake_of g player).head_index (body player)))
            player
            d
    legal d content goes low same e = elim (Bool-cases (illegal_snake_move move content)) [
      | inl bad ↦ absurd (ground (arith, bad, e))
      | inr good ↦
          carry_out-IsPair player move size max_steps (content == food) g input body d v goes
            (positive d goes) low
            (subst (λ (c : ℕ). (c ≡ space) ⊎ (c ≡ food)) (sym same)
              (legal_content move content good))
            (rw good at e)
    ]

-- A round of the game that goes on, from a state with the two snakes: the head of the player comes to the
-- cell that the direction leads to, the snake grows by one cell exactly if food was there, and the two
-- snakes are again on the board and in their arrays, apart from each other, with new food on neither of
-- them. The move must not lead to the cell in front of the board.
pub play-IsPair :
    (player : Player) (move : Direction) (size : ℕ) (max_steps : ℤ) (g : Game) (input : List ℤ)
    (body : Player → List ℕ) {g' : Game} {rest : List ℤ}
    → IsPair g body
    → add_direct_index (snake_of g player).head_index move ≢ some 0
    → play player move size max_steps g input ≡ some (goes_on g' rest)
    → Moved g body player move g'
unfolding play
play-IsPair player move size max_steps g input body {g'} {rest} v inside e =
    elim (Bool-cases (eqb_ℤ (snake_of g player).number_of_steps (pos 0))) [
      | inl hungry ↦ absurd (ground (arith, hungry, e))
      | inr fed ↦ after_steps player inside (rw fed at e)
    ]
  where
    after_steps :
        (p : Player)
        → add_direct_index (snake_of g p).head_index move ≢ some 0
        → snake_moves p move size max_steps (set_steps_before g p (steps_before g p -ℤ pos 1)) input
          ≡ some (goes_on g' rest)
        → Moved g body p move g'
    after_steps false inside e =
        snake_moves-IsPair false move size max_steps _ input body
          (set_steps_before-IsPair g body false _ v) inside e
    after_steps true inside e =
        snake_moves-IsPair true move size max_steps _ input body
          (set_steps_before-IsPair g body true _ v) inside e

three-entries : (a b c i : ℕ) → three a b c i ≡ entry (a ∷ b ∷ c ∷ []) i
three-entries a b c zero = refl
three-entries a b c (suc zero) = refl
three-entries a b c (suc (suc zero)) = refl
three-entries a b c (suc (suc (suc i))) = ground arith

abbrev pub first_bodies : ℕ → Player → List ℕ
first_bodies size false = 2 ∷ 3 ∷ []
first_bodies size true = ((size - 1) * n + 2) ∷ ((size - 1) * n + 3) ∷ []

-- On a board of a size that `askBoradSize` accepts the game begins with the two snakes, apart from each
-- other, on the board and in their arrays.
pub init_snakes-IsPair :
    (size : ℕ) (max_steps : ℤ)
    → 3 < size
    → size ≤ n
    → IsPair (init_snakes size max_steps) (first_bodies size)
unfolding init_snakes init_board
init_snakes-IsPair size max_steps low high = record {
  array = λ q. arrays q;
  shown = λ q. shows q;
  apart = λ c i. ground (arith, i);
  inside = λ q c i. insides q c i;
}
  where
    arrays :
        (q : Player)
        → IsArray
            (hist_of (init_snakes size max_steps) q)
            (whole (init_snakes size max_steps) (first_bodies size) q)
    arrays false = record {
      entries = λ i. three-entries 1 2 3 i ∙ ap (λ (h : ℕ). entry (h ∷ 2 ∷ 3 ∷ []) i) (omega arith);
      positive = omega arith;
      fits = omega arith;
    }
    arrays true = record {
      entries = λ i.
          three-entries ((size - 1) * n + 1) ((size - 1) * n + 2) ((size - 1) * n + 3) i
          ∙ ap (λ (h : ℕ). entry (h ∷ ((size - 1) * n + 2) ∷ ((size - 1) * n + 3) ∷ []) i)
              (omega arith);
      positive = omega arith;
      fits = omega arith;
    }

    shows :
        (q : Player)
        → IsShown
            (init_snakes size max_steps).board
            (head_sign q)
            (body_sign q)
            (snake_of (init_snakes size max_steps) q).head_index
            (first_bodies size q)
    shows false = record {
      head = ground arith;
      others = λ c i. ground (arith, i);
      distinct = (ground arith, (refl, (refl, tt)));
      long = omega arith;
    }
    shows true = record {
      head = ground arith;
      others = λ c i. ground (arith, i);
      distinct = (ground arith, (ground arith, (refl, tt)));
      long = omega arith;
    }

    insides :
        (q : Player) (c : ℕ)
        → has c (whole (init_snakes size max_steps) (first_bodies size) q) ≡ true
        → c ≤ cells
    insides false c i = ground (arith, i)
    insides true c i = ground (arith, i)
