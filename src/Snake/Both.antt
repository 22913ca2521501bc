-- ===== src/Snake/Both.antt =====
-- The two snakes of a game, on the board and in the arrays.

use cs_bsc_technion.Base.{
  ℕ, ◌+◌, ◌≤◌, ◌<◌, ◌≡◌, ◌≢◌, ◌⊎◌, true, false, Bool, some, List, ◌∷◌, length, ◌==◌, arith, ap, ◌∙◌,
  Bool-cases, inl, inr,
}
use cs_bsc_technion.Snake.{
  Game, Player, Direction, cells, space, white_head, black_head, white_body, black_body, set_at,
  update_snake_hist, draw_move, add_direct_index,
}
use cs_bsc_technion.Snake.Turns.{snake_of, hist_of}
use cs_bsc_technion.Snake.History.{init, IsArray, update_snake_hist_eats, update_snake_hist_moves}
use cs_bsc_technion.Snake.Draw.{has, draw_move_moves, draw_move_eats}
use cs_bsc_technion.Snake.Shown.{IsShown, Frame, has-init, eats-IsShown, moves-IsShown, last_of}

abbrev pub head_sign : Player → ℕ
head_sign false = white_head
head_sign true = black_head

abbrev pub body_sign : Player → ℕ
body_sign false = white_body
body_sign true = black_body

abbrev pub whole : Game → (Player → List ℕ) → Player → List ℕ
whole g body player = (snake_of g player).head_index ∷ body player

-- Each array holds a snake from its head on, the board shows both in their signs, and they are apart
-- and on the board.
pub record IsPair (g : Game) (body : Player → List ℕ) : Type 0 where
  pub array : (player : Player) → IsArray (hist_of g player) (whole g body player)
  pub shown :
      (player : Player)
      → IsShown g.board
          (head_sign player)
          (body_sign player)
          (snake_of g player).head_index
          (body player)
  pub apart : (c : ℕ) → has c (whole g body false) ≡ true → has c (whole g body true) ≡ false
  pub inside : (player : Player) (c : ℕ) → has c (whole g body player) ≡ true → c ≤ cells

-- A snake is not in a cell with another sign.
pub IsShown-fresh :
    (board : ℕ → ℕ) (hs bs h : ℕ) (body : List ℕ) (d : ℕ)
    → IsShown board hs bs h body
    → board d ≢ hs
    → board d ≢ bs
    → has d (h ∷ body) ≡ false
IsShown-fresh board hs bs h body d v not_head not_body = elim (Bool-cases (has d (h ∷ body))) [
  | inr out ↦ out
  | inl in_it ↦ elim (Bool-cases (d == h)) [
    | inl e ↦ absurd (not_head (ap board (ground (arith, e)) ∙ v.head))
    | inr e ↦ absurd (not_body (v.others d (ground (arith, e, in_it))))
  ]
]

-- A snake of which nothing was written stays.
pub IsShown-frame :
    (board board' : ℕ → ℕ) (hs bs h : ℕ) (body : List ℕ)
    → ((c : ℕ) → has c (h ∷ body) ≡ true → board' c ≡ board c)
    → IsShown board hs bs h body
    → IsShown board' hs bs h body
IsShown-frame board board' hs bs h body same v = record {
  head = same h (ground arith) ∙ v.head;
  others = λ c i. same c (ground (arith, i)) ∙ v.others c i;
  distinct = v.distinct;
  long = v.long;
}

-- What a move that is carried out leaves of a snake.
pub record IsStep (board : ℕ → ℕ) (hs bs h : ℕ) (body : List ℕ) (d : ℕ) (board' snake_hist : ℕ → ℕ)
    (body' : List ℕ) : Type 0 where
  pub array : IsArray snake_hist (d ∷ body')
  pub shown : IsShown board' hs bs d body'
  pub frame : Frame board board' d (h ∷ body)
  pub within : (c : ℕ) → has c (d ∷ body') ≡ true → (c ≡ d) ⊎ (has c (h ∷ body) ≡ true)

-- The cells of a snake behind a move, with food or without.
abbrev pub moved_body : Bool → ℕ → List ℕ → List ℕ
moved_body true h body = h ∷ body
moved_body false h body = init (h ∷ body)

pub step_lem :
    (board f : ℕ → ℕ) (hs bs h : ℕ) (body : List ℕ) (move : Direction) (d : ℕ) (eat_food : Bool)
    → IsArray f (h ∷ body)
    → IsShown board hs bs h body
    → add_direct_index h move ≡ some d
    → 1 ≤ d
    → has d (h ∷ body) ≡ false
    → length body + 2 < cells
    → (board1 : ℕ → ℕ) × (snake_hist : ℕ → ℕ) × (board' : ℕ → ℕ) × (update_snake_hist board f move
          eat_food
        ≡ some (board1, snake_hist))
      × (draw_move board1 h snake_hist move eat_food ≡ some (board', d))
      × IsStep board hs bs h body d board' snake_hist (moved_body eat_food h body)
step_lem board f hs bs h body move d true a v goes p fresh room =
    let (snake_hist, out, a') = update_snake_hist_eats f h body a move d goes p board room in
    let (board', drawn, shows) = draw_move_eats board h d snake_hist (h ∷ body) move a' goes in
    let (v', frame) = eats-IsShown board board' hs bs h d p body v fresh shows in
    (
      board,
      snake_hist,
      board',
      out,
      drawn,
      record { array = a'; shown = v'; frame = frame; within = λ c i. within c i },
    )
  where
    within : (c : ℕ) → has c (d ∷ h ∷ body) ≡ true → (c ≡ d) ⊎ (has c (h ∷ body) ≡ true)
    within c i = elim (Bool-cases (c == d)) [
      | inl e ↦ inl (ground (arith, e))
      | inr e ↦ inr (ground (arith, e, i))
    ]
step_lem board f hs bs h body move d false a v goes p fresh room =
    let (snake_hist, out, a') = update_snake_hist_moves f h body a move d goes p board in
    let (board', drawn, shows) =
      draw_move_moves (set_at board (last_of h body) space) h d snake_hist (init (h ∷ body)) move a'
        goes in
    let (v', frame) = moves-IsShown board board' hs bs h d p body v a.positive fresh shows in
    (
      set_at board (last_of h body) space,
      snake_hist,
      board',
      unfold last_of in out,
      drawn,
      record { array = a'; shown = v'; frame = frame; within = λ c i. within c i },
    )
  where
    within : (c : ℕ) → has c (d ∷ init (h ∷ body)) ≡ true → (c ≡ d) ⊎ (has c (h ∷ body) ≡ true)
    within c i = elim (Bool-cases (c == d)) [
      | inl e ↦ inl (ground (arith, e))
      | inr e ↦ inr (ground (arith, e, i, has-init c h body))
    ]
