-- ===== src/Snake/Draw.antt =====
-- What drawMove writes on the board.
use cs_bsc_technion.Base.{
  ℕ, zero, suc, ◌+◌, ◌-◌, ◌<◌, ◌≡◌, refl, true, false, Bool, some, List, [], ◌∷◌, length,
  if◌then◌else◌, ◌==◌, arith, ap, ◌∙◌, ◌||◌,
}
use cs_bsc_technion.Snake.{Direction, cells, space, set_at, add_direct_index, draw_body, draw_move}
use cs_bsc_technion.Snake.History.{entry, AllPos, IsArray}

-- Whether a cell is in a list.
abbrev pub has : ℕ → List ℕ → Bool
has c [] = false
has c (x ∷ xs) = (c == x) || has c xs

-- The loop gives the cells of the list the sign at `snake_body`, and empties the cell 0.
draw_body_lem :
    (fuel i : ℕ) (f : ℕ → ℕ) (snake_body : ℕ) (board : ℕ → ℕ) (xs : List ℕ)
    → ((j : ℕ) → f (i + j) ≡ entry xs j)
    → AllPos xs
    → length xs < fuel
    → (board' : ℕ → ℕ) × (draw_body fuel i f snake_body board ≡ some board')
      × ((c : ℕ)
          → board' c ≡ (if c == 0 then space else if has c xs then board snake_body else board c))
unfolding draw_body
draw_body_lem zero i f b board xs e p room = absurd (omega arith)
draw_body_lem (suc fuel) i f b board [] e p room =
    let here : f i ≡ 0 = ap f (omega arith) ∙ e 0 in (set_at board 0 space, rw here refl, λ c. refl)
draw_body_lem (suc fuel) i f b board (x ∷ xs) e p room =
    let here : f i ≡ x = ap f (omega arith) ∙ e 0 in
    let (board', out, shown) =
      draw_body_lem fuel (i + 1) f b (set_at board x (board b)) xs
        (λ j. ap f (omega arith) ∙ e (suc j)) p.1 (omega (arith, room)) in
    (board', rw here (ground (arith, p.0, out)), λ c. ground (arith, shown c, p.0))

-- A move with no food: the sign of the head comes to `d`, and the others of the snake get that of the
-- second of them.
pub draw_move_moves :
    (board : ℕ → ℕ) (h d : ℕ) (f : ℕ → ℕ) (ys : List ℕ) (move : Direction)
    → IsArray f (d ∷ ys)
    → add_direct_index h move ≡ some d
    → (board' : ℕ → ℕ) × (draw_move board h f move false ≡ some (board', d))
      × ((c : ℕ)
          → board' c ≡ (
              if c == 0
              then space
              else if has c ys
              then set_at board d (board h) (entry ys 1)
              else set_at board d (board h) c))
unfolding draw_move
draw_move_moves board h d f ys move a goes =
    let (board', out, shown) =
      draw_body_lem (cells - 1) 1 f (f 2) (set_at board d (board h)) ys
        (λ j. ap f (omega arith) ∙ a.entries (suc j)) a.positive.1 (omega (arith, a.fits)) in
    (board', rw (goes, out) refl, λ c. rw (shown c, a.entries 2) refl)

-- A move with food: only the cell that the head was in changes beside the new one.
pub draw_move_eats :
    (board : ℕ → ℕ) (h d : ℕ) (f : ℕ → ℕ) (ys : List ℕ) (move : Direction)
    → IsArray f (d ∷ ys)
    → add_direct_index h move ≡ some d
    → (board' : ℕ → ℕ) × (draw_move board h f move true ≡ some (board', d))
      × ((c : ℕ)
          → board' c ≡ (
              if c == h then set_at board d (board h) (entry ys 1) else set_at board d (board h) c))
unfolding draw_move
draw_move_eats board h d f ys move a goes = (
  set_at (set_at board d (board h)) h (set_at board d (board h) (f 2)),
  rw goes refl,
  λ c. rw (a.entries 2) refl,
)
