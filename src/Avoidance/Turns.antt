-- ===== src/Avoidance/Turns.antt =====
-- The turns of the game: what `undo` takes back.
use cs_bsc_technion.Base.{
  ℕ, zero, suc, ◌+◌, ◌≤◌, ◌≡◌, refl, ◌&&◌, List, [], ◌∷◌, if◌then◌else◌, length, ◌==◌, arith,
  Bool-cases, inl, inr, ◌∙◌, ap,
}
use cs_bsc_technion.Avoidance.{Game, empty_cell, set_cell, excute_turn, undo_cells, undo}

-- A sequence of moves, and that each is to a cell that is empty when its turn comes.
unfoldable pub excute_turns : Game → List (ℕ × ℕ) → Game
excute_turns g [] = g
excute_turns g ((row, column) ∷ turns) = excute_turns (excute_turn g row column) turns

abbrev pub Playable : Game → List (ℕ × ℕ) → Type 0
Playable g [] = Unit {0}
Playable g ((row, column) ∷ turns) =
    (g.board row column ≡ empty_cell) × Playable (excute_turn g row column) turns

undo_cells-empty :
    (g : Game) (n a b : ℕ) → g.board a b ≡ empty_cell → undo_cells g n a b ≡ empty_cell
unfolding undo_cells set_cell
undo_cells-empty g zero a b h = h
undo_cells-empty g (suc n) a b h = ground (arith, undo_cells-empty g n a b h)

-- Undoing one move more empties its cell, behind the moves before it.
undo_cells-excute_turn :
    (g : Game) (row column n a b : ℕ)
    → n ≤ g.move_ptr
    → undo_cells (excute_turn g row column) (suc n) a b
      ≡ (if a == row && b == column then empty_cell else undo_cells g n a b)
unfolding undo_cells set_cell excute_turn
undo_cells-excute_turn g row column zero a b le = ground arith
undo_cells-excute_turn g row column (suc n) a b le =
    ground (arith, undo_cells-excute_turn g row column n a b (omega (arith, le)))

undo-excute_step :
    (g g₀ : Game) (n row column : ℕ)
    → n ≤ g.move_ptr
    → ((a b : ℕ) → undo_cells g n a b ≡ g₀.board a b)
    → g.board row column ≡ empty_cell
    → (a b : ℕ) → undo_cells (excute_turn g row column) (suc n) a b ≡ g₀.board a b
undo-excute_step g g₀ n row column le back free a b = elim (Bool-cases (a == row && b == column)) [
  | inl same ↦
      let here : g.board a b ≡ empty_cell =
        ap (λ (x : ℕ). g.board x b) {x = a} {y = row} (ground (arith, same))
        ∙ ap (λ (y : ℕ). g.board row y) {x = b} {y = column} (ground (arith, same))
        ∙ free in
      ground (
        arith,
        undo_cells-excute_turn g row column n a b le,
        same,
        undo_cells-empty g n a b here,
        back a b,
      )
  | inr other ↦ ground (arith, undo_cells-excute_turn g row column n a b le, other, back a b)
]

excute_turn-count :
    (g : Game) (row column : ℕ) → (excute_turn g row column).move_ptr ≡ g.move_ptr + 1
unfolding excute_turn
excute_turn-count g row column = refl

undo-excute_from :
    (g g₀ : Game) (n : ℕ) (turns : List (ℕ × ℕ))
    → n ≤ g.move_ptr
    → ((a b : ℕ) → undo_cells g n a b ≡ g₀.board a b)
    → Playable g turns
    → (excute_turns g turns).move_ptr ≡ g.move_ptr + length turns
      × ((a b : ℕ) → undo_cells (excute_turns g turns) (n + length turns) a b ≡ g₀.board a b)
unfolding excute_turns
undo-excute_from g g₀ n [] le back p = (
  omega arith,
  λ a b. ap (λ (m : ℕ). undo_cells g m a b) {x = n + 0} {y = n} (omega arith) ∙ back a b,
)
undo-excute_from g g₀ n ((row, column) ∷ turns) le back p =
    let next = excute_turn g row column in
    let (count, rest) =
      undo-excute_from next g₀ (suc n) turns (omega (arith, le, excute_turn-count g row column))
        (undo-excute_step g g₀ n row column le back p.0) p.1 in
    (
      omega (arith, count, excute_turn-count g row column),
      λ a b.
          ap (λ (m : ℕ). undo_cells (excute_turns next turns) m a b) {x = n + suc (length turns)}
            {y = suc n + length turns} (omega arith)
          ∙ rest a b,
    )

-- If moves in a row each go to a cell that is empty at its turn, undoing as many gives the board
-- before them, cell by cell, and the number of moves before them.
pub undo-excute_turns :
    (g : Game) (turns : List (ℕ × ℕ)) (a b : ℕ)
    → Playable g turns
    → ((undo (excute_turns g turns) (length turns)).board a b ≡ g.board a b)
      × ((undo (excute_turns g turns) (length turns)).move_ptr ≡ g.move_ptr)
unfolding undo
undo-excute_turns g turns a b p =
    let (count, back) =
      undo-excute_from g g 0 turns (omega arith) (λ a b. unfold undo_cells in refl) p in
    (
      ap (λ (m : ℕ). undo_cells (excute_turns g turns) m a b) {x = length turns}
            {y = 0 + length turns} (omega arith)
          ∙ back a b,
      omega (arith, count),
    )
