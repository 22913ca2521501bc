-- ===== src/Avoidance/Lines.antt =====
-- Which boards the checks for a line find.
use mathlib.Core.Path.{subst}
use cs_bsc_technion.Base.{
  ℕ, zero, suc, ◌+◌, ◌-◌, ◌≤◌, ◌<◌, ◌≡◌, ◌≢◌, ◌↔◌, inl, inr, refl, true, false, ◌&&◌, not, ◌==◌,
  arith, Bool-cases, ◌∙◌, ap,
}
use cs_bsc_technion.Avoidance.{
  Board, empty_cell, is_pair, counter, is_full, any_full, check_column, check_row, check_diagonal_1,
  counter_2, check_diagonal_2,
}

-- Every cell of the line up to `last` has the same symbol.
abbrev pub IsLine : (ℕ → ℕ) → ℕ → Type 0
IsLine line last = (line 0 ≢ empty_cell) × ((j : ℕ) → j ≤ last → line j ≡ line 0)

counter-le : (line : ℕ → ℕ) (last : ℕ) → counter line last ≤ last
unfolding counter
counter-le line zero = omega arith
counter-le line (suc last) = ground (arith, counter-le line last)

all_pairs :
    (line : ℕ → ℕ) (last : ℕ)
    → counter line (suc last) ≡ suc last
    → (is_pair (line last) (line (suc last)) ≡ true) × (counter line last ≡ last)
unfolding counter
all_pairs line last h = elim (Bool-cases (is_pair (line last) (line (suc last)))) [
  | inl pair ↦ (pair, ground (arith, pair, h))
  | inr other ↦ absurd (ground (arith, other, h, counter-le line last))
]

is_pair_sound : (a b : ℕ) → is_pair a b ≡ true → (a ≢ empty_cell) × (b ≡ a)
unfolding is_pair
is_pair_sound a b h = (ground arith, ground arith)

counter_sound : (line : ℕ → ℕ) (last : ℕ) → 1 ≤ last → counter line last ≡ last → IsLine line last
counter_sound line zero p h = absurd (omega arith)
counter_sound line (suc zero) p h =
    let (pair, _) = all_pairs line 0 h in
    let (marked, same) = is_pair_sound (line 0) (line 1) pair in
    (
      marked,
      λ j le. elim (Bool-cases (j == 0)) [
        | inl first ↦ ap line (ground (arith, first))
        | inr second ↦ ap line {x = j} {y = 1} (ground (arith, second, le)) ∙ same
      ],
    )
counter_sound line (suc (suc last)) p h =
    let (pair, before) = all_pairs line (suc last) h in
    let (_, same) = is_pair_sound (line (suc last)) (line (suc (suc last))) pair in
    let (marked, all) = counter_sound line (suc last) (omega arith) before in
    (
      marked,
      λ j le. elim (Bool-cases (j == suc (suc last))) [
        | inl end ↦
            ap line {x = j} {y = suc (suc last)} (ground (arith, end))
            ∙ same
            ∙ all (suc last) (omega arith)
        | inr earlier ↦ all j (ground (arith, earlier, le))
      ],
    )

counter_complete : (line : ℕ → ℕ) (last : ℕ) → IsLine line last → counter line last ≡ last
unfolding counter is_pair
counter_complete line zero l = refl
counter_complete line (suc last) l = ground (
  arith,
  counter_complete line last (l.0, λ j h. l.1 j (omega (arith, h))),
  l.0,
  l.1 last (omega arith),
  l.1 (suc last) (omega arith),
)

-- A line of at least two cells is full of one symbol.
abbrev pub IsFullLine : (ℕ → ℕ) → ℕ → Type 0
IsFullLine line size = (2 ≤ size) × (line 0 ≢ empty_cell) × ((j : ℕ) → j < size → line j ≡ line 0)

is_full-suc :
    (line : ℕ → ℕ) (last : ℕ)
    → is_full line (suc last) ≡ (counter line last + 1 == suc last && not (suc last == 1))
unfolding is_full
is_full-suc line last =
    ap (λ (x : ℕ). counter line x + 1 == suc last && not (suc last == 1)) (omega arith)

full_sound : (line : ℕ → ℕ) (last : ℕ) → is_full line (suc last) ≡ true → IsFullLine line (suc last)
full_sound line last h =
    let (positive, all) : (1 ≤ last) × (counter line last ≡ last) =
      (ground (arith, h, is_full-suc line last), ground (arith, h, is_full-suc line last)) in
    let l = counter_sound line last positive all in
    (omega (arith, positive), l.0, λ j below. l.1 j (omega (arith, below)))

full_complete :
    (line : ℕ → ℕ) (last : ℕ) → IsFullLine line (suc last) → is_full line (suc last) ≡ true
full_complete line last l = ground (
  arith,
  is_full-suc line last,
  l.0,
  counter_complete line last (l.1, λ j h. l.2 j (omega (arith, h))),
)

is_full_iff : (line : ℕ → ℕ) (size : ℕ) → (is_full line size ≡ true) ↔ IsFullLine line size
is_full_iff line zero =
    (λ h. absurd (unfold is_full in ground (arith, h)), λ l. absurd (omega (arith, l.0)))
is_full_iff line (suc last) = (full_sound line last, full_complete line last)

any_full_iff :
    (line : ℕ → ℕ → ℕ) (size lines : ℕ)
    → (any_full line size lines ≡ true) ↔ ((i : ℕ) × (i < lines) × IsFullLine (line i) size)
unfolding any_full
any_full_iff line size lines = (found lines, there lines)
  where
    found :
        (lines : ℕ)
        → any_full line size lines ≡ true
        → (i : ℕ) × (i < lines) × IsFullLine (line i) size
    found zero h = absurd (ground (arith, h))
    found (suc n) h = elim (Bool-cases (any_full line size n)) [
      | inl earlier ↦ let (i, below, full) = found n earlier in (i, omega (arith, below), full)
      | inr not_earlier ↦
          (n, omega arith, (is_full_iff (line n) size).0 (ground (arith, h, not_earlier)))
    ]

    there :
        (lines : ℕ)
        → ((i : ℕ) × (i < lines) × IsFullLine (line i) size)
        → any_full line size lines ≡ true
    there zero (i, below, full) = absurd (omega (arith, below))
    there (suc n) (i, below, full) = elim (Bool-cases (i == n)) [
      | inl here ↦ ground (
        arith,
        (is_full_iff (line n) size).1
            (subst (λ x. IsFullLine (line x) size) (ground (arith, here)) full),
      )
      | inr earlier ↦ ground (arith, there n (i, ground (arith, earlier, below), full))
    ]

-- `check_column`, against its comment, finds the full rows: exactly the boards on which, for some first
-- index below the size, which is the row of a move, the cells of that row below the size are at least
-- two and all hold the same symbol of a player.
pub check_column_iff :
    (board : Board) (size : ℕ)
    → (check_column board size ≡ true) ↔ ((i : ℕ) × (i < size) × IsFullLine (board i) size)
unfolding check_column
check_column_iff board size = any_full_iff board size size

-- `check_row` finds exactly the boards on which, for some second index below the size, the cells
-- below the size are at least two and all hold the same symbol of a player.
pub check_row_iff :
    (board : Board) (size : ℕ)
    → (check_row board size ≡ true) ↔ ((j : ℕ) × (j < size) × IsFullLine (λ i. board i j) size)
unfolding check_row
check_row_iff board size = any_full_iff (λ j i. board i j) size size

-- The check of the first diagonal finds exactly the boards on which it is full.
pub check_diagonal_1_iff :
    (board : Board) (size : ℕ)
    → (check_diagonal_1 board size ≡ true) ↔ IsFullLine (λ i. board i i) size
unfolding check_diagonal_1
check_diagonal_1_iff board size = is_full_iff (λ i. board i i) size

counter_2-le : (board : Board) (size j : ℕ) → counter_2 board size j ≤ j
unfolding counter_2
counter_2-le board size zero = omega arith
counter_2-le board size (suc j) = ground (arith, counter_2-le board size j)

corner_skipped :
    (board : Board) (n : ℕ)
    → board 0 0 ≡ empty_cell
    → counter_2 board (suc (suc n)) (suc n) ≡ counter_2 board (suc (suc n)) n
unfolding counter_2
corner_skipped board n corner =
    ground
      (arith, ap (λ (x : ℕ). board x x) {x = suc (suc n) - 2 - n} {y = 0} (omega arith) ∙ corner)

check_diagonal_2-suc :
    (board : Board) (n : ℕ)
    → check_diagonal_2 board (suc (suc n))
      ≡ (counter_2 board (suc (suc n)) (suc n) + 1 == suc (suc n) && not (suc (suc n) == 1))
unfolding check_diagonal_2
check_diagonal_2-suc board n =
    ap (λ (x : ℕ). counter_2 board (suc (suc n)) x + 1 == suc (suc n) && not (suc (suc n) == 1))
      (omega arith)

-- On a board of size 2 or more whose cell at the indices 0 and 0 is empty `check_diagonal_2` finds
-- no line, whatever the cells of the second diagonal are.
pub check_diagonal_2_corner :
    (board : Board) (size : ℕ)
    → 2 ≤ size
    → board 0 0 ≡ empty_cell
    → check_diagonal_2 board size ≡ false
check_diagonal_2_corner board zero p corner = absurd (omega arith)
check_diagonal_2_corner board (suc zero) p corner = absurd (omega arith)
check_diagonal_2_corner board (suc (suc n)) p corner = ground (
  arith,
  check_diagonal_2-suc board n,
  corner_skipped board n corner,
  counter_2-le board (suc (suc n)) n,
)
