-- ===== src/Snake/Food.antt =====
-- The food of Snake Game.c: the cell that create_food takes, and the numbers that it reads.
use mathlib.Core.Path.{subst}
use cs_bsc_technion.Base.{
  ℕ, suc, ◌<◌, ◌≡◌, not, Option, none, some, List, [], ◌∷◌, length, ◌==◌, leb, arith, ap, sym, ◌∙◌,
  ◌||◌, Bool-cases, Option-cases, inl, inr, ℤ, pos, negsuc, >>=-eq-some, eq_of_some,
}
use cs_bsc_technion.Snake.{cell, space, food, set_at, put_food, food_from, create_food}

put_food_lem :
    (size : ℕ) (board : ℕ → ℕ) (row column : ℤ) {board' : ℕ → ℕ}
    → put_food size board row column ≡ some board'
    → (x : ℕ) × (board x ≡ space) × (board' ≡ set_at board x food)
unfolding put_food
put_food_lem size board (pos row) (pos column) e =
    elim (Bool-cases (leb size row || leb size column)) [
      | inl off ↦ absurd (ground (arith, rw off at e))
      | inr on ↦ elim (Bool-cases (not (board (cell row column) == space))) [
        | inl taken ↦ absurd (ground (arith, rw (on, taken) at e))
        | inr free ↦ (cell row column, ground (arith, free), sym (eq_of_some (rw (on, free) at e)))
      ]
    ]
put_food_lem size board (pos row) (negsuc column) e = cc
put_food_lem size board (negsuc row) column e = cc

-- What the loop of `create_food` gives is what its tests let through.
food_from_lem :
    (size : ℕ) (board : ℕ → ℕ) (before : Option ℤ) (input : List ℤ) {board' : ℕ → ℕ} {rest : List ℤ}
    → food_from size board before input ≡ some (board', rest)
    → (row : ℤ) × (column : ℤ) × (put_food size board row column ≡ some board')
unfolding food_from
food_from_lem size board before [] e = cc
food_from_lem size board before (row ∷ []) {board'} {rest} e =
    let (column, read, e1) = >>=-eq-some before _ e in
    let (placed, there, out) = >>=-eq-some (put_food size board row column) _ e1 in
    let same : ◌≡◌ {A = (ℕ → ℕ) × List ℤ} (placed, []) (board', rest) = eq_of_some out in
    (row, column, there ∙ ap (λ (p : (ℕ → ℕ) × List ℤ). some p.0) same)
food_from_lem size board before (row ∷ column ∷ input) {board'} {rest} e =
    elim (Option-cases (put_food size board row column)) [
      | inl refused ↦
          food_from_lem size board (some column) input {board' = board'} {rest = rest}
            (rw (refused, food_from) at e)
      | inr (placed, there) ↦
          let same : ◌≡◌ {A = (ℕ → ℕ) × List ℤ} (placed, input) (board', rest) =
            eq_of_some (rw (there, food_from) at e) in
          (row, column, there ∙ ap (λ (p : (ℕ → ℕ) × List ℤ). some p.0) same)
    ]

-- `create_food` writes into an empty cell, and nowhere else.
pub create_food_lem :
    (size : ℕ) (board : ℕ → ℕ) (input : List ℤ) {board' : ℕ → ℕ} {rest : List ℤ}
    → create_food size board input ≡ some (board', rest)
    → (x : ℕ) × (board x ≡ space) × (board' ≡ set_at board x food)
unfolding create_food
create_food_lem size board input e =
    let (row, column, there) = food_from_lem size board none input e in
    put_food_lem size board row column there

food_from-length :
    (size : ℕ) (board : ℕ → ℕ) (before : Option ℤ) (input : List ℤ) {p : (ℕ → ℕ) × List ℤ}
    → food_from size board before input ≡ some p
    → length p.1 < length input
unfolding food_from
food_from-length size board before [] e = cc
food_from-length size board before (row ∷ []) {p} e =
    let (column, read, e1) = >>=-eq-some before _ e in
    let (placed, there, out) = >>=-eq-some (put_food size board row column) _ e1 in
    subst (λ (q : (ℕ → ℕ) × List ℤ). length q.1 < 1) (eq_of_some out) (omega arith)
food_from-length size board before (row ∷ column ∷ input) {p} e =
    elim (Option-cases (put_food size board row column)) [
      | inl refused ↦ omega (
        arith,
        food_from-length size board (some column) input {p = p} (rw (refused, food_from) at e),
      )
      | inr (placed, there) ↦
          subst (λ (q : (ℕ → ℕ) × List ℤ). length q.1 < suc (suc (length input)))
            (eq_of_some (rw (there, food_from) at e)) (omega arith)
    ]

-- `create_food` reads a number at least.
pub create_food-length :
    (size : ℕ) (board : ℕ → ℕ) (input : List ℤ) {board' : ℕ → ℕ} {rest : List ℤ}
    → create_food size board input ≡ some (board', rest)
    → length rest < length input
unfolding create_food
create_food-length size board input {board'} {rest} e =
    food_from-length size board none input {p = (board', rest)} e
