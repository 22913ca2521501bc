-- ===== src/Coalitions.antt =====
-- The search for coalitions of "C - level1 BuiltUp/Sorting Algoritems , BackTracking
-- Recurstion/BackTracking - Recursion.c". The arrays are functions of the indices; the array `chosen`,
-- which the calls share, is handed on. `left` is N - index, so N is a parameter, which `main` sets to 5. The input
-- is the list of the numbers that `scanf` reads.
-- The sums are below 2 ^ 31, which the input has to see to.
pub mod Exhaustive
pub mod Pairs
mod Tests
use cs_bsc_technion.Base.{
  ℕ, zero, suc, ◌+◌, Bool, true, false, ◌&&◌, ◌||◌, not, Option, none, some, List, [], ◌∷◌,
  if◌then◌else◌, ltb, ◌==◌, ◌>>=◌, ℤ, pos, pos_part, ltb_ℤ, eqb_ℤ,
}

abbrev pub minimum : ℕ
minimum = 60

-- `arr[index] = value`
abbrev pub store {ℓ} : {A : Type ℓ} → (ℕ → A) → ℕ → A → ℕ → A
store arr index value i = if i == index then value else arr i

-- The loop of `check_colobration` over the groups below `index`, with the row of `index`.
unfoldable pub check_colobration : (ℕ → Bool) → (ℕ → Bool) → ℕ → Bool
check_colobration row chosen zero = true
check_colobration row chosen (suc group) =
    check_colobration row chosen group && (not (chosen group) || row group)

unfoldable pub count_coalitions : (ℕ → ℕ) → (ℕ → ℕ → Bool) → ℕ → (ℕ → Bool) → ℕ → ℕ → ℕ × (ℕ → Bool)
count_coalitions mandates can_collaborate zero chosen index sum =
    (if ltb minimum sum then 1 else 0, chosen)
count_coalitions mandates can_collaborate (suc left) chosen index sum =
    let joined = store chosen index true in
    let tried : ℕ × (ℕ → Bool) = elim (check_colobration (can_collaborate index) joined index) [
      | true ↦
          count_coalitions mandates can_collaborate left joined (suc index) (sum + mandates index)
      | false ↦ (0, joined)
    ] in
    let (others, last) =
      count_coalitions mandates can_collaborate left (store tried.1 index false) (suc index) sum in
    (tried.0 + others, last)

-- The call of `count_coalitions` in `main`, for N parties.
unfoldable pub coalition_num : (ℕ → ℕ) → (ℕ → ℕ → Bool) → ℕ → ℕ
coalition_num mandates can_collaborate n =
    (count_coalitions mandates can_collaborate n (λ i. false) 0 0).0

-- The loop of `scan_1d_arr` from `i` on, with the numbers that are not read yet.
unfoldable pub scan_1d_arr : ℕ → ℕ → (ℕ → ℕ) → List ℤ → Option ((ℕ → ℕ) × List ℤ)
scan_1d_arr zero i arr input = some (arr, input)
scan_1d_arr (suc left) i arr [] = none
scan_1d_arr (suc left) i arr (x ∷ input) =
    let onward = scan_1d_arr left (suc i) (store arr i (pos_part x)) input in
    if ltb_ℤ x (pos 0) then none else onward

-- The inner loop of `scan_2d_bool_arr` from `j` on, on one row.
unfoldable pub scan_row : ℕ → ℕ → (ℕ → Bool) → List ℤ → Option ((ℕ → Bool) × List ℤ)
scan_row zero j row input = some (row, input)
scan_row (suc left) j row [] = none
scan_row (suc left) j row (x ∷ input) =
    scan_row left (suc j) (store row j (not (eqb_ℤ x (pos 0)))) input

unfoldable pub scan_2d_bool_arr :
    ℕ → ℕ → ℕ → (ℕ → ℕ → Bool) → List ℤ → Option ((ℕ → ℕ → Bool) × List ℤ)
scan_2d_bool_arr n zero i arr input = some (arr, input)
scan_2d_bool_arr n (suc left) i arr input = do
  (row, rest) ← scan_row n 0 (arr i) input
  scan_2d_bool_arr n left (suc i) (store arr i row) rest

-- The two arrays, both of zeros before.
unfoldable pub scan_input : ℕ → List ℤ → Option ((ℕ → ℕ) × (ℕ → ℕ → Bool))
scan_input n input = do
  (mandates, rest) ← scan_1d_arr n 0 (λ i. 0) input
  (can_collaborate, _) ← scan_2d_bool_arr n n 0 (λ i j. false) rest
  some (mandates, can_collaborate)

abbrev pub num_parties : ℕ
num_parties = 5

-- The number that `main` prints; `none` is "Wrong input".
unfoldable pub main : List ℤ → Option ℕ
main input = do
  (mandates, can_collaborate) ← scan_input num_parties input
  some (coalition_num mandates can_collaborate num_parties)
