-- ===== src/Snake/History.antt =====
-- The arrays of the snakes as lists, from the head on, and what updateSnakeHist does to them.
use cs_bsc_technion.Base.{
  ℕ, zero, suc, ◌+◌, ◌-◌, ◌≤◌, ◌<◌, ◌≡◌, refl, true, false, some, List, [], ◌∷◌, length,
  if◌then◌else◌, leb, ltb, arith, ◌∙◌, ◌&&◌, Bool-cases, inl, inr,
}
use cs_bsc_technion.Snake.{
  Direction, cells, space, set_at, add_direct_index, snake_len_from, check_snake_len, shift_up,
  update_snake_hist,
}

-- The entry at an index, 0 behind the end.
abbrev pub entry : List ℕ → ℕ → ℕ
entry [] i = 0
entry (x ∷ xs) zero = x
entry (x ∷ xs) (suc i) = entry xs i

-- All but the last.
abbrev pub init : List ℕ → List ℕ
init [] = []
init (x ∷ []) = []
init (x ∷ y ∷ xs) = x ∷ init (y ∷ xs)

-- A list with no 0 in it, which the array holds with zeros behind it.
abbrev pub AllPos : List ℕ → Type 0
AllPos [] = Unit
AllPos (x ∷ xs) = (1 ≤ x) × AllPos xs

pub record IsArray (snake_hist : ℕ → ℕ) (xs : List ℕ) : Type 0 where
  pub entries : (i : ℕ) → snake_hist i ≡ entry xs i
  pub positive : AllPos xs
  pub fits : length xs < cells

entry-past : (xs : List ℕ) (i : ℕ) → length xs ≤ i → entry xs i ≡ 0
entry-past [] i h = refl
entry-past (x ∷ xs) zero h = absurd (omega arith)
entry-past (x ∷ xs) (suc i) h = entry-past xs i (omega (arith, h))

pub entry-pos : (xs : List ℕ) (i : ℕ) → AllPos xs → i < length xs → 1 ≤ entry xs i
entry-pos [] i p h = absurd (omega arith)
entry-pos (x ∷ xs) zero p h = p.0
entry-pos (x ∷ xs) (suc i) p h = entry-pos xs i p.1 (omega (arith, h))

pub length-init : (x : ℕ) (xs : List ℕ) → length (init (x ∷ xs)) ≡ length xs
length-init x [] = refl
length-init x (y ∷ xs) = omega (arith, length-init y xs)

entry-init :
    (x : ℕ) (xs : List ℕ) (i : ℕ) → i < length xs → entry (init (x ∷ xs)) i ≡ entry (x ∷ xs) i
entry-init x [] i h = absurd (omega arith)
entry-init x (y ∷ xs) zero h = refl
entry-init x (y ∷ xs) (suc i) h = entry-init y xs i (omega (arith, h))

pub AllPos-init : (x : ℕ) (xs : List ℕ) → AllPos (x ∷ xs) → AllPos (init (x ∷ xs))
AllPos-init x [] p = tt
AllPos-init x (y ∷ xs) p = (p.0, AllPos-init y xs p.1)

snake_len_from_lem :
    (fuel : ℕ) (snake_hist : ℕ → ℕ) (xs : List ℕ) (i : ℕ)
    → ((j : ℕ) → snake_hist j ≡ entry xs j)
    → AllPos xs
    → i ≤ length xs
    → length xs < i + fuel
    → snake_len_from fuel snake_hist i ≡ some (length xs)
unfolding snake_len_from
snake_len_from_lem zero f xs i e p h room = absurd (omega arith)
snake_len_from_lem (suc fuel) f xs i e p h room = elim (Bool-cases (ltb i (length xs))) [
  | inl inside ↦ ground (
    arith,
    inside,
    e i,
    entry-pos xs i p,
    snake_len_from_lem fuel f xs (i + 1) e p (ground (arith, inside)) (omega (arith, room)),
  )
  | inr at_end ↦ ground (arith, at_end, h, e i, entry-past xs i)
]

pub check_snake_len_lem :
    (snake_hist : ℕ → ℕ) (xs : List ℕ)
    → IsArray snake_hist xs
    → check_snake_len snake_hist ≡ some (length xs)
unfolding check_snake_len
check_snake_len_lem f xs a =
    snake_len_from_lem cells f xs 0 a.entries a.positive (omega arith) (omega (arith, a.fits))

-- The entries 1 to k are those below them.
shift_up_lem :
    (k : ℕ) (f : ℕ → ℕ) (j : ℕ) → shift_up k f j ≡ (if leb 1 j && leb j k then f (j - 1) else f j)
unfolding shift_up
shift_up_lem zero f j = ground arith
shift_up_lem (suc k) f j = ground (arith, shift_up_lem k (set_at f (suc k) (f k)) j)

-- The head moves to `d`; with food the snake keeps its last cell, and without it the last cell is
-- emptied.
module _ (f : ℕ → ℕ) (h : ℕ) (body : List ℕ) (a : IsArray f (h ∷ body)) (move : Direction) (d : ℕ)
    (goes : add_direct_index h move ≡ some d) (p : 1 ≤ d) (board : ℕ → ℕ) where
  grown : ℕ → ℕ
  grown = set_at (shift_up (length (h ∷ body)) f) 0 d

  moved : ℕ → ℕ
  moved = set_at (shift_up (length body) f) 0 d

  grown-entries : (i : ℕ) → grown i ≡ entry (d ∷ h ∷ body) i
  unfolding grown
  grown-entries zero = refl
  grown-entries (suc i) = ground (
    arith,
    shift_up_lem (length (h ∷ body)) f (suc i),
    a.entries i,
    a.entries (suc i),
    entry-past (h ∷ body) i,
    entry-past (h ∷ body) (suc i),
  )

  moved-entries : (i : ℕ) → moved i ≡ entry (d ∷ init (h ∷ body)) i
  unfolding moved
  moved-entries zero = refl
  moved-entries (suc i) = elim (Bool-cases (ltb i (length body))) [
    | inl inside ↦
        ground
          (arith, inside, shift_up_lem (length body) f (suc i), a.entries i, entry-init h body i)
    | inr past ↦ ground (
      arith,
      past,
      shift_up_lem (length body) f (suc i),
      a.entries (suc i),
      entry-past (h ∷ body) (suc i),
      entry-past (init (h ∷ body)) i,
      length-init h body,
    )
  ]

  first_of : (k : ℕ) → add_direct_index (shift_up k f 0) move ≡ some d
  first_of k = rw (shift_up_lem k f 0 ∙ a.entries 0) goes

  pub update_snake_hist_eats :
      length body + 2 < cells
      → (snake_hist : ℕ → ℕ) × (update_snake_hist board f move true ≡ some (board, snake_hist))
        × IsArray snake_hist (d ∷ h ∷ body)
  unfolding update_snake_hist grown
  update_snake_hist_eats room = (
    grown,
    rw (check_snake_len_lem f (h ∷ body) a, first_of (length (h ∷ body))) refl,
    record { entries = grown-entries; positive = (p, a.positive); fits = omega (arith, room) },
  )

  pub update_snake_hist_moves :
      (snake_hist : ℕ → ℕ) × (update_snake_hist board f move false
        ≡ some (set_at board (entry (h ∷ body) (length body)) space, snake_hist))
      × IsArray snake_hist (d ∷ init (h ∷ body))
  unfolding update_snake_hist moved
  update_snake_hist_moves = (
    moved,
    rw
        (
          check_snake_len_lem f (h ∷ body) a,
          add-one-sub,
          first_of (length body),
          a.entries (length body),
        )
        (ground arith),
    record {
      entries = moved-entries;
      positive = (p, AllPos-init h body a.positive);
      fits = omega (arith, a.fits, length-init h body);
    },
  )
    where
      add-one-sub : suc (length body) - 1 ≡ length body
      add-one-sub = omega arith
