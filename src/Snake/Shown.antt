-- ===== src/Snake/Shown.antt =====
-- A snake on the board, before and after a move.
use cs_bsc_technion.Base.{
  ℕ, ◌≤◌, ◌≡◌, ◌≢◌, refl, true, false, List, [], ◌∷◌, length, if◌then◌else◌, ◌==◌, arith, ◌||◌,
}
use cs_bsc_technion.Snake.{space, set_at}
use cs_bsc_technion.Snake.History.{entry, init, AllPos, AllPos-init, length-init}
use cs_bsc_technion.Snake.Draw.{has}

abbrev pub Distinct : List ℕ → Type 0
Distinct [] = Unit
Distinct (x ∷ xs) = (has x xs ≡ false) × Distinct xs

pub has-pos : (c : ℕ) (xs : List ℕ) → AllPos xs → has c xs ≡ true → 1 ≤ c
has-pos c [] p h = cc
has-pos c (x ∷ xs) p h = ground (arith, p, h, has-pos c xs p.1)

unfoldable pub last_of : ℕ → List ℕ → ℕ
last_of x xs = entry (x ∷ xs) (length xs)

has-last_of : (x : ℕ) (xs : List ℕ) → has (last_of x xs) (x ∷ xs) ≡ true
unfolding last_of
has-last_of x [] = ground arith
has-last_of x (y ∷ xs) = ground (arith, has-last_of y xs)

-- What is in the list is its last, or among the others.
pub has-init :
    (c x : ℕ) (xs : List ℕ) → has c (x ∷ xs) ≡ (has c (init (x ∷ xs)) || (c == last_of x xs))
unfolding last_of
has-init c x [] = ground arith
has-init c x (y ∷ xs) = ground (arith, has-init c y xs)

last_of-once :
    (x : ℕ) (xs : List ℕ) → Distinct (x ∷ xs) → has (last_of x xs) (init (x ∷ xs)) ≡ false
unfolding last_of
last_of-once x [] d = refl
last_of-once x (y ∷ xs) d = ground (arith, d, last_of-once y xs d.1, has-last_of y xs)

has-init-false : (c x : ℕ) (xs : List ℕ) → has c (x ∷ xs) ≡ false → has c (init (x ∷ xs)) ≡ false
has-init-false c x xs h = ground (arith, has-init c x xs, h)

Distinct-init : (x : ℕ) (xs : List ℕ) → Distinct (x ∷ xs) → Distinct (init (x ∷ xs))
Distinct-init x [] d = tt
Distinct-init x (y ∷ xs) d = (has-init-false x y xs d.0, Distinct-init y xs d.1)

-- The signs of a snake: one for its head, one for the others, of which there are two at least.
pub record IsShown (board : ℕ → ℕ) (head_sign body_sign h : ℕ) (body : List ℕ) : Type 0 where
  pub head : board h ≡ head_sign
  pub others : (c : ℕ) → has c body ≡ true → board c ≡ body_sign
  pub distinct : Distinct (h ∷ body)
  pub long : 2 ≤ length body

-- What is neither the cell 0, nor the new cell, nor on the snake stays as it is.
abbrev pub Frame : (ℕ → ℕ) → (ℕ → ℕ) → ℕ → List ℕ → Type 0
Frame board board' d xs = (c : ℕ) → 1 ≤ c → c ≢ d → has c xs ≡ false → board' c ≡ board c

module _ (board board' : ℕ → ℕ) (head_sign body_sign h d : ℕ) (positive : 1 ≤ d) where
  pub eats-IsShown :
      (body : List ℕ)
      → IsShown board head_sign body_sign h body
      → has d (h ∷ body) ≡ false
      → ((c : ℕ)
          → board' c ≡ (
              if c == h
              then set_at board d (board h) (entry (h ∷ body) 1)
              else set_at board d (board h) c))
      → IsShown board' head_sign body_sign d (h ∷ body) × Frame board board' d (h ∷ body)
  eats-IsShown [] v fresh shown = absurd (omega (arith, v.long))
  eats-IsShown (b ∷ body) v fresh shown = (
    record {
      head = ground (arith, shown d, v.head, fresh);
      others = λ c inside. ground (arith, shown c, inside, fresh, v.others c, v.others b);
      distinct = (fresh, v.distinct);
      long = omega (arith, v.long);
    },
    λ c p ne out. ground (arith, shown c, out, ne),
  )

  pub moves-IsShown :
      (body : List ℕ)
      → IsShown board head_sign body_sign h body
      → AllPos (h ∷ body)
      → has d (h ∷ body) ≡ false
      → ((c : ℕ)
          → board' c ≡ (
              if c == 0
              then space
              else if has c (init (h ∷ body))
              then set_at
                  (set_at board (last_of h body) space)
                  d
                  (set_at board (last_of h body) space h)
                  (entry (init (h ∷ body)) 1)
              else set_at
                  (set_at board (last_of h body) space)
                  d
                  (set_at board (last_of h body) space h)
                  c))
      → IsShown board' head_sign body_sign d (init (h ∷ body)) × Frame board board' d (h ∷ body)
  moves-IsShown [] v ps fresh shown = absurd (omega (arith, v.long))
  moves-IsShown (b ∷ []) v ps fresh shown = absurd (omega (arith, v.long))
  moves-IsShown (a ∷ b ∷ body) v ps fresh shown = (
    record {
      head = ground (arith, shown d, once, v.head, has-init d h (a ∷ b ∷ body), fresh, positive);
      others = λ c inside. ground (
        arith,
        shown c,
        inside,
        once,
        fresh,
        v.others a,
        has-pos c (init (h ∷ a ∷ b ∷ body)) (AllPos-init h (a ∷ b ∷ body) ps) inside,
      );
      distinct =
          (has-init-false d h (a ∷ b ∷ body) fresh, Distinct-init h (a ∷ b ∷ body) v.distinct);
      long = omega (arith, v.long, length-init b body);
    },
    λ c p ne out. ground (arith, shown c, out, ne, p, has-init c h (a ∷ b ∷ body)),
  )
    where
      once : has (last_of h (a ∷ b ∷ body)) (h ∷ a ∷ init (b ∷ body)) ≡ false
      once = last_of-once h (a ∷ b ∷ body) v.distinct
