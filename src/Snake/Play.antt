-- ===== src/Snake/Play.antt =====
-- What a move of one snake means for the other one.

use cs_bsc_technion.Base.{
  ℕ, ◌≤◌, ◌≡◌, true, false, not, List, ◌∷◌, arith, ap, sym, ◌∙◌, Bool-cases, inl, inr,
}
use cs_bsc_technion.Snake.{Game, Player, cells}
use cs_bsc_technion.Snake.Turns.{snake_of, hist_of, write_move}
use cs_bsc_technion.Snake.History.{IsArray}
use cs_bsc_technion.Snake.Draw.{has}
use cs_bsc_technion.Snake.Shown.{IsShown, has-pos}
use cs_bsc_technion.Snake.Both.{head_sign, body_sign, whole, IsPair, IsShown-frame, IsStep}

abbrev pub set_body : (Player → List ℕ) → Player → List ℕ → Player → List ℕ
set_body body false xs false = xs
set_body body false xs true = body true
set_body body true xs false = body false
set_body body true xs true = xs

-- The other snake is in none of the cells of a snake.
pub apart_from :
    {g : Game} {body : Player → List ℕ} (player : Player) (c : ℕ)
    → IsPair g body
    → has c (whole g body (not player)) ≡ true
    → has c (whole g body player) ≡ false
apart_from {g} {body} false c v i = elim (Bool-cases (has c (whole g body false))) [
  | inl both ↦ absurd (ground (arith, v.apart c both, i))
  | inr out ↦ out
]
apart_from true c v i = v.apart c i

-- A step of one snake leaves the other as it was.
module _ (g : Game) (body : Player → List ℕ) (v : IsPair g body) (d : ℕ) (board' snake_hist : ℕ → ℕ)
    (body' : List ℕ) where
  other-IsShown :
      (player : Player)
      → has d (whole g body (not player)) ≡ false
      → IsStep g.board
          (head_sign player)
          (body_sign player)
          (snake_of g player).head_index
          (body player)
          d
          board'
          snake_hist
          body'
      → IsShown board'
          (head_sign (not player))
          (body_sign (not player))
          (snake_of g (not player)).head_index
          (body (not player))
  other-IsShown player far step =
      IsShown-frame g.board board' _ _ _ (body (not player))
        (λ c i.
          step.frame c (has-pos c (whole g body (not player)) (v.array (not player)).positive i)
            (λ e. elim_far c e i) (apart_from player c v i))
        (v.shown (not player))
    where
      elim_far : (c : ℕ) → c ≡ d → has c (whole g body (not player)) ≡ true → ⊥
      elim_far c e i =
          ground (arith, sym far ∙ ap (λ (x : ℕ). has x (whole g body (not player))) (sym e) ∙ i)

  step-apart :
      (player : Player) (c : ℕ)
      → has d (whole g body (not player)) ≡ false
      → IsStep g.board
          (head_sign player)
          (body_sign player)
          (snake_of g player).head_index
          (body player)
          d
          board'
          snake_hist
          body'
      → has c (whole g body (not player)) ≡ true
      → has c (d ∷ body') ≡ false
  step-apart player c far step i = elim (Bool-cases (has c (d ∷ body'))) [
    | inr out ↦ out
    | inl in_it ↦ elim (step.within c in_it) [
      | inl e ↦
          absurd (
            ground (arith, sym far ∙ ap (λ (x : ℕ). has x (whole g body (not player))) (sym e) ∙ i))
      | inr old ↦ absurd (ground (arith, apart_from player c v i, old))
    ]
  ]

  step-inside :
      (player : Player) (c : ℕ)
      → d ≤ cells
      → IsStep g.board
          (head_sign player)
          (body_sign player)
          (snake_of g player).head_index
          (body player)
          d
          board'
          snake_hist
          body'
      → has c (d ∷ body') ≡ true
      → c ≤ cells
  step-inside player c low step i = elim (step.within c i) [
    | inl e ↦ omega (arith, e, low)
    | inr old ↦ v.inside player c old
  ]

  pub write_move-IsPair :
      (player : Player)
      → d ≤ cells
      → has d (whole g body (not player)) ≡ false
      → IsStep g.board
          (head_sign player)
          (body_sign player)
          (snake_of g player).head_index
          (body player)
          d
          board'
          snake_hist
          body'
      → IsPair (write_move g player board' d snake_hist) (set_body body player body')
  write_move-IsPair false low far step = record {
    array = λ p.
        elim p
          as (λ q.
            IsArray (hist_of (write_move g false board' d snake_hist) q)
              (whole (write_move g false board' d snake_hist) (set_body body false body') q)) [
                | false ↦ step.array
                | true ↦ v.array true
              ];
    shown = λ p.
        elim p
          as (λ q.
            IsShown board' (head_sign q) (body_sign q)
              (snake_of (write_move g false board' d snake_hist) q).head_index
              (set_body body false body' q)) [
                | false ↦ step.shown
                | true ↦ other-IsShown false far step
              ];
    apart = λ c i. elim (Bool-cases (has c (whole g body true))) [
      | inl there ↦ absurd (ground (arith, step-apart false c far step there, i))
      | inr out ↦ out
    ];
    inside = λ p.
        elim p
          as (λ q.
            (c : ℕ)
            → has c (whole (write_move g false board' d snake_hist) (set_body body false body') q)
              ≡ true
            → c ≤ cells) [ false ↦ λ c i. step-inside false c low step i | true ↦ v.inside true ];
  }
  write_move-IsPair true low far step = record {
    array = λ p.
        elim p
          as (λ q.
            IsArray (hist_of (write_move g true board' d snake_hist) q)
              (whole (write_move g true board' d snake_hist) (set_body body true body') q)) [
                | true ↦ step.array
                | false ↦ v.array false
              ];
    shown = λ p.
        elim p
          as (λ q.
            IsShown board' (head_sign q) (body_sign q)
              (snake_of (write_move g true board' d snake_hist) q).head_index
              (set_body body true body' q)) [
                | true ↦ step.shown
                | false ↦ other-IsShown true far step
              ];
    apart = λ c i. step-apart true c far step i;
    inside = λ p.
        elim p
          as (λ q.
            (c : ℕ)
            → has c (whole (write_move g true board' d snake_hist) (set_body body true body') q)
              ≡ true
            → c ≤ cells) [ true ↦ λ c i. step-inside true c low step i | false ↦ v.inside false ];
  }
