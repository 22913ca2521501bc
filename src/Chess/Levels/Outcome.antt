-- ===== src/Chess/Levels/Outcome.antt =====
-- A round of printLevelsToFile.

use mathlib.Core.List.{append-nil}
use cs_bsc_technion.Base.{
  ◌+◌, ◌≡◌, refl, true, false, ◌||◌, List, [], ◌∷◌, ◌++◌, length, length-append, if◌then◌else◌,
  arith, Bool-cases, inl, inr, ap, ◌∙◌, sym,
}
use cs_bsc_technion.Chess.Levels.{Levels, Entry}
use cs_bsc_technion.Chess.Levels.Order.{
  at_level, above_count, below_count, NoneBetween, above_count-next, below-not-back,
  equal_of_neither,
}
use cs_bsc_technion.Chess.Levels.Falling.{
  Descending, AllOver, at_level-append, at_level-at_level, NoneAbove-at_level, Descending-at_level,
  Descending-append, AllOver-round,
}

module _ (L : Levels) where
  open L use {Level, below, equal, equal_iff, below_irrefl, below_trans, below_total}

  between_empty :
      (low high l : Level) (es : List (Entry L))
      → NoneBetween L low high es
      → below low l ≡ true
      → below l high ≡ true
      → at_level L l es ≡ []
  between_empty low high l [] n p q = refl
  between_empty low high l (e ∷ es) n p q = elim (Bool-cases (equal e.level l)) [
    | inl h ↦
        let same = (equal_iff e.level l).0 h in
        let under : below e.level high ≡ false = n.0 (ap (below low) same ∙ p) in
        absurd (ground (arith, ap (λ (a : Level). below a high) same, under, q))
    | inr h ↦ rw h (between_empty low high l es n.1 p q)
  ]

  pub below_empty :
      (number l : Level) (es : List (Entry L))
      → below_count L number es ≡ 0
      → below l number ≡ true
      → at_level L l es ≡ []
  below_empty number l [] z q = refl
  below_empty number l (e ∷ es) z q = elim (Bool-cases (equal e.level l)) [
    | inl h ↦
        let under : below e.level number ≡ true =
          ap (λ (a : Level). below a number) ((equal_iff e.level l).0 h) ∙ q in
        absurd (ground (arith, under, z))
    | inr h ↦ rw h (below_empty number l es (ground (arith, z)) q)
  ]

  -- Before a round: what is over the level has been written.
  pub record IsAhead (es : List (Entry L)) (number : Level) (out : List (Entry L)) : Type 0 where
    pub falls : Descending L out
    pub over : AllOver L number out
    pub shown : (l : Level) → at_level L l out ≡ (if below number l then at_level L l es else [])
    pub counted : length out ≡ above_count L number es

  -- Behind a round: what is at the level too.
  pub round_shown :
      (es : List (Entry L)) (number : Level) (out : List (Entry L)) (l : Level)
      → IsAhead es number out
      → at_level L l (out ++ at_level L number es)
        ≡ (if below number l || equal number l then at_level L l es else [])
  round_shown es number out l v =
      at_level-append L l out (at_level L number es)
      ∙ parts (at_level L l out) (at_level L l (at_level L number es)) (v.shown l)
          (at_level-at_level L l number es)
    where
      parts :
          (xs ys : List (Entry L))
          → xs ≡ (if below number l then at_level L l es else [])
          → ys ≡ (if equal number l then at_level L l es else [])
          → xs ++ ys ≡ (if below number l || equal number l then at_level L l es else [])
      parts xs ys p q = elim (Bool-cases (below number l)) [
        | inl h ↦
            let ne = (below-not-back L number l h).0 in
            rw (p, q, h, ne) (append-nil (at_level L l es))
        | inr h ↦ rw (p, q, h) refl
      ]

  pub round_counted :
      (es : List (Entry L)) (number : Level) (out : List (Entry L))
      → IsAhead es number out
      → length (out ++ at_level L number es)
        ≡ above_count L number es + length (at_level L number es)
  round_counted es number out v = omega (arith, length-append out (at_level L number es), v.counted)

  pub round_falls :
      (es : List (Entry L)) (number : Level) (out : List (Entry L))
      → IsAhead es number out
      → Descending L (out ++ at_level L number es)
  round_falls es number out v =
      Descending-append L number out (at_level L number es) v.falls v.over
        (NoneAbove-at_level L number es) (Descending-at_level L number es)

  -- The next lower level.
  pub next-IsAhead :
      (es : List (Entry L)) (number level : Level) (out : List (Entry L))
      → IsAhead es number out
      → below level number ≡ true
      → NoneBetween L level number es
      → IsAhead es level (out ++ at_level L number es)
  next-IsAhead es number level out v lower n = record {
    falls = round_falls es number out v;
    over = AllOver-round L level number out es lower v.over;
    shown = λ l. round_shown es number out l v ∙ as_next l;
    counted = round_counted es number out v ∙ sym (above_count-next L level number es lower n);
  }
    where
      as_next :
          (l : Level)
          → (if below number l || equal number l then at_level L l es else [])
            ≡ (if below level l then at_level L l es else [])
      as_next l = elim (Bool-cases (below number l)) [
        | inl h ↦ rw (h, below_trans level number l lower h) refl
        | inr h ↦ elim (Bool-cases (equal number l)) [
          | inl s ↦
              let under : below level l ≡ true =
                ap (below level) (sym ((equal_iff number l).0 s)) ∙ lower in
              rw (h, s, under) refl
          | inr ne ↦ elim (Bool-cases (below level l)) [
            | inl p ↦ rw (h, ne, p) (sym (between_empty level number l es n p (lower_of l h ne)))
            | inr p ↦ rw (h, ne, p) refl
          ]
        ]
      ]
        where
          lower_of :
              (l : Level) → below number l ≡ false → equal number l ≡ false → below l number ≡ true
          lower_of l h ne = elim (Bool-cases (below l number)) [
            | inl p ↦ p
            | inr p ↦ absurd (ground (arith, equal_of_neither L number l h p, ne))
          ]
