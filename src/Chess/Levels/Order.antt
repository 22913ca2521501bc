-- ===== src/Chess/Levels/Order.antt =====
-- The entries of the table by their levels: at one level, above it and below it.
use cs_bsc_technion.Base.{
  ℕ, ◌+◌, ◌≡◌, refl, true, false, List, [], ◌∷◌, length, if◌then◌else◌, arith, Bool-cases, inl, inr,
  ap, ◌∙◌, sym,
}
use cs_bsc_technion.Chess.Levels.{Levels, Entry}

module _ (L : Levels) where
  open L use {Level, below, equal, equal_iff, below_irrefl, below_trans, below_total}

  abbrev pub at_level : Level → List (Entry L) → List (Entry L)
  at_level l [] = []
  at_level l (e ∷ es) = if equal e.level l then e ∷ at_level l es else at_level l es

  -- How many are above a level, and how many below it.
  abbrev pub above_count : Level → List (Entry L) → ℕ
  above_count l [] = 0
  above_count l (e ∷ es) = (if below l e.level then 1 else 0) + above_count l es

  abbrev pub below_count : Level → List (Entry L) → ℕ
  below_count l [] = 0
  below_count l (e ∷ es) = (if below e.level l then 1 else 0) + below_count l es

  pub equal_refl : (a : Level) → equal a a ≡ true
  equal_refl a = (equal_iff a a).1 refl

  pub equal-not-below : (a b : Level) → equal a b ≡ true → (below a b ≡ false) × (below b a ≡ false)
  equal-not-below a b e =
      let same = (equal_iff a b).0 e in
      (
        ap (λ (c : Level). below a c) (sym same) ∙ below_irrefl a,
        ap (below b) same ∙ below_irrefl b,
      )

  pub below-not-back : (a b : Level) → below a b ≡ true → (equal a b ≡ false) × (below b a ≡ false)
  below-not-back a b lower = (
    elim (Bool-cases (equal a b)) [
      | inl e ↦ absurd (ground (arith, equal-not-below a b e, lower))
      | inr ne ↦ ne
    ],
    elim (Bool-cases (below b a)) [
      | inl back ↦ absurd (ground (arith, below_trans a b a lower back, below_irrefl a))
      | inr ne ↦ ne
    ],
  )

  pub equal_of_neither : (a b : Level) → below a b ≡ false → below b a ≡ false → equal a b ≡ true
  equal_of_neither a b p q = (equal_iff a b).1 (below_total a b p q)

  -- Each entry is above a level, at it or below it.
  pub level_counts :
      (l : Level) (es : List (Entry L))
      → above_count l es + length (at_level l es) + below_count l es ≡ length es
  level_counts l [] = refl
  level_counts l (e ∷ es) = elim (Bool-cases (below l e.level)) [
    | inl above ↦
        let (ne, back) = below-not-back l e.level above in
        let ne' : equal e.level l ≡ false = not_equal e.level l back above in
        ground (arith, level_counts l es, above, back, ne')
    | inr not_above ↦ elim (Bool-cases (below e.level l)) [
      | inl under ↦
          ground (arith, level_counts l es, not_above, under, (below-not-back e.level l under).0)
      | inr not_under ↦ ground (
        arith,
        level_counts l es,
        not_above,
        not_under,
        equal_of_neither e.level l not_under not_above,
      )
    ]
  ]
    where
      not_equal : (a b : Level) → below a b ≡ false → below b a ≡ true → equal a b ≡ false
      not_equal a b p q = elim (Bool-cases (equal a b)) [
        | inl e ↦ absurd (ground (arith, equal-not-below a b e, q))
        | inr ne ↦ ne
      ]

  -- No level of an entry stands between two levels.
  abbrev pub NoneBetween : Level → Level → List (Entry L) → Type 0
  NoneBetween low high [] = Unit
  NoneBetween low high (e ∷ es) =
      ((below low e.level ≡ true) → below e.level high ≡ false) × NoneBetween low high es

  -- With none between them, what is above the lower level is above the higher one or at it.
  pub above_count-next :
      (low high : Level) (es : List (Entry L))
      → below low high ≡ true
      → NoneBetween low high es
      → above_count low es ≡ above_count high es + length (at_level high es)
  above_count-next low high [] h none_between = refl
  above_count-next low high (e ∷ es) h none_between =
      let rest = above_count-next low high es h none_between.1 in
      elim (Bool-cases (below low e.level)) [
        | inl above ↦ elim (Bool-cases (below high e.level)) [
          | inl higher ↦ ground (
            arith,
            rest,
            above,
            higher,
            unequal e.level high (below-not-back high e.level higher).1 higher,
          )
          | inr not_higher ↦ ground (
            arith,
            rest,
            above,
            not_higher,
            equal_of_neither e.level high (none_between.0 above) not_higher,
          )
        ]
        | inr not_above ↦
            let not_higher : below high e.level ≡ false = under_high e.level not_above in
            ground (arith, rest, not_above, not_higher, unlike e.level not_above)
      ]
    where
      unequal : (a b : Level) → below a b ≡ false → below b a ≡ true → equal a b ≡ false
      unequal a b p q = elim (Bool-cases (equal a b)) [
        | inl e ↦ absurd (ground (arith, equal-not-below a b e, q))
        | inr ne ↦ ne
      ]

      under_high : (a : Level) → below low a ≡ false → below high a ≡ false
      under_high a p = elim (Bool-cases (below high a)) [
        | inl q ↦ absurd (ground (arith, below_trans low high a h q, p))
        | inr q ↦ q
      ]

      unlike : (a : Level) → below low a ≡ false → equal a high ≡ false
      unlike a p = elim (Bool-cases (equal a high)) [
        | inl e ↦ absurd (ground (arith, ap (below low) ((equal_iff a high).0 e), p, h))
        | inr ne ↦ ne
      ]
