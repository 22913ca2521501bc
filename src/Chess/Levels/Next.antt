-- ===== src/Chess/Levels/Next.antt =====
-- indexOfSmallClosesNumber: the first entry at the highest level below a level.
use mathlib.Core.Path.{subst}
use mathlib.Core.List.{append-nil, append_assoc}
use cs_bsc_technion.Base.{
  ℕ, ◌+◌, ◌≤◌, ◌≡◌, refl, Bool, true, false, ◌&&◌, some, none, Option, List, [], ◌∷◌, ◌++◌, length,
  length-append, if◌then◌else◌, arith, Bool-cases, inl, inr, ap, ◌∙◌, sym,
}
use cs_bsc_technion.Chess.Levels.{
  Levels, Entry, entry_at, index_from, index_of_small_closes_number, next_level,
}
use cs_bsc_technion.Chess.Levels.Order.{below_count, NoneBetween}

module _ (L : Levels) where
  open L use {Level, below, equal, equal_iff, below_trans, below_irrefl}

  -- The best entry is at its index, counted from the one where the search began, and below the level.
  abbrev IsBest : List (Entry L) → Level → ℕ × Level → Type 0
  IsBest whole number (index, level) =
      (x : Entry L) × (entry_at L whole index ≡ some x)
      × (x.level ≡ level)
      × (below level number ≡ true)

  -- No entry is above the best one and below the level.
  abbrev NoneBetter : List (Entry L) → Level → Level → Type 0
  NoneBetter es number level = NoneBetween L level number es

  -- Whether the search takes an entry.
  abbrev takes : Level → Entry L → Option (ℕ × Level) → Bool
  takes number e best =
      below e.level number
      && elim best [ none ↦ true | some (_, second_max_number) ↦ below second_max_number e.level ]

  pub entry_at-shift :
      (pre : List (Entry L)) (e : Entry L) (es : List (Entry L))
      → entry_at L (pre ++ e ∷ es) (length pre) ≡ some e
  unfolding entry_at
  entry_at-shift [] e es = refl
  entry_at-shift (p ∷ pre) e es = entry_at-shift pre e es

  NoneBetween-lower :
      (low low' high : Level) (es : List (Entry L))
      → below low low' ≡ true
      → NoneBetween L low high es
      → NoneBetween L low' high es
  NoneBetween-lower low low' high [] h n = tt
  NoneBetween-lower low low' high (e ∷ es) h n = (
    λ above. n.0 (below_trans low low' e.level h above),
    NoneBetween-lower low low' high es h n.1,
  )

  NoneBetween-append_one :
      (low high : Level) (es : List (Entry L)) (e : Entry L)
      → NoneBetween L low high es
      → ((below low e.level ≡ true) → below e.level high ≡ false)
      → NoneBetween L low high (es ++ e ∷ [])
  NoneBetween-append_one low high [] e n h = (h, tt)
  NoneBetween-append_one low high (x ∷ es) e n h = (n.0, NoneBetween-append_one low high es e n.1 h)

  -- What the search knows behind a part of the table.
  abbrev Found : List (Entry L) → List (Entry L) → Level → Option (ℕ × Level) → Type 0
  Found whole pre number none = below_count L number pre ≡ 0
  Found whole pre number (some best) = IsBest whole number best × NoneBetter pre number best.1

  below_count-append_one :
      (l : Level) (es : List (Entry L)) (e : Entry L)
      → below_count L l (es ++ e ∷ []) ≡ below_count L l es + (if below e.level l then 1 else 0)
  below_count-append_one l [] e = omega arith
  below_count-append_one l (x ∷ es) e = omega (arith, below_count-append_one l es e)

  none_below :
      (low number : Level) (es : List (Entry L))
      → below_count L number es ≡ 0
      → NoneBetween L low number es
  none_below low number [] h = tt
  none_below low number (e ∷ es) h =
      (λ above. ground (arith, h), none_below low number es (ground (arith, h)))

  step-Found :
      (whole pre : List (Entry L)) (e : Entry L) (es : List (Entry L)) (number : Level)
      (best : Option (ℕ × Level))
      → whole ≡ pre ++ e ∷ es
      → Found whole pre number best
      → Found whole
          (pre ++ e ∷ [])
          number
          (if takes number e best then some (length pre, e.level) else best)
  step-Found whole pre e es number none w f = elim (Bool-cases (below e.level number)) [
    | inl under ↦ rw under (
      (
        e,
        ap (λ (t : List (Entry L)). entry_at L t (length pre)) w ∙ entry_at-shift pre e es,
        refl,
        under,
      ),
      NoneBetween-append_one e.level number pre e (none_below e.level number pre f)
          (λ above. absurd (ground (arith, above, below_irrefl e.level))),
    )
    | inr over ↦ rw over (ground (arith, below_count-append_one number pre e, over, f))
  ]
  step-Found whole pre e es number (some (index, level)) w f =
      elim (Bool-cases (below e.level number)) [
        | inl under ↦ elim (Bool-cases (below level e.level)) [
          | inl better ↦
              rw (under, better)
                (
                  (
                    e,
                    ap (λ (t : List (Entry L)). entry_at L t (length pre)) w
                        ∙ entry_at-shift pre e es,
                    refl,
                    under,
                  ),
                  NoneBetween-append_one e.level number pre e
                      (NoneBetween-lower level e.level number pre better f.1)
                      (λ above. absurd (ground (arith, above, below_irrefl e.level))),
                )
          | inr worse ↦
              rw (under, worse)
                (
                  f.0,
                  NoneBetween-append_one level number pre e f.1
                      (λ above. absurd (ground (arith, above, worse))),
                )
        ]
        | inr over ↦ rw over (f.0, NoneBetween-append_one level number pre e f.1 (λ above. over))
      ]

  index_from_lem :
      (whole pre es : List (Entry L)) (number : Level) (best : Option (ℕ × Level))
      → whole ≡ pre ++ es
      → Found whole pre number best
      → Found whole whole number (index_from L es number (length pre) best)
  unfolding index_from
  index_from_lem whole pre [] number best w f =
      subst (λ (t : List (Entry L)). Found whole t number best) (sym (w ∙ append-nil pre)) f
  index_from_lem whole pre (e ∷ es) number best w f =
      subst
        (λ (i : ℕ). Found whole whole number (
          index_from L es number i
            (if takes number e best then some (length pre, e.level) else best)))
        (length-append pre (e ∷ []) ∙ omega arith)
        (index_from_lem whole (pre ++ e ∷ []) es number
          (if takes number e best then some (length pre, e.level) else best)
          (w ∙ sym (append_assoc pre (e ∷ []) es)) (step-Found whole pre e es number best w f))

  -- While some entry is below the level, the next one is found: none is between it and the level.
  pub next_level_lem :
      (es : List (Entry L)) (number : Level)
      → 1 ≤ below_count L number es
      → (level : Level) × (index : ℕ) × (x : Entry L) × (next_level L es number
          ≡ some (level, index))
        × (entry_at L es index ≡ some x)
        × (x.level ≡ level)
        × (below level number ≡ true)
        × NoneBetween L level number es
  unfolding next_level index_of_small_closes_number
  next_level_lem es number some_below =
      from (index_from L es number 0 none) refl (index_from_lem es [] es number none refl refl)
    where
      from :
          (best : Option (ℕ × Level))
          → index_from L es number 0 none ≡ best
          → Found es es number best
          → (level : Level) × (index : ℕ) × (x : Entry L) × (next_level L es number
              ≡ some (level, index))
            × (entry_at L es index ≡ some x)
            × (x.level ≡ level)
            × (below level number ≡ true)
            × NoneBetween L level number es
      from none e f = absurd (omega (arith, f, some_below))
      from (some (index, level)) e ((x, at, same, under), better) =
          (level, index, x, ground (arith, e, at, same), at, same, under, better)
