-- ===== src/Chess/Levels/Falling.antt =====
-- Lists of entries from the highest level down.
use mathlib.Core.Path.{subst}
use cs_bsc_technion.Base.{
  ◌≡◌, refl, true, false, ◌&&◌, List, [], ◌∷◌, ◌++◌, if◌then◌else◌, arith, Bool-cases, inl, inr, ap,
  ◌∙◌, sym,
}
use cs_bsc_technion.Chess.Levels.{Levels, Entry}
use cs_bsc_technion.Chess.Levels.Order.{at_level, equal-not-below}

module _ (L : Levels) where
  open L use {Level, below, equal, equal_iff, below_irrefl, below_trans, below_total}

  -- No entry is above a level.
  abbrev pub NoneAbove : Level → List (Entry L) → Type 0
  NoneAbove l [] = Unit
  NoneAbove l (e ∷ es) = (below l e.level ≡ false) × NoneAbove l es

  abbrev pub Descending : List (Entry L) → Type 0
  Descending [] = Unit
  Descending (e ∷ es) = NoneAbove e.level es × Descending es

  -- From the highest level down, and at each level the same players in the same order.
  pub record IsRanking (es out : List (Entry L)) : Type 0 where
    pub falls : Descending out
    pub same : (l : Level) → at_level L l out ≡ at_level L l es

  abbrev pub AllOver : Level → List (Entry L) → Type 0
  AllOver l [] = Unit
  AllOver l (e ∷ es) = (below l e.level ≡ true) × AllOver l es

  pub at_level-append :
      (l : Level) (xs ys : List (Entry L))
      → at_level L l (xs ++ ys) ≡ at_level L l xs ++ at_level L l ys
  at_level-append l [] ys = refl
  at_level-append l (x ∷ xs) ys = elim (Bool-cases (equal x.level l)) [
    | inl h ↦ rw h (ap (λ (t : List (Entry L)). x ∷ t) (at_level-append l xs ys))
    | inr h ↦ rw h (at_level-append l xs ys)
  ]

  pub at_level-at_level :
      (l m : Level) (es : List (Entry L))
      → at_level L l (at_level L m es) ≡ (if equal m l then at_level L l es else [])
  at_level-at_level l m [] = ground arith
  at_level-at_level l m (e ∷ es) = elim (Bool-cases (equal e.level m)) [
    | inl h ↦
        let same : equal e.level l ≡ equal m l =
          ap (λ (a : Level). equal a l) ((equal_iff e.level m).0 h) in
        ground (arith, h, same, at_level-at_level l m es)
    | inr h ↦ ground (arith, h, at_level-at_level l m es, unlike e.level h)
  ]
    where
      unlike : (a : Level) → equal a m ≡ false → (equal m l && equal a l) ≡ false
      unlike a h = elim (Bool-cases (equal m l)) [
        | inl p ↦ ground (arith, p, h, ap (equal a) ((equal_iff m l).0 p))
        | inr p ↦ rw p refl
      ]

  pub NoneAbove-at_level : (l : Level) (es : List (Entry L)) → NoneAbove l (at_level L l es)
  NoneAbove-at_level l [] = tt
  NoneAbove-at_level l (e ∷ es) = elim (Bool-cases (equal e.level l)) [
    | inl h ↦ rw h ((equal-not-below L e.level l h).1, NoneAbove-at_level l es)
    | inr h ↦ rw h (NoneAbove-at_level l es)
  ]

  pub Descending-at_level : (l : Level) (es : List (Entry L)) → Descending (at_level L l es)
  Descending-at_level l [] = tt
  Descending-at_level l (e ∷ es) = elim (Bool-cases (equal e.level l)) [
    | inl h ↦ rw h (
      subst (λ (a : Level). NoneAbove a (at_level L l es)) (sym ((equal_iff e.level l).0 h))
          (NoneAbove-at_level l es),
      Descending-at_level l es,
    )
    | inr h ↦ rw h (Descending-at_level l es)
  ]

  NoneAbove-append :
      (l : Level) (xs ys : List (Entry L))
      → NoneAbove l xs
      → NoneAbove l ys
      → NoneAbove l (xs ++ ys)
  NoneAbove-append l [] ys p q = q
  NoneAbove-append l (x ∷ xs) ys p q = (p.0, NoneAbove-append l xs ys p.1 q)

  NoneAbove-lower :
      (a l : Level) (es : List (Entry L)) → below l a ≡ true → NoneAbove l es → NoneAbove a es
  NoneAbove-lower a l [] h p = tt
  NoneAbove-lower a l (e ∷ es) h p = (
    elim (Bool-cases (below a e.level)) [
      | inl q ↦ absurd (ground (arith, below_trans l a e.level h q, p.0))
      | inr q ↦ q
    ],
    NoneAbove-lower a l es h p.1,
  )

  -- What is over a level comes first, then what is at it.
  pub Descending-append :
      (l : Level) (xs ys : List (Entry L))
      → Descending xs
      → AllOver l xs
      → NoneAbove l ys
      → Descending ys
      → Descending (xs ++ ys)
  Descending-append l [] ys d o n q = q
  Descending-append l (x ∷ xs) ys d o n q = (
    NoneAbove-append x.level xs ys d.0 (NoneAbove-lower x.level l ys o.0 n),
    Descending-append l xs ys d.1 o.1 n q,
  )

  pub AllOver-round :
      (low high : Level) (xs es : List (Entry L))
      → below low high ≡ true
      → AllOver high xs
      → AllOver low (xs ++ at_level L high es)
  AllOver-round low high [] es h o = group es
    where
      group : (es : List (Entry L)) → AllOver low (at_level L high es)
      group [] = tt
      group (e ∷ es) = elim (Bool-cases (equal e.level high)) [
        | inl p ↦ rw p (ap (below low) ((equal_iff e.level high).0 p) ∙ h, group es)
        | inr p ↦ rw p (group es)
      ]
  AllOver-round low high (x ∷ xs) es h o =
      (below_trans low high x.level h o.0, AllOver-round low high xs es h o.1)
