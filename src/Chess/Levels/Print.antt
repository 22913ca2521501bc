-- ===== src/Chess/Levels/Print.antt =====
-- What a round of printLevelsToFile writes: the players at one level, in the order of the table.
use mathlib.Core.List.{append-nil, append_assoc}
use cs_bsc_technion.Base.{
  ℕ, zero, suc, ◌+◌, ◌≤◌, ◌<◌, ◌≡◌, refl, Bool, true, false, not, ◌&&◌, some, List, [], ◌∷◌, ◌++◌,
  length, ◌==◌, arith, Bool-cases, inl, inr, ap, ◌∙◌, sym,
}
use cs_bsc_technion.Chess.Levels.{Levels, Entry, entry_at, check_same_from, print_same, print_round}
use cs_bsc_technion.Chess.Levels.Order.{at_level}

module _ (L : Levels) where
  open L use {Level, below, equal, equal_iff}

  -- The identifiers are not 0.
  abbrev pub AllIds : List (Entry L) → Type 0
  AllIds [] = Unit
  AllIds (e ∷ es) = (1 ≤ e.id) × AllIds es

  print_same_lem :
      (writable : ℕ → Bool) (l : Level) (es out : List (Entry L))
      → ((k : ℕ) → writable k ≡ true)
      → AllIds es
      → print_same L writable l es out ≡ (true, out ++ at_level L l es)
  unfolding print_same
  print_same_lem writable l [] out w ids = rw append-nil refl
  print_same_lem writable l (e ∷ es) out w ids = elim (Bool-cases (equal e.level l)) [
    | inl same ↦
        let test : (not (e.id == 0) && equal e.level l) ≡ true = ground (arith, same, ids) in
        rw (test, w (length out), same, print_same)
          (print_same_lem writable l es (out ++ e ∷ []) w ids.1
            ∙ ap (λ (t : List (Entry L)). (true, t)) (append_assoc out (e ∷ []) (at_level L l es)))
    | inr other ↦
        let test : (not (e.id == 0) && equal e.level l) ≡ false = ground (arith, other) in
        rw (test, other, print_same) (print_same_lem writable l es out w ids.1)
  ]

  -- With no other entry at the level behind the index, none is there.
  at_level-behind :
      (l : Level) (es : List (Entry L)) (i index : ℕ)
      → index < i
      → check_same_from L es l i index ≡ false
      → at_level L l es ≡ []
  unfolding check_same_from
  at_level-behind l [] i index h e = refl
  at_level-behind l (x ∷ es) i index h e =
      ground (arith, e, at_level-behind l es (i + 1) index (omega (arith, h)))

  at_level-single :
      (l : Level) (es : List (Entry L)) (i j : ℕ) (x : Entry L)
      → entry_at L es j ≡ some x
      → equal x.level l ≡ true
      → check_same_from L es l i (i + j) ≡ false
      → at_level L l es ≡ x ∷ []
  unfolding check_same_from entry_at
  at_level-single l [] i j x at same e = cc
  at_level-single l (y ∷ es) i zero x at same e =
      ground (arith, at, same, e, at_level-behind l es (i + 1) (i + 0) (omega arith))
  at_level-single l (y ∷ es) i (suc j) x at same e =
      let shift : i + suc j ≡ (i + 1) + j = omega arith in
      let rest : check_same_from L es l (i + 1) ((i + 1) + j) ≡ false =
        ap (check_same_from L es l (i + 1)) (sym shift) ∙ ground (arith, e) in
      ground (arith, at, same, e, at_level-single l es (i + 1) j x at same rest)

  pub print_round_lem :
      (writable : ℕ → Bool) (es : List (Entry L)) (l : Level) (index : ℕ) (out : List (Entry L))
      (x : Entry L)
      → ((k : ℕ) → writable k ≡ true)
      → AllIds es
      → entry_at L es index ≡ some x
      → x.level ≡ l
      → print_round L writable es l index out ≡ some (true, out ++ at_level L l es)
  unfolding print_round
  print_round_lem writable es l index out x w ids at level =
      elim (Bool-cases (check_same_from L es l 0 index)) [
        | inl more ↦ rw (more, print_same_lem writable l es out w ids) refl
        | inr alone ↦
            let here : check_same_from L es l 0 (0 + index) ≡ false =
              ap (check_same_from L es l 0) (omega arith) ∙ alone in
            let same : equal x.level l ≡ true = (equal_iff x.level l).1 level in
            rw (alone, at, w (length out), at_level-single l es 0 index x at same here) refl
      ]
