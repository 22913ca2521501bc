-- ===== src/Chess/Levels/Ranking.antt =====
-- The loop of printLevelsToFile.
use cs_bsc_technion.Base.{
  ℕ, zero, suc, ◌+◌, ◌≤◌, ◌<◌, ◌≡◌, refl, Bool, true, false, not, ◌&&◌, ◌||◌, some, List, [], ◌∷◌,
  ◌++◌, length, if◌then◌else◌, ◌==◌, ltb, arith, Bool-cases, inl, inr, ◌∙◌, sym,
}
use cs_bsc_technion.Chess.Types.{chess_success}
use cs_bsc_technion.Chess.Levels.{Levels, Entry, entry_at, print_levels}
use cs_bsc_technion.Chess.Levels.Order.{at_level, below_count, level_counts, equal_of_neither}
use cs_bsc_technion.Chess.Levels.Next.{next_level_lem}
use cs_bsc_technion.Chess.Levels.Print.{AllIds, print_round_lem}
use cs_bsc_technion.Chess.Levels.Falling.{IsRanking}
use cs_bsc_technion.Chess.Levels.Outcome.{
  IsAhead, below_empty, round_shown, round_counted, round_falls, next-IsAhead,
}

module _ (L : Levels) where
  open L use {Level, below, equal, equal_iff}

  at_level-pos :
      (es : List (Entry L)) (i : ℕ) (x : Entry L) (l : Level)
      → entry_at L es i ≡ some x
      → equal x.level l ≡ true
      → 1 ≤ length (at_level L l es)
  unfolding entry_at
  at_level-pos [] i x l at same = cc
  at_level-pos (e ∷ es) zero x l at same = ground (arith, at, same)
  at_level-pos (e ∷ es) (suc i) x l at same = ground (arith, at_level-pos es i x l at same)

  print_levels_end :
      (fuel : ℕ) (writable : ℕ → Bool) (es : List (Entry L)) (number : Level) (index : ℕ)
      (out : List (Entry L))
      → 1 ≤ fuel
      → length es ≤ length out
      → print_levels L fuel writable es number index out ≡ some (chess_success, out)
  unfolding print_levels
  print_levels_end zero writable es number index out p h = absurd (omega arith)
  print_levels_end (suc fuel) writable es number index out p h =
      let past : ltb (length out) (length es) ≡ false = ground (arith, h) in
      rw (past, print_levels) refl

  all_written :
      (es : List (Entry L)) (number : Level) (out : List (Entry L))
      → IsAhead L es number out
      → below_count L number es ≡ 0
      → IsRanking L es (out ++ at_level L number es)
  all_written es number out v none_left = record {
    falls = round_falls L es number out v;
    same = λ l. round_shown L es number out l v ∙ whole l;
  }
    where
      whole :
          (l : Level)
          → (if below number l || equal number l then at_level L l es else []) ≡ at_level L l es
      whole l = elim (Bool-cases (below number l)) [
        | inl h ↦ rw h refl
        | inr h ↦ elim (Bool-cases (equal number l)) [
          | inl s ↦ rw (h, s) refl
          | inr ne ↦ elim (Bool-cases (below l number)) [
            | inl p ↦ rw (h, ne) (sym (below_empty L number l es none_left p))
            | inr p ↦ absurd (ground (arith, equal_of_neither L number l h p, ne))
          ]
        ]
      ]

  -- When every line can be written, the loop ends with success, for any fuel above the number of the
  -- lines that are left.
  pub print_levels_lem :
      (fuel : ℕ) (writable : ℕ → Bool) (es : List (Entry L)) (number : Level) (index : ℕ)
      (out : List (Entry L)) (x : Entry L)
      → ((k : ℕ) → writable k ≡ true)
      → AllIds L es
      → entry_at L es index ≡ some x
      → x.level ≡ number
      → IsAhead L es number out
      → length es < fuel + length out
      → (out' : List (Entry L)) × (print_levels L fuel writable es number index out
          ≡ some (chess_success, out'))
        × IsRanking L es out'
  unfolding print_levels
  print_levels_lem zero writable es number index out x w ids at level v room =
      absurd (omega (arith, room, v.counted, level_counts L number es))
  print_levels_lem (suc fuel) writable es number index out x w ids at level v room =
      let counts = level_counts L number es in
      let lines = round_counted L es number out v in
      let some_here = at_level-pos es index x number at ((equal_iff x.level number).1 level) in
      let round = print_round_lem L writable es number index out x w ids at level in
      let room_here : ltb (length out) (length es) ≡ true =
        ground (arith, v.counted, counts, some_here) in
      elim (Bool-cases (below_count L number es == 0)) [
        | inl none_left ↦
            let nothing : below_count L number es ≡ 0 = ground (arith, none_left) in
            let stop : (ltb (length (out ++ at_level L number es)) (length es)
                  && not (length es == 1))
                ≡ false =
              ground (arith, lines, counts, nothing) in
            (
              out ++ at_level L number es,
              rw (room_here, round, stop, print_levels)
                  (print_levels_end fuel writable es number index (out ++ at_level L number es)
                    (omega (arith, room, v.counted, counts, some_here))
                    (omega (arith, lines, counts, nothing))),
              all_written es number out v nothing,
            )
        | inr more ↦
            let some_left : 1 ≤ below_count L number es = ground (arith, more) in
            let go : (ltb (length (out ++ at_level L number es)) (length es)
                  && not (length es == 1))
                ≡ true =
              ground (arith, lines, counts, some_left, some_here) in
            let (number', index', x', found, at', level', lower, n) =
              next_level_lem L es number some_left in
            let (out', done, ranking) =
              print_levels_lem fuel writable es number' index' (out ++ at_level L number es) x' w
                ids at' level' (next-IsAhead L es number number' out v lower n)
                (omega (arith, room, lines, some_here, v.counted)) in
            (out', rw (room_here, round, go, found, print_levels) done, ranking)
      ]
