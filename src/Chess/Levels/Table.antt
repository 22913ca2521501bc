-- ===== src/Chess/Levels/Table.antt =====
-- The table that chessSavePlayersLevels reads from the list of the players, with its highest level.

use mathlib.Core.List.{append-nil, append_assoc}
use cs_bsc_technion.Base.{
  ℕ, zero, suc, ◌+◌, ◌≡◌, refl, true, not, some, none, Option, List, [], ◌∷◌, ◌++◌, length,
  if◌then◌else◌, arith, Bool-cases, inl, inr, ap, ◌∙◌, sym, pos, eqb_ℤ, Option-cases,
}
use cs_bsc_technion.Map.{Element, Map}
use cs_bsc_technion.Map.Iterate.{scan, scan_map}
use cs_bsc_technion.Chess.Types.{Player}
use cs_bsc_technion.Chess.Levels.{
  Levels, Entry, Reading, entry_at, enter_level, read_player, level_points, num_of_games,
}
use cs_bsc_technion.Chess.Levels.Order.{above_count}
use cs_bsc_technion.Chess.Levels.Next.{entry_at-shift}

module _ (L : Levels) where
  open L use {Level, divide, below, equal, equal_iff, below_irrefl, below_trans}

  abbrev pub entry_of : Player → Entry L
  entry_of p = record { id = p.id_player; level = divide (level_points p) (num_of_games p) }

  -- The players who have a game, in the order of the list, with their levels.
  abbrev pub with_games : List (Element ℕ Player) → List (Entry L)
  with_games [] = []
  with_games (e ∷ es) = elim e.value [
    | none ↦ []
    | some p ↦
        if not (eqb_ℤ (num_of_games p) (pos 0)) then entry_of p ∷ with_games es else with_games es
  ]

  -- The highest level is that of the entry at its index, and no entry is above it.
  abbrev pub IsHighest : List (Entry L) → Option Level → ℕ → Type 0
  IsHighest es none index = (es ≡ []) × (index ≡ 0)
  IsHighest es (some level) index =
      (x : Entry L) × (entry_at L es index ≡ some x)
      × (x.level ≡ level)
      × (above_count L level es ≡ 0)

  entry_at-append :
      (xs ys : List (Entry L)) (i : ℕ) (x : Entry L)
      → entry_at L xs i ≡ some x
      → entry_at L (xs ++ ys) i ≡ some x
  unfolding entry_at
  entry_at-append [] ys i x e = cc
  entry_at-append (y ∷ xs) ys zero x e = e
  entry_at-append (y ∷ xs) ys (suc i) x e = entry_at-append xs ys i x e

  above_count-append_one :
      (l : Level) (es : List (Entry L)) (e : Entry L)
      → above_count L l (es ++ e ∷ []) ≡ above_count L l es + (if below l e.level then 1 else 0)
  above_count-append_one l [] e = omega arith
  above_count-append_one l (x ∷ es) e = omega (arith, above_count-append_one l es e)

  above_count-higher :
      (low high : Level) (es : List (Entry L))
      → below low high ≡ true
      → above_count L low es ≡ 0
      → above_count L high es ≡ 0
  above_count-higher low high [] h z = refl
  above_count-higher low high (e ∷ es) h z = elim (Bool-cases (below high e.level)) [
    | inl p ↦ absurd (ground (arith, below_trans low high e.level h p, z))
    | inr p ↦ ground (arith, p, z, above_count-higher low high es h)
  ]

  enter_level-IsHighest :
      (p : Player) (es : List (Entry L)) (max_level : Option Level) (index : ℕ)
      → IsHighest es max_level index
      → (max_level' : Option Level) × (index' : ℕ) × (enter_level L p
            (record { entries = es; max_level = max_level; max_level_index = index })
          ≡ record {
            entries = es ++ entry_of p ∷ [];
            max_level = max_level';
            max_level_index = index';
          })
        × IsHighest (es ++ entry_of p ∷ []) max_level' index'
  unfolding enter_level entry_at
  enter_level-IsHighest p es none index (empty, at_start) = (
    some (entry_of p).level,
    index,
    refl,
    (
      entry_of p,
      rw (empty, at_start) refl,
      refl,
      rw empty (ground (arith, below_irrefl (entry_of p).level)),
    ),
  )
  enter_level-IsHighest p es (some level) index (x, at, same, highest) =
      elim (Bool-cases (below level (entry_of p).level)) [
        | inl higher ↦ (
          some (entry_of p).level,
          length es,
          rw higher refl,
          (
            entry_of p,
            entry_at-shift L es (entry_of p) [],
            refl,
            ground (
              arith,
              above_count-append_one (entry_of p).level es (entry_of p),
              below_irrefl (entry_of p).level,
              above_count-higher level (entry_of p).level es higher highest,
            ),
          ),
        )
        | inr not_higher ↦ (
          some level,
          index,
          rw not_higher refl,
          (
            x,
            entry_at-append es (entry_of p ∷ []) index x at,
            same,
            ground (arith, above_count-append_one level es (entry_of p), not_higher, highest),
          ),
        )
      ]

  -- The table behind the walk: the entries so far, and those of the players that are left.
  abbrev pub Read : List (Entry L) → Reading L → Type 0
  Read es s = (s.entries ≡ es) × IsHighest s.entries s.max_level s.max_level_index

  -- What a round makes of the table.
  Read-one :
      (p : Player) (s : Reading L)
      → IsHighest s.entries s.max_level s.max_level_index
      → Read
          (s.entries ++ (if not (eqb_ℤ (num_of_games p) (pos 0)) then entry_of p ∷ [] else []))
          (read_player L p s).state
  unfolding read_player
  Read-one p s h = elim (Bool-cases (not (eqb_ℤ (num_of_games p) (pos 0)))) [
    | inl played ↦
        let (max_level, index, e, h') =
          enter_level-IsHighest p s.entries s.max_level s.max_level_index h in
        rw (played, e) (refl, h')
    | inr no_games ↦ rw no_games (sym (append-nil s.entries), h)
  ]

  scan-Read :
      (es : List (Element ℕ Player)) (s : Reading L)
      → IsHighest s.entries s.max_level s.max_level_index
      → Read (s.entries ++ with_games es) (scan (read_player L) es s).2
  unfolding scan read_player
  scan-Read [] s h = (sym (append-nil s.entries), h)
  scan-Read (e ∷ es) s h = elim (Option-cases e.value) [
    | inl gone ↦ rw (gone, scan) (sym (append-nil s.entries), h)
    | inr (p, there) ↦
        let (one, h1) = Read-one p s h in
        let (all, h2) = scan-Read es (read_player L p s).state h1 in
        rw (there, scan) (all ∙ ap (λ (t : List (Entry L)). t ++ with_games es) one ∙ parts p, h2)
  ]
    where
      parts :
          (p : Player)
          → (s.entries ++ (if not (eqb_ℤ (num_of_games p) (pos 0)) then entry_of p ∷ [] else []))
              ++ with_games es
            ≡ s.entries
              ++ (if not (eqb_ℤ (num_of_games p) (pos 0))
                  then entry_of p ∷ with_games es
                  else with_games es)
      parts p = elim (Bool-cases (not (eqb_ℤ (num_of_games p) (pos 0)))) [
        | inl played ↦ rw played (append_assoc s.entries (entry_of p ∷ []) (with_games es))
        | inr no_games ↦ rw no_games (append_assoc s.entries [] (with_games es))
      ]

  pub scan_map-Read :
      (m : Map ℕ Player) (s : Reading L)
      → IsHighest s.entries s.max_level s.max_level_index
      → Read (s.entries ++ with_games m.head) (scan_map (read_player L) m s).1
  unfolding scan_map
  scan_map-Read m s h = from m.head m.iterator
    where
      from :
          (es : List (Element ℕ Player)) (id : Option ℕ)
          → Read
              (s.entries ++ with_games es)
              (scan_map (read_player L) (record { head = es; iterator = id }) s).1
      from [] id = (sym (append-nil s.entries), h)
      from (e ∷ es) id = scan-Read (e ∷ es) s h
