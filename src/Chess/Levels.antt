-- ===== src/Chess/Levels.antt =====
-- `chessSavePlayersLevels` of `chessSystem.c` with its helpers. A level is a `double`, the points of a
-- player divided by the games: the type with its comparisons is a parameter, of which the code needs
-- that the levels at hand are in a linear order, as the finite doubles are. The two rows of the table,
-- up to the players that are entered, are a list. A line of the file is an identifier with a level, and
-- `writable n` says whether `fprintf` can write the line number n. `none` is a read of an index that
-- was never set, or outside the table.
pub mod Order
pub mod Next
pub mod Print
pub mod Falling
pub mod Outcome
pub mod Ranking
pub mod Table
pub mod Saved
mod Tests
use cs_bsc_technion.Base.{
  ℕ, zero, suc, ◌+◌, ◌≡◌, ◌↔◌, Bool, true, false, ◌&&◌, ◌||◌, not, Option, none, some, List, [],
  ◌∷◌, ◌++◌, length, if◌then◌else◌, ltb, ◌==◌, ℤ, pos, ◌+ℤ◌, ◌-ℤ◌, ◌*ℤ◌, eqb_ℤ, ◌>>=◌,
}
use cs_bsc_technion.Map.{get_size}
use cs_bsc_technion.Map.Iterate.{Round, iterate}
use cs_bsc_technion.Chess.Types.{
  ChessResult, chess_success, chess_out_of_memory, chess_save_failure, Player, ChessSystem,
  players_ops,
}
use cs_bsc_technion.Chess.EndTournament.{rows_found}

pub record Levels : Type 1 where
  pub Level : Type 0
  -- a quotient of `double`s
  pub divide : ℤ → ℤ → Level
  pub below : Level → Level → Bool
  pub equal : Level → Level → Bool
  pub equal_iff : (a b : Level) → (equal a b ≡ true) ↔ (a ≡ b)
  pub below_irrefl : (a : Level) → below a a ≡ false
  pub below_trans : (a b c : Level) → below a b ≡ true → below b c ≡ true → below a c ≡ true
  pub below_total : (a b : Level) → below a b ≡ false → below b a ≡ false → a ≡ b

-- LEVEL_WIN_VALUE, LEVEL_LOSE_VALUE and LEVEL_DRAW_VALUE
abbrev pub level_points : Player → ℤ
level_points player = player.wins *ℤ pos 6 -ℤ player.loses *ℤ pos 10 +ℤ player.draws *ℤ pos 2

abbrev pub num_of_games : Player → ℤ
num_of_games player = player.wins +ℤ player.loses +ℤ player.draws

abbrev pub row_levels : ℕ
row_levels = 2

module _ (L : Levels) where
  open L use {Level, divide, below, equal}

  -- A column of the table.
  pub record Entry : Type 0 where
    pub id : ℕ
    pub level : Level

  -- The variables of the first loop; `max_level` is `none` as long as `first_time` is true.
  pub record Reading : Type 0 where
    pub entries : List Entry
    pub max_level : Option Level
    pub max_level_index : ℕ

  unfoldable pub enter_level : Player → Reading → Reading
  enter_level player s =
      let level = divide (level_points player) (num_of_games player) in
      let entries = s.entries ++ record { id = player.id_player; level = level } ∷ [] in
      elim s.max_level [
        | none ↦ record s { entries = entries; max_level = some level }
        | some max_level ↦
            if below max_level level
            then record s {
              entries = entries;
              max_level = some level;
              max_level_index = length s.entries;
            }
            else record s { entries = entries }
      ]

  unfoldable pub read_player : Player → Reading → Round Player Reading
  unfolding enter_level
  read_player player s = record {
    written = player;
    state = if not (eqb_ℤ (num_of_games player) (pos 0)) then enter_level player s else s;
    stop = false;
  }

  unfoldable pub entry_at : List Entry → ℕ → Option Entry
  entry_at [] i = none
  entry_at (e ∷ es) zero = some e
  entry_at (e ∷ es) (suc i) = entry_at es i

  -- The loop of `indexOfSmallClosesNumber` from an index on, with the best index so far and its level.
  unfoldable pub index_from : List Entry → Level → ℕ → Option (ℕ × Level) → Option (ℕ × Level)
  index_from [] number i best = best
  index_from (e ∷ es) number i best = index_from es number (i + 1) (
      if below e.level number
        && elim best [ none ↦ true | some (_, second_max_number) ↦ below second_max_number e.level ]
      then some (i, e.level)
      else best)

  -- `none` is the index that was never set.
  unfoldable pub index_of_small_closes_number : List Entry → Level → Option ℕ
  unfolding index_from
  index_of_small_closes_number es number = elim (index_from es number 0 none) [
    | none ↦ none
    | some (index, _) ↦ some index
  ]

  -- `checkSamePointInHistogram`, from an index on.
  unfoldable pub check_same_from : List Entry → Level → ℕ → ℕ → Bool
  check_same_from [] level_of_current_max i index_of_current_max = false
  check_same_from (e ∷ es) level_of_current_max i index_of_current_max =
      (equal e.level level_of_current_max && not (index_of_current_max == i))
      || check_same_from es level_of_current_max (i + 1) index_of_current_max

  -- The lines of all players with a level; `false` is the failure of a line.
  unfoldable pub print_same : (ℕ → Bool) → Level → List Entry → List Entry → Bool × List Entry
  print_same writable max_level [] out = (true, out)
  print_same writable max_level (e ∷ es) out = elim (not (e.id == 0) && equal e.level max_level) [
    | true ↦ elim (writable (length out)) [
      | true ↦ print_same writable max_level es (out ++ e ∷ [])
      | false ↦ (false, out)
    ]
    | false ↦ print_same writable max_level es out
  ]

  -- The two branches of a round of `printLevelsToFile`.
  unfoldable pub print_round :
      (ℕ → Bool) → List Entry → Level → ℕ → List Entry → Option (Bool × List Entry)
  print_round writable es max_level max_level_index out =
      if check_same_from es max_level 0 max_level_index
      then some (print_same writable max_level es out)
      else (do
        e ← entry_at es max_level_index
        some (if writable (length out) then (true, out ++ e ∷ []) else (false, out)))

  -- What comes next: another round at a lower level, or the end of the loop.
  unfoldable pub next_level : List Entry → Level → Option (Level × ℕ)
  next_level es max_level = do
    index ← index_of_small_closes_number es max_level
    e ← entry_at es index
    some (e.level, index)

  -- The loop, with fuel; `counter_printed_players` is one more than the lines that are written.
  unfoldable pub print_levels :
      ℕ → (ℕ → Bool) → List Entry → Level → ℕ → List Entry → Option (ChessResult × List Entry)
  print_levels zero writable es max_level max_level_index out = none
  print_levels (suc fuel) writable es max_level max_level_index out =
      elim (ltb (length out) (length es)) [
        | false ↦ some (chess_success, out)
        | true ↦ elim (print_round writable es max_level max_level_index out) [
          | none ↦ none
          | some (false, out') ↦ some (chess_save_failure, out')
          | some (true, out') ↦ elim (ltb (length out') (length es) && not (length es == 1)) [
            | false ↦ print_levels fuel writable es max_level max_level_index out'
            | true ↦ elim (next_level es max_level) [
              | none ↦ none
              | some (level, index) ↦ print_levels fuel writable es level index out'
            ]
          ]
        ]
      ]

  -- With no player entered the loop has no round, and the level is not read.
  unfoldable pub print_levels_to_file : (ℕ → Bool) → Reading → Option (ChessResult × List Entry)
  print_levels_to_file writable s = elim s.max_level [
    | none ↦ some (chess_success, [])
    | some max_level ↦
        print_levels (length s.entries + 1) writable s.entries max_level s.max_level_index []
  ]

  -- `chessSavePlayersLevels` of a system and a file that are not NULL: the result and the lines.
  unfoldable pub chess_save_players_levels :
      (ℕ → Bool) → (ℕ → Bool) → ChessSystem → Option (ChessResult × List Entry)
  chess_save_players_levels alloc writable chess =
      if alloc 0 && rows_found alloc 0 row_levels
      then (do
        (_, s) ←
            iterate (players_ops true) read_player chess.players_list
              (record { entries = []; max_level = none; max_level_index = 0 })
        print_levels_to_file writable s)
      else some (chess_out_of_memory, [])
