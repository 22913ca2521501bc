-- ===== src/Chess/Levels/Saved.antt =====
-- chessSavePlayersLevels as a whole: the table, its highest level, and the file.
use mathlib.Core.Path.{subst}
use cs_bsc_technion.Base.{
  ℕ, ◌+◌, ◌≡◌, refl, Bool, true, some, none, Option, List, [], ◌∷◌, length, if◌then◌else◌, arith,
  Bool-cases, inl, inr, ap, ◌∙◌, sym,
}
use cs_bsc_technion.Map.Iterate.{scan_map, iterate-eq-scan}
use cs_bsc_technion.Chess.Types.{chess_success, ChessSystem, players_order}
use cs_bsc_technion.Chess.EndTournament.{rows_found}
use cs_bsc_technion.Chess.Valid.{IsValid}
use cs_bsc_technion.Chess.Levels.{
  Levels, Entry, Reading, read_player, print_levels_to_file, chess_save_players_levels,
}
use cs_bsc_technion.Chess.Levels.Order.{at_level, above_count}
use cs_bsc_technion.Chess.Levels.Print.{AllIds}
use cs_bsc_technion.Chess.Levels.Falling.{IsRanking}
use cs_bsc_technion.Chess.Levels.Outcome.{IsAhead}
use cs_bsc_technion.Chess.Levels.Table.{with_games, IsHighest, scan_map-Read}
use cs_bsc_technion.Chess.Levels.Ranking.{print_levels_lem}

module _ (L : Levels) where
  open L use {Level, below, equal, equal_iff}

  above_empty :
      (l m : Level) (es : List (Entry L))
      → above_count L l es ≡ 0
      → below l m ≡ true
      → at_level L m es ≡ []
  above_empty l m [] z h = refl
  above_empty l m (e ∷ es) z h = elim (Bool-cases (equal e.level m)) [
    | inl p ↦
        let over : below l e.level ≡ true = ap (below l) ((equal_iff e.level m).0 p) ∙ h in
        absurd (ground (arith, over, z))
    | inr p ↦ rw p (above_empty l m es (ground (arith, z)) h)
  ]

  file_written :
      (writable : ℕ → Bool) (s : Reading L)
      → ((k : ℕ) → writable k ≡ true)
      → AllIds L s.entries
      → IsHighest L s.entries s.max_level s.max_level_index
      → (out : List (Entry L)) × (print_levels_to_file L writable s ≡ some (chess_success, out))
        × IsRanking L s.entries out
  unfolding print_levels_to_file
  file_written writable s w ids h = from s.max_level refl h
    where
      from :
          (max_level : Option Level)
          → s.max_level ≡ max_level
          → IsHighest L s.entries max_level s.max_level_index
          → (out : List (Entry L)) × (print_levels_to_file L writable s ≡ some (chess_success, out))
            × IsRanking L s.entries out
      from none e (empty, at_start) = (
        [],
        rw (e, print_levels_to_file) refl,
        record { falls = tt; same = λ l. ap (at_level L l) (sym empty) },
      )
      from (some level) e (x, at, same, highest) =
          let ahead : IsAhead L s.entries level [] = record {
            falls = tt;
            over = tt;
            shown = λ l. nothing_above l level highest;
            counted = sym highest;
          } in
          let (out, done, ranking) =
            print_levels_lem L (length s.entries + 1) writable s.entries level s.max_level_index []
              x w ids at same ahead (omega arith) in
          (out, rw (e, print_levels_to_file) done, ranking)
        where
          nothing_above :
              (l level : Level)
              → above_count L level s.entries ≡ 0
              → [] ≡ (if below level l then at_level L l s.entries else [])
          nothing_above l level highest = elim (Bool-cases (below level l)) [
            | inl p ↦ rw p (sym (above_empty level l s.entries highest p))
            | inr p ↦ rw p refl
          ]

  -- On a well-formed system with identifiers that are not 0, when memory is found and every line can be
  -- written: `chessSavePlayersLevels` ends with success, and the file has the players who have a game,
  -- from the highest level down, those at one level in the order of the list, each as often as there.
  pub chess_save_players_levels_lem :
      (alloc writable : ℕ → Bool) (chess : ChessSystem)
      → ((i : ℕ) → alloc i ≡ true)
      → ((k : ℕ) → writable k ≡ true)
      → IsValid chess
      → AllIds L (with_games L chess.players_list.head)
      → (out : List (Entry L)) × (chess_save_players_levels L alloc writable chess
          ≡ some (chess_success, out))
        × IsRanking L (with_games L chess.players_list.head) out
  unfolding chess_save_players_levels rows_found
  chess_save_players_levels_lem alloc writable chess memory w v ids =
      let start : Reading L = record { entries = []; max_level = none; max_level_index = 0 } in
      let (table, highest) = scan_map-Read L chess.players_list start (refl, refl) in
      let (out, done, ranking) =
        file_written writable (scan_map (read_player L) chess.players_list start).1 w
          (subst (AllIds L) (sym table) ids) highest in
      (
        out,
        rw
            (
              memory 0,
              memory 1,
              memory 2,
              iterate-eq-scan (players_order true) (read_player L) chess.players_list start
                  v.players_sorted,
            )
            done,
        subst (λ (es : List (Entry L)). IsRanking L es out) table ranking,
      )
