-- ===== src/Chess/Statistics/Outcome.antt =====
-- What `chessSaveTournamentStatistics` returns and writes, when the file can be written.
use mathlib.Core.List.{append_assoc, append-nil}
use mathlib.Core.Path.{subst}
use cs_bsc_technion.Base.{
  ℕ, ◌≤◌, ◌≡◌, refl, Bool, true, false, ◌&&◌, ◌||◌, not, none, some, List, [], ◌∷◌, ◌++◌, length,
  if◌then◌else◌, ltb, ℤ, pos, ◌≤ℤ◌, arith, Bool-cases, inl, inr,
}
use cs_bsc_technion.Map.{Element, get_size}
use cs_bsc_technion.Map.Counted.{look_over}
use cs_bsc_technion.Map.Tour.{tour-eq-look_over}
use cs_bsc_technion.Map.All.{All, All-IsFull, Holds, Holds-full}
use cs_bsc_technion.Chess.Types.{
  chess_success, chess_no_tournaments_ended, chess_save_failure, ChessGame, Tournament, ChessSystem,
  tournaments_order,
}
use cs_bsc_technion.Chess.Valid.{IsTournament, IsValid}
use cs_bsc_technion.Chess.Statistics.{
  Average, Line, number, average, text, print_lines, print_tournaments_statistics_to_file,
  look_for_ended, check_if_any_tournament_ended, save_statistics, chess_save_tournament_statistics,
  longest_game_time_and_average,
}
use cs_bsc_technion.Chess.Statistics.Longest.{
  first_game, total_of, longest_game_time_and_average_lem,
}

-- Whether some tournament has ended.
unfoldable pub any_ended : List (Element ℕ Tournament) → Bool
any_ended [] = false
any_ended (e ∷ es) = elim e.value [ none ↦ false | some t ↦ not t.in_progress || any_ended es ]

-- The lines of a tournament: winner, longest game, average, place, number of games and of players.
unfoldable pub lines_of : Tournament → List Line
lines_of t = elim (longest_game_time_and_average t) [
  | none ↦ []
  | some (longest_game, average_time) ↦
      number (pos t.winner_id)
      ∷ number longest_game
      ∷ average average_time
      ∷ text t.tournament_location
      ∷ number (pos (get_size t.games))
      ∷ number t.number_of_players
      ∷ []
]

-- The lines of the tournaments that have ended and have games, in the order of the table.
unfoldable pub all_lines : List (Element ℕ Tournament) → List Line
all_lines [] = []
all_lines (e ∷ es) = elim e.value [
  | none ↦ []
  | some t ↦
      if not t.in_progress && ltb 0 (get_size t.games)
      then lines_of t ++ all_lines es
      else all_lines es
]

lines_found :
    (t : Tournament) (longest_game : ℤ) (average_time : Average)
    → longest_game_time_and_average t ≡ some (longest_game, average_time)
    → lines_of t
      ≡ number (pos t.winner_id)
        ∷ number longest_game
        ∷ average average_time
        ∷ text t.tournament_location
        ∷ number (pos (get_size t.games))
        ∷ number t.number_of_players
        ∷ []
unfolding lines_of
lines_found t longest_game average_time found = rw (found, lines_of) refl

-- If the tournament has ended and has games, the first of them is longer than 0.
abbrev pub IsPrintable : Tournament → Type 0
IsPrintable t =
    t.in_progress ≡ false
    → 1 ≤ get_size t.games
    → (g : ChessGame) × (first_game t.games.head ≡ some g) × (pos 1 ≤ℤ g.game_time)

look_over-look_for_ended :
    (es : List (Element ℕ Tournament))
    → All IsTournament es
    → look_over look_for_ended es false ≡ any_ended es
unfolding look_over look_for_ended any_ended
look_over-look_for_ended [] h = refl
look_over-look_for_ended (e ∷ es) h =
    let (t, there) = Holds-full IsTournament e.value h.0 in
    ground (arith, there, look_over-look_for_ended es h.1)

-- On a well-formed system the test finds out whether some tournament has ended.
pub check_if_any_tournament_ended_lem :
    (chess : ChessSystem)
    → IsValid chess
    → check_if_any_tournament_ended chess ≡ some (any_ended chess.chess_tournament_table.head)
unfolding check_if_any_tournament_ended
check_if_any_tournament_ended_lem chess v =
    rw (← look_over-look_for_ended chess.chess_tournament_table.head v.tournaments) (
      tour-eq-look_over (tournaments_order true) look_for_ended chess.chess_tournament_table false
        v.table_sorted (All-IsFull IsTournament chess.chess_tournament_table.head v.tournaments))

module _ (printed : ℕ → Bool) (writable : (i : ℕ) → printed i ≡ true) where
  print_lines_lem :
      (file lines : List Line) → print_lines printed file lines ≡ (true, file ++ lines)
  unfolding print_lines
  print_lines_lem file [] = simp append-nil refl
  print_lines_lem file (line ∷ lines) =
      rw (writable (length file), print_lines_lem (file ++ line ∷ []) lines)
        (simp append_assoc refl)

  print_statistics_lem :
      (file : List Line) (t : Tournament)
      → IsTournament t
      → IsPrintable t
      → t.in_progress ≡ false
      → 1 ≤ get_size t.games
      → print_tournaments_statistics_to_file printed file t
        ≡ some (chess_success, file ++ lines_of t)
  unfolding print_tournaments_statistics_to_file
  print_statistics_lem file t vt printable over some_games =
      let (g, starts, long) = printable over some_games in
      let (longest, found, _, _) = longest_game_time_and_average_lem t vt g starts long in
      let rest =
        number longest
        ∷ average (record { total = total_of t.games.head; count = get_size t.games })
        ∷ text t.tournament_location
        ∷ number (pos (get_size t.games))
        ∷ number t.number_of_players
        ∷ [] in
      let lines : lines_of t ≡ number (pos t.winner_id) ∷ rest = lines_found t longest _ found in
      rw
        (
          lines,
          found,
          print_lines_lem file (number (pos t.winner_id) ∷ []),
          print_lines_lem (file ++ number (pos t.winner_id) ∷ []) rest,
        )
        (simp append_assoc refl)

  look_over-save_statistics :
      (es : List (Element ℕ Tournament)) (file : List Line)
      → All IsTournament es
      → All IsPrintable es
      → look_over (save_statistics printed) es (some (chess_success, file))
        ≡ some (chess_success, file ++ all_lines es)
  unfolding look_over save_statistics all_lines
  look_over-save_statistics [] file h p = simp append-nil refl
  look_over-save_statistics (e ∷ es) file h p =
      let (t, there) = Holds-full IsTournament e.value h.0 in
      let vt = subst (Holds IsTournament) there h.0 in
      let printable = subst (Holds IsPrintable) there p.0 in
      elim (Bool-cases (not t.in_progress && ltb 0 (get_size t.games))) [
        | inl over ↦ ground (
          arith,
          there,
          over,
          print_statistics_lem file t vt printable (ground (arith, over)) (ground (arith, over)),
          look_over-save_statistics es (file ++ lines_of t) h.1 p.1,
          append_assoc file (lines_of t) (all_lines es),
        )
        | inr skipped ↦ ground (arith, there, skipped, look_over-save_statistics es file h.1 p.1)
      ]

  -- On a well-formed system in which each ended tournament that has games begins with a game longer
  -- than 0, and if every line can be written: `chessSaveTournamentStatistics` says so if no
  -- tournament has ended, and else if the file cannot be opened; otherwise it succeeds, and the
  -- file has the six lines of each tournament that has ended and has games, in the order of the
  -- table.
  pub chess_save_tournament_statistics_lem :
      (opened : Bool) (chess : ChessSystem)
      → IsValid chess
      → All IsPrintable chess.chess_tournament_table.head
      → chess_save_tournament_statistics opened printed chess ≡ (
          if not (any_ended chess.chess_tournament_table.head)
          then some (chess_no_tournaments_ended, [])
          else if not opened
          then some (chess_save_failure, [])
          else some (chess_success, all_lines chess.chess_tournament_table.head))
  unfolding chess_save_tournament_statistics
  chess_save_tournament_statistics_lem opened chess v p = ground (
    arith,
    check_if_any_tournament_ended_lem chess v,
    tour-eq-look_over (tournaments_order true) (save_statistics printed)
        chess.chess_tournament_table (some (chess_success, [])) v.table_sorted
        (All-IsFull IsTournament chess.chess_tournament_table.head v.tournaments),
    look_over-save_statistics chess.chess_tournament_table.head [] v.tournaments p,
  )
