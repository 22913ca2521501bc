-- ===== src/Chess/EndTournament/Outcome.antt =====
-- What `chessEndTournament` returns on each branch, whom it names the winner, and what it leaves.
use cs_bsc_technion.Base.{
  ℕ, zero, suc, sym, ◌∙◌, Bool-cases, ◌+◌, ◌*◌, ◌≤◌, ◌≡◌, refl, Bool, true, false, ◌&&◌, some, List,
  [], ◌∷◌, if◌then◌else◌, ◌==◌, arith, length, Option-cases, inl, inr, ℤ, pos, pos_part,
}
use cs_bsc_technion.Map.{Element, Map, get, get_size}
use cs_bsc_technion.Map.Put.{write_at-IsSorted}
use cs_bsc_technion.Map.Iterate.{iterate-eq-scan}
use cs_bsc_technion.Map.All.{Holds, All-get, All-write_at}
use cs_bsc_technion.Chess.Types.{
  ChessResult, chess_success, chess_out_of_memory, ChessGame, Tournament, ChessSystem, games_order,
  tournaments_ops, tournaments_order,
}
use cs_bsc_technion.Chess.Valid.{IsTournament, IsValid}
use cs_bsc_technion.Chess.AddGame.{write_tournament}
use cs_bsc_technion.Chess.AddGame.Success.{get-write_tournament}
use cs_bsc_technion.Chess.EndTournament.{
  Column, tally, check_winner, create_histogram, rows_found, blank_columns, rows, end_listed,
  chess_end_tournament,
}
use cs_bsc_technion.Chess.EndTournament.Tally.{games_sum, points_of, loses_of, tally_lem, IsTally}
use cs_bsc_technion.Chess.EndTournament.Winner.{check_winner_lem}

-- The tournament when it has ended.
unfoldable pub ended : Tournament → ℕ → Tournament
ended t winner = record t { winner_id = winner; in_progress = false }

ended-IsTournament : (t : Tournament) (winner : ℕ) → IsTournament t → IsTournament (ended t winner)
unfolding ended
ended-IsTournament t winner v = record {
  sorted = v.sorted;
  all_games = v.all_games;
  within = v.within;
}

winner_found : (table : List Column) → 1 ≤ length table → (w : ℕ) × (check_winner table ≡ some w)
unfolding check_winner
winner_found [] h = absurd (omega arith)
winner_found (c ∷ cs) h = (_, refl)

rows-found :
    (alloc : ℕ → Bool) → ((i : ℕ) → alloc i ≡ true) → (i n : ℕ) → rows_found alloc i n ≡ true
unfolding rows_found
rows-found alloc plenty i zero = refl
rows-found alloc plenty i (suc n) =
    ground (arith, plenty (i + 1), rows-found alloc plenty (i + 1) n)

-- Where there are no games there are no points.
games-of_points :
    (p : ℕ) (games : Map ℕ ChessGame) → 1 ≤ points_of p games.head → 1 ≤ get_size games
unfolding get_size
games-of_points p games h = some_elements games.head h
  where
    some_elements : (es : List (Element ℕ ChessGame)) → 1 ≤ points_of p es → 1 ≤ length es
    some_elements [] h = absurd (unfold games_sum in omega arith)
    some_elements (e ∷ es) h = omega arith

module _ (alloc : ℕ → Bool) (chess : ChessSystem) (v : IsValid chess) where
  end_listed_lem :
      (id : ℕ) (t : Tournament)
      → IsTournament t
      → 1 ≤ get_size t.games
      → (table : List Column) × (w : ℕ) × IsTally t.games table
        × (check_winner table ≡ some w)
        × (end_listed alloc chess id t ≡ (
            if alloc 0 && rows_found alloc 0 rows
            then some (chess_success, write_tournament chess id (ended t w))
            else some (chess_out_of_memory, chess)))
  unfolding end_listed create_histogram ended
  end_listed_lem id t vt some_games =
      let (table, tallied) = tally_lem t.games vt.all_games in
      let (w, won) = winner_found table (omega (arith, tallied.same_length)) in
      (
        table,
        w,
        tallied,
        won,
        ground (
          arith,
          iterate-eq-scan (games_order true) tally t.games
              (some (blank_columns (2 * get_size t.games))) vt.sorted,
          tallied.found,
          won,
        ),
      )

  ended-IsValid :
      (id w : ℕ) (t : Tournament) → IsTournament t → IsValid (write_tournament chess id (ended t w))
  unfolding write_tournament
  ended-IsValid id w t vt = record {
    table_sorted =
        write_at-IsSorted (tournaments_order true) id (some (ended t w))
          chess.chess_tournament_table.head v.table_sorted;
    tournaments =
        All-write_at IsTournament (tournaments_ops true) chess.chess_tournament_table.head id
          (ended t w) v.tournaments (ended-IsTournament t w vt);
    players_sorted = v.players_sorted;
    players = v.players;
  }

  -- On a well-formed system `chessEndTournament` never reads outside the table of points or through
  -- NULL, and leaves a well-formed system on every branch, whatever memory it finds.
  pub chess_end_tournament-IsValid :
      (id : ℤ)
      → Holds (λ (r : ChessResult × ChessSystem). IsValid r.1) (chess_end_tournament alloc chess id)
  unfolding chess_end_tournament
  chess_end_tournament-IsValid id =
      elim (Option-cases
        (get (tournaments_ops true) chess.chess_tournament_table (some (pos_part id)))) [
          | inl unknown ↦ ground (arith, unknown)
          | inr (t, found) ↦
              let vt =
                All-get IsTournament (tournaments_ops true) chess.chess_tournament_table
                  (pos_part id) v.tournaments found in
              elim (Bool-cases (get_size t.games == 0)) [
                | inl no_games ↦ ground (arith, found, no_games)
                | inr some_games ↦
                    let (_, w, _, _, outcome) =
                      end_listed_lem (pos_part id) t vt (ground (arith, some_games)) in
                    ground (arith, found, some_games, outcome, ended-IsValid (pos_part id) w t vt)
              ]
        ]

  -- On a well-formed system, if every allocation finds memory, `chessEndTournament` of a tournament
  -- in progress, in which some player with a positive identifier has a point, succeeds: the
  -- tournament is closed, its games stay, and no card is touched. No player with a positive
  -- identifier has more points than the winner, and none with as many points has lost fewer games;
  -- points and lost games are summed over the places that a player still holds in the games.
  pub chess_end_tournament_success :
      (id p q : ℕ) (t : Tournament)
      → ((i : ℕ) → alloc i ≡ true)
      → 1 ≤ id
      → get (tournaments_ops true) chess.chess_tournament_table (some id) ≡ some t
      → t.in_progress ≡ true
      → 1 ≤ p
      → 1 ≤ q
      → 1 ≤ points_of p t.games.head
      → (chess' : ChessSystem) × (w : ℕ) × (chess_end_tournament alloc chess (pos id)
          ≡ some (chess_success, chess'))
        × (get (tournaments_ops true) chess'.chess_tournament_table (some id)
            ≡ some (record t { winner_id = w; in_progress = false }))
        × (chess'.players_list ≡ chess.players_list)
        × (points_of q t.games.head ≤ points_of w t.games.head)
        × (points_of q t.games.head ≡ points_of w t.games.head
            → loses_of w t.games.head ≤ loses_of q t.games.head)
  unfolding chess_end_tournament write_tournament
  chess_end_tournament_success id p q t plenty hid found going hp hq points =
      let vt =
        All-get IsTournament (tournaments_ops true) chess.chess_tournament_table id v.tournaments
          found in
      let some_games = games-of_points p t.games points in
      let (table, w, tallied, won, outcome) = end_listed_lem id t vt some_games in
      let (w', won', hw, best) =
        check_winner_lem table p tallied.is_table (omega (arith, points, tallied.points_at p hp)) in
      let same : w' ≡ w = ground (arith, won, won') in
      let (no_more, no_fewer) = best q in
      (
        write_tournament chess id (ended t w'),
        w',
        ground (
          arith,
          hid,
          found,
          going,
          some_games,
          outcome,
          same,
          plenty 0,
          rows-found alloc plenty 0 rows,
        ),
        unfold ended in get-write_tournament chess id (ended t w') t found,
        refl,
        omega (arith, no_more, tallied.points_at q hq, tallied.points_at w' hw),
        λ h. omega (
          arith,
          no_fewer (tallied.points_at q hq ∙ h ∙ sym (tallied.points_at w' hw)),
          tallied.loses_at q hq,
          tallied.loses_at w' hw,
        ),
      )
