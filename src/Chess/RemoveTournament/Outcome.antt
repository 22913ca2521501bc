-- ===== src/Chess/RemoveTournament/Outcome.antt =====
-- What `chessRemoveTournament` leaves in the table and on the cards.
use mathlib.Core.Option
use cs_bsc_technion.Base.{
  ℕ, ◌≤◌, ◌≡◌, true, none, some, if◌then◌else◌, ℤ, pos, pos_part, ◌==◌, arith, Option-cases, inl,
  inr,
}
use cs_bsc_technion.Map.{get, remove}
use cs_bsc_technion.Map.Remove.{get-remove, remove_result, remove-IsSorted}
use cs_bsc_technion.Map.Iterate.{iterate-eq-scan}
use cs_bsc_technion.Map.All.{Holds, contains-get, All-remove, All-get}
use cs_bsc_technion.Chess.Types.{
  ChessResult, chess_success, Tournament, ChessSystem, players_ops, games_order, tournaments_ops,
  tournaments_order, same_key-tournaments,
}
use cs_bsc_technion.Chess.Valid.{IsTournament, IsValid}
use cs_bsc_technion.Chess.RemoveTournament.{take_back, remove_listed, chess_remove_tournament}
use cs_bsc_technion.Chess.Cards.{IsList, players-IsList}
use cs_bsc_technion.Chess.RemoveTournament.Cards.{
  take_out_all, cards_without, get-cards_without, cards_without-IsList,
}

module _ (chess : ChessSystem) (v : IsValid chess) where
  remove_listed_lem :
      (id : ℕ) (t : Tournament)
      → get (tournaments_ops true) chess.chess_tournament_table (some id) ≡ some t
      → IsTournament t
      → remove_listed chess id t
        ≡ some (
          chess_success,
          record {
            chess_tournament_table =
                (remove (tournaments_ops true) chess.chess_tournament_table (some id)).1;
            players_list = cards_without t.games chess.players_list;
          },
        )
  unfolding remove_listed cards_without
  remove_listed_lem id t found vt = ground (
    arith,
    iterate-eq-scan (games_order true) take_back t.games chess.players_list vt.sorted,
    remove_result (tournaments_ops true) chess.chess_tournament_table id,
    contains-get (tournaments_ops true) chess.chess_tournament_table id t found,
  )

  -- On a well-formed system `chessRemoveTournament` of a tournament that it has, with a positive
  -- identifier, succeeds: the tournament is no longer listed and every other one is as before, and
  -- each card has lost the results of the games of the tournament in which its player stands, and
  -- nothing else.
  pub chess_remove_tournament_success :
      (id i j : ℕ) (t : Tournament)
      → 1 ≤ id
      → get (tournaments_ops true) chess.chess_tournament_table (some id) ≡ some t
      → (chess' : ChessSystem) × (chess_remove_tournament chess (pos id)
          ≡ some (chess_success, chess'))
        × (get (tournaments_ops true) chess'.chess_tournament_table (some i) ≡ (
            if id == i
            then none
            else get (tournaments_ops true) chess.chess_tournament_table (some i)))
        × (get (players_ops true) chess'.players_list (some j)
            ≡ Option.map
                (take_out_all j t.games.head)
                (get (players_ops true) chess.players_list (some j)))
  unfolding chess_remove_tournament
  chess_remove_tournament_success id i j t p found =
      let vt =
        All-get IsTournament (tournaments_ops true) chess.chess_tournament_table id v.tournaments
          found in
      (
        record {
          chess_tournament_table =
              (remove (tournaments_ops true) chess.chess_tournament_table (some id)).1;
          players_list = cards_without t.games chess.players_list;
        },
        ground (arith, found, remove_listed_lem id t found vt),
        ground (
          arith,
          get-remove (tournaments_order true) chess.chess_tournament_table id i v.table_sorted,
          same_key-tournaments true id i,
        ),
        get-cards_without t.games chess.players_list j,
      )

  remaining-IsValid :
      (id : ℕ) (t : Tournament)
      → IsTournament t
      → IsValid (record {
        chess_tournament_table =
            (remove (tournaments_ops true) chess.chess_tournament_table (some id)).1;
        players_list = cards_without t.games chess.players_list;
      })
  remaining-IsValid id t vt =
      let cards : IsList (cards_without t.games chess.players_list) =
        cards_without-IsList t.games chess.players_list vt.all_games (players-IsList v) in
      record {
        table_sorted =
            remove-IsSorted (tournaments_order true) chess.chess_tournament_table (some id)
              v.table_sorted;
        tournaments =
            All-remove IsTournament (tournaments_ops true) chess.chess_tournament_table id
              v.tournaments;
        players_sorted = cards.sorted;
        players = cards.full;
      }

  -- On a well-formed system `chessRemoveTournament` never faults in its loop, and leaves a
  -- well-formed system on every branch.
  pub chess_remove_tournament-IsValid :
      (id : ℤ)
      → Holds (λ (r : ChessResult × ChessSystem). IsValid r.1) (chess_remove_tournament chess id)
  unfolding chess_remove_tournament
  chess_remove_tournament-IsValid id =
      elim (Option-cases
        (get (tournaments_ops true) chess.chess_tournament_table (some (pos_part id)))) [
          | inl unknown ↦ ground (arith, unknown)
          | inr (t, found) ↦
              let vt =
                All-get IsTournament (tournaments_ops true) chess.chess_tournament_table
                  (pos_part id) v.tournaments found in
              ground (
                arith,
                found,
                remove_listed_lem (pos_part id) t found vt,
                remaining-IsValid (pos_part id) t vt,
              )
        ]
