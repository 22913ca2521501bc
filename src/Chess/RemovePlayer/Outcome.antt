-- ===== src/Chess/RemovePlayer/Outcome.antt =====
-- What `chessRemovePlayer` leaves in the tournaments and on the cards.
use mathlib.Core.Path.{subst}
use cs_bsc_technion.Base.{
  ℕ, ◌≤◌, ◌≡◌, true, ◌&&◌, Option, none, some, if◌then◌else◌, ℤ, pos, pos_part, ◌==◌, arith,
  Bool-cases, inl, inr,
}
use cs_bsc_technion.Map.{Map, contains, get, remove}
use cs_bsc_technion.Map.Remove.{get-remove, remove_result, remove-IsSorted}
use cs_bsc_technion.Map.Iterate.{scan_map, iterate-eq-scan}
use cs_bsc_technion.Map.All.{All, Holds, Holds-full, contains-get, get-contains, All-remove}
use cs_bsc_technion.Map.Walk.{scan_map_rule, scan_map-IsSorted, get-scan_map}
use cs_bsc_technion.Chess.Types.{
  ChessResult, chess_success, Player, Tournament, ChessSystem, players_ops, players_order,
  tournaments_ops, tournaments_order, same_key-players,
}
use cs_bsc_technion.Chess.Games.{number_of_games}
use cs_bsc_technion.Chess.Valid.{IsTournament, IsPlayer, IsValid}
use cs_bsc_technion.Chess.RemovePlayer.{leave_tournament, remove_card, chess_remove_player}
use cs_bsc_technion.Chess.RemovePlayer.Leaving.{LeftTournament, leave_tournament-step}
use cs_bsc_technion.Chess.RemovePlayer.Forfeit.{Kept}
use cs_bsc_technion.Chess.Cards.{players-IsList}

module _ (chess : ChessSystem) (v : IsValid chess) (id : ℕ)
    (known : contains (players_ops true) chess.players_list (some id) ≡ true) where
  kept : Kept id chess.players_list
  kept = record {
    list = players-IsList v;
    own =
        Holds-full IsPlayer (get (players_ops true) chess.players_list (some id))
          (get-contains IsPlayer (players_ops true) chess.players_list id v.players known);
  }

  -- The table and the cards after the loop over the tournaments.
  left_table : Map ℕ Tournament
  left_table =
      (scan_map (leave_tournament id) chess.chess_tournament_table (some chess.players_list)).0

  left_players : Option (Map ℕ Player)
  left_players =
      (scan_map (leave_tournament id) chess.chess_tournament_table (some chess.players_list)).1

  after_loop : All IsTournament left_table.head × Holds (Kept id) left_players
  unfolding left_table left_players
  after_loop =
      scan_map_rule (leave_tournament id) IsTournament (LeftTournament id) (Holds (Kept id))
        (leave_tournament-step id) IsTournament (λ _ _ _ l. l.well_formed)
        chess.chess_tournament_table (some chess.players_list) v.tournaments kept

  remove_card_lem :
      (players : Map ℕ Player) × (Kept id players)
      × (remove_card chess id
          ≡ some (
            chess_success,
            record {
              chess_tournament_table = left_table;
              players_list = (remove (players_ops true) players (some id)).1;
            },
          ))
  unfolding remove_card left_table left_players
  remove_card_lem =
      let (players, found) = Holds-full (Kept id) left_players after_loop.1 in
      let keeps : Kept id players = subst (Holds (Kept id)) found after_loop.1 in
      (
        players,
        keeps,
        ground (
          arith,
          iterate-eq-scan (tournaments_order true) (leave_tournament id)
              chess.chess_tournament_table (some chess.players_list) v.table_sorted,
          found,
          remove_result (players_ops true) players id,
          contains-get (players_ops true) players id keeps.own.0 keeps.own.1,
        ),
      )

  -- On a well-formed system `chessRemovePlayer` of a player with a positive identifier and a card
  -- succeeds, and his card is gone. Each tournament is there as before, in progress or not; in one
  -- that is in progress the player holds no place any more, while everybody else holds the places
  -- he held, and one that has ended keeps the places of the player too.
  pub chess_remove_player_success :
      (i q : ℕ) (t : Tournament)
      → 1 ≤ id
      → get (tournaments_ops true) chess.chess_tournament_table (some i) ≡ some t
      → (chess' : ChessSystem) × (t' : Tournament) × (chess_remove_player chess (pos id)
          ≡ some (chess_success, chess'))
        × (get (players_ops true) chess'.players_list (some id) ≡ none)
        × (get (tournaments_ops true) chess'.chess_tournament_table (some i) ≡ some t')
        × (t'.in_progress ≡ t.in_progress)
        × (number_of_games q t'.games.head
            ≡ (if t.in_progress && q == id then 0 else number_of_games q t.games.head))
  unfolding chess_remove_player left_table
  chess_remove_player_success i q t p there =
      let (players, keeps, outcome) = remove_card_lem in
      let (t', there', l) =
        get-scan_map (leave_tournament id) IsTournament (LeftTournament id) (Holds (Kept id))
          (leave_tournament-step id) (tournaments_ops true) chess.chess_tournament_table
          (some chess.players_list) i t v.tournaments kept there in
      (
        record {
          chess_tournament_table = left_table;
          players_list = (remove (players_ops true) players (some id)).1;
        },
        t',
        ground (arith, known, outcome),
        ground (
          arith,
          get-remove (players_order true) players id id keeps.list.sorted,
          same_key-players true id id,
        ),
        there',
        l.progress,
        l.counts q,
      )

  remaining-IsValid :
      (players : Map ℕ Player)
      → Kept id players
      → IsValid (record {
        chess_tournament_table = left_table;
        players_list = (remove (players_ops true) players (some id)).1;
      })
  unfolding left_table
  remaining-IsValid players keeps = record {
    table_sorted =
        scan_map-IsSorted (tournaments_order true) (leave_tournament id)
          chess.chess_tournament_table (some chess.players_list) v.table_sorted;
    tournaments = after_loop.0;
    players_sorted = remove-IsSorted (players_order true) players (some id) keeps.list.sorted;
    players = All-remove IsPlayer (players_ops true) players id keeps.list.full;
  }

  remove_card-Fine : Holds (λ (r : ChessResult × ChessSystem). IsValid r.1) (remove_card chess id)
  remove_card-Fine =
      let (players, keeps, outcome) = remove_card_lem in
      rw outcome (remaining-IsValid players keeps)

-- On a well-formed system `chessRemovePlayer` never faults in its loops, and leaves a well-formed
-- system on every branch.
pub chess_remove_player-IsValid :
    (chess : ChessSystem) (id : ℤ)
    → IsValid chess
    → Holds (λ (r : ChessResult × ChessSystem). IsValid r.1) (chess_remove_player chess id)
unfolding chess_remove_player
chess_remove_player-IsValid chess id v =
    elim (Bool-cases (contains (players_ops true) chess.players_list (some (pos_part id)))) [
      | inl known ↦ ground (arith, known, remove_card-Fine chess v (pos_part id) known)
      | inr unknown ↦ ground (arith, unknown)
    ]
