-- ===== src/Chess/Valid.antt =====
-- When a chess system is well formed: every map is in order and holds no NULL, the two
-- players of a game have positive identifiers that differ, and in each tournament nobody holds more places than it allows.
use cs_bsc_technion.Base.{ℕ, ◌≤◌, ◌≡◌, ◌≢◌, true, some}
use cs_bsc_technion.Map.{contains, get}
use cs_bsc_technion.Map.Order.{IsSorted}
use cs_bsc_technion.Map.All.{All, Holds-full, All-get, get-contains}
use cs_bsc_technion.Chess.Types.{
  ChessGame, Player, Tournament, ChessSystem, games_order, players_order, tournaments_order,
  tournaments_ops,
}
use cs_bsc_technion.Chess.Games.{number_of_games}

abbrev pub IsGame : ChessGame → Type 0
IsGame g =
    (1 ≤ g.first_player_id) × (1 ≤ g.second_player_id) × (g.first_player_id ≢ g.second_player_id)

pub record IsTournament (t : Tournament) : Type 0 where
  pub sorted : IsSorted (games_order true) t.games.head
  pub all_games : All IsGame t.games.head
  pub within : (id : ℕ) → number_of_games id t.games.head ≤ t.max_games_per_player

abbrev pub IsPlayer : Player → Type 0
IsPlayer p = Unit {0}

pub record IsValid (chess : ChessSystem) : Type 0 where
  pub table_sorted : IsSorted (tournaments_order true) chess.chess_tournament_table.head
  pub tournaments : All IsTournament chess.chess_tournament_table.head
  pub players_sorted : IsSorted (players_order true) chess.players_list.head
  pub players : All IsPlayer chess.players_list.head

-- In a well-formed system a tournament that is listed is there, and well formed.
pub find_tournament :
    (chess : ChessSystem) (id : ℕ)
    → IsValid chess
    → contains (tournaments_ops true) chess.chess_tournament_table (some id) ≡ true
    → (t : Tournament) × (get (tournaments_ops true) chess.chess_tournament_table (some id)
        ≡ some t)
      × IsTournament t
find_tournament chess id v known =
    let (t, found) =
      Holds-full IsTournament (get (tournaments_ops true) chess.chess_tournament_table (some id)) (
        get-contains IsTournament (tournaments_ops true) chess.chess_tournament_table id
          v.tournaments known) in
    (
      t,
      found,
      All-get IsTournament (tournaments_ops true) chess.chess_tournament_table id v.tournaments
          found,
    )
