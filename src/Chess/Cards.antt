-- ===== src/Chess/Cards.antt =====
-- The list of the cards of the players in `chessSystem.c`, and a write to a card through the pointer
-- that `mapGet` gives.
use cs_bsc_technion.Base.{ℕ, ◌≡◌, true, some, if◌then◌else◌, ◌==◌, arith}
use cs_bsc_technion.Map.{Map, contains, get, write_at}
use cs_bsc_technion.Map.Order.{IsSorted}
use cs_bsc_technion.Map.Put.{write_at-IsSorted}
use cs_bsc_technion.Map.Lookup.{get-eq-find, find-write_at}
use cs_bsc_technion.Map.All.{All, All-write_at, contains-get}
use cs_bsc_technion.Chess.Types.{Player, ChessSystem, players_ops, players_order, same_key-players}
use cs_bsc_technion.Chess.Valid.{IsPlayer, IsValid}

-- In order, and with no NULL.
pub record IsList (players : Map ℕ Player) : Type 0 where
  pub sorted : IsSorted (players_order true) players.head
  pub full : All IsPlayer players.head

-- The player has a card.
abbrev pub HasCard : ℕ → Map ℕ Player → Type 0
HasCard id players = (p : Player) × (get (players_ops true) players (some id) ≡ some p)

pub players-IsList : {chess : ChessSystem} → IsValid chess → IsList chess.players_list
players-IsList v = record { sorted = v.players_sorted; full = v.players }

-- The list after a card that is there has taken a result in.
unfoldable pub scored : Map ℕ Player → ℕ → Player → Map ℕ Player
scored players id card = record players {
  head = write_at (players_ops true) players.head id (some card);
}

pub get-scored :
    (players : Map ℕ Player) (id j : ℕ) (p card : Player)
    → get (players_ops true) players (some id) ≡ some p
    → get (players_ops true) (scored players id card) (some j)
      ≡ (if id == j then some card else get (players_ops true) players (some j))
unfolding scored contains
get-scored players id j p card found = ground (
  arith,
  get-eq-find (players_ops true) players j,
  get-eq-find (players_ops true) (scored players id card) j,
  find-write_at (players_order true) players.head id j (some card),
  contains-get (players_ops true) players id p found,
  same_key-players true id j,
)

pub scored-IsList :
    (players : Map ℕ Player) (id : ℕ) (card : Player)
    → IsList players
    → IsList (scored players id card)
unfolding scored
scored-IsList players id card v = record {
  sorted = write_at-IsSorted (players_order true) id (some card) players.head v.sorted;
  full = All-write_at IsPlayer (players_ops true) players.head id card v.full tt;
}
