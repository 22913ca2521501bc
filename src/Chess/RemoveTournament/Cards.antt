-- ===== src/Chess/RemoveTournament/Cards.antt =====
-- The cards while `chessRemoveTournament` takes the games of a tournament out of them.
use mathlib.Core.Option
use cs_bsc_technion.Base.{
  ℕ, ◌≡◌, refl, true, false, none, some, List, [], ◌∷◌, if◌then◌else◌, ℤ, ◌==◌, arith, Option-cases,
  inl, inr, ==_iff, ap,
}
use cs_bsc_technion.Map.{Element, Map, get}
use cs_bsc_technion.Map.Iterate.{scan, scan_map}
use cs_bsc_technion.Map.All.{All}
use cs_bsc_technion.Chess.Types.{
  Winner, PlayerSide, player_one, player_two, ChessGame, Player, players_ops,
}
use cs_bsc_technion.Chess.Score.{update_player_score, remove_point}
use cs_bsc_technion.Chess.Valid.{IsGame}
use cs_bsc_technion.Map.Walk.{scan_map_rule}
use cs_bsc_technion.Chess.RemoveTournament.{lower_score, take_back}
use cs_bsc_technion.Chess.Cards.{IsList, scored, get-scored, scored-IsList}

-- A player's card without one game, and without the games of a list.
abbrev pub take_out : ℕ → ChessGame → Player → Player
take_out j g card =
    let one =
      if g.first_player_id == j
      then update_player_score card player_one g.game_result remove_point g.game_time
      else card in
    if g.second_player_id == j
    then update_player_score one player_two g.game_result remove_point g.game_time
    else one

unfoldable pub take_out_all : ℕ → List (Element ℕ ChessGame) → Player → Player
take_out_all j [] card = card
take_out_all j (e ∷ es) card = elim e.value [
  | none ↦ card
  | some g ↦ take_out_all j es (take_out j g card)
]

get-lower_score :
    (players : Map ℕ Player) (id j : ℕ) (side : PlayerSide) (r : Winner) (time : ℤ)
    → get (players_ops true) (lower_score players id side r time) (some j)
      ≡ Option.map
          (λ p. if id == j then update_player_score p side r remove_point time else p)
          (get (players_ops true) players (some j))
unfolding lower_score scored
get-lower_score players id j side r time =
    elim (Option-cases (get (players_ops true) players (some id))) [
      | inl none_there ↦ ground (
        arith,
        none_there,
        ==_iff id j,
        ap (λ (k : ℕ). get (players_ops true) players (some k)) {x = id} {y = j},
      )
      | inr (p, found) ↦ ground (
        arith,
        found,
        get-scored players id j p (update_player_score p side r remove_point time) found,
      )
    ]

lower_score-IsList :
    (players : Map ℕ Player) (id : ℕ) (side : PlayerSide) (r : Winner) (time : ℤ)
    → IsList players
    → IsList (lower_score players id side r time)
unfolding lower_score scored
lower_score-IsList players id side r time v =
    elim (Option-cases (get (players_ops true) players (some id))) [
      | inl none_there ↦ rw (none_there, lower_score) v
      | inr (p, found) ↦
          rw (found, lower_score)
            (scored-IsList players id (update_player_score p side r remove_point time) v)
    ]

-- One round takes the game out of every card.
get-take_back :
    (g : ChessGame) (players : Map ℕ Player) (j : ℕ)
    → get (players_ops true) (take_back g players).state (some j)
      ≡ Option.map (take_out j g) (get (players_ops true) players (some j))
unfolding take_back
get-take_back g players j = ground (
  arith,
  get-lower_score players g.first_player_id j player_one g.game_result g.game_time,
  get-lower_score (lower_score players g.first_player_id player_one g.game_result g.game_time)
      g.second_player_id j player_two g.game_result g.game_time,
)

goes_on : (g : ChessGame) (players : Map ℕ Player) → (take_back g players).stop ≡ false
unfolding take_back
goes_on g players = refl

get-scan :
    (es : List (Element ℕ ChessGame)) (players : Map ℕ Player) (j : ℕ)
    → get (players_ops true) (scan take_back es players).2 (some j)
      ≡ Option.map (take_out_all j es) (get (players_ops true) players (some j))
unfolding scan take_out_all
get-scan [] players j = ground arith
get-scan (e ∷ es) players j = elim (Option-cases e.value) [
  | inl empty ↦ ground (arith, empty)
  | inr (g, found) ↦ ground (
    arith,
    found,
    goes_on g players,
    get-take_back g players j,
    get-scan es (take_back g players).state j,
  )
]

take_back-step :
    (g : ChessGame) (players : Map ℕ Player)
    → IsGame g
    → IsList players
    → ((take_back g players).stop ≡ false) × Unit {0} × IsList (take_back g players).state
unfolding take_back
take_back-step g players _ v = (
  refl,
  tt,
  lower_score-IsList _ _ _ _ _
      (lower_score-IsList players g.first_player_id player_one g.game_result g.game_time v),
)

-- The cards when every game of the tournament has been taken out.
unfoldable pub cards_without : Map ℕ ChessGame → Map ℕ Player → Map ℕ Player
cards_without games players = (scan_map take_back games players).1

pub get-cards_without :
    (games : Map ℕ ChessGame) (players : Map ℕ Player) (j : ℕ)
    → get (players_ops true) (cards_without games players) (some j)
      ≡ Option.map (take_out_all j games.head) (get (players_ops true) players (some j))
unfolding cards_without scan_map take_out_all
get-cards_without games players j = ground (arith, get-scan games.head players j)

pub cards_without-IsList :
    (games : Map ℕ ChessGame) (players : Map ℕ Player)
    → All IsGame games.head
    → IsList players
    → IsList (cards_without games players)
unfolding cards_without
cards_without-IsList games players h v =
    (scan_map_rule take_back IsGame (λ _ _. Unit {0}) IsList take_back-step (λ _. Unit {0})
      (λ _ _ _ _. tt) games players h v).1
