-- ===== src/Chess/RemovePlayer/Forfeit.antt =====
-- One round of the inner loop of `chessRemovePlayer`: a game and the cards when the player leaves it.

use cs_bsc_technion.Base.{
  ℕ, ◌≡◌, refl, true, false, Option, none, some, if◌then◌else◌, ◌==◌, arith, Option-cases,
  Bool-cases, inl, inr,
}
use cs_bsc_technion.Map.{Map, get}
use cs_bsc_technion.Chess.Types.{Winner, PlayerSide, winner_of_side, ChessGame, Player, players_ops}
use cs_bsc_technion.Chess.Games.{places}
use cs_bsc_technion.Chess.Valid.{IsGame}
use cs_bsc_technion.Chess.RemovePlayer.{mark_deleted, opponent, award, give_game, forfeit}
use cs_bsc_technion.Chess.Cards.{IsList, HasCard, scored, get-scored, scored-IsList}

-- The cards while the player leaves: in order, with his own still among them.
pub record Kept (id : ℕ) (players : Map ℕ Player) : Type 0 where
  pub list : IsList players
  pub own : HasCard id players

scored-Kept :
    (id i : ℕ) (players : Map ℕ Player) (p card : Player)
    → get (players_ops true) players (some i) ≡ some p
    → Kept id players
    → Kept id (scored players i card)
scored-Kept id i players p card found v = record {
  list = scored-IsList players i card v.list;
  own = elim (Bool-cases (i == id)) [
    | inl same ↦ (card, ground (arith, get-scored players i id p card found, same))
    | inr other ↦ (v.own.0, ground (arith, get-scored players i id p card found, other, v.own.1))
  ];
}

-- A game after the player has left it: he holds no place in it any more, and the others keep theirs.
pub record Left (id : ℕ) (game game' : ChessGame) : Type 0 where
  pub first : game'.first_player_id ≡ game.first_player_id
  pub second : game'.second_player_id ≡ game.second_player_id
  pub places_left : (q : ℕ) → places q game' ≡ (if q == id then 0 else places q game)

places-mark_deleted :
    (id q : ℕ) (g : ChessGame) → places q (mark_deleted id g) ≡ (if q == id then 0 else places q g)
unfolding mark_deleted
places-mark_deleted id q g = ground arith

mark_deleted-Left : (id : ℕ) (g : ChessGame) → Left id g (mark_deleted id g)
unfolding mark_deleted
mark_deleted-Left id g = record {
  first = refl;
  second = refl;
  places_left = λ q. places-mark_deleted id q g;
}

-- The result of a game has no part in it.
Left-result :
    (id : ℕ) (g g' : ChessGame) (r : Winner)
    → Left id g g'
    → Left id g (record g' { game_result = r })
Left-result id g g' r l = record { first = l.first; second = l.second; places_left = l.places_left }

-- One round leaves the game so, and the cards in order.
give_game-step :
    (id : ℕ) (g : ChessGame) (players : Map ℕ Player) (o : Option (ℕ × PlayerSide))
    → Kept id players
    → let r = give_game g (mark_deleted id g) players o in
      (r.stop ≡ false) × Left id g r.written × Kept id r.state
unfolding give_game scored
give_game-step id g players none v = (refl, mark_deleted-Left id g, v)
give_game-step id g players (some (i, side)) v =
    elim (Option-cases (get (players_ops true) players (some i))) [
      | inl no_card ↦ rw (no_card, give_game) (refl, mark_deleted-Left id g, v)
      | inr (p, found) ↦
          rw (found, give_game)
            (
              refl,
              Left-result id g (mark_deleted id g) (winner_of_side side) (mark_deleted-Left id g),
              scored-Kept id i players p (award p side g) found v,
            )
    ]

pub forfeit-step :
    (id : ℕ) (g : ChessGame) (players : Map ℕ Player)
    → IsGame g
    → Kept id players
    → ((forfeit id g players).stop ≡ false)
      × Left id g (forfeit id g players).written
      × Kept id (forfeit id g players).state
unfolding forfeit
forfeit-step id g players _ v = give_game-step id g players (opponent id g) v

pub Left-IsGame : (id : ℕ) (g g' : ChessGame) → IsGame g → Left id g g' → IsGame g'
Left-IsGame id g g' ne l = rw (l.first, l.second) ne
