-- ===== src/Chess/RemovePlayer/Leaving.antt =====
-- The loops of `chessRemovePlayer`: what a game, a tournament and the cards are after the player has
-- left.
use mathlib.Core.Path.{subst}
use cs_bsc_technion.Base.{
  ℕ, ◌≡◌, refl, Bool, true, false, ◌&&◌, Option, none, some, List, [], ◌∷◌, if◌then◌else◌, ◌==◌,
  arith,
}
use cs_bsc_technion.Map.{Element, Map}
use cs_bsc_technion.Map.Iterate.{Round, scan, scan_map, iterate-eq-scan}
use cs_bsc_technion.Map.All.{All, Holds, Holds-full}
use cs_bsc_technion.Map.Walk.{scan_map_rule, scan_map-IsSorted}
use cs_bsc_technion.Chess.Types.{ChessGame, Player, Tournament, games_order}
use cs_bsc_technion.Chess.Games.{number_of_games}
use cs_bsc_technion.Chess.Valid.{IsGame, IsTournament}
use cs_bsc_technion.Chess.RemovePlayer.{forfeit, leave_tournament}
use cs_bsc_technion.Chess.RemovePlayer.Forfeit.{Kept, Left, forfeit-step, Left-IsGame}

-- A tournament after the player has left it.
pub record LeftTournament (id : ℕ) (t t' : Tournament) : Type 0 where
  pub progress : t'.in_progress ≡ t.in_progress
  pub limit : t'.max_games_per_player ≡ t.max_games_per_player
  pub well_formed : IsTournament t'
  pub counts :
      (q : ℕ)
      → number_of_games q t'.games.head
        ≡ (if t.in_progress && q == id then 0 else number_of_games q t.games.head)

module _ (id : ℕ) where
  number_of_games-scan :
      (q : ℕ) (es : List (Element ℕ ChessGame)) (players : Map ℕ Player)
      → All IsGame es
      → Kept id players
      → number_of_games q (scan (forfeit id) es players).0
        ≡ (if q == id then 0 else number_of_games q es)
  unfolding scan number_of_games
  number_of_games-scan q [] players h v = ground arith
  number_of_games-scan q (e ∷ es) players h v =
      let (g, found) = Holds-full IsGame e.value h.0 in
      let (on, left, kept) = forfeit-step id g players (subst (Holds IsGame) found h.0) v in
      ground (
        arith,
        found,
        on,
        left.places_left q,
        number_of_games-scan q es (forfeit id g players).state h.1 kept,
      )

  number_of_games-scan_map :
      (q : ℕ) (m : Map ℕ ChessGame) (players : Map ℕ Player)
      → All IsGame m.head
      → Kept id players
      → number_of_games q (scan_map (forfeit id) m players).0.head
        ≡ (if q == id then 0 else number_of_games q m.head)
  number_of_games-scan_map q m players h v = from m.head m.iterator h
    where
      from :
          (es : List (Element ℕ ChessGame)) (i : Option ℕ)
          → All IsGame es
          → number_of_games q
              (scan_map (forfeit id) (record { head = es; iterator = i }) players).0.head
            ≡ (if q == id then 0 else number_of_games q es)
      from [] i h = unfold scan_map number_of_games in ground arith
      from (e ∷ es) i h = unfold scan_map in number_of_games-scan q (e ∷ es) players h v

  -- The tournament in progress after the inner loop.
  left_games : Tournament → Map ℕ Player → Tournament
  left_games t players = record t { games = (scan_map (forfeit id) t.games players).0 }

  left_games-IsTournament :
      (t : Tournament) (players : Map ℕ Player)
      → IsTournament t
      → Kept id players
      → IsTournament (left_games t players)
  unfolding left_games
  left_games-IsTournament t players vt v = record {
    sorted = scan_map-IsSorted (games_order true) (forfeit id) t.games players vt.sorted;
    all_games =
        (scan_map_rule (forfeit id) IsGame (Left id) (Kept id) (forfeit-step id) IsGame
          (Left-IsGame id) t.games players vt.all_games v).0;
    within =
        λ q. ground (arith, number_of_games-scan_map q t.games players vt.all_games v, vt.within q);
  }

  going-LeftTournament :
      (t : Tournament) (players : Map ℕ Player)
      → IsTournament t
      → Kept id players
      → t.in_progress ≡ true
      → LeftTournament id t (left_games t players)
  going-LeftTournament t players vt v e = record {
    progress = unfold left_games in refl;
    limit = unfold left_games in refl;
    well_formed = left_games-IsTournament t players vt v;
    counts = λ q.
        unfold left_games in
        ground (arith, e, number_of_games-scan_map q t.games players vt.all_games v);
  }

  over-LeftTournament :
      (t : Tournament) → IsTournament t → t.in_progress ≡ false → LeftTournament id t t
  over-LeftTournament t vt e = record {
    progress = refl;
    limit = refl;
    well_formed = vt;
    counts = λ q. ground (arith, e);
  }

  pub leave_tournament-step :
      (t : Tournament) (players : Option (Map ℕ Player))
      → IsTournament t
      → Holds (Kept id) players
      → ((leave_tournament id t players).stop ≡ false)
        × LeftTournament id t (leave_tournament id t players).written
        × Holds (Kept id) (leave_tournament id t players).state
  unfolding leave_tournament
  leave_tournament-step t none vt v = absurd v
  leave_tournament-step t (some players) vt v =
      rw
        (
          leave_tournament,
          iterate-eq-scan (games_order true) (forfeit id) t.games players vt.sorted,
        )
        (cases t.in_progress refl)
    where
      on : Round Tournament (Option (Map ℕ Player))
      on = record {
        written = record t { games = (scan_map (forfeit id) t.games players).0 };
        state = some (scan_map (forfeit id) t.games players).1;
        stop = false;
      }

      off : Round Tournament (Option (Map ℕ Player))
      off = record { written = t; state = some players; stop = false }

      cases :
          (b : Bool)
          → t.in_progress ≡ b
          → let r = if b then on else off in
            (r.stop ≡ false) × LeftTournament id t r.written × Holds (Kept id) r.state
      cases true e = (
        refl,
        unfold left_games in going-LeftTournament t players vt v e,
        (scan_map_rule (forfeit id) IsGame (Left id) (Kept id) (forfeit-step id) IsGame
            (Left-IsGame id) t.games players vt.all_games v).1,
      )
      cases false e = (refl, over-LeftTournament t vt e, v)
