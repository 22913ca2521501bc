-- ===== src/Chess/EndTournament/Tally.antt =====
-- The loop of `chessEndTournament` over the games: what the table of points holds when it ends.
use cs_bsc_technion.Base.{
  ℕ, zero, suc, ◌+◌, ◌*◌, ◌≤◌, ◌<◌, ◌≡◌, refl, Bool, true, false, ◌&&◌, not, none, some, List, [],
  ◌∷◌, if◌then◌else◌, ◌==◌, arith, length, ◌∙◌,
}
use mathlib.Core.Path.{subst}
use cs_bsc_technion.Map.{Element, Map, get_size}
use cs_bsc_technion.Map.Iterate.{scan, scan_map}
use cs_bsc_technion.Map.All.{All, Holds, Holds-full}
use cs_bsc_technion.Chess.Types.{
  Winner, PlayerSide, player_one, player_two, side_won, is_draw, ChessGame,
}
use cs_bsc_technion.Chess.Valid.{IsGame}
use cs_bsc_technion.Chess.EndTournament.{
  Column, blank_columns, update_column, enter_player, enter_players, tally,
}
use cs_bsc_technion.Chess.EndTournament.Table.{
  IsTable, AllBlank, used, find_column, entered, enter_player_lem, length-entered, used-entered,
  IsTable-entered, find_column-entered, find_column-blank, IsTable-blank,
}

-- What a side gets for a result.
abbrev pub side_points : PlayerSide → Winner → ℕ
side_points side game_result =
    if side_won side game_result then 2 else if is_draw game_result then 1 else 0

abbrev pub side_loses : PlayerSide → Winner → ℕ
side_loses side game_result =
    if side_won side game_result then 0 else if is_draw game_result then 0 else 1

-- The sum of a count over the places that a player holds in a game, and in the games of a list.
abbrev pub places_sum : (PlayerSide → Winner → ℕ) → ℕ → ChessGame → ℕ
places_sum worth p g =
    (if g.first_player_id == p && not g.first_player_deleted
      then worth player_one g.game_result
      else 0)
    + (if g.second_player_id == p && not g.second_player_deleted
        then worth player_two g.game_result
        else 0)

unfoldable pub games_sum : (PlayerSide → Winner → ℕ) → ℕ → List (Element ℕ ChessGame) → ℕ
games_sum worth p [] = 0
games_sum worth p (e ∷ es) = elim e.value [
  | none ↦ 0
  | some g ↦ places_sum worth p g + games_sum worth p es
]

-- The points of a player in a tournament, and the games that he lost.
abbrev pub points_of : ℕ → List (Element ℕ ChessGame) → ℕ
points_of = games_sum side_points

abbrev pub loses_of : ℕ → List (Element ℕ ChessGame) → ℕ
loses_of = games_sum side_loses

update_column-points :
    (c : Column) (g : ChessGame) (side : PlayerSide) (id : ℕ)
    → ((update_column c g side id).points ≡ c.points + side_points side g.game_result)
      × ((update_column c g side id).loses ≡ c.loses + side_loses side g.game_result)
unfolding update_column
update_column-points c g side id = (ground arith, ground arith)

-- What one place of a game has done to the table.
record Entered (deleted : Bool) (g : ChessGame) (side : PlayerSide) (id : ℕ)
    (table table' : List Column) : Type 0 where
  found : enter_player deleted g side id table ≡ some table'
  is_table : IsTable table'
  same_length : length table' ≡ length table
  one_more : used table' ≤ suc (used table)
  points_at :
      (p : ℕ)
      → 1 ≤ p
      → (find_column table' p).points
        ≡ (find_column table p).points
          + (if id == p && not deleted then side_points side g.game_result else 0)
  loses_at :
      (p : ℕ)
      → 1 ≤ p
      → (find_column table' p).loses
        ≡ (find_column table p).loses
          + (if id == p && not deleted then side_loses side g.game_result else 0)

enter_place :
    (deleted : Bool) (g : ChessGame) (side : PlayerSide) (id : ℕ) (table : List Column)
    → 1 ≤ id
    → IsTable table
    → used table < length table
    → (table' : List Column) × Entered deleted g side id table table'
unfolding enter_player
enter_place true g side id table p v room = (
  table,
  record {
    found = refl;
    is_table = v;
    same_length = refl;
    one_more = omega arith;
    points_at = λ q hq. ground arith;
    loses_at = λ q hq. ground arith;
  },
)
enter_place false g side id table p v room = (
  entered table g side id,
  record {
    found = enter_player_lem table g side id room;
    is_table = IsTable-entered table g side id p v;
    same_length = length-entered table g side id;
    one_more = used-entered table g side id;
    points_at = λ q hq. ground (
      arith,
      find_column-entered table g side id q p hq v room,
      update_column-points (find_column table id) g side id,
    );
    loses_at = λ q hq. ground (
      arith,
      find_column-entered table g side id q p hq v room,
      update_column-points (find_column table id) g side id,
    );
  },
)

-- What the games of a list have done to the table.
pub record Tallied (es : List (Element ℕ ChessGame)) (table table' : List Column) : Type 0 where
  pub found : (scan tally es (some table)).2 ≡ some table'
  pub is_table : IsTable table'
  pub same_length : length table' ≡ length table
  pub points_at :
      (p : ℕ)
      → 1 ≤ p
      → (find_column table' p).points ≡ (find_column table p).points + points_of p es
  pub loses_at :
      (p : ℕ) → 1 ≤ p → (find_column table' p).loses ≡ (find_column table p).loses + loses_of p es

-- With two columns for each game the tally never leaves the table.
tally_games :
    (es : List (Element ℕ ChessGame)) (table : List Column)
    → All IsGame es
    → IsTable table
    → used table + 2 * length es ≤ length table
    → (table' : List Column) × Tallied es table table'
unfolding scan tally enter_players games_sum
tally_games [] table h v room = (
  table,
  record {
    found = refl;
    is_table = v;
    same_length = refl;
    points_at = λ q hq. omega arith;
    loses_at = λ q hq. omega arith;
  },
)
tally_games (e ∷ es) table h v room =
    let (g, there) = Holds-full IsGame e.value h.0 in
    let (p1, p2, _) : IsGame g = subst (Holds IsGame) there h.0 in
    let (one, first) =
      enter_place g.first_player_deleted g player_one g.first_player_id table p1 v (omega arith) in
    let (two, second) =
      enter_place g.second_player_deleted g player_two g.second_player_id one p2 first.is_table
        (omega (arith, first.one_more, first.same_length)) in
    let (table', rest) =
      tally_games es two h.1 second.is_table
        (omega (arith, first.one_more, first.same_length, second.one_more, second.same_length)) in
    (
      table',
      record {
        found = ground (arith, there, first.found, second.found, rest.found);
        is_table = rest.is_table;
        same_length = omega (arith, rest.same_length, second.same_length, first.same_length);
        points_at = λ q hq.
            ground (arith, there, first.points_at q hq, second.points_at q hq, rest.points_at q hq);
        loses_at = λ q hq.
            ground (arith, there, first.loses_at q hq, second.loses_at q hq, rest.loses_at q hq);
      },
    )

length-blank_columns : (n : ℕ) → length (blank_columns n) ≡ n
unfolding blank_columns
length-blank_columns zero = refl
length-blank_columns (suc n) = ground (arith, length-blank_columns n)

blank_columns-AllBlank : (n : ℕ) → AllBlank (blank_columns n)
unfolding blank_columns
blank_columns-AllBlank zero = tt
blank_columns-AllBlank (suc n) = (refl, blank_columns-AllBlank n)

used-blank_columns : (n : ℕ) → used (blank_columns n) ≡ 0
unfolding blank_columns used
used-blank_columns zero = refl
used-blank_columns (suc n) = ground (arith, used-blank_columns n)

-- The table that the loop leaves: what each player has in it is what his games sum up to.
pub record IsTally (games : Map ℕ ChessGame) (table : List Column) : Type 0 where
  pub found : (scan_map tally games (some (blank_columns (2 * get_size games)))).1 ≡ some table
  pub is_table : IsTable table
  pub same_length : length table ≡ 2 * get_size games
  pub points_at : (p : ℕ) → 1 ≤ p → (find_column table p).points ≡ points_of p games.head
  pub loses_at : (p : ℕ) → 1 ≤ p → (find_column table p).loses ≡ loses_of p games.head

pub tally_lem :
    (games : Map ℕ ChessGame) → All IsGame games.head → (table : List Column) × IsTally games table
unfolding scan_map get_size
tally_lem games h =
    let n = 2 * length games.head in
    let blanks = blank_columns-AllBlank n in
    let (table, t) =
      tally_games games.head (blank_columns n) h (IsTable-blank (blank_columns n) blanks)
        (omega (arith, used-blank_columns n, length-blank_columns n)) in
    (
      table,
      record {
        found = ground (arith, t.found);
        is_table = t.is_table;
        same_length = t.same_length ∙ length-blank_columns n;
        points_at = λ q hq.
            ground (arith, t.points_at q hq, find_column-blank (blank_columns n) q hq blanks);
        loses_at = λ q hq.
            ground (arith, t.loses_at q hq, find_column-blank (blank_columns n) q hq blanks);
      },
    )
