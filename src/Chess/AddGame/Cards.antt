-- ===== src/Chess/AddGame/Cards.antt =====
-- The cards of the two players in `chessAddGame`, when memory does not run out.
use cs_bsc_technion.Base.{
  ℕ, ◌+◌, ◌≡◌, refl, Bool, true, ◌&&◌, not, none, some, if◌then◌else◌, ℤ, ◌==◌, arith, Bool-cases,
  inl, inr,
}
use cs_bsc_technion.Map.{Map, map_success, contains, get, put}
use cs_bsc_technion.Map.Put.{put-IsSorted, get-put, put_result}
use cs_bsc_technion.Map.All.{All-put, Holds-full, get-contains, get_absent}
use cs_bsc_technion.Chess.Types.{
  chess_success, ChessGame, Player, PlayerSide, player_one, player_two, Winner, ChessSystem,
  players_ops, players_order, copy_player_data, same_key-players,
}
use cs_bsc_technion.Chess.Score.{update_player_score, add_point}
use cs_bsc_technion.Chess.Valid.{IsGame, IsPlayer}
use cs_bsc_technion.Chess.AddGame.{new_player, add_player, score_at, score_game}
use cs_bsc_technion.Chess.Cards.{IsList, scored, get-scored, scored-IsList}

-- The list of the players after `addPlayer`.
unfoldable pub listed : Map ℕ Player → ℕ → Map ℕ Player
listed players id =
    if contains (players_ops true) players (some id)
    then players
    else (put (players_ops true) true players (some id) (some (new_player id))).1

pub add_player_lem :
    (alloc : ℕ → Bool) (site : ℕ) (players : Map ℕ Player) (id : ℕ)
    → ((i : ℕ) → alloc i ≡ true)
    → add_player alloc site players id ≡ (map_success, listed players id)
unfolding add_player listed
add_player_lem alloc site players id plenty =
    rw (plenty site, plenty (site + 1), plenty (site + 2))
      (ground (arith, put_result (players_ops true) true players id (new_player id)))

pub listed-IsList : (players : Map ℕ Player) (id : ℕ) → IsList players → IsList (listed players id)
unfolding listed copy_player_data
listed-IsList players id v = record {
  sorted = ground (
    arith,
    v.sorted,
    put-IsSorted (players_order true) true players (some id) (some (new_player id)) v.sorted,
  );
  full = ground (
    arith,
    v.full,
    All-put IsPlayer (players_ops true) true players id (new_player id) v.full refl tt,
  );
}

pub get-listed :
    (players : Map ℕ Player) (id j : ℕ)
    → get (players_ops true) (listed players id) (some j) ≡ (
        if not (contains (players_ops true) players (some id)) && id == j
        then some (new_player id)
        else get (players_ops true) players (some j))
unfolding listed copy_player_data
get-listed players id j = ground (
  arith,
  get-put (players_order true) true players id j (new_player id),
  same_key-players true id j,
)

-- The card of a player, or a new one.
abbrev pub card_or_new : Map ℕ Player → ℕ → Player
card_or_new players id = elim (get (players_ops true) players (some id)) [
  | none ↦ new_player id
  | some p ↦ p
]

-- After `addPlayer` the player has his card, or a new one; the other cards are as before.
pub get-listed_card :
    (players : Map ℕ Player) (id j : ℕ)
    → IsList players
    → get (players_ops true) (listed players id) (some j)
      ≡ (if id == j then some (card_or_new players id) else get (players_ops true) players (some j))
get-listed_card players id j v = elim (Bool-cases (contains (players_ops true) players (some id))) [
  | inl known ↦
      let (p, found) =
        Holds-full IsPlayer (get (players_ops true) players (some id))
          (get-contains IsPlayer (players_ops true) players id v.full known) in
      ground (arith, get-listed players id j, known, found)
  | inr new ↦ ground (arith, get-listed players id j, new, get_absent (players_ops true) players id)
]

pub score_at_lem :
    (players : Map ℕ Player) (id : ℕ) (side : PlayerSide) (r : Winner) (score time : ℤ) (p : Player)
    → get (players_ops true) players (some id) ≡ some p
    → score_at players id side r score time
      ≡ some (scored players id (update_player_score p side r score time))
unfolding score_at scored
score_at_lem players id side r score time p found = rw found

-- The players after the whole call: both are listed, then both cards take the result in.
unfoldable pub both_listed : Map ℕ Player → ChessGame → Map ℕ Player
both_listed players g = listed (listed players g.first_player_id) g.second_player_id

abbrev pub first_card : Map ℕ Player → ChessGame → Player
first_card players g =
    update_player_score (card_or_new players g.first_player_id) player_one g.game_result add_point
      g.game_time

abbrev pub second_card : Map ℕ Player → ChessGame → Player
second_card players g =
    update_player_score (card_or_new players g.second_player_id) player_two g.game_result add_point
      g.game_time

first_scored : Map ℕ Player → ChessGame → Map ℕ Player
first_scored players g = scored (both_listed players g) g.first_player_id (first_card players g)

pub cards_after : Map ℕ Player → ChessGame → Map ℕ Player
cards_after players g = scored (first_scored players g) g.second_player_id (second_card players g)

module _ (players : Map ℕ Player) (g : ChessGame) (v : IsList players) (ne : IsGame g) where
  get-both_listed :
      (j : ℕ)
      → get (players_ops true) (both_listed players g) (some j) ≡ (
          if g.second_player_id == j
          then some (card_or_new players g.second_player_id)
          else if g.first_player_id == j
          then some (card_or_new players g.first_player_id)
          else get (players_ops true) players (some j))
  unfolding both_listed
  get-both_listed j = ground (
    arith,
    get-listed_card (listed players g.first_player_id) g.second_player_id j
        (listed-IsList players g.first_player_id v),
    get-listed_card players g.first_player_id j v,
    get-listed_card players g.first_player_id g.second_player_id v,
  )

  both_listed-IsList : IsList (both_listed players g)
  unfolding both_listed
  both_listed-IsList =
      listed-IsList (listed players g.first_player_id) g.second_player_id
        (listed-IsList players g.first_player_id v)

  pub cards_after-IsList : IsList (cards_after players g)
  unfolding cards_after first_scored
  cards_after-IsList = scored-IsList _ _ _ (scored-IsList _ _ _ both_listed-IsList)

  first_there :
      get (players_ops true) (both_listed players g) (some g.first_player_id)
      ≡ some (card_or_new players g.first_player_id)
  first_there = ground (arith, get-both_listed g.first_player_id)

  get-first_scored :
      (j : ℕ)
      → get (players_ops true) (first_scored players g) (some j) ≡ (
          if g.first_player_id == j
          then some (first_card players g)
          else if g.second_player_id == j
          then some (card_or_new players g.second_player_id)
          else get (players_ops true) players (some j))
  unfolding first_scored
  get-first_scored j = ground (
    arith,
    get-scored (both_listed players g) g.first_player_id j (card_or_new players g.first_player_id)
        (first_card players g) first_there,
    get-both_listed j,
  )

  second_there :
      get (players_ops true) (first_scored players g) (some g.second_player_id)
      ≡ some (card_or_new players g.second_player_id)
  second_there = ground (arith, get-first_scored g.second_player_id)

  -- Each of the two players has a card that took the result in from his side, the card he had or a
  -- new one; every other card is as it was.
  pub get-cards_after :
      (j : ℕ)
      → get (players_ops true) (cards_after players g) (some j) ≡ (
          if g.first_player_id == j
          then some (first_card players g)
          else if g.second_player_id == j
          then some (second_card players g)
          else get (players_ops true) players (some j))
  unfolding cards_after
  get-cards_after j = ground (
    arith,
    get-scored (first_scored players g) g.second_player_id j
        (card_or_new players g.second_player_id) (second_card players g) second_there,
    get-first_scored j,
  )

  pub score_game_lem :
      (chess : ChessSystem)
      → chess.players_list ≡ both_listed players g
      → score_game chess g
        ≡ some (chess_success, record chess { players_list = cards_after players g })
  unfolding score_game cards_after
  score_game_lem chess e = ground (
    arith,
    score_at_lem (both_listed players g) g.first_player_id player_one g.game_result add_point
        g.game_time (card_or_new players g.first_player_id) first_there,
    score_at_lem (first_scored players g) g.second_player_id player_two g.game_result add_point
        g.game_time (card_or_new players g.second_player_id) second_there,
    same,
  )
    where
      same :
          scored (both_listed players g) g.first_player_id (first_card players g)
          ≡ first_scored players g
      same = unfold first_scored in refl
