-- ===== src/Chess/AddTournament/Outcome.antt =====
-- What `chessAddTournament` returns and what the table holds afterwards.
use cs_bsc_technion.Base.{
  ℕ, suc, ◌≤◌, ◌≡◌, refl, ◌↔◌, Bool, true, false, ◌&&◌, Option, none, some, List, arith,
  if◌then◌else◌, ℤ, pos, ◌≤ℤ◌, pos_part, ◌==◌, ◌∙◌, sym,
}
use cs_bsc_technion.Map.{contains, get, put, same_key, get_size}
use cs_bsc_technion.Map.Put.{put-IsSorted, get-put, put_result}
use cs_bsc_technion.Map.Lookup.{contains-alike, get-alike}
use cs_bsc_technion.Map.All.{All-put}
use cs_bsc_technion.Chess.Types.{
  chess_success, Tournament, ChessSystem, copy_tournament_data, tournaments_ops, tournaments_order,
  same_key-tournaments,
}
use cs_bsc_technion.Chess.Location.{IsLocation, tournament_location_valid_iff}
use cs_bsc_technion.Chess.Games.{number_of_games}
use cs_bsc_technion.Chess.Valid.{IsTournament, IsValid}
use cs_bsc_technion.Chess.AddTournament.{new_tournament, store_tournament, chess_add_tournament}

copy-new_tournament :
    (id max_games : ℕ) (location : List ℕ)
    → copy_tournament_data true (new_tournament id max_games location)
      ≡ some (new_tournament id max_games location)
unfolding copy_tournament_data new_tournament
copy-new_tournament id max_games location = refl

new_tournament-IsTournament :
    (id max_games : ℕ) (location : List ℕ) → IsTournament (new_tournament id max_games location)
unfolding new_tournament number_of_games
new_tournament-IsTournament id max_games location = record {
  sorted = tt;
  all_games = tt;
  within = λ id. omega arith;
}

module _ (alloc : ℕ → Bool) (plenty : (i : ℕ) → alloc i ≡ true) where
  store_plenty :
      (chess : ChessSystem) (id max_games : ℕ) (location : List ℕ)
      → let t = new_tournament id max_games location in
        store_tournament alloc chess t ≡ (
          chess_success,
          record chess {
            chess_tournament_table =
                (put (tournaments_ops true) true chess.chess_tournament_table (some id) (some t)).1;
          },
        )
  unfolding store_tournament new_tournament
  store_plenty chess id max_games location =
      rw (plenty 0, plenty 1, plenty 2, plenty 3, plenty 4)
        (ground (
          arith,
          copy-new_tournament id max_games location,
          put_result (tournaments_ops true) true chess.chess_tournament_table id
              (new_tournament id max_games location),
        ))

  -- If every allocation finds memory, `chessAddTournament` with a location succeeds exactly if its
  -- identifier is positive and new, its location is empty, against what the comments of the code ask
  -- for, or a capital letter followed by small letters and spaces, and it allows at least one game per
  -- player.
  pub chess_add_tournament_iff :
      (chess : ChessSystem) (id max_games : ℤ) (location : List ℕ)
      → ((chess_add_tournament alloc chess id max_games (some location)).0 ≡ chess_success) ↔ (
          (pos 1 ≤ℤ id)
          × (contains (tournaments_ops true) chess.chess_tournament_table (some (pos_part id))
              ≡ false)
          × IsLocation location
          × (pos 1 ≤ℤ max_games))
  unfolding chess_add_tournament
  chess_add_tournament_iff chess id max_games location = (
    λ h. ground (arith, tournament_location_valid_iff location),
    λ h. ground (
      arith,
      tournament_location_valid_iff location,
      store_plenty chess (pos_part id) (pos_part max_games) location,
    ),
  )

  store_tournament-IsValid :
      (chess : ChessSystem) (id max_games : ℕ) (location : List ℕ)
      → IsValid chess
      → IsValid (store_tournament alloc chess (new_tournament id max_games location)).1
  store_tournament-IsValid chess id max_games location v =
      let t = new_tournament id max_games location in
      rw (store_plenty chess id max_games location) (record {
        table_sorted =
            put-IsSorted (tournaments_order true) true chess.chess_tournament_table (some id)
              (some t) v.table_sorted;
        tournaments =
            All-put IsTournament (tournaments_ops true) true chess.chess_tournament_table id t
              v.tournaments (copy-new_tournament id max_games location)
              (new_tournament-IsTournament id max_games location);
        players_sorted = v.players_sorted;
        players = v.players;
      })

  -- If every allocation finds memory, `chessAddTournament` keeps a well-formed system well formed,
  -- whatever it returns.
  pub chess_add_tournament-IsValid :
      (chess : ChessSystem) (id max_games : ℤ) (location : Option (List ℕ))
      → IsValid chess
      → IsValid (chess_add_tournament alloc chess id max_games location).1
  unfolding chess_add_tournament
  chess_add_tournament-IsValid chess id max_games none v = v
  chess_add_tournament-IsValid chess id max_games (some location) v =
      ground (arith, store_tournament-IsValid chess (pos_part id) (pos_part max_games) location v)

  -- If every allocation finds memory and `chessAddTournament` succeeds, its identifier is bound to
  -- an empty tournament in progress, and every other identifier to what it was bound to; no card is
  -- touched.
  pub get-chess_add_tournament :
      (chess : ChessSystem) (id max_games : ℤ) (location : List ℕ) (j : ℕ)
      → (chess_add_tournament alloc chess id max_games (some location)).0 ≡ chess_success
      → let chess' = (chess_add_tournament alloc chess id max_games (some location)).1 in
        (get (tournaments_ops true) chess'.chess_tournament_table (some j) ≡ (
          if pos_part id == j
          then some (new_tournament (pos_part id) (pos_part max_games) location)
          else get (tournaments_ops true) chess.chess_tournament_table (some j)))
        × (chess'.players_list ≡ chess.players_list)
  unfolding chess_add_tournament
  get-chess_add_tournament chess id max_games location j h =
      let t = new_tournament (pos_part id) (pos_part max_games) location in
      ground (
        arith,
        store_plenty chess (pos_part id) (pos_part max_games) location,
        get-put (tournaments_order true) true chess.chess_tournament_table (pos_part id) j t,
        copy-new_tournament (pos_part id) (pos_part max_games) location,
        same_key-tournaments true (pos_part id) j,
      )

module _ (alloc : ℕ → Bool) where
  store_null :
      (chess : ChessSystem) (t : Tournament)
      → alloc 0 ≡ true
      → alloc 1 ≡ true
      → alloc 3 ≡ true
      → (alloc 2 && alloc 4) ≡ false
      → contains (tournaments_ops true) chess.chess_tournament_table (some t.tournament_id) ≡ false
      → let (result, chess') = store_tournament alloc chess t in
        (result ≡ chess_success)
        × (get_size chess'.chess_tournament_table ≡ suc (get_size chess.chess_tournament_table))
        × (get (tournaments_ops true) chess'.chess_tournament_table (some t.tournament_id) ≡ none)
  unfolding store_tournament copy_tournament_data
  store_null chess t a0 a1 a3 short fresh =
      rw (a0, a1, a3, short)
        (ground (
          arith,
          contains-alike (tournaments_ops false) (tournaments_ops true) alike
              chess.chess_tournament_table t.tournament_id,
          put_result (tournaments_ops false) true chess.chess_tournament_table t.tournament_id t,
          get-put (tournaments_order false) true chess.chess_tournament_table t.tournament_id
              t.tournament_id t,
          get-alike (tournaments_ops false) (tournaments_ops true) alike
              (put (tournaments_ops false) true chess.chess_tournament_table (some t.tournament_id)
                (some t)).1
              t.tournament_id,
          no_copy t,
          same_key-tournaments false t.tournament_id t.tournament_id,
        ))
    where
      alike : (a b : ℕ) → same_key (tournaments_ops false) a b ≡ same_key (tournaments_ops true) a b
      alike a b = same_key-tournaments false a b ∙ sym (same_key-tournaments true a b)

      no_copy : (t : Tournament) → copy_tournament_data false t ≡ none
      no_copy t = refl

  -- Where the arguments of `chessAddTournament` are good and memory runs out behind the element
  -- (the map of the games or the copy of the tournament finds none), the call still reports
  -- success: the table has grown by an element, and the identifier is bound to NULL.
  pub chess_add_tournament_null :
      (chess : ChessSystem) (id max_games : ℕ) (location : List ℕ)
      → alloc 0 ≡ true
      → alloc 1 ≡ true
      → alloc 3 ≡ true
      → (alloc 2 && alloc 4) ≡ false
      → 1 ≤ id
      → 1 ≤ max_games
      → IsLocation location
      → contains (tournaments_ops true) chess.chess_tournament_table (some id) ≡ false
      → let (result, chess') =
          chess_add_tournament alloc chess (pos id) (pos max_games) (some location) in
        (result ≡ chess_success)
        × (get_size chess'.chess_tournament_table ≡ suc (get_size chess.chess_tournament_table))
        × (get (tournaments_ops true) chess'.chess_tournament_table (some id) ≡ none)
  unfolding chess_add_tournament new_tournament
  chess_add_tournament_null chess id max_games location a0 a1 a3 short hi hm hl fresh = ground (
    arith,
    tournament_location_valid_iff location,
    store_null chess (new_tournament id max_games location) a0 a1 a3 short fresh,
  )
