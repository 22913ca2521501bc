-- ===== src/Chess/Statistics/Longest.antt =====
-- `longestGameTimeAndAverage`: what it computes, and when it reads through NULL.
use mathlib.Core.Path.{subst}
use cs_bsc_technion.Base.{
  ℕ, ◌≡◌, refl, true, Option, none, some, List, [], ◌∷◌, ℤ, pos, ◌+ℤ◌, ◌≤ℤ◌, ltb_ℤ, ◌⊎◌, inl, inr,
  arith, int_laws, ◌∙◌, ap, Bool-cases,
}
use cs_bsc_technion.Map.{Element, get, get_size, get_first}
use cs_bsc_technion.Map.Order.{IsSorted}
use cs_bsc_technion.Map.Lookup.{get-eq-find}
use cs_bsc_technion.Map.Iterate.{find_at}
use cs_bsc_technion.Map.Counted.{look_over}
use cs_bsc_technion.Map.Tour.{tour_rounds-eq-look_over, tour_rounds-past}
use cs_bsc_technion.Map.All.{All, All-IsFull, Holds, Holds-full}
use cs_bsc_technion.Chess.Types.{ChessGame, Tournament, games_ops, games_order}
use cs_bsc_technion.Chess.Valid.{IsGame, IsTournament}
use cs_bsc_technion.Chess.Statistics.{Times, read_time, no_times, longest_game_time_and_average}

-- The sum of the times of the games.
unfoldable pub total_of : List (Element ℕ ChessGame) → ℤ
total_of [] = pos 0
total_of (e ∷ es) = elim e.value [ none ↦ pos 0 | some g ↦ g.game_time +ℤ total_of es ]

-- No game is longer, and one is as long.
abbrev pub NoneLonger : ℤ → List (Element ℕ ChessGame) → Type 0
NoneLonger l [] = Unit {0}
NoneLonger l (e ∷ es) = Holds (λ (g : ChessGame). g.game_time ≤ℤ l) e.value × NoneLonger l es

abbrev pub HasTime : ℤ → List (Element ℕ ChessGame) → Type 0
HasTime l [] = ⊥
HasTime l (e ∷ es) = Holds (λ (g : ChessGame). g.game_time ≡ l) e.value ⊎ HasTime l es

add_assoc : (a b c : ℤ) → (a +ℤ b) +ℤ c ≡ a +ℤ (b +ℤ c)
add_assoc a b c = omega int_laws

zero_add : (a : ℤ) → pos 0 +ℤ a ≡ a
zero_add a = omega int_laws

-- A tour of the games from times `s` to times `s'`.
record IsRead (es : List (Element ℕ ChessGame)) (s s' : Times) : Type 0 where
  rises : s.longest_game ≤ℤ s'.longest_game
  longest : NoneLonger s'.longest_game es
  reached : (s'.longest_game ≡ s.longest_game) ⊎ HasTime s'.longest_game es
  summed : s'.total_time ≡ s.total_time +ℤ total_of es

IsRead-step :
    (e : Element ℕ ChessGame) (es : List (Element ℕ ChessGame)) (g : ChessGame) (s s' : Times)
    → e.value ≡ some g
    → IsRead es (read_time g s).state s'
    → IsRead (e ∷ es) s s'
unfolding read_time total_of
IsRead-step e es g s s' there ih = record {
  rises = ground (arith, ih.rises);
  longest = (rw there (ground (arith, ih.rises)), ih.longest);
  reached = elim ih.reached [
    | inr later ↦ inr (inr later)
    | inl same ↦ elim (Bool-cases (ltb_ℤ s.longest_game g.game_time)) [
      | inl longer ↦ inr (inl (rw there (ground (arith, longer, same))))
      | inr shorter ↦ inl (ground (arith, shorter, same))
    ]
  ];
  summed = rw there (ih.summed ∙ add_assoc s.total_time g.game_time (total_of es));
}

look_over-read_time :
    (e : Element ℕ ChessGame) (es : List (Element ℕ ChessGame)) (g : ChessGame) (s : Times)
    → e.value ≡ some g
    → look_over read_time (e ∷ es) s ≡ look_over read_time es (read_time g s).state
unfolding look_over read_time
look_over-read_time e es g s there = rw there refl

look_over-IsRead :
    (es : List (Element ℕ ChessGame)) (s : Times)
    → All IsGame es
    → IsRead es s (look_over read_time es s)
look_over-IsRead [] s h =
    unfold look_over total_of in
    record { rises = omega int_laws; longest = tt; reached = inl refl; summed = omega int_laws }
look_over-IsRead (e ∷ es) s h =
    let (g, there) = Holds-full IsGame e.value h.0 in
    rw (look_over-read_time e es g s there) (
      IsRead-step e es g s (look_over read_time es (read_time g s).state) there
        (look_over-IsRead es (read_time g s).state h.1))

-- The game that the map of the games begins with.
abbrev pub first_game : List (Element ℕ ChessGame) → Option ChessGame
first_game [] = none
first_game (e ∷ es) = e.value

module _ (t : Tournament) (vt : IsTournament t) (e : Element ℕ ChessGame)
    (es : List (Element ℕ ChessGame)) (g : ChessGame) (these : t.games.head ≡ e ∷ es)
    (there : e.value ≡ some g) where
  sorted : IsSorted (games_order true) (e ∷ es)
  sorted = subst (λ xs. IsSorted (games_order true) xs) these vt.sorted

  All-games : All IsGame (e ∷ es)
  All-games = subst (λ xs. All IsGame xs) these vt.all_games

  get_it :
      get (games_ops true) (record { head = e ∷ es; iterator = some e.key }) (some e.key) ≡ some g
  get_it = get-eq-find (games_ops true) _ e.key ∙ find_at (games_order true) [] e es sorted ∙ there

  on_long :
      pos 1 ≤ℤ g.game_time
      → let s = look_over read_time es (read_time g no_times).state in
        longest_game_time_and_average t
        ≡ some (s.longest_game, record { total = s.total_time; count = get_size t.games })
  unfolding longest_game_time_and_average get_first get_size
  on_long long = rw these (
      ground (
        arith,
        long,
        get_it,
        tour_rounds-eq-look_over (games_order true) read_time [] e es (read_time g no_times).state
            sorted (All-IsFull IsGame es All-games.1),
      ))

  on_zero : g.game_time ≤ℤ pos 0 → longest_game_time_and_average t ≡ none
  unfolding longest_game_time_and_average get_first get_size
  on_zero zero_time = rw these (
      ground (
        arith,
        zero_time,
        get_it,
        tour_rounds-past (games_order true) read_time [] e es (read_time g no_times).state
            (λ v s'. unfold read_time in refl) sorted (All-IsFull IsGame es All-games.1),
      ))

module _ (t : Tournament) (vt : IsTournament t) (g : ChessGame)
    (starts : first_game t.games.head ≡ some g) where
  -- On a well-formed tournament whose first game is longer than 0 `longestGameTimeAndAverage` gives
  -- the time of a game than which none is longer, and the quotient of the total time by the number
  -- of the games.
  pub longest_game_time_and_average_lem :
      pos 1 ≤ℤ g.game_time
      → (longest : ℤ) × (longest_game_time_and_average t
          ≡ some (longest, record { total = total_of t.games.head; count = get_size t.games }))
        × NoneLonger longest t.games.head
        × HasTime longest t.games.head
  longest_game_time_and_average_lem long = from t.games.head refl starts
    where
      from :
          (es : List (Element ℕ ChessGame))
          → t.games.head ≡ es
          → first_game es ≡ some g
          → (longest : ℤ) × (longest_game_time_and_average t
              ≡ some (longest, record { total = total_of es; count = get_size t.games }))
            × NoneLonger longest es
            × HasTime longest es
      from [] these there = cc
      from (e ∷ es) these there =
          let s' = look_over read_time es (read_time g no_times).state in
          let r = IsRead-step e es g no_times s' there (
            look_over-IsRead es (read_time g no_times).state
              (All-games t vt e es g these there).1) in
          (
            s'.longest_game,
            on_long t vt e es g these there long
                ∙ ap
                    (λ (total : ℤ).
                      some (s'.longest_game, record { total = total; count = get_size t.games }))
                    (r.summed ∙ zero_add (total_of (e ∷ es))),
            r.longest,
            (elim r.reached [
              | inr reached ↦ reached
              | inl none_yet ↦ absurd (
                  ground (
                    arith,
                    long,
                    none_yet,
                    subst (Holds (λ (g : ChessGame). g.game_time ≤ℤ s'.longest_game)) there
                        r.longest.0,
                  ))
            ]),
          )

  -- On a well-formed tournament whose first game is not longer than 0 that game is not counted off,
  -- and the loop of `longestGameTimeAndAverage` reads a game behind the last one, through NULL.
  pub longest_game_time_and_average_null :
      g.game_time ≤ℤ pos 0 → longest_game_time_and_average t ≡ none
  longest_game_time_and_average_null zero_time = from t.games.head refl starts
    where
      from :
          (es : List (Element ℕ ChessGame))
          → t.games.head ≡ es
          → first_game es ≡ some g
          → longest_game_time_and_average t ≡ none
      from [] these there = cc
      from (e ∷ es) these there = on_zero t vt e es g these there zero_time
