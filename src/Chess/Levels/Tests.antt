-- ===== src/Chess/Levels/Tests.antt =====
-- The levels at a concrete system, with hundredths above -10 for the levels.
use cs_bsc_technion.Base.{
  ℕ, ◌/◌, ◌≡◌, refl, true, false, some, List, [], ◌∷◌, arith, ltb, ◌==◌, ==_iff, ℤ, pos, pos_part,
  ◌+ℤ◌, ◌-ℤ◌, ◌*ℤ◌,
}
use cs_bsc_technion.Chess.Types.{chess_success, chess_save_failure, chess_out_of_memory}
use cs_bsc_technion.Chess.Sample.{memory, sample, sample-IsValid}
use cs_bsc_technion.Chess.Levels.{
  Levels, Entry, entry_at, print_levels_to_file, chess_save_players_levels,
  index_of_small_closes_number, print_levels,
}
use cs_bsc_technion.Chess.Levels.Falling.{IsRanking}
use cs_bsc_technion.Chess.Levels.Table.{with_games}
use cs_bsc_technion.Chess.Levels.Saved.{chess_save_players_levels_lem}

abbrev hundredths : ℤ → ℤ → ℕ
hundredths points games = pos_part (points *ℤ pos 100 +ℤ games *ℤ pos 1000) / pos_part games

below_irrefl : (a : ℕ) → ltb a a ≡ false
below_irrefl a = ground arith

below_trans : (a b c : ℕ) → ltb a b ≡ true → ltb b c ≡ true → ltb a c ≡ true
below_trans a b c p q = ground arith

below_total : (a b : ℕ) → ltb a b ≡ false → ltb b a ≡ false → a ≡ b
below_total a b p q = ground arith

-- With `%.2f` in mind.
abbrev numbers : Levels
numbers = record {
  Level = ℕ;
  divide = hundredths;
  below = ltb;
  equal = λ a b. a == b;
  equal_iff = ==_iff;
  below_irrefl = below_irrefl;
  below_trans = below_trans;
  below_total = below_total;
}

abbrev line : ℕ → ℕ → Entry numbers
line id level = record { id = id; level = level }

abbrev five : List (Entry numbers)
five = line 3 40 ∷ line 5 70 ∷ line 6 40 ∷ line 8 10 ∷ line 9 70 ∷ []

five_printed :
    print_levels numbers 6 (λ k. true) five 70 1 []
    ≡ some (chess_success, line 5 70 ∷ line 9 70 ∷ line 3 40 ∷ line 6 40 ∷ line 8 10 ∷ [])
unfolding print_levels cs_bsc_technion.Chess.Levels.print_round
    cs_bsc_technion.Chess.Levels.check_same_from cs_bsc_technion.Chess.Levels.print_same
    cs_bsc_technion.Chess.Levels.next_level index_of_small_closes_number entry_at
five_printed = refl

third_line_fails :
    print_levels numbers 6 (λ k. ltb k 2) five 70 1 []
    ≡ some (chess_save_failure, line 5 70 ∷ line 9 70 ∷ [])
unfolding print_levels cs_bsc_technion.Chess.Levels.print_round
    cs_bsc_technion.Chess.Levels.check_same_from cs_bsc_technion.Chess.Levels.print_same
    cs_bsc_technion.Chess.Levels.next_level index_of_small_closes_number entry_at
third_line_fails = refl

next_below_70 : index_of_small_closes_number numbers five 70 ≡ some 0
unfolding index_of_small_closes_number
next_below_70 = refl

-- The winner of one game has the level 6, the loser the level -10.
sample_levels : with_games numbers sample.players_list.head ≡ line 3 1600 ∷ line 5 0 ∷ []
unfolding ◌+ℤ◌ ◌*ℤ◌ ◌-ℤ◌
sample_levels = refl

no_memory :
    chess_save_players_levels numbers (λ i. false) (λ k. true) sample
    ≡ some (chess_out_of_memory, [])
unfolding chess_save_players_levels
no_memory = refl

chess_save_players_levels_lem_example :
    (out : List (Entry numbers)) × (chess_save_players_levels numbers memory (λ k. true) sample
      ≡ some (chess_success, out))
    × IsRanking numbers (with_games numbers sample.players_list.head) out
unfolding ◌+ℤ◌
chess_save_players_levels_lem_example =
    chess_save_players_levels_lem numbers memory (λ k. true) sample (λ i. refl) (λ k. refl)
      sample-IsValid (omega arith, (omega arith, tt))
