-- ===== src/Coalitions/Tests.antt =====
-- Runs of the search on four parties and of the program on five.
use cs_bsc_technion.Base.{
  ℕ, ◌≡◌, ◌↔◌, true, refl, Bool, false, none, some, [], ◌∷◌, ◌||◌, not, if◌then◌else◌, ◌==◌, pos,
  negsuc,
}
use cs_bsc_technion.Coalitions.{coalition_num, main}
use cs_bsc_technion.Coalitions.Exhaustive.{all_agree, all_subsets}
use cs_bsc_technion.Coalitions.Pairs.{AllWork, coalition_num_lem}

abbrev seats : ℕ → ℕ
seats i = if i == 0 then 50 else if i == 1 then 30 else if i == 2 then 25 else 15

-- All work together but the parties 0 and 1.
abbrev table : ℕ → ℕ → Bool
table i j = not (i == 1) || not (j == 0)

four_parties : coalition_num seats table 4 ≡ 4
unfolding coalition_num cs_bsc_technion.Coalitions.count_coalitions
    cs_bsc_technion.Coalitions.check_colobration
four_parties = refl

five_parties :
    main (
      pos 61
      ∷ pos 20
      ∷ pos 20
      ∷ pos 10
      ∷ pos 9
      ∷ pos 0
      ∷ pos 0
      ∷ pos 0
      ∷ pos 0
      ∷ pos 0
      ∷ pos 0
      ∷ pos 0
      ∷ pos 1
      ∷ pos 1
      ∷ pos 1
      ∷ pos 0
      ∷ pos 1
      ∷ pos 0
      ∷ pos 1
      ∷ pos 1
      ∷ pos 0
      ∷ pos 1
      ∷ pos 1
      ∷ pos 0
      ∷ pos 1
      ∷ pos 0
      ∷ pos 0
      ∷ pos 0
      ∷ pos 0
      ∷ pos 0
      ∷ [])
    ≡ some 1
unfolding main cs_bsc_technion.Coalitions.scan_input cs_bsc_technion.Coalitions.scan_1d_arr
    cs_bsc_technion.Coalitions.scan_2d_bool_arr cs_bsc_technion.Coalitions.scan_row coalition_num
    cs_bsc_technion.Coalitions.count_coalitions cs_bsc_technion.Coalitions.check_colobration
five_parties = refl

negative_mandates : main (pos 61 ∷ negsuc 0 ∷ []) ≡ none
unfolding main cs_bsc_technion.Coalitions.scan_input cs_bsc_technion.Coalitions.scan_1d_arr
negative_mandates = refl

coalition_num_lem_example :
    (coalition_num seats table 4 ≡ all_subsets seats table 4 (λ i. false) 0)
    × ((c : ℕ → Bool) → (all_agree table c 4 ≡ true) ↔ AllWork table c 4)
coalition_num_lem_example = coalition_num_lem seats table 4
