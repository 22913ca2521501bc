-- ===== src/Coalitions/Pairs.antt =====
-- What "all of them work together" means for the pairs of chosen parties.
use mathlib.Core.Path.{subst}
use cs_bsc_technion.Base.{
  ℕ, zero, suc, ◌<◌, ◌≡◌, ◌↔◌, refl, Bool, true, false, inl, inr, ◌==◌, arith, Bool-cases, ==_iff,
  sym,
}
use cs_bsc_technion.Coalitions.{check_colobration, coalition_num}
use cs_bsc_technion.Coalitions.Exhaustive.{all_agree, all_subsets, coalition_num-eq-all_subsets}

abbrev pub Works : (ℕ → Bool) → (ℕ → Bool) → ℕ → Type 0
Works row c n = (g : ℕ) → g < n → c g ≡ true → row g ≡ true

check_sound : (row c : ℕ → Bool) (n : ℕ) → check_colobration row c n ≡ true → Works row c n
unfolding check_colobration
check_sound row c zero h g lt chosen = absurd (omega arith)
check_sound row c (suc n) h g lt chosen = elim (Bool-cases (g == n)) [
  | inl last ↦
      subst (λ g. c g ≡ true → row g ≡ true) (sym ((==_iff g n).0 last))
        (λ chosen. ground (arith, h, chosen)) chosen
  | inr before ↦ check_sound row c n (ground (arith, h)) g (ground (arith, before, lt)) chosen
]

check_complete : (row c : ℕ → Bool) (n : ℕ) → Works row c n → check_colobration row c n ≡ true
unfolding check_colobration
check_complete row c zero h = refl
check_complete row c (suc n) h = elim (Bool-cases (c n)) [
  | inl chosen ↦
      rw (check_complete row c n (λ g lt. h g (omega arith)), chosen, h n (omega arith) chosen)
  | inr other ↦ rw (check_complete row c n (λ g lt. h g (omega arith)), other)
]

abbrev pub AllWork : (ℕ → ℕ → Bool) → (ℕ → Bool) → ℕ → Type 0
AllWork can c n = (i : ℕ) → i < n → c i ≡ true → Works (can i) c i

agree_sound :
    (can : ℕ → ℕ → Bool) (c : ℕ → Bool) (n : ℕ) → all_agree can c n ≡ true → AllWork can c n
unfolding all_agree
agree_sound can c zero h i lt chosen = absurd (omega arith)
agree_sound can c (suc n) h i lt chosen = elim (Bool-cases (i == n)) [
  | inl last ↦
      subst (λ i. c i ≡ true → Works (can i) c i) (sym ((==_iff i n).0 last))
        (λ chosen. check_sound (can n) c n (ground (arith, h, chosen))) chosen
  | inr before ↦ agree_sound can c n (ground (arith, h)) i (ground (arith, before, lt)) chosen
]

agree_complete :
    (can : ℕ → ℕ → Bool) (c : ℕ → Bool) (n : ℕ) → AllWork can c n → all_agree can c n ≡ true
unfolding all_agree
agree_complete can c zero h = refl
agree_complete can c (suc n) h = elim (Bool-cases (c n)) [
  | inl chosen ↦ rw (
    agree_complete can c n (λ i lt. h i (omega arith)),
    chosen,
    check_complete (can n) c n (h n (omega arith) chosen),
  )
  | inr other ↦ rw (agree_complete can c n (λ i lt. h i (omega arith)), other)
]

-- For any number of parties, any mandates from 0 on whose sums do not overflow and any table, the
-- search, which goes on only with parties that work together, counts as many coalitions as a look at
-- each subset of the parties that asks for agreement and more than 60 mandates; and a subset has
-- agreement exactly when the table lets each of its parties work with each of its parties before it.
pub coalition_num_lem :
    (mandates : ℕ → ℕ) (can : ℕ → ℕ → Bool) (n : ℕ)
    → (coalition_num mandates can n ≡ all_subsets mandates can n (λ i. false) 0)
      × ((c : ℕ → Bool) → (all_agree can c n ≡ true) ↔ AllWork can c n)
coalition_num_lem mandates can n = (
  coalition_num-eq-all_subsets mandates can n,
  λ c. (agree_sound can c n, agree_complete can c n),
)
