-- ===== src/Coalitions/Exhaustive.antt =====
-- The search of "BackTracking - Recursion.c" against one that looks at every subset of the parties.
use cs_bsc_technion.Base.{
  ℕ, zero, suc, ◌+◌, ◌<◌, ◌≡◌, refl, ap, ◌∙◌, Bool, true, false, ◌&&◌, ◌||◌, not, inl, inr,
  if◌then◌else◌, ltb, ◌==◌, arith, Bool-cases,
}
use cs_bsc_technion.Coalitions.{minimum, store, check_colobration, count_coalitions, coalition_num}

-- The mandates of the chosen ones of the first `n` parties.
unfoldable pub total : (ℕ → ℕ) → (ℕ → Bool) → ℕ → ℕ
total mandates chosen zero = 0
total mandates chosen (suc i) = total mandates chosen i + (if chosen i then mandates i else 0)

-- Each chosen one of the first `n` parties works with each chosen one before it.
unfoldable pub all_agree : (ℕ → ℕ → Bool) → (ℕ → Bool) → ℕ → Bool
all_agree can chosen zero = true
all_agree can chosen (suc i) =
    all_agree can chosen i && (not (chosen i) || check_colobration (can i) chosen i)

-- The number of the choices for `left` more parties with which all agree and have a majority.
unfoldable pub all_subsets : (ℕ → ℕ) → (ℕ → ℕ → Bool) → ℕ → (ℕ → Bool) → ℕ → ℕ
all_subsets mandates can zero chosen index =
    if all_agree can chosen index && ltb minimum (total mandates chosen index) then 1 else 0
all_subsets mandates can (suc left) chosen index =
    all_subsets mandates can left (store chosen index true) (suc index)
    + all_subsets mandates can left (store chosen index false) (suc index)

abbrev AgreeBelow : (ℕ → Bool) → (ℕ → Bool) → ℕ → Type 0
AgreeBelow c d n = (i : ℕ) → i < n → c i ≡ d i

store-below : (c : ℕ → Bool) (n : ℕ) (v : Bool) → AgreeBelow (store c n v) c n
store-below c n v i lt = ground arith

store-same :
    (c d : ℕ → Bool) (n : ℕ) (v : Bool)
    → AgreeBelow c d n
    → AgreeBelow (store c n v) (store d n v) (suc n)
store-same c d n v same i lt = elim (Bool-cases (i == n)) [
  | inl here ↦ ground (arith, here)
  | inr other ↦ ground (arith, other, same i (ground (arith, other, lt)))
]

store-here : (c : ℕ → Bool) (n : ℕ) (v : Bool) → store c n v n ≡ v
store-here c n v = ground arith

check_same :
    (row c d : ℕ → Bool) (n : ℕ)
    → AgreeBelow c d n
    → check_colobration row c n ≡ check_colobration row d n
unfolding check_colobration
check_same row c d zero same = refl
check_same row c d (suc g) same =
    rw (check_same row c d g (λ i lt. same i (omega arith)), same g (omega arith))

module _ (mandates : ℕ → ℕ) (can : ℕ → ℕ → Bool) where
  total_same : (c d : ℕ → Bool) (n : ℕ) → AgreeBelow c d n → total mandates c n ≡ total mandates d n
  unfolding total
  total_same c d zero same = refl
  total_same c d (suc g) same =
      rw (total_same c d g (λ i lt. same i (omega arith)), same g (omega arith))

  agree_same : (c d : ℕ → Bool) (n : ℕ) → AgreeBelow c d n → all_agree can c n ≡ all_agree can d n
  unfolding all_agree
  agree_same c d zero same = refl
  agree_same c d (suc g) same = rw (
    agree_same c d g (λ i lt. same i (omega arith)),
    same g (omega arith),
    check_same (can g) c d g (λ i lt. same i (omega arith)),
  )

  subsets_same :
      (left : ℕ) (c d : ℕ → Bool) (n : ℕ)
      → AgreeBelow c d n
      → all_subsets mandates can left c n ≡ all_subsets mandates can left d n
  unfolding all_subsets
  subsets_same zero c d n same = rw (agree_same c d n same, total_same c d n same)
  subsets_same (suc left) c d n same = rw (
    subsets_same left (store c n true) (store d n true) (suc n) (store-same c d n true same),
    subsets_same left (store c n false) (store d n false) (suc n) (store-same c d n false same),
  )

  -- A choice of the party `n` beside those before it.
  agree_next :
      (c : ℕ → Bool) (n : ℕ) (v : Bool)
      → all_agree can (store c n v) (suc n)
        ≡ (all_agree can c n && (not v || check_colobration (can n) (store c n v) n))
  unfolding all_agree
  agree_next c n v = rw (agree_same (store c n v) c n (store-below c n v), store-here c n v)

  total_next :
      (c : ℕ → Bool) (n : ℕ) (v : Bool)
      → total mandates (store c n v) (suc n) ≡ total mandates c n + (if v then mandates n else 0)
  unfolding total
  total_next c n v = rw (total_same (store c n v) c n (store-below c n v), store-here c n v)

  agree_never :
      (c : ℕ → Bool) (n : ℕ) (v : Bool)
      → all_agree can c n ≡ false
      → all_agree can (store c n v) (suc n) ≡ false
  agree_never c n v h = rw (agree_next c n v, h)

  no_subset :
      (left : ℕ) (c : ℕ → Bool) (n : ℕ)
      → all_agree can c n ≡ false
      → all_subsets mandates can left c n ≡ 0
  unfolding all_subsets
  no_subset zero c n h = rw h
  no_subset (suc left) c n h = rw (
    no_subset left (store c n true) (suc n) (agree_never c n true h),
    no_subset left (store c n false) (suc n) (agree_never c n false h),
  )

  -- The calls for `left` more parties leave the choices before them.
  abbrev Keeps : ℕ → Type 0
  Keeps left =
      (c : ℕ → Bool) (n sum : ℕ) → AgreeBelow (count_coalitions mandates can left c n sum).1 c n

  kept_by_next :
      (left : ℕ) (c d : ℕ → Bool) (n sum : ℕ) (v : Bool)
      → Keeps left
      → AgreeBelow d c n
      → AgreeBelow (count_coalitions mandates can left (store d n v) (suc n) sum).1 c n
  kept_by_next left c d n sum v keeps same i lt =
      keeps (store d n v) (suc n) sum i (omega arith) ∙ store-below d n v i lt ∙ same i lt

  choices_kept : (left : ℕ) → Keeps left
  unfolding count_coalitions
  choices_kept zero c n sum = λ i lt. refl
  choices_kept (suc left) c n sum =
      elim (Bool-cases (check_colobration (can n) (store c n true) n)) [
        | inl fits ↦ rw fits (
            kept_by_next left c
              (count_coalitions mandates can left (store c n true) (suc n) (sum + mandates n)).1 n
              sum false (choices_kept left)
              (kept_by_next left c c n (sum + mandates n) true (choices_kept left) (λ i lt. refl)))
        | inr other ↦ rw other (
            kept_by_next left c (store c n true) n sum false (choices_kept left)
              (store-below c n true))
      ]

  -- The calls for `left` more parties count what all of their choices give.
  abbrev Counts : ℕ → Type 0
  Counts left =
      (c : ℕ → Bool) (n : ℕ)
      → all_agree can c n ≡ true
      → (count_coalitions mandates can left c n (total mandates c n)).0
        ≡ all_subsets mandates can left c n

  count_with :
      (left : ℕ) (c : ℕ → Bool) (n : ℕ)
      → Counts left
      → all_agree can c n ≡ true
      → check_colobration (can n) (store c n true) n ≡ true
      → (count_coalitions mandates can left
          (store c n true)
          (suc n)
          (total mandates c n + mandates n)).0
        ≡ all_subsets mandates can left (store c n true) (suc n)
  count_with left c n counts h fits =
      rw (← total_next c n true)
        (counts (store c n true) (suc n) (rw (agree_next c n true, h, fits)))

  count_without :
      (left : ℕ) (c d : ℕ → Bool) (n : ℕ)
      → Counts left
      → all_agree can c n ≡ true
      → AgreeBelow d c n
      → (count_coalitions mandates can left (store d n false) (suc n) (total mandates c n)).0
        ≡ all_subsets mandates can left (store c n false) (suc n)
  count_without left c d n counts h same =
      rw
        (
          ← subsets_same left (store d n false) (store c n false) (suc n)
              (store-same d c n false same),
          ← counts (store d n false) (suc n) (rw (agree_next d n false, agree_same d c n same, h)),
          total_next d n false,
          total_same d c n same,
        )
        (ap (λ sum. (count_coalitions mandates can left (store d n false) (suc n) sum).0)
          {x = total mandates c n} {y = total mandates c n + 0} (omega arith))

  search_counted : (left : ℕ) → Counts left
  unfolding count_coalitions all_subsets
  search_counted zero c n h = rw h
  search_counted (suc left) c n h =
      elim (Bool-cases (check_colobration (can n) (store c n true) n)) [
        | inl fits ↦ rw (
          fits,
          count_with left c n (search_counted left) h fits,
          count_without left c
              (count_coalitions mandates can left (store c n true) (suc n)
                (total mandates c n + mandates n)).1
              n (search_counted left) h
              (kept_by_next left c c n (total mandates c n + mandates n) true (choices_kept left)
                (λ i lt. refl)),
        )
        | inr other ↦ rw (
          other,
          count_without left c (store c n true) n (search_counted left) h (store-below c n true),
          no_subset left (store c n true) (suc n) (rw (agree_next c n true, h, other)),
        )
      ]

  pub coalition_num-eq-all_subsets :
      (n : ℕ) → coalition_num mandates can n ≡ all_subsets mandates can n (λ i. false) 0
  unfolding coalition_num all_agree total
  coalition_num-eq-all_subsets n = search_counted n (λ i. false) 0 refl
