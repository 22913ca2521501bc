-- ===== src/Chess/EndTournament/Winner.antt =====
-- `checkWinner`: what the column that it chooses has over the others.
use cs_bsc_technion.Base.{
  ℕ, ◌≤◌, ◌≡◌, inl, inr, refl, some, List, [], ◌∷◌, ◌==◌, arith, ap, Bool-cases, ◌∙◌,
}
use cs_bsc_technion.Chess.EndTournament.{Column, blank, Leader, challenge, lead, check_winner}
use cs_bsc_technion.Chess.EndTournament.Table.{IsTable, AllBlank, Absent, find_column}

-- No column is ahead of the leader: none has more points, or as many and fewer games lost.
abbrev pub Leads : Leader → Column → Type 0
Leads s c = (c.points ≤ s.max_points) × (c.points ≡ s.max_points → s.winner_games_lost ≤ c.loses)

abbrev pub LeadsAll : Leader → List Column → Type 0
LeadsAll s [] = Unit {0}
LeadsAll s (c ∷ cs) = Leads s c × LeadsAll s cs

-- The variables are those of the leading column, once somebody has points.
abbrev pub Kept : Leader → Type 0
Kept s =
    1 ≤ s.max_points
    → (s.player_with_max_points.points ≡ s.max_points)
      × (s.player_with_max_points.loses ≡ s.winner_games_lost)

-- A later leader is not behind an earlier one.
abbrev pub Ahead : Leader → Leader → Type 0
Ahead s' s =
    (s.max_points ≤ s'.max_points)
    × (s.max_points ≡ s'.max_points → s'.winner_games_lost ≤ s.winner_games_lost)

challenge_lem :
    (c : Column) (s : Leader)
    → Kept s
    → Kept (challenge c s) × Leads (challenge c s) c × Ahead (challenge c s) s
unfolding challenge
challenge_lem c s k = (
  λ h. (ground arith, ground arith),
  (ground arith, λ h. ground arith),
  (ground arith, λ h. ground arith),
)

Leads-Ahead : (s' s : Leader) (c : Column) → Ahead s' s → Leads s c → Leads s' c
Leads-Ahead s' s c a l = (omega (arith, a.0, l.0), λ h. ground (arith, a.0, a.1, l.0, l.1))

lead_lem :
    (cs : List Column) (s : Leader)
    → Kept s
    → Kept (lead cs s) × LeadsAll (lead cs s) cs × Ahead (lead cs s) s
unfolding lead
lead_lem [] s k = (k, tt, (omega arith, λ h. omega arith))
lead_lem (c ∷ cs) s k =
    let (k1, l1, a1) = challenge_lem c s k in
    let (k2, l2, a2) = lead_lem cs (challenge c s) k1 in
    (
      k2,
      (Leads-Ahead (lead cs (challenge c s)) (challenge c s) c a2 l1, l2),
      (omega (arith, a1.0, a2.0), λ h. ground (arith, a1.0, a2.0, a1.1, a2.1)),
    )

abbrev AllColumns : (Column → Type 0) → List Column → Type 0
AllColumns Q [] = Unit {0}
AllColumns Q (c ∷ cs) = Q c × AllColumns Q cs

challenge-keeps :
    (Q : Column → Type 0) (c : Column) (s : Leader)
    → Q c
    → Q s.player_with_max_points
    → Q (challenge c s).player_with_max_points
unfolding challenge
challenge-keeps Q c s qc qs = ground arith

-- The leader is one of the columns.
lead-keeps :
    (Q : Column → Type 0) (cs : List Column) (s : Leader)
    → AllColumns Q cs
    → Q s.player_with_max_points
    → Q (lead cs s).player_with_max_points
unfolding lead
lead-keeps Q [] s h q = q
lead-keeps Q (c ∷ cs) s h q = lead-keeps Q cs (challenge c s) h.1 (challenge-keeps Q c s h.0 q)

-- A column of a table is the one that is found under its identifier.
abbrev Own : List Column → Column → Type 0
Own table c = (c.player_id ≡ 0 → c ≡ blank) × (1 ≤ c.player_id → find_column table c.player_id ≡ c)

Own-behind :
    (d : Column) (table cs : List Column)
    → Absent d.player_id cs
    → AllColumns (Own table) cs
    → AllColumns (Own (d ∷ table)) cs
unfolding find_column
Own-behind d table [] a h = tt
Own-behind d table (c ∷ cs) a h =
    ((h.0.0, λ p. ground (arith, a.0, h.0.1 p)), Own-behind d table cs a.1 h.1)

Own-blank : (table cs : List Column) → AllBlank cs → AllColumns (Own table) cs
Own-blank table [] b = tt
Own-blank table (c ∷ cs) b = (
  (λ _. b.0, λ p. absurd (omega (arith, ap (λ (x : Column). x.player_id) b.0))),
  Own-blank table cs b.1,
)

Own-columns : (table : List Column) → IsTable table → AllColumns (Own table) table
unfolding find_column
Own-columns [] v = tt
Own-columns (c ∷ cs) (inl u) = (
  (λ z. absurd (omega (arith, u.0)), λ p. ground arith),
  Own-behind c cs cs u.1 (Own-columns cs u.2),
)
Own-columns (c ∷ cs) (inr b) = Own-blank (c ∷ cs) (c ∷ cs) b

points-le-max :
    (s : Leader) (table : List Column) (q : ℕ)
    → LeadsAll s table
    → (find_column table q).points ≤ s.max_points
unfolding find_column
points-le-max s [] q l = omega arith
points-le-max s (c ∷ cs) q l = ground (arith, l.0.0, points-le-max s cs q l.1)

Leads-find_column :
    (s : Leader) (table : List Column) (q : ℕ)
    → LeadsAll s table
    → 1 ≤ s.max_points
    → Leads s (find_column table q)
unfolding find_column
Leads-find_column s [] q l p = (omega arith, λ h. absurd (omega arith))
Leads-find_column s (c ∷ cs) q l p = elim (Bool-cases (c.player_id == q)) [
  | inl here ↦ rw here l.0
  | inr other ↦ rw other (Leads-find_column s cs q l.1 p)
]

-- Once somebody has points, the winner is a player with the most points, and with the fewest games
-- lost among those.
pub check_winner_lem :
    (table : List Column) (r : ℕ)
    → IsTable table
    → 1 ≤ (find_column table r).points
    → (w : ℕ) × (check_winner table ≡ some w)
      × (1 ≤ w)
      × ((q : ℕ)
          → ((find_column table q).points ≤ (find_column table w).points)
            × ((find_column table q).points ≡ (find_column table w).points
                → (find_column table w).loses ≤ (find_column table q).loses))
unfolding check_winner
check_winner_lem [] r v p = absurd (unfold find_column in omega arith)
check_winner_lem (c ∷ cs) r v p =
    let s : Leader = record {
      player_with_max_points = c;
      winner_games_lost = 0;
      winner_games_win = 0;
      max_points = 0;
    } in
    let s' = lead (c ∷ cs) s in
    let own = Own-columns (c ∷ cs) v in
    let (k, l, _) = lead_lem (c ∷ cs) s (λ h. absurd (omega (arith, h))) in
    let best = s'.player_with_max_points in
    let (empty, found) : Own (c ∷ cs) best = lead-keeps (Own (c ∷ cs)) (c ∷ cs) s own own.0 in
    let some_points : 1 ≤ s'.max_points = omega (arith, points-le-max s' (c ∷ cs) r l) in
    let (points, loses) = k some_points in
    let positive : 1 ≤ best.player_id = elim (Bool-cases (best.player_id == 0)) [
      | inl zero_id ↦ absurd (
          omega (
            arith,
            points,
            some_points,
            ap (λ (x : Column). x.points) (empty (ground (arith, zero_id))),
          ))
      | inr other ↦ ground (arith, other)
    ] in
    let at_best = found positive in
    let same_points = ap (λ (x : Column). x.points) at_best in
    let same_loses = ap (λ (x : Column). x.loses) at_best in
    (
      best.player_id,
      refl,
      positive,
      λ q.
          let (no_more, no_fewer) = Leads-find_column s' (c ∷ cs) q l some_points in
          (
            omega (arith, no_more, points, same_points),
            λ h. omega (arith, no_fewer (h ∙ same_points ∙ points), loses, same_loses),
          ),
    )
