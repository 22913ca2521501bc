-- ===== src/Chess/EndTournament/Table.antt =====
-- The table of points while the games go into it.
use mathlib.Core.Path.{subst}
use cs_bsc_technion.Base.{
  ℕ, suc, ◌+◌, ◌≤◌, ◌<◌, ◌≡◌, ◌≢◌, ◌⊎◌, inl, inr, refl, true, false, ◌||◌, some, List, [], ◌∷◌,
  if◌then◌else◌, ◌==◌, arith, length, Bool-cases,
}
use cs_bsc_technion.Chess.Types.{PlayerSide, ChessGame}
use cs_bsc_technion.Chess.EndTournament.{
  Column, blank, player_exist_in_point_table, update_column, update_histogram_player, enter_player,
}

-- No column has the identifier.
abbrev pub Absent : ℕ → List Column → Type 0
Absent id [] = Unit {0}
Absent id (c ∷ cs) = (c.player_id ≢ id) × Absent id cs

abbrev pub AllBlank : List Column → Type 0
AllBlank [] = Unit {0}
AllBlank (c ∷ cs) = (c ≡ blank) × AllBlank cs

-- Columns of different players, and blank ones behind them.
abbrev pub IsTable : List Column → Type 0
IsTable [] = Unit {0}
IsTable (c ∷ cs) =
    ((1 ≤ c.player_id) × Absent c.player_id cs × IsTable cs) ⊎ ((c ≡ blank) × AllBlank cs)

-- How many columns have a player.
unfoldable pub used : List Column → ℕ
used [] = 0
used (c ∷ cs) = (if c.player_id == 0 then 0 else 1) + used cs

-- The column of a player, or a blank one.
unfoldable pub find_column : List Column → ℕ → Column
find_column [] p = blank
find_column (c ∷ cs) p = if c.player_id == p then c else find_column cs p

-- The table with a game in the column of one player.
unfoldable pub entered : List Column → ChessGame → PlayerSide → ℕ → List Column
entered [] game side id = []
entered (c ∷ cs) game side id =
    if c.player_id == 0 || c.player_id == id
    then update_column c game side id ∷ cs
    else c ∷ entered cs game side id

-- With a blank column left the search ends inside the row, at the column that is then written.
enter_at :
    (table : List Column) (game : ChessGame) (side : PlayerSide) (id : ℕ)
    → used table < length table
    → (i : ℕ) × (player_exist_in_point_table table id ≡ some i)
      × (update_histogram_player table game i side id ≡ entered table game side id)
unfolding player_exist_in_point_table update_histogram_player entered used
enter_at [] game side id room = absurd (omega arith)
enter_at (c ∷ cs) game side id room = elim (Bool-cases (c.player_id == 0 || c.player_id == id)) [
  | inl here ↦ (0, ground (arith, here), ground (arith, here))
  | inr further ↦
      let (i, found, written) = enter_at cs game side id (ground (arith, further)) in
      (suc i, ground (arith, further, found), ground (arith, further, written))
]

pub enter_player_lem :
    (table : List Column) (game : ChessGame) (side : PlayerSide) (id : ℕ)
    → used table < length table
    → enter_player false game side id table ≡ some (entered table game side id)
unfolding enter_player
enter_player_lem table game side id room =
    let (i, found, written) = enter_at table game side id room in rw (found, written)

pub length-entered :
    (table : List Column) (game : ChessGame) (side : PlayerSide) (id : ℕ)
    → length (entered table game side id) ≡ length table
unfolding entered
length-entered [] game side id = refl
length-entered (c ∷ cs) game side id = ground (arith, length-entered cs game side id)

pub used-entered :
    (table : List Column) (game : ChessGame) (side : PlayerSide) (id : ℕ)
    → used (entered table game side id) ≤ suc (used table)
unfolding entered used
used-entered [] game side id = omega arith
used-entered (c ∷ cs) game side id = ground (arith, used-entered cs game side id)

Absent-blank : (cs : List Column) (id : ℕ) → 1 ≤ id → AllBlank cs → Absent id cs
Absent-blank [] id p b = tt
Absent-blank (c ∷ cs) id p b = (rw b.0 (λ e. absurd (omega (arith, e))), Absent-blank cs id p b.1)

update_column-id :
    (c : Column) (game : ChessGame) (side : PlayerSide) (id : ℕ)
    → (update_column c game side id).player_id ≡ id
unfolding update_column
update_column-id c game side id = ground arith

Absent-entered :
    (q : ℕ) (table : List Column) (game : ChessGame) (side : PlayerSide) (id : ℕ)
    → q ≢ id
    → Absent q table
    → Absent q (entered table game side id)
unfolding entered
Absent-entered q [] game side id ne a = tt
Absent-entered q (c ∷ cs) game side id ne a =
    ground (arith, update_column-id c game side id, Absent-entered q cs game side id ne a.1)

entered_here :
    (c : Column) (cs : List Column) (game : ChessGame) (side : PlayerSide) (id : ℕ)
    → (c.player_id == 0 || c.player_id == id) ≡ true
    → entered (c ∷ cs) game side id ≡ update_column c game side id ∷ cs
unfolding entered
entered_here c cs game side id here = rw here

entered_further :
    (c : Column) (cs : List Column) (game : ChessGame) (side : PlayerSide) (id : ℕ)
    → (c.player_id == 0 || c.player_id == id) ≡ false
    → entered (c ∷ cs) game side id ≡ c ∷ entered cs game side id
unfolding entered
entered_further c cs game side id further = rw further

pub find_column-blank : (cs : List Column) (p : ℕ) → 1 ≤ p → AllBlank cs → find_column cs p ≡ blank
unfolding find_column
find_column-blank [] p h b = refl
find_column-blank (c ∷ cs) p h b = rw b.0 (ground (arith, find_column-blank cs p h b.1))

pub IsTable-blank : (cs : List Column) → AllBlank cs → IsTable cs
IsTable-blank [] b = tt
IsTable-blank (c ∷ cs) b = inr b

pub IsTable-entered :
    (table : List Column) (game : ChessGame) (side : PlayerSide) (id : ℕ)
    → 1 ≤ id
    → IsTable table
    → IsTable (entered table game side id)
IsTable-entered [] game side id p v = unfold entered in tt
IsTable-entered (c ∷ cs) game side id p (inr b) =
    rw (b.0, entered_here blank cs game side id refl)
      (inl (
        rw (update_column-id blank game side id) p,
        rw (update_column-id blank game side id) (Absent-blank cs id p b.1),
        IsTable-blank cs b.1,
      ))
IsTable-entered (c ∷ cs) game side id p (inl u) = elim (Bool-cases (c.player_id == id)) [
  | inl here ↦
      let same : c.player_id ≡ id = ground (arith, here) in
      rw (entered_here c cs game side id (ground (arith, here))) (
        inl (
          rw (update_column-id c game side id) p,
          rw (update_column-id c game side id) (subst (λ q. Absent q cs) same u.1),
          u.2,
        ))
  | inr further ↦ rw (entered_further c cs game side id (ground (arith, further))) (
      inl (
        u.0,
        Absent-entered c.player_id cs game side id (λ e. absurd (ground (arith, further))) u.1,
        IsTable-entered cs game side id p u.2,
      ))
]

-- The column of the player has the game; every other column is as it was.
pub find_column-entered :
    (table : List Column) (game : ChessGame) (side : PlayerSide) (id p : ℕ)
    → 1 ≤ id
    → 1 ≤ p
    → IsTable table
    → used table < length table
    → find_column (entered table game side id) p
      ≡ (if id == p then update_column (find_column table id) game side id else find_column table p)
unfolding find_column entered used
find_column-entered [] game side id p hid hp v room = absurd (omega arith)
find_column-entered (c ∷ cs) game side id p hid hp (inl u) room =
    ground
      (arith, update_column-id c game side id, find_column-entered cs game side id p hid hp u.2)
find_column-entered (c ∷ cs) game side id p hid hp (inr b) room = rw b.0 (
    ground (
      arith,
      update_column-id blank game side id,
      find_column-blank cs p hp b.1,
      find_column-blank cs id hid b.1,
    ))
