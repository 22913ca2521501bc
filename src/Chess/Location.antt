-- ===== src/Chess/Location.antt =====
-- `tournamentLocationValid` of `tournament.c`: which names of a place are accepted.
use cs_bsc_technion.Base.{
  ℕ, ◌+◌, ◌≤◌, ◌≡◌, refl, ◌⊎◌, Bool, true, false, ◌&&◌, ◌||◌, not, List, [], ◌∷◌, ltb, ◌==◌,
  if◌then◌else◌, arith, ◌↔◌,
}

abbrev pub bottom_capital_letters : ℕ
bottom_capital_letters = b'A'

abbrev pub top_capital_letters : ℕ
top_capital_letters = b'Z'

abbrev pub bottom_small_letters : ℕ
bottom_small_letters = b'a'

abbrev pub top_small_letters : ℕ
top_small_letters = b'z'

abbrev pub space_ascii : ℕ
space_ascii = b' '

-- The `for` loop from index `i` on the characters that are left; the list ends at the NUL.
pub location_valid_from : ℕ → List ℕ → Bool
location_valid_from i [] = true
location_valid_from i (c ∷ cs) =
    let rest = location_valid_from (i + 1) cs in
    if i == 0 && (ltb c bottom_capital_letters || ltb top_capital_letters c)
    then false
    else if not (i == 0)
        && (ltb c bottom_small_letters || ltb top_small_letters c)
        && not (c == space_ascii)
    then false
    else rest

-- `tournamentLocationValid` of a location that is not NULL.
pub tournament_location_valid : List ℕ → Bool
unfolding location_valid_from
tournament_location_valid location = location_valid_from 0 location

abbrev pub IsCapital : ℕ → Type 0
IsCapital c = (b'A' ≤ c) × (c ≤ b'Z')

abbrev pub IsSmallOrSpace : ℕ → Type 0
IsSmallOrSpace c = ((b'a' ≤ c) × (c ≤ b'z')) ⊎ (c ≡ b' ')

abbrev pub AllSmall : List ℕ → Type 0
AllSmall [] = Unit {0}
AllSmall (c ∷ cs) = IsSmallOrSpace c × AllSmall cs

-- What the function accepts: the empty name, and a capital letter with small letters and spaces.
abbrev pub IsLocation : List ℕ → Type 0
IsLocation [] = Unit {0}
IsLocation (c ∷ cs) = IsCapital c × AllSmall cs

small_sound : (cs : List ℕ) (i : ℕ) → 1 ≤ i → location_valid_from i cs ≡ true → AllSmall cs
unfolding location_valid_from
small_sound [] i p h = tt
small_sound (c ∷ cs) i p h = ground (arith, small_sound cs (i + 1))

small_complete : (cs : List ℕ) (i : ℕ) → 1 ≤ i → AllSmall cs → location_valid_from i cs ≡ true
unfolding location_valid_from
small_complete [] i p h = refl
small_complete (c ∷ cs) i p h = ground (arith, small_complete cs (i + 1) (omega arith) h.1)

sound : (cs : List ℕ) → tournament_location_valid cs ≡ true → IsLocation cs
unfolding tournament_location_valid
sound [] h = tt
sound (c ∷ cs) h = ground (arith, small_sound cs (0 + 1) (omega arith))

complete : (cs : List ℕ) → IsLocation cs → tournament_location_valid cs ≡ true
unfolding tournament_location_valid
complete [] h = refl
complete (c ∷ cs) h = ground (arith, small_complete cs (0 + 1) (omega arith) h.1)

-- A location is accepted exactly if it is empty, or a capital letter followed by small letters and
-- spaces.
pub tournament_location_valid_iff :
    (cs : List ℕ) → (tournament_location_valid cs ≡ true) ↔ IsLocation cs
tournament_location_valid_iff cs = (sound cs, complete cs)
