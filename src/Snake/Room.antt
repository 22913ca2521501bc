-- ===== src/Snake/Room.antt =====
-- How many cells two lists of cells that are apart can have.
use cs_bsc_technion.Base.{
  ℕ, zero, suc, ◌+◌, ◌≤◌, ◌≡◌, refl, true, false, List, [], ◌∷◌, length, if◌then◌else◌, ◌==◌, leb,
  arith, ◌&&◌, Bool-cases, inl, inr, ap, ◌∙◌,
}
use cs_bsc_technion.Snake.Draw.{has}
use cs_bsc_technion.Snake.Shown.{Distinct}

-- How many of the cells from 1 to a bound are in a list.
covered : ℕ → List ℕ → ℕ
covered zero xs = 0
covered (suc k) xs = (if has (suc k) xs then 1 else 0) + covered k xs

covered-cons :
    (k x : ℕ) (xs : List ℕ)
    → has x xs ≡ false
    → covered k (x ∷ xs) ≡ covered k xs + (if leb 1 x && leb x k then 1 else 0)
unfolding covered
covered-cons zero x xs h = ground arith
covered-cons (suc k) x xs h = elim (Bool-cases (suc k == x)) [
  | inl here ↦
      let e : suc k ≡ x = ground (arith, here) in
      let missing : has (suc k) xs ≡ false = ap (λ (c : ℕ). has c xs) e ∙ h in
      ground (arith, covered-cons k x xs h, missing, e)
  | inr other ↦ ground (arith, covered-cons k x xs h, other)
]

length-covered :
    (k : ℕ) (xs : List ℕ)
    → Distinct xs
    → ((c : ℕ) → has c xs ≡ true → (1 ≤ c) × (c ≤ k))
    → length xs ≡ covered k xs
unfolding covered
length-covered k [] d inside = none_covered k
  where
    none_covered : (j : ℕ) → 0 ≡ covered j []
    none_covered zero = refl
    none_covered (suc j) = omega (arith, none_covered j)
length-covered k (x ∷ xs) d inside =
    let rest = length-covered k xs d.1 (λ c h. inside c (ground (arith, h))) in
    let (low, high) = inside x (ground arith) in
    ground (arith, rest, covered-cons k x xs d.0, low, high)

covered-apart :
    (k : ℕ) (xs ys : List ℕ)
    → ((c : ℕ) → has c xs ≡ true → has c ys ≡ false)
    → covered k xs + covered k ys ≤ k
unfolding covered
covered-apart zero xs ys apart = omega arith
covered-apart (suc k) xs ys apart = ground (arith, covered-apart k xs ys apart, apart (suc k))

pub length-apart :
    (k : ℕ) (xs ys : List ℕ)
    → Distinct xs
    → Distinct ys
    → ((c : ℕ) → has c xs ≡ true → (1 ≤ c) × (c ≤ k))
    → ((c : ℕ) → has c ys ≡ true → (1 ≤ c) × (c ≤ k))
    → ((c : ℕ) → has c xs ≡ true → has c ys ≡ false)
    → length xs + length ys ≤ k
length-apart k xs ys dx dy ix iy apart =
    omega (arith, length-covered k xs dx ix, length-covered k ys dy iy, covered-apart k xs ys apart)
