-- ===== src/Text/Substring.antt =====
-- Where a text holds no pair of dots.
use cs_bsc_technion.Base.{ℕ, ◌≡◌, ◌≢◌, refl, false, [], ◌∷◌, ◌++◌, arith}
use cs_bsc_technion.Text.{Text, begins, strstr}

-- ".."
abbrev pub dots : Text
dots = b'.' ∷ b'.' ∷ []

pub strstr-dots-cons :
    (c : ℕ) (text : Text) → c ≢ b'.' → strstr text dots ≡ false → strstr (c ∷ text) dots ≡ false
unfolding strstr begins
strstr-dots-cons c [] h e = ground arith
strstr-dots-cons c (d ∷ text) h e = ground arith

pub strstr-dots-before : (a b : Text) → strstr (a ++ b) dots ≡ false → strstr a dots ≡ false
unfolding strstr begins
strstr-dots-before [] b h = refl
strstr-dots-before (c ∷ []) b h = ground arith
strstr-dots-before (c ∷ d ∷ a) b h = ground (arith, strstr-dots-before (d ∷ a) b)
