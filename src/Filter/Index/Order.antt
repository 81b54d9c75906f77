-- ===== src/Filter/Index/Order.antt =====
-- The lexicographic order of byte slices.
use sumidero.Prelude.{◌≡◌, refl, Bool, true, false, [], ◌∷◌, Bytes, ltb, ◌==◌, if◌then◌else◌, arith}

-- `a < b` of two slices.
unfoldable pub bytes_lt : Bytes → Bytes → Bool
bytes_lt [] [] = false
bytes_lt [] (b ∷ t) = true
bytes_lt (a ∷ s) [] = false
bytes_lt (a ∷ s) (b ∷ t) = if ltb a b then true else if a == b then bytes_lt s t else false

pub bytes_lt_irrefl : (s : Bytes) → bytes_lt s s ≡ false
unfolding bytes_lt
bytes_lt_irrefl [] = refl
bytes_lt_irrefl (a ∷ s) = ground (arith, bytes_lt_irrefl s)

pub bytes_lt_trans :
    (s t u : Bytes) → bytes_lt s t ≡ true → bytes_lt t u ≡ true → bytes_lt s u ≡ true
unfolding bytes_lt
bytes_lt_trans [] [] u h k = absurd (ground arith)
bytes_lt_trans [] (b ∷ t) [] h k = absurd (ground arith)
bytes_lt_trans [] (b ∷ t) (c ∷ u) h k = refl
bytes_lt_trans (a ∷ s) [] u h k = absurd (ground arith)
bytes_lt_trans (a ∷ s) (b ∷ t) [] h k = absurd (ground arith)
bytes_lt_trans (a ∷ s) (b ∷ t) (c ∷ u) h k = ground (arith, bytes_lt_trans s t u)

-- Two slices of which neither is less are equal.
pub bytes_lt_connected : (s t : Bytes) → bytes_lt s t ≡ false → bytes_lt t s ≡ false → s ≡ t
unfolding bytes_lt
bytes_lt_connected [] [] h k = refl
bytes_lt_connected [] (b ∷ t) h k = absurd (ground arith)
bytes_lt_connected (a ∷ s) [] h k = absurd (ground arith)
bytes_lt_connected (a ∷ s) (b ∷ t) h k = ground (arith, bytes_lt_connected s t)

pub bytes_lt_asymm : (s t : Bytes) → bytes_lt s t ≡ true → bytes_lt t s ≡ false
unfolding bytes_lt
bytes_lt_asymm [] [] h = refl
bytes_lt_asymm [] (b ∷ t) h = refl
bytes_lt_asymm (a ∷ s) [] h = absurd (ground arith)
bytes_lt_asymm (a ∷ s) (b ∷ t) h = ground (arith, bytes_lt_asymm s t)

pub bytes_ge_trans :
    (s t u : Bytes) → bytes_lt s t ≡ false → bytes_lt t u ≡ false → bytes_lt s u ≡ false
unfolding bytes_lt
bytes_ge_trans [] [] u h k = k
bytes_ge_trans [] (b ∷ t) u h k = absurd (ground arith)
bytes_ge_trans (a ∷ s) [] [] h k = refl
bytes_ge_trans (a ∷ s) [] (c ∷ u) h k = absurd (ground arith)
bytes_ge_trans (a ∷ s) (b ∷ t) [] h k = refl
bytes_ge_trans (a ∷ s) (b ∷ t) (c ∷ u) h k = ground (arith, bytes_ge_trans s t u)
