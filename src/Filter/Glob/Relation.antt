-- ===== src/Filter/Glob/Relation.antt =====
-- What a wildcard expression means, with no search order in it.
use sumidero.Prelude.{ℕ, ◌≡◌, ◌≢◌, [], ◌∷◌, Bytes, All}
use sumidero.Filter.Glob.{star}

pub data Glob : Bytes → Bytes → Type 0 where
  done : Glob [] []
  byte : {c d : ℕ} {p s : Bytes} → c ≢ star → c ≡ d → Glob p s → Glob (c ∷ p) (d ∷ s)
  stop : {c : ℕ} {p s : Bytes} → c ≡ star → Glob p s → Glob (c ∷ p) s
  more : {c d : ℕ} {p s : Bytes} → c ≡ star → Glob (c ∷ p) s → Glob (c ∷ p) (d ∷ s)

-- No byte of the text is a `*`.
abbrev pub IsPlain : Bytes → Type 0
IsPlain s = All (λ b. b ≢ star) s

pub byte_inv : {c d : ℕ} {p s : Bytes} → c ≢ star → Glob (c ∷ p) (d ∷ s) → (c ≡ d) × Glob p s
byte_inv n (byte _ e g) = (e, g)
byte_inv n (stop e g) = absurd (n e)
byte_inv n (more e g) = absurd (n e)

pub star_at_end : {c : ℕ} {p : Bytes} → c ≡ star → Glob (c ∷ p) [] → Glob p []
star_at_end e (stop _ g) = g

pub must_take :
    {c d : ℕ} {p s : Bytes} → c ≡ star → Glob (c ∷ p) (d ∷ s) → ¬ Glob p (d ∷ s) → Glob (c ∷ p) s
must_take e (byte n _ _) h = absurd (n e)
must_take e (stop _ g) h = absurd (h g)
must_take e (more _ g) h = g

pub two_stars : {a c : ℕ} {p s : Bytes} → a ≡ star → c ≡ star → Glob (a ∷ c ∷ p) s → Glob (c ∷ p) s
two_stars a c (byte n _ _) = absurd (n a)
two_stars a c (stop _ g) = g
two_stars a c (more _ g) = more c (two_stars a c g)

-- Where a plain byte stands behind a star, the greedy choice loses nothing: the rest of the
-- pattern can be found behind the first byte.
pub drop_byte :
    {a c d : ℕ} {p : Bytes} (s : Bytes)
    → a ≡ star
    → c ≢ star
    → Glob (a ∷ c ∷ p) (d ∷ s)
    → Glob (a ∷ p) s
drop_byte s e n (byte m _ _) = absurd (m e)
drop_byte s e n (stop _ (byte _ _ g)) = stop e g
drop_byte s e n (stop _ (stop h _)) = absurd (n h)
drop_byte s e n (stop _ (more h _)) = absurd (n h)
drop_byte [] e n (more _ (stop _ (stop h _))) = absurd (n h)
drop_byte (x ∷ s) e n (more _ g) = more e (drop_byte s e n g)
