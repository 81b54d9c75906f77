-- ===== src/Filter/Glob/Suffixes.antt =====
-- The matcher's loop over what is left of pattern and text, in place of two indices.
use native.Mathlib.Nat.{le_refl, le_trans, le-add_right}
use native.Mathlib.Numerals.{add-one}
use sumidero.Prelude.{
  ℕ, zero, suc, ◌+◌, ◌≤◌, ◌<◌, ◌≡◌, refl, ◌∙◌, ◌⊎◌, inl, inr, Bool, true, false, List, [], ◌∷◌,
  ◌==◌, if◌then◌else◌, Option, none, some, Bytes, get_elem?, length, drop, arith,
}
use sumidero.Filter.Glob.{star, skip_stars, glob_loop}

unfoldable pub only_stars : Bytes → Bool
only_stars [] = true
only_stars (c ∷ p) = if c == star then only_stars p else false

abbrev pub Saved : Type 0
Saved = Option (Bytes × Bytes)

abbrev pub Round : Type 0
Round = Bytes → Bytes → Saved → Option Bool

unfoldable pub retry : Saved → Round → Option Bool
retry none next = some false
retry (some (bp, [])) next = none
retry (some (bp, b ∷ bs)) next = next bp bs (some (bp, bs))

unfoldable pub loop : ℕ → Round
loop zero p s saved = none
loop (suc f) p [] saved = some (only_stars p)
loop (suc f) [] (d ∷ s) saved = retry saved (loop f)
loop (suc f) (c ∷ p) (d ∷ s) saved =
    let advance = loop f p s saved in
    let open_star = loop f p (d ∷ s) (some (p, d ∷ s)) in
    let again = retry saved (loop f) in
    if c == d then advance else if c == star then open_star else again

-- What stands at an index is the head of what is left there.
pub drop-cases :
    {A : Type 0} (n : ℕ) (xs : List A)
    → ((drop n xs ≡ []) × (get_elem? xs n ≡ none))
      ⊎ ((x : A) × (r : List A) × (drop n xs ≡ x ∷ r)
          × (get_elem? xs n ≡ some x)
          × (drop (suc n) xs ≡ r))
drop-cases zero [] = inl (refl, refl)
drop-cases zero (x ∷ xs) = inr (x, xs, refl, refl, refl)
drop-cases (suc n) [] = inl (refl, refl)
drop-cases (suc n) (x ∷ xs) = drop-cases n xs

drop-nil-le : {A : Type 0} (n : ℕ) (xs : List A) → drop n xs ≡ [] → length xs ≤ n
drop-nil-le zero [] h = omega arith
drop-nil-le zero (x ∷ xs) h = cc
drop-nil-le (suc n) [] h = omega arith
drop-nil-le (suc n) (x ∷ xs) h = omega (arith, drop-nil-le n xs h)

drop-cons-lt :
    {A : Type 0} (n : ℕ) (xs : List A) {x : A} {r : List A} → drop n xs ≡ x ∷ r → n < length xs
drop-cons-lt zero [] h = cc
drop-cons-lt (suc n) [] h = cc
drop-cons-lt zero (x ∷ xs) h = omega arith
drop-cons-lt (suc n) (x ∷ xs) h = omega (arith, drop-cons-lt n xs h)

-- The second loop and the final test see whether only stars are left.
skip_stars-only_stars :
    (n : ℕ) (pat : Bytes) (p : ℕ)
    → length pat ≤ p + n
    → p ≤ length pat
    → (skip_stars n pat p == length pat) ≡ only_stars (drop p pat)
unfolding skip_stars only_stars
skip_stars-only_stars zero pat p h k = elim (drop-cases p pat) [
  | inl (e, _) ↦ rw e (ground arith)
  | inr (c, r, e, _, _) ↦ absurd (omega (arith, drop-cons-lt p pat e))
]
skip_stars-only_stars (suc n) pat p h k = elim (drop-cases p pat) [
  | inl (e, g) ↦ rw e (ground (arith, drop-nil-le p pat e))
  | inr (c, r, e, g, tail) ↦
      let below = drop-cons-lt p pat e in
      let ih = skip_stars-only_stars n pat (p + 1) (omega arith) (omega arith) in
      let next : drop (p + 1) pat ≡ r = rw add-one tail in rw e (ground (arith, ih))
]

abbrev pub suffixes : Bytes → Bytes → Option (ℕ × ℕ) → Saved
suffixes pat text none = none
suffixes pat text (some (sp, st)) = some (drop (sp + 1) pat, drop st text)

-- A saved position lies in the pattern, and not behind the current byte.
abbrev pub IsBehind : Bytes → ℕ → Option (ℕ × ℕ) → Type 0
IsBehind pat t none = Unit
IsBehind pat t (some (sp, st)) = (sp < length pat) × (st ≤ t)

-- The two loops agree on `f` rounds.
abbrev Agree : ℕ → Bytes → Bytes → Type 0
Agree f pat text =
    (p t : ℕ) (saved : Option (ℕ × ℕ))
    → p ≤ length pat
    → IsBehind pat t saved
    → glob_loop f pat text p t saved ≡ loop f (drop p pat) (drop t text) (suffixes pat text saved)

module _ (f : ℕ) (pat text : Bytes) (ih : Agree f pat text) (p t : ℕ) (h : p ≤ length pat) where
  -- Going back to the saved star.
  Agree-retry :
      (sp st : ℕ)
      → sp < length pat
      → st ≤ t
      → t < length text
      → glob_loop f pat text (sp + 1) (st + 1) (some (sp, st + 1))
        ≡ retry (suffixes pat text (some (sp, st))) (loop f)
  unfolding retry
  Agree-retry sp st hs le lt = elim (drop-cases st text) [
    | inl (e, _) ↦ absurd (omega (arith, drop-nil-le st text e))
    | inr (x, r, e, _, rest) ↦
        let rest' : drop (st + 1) text ≡ r = rw add-one rest in
        rw e (ih (sp + 1) (st + 1) (some (sp, st + 1)) (omega arith) (omega arith) ∙ rw rest')
  ]

  Agree-step :
      (d : ℕ) (s : Bytes) (saved : Option (ℕ × ℕ))
      → drop t text ≡ d ∷ s
      → get_elem? text t ≡ some d
      → drop (t + 1) text ≡ s
      → IsBehind pat t saved
      → glob_loop (suc f) pat text p t saved
        ≡ loop (suc f) (drop p pat) (d ∷ s) (suffixes pat text saved)
  unfolding glob_loop loop retry
  Agree-step d s none et gt tt' b = elim (drop-cases p pat) [
    | inl (ep, gp) ↦ rw ep (ground arith)
    | inr (c, r, ep, gp, rest) ↦
        let p' : drop (p + 1) pat ≡ r = rw add-one rest in
        let lt = drop-cons-lt p pat ep in
        let lt' : p + 1 ≤ length pat = omega arith in
        rw ep (
          ground
            (arith, ih (p + 1) (t + 1) none lt' tt, ih (p + 1) t (some (p, t)) lt' (lt, le_refl t)))
  ]
  Agree-step d s (some (sp, st)) et gt tt' b = elim (drop-cases p pat) [
    | inl (ep, gp) ↦ rw ep (ground (arith, Agree-retry sp st b.0 b.1 (drop-cons-lt t text et)))
    | inr (c, r, ep, gp, rest) ↦
        let p' : drop (p + 1) pat ≡ r = rw add-one rest in
        let lt = drop-cons-lt p pat ep in
        let lt' : p + 1 ≤ length pat = omega arith in
        rw ep (
          ground (
            arith,
            Agree-retry sp st b.0 b.1 (drop-cons-lt t text et),
            ih (p + 1) (t + 1) (some (sp, st)) lt' (b.0, le_trans b.1 (le-add_right t 1)),
            ih (p + 1) t (some (p, t)) lt' (lt, le_refl t),
          ))
  ]

-- The two loops compute the same.
pub glob_loop-loop : (f : ℕ) (pat text : Bytes) → Agree f pat text
unfolding glob_loop loop
glob_loop-loop zero pat text p t saved h k = refl
glob_loop-loop (suc f) pat text p t saved h k = elim (drop-cases t text) [
  | inl (et, gt) ↦ rw et (ground (arith, skip_stars-only_stars (length pat) pat p))
  | inr (d, s, et, gt, tail) ↦
      rw et (
        Agree-step f pat text (glob_loop-loop f pat text) p t h d s saved et gt (rw add-one tail) k)
]
