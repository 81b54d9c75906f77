-- ===== src/Filter/Index/Sort.antt =====
-- What `sort_unstable_by` of the standard library promises, and an insertion sort that keeps it.
use mathlib.Core.List.{Perm, Permᴰ}
use mathlib.Core.Logic.{∥∥₁_elim}
use native.Mathlib.Nat.{ℕ_set}
use sumidero.Prelude.{
  ℕ, ◌+◌, ◌<◌, ◌≡◌, refl, subst, ◌∙◌, inl, inr, Bool, true, false, List, [], ◌∷◌, All, Elem,
  if◌then◌else◌, ◌==◌, ==_iff, Bool-cases, arith,
}

-- A strict weak order, as a comparator must be.
pub record IsWeakOrder (less : ℕ → ℕ → Bool) : Type 0 where
  pub asymm : (a b : ℕ) → less a b ≡ true → less b a ≡ false
  pub ge_trans : (a b c : ℕ) → less a b ≡ false → less b c ≡ false → less a c ≡ false

-- No element is less than one before it.
abbrev pub IsSorted : (ℕ → ℕ → Bool) → List ℕ → Type 0
IsSorted less [] = Unit
IsSorted less (x ∷ xs) = All (λ y. less y x ≡ false) xs × IsSorted less xs

pub record SortUnstable : Type 0 where
  pub sort_unstable_by : (ℕ → ℕ → Bool) → List ℕ → List ℕ
  pub permutes : (less : ℕ → ℕ → Bool) (xs : List ℕ) → Perm (sort_unstable_by less xs) xs
  pub sorts :
      (less : ℕ → ℕ → Bool) (xs : List ℕ)
      → IsWeakOrder less
      → IsSorted less (sort_unstable_by less xs)

-- A sum over a list does not depend on its order.
abbrev pub sum_of : (ℕ → ℕ) → List ℕ → ℕ
sum_of f [] = 0
sum_of f (x ∷ xs) = f x + sum_of f xs

sum_of-Permᴰ : (f : ℕ → ℕ) {xs ys : List ℕ} → Permᴰ xs ys → sum_of f xs ≡ sum_of f ys
sum_of-Permᴰ f Permᴰ.nil = refl
sum_of-Permᴰ f (Permᴰ.cons e p) = rw e (ground (arith, sum_of-Permᴰ f p))
sum_of-Permᴰ f (Permᴰ.swap e h) = rw (e, h) (omega arith)
sum_of-Permᴰ f (Permᴰ.trans p q) = sum_of-Permᴰ f p ∙ sum_of-Permᴰ f q

pub sum_of-perm : (f : ℕ → ℕ) {xs ys : List ℕ} → Perm xs ys → sum_of f xs ≡ sum_of f ys
sum_of-perm f p = ∥∥₁_elim p (ℕ_set _ _) (sum_of-Permᴰ f)

-- The number of times that `a` stands in a list, as a sum.
abbrev one_at : ℕ → ℕ → ℕ
one_at a x = if a == x then 1 else 0

Elem-positive : (a : ℕ) (xs : List ℕ) → Elem a xs → 0 < sum_of (one_at a) xs
Elem-positive a [] m = absurd m
Elem-positive a (x ∷ xs) (inl e) = rw ((==_iff a x).1 e) (omega arith)
Elem-positive a (x ∷ xs) (inr m) = omega (arith, Elem-positive a xs m)

positive-Elem : (a : ℕ) (xs : List ℕ) → 0 < sum_of (one_at a) xs → Elem a xs
positive-Elem a [] h = elim h [ ]
positive-Elem a (x ∷ xs) h = elim (Bool-cases (a == x)) [
  | inl e ↦ inl ((==_iff a x).0 e)
  | inr e ↦ inr (positive-Elem a xs (ground arith))
]

pub Elem-perm : (a : ℕ) {xs ys : List ℕ} → Perm xs ys → Elem a xs → Elem a ys
Elem-perm a {xs} {ys} p m =
    positive-Elem a ys (subst (λ (n : ℕ). 0 < n) (sum_of-perm (one_at a) p) (Elem-positive a xs m))
