-- ===== src/Filter/Index/Insertion.antt =====
-- An insertion sort: one function that keeps what `sort_unstable_by` promises.
use mathlib.Core.List.{Permᴰ}
use sumidero.Prelude.{
  ℕ, ◌≡◌, refl, inl, inr, Bool, false, List, [], ◌∷◌, All, if◌then◌else◌, Bool-cases,
}
use sumidero.Filter.Index.Sort.{IsWeakOrder, IsSorted, SortUnstable}

unfoldable pub insert_sorted : (ℕ → ℕ → Bool) → ℕ → List ℕ → List ℕ
insert_sorted less x [] = x ∷ []
insert_sorted less x (y ∷ ys) =
    let rest = insert_sorted less x ys in if less y x then y ∷ rest else x ∷ y ∷ ys

unfoldable pub insertion_sort : (ℕ → ℕ → Bool) → List ℕ → List ℕ
unfolding insert_sorted
insertion_sort less [] = []
insertion_sort less (x ∷ xs) = insert_sorted less x (insertion_sort less xs)

Permᴰ-refl : (xs : List ℕ) → Permᴰ xs xs
Permᴰ-refl [] = Permᴰ.nil
Permᴰ-refl (x ∷ xs) = Permᴰ.cons refl (Permᴰ-refl xs)

module _ (less : ℕ → ℕ → Bool) where
  insert_sorted-Permᴰ : (x : ℕ) (ys : List ℕ) → Permᴰ (insert_sorted less x ys) (x ∷ ys)
  unfolding insert_sorted
  insert_sorted-Permᴰ x [] = Permᴰ-refl (x ∷ [])
  insert_sorted-Permᴰ x (y ∷ ys) = elim (Bool-cases (less y x)) [
    | inl h ↦ rw h (Permᴰ.trans (Permᴰ.cons refl (insert_sorted-Permᴰ x ys)) (Permᴰ.swap refl refl))
    | inr h ↦ rw h (Permᴰ-refl (x ∷ y ∷ ys))
  ]

  pub insertion_sort-Permᴰ : (xs : List ℕ) → Permᴰ (insertion_sort less xs) xs
  unfolding insertion_sort
  insertion_sort-Permᴰ [] = Permᴰ.nil
  insertion_sort-Permᴰ (x ∷ xs) =
      Permᴰ.trans (insert_sorted-Permᴰ x (insertion_sort less xs))
        (Permᴰ.cons refl (insertion_sort-Permᴰ xs))

  insert_sorted-All :
      (P : ℕ → Type 0) (x : ℕ) (ys : List ℕ) → P x → All P ys → All P (insert_sorted less x ys)
  unfolding insert_sorted
  insert_sorted-All P x [] p h = (p, tt)
  insert_sorted-All P x (y ∷ ys) p (q, h) = elim (Bool-cases (less y x)) [
    | inl e ↦ rw e (q, insert_sorted-All P x ys p h)
    | inr e ↦ rw e (p, (q, h))
  ]

  module _ (order : IsWeakOrder less) where
    below-All :
        (x y : ℕ) (ys : List ℕ)
        → less y x ≡ false
        → All (λ z. less z y ≡ false) ys
        → All (λ z. less z x ≡ false) ys
    below-All x y [] h k = tt
    below-All x y (z ∷ ys) h (k, ks) = (order.ge_trans z y x k h, below-All x y ys h ks)

    insert_sorted-IsSorted :
        (x : ℕ) (ys : List ℕ) → IsSorted less ys → IsSorted less (insert_sorted less x ys)
    unfolding insert_sorted
    insert_sorted-IsSorted x [] h = (tt, tt)
    insert_sorted-IsSorted x (y ∷ ys) (a, h) = elim (Bool-cases (less y x)) [
      | inl e ↦ rw e (
        insert_sorted-All (λ z. less z y ≡ false) x ys (order.asymm y x e) a,
        insert_sorted-IsSorted x ys h,
      )
      | inr e ↦ rw e ((e, below-All x y ys e a), (a, h))
    ]

    pub insertion_sort-IsSorted : (xs : List ℕ) → IsSorted less (insertion_sort less xs)
    unfolding insertion_sort
    insertion_sort-IsSorted [] = tt
    insertion_sort-IsSorted (x ∷ xs) =
        insert_sorted-IsSorted x (insertion_sort less xs) (insertion_sort-IsSorted xs)

abbrev pub insertion : SortUnstable
insertion = record {
  sort_unstable_by = insertion_sort;
  permutes = λ less xs. ∣ insertion_sort-Permᴰ less xs ∣₁;
  sorts = λ less xs order. insertion_sort-IsSorted less order xs;
}
