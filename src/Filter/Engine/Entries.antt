-- ===== src/Filter/Engine/Entries.antt =====
-- The history of the rules that were added, each with its list; a rule's id is its position.
use sumidero.Prelude.{
  ℕ, zero, suc, ◌≡◌, refl, sym, subst, ap, ◌∙◌, ◌⊎◌, ◌↔◌, inl, inr, some, List, [], ◌∷◌, ◌++◌,
  length, get_elem?, get_elem?-append_left, get_elem?-append_last, get_elem?-bound, arith,
}
use sumidero.Filter.Types.{Rule}

abbrev pub Rules : Type 0
Rules = List (ℕ × Rule)

-- The rule with the id `id` has the property.
abbrev pub Entry : (Rule → Type 0) → Rules → ℕ → Type 0
Entry P rs id = (l : ℕ) × (r : Rule) × (get_elem? rs id ≡ some (l, r)) × P r

pub get_elem?-last :
    {A : Type 0} (xs : List A) (x : A) (i : ℕ) {y : A}
    → get_elem? (xs ++ x ∷ []) i ≡ some y
    → (get_elem? xs i ≡ some y) ⊎ ((i ≡ length xs) × (x ≡ y))
get_elem?-last [] x zero h = inr (refl, ground arith)
get_elem?-last [] x (suc i) h = absurd (ground arith)
get_elem?-last (z ∷ xs) x zero h = inl h
get_elem?-last (z ∷ xs) x (suc i) h = elim (get_elem?-last xs x i h) [
  | inl g ↦ inl g
  | inr (e, g) ↦ inr (ap suc e, g)
]

module _ (P : Rule → Type 0) (rs : Rules) (l : ℕ) (r : Rule) where
  pub Entry-old : (id : ℕ) → Entry P rs id → Entry P (rs ++ (l, r) ∷ []) id
  Entry-old id (m, s, e, p) = (m, s, get_elem?-append_left rs _ id (get_elem?-bound rs id e) ∙ e, p)

  pub Entry-new : P r → Entry P (rs ++ (l, r) ∷ []) (length rs)
  Entry-new p = (l, r, get_elem?-append_last rs (l, r), p)

  pub Entry-cases :
      (id : ℕ) → Entry P (rs ++ (l, r) ∷ []) id → Entry P rs id ⊎ ((id ≡ length rs) × P r)
  Entry-cases id (m, s, e, p) = elim (get_elem?-last rs (l, r) id e) [
    | inl g ↦ inl (m, s, g, p)
    | inr (q, g) ↦ inr (q, subst P (sym (ap (λ x. x.1) g)) p)
  ]

  -- A rule without the property adds no entry.
  pub Entry-other : ¬ P r → (id : ℕ) → Entry P rs id ↔ Entry P (rs ++ (l, r) ∷ []) id
  Entry-other n id =
      (Entry-old id, λ h. elim (Entry-cases id h) [ inl g ↦ g | inr (_, p) ↦ absurd (n p) ])

  pub Entry-added :
      P r → (id : ℕ) → (Entry P rs id ⊎ (length rs ≡ id)) ↔ Entry P (rs ++ (l, r) ∷ []) id
  Entry-added p id = (
    elim [ inl h ↦ Entry-old id h | inr e ↦ subst (Entry P (rs ++ (l, r) ∷ [])) e (Entry-new p) ],
    λ h. elim (Entry-cases id h) [ inl g ↦ inl g | inr (e, _) ↦ inr (sym e) ],
  )
