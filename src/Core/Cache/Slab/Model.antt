-- ===== src/Core/Cache/Slab/Model.antt =====
-- A cache as the list of its entries, the one used last first, with no slots in it.
use sumidero.Prelude.{
  ℕ, zero, suc, ◌≡◌, ◌≤◌, refl, ap, ◌⊎◌, inl, inr, false, Bool-cases, ◌&&◌, Option, none, some,
  List, [], ◌∷◌, ◌++◌, length, leb, ltb, if◌then◌else◌, arith,
}
use sumidero.Core.HashMap.{HashKey}
use sumidero.Core.HashMap.Laws.{eq_refl}
use sumidero.Core.Cache.Slab.Chain.{Item, Cells}
use sumidero.Core.Cache.Slab.Keys.{index_of, KeyFresh}
use sumidero.Core.Cache.Slab.Eviction.{drop_last, length-drop_last, items, total_bytes, fit}

module _ {K V : Type 0} where
  -- The bytes fit, or there is one entry at most.
  abbrev pub Fits : ℕ → List (Item K V) → Type 0
  Fits max_bytes kept = (total_bytes kept ≤ max_bytes) ⊎ (length kept ≤ 1)

  Fits-of_quiet :
      (max_bytes : ℕ) (kept : List (Item K V))
      → ltb max_bytes (total_bytes kept) && ltb 1 (length kept) ≡ false
      → Fits max_bytes kept
  Fits-of_quiet max_bytes kept h = elim (Bool-cases (ltb max_bytes (total_bytes kept))) [
    | inl q ↦ inr (ground arith)
    | inr q ↦ inl (ground arith)
  ]

  -- With as many rounds as entries, what is left fits.
  pub fit-Fits :
      (n max_bytes : ℕ) (kept : List (Item K V))
      → length kept ≤ n
      → Fits max_bytes (fit n max_bytes kept)
  unfolding fit
  fit-Fits zero max_bytes kept h = inr (omega arith)
  fit-Fits (suc n) max_bytes [] h = inr (elim (Bool-cases (ltb max_bytes 0 && ltb 1 0)) [
    | inl q ↦ absurd (ground arith)
    | inr q ↦ rw q (omega arith)
  ])
  fit-Fits (suc n) max_bytes (a ∷ kept) h =
      elim (Bool-cases (ltb max_bytes (total_bytes (a ∷ kept)) && ltb 1 (length (a ∷ kept)))) [
        | inl q ↦
            rw q
              (fit-Fits n max_bytes (drop_last (a ∷ kept)) (omega (arith, length-drop_last a kept)))
        | inr q ↦ rw q (Fits-of_quiet max_bytes (a ∷ kept) q)
      ]

  -- The first entry stays.
  pub fit-first :
      (n max_bytes : ℕ) (a : Item K V) (kept : List (Item K V))
      → (rest : List (Item K V)) × (fit n max_bytes (a ∷ kept) ≡ a ∷ rest)
  unfolding fit
  fit-first zero max_bytes a kept = (kept, refl)
  fit-first (suc n) max_bytes a [] = (
    [],
    elim (Bool-cases (ltb max_bytes (total_bytes (a ∷ [])) && ltb 1 1)) [
      | inl q ↦ absurd (ground arith)
      | inr q ↦ rw q refl
    ],
  )
  fit-first (suc n) max_bytes a (b ∷ kept) =
      let (rest, e) = fit-first n max_bytes a (drop_last (b ∷ kept)) in
      elim (Bool-cases
        (ltb max_bytes (total_bytes (a ∷ b ∷ kept)) && ltb 1 (length (a ∷ b ∷ kept)))) [
          | inl q ↦ (rest, rw q e)
          | inr q ↦ (b ∷ kept, rw q refl)
        ]

  pub fit-length :
      (n max_bytes : ℕ) (kept : List (Item K V)) → length (fit n max_bytes kept) ≤ length kept
  unfolding fit
  fit-length zero max_bytes kept = omega arith
  fit-length (suc n) max_bytes [] = elim (Bool-cases (ltb max_bytes 0 && ltb 1 0)) [
    | inl q ↦ absurd (ground arith)
    | inr q ↦ rw q (omega arith)
  ]
  fit-length (suc n) max_bytes (a ∷ kept) =
      elim (Bool-cases (ltb max_bytes (total_bytes (a ∷ kept)) && ltb 1 (length (a ∷ kept)))) [
        | inl q ↦
            rw q (
              omega (arith, fit-length n max_bytes (drop_last (a ∷ kept)), length-drop_last a kept))
        | inr q ↦ rw q (omega arith)
      ]

  module _ (keys : HashKey K) where
    abbrev pub find_item : K → List (Item K V) → Option (Item K V)
    find_item k [] = none
    find_item k (a ∷ kept) = if keys.eq a.key k then some a else find_item k kept

    abbrev pub erase : K → List (Item K V) → List (Item K V)
    erase k [] = []
    erase k (a ∷ kept) = if keys.eq a.key k then kept else a ∷ erase k kept

    -- The entries that make way for a new one.
    abbrev pub make_way : ℕ → K → List (Item K V) → List (Item K V)
    make_way capacity k kept = elim (find_item k kept) [
      | some _ ↦ erase k kept
      | none ↦ if leb capacity (length kept) then drop_last kept else kept
    ]

    -- Storing an entry, on the list.
    abbrev pub model_store : ℕ → ℕ → K → V → ℕ → List (Item K V) → List (Item K V)
    model_store capacity max_bytes k entry bytes kept =
        let new = record { key = k; entry = entry; bytes = bytes } ∷ make_way capacity k kept in
        fit (length new) max_bytes new

    pub find_item_mid :
        (xs : Cells K V) (i : ℕ) (a : Item K V) (ys : Cells K V)
        → KeyFresh keys a.key xs
        → find_item a.key (items (xs ++ (i, a) ∷ ys)) ≡ some a
    find_item_mid [] i a ys h = rw (eq_refl keys a.key) refl
    find_item_mid (x ∷ xs) i a ys (f, h) = rw f (find_item_mid xs i a ys h)

    pub erase_mid :
        (xs : Cells K V) (i : ℕ) (a : Item K V) (ys : Cells K V)
        → KeyFresh keys a.key xs
        → erase a.key (items (xs ++ (i, a) ∷ ys)) ≡ items (xs ++ ys)
    erase_mid [] i a ys h = rw (eq_refl keys a.key) refl
    erase_mid (x ∷ xs) i a ys (f, h) = rw f (ap (λ r. x.1 ∷ r) (erase_mid xs i a ys h))

    pub find_item-none :
        (cells : Cells K V) (k : K)
        → index_of keys cells k ≡ none
        → find_item k (items cells) ≡ none
    find_item-none [] k h = refl
    find_item-none (c ∷ cs) k h = elim (Bool-cases (keys.eq c.1.key k)) [
      | inl q ↦ absurd (some≢none (rw q at h))
      | inr q ↦ rw q (find_item-none cs k (rw q at h))
    ]
      where
        some≢none : some c.0 ≡ none → ⊥
        some≢none h = ground arith
