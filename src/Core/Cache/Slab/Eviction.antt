-- ===== src/Core/Cache/Slab/Eviction.antt =====
-- Evicting from the end of the chain, until the sum of bytes fits.
use sumidero.Prelude.{
  ℕ, zero, suc, ◌+◌, ◌≡◌, refl, sym, subst, ap, ap₂, ◌∙◌, inl, inr, false, Bool-cases, ◌&&◌, Option,
  some, List, [], ◌∷◌, ◌++◌, append-nil, map, length, length-map, ltb, ◌==◌, if◌then◌else◌,
}
use sumidero.Core.HashMap.{HashKey}
use sumidero.Core.Cache.Slab.{Inner, no_link, remove, evict_tail, evict_loop}
use sumidero.Core.Cache.Slab.Chain.{Item, Cells, last}
use sumidero.Core.Cache.Slab.Links.{==_of_ne, IsValid-last}
use sumidero.Core.Cache.Slab.State.{
  bytes_of, Represents, Represents-IsValid, SameLimits, SameLimits-refl, SameLimits-trans,
}
use sumidero.Core.Cache.Slab.Removal.{remove-Represents}

abbrev pub drop_last : {A : Type 0} → List A → List A
drop_last [] = []
drop_last (x ∷ []) = []
drop_last (x ∷ y ∷ xs) = x ∷ drop_last (y ∷ xs)

pub map-drop_last :
    {A B : Type 0} (f : A → B) (xs : List A) → map f (drop_last xs) ≡ drop_last (map f xs)
map-drop_last f [] = refl
map-drop_last f (x ∷ []) = refl
map-drop_last f (x ∷ y ∷ xs) = ap (λ r. f x ∷ r) (map-drop_last f (y ∷ xs))

pub length-drop_last : {A : Type 0} (x : A) (xs : List A) → length (drop_last (x ∷ xs)) ≡ length xs
length-drop_last x [] = refl
length-drop_last x (y ∷ xs) = ap suc (length-drop_last y xs)

module _ {K V : Type 0} where
  -- The entries that a cache holds, the one used last first.
  abbrev pub items : Cells K V → List (Item K V)
  items = map (λ c. c.1)

  abbrev pub total_bytes : List (Item K V) → ℕ
  total_bytes [] = 0
  total_bytes (a ∷ kept) = a.bytes + total_bytes kept

  pub bytes_of-items : (cells : Cells K V) → bytes_of cells ≡ total_bytes (items cells)
  bytes_of-items [] = refl
  bytes_of-items (c ∷ cs) = ap (λ n. c.1.bytes + n) (bytes_of-items cs)

  -- The entries behind the first ones go while the bytes do not fit.
  unfoldable pub fit : ℕ → ℕ → List (Item K V) → List (Item K V)
  fit zero max_bytes kept = kept
  fit (suc n) max_bytes kept =
      let rest = fit n max_bytes (drop_last kept) in
      if ltb max_bytes (total_bytes kept) && ltb 1 (length kept) then rest else kept

  split_last :
      (p : ℕ) (c : ℕ × Item K V) (cs : Cells K V)
      → (a : Item K V) × (c ∷ cs ≡ drop_last (c ∷ cs) ++ (last p (c ∷ cs), a) ∷ [])
  split_last p c [] = (c.1, refl)
  split_last p c (d ∷ ds) = let (a, e) = split_last c.0 d ds in (a, ap (λ r. c ∷ r) e)

  module _ (keys : HashKey K) where
    -- The outcome of a step that leaves the cells `cells'`.
    abbrev pub Leaves : Inner K V → Option (Inner K V) → Cells K V → Type 0
    Leaves s o cells' =
        (s' : Inner K V) × (frees' : List ℕ) × (o ≡ some s')
        × Represents keys s' cells' frees'
        × SameLimits s s'

    evict_at :
        (s : Inner K V) (t : ℕ)
        → s.tail ≡ t
        → (t == no_link) ≡ false
        → evict_tail keys s ≡ remove keys t s
    unfolding evict_tail
    evict_at s t q h = ap (λ u. if u == no_link then some s else remove keys u s) q ∙ rw h refl

    -- The last cell goes.
    pub evict_tail-Leaves :
        {s : Inner K V} (cells : Cells K V) {frees : List ℕ}
        → Represents keys s cells frees
        → Leaves s (evict_tail keys s) (drop_last cells)
    unfolding evict_tail
    evict_tail-Leaves {s} [] {frees} r = (
      s,
      frees,
      ap (λ u. if u == no_link then some s else remove keys u s) r.tail,
      r,
      SameLimits-refl s,
    )
    evict_tail-Leaves {s} (c ∷ cs) {frees} r =
        let i = last c.0 cs in
        let (a, e) = split_last no_link c cs in
        let (s', ran, r', same) =
          remove-Represents keys (drop_last (c ∷ cs)) [] i a
            (subst (λ cells. Represents keys s cells frees) e r) in
        let there : (i == no_link) ≡ false =
          ==_of_ne i no_link (IsValid-last c cs (Represents-IsValid keys r)) in
        (
          s',
          i ∷ frees,
          evict_at s i r.tail there ∙ ran,
          subst (λ cells. Represents keys s' cells (i ∷ frees)) (append-nil (drop_last (c ∷ cs)))
              r',
          same,
        )

    -- The loop takes as many rounds as entries, and leaves what fits.
    pub evict_loop-Leaves :
        (n : ℕ) {s : Inner K V} (cells : Cells K V) {frees : List ℕ}
        → Represents keys s cells frees
        → (cells' : Cells K V) × Leaves s (evict_loop keys n s) cells'
          × (items cells' ≡ fit n s.max_bytes (items cells))
    unfolding evict_loop fit
    evict_loop-Leaves zero {s} cells {frees} r =
        (cells, (s, frees, refl, r, SameLimits-refl s), refl)
    evict_loop-Leaves (suc n) {s} cells {frees} r =
        let sum : s.bytes_total ≡ total_bytes (items cells) = r.bytes ∙ bytes_of-items cells in
        let many : length s.slot_of ≡ length (items cells) =
          r.count ∙ sym (length-map cells (λ c. c.1)) in
        let cond = ap₂ (λ b m. ltb s.max_bytes b && ltb 1 m) sum many in
        elim (Bool-cases
          (ltb s.max_bytes (total_bytes (items cells)) && ltb 1 (length (items cells)))) [
            | inl h ↦
                let (s₁, frees₁, ran, r₁, same) = evict_tail-Leaves cells r in
                let (cells', (s', frees', ran', r', same'), e) =
                  evict_loop-Leaves n {s = s₁} (drop_last cells) r₁ in
                (
                  cells',
                  (s', frees', rw (cond, h, ran) ran', r', SameLimits-trans same same'),
                  e ∙ ap₂ (fit n) same.max_bytes (map-drop_last (λ c. c.1) cells) ∙ rw h refl,
                )
            | inr h ↦ (cells, (s, frees, rw (cond, h) refl, r, SameLimits-refl s), rw h refl)
          ]
