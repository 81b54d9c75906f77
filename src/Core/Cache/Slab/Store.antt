-- ===== src/Core/Cache/Slab/Store.antt =====
-- `Cache::insert` from the lock on, against the list of entries.
use sumidero.Prelude.{
  ℕ, ◌≡◌, ◌≤◌, ◌<◌, refl, sym, subst, ap, ap₂, ◌∙◌, inl, inr, Bool-cases, Option-cases, Option,
  none, some, List, [], ◌∷◌, ◌++◌, length, length-map, leb, if◌then◌else◌, arith,
}
use sumidero.Core.HashMap
use sumidero.Core.HashMap.{HashKey}
use sumidero.Core.Cache.Slab.{
  Inner, evict_tail, evict_to_byte_budget, store_known, store_fresh, store,
}
use sumidero.Core.Cache.Slab.Chain.{Item, Cells}
use sumidero.Core.Cache.Slab.Keys.{
  index_of, index_of-some, index_of-none, index_of_fresh, KeyFresh, HasDistinctKeys-KeysApart,
}
use sumidero.Core.Cache.Slab.State.{Represents, SameLimits-refl, SameLimits-trans}
use sumidero.Core.Cache.Slab.Eviction.{
  drop_last, map-drop_last, length-drop_last, items, fit, Leaves, evict_tail-Leaves,
  evict_loop-Leaves,
}
use sumidero.Core.Cache.Slab.Recency.{move_to_head-Leaves}
use sumidero.Core.Cache.Slab.Placement.{place_entry-Leaves}
use sumidero.Core.Cache.Slab.Replacement.{replace-Leaves}
use sumidero.Core.Cache.Slab.Model.{make_way, model_store, find_item_mid, erase_mid, find_item-none}

module _ {K V : Type 0} (keys : HashKey K) where
  -- The cells that remain, with the entries that `kept` lists.
  abbrev pub Keeps : Inner K V → Option (Inner K V) → List (Item K V) → Type 0
  Keeps s o kept = (cells' : Cells K V) × Leaves keys s o cells' × (items cells' ≡ kept)

  budget-Keeps :
      {s : Inner K V} (cells : Cells K V) {frees : List ℕ}
      → Represents keys s cells frees
      → Keeps s (evict_to_byte_budget keys s) (fit (length (items cells)) s.max_bytes (items cells))
  unfolding evict_to_byte_budget
  budget-Keeps {s} cells r =
      let (cells', left, e) = evict_loop-Leaves keys (length s.slot_of) cells r in
      (
        cells',
        left,
        e ∙ ap (λ n. fit n s.max_bytes (items cells)) (r.count ∙ sym (length-map cells (λ c. c.1))),
      )

  module _ (key : K) (entry : V) (bytes : ℕ) where
    abbrev with_new : List (Item K V) → List (Item K V)
    with_new kept = record { key = key; entry = entry; bytes = bytes } ∷ kept

    KeyFresh-drop_last :
        (cells : Cells K V) → KeyFresh keys key cells → KeyFresh keys key (drop_last cells)
    KeyFresh-drop_last [] h = tt
    KeyFresh-drop_last (c ∷ []) h = tt
    KeyFresh-drop_last (c ∷ d ∷ cs) (f, h) = (f, KeyFresh-drop_last (d ∷ cs) h)

    drop_last-lt :
        (cells : Cells K V) (m : ℕ) → 0 < m → length cells ≤ m → length (drop_last cells) < m
    drop_last-lt [] m h k = omega (arith, h)
    drop_last-lt (c ∷ cs) m h k = omega (arith, k, length-drop_last c cs)

    abbrev evict_if_full : Inner K V → Option (Inner K V)
    evict_if_full s = if leb s.capacity (length s.slot_of) then evict_tail keys s else some s

    abbrev room_made : ℕ → List (Item K V) → List (Item K V)
    room_made capacity kept = if leb capacity (length kept) then drop_last kept else kept

    evict_if_full-Keeps :
        {s : Inner K V} (cells : Cells K V) {frees : List ℕ}
        → Represents keys s cells frees
        → 0 < s.capacity
        → KeyFresh keys key cells
        → (cells₁ : Cells K V) × Leaves keys s (evict_if_full s) cells₁
          × (items cells₁ ≡ room_made s.capacity (items cells))
          × (length cells₁ < s.capacity)
          × KeyFresh keys key cells₁
    evict_if_full-Keeps {s} cells {frees} r positive f =
        let many : length s.slot_of ≡ length (items cells) =
          r.count ∙ sym (length-map cells (λ c. c.1)) in
        elim (Bool-cases (leb s.capacity (length (items cells)))) [
          | inl h ↦
              let (s₁, frees₁, ran, r₁, same) = evict_tail-Leaves keys cells r in
              (
                drop_last cells,
                (s₁, frees₁, rw (many, h) ran, r₁, same),
                map-drop_last (λ c. c.1) cells ∙ rw h refl,
                drop_last-lt cells s.capacity positive (omega (arith, r.size, r.room)),
                KeyFresh-drop_last cells f,
              )
          | inr h ↦ (
            cells,
            (s, frees, rw (many, h) refl, r, SameLimits-refl s),
            rw h refl,
            ground (arith, length-map cells (λ c. c.1)),
            f,
          )
        ]

    store_fresh-Keeps :
        {s : Inner K V} (cells : Cells K V) {frees : List ℕ}
        → Represents keys s cells frees
        → 0 < s.capacity
        → index_of keys cells key ≡ none
        → Keeps s (store_fresh keys key entry bytes s) (
            let kept = with_new (room_made s.capacity (items cells)) in
            fit (length kept) s.max_bytes kept)
    unfolding store_fresh
    store_fresh-Keeps {s} cells r positive absent =
        let (cells₁, (s₁, frees₁, ran₁, r₁, same₁), e₁, lt, f) =
          evict_if_full-Keeps cells r positive (index_of-none keys cells key absent) in
        let (idx, (s₂, frees₂, ran₂, r₂, same₂)) =
          place_entry-Leaves keys cells₁ key entry bytes frees₁ r₁
            (r₁.slot_of key ∙ index_of_fresh keys cells₁ key f)
            (omega (arith, lt, same₁.capacity)) in
        let item : Item K V = record { key = key; entry = entry; bytes = bytes } in
        let (cells₃, (s₃, frees₃, ran₃, r₃, same₃), e₃) = budget-Keeps ((idx, item) ∷ cells₁) r₂ in
        let limits = SameLimits-trans same₁ same₂ in
        (
          cells₃,
          (s₃, frees₃, rw (ran₁, ran₂) ran₃, r₃, SameLimits-trans limits same₃),
          e₃ ∙ ap₂ (λ m kept. fit (length (with_new kept)) m (with_new kept)) limits.max_bytes e₁,
        )

    store_known-Keeps :
        {s : Inner K V} (xs : Cells K V) (i : ℕ) (a : Item K V) (ys : Cells K V) {frees : List ℕ}
        → Represents keys s (xs ++ (i, a) ∷ ys) frees
        → a.key ≡ key
        → Keeps s
            (store_known keys i entry bytes s)
            (let kept = with_new (items (xs ++ ys)) in fit (length kept) s.max_bytes kept)
    unfolding store_known
    store_known-Keeps {s} xs i a ys r same_key =
        let item : Item K V = record { key = a.key; entry = entry; bytes = bytes } in
        let (s₁, frees₁, ran₁, r₁, same₁) = replace-Leaves keys xs ys i a entry bytes r in
        let (s₂, frees₂, ran₂, r₂, same₂) = move_to_head-Leaves keys xs ys i item r₁ in
        let (cells₃, (s₃, frees₃, ran₃, r₃, same₃), e₃) = budget-Keeps ((i, item) ∷ xs ++ ys) r₂ in
        let limits = SameLimits-trans same₁ same₂ in
        (
          cells₃,
          (s₃, frees₃, rw (ran₁, ran₂) ran₃, r₃, SameLimits-trans limits same₃),
          e₃
              ∙ ap₂
                  (λ m k.
                    let kept =
                      record { key = k; entry = entry; bytes = bytes } ∷ items (xs ++ ys) in
                    fit (length kept) m kept)
                  limits.max_bytes same_key,
        )

    store-at_known :
        (s : Inner K V) (i : ℕ)
        → HashMap.get keys s.slot_of key ≡ some i
        → store keys key entry bytes s ≡ store_known keys i entry bytes s
    unfolding store
    store-at_known s i h = rw (h, store) refl

    store-at_fresh :
        (s : Inner K V)
        → HashMap.get keys s.slot_of key ≡ none
        → store keys key entry bytes s ≡ store_fresh keys key entry bytes s
    unfolding store
    store-at_fresh s h = rw (h, store) refl

    make_way-known :
        (capacity : ℕ) (xs : Cells K V) (i : ℕ) (a : Item K V) (ys : Cells K V)
        → KeyFresh keys a.key xs
        → make_way keys capacity a.key (items (xs ++ (i, a) ∷ ys)) ≡ items (xs ++ ys)
    make_way-known capacity xs i a ys f =
        rw (find_item_mid keys xs i a ys f, make_way) (erase_mid keys xs i a ys f)

    make_way-fresh :
        (capacity : ℕ) (cells : Cells K V)
        → index_of keys cells key ≡ none
        → make_way keys capacity key (items cells) ≡ room_made capacity (items cells)
    make_way-fresh capacity cells h = rw (find_item-none keys cells key h, make_way) refl

    abbrev stored : Inner K V → List (Item K V) → List (Item K V)
    stored s kept = let kept' = with_new kept in fit (length kept') s.max_bytes kept'

    -- Storing an entry in the slots does to the list what storing it in the list does.
    pub store-Keeps :
        {s : Inner K V} (cells : Cells K V) {frees : List ℕ}
        → Represents keys s cells frees
        → 0 < s.capacity
        → Keeps s
            (store keys key entry bytes s)
            (model_store keys s.capacity s.max_bytes key entry bytes (items cells))
    store-Keeps {s} cells {frees} r positive =
        elim (Option-cases (HashMap.get keys s.slot_of key)) [
          | inr (i, h) ↦
              let (xs, a, ys, e, same) = index_of-some keys cells key (sym (r.slot_of key) ∙ h) in
              let r' = subst (λ cs. Represents keys s cs frees) e r in
              let apart = HasDistinctKeys-KeysApart keys xs (i, a) ys r'.keys_distinct in
              let (cells', (s', frees', ran, left, limits), e') =
                store_known-Keeps xs i a ys r' same in
              (
                cells',
                (s', frees', store-at_known s i h ∙ ran, left, limits),
                e'
                    ∙ sym (
                        ap (stored s) (
                          ap₂ (λ k cs. make_way keys s.capacity k (items cs)) (sym same) e
                          ∙ make_way-known s.capacity xs i a ys apart.not_before)),
              )
          | inl h ↦
              let absent = sym (r.slot_of key) ∙ h in
              let (cells', (s', frees', ran, left, limits), e') =
                store_fresh-Keeps cells r positive absent in
              (
                cells',
                (s', frees', store-at_fresh s h ∙ ran, left, limits),
                e' ∙ sym (ap (stored s) (make_way-fresh s.capacity cells absent)),
              )
        ]
