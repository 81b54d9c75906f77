-- ===== src/Core/Cache/Client/Runs.antt =====
-- The calls of a client, against the list of entries.
use sumidero.Prelude.{
  ℕ, ◌≡◌, refl, sym, subst, ap, ◌∙◌, inl, inr, true, false, Bool-cases, Option-cases, Option, none,
  some, List, ◌∷◌, ◌++◌, get_elem?, if◌then◌else◌,
}
use sumidero.Core.HashMap
use sumidero.Core.HashMap.{HashKey}
use sumidero.Core.Cache.Entry.{Entry, Lookup, is_expired, served}
use sumidero.Core.Cache.Slab.{Node, occupied, Inner, no_link, remove, move_to_head}
use sumidero.Core.Cache.Slab.Chain.{Item, Cells, Linked-split}
use sumidero.Core.Cache.Slab.Keys.{index_of-some, HasDistinctKeys-KeysApart}
use sumidero.Core.Cache.Slab.State.{Represents, SameLimits, SameLimits-refl}
use sumidero.Core.Cache.Slab.Eviction.{items}
use sumidero.Core.Cache.Slab.Removal.{remove-Represents}
use sumidero.Core.Cache.Slab.Recency.{move_to_head-Leaves}
use sumidero.Core.Cache.Slab.Model.{find_item, erase, find_item_mid, erase_mid, find_item-none}
use sumidero.Core.Cache.Client.{get_at, get_response, read_slot}

abbrev pub Kept : Type 0 → Type 0 → Type 0
Kept K D = List (Item K (Entry D))

module _ {K D : Type 0} (keys : HashKey K) where
  -- `get` on the list of entries.
  abbrev pub model_get : ℕ → K → ℕ → Kept K D → Kept K D × Lookup D
  model_get serve_stale_secs key now kept = elim (find_item keys key kept) [
    | none ↦ (kept, Lookup.miss)
    | some a ↦
        if is_expired serve_stale_secs a.entry now
        then (erase keys key kept, Lookup.miss)
        else (a ∷ erase keys key kept, served a.entry now)
  ]

  -- A state that holds what `kept` lists, and the outcome of a call.
  abbrev pub Holds : Inner K (Entry D) → Kept K D → Type 0
  Holds s kept =
      (cells : Cells K (Entry D)) × (frees : List ℕ) × Represents keys s cells frees
      × (items cells ≡ kept)

  abbrev pub Answers :
      {B : Type 0} → Inner K (Entry D) → Option (Inner K (Entry D) × B) → Kept K D × B → Type 0
  Answers s o want =
      (s' : Inner K (Entry D)) × (o ≡ some (s', want.1)) × Holds s' want.0 × SameLimits s s'

  get_response-absent :
      (key : K) (now : ℕ) (s : Inner K (Entry D))
      → HashMap.get keys s.slot_of key ≡ none
      → get_response keys key now s ≡ some (s, Lookup.miss)
  unfolding get_response
  get_response-absent key now s h = rw (h, get_response) refl

  get_response-present :
      (key : K) (now idx : ℕ) (s : Inner K (Entry D))
      → HashMap.get keys s.slot_of key ≡ some idx
      → get_response keys key now s ≡ get_at keys idx now s
  unfolding get_response
  get_response-present key now idx s h = rw (h, get_response) refl

  get_at-expired :
      (idx now : ℕ) (s s' : Inner K (Entry D)) (n : Node K (Entry D))
      → get_elem? s.slots idx ≡ some (occupied n)
      → is_expired s.serve_stale_secs n.entry now ≡ true
      → remove keys idx s ≡ some s'
      → get_at keys idx now s ≡ some (s', Lookup.miss)
  unfolding get_at
  get_at-expired idx now s s' n e h ran = rw (e, get_at, h, ran) refl

  get_at-served :
      (idx now : ℕ) (s s' : Inner K (Entry D)) (n n' : Node K (Entry D))
      → get_elem? s.slots idx ≡ some (occupied n)
      → is_expired s.serve_stale_secs n.entry now ≡ false
      → move_to_head idx s ≡ some s'
      → get_elem? s'.slots idx ≡ some (occupied n')
      → get_at keys idx now s ≡ some (s', served n'.entry now)
  unfolding get_at read_slot
  get_at-served idx now s s' n n' e h ran e' = rw (e, get_at, h, ran, e') refl

  model_get-absent :
      (stale : ℕ) (key : K) (now : ℕ) (kept : Kept K D)
      → find_item keys key kept ≡ none
      → model_get stale key now kept ≡ (kept, Lookup.miss)
  model_get-absent stale key now kept h = rw (h, model_get) refl

  model_get-expired :
      (stale : ℕ) (key : K) (now : ℕ) (kept : Kept K D) (a : Item K (Entry D))
      → find_item keys key kept ≡ some a
      → is_expired stale a.entry now ≡ true
      → model_get stale key now kept ≡ (erase keys key kept, Lookup.miss)
  model_get-expired stale key now kept a h e = rw (h, model_get, e) refl

  model_get-served :
      (stale : ℕ) (key : K) (now : ℕ) (kept : Kept K D) (a : Item K (Entry D))
      → find_item keys key kept ≡ some a
      → is_expired stale a.entry now ≡ false
      → model_get stale key now kept ≡ (a ∷ erase keys key kept, served a.entry now)
  model_get-served stale key now kept a h e = rw (h, model_get, e) refl

  -- `get` at a cell, on both sides of the end of its stale window.
  get_at-Answers :
      (key : K) (now : ℕ) {s : Inner K (Entry D)} (xs : Cells K (Entry D)) (i : ℕ)
      (a : Item K (Entry D)) (ys : Cells K (Entry D)) {frees : List ℕ}
      → Represents keys s (xs ++ (i, a) ∷ ys) frees
      → a.key ≡ key
      → Answers s
          (get_at keys i now s)
          (model_get s.serve_stale_secs key now (items (xs ++ (i, a) ∷ ys)))
  get_at-Answers key now {s} xs i a ys {frees} r same_key =
      let (_, (here, _)) = Linked-split s.slots no_link xs ((i, a) ∷ ys) no_link r.chain in
      let kept = items (xs ++ (i, a) ∷ ys) in
      let apart = HasDistinctKeys-KeysApart keys xs (i, a) ys r.keys_distinct in
      let found : find_item keys key kept ≡ some a =
        subst (λ k. find_item keys k kept ≡ some a) same_key
          (find_item_mid keys xs i a ys apart.not_before) in
      let erased : erase keys key kept ≡ items (xs ++ ys) =
        subst (λ k. erase keys k kept ≡ items (xs ++ ys)) same_key
          (erase_mid keys xs i a ys apart.not_before) in
      elim (Bool-cases (is_expired s.serve_stale_secs a.entry now)) [
        | inl h ↦
            let (s', ran, r', limits) = remove-Represents keys xs ys i a r in
            subst (Answers s (get_at keys i now s))
              (ap (λ l. (l, Lookup.miss)) (sym erased)
                ∙ sym (model_get-expired s.serve_stale_secs key now kept a found h))
              (s', get_at-expired i now s s' _ here h ran, (xs ++ ys, i ∷ frees, r', refl), limits)
        | inr h ↦
            let (s', frees', ran, r', limits) = move_to_head-Leaves keys xs ys i a r in
            subst (Answers s (get_at keys i now s))
              (ap (λ l. (a ∷ l, served a.entry now)) (sym erased)
                ∙ sym (model_get-served s.serve_stale_secs key now kept a found h))
              (
                s',
                get_at-served i now s s' _ _ here h ran r'.chain.0,
                ((i, a) ∷ xs ++ ys, frees', r', refl),
                limits,
              )
      ]

  pub get_response-Answers :
      (key : K) (now : ℕ) {s : Inner K (Entry D)} (kept : Kept K D)
      → Holds s kept
      → Answers s (get_response keys key now s) (model_get s.serve_stale_secs key now kept)
  get_response-Answers key now {s} kept (cells, frees, r, e) =
      subst (λ l. Answers s (get_response keys key now s) (model_get s.serve_stale_secs key now l))
        e
        (elim (Option-cases (HashMap.get keys s.slot_of key)) [
          | inl h ↦
              let absent = find_item-none keys cells key (sym (r.slot_of key) ∙ h) in
              subst (Answers s (get_response keys key now s))
                (sym (model_get-absent s.serve_stale_secs key now (items cells) absent))
                (s, get_response-absent key now s h, (cells, frees, r, refl), SameLimits-refl s)
          | inr (i, h) ↦
              let (xs, a, ys, split, same) =
                index_of-some keys cells key (sym (r.slot_of key) ∙ h) in
              let (s', ran, left, limits) =
                get_at-Answers key now xs i a ys (subst (λ cs. Represents keys s cs frees) split r)
                  same in
              subst
                (λ cs.
                  Answers s (get_response keys key now s)
                    (model_get s.serve_stale_secs key now (items cs)))
                (sym split) (s', get_response-present key now i s h ∙ ran, left, limits)
        ])
