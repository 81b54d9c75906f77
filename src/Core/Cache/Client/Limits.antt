-- ===== src/Core/Cache/Client/Limits.antt =====
-- What a client finds at any time: the limits kept, and its last response answered.
use sumidero.Prelude.{
  ℕ, ◌+◌, ◌≡◌, ◌≤◌, ◌<◌, refl, sym, subst, ap, ◌∙◌, ◌⊎◌, inl, inr, Bool-cases, Option-cases, Option,
  some, List, [], ◌∷◌, length, length-map, arith,
}
use sumidero.Core.HashMap.{HashKey}
use sumidero.Core.HashMap.Laws.{eq_refl}
use sumidero.Core.Cache.Entry.{Message, Entry, Lookup, new_entry, is_expired, answer_of}
use sumidero.Core.Cache.Slab.{Inner, no_link, with_limits, len}
use sumidero.Core.Cache.Slab.Chain.{Item}
use sumidero.Core.Cache.Slab.Eviction.{bytes_of-items, total_bytes}
use sumidero.Core.Cache.Slab.Model.{
  Fits, fit-Fits, fit-first, find_item, erase, make_way, model_store,
}
use sumidero.Core.Cache.Client.{Call, estimated_bytes, get_response, insert_response, run}
use sumidero.Core.Cache.Client.Runs.{Kept, model_get, get_response-Answers}
use sumidero.Core.Cache.Client.History.{
  model_insert, model_insert-stored, model_call, model_run, run-Runs, with_limits-Holds,
  insert_response-Inserts,
}

module _ {K D : Type 0} (keys : HashKey K) where
  -- Erasing an entry takes it out of the sums.
  erase-sums :
      (key : K) (kept : Kept K D) {a : Item K (Entry D)}
      → find_item keys key kept ≡ some a
      → (a.bytes + total_bytes (erase keys key kept) ≡ total_bytes kept)
        × (length (erase keys key kept) + 1 ≡ length kept)
  erase-sums key [] h = absurd (ground arith)
  erase-sums key (b ∷ kept) {a} h = elim (Bool-cases (keys.eq b.key key)) [
    | inl q ↦
        let same : some b ≡ some a = rw q at h in
        rw q (ap (λ i. i.bytes + total_bytes kept) (sym (inj same)), omega arith)
    | inr q ↦
        let (sum, size) = erase-sums key kept (rw q at h) in
        rw q (omega (arith, sum), omega (arith, size))
  ]
    where
      inj : some b ≡ some a → b ≡ a
      inj h = ground arith

  Fits-erase :
      (max_bytes : ℕ) (key : K) (kept : Kept K D) {a : Item K (Entry D)}
      → find_item keys key kept ≡ some a
      → Fits max_bytes kept
      → Fits max_bytes (erase keys key kept) × Fits max_bytes (a ∷ erase keys key kept)
  Fits-erase max_bytes key kept h f =
      let (sum, size) = erase-sums key kept h in
      elim f [
        | inl le ↦ (inl (omega (arith, le, sum)), inl (omega (arith, le, sum)))
        | inr le ↦ (inr (omega (arith, le, size)), inr (omega (arith, le, size)))
      ]

  Fits-model_get :
      (max_bytes serve_stale_secs : ℕ) (key : K) (now : ℕ) (kept : Kept K D)
      → Fits max_bytes kept
      → Fits max_bytes (model_get keys serve_stale_secs key now kept).0
  Fits-model_get max_bytes serve_stale_secs key now kept f =
      elim (Option-cases (find_item keys key kept)) [
        | inl h ↦ rw (h, model_get) f
        | inr (a, h) ↦
            let (erased, moved) = Fits-erase max_bytes key kept h f in
            elim (Bool-cases (is_expired serve_stale_secs a.entry now)) [
              | inl q ↦ rw (h, model_get, q) erased
              | inr q ↦ rw (h, model_get, q) moved
            ]
      ]

  module _ (soa_minimum : D → Option ℕ) (to_vec : Message D → Option ℕ) where
    Fits-model_call :
        (capacity max_bytes serve_stale_secs : ℕ) (c : Call K D) (kept : Kept K D)
        → Fits max_bytes kept
        → Fits max_bytes
            (model_call keys soa_minimum to_vec capacity max_bytes serve_stale_secs c kept).0
    unfolding model_call
    Fits-model_call capacity max_bytes serve_stale_secs (Call.get key now) kept f =
        Fits-model_get max_bytes serve_stale_secs key now kept f
    Fits-model_call capacity max_bytes serve_stale_secs (Call.insert key msg now) kept f =
        elim (Option-cases (new_entry soa_minimum msg now)) [
          | inl h ↦ rw (h, model_insert) f
          | inr (entry, h) ↦
              let new =
                record {
                  key = key;
                  entry = entry;
                  bytes = estimated_bytes keys soa_minimum to_vec msg;
                }
                ∷ make_way keys capacity key kept in
              subst (Fits max_bytes)
                (sym (
                  model_insert-stored keys soa_minimum to_vec capacity max_bytes key msg now kept
                    entry h))
                (fit-Fits (length new) max_bytes new (omega arith))
        ]

    Fits-model_run :
        (capacity max_bytes serve_stale_secs : ℕ) (cs : List (Call K D)) (kept : Kept K D)
        → Fits max_bytes kept
        → Fits max_bytes
            (model_run keys soa_minimum to_vec capacity max_bytes serve_stale_secs cs kept).0
    unfolding model_run
    Fits-model_run capacity max_bytes serve_stale_secs [] kept f = f
    Fits-model_run capacity max_bytes serve_stale_secs (c ∷ cs) kept f =
        Fits-model_run capacity max_bytes serve_stale_secs cs _
          (Fits-model_call capacity max_bytes serve_stale_secs c kept f)

    -- After any calls from a new cache with limits above 0 and a capacity of at most `usize::MAX`
    -- that the standard library's tables can have, the cache has at most `capacity` entries and as
    -- many slots at most, and their bytes are within the budget unless one entry is all there is.
    pub run-within_limits :
        (tables capacity max_bytes serve_stale_secs : ℕ) (cs : List (Call K D))
        → 0 < capacity
        → capacity ≤ no_link
        → capacity ≤ tables
        → 0 < max_bytes
        → (s s' : Inner K (Entry D)) × (answers : List (Option (Lookup D))) × (with_limits tables
              capacity max_bytes serve_stale_secs
            ≡ some s)
          × (run keys soa_minimum to_vec cs s ≡ some (s', answers))
          × (len s' ≤ capacity)
          × (length s'.slots ≤ capacity)
          × ((s'.bytes_total ≤ max_bytes) ⊎ (len s' ≤ 1))
    unfolding len
    run-within_limits tables capacity max_bytes serve_stale_secs cs positive small fits budget =
        let (new, held) =
          with_limits-Holds keys soa_minimum to_vec tables capacity max_bytes serve_stale_secs
            positive small fits budget in
        let (s', ran, (cells, frees, r, e), limits) =
          run-Runs keys soa_minimum to_vec cs [] positive held in
        let sum : s'.bytes_total ≡ total_bytes _ =
          r.bytes ∙ bytes_of-items cells ∙ ap total_bytes e in
        let many : length s'.slot_of ≡ length _ =
          r.count ∙ sym (length-map cells (λ c. c.1)) ∙ ap length e in
        (
          _,
          s',
          _,
          new,
          ran,
          omega (arith, r.count, r.size, r.room, limits.capacity),
          omega (arith, r.room, limits.capacity),
          elim (Fits-model_run capacity max_bytes serve_stale_secs cs [] (inl (omega arith))) [
            | inl le ↦ inl (omega (arith, sum, le))
            | inr le ↦ inr (omega (arith, many, le))
          ],
        )

    find_item-stored :
        (capacity max_bytes : ℕ) (key : K) (entry : Entry D) (bytes : ℕ) (kept : Kept K D)
        → find_item keys key (model_store keys capacity max_bytes key entry bytes kept)
          ≡ some (record { key = key; entry = entry; bytes = bytes })
    find_item-stored capacity max_bytes key entry bytes kept =
        let way = make_way keys capacity key kept in
        let new : Item K (Entry D) = record { key = key; entry = entry; bytes = bytes } in
        let (rest, e) = fit-first (length (new ∷ way)) max_bytes new way in
        ap (find_item keys key) e ∙ rw (eq_refl keys key) refl

    model_get-stored :
        (serve_stale_secs : ℕ) (key : K) (now : ℕ) (kept : Kept K D) (a : Item K (Entry D))
        → find_item keys key kept ≡ some a
        → (model_get keys serve_stale_secs key now kept).1 ≡ answer_of serve_stale_secs a.entry now
    unfolding answer_of
    model_get-stored serve_stale_secs key now kept a h =
        elim (Bool-cases (is_expired serve_stale_secs a.entry now)) [
          | inl q ↦ rw (h, model_get, q) refl
          | inr q ↦ rw (h, model_get, q) refl
        ]

    -- After any calls from a new cache with limits above 0 and a capacity of at most `usize::MAX`
    -- that the standard library's tables can have, a response that is stored is answered by the
    -- next `get` of its key, whatever had to make way, as its entry is answered at that time.
    pub get_response-insert_response :
        (tables capacity max_bytes serve_stale_secs : ℕ) (cs : List (Call K D)) (key : K)
        (msg : Message D) (now now' : ℕ) {entry : Entry D}
        → 0 < capacity
        → capacity ≤ no_link
        → capacity ≤ tables
        → 0 < max_bytes
        → new_entry soa_minimum msg now ≡ some entry
        → (s s₁ s₂ s₃ : Inner K (Entry D)) × (answers : List (Option (Lookup D))) × (with_limits
              tables capacity max_bytes serve_stale_secs
            ≡ some s)
          × (run keys soa_minimum to_vec cs s ≡ some (s₁, answers))
          × (insert_response keys soa_minimum to_vec key msg now s₁ ≡ some s₂)
          × (get_response keys key now' s₂ ≡ some (s₃, answer_of serve_stale_secs entry now'))
    get_response-insert_response tables capacity max_bytes serve_stale_secs cs key msg now now'
          {entry} positive small fits budget h =
        let (new, held) =
          with_limits-Holds keys soa_minimum to_vec tables capacity max_bytes serve_stale_secs
            positive small fits budget in
        let (s₁, ran₁, held₁, limits₁) = run-Runs keys soa_minimum to_vec cs [] positive held in
        let kept₁ =
          (model_run keys soa_minimum to_vec capacity max_bytes serve_stale_secs cs []).0 in
        let (s₂, ran₂, held₂, limits₂) =
          insert_response-Inserts keys soa_minimum to_vec key msg now kept₁
            (omega (arith, positive, limits₁.capacity)) held₁ in
        let kept₂ =
          model_insert keys soa_minimum to_vec s₁.capacity s₁.max_bytes key msg now kept₁ in
        let (s₃, ran₃, held₃, limits₃) = get_response-Answers keys key now' kept₂ held₂ in
        let bytes = estimated_bytes keys soa_minimum to_vec msg in
        let found : find_item keys key kept₂
            ≡ some (record { key = key; entry = entry; bytes = bytes }) =
          ap (find_item keys key) (
            model_insert-stored keys soa_minimum to_vec s₁.capacity s₁.max_bytes key msg now kept₁
              entry h)
          ∙ find_item-stored s₁.capacity s₁.max_bytes key entry bytes kept₁ in
        (
          _,
          s₁,
          s₂,
          s₃,
          _,
          new,
          ran₁,
          ran₂,
          ran₃
              ∙ ap (λ o. some (s₃, o))
                  (model_get-stored s₂.serve_stale_secs key now' kept₂ _ found
                    ∙ ap (λ n. answer_of n entry now')
                        (limits₂.serve_stale_secs ∙ limits₁.serve_stale_secs)),
        )
