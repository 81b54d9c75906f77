-- ===== src/Core/Cache/Client/History.antt =====
-- Sequences of calls, against the list of entries.
use sumidero.Prelude.{
  ℕ, ◌≡◌, ◌≤◌, ◌<◌, refl, sym, subst, ap, ap₂, ◌∙◌, inl, inr, Option-cases, Option, none, some,
  List, [], ◌∷◌, length, length-map, lt→ltb, le→leb, arith,
}
use sumidero.Core.HashMap
use sumidero.Core.HashMap.{HashKey}
use sumidero.Core.Cache.Entry.{Message, Entry, Lookup, new_entry}
use sumidero.Core.Cache.Slab.{Inner, no_link, new_inner, with_limits, store, len}
use sumidero.Core.Cache.Slab.State.{SameLimits, SameLimits-refl, SameLimits-trans}
use sumidero.Core.Cache.Slab.Model.{model_store}
use sumidero.Core.Cache.Slab.Store.{store-Keeps}
use sumidero.Core.Cache.Client.{Call, estimated_bytes, insert_response, call, run}
use sumidero.Core.Cache.Client.Runs.{Kept, model_get, Holds, get_response-Answers}

module _ {K D : Type 0} (keys : HashKey K) (soa_minimum : D → Option ℕ)
    (to_vec : Message D → Option ℕ) where
  -- `insert` on the list of entries.
  abbrev pub model_insert : ℕ → ℕ → K → Message D → ℕ → Kept K D → Kept K D
  model_insert capacity max_bytes key msg now kept = elim (new_entry soa_minimum msg now) [
    | none ↦ kept
    | some entry ↦
        model_store keys capacity max_bytes key entry (estimated_bytes keys soa_minimum to_vec msg)
          kept
  ]

  unfoldable pub model_call : ℕ → ℕ → ℕ → Call K D → Kept K D → Kept K D × Option (Lookup D)
  model_call capacity max_bytes serve_stale_secs (Call.get key now) kept =
      let (kept', answer) = model_get keys serve_stale_secs key now kept in (kept', some answer)
  model_call capacity max_bytes serve_stale_secs (Call.insert key msg now) kept =
      (model_insert capacity max_bytes key msg now kept, none)

  unfoldable pub model_run :
      ℕ → ℕ → ℕ → List (Call K D) → Kept K D → Kept K D × List (Option (Lookup D))
  unfolding model_call
  model_run capacity max_bytes serve_stale_secs [] kept = (kept, [])
  model_run capacity max_bytes serve_stale_secs (c ∷ cs) kept =
      let (kept₁, answer) = model_call capacity max_bytes serve_stale_secs c kept in
      let (kept₂, answers) = model_run capacity max_bytes serve_stale_secs cs kept₁ in
      (kept₂, answer ∷ answers)

  -- The outcome of calls from a state.
  abbrev pub Runs :
      {B : Type 0} → Inner K (Entry D) → Option (Inner K (Entry D) × B) → Kept K D × B → Type 0
  Runs s o want =
      (s' : Inner K (Entry D)) × (o ≡ some (s', want.1)) × Holds keys s' want.0 × SameLimits s s'

  insert_response-skipped :
      (key : K) (msg : Message D) (now : ℕ) (s : Inner K (Entry D))
      → new_entry soa_minimum msg now ≡ none
      → insert_response keys soa_minimum to_vec key msg now s ≡ some s
  unfolding insert_response
  insert_response-skipped key msg now s h = rw (h, insert_response) refl

  insert_response-stored :
      (key : K) (msg : Message D) (now : ℕ) (s : Inner K (Entry D)) (entry : Entry D)
      → new_entry soa_minimum msg now ≡ some entry
      → insert_response keys soa_minimum to_vec key msg now s
        ≡ store keys key entry (estimated_bytes keys soa_minimum to_vec msg) s
  unfolding insert_response
  insert_response-stored key msg now s entry h = rw (h, insert_response) refl

  model_insert-skipped :
      (capacity max_bytes : ℕ) (key : K) (msg : Message D) (now : ℕ) (kept : Kept K D)
      → new_entry soa_minimum msg now ≡ none
      → model_insert capacity max_bytes key msg now kept ≡ kept
  model_insert-skipped capacity max_bytes key msg now kept h = rw (h, model_insert) refl

  pub model_insert-stored :
      (capacity max_bytes : ℕ) (key : K) (msg : Message D) (now : ℕ) (kept : Kept K D)
      (entry : Entry D)
      → new_entry soa_minimum msg now ≡ some entry
      → model_insert capacity max_bytes key msg now kept
        ≡ model_store keys capacity max_bytes key entry
            (estimated_bytes keys soa_minimum to_vec msg)
            kept
  model_insert-stored capacity max_bytes key msg now kept entry h = rw (h, model_insert) refl

  abbrev pub Inserts : Inner K (Entry D) → Option (Inner K (Entry D)) → Kept K D → Type 0
  Inserts s o kept = (s' : Inner K (Entry D)) × (o ≡ some s') × Holds keys s' kept × SameLimits s s'

  pub insert_response-Inserts :
      (key : K) (msg : Message D) (now : ℕ) {s : Inner K (Entry D)} (kept : Kept K D)
      → 0 < s.capacity
      → Holds keys s kept
      → Inserts s
          (insert_response keys soa_minimum to_vec key msg now s)
          (model_insert s.capacity s.max_bytes key msg now kept)
  insert_response-Inserts key msg now {s} kept positive (cells, frees, r, e) =
      elim (Option-cases (new_entry soa_minimum msg now)) [
        | inl h ↦
            subst (Inserts s (insert_response keys soa_minimum to_vec key msg now s))
              (sym (model_insert-skipped s.capacity s.max_bytes key msg now kept h))
              (s, insert_response-skipped key msg now s h, (cells, frees, r, e), SameLimits-refl s)
        | inr (entry, h) ↦
            let bytes = estimated_bytes keys soa_minimum to_vec msg in
            let (cells', (s', frees', ran, r', limits), e') =
              store-Keeps keys key entry bytes cells r positive in
            subst (Inserts s (insert_response keys soa_minimum to_vec key msg now s))
              (sym (model_insert-stored s.capacity s.max_bytes key msg now kept entry h))
              (
                s',
                insert_response-stored key msg now s entry h ∙ ran,
                (
                  cells',
                  frees',
                  r',
                  e' ∙ ap (model_store keys s.capacity s.max_bytes key entry bytes) e,
                ),
                limits,
              )
      ]

  call-Runs :
      (c : Call K D) {s : Inner K (Entry D)} (kept : Kept K D)
      → 0 < s.capacity
      → Holds keys s kept
      → Runs s
          (call keys soa_minimum to_vec c s)
          (model_call s.capacity s.max_bytes s.serve_stale_secs c kept)
  unfolding call model_call
  call-Runs (Call.get key now) {s} kept positive h =
      let (s', ran, h', limits) = get_response-Answers keys key now kept h in
      (s', rw ran refl, h', limits)
  call-Runs (Call.insert key msg now) {s} kept positive h =
      let (s', ran, h', limits) = insert_response-Inserts key msg now kept positive h in
      (s', rw ran refl, h', limits)

  model_run-limits :
      (cs : List (Call K D)) (kept : Kept K D) {s s' : Inner K (Entry D)}
      → SameLimits s s'
      → model_run s'.capacity s'.max_bytes s'.serve_stale_secs cs kept
        ≡ model_run s.capacity s.max_bytes s.serve_stale_secs cs kept
  model_run-limits cs kept {s} {s'} limits =
      ap (λ n. model_run n s'.max_bytes s'.serve_stale_secs cs kept) limits.capacity
      ∙ ap₂ (λ m e. model_run s.capacity m e cs kept) limits.max_bytes limits.serve_stale_secs

  pub run-Runs :
      (cs : List (Call K D)) {s : Inner K (Entry D)} (kept : Kept K D)
      → 0 < s.capacity
      → Holds keys s kept
      → Runs s
          (run keys soa_minimum to_vec cs s)
          (model_run s.capacity s.max_bytes s.serve_stale_secs cs kept)
  unfolding run model_run
  run-Runs [] {s} kept positive h = (s, refl, h, SameLimits-refl s)
  run-Runs (c ∷ cs) {s} kept positive h =
      let (kept₁, answer) = model_call s.capacity s.max_bytes s.serve_stale_secs c kept in
      let (s₁, ran₁, h₁, limits₁) = call-Runs c kept positive h in
      let (s₂, ran₂, h₂, limits₂) =
        run-Runs cs {s = s₁} kept₁ (omega (arith, positive, limits₁.capacity)) h₁ in
      subst
        (λ r.
          Runs s (run keys soa_minimum to_vec (c ∷ cs) s)
            (let (kept₃, answers) = r in (kept₃, answer ∷ answers)))
        (model_run-limits cs kept₁ limits₁)
        (s₂, rw (ran₁, ran₂) refl, h₂, SameLimits-trans limits₁ limits₂)

  pub with_limits-Holds :
      (tables capacity max_bytes serve_stale_secs : ℕ)
      → 0 < capacity
      → capacity ≤ no_link
      → capacity ≤ tables
      → 0 < max_bytes
      → (with_limits tables capacity max_bytes serve_stale_secs
          ≡ some (new_inner {K = K} {V = Entry D} capacity max_bytes serve_stale_secs))
        × Holds keys (new_inner {K = K} {V = Entry D} capacity max_bytes serve_stale_secs) []
  unfolding with_limits HashMap.get
  with_limits-Holds tables capacity max_bytes serve_stale_secs c small fits b = (
    rw (lt→ltb 0 capacity c, lt→ltb 0 max_bytes b, le→leb capacity tables fits) refl,
    (
      [],
      [],
      record {
        chain = tt;
        head = refl;
        tail = refl;
        distinct = tt;
        keys_distinct = tt;
        free_list = refl;
        slot_of = λ k. refl;
        unique = tt;
        count = refl;
        bytes = refl;
        size = refl;
        room = omega arith;
        small = small;
      },
      refl,
    ),
  )

  -- From a new cache with limits above 0 and a capacity of at most `usize::MAX` that the standard
  -- library's tables can have, no sequence of calls panics, the calls answer what they answer on
  -- the list of entries with no slots in it, where the entries behind the first one make way, and
  -- `len` counts that list.
  pub run-refines :
      (tables capacity max_bytes serve_stale_secs : ℕ) (cs : List (Call K D))
      → 0 < capacity
      → capacity ≤ no_link
      → capacity ≤ tables
      → 0 < max_bytes
      → (s s' : Inner K (Entry D)) × (with_limits tables capacity max_bytes serve_stale_secs
          ≡ some s)
        × (run keys soa_minimum to_vec cs s
            ≡ some (s', (model_run capacity max_bytes serve_stale_secs cs []).1))
        × (len s' ≡ length (model_run capacity max_bytes serve_stale_secs cs []).0)
  unfolding len
  run-refines tables capacity max_bytes serve_stale_secs cs positive small fits budget =
      let (new, held) =
        with_limits-Holds tables capacity max_bytes serve_stale_secs positive small fits budget in
      let (s', ran, (cells, frees, r, e), limits) = run-Runs cs [] positive held in
      (_, s', new, ran, r.count ∙ sym (length-map cells (λ c. c.1)) ∙ ap length e)
