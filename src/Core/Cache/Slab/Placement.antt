-- ===== src/Core/Cache/Slab/Placement.antt =====
-- A new entry in a slot of its own.
use sumidero.Prelude.{
  ℕ, ◌+◌, ◌≡◌, ◌≢◌, ◌≤◌, ◌<◌, refl, sym, ap, ap₂, ◌∙◌, inl, inr, true, false, Bool-cases, none,
  some, List, [], ◌∷◌, ◌++◌, All, All-map, length, length-append, length-set, get_elem?,
  get_elem?-bound, get_elem?-append_left, get_elem?-append_last, get_elem?-set_self,
  get_elem?-set_ne, set, ◌==◌, arith,
}
use sumidero.Core.HashMap
use sumidero.Core.HashMap.{HashKey}
use sumidero.Core.HashMap.Laws.{get-insert_same, get-insert_other}
use sumidero.Core.HashMap.Unique.{IsUnique-insert, length-insert_fresh}
use sumidero.Core.Cache.Slab.{
  Node, Slot, occupied, free, Inner, no_link, push_head, alloc_slot, place_entry,
}
use sumidero.Core.Cache.Slab.Chain.{
  Item, Cells, node_of, last, Holds, Linked, Fresh, Linked-frame, set-frame,
}
use sumidero.Core.Cache.Slab.Links.{linked, push_head-Linked, ==_of_ne}
use sumidero.Core.Cache.Slab.Keys.{index_of-none}
use sumidero.Core.Cache.Slab.State.{
  FreeList, FreeList-frame_ne, Fresh-of_free, Represents, Represents-IsValid, SameLimits,
}
use sumidero.Core.Cache.Slab.Eviction.{Leaves}

module _ {K V : Type 0} (keys : HashKey K) (cells : Cells K V) (key : K) (entry : V)
    (bytes : ℕ) where
  abbrev item : Item K V
  item = record { key = key; entry = entry; bytes = bytes }

  abbrev node : Node K V
  node = node_of item no_link no_link

  abbrev with_slot : Inner K V → List (Slot K V) → ℕ → ℕ → Inner K V
  with_slot s sl idx g = record s {
    slots = sl;
    free_head = g;
    slot_of = HashMap.insert keys s.slot_of key idx;
  }

  -- The slots after one was taken at `idx`, with the free list at `g`.
  record Taken (s : Inner K V) (sl : List (Slot K V)) (idx g : ℕ) (frees : List ℕ) : Type 0 where
    fresh : Fresh idx cells
    here : Holds sl idx node
    chain : Linked sl no_link cells no_link
    frees_elsewhere : All (λ k. k ≢ idx) frees
    free_list : FreeList sl g frees
    size : length sl ≡ length cells + 1 + length frees
    room : length sl ≤ s.capacity

  Taken-pushed :
      (s : Inner K V) {frees₀ : List ℕ} (sl : List (Slot K V)) (idx g : ℕ) (frees : List ℕ)
      → Represents keys s cells frees₀
      → HashMap.get keys s.slot_of key ≡ none
      → Taken s sl idx g frees
      → (s' : Inner K V) × (push_head idx (with_slot s sl idx g) ≡ some s')
        × Represents keys
            (record s' { bytes_total = s'.bytes_total + bytes })
            ((idx, item) ∷ cells)
            frees
        × SameLimits s (record s' { bytes_total = s'.bytes_total + bytes })
  Taken-pushed s sl idx g frees r absent t =
      let s₂ = with_slot s sl idx g in
      let (sl', ran, l, off) =
        push_head-Linked s₂ idx item cells sl t.fresh r.distinct (Represents-IsValid keys r) t.here
          t.chain in
      let state = ap₂ (λ h e. linked s₂ sl h e) r.head r.tail in
      (
        linked s₂ sl' idx (last no_link ((idx, item) ∷ cells)),
        ap (push_head idx) state ∙ ran,
        record {
          chain = l;
          head = refl;
          tail = refl;
          distinct = (t.fresh, r.distinct);
          keys_distinct =
              (index_of-none keys cells key (sym (r.slot_of key) ∙ absent), r.keys_distinct);
          free_list =
              FreeList-frame_ne sl sl' idx g frees t.frees_elsewhere
                (λ j h n at.
                  off.same j
                    ((λ q. n (sym q)), Fresh-of_free sl no_link cells no_link j at t.chain))
                t.free_list;
          slot_of = λ k. elim (Bool-cases (keys.eq key k)) [
            | inl q ↦
                let same = sym ((keys.eq_iff key k).0 q) in
                ap (HashMap.get keys (HashMap.insert keys s.slot_of key idx)) same
                ∙ get-insert_same keys s.slot_of key idx
                ∙ rw q refl
            | inr q ↦ get-insert_other keys s.slot_of key k idx q ∙ r.slot_of k ∙ rw q refl
          ];
          unique = IsUnique-insert keys s.slot_of key idx r.unique;
          count = omega (arith, length-insert_fresh keys s.slot_of key idx absent, r.count);
          bytes = omega (arith, r.bytes);
          size = omega (arith, off.size, t.size);
          room = omega (arith, off.size, t.room);
          small = r.small;
        },
        record { capacity = refl; max_bytes = refl; serve_stale_secs = refl },
      )

  append-frame :
      (sl : List (Slot K V)) (v : Slot K V) (p : ℕ) (cs : Cells K V) (q : ℕ)
      → Linked sl p cs q
      → All (λ c. get_elem? (sl ++ v ∷ []) c.0 ≡ get_elem? sl c.0) cs
  append-frame sl v p [] q l = tt
  append-frame sl v p (c ∷ cs) q (e, l) =
      (get_elem?-append_left sl _ c.0 (get_elem?-bound sl c.0 e), append-frame sl v c.0 cs q l)

  Fresh-end :
      (sl : List (Slot K V)) (p : ℕ) (cs : Cells K V) (q : ℕ)
      → Linked sl p cs q
      → Fresh (length sl) cs
  Fresh-end sl p [] q l = tt
  Fresh-end sl p (c ∷ cs) q (e, l) = (
    λ same. let lt = get_elem?-bound sl c.0 e in omega (arith, same, lt),
    Fresh-end sl c.0 cs q l,
  )

  alloc_slot-reused :
      (s : Inner K V) (g : ℕ)
      → (s.free_head == no_link) ≡ false
      → get_elem? s.slots s.free_head ≡ some (free g)
      → alloc_slot node s
        ≡ some (
          record s { slots = set s.slots s.free_head (occupied node); free_head = g },
          s.free_head,
        )
  unfolding alloc_slot
  alloc_slot-reused s g there here = rw (there, alloc_slot, here) refl

  alloc_slot-pushed :
      (s : Inner K V)
      → (s.free_head == no_link) ≡ true
      → alloc_slot node s
        ≡ some (record s { slots = s.slots ++ occupied node ∷ [] }, length s.slots)
  unfolding alloc_slot
  alloc_slot-pushed s h = rw (h, alloc_slot) refl

  place_entry-pushed :
      (s s' : Inner K V) (sl : List (Slot K V)) (idx g : ℕ)
      → alloc_slot node s ≡ some (record s { slots = sl; free_head = g }, idx)
      → push_head idx (with_slot s sl idx g) ≡ some s'
      → place_entry keys key entry bytes s
        ≡ some (record s' { bytes_total = s'.bytes_total + bytes })
  unfolding place_entry
  place_entry-pushed s s' sl idx g h k = rw (h, k) refl

  -- A new entry finds a slot while there is room, and becomes the first cell.
  pub place_entry-Leaves :
      {s : Inner K V} (frees : List ℕ)
      → Represents keys s cells frees
      → HashMap.get keys s.slot_of key ≡ none
      → length cells < s.capacity
      → (idx : ℕ) × Leaves keys s (place_entry keys key entry bytes s) ((idx, item) ∷ cells)
  place_entry-Leaves {s} [] r absent lt =
      let sl = s.slots ++ occupied node ∷ [] in
      let idx = length s.slots in
      let lens = length-append {0} s.slots (occupied node ∷ []) in
      let (s', ran, r', same) = Taken-pushed s sl idx s.free_head [] r absent (record {
        fresh = Fresh-end s.slots no_link cells no_link r.chain;
        here = get_elem?-append_last s.slots (occupied node);
        chain =
            Linked-frame s.slots sl no_link cells no_link
              (append-frame s.slots (occupied node) no_link cells no_link r.chain) r.chain;
        frees_elsewhere = tt;
        free_list = r.free_list;
        size = omega (arith, lens, r.size);
        room = omega (arith, lens, r.size);
      }) in
      let none_free : (s.free_head == no_link) ≡ true = ap (λ f. f == no_link) r.free_list in
      (
        idx,
        (
          record s' { bytes_total = s'.bytes_total + bytes },
          [],
          place_entry-pushed s s' sl idx s.free_head (alloc_slot-pushed s none_free) ran,
          r',
          same,
        ),
      )
  place_entry-Leaves {s} (j ∷ js) r absent lt =
      let (e, g, at, d, rest) = r.free_list in
      let idx = s.free_head in
      let here : get_elem? s.slots idx ≡ some (free g) = ap (get_elem? s.slots) e ∙ at in
      let bound = get_elem?-bound s.slots idx here in
      let v : Slot K V = occupied node in
      let sl = set s.slots idx v in
      let apart = All-map (λ k. k ≢ j) (λ k. k ≢ idx) js (λ k n q. n (q ∙ e)) d in
      let fresh = Fresh-of_free s.slots no_link cells no_link idx here r.chain in
      let (s', ran, r', same) = Taken-pushed s sl idx g js r absent (record {
        fresh = fresh;
        here = get_elem?-set_self s.slots idx v bound;
        chain =
            Linked-frame s.slots sl no_link cells no_link (set-frame s.slots idx v cells fresh)
              r.chain;
        frees_elsewhere = apart;
        free_list =
            FreeList-frame_ne s.slots sl idx g js apart
              (λ k h n _. get_elem?-set_ne s.slots idx k v (λ q. n (sym q))) rest;
        size = omega (arith, length-set s.slots idx v, r.size);
        room = omega (arith, length-set s.slots idx v, r.room);
      }) in
      let there : (idx == no_link) ≡ false =
        ==_of_ne idx no_link (λ q. omega (arith, q, bound, r.room, r.small)) in
      (
        idx,
        (
          record s' { bytes_total = s'.bytes_total + bytes },
          js,
          place_entry-pushed s s' sl idx g (alloc_slot-reused s g there here) ran,
          r',
          same,
        ),
      )
