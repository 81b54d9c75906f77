-- ===== src/Core/Cache/Slab/Removal.antt =====
-- Removing a cell, and evicting the last ones.
use sumidero.Prelude.{
  ℕ, ◌+◌, ◌-◌, ◌≡◌, ◌≢◌, refl, sym, ap, ap₂, ◌∙◌, inl, inr, true, false, Bool-cases, some, List, [],
  ◌∷◌, ◌++◌, All, All-append, All-split, length, length-append, length-set, get_elem?,
  get_elem?-bound, get_elem?-set_self, get_elem?-set_ne, set, leb, le→leb, arith,
}
use sumidero.Core.HashMap
use sumidero.Core.HashMap.{HashKey}
use sumidero.Core.HashMap.Laws.{get-remove_same, get-remove_other}
use sumidero.Core.HashMap.Unique.{length-remove_known, IsUnique-remove}
use sumidero.Core.Cache.Slab.{Node, Slot, free, Inner, no_link, unlink, forget, remove}
use sumidero.Core.Cache.Slab.Chain.{
  Item, Cells, node_of, first, last, Holds, Linked, IsDistinct-Apart, Off, first-append,
  last-append, Linked-frame, Linked-split, set-frame,
}
use sumidero.Core.Cache.Slab.Links.{linked, unlink-Linked}
use sumidero.Core.Cache.Slab.Keys.{
  index_of, index_of_skip, index_of_mid, index_of_fresh, HasDistinctKeys, HasDistinctKeys-KeysApart,
}
use sumidero.Core.Cache.Slab.State.{
  FreeList, FreeList-frame, Fresh-of_free, occupied≢free, bytes_of, bytes_of-append, Represents,
  Represents-IsValid, Represents-linked, SameLimits,
}

module _ {K V : Type 0} (keys : HashKey K) where
  module _ (xs ys : Cells K V) (i : ℕ) (a : Item K V) where
    abbrev cells : Cells K V
    cells = xs ++ (i, a) ∷ ys

    -- The map without the key of a cell.
    get-remove_cell :
        (m : HashMap.Entries K ℕ)
        → HasDistinctKeys keys cells
        → ((k : K) → HashMap.get keys m k ≡ index_of keys cells k)
        → (k : K) → HashMap.get keys (HashMap.remove keys m a.key) k ≡ index_of keys (xs ++ ys) k
    get-remove_cell m d h k =
        let apart = HasDistinctKeys-KeysApart keys xs (i, a) ys d in
        elim (Bool-cases (keys.eq a.key k)) [
          | inl q ↦
              let same = sym ((keys.eq_iff a.key k).0 q) in
              let fresh =
                All-append (λ c. keys.eq c.1.key a.key ≡ false) xs ys apart.not_before
                  apart.not_behind in
              ap (HashMap.get keys (HashMap.remove keys m a.key)) same
              ∙ get-remove_same keys m a.key
              ∙ sym
                  (ap (index_of keys (xs ++ ys)) same ∙ index_of_fresh keys (xs ++ ys) a.key fresh)
          | inr q ↦ get-remove_other keys m a.key k q ∙ h k ∙ index_of_skip keys xs (i, a) ys k q
        ]

    pub unlinked :
        {s : Inner K V} {frees : List ℕ}
        → Represents keys s cells frees
        → (sl' : List (Slot K V)) × (unlink i s
            ≡ some (linked s sl' (first (xs ++ ys) no_link) (last no_link (xs ++ ys))))
          × Linked sl' no_link (xs ++ ys) no_link
          × Holds sl' i (node_of a no_link no_link)
          × Off cells s.slots sl'
    unlinked {s} r =
        let (v, (_, v')) =
          All-split (λ c. c.0 ≢ no_link) xs ((i, a) ∷ ys) (Represents-IsValid keys r) in
        let apart = IsDistinct-Apart xs (i, a) ys r.distinct in
        let (sl', ran, l, here, off) = unlink-Linked s xs ys i a s.slots apart v v' r.chain in
        let state =
          Represents-linked keys r
          ∙ ap₂ (λ h t. linked s s.slots h t) (first-append xs ((i, a) ∷ ys) no_link)
              (last-append no_link xs ((i, a) ∷ ys)) in
        (
          sl',
          ap (unlink i) state
              ∙ ran
              ∙ ap₂ (λ h t. some (linked s sl' h t)) (sym (first-append xs ys no_link))
                  (sym (last-append no_link xs ys)),
          l,
          here,
          off,
        )

    occupied_here :
        {s : Inner K V} {frees : List ℕ}
        → Represents keys s cells frees
        → (n : Node K V) × Holds s.slots i n
    occupied_here {s} r =
        let (_, (e, _)) = Linked-split s.slots no_link xs ((i, a) ∷ ys) no_link r.chain in (_, e)

    frees_elsewhere :
        (sl : List (Slot K V)) (f : ℕ) (js : List ℕ) {n : Node K V}
        → Holds sl i n
        → FreeList sl f js
        → All (λ k. k ≢ i) js
    frees_elsewhere sl f [] h l = tt
    frees_elsewhere sl f (j ∷ js) h (_, g, at, _, l) = (
      λ same. occupied≢free (sym h ∙ ap (get_elem? sl) (sym same) ∙ at),
      frees_elsewhere sl g js h l,
    )

    abbrev key_length :
        {s : Inner K V} {frees : List ℕ}
        → Represents keys s cells frees
        → length (HashMap.remove keys s.slot_of a.key) + 1 ≡ length s.slot_of
    key_length {s} r =
        let apart = HasDistinctKeys-KeysApart keys xs (i, a) ys r.keys_distinct in
        length-remove_known keys s.slot_of a.key r.unique
          (r.slot_of a.key ∙ index_of_mid keys xs (i, a) ys apart.not_before)

    -- A cell is removed: its slot heads the free list.
    pub remove-Represents :
        {s : Inner K V} {frees : List ℕ}
        → Represents keys s cells frees
        → (s' : Inner K V) × (remove keys i s ≡ some s')
          × Represents keys s' (xs ++ ys) (i ∷ frees)
          × SameLimits s s'
    unfolding remove forget
    remove-Represents {s} {frees} r =
        let (sl', ran, l, here, off) = unlinked r in
        let sum : s.bytes_total ≡ bytes_of xs + (a.bytes + bytes_of ys) =
          r.bytes ∙ bytes_of-append xs ((i, a) ∷ ys) in
        let enough : leb a.bytes s.bytes_total ≡ true = le→leb _ _ (omega (arith, sum)) in
        let v : Slot K V = free s.free_head in
        let lens = length-append {0} xs ((i, a) ∷ ys) in
        let lens' = length-append {0} xs ys in
        let apart = IsDistinct-Apart xs (i, a) ys r.distinct in
        let fresh = All-append (λ c. c.0 ≢ i) xs ys apart.not_before apart.not_behind in
        (
          record (linked s (set sl' i v) (first (xs ++ ys) no_link) (last no_link (xs ++ ys))) {
            bytes_total = s.bytes_total - a.bytes;
            slot_of = HashMap.remove keys s.slot_of a.key;
            free_head = i;
          },
          rw (ran, here, enough) refl,
          record {
            chain =
                Linked-frame sl' (set sl' i v) no_link (xs ++ ys) no_link
                  (set-frame sl' i v (xs ++ ys) fresh) l;
            head = refl;
            tail = refl;
            distinct = apart.rest;
            keys_distinct = (HasDistinctKeys-KeysApart keys xs (i, a) ys r.keys_distinct).rest;
            free_list = (
              refl,
              s.free_head,
              get_elem?-set_self sl' i v (get_elem?-bound sl' i here),
              frees_elsewhere s.slots s.free_head frees (occupied_here r).1 r.free_list,
              FreeList-frame s.slots (set sl' i v) s.free_head frees
                  (λ j g at.
                    get_elem?-set_ne sl' i j v (λ same.
                      occupied≢free (sym (occupied_here r).1 ∙ ap (get_elem? s.slots) same ∙ at))
                    ∙ off.same j (Fresh-of_free s.slots no_link cells no_link j at r.chain))
                  r.free_list,
            );
            slot_of = get-remove_cell s.slot_of r.keys_distinct r.slot_of;
            unique = IsUnique-remove keys s.slot_of a.key r.unique;
            count = omega (arith, key_length r, r.count, lens, lens');
            bytes = omega (arith, sum, bytes_of-append xs ys);
            size = omega (arith, length-set sl' i v, off.size, r.size, lens, lens');
            room = omega (arith, length-set sl' i v, off.size, r.room);
            small = r.small;
          },
          record { capacity = refl; max_bytes = refl; serve_stale_secs = refl },
        )
