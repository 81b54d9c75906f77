-- ===== src/Core/Cache/Slab/Replacement.antt =====
-- Another entry under a known key.
use sumidero.Prelude.{
  ℕ, ◌+◌, ◌-◌, ◌≡◌, refl, sym, ap, ◌∙◌, true, some, List, [], ◌∷◌, ◌++◌, length-append, length-set,
  get_elem?, get_elem?-bound, get_elem?-set_self, get_elem?-set_ne, set, leb, le→leb, if◌then◌else◌,
  arith,
}
use sumidero.Core.HashMap.{HashKey}
use sumidero.Core.Cache.Slab.{Slot, occupied, Inner, no_link, replace}
use sumidero.Core.Cache.Slab.Chain.{
  Item, Cells, node_of, first, last, Fresh, IsDistinct, IsDistinct-Apart, last-append, Linked-frame,
  Linked-split, Linked-append, set-frame,
}
use sumidero.Core.Cache.Slab.Keys.{index_of, KeyFresh, HasDistinctKeys}
use sumidero.Core.Cache.Slab.State.{FreeList-frame, occupied≢free, bytes_of-append, Represents}
use sumidero.Core.Cache.Slab.Eviction.{Leaves}

module _ {K V : Type 0} (keys : HashKey K) (xs ys : Cells K V) (i : ℕ) (a : Item K V) (entry : V)
    (bytes : ℕ) where
  abbrev item : Item K V
  item = record { key = a.key; entry = entry; bytes = bytes }

  abbrev old : Cells K V
  old = xs ++ (i, a) ∷ ys

  abbrev replaced : Cells K V
  replaced = xs ++ (i, item) ∷ ys

  Fresh-replaced :
      (j : ℕ) (zs : Cells K V) → Fresh j (zs ++ (i, a) ∷ ys) → Fresh j (zs ++ (i, item) ∷ ys)
  Fresh-replaced j [] h = h
  Fresh-replaced j (z ∷ zs) (n, h) = (n, Fresh-replaced j zs h)

  IsDistinct-replaced :
      (zs : Cells K V) → IsDistinct (zs ++ (i, a) ∷ ys) → IsDistinct (zs ++ (i, item) ∷ ys)
  IsDistinct-replaced [] d = d
  IsDistinct-replaced (z ∷ zs) (f, d) = (Fresh-replaced z.0 zs f, IsDistinct-replaced zs d)

  KeyFresh-replaced :
      (k : K) (zs : Cells K V)
      → KeyFresh keys k (zs ++ (i, a) ∷ ys)
      → KeyFresh keys k (zs ++ (i, item) ∷ ys)
  KeyFresh-replaced k [] h = h
  KeyFresh-replaced k (z ∷ zs) (n, h) = (n, KeyFresh-replaced k zs h)

  keys-replaced :
      (zs : Cells K V)
      → HasDistinctKeys keys (zs ++ (i, a) ∷ ys)
      → HasDistinctKeys keys (zs ++ (i, item) ∷ ys)
  keys-replaced [] d = d
  keys-replaced (z ∷ zs) (f, d) = (KeyFresh-replaced z.1.key zs f, keys-replaced zs d)

  index_of-replaced :
      (zs : Cells K V) (k : K)
      → index_of keys (zs ++ (i, a) ∷ ys) k ≡ index_of keys (zs ++ (i, item) ∷ ys) k
  index_of-replaced [] k = refl
  index_of-replaced (z ∷ zs) k =
      ap (λ o. if keys.eq z.1.key k then some z.0 else o) (index_of-replaced zs k)

  first-replaced :
      (zs : Cells K V) (q : ℕ) → first (zs ++ (i, a) ∷ ys) q ≡ first (zs ++ (i, item) ∷ ys) q
  first-replaced [] q = refl
  first-replaced (z ∷ zs) q = refl

  replace-held :
      (s : Inner K V) (p q : ℕ)
      → get_elem? s.slots i ≡ some (occupied (node_of a p q))
      → leb a.bytes s.bytes_total ≡ true
      → replace i entry bytes s
        ≡ some (record s {
          slots = set s.slots i (occupied (node_of item p q));
          bytes_total = s.bytes_total - a.bytes + bytes;
        })
  unfolding replace
  replace-held s p q h enough = rw (h, replace, enough) refl

  -- The cell has the new entry, and nothing else changes.
  pub replace-Leaves :
      {s : Inner K V} {frees : List ℕ}
      → Represents keys s old frees
      → Leaves keys s (replace i entry bytes s) replaced
  replace-Leaves {s} {frees} r =
      let (l₁, (e, l₂)) = Linked-split s.slots no_link xs ((i, a) ∷ ys) no_link r.chain in
      let apart = IsDistinct-Apart xs (i, a) ys r.distinct in
      let v : Slot K V = occupied (node_of item (last no_link xs) (first ys no_link)) in
      let sl = set s.slots i v in
      let sum = bytes_of-append xs ((i, a) ∷ ys) in
      let enough : leb a.bytes s.bytes_total ≡ true = le→leb _ _ (omega (arith, r.bytes, sum)) in
      let lens = length-append {0} xs ((i, a) ∷ ys) in
      let lens' = length-append {0} xs ((i, item) ∷ ys) in
      (
        record s { slots = sl; bytes_total = s.bytes_total - a.bytes + bytes },
        frees,
        replace-held s (last no_link xs) (first ys no_link) e enough,
        record {
          chain =
              Linked-append sl no_link xs ((i, item) ∷ ys) no_link
                (Linked-frame s.slots sl no_link xs i (set-frame s.slots i v xs apart.not_before)
                  l₁)
                (
                  get_elem?-set_self s.slots i v (get_elem?-bound s.slots i e),
                  Linked-frame s.slots sl i ys no_link (set-frame s.slots i v ys apart.not_behind)
                      l₂,
                );
          head = r.head ∙ first-replaced xs no_link;
          tail =
              r.tail
              ∙ last-append no_link xs ((i, a) ∷ ys)
              ∙ sym (last-append no_link xs ((i, item) ∷ ys));
          distinct = IsDistinct-replaced xs r.distinct;
          keys_distinct = keys-replaced xs r.keys_distinct;
          free_list =
              FreeList-frame s.slots sl s.free_head frees
                (λ j g at.
                  get_elem?-set_ne s.slots i j v
                    (λ q. occupied≢free (sym e ∙ ap (get_elem? s.slots) q ∙ at)))
                r.free_list;
          slot_of = λ k. r.slot_of k ∙ index_of-replaced xs k;
          unique = r.unique;
          count = omega (arith, r.count, lens, lens');
          bytes = omega (arith, r.bytes, sum, bytes_of-append xs ((i, item) ∷ ys));
          size = omega (arith, length-set s.slots i v, r.size, lens, lens');
          room = omega (arith, length-set s.slots i v, r.room);
          small = r.small;
        },
        record { capacity = refl; max_bytes = refl; serve_stale_secs = refl },
      )
