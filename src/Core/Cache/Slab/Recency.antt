-- ===== src/Core/Cache/Slab/Recency.antt =====
-- Moving a cell to the front, and giving it another entry.
use sumidero.Prelude.{
  ℕ, ◌≡◌, ◌≢◌, refl, sym, subst, ap, ◌∙◌, inl, inr, false, Bool-cases, some, List, [], ◌∷◌, ◌++◌,
  All-append, All-split, length, length-append, get_elem?, ◌==◌, ==_iff, ◌>>=◌, arith,
}
use sumidero.Core.HashMap.{HashKey}
use sumidero.Core.Cache.Slab.{Slot, free, Inner, no_link, unlink, push_head, move_to_head}
use sumidero.Core.Cache.Slab.Chain.{
  Item, Cells, first, last, Linked, Fresh, IsDistinct-Apart, first-append,
}
use sumidero.Core.Cache.Slab.Links.{linked, push_head-Linked}
use sumidero.Core.Cache.Slab.Keys.{
  index_of, index_of_skip, index_of_mid, HasDistinctKeys, HasDistinctKeys-KeysApart,
}
use sumidero.Core.Cache.Slab.State.{
  FreeList-frame, Fresh-of_free, bytes_of-append, Represents, Represents-IsValid, SameLimits-refl,
}
use sumidero.Core.Cache.Slab.Removal.{unlinked}
use sumidero.Core.Cache.Slab.Eviction.{Leaves}

module _ {K V : Type 0} (keys : HashKey K) (xs ys : Cells K V) (i : ℕ) where
  module _ (a : Item K V) where
    abbrev old : Cells K V
    old = xs ++ (i, a) ∷ ys

    abbrev moved : Cells K V
    moved = (i, a) ∷ xs ++ ys

    -- The map still leads to the same indices.
    index_of-moved :
        HasDistinctKeys keys old → (k : K) → index_of keys old k ≡ index_of keys moved k
    index_of-moved d k =
        let apart = HasDistinctKeys-KeysApart keys xs (i, a) ys d in
        elim (Bool-cases (keys.eq a.key k)) [
          | inl q ↦
              ap (index_of keys old) (sym ((keys.eq_iff a.key k).0 q))
              ∙ index_of_mid keys xs (i, a) ys apart.not_before
              ∙ rw q refl
          | inr q ↦ index_of_skip keys xs (i, a) ys k q ∙ rw q refl
        ]

    pushed :
        {s : Inner K V} {frees : List ℕ}
        → Represents keys s old frees
        → (sl' : List (Slot K V)) × ((do s ← unlink i s; push_head i s)
            ≡ some (linked s sl' i (last no_link moved)))
          × Linked sl' no_link moved no_link
          × ((j g : ℕ)
              → get_elem? s.slots j ≡ some (free g)
              → get_elem? sl' j ≡ get_elem? s.slots j)
          × (length sl' ≡ length s.slots)
    pushed {s} r =
        let (sl₁, ran₁, l₁, here, off₁) = unlinked keys xs ys i a r in
        let apart = IsDistinct-Apart xs (i, a) ys r.distinct in
        let (v, (_, v')) =
          All-split (λ c. c.0 ≢ no_link) xs ((i, a) ∷ ys) (Represents-IsValid keys r) in
        let fresh = All-append (λ c. c.0 ≢ i) xs ys apart.not_before apart.not_behind in
        let valid = All-append (λ c. c.0 ≢ no_link) xs ys v v' in
        let (sl₂, ran₂, l₂, off₂) =
          push_head-Linked s i a (xs ++ ys) sl₁ fresh apart.rest valid here l₁ in
        (
          sl₂,
          rw ran₁ ran₂,
          l₂,
          λ j g at.
              let out = Fresh-of_free s.slots no_link old no_link j at r.chain in
              let (f₁, (f₂, f₃)) = All-split (λ c. c.0 ≢ j) xs ((i, a) ∷ ys) out in
              off₂.same j (f₂, All-append (λ c. c.0 ≢ j) xs ys f₁ f₃) ∙ off₁.same j out,
          off₂.size ∙ off₁.size,
        )

    front : (zs : Cells K V) → Fresh i zs → first zs i ≡ i → zs ≡ []
    front [] f h = refl
    front (z ∷ zs) (n, f) h = absurd (n h)

    in_front :
        {s : Inner K V} {frees : List ℕ} → Represents keys s old frees → s.head ≡ i → old ≡ moved
    in_front {s} r h =
        let apart = IsDistinct-Apart xs (i, a) ys r.distinct in
        let q =
          front xs apart.not_before
            (sym (first-append xs ((i, a) ∷ ys) no_link) ∙ sym r.head ∙ h) in
        ap (λ zs. zs ++ (i, a) ∷ ys) q ∙ sym (ap (λ zs. (i, a) ∷ zs ++ ys) q)

    KeysApart-moved : HasDistinctKeys keys old → HasDistinctKeys keys moved
    KeysApart-moved d =
        let apart = HasDistinctKeys-KeysApart keys xs (i, a) ys d in
        (
          All-append (λ c. keys.eq c.1.key a.key ≡ false) xs ys apart.not_before apart.not_behind,
          apart.rest,
        )

    -- A cell is moved to the front.
    pub move_to_head-Leaves :
        {s : Inner K V} {frees : List ℕ}
        → Represents keys s old frees
        → Leaves keys s (move_to_head i s) moved
    unfolding move_to_head
    move_to_head-Leaves {s} {frees} r = elim (Bool-cases (s.head == i)) [
      | inl h ↦ (
        s,
        frees,
        rw h refl,
        subst (λ cs. Represents keys s cs frees) (in_front r ((==_iff s.head i).0 h)) r,
        SameLimits-refl s,
      )
      | inr h ↦
          let (sl, ran, l, unmoved, size) = pushed r in
          let apart = IsDistinct-Apart xs (i, a) ys r.distinct in
          let lens = length-append {0} xs ((i, a) ∷ ys) in
          let lens' = length-append {0} xs ys in
          (
            linked s sl i (last no_link moved),
            frees,
            rw h ran,
            record {
              chain = l;
              head = refl;
              tail = refl;
              distinct =
                  (All-append (λ c. c.0 ≢ i) xs ys apart.not_before apart.not_behind, apart.rest);
              keys_distinct = KeysApart-moved r.keys_distinct;
              free_list = FreeList-frame s.slots sl s.free_head frees unmoved r.free_list;
              slot_of = λ k. r.slot_of k ∙ index_of-moved r.keys_distinct k;
              unique = r.unique;
              count = omega (arith, r.count, lens, lens');
              bytes =
                  omega (arith, r.bytes, bytes_of-append xs ((i, a) ∷ ys), bytes_of-append xs ys);
              size = omega (arith, size, r.size, lens, lens');
              room = omega (arith, size, r.room);
              small = r.small;
            },
            record { capacity = refl; max_bytes = refl; serve_stale_secs = refl },
          )
    ]
