-- ===== src/Core/Cache/Slab/State.antt =====
-- The slots, the free list, the map and the sum of bytes of a cache, for its cells.
use sumidero.Prelude.{
  ℕ, ◌+◌, ◌≡◌, ◌≢◌, ◌≤◌, refl, sym, ap, ap₂, ◌∙◌, some, List, [], ◌∷◌, ◌++◌, All, length, get_elem?,
  get_elem?-bound, arith,
}
use sumidero.Core.HashMap
use sumidero.Core.HashMap.{HashKey}
use sumidero.Core.HashMap.Unique.{IsUnique}
use sumidero.Core.Cache.Slab.{Node, Slot, occupied, free, Inner, no_link}
use sumidero.Core.Cache.Slab.Chain.{Cells, first, last, Linked, Fresh, IsDistinct}
use sumidero.Core.Cache.Slab.Links.{IsValid, linked}
use sumidero.Core.Cache.Slab.Keys.{index_of, HasDistinctKeys}

module _ {K V : Type 0} where
  -- The free slots, in the order in which they are taken again.
  abbrev pub FreeList : List (Slot K V) → ℕ → List ℕ → Type 0
  FreeList sl f [] = f ≡ no_link
  FreeList sl f (j ∷ js) =
      (f ≡ j) × (g : ℕ) × (get_elem? sl j ≡ some (free g)) × All (λ k. k ≢ j) js × FreeList sl g js

  abbrev pub bytes_of : Cells K V → ℕ
  bytes_of [] = 0
  bytes_of (c ∷ cs) = c.1.bytes + bytes_of cs

  pub bytes_of-append : (xs ys : Cells K V) → bytes_of (xs ++ ys) ≡ bytes_of xs + bytes_of ys
  bytes_of-append [] ys = omega arith
  bytes_of-append (x ∷ xs) ys = omega (arith, bytes_of-append xs ys)

  pub occupied≢free : {n : Node K V} {g : ℕ} → some (occupied n) ≡ some (free g) → ⊥
  occupied≢free h = ground arith

  -- A free slot is no cell's.
  pub Fresh-of_free :
      (sl : List (Slot K V)) (p : ℕ) (cs : Cells K V) (q j : ℕ) {g : ℕ}
      → get_elem? sl j ≡ some (free g)
      → Linked sl p cs q
      → Fresh j cs
  Fresh-of_free sl p [] q j h l = tt
  Fresh-of_free sl p (c ∷ cs) q j h (e, l) =
      (λ same. occupied≢free (sym e ∙ ap (get_elem? sl) same ∙ h), Fresh-of_free sl c.0 cs q j h l)

  -- The free list survives what happens to other slots.
  pub FreeList-frame :
      (sl sl' : List (Slot K V)) (f : ℕ) (js : List ℕ)
      → ((j g : ℕ) → get_elem? sl j ≡ some (free g) → get_elem? sl' j ≡ get_elem? sl j)
      → FreeList sl f js
      → FreeList sl' f js
  FreeList-frame sl sl' f [] h e = e
  FreeList-frame sl sl' f (j ∷ js) h (e, g, at, d, rest) =
      (e, g, h j g at ∙ at, d, FreeList-frame sl sl' g js h rest)

  pub FreeList-frame_ne :
      (sl sl' : List (Slot K V)) (i f : ℕ) (js : List ℕ)
      → All (λ k. k ≢ i) js
      → ((j g : ℕ) → j ≢ i → get_elem? sl j ≡ some (free g) → get_elem? sl' j ≡ get_elem? sl j)
      → FreeList sl f js
      → FreeList sl' f js
  FreeList-frame_ne sl sl' i f [] n h e = e
  FreeList-frame_ne sl sl' i f (j ∷ js) (n, ns) h (e, g, at, d, rest) =
      (e, g, h j g n at ∙ at, d, FreeList-frame_ne sl sl' i g js ns h rest)

  IsValid-of_small :
      (sl : List (Slot K V)) (p : ℕ) (cs : Cells K V) (q : ℕ)
      → length sl ≤ no_link
      → Linked sl p cs q
      → IsValid cs
  IsValid-of_small sl p [] q h l = tt
  IsValid-of_small sl p (c ∷ cs) q h (e, l) = (
    λ same. let lt = get_elem?-bound sl c.0 e in omega (arith, same, lt),
    IsValid-of_small sl c.0 cs q h l,
  )

  -- The limits of a cache do not change.
  pub record SameLimits (s s' : Inner K V) : Type 0 where
    pub capacity : s'.capacity ≡ s.capacity
    pub max_bytes : s'.max_bytes ≡ s.max_bytes
    pub serve_stale_secs : s'.serve_stale_secs ≡ s.serve_stale_secs

  pub SameLimits-refl : (s : Inner K V) → SameLimits s s
  SameLimits-refl s = record { capacity = refl; max_bytes = refl; serve_stale_secs = refl }

  pub SameLimits-trans : {a b c : Inner K V} → SameLimits a b → SameLimits b c → SameLimits a c
  SameLimits-trans h k = record {
    capacity = k.capacity ∙ h.capacity;
    max_bytes = k.max_bytes ∙ h.max_bytes;
    serve_stale_secs = k.serve_stale_secs ∙ h.serve_stale_secs;
  }

  module _ (keys : HashKey K) where
    pub record Represents (s : Inner K V) (cells : Cells K V) (frees : List ℕ) : Type 0 where
      pub chain : Linked s.slots no_link cells no_link
      pub head : s.head ≡ first cells no_link
      pub tail : s.tail ≡ last no_link cells
      pub distinct : IsDistinct cells
      pub keys_distinct : HasDistinctKeys keys cells
      pub free_list : FreeList s.slots s.free_head frees
      pub slot_of : (k : K) → HashMap.get keys s.slot_of k ≡ index_of keys cells k
      pub unique : IsUnique keys s.slot_of
      pub count : length s.slot_of ≡ length cells
      pub bytes : s.bytes_total ≡ bytes_of cells
      pub size : length s.slots ≡ length cells + length frees
      pub room : length s.slots ≤ s.capacity
      pub small : s.capacity ≤ no_link

    pub Represents-IsValid :
        {s : Inner K V} {cells : Cells K V} {frees : List ℕ}
        → Represents s cells frees
        → IsValid cells
    Represents-IsValid {s} {cells} r =
        IsValid-of_small s.slots no_link cells no_link (omega (arith, r.room, r.small)) r.chain

    pub Represents-linked :
        {s : Inner K V} {cells : Cells K V} {frees : List ℕ}
        → Represents s cells frees
        → s ≡ linked s s.slots (first cells no_link) (last no_link cells)
    Represents-linked {s} r = ap₂ (λ h t. linked s s.slots h t) r.head r.tail
