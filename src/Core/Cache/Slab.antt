-- ===== src/Core/Cache/Slab.antt =====
-- `Inner` of crates/core/src/cache.rs: slots in a vector, linked in the order of their last use, with
-- the free slots in a list of their own, and a map from keys to slots. `none` is a panic: an index
-- outside the vector, or byte accounting that drifted (`debug_assert!`, or a difference below 0).
-- Sums of bytes have no upper end.
pub mod Chain
pub mod Links
pub mod Keys
pub mod State
pub mod Removal
pub mod Eviction
pub mod Recency
pub mod Placement
pub mod Replacement
pub mod Model
pub mod Store
use sumidero.Prelude.{
  ℕ, zero, suc, ◌+◌, ◌*◌, ◌-◌, ◌^◌, Bool, ◌&&◌, Option, none, some, List, [], ◌∷◌, ◌++◌, length,
  get_elem?, set, leb, ltb, ◌==◌, if◌then◌else◌, expect, ◌>>=◌, ◌>>◌,
}
use sumidero.Core.HashMap
use sumidero.Core.HashMap.{HashKey, Entries}

-- `usize::MAX`: no link.
abbrev pub no_link : ℕ
no_link = 2 ^ 64 - 1

pub record Node (K V : Type 0) : Type 0 where
  pub key : K
  pub entry : V
  pub bytes : ℕ
  pub prev : ℕ
  pub next : ℕ

pub data Slot (K V : Type 0) : Type 0 where
  occupied : Node K V → Slot K V
  free : ℕ → Slot K V

pub record Inner (K V : Type 0) : Type 0 where
  pub slot_of : Entries K ℕ
  pub slots : List (Slot K V)
  pub head : ℕ
  pub tail : ℕ
  pub free_head : ℕ
  pub capacity : ℕ
  pub bytes_total : ℕ
  pub max_bytes : ℕ
  pub serve_stale_secs : ℕ

module _ {K V : Type 0} where
  abbrev pub new_inner : ℕ → ℕ → ℕ → Inner K V
  new_inner capacity max_bytes serve_stale_secs = record {
    slot_of = [];
    slots = [];
    head = no_link;
    tail = no_link;
    free_head = no_link;
    capacity = capacity;
    bytes_total = 0;
    max_bytes = max_bytes;
    serve_stale_secs = serve_stale_secs;
  }

  -- `Cache::with_limits`, whose two assertions ask for limits above 0. A map and a vector are made with
  -- the capacity, which panics above `tables`, the most that both can be made with.
  unfoldable pub with_limits : ℕ → ℕ → ℕ → ℕ → Option (Inner K V)
  with_limits tables capacity max_bytes serve_stale_secs = do
    expect (ltb 0 capacity)
    expect (ltb 0 max_bytes)
    expect (leb capacity tables)
    some (new_inner capacity max_bytes serve_stale_secs)

  abbrev pub with_prev : ℕ → Node K V → Node K V
  with_prev p n = record n { prev = p }

  abbrev pub with_next : ℕ → Node K V → Node K V
  with_next q n = record n { next = q }

  abbrev pub with_links : ℕ → ℕ → Node K V → Node K V
  with_links p q n = record n { prev = p; next = q }

  -- `if let Slot::Occupied(n) = &mut self.slots[i] { .. }`
  unfoldable pub update : (Node K V → Node K V) → ℕ → Inner K V → Option (Inner K V)
  update f i s = elim (get_elem? s.slots i) [
    | none ↦ none
    | some (occupied n) ↦ some (record s { slots = set s.slots i (occupied (f n)) })
    | some (free _) ↦ some s
  ]

  -- The neighbour before an unlinked node, or the head of the list, leads past it now.
  unfoldable pub join_next : ℕ → ℕ → Inner K V → Option (Inner K V)
  unfolding update
  join_next p q s = if p == no_link then some (record s { head = q }) else update (with_next q) p s

  unfoldable pub join_prev : ℕ → ℕ → Inner K V → Option (Inner K V)
  unfolding update
  join_prev p q s = if q == no_link then some (record s { tail = p }) else update (with_prev p) q s

  unfoldable pub unlink : ℕ → Inner K V → Option (Inner K V)
  unfolding join_next join_prev update
  unlink idx s = elim (get_elem? s.slots idx) [
    | none ↦ none
    | some (free _) ↦ some s
    | some (occupied n) ↦ do
      s ← join_next n.prev n.next s
      s ← join_prev n.prev n.next s
      update (with_links no_link no_link) idx s
  ]

  unfoldable pub push_head : ℕ → Inner K V → Option (Inner K V)
  unfolding update
  push_head idx s = do
    s ← update (with_links no_link s.head) idx s
    s ← if s.head == no_link then some s else update (with_prev idx) s.head s
    some (record s { head = idx; tail = if s.tail == no_link then idx else s.tail })

  unfoldable pub move_to_head : ℕ → Inner K V → Option (Inner K V)
  unfolding unlink push_head
  move_to_head idx s =
      let moved = do s ← unlink idx s; push_head idx s
      in if s.head == idx then some s else moved

  -- The slot that is taken, and the state with the node in it.
  unfoldable pub alloc_slot : Node K V → Inner K V → Option (Inner K V × ℕ)
  alloc_slot node s =
      let reused : Option (Inner K V × ℕ) = elim (get_elem? s.slots s.free_head) [
        | none ↦ none
        | some (occupied _) ↦
            some (record s { slots = set s.slots s.free_head (occupied node) }, s.free_head)
        | some (free next_free) ↦ some (
          record s { slots = set s.slots s.free_head (occupied node); free_head = next_free },
          s.free_head,
        )
      ] in
      if s.free_head == no_link
      then some (record s { slots = s.slots ++ occupied node ∷ [] }, length s.slots)
      else reused

  -- An entry takes the place of the one in its slot.
  unfoldable pub replace : ℕ → V → ℕ → Inner K V → Option (Inner K V)
  replace idx entry bytes s = elim (get_elem? s.slots idx) [
    | none ↦ none
    | some (free _) ↦ some s
    | some (occupied n) ↦ do
      expect (leb n.bytes s.bytes_total)
      some (record s {
        slots = set s.slots idx (occupied (record n { entry = entry; bytes = bytes }));
        bytes_total = s.bytes_total - n.bytes + bytes;
      })
  ]

  unfoldable pub len : Inner K V → ℕ
  len s = length s.slot_of

  module _ (keys : HashKey K) where
    -- What `remove` does with the node it unlinked.
    unfoldable pub forget : Slot K V → Inner K V → Option (Inner K V)
    forget (free _) s = some s
    forget (occupied n) s = do
      expect (leb n.bytes s.bytes_total)
      some (record s {
        bytes_total = s.bytes_total - n.bytes;
        slot_of = HashMap.remove keys s.slot_of n.key;
      })

    unfoldable pub remove : ℕ → Inner K V → Option (Inner K V)
    unfolding unlink forget HashMap.remove
    remove idx s = do
      s ← unlink idx s
      slot ← get_elem? s.slots idx
      s ← forget slot s
      some (record s { slots = set s.slots idx (free s.free_head); free_head = idx })

    unfoldable pub evict_tail : Inner K V → Option (Inner K V)
    unfolding remove
    evict_tail s = if s.tail == no_link then some s else remove s.tail s

    -- The loop of `evict_to_byte_budget`, on at most `n` rounds.
    unfoldable pub evict_loop : ℕ → Inner K V → Option (Inner K V)
    unfolding evict_tail
    evict_loop zero s = some s
    evict_loop (suc n) s =
        let evicted = do s ← evict_tail s; evict_loop n s
        in if ltb s.max_bytes s.bytes_total && ltb 1 (length s.slot_of) then evicted else some s

    unfoldable pub evict_to_byte_budget : Inner K V → Option (Inner K V)
    unfolding evict_loop
    evict_to_byte_budget s = evict_loop (length s.slot_of) s

    unfoldable pub store_known : ℕ → V → ℕ → Inner K V → Option (Inner K V)
    unfolding replace move_to_head evict_to_byte_budget
    store_known idx entry bytes s = do
      s ← replace idx entry bytes s
      s ← move_to_head idx s
      evict_to_byte_budget s

    -- A new entry takes a slot, and is the first one.
    unfoldable pub place_entry : K → V → ℕ → Inner K V → Option (Inner K V)
    unfolding alloc_slot push_head HashMap.insert
    place_entry key entry bytes s = do
      (s, idx) ←
          alloc_slot
            (record { key = key; entry = entry; bytes = bytes; prev = no_link; next = no_link }) s
      s ← push_head idx (record s { slot_of = HashMap.insert keys s.slot_of key idx })
      some (record s { bytes_total = s.bytes_total + bytes })

    unfoldable pub store_fresh : K → V → ℕ → Inner K V → Option (Inner K V)
    unfolding evict_tail place_entry evict_to_byte_budget
    store_fresh key entry bytes s = do
      s ← if leb s.capacity (length s.slot_of) then evict_tail s else some s
      s ← place_entry key entry bytes s
      evict_to_byte_budget s

    -- `Cache::insert`, from the lock on.
    unfoldable pub store : K → V → ℕ → Inner K V → Option (Inner K V)
    unfolding store_known store_fresh HashMap.get
    store key entry bytes s = elim (HashMap.get keys s.slot_of key) [
      | some idx ↦ store_known idx entry bytes s
      | none ↦ store_fresh key entry bytes s
    ]
