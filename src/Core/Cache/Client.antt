-- ===== src/Core/Cache/Client.antt =====
-- `Cache::get` and `Cache::insert` of crates/core/src/cache.rs, under the lock that they take, with
-- the client's calls one after another. `to_vec` gives the length of the wire form of a response,
-- which hickory-proto encodes.
pub mod Runs
pub mod History
pub mod Limits
use sumidero.Prelude.{
  ℕ, ◌+◌, ◌*◌, Option, none, some, List, [], ◌∷◌, if◌then◌else◌, get_elem?, ◌>>=◌,
}
use sumidero.Core.HashMap
use sumidero.Core.HashMap.{HashKey}
use sumidero.Core.Cache.Entry.{Message, Entry, Lookup, new_entry, is_expired, served}
use sumidero.Core.Cache.Slab.{Slot, occupied, free, Inner, remove, move_to_head, store}

abbrev pub bytes_slop_factor : ℕ
bytes_slop_factor = 2

abbrev pub entry_overhead_bytes : ℕ
entry_overhead_bytes = 512

abbrev pub fallback_wire_bytes : ℕ
fallback_wire_bytes = 4096

pub data Call (K D : Type 0) : Type 0 where
  get : K → ℕ → Call K D
  insert : K → Message D → ℕ → Call K D

module _ {K D : Type 0} where
  -- What `get` reads of a slot that was moved to the front.
  unfoldable pub read_slot : Slot K (Entry D) → ℕ → Lookup D
  unfolding served
  read_slot (free _) now = Lookup.miss
  read_slot (occupied n) now = served n.entry now

  module _ (keys : HashKey K) where
    -- `Cache::get`, once the slot's index is known.
    unfoldable pub get_at : ℕ → ℕ → Inner K (Entry D) → Option (Inner K (Entry D) × Lookup D)
    unfolding read_slot is_expired remove move_to_head
    get_at idx now s = elim (get_elem? s.slots idx) [
      | none ↦ none
      | some (free _) ↦ some (s, Lookup.miss)
      | some (occupied n) ↦
          let removed : Option (Inner K (Entry D) × Lookup D) = do
            s ← remove keys idx s
            some (s, Lookup.miss)
          in let moved : Option (Inner K (Entry D) × Lookup D) = do
            s ← move_to_head idx s
            slot ← get_elem? s.slots idx
            some (s, read_slot slot now)
            in if is_expired s.serve_stale_secs n.entry now then removed else moved
    ]

    unfoldable pub get_response : K → ℕ → Inner K (Entry D) → Option (Inner K (Entry D) × Lookup D)
    unfolding get_at HashMap.get
    get_response key now s = elim (HashMap.get keys s.slot_of key) [
      | none ↦ some (s, Lookup.miss)
      | some idx ↦ get_at idx now s
    ]

    module _ (soa_minimum : D → Option ℕ) (to_vec : Message D → Option ℕ) where
      -- The estimated size of an entry in memory.
      abbrev pub estimated_bytes : Message D → ℕ
      estimated_bytes msg =
          elim (to_vec msg) [ none ↦ fallback_wire_bytes | some n ↦ n ] * bytes_slop_factor
          + entry_overhead_bytes

      unfoldable pub insert_response :
          K → Message D → ℕ → Inner K (Entry D) → Option (Inner K (Entry D))
      unfolding new_entry store
      insert_response key msg now s = elim (new_entry soa_minimum msg now) [
        | none ↦ some s
        | some entry ↦ store keys key entry (estimated_bytes msg) s
      ]

      -- One call, and what it answers.
      unfoldable pub call :
          Call K D → Inner K (Entry D) → Option (Inner K (Entry D) × Option (Lookup D))
      unfolding get_response insert_response
      call (Call.get key now) s = do (s, answer) ← get_response key now s; some (s, some answer)
      call (Call.insert key msg now) s = do s ← insert_response key msg now s; some (s, none)

      unfoldable pub run :
          List (Call K D)
          → Inner K (Entry D)
          → Option (Inner K (Entry D) × List (Option (Lookup D)))
      unfolding call
      run [] s = some (s, [])
      run (c ∷ cs) s = do
        (s, answer) ← call c s
        (s, answers) ← run cs s
        some (s, answer ∷ answers)
