-- ===== src/Core/FailureCache.antt =====
-- crates/core/src/failcache.rs: a name that could not be resolved is held down, for longer after each
-- failure. Instants and durations are nanoseconds, without the end of their range; the lock around
-- the map makes each method one step.
pub mod Bounds
pub mod Holds
pub mod Streaks
use sumidero.Prelude.{
  ℕ, ◌+◌, ◌-◌, ◌*◌, min, Bool, not, ◌&&◌, Option, none, some, List, [], ◌∷◌, length, leb, ltb, ◌==◌,
  if◌then◌else◌, ◌>>=◌,
}
use sumidero.Core.HashMap.{HashKey, Entries, get, contains_key, remove, insert, retain}

abbrev pub first_hold : ℕ
first_hold = 5000000000

abbrev pub max_hold : ℕ
max_hold = 60000000000

abbrev pub max_keys : ℕ
max_keys = 4096

pub record Failure : Type 0 where
  pub until : ℕ
  pub hold : ℕ

pub record FailureCache (K : Type 0) : Type 0 where
  pub inner : Entries K Failure

-- `until.checked_duration_since(now)`
abbrev pub checked_duration_since : ℕ → ℕ → Option ℕ
checked_duration_since until now = if leb now until then some (until - now) else none

-- The hold after the previous failure, if one is known.
unfoldable pub next_hold : Option Failure → ℕ → ℕ
next_hold none now = first_hold
next_hold (some prev) now =
    if ltb now (prev.until + max_hold) then min (prev.hold * 2) max_hold else first_hold

module _ {K : Type 0} where
  abbrev pub new : FailureCache K
  new = record { inner = [] }

  -- `min_by_key(until)`: the first entry with the least end.
  unfoldable pub oldest : Entries K Failure → Option (K × Failure)
  oldest [] = none
  oldest (e ∷ m) = elim (oldest m) [
    | none ↦ some e
    | some f ↦ if leb e.1.until f.1.until then some e else some f
  ]

  unfoldable pub len : FailureCache K → ℕ
  len fc = length fc.inner

  unfoldable pub is_empty : FailureCache K → Bool
  unfolding len
  is_empty fc = len fc == 0

module _ {K : Type 0} (keys : HashKey K) where
  unfoldable pub held : FailureCache K → K → ℕ → Option ℕ
  unfolding get
  held fc k now = do
    f ← get keys fc.inner k
    left ← checked_duration_since f.until now
    if left == 0 then none else some left

  unfoldable pub drop_oldest : Entries K Failure → Entries K Failure
  unfolding oldest remove
  drop_oldest m = elim (oldest m) [ none ↦ m | some e ↦ remove keys m e.0 ]

  -- The keys that are idle for longer than `max_hold` go, and otherwise the oldest hold.
  abbrev pub pruned : Entries K Failure → ℕ → Entries K Failure
  pruned m now =
      let kept = retain (λ f. ltb now (f.until + max_hold)) m in
      if leb max_keys (length kept) then drop_oldest kept else kept

  -- Room for a key that is not tracked yet.
  unfoldable pub make_room : Entries K Failure → K → ℕ → Entries K Failure
  unfolding contains_key retain drop_oldest
  make_room m k now =
      if leb max_keys (length m) && not (contains_key keys m k) then pruned m now else m

  -- `record`: the cache after the failure, and the hold that it applies.
  unfoldable pub record_failure : FailureCache K → K → ℕ → FailureCache K × ℕ
  unfolding get next_hold make_room insert
  record_failure fc k now =
      let hold = next_hold (get keys fc.inner k) now in
      (
        record {
          inner =
              insert keys (make_room fc.inner k now) k (record { until = now + hold; hold = hold });
        },
        hold,
      )

  unfoldable pub clear : FailureCache K → K → FailureCache K
  unfolding remove
  clear fc k = record { inner = remove keys fc.inner k }
