-- ===== src/Core/Server/Lookups.antt =====
-- `Pipeline::resolve_shared`, `RemoveOnDrop` and the task of a leader, in crates/core/src/server.rs:
-- concurrent misses of one key share one lookup. The tasks and the clients run side by side; a step
-- is what happens under the lock of the map or on a channel. A channel is a number, the first one not
-- used yet for a new leader.
pub mod Tasks
pub mod Invariant
pub mod Ends
pub mod Reached
pub mod Answers
use sumidero.Prelude.{
  ℕ, suc, ◌+◌, ◌≡◌, Bool, true, false, not, Option, none, some, List, [], ◌∷◌, ◌++◌, map, ◌==◌,
  if◌then◌else◌, ◌>>=◌,
}
use sumidero.Core.HashMap
use sumidero.Core.HashMap.{HashKey, Entries}

-- How the task of a leader ends: with an answer, with an upstream error, or with a panic.
pub data Ended (A : Type 0) : Type 0 where
  answered : A → Ended A
  failed died : Ended A

-- `drop(cleanup)` comes before `tx.send(answer)`; in between the key is free.
pub data Phase (A : Type 0) : Type 0 where
  resolving : Phase A
  dropped : Ended A → Phase A

pub record Task (K A : Type 0) : Type 0 where
  pub key : K
  pub channel : ℕ
  pub phase : Phase A

pub record Lookups (K A C : Type 0) : Type 0 where
  pub lookups : Entries K ℕ
  pub tasks : List (Task K A)
  pub waiting : List (C × ℕ)
  pub received : List (C × Option A)
  pub channels : ℕ

-- What `rx.recv()` gives: `Ok(None)` and `Err(_)` are both answered with SERVFAIL.
abbrev pub reply : {A : Type 0} → Ended A → Option A
reply (answered a) = some a
reply failed = none
reply died = none

module _ {K A : Type 0} where
  abbrev pub find_task : ℕ → List (Task K A) → Option (Task K A)
  find_task ch [] = none
  find_task ch (t ∷ ts) = if t.channel == ch then some t else find_task ch ts

  abbrev pub with_phase : ℕ → Phase A → Task K A → Task K A
  with_phase ch p t = if t.channel == ch then record t { phase = p } else t

  abbrev pub without_task : ℕ → List (Task K A) → List (Task K A)
  without_task ch [] = []
  without_task ch (t ∷ ts) = if t.channel == ch then without_task ch ts else t ∷ without_task ch ts

module _ {C : Type 0} where
  abbrev pub still_waiting : ℕ → List (C × ℕ) → List (C × ℕ)
  still_waiting ch [] = []
  still_waiting ch (w ∷ ws) = if w.1 == ch then still_waiting ch ws else w ∷ still_waiting ch ws

  abbrev pub delivered : {A : Type 0} → ℕ → Option A → List (C × ℕ) → List (C × Option A)
  delivered ch o [] = []
  delivered ch o (w ∷ ws) = if w.1 == ch then (w.0, o) ∷ delivered ch o ws else delivered ch o ws

module _ {K A C : Type 0} where
  abbrev pub no_lookups : Lookups K A C
  no_lookups = record { lookups = []; tasks = []; waiting = []; received = []; channels = 0 }

  -- `tx.send(answer)`, or the end of the channel where the task panicked; the task is over.
  unfoldable pub publish : ℕ → Lookups K A C → Option (Lookups K A C)
  publish ch s = elim (find_task ch s.tasks) [
    | none ↦ none
    | some t ↦ elim t.phase [
      | resolving ↦ none
      | dropped e ↦ some (record s {
        tasks = without_task ch s.tasks;
        waiting = still_waiting ch s.waiting;
        received = delivered ch (reply e) s.waiting ++ s.received;
      })
    ]
  ]

  module _ (keys : HashKey K) where
    -- A miss subscribes to the lookup of its key, or leads a new one.
    unfoldable pub miss : K → C → Lookups K A C → Lookups K A C
    unfolding HashMap.get HashMap.insert
    miss key client s = elim (HashMap.get keys s.lookups key) [
      | some ch ↦ record s { waiting = (client, ch) ∷ s.waiting }
      | none ↦ record s {
        lookups = HashMap.insert keys s.lookups key s.channels;
        tasks = record { key = key; channel = s.channels; phase = resolving } ∷ s.tasks;
        waiting = (client, s.channels) ∷ s.waiting;
        channels = s.channels + 1;
      }
    ]

    -- The upstream lookup of a task ends, and its guard removes the key from the map.
    unfoldable pub drop_cleanup : ℕ → Ended A → Lookups K A C → Option (Lookups K A C)
    unfolding HashMap.remove
    drop_cleanup ch e s = elim (find_task ch s.tasks) [
      | none ↦ none
      | some t ↦ elim t.phase [
        | dropped _ ↦ none
        | resolving ↦ some (record s {
          lookups = HashMap.remove keys s.lookups t.key;
          tasks = map (with_phase ch (dropped e)) s.tasks;
        })
      ]
    ]

    -- A step of a client or of a task.
    pub data Step : Lookups K A C → Lookups K A C → Type 0 where
      missed : (key : K) (client : C) {s : Lookups K A C} → Step s (miss key client s)
      ended :
          (ch : ℕ) (e : Ended A) {s s' : Lookups K A C} → drop_cleanup ch e s ≡ some s' → Step s s'
      published : (ch : ℕ) {s s' : Lookups K A C} → publish ch s ≡ some s' → Step s s'

    -- The states that steps lead to.
    pub data Steps : Lookups K A C → Lookups K A C → Type 0 where
      stay : {s : Lookups K A C} → Steps s s
      next : {s t u : Lookups K A C} → Steps s t → Step t u → Steps s u
