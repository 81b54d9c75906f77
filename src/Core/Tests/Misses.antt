-- ===== src/Core/Tests/Misses.antt =====
-- Three clients that miss, and the theorems about their lookups.
use sumidero.Prelude.{ℕ, ◌≡◌, ◌==◌, if◌then◌else◌, refl, inl, inr, [], ◌∷◌}
use sumidero.Core.Server.Lookups.{
  Ended, answered, failed, resolving, Task, Lookups, no_lookups, miss, Steps, stay, next, missed,
}
use sumidero.Core.Server.Lookups.Answers.{IsAnswered, Steps-one_lookup, Steps-settle}
use sumidero.Core.Tests.Slots.{numbers}

-- Two clients miss one key, and a third another.
abbrev busy : Lookups ℕ ℕ ℕ
busy = record {
  lookups = (8, 1) ∷ (7, 0) ∷ [];
  tasks =
      record { key = 8; channel = 1; phase = resolving }
      ∷ record { key = 7; channel = 0; phase = resolving }
      ∷ [];
  waiting = (30, 1) ∷ (20, 0) ∷ (10, 0) ∷ [];
  received = [];
  channels = 2;
}

three_misses : miss numbers 8 30 (miss numbers 7 20 (miss numbers 7 10 no_lookups)) ≡ busy
unfolding miss
three_misses = refl

misses : Steps numbers no_lookups busy
unfolding miss
misses = next (next (next stay (missed 7 10)) (missed 7 20)) (missed 8 30)

abbrev second : Task ℕ ℕ
second = record { key = 7; channel = 0; phase = resolving }

Steps-one_lookup_example : second ≡ second
Steps-one_lookup_example =
    Steps-one_lookup numbers second second misses (inr (inl refl)) (inr (inl refl)) refl refl refl

abbrev outcome : ℕ → Ended ℕ
outcome ch = if ch == 0 then answered 99 else failed

Steps-settle_example :
    (s' : Lookups ℕ ℕ ℕ) × Steps numbers busy s'
    × (s'.waiting ≡ [])
    × (s'.tasks ≡ [])
    × IsAnswered numbers outcome busy s'
Steps-settle_example = Steps-settle numbers outcome misses
