-- ===== src/Core/Tests/Failures.antt =====
-- Runs of the failure cache, with numbers for keys, and the theorems at small inputs.
use sumidero.Prelude.{
  ℕ, zero, suc, ◌+◌, ◌-◌, ◌*◌, ◌^◌, ◌≡◌, ◌≤◌, ◌<◌, refl, inr, false, none, some, List, [], ◌∷◌,
  ◌==◌, ==_iff, min, arith,
}
use sumidero.Core.HashMap.{HashKey}
use sumidero.Core.FailureCache.{
  FailureCache, new, first_hold, max_hold, held, record_failure, clear,
}
use sumidero.Core.FailureCache.Bounds.{IsValid, IsHold, record_failure-IsValid}
use sumidero.Core.FailureCache.Holds.{held-record_failure, held-record_failure_other, held-clear}
use sumidero.Core.FailureCache.Streaks.{Streak, Streak-hold}

abbrev number_key : HashKey ℕ
number_key = record { eq = ◌==◌; eq_iff = ==_iff }

abbrev once : FailureCache ℕ
once = (record_failure number_key new 7 100).0

-- Every failure comes when the hold before it ends.
holds_of : ℕ → FailureCache ℕ → ℕ → List ℕ
unfolding record_failure
holds_of zero fc now = []
holds_of (suc n) fc now =
    let (fc', h) = record_failure number_key fc 7 now in h ∷ holds_of n fc' (now + h)

backs_off :
    holds_of 6 new 100
    ≡ 5000000000 ∷ 10000000000 ∷ 20000000000 ∷ 40000000000 ∷ 60000000000 ∷ 60000000000 ∷ []
unfolding holds_of
backs_off = refl

new-IsValid : IsValid {K = ℕ} new
new-IsValid = record { few = omega arith; holds = tt }

record_failure-IsValid_example : IsValid once × IsHold (record_failure number_key new 7 100).1
record_failure-IsValid_example = record_failure-IsValid number_key new 7 100 new-IsValid

held-record_failure_example :
    (200 < 100 + (record_failure number_key new 7 100).1
      → held number_key once 7 200 ≡ some (100 + (record_failure number_key new 7 100).1 - 200))
    × (100 + (record_failure number_key new 7 100).1 ≤ 200 → held number_key once 7 200 ≡ none)
held-record_failure_example = held-record_failure number_key new 7 100 200

held-record_failure_other_example :
    held number_key (record_failure number_key once 8 150).0 7 200 ≡ held number_key once 7 200
unfolding record_failure
held-record_failure_other_example =
    held-record_failure_other number_key once 8 150 200 7 refl (inr (omega arith))

held-clear_example :
    (held number_key (clear number_key once 7) 7 200 ≡ none)
    × ((k' : ℕ)
        → (7 == k') ≡ false
        → held number_key (clear number_key once 7) k' 200 ≡ held number_key once k' 200)
held-clear_example = held-clear number_key once 7 200

second_time : Streak number_key 7 1 (record_failure number_key once 7 6000000000).0 10000000000
unfolding record_failure
second_time =
    Streak.again once 5000000000 6000000000 5000000100 (Streak.first new 100 refl refl) refl
      (omega arith) refl

Streak-hold_example : 10000000000 ≡ min (first_hold * 2 ^ 1) max_hold
Streak-hold_example =
    Streak-hold number_key 7 1 (record_failure number_key once 7 6000000000).0 10000000000
      second_time
