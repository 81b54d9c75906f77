-- ===== src/Core/Tests/Slots.antt =====
-- Calls of a client that fill a small cache, and the theorems about it.
use sumidero.Prelude.{
  ℕ, ◌≡◌, ◌≤◌, refl, ◌⊎◌, Option, some, List, [], ◌∷◌, length, ◌==◌, ==_iff, arith,
}
use sumidero.Core.HashMap.{HashKey}
use sumidero.Core.Cache.Entry.{Message, Entry, Lookup, new_entry, is_expired, answer_of}
use sumidero.Core.Cache.Slab.{Inner, with_limits, len}
use sumidero.Core.Cache.Client.{Call, get_response, insert_response, run}
use sumidero.Core.Cache.Client.History.{model_run, run-refines}
use sumidero.Core.Cache.Slab.Eviction.{fit}
use sumidero.Core.Cache.Client.Limits.{run-within_limits, get_response-insert_response}
use sumidero.Core.Tests.Responses.{soa, response, entry, stored}

abbrev pub numbers : HashKey ℕ
numbers = record { eq = λ a b. a == b; eq_iff = ==_iff }

-- A wire form of 100 bytes, which counts as 712.
abbrev pub to_vec : Message (Option ℕ) → Option ℕ
to_vec msg = some 100

abbrev pub calls : List (Call ℕ (Option ℕ))
calls =
    Call.insert 1 response 5
    ∷ Call.insert 2 response 5
    ∷ Call.get 1 10000000005
    ∷ Call.insert 3 response 5
    ∷ Call.get 2 10000000005
    ∷ Call.insert 1 response 6
    ∷ []

-- Of three keys two are held, and the one that was not used makes way.
two_held : length (model_run numbers soa to_vec 2 4000 100 calls []).0 ≡ 2
unfolding model_run new_entry fit is_expired
two_held = refl

run-refines_example :
    (s s' : Inner ℕ (Entry (Option ℕ))) × (with_limits 1000 2 4000 100 ≡ some s)
    × (run numbers soa to_vec calls s
        ≡ some (s', (model_run numbers soa to_vec 2 4000 100 calls []).1))
    × (len s' ≡ length (model_run numbers soa to_vec 2 4000 100 calls []).0)
run-refines_example =
    run-refines numbers soa to_vec 1000 2 4000 100 calls (omega arith) (omega arith) (omega arith)
      (omega arith)

run-within_limits_example :
    (s s' : Inner ℕ (Entry (Option ℕ))) × (answers : List (Option (Lookup (Option ℕ))))
    × (with_limits 1000 2 1000 100 ≡ some s)
    × (run numbers soa to_vec calls s ≡ some (s', answers))
    × (len s' ≤ 2)
    × (length s'.slots ≤ 2)
    × ((s'.bytes_total ≤ 1000) ⊎ (len s' ≤ 1))
run-within_limits_example =
    run-within_limits numbers soa to_vec 1000 2 1000 100 calls (omega arith) (omega arith)
      (omega arith) (omega arith)

get_response-insert_response_example :
    (s s₁ s₂ s₃ : Inner ℕ (Entry (Option ℕ))) × (answers : List (Option (Lookup (Option ℕ))))
    × (with_limits 1000 2 500 100 ≡ some s)
    × (run numbers soa to_vec calls s ≡ some (s₁, answers))
    × (insert_response numbers soa to_vec 4 response 5 s₁ ≡ some s₂)
    × (get_response numbers 4 10000000005 s₂ ≡ some (s₃, answer_of 100 entry 10000000005))
get_response-insert_response_example =
    get_response-insert_response numbers soa to_vec 1000 2 500 100 calls 4 response 5 10000000005
      (omega arith) (omega arith) (omega arith) (omega arith) stored
