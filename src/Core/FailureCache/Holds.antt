-- ===== src/Core/FailureCache/Holds.antt =====
-- What is held down after a failure and after a success.
use sumidero.Prelude.{
  ℕ, ◌+◌, ◌-◌, ◌≡◌, ◌≤◌, ◌<◌, refl, ◌⊎◌, inl, inr, true, false, none, some, length, arith,
}
use sumidero.Core.HashMap.{HashKey, get, contains_key}
use sumidero.Core.HashMap.Laws.{
  get-insert_same, get-insert_other, get-remove_same, get-remove_other,
}
use sumidero.Core.FailureCache.{FailureCache, max_keys, make_room, held, record_failure, clear}

module _ {K : Type 0} (keys : HashKey K) (fc : FailureCache K) (k : K) where
  abbrev failed : ℕ → FailureCache K
  failed now = (record_failure keys fc k now).0

  abbrev hold_at : ℕ → ℕ
  hold_at now = (record_failure keys fc k now).1

  pub get-record_failure :
      (now : ℕ)
      → get keys (record_failure keys fc k now).0.inner k
        ≡ some (record { until = now + hold_at now; hold = hold_at now })
  unfolding record_failure
  get-record_failure now = get-insert_same keys (make_room keys fc.inner k now) k _

  -- After a failure the key is held for exactly the hold that the failure applied: before its end
  -- with the time that is left, and no longer from its end on.
  pub held-record_failure :
      (now t : ℕ)
      → (t < now + hold_at now → held keys (failed now) k t ≡ some (now + hold_at now - t))
        × (now + hold_at now ≤ t → held keys (failed now) k t ≡ none)
  unfolding held
  held-record_failure now t = (
    λ h. rw (get-record_failure now) (ground arith),
    λ h. rw (get-record_failure now) (ground arith),
  )

  make_room-kept :
      (now : ℕ)
      → (contains_key keys fc.inner k ≡ true) ⊎ (length fc.inner < max_keys)
      → make_room keys fc.inner k now ≡ fc.inner
  unfolding make_room
  make_room-kept now (inl c) = ground arith
  make_room-kept now (inr c) = ground arith

  -- While the key is tracked or there is room, a failure changes no other key.
  pub held-record_failure_other :
      (now t : ℕ) (k' : K)
      → keys.eq k k' ≡ false
      → (contains_key keys fc.inner k ≡ true) ⊎ (length fc.inner < max_keys)
      → held keys (failed now) k' t ≡ held keys fc k' t
  unfolding held record_failure
  held-record_failure_other now t k' h room =
      let same : make_room keys fc.inner k now ≡ fc.inner = make_room-kept now room in
      rw
        (
          get-insert_other keys (make_room keys fc.inner k now) k k'
              (record { until = now + hold_at now; hold = hold_at now }) h,
          same,
        )
        refl

  -- A cleared key is not held, and no other key changes.
  pub held-clear :
      (t : ℕ)
      → (held keys (clear keys fc k) k t ≡ none)
        × ((k' : K) → keys.eq k k' ≡ false → held keys (clear keys fc k) k' t ≡ held keys fc k' t)
  unfolding held clear
  held-clear t = (
    rw (get-remove_same keys fc.inner k) refl,
    λ k' h. rw (get-remove_other keys fc.inner k k' h) refl,
  )
