-- ===== src/Core/FailureCache/Streaks.antt =====
-- Consecutive failures double the hold up to its limit.
use sumidero.Prelude.{
  ℕ, zero, suc, ◌+◌, ◌*◌, ◌^◌, ◌≡◌, ◌<◌, sym, ap, ◌∙◌, min, none, some, lt→ltb, arith,
}
use sumidero.Core.HashMap.{HashKey, get}
use sumidero.Core.FailureCache.{FailureCache, first_hold, max_hold, next_hold, record_failure}

module _ {K : Type 0} (keys : HashKey K) (k : K) where
  -- The key failed once on an untracked key and then `n` more times, each within `max_hold` of the
  -- end of the hold before; `h` is the last hold.
  pub data Streak : ℕ → FailureCache K → ℕ → Type 0 where
    first :
        {fc' : FailureCache K} {h : ℕ} (fc : FailureCache K) (now : ℕ)
        → get keys fc.inner k ≡ none
        → record_failure keys fc k now ≡ (fc', h)
        → Streak zero fc' h
    again :
        {n : ℕ} {fc' : FailureCache K} {h : ℕ} (fc : FailureCache K) (g now until : ℕ)
        → Streak n fc g
        → get keys fc.inner k ≡ some (record { until = until; hold = g })
        → now < until + max_hold
        → record_failure keys fc k now ≡ (fc', h)
        → Streak (suc n) fc' h

  doubled :
      (n : ℕ)
      → min (min (first_hold * 2 ^ n) max_hold * 2) max_hold ≡ min (first_hold * 2 ^ suc n) max_hold
  doubled n = omega arith

  -- The hold after `n` repeated failures is the first hold doubled `n` times, up to the longest one.
  pub Streak-hold :
      (n : ℕ) (fc : FailureCache K) (h : ℕ) → Streak n fc h → h ≡ min (first_hold * 2 ^ n) max_hold
  unfolding record_failure next_hold
  Streak-hold zero fc h (first fc₀ now q e) = sym (ap (λ p. p.1) e) ∙ ap (λ o. next_hold o now) q
  Streak-hold (suc n) fc h (again fc₀ g now until s q lt e) =
      sym (ap (λ p. p.1) e)
      ∙ ap (λ o. next_hold o now) q
      ∙ rw (lt→ltb _ _ lt) (ap (λ x. min (x * 2) max_hold) (Streak-hold n fc₀ g s) ∙ doubled n)
