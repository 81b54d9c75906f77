-- ===== src/Core/Config/Start.antt =====
-- The parts that a configuration starts.
use sumidero.Prelude.{
  ℕ, inl, inr, ◌<◌, ◌≡◌, ◌≤◌, refl, sym, ◌∙◌, ◌↔◌, Bool-cases, leb, le→leb, lt→ltb, some, some≢none,
  arith, ok,
}
use sumidero.Core.SafeSearch.{SafeSearch, new_table}
use sumidero.Core.SafeSearch.Tables.{new_table-built}
use sumidero.Core.Cache.Slab.{new_inner, with_limits}
use sumidero.Core.Config.{Config, default_max_bytes, validate}
use sumidero.Core.Config.Validation.{validate_iff}

with_limits_iff :
    (K V : Type 0) (tables capacity max_bytes serve_stale_secs : ℕ)
    → 0 < capacity
    → 0 < max_bytes
    → (with_limits tables capacity max_bytes serve_stale_secs
        ≡ some (new_inner {K = K} {V = V} capacity max_bytes serve_stale_secs))
      ↔ (capacity ≤ tables)
unfolding with_limits
with_limits_iff K V tables capacity max_bytes serve_stale_secs positive budget =
    elim (Bool-cases (leb capacity tables)) [
      | inl y ↦ (
        λ _. ground (arith, y),
        λ _. rw (lt→ltb 0 capacity positive, lt→ltb 0 max_bytes budget, y) refl,
      )
      | inr n ↦ (
        λ made. absurd (
            some≢none
              (sym made ∙ rw (lt→ltb 0 capacity positive, lt→ltb 0 max_bytes budget, n) refl)),
        λ fits.
            rw (lt→ltb 0 capacity positive, lt→ltb 0 max_bytes budget, le→leb capacity tables fits)
              refl,
      )
    ]

module _ {S N I : Type 0} (K V : Type 0) where
  -- With a configuration that passes validation the safe search table is built without an error, and
  -- the response cache is made without a panic, new and with the limits that the configuration asks
  -- for, exactly when its number of entries is one that the standard library's tables can have.
  pub validate-started :
      (tables : ℕ) (c : Config S N I)
      → validate c ≡ ok tt
      → (t : SafeSearch) × (new_table c.safe_search.enabled c.safe_search.providers ≡ ok t)
        × ((with_limits tables c.cache.max_entries default_max_bytes c.cache.serve_stale_secs
              ≡ some (
                  new_inner {K = K} {V = V} c.cache.max_entries default_max_bytes
                    c.cache.serve_stale_secs))
            ↔ (c.cache.max_entries ≤ tables))
  validate-started tables c h =
      let v = (validate_iff c).0 h in
      let (t, built) = new_table-built c.safe_search.enabled c.safe_search.providers v.providers in
      (
        t,
        built,
        with_limits_iff K V tables c.cache.max_entries default_max_bytes c.cache.serve_stale_secs
            v.cache.0 (omega arith),
      )
