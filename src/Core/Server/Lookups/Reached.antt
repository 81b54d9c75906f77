-- ===== src/Core/Server/Lookups/Reached.antt =====
-- Every state that steps lead to.
use sumidero.Prelude.{sym, subst, inl, inr, Option-cases}
use sumidero.Core.HashMap
use sumidero.Core.HashMap.{HashKey}
use sumidero.Core.Server.Lookups.{Lookups, Step, missed, ended, published, Steps, stay, next}
use sumidero.Core.Server.Lookups.Invariant.{
  IsLed, miss-joined, miss-leading, joined-IsLed, leading-IsLed,
}
use sumidero.Core.Server.Lookups.Ends.{
  drop_cleanup-cleaned, publish-over, cleaned-IsLed, over-IsLed,
}

module _ {K A C : Type 0} (keys : HashKey K) where
  pub Step-IsLed : {s s' : Lookups K A C} → Step keys s s' → IsLed keys s → IsLed keys s'
  Step-IsLed (missed key client {s}) i = elim (Option-cases (HashMap.get keys s.lookups key)) [
    | inl h ↦
        subst (IsLed keys) (sym (miss-leading keys key client s h))
          (leading-IsLed keys s key client h i)
    | inr (ch, h) ↦
        subst (IsLed keys) (sym (miss-joined keys key client s ch h))
          (joined-IsLed keys s client key ch h i)
  ]
  Step-IsLed (ended ch e {s} h) i =
      let (t, q, p, r) = drop_cleanup-cleaned keys ch e s h in
      subst (IsLed keys) (sym r) (cleaned-IsLed keys s ch e t q p i)
  Step-IsLed (published ch {s} h) i =
      let (t, e, q, p, r) = publish-over keys ch s h in
      subst (IsLed keys) (sym r) (over-IsLed keys s ch e t q p i)

  pub Steps-IsLed : {s s' : Lookups K A C} → Steps keys s s' → IsLed keys s → IsLed keys s'
  Steps-IsLed stay i = i
  Steps-IsLed (next h k) i = Step-IsLed k (Steps-IsLed h i)
