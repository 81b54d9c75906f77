-- ===== src/Prelude/Results.antt =====
-- `Result`: a value or an error.
use mathlib.Core.Path.{◌≡◌, refl, ap}
use mathlib.Core.Logic.{◌⊎◌, inl, inr}
use mathlib.Core.Bool.{Bool, true, false}

pub data Result (A E : Type 0) : Type 0 where
  ok : A → Result A E
  err : E → Result A E

module _ {A E : Type 0} where
  abbrev pub is_ok : Result A E → Bool
  is_ok (ok a) = true
  is_ok (err e) = false

  pub Result-cases : (c : Result A E) → ((a : A) × (c ≡ ok a)) ⊎ ((e : E) × (c ≡ err e))
  Result-cases (ok a) = inl (a, refl)
  Result-cases (err e) = inr (e, refl)

  pub ok-inj : {a b : A} → ◌≡◌ {A = Result A E} (ok a) (ok b) → a ≡ b
  ok-inj {a} h = ap (λ c. elim c [ ok x ↦ x | err e ↦ a ]) h

  pub err-inj : {e f : E} → ◌≡◌ {A = Result A E} (err e) (err f) → e ≡ f
  err-inj {e} h = ap (λ c. elim c [ ok x ↦ e | err x ↦ x ]) h

  pub err≢ok : {a : A} {e : E} → ◌≡◌ {A = Result A E} (err e) (ok a) → ⊥
  err≢ok h = cc
