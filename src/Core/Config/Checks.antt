-- ===== src/Core/Config/Checks.antt =====
-- What passes the checks that validation is made of.
use sumidero.Prelude.{
  ◌≡◌, ◌≢◌, refl, sym, ◌↔◌, ◌⊎◌, inl, inr, Bool, true, false, false≢true, not, ◌&&◌, Option, none,
  some, ok, err, err≢ok, List, [], ◌∷◌, All, is_nil,
}
use sumidero.Core.Config.{
  Invalid, Validated, reject_if, then_check, check_each, is_none, is_some_and,
}

abbrev pub Passes : Validated → Type 0
Passes v = v ≡ ok tt

pub reject_if-Passes :
    (bad : Bool) (e : Invalid) (rest : Validated)
    → Passes (reject_if bad e rest) ↔ ((bad ≡ false) × Passes rest)
reject_if-Passes true e rest = (λ h. absurd (err≢ok h), λ h. absurd (false≢true (sym h.0)))
reject_if-Passes false e rest = (λ h. (refl, h), λ h. h.1)

pub then_check-Passes : (v rest : Validated) → Passes (then_check v rest) ↔ (Passes v × Passes rest)
then_check-Passes (ok tt) rest = (λ h. (refl, h), λ h. h.1)
then_check-Passes (err e) rest = (λ h. absurd (err≢ok h), λ h. absurd (err≢ok h.0))

pub check_each-Passes :
    {A : Type 0} (f : A → Validated) (P : A → Type 0) (xs : List A)
    → ((x : A) → Passes (f x) ↔ P x)
    → Passes (check_each f xs) ↔ All P xs
check_each-Passes f P [] h = (λ k. tt, λ k. refl)
check_each-Passes f P (x ∷ xs) h =
    let both = then_check-Passes (f x) (check_each f xs) in
    let rest = check_each-Passes f P xs h in
    (λ k. ((h x).0 (both.0 k).0, rest.0 (both.0 k).1), λ k. both.1 ((h x).1 k.0, rest.1 k.1))

pub is_nil-false : {A : Type 0} (xs : List A) → (is_nil xs ≡ false) ↔ (xs ≢ [])
is_nil-false [] = (λ h. absurd (false≢true (sym h)), λ h. absurd (h refl))
is_nil-false (x ∷ xs) = (λ h e. cc, λ h. refl)

pub not-false : (b : Bool) → (not b ≡ false) ↔ (b ≡ true)
not-false true = (λ h. refl, λ h. refl)
not-false false = (λ h. absurd (false≢true (sym h)), λ h. absurd (false≢true h))

-- A part that is left out, or is as asked.
abbrev pub IsNoneOr : {A : Type 0} → (A → Type 0) → Option A → Type 0
IsNoneOr P none = Unit
IsNoneOr P (some a) = P a

pub is_some_and-false :
    {A : Type 0} (p : A → Bool) (o : Option A)
    → (is_some_and (λ a. not (p a)) o ≡ false) ↔ IsNoneOr (λ a. p a ≡ true) o
is_some_and-false p none = (λ h. tt, λ h. refl)
is_some_and-false p (some a) = not-false (p a)

pub none_and-false :
    {A B : Type 0} (o : Option A) (q : Option B)
    → (is_none o && is_none q ≡ false) ↔ ((o ≢ none) ⊎ (q ≢ none))
none_and-false none none = (
  λ h. absurd (false≢true (sym h)),
  λ h. elim h [ inl k ↦ absurd (k refl) | inr k ↦ absurd (k refl) ],
)
none_and-false none (some b) = (λ h. inr (λ e. cc), λ h. refl)
none_and-false (some a) q = (λ h. inl (λ e. cc), λ h. refl)

-- The checks, one after another.
pub reject :
    {bad : Bool} {rest : Validated} {A B : Type 0} (e : Invalid)
    → (bad ≡ false) ↔ A
    → Passes rest ↔ B
    → Passes (reject_if bad e rest) ↔ (A × B)
reject {bad} {rest} e f g =
    let both = reject_if-Passes bad e rest in
    (λ h. (f.0 (both.0 h).0, g.0 (both.0 h).1), λ h. both.1 (f.1 h.0, g.1 h.1))

pub and_then :
    {v rest : Validated} {A B : Type 0}
    → Passes v ↔ A
    → Passes rest ↔ B
    → Passes (then_check v rest) ↔ (A × B)
and_then {v} {rest} f g =
    let both = then_check-Passes v rest in
    (λ h. (f.0 (both.0 h).0, g.0 (both.0 h).1), λ h. both.1 (f.1 h.0, g.1 h.1))

pub at_end :
    {bad : Bool} {A : Type 0} (e : Invalid)
    → (bad ≡ false) ↔ A
    → Passes (reject_if bad e (ok tt)) ↔ A
at_end {bad} e f =
    let both = reject_if-Passes bad e (ok tt) in (λ h. f.0 (both.0 h).0, λ h. both.1 (f.1 h, refl))
