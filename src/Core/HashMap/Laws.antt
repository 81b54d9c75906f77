-- ===== src/Core/HashMap/Laws.antt =====
-- Lookup, insertion and removal.
use sumidero.Prelude.{
  subst, ◌≡◌, ◌≤◌, ◌<◌, refl, sym, ap, ◌∙◌, inl, inr, Bool, true, false, false≢true, none, some, [],
  ◌∷◌, Bool-cases, All, length, if◌then◌else◌, arith,
}
use sumidero.Core.HashMap.{HashKey, Entries, get, contains_key, remove, insert, retain}

module _ {K : Type 0} (keys : HashKey K) where
  pub eq_refl : (k : K) → keys.eq k k ≡ true
  eq_refl k = (keys.eq_iff k k).1 refl

  -- Two keys that differ do not both equal a third.
  eq_both : (a k k' : K) → keys.eq k k' ≡ false → keys.eq a k ≡ true → keys.eq a k' ≡ false
  eq_both a k k' h e = elim (Bool-cases (keys.eq a k')) [
    | inl f ↦
        let same : k ≡ k' = sym ((keys.eq_iff a k).0 e) ∙ (keys.eq_iff a k').0 f in
        absurd (false≢true (sym h ∙ (keys.eq_iff k k').1 same))
    | inr f ↦ f
  ]

  pub eq_sym : (a b : K) → keys.eq a b ≡ false → keys.eq b a ≡ false
  eq_sym a b h = elim (Bool-cases (keys.eq b a)) [
    | inl q ↦ absurd (false≢true (sym h ∙ (keys.eq_iff a b).1 (sym ((keys.eq_iff b a).0 q))))
    | inr q ↦ q
  ]

module _ {K V : Type 0} (keys : HashKey K) where
  pub get-remove_same : (m : Entries K V) (k : K) → get keys (remove keys m k) k ≡ none
  unfolding get remove
  get-remove_same [] k = refl
  get-remove_same (e ∷ m) k = elim (Bool-cases (keys.eq e.0 k)) [
    | inl h ↦ rw h (get-remove_same m k)
    | inr h ↦ rw (h, h) (get-remove_same m k)
  ]

  pub get-remove_other :
      (m : Entries K V) (k k' : K)
      → keys.eq k k' ≡ false
      → get keys (remove keys m k) k' ≡ get keys m k'
  unfolding get remove
  get-remove_other [] k k' h = refl
  get-remove_other (e ∷ m) k k' h = elim (Bool-cases (keys.eq e.0 k)) [
    | inl f ↦ rw (f, eq_both keys e.0 k k' h f) (get-remove_other m k k' h)
    | inr f ↦ rw f (ap (λ o. if keys.eq e.0 k' then some e.1 else o) (get-remove_other m k k' h))
  ]

  pub get-insert_same : (m : Entries K V) (k : K) (v : V) → get keys (insert keys m k v) k ≡ some v
  unfolding get insert
  get-insert_same m k v = rw (eq_refl keys k) refl

  pub get-insert_other :
      (m : Entries K V) (k k' : K) (v : V)
      → keys.eq k k' ≡ false
      → get keys (insert keys m k v) k' ≡ get keys m k'
  unfolding get insert
  get-insert_other m k k' v h = rw h (get-remove_other m k k' h)

  pub length-remove_le : (m : Entries K V) (k : K) → length (remove keys m k) ≤ length m
  unfolding remove
  length-remove_le [] k = omega arith
  length-remove_le (e ∷ m) k = elim (Bool-cases (keys.eq e.0 k)) [
    | inl h ↦ rw h (omega (arith, length-remove_le m k))
    | inr h ↦ rw h (omega (arith, length-remove_le m k))
  ]

  -- A key that is there leaves room.
  pub length-remove_lt :
      (m : Entries K V) (k : K) → contains_key keys m k ≡ true → length (remove keys m k) < length m
  unfolding remove contains_key get
  length-remove_lt [] k h = absurd (false≢true h)
  length-remove_lt (e ∷ m) k h = elim (Bool-cases (keys.eq e.0 k)) [
    | inl f ↦ rw f (omega (arith, length-remove_le m k))
    | inr f ↦ rw f (omega (arith, length-remove_lt m k (rw (f, contains_key) at h)))
  ]

  pub length-retain_le : (keep : V → Bool) (m : Entries K V) → length (retain keep m) ≤ length m
  unfolding retain
  length-retain_le keep [] = omega arith
  length-retain_le keep (e ∷ m) = elim (Bool-cases (keep e.1)) [
    | inl h ↦ rw h (omega (arith, length-retain_le keep m))
    | inr h ↦ rw h (omega (arith, length-retain_le keep m))
  ]

  module _ (P : K × V → Type 0) where
    pub All-remove : (m : Entries K V) (k : K) → All P m → All P (remove keys m k)
    unfolding remove
    All-remove [] k h = tt
    All-remove (e ∷ m) k (p, h) = elim (Bool-cases (keys.eq e.0 k)) [
      | inl f ↦ rw f (All-remove m k h)
      | inr f ↦ rw f (p, All-remove m k h)
    ]

    pub All-retain : (keep : V → Bool) (m : Entries K V) → All P m → All P (retain keep m)
    unfolding retain
    All-retain keep [] h = tt
    All-retain keep (e ∷ m) (p, h) = elim (Bool-cases (keep e.1)) [
      | inl f ↦ rw f (p, All-retain keep m h)
      | inr f ↦ rw f (All-retain keep m h)
    ]

  pub get-All :
      (P : V → Type 0) (m : Entries K V) (k : K) {v : V}
      → All (λ e. P e.1) m
      → get keys m k ≡ some v
      → P v
  unfolding get
  get-All P [] k h e = absurd (ground arith)
  get-All P (e ∷ m) k {v} (p, h) f = elim (Bool-cases (keys.eq e.0 k)) [
    | inl g ↦ let same : e.1 ≡ v = ground arith in subst P same p
    | inr g ↦ get-All P m k h (rw g at f)
  ]
