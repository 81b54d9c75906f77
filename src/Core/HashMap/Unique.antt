-- ===== src/Core/HashMap/Unique.antt =====
-- Maps with one entry for a key, and how many entries they have.
use sumidero.Prelude.{
  ◌+◌, ◌≡◌, refl, sym, ap, ◌∙◌, inl, inr, none, some, [], ◌∷◌, Bool-cases, length, arith,
}
use sumidero.Core.HashMap.{HashKey, Entries, get, remove, insert}
use sumidero.Core.HashMap.Laws.{get-remove_same, get-remove_other}

module _ {K V : Type 0} (keys : HashKey K) where
  abbrev pub IsUnique : Entries K V → Type 0
  IsUnique [] = Unit
  IsUnique (e ∷ m) = (get keys m e.0 ≡ none) × IsUnique m

  pub remove_absent : (m : Entries K V) (k : K) → get keys m k ≡ none → remove keys m k ≡ m
  unfolding remove get
  remove_absent [] k h = refl
  remove_absent (e ∷ m) k h = elim (Bool-cases (keys.eq e.0 k)) [
    | inl f ↦ absurd (some≢none (rw (f, get) at h))
    | inr f ↦ rw (f, remove) (ap (λ r. e ∷ r) (remove_absent m k (rw (f, get) at h)))
  ]
    where
      some≢none : some e.1 ≡ none → ⊥
      some≢none h = ground arith

  pub length-remove_known :
      (m : Entries K V) (k : K) {v : V}
      → IsUnique m
      → get keys m k ≡ some v
      → length (remove keys m k) + 1 ≡ length m
  unfolding remove get
  length-remove_known [] k u h = absurd (ground arith)
  length-remove_known (e ∷ m) k (f, u) h = elim (Bool-cases (keys.eq e.0 k)) [
    | inl q ↦
        let same : e.0 ≡ k = (keys.eq_iff e.0 k).0 q in
        let gone : remove keys m k ≡ m = remove_absent m k (ap (get keys m) (sym same) ∙ f) in
        rw (q, remove, gone) (omega arith)
    | inr q ↦ rw (q, remove) (omega (arith, length-remove_known m k u (rw (q, get) at h)))
  ]

  get-remove-none :
      (m : Entries K V) (k k' : K) → get keys m k' ≡ none → get keys (remove keys m k) k' ≡ none
  get-remove-none m k k' h = elim (Bool-cases (keys.eq k k')) [
    | inl q ↦
        ap (get keys (remove keys m k)) (sym ((keys.eq_iff k k').0 q)) ∙ get-remove_same keys m k
    | inr q ↦ get-remove_other keys m k k' q ∙ h
  ]

  pub IsUnique-remove : (m : Entries K V) (k : K) → IsUnique m → IsUnique (remove keys m k)
  unfolding remove
  IsUnique-remove [] k u = tt
  IsUnique-remove (e ∷ m) k (f, u) = elim (Bool-cases (keys.eq e.0 k)) [
    | inl q ↦ rw (q, remove) (IsUnique-remove m k u)
    | inr q ↦ rw (q, remove) (get-remove-none m k e.0 f, IsUnique-remove m k u)
  ]

  pub IsUnique-insert :
      (m : Entries K V) (k : K) (v : V) → IsUnique m → IsUnique (insert keys m k v)
  unfolding insert
  IsUnique-insert m k v u = (get-remove_same keys m k, IsUnique-remove m k u)

  -- A new key is one entry more.
  pub length-insert_fresh :
      (m : Entries K V) (k : K) (v : V)
      → get keys m k ≡ none
      → length (insert keys m k v) ≡ length m + 1
  unfolding insert
  length-insert_fresh m k v h = rw (remove_absent m k h) (omega arith)
