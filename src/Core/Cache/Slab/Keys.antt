-- ===== src/Core/Cache/Slab/Keys.antt =====
-- Cells by their keys.
use sumidero.Prelude.{
  ℕ, ◌≡◌, refl, ap, inl, inr, false, Option, none, some, [], ◌∷◌, ◌++◌, All, All-split, All-append,
  Bool-cases, if◌then◌else◌, arith,
}
use sumidero.Core.HashMap.{HashKey}
use sumidero.Core.HashMap.Laws.{eq_refl, eq_sym}
use sumidero.Core.Cache.Slab.Chain.{Item, Cells}

module _ {K V : Type 0} (keys : HashKey K) where
  -- The index of the cell with a key.
  abbrev pub index_of : Cells K V → K → Option ℕ
  index_of [] k = none
  index_of (c ∷ cs) k = if keys.eq c.1.key k then some c.0 else index_of cs k

  abbrev pub KeyFresh : K → Cells K V → Type 0
  KeyFresh k cs = All (λ c. keys.eq c.1.key k ≡ false) cs

  abbrev pub HasDistinctKeys : Cells K V → Type 0
  HasDistinctKeys [] = Unit
  HasDistinctKeys (c ∷ cs) = KeyFresh c.1.key cs × HasDistinctKeys cs

  pub index_of_fresh : (cs : Cells K V) (k : K) → KeyFresh k cs → index_of cs k ≡ none
  index_of_fresh [] k h = refl
  index_of_fresh (c ∷ cs) k (f, h) = rw f (index_of_fresh cs k h)

  pub index_of-none : (cs : Cells K V) (k : K) → index_of cs k ≡ none → KeyFresh k cs
  index_of-none [] k h = tt
  index_of-none (c ∷ cs) k h = elim (Bool-cases (keys.eq c.1.key k)) [
    | inl q ↦ absurd (some≢none (rw q at h))
    | inr q ↦ (q, index_of-none cs k (rw q at h))
  ]
    where
      some≢none : some c.0 ≡ none → ⊥
      some≢none h = ground arith

  -- A cell with another key does not count.
  pub index_of_skip :
      (xs : Cells K V) (c : ℕ × Item K V) (ys : Cells K V) (k : K)
      → keys.eq c.1.key k ≡ false
      → index_of (xs ++ c ∷ ys) k ≡ index_of (xs ++ ys) k
  index_of_skip [] c ys k h = rw h refl
  index_of_skip (x ∷ xs) c ys k h =
      ap (λ o. if keys.eq x.1.key k then some x.0 else o) (index_of_skip xs c ys k h)

  pub index_of_mid :
      (xs : Cells K V) (c : ℕ × Item K V) (ys : Cells K V)
      → KeyFresh c.1.key xs
      → index_of (xs ++ c ∷ ys) c.1.key ≡ some c.0
  index_of_mid [] c ys h = rw (eq_refl keys c.1.key) refl
  index_of_mid (x ∷ xs) c ys (f, h) = rw f (index_of_mid xs c ys h)

  -- A known key stands somewhere in the chain.
  pub index_of-some :
      (cs : Cells K V) (k : K) {i : ℕ}
      → index_of cs k ≡ some i
      → (xs : Cells K V) × (a : Item K V) × (ys : Cells K V) × (cs ≡ xs ++ (i, a) ∷ ys)
        × (a.key ≡ k)
  index_of-some [] k h = absurd (ground arith)
  index_of-some (c ∷ cs) k {i} h = elim (Bool-cases (keys.eq c.1.key k)) [
    | inl q ↦
        let same : some c.0 ≡ some i = rw q at h in
        ([], c.1, cs, ap (λ j. (j, c.1) ∷ cs) (inj same), (keys.eq_iff c.1.key k).0 q)
    | inr q ↦
        let (xs, a, ys, e, f) = index_of-some cs k (rw q at h) in
        (c ∷ xs, a, ys, ap (λ r. c ∷ r) e, f)
  ]
    where
      inj : {m n : ℕ} → some m ≡ some n → m ≡ n
      inj h = ground arith

  pub record KeysApart (xs : Cells K V) (c : ℕ × Item K V) (ys : Cells K V) : Type 0 where
    pub not_before : KeyFresh c.1.key xs
    pub not_behind : KeyFresh c.1.key ys
    pub rest : HasDistinctKeys (xs ++ ys)

  pub HasDistinctKeys-KeysApart :
      (xs : Cells K V) (c : ℕ × Item K V) (ys : Cells K V)
      → HasDistinctKeys (xs ++ c ∷ ys)
      → KeysApart xs c ys
  HasDistinctKeys-KeysApart [] c ys (f, d) = record { not_before = tt; not_behind = f; rest = d }
  HasDistinctKeys-KeysApart (x ∷ xs) c ys (f, d) =
      let a = HasDistinctKeys-KeysApart xs c ys d in
      let (f₁, (f₂, f₃)) = All-split (λ e. keys.eq e.1.key x.1.key ≡ false) xs (c ∷ ys) f in
      record {
        not_before = (eq_sym keys c.1.key x.1.key f₂, a.not_before);
        not_behind = a.not_behind;
        rest = (All-append (λ e. keys.eq e.1.key x.1.key ≡ false) xs ys f₁ f₃, a.rest);
      }
