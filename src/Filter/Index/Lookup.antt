-- ===== src/Filter/Index/Lookup.antt =====
-- On an ordered index `equal_range` gives the rules of a key, all of them and no other.
use native.Mathlib.Decide.{dec_lt}
use native.Mathlib.Nat.{le_refl}
use sumidero.Prelude.{
  ℕ, zero, suc, ◌+◌, ◌-◌, ◌≤◌, ◌<◌, ◌≡◌, sym, subst, ap, ◌∙◌, ◌↔◌, inl, inr, true, false,
  false≢true, ◌∷◌, Bytes, Bool-cases, Elem, length, bytes_eq, bytes_eq_iff, arith,
}
use sumidero.Filter.Index.{KeyIndex, key, rule_at, take_equal, equal_range, partition_point}
use sumidero.Filter.Index.Order.{bytes_lt, bytes_lt_irrefl, bytes_lt_connected, bytes_ge_trans}
use sumidero.Filter.Index.Partition.{IsPartitioned, Splits, partition_point-Splits}

-- Some entry of the index has the key and the rule.
abbrev pub Holds : KeyIndex → Bytes → ℕ → Type 0
Holds ix k r = (i : ℕ) × (i < length ix.rules) × (key ix i ≡ k) × (rule_at ix i ≡ r)

abbrev pub IsOrdered : KeyIndex → Type 0
IsOrdered ix = (i j : ℕ) → i ≤ j → j < length ix.rules → bytes_lt (key ix j) (key ix i) ≡ false

take_equal-Elem :
    (ix : KeyIndex) (needle : Bytes) (n i r : ℕ)
    → Elem r (take_equal ix needle n i)
    → (j : ℕ) × (i ≤ j) × (j < i + n) × (key ix j ≡ needle) × (rule_at ix j ≡ r)
unfolding take_equal
take_equal-Elem ix needle zero i r m = absurd m
take_equal-Elem ix needle (suc n) i r m = elim (Bool-cases (bytes_eq (key ix i) needle)) [
  | inl e ↦
      let m' : Elem r (rule_at ix i ∷ take_equal ix needle n (i + 1)) = rw (e, take_equal) at m in
      elim m' [
        | inl k ↦ (i, omega arith, omega arith, (bytes_eq_iff (key ix i) needle).0 e, sym k)
        | inr k ↦
            let (j, le, lt, found, rule) = take_equal-Elem ix needle n (i + 1) r k in
            (j, omega arith, omega arith, found, rule)
      ]
  | inr e ↦ absurd (rw (e, take_equal) at m)
]

Elem-take_equal :
    (ix : KeyIndex) (needle : Bytes) (n i j : ℕ)
    → i ≤ j
    → j < i + n
    → ((m : ℕ) → i ≤ m → m ≤ j → key ix m ≡ needle)
    → Elem (rule_at ix j) (take_equal ix needle n i)
unfolding take_equal
Elem-take_equal ix needle zero i j le lt same = absurd (omega arith)
Elem-take_equal ix needle (suc n) i j le lt same =
    let e = (bytes_eq_iff (key ix i) needle).1 (same i (le_refl i) le) in
    rw (e, take_equal)
      (elim (dec_lt i j) [
        | yes h ↦ inr (
            Elem-take_equal ix needle n (i + 1) j (omega arith) (omega arith)
              (λ m a b. same m (omega arith) b))
        | no h ↦ inl (ap (rule_at ix) (omega arith))
      ])

module _ (ix : KeyIndex) (ordered : IsOrdered ix) (needle : Bytes) where
  key-IsPartitioned : IsPartitioned (length ix.rules) (λ i. bytes_lt (key ix i) needle)
  key-IsPartitioned i j le lt h = bytes_ge_trans (key ix j) (key ix i) needle (ordered i j le lt) h

  -- From the partition point up to an entry with the key, every entry has the key.
  same_until :
      (lo j : ℕ)
      → Splits (length ix.rules) (λ i. bytes_lt (key ix i) needle) lo
      → j < length ix.rules
      → key ix j ≡ needle
      → (m : ℕ) → lo ≤ m
      → m ≤ j
      → key ix m ≡ needle
  same_until lo j s lt found m from to =
      let upper : bytes_lt needle (key ix m) ≡ false = rw found at (ordered m j to lt) in
      bytes_lt_connected (key ix m) needle (s.above m from (omega arith)) upper

  not_below :
      (lo j : ℕ)
      → Splits (length ix.rules) (λ i. bytes_lt (key ix i) needle) lo
      → key ix j ≡ needle
      → lo ≤ j
  not_below lo j s found = elim (dec_lt j lo) [
    | yes h ↦
        let less : bytes_lt needle needle ≡ true = rw found at (s.below j h) in
        absurd (false≢true (sym (bytes_lt_irrefl needle) ∙ less))
    | no h ↦ omega arith
  ]

  -- On an ordered index a rule is found under a key exactly if an entry holds both.
  pub equal_range_iff : (r : ℕ) → Elem r (equal_range ix needle) ↔ Holds ix needle r
  unfolding equal_range
  equal_range_iff r = (
    λ m.
        let (j, _, lt, found, rule) = take_equal-Elem ix needle (n - lo) lo r m in
        (j, omega (arith, s.bound), found, rule),
    λ (j, lt, found, rule).
        let from = not_below lo j s found in
        subst (λ (x : ℕ). Elem x (take_equal ix needle (n - lo) lo)) rule
          (Elem-take_equal ix needle (n - lo) lo j from (omega arith) (same_until lo j s lt found)),
  )
    where
      n : ℕ
      n = length ix.rules

      lo : ℕ
      lo = partition_point n (λ i. bytes_lt (key ix i) needle)

      s : Splits n (λ i. bytes_lt (key ix i) needle) lo
      s = partition_point-Splits n _ key-IsPartitioned
