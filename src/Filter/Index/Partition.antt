-- ===== src/Filter/Index/Partition.antt =====
-- The binary search finds the point where a predicate turns from true to false.
use sumidero.Prelude.{
  ℕ, zero, suc, ◌+◌, ◌-◌, ◌/◌, ◌≤◌, ◌<◌, ◌≡◌, sym, ◌∙◌, Bool, true, false, false≢true, ltb,
  Bool-cases, inl, inr, arith,
}
use sumidero.Filter.Index.{partition_loop, partition_point}

-- True below `r` and false from `r` on, for the indices below `n`.
pub record Splits (n : ℕ) (pred : ℕ → Bool) (r : ℕ) : Type 0 where
  pub bound : r ≤ n
  pub below : (i : ℕ) → i < r → pred i ≡ true
  pub above : (i : ℕ) → r ≤ i → i < n → pred i ≡ false

-- Once false, always false.
abbrev pub IsPartitioned : ℕ → (ℕ → Bool) → Type 0
IsPartitioned n pred = (i j : ℕ) → i ≤ j → j < n → pred i ≡ false → pred j ≡ false

module _ (n : ℕ) (pred : ℕ → Bool) (mono : IsPartitioned n pred) where
  record Between (lo hi : ℕ) : Type 0 where
    order : lo ≤ hi
    bound : hi ≤ n
    below : (i : ℕ) → i < lo → pred i ≡ true
    above : (i : ℕ) → hi ≤ i → i < n → pred i ≡ false

  true_below : (m i : ℕ) → m < n → pred m ≡ true → i ≤ m → pred i ≡ true
  true_below m i lt h le = elim (Bool-cases (pred i)) [
    | inl e ↦ e
    | inr e ↦ absurd (false≢true (sym (mono i m le lt e) ∙ h))
  ]

  Between-stop : {lo hi : ℕ} → hi ≤ lo → Between lo hi → Splits n pred lo
  Between-stop h b = record {
    bound = omega arith;
    below = b.below;
    above = λ i le lt. b.above i (omega arith) lt;
  }

  partition_loop-Splits :
      (f lo hi : ℕ) → hi ≤ lo + f → Between lo hi → Splits n pred (partition_loop f lo hi pred)
  unfolding partition_loop
  partition_loop-Splits zero lo hi h b = Between-stop (omega arith) b
  partition_loop-Splits (suc f) lo hi h b = elim (Bool-cases (ltb lo hi)) [
    | inr stop ↦ rw stop (Between-stop (ground arith) b)
    | inl go ↦
        let lt : lo < hi = ground arith in
        let mid = lo + (hi - lo) / 2 in
        let inside : (lo ≤ mid) × (mid < hi) × (mid < n) = omega arith in
        rw go (elim (Bool-cases (pred mid)) [
          | inl t ↦ rw t (
              partition_loop-Splits f (mid + 1) hi (omega arith) (record {
                order = omega arith;
                bound = b.bound;
                below = λ i le. true_below mid i inside.2 t (omega arith);
                above = b.above;
              }))
          | inr t ↦ rw t (
              partition_loop-Splits f lo mid (omega arith) (record {
                order = omega arith;
                bound = omega arith;
                below = b.below;
                above = λ i le k. mono mid i le k t;
              }))
        ])
  ]

  -- Where the predicate stays false once it is false, the search returns the number of indices
  -- before that.
  pub partition_point-Splits : Splits n pred (partition_point n pred)
  unfolding partition_point
  partition_point-Splits = partition_loop-Splits n 0 n (omega arith) (record {
    order = omega arith;
    bound = omega arith;
    below = λ i h. elim h [ ];
    above = λ i h k. absurd (omega arith);
  })
