-- ===== src/Core/FailureCache/Bounds.antt =====
-- The number of tracked keys and the holds stay within their bounds.
use sumidero.Prelude.{
  ℕ, ◌+◌, ◌≡◌, ◌≤◌, ◌<◌, ◌⊎◌, refl, inl, inr, Bool, true, false, not, ◌&&◌, Option, none, some, [],
  ◌∷◌, Bool-cases, Option-cases, All, Elem, length, leb, ltb, if◌then◌else◌, arith,
}
use sumidero.Core.HashMap.{HashKey, Entries, get, contains_key, remove, insert, retain}
use sumidero.Core.HashMap.Laws.{
  eq_refl, length-remove_le, length-remove_lt, length-retain_le, All-remove, All-retain, get-All,
}
use sumidero.Core.FailureCache.{
  Failure, FailureCache, first_hold, max_hold, max_keys, next_hold, oldest, drop_oldest, pruned,
  make_room, record_failure,
}

abbrev pub IsHold : ℕ → Type 0
IsHold h = (first_hold ≤ h) × (h ≤ max_hold)

pub record IsValid {K : Type 0} (fc : FailureCache K) : Type 0 where
  pub few : length fc.inner ≤ max_keys
  pub holds : All (λ e. IsHold e.1.hold) fc.inner

next_hold-IsHold :
    (prev : Option Failure) (now : ℕ)
    → ((f : Failure) → prev ≡ some f → IsHold f.hold)
    → IsHold (next_hold prev now)
unfolding next_hold
next_hold-IsHold none now h = (omega arith, omega arith)
next_hold-IsHold (some f) now h =
    let (low, high) = h f refl in
    elim (Bool-cases (ltb now (f.until + max_hold))) [
      | inl e ↦ rw e (omega arith, omega arith)
      | inr e ↦ rw e (omega arith, omega arith)
    ]

both : {A : Type 0} (Q : A → Type 0) (b : Bool) (x y : A) → Q x → Q y → Q (if b then x else y)
both Q true x y h k = h
both Q false x y h k = k

module _ {K : Type 0} (keys : HashKey K) where
  Elem-contains_key :
      {V : Type 0} (m : Entries K V) (e : K × V) → Elem e m → contains_key keys m e.0 ≡ true
  unfolding contains_key get
  Elem-contains_key [] e h = absurd h
  Elem-contains_key (x ∷ m) e (inl q) = rw (q, contains_key, eq_refl keys x.0) refl
  Elem-contains_key (x ∷ m) e (inr h) = elim (Bool-cases (keys.eq x.0 e.0)) [
    | inl f ↦ rw (f, contains_key) refl
    | inr f ↦ rw (f, contains_key) (Elem-contains_key m e h)
  ]

  abbrev IsOldest : Entries K Failure → K × Failure → Type 0
  IsOldest m e = (oldest m ≡ some e) × Elem e m

  oldest-cases :
      (m : Entries K Failure)
      → ((oldest m ≡ none) × (length m ≡ 0)) ⊎ ((e : K × Failure) × IsOldest m e)
  unfolding oldest
  oldest-cases [] = inl (refl, refl)
  oldest-cases (x ∷ m) = inr (elim (oldest-cases m) [
    | inl (q, _) ↦ (x, (rw q refl, inl refl))
    | inr (e, (q, at)) ↦ elim (Bool-cases (leb x.1.until e.1.until)) [
      | inl g ↦ (x, (rw (q, g) refl, inl refl))
      | inr g ↦ (e, (rw (q, g) refl, inr at))
    ]
  ])

  nonempty-IsOldest : (m : Entries K Failure) → 0 < length m → (e : K × Failure) × IsOldest m e
  nonempty-IsOldest m h = elim (oldest-cases m) [ inl (_, z) ↦ absurd (omega arith) | inr r ↦ r ]

  drop_oldest-length :
      (m : Entries K Failure) → 0 < length m → length (drop_oldest keys m) < length m
  unfolding drop_oldest
  drop_oldest-length m h =
      let (e, (q, at)) = nonempty-IsOldest m h in
      rw (q, drop_oldest) (length-remove_lt keys m e.0 (Elem-contains_key m e at))

  drop_oldest-All :
      (P : K × Failure → Type 0) (m : Entries K Failure) → All P m → All P (drop_oldest keys m)
  unfolding drop_oldest
  drop_oldest-All P m h = elim (Option-cases (oldest m)) [
    | inl q ↦ rw (q, drop_oldest) h
    | inr (e, q) ↦ rw (q, drop_oldest) (All-remove keys P m e.0 h)
  ]

  make_room-All :
      (P : K × Failure → Type 0) (m : Entries K Failure) (k : K) (now : ℕ)
      → All P m
      → All P (make_room keys m k now)
  unfolding make_room
  make_room-All P m k now h =
      let kept = retain (λ f. ltb now (f.until + max_hold)) m in
      let all = All-retain keys P (λ f. ltb now (f.until + max_hold)) m h in
      both (All P) (leb max_keys (length m) && not (contains_key keys m k)) (pruned keys m now) m
        (both (All P) (leb max_keys (length kept)) (drop_oldest keys kept) kept
          (drop_oldest-All P kept all) all)
        h

  pruned-few :
      (m : Entries K Failure) (now : ℕ)
      → length m ≤ max_keys
      → length (pruned keys m now) < max_keys
  pruned-few m now h =
      let kept = retain (λ f. ltb now (f.until + max_hold)) m in
      let fewer = length-retain_le keys (λ f. ltb now (f.until + max_hold)) m in
      elim (Bool-cases (leb max_keys (length kept))) [
        | inl e ↦
            let some_key : 0 < length kept = ground arith in
            rw e (omega (arith, fewer, drop_oldest-length kept some_key))
        | inr e ↦ rw e (ground arith)
      ]

  make_room-few :
      (m : Entries K Failure) (k : K) (now : ℕ)
      → length m ≤ max_keys
      → length (remove keys (make_room keys m k now) k) < max_keys
  unfolding make_room
  make_room-few m k now h =
      elim (Bool-cases (leb max_keys (length m) && not (contains_key keys m k))) [
        | inl e ↦
            rw (e, remove)
              (omega (arith, length-remove_le keys (pruned keys m now) k, pruned-few m now h))
        | inr e ↦
            rw (e, remove)
              (elim (Bool-cases (contains_key keys m k)) [
                | inl f ↦ omega (arith, length-remove_lt keys m k f)
                | inr f ↦
                    let less : length m < max_keys = ground arith in
                    omega (arith, length-remove_le keys m k, less)
              ])
      ]

  -- A valid cache stays valid through a failure, and the hold that the failure applies lies between
  -- the first hold and the longest one.
  pub record_failure-IsValid :
      (fc : FailureCache K) (k : K) (now : ℕ)
      → IsValid fc
      → IsValid (record_failure keys fc k now).0 × IsHold (record_failure keys fc k now).1
  unfolding record_failure insert
  record_failure-IsValid fc k now v =
      let hold =
        next_hold-IsHold (get keys fc.inner k) now
          (λ f h. get-All keys (λ g. IsHold g.hold) fc.inner k v.holds h) in
      (
        record {
          few = omega (arith, make_room-few fc.inner k now v.few);
          holds = (
            hold,
            All-remove keys (λ e. IsHold e.1.hold) (make_room keys fc.inner k now) k
                (make_room-All (λ e. IsHold e.1.hold) fc.inner k now v.holds),
          );
        },
        hold,
      )
