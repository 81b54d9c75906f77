-- ===== src/Core/BinarySearch.antt =====
-- `slice::binary_search` of the standard library on byte strings: halving rounds that keep the last
-- position not above the key, then one test.
use sumidero.Prelude.{
  ℕ, zero, suc, ◌+◌, ◌-◌, ◌/◌, ◌≡◌, ◌≤◌, ◌<◌, refl, sym, ap, ◌∙◌, inl, inr, Bool, true, false,
  Bool-cases, Option-cases, some-inj, some≢none, ◌&&◌, false≢true, none, some, List, [], ◌∷◌,
  length, get_elem?, get_elem?-bound, Elem, get_elem?-Elem, Elem-get_elem?, get_elem?_of_lt, ◌↔◌,
  All, All-map, All-elem, Bytes, bytes_eq, bytes_eq_sound, bytes_eq_refl, leb, if◌then◌else◌, arith,
}
use sumidero.Filter.Index.Order.{bytes_lt, bytes_lt_irrefl, bytes_lt_trans}

abbrev pub above : List Bytes → ℕ → Bytes → Bool
above xs i key = elim (get_elem? xs i) [ none ↦ false | some x ↦ bytes_lt key x ]

unfoldable pub search_loop : ℕ → List Bytes → Bytes → ℕ → ℕ → ℕ
unfolding bytes_lt
search_loop zero xs key base size = base
search_loop (suc n) xs key base size =
    let half = size / 2 in
    let low = search_loop n xs key base (size - half) in
    let high = search_loop n xs key (base + half) (size - half) in
    if leb size 1 then base else if above xs (base + half) key then low else high

-- `xs.binary_search(&key).is_ok()`
unfoldable pub binary_search : List Bytes → Bytes → Bool
unfolding search_loop
binary_search xs key = elim (get_elem? xs (search_loop (length xs) xs key 0 (length xs))) [
  | none ↦ false
  | some x ↦ bytes_eq x key
]

-- Sorted, without repetition: each is below the next.
unfoldable pub is_sorted : List Bytes → Bool
unfolding bytes_lt
is_sorted [] = true
is_sorted (x ∷ []) = true
is_sorted (x ∷ y ∷ xs) = bytes_lt x y && is_sorted (y ∷ xs)

-- The first of a sorted list is below the others.
is_sorted-first :
    (x : Bytes) (xs : List Bytes) → is_sorted (x ∷ xs) ≡ true → All (λ y. bytes_lt x y ≡ true) xs
unfolding is_sorted
is_sorted-first x [] h = tt
is_sorted-first x (y ∷ xs) h =
    let lt : bytes_lt x y ≡ true = ground arith in
    let rest : is_sorted (y ∷ xs) ≡ true = ground arith in
    (
      lt,
      All-map (λ z. bytes_lt y z ≡ true) (λ z. bytes_lt x z ≡ true) xs
          (λ z k. bytes_lt_trans x y z lt k) (is_sorted-first y xs rest),
    )

is_sorted-rest : (x : Bytes) (xs : List Bytes) → is_sorted (x ∷ xs) ≡ true → is_sorted xs ≡ true
unfolding is_sorted
is_sorted-rest x [] h = refl
is_sorted-rest x (y ∷ xs) h = ground arith

is_sorted-lt :
    (xs : List Bytes) (i j : ℕ) {x y : Bytes}
    → is_sorted xs ≡ true
    → i < j
    → get_elem? xs i ≡ some x
    → get_elem? xs j ≡ some y
    → bytes_lt x y ≡ true
is_sorted-lt [] i j h lt p q = cc
is_sorted-lt (z ∷ xs) zero zero h lt p q = elim lt [ ]
is_sorted-lt (z ∷ xs) zero (suc j) {x} {y} h lt p q =
    let below =
      All-elem (λ y. bytes_lt z y ≡ true) xs y (is_sorted-first z xs h) (Elem-get_elem? xs j q) in
    ap (λ w. bytes_lt w y) (some-inj (sym p)) ∙ below
is_sorted-lt (z ∷ xs) (suc i) zero h lt p q = elim lt [ ]
is_sorted-lt (z ∷ xs) (suc i) (suc j) h lt p q =
    is_sorted-lt xs i j (is_sorted-rest z xs h) (omega arith) p q

module _ (xs : List Bytes) (key : Bytes) (i : ℕ) (sorted : is_sorted xs ≡ true)
    (at : get_elem? xs i ≡ some key) where
  not_above : (m : ℕ) → m ≤ i → above xs m key ≡ false
  not_above m le = elim (Option-cases (get_elem? xs m)) [
    | inl h ↦ rw (h, above) refl
    | inr (x, h) ↦ elim (Bool-cases (bytes_lt key x)) [
      | inl lt ↦ absurd (contra x h lt)
      | inr q ↦ rw (h, above) q
    ]
  ]
    where
      contra : (x : Bytes) → get_elem? xs m ≡ some x → bytes_lt key x ≡ true → ⊥
      contra x h lt = elim (Bool-cases (leb i m)) [
        | inl q ↦
            let same : m ≡ i = ground arith in
            let e : some x ≡ some key = sym h ∙ ap (get_elem? xs) same ∙ at in
            false≢true (sym (bytes_lt_irrefl key) ∙ ap (bytes_lt key) (some-inj (sym e)) ∙ lt)
        | inr q ↦
            let below = is_sorted-lt xs m i sorted (ground arith) h at in
            false≢true (sym (bytes_lt_irrefl key) ∙ bytes_lt_trans key x key lt below)
      ]

  is_above : (m : ℕ) → m < length xs → i < m → above xs m key ≡ true
  is_above m bound lt = elim (Option-cases (get_elem? xs m)) [
    | inl h ↦ absurd (missing h)
    | inr (x, h) ↦ rw (h, above) (is_sorted-lt xs i m sorted lt at h)
  ]
    where
      missing : get_elem? xs m ≡ none → ⊥
      missing h = let (x, e) = get_elem?_of_lt xs m bound in some≢none (sym e ∙ h)

  -- The rounds close in on the key's position.
  search_loop-finds :
      (n base size : ℕ)
      → size ≤ n
      → base ≤ i
      → i < base + size
      → base + size ≤ length xs
      → search_loop n xs key base size ≡ i
  unfolding search_loop
  search_loop-finds zero base size h le lt bound = omega arith
  search_loop-finds (suc n) base size h le lt bound = elim (Bool-cases (leb size 1)) [
    | inl q ↦ rw q (ground arith)
    | inr q ↦
        let many : 1 < size = ground arith in
        elim (Bool-cases (leb (base + size / 2) i)) [
          | inl low ↦
              let le' : base + size / 2 ≤ i = ground arith in
              rw (q, not_above (base + size / 2) le')
                (search_loop-finds n (base + size / 2) (size - size / 2) (omega arith) le'
                  (omega arith) (omega arith))
          | inr high ↦
              let lt' : i < base + size / 2 = ground arith in
              rw (q, is_above (base + size / 2) (omega arith) lt')
                (search_loop-finds n base (size - size / 2) (omega arith) le (omega arith)
                  (omega arith))
        ]
  ]

-- In a sorted list the search finds what is there, and nothing else.
pub binary_search_iff :
    (xs : List Bytes) (key : Bytes)
    → is_sorted xs ≡ true
    → (binary_search xs key ≡ true) ↔ Elem key xs
unfolding binary_search
binary_search_iff xs key sorted = (found, there)
  where
    found : binary_search xs key ≡ true → Elem key xs
    found h = elim (Option-cases (get_elem? xs (search_loop (length xs) xs key 0 (length xs)))) [
      | inl q ↦ absurd (false≢true (rw (q, binary_search) at h))
      | inr (x, q) ↦
          let same : x ≡ key = bytes_eq_sound x key (rw (q, binary_search) at h) in
          Elem-get_elem? xs _ (q ∙ ap some same)
    ]

    there : Elem key xs → binary_search xs key ≡ true
    there m =
        let (i, at) = get_elem?-Elem key xs m in
        let found =
          search_loop-finds xs key i sorted at (length xs) 0 (length xs) (omega arith) (omega arith)
            (omega (arith, get_elem?-bound xs i at)) (omega arith) in
        ap (λ p. elim (get_elem? xs p) [ none ↦ false | some x ↦ bytes_eq x key ]) found
        ∙ rw at (bytes_eq_refl key)
