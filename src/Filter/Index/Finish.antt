-- ===== src/Filter/Index/Finish.antt =====
-- `finish` sorts an index and keeps its pairs; it does not panic while the keys fit in 32 bits.
use native.Mathlib.Decide.{dec_lt}
use sumidero.Prelude.{
  ℕ, zero, suc, ◌+◌, ◌≤◌, ◌<◌, ◌≡◌, refl, sym, ap, ◌∙◌, ◌↔◌, inl, inr, Bool, false, List, [], ◌∷◌,
  ◌++◌, length-append, none, some, Bytes, Elem, All-elem, All-of_Elem, Elem-get_elem?,
  get_elem?-Elem, get_elem?_of_lt, get_elem?-bound, get_or_of_some, length, get_or, lt→ltb, arith,
}
use sumidero.Filter.Index.{KeyIndex, key, rule_at, u32_size, range_from, sorted_order, finish}
use sumidero.Filter.Index.Insert.{IsFormed, inserted}
use sumidero.Filter.Index.Lookup.{Holds, IsOrdered}
use sumidero.Filter.Index.Order.{bytes_lt, bytes_lt_asymm, bytes_lt_irrefl, bytes_ge_trans}
use sumidero.Filter.Index.Rebuild.{len_at, Mirrors, rebuild-Mirrors}
use sumidero.Filter.Index.Sort.{SortUnstable, IsWeakOrder, IsSorted, sum_of, sum_of-perm, Elem-perm}
use mathlib.Core.List.Perm

-- The arena holds the keys and nothing else, as after insertions only.
abbrev pub IsPacked : KeyIndex → Type 0
IsPacked ix = length ix.arena ≡ sum_of (λ n. n) ix.lens

range_from-Elem : (i n x : ℕ) → Elem x (range_from i n) → (i ≤ x) × (x < i + n)
range_from-Elem i zero x m = absurd m
range_from-Elem i (suc n) x (inl e) = omega arith
range_from-Elem i (suc n) x (inr m) = omega (arith, range_from-Elem (i + 1) n x m)

Elem-range_from : (i n x : ℕ) → i ≤ x → x < i + n → Elem x (range_from i n)
Elem-range_from i zero x h k = absurd (omega arith)
Elem-range_from i (suc n) x h k = elim (dec_lt i x) [
  | yes lt ↦ inr (Elem-range_from (i + 1) n x (omega arith) (omega arith))
  | no ge ↦ inl (omega arith)
]

sum_of-range_from :
    (f : ℕ → ℕ) (xs : List ℕ) (i : ℕ)
    → ((j : ℕ) → j < length xs → f (i + j) ≡ get_or xs j 0)
    → sum_of f (range_from i (length xs)) ≡ sum_of (λ n. n) xs
sum_of-range_from f [] i h = refl
sum_of-range_from f (x ∷ xs) i h =
    let first : f i ≡ x = ap f (omega arith) ∙ h 0 (omega arith) in
    let rest =
      sum_of-range_from f xs (i + 1) (λ j lt. ap f (omega arith) ∙ h (suc j) (omega arith)) in
    omega (arith, first, rest)

sum_of-append : (f : ℕ → ℕ) (xs ys : List ℕ) → sum_of f (xs ++ ys) ≡ sum_of f xs + sum_of f ys
sum_of-append f [] ys = omega arith
sum_of-append f (x ∷ xs) ys = omega (arith, sum_of-append f xs ys)

pub inserted-IsPacked :
    (ix : KeyIndex) (k : Bytes) (rule : ℕ) → IsPacked ix → IsPacked (inserted ix k rule)
inserted-IsPacked ix k rule h =
    omega (arith, h, length-append {0} ix.arena k, sum_of-append (λ n. n) ix.lens (length k ∷ []))

sorted-get :
    (less : ℕ → ℕ → Bool) (xs : List ℕ)
    → IsSorted less xs
    → (i j : ℕ) → i < j
    → j < length xs
    → less (get_or xs j 0) (get_or xs i 0) ≡ false
sorted-get less [] s i j h k = elim k [ ]
sorted-get less (x ∷ xs) s zero zero h k = absurd (omega arith)
sorted-get less (x ∷ xs) s zero (suc j) h k =
    let (y, e) = get_elem?_of_lt xs j (omega arith) in
    rw (get_or_of_some xs j 0 e) (All-elem (λ y. less y x ≡ false) xs y s.0 (Elem-get_elem? xs j e))
sorted-get less (x ∷ xs) s (suc i) zero h k = elim h [ ]
sorted-get less (x ∷ xs) s (suc i) (suc j) h k =
    sorted-get less xs s.1 i j (omega arith) (omega arith)

module _ (std : SortUnstable) (ix : KeyIndex) where
  abbrev n : ℕ
  n = length ix.rules

  abbrev less : ℕ → ℕ → Bool
  less a b = bytes_lt (key ix a) (key ix b)

  less-IsWeakOrder : IsWeakOrder less
  less-IsWeakOrder = record {
    asymm = λ a b. bytes_lt_asymm (key ix a) (key ix b);
    ge_trans = λ a b c. bytes_ge_trans (key ix a) (key ix b) (key ix c);
  }

  Elem-order : (x : ℕ) → Elem x (sorted_order std ix) ↔ (x < n)
  unfolding sorted_order
  Elem-order x = (
    λ m. omega (arith, range_from-Elem 0 n x (Elem-perm x (std.permutes less (range_from 0 n)) m)),
    λ h.
        Elem-perm x (Perm.symm (std.permutes less (range_from 0 n)))
          (Elem-range_from 0 n x (omega arith) (omega arith)),
  )

  sum-order : (f : ℕ → ℕ) → sum_of f (sorted_order std ix) ≡ sum_of f (range_from 0 n)
  unfolding sorted_order
  sum-order f = sum_of-perm f (std.permutes less (range_from 0 n))

  order-IsSorted : IsSorted less (sorted_order std ix)
  unfolding sorted_order
  order-IsSorted = std.sorts less (range_from 0 n) less-IsWeakOrder

  module _ (st : KeyIndex) (m : Mirrors ix (sorted_order std ix) [] st) where
    Mirrors-IsFormed : IsFormed st
    Mirrors-IsFormed = record {
      offs = m.offs ∙ sym m.rules;
      lens = m.lens ∙ sym m.rules;
      in_arena = λ i h. m.in_arena i (omega (arith, m.rules));
    }

    Mirrors-IsOrdered : IsOrdered st
    Mirrors-IsOrdered i j le lt =
        let lt' : j < length (sorted_order std ix) = omega (arith, m.rules) in
        rw (m.keys i (omega arith), m.keys j lt')
          (elim (dec_lt i j) [
            | yes h ↦ sorted-get less (sorted_order std ix) order-IsSorted i j h lt'
            | no h ↦
                let e : i ≡ j = omega arith in
                rw e (bytes_lt_irrefl (key ix (get_or (sorted_order std ix) j 0)))
          ])

    Mirrors-Holds : (k : Bytes) (r : ℕ) → Holds st k r ↔ Holds ix k r
    Mirrors-Holds k r = (forth, back)
      where
        order : List ℕ
        order = sorted_order std ix

        forth : Holds st k r → Holds ix k r
        forth (j, lt, e, f) =
            let lt' : j < length order = omega (arith, m.rules) in
            let (x, q) = get_elem?_of_lt order j lt' in
            let g = get_or_of_some order j 0 q in
            (
              x,
              (Elem-order x).0 (Elem-get_elem? order j q),
              ap (key ix) (sym g) ∙ sym (m.keys j lt') ∙ e,
              ap (rule_at ix) (sym g) ∙ sym (m.same_rule j lt') ∙ f,
            )

        back : Holds ix k r → Holds st k r
        back (i, lt, e, f) =
            let (j, q) = get_elem?-Elem i order ((Elem-order i).1 lt) in
            let lt' = get_elem?-bound order j q in
            let g = get_or_of_some order j 0 q in
            (
              j,
              omega (arith, m.rules),
              m.keys j lt' ∙ ap (key ix) g ∙ e,
              m.same_rule j lt' ∙ ap (rule_at ix) g ∙ f,
            )

  total : IsFormed ix → IsPacked ix → sum_of (len_at ix) (range_from 0 n) ≡ length ix.arena
  total formed packed =
      ap (λ m. sum_of (len_at ix) (range_from 0 m)) (sym formed.lens)
      ∙ sum_of-range_from (len_at ix) ix.lens 0 (λ j lt. ap (λ m. get_or ix.lens m 0) (omega arith))
      ∙ sym packed

  -- A well-formed index whose keys fit in 32 bits is finished without a panic; the result is well
  -- formed and ordered, and holds the same pairs of key and rule.
  pub finish-Holds :
      IsFormed ix
      → IsPacked ix
      → n < u32_size
      → length ix.arena < u32_size
      → (st : KeyIndex) × (finish std ix ≡ some st)
        × IsFormed st
        × IsOrdered st
        × ((k : Bytes) (r : ℕ) → Holds st k r ↔ Holds ix k r)
  unfolding finish
  finish-Holds formed packed few small =
      let order = sorted_order std ix in
      let (st, ran, m) =
        rebuild-Mirrors ix formed order order 0 [] none refl
          (All-of_Elem (λ i. i < n) order (λ x. (Elem-order x).0))
          (omega (arith, sum-order (len_at ix), total formed packed)) tt in
      (
        st,
        rw (lt→ltb _ _ few) ran,
        Mirrors-IsFormed st m,
        Mirrors-IsOrdered st m,
        Mirrors-Holds st m,
      )
