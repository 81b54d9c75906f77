-- ===== src/Filter/Labels/Boundaries.antt =====
-- The boundary loop of `verdict` visits exactly the label-boundary prefixes.
use sumidero.Prelude.{
  ℕ, suc, ◌+◌, ◌≡◌, refl, sym, subst, ap, ap₂, ◌∙◌, ◌↔◌, inl, inr, [], ◌∷◌, ◌++◌, Bytes, Bool-cases,
  Elem, Elem-append, Elem-append_left, Elem-append_right, length, take, take-append,
  take_of_length-le, ◌==◌, arith,
}
use sumidero.Filter.Labels.{dot, dots_from, boundaries}
use sumidero.Filter.Labels.Reversed.{AtBoundary}

abbrev DotAt : ℕ → Bytes → ℕ → Type 0
DotAt i s e = (a : Bytes) × (r : Bytes) × (s ≡ a ++ dot ∷ r) × (e ≡ i + length a)

dots_from-DotAt : (i : ℕ) (s : Bytes) (e : ℕ) → Elem e (dots_from i s) → DotAt i s e
unfolding dots_from
dots_from-DotAt i [] e m = absurd m
dots_from-DotAt i (b ∷ s) e m = elim (Bool-cases (b == dot)) [
  | inl h ↦
      let m' : Elem e (i ∷ dots_from (i + 1) s) = rw h at m in
      elim m' [
        | inl k ↦ ([], s, ground arith, omega arith)
        | inr k ↦ later (dots_from-DotAt (i + 1) s e k)
      ]
  | inr h ↦ later (dots_from-DotAt (i + 1) s e (rw h at m))
]
  where
    later : DotAt (i + 1) s e → DotAt i (b ∷ s) e
    later (a, r, q, k) = (b ∷ a, r, ap (◌∷◌ b) q, omega arith)

DotAt-dots_from : (a : Bytes) (i : ℕ) (r : Bytes) → Elem (i + length a) (dots_from i (a ++ dot ∷ r))
unfolding dots_from
DotAt-dots_from [] i r = inl (omega arith)
DotAt-dots_from (b ∷ a) i r =
    let e : i + suc (length a) ≡ i + 1 + length a = omega arith in
    let ih = DotAt-dots_from a (i + 1) r in
    rw e (elim (Bool-cases (b == dot)) [ inl h ↦ rw h (inr ih) | inr h ↦ rw h ih ])

-- A key is one of the prefixes that the loop looks up exactly if it is a prefix at a boundary.
pub boundaries-AtBoundary :
    (k rev : Bytes) → ((e : ℕ) × Elem e (boundaries rev) × (k ≡ take e rev)) ↔ AtBoundary k rev
unfolding boundaries
boundaries-AtBoundary k rev = (forth, back)
  where
    forth :
        (e : ℕ) × Elem e (dots_from 0 rev ++ length rev ∷ []) × (k ≡ take e rev) → AtBoundary k rev
    forth (e, m, q) = elim (Elem-append e (dots_from 0 rev) (length rev ∷ []) m) [
      | inl d ↦
          let (a, r, s, n) = dots_from-DotAt 0 rev e d in
          let n' : e ≡ length a = omega arith in
          inr (
            r,
            s
                ∙ ap (λ x. x ++ dot ∷ r)
                    (sym (take-append a (dot ∷ r)) ∙ ap₂ take (sym n') (sym s) ∙ sym q),
          )
      | inr (inl n) ↦ inl (q ∙ take_of_length-le e rev (omega arith))
      | inr (inr n) ↦ absurd n
    ]

    back :
        AtBoundary k rev → (e : ℕ) × Elem e (dots_from 0 rev ++ length rev ∷ []) × (k ≡ take e rev)
    back (inl e) = (
      length rev,
      Elem-append_right _ (dots_from 0 rev) _ (inl refl),
      e ∙ sym (take_of_length-le _ rev (omega arith)),
    )
    back (inr (r, e)) = (
      length k,
      subst (λ (x : Bytes). Elem (length k) (dots_from 0 x ++ length x ∷ [])) (sym e)
          (Elem-append_left _ _ _ (
            subst (λ (n : ℕ). Elem n (dots_from 0 (k ++ dot ∷ r))) (omega arith)
              (DotAt-dots_from k 0 r))),
      sym (ap (take (length k)) e ∙ take-append k (dot ∷ r)),
    )
