-- ===== src/Filter/Wildcard/Anchor.antt =====
-- The bucket index loses nothing: a name that a wildcard covers lies below the wildcard's anchor.
use native.Mathlib.Numerals.{add-one}
use sumidero.Prelude.{
  ℕ, suc, ◌+◌, ◌≡◌, refl, sym, subst, ap, ap₂, ◌∙◌, inl, inr, Bool, true, false, none, some, [],
  ◌∷◌, ◌++◌, append_assoc, Bytes, Option-cases, Elem, drop, rfind, >>=-eq-some, arith,
}
use sumidero.Filter.Glob.{star}
use sumidero.Filter.Glob.Relation.{Glob, done, byte, stop, more, IsPlain}
use sumidero.Filter.Labels.{dot, after_dot}
use sumidero.Filter.Labels.Under.{parents, Elem-parents_iff, after_dot-some}
use sumidero.Filter.Wildcard.{wildcard_anchor, nonempty}
use sumidero.Filter.Wildcard.Covers.{Covers}

-- A text that matches `u ++ w` ends in a text that matches `w`.
Glob-suffix :
    {x s : Bytes} (u w : Bytes)
    → Glob x s
    → x ≡ u ++ w
    → (p : Bytes) × (t : Bytes) × (s ≡ p ++ t) × Glob w t
Glob-suffix {s} [] w g e = ([], s, refl, subst (λ y. Glob y s) e g)
Glob-suffix (c ∷ u) w done e = absurd (ground arith)
Glob-suffix (c ∷ u) w (byte {d} n f g) e =
    let (p, t, q, h) = Glob-suffix u w g (ground arith) in (d ∷ p, t, ap (◌∷◌ d) q, h)
Glob-suffix (c ∷ u) w (stop f g) e = Glob-suffix u w g (ground arith)
Glob-suffix (c ∷ u) w (more {d} f g) e =
    let (p, t, q, h) = Glob-suffix (c ∷ u) w g e in (d ∷ p, t, ap (◌∷◌ d) q, h)

-- A pattern without a star matches itself alone.
Glob-plain : (w s : Bytes) → IsPlain w → Glob w s → s ≡ w
Glob-plain [] s h done = refl
Glob-plain (c ∷ w) (d ∷ s) h (byte n e g) = ap₂ ◌∷◌ (sym e) (Glob-plain w s h.1 g)
Glob-plain (c ∷ w) s h (stop e g) = absurd (h.0 e)
Glob-plain (c ∷ w) s h (more e g) = absurd (h.0 e)

rfind-none : (e : Bytes) → rfind star e ≡ none → IsPlain e
rfind-none [] h = tt
rfind-none (b ∷ e) h = elim (Option-cases (rfind star e)) [
  | inl f ↦ (ground arith, rfind-none e f)
  | inr (j, f) ↦ absurd (ground arith)
]

rfind-split :
    (e : Bytes) {i : ℕ}
    → rfind star e ≡ some i
    → (u : Bytes) × (e ≡ u ++ drop (suc i) e) × IsPlain (drop (suc i) e)
rfind-split [] h = absurd (ground arith)
rfind-split (b ∷ e) {i} h = elim (Option-cases (rfind star e)) [
  | inl f ↦ let z : i ≡ 0 = ground arith in rw z (b ∷ [], refl, rfind-none e f)
  | inr (j, f) ↦
      let (u, q, plain) = rfind-split e f in
      let z : i ≡ suc j = ground arith in rw z (b ∷ u, ap (◌∷◌ b) q, plain)
]

nonempty-some : (s : Bytes) {a : Bytes} → nonempty s ≡ some a → s ≡ a
unfolding nonempty
nonempty-some [] h = absurd (ground arith)
nonempty-some (b ∷ s) h = ground arith

after_dot-split : (s : Bytes) {a : Bytes} → after_dot s ≡ some a → (v : Bytes) × (s ≡ v ++ dot ∷ a)
after_dot-split s {a} h =
    (Elem-parents_iff a s).0 (subst (Elem a) (sym (after_dot-some s h).0) (inl refl))

wildcard_anchor-split :
    (expr : Bytes) {a : Bytes}
    → wildcard_anchor expr ≡ some a
    → (u : Bytes) × (v : Bytes) × (expr ≡ u ++ (v ++ dot ∷ a)) × IsPlain (v ++ dot ∷ a)
unfolding wildcard_anchor
wildcard_anchor-split expr {a} h =
    let (i, found, rest) = >>=-eq-some (rfind star expr) _ h in
    let (r, cut, full) = >>=-eq-some (after_dot (drop (i + 1) expr)) nonempty rest in
    let (u, q, plain) = rfind-split expr found in
    let (v, e) = after_dot-split (drop (i + 1) expr) cut in
    let e' : drop (suc i) expr ≡ v ++ dot ∷ a =
      subst (λ (n : ℕ). drop n expr ≡ v ++ dot ∷ a) (add-one i)
        (e ∙ ap (λ x. v ++ dot ∷ x) (nonempty-some r full)) in
    (u, v, q ∙ ap (λ x. u ++ x) e', subst IsPlain e' plain)

Glob-anchor :
    (expr name a : Bytes)
    → wildcard_anchor expr ≡ some a
    → Glob expr name
    → (p : Bytes) × (name ≡ p ++ dot ∷ a)
Glob-anchor expr name a h g =
    let (u, v, e, plain) = wildcard_anchor-split expr h in
    let (p, t, q, m) = Glob-suffix u (v ++ dot ∷ a) g e in
    let w = Glob-plain (v ++ dot ∷ a) t plain m in
    (p ++ v, q ∙ ap (λ x. p ++ x) w ∙ sym (append_assoc p v (dot ∷ a)))

-- Every name that a wildcard with an anchor covers lies below the anchor.
pub Covers-anchor :
    (expr name a : Bytes) (include_subdomains : Bool)
    → wildcard_anchor expr ≡ some a
    → Covers expr include_subdomains name
    → Elem a (parents name)
Covers-anchor expr name a false h g = (Elem-parents_iff a name).1 (Glob-anchor expr name a h g)
Covers-anchor expr name a true h (d, inl e, g) =
    (Elem-parents_iff a name).1
      (subst (λ x. (p : Bytes) × (x ≡ p ++ dot ∷ a)) e (Glob-anchor expr d a h g))
Covers-anchor expr name a true h (d, inr (q, e), g) =
    let (p, f) = Glob-anchor expr d a h g in
    (Elem-parents_iff a name).1
      (q ++ dot ∷ p, e ∙ ap (λ x. q ++ dot ∷ x) f ∙ sym (append_assoc q (dot ∷ p) (dot ∷ a)))
