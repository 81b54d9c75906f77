-- ===== src/Filter/Labels/Under.antt =====
-- A name and its parent domains: what lies at and above a label boundary.
use sumidero.Prelude.{
  ℕ, ◌+◌, ◌<◌, ◌≡◌, refl, sym, ap, ap₂, ◌↔◌, ◌⊎◌, inl, inr, none, some, List, [], ◌∷◌, ◌++◌, Bytes,
  Bool-cases, Option-cases, Elem, length, drop, find, ◌==◌, if◌then◌else◌, arith,
}
use sumidero.Filter.Labels.{dot, after_dot}

-- `name` is `d` or a subdomain of `d`.
abbrev pub Under : Bytes → Bytes → Type 0
Under d name = (d ≡ name) ⊎ ((p : Bytes) × (name ≡ p ++ dot ∷ d))

-- All the parent domains, the nearest first.
abbrev pub parents : Bytes → List Bytes
parents [] = []
parents (b ∷ s) = if b == dot then s ∷ parents s else parents s

Elem-parents_of : (d p name : Bytes) → name ≡ p ++ dot ∷ d → Elem d (parents name)
Elem-parents_of d [] name e = rw e (inl refl)
Elem-parents_of d (b ∷ p) name e = rw e (elim (Bool-cases (b == dot)) [
  | inl h ↦ rw h (inr (Elem-parents_of d p (p ++ dot ∷ d) refl))
  | inr h ↦ rw h (Elem-parents_of d p (p ++ dot ∷ d) refl)
])

parents-cons :
    (b : ℕ) (s d : Bytes) → Elem d (parents (b ∷ s)) → ((b ≡ dot) × (d ≡ s)) ⊎ Elem d (parents s)
parents-cons b s d m = elim (Bool-cases (b == dot)) [
  | inl h ↦
      let m' : Elem d (s ∷ parents s) = rw h at m in
      elim m' [ inl e ↦ inl (ground arith, e) | inr k ↦ inr k ]
  | inr h ↦ inr (rw h at m)
]

parents-split : (d name : Bytes) → Elem d (parents name) → (p : Bytes) × (name ≡ p ++ dot ∷ d)
parents-split d [] m = absurd m
parents-split d (b ∷ s) m = elim (parents-cons b s d m) [
  | inl (h, e) ↦ ([], ap₂ ◌∷◌ h (sym e))
  | inr k ↦ let (p, e) = parents-split d s k in (b ∷ p, ap (◌∷◌ b) e)
]

-- The parent domains are what stands behind a dot.
pub Elem-parents_iff :
    (d name : Bytes) → Elem d (parents name) ↔ ((p : Bytes) × (name ≡ p ++ dot ∷ d))
Elem-parents_iff d name = (parents-split d name, λ (p, e). Elem-parents_of d p name e)

pub Elem-Under : (d name : Bytes) → Elem d (name ∷ parents name) ↔ Under d name
Elem-Under d name = (
  elim [ inl e ↦ inl e | inr m ↦ inr (parents-split d name m) ],
  elim [ inl e ↦ inl e | inr q ↦ inr (Elem-parents_of d q.0 name q.1) ],
)

-- The first dot, found: what is behind it is the nearest parent, and is shorter.
pub after_dot-none : (s : Bytes) → after_dot s ≡ none → parents s ≡ []
unfolding after_dot
after_dot-none [] h = refl
after_dot-none (b ∷ s) h = ground (arith, after_dot-none s)

pub after_dot-some :
    (s : Bytes) {r : Bytes}
    → after_dot s ≡ some r
    → (parents s ≡ r ∷ parents r) × (length r < length s)
unfolding after_dot
after_dot-some [] h = cc
after_dot-some (b ∷ s) {r} h = elim (Bool-cases (b == dot)) [
  | inl e ↦ ground arith
  | inr e ↦ elim (Option-cases (find dot s)) [
    | inl f ↦ absurd (ground arith)
    | inr (i, f) ↦
        let (q, lt) = after_dot-some s {r = drop (i + 1) s} (ground arith) in
        let same : drop (i + 1) s ≡ r = ground arith in ground (arith, q)
  ]
]
