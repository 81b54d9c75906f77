-- ===== src/Filter/Labels/Join.antt =====
-- Splitting a name at its dots and joining labels undo one another.
use mathlib.Core.List.{reverse, reverse-cons}
use sumidero.Prelude.{
  ℕ, ◌≡◌, refl, sym, subst, ap, ap₂, ◌∙◌, ◌≢◌, List, [], ◌∷◌, ◌++◌, append_assoc, Bytes, Bool-cases,
  inl, inr, All, All-append, ◌==◌, split, cons_head, arith,
}
use sumidero.Filter.Labels.{dot}

abbrev pub join : List Bytes → Bytes
join [] = []
join (l ∷ []) = l
join (l ∷ m ∷ ls) = l ++ dot ∷ join (m ∷ ls)

abbrev pub IsDotFree : Bytes → Type 0
IsDotFree l = All (λ b. b ≢ dot) l

pub split-cases : (s : Bytes) → (l : Bytes) × (ls : List Bytes) × (split dot s ≡ l ∷ ls)
split-cases [] = ([], [], refl)
split-cases (b ∷ s) =
    let (l, ls, e) = split-cases s in
    elim (Bool-cases (b == dot)) [
      | inl h ↦ ([], l ∷ ls, rw h (ap (◌∷◌ []) e))
      | inr h ↦ (b ∷ l, ls, rw h (ap (cons_head b) e))
    ]

pub split-ne-nil : (s : Bytes) → split dot s ≢ []
split-ne-nil s h = let (l, ls, e) = split-cases s in cc

pub All-reverse : (P : Bytes → Type 0) (ls : List Bytes) → All P ls → All P (reverse ls)
All-reverse P [] h = h
All-reverse P (l ∷ ls) h =
    rw reverse-cons (All-append P (reverse ls) (l ∷ []) (All-reverse P ls h.1) (h.0, tt))

pub split-IsDotFree : (s : Bytes) → All IsDotFree (split dot s)
split-IsDotFree [] = (tt, tt)
split-IsDotFree (b ∷ s) =
    let (l, ls, e) = split-cases s in
    let free : All IsDotFree (l ∷ ls) = subst (All IsDotFree) e (split-IsDotFree s) in
    elim (Bool-cases (b == dot)) [
      | inl h ↦ rw h (tt, split-IsDotFree s)
      | inr h ↦ rw (h, e) ((ground arith, free.0), free.1)
    ]

join-cons_head :
    (b : ℕ) (l : Bytes) (ls : List Bytes) → join (cons_head b (l ∷ ls)) ≡ b ∷ join (l ∷ ls)
join-cons_head b l [] = refl
join-cons_head b l (m ∷ ls) = refl

pub join-split : (s : Bytes) → join (split dot s) ≡ s
join-split [] = refl
join-split (b ∷ s) =
    let (l, ls, e) = split-cases s in
    let whole : join (l ∷ ls) ≡ s = rw e at (join-split s) in
    elim (Bool-cases (b == dot)) [
      | inl h ↦ rw (h, e) (ground (arith, whole))
      | inr h ↦ rw (h, e) (join-cons_head b l ls ∙ ap (◌∷◌ b) whole)
    ]

cons_head-append :
    (b : ℕ) (xs ys : List Bytes) → xs ≢ [] → cons_head b (xs ++ ys) ≡ cons_head b xs ++ ys
cons_head-append b [] ys h = absurd (h refl)
cons_head-append b (x ∷ xs) ys h = refl

pub split-append : (p s : Bytes) → split dot (p ++ dot ∷ s) ≡ split dot p ++ split dot s
split-append [] s = refl
split-append (b ∷ p) s = elim (Bool-cases (b == dot)) [
  | inl h ↦ rw h (ap (◌∷◌ []) (split-append p s))
  | inr h ↦ rw h (
      ap (cons_head b) (split-append p s)
      ∙ cons_head-append b (split dot p) (split dot s) (split-ne-nil p))
]

split-of-dotfree : (l : Bytes) → IsDotFree l → split dot l ≡ l ∷ []
split-of-dotfree [] h = refl
split-of-dotfree (b ∷ l) h = ground (arith, split-of-dotfree l h.1)

pub split-join :
    (l : Bytes) (ls : List Bytes) → All IsDotFree (l ∷ ls) → split dot (join (l ∷ ls)) ≡ l ∷ ls
split-join l [] h = split-of-dotfree l h.0
split-join l (m ∷ ls) h =
    split-append l (join (m ∷ ls)) ∙ ap₂ ◌++◌ (split-of-dotfree l h.0) (split-join m ls h.1)

pub join-append :
    (xs ys : List Bytes) → xs ≢ [] → ys ≢ [] → join (xs ++ ys) ≡ join xs ++ dot ∷ join ys
join-append [] ys h k = absurd (h refl)
join-append (x ∷ []) [] h k = absurd (k refl)
join-append (x ∷ []) (y ∷ ys) h k = refl
join-append (x ∷ m ∷ xs) ys h k =
    ap (λ r. x ++ dot ∷ r) (join-append (m ∷ xs) ys (λ e. cc) k)
    ∙ sym (append_assoc x (dot ∷ join (m ∷ xs)) (dot ∷ join ys))
