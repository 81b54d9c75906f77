-- ===== src/Filter/Labels/Reversed.antt =====
-- Reversed labels turn "is a parent domain" into "is a prefix that ends at a label boundary".
use mathlib.Core.List.{reverse, reverse-cons, reverse-append, reverse-reverse}
use sumidero.Prelude.{
  length-append, ◌+◌, ◌<◌, ◌≤◌, leb, le→leb, some, if◌then◌else◌, ℕ, suc, ◌≡◌, ◌≢◌, refl, sym, ap,
  subst, ◌∙◌, ◌↔◌, ◌⊎◌, inl, inr, true, false, List, [], ◌∷◌, ◌++◌, append_assoc, Bytes, Bool-cases,
  All, length, ltb, lt→ltb, ◌==◌, split, cons_head, ends_with, arith,
}
use sumidero.Filter.Labels.{dot, write_labels, reverse_labels_into}
use sumidero.Filter.Labels.Join.{
  join, IsDotFree, split-ne-nil, All-reverse, split-IsDotFree, join-split, split-append, split-join,
  join-append,
}
use sumidero.Filter.Labels.Under.{Under}

-- The name has a last label, and it is not empty.
pub record EndsInLabel (s : Bytes) : Type 0 where
  pub ne_nil : s ≢ []
  pub no_dot : ends_with dot s ≡ false

abbrev pub reversed : Bytes → Bytes
reversed s = join (reverse (split dot s))

join-prefix : (a x : Bytes) (ls : List Bytes) → join ((a ++ x) ∷ ls) ≡ a ++ join (x ∷ ls)
join-prefix a x [] = refl
join-prefix a x (m ∷ ls) = append_assoc a x (dot ∷ join (m ∷ ls))

write_labels-join :
    (b : ℕ) (out : Bytes) (ls : List Bytes) → write_labels (b ∷ out) ls ≡ join ((b ∷ out) ∷ ls)
unfolding write_labels
write_labels-join b out [] = refl
write_labels-join b out (l ∷ ls) =
    let nonempty : ltb 0 (suc (length out)) ≡ true = lt→ltb 0 _ (omega arith) in
    rw nonempty (write_labels-join b ((out ++ dot ∷ []) ++ l) ls)
    ∙ ap (λ (x : Bytes). join ((b ∷ x) ∷ ls)) (append_assoc out (dot ∷ []) l)
    ∙ join-prefix (b ∷ out) (dot ∷ l) ls
    ∙ ap (λ (x : Bytes). b ∷ out ++ x) (join-prefix (dot ∷ []) l ls)

extend :
    (b : ℕ) (ls : List Bytes) (c : ℕ) (l : Bytes)
    → (ms : List Bytes) × (d : ℕ) × (m : Bytes) × (cons_head b (ls ++ (c ∷ l) ∷ [])
        ≡ ms ++ (d ∷ m) ∷ [])
extend b [] c l = ([], b, c ∷ l, refl)
extend b (x ∷ xs) c l = ((b ∷ x) ∷ xs, c, l, refl)

last_label :
    (b : ℕ) (s : Bytes)
    → ends_with dot (b ∷ s) ≡ false
    → (ls : List Bytes) × (c : ℕ) × (l : Bytes) × (split dot (b ∷ s) ≡ ls ++ (c ∷ l) ∷ [])
last_label b [] h = ([], b, [], ground arith)
last_label b (d ∷ s) h =
    let (ls, c, l, e) = last_label d s (ground arith) in
    elim (Bool-cases (b == dot)) [
      | inl k ↦ ([] ∷ ls, c, l, rw k (ap (◌∷◌ []) e))
      | inr k ↦ rw (k, e) (extend b ls c l)
    ]

-- The loop writes the labels in reverse order, joined by dots.
pub write_labels-reversed :
    (s : Bytes) → EndsInLabel s → write_labels [] (reverse (split dot s)) ≡ reversed s
unfolding write_labels
write_labels-reversed [] h = absurd (h.ne_nil refl)
write_labels-reversed (b ∷ s) h =
    let (ls, c, l, e) = last_label b s h.no_dot in
    let e' : reverse (split dot (b ∷ s)) ≡ (c ∷ l) ∷ reverse ls =
      ap reverse e ∙ reverse-append ls ((c ∷ l) ∷ []) in
    rw e' (write_labels-join c l (reverse ls))

reverse-ne-nil : (ls : List Bytes) → ls ≢ [] → reverse ls ≢ []
reverse-ne-nil ls h k = h (sym (reverse-reverse ls) ∙ ap reverse k)

reverse-cases :
    (ls : List Bytes) → ls ≢ [] → (m : Bytes) × (ms : List Bytes) × (reverse ls ≡ m ∷ ms)
reverse-cases ls h = go (reverse ls) refl
  where
    go :
        (rs : List Bytes)
        → reverse ls ≡ rs
        → (m : Bytes) × (ms : List Bytes) × (reverse ls ≡ m ∷ ms)
    go [] e = absurd (reverse-ne-nil ls h e)
    go (m ∷ ms) e = (m, ms, e)

split-reversed : (s : Bytes) → split dot (reversed s) ≡ reverse (split dot s)
split-reversed s =
    let (m, ms, e) = reverse-cases (split dot s) (split-ne-nil s) in
    let free = subst (All IsDotFree) e (All-reverse IsDotFree (split dot s) (split-IsDotFree s)) in
    ap (λ x. split dot (join x)) e ∙ split-join m ms free ∙ sym e

pub reversed-reversed : (s : Bytes) → reversed (reversed s) ≡ s
reversed-reversed s = rw split-reversed (rw reverse-reverse (join-split s))

abbrev pub AtBoundary : Bytes → Bytes → Type 0
AtBoundary k rev = (k ≡ rev) ⊎ ((r : Bytes) × (rev ≡ k ++ dot ∷ r))

reversed-append : (p d : Bytes) → reversed (p ++ dot ∷ d) ≡ reversed d ++ dot ∷ reversed p
reversed-append p d =
    ap (λ x. join (reverse x)) (split-append p d)
    ∙ ap join (reverse-append (split dot p) (split dot d))
    ∙ join-append _ _ (reverse-ne-nil _ (split-ne-nil d)) (reverse-ne-nil _ (split-ne-nil p))

-- The reversed `d` is a prefix of the reversed name, at a label boundary, exactly if the name is `d`
-- or a subdomain of `d`.
pub AtBoundary-Under : (d name : Bytes) → AtBoundary (reversed d) (reversed name) ↔ Under d name
AtBoundary-Under d name = (
  elim [
    | inl e ↦ inl (sym (reversed-reversed d) ∙ ap reversed e ∙ reversed-reversed name)
    | inr (r, e) ↦ inr (
      reversed r,
      sym (reversed-reversed name)
          ∙ ap reversed e
          ∙ reversed-append (reversed d) r
          ∙ ap (λ x. reversed r ++ dot ∷ x) (reversed-reversed d),
    )
  ],
  elim [
    | inl e ↦ inl (ap reversed e)
    | inr (p, e) ↦ inr (reversed p, ap reversed e ∙ reversed-append p d)
  ],
)

-- The room that labels and dots take.
abbrev room : List Bytes → ℕ
room [] = 0
room (l ∷ ls) = length l + 1 + room ls

room-append : (xs ys : List Bytes) → room (xs ++ ys) ≡ room xs + room ys
room-append [] ys = omega arith
room-append (x ∷ xs) ys = omega (arith, room-append xs ys)

room-reverse : (xs : List Bytes) → room (reverse xs) ≡ room xs
room-reverse [] = refl
room-reverse (x ∷ xs) =
    ap room (reverse-cons x xs) ∙ room-append (reverse xs) (x ∷ []) ∙ omega (arith, room-reverse xs)

room-cons_head : (b : ℕ) (ls : List Bytes) → ls ≢ [] → room (cons_head b ls) ≡ suc (room ls)
room-cons_head b [] h = absurd (h refl)
room-cons_head b (l ∷ ls) h = omega arith

room-split : (s : Bytes) → room (split dot s) ≡ length s + 1
room-split [] = omega arith
room-split (b ∷ s) = elim (Bool-cases (b == dot)) [
  | inl h ↦ rw h (omega (arith, room-split s))
  | inr h ↦ rw h (room-cons_head b (split dot s) (split-ne-nil s) ∙ omega (arith, room-split s))
]

write_labels-le :
    (ls : List Bytes) (out : Bytes) → length (write_labels out ls) ≤ length out + room ls
unfolding write_labels
write_labels-le [] out = omega arith
write_labels-le (l ∷ ls) out =
    let sep = if ltb 0 (length out) then out ++ dot ∷ [] else out in
    let short : length sep ≤ length out + 1 = elim (Bool-cases (ltb 0 (length out))) [
      | inl h ↦ rw h (omega (arith, length-append {0} out (dot ∷ [])))
      | inr h ↦ rw h (omega arith)
    ] in
    omega (arith, write_labels-le ls (sep ++ l), length-append {0} sep l)

-- A name of at most 253 bytes fits in the buffer, with or without an empty last label.
pub reverse_labels_into-some :
    (s : Bytes)
    → length s ≤ 253
    → reverse_labels_into s ≡ some (write_labels [] (reverse (split dot s)))
unfolding reverse_labels_into
reverse_labels_into-some s h =
    let fits = write_labels-le (reverse (split dot s)) [] in
    let small : leb (length (write_labels [] (reverse (split dot s)))) 256 ≡ true =
      le→leb _ _ (omega (arith, fits, room-reverse (split dot s), room-split s)) in
    rw small

pub reverse_labels_into-reversed :
    (s : Bytes)
    → EndsInLabel s
    → length s ≤ 253
    → (reverse_labels_into s ≡ some (reversed s)) × (length (reversed s) < 256)
reverse_labels_into-reversed s n h =
    let e = write_labels-reversed s n in
    let fits = write_labels-le (reverse (split dot s)) [] in
    (
      reverse_labels_into-some s h ∙ ap some e,
      omega (arith, fits, ap (length {A = ℕ}) e, room-reverse (split dot s), room-split s),
    )

length-join : (l : Bytes) (ls : List Bytes) → length (join (l ∷ ls)) + 1 ≡ room (l ∷ ls)
length-join l [] = omega arith
length-join l (m ∷ ls) = omega (arith, length-append {0} l (dot ∷ join (m ∷ ls)), length-join m ls)

pub length-reversed : (s : Bytes) → length (reversed s) ≡ length s
length-reversed s =
    let (m, ms, e) = reverse-cases (split dot s) (split-ne-nil s) in
    let whole : length (reversed s) + 1 ≡ room (reverse (split dot s)) =
      ap (λ x. length (join x) + 1) e ∙ length-join m ms ∙ sym (ap room e) in
    omega (arith, whole, room-reverse (split dot s), room-split s)
