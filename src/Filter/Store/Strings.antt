-- ===== src/Filter/Store/Strings.antt =====
-- The verbatim arena of the store is a `str`: where its characters begin.
use sumidero.Prelude.{
  ℕ, zero, suc, ◌+◌, ◌≡◌, refl, sym, subst, ap, ◌∙◌, ◌⊎◌, ◌↔◌, inl, inr, true, false, ◌||◌, none,
  some, [], ◌∷◌, ◌++◌, Bytes, Bool-cases, length, length-append, get_elem?, get_elem?-bound, Option,
  get_elem?-append_left, ltb, leb, ◌==◌, ==_iff, if◌then◌else◌, arith,
}
use sumidero.Filter.Store.{is_char_boundary, last_boundary}

-- The first byte, if there is one, begins a character.
abbrev pub StartsChar : Bytes → Type 0
StartsChar [] = Unit
StartsChar (b ∷ s) = ltb b 0x80 || leb 0xc0 b ≡ true

pub get_elem?-append_right :
    (v t : Bytes) (n : ℕ) → get_elem? (v ++ t) (length v + n) ≡ get_elem? t n
get_elem?-append_right [] t n = ap (get_elem? t) (omega arith)
get_elem?-append_right (b ∷ v) t n =
    let at : length (b ∷ v) + n ≡ suc (length v + n) = omega arith in
    ap (get_elem? (b ∷ v ++ t)) at ∙ get_elem?-append_right v t n

-- Where a character begins, or the text ends.
abbrev pub IsBoundary : Bytes → ℕ → Type 0
IsBoundary text l =
    (l ≡ 0)
    ⊎ ((l ≡ length text)
        ⊎ ((b : ℕ) × (get_elem? text l ≡ some b) × (ltb b 0x80 || leb 0xc0 b ≡ true)))

pub is_char_boundary_iff :
    (text : Bytes) (l : ℕ) → (is_char_boundary text l ≡ true) ↔ IsBoundary text l
is_char_boundary_iff text zero = (λ _. inl refl, λ _. refl)
is_char_boundary_iff text (suc l) =
    (λ h. from (get_elem? text (suc l)) refl (rw not_first at h), back)
  where
    not_first : (suc l == 0) ≡ false
    not_first = ground arith

    from :
        (o : Option ℕ)
        → get_elem? text (suc l) ≡ o
        → elim o [ none ↦ suc l == length text | some b ↦ ltb b 0x80 || leb 0xc0 b ] ≡ true
        → IsBoundary text (suc l)
    from none q h = inr (inl ((==_iff _ _).0 h))
    from (some b) q h = inr (inr (b, q, h))

    out_of_range : (v : Bytes) → get_elem? v (length v) ≡ none
    out_of_range [] = refl
    out_of_range (b ∷ v) = out_of_range v

    back : IsBoundary text (suc l) → is_char_boundary text (suc l) ≡ true
    back (inl q) = absurd (omega (arith, q))
    back (inr (inl q)) =
        rw (ap (get_elem? text) q ∙ out_of_range text, not_first) ((==_iff _ _).1 q)
    back (inr (inr (b, q, h))) = rw (q, not_first) h

-- A boundary of a text is one of every text that goes on with whole characters.
pub IsBoundary-append_left :
    (v t : Bytes) (p : ℕ) → IsBoundary v p → StartsChar t → IsBoundary (v ++ t) p
IsBoundary-append_left v t p (inl q) starts = inl q
IsBoundary-append_left v [] p (inr (inl q)) starts =
    inr (inl (q ∙ omega (arith, length-append {0} v [])))
IsBoundary-append_left v (b ∷ t) p (inr (inl q)) starts =
    let at : p ≡ length v + 0 = omega (arith, q) in
    inr (inr (b, ap (get_elem? (v ++ b ∷ t)) at ∙ get_elem?-append_right v (b ∷ t) 0, starts))
IsBoundary-append_left v t p (inr (inr (b, q, h))) starts =
    inr (inr (b, get_elem?-append_left v t p (get_elem?-bound v p q) ∙ q, h))

pub IsBoundary-append_right :
    (v t : Bytes) (n : ℕ) → IsBoundary t n → StartsChar t → IsBoundary (v ++ t) (length v + n)
IsBoundary-append_right v t n (inl q) starts =
    IsBoundary-append_left v t (length v + n) (inr (inl (omega (arith, q)))) starts
IsBoundary-append_right v t n (inr (inl q)) starts =
    inr (inl (omega (arith, q, length-append {0} v t)))
IsBoundary-append_right v t n (inr (inr (b, q, h))) starts =
    inr (inr (b, get_elem?-append_right v t n ∙ q, h))

pub last_boundary-IsBoundary : (text : Bytes) (l : ℕ) → IsBoundary text (last_boundary text l)
unfolding last_boundary
last_boundary-IsBoundary text zero = inl refl
last_boundary-IsBoundary text (suc l) = elim (Bool-cases (is_char_boundary text (suc l))) [
  | inl h ↦
      subst (λ b. IsBoundary text (if b then suc l else last_boundary text l)) (sym h)
        ((is_char_boundary_iff text (suc l)).0 h)
  | inr h ↦
      subst (λ b. IsBoundary text (if b then suc l else last_boundary text l)) (sym h)
        (last_boundary-IsBoundary text l)
]

-- The end of a text is a boundary, so a text that fits is kept whole.
pub last_boundary-length : (text : Bytes) → last_boundary text (length text) ≡ length text
unfolding last_boundary
last_boundary-length text = go (length text) refl
  where
    go : (l : ℕ) → l ≡ length text → last_boundary text l ≡ l
    go zero q = refl
    go (suc l) q = rw ((is_char_boundary_iff text (suc l)).1 (inr (inl q))) refl
