-- ===== src/Filter/Engine/Forms.antt =====
-- The form that a rule gets says how its text is made from its key.
use sumidero.Prelude.{
  ℕ, ◌≡◌, refl, sym, subst, ap, ap₂, ◌>>=◌, ◌∙◌, ◌⊎◌, inl, inr, Bool, true, false, ◌&&◌, Option,
  none, some, some-inj, some≢none, false≢true, append_assoc, [], ◌∷◌, ◌++◌, Bytes, codes,
  Bool-cases, Option-cases, length, bytes_eq, bytes_eq_iff, strip_prefix, strip_suffix, expect,
  ◌>>◌, ==_iff, ◌==◌, if◌then◌else◌, arith,
}
use sumidero.Filter.Store.{
  form_verbatim, form_subtree, form_exact_caret, form_hosts_zero, is_char_boundary,
}
use sumidero.Filter.Types.{Pattern, Rule, is_exception}
use sumidero.Filter.Engine.{body_of, is_canonical_subtree, is_hosts_zero, exact_form, is_exact_form}
use sumidero.Filter.Engine.Texts.{IsQuoted, mark}
use sumidero.Filter.Engine.Stored.{Says}
use sumidero.Filter.Verdict.{exact_text}

strip_prefix-append : (p s : Bytes) {t : Bytes} → strip_prefix p s ≡ some t → s ≡ p ++ t
strip_prefix-append [] s h = some-inj h
strip_prefix-append (a ∷ p) [] h = absurd (ground arith)
strip_prefix-append (a ∷ p) (b ∷ s) {t} h = elim (Bool-cases (a == b)) [
  | inl e ↦
      let same : b ≡ a = sym ((==_iff a b).0 e) in
      let rest : s ≡ p ++ t = strip_prefix-append p s (rw e at h) in
      ap (λ c. c ∷ s) same ∙ ap (◌∷◌ a) rest
  | inr e ↦ absurd (some≢none (sym (rw e at h)))
]

strip_suffix-append : (c : ℕ) (s : Bytes) {t : Bytes} → strip_suffix c s ≡ some t → s ≡ t ++ c ∷ []
strip_suffix-append c [] h = absurd (ground arith)
strip_suffix-append c (b ∷ []) h = elim (Bool-cases (b == c)) [
  | inl e ↦ ground (arith, e, h)
  | inr e ↦ absurd (ground (arith, e, h))
]
strip_suffix-append c (b ∷ d ∷ s) h = elim (Option-cases (strip_suffix c (d ∷ s))) [
  | inl e ↦ absurd (some≢none (sym (rw e at h)))
  | inr (t, e) ↦
      ap (◌∷◌ b) (strip_suffix-append c (d ∷ s) e) ∙ ap (λ x. x ++ c ∷ []) (some-inj (rw e at h))
]

text-marked : (r : Rule) → IsQuoted r → r.text ≡ mark r ++ body_of r
unfolding body_of
text-marked r quoted = elim (Bool-cases (is_exception r.action)) [
  | inl h ↦ let (b, q) = quoted.marked h in rw (h, q) (strip_prefix-append (codes "@@") r.text q)
  | inr h ↦ rw h refl
]

canonical_subtree-text :
    (body d : Bytes) → is_canonical_subtree body d ≡ true → body ≡ codes "||" ++ d ++ b'^' ∷ []
unfolding is_canonical_subtree
canonical_subtree-text body d h = elim (Option-cases (strip_prefix (codes "||") body)) [
  | inl p ↦ absurd (false≢true (rw p at h))
  | inr (b, p) ↦ elim (Option-cases (strip_suffix b'^' b)) [
    | inl q ↦ absurd (false≢true (rw (p, q) at h))
    | inr (c, q) ↦
        let same : c ≡ d = (bytes_eq_iff c d).0 (rw (p, q) at h) in
        strip_prefix-append (codes "||") body p
        ∙ ap (λ x. codes "||" ++ x) (strip_suffix-append b'^' b q)
        ∙ ap (λ x. codes "||" ++ x ++ b'^' ∷ []) same
  ]
]

pub subtree-Says :
    (r : Rule) (d : Bytes)
    → IsQuoted r
    → r.pattern ≡ Pattern.subtree d
    → Says r (if is_canonical_subtree (body_of r) d then form_subtree else form_verbatim)
subtree-Says r d quoted p = elim (Bool-cases (is_canonical_subtree (body_of r) d)) [
  | inl h ↦ rw h (
      inr (
        inl (
          d,
          p,
          refl,
          text-marked r quoted
              ∙ ap (λ x. mark r ++ x) (canonical_subtree-text (body_of r) d h)
              ∙ sym (append_assoc (mark r) (codes "||" ++ d) (b'^' ∷ []))
              ∙ ap (λ x. x ++ b'^' ∷ []) (sym (append_assoc (mark r) (codes "||") d)),
        )))
  | inr h ↦ rw h (inl refl)
]

abbrev SaysExact : Bool → Bytes → Bytes → ℕ → Type 0
SaysExact except body d f =
    (f ≡ form_verbatim)
    ⊎ ((is_exact_form f ≡ true)
        × ((if except then codes "@@" else []) ++ body
            ≡ exact_text (if except then codes "@@" else []) f d))

hosts_zero-text : (body d : Bytes) → is_hosts_zero body d ≡ some true → body ≡ codes "0.0.0.0 " ++ d
unfolding is_hosts_zero
hosts_zero-text body d h = go (strip_prefix (codes "0.0.0.0") body) refl h
  where
    both : (sep : ℕ) (s : Bytes) → bytes_eq s d && sep == b' ' ≡ true → (s ≡ d) × (sep ≡ b' ')
    both sep s h = ((bytes_eq_iff s d).0 (ground (arith, h)), (==_iff _ _).0 (ground (arith, h)))

    cut :
        (sep : ℕ) (s : Bytes) (b : Bool)
        → (do expect b; some (bytes_eq s d && sep == b' ')) ≡ some true
        → (s ≡ d) × (sep ≡ b' ')
    cut sep s true h = both sep s (some-inj h)
    cut sep s false h = absurd (some≢none (sym h))

    go :
        (o : Option Bytes)
        → strip_prefix (codes "0.0.0.0") body ≡ o
        → elim o [
          | none ↦ some false
          | some [] ↦ some false
          | some (sep ∷ s) ↦
              if length s == length d
              then (do expect (is_char_boundary (sep ∷ s) 1); some (bytes_eq s d && sep == b' '))
              else some false
        ]
          ≡ some true
        → body ≡ codes "0.0.0.0 " ++ d
    go none p h = absurd (false≢true (some-inj h))
    go (some []) p h = absurd (false≢true (some-inj h))
    go (some (sep ∷ s)) p h = elim (Bool-cases (length s == length d)) [
      | inl e ↦
          let (same, space) = cut sep s (is_char_boundary (sep ∷ s) 1) (rw e at h) in
          strip_prefix-append (codes "0.0.0.0") body p
          ∙ ap₂ (λ c x. codes "0.0.0.0" ++ c ∷ x) space same
      | inr e ↦ absurd (false≢true (some-inj (rw e at h)))
    ]

exact_form-SaysExact :
    (except : Bool) (body d : Bytes) {f : ℕ}
    → exact_form except body d ≡ some f
    → SaysExact except body d f
unfolding exact_form exact_text
exact_form-SaysExact except body d {f} h = elim (Bool-cases (bytes_eq body d)) [
  | inl same ↦ subst (SaysExact except body d) (some-inj (rw same at h)) (
      inr (refl, ap (λ x. (if except then codes "@@" else []) ++ x) ((bytes_eq_iff body d).0 same)))
  | inr other ↦ caret (strip_suffix b'^' body) refl (rw other at h)
]
  where
    zero_form :
        (e : Bool) (o : Option Bool)
        → is_hosts_zero body d ≡ o
        → (if e
            then some form_verbatim
            else (do z ← o; some (if z then form_hosts_zero else form_verbatim)))
          ≡ some f
        → SaysExact e body d f
    zero_form true o q h = inl (sym (some-inj h))
    zero_form false none q h = absurd (some≢none (sym h))
    zero_form false (some false) q h = inl (sym (some-inj h))
    zero_form false (some true) q h =
        subst (SaysExact false body d) (some-inj h) (inr (refl, hosts_zero-text body d q))

    caret :
        (o : Option Bytes)
        → strip_suffix b'^' body ≡ o
        → (if elim o [ none ↦ false | some c ↦ bytes_eq c d ]
            then some form_exact_caret
            else if except
            then some form_verbatim
            else (do z ← is_hosts_zero body d; some (if z then form_hosts_zero else form_verbatim)))
          ≡ some f
        → SaysExact except body d f
    caret none q h = zero_form except (is_hosts_zero body d) refl h
    caret (some c) q h = elim (Bool-cases (bytes_eq c d)) [
      | inl same ↦
          let at = if except then codes "@@" else [] in
          subst (SaysExact except body d) (some-inj (rw same at h)) (
            inr (
              refl,
              ap (λ x. at ++ x) (strip_suffix-append b'^' body q)
                  ∙ sym (append_assoc at c (b'^' ∷ []))
                  ∙ ap (λ x. at ++ x ++ b'^' ∷ []) ((bytes_eq_iff c d).0 same),
            ))
      | inr other ↦ zero_form except (is_hosts_zero body d) refl (rw other at h)
    ]

pub exact-Says :
    (r : Rule) (d : Bytes) {f : ℕ}
    → IsQuoted r
    → r.pattern ≡ Pattern.exact d
    → exact_form (is_exception r.action) (body_of r) d ≡ some f
    → Says r f
exact-Says r d quoted p h = elim (exact_form-SaysExact (is_exception r.action) (body_of r) d h) [
  | inl v ↦ inl v
  | inr (e, t) ↦ inr (inr (d, p, e, text-marked r quoted ∙ t))
]
