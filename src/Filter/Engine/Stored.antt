-- ===== src/Filter/Engine/Stored.antt =====
-- A rule is stored with its text: the new text is found, and the others stay.
use sumidero.Prelude.{
  ℕ, ◌/◌, ◌≤◌, ◌<◌, min, ◌≡◌, refl, sym, subst, ap, ◌∙◌, ◌⊎◌, inl, inr, Bool, true, false, some,
  some-inj, [], ◌∷◌, ◌++◌, Bytes, Bool-cases, length, length-append, length-set,
  get_elem?-append_left, get_elem?-set_self, get_elem?-set_ne, get_or, get_or-append_left,
  get_or-append_last, set, take, drop-append, append-nil, take_of_length-le, lt→ltb, ==_iff, ◌==◌,
  arith,
}
use native.Mathlib.Decide.{dec_lt}
use sumidero.Filter.Index.{u32_size}
use sumidero.Filter.Store
use sumidero.Filter.Store.{
  Store, form_verbatim, form_subtree, form_exact, form_exact_caret, form_hosts_zero, flag_bits,
  last_boundary, push_verbatim,
}
use sumidero.Filter.Store.Pushed.{pushed, last_boundary-le}
use sumidero.Filter.Store.Strings.{
  IsBoundary-append_left, IsBoundary-append_right, last_boundary-IsBoundary, last_boundary-length,
}
use sumidero.Filter.Types.{Rule, is_exception}
use sumidero.Filter.Engine.{keep_text}
use sumidero.Filter.Engine.Entries.{Rules}
use sumidero.Filter.Engine.Texts.{
  IsQuoted, IsShown, FromSubtree, FromExact, FromArena, Texts, Extends, Texts-Extends,
}

-- The store with the text kept, as far as a span reaches.
abbrev pub stored : Store → ℕ → Bytes → Store
stored s id text = record s {
  verbatim = s.verbatim ++ text;
  span_off = set s.span_off id (length s.verbatim);
  span_len = set s.span_len id (last_boundary text (min (length text) 255));
}

abbrev pub IsKept : Store → Store → ℕ → ℕ → Bytes → Type 0
IsKept s s' form id text =
    (((form == form_verbatim) ≡ true) × (stored s id text ≡ s'))
    ⊎ (((form == form_verbatim) ≡ false) × (s ≡ s'))

pub push_verbatim-stored :
    (s : Store) (id : ℕ) (text : Bytes)
    → length s.verbatim < u32_size
    → push_verbatim s id text ≡ some (stored s id text)
unfolding push_verbatim Store.set_span
push_verbatim-stored s id text h =
    let short : last_boundary text (min (length text) 255) < 256 =
      omega (arith, last_boundary-le text (min (length text) 255)) in
    rw (lt→ltb _ _ h, lt→ltb _ _ short) refl

pub keep_text-IsKept :
    (s : Store) (form id : ℕ) (text : Bytes) {s' : Store}
    → length s.verbatim < u32_size
    → keep_text s form id text ≡ some s'
    → IsKept s s' form id text
unfolding keep_text
keep_text-IsKept s form id text h q = elim (Bool-cases (form == form_verbatim)) [
  | inl e ↦ inl (e, some-inj (sym (push_verbatim-stored s id text h) ∙ rw (e, keep_text) at q))
  | inr e ↦ inr (e, some-inj (rw (e, keep_text) at q))
]

take-IsShown : (r : Rule) → IsShown r (take (last_boundary r.text (min (length r.text) 255)) r.text)
take-IsShown r = elim (dec_lt 255 (length r.text)) [
  | yes long ↦
      let m : min (length r.text) 255 ≡ 255 = omega (arith, long) in
      inr (long, ap (λ n. take (last_boundary r.text n) r.text) m)
  | no fits ↦
      let m : min (length r.text) 255 ≡ length r.text = omega (arith, fits) in
      inl (
        ap (λ n. take (last_boundary r.text n) r.text) m
        ∙ ap (λ n. take n r.text) (last_boundary-length r.text)
        ∙ take_of_length-le _ r.text (omega arith))
]

flag_bits-form : (except : Bool) (form : ℕ) → flag_bits except form / 2 ≡ form
flag_bits-form true form = omega arith
flag_bits-form false form = omega arith

-- What the form of a new rule says.
abbrev pub Says : Rule → ℕ → Type 0
Says r f = (f ≡ form_verbatim) ⊎ (FromSubtree r f ⊎ FromExact r f)

module _ (s : Store) (rs : Rules) (l : ℕ) (r : Rule) (form : ℕ) (count : length s.flags ≡ length rs)
    (t : Texts s rs) (quoted : IsQuoted r) where
  abbrev s₁ : Store
  s₁ = pushed s l r.line (is_exception r.action) form

  form-old : (id : ℕ) → id < length rs → Store.form s₁ id ≡ Store.form s id
  unfolding Store.form
  form-old id lt = ap (λ f. f / 2) (get_or-append_left s.flags _ id 0 (omega (arith, lt, count)))

  form-new : Store.form s₁ (length rs) ≡ form
  unfolding Store.form
  form-new =
      ap (λ i. get_or s₁.flags i 0 / 2) (sym count)
      ∙ ap (λ f. f / 2) (get_or-append_last s.flags _ 0)
      ∙ flag_bits-form (is_exception r.action) form

  pushed-Extends : Extends s s₁ (length rs)
  pushed-Extends = record {
    offs = omega (arith, t.offs, length-append {0} s.span_off (0 ∷ []));
    lens = omega (arith, t.lens, length-append {0} s.span_len (0 ∷ []));
    forms = form-old;
    off_at = λ id lt. get_elem?-append_left s.span_off _ id (omega (arith, lt, t.offs));
    len_at = λ id lt. get_elem?-append_left s.span_len _ id (omega (arith, lt, t.lens));
    tail = [];
    starts = tt;
    verbatim = sym (append-nil s.verbatim);
  }

  abbrev s₂ : Store
  s₂ = stored s₁ (length rs) r.text

  stored-Extends : Extends s s₂ (length rs)
  unfolding Store.form
  stored-Extends =
      let x = pushed-Extends in
      record {
        offs = length-set s₁.span_off (length rs) _ ∙ x.offs;
        lens = length-set s₁.span_len (length rs) _ ∙ x.lens;
        forms = form-old;
        off_at = λ id lt.
            get_elem?-set_ne s₁.span_off (length rs) id _ (λ e. omega (arith, lt, e))
            ∙ x.off_at id lt;
        len_at = λ id lt.
            get_elem?-set_ne s₁.span_len (length rs) id _ (λ e. omega (arith, lt, e))
            ∙ x.len_at id lt;
        tail = r.text;
        starts = quoted.starts;
        verbatim = refl;
      }

  stored-FromArena : form ≡ form_verbatim → FromArena s₂ (length rs) r
  unfolding Store.form
  stored-FromArena q =
      let x = pushed-Extends in
      let n = last_boundary r.text (min (length r.text) 255) in
      let short : n ≤ length r.text =
        omega (arith, last_boundary-le r.text (min (length r.text) 255)) in
      (
        length s.verbatim,
        n,
        form-new ∙ q,
        get_elem?-set_self s₁.span_off (length rs) _ (omega (arith, x.offs)),
        get_elem?-set_self s₁.span_len (length rs) _ (omega (arith, x.lens)),
        (
          omega (arith, short, length-append {0} s.verbatim r.text),
          IsBoundary-append_left s.verbatim r.text (length s.verbatim) (inr (inl refl))
              quoted.starts,
          IsBoundary-append_right s.verbatim r.text n
              (last_boundary-IsBoundary r.text (min (length r.text) 255)) quoted.starts,
          subst (IsShown r) (sym (ap (take n) (drop-append s.verbatim r.text))) (take-IsShown r),
        ),
      )

  -- The new rule's text is found, and the others stay.
  pub Texts-added :
      {s' : Store}
      → Says r form
      → IsKept s₁ s' form (length rs) r.text
      → Texts s' (rs ++ (l, r) ∷ [])
  Texts-added says (inl (e, q)) =
      subst (λ s'. Texts s' (rs ++ (l, r) ∷ [])) q
        (Texts-Extends rs l r t stored-Extends (inr (inr (stored-FromArena ((==_iff _ _).0 e)))))
  Texts-added (inl v) (inr (e, q)) = absurd (ground (arith, v, e))
  Texts-added (inr (inl c)) (inr (e, q)) =
      subst (λ s'. Texts s' (rs ++ (l, r) ∷ [])) q
        (Texts-Extends rs l r t pushed-Extends (inl (subst (FromSubtree r) (sym form-new) c)))
  Texts-added (inr (inr c)) (inr (e, q)) =
      subst (λ s'. Texts s' (rs ++ (l, r) ∷ [])) q
        (Texts-Extends rs l r t pushed-Extends (inr (inl (subst (FromExact r) (sym form-new) c))))
