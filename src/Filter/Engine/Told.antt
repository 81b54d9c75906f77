-- ===== src/Filter/Engine/Told.antt =====
-- After `finish` the span of every rule's text is known: a span of an index that has the rule's key,
-- or of the verbatim arena.
use sumidero.Prelude.{
  ℕ, ◌+◌, ◌/◌, ◌≤◌, ◌<◌, ◌≡◌, refl, sym, subst, ap, ap₂, ◌∙◌, ◌⊎◌, ◌↔◌, inl, inr, Bool, true, false,
  some, some-inj, get_elem?_of_lt, get_or_of_some, Elem-get_elem?, List, [], ◌∷◌, ◌++◌, Bytes,
  codes, Elem, length, get_elem?, get_elem?-bound, get_or, arith,
}
use sumidero.Filter.Labels.Reversed.{reversed}
use sumidero.Filter.Index
use sumidero.Filter.Index.{KeyIndex, key, rule_at, slice}
use sumidero.Filter.Index.Insert.{IsFormed}
use sumidero.Filter.Index.Lookup.{Holds}
use sumidero.Filter.Store
use sumidero.Filter.Store.{Store, form_verbatim, form_subtree}
use sumidero.Filter.Types.{Pattern, Rule}
use sumidero.Filter.Engine.{Engine, relocate, set_lens, is_subtree_form, is_exact_form}
use sumidero.Filter.Engine.Entries.{Rules, Entry}
use sumidero.Filter.Engine.Tracks.{IsExact, IsSubtree}
use sumidero.Filter.Engine.Texts.{FromSubtree, FromExact, FromArena, mark, IsSpan, Texts}
use sumidero.Filter.Verdict.{exact_text}
use sumidero.Filter.Engine.Spans.{
  moved, has_form, length-moved, moved-other, moved-Last, relocate-moved, set_lens-moved,
}

-- The span of the arena has the key.
abbrev pub IsKeyAt : KeyIndex → Bytes → ℕ → ℕ → Type 0
IsKeyAt ix k off len = (off + len ≤ length ix.arena) × (slice off len ix.arena ≡ k)

abbrev pub SubtreeAt : Engine → Rule → ℕ → ℕ → ℕ → Type 0
SubtreeAt e r f off len =
    (d : Bytes) × (r.pattern ≡ Pattern.subtree d)
    × (f ≡ form_subtree)
    × (r.text ≡ mark r ++ codes "||" ++ d ++ b'^' ∷ [])
    × IsKeyAt e.subtree (reversed d) off len

abbrev pub ExactAt : Engine → Rule → ℕ → ℕ → ℕ → Type 0
ExactAt e r f off len =
    (d : Bytes) × (r.pattern ≡ Pattern.exact d)
    × (is_exact_form f ≡ true)
    × (r.text ≡ exact_text (mark r) f d)
    × IsKeyAt e.exact d off len

abbrev pub SpanAt : Engine → ℕ → Rule → ℕ → ℕ → Type 0
SpanAt e id r off len =
    SubtreeAt e r (Store.form e.store id) off len
    ⊎ (ExactAt e r (Store.form e.store id) off len
        ⊎ ((Store.form e.store id ≡ form_verbatim) × IsSpan e.store.verbatim r off len))

-- Every rule has a span, and it leads to the rule's text.
abbrev pub IsTold : Engine → Rules → Type 0
IsTold e rs =
    (id l : ℕ) (r : Rule)
    → get_elem? rs id ≡ some (l, r)
    → (off len : ℕ) × (get_elem? e.store.span_off id ≡ some off)
      × (get_elem? e.store.span_len id ≡ some len)
      × SpanAt e id r off len

module _ (s : Store) (sub ex : KeyIndex) where
  -- The store of the finished engine.
  abbrev pub settled : Store
  settled =
      set_lens is_exact_form
        (set_lens is_subtree_form
          (relocate is_exact_form (relocate is_subtree_form s sub.rules sub.offs) ex.rules ex.offs)
          sub.rules sub.lens)
        ex.rules ex.lens

  abbrev owns : (ℕ → Bool) → ℕ → Bool
  owns owned = has_form owned s.flags

  abbrev in_both : List ℕ → List ℕ → List ℕ → List ℕ
  in_both vs ws col =
      moved (owns is_exact_form) ex.rules ws (moved (owns is_subtree_form) sub.rules vs col)

  settled-columns :
      (settled.flags ≡ s.flags)
      × (settled.verbatim ≡ s.verbatim)
      × (settled.span_off ≡ in_both sub.offs ex.offs s.span_off)
      × (settled.span_len ≡ in_both sub.lens ex.lens s.span_len)
  settled-columns =
      let s₁ = relocate is_subtree_form s sub.rules sub.offs in
      let (f₁, l₁, v₁, o₁) = relocate-moved is_subtree_form sub.rules sub.offs s in
      let s₂ = relocate is_exact_form s₁ ex.rules ex.offs in
      let (f₂, l₂, v₂, o₂) = relocate-moved is_exact_form ex.rules ex.offs s₁ in
      let s₃ = set_lens is_subtree_form s₂ sub.rules sub.lens in
      let (f₃, o₃, v₃, l₃) = set_lens-moved is_subtree_form sub.rules sub.lens s₂ in
      let (f₄, o₄, v₄, l₄) = set_lens-moved is_exact_form ex.rules ex.lens s₃ in
      let g₃ : s₃.flags ≡ s.flags = f₃ ∙ f₂ ∙ f₁ in
      (
        f₄ ∙ g₃,
        v₄ ∙ v₃ ∙ v₂ ∙ v₁,
        o₄ ∙ o₃ ∙ o₂ ∙ ap₂ (λ fs col. moved (has_form is_exact_form fs) ex.rules ex.offs col) f₁ o₁,
        l₄
            ∙ ap₂ (λ fs col. moved (has_form is_exact_form fs) ex.rules ex.lens col) g₃
                (l₃
                  ∙ ap₂ (λ fs col. moved (has_form is_subtree_form fs) sub.rules sub.lens col)
                      (f₂ ∙ f₁) (l₂ ∙ l₁)),
      )

-- An index holds one key for a rule, so each of the rule's entries has that key.
module _ (ix : KeyIndex) (formed : IsFormed ix) (k : Bytes) (id : ℕ) where
  Holds-Elem : Holds ix k id → Elem id ix.rules
  Holds-Elem (i, lt, _, at) =
      let (x, q) = get_elem?_of_lt ix.rules i lt in
      let same : x ≡ id = sym (get_or_of_some ix.rules i 0 q) ∙ at in
      subst (λ y. Elem y ix.rules) same (Elem-get_elem? ix.rules i q)

  IsKeyAt-entry :
      ((k' : Bytes) → Holds ix k' id → k' ≡ k)
      → (i : ℕ) → i < length ix.rules
      → get_or ix.rules i 0 ≡ id
      → IsKeyAt ix k (get_or ix.offs i 0) (get_or ix.lens i 0)
  unfolding Index.key
  IsKeyAt-entry only i lt at = (formed.in_arena i lt, only (Index.key ix i) (i, lt, refl, at))

module _ (e : Engine) (rs : Rules) (t : Texts e.store rs) (sub ex : KeyIndex)
    (sub_formed : IsFormed sub) (ex_formed : IsFormed ex)
    (in_sub : (k : Bytes) (id : ℕ) → Holds sub k id ↔ Entry (IsSubtree k) rs id)
    (in_ex : (k : Bytes) (id : ℕ) → Holds ex k id ↔ Entry (IsExact k) rs id) where
  abbrev done : Engine
  done = record e { store = settled e.store sub ex; subtree = sub; exact = ex }

  module _ (id l : ℕ) (r : Rule) (h : get_elem? rs id ≡ some (l, r)) where
    in_range : (id < length e.store.span_off) × (id < length e.store.span_len)
    in_range =
        let lt = get_elem?-bound rs id h in (omega (arith, lt, t.offs), omega (arith, lt, t.lens))

    same_rule : {l' : ℕ} {r' : Rule} → get_elem? rs id ≡ some (l', r') → r' ≡ r
    same_rule h' = ap (λ p. p.1) (some-inj (sym h' ∙ h))

    form-done : Store.form done.store id ≡ Store.form e.store id
    unfolding Store.form
    form-done = ap (λ fs. get_or fs id 0 / 2) (settled-columns e.store sub ex).0

    only_sub :
        (d : Bytes) → r.pattern ≡ Pattern.subtree d → (k : Bytes) → Holds sub k id → k ≡ reversed d
    only_sub d p k held =
        let (l', r', h', (d', p', q)) = (in_sub k id).0 held in
        let same : Pattern.subtree d' ≡ Pattern.subtree d =
          sym p' ∙ ap (λ x. x.pattern) (same_rule h') ∙ p in
        let inner : d' ≡ d = ground (arith, same) in q ∙ ap reversed inner

    only_ex : (d : Bytes) → r.pattern ≡ Pattern.exact d → (k : Bytes) → Holds ex k id → k ≡ d
    only_ex d p k held =
        let (l', r', h', p') = (in_ex k id).0 held in
        let same : Pattern.exact k ≡ Pattern.exact d =
          sym p' ∙ ap (λ x. x.pattern) (same_rule h') ∙ p in
        ground (arith, same)

    abbrev Found : Type 0
    Found =
        (off len : ℕ) × (get_elem? done.store.span_off id ≡ some off)
        × (get_elem? done.store.span_len id ≡ some len)
        × SpanAt done id r off len

    -- Where neither index owns the text, the span stays.
    both-other :
        (vs ws col : List ℕ)
        → is_exact_form (Store.form e.store id) ≡ false
        → is_subtree_form (Store.form e.store id) ≡ false
        → get_elem? (in_both e.store sub ex vs ws col) id ≡ get_elem? col id
    unfolding Store.form
    both-other vs ws col no_exact no_subtree =
        moved-other (owns e.store sub ex is_exact_form) ex.rules ws _ id no_exact
        ∙ moved-other (owns e.store sub ex is_subtree_form) sub.rules vs col id no_subtree

    found-subtree : FromSubtree r (Store.form e.store id) → Found
    unfolding Store.form
    found-subtree (d, p, f, text) =
        let s = e.store in
        let (_, _, offs, lens) = settled-columns s sub ex in
        let held = (in_sub (reversed d) id).1 (l, r, h, (d, p, refl)) in
        let no_exact = ap is_exact_form f in
        let (i, lt, at, off, len) =
          moved-Last (owns s sub ex is_subtree_form) id (ap is_subtree_form f) sub.rules sub.offs
            sub.lens s.span_off s.span_len sub_formed.offs sub_formed.lens in_range.0 in_range.1
            (Holds-Elem sub sub_formed (reversed d) id held) in
        (
          get_or sub.offs i 0,
          get_or sub.lens i 0,
          ap (λ c. get_elem? c id) offs
              ∙ moved-other (owns s sub ex is_exact_form) ex.rules ex.offs _ id no_exact
              ∙ off,
          ap (λ c. get_elem? c id) lens
              ∙ moved-other (owns s sub ex is_exact_form) ex.rules ex.lens _ id no_exact
              ∙ len,
          inl (
            d,
            p,
            form-done ∙ f,
            text,
            IsKeyAt-entry sub sub_formed (reversed d) id (only_sub d p) i lt at,
          ),
        )

    found-exact : FromExact r (Store.form e.store id) → Found
    unfolding Store.form
    found-exact (d, p, f, text) =
        let s = e.store in
        let (_, _, offs, lens) = settled-columns s sub ex in
        let held = (in_ex d id).1 (l, r, h, p) in
        let q = owns s sub ex is_subtree_form in
        let (i, lt, at, off, len) =
          moved-Last (owns s sub ex is_exact_form) id f ex.rules ex.offs ex.lens
            (moved q sub.rules sub.offs s.span_off) (moved q sub.rules sub.lens s.span_len)
            ex_formed.offs ex_formed.lens
            (omega (arith, in_range, length-moved q sub.rules sub.offs s.span_off))
            (omega (arith, in_range, length-moved q sub.rules sub.lens s.span_len))
            (Holds-Elem ex ex_formed d id held) in
        (
          get_or ex.offs i 0,
          get_or ex.lens i 0,
          ap (λ c. get_elem? c id) offs ∙ off,
          ap (λ c. get_elem? c id) lens ∙ len,
          inr (
              inl (
                d,
                p,
                ap is_exact_form form-done ∙ f,
                text ∙ ap (λ g. exact_text (mark r) g d) (sym form-done),
                IsKeyAt-entry ex ex_formed d id (only_ex d p) i lt at,
              )),
        )

    found-arena : FromArena e.store id r → Found
    found-arena (off, len, f, o, n, span) =
        let s = e.store in
        let (_, verbatim, offs, lens) = settled-columns s sub ex in
        let no_exact = ap is_exact_form f in
        let no_subtree = ap is_subtree_form f in
        (
          off,
          len,
          ap (λ c. get_elem? c id) offs
              ∙ both-other sub.offs ex.offs s.span_off no_exact no_subtree
              ∙ o,
          ap (λ c. get_elem? c id) lens
              ∙ both-other sub.lens ex.lens s.span_len no_exact no_subtree
              ∙ n,
          inr (inr (form-done ∙ f, subst (λ v. IsSpan v r off len) (sym verbatim) span)),
        )

  -- Every rule of the finished engine has a span that leads to its text.
  pub finished-IsTold : IsTold done rs
  finished-IsTold id l r h = elim (t.told id l r h) [
    | inl c ↦ found-subtree id l r h c
    | inr (inl c) ↦ found-exact id l r h c
    | inr (inr c) ↦ found-arena id l r h c
  ]
