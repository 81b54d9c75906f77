-- ===== src/Filter/Engine/Spans.antt =====
-- After `finish` the span of every rule's text is known: a span of an index that has the rule's key,
-- or of the verbatim arena.
use sumidero.Prelude.{
  ℕ, suc, ◌/◌, ◌<◌, ◌≡◌, ◌≢◌, refl, sym, subst, ap, ◌∙◌, ◌⊎◌, inl, inr, Bool, true, false,
  false≢true, some, List, [], ◌∷◌, Bool-cases, Elem, length, length-set, get_elem?,
  get_elem?-set_self, get_elem?-set_ne, get_or, set, ◌==◌, ==_iff, if◌then◌else◌, arith,
}
use sumidero.Filter.Store
use sumidero.Filter.Store.{Store, form_verbatim}
use sumidero.Filter.Engine.{relocate, set_lens}

-- A column after each of some rules that pass the test has got its value.
abbrev pub moved : (ℕ → Bool) → List ℕ → List ℕ → List ℕ → List ℕ
moved p [] vs col = col
moved p (r ∷ rs) [] col = col
moved p (r ∷ rs) (v ∷ vs) col = moved p rs vs (if p r then set col r v else col)

abbrev pub has_form : (ℕ → Bool) → List ℕ → ℕ → Bool
has_form owned flags id = owned (get_or flags id 0 / 2)

pub moved-other :
    (p : ℕ → Bool) (rs vs col : List ℕ) (id : ℕ)
    → p id ≡ false
    → get_elem? (moved p rs vs col) id ≡ get_elem? col id
moved-other p [] vs col id h = refl
moved-other p (r ∷ rs) [] col id h = refl
moved-other p (r ∷ rs) (v ∷ vs) col id h = elim (Bool-cases (p r)) [
  | inl y ↦
      let differ : r ≢ id = λ e. false≢true (sym h ∙ ap p (sym e) ∙ y) in
      rw y (moved-other p rs vs (set col r v) id h ∙ get_elem?-set_ne col r id v differ)
  | inr n ↦ rw n (moved-other p rs vs col id h)
]

-- One rule's turn.
turn-length :
    (p : ℕ → Bool) (r v : ℕ) (col : List ℕ) → length (if p r then set col r v else col) ≡ length col
turn-length p r v col = elim (Bool-cases (p r)) [
  | inl y ↦ rw y (length-set col r v)
  | inr n ↦ rw n refl
]

turn_other :
    (p : ℕ → Bool) (r v : ℕ) (col : List ℕ) (id : ℕ)
    → r ≢ id
    → get_elem? (if p r then set col r v else col) id ≡ get_elem? col id
turn_other p r v col id h = elim (Bool-cases (p r)) [
  | inl y ↦ rw y (get_elem?-set_ne col r id v h)
  | inr n ↦ rw n refl
]

turn_self :
    (p : ℕ → Bool) (r v : ℕ) (col : List ℕ)
    → p r ≡ true
    → r < length col
    → get_elem? (if p r then set col r v else col) r ≡ some v
turn_self p r v col h lt = rw h (get_elem?-set_self col r v lt)

pub length-moved : (p : ℕ → Bool) (rs vs col : List ℕ) → length (moved p rs vs col) ≡ length col
length-moved p [] vs col = refl
length-moved p (r ∷ rs) [] col = refl
length-moved p (r ∷ rs) (v ∷ vs) col =
    length-moved p rs vs (if p r then set col r v else col) ∙ turn-length p r v col

module _ (p : ℕ → Bool) (id : ℕ) (owned : p id ≡ true) where
  -- The entry whose values two columns have got in the end.
  abbrev Last : List ℕ → List ℕ → List ℕ → List ℕ → List ℕ → Type 0
  Last rs vs ws a b =
      (i : ℕ) × (i < length rs)
      × (get_or rs i 0 ≡ id)
      × (get_elem? (moved p rs vs a) id ≡ some (get_or vs i 0))
      × (get_elem? (moved p rs ws b) id ≡ some (get_or ws i 0))

  abbrev Untouched : List ℕ → List ℕ → List ℕ → List ℕ → List ℕ → Type 0
  Untouched rs vs ws a b =
      (¬ Elem id rs)
      × (get_elem? (moved p rs vs a) id ≡ get_elem? a id)
      × (get_elem? (moved p rs ws b) id ≡ get_elem? b id)

  moved-cases :
      (rs vs ws a b : List ℕ)
      → length vs ≡ length rs
      → length ws ≡ length rs
      → id < length a
      → id < length b
      → Last rs vs ws a b ⊎ Untouched rs vs ws a b
  moved-cases [] vs ws a b hv hw la lb = inr (λ m. m, refl, refl)
  moved-cases (r ∷ rs) [] ws a b hv hw la lb = absurd (omega (arith, hv))
  moved-cases (r ∷ rs) (v ∷ vs) [] a b hv hw la lb = absurd (omega (arith, hw))
  moved-cases (r ∷ rs) (v ∷ vs) (w ∷ ws) a b hv hw la lb =
      elim (moved-cases rs vs ws (if p r then set a r v else a) (if p r then set b r w else b)
        (omega (arith, hv)) (omega (arith, hw)) (omega (arith, la, turn-length p r v a))
        (omega (arith, lb, turn-length p r w b))) [
          | inl (i, lt, at, ga, gb) ↦ inl (suc i, omega (arith, lt), at, ga, gb)
          | inr (absent, ga, gb) ↦ elim (Bool-cases (r == id)) [
            | inl e ↦
                let same = (==_iff r id).0 e in
                inl (0, omega arith, same, ga ∙ self r v a same la, gb ∙ self r w b same lb)
            | inr e ↦
                let differ : r ≢ id = λ q. false≢true (sym e ∙ (==_iff r id).1 q) in
                inr (
                  elim [ inl q ↦ differ (sym q) | inr m ↦ absent m ],
                  ga ∙ turn_other p r v a id differ,
                  gb ∙ turn_other p r w b id differ,
                )
          ]
        ]
    where
      self :
          (r v : ℕ) (col : List ℕ)
          → r ≡ id
          → id < length col
          → get_elem? (if p r then set col r v else col) id ≡ some v
      self r v col q lt =
          subst (λ i. get_elem? (if p r then set col r v else col) i ≡ some v) q
            (turn_self p r v col (ap p q ∙ owned) (omega (arith, q, lt)))

  pub moved-Last :
      (rs vs ws a b : List ℕ)
      → length vs ≡ length rs
      → length ws ≡ length rs
      → id < length a
      → id < length b
      → Elem id rs
      → Last rs vs ws a b
  moved-Last rs vs ws a b hv hw la lb m = elim (moved-cases rs vs ws a b hv hw la lb) [
    | inl found ↦ found
    | inr (absent, _, _) ↦ absurd (absent m)
  ]

pub relocate-moved :
    (owned : ℕ → Bool) (rs vs : List ℕ) (s : Store)
    → ((relocate owned s rs vs).flags ≡ s.flags)
      × ((relocate owned s rs vs).span_len ≡ s.span_len)
      × ((relocate owned s rs vs).verbatim ≡ s.verbatim)
      × ((relocate owned s rs vs).span_off ≡ moved (has_form owned s.flags) rs vs s.span_off)
unfolding relocate Store.form
relocate-moved owned [] vs s = (refl, refl, refl, refl)
relocate-moved owned (r ∷ rs) [] s = (refl, refl, refl, refl)
relocate-moved owned (r ∷ rs) (v ∷ vs) s =
    let span = if owned (Store.form s r) then set s.span_off r v else s.span_off in
    relocate-moved owned rs vs (record s { span_off = span })

pub set_lens-moved :
    (owned : ℕ → Bool) (rs vs : List ℕ) (s : Store)
    → ((set_lens owned s rs vs).flags ≡ s.flags)
      × ((set_lens owned s rs vs).span_off ≡ s.span_off)
      × ((set_lens owned s rs vs).verbatim ≡ s.verbatim)
      × ((set_lens owned s rs vs).span_len ≡ moved (has_form owned s.flags) rs vs s.span_len)
unfolding set_lens Store.form
set_lens-moved owned [] vs s = (refl, refl, refl, refl)
set_lens-moved owned (r ∷ rs) [] s = (refl, refl, refl, refl)
set_lens-moved owned (r ∷ rs) (v ∷ vs) s =
    let span = if owned (Store.form s r) then set s.span_len r v else s.span_len in
    set_lens-moved owned rs vs (record s { span_len = span })
