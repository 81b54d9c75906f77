-- ===== src/Filter/Verdict/Scan.antt =====
-- What each loop of `verdict` finds among its candidates: an exception if there is one, and
-- otherwise it keeps the block rule that it had, or takes one.
use sumidero.Prelude.{
  ℕ, zero, suc, ◌+◌, ◌<◌, ◌≡◌, refl, sym, subst, ap, ◌∙◌, ◌⊎◌, ◌↔◌, inl, inr, true, false,
  false≢true, some≢none, get_elem?_of_lt, Option, none, some, List, [], ◌∷◌, Bytes, Bool-cases,
  Option-cases, Elem, length, get_elem?, take, arith,
}
use sumidero.Filter.Engine.{Engine, WildcardEntry}
use sumidero.Filter.Index
use sumidero.Filter.Store
use sumidero.Filter.Labels.{after_dot, boundaries}
use sumidero.Filter.Labels.Under.{parents, after_dot-none, after_dot-some}
use sumidero.Filter.Wildcard.{wildcard_matches}
use sumidero.Filter.Verdict.{
  Search, stop, going, panicked, ◌>>>◌, get_or_insert, consider, consider_all, consider_prefixes,
  check, check_all, check_buckets, check_wildcards, search_rules,
}

-- Where the kept block rule comes from.
abbrev pub Origin : (ℕ → Type 0) → Option ℕ → Option ℕ → Type 0
Origin C (some x) b = b ≡ some x
Origin C none none = (id : ℕ) → ¬ C id
Origin C none (some id) = C id

-- A stage over the candidates `C`, started with `block`.
abbrev pub Scan : Engine → (ℕ → Type 0) → Option ℕ → Search → Type 0
Scan e C block (stop id) = C id × (Store.is_except e.store id ≡ true)
Scan e C block panicked = ⊥
Scan e C block (going b) = ((id : ℕ) → C id → Store.is_except e.store id ≡ false) × Origin C block b

module _ (e : Engine) where
  pub Scan-cong :
      (C D : ℕ → Type 0) (block : Option ℕ) (s : Search)
      → ((id : ℕ) → C id ↔ D id)
      → Scan e C block s
      → Scan e D block s
  Scan-cong C D block (stop id) iff h = ((iff id).0 h.0, h.1)
  Scan-cong C D block panicked iff h = h
  Scan-cong C D (some x) (going b) iff h = (λ id d. h.0 id ((iff id).1 d), h.1)
  Scan-cong C D none (going none) iff h =
      (λ id d. h.0 id ((iff id).1 d), λ id d. h.1 id ((iff id).1 d))
  Scan-cong C D none (going (some x)) iff h = (λ id d. h.0 id ((iff id).1 d), (iff x).0 h.1)

  abbrev Either : (ℕ → Type 0) → (ℕ → Type 0) → ℕ → Type 0
  Either C D id = C id ⊎ D id

  Scan-join :
      (C D : ℕ → Type 0) (block b : Option ℕ) (s : Search)
      → Scan e C block (going b)
      → Scan e D b s
      → Scan e (Either C D) block s
  Scan-join C D block b (stop id) h k = (inr k.0, k.1)
  Scan-join C D block b panicked h k = k
  Scan-join C D (some x) b (going b') h k =
      (λ id. elim [ inl c ↦ h.0 id c | inr d ↦ k.0 id d ], subst (λ y. Origin D y b') h.1 k.1)
  Scan-join C D none none (going none) h k = (
    λ id. elim [ inl c ↦ h.0 id c | inr d ↦ k.0 id d ],
    λ id. elim [ inl c ↦ h.1 id c | inr d ↦ k.1 id d ],
  )
  Scan-join C D none none (going (some y)) h k =
      (λ id. elim [ inl c ↦ h.0 id c | inr d ↦ k.0 id d ], inr k.1)
  Scan-join C D none (some x) (going b') h k = (
    λ id. elim [ inl c ↦ h.0 id c | inr d ↦ k.0 id d ],
    subst (Origin (Either C D) none) (sym k.1) (inl h.1),
  )

  -- One stage after another.
  pub Scan-then :
      (C D : ℕ → Type 0) (block : Option ℕ) (s : Search) (f : Option ℕ → Search)
      → Scan e C block s
      → ((b : Option ℕ) → Scan e D b (f b))
      → Scan e (Either C D) block (s >>> f)
  Scan-then C D block (stop id) f h k = (inl h.0, h.1)
  Scan-then C D block panicked f h k = h
  Scan-then C D block (going b) f h k = Scan-join C D block b (f b) h (k b)

  pub Scan-none :
      (C : ℕ → Type 0) (block : Option ℕ) → ((id : ℕ) → ¬ C id) → Scan e C block (going block)
  Scan-none C none h = (λ id c. absurd (h id c), h)
  Scan-none C (some x) h = (λ id c. absurd (h id c), refl)

  Origin-insert : (block : Option ℕ) (x : ℕ) → Origin (λ id. id ≡ x) block (get_or_insert block x)
  Origin-insert none x = refl
  Origin-insert (some b) x = refl

  pub consider-Scan : (x : ℕ) (block : Option ℕ) → Scan e (λ id. id ≡ x) block (consider e x block)
  unfolding consider
  consider-Scan x block = elim (Bool-cases (Store.is_except e.store x)) [
    | inl h ↦ rw h (refl, h)
    | inr h ↦ rw h (λ id q. rw q h, Origin-insert block x)
  ]

  pub consider_all-Scan :
      (ids : List ℕ) (block : Option ℕ)
      → Scan e (λ id. Elem id ids) block (consider_all e ids block)
  unfolding consider_all
  consider_all-Scan [] block = Scan-none (λ _. ⊥) block (λ id c. c)
  consider_all-Scan (x ∷ ids) block =
      Scan-then (λ id. id ≡ x) (λ id. Elem id ids) block (consider e x block) (consider_all e ids)
        (consider-Scan x block) (consider_all-Scan ids)

  -- What the prefixes of the reversed name lead to.
  abbrev pub AtPrefix : Bytes → List ℕ → ℕ → Type 0
  AtPrefix rev ends id =
      (end : ℕ) × Elem end ends × Elem id (Index.equal_range e.subtree (take end rev))

  AtPrefix-cons :
      (rev : Bytes) (end : ℕ) (ends : List ℕ) (id : ℕ)
      → Either (λ x. Elem x (Index.equal_range e.subtree (take end rev))) (AtPrefix rev ends) id
        ↔ AtPrefix rev (end ∷ ends) id
  AtPrefix-cons rev end ends id = (
    elim [ inl m ↦ (end, inl refl, m) | inr (x, m, k) ↦ (x, inr m, k) ],
    λ (x, m, k). elim m [
      | inl q ↦ inl (subst (λ y. Elem id (Index.equal_range e.subtree (take y rev))) q k)
      | inr m' ↦ inr (x, m', k)
    ],
  )

  pub consider_prefixes-Scan :
      (rev : Bytes) (ends : List ℕ) (block : Option ℕ)
      → Scan e (AtPrefix rev ends) block (consider_prefixes e rev ends block)
  unfolding consider_prefixes
  consider_prefixes-Scan rev [] block = Scan-none (AtPrefix rev []) block (λ id c. c.1)
  consider_prefixes-Scan rev (end ∷ ends) block =
      let ids = Index.equal_range e.subtree (take end rev) in
      Scan-cong (Either (λ x. Elem x ids) (AtPrefix rev ends)) (AtPrefix rev (end ∷ ends)) block _
        (AtPrefix-cons rev end ends)
        (Scan-then (λ x. Elem x ids) (AtPrefix rev ends) block (consider_all e ids block)
          (consider_prefixes e rev ends) (consider_all-Scan ids block)
          (consider_prefixes-Scan rev ends))

  module _ (name : Bytes) where
    -- The wildcard at a position takes the name for a match.
    abbrev pub Fires : ℕ → ℕ → Type 0
    Fires idx id =
        (w : WildcardEntry) × (get_elem? e.wildcards idx ≡ some w)
        × (id ≡ w.rule)
        × (wildcard_matches w.expr name w.include_subdomains ≡ true)

    abbrev pub FiresIn : List ℕ → ℕ → Type 0
    FiresIn idxs id = (idx : ℕ) × Elem idx idxs × Fires idx id

    check-quiet :
        (idx : ℕ) (block : Option ℕ)
        → ((id : ℕ) → ¬ Fires idx id)
        → check e name idx block ≡ going block
        → Scan e (Fires idx) block (check e name idx block)
    check-quiet idx block h q =
        subst (Scan e (Fires idx) block) (sym q) (Scan-none (Fires idx) block h)

    check-Scan :
        (idx : ℕ) (block : Option ℕ)
        → idx < length e.wildcards
        → Scan e (Fires idx) block (check e name idx block)
    unfolding check
    check-Scan idx block known = elim (Option-cases (get_elem? e.wildcards idx)) [
      | inl h ↦ let (w, q) = get_elem?_of_lt e.wildcards idx known in absurd (some≢none (sym q ∙ h))
      | inr (w, h) ↦ elim (Bool-cases (wildcard_matches w.expr name w.include_subdomains)) [
        | inl m ↦
            let q : check e name idx block ≡ consider e w.rule block = ground arith in
            subst (Scan e (Fires idx) block) (sym q) (
              Scan-cong (λ id. id ≡ w.rule) (Fires idx) block _
                (λ id. (
                  λ k. (w, h, k, m),
                  λ (v, g, k, _). let same : v ≡ w = ground arith in k ∙ ap (λ u. u.rule) same,
                ))
                (consider-Scan w.rule block))
        | inr m ↦
            check-quiet idx block
              (λ id (v, g, k, f).
                let same : v ≡ w = ground arith in
                let f' =
                  subst (λ u. wildcard_matches u.expr name u.include_subdomains ≡ true) same f in
                false≢true (sym m ∙ f'))
              (ground arith)
      ]
    ]

    FiresIn-cons :
        (idx : ℕ) (idxs : List ℕ) (id : ℕ)
        → Either (Fires idx) (FiresIn idxs) id ↔ FiresIn (idx ∷ idxs) id
    FiresIn-cons idx idxs id = (
      elim [ inl f ↦ (idx, inl refl, f) | inr (x, m, f) ↦ (x, inr m, f) ],
      λ (x, m, f). elim m [ inl q ↦ inl (subst (λ y. Fires y id) q f) | inr m' ↦ inr (x, m', f) ],
    )

    pub check_all-Scan :
        (idxs : List ℕ) (block : Option ℕ)
        → ((idx : ℕ) → Elem idx idxs → idx < length e.wildcards)
        → Scan e (FiresIn idxs) block (check_all e name idxs block)
    unfolding check_all
    check_all-Scan [] block known = Scan-none (FiresIn []) block (λ id f. f.1)
    check_all-Scan (idx ∷ idxs) block known =
        Scan-cong (Either (Fires idx) (FiresIn idxs)) (FiresIn (idx ∷ idxs)) block _
          (FiresIn-cons idx idxs)
          (Scan-then (Fires idx) (FiresIn idxs) block (check e name idx block)
            (check_all e name idxs) (check-Scan idx block (known idx (inl refl)))
            (λ b. check_all-Scan idxs b (λ i m. known i (inr m))))

    -- The wildcards in the buckets of some suffixes.
    abbrev pub InBuckets : List Bytes → ℕ → Type 0
    InBuckets suffixes id = (k : Bytes) × Elem k suffixes × FiresIn (e.wildcard_buckets k) id

    InBuckets-cons :
        (k : Bytes) (ks : List Bytes) (id : ℕ)
        → Either (FiresIn (e.wildcard_buckets k)) (InBuckets ks) id ↔ InBuckets (k ∷ ks) id
    InBuckets-cons k ks id = (
      elim [ inl f ↦ (k, inl refl, f) | inr (x, m, f) ↦ (x, inr m, f) ],
      λ (x, m, f). elim m [
        | inl q ↦ inl (subst (λ y. FiresIn (e.wildcard_buckets y) id) q f)
        | inr m' ↦ inr (x, m', f)
      ],
    )

    next-Scan :
        (n : ℕ) (suffix : Bytes) (b : Option ℕ)
        → ((r : Bytes) (b : Option ℕ)
            → length r < n
            → Scan e (InBuckets (r ∷ parents r)) b (check_buckets n e name r b))
        → length suffix < suc n
        → (o : Option Bytes) → after_dot suffix ≡ o
        → Scan e
            (InBuckets (parents suffix))
            b
            (elim o [ none ↦ going b | some r ↦ check_buckets n e name r b ])
    next-Scan n suffix b ih h none q =
        Scan-none (InBuckets (parents suffix)) b
          (λ id (k, m, _). subst (Elem k) (after_dot-none suffix q) m)
    next-Scan n suffix b ih h (some r) q =
        let (p, lt) = after_dot-some suffix q in
        subst (λ ks. Scan e (InBuckets ks) b (check_buckets n e name r b)) (sym p)
          (ih r b (omega arith))

    -- The buckets hold positions of wildcards.
    abbrev pub WithinBuckets : Type 0
    WithinBuckets =
        (k : Bytes) (idx : ℕ) → Elem idx (e.wildcard_buckets k) → idx < length e.wildcards

    -- The rounds suffice, and the loop visits the name and all its parent domains.
    pub check_buckets-Scan :
        (n : ℕ) (suffix : Bytes) (block : Option ℕ)
        → WithinBuckets
        → length suffix < n
        → Scan e (InBuckets (suffix ∷ parents suffix)) block (check_buckets n e name suffix block)
    unfolding check_buckets
    check_buckets-Scan zero suffix block known h = elim h [ ]
    check_buckets-Scan (suc n) suffix block known h =
        Scan-cong (Either (FiresIn (e.wildcard_buckets suffix)) (InBuckets (parents suffix)))
          (InBuckets (suffix ∷ parents suffix)) block _ (InBuckets-cons suffix (parents suffix))
          (Scan-then (FiresIn (e.wildcard_buckets suffix)) (InBuckets (parents suffix)) block
            (check_all e name (e.wildcard_buckets suffix) block) _
            (check_all-Scan (e.wildcard_buckets suffix) block (known suffix))
            (λ b.
              next-Scan n suffix b (λ r b. check_buckets-Scan n r b known) h (after_dot suffix)
                refl))

    pub check_wildcards-Scan :
        (block : Option ℕ)
        → WithinBuckets
        → ((idx : ℕ) → Elem idx e.wildcard_unanchored → idx < length e.wildcards)
        → Scan e
            (Either (InBuckets (name ∷ parents name)) (FiresIn e.wildcard_unanchored))
            block
            (check_wildcards e name block)
    unfolding check_wildcards
    check_wildcards-Scan block known known' = go e.wildcards refl
      where
        found : ℕ → Type 0
        found = Either (InBuckets (name ∷ parents name)) (FiresIn e.wildcard_unanchored)

        whole : Scan e found block (
            check_buckets (length name + 1) e name name block
            >>> check_all e name e.wildcard_unanchored)
        whole =
            Scan-then (InBuckets (name ∷ parents name)) (FiresIn e.wildcard_unanchored) block
              (check_buckets (length name + 1) e name name block)
              (check_all e name e.wildcard_unanchored)
              (check_buckets-Scan (length name + 1) name block known (omega arith))
              (λ b. check_all-Scan e.wildcard_unanchored b known')

        silent : e.wildcards ≡ [] → (idx id : ℕ) → ¬ Fires idx id
        silent q idx id (w, g, _, _) = ground arith

        go :
            (ws : List WildcardEntry)
            → e.wildcards ≡ ws
            → Scan e found block (elim ws [
              | [] ↦ going block
              | _ ∷ _ ↦
                  check_buckets (length name + 1) e name name block
                  >>> check_all e name e.wildcard_unanchored
            ])
        go [] q =
            Scan-none found block
              (λ id. elim [ inl f ↦ silent q f.2.0 id f.2.2 | inr f ↦ silent q f.0 id f.2 ])
        go (w ∷ ws) q = whole

    -- All that the search looks at.
    abbrev pub Candidate : Bytes → ℕ → Type 0
    Candidate rev =
        Either
          (Either (λ id. Elem id (Index.equal_range e.exact name)) (AtPrefix rev (boundaries rev)))
          (Either (InBuckets (name ∷ parents name)) (FiresIn e.wildcard_unanchored))

    pub search_rules-Scan :
        (rev : Bytes)
        → WithinBuckets
        → ((idx : ℕ) → Elem idx e.wildcard_unanchored → idx < length e.wildcards)
        → Scan e (Candidate rev) none (search_rules e name rev)
    unfolding search_rules
    search_rules-Scan rev known known' =
        let ids = Index.equal_range e.exact name in
        Scan-then (Either (λ id. Elem id ids) (AtPrefix rev (boundaries rev)))
          (Either (InBuckets (name ∷ parents name)) (FiresIn e.wildcard_unanchored)) none _
          (check_wildcards e name)
          (Scan-then (λ id. Elem id ids) (AtPrefix rev (boundaries rev)) none
            (consider_all e ids none) (consider_prefixes e rev (boundaries rev))
            (consider_all-Scan ids none) (consider_prefixes-Scan rev (boundaries rev)))
          (λ b. check_wildcards-Scan b known known')
