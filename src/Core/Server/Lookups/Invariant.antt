-- ===== src/Core/Server/Lookups/Invariant.antt =====
-- What holds in every state, and stays so when a client comes.
use sumidero.Prelude.{
  ℕ, ◌+◌, ◌≡◌, ◌<◌, refl, sym, subst, ap, ◌∙◌, inl, inr, Bool-cases, none, some, some-inj,
  some≢none, ◌∷◌, Elem, arith,
}
use sumidero.Core.HashMap
use sumidero.Core.HashMap.{HashKey}
use sumidero.Core.HashMap.Laws.{get-insert_same, get-insert_other}
use sumidero.Core.Server.Lookups.{resolving, Task, Lookups, no_lookups, miss}

module _ {K A C : Type 0} (keys : HashKey K) where
  pub record IsLed (s : Lookups K A C) : Type 0 where
    -- Every client waits for a task that is not over.
    pub awaited :
        (w : C × ℕ) → Elem w s.waiting → (t : Task K A) × Elem t s.tasks × (t.channel ≡ w.1)
    -- A key in the map has a task that resolves it.
    pub led :
        (k : K) (ch : ℕ)
        → HashMap.get keys s.lookups k ≡ some ch
        → (t : Task K A) × Elem t s.tasks × (t.channel ≡ ch) × (t.key ≡ k) × (t.phase ≡ resolving)
    -- The key of a task that resolves it is in the map, with the task's channel.
    pub listed :
        (t : Task K A)
        → Elem t s.tasks
        → t.phase ≡ resolving
        → HashMap.get keys s.lookups t.key ≡ some t.channel
    pub distinct :
        (t u : Task K A) → Elem t s.tasks → Elem u s.tasks → t.channel ≡ u.channel → t ≡ u
    pub used : (t : Task K A) → Elem t s.tasks → t.channel < s.channels

  pub no_lookups-IsLed : IsLed no_lookups
  unfolding HashMap.get
  no_lookups-IsLed = record {
    awaited = λ w m. absurd m;
    led = λ k ch h. absurd (some≢none (sym h));
    listed = λ t m p. absurd m;
    distinct = λ t u m n e. absurd m;
    used = λ t m. absurd m;
  }

  -- A client that joins a lookup.
  abbrev pub joined : Lookups K A C → C → ℕ → Lookups K A C
  joined s client ch = record s { waiting = (client, ch) ∷ s.waiting }

  abbrev pub leading : Lookups K A C → K → C → Lookups K A C
  leading s key client = record s {
    lookups = HashMap.insert keys s.lookups key s.channels;
    tasks = record { key = key; channel = s.channels; phase = resolving } ∷ s.tasks;
    waiting = (client, s.channels) ∷ s.waiting;
    channels = s.channels + 1;
  }

  pub miss-joined :
      (key : K) (client : C) (s : Lookups K A C) (ch : ℕ)
      → HashMap.get keys s.lookups key ≡ some ch
      → miss keys key client s ≡ joined s client ch
  unfolding miss
  miss-joined key client s ch h = rw (h, miss) refl

  pub miss-leading :
      (key : K) (client : C) (s : Lookups K A C)
      → HashMap.get keys s.lookups key ≡ none
      → miss keys key client s ≡ leading s key client
  unfolding miss
  miss-leading key client s h = rw (h, miss) refl

  pub joined-IsLed :
      (s : Lookups K A C) (client : C) (key : K) (ch : ℕ)
      → HashMap.get keys s.lookups key ≡ some ch
      → IsLed s
      → IsLed (joined s client ch)
  joined-IsLed s client key ch h i = record {
    awaited = λ w m. elim m [
      | inl e ↦ let (t, m, c, _, _) = i.led key ch h in (t, m, c ∙ ap (λ x. x.1) (sym e))
      | inr m ↦ i.awaited w m
    ];
    led = i.led;
    listed = i.listed;
    distinct = i.distinct;
    used = i.used;
  }

  pub leading-IsLed :
      (s : Lookups K A C) (key : K) (client : C)
      → HashMap.get keys s.lookups key ≡ none
      → IsLed s
      → IsLed (leading s key client)
  leading-IsLed s key client absent i =
      let new : Task K A = record { key = key; channel = s.channels; phase = resolving } in
      record {
        awaited = λ w m. elim m [
          | inl e ↦ (new, inl refl, ap (λ x. x.1) (sym e))
          | inr m ↦ let (t, m, c) = i.awaited w m in (t, inr m, c)
        ];
        led = λ k ch h. elim (Bool-cases (keys.eq key k)) [
          | inl q ↦
              let same : key ≡ k = (keys.eq_iff key k).0 q in
              let at =
                subst
                  (λ k. HashMap.get keys (HashMap.insert keys s.lookups key s.channels) k ≡ some ch)
                  (sym same) h in
              (
                new,
                inl refl,
                some-inj (sym (get-insert_same keys s.lookups key s.channels) ∙ at),
                same,
                refl,
              )
          | inr q ↦
              let (t, m, c, e, p) =
                i.led k ch (sym (get-insert_other keys s.lookups key k s.channels q) ∙ h) in
              (t, inr m, c, e, p)
        ];
        listed = λ t m p. elim m [
          | inl e ↦
              ap (λ u. HashMap.get keys (HashMap.insert keys s.lookups key s.channels) u.key) e
              ∙ get-insert_same keys s.lookups key s.channels
              ∙ ap (λ u. some u.channel) (sym e)
          | inr m ↦ elim (Bool-cases (keys.eq key t.key)) [
            | inl q ↦ absurd (
                some≢none (
                  sym (i.listed t m p)
                  ∙ ap (HashMap.get keys s.lookups) (sym ((keys.eq_iff key t.key).0 q))
                  ∙ absent))
            | inr q ↦ get-insert_other keys s.lookups key t.key s.channels q ∙ i.listed t m p
          ]
        ];
        distinct = λ t u m n e. elim m [
          | inl p ↦ elim n [
            | inl q ↦ p ∙ sym q
            | inr n ↦ let lt = i.used u n in absurd (below (ap (λ v. v.channel) p) lt e)
          ]
          | inr m ↦ elim n [
            | inl q ↦ let lt = i.used t m in absurd (below (ap (λ v. v.channel) q) lt (sym e))
            | inr n ↦ i.distinct t u m n e
          ]
        ];
        used = λ t m. elim m [
          | inl e ↦ let c = ap (λ v. v.channel) e in omega (arith, c)
          | inr m ↦ let lt = i.used t m in omega (arith, lt)
        ];
      }
    where
      below : {a b n : ℕ} → a ≡ n → b < n → a ≡ b → ⊥
      below p q r = omega (arith, p, q, r)
