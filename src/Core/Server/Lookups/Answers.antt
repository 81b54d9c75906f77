-- ===== src/Core/Server/Lookups/Answers.antt =====
-- One lookup for a key at a time, and an answer for every client.
use sumidero.Prelude.{
  All, All-of_Elem, ℕ, zero, suc, ◌≡◌, ◌≢◌, ◌≤◌, ◌⊎◌, refl, sym, subst, ap, ◌∙◌, inl, inr,
  false≢true, Bool-cases, Option, some, some-inj, some≢none, List, [], ◌∷◌, map, length, length-map,
  Elem, Elem-of_map, Elem-append_left, Elem-append_right, ◌==◌, ==_iff, ==_refl, arith,
}
use sumidero.Core.HashMap
use sumidero.Core.HashMap.{HashKey}
use sumidero.Core.Server.Lookups.{
  Ended, Phase, resolving, dropped, Task, Lookups, no_lookups, find_task, with_phase, without_task,
  still_waiting, delivered, reply, Step, ended, published, Steps, stay, next,
}
use sumidero.Core.Server.Lookups.Tasks.{
  phase-cases, find_task-Elem, Elem-without_task, with_phase-at, with_phase-off, with_phase-names,
}
use sumidero.Core.Server.Lookups.Invariant.{IsLed, no_lookups-IsLed}
use sumidero.Core.Server.Lookups.Ends.{
  cleaned, over, drop_cleanup-at, publish-at, cleaned-IsLed, over-IsLed,
}
use sumidero.Core.Server.Lookups.Reached.{Steps-IsLed}

module _ {K A : Type 0} where
  find_task-map :
      (ch : ℕ) (p : Phase A) (ts : List (Task K A)) {t : Task K A}
      → find_task ch ts ≡ some t
      → find_task ch (map (with_phase ch p) ts) ≡ some (record t { phase = p })
  find_task-map ch p [] h = absurd (some≢none (sym h))
  find_task-map ch p (u ∷ ts) h = elim (Bool-cases (u.channel == ch)) [
    | inl q ↦
        rw (q, q) (ap (λ (v : Task K A). some (record v { phase = p })) (some-inj (rw q at h)))
    | inr q ↦ rw (q, q) (find_task-map ch p ts (rw q at h))
  ]

  length-without_task : (ch : ℕ) (ts : List (Task K A)) → length (without_task ch ts) ≤ length ts
  length-without_task ch [] = omega arith
  length-without_task ch (t ∷ ts) = elim (Bool-cases (t.channel == ch)) [
    | inl q ↦ rw q (omega (arith, length-without_task ch ts))
    | inr q ↦ rw q (omega (arith, length-without_task ch ts))
  ]

  length-without_first :
      (t : Task K A) (ts : List (Task K A)) → length (without_task t.channel (t ∷ ts)) ≤ length ts
  length-without_first t ts = rw (==_refl t.channel) (length-without_task t.channel ts)

  find_task-first : (t : Task K A) (ts : List (Task K A)) → find_task t.channel (t ∷ ts) ≡ some t
  find_task-first t ts = rw (==_refl t.channel) refl

  module _ (outcome : ℕ → Ended A) where
    -- What a task will answer, if the lookups end as `outcome` says.
    abbrev pub due : Task K A → Option A
    due t = elim t.phase [ resolving ↦ reply (outcome t.channel) | dropped e ↦ reply e ]

    due-resolving : (t : Task K A) → t.phase ≡ resolving → due t ≡ reply (outcome t.channel)
    due-resolving t h =
        ap (λ p. elim p [ resolving ↦ reply (outcome t.channel) | dropped e ↦ reply e ]) h

    due-dropped : (t : Task K A) (e : Ended A) → t.phase ≡ dropped e → due t ≡ reply e
    due-dropped t e h =
        ap (λ p. elim p [ resolving ↦ reply (outcome t.channel) | dropped e ↦ reply e ]) h

module _ {K A C : Type 0} (keys : HashKey K) where
  -- In every state that steps lead to from the start, two tasks that still resolve the same key are
  -- one: the misses of a key share one upstream lookup.
  pub Steps-one_lookup :
      {s : Lookups K A C} (t u : Task K A)
      → Steps keys no_lookups s
      → Elem t s.tasks
      → Elem u s.tasks
      → t.phase ≡ resolving
      → u.phase ≡ resolving
      → t.key ≡ u.key
      → t ≡ u
  Steps-one_lookup {s} t u h m n p q e =
      let i = Steps-IsLed keys h (no_lookups-IsLed keys) in
      i.distinct t u m n
        (some-inj (sym (i.listed t m p) ∙ ap (HashMap.get keys s.lookups) e ∙ i.listed u n q))

  Steps-first : {s t u : Lookups K A C} → Step keys s t → Steps keys t u → Steps keys s u
  Steps-first k stay = next stay k
  Steps-first k (next h l) = next (Steps-first k h) l

  module _ (outcome : ℕ → Ended A) where
    -- The tasks come to their ends, and every client that waits gets its task's answer.
    abbrev pub Settles : Lookups K A C → Type 0
    Settles s =
        (s' : Lookups K A C) × Steps keys s s'
        × (s'.waiting ≡ [])
        × (s'.tasks ≡ [])
        × ((w : C × ℕ)
            → Elem w s.waiting
            → (t : Task K A) × Elem t s.tasks
              × (t.channel ≡ w.1)
              × Elem (w.0, due outcome t) s'.received)
        × ((r : C × Option A) → Elem r s.received → Elem r s'.received)

    Elem-delivered :
        (ch : ℕ) (o : Option A) (ws : List (C × ℕ)) (w : C × ℕ)
        → Elem w ws
        → (w.1 ≡ ch × Elem (w.0, o) (delivered ch o ws)) ⊎ (w.1 ≢ ch × Elem w (still_waiting ch ws))
    Elem-delivered ch o [] w h = absurd h
    Elem-delivered ch o (v ∷ ws) w h = elim (Bool-cases (v.1 == ch)) [
      | inl q ↦ elim h [
        | inl e ↦ inl (ap (λ x. x.1) e ∙ (==_iff v.1 ch).0 q, rw q (inl (ap (λ x. (x.0, o)) e)))
        | inr h ↦ elim (Elem-delivered ch o ws w h) [
          | inl d ↦ inl (d.0, rw q (inr d.1))
          | inr d ↦ inr (d.0, rw q d.1)
        ]
      ]
      | inr q ↦ elim h [
        | inl e ↦
            inr (
              λ c. false≢true (sym q ∙ (==_iff v.1 ch).1 (ap (λ x. x.1) (sym e) ∙ c)),
              rw q (inl e),
            )
        | inr h ↦ elim (Elem-delivered ch o ws w h) [
          | inl d ↦ inl (d.0, rw q d.1)
          | inr d ↦ inr (d.0, rw q (inr d.1))
        ]
      ]
    ]

    Settles-over :
        (s : Lookups K A C) (ch : ℕ) (t : Task K A) (e : Ended A)
        → find_task ch s.tasks ≡ some t
        → t.phase ≡ dropped e
        → Settles (over keys s ch e)
        → Settles s
    Settles-over s ch t e h p (s', steps, nobody, no_task, rest, kept) =
        let (here, at) = find_task-Elem ch s.tasks h in
        (
          s',
          Steps-first (published ch (publish-at keys ch s h p)) steps,
          nobody,
          no_task,
          λ w m. elim (Elem-delivered ch (reply e) s.waiting w m) [
            | inl d ↦ (
              t,
              here,
              at ∙ sym d.0,
              subst (λ o. Elem (w.0, o) s'.received) (sym (due-dropped outcome t e p))
                  (kept (w.0, reply e)
                    (Elem-append_left (w.0, reply e) (delivered ch (reply e) s.waiting) s.received
                      d.1)),
            )
            | inr d ↦
                let (u, m', c, r) = rest w d.1 in (u, (Elem-without_task ch s.tasks u m').0, c, r)
          ],
          λ r m. kept r (Elem-append_right r (delivered ch (reply e) s.waiting) s.received m),
        )

    Settles-cleaned :
        (s : Lookups K A C) (ch : ℕ) (t : Task K A)
        → IsLed keys s
        → find_task ch s.tasks ≡ some t
        → t.phase ≡ resolving
        → Settles (cleaned keys s ch (outcome ch) t.key)
        → Settles s
    Settles-cleaned s ch t i h p (s', steps, nobody, no_task, rest, kept) =
        let (here, at) = find_task-Elem ch s.tasks h in
        let f = with_phase ch (dropped (outcome ch)) in
        (
          s',
          Steps-first (ended ch (outcome ch) (drop_cleanup-at keys ch (outcome ch) s h p)) steps,
          nobody,
          no_task,
          λ w m.
              let (v, m', c, r) = rest w m in
              let (u, mu, e) = Elem-of_map f v s.tasks m' in
              let cu =
                sym (with_phase-names ch (dropped (outcome ch)) u).0
                ∙ sym (ap (λ x. x.channel) e) in
              (
                u,
                mu,
                cu ∙ c,
                subst (λ o. Elem (w.0, o) s'.received) (ap (due outcome) e ∙ due-with_phase u mu) r,
              ),
          kept,
        )
      where
        due-with_phase :
            (u : Task K A)
            → Elem u s.tasks
            → due outcome (with_phase ch (dropped (outcome ch)) u) ≡ due outcome u
        due-with_phase u m = elim (Bool-cases (u.channel == ch)) [
          | inl q ↦
              let c = (==_iff u.channel ch).0 q in
              let (here, at) = find_task-Elem ch s.tasks h in
              let same = i.distinct u t m here (c ∙ sym at) in
              ap (due outcome) (with_phase-at ch (dropped (outcome ch)) u c)
              ∙ ap (λ k. reply (outcome k)) (sym c)
              ∙ sym (due-resolving outcome u (ap (λ x. x.phase) same ∙ p))
          | inr q ↦ ap (due outcome) (
              with_phase-off ch (dropped (outcome ch)) u
                (λ c. false≢true (sym q ∙ (==_iff u.channel ch).1 c)))
        ]

    step_first :
        (s : Lookups K A C) (t : Task K A) (ts : List (Task K A))
        → s.tasks ≡ t ∷ ts
        → IsLed keys s
        → ((s₂ : Lookups K A C) → length s₂.tasks ≤ length ts → IsLed keys s₂ → Settles s₂)
        → Settles s
    step_first s t ts e i rest =
        let ch = t.channel in
        let found : find_task ch s.tasks ≡ some t = ap (find_task ch) e ∙ find_task-first t ts in
        elim (phase-cases t.phase) [
          | inr (end, p) ↦ Settles-over s ch t end found p (
              rest (over keys s ch end)
                (subst (λ l. length (without_task ch l) ≤ length ts) (sym e)
                  (length-without_first t ts))
                (over-IsLed keys s ch end t found p i))
          | inl p ↦
              let end = outcome ch in
              let s₁ = cleaned keys s ch end t.key in
              let t₁ : Task K A = record t { phase = dropped end } in
              let found₁ = find_task-map ch (dropped end) s.tasks found in
              let first : s₁.tasks ≡ t₁ ∷ map (with_phase ch (dropped end)) ts =
                ap (map (with_phase ch (dropped end))) e
                ∙ ap (λ u. u ∷ map (with_phase ch (dropped end)) ts)
                    (with_phase-at ch (dropped end) t refl) in
              let fewer : length (without_task ch s₁.tasks) ≤ length ts =
                subst (λ l. length (without_task ch l) ≤ length ts) (sym first)
                  (omega (
                    arith,
                    length-without_first t₁ (map (with_phase ch (dropped end)) ts),
                    length-map ts (with_phase ch (dropped end)),
                  )) in
              let i₁ = cleaned-IsLed keys s ch end t found p i in
              Settles-cleaned s ch t i found p (
                Settles-over s₁ ch t₁ end found₁ refl
                  (rest (over keys s₁ ch end) fewer (over-IsLed keys s₁ ch end t₁ found₁ refl i₁)))
        ]

    no_one_left :
        (s : Lookups K A C) (ws : List (C × ℕ))
        → s.waiting ≡ ws
        → s.tasks ≡ []
        → IsLed keys s
        → ws ≡ []
    no_one_left s [] e f i = refl
    no_one_left s (w ∷ ws) e f i =
        let (t, m, c) = i.awaited w (subst (λ l. Elem w l) (sym e) (inl refl)) in
        absurd (subst (λ l. Elem t l) f m)

    settle_tasks :
        (n : ℕ) (s : Lookups K A C) (ts : List (Task K A))
        → s.tasks ≡ ts
        → length ts ≤ n
        → IsLed keys s
        → Settles s
    settle_tasks n s [] e h i =
        let nobody = no_one_left s s.waiting refl e i in
        (s, stay, nobody, e, λ w m. absurd (subst (λ l. Elem w l) nobody m), λ r m. m)
    settle_tasks zero s (t ∷ ts) e h i = absurd (omega (arith, h))
    settle_tasks (suc n) s (t ∷ ts) e h i =
        step_first s t ts e i
          (λ s₂ fewer i₂. settle_tasks n s₂ s₂.tasks refl (omega (arith, h, fewer)) i₂)

    -- The state `s'` has all that the clients of `s` wait for, and what they received.
    pub record IsAnswered (s s' : Lookups K A C) : Type 0 where
      pub answered_all :
          All
            (λ w.
              (t : Task K A) × Elem t s.tasks
              × (t.channel ≡ w.1)
              × Elem (w.0, due outcome t) s'.received)
            s.waiting
      pub kept_all : All (λ r. Elem r s'.received) s.received

    -- From every state that steps lead to from the start, however the lookups end, with an answer, an
    -- error or a panic, steps of the tasks lead to a state where no task is left and no client waits;
    -- every client that waited has got the answer of the task whose channel it waited on, and what
    -- was received before is kept.
    pub Steps-settle :
        {s : Lookups K A C}
        → Steps keys no_lookups s
        → (s' : Lookups K A C) × Steps keys s s'
          × (s'.waiting ≡ [])
          × (s'.tasks ≡ [])
          × IsAnswered s s'
    Steps-settle {s} h =
        let (s', steps, nobody, no_task, rest, kept) =
          settle_tasks (length s.tasks) s s.tasks refl (omega arith)
            (Steps-IsLed keys h (no_lookups-IsLed keys)) in
        (
          s',
          steps,
          nobody,
          no_task,
          record {
            answered_all =
                All-of_Elem
                  (λ w.
                    (t : Task K A) × Elem t s.tasks
                    × (t.channel ≡ w.1)
                    × Elem (w.0, due outcome t) s'.received)
                  s.waiting rest;
            kept_all = All-of_Elem (λ r. Elem r s'.received) s.received kept;
          },
        )
