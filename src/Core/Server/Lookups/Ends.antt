-- ===== src/Core/Server/Lookups/Ends.antt =====
-- What a task leaves behind.
use sumidero.Prelude.{
  ℕ, ◌≡◌, ◌≢◌, ◌++◌, refl, sym, ap, ◌∙◌, inl, inr, false≢true, Bool-cases, Option-cases, some,
  some-inj, some≢none, map, Elem-map, Elem-of_map, ◌==◌, ==_iff, arith,
}
use sumidero.Core.HashMap
use sumidero.Core.HashMap.{HashKey}
use sumidero.Core.HashMap.Laws.{eq_refl, get-remove_same, get-remove_other}
use sumidero.Core.Server.Lookups.{
  Ended, resolving, dropped, Task, Lookups, find_task, with_phase, without_task, still_waiting,
  delivered, reply, publish, drop_cleanup,
}
use sumidero.Core.Server.Lookups.Tasks.{
  phase-cases, phase≢, find_task-Elem, Elem-without_task, without_task-Elem, with_phase-at,
  with_phase-off, with_phase-names, Elem-still_waiting,
}
use sumidero.Core.Server.Lookups.Invariant.{IsLed}

module _ {K A C : Type 0} (keys : HashKey K) where
  abbrev pub cleaned : Lookups K A C → ℕ → Ended A → K → Lookups K A C
  cleaned s ch e k = record s {
    lookups = HashMap.remove keys s.lookups k;
    tasks = map (with_phase ch (dropped e)) s.tasks;
  }

  abbrev pub over : Lookups K A C → ℕ → Ended A → Lookups K A C
  over s ch e = record s {
    tasks = without_task ch s.tasks;
    waiting = still_waiting ch s.waiting;
    received = delivered ch (reply e) s.waiting ++ s.received;
  }

  pub drop_cleanup-at :
      (ch : ℕ) (e : Ended A) (s : Lookups K A C) {t : Task K A}
      → find_task ch s.tasks ≡ some t
      → t.phase ≡ resolving
      → drop_cleanup keys ch e s ≡ some (cleaned s ch e t.key)
  unfolding drop_cleanup
  drop_cleanup-at ch e s h p = rw (h, drop_cleanup, p) refl

  pub publish-at :
      (ch : ℕ) (s : Lookups K A C) {t : Task K A} {e : Ended A}
      → find_task ch s.tasks ≡ some t
      → t.phase ≡ dropped e
      → publish ch s ≡ some (over s ch e)
  unfolding publish
  publish-at ch s h p = rw (h, publish, p) refl

  pub drop_cleanup-cleaned :
      (ch : ℕ) (e : Ended A) (s : Lookups K A C) {s' : Lookups K A C}
      → drop_cleanup keys ch e s ≡ some s'
      → (t : Task K A) × (find_task ch s.tasks ≡ some t)
        × (t.phase ≡ resolving)
        × (s' ≡ cleaned s ch e t.key)
  unfolding drop_cleanup
  drop_cleanup-cleaned ch e s h = elim (Option-cases (find_task ch s.tasks)) [
    | inl q ↦ absurd (some≢none (sym (rw (q, drop_cleanup) at h)))
    | inr (t, q) ↦ elim (phase-cases t.phase) [
      | inl p ↦ (t, q, p, some-inj (sym h ∙ drop_cleanup-at ch e s q p))
      | inr (f, p) ↦ absurd (some≢none (sym (rw (q, drop_cleanup, p) at h)))
    ]
  ]

  pub publish-over :
      (ch : ℕ) (s : Lookups K A C) {s' : Lookups K A C}
      → publish ch s ≡ some s'
      → (t : Task K A) × (e : Ended A) × (find_task ch s.tasks ≡ some t)
        × (t.phase ≡ dropped e)
        × (s' ≡ over s ch e)
  unfolding publish
  publish-over ch s h = elim (Option-cases (find_task ch s.tasks)) [
    | inl q ↦ absurd (some≢none (sym (rw (q, publish) at h)))
    | inr (t, q) ↦ elim (phase-cases t.phase) [
      | inl p ↦ absurd (some≢none (sym (rw (q, publish, p) at h)))
      | inr (e, p) ↦ (t, e, q, p, some-inj (sym h ∙ publish-at ch s q p))
    ]
  ]

  pub cleaned-IsLed :
      (s : Lookups K A C) (ch : ℕ) (e : Ended A) (t : Task K A)
      → find_task ch s.tasks ≡ some t
      → t.phase ≡ resolving
      → IsLed keys s
      → IsLed keys (cleaned s ch e t.key)
  cleaned-IsLed s ch e t h p i =
      let (here, at) = find_task-Elem ch s.tasks h in
      let f = with_phase ch (dropped e) in
      record {
        awaited = λ w m.
            let (u, m', c) = i.awaited w m in
            (f u, Elem-map f u s.tasks m', (with_phase-names ch (dropped e) u).0 ∙ c);
        led = λ k c q. elim (Bool-cases (keys.eq t.key k)) [
          | inl same ↦
              let e' = (keys.eq_iff t.key k).0 same in
              absurd (
                some≢none (
                  sym q
                  ∙ ap (HashMap.get keys (HashMap.remove keys s.lookups t.key)) (sym e')
                  ∙ get-remove_same keys s.lookups t.key))
          | inr other ↦
              let (u, m, cu, ku, pu) =
                i.led k c (sym (get-remove_other keys s.lookups t.key k other) ∙ q) in
              let off : u.channel ≢ ch = λ r.
                let same = i.distinct u t m here (r ∙ sym at) in
                false≢true (
                  sym other
                  ∙ ap (keys.eq t.key) (sym ku ∙ ap (λ v. v.key) same)
                  ∙ eq_refl keys t.key) in
              let unmoved = with_phase-off ch (dropped e) u off in
              (
                f u,
                Elem-map f u s.tasks m,
                ap (λ v. v.channel) unmoved ∙ cu,
                ap (λ v. v.key) unmoved ∙ ku,
                ap (λ v. v.phase) unmoved ∙ pu,
              )
        ];
        listed = λ v m q.
            let (u, m', r) = Elem-of_map f v s.tasks m in
            elim (Bool-cases (u.channel == ch)) [
              | inl c ↦ absurd (
                  phase≢ (
                    sym (
                      ap (λ w. w.phase)
                        (r ∙ with_phase-at ch (dropped e) u ((==_iff u.channel ch).0 c)))
                    ∙ q))
              | inr c ↦
                  let off : u.channel ≢ ch = λ k. false≢true (sym c ∙ (==_iff u.channel ch).1 k) in
                  let same = r ∙ with_phase-off ch (dropped e) u off in
                  let known = i.listed u m' (ap (λ w. w.phase) (sym same) ∙ q) in
                  elim (Bool-cases (keys.eq t.key u.key)) [
                    | inl k ↦ absurd (
                        off (
                          some-inj (
                            sym known
                            ∙ ap (HashMap.get keys s.lookups) (sym ((keys.eq_iff t.key u.key).0 k))
                            ∙ i.listed t here p)
                          ∙ at))
                    | inr k ↦
                        ap (λ w. HashMap.get keys (HashMap.remove keys s.lookups t.key) w.key) same
                        ∙ get-remove_other keys s.lookups t.key u.key k
                        ∙ known
                        ∙ ap (λ w. some w.channel) (sym same)
                  ]
            ];
        distinct = λ v w m n q.
            let (v', m', r) = Elem-of_map f v s.tasks m in
            let (w', n', r') = Elem-of_map f w s.tasks n in
            let cv = ap (λ x. x.channel) r ∙ (with_phase-names ch (dropped e) v').0 in
            let cw = ap (λ x. x.channel) r' ∙ (with_phase-names ch (dropped e) w').0 in
            r ∙ ap f (i.distinct v' w' m' n' (sym cv ∙ q ∙ cw)) ∙ sym r';
        used = λ v m.
            let (u, m', r) = Elem-of_map f v s.tasks m in
            let cv = ap (λ x. x.channel) r ∙ (with_phase-names ch (dropped e) u).0 in
            let lt = i.used u m' in omega (arith, cv, lt);
      }

  pub over-IsLed :
      (s : Lookups K A C) (ch : ℕ) (e : Ended A) (t : Task K A)
      → find_task ch s.tasks ≡ some t
      → t.phase ≡ dropped e
      → IsLed keys s
      → IsLed keys (over s ch e)
  over-IsLed s ch e t h p i =
      let (here, at) = find_task-Elem ch s.tasks h in
      record {
        awaited = λ w m.
            let (m', n) = Elem-still_waiting ch s.waiting w m in
            let (u, mu, c) = i.awaited w m' in
            (u, without_task-Elem ch s.tasks u mu (λ q. n (sym c ∙ q)), c);
        led = λ k c q.
            let (u, m, cu, ku, pu) = i.led k c q in
            let off : u.channel ≢ ch = λ r.
              phase≢ (sym p ∙ ap (λ v. v.phase) (sym (i.distinct u t m here (r ∙ sym at))) ∙ pu) in
            (u, without_task-Elem ch s.tasks u m off, cu, ku, pu);
        listed = λ v m. i.listed v (Elem-without_task ch s.tasks v m).0;
        distinct = λ v w m n.
            i.distinct v w (Elem-without_task ch s.tasks v m).0
              (Elem-without_task ch s.tasks w n).0;
        used = λ v m. i.used v (Elem-without_task ch s.tasks v m).0;
      }
