-- ===== src/Core/Server/Lookups/Tasks.antt =====
-- Lists of tasks and of clients.
use sumidero.Prelude.{
  ℕ, ◌≡◌, ◌≢◌, ◌⊎◌, refl, sym, ap, ◌∙◌, inl, inr, false≢true, Bool-cases, some, some-inj, some≢none,
  List, [], ◌∷◌, Elem, ◌==◌, ==_iff,
}
use sumidero.Core.Server.Lookups.{
  Ended, Phase, resolving, dropped, Task, find_task, with_phase, without_task, still_waiting,
}

pub phase-cases : {A : Type 0} (p : Phase A) → (p ≡ resolving) ⊎ ((e : Ended A) × (p ≡ dropped e))
phase-cases resolving = inl refl
phase-cases (dropped e) = inr (e, refl)

pub phase≢ : {A : Type 0} {e : Ended A} → dropped e ≡ resolving → ⊥
phase≢ h = cc

module _ {K A : Type 0} where
  pub find_task-Elem :
      (ch : ℕ) (ts : List (Task K A)) {t : Task K A}
      → find_task ch ts ≡ some t
      → Elem t ts × (t.channel ≡ ch)
  find_task-Elem ch [] h = absurd (some≢none (sym h))
  find_task-Elem ch (u ∷ ts) {t} h = elim (Bool-cases (u.channel == ch)) [
    | inl q ↦
        let same : u ≡ t = some-inj (rw q at h) in
        (inl (sym same), ap (λ v. v.channel) (sym same) ∙ (==_iff u.channel ch).0 q)
    | inr q ↦ let (m, e) = find_task-Elem ch ts (rw q at h) in (inr m, e)
  ]

  pub Elem-without_task :
      (ch : ℕ) (ts : List (Task K A)) (t : Task K A)
      → Elem t (without_task ch ts)
      → Elem t ts × (t.channel ≢ ch)
  Elem-without_task ch [] t h = absurd h
  Elem-without_task ch (u ∷ ts) t h = elim (Bool-cases (u.channel == ch)) [
    | inl q ↦ let (m, n) = Elem-without_task ch ts t (rw q at h) in (inr m, n)
    | inr q ↦ elim (rw q at h) [
      | inl e ↦ (
        inl e,
        λ c. false≢true (sym q ∙ (==_iff u.channel ch).1 (ap (λ v. v.channel) (sym e) ∙ c)),
      )
      | inr h ↦ let (m, n) = Elem-without_task ch ts t h in (inr m, n)
    ]
  ]

  pub without_task-Elem :
      (ch : ℕ) (ts : List (Task K A)) (t : Task K A)
      → Elem t ts
      → t.channel ≢ ch
      → Elem t (without_task ch ts)
  without_task-Elem ch [] t h n = absurd h
  without_task-Elem ch (u ∷ ts) t h n = elim (Bool-cases (u.channel == ch)) [
    | inl q ↦ elim h [
      | inl e ↦ absurd (n (ap (λ v. v.channel) e ∙ (==_iff u.channel ch).0 q))
      | inr h ↦ rw q (without_task-Elem ch ts t h n)
    ]
    | inr q ↦ elim h [ inl e ↦ rw q (inl e) | inr h ↦ rw q (inr (without_task-Elem ch ts t h n)) ]
  ]

  pub with_phase-at :
      (ch : ℕ) (p : Phase A) (t : Task K A)
      → t.channel ≡ ch
      → with_phase ch p t ≡ record t { phase = p }
  with_phase-at ch p t h = rw ((==_iff t.channel ch).1 h) refl

  pub with_phase-off :
      (ch : ℕ) (p : Phase A) (t : Task K A) → t.channel ≢ ch → with_phase ch p t ≡ t
  with_phase-off ch p t h = elim (Bool-cases (t.channel == ch)) [
    | inl q ↦ absurd (h ((==_iff t.channel ch).0 q))
    | inr q ↦ rw q refl
  ]

  pub with_phase-names :
      (ch : ℕ) (p : Phase A) (t : Task K A)
      → ((with_phase ch p t).channel ≡ t.channel) × ((with_phase ch p t).key ≡ t.key)
  with_phase-names ch p t = elim (Bool-cases (t.channel == ch)) [
    | inl q ↦ rw q (refl, refl)
    | inr q ↦ rw q (refl, refl)
  ]

pub Elem-still_waiting :
    {C : Type 0} (ch : ℕ) (ws : List (C × ℕ)) (w : C × ℕ)
    → Elem w (still_waiting ch ws)
    → Elem w ws × (w.1 ≢ ch)
Elem-still_waiting ch [] w h = absurd h
Elem-still_waiting ch (v ∷ ws) w h = elim (Bool-cases (v.1 == ch)) [
  | inl q ↦ let (m, n) = Elem-still_waiting ch ws w (rw q at h) in (inr m, n)
  | inr q ↦ elim (rw q at h) [
    | inl e ↦ (inl e, λ c. false≢true (sym q ∙ (==_iff v.1 ch).1 (ap (λ x. x.1) (sym e) ∙ c)))
    | inr h ↦ let (m, n) = Elem-still_waiting ch ws w h in (inr m, n)
  ]
]
