-- ===== src/Core/Config/Lists.antt =====
-- What the lists come to: an extra list takes the place of the list with its name, or comes last.
use sumidero.Prelude.{
  ℕ, ◌≡◌, ◌≢◌, refl, sym, subst, ap, ◌∙◌, inl, inr, Bool, true, false, false≢true, Bool-cases,
  Option, Option-cases, none, some, List, [], ◌∷◌, ◌++◌, All, set, Bytes, codes, bytes_eq,
  bytes_eq_sound, bytes_eq_refl, if◌then◌else◌,
}
use sumidero.Core.Config.{
  ListSource, Profile, FilteringConfig, position, override, override_all, lists_of, effective_lists,
}
use sumidero.Core.Config.Validation.{HasDistinctNames}

-- The list with a name.
abbrev pub find_list : Bytes → List ListSource → Option ListSource
find_list n [] = none
find_list n (l ∷ ls) = if bytes_eq l.name n then some l else find_list n ls

abbrev pub or_else : {A : Type 0} → Option A → Option A → Option A
or_else none b = b
or_else (some a) b = some a

-- Overriding without positions.
abbrev placed : List ListSource → ListSource → List ListSource
placed [] extra = extra ∷ []
placed (l ∷ ls) extra = if bytes_eq l.name extra.name then extra ∷ ls else l ∷ placed ls extra

abbrev put_at : Option ℕ → List ListSource → ListSource → List ListSource
put_at o ls extra = elim o [ none ↦ ls ++ extra ∷ [] | some pos ↦ set ls pos extra ]

override-placed : (ls : List ListSource) (extra : ListSource) → override ls extra ≡ placed ls extra
unfolding override
override-placed [] extra = refl
override-placed (l ∷ ls) extra = elim (Bool-cases (bytes_eq l.name extra.name)) [
  | inl q ↦ rw (q, override) refl
  | inr q ↦ elim (Option-cases (position (λ l. bytes_eq l.name extra.name) ls)) [
    | inl h ↦
        rw (q, override, h)
          (ap (λ r. l ∷ r) (sym (ap (λ o. put_at o ls extra) h) ∙ override-placed ls extra))
    | inr (pos, h) ↦
        rw (q, override, h)
          (ap (λ r. l ∷ r) (sym (ap (λ o. put_at o ls extra) h) ∙ override-placed ls extra))
  ]
]

other_name :
    (l : ListSource) (m n : Bytes)
    → bytes_eq l.name m ≡ true
    → bytes_eq m n ≡ false
    → bytes_eq l.name n ≡ false
other_name l m n h k = ap (λ w. bytes_eq w n) (bytes_eq_sound l.name m h) ∙ k

find_list-placed :
    (n : Bytes) (ls : List ListSource) (extra : ListSource)
    → find_list n (placed ls extra) ≡ (if bytes_eq extra.name n then some extra else find_list n ls)
find_list-placed n [] extra = refl
find_list-placed n (l ∷ ls) extra = elim (Bool-cases (bytes_eq l.name extra.name)) [
  | inl q ↦ elim (Bool-cases (bytes_eq extra.name n)) [
    | inl k ↦ rw (q, k) refl
    | inr k ↦ rw (q, k, other_name l extra.name n q k) refl
  ]
  | inr q ↦ elim (Bool-cases (bytes_eq l.name n)) [
    | inl k ↦
        rw (q, k, ap (λ w. bytes_eq extra.name w) (sym (bytes_eq_sound l.name n k)) ∙ swapped q)
          refl
    | inr k ↦ rw (q, k) (find_list-placed n ls extra)
  ]
]
  where
    swapped : bytes_eq l.name extra.name ≡ false → bytes_eq extra.name l.name ≡ false
    swapped q = elim (Bool-cases (bytes_eq extra.name l.name)) [
      | inl h ↦ absurd (
          false≢true (
            sym q
            ∙ ap (bytes_eq l.name) (bytes_eq_sound extra.name l.name h)
            ∙ bytes_eq_refl l.name))
      | inr h ↦ h
    ]

-- The last list with a name.
abbrev pub find_last : Bytes → List ListSource → Option ListSource
find_last n [] = none
find_last n (l ∷ ls) = or_else (find_last n ls) (if bytes_eq l.name n then some l else none)

find_list-override_all :
    (n : Bytes) (extras result : List ListSource)
    → find_list n (override_all result extras) ≡ or_else (find_last n extras) (find_list n result)
find_list-override_all n [] result = refl
find_list-override_all n (e ∷ extras) result =
    find_list-override_all n extras (override result e)
    ∙ ap (or_else (find_last n extras))
        (ap (find_list n) (override-placed result e) ∙ find_list-placed n result e)
    ∙ nested (find_last n extras) (bytes_eq e.name n) e (find_list n result)
  where
    nested :
        (o : Option ListSource) (b : Bool) (e : ListSource) (r : Option ListSource)
        → or_else o (if b then some e else r) ≡ or_else (or_else o (if b then some e else none)) r
    nested none true e r = refl
    nested none false e r = refl
    nested (some a) b e r = refl

placed-names :
    (P : Bytes → Type 0) (ls : List ListSource) (extra : ListSource)
    → P extra.name
    → All (λ l. P l.name) ls
    → All (λ l. P l.name) (placed ls extra)
placed-names P [] extra p h = (p, tt)
placed-names P (l ∷ ls) extra p (q, h) = elim (Bool-cases (bytes_eq l.name extra.name)) [
  | inl e ↦ rw e (p, h)
  | inr e ↦ rw e (q, placed-names P ls extra p h)
]

placed-distinct :
    (ls : List ListSource) (extra : ListSource)
    → HasDistinctNames ls
    → HasDistinctNames (placed ls extra)
placed-distinct [] extra d = (tt, tt)
placed-distinct (l ∷ ls) extra (f, d) = elim (Bool-cases (bytes_eq l.name extra.name)) [
  | inl e ↦ rw e (subst (λ n. All (λ k. k.name ≢ n) ls) (bytes_eq_sound l.name extra.name e) f, d)
  | inr e ↦ rw e (
    placed-names (λ n. n ≢ l.name) ls extra
        (λ q. false≢true (sym e ∙ ap (bytes_eq l.name) q ∙ bytes_eq_refl l.name)) f,
    placed-distinct ls extra d,
  )
]

override_all-distinct :
    (extras result : List ListSource)
    → HasDistinctNames result
    → HasDistinctNames (override_all result extras)
override_all-distinct [] result d = d
override_all-distinct (e ∷ extras) result d =
    override_all-distinct extras (override result e)
      (subst HasDistinctNames (sym (override-placed result e)) (placed-distinct result e d))

abbrev pub profile_lists : Option Profile → List ListSource
profile_lists none = []
profile_lists (some p) = lists_of p

profile_lists-distinct : (p : Option Profile) → HasDistinctNames (profile_lists p)
profile_lists-distinct none = tt
profile_lists-distinct (some Profile.minimal) = (tt, tt)
profile_lists-distinct (some Profile.balanced) = (tt, tt)
profile_lists-distinct (some Profile.strict) =
    ((λ h. false≢true (ap (bytes_eq (codes "hagezi-tif")) (sym h)), tt), (tt, tt))

effective_lists-from :
    (c : FilteringConfig) → effective_lists c ≡ override_all (profile_lists c.profile) c.lists
unfolding effective_lists
effective_lists-from c = elim (Option-cases c.profile) [
  | inl h ↦ rw h refl
  | inr (p, h) ↦ rw h refl
]

-- No two of the effective lists have one name; under every name stands the last extra list with that
-- name, or without one the profile's list.
pub effective_lists-find :
    (c : FilteringConfig) (n : Bytes)
    → HasDistinctNames (effective_lists c)
      × (find_list n (effective_lists c)
          ≡ or_else (find_last n c.lists) (find_list n (profile_lists c.profile)))
effective_lists-find c n =
    let e = effective_lists-from c in
    (
      subst HasDistinctNames (sym e) (
          override_all-distinct c.lists (profile_lists c.profile)
            (profile_lists-distinct c.profile)),
      ap (find_list n) e ∙ find_list-override_all n c.lists (profile_lists c.profile),
    )
