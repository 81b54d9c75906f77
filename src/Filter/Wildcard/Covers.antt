-- ===== src/Filter/Wildcard/Covers.antt =====
-- What a wildcard rule covers: the names that its expression matches and, with
-- `include_subdomains`, those below such a name.
use sumidero.Prelude.{
  ℕ, zero, suc, ◌≤◌, ◌≡◌, refl, subst, ◌⊎◌, inl, inr, Bool, true, false, false≢true, Option, none,
  some, [], ◌∷◌, ◌++◌, Bytes, Bool-cases, Option-cases, Elem, length, arith,
}
use sumidero.Filter.Glob.{glob_match}
use sumidero.Filter.Glob.Relation.{Glob, IsPlain}
use sumidero.Filter.Glob.Correct.{Answers, glob_match-Answers, glob_match_iff}
use sumidero.Filter.Labels.{dot, after_dot}
use sumidero.Filter.Labels.Under.{Under, parents, Elem-Under, after_dot-none, after_dot-some}
use sumidero.Filter.Wildcard.{is_match, match_parents, wildcard_matches}

abbrev pub Covers : Bytes → Bool → Bytes → Type 0
Covers expr false name = Glob expr name
Covers expr true name = (d : Bytes) × Under d name × Glob expr d

Option-Bool-cases : (o : Option Bool) → (o ≡ some true) ⊎ (o ≡ some false) ⊎ (o ≡ none)
Option-Bool-cases none = inr (inr refl)
Option-Bool-cases (some true) = inl refl
Option-Bool-cases (some false) = inr (inl refl)

module _ (expr text : Bytes) where
  is_match-Glob : is_match expr text ≡ true → Glob expr text
  unfolding is_match
  is_match-Glob h =
      let e : glob_match expr text ≡ some true = ground arith in
      subst (Answers (IsPlain text) (Glob expr text)) e (glob_match-Answers expr text)

  is_match_complete : IsPlain text → Glob expr text → is_match expr text ≡ true
  unfolding is_match
  is_match_complete plain g = rw ((glob_match_iff expr text plain).1 g, is_match)

-- The loop sees every parent domain.
match_parents-some :
    (n : ℕ) (expr rest d : Bytes)
    → length rest ≤ n
    → Elem d (parents rest)
    → is_match expr d ≡ true
    → match_parents n expr rest ≡ true
unfolding match_parents
match_parents-some zero expr [] d h m e = absurd m
match_parents-some zero expr (b ∷ s) d h m e = elim h [ ]
match_parents-some (suc n) expr rest d h m e = elim (Option-cases (after_dot rest)) [
  | inl q ↦ absurd (subst (Elem d) (after_dot-none rest q) m)
  | inr (r, q) ↦
      let (p, lt) = after_dot-some rest q in
      let m' : Elem d (r ∷ parents r) = subst (Elem d) p m in
      rw (q, match_parents)
        (elim m' [
          | inl k ↦ let f : is_match expr r ≡ true = rw k at e in rw f
          | inr k ↦ ground (arith, match_parents-some n expr r d (omega arith) k e)
        ])
]

match_parents-Elem :
    (n : ℕ) (expr rest : Bytes)
    → match_parents n expr rest ≡ true
    → (d : Bytes) × Elem d (parents rest) × (is_match expr d ≡ true)
unfolding match_parents
match_parents-Elem zero expr rest e = absurd (false≢true e)
match_parents-Elem (suc n) expr rest e = elim (Option-cases (after_dot rest)) [
  | inl q ↦ absurd (false≢true (rw (q, match_parents) at e))
  | inr (r, q) ↦
      let (p, _) = after_dot-some rest q in
      rw p (elim (Bool-cases (is_match expr r)) [
        | inl f ↦ (r, inl refl, f)
        | inr f ↦ let (d, m, k) = match_parents-Elem n expr r (ground arith) in (d, inr m, k)
      ])
]

-- A wildcard rule that the code takes for a match covers the name, also where the name holds a `*`.
pub wildcard_matches-Covers :
    (expr name : Bytes) (include_subdomains : Bool)
    → wildcard_matches expr name include_subdomains ≡ true
    → Covers expr include_subdomains name
unfolding wildcard_matches
wildcard_matches-Covers expr name false h = is_match-Glob expr name (ground arith)
wildcard_matches-Covers expr name true h = elim (Bool-cases (is_match expr name)) [
  | inl e ↦ (name, inl refl, is_match-Glob expr name e)
  | inr e ↦
      let (d, m, f) = match_parents-Elem (length name) expr name (rw e at h) in
      (d, (Elem-Under d name).0 (inr m), is_match-Glob expr d f)
]

IsPlain-of_append : (p s : Bytes) → IsPlain (p ++ s) → IsPlain s
IsPlain-of_append [] s h = h
IsPlain-of_append (b ∷ p) s h = IsPlain-of_append p s h.1

IsPlain-Under : (d name : Bytes) → Under d name → IsPlain name → IsPlain d
IsPlain-Under d name (inl e) h = rw e h
IsPlain-Under d name (inr (p, e)) h = (IsPlain-of_append p (dot ∷ d) (subst IsPlain e h)).1

-- A name without a `*` that a wildcard rule covers is taken for a match.
pub Covers-wildcard_matches :
    (expr name : Bytes) (include_subdomains : Bool)
    → IsPlain name
    → Covers expr include_subdomains name
    → wildcard_matches expr name include_subdomains ≡ true
unfolding wildcard_matches
Covers-wildcard_matches expr name false plain g = rw (is_match_complete expr name plain g)
Covers-wildcard_matches expr name true plain (d, u, g) =
    let f = is_match_complete expr d (IsPlain-Under d name u plain) g in
    elim (Elem_of_Under d name u) [
      | inl e ↦ let f' : is_match expr name ≡ true = rw e at f in rw f'
      | inr m ↦ ground (arith, match_parents-some (length name) expr name d (omega arith) m f)
    ]
  where
    Elem_of_Under : (d name : Bytes) → Under d name → Elem d (name ∷ parents name)
    Elem_of_Under d name = (Elem-Under d name).1
