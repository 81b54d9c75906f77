-- ===== src/Filter/Verdict/Spelled.antt =====
-- The names that a query stands for.
use sumidero.Prelude.{
  ◌≡◌, refl, sym, ap, ◌∙◌, ◌⊎◌, inl, inr, false, none, some, [], ◌∷◌, ◌++◌, Bytes, Bool-cases,
  Option-cases, strip_suffix, ends_with, or_self, any, is_ascii_uppercase, to_ascii_lowercase,
  if◌then◌else◌, arith,
}
use sumidero.Filter.Labels.{dot}
use sumidero.Filter.Labels.Reversed.{EndsInLabel}
use sumidero.Filter.Verdict.{normalized}

-- In lower case the query is the name, or the name and a dot.
abbrev pub Spells : Bytes → Bytes → Type 0
Spells query name =
    (to_ascii_lowercase query ≡ name) ⊎ (to_ascii_lowercase query ≡ name ++ dot ∷ [])

lowercase-same : (s : Bytes) → any is_ascii_uppercase s ≡ false → to_ascii_lowercase s ≡ s
lowercase-same [] h = refl
lowercase-same (b ∷ s) h = elim (Bool-cases (is_ascii_uppercase b)) [
  | inl y ↦ absurd (ground (arith, y, h))
  | inr n ↦ rw n (ap (◌∷◌ b) (lowercase-same s (rw n at h)))
]

strip_suffix-none : (s : Bytes) → ends_with dot s ≡ false → strip_suffix dot s ≡ none
strip_suffix-none s h = elim (Option-cases (strip_suffix dot s)) [
  | inl q ↦ q
  | inr (t, q) ↦ absurd (ground (arith, q, h))
]

strip_suffix-append : (s : Bytes) → strip_suffix dot (s ++ dot ∷ []) ≡ some s
strip_suffix-append [] = refl
strip_suffix-append (b ∷ []) = refl
strip_suffix-append (b ∷ c ∷ s) = rw (strip_suffix-append (c ∷ s)) refl

pub normalized-Spells :
    (query name : Bytes) → Spells query name → EndsInLabel name → normalized query ≡ name
unfolding normalized
normalized-Spells query name spelled ends =
    ap (λ s. or_self (strip_suffix dot s) s) lowered ∙ bare spelled
  where
    lowered :
        (if any is_ascii_uppercase query then to_ascii_lowercase query else query)
        ≡ to_ascii_lowercase query
    lowered = elim (Bool-cases (any is_ascii_uppercase query)) [
      | inl y ↦ rw y refl
      | inr n ↦ rw n (sym (lowercase-same query n))
    ]

    bare :
        Spells query name
        → or_self (strip_suffix dot (to_ascii_lowercase query)) (to_ascii_lowercase query) ≡ name
    bare (inl q) =
        ap (λ s. or_self (strip_suffix dot s) s) q
        ∙ ap (λ o. or_self o name) (strip_suffix-none name ends.no_dot)
    bare (inr q) =
        ap (λ s. or_self (strip_suffix dot s) s) q
        ∙ ap (λ o. or_self o (name ++ dot ∷ [])) (strip_suffix-append name)
