-- ===== src/Filter/Verdict/Settled.antt =====
-- The search of `verdict` against what a rule says: it looks at exactly the rules that match.
use sumidero.Prelude.{
  ℕ, zero, suc, ◌≡◌, ◌≢◌, refl, sym, subst, ap, ◌∙◌, ◌⊎◌, ◌↔◌, inl, inr, Bool, true, false, not,
  Option, none, some, List, [], ◌∷◌, map, Bytes, Elem, get_elem?, get_or, take, ◌==◌, ◌%◌, ◌≤◌,
  length, leb, ltb, ◌||◌, arith,
}
use sumidero.Filter.Labels.{boundaries}
use sumidero.Filter.Labels.Under.{Under, parents}
use sumidero.Filter.Labels.Reversed.{
  EndsInLabel, reversed, AtBoundary-Under, reverse_labels_into-reversed,
}
use sumidero.Filter.Labels.Boundaries.{boundaries-AtBoundary}
use sumidero.Filter.Glob.Relation.{IsPlain}
use sumidero.Filter.Wildcard.{wildcard_anchor}
use sumidero.Filter.Wildcard.Covers.{Covers, wildcard_matches-Covers, Covers-wildcard_matches}
use sumidero.Filter.Wildcard.Anchor.{Covers-anchor}
use sumidero.Filter.Index
use sumidero.Filter.Index.Lookup.{equal_range_iff}
use sumidero.Filter.Store
use sumidero.Filter.Types.{RuleAction, Pattern, Rule, is_exception}
use sumidero.Filter.Engine.{Engine}
use sumidero.Filter.Engine.Entries.{Rules, Entry}
use sumidero.Filter.Engine.Tracks.{IsExact, FiledAt, IsFiled}
use sumidero.Filter.Engine.Built.{Ready}
use sumidero.Filter.Index.{u32_size}
use sumidero.Filter.Verdict.{
  Search, stop, going, panicked, search_rules, normalized, conclude, verdict,
}
use sumidero.Filter.Verdict.Scan.{
  AtPrefix, Fires, FiresIn, InBuckets, Scan, Scan-cong, Candidate, search_rules-Scan,
}

-- What a rule says about a name.
abbrev pub Matches : Pattern → Bytes → Type 0
Matches (Pattern.exact d) name = d ≡ name
Matches (Pattern.subtree d) name = Under d name
Matches (Pattern.wildcard expr inc) name = Covers expr inc name

abbrev pub MatchesRule : Bytes → Rule → Type 0
MatchesRule name r = Matches r.pattern name

Entry-map :
    (P Q : Rule → Type 0) (rs : Rules) (id : ℕ)
    → ((r : Rule) → P r → Q r)
    → Entry P rs id
    → Entry Q rs id
Entry-map P Q rs id f (l, r, e, p) = (l, r, e, f r p)

-- A column of flags at a rule's id.
get_or-flag :
    (flags : List ℕ) (rs : Rules) (id : ℕ) {l : ℕ} {r : Rule}
    → map (λ f. not (f % 2 == 0)) flags ≡ map (λ p. is_exception p.1.action) rs
    → get_elem? rs id ≡ some (l, r)
    → not (get_or flags id 0 % 2 == 0) ≡ is_exception r.action
get_or-flag [] [] id h e = absurd (ground arith)
get_or-flag [] (p ∷ rs) id h e = absurd (ground arith)
get_or-flag (f ∷ fs) [] id h e = absurd (ground arith)
get_or-flag (f ∷ fs) (p ∷ rs) zero h e = ground arith
get_or-flag (f ∷ fs) (p ∷ rs) (suc id) h e = get_or-flag fs rs id (ground arith) e

module _ (e : Engine) (rs : Rules) (ready : Ready e rs) (name : Bytes) where
  pub is_except-action :
      (id : ℕ) {l : ℕ} {r : Rule}
      → get_elem? rs id ≡ some (l, r)
      → Store.is_except e.store id ≡ is_exception r.action
  unfolding Store.is_except
  is_except-action id h = get_or-flag e.store.flags rs id ready.labels.excepts h

  exact-found : (id : ℕ) → Elem id (Index.equal_range e.exact name) ↔ Entry (IsExact name) rs id
  exact-found id =
      let range = equal_range_iff e.exact ready.exact_ordered name id in
      let index = ready.indexes.exact name id in
      (λ m. index.0 (range.0 m), λ h. range.1 (index.1 h))

  abbrev AboveName : Rule → Type 0
  AboveName r = (d : Bytes) × (r.pattern ≡ Pattern.subtree d) × Under d name

  abbrev CoversName : Rule → Type 0
  CoversName r =
      (expr : Bytes) × (inc : Bool) × (r.pattern ≡ Pattern.wildcard expr inc) × Covers expr inc name

  subtree-found :
      (id : ℕ) → AtPrefix e (reversed name) (boundaries (reversed name)) id ↔ Entry AboveName rs id
  subtree-found id = (
    λ (end, m, k).
        let key = take end (reversed name) in
        let found = (equal_range_iff e.subtree ready.subtree_ordered key id).0 k in
        let (l, r, g, (d, p, q)) = (ready.indexes.subtree key id).0 found in
        let at = (boundaries-AtBoundary (reversed d) (reversed name)).0 (end, m, sym q) in
        (l, r, g, (d, p, (AtBoundary-Under d name).0 at)),
    λ (l, r, g, (d, p, u)).
        let (end, m, q) =
          (boundaries-AtBoundary (reversed d) (reversed name)).1 ((AtBoundary-Under d name).1 u) in
        let key = take end (reversed name) in
        let found = (ready.indexes.subtree key id).1 (l, r, g, (d, p, sym q)) in
        (end, m, (equal_range_iff e.subtree ready.subtree_ordered key id).1 found),
  )

  Fires-Entry : (idx id : ℕ) → Fires e name idx id → Entry CoversName rs id
  Fires-Entry idx id (w, g, q, m) =
      let (l, r, h, p) = ready.indexes.known idx w g in
      (
        l,
        r,
        ap (get_elem? rs) q ∙ h,
        (
          w.expr,
          w.include_subdomains,
          p,
          wildcard_matches-Covers w.expr name w.include_subdomains m,
        ),
      )

  abbrev FoundWildcard : ℕ → Type 0
  FoundWildcard id =
      InBuckets e name (name ∷ parents name) id ⊎ FiresIn e name e.wildcard_unanchored id

  module _ (plain : IsPlain name) where
    Entry-FoundWildcard : (id : ℕ) → Entry CoversName rs id → FoundWildcard id
    Entry-FoundWildcard id (l, r, g, (expr, inc, p, c)) =
        let (idx, found, at) = ready.indexes.filed expr inc id (l, r, g, p) in
        go idx at
          (
            record { expr = expr; include_subdomains = inc; rule = id },
            found,
            refl,
            Covers-wildcard_matches expr name inc plain c,
          )
          (wildcard_anchor expr) refl at
      where
        go :
            (idx : ℕ)
            → IsFiled e expr idx
            → Fires e name idx id
            → (o : Option Bytes) → wildcard_anchor expr ≡ o
            → FiledAt e o idx
            → FoundWildcard id
        go idx at f none q h = inr (idx, h, f)
        go idx at f (some a) q h = inl (a, inr (Covers-anchor expr name a inc q c), (idx, h, f))

    wildcard-found : (id : ℕ) → FoundWildcard id ↔ Entry CoversName rs id
    wildcard-found id = (
      elim [
        | inl (_, _, (idx, _, f)) ↦ Fires-Entry idx id f
        | inr (idx, _, f) ↦ Fires-Entry idx id f
      ],
      Entry-FoundWildcard id,
    )

    -- The three kinds of rules that match.
    abbrev Kinds : Pattern → Type 0
    Kinds p =
        ((p ≡ Pattern.exact name) ⊎ ((d : Bytes) × (p ≡ Pattern.subtree d) × Under d name))
        ⊎ ((expr : Bytes) × (inc : Bool) × (p ≡ Pattern.wildcard expr inc) × Covers expr inc name)

    kinds : (p : Pattern) → Matches p name → Kinds p
    kinds (Pattern.exact d) m = inl (inl (ap Pattern.exact m))
    kinds (Pattern.subtree d) m = inl (inr (d, refl, m))
    kinds (Pattern.wildcard expr inc) m = inr (expr, inc, refl, m)

    back : (p : Pattern) → Kinds p → Matches p name
    back p = elim [
      | inl (inl q) ↦ subst (λ x. Matches x name) (sym q) refl
      | inl (inr (d, q, u)) ↦ subst (λ x. Matches x name) (sym q) u
      | inr (expr, inc, q, c) ↦ subst (λ x. Matches x name) (sym q) c
    ]

    -- The search looks at exactly the rules that match.
    Candidate-Entry :
        (id : ℕ) → Candidate e name (reversed name) id ↔ Entry (MatchesRule name) rs id
    Candidate-Entry id = (
      elim [
        | inl (inl m) ↦
            let (l, r, g, p) = (exact-found id).0 m in (l, r, g, back r.pattern (inl (inl p)))
        | inl (inr m) ↦
            let (l, r, g, p) = (subtree-found id).0 m in (l, r, g, back r.pattern (inl (inr p)))
        | inr m ↦ let (l, r, g, p) = (wildcard-found id).0 m in (l, r, g, back r.pattern (inr p))
      ],
      λ (l, r, g, p). elim (kinds r.pattern p) [
        | inl (inl q) ↦ inl (inl ((exact-found id).1 (l, r, g, q)))
        | inl (inr q) ↦ inl (inr ((subtree-found id).1 (l, r, g, q)))
        | inr q ↦ inr ((wildcard-found id).1 (l, r, g, q))
      ],
    )

-- The rule of an id matches the name and has the action.
abbrev pub EntryFor : Rules → Bytes → RuleAction → ℕ → Type 0
EntryFor rs name action = Entry (λ r. MatchesRule name r × (r.action ≡ action)) rs

-- A matching exception decides; without one a matching block rule; without any, no rule matches.
abbrev pub Settles : Rules → Bytes → Search → Type 0
Settles rs name (stop id) = EntryFor rs name RuleAction.except id
Settles rs name (going (some id)) =
    ((i : ℕ) → ¬ EntryFor rs name RuleAction.except i) × EntryFor rs name RuleAction.block id
Settles rs name panicked = ⊥
Settles rs name (going none) = (i : ℕ) → ¬ Entry (MatchesRule name) rs i

action-except : (a : RuleAction) → is_exception a ≡ true → a ≡ RuleAction.except
action-except RuleAction.block h = absurd (ground arith)
action-except RuleAction.except h = refl

action-block : (a : RuleAction) → is_exception a ≡ false → a ≡ RuleAction.block
action-block RuleAction.block h = refl
action-block RuleAction.except h = absurd (ground arith)

module _ (e : Engine) (rs : Rules) (ready : Ready e rs) (name : Bytes) where
  Scan-Settles : (s : Search) → Scan e (Entry (MatchesRule name) rs) none s → Settles rs name s
  Scan-Settles (stop id) ((l, r, g, m), x) =
      (l, r, g, (m, action-except r.action (sym (is_except-action e rs ready name id g) ∙ x)))
  Scan-Settles panicked h = h
  Scan-Settles (going none) (_, n) = n
  Scan-Settles (going (some id)) (quiet, (l, r, g, m)) = (
    λ i (k, q, h, (p, a)).
        let no = sym (is_except-action e rs ready name i h) ∙ quiet i (k, q, h, p) in
        ground (arith, no, a),
    (
      l,
      r,
      g,
      (
        m,
        action-block r.action (sym (is_except-action e rs ready name id g) ∙ quiet id (l, r, g, m)),
      ),
    ),
  )

  pub search_rules-Settles : IsPlain name → Settles rs name (search_rules e name (reversed name))
  search_rules-Settles plain = Scan-Settles (search_rules e name (reversed name)) (
      Scan-cong e (Candidate e name (reversed name)) (Entry (MatchesRule name) rs) none
        (search_rules e name (reversed name)) (Candidate-Entry e rs ready name plain)
        (search_rules-Scan e name (reversed name) ready.indexes.within_buckets
          ready.indexes.within_unanchored))

  -- The guard on the name's length passes, and the buffer of 256 bytes takes the reversed name.
  pub verdict-conclude :
      (query : Bytes)
      → name ≡ normalized query
      → EndsInLabel name
      → length name ≤ 253
      → verdict e query ≡ conclude e (search_rules e name (reversed name))
  unfolding verdict
  verdict-conclude query q ends short =
      let some_byte : leb (length name) 0 || ltb 253 (length name) ≡ false =
        guard name ends.ne_nil short in
      rw (sym q, some_byte, (reverse_labels_into-reversed name ends short).0) refl
    where
      guard : (s : Bytes) → s ≢ [] → length s ≤ 253 → leb (length s) 0 || ltb 253 (length s) ≡ false
      guard [] ne h = absurd (ne refl)
      guard (b ∷ s) ne h = ground arith
