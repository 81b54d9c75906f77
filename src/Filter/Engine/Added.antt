-- ===== src/Filter/Engine/Added.antt =====
-- Adding a rule extends the history by it, and does not panic while there is room.
use sumidero.Prelude.{
  ℕ, ◌+◌, ◌<◌, ◌≡◌, refl, sym, subst, ap, ◌∙◌, ◌↔◌, inl, inr, Bool, true, Option, none, some,
  some-inj, All, All-split, Elem-append, List, [], ◌∷◌, ◌++◌, Bytes, Bool-cases, Elem, length,
  length-append, length-map, get_elem?, get_elem?-append_left, get_elem?-append_last,
  get_elem?-bound, bytes_eq, bytes_eq_iff, bytes_eq_refl, Elem-append_left, Elem-append_right, ltb,
  lt→ltb, if◌then◌else◌, arith,
}
use sumidero.Filter.Labels.Reversed.{reversed, reverse_labels_into-reversed}
use sumidero.Filter.Index.{u32_size, KeyIndex}
use sumidero.Filter.Index.Insert.{
  IsFormed, inserted, insert-inserted, inserted-IsFormed, Holds-inserted,
}
use sumidero.Filter.Index.Finish.{inserted-IsPacked}
use sumidero.Filter.Index.Lookup.{Holds}
use sumidero.Filter.Store.{Store, form_verbatim, form_subtree}
use sumidero.Filter.Store.Pushed.{pushed, push-pushed, Keeps, push_verbatim-Keeps}
use sumidero.Filter.Wildcard.{wildcard_anchor}
use sumidero.Filter.Types.{Pattern, Rule, is_exception}
use sumidero.Filter.Engine.{Engine, WildcardEntry, body_of, is_canonical_subtree, add_pattern}
use sumidero.Filter.Engine.Entries.{
  Rules, Entry, get_elem?-last, Entry-new, Entry-other, Entry-old, Entry-cases,
}
use sumidero.Filter.Engine.Texts.{IsQuoted, Texts}
use sumidero.Filter.Engine.Stored.{
  Says, IsKept, push_verbatim-stored, keep_text-IsKept, Texts-added,
}
use sumidero.Filter.Engine.Forms.{subtree-Says, exact-Says}
use sumidero.Filter.Engine.Tracks.{IsExact, IsSubtree, IsWildcard, FiledAt, IsFiled, Tracks}
use sumidero.Filter.Engine.Room.{
  IsNormal, Room, weight, Labels-pushed, keep_text-Keeps, exact_form-IsDefined, Adds,
}

module _ (e : Engine) (rs : Rules) (l : ℕ) (r : Rule) (t : Tracks e rs)
    (room : Room e (weight r)) where
  abbrev rs' : Rules
  rs' = rs ++ (l, r) ∷ []

  id-length : length e.store.lines ≡ length rs
  id-length = ap (length {A = ℕ}) t.labels.lines ∙ length-map rs _

  abbrev new_id : ℕ
  new_id = length e.store.lines

  -- The index that takes the rule's key.
  index-added :
      (P : Bytes → Rule → Type 0) (ix : KeyIndex) (key : Bytes)
      → IsFormed ix
      → ((k : Bytes) (id : ℕ) → Holds ix k id ↔ Entry (P k) rs id)
      → ((k : Bytes) → (key ≡ k) ↔ P k r)
      → (k : Bytes) (id : ℕ) → Holds (inserted ix key new_id) k id ↔ Entry (P k) rs' id
  index-added P ix key formed old iff k id = (
    λ h. elim ((Holds-inserted ix formed key new_id k id).0 h) [
      | inl g ↦ Entry-old (P k) rs l r id ((old k id).0 g)
      | inr (a, b) ↦
          subst (Entry (P k) rs') (sym id-length ∙ b) (Entry-new (P k) rs l r ((iff k).0 a))
    ],
    λ h. (Holds-inserted ix formed key new_id k id).1 (elim (Entry-cases (P k) rs l r id h) [
      | inl g ↦ inl ((old k id).1 g)
      | inr (a, b) ↦ inr ((iff k).1 b, id-length ∙ sym a)
    ]),
  )

  -- The other index.
  index-other :
      (P : Bytes → Rule → Type 0) (ix : KeyIndex)
      → ((k : Bytes) (id : ℕ) → Holds ix k id ↔ Entry (P k) rs id)
      → ((k : Bytes) → ¬ P k r)
      → (k : Bytes) (id : ℕ) → Holds ix k id ↔ Entry (P k) rs' id
  index-other P ix old n k id = (
    λ h. (Entry-other (P k) rs l r (n k) id).0 ((old k id).0 h),
    λ h. (old k id).1 ((Entry-other (P k) rs l r (n k) id).1 h),
  )

  -- The wildcards, where the rule is none.
  known-other :
      (idx : ℕ) (w : WildcardEntry)
      → get_elem? e.wildcards idx ≡ some w
      → Entry (IsWildcard w.expr w.include_subdomains) rs' w.rule
  known-other idx w h = Entry-old _ rs l r w.rule (t.indexes.known idx w h)

  IsFiled-other :
      ((expr : Bytes) (inc : Bool) → ¬ IsWildcard expr inc r)
      → (expr : Bytes) (inc : Bool) (id : ℕ) → Entry (IsWildcard expr inc) rs' id
      → (idx : ℕ) × (get_elem? e.wildcards idx
          ≡ some (record { expr = expr; include_subdomains = inc; rule = id }))
        × IsFiled e expr idx
  IsFiled-other n expr inc id h =
      t.indexes.filed expr inc id ((Entry-other (IsWildcard expr inc) rs l r (n expr inc) id).1 h)

  length_rs : length rs' ≡ length rs + 1
  length_rs = omega (arith, length-append {0} rs ((l, r) ∷ []))

  flags-length : length e.store.flags ≡ length rs
  flags-length =
      sym (length-map e.store.flags _) ∙ ap (length {A = Bool}) t.labels.excepts ∙ length-map rs _

  -- The rule's text is found in the store that keeps it.
  added-Texts :
      (form : ℕ) (s' : Store)
      → (IsQuoted r → Says r form)
      → IsKept (pushed e.store l r.line (is_exception r.action) form) s' form new_id r.text
      → All (λ p. IsQuoted p.1) rs'
      → Texts s' rs'
  added-Texts form s' says kept all =
      let (old, new) = All-split (λ p. IsQuoted p.1) rs ((l, r) ∷ []) all in
      Texts-added e.store rs l r form flags-length (t.texts old) new.0 (says new.0) (
        subst (λ n. IsKept (pushed e.store l r.line (is_exception r.action) form) s' form n r.text)
          id-length kept)

  lines-grow :
      (s' : Store) (form n : ℕ)
      → Keeps (pushed e.store l r.line (is_exception r.action) form) s' n
      → length s'.lines ≡ new_id + 1
  lines-grow s' form n k =
      ap (length {A = ℕ}) k.lines ∙ omega (arith, length-append {0} e.store.lines (r.line ∷ []))

  add-exact :
      (d : Bytes)
      → r.pattern ≡ Pattern.exact d
      → IsNormal r (Pattern.exact d)
      → Adds e rs l r (Pattern.exact d)
  unfolding add_pattern
  add-exact d q (short, cut) =
      let (form, f) = exact_form-IsDefined (is_exception r.action) (body_of r) d cut in
      let s = pushed e.store l r.line (is_exception r.action) form in
      let (s', kept, k) = keep_text-Keeps s form new_id r.text (omega (arith, room.verbatim)) in
      let ix = inserted e.exact d new_id in
      let e' : Engine = record e { store = s'; exact = ix } in
      let p =
        push-pushed e.store l r.line (is_exception r.action) form (omega (arith, room.rules)) in
      let i = insert-inserted e.exact d new_id (omega (arith, room.exact)) (omega arith) in
      (
        e',
        rw (f, p, i, kept),
        record {
          labels = Labels-pushed e.store s' rs l r form _ t.labels k;
          indexes = record {
            exact =
                index-added IsExact e.exact d t.growing.exact_formed t.indexes.exact
                  (λ x. (λ a. q ∙ ap Pattern.exact a, λ a. ground arith));
            subtree =
                index-other IsSubtree e.subtree t.indexes.subtree (λ x (y, a, _). ground arith);
            known = known-other;
            filed = IsFiled-other (λ x y a. ground arith);
            within_buckets = t.indexes.within_buckets;
            within_unanchored = t.indexes.within_unanchored;
          };
          texts =
              added-Texts form s' (λ w. exact-Says r d w q f)
                (keep_text-IsKept s form new_id r.text (omega (arith, room.verbatim)) kept);
          growing = record {
            exact_formed = inserted-IsFormed e.exact t.growing.exact_formed d new_id;
            exact_packed = inserted-IsPacked e.exact d new_id t.growing.exact_packed;
            subtree_formed = t.growing.subtree_formed;
            subtree_packed = t.growing.subtree_packed;
          };
          few = (
            omega (arith, t.few, length_rs, length-append {0} e.exact.rules (new_id ∷ [])),
            omega (arith, t.few, length_rs),
            omega (arith, t.few, length_rs),
          );
        },
        record {
          exact = omega (arith, length-append {0} e.exact.arena d);
          subtree = omega arith;
          verbatim = omega (arith, k.grows);
          rules = omega (arith, lines-grow s' form _ k);
        },
        refl,
      )

  add-subtree :
      (d : Bytes)
      → r.pattern ≡ Pattern.subtree d
      → IsNormal r (Pattern.subtree d)
      → Adds e rs l r (Pattern.subtree d)
  unfolding add_pattern
  add-subtree d q (short, ends) =
      let canonical = is_canonical_subtree (body_of r) d in
      let form = if canonical then form_subtree else form_verbatim in
      let s = pushed e.store l r.line (is_exception r.action) form in
      let (s', kept, k) = keep_text-Keeps s form new_id r.text (omega (arith, room.verbatim)) in
      let (rev, small) = reverse_labels_into-reversed d ends short in
      let key = reversed d in
      let e' : Engine = record e { store = s'; subtree = inserted e.subtree key new_id } in
      let p =
        push-pushed e.store l r.line (is_exception r.action) form (omega (arith, room.rules)) in
      let i = insert-inserted e.subtree key new_id (omega (arith, room.subtree)) small in
      (
        e',
        rw (p, rev, i, kept),
        record {
          labels = Labels-pushed e.store s' rs l r form _ t.labels k;
          indexes = record {
            exact = index-other IsExact e.exact t.indexes.exact (λ x a. ground arith);
            subtree =
                index-added IsSubtree e.subtree key t.growing.subtree_formed t.indexes.subtree (λ x.
                  (
                    λ a. (d, q, sym a),
                    λ (y, a, b). let same : d ≡ y = ground arith in ap reversed same ∙ sym b,
                  ));
            known = known-other;
            filed = IsFiled-other (λ x y a. ground arith);
            within_buckets = t.indexes.within_buckets;
            within_unanchored = t.indexes.within_unanchored;
          };
          texts =
              added-Texts form s' (λ w. subtree-Says r d w q)
                (keep_text-IsKept s form new_id r.text (omega (arith, room.verbatim)) kept);
          growing = record {
            exact_formed = t.growing.exact_formed;
            exact_packed = t.growing.exact_packed;
            subtree_formed = inserted-IsFormed e.subtree t.growing.subtree_formed key new_id;
            subtree_packed = inserted-IsPacked e.subtree key new_id t.growing.subtree_packed;
          };
          few = (
            omega (arith, t.few, length_rs),
            omega (arith, t.few, length_rs, length-append {0} e.subtree.rules (new_id ∷ [])),
            omega (arith, t.few, length_rs),
          );
        },
        record {
          exact = omega arith;
          subtree = omega (arith, small, length-append {0} e.subtree.arena key);
          verbatim = omega (arith, k.grows);
          rules = omega (arith, lines-grow s' form _ k);
        },
        refl,
      )

  module _ (expr : Bytes) (inc : Bool) (q : r.pattern ≡ Pattern.wildcard expr inc) where
    abbrev idx : ℕ
    idx = length e.wildcards

    abbrev entry : WildcardEntry
    entry = record { expr = expr; include_subdomains = inc; rule = new_id }

    -- The engine after the wildcard is filed under its anchor.
    abbrev filed_in : Store → Option Bytes → Engine
    filed_in s anchor = record e {
      store = s;
      wildcards = e.wildcards ++ entry ∷ [];
      wildcard_buckets = elim anchor [
        | none ↦ e.wildcard_buckets
        | some a ↦
            λ k. if bytes_eq k a then e.wildcard_buckets a ++ idx ∷ [] else e.wildcard_buckets k
      ];
      wildcard_unanchored = elim anchor [
        | none ↦ e.wildcard_unanchored ++ idx ∷ []
        | some _ ↦ e.wildcard_unanchored
      ];
    }

    -- What was filed stays filed.
    IsFiled-old :
        (s : Store) (x : Bytes) (i : ℕ)
        → IsFiled e x i
        → IsFiled (filed_in s (wildcard_anchor expr)) x i
    IsFiled-old s x i h = go (wildcard_anchor expr) (wildcard_anchor x) h
      where
        go : (anchor o : Option Bytes) → FiledAt e o i → FiledAt (filed_in s anchor) o i
        go none none h = Elem-append_left i e.wildcard_unanchored (idx ∷ []) h
        go none (some a) h = h
        go (some b) none h = h
        go (some b) (some a) h = elim (Bool-cases (bytes_eq a b)) [
          | inl m ↦
              let same = (bytes_eq_iff a b).0 m in
              rw m (
                Elem-append_left i (e.wildcard_buckets b) (idx ∷ [])
                  (subst (λ k. Elem i (e.wildcard_buckets k)) same h))
          | inr m ↦ rw m h
        ]

    IsFiled-new : (s : Store) → IsFiled (filed_in s (wildcard_anchor expr)) expr idx
    IsFiled-new s = go (wildcard_anchor expr)
      where
        go : (o : Option Bytes) → FiledAt (filed_in s o) o idx
        go none = Elem-append_right idx e.wildcard_unanchored (idx ∷ []) (inl refl)
        go (some a) =
            rw (bytes_eq_refl a)
              (Elem-append_right idx (e.wildcard_buckets a) (idx ∷ []) (inl refl))

    wildcards-known :
        (i : ℕ) (w : WildcardEntry)
        → get_elem? (e.wildcards ++ entry ∷ []) i ≡ some w
        → Entry (IsWildcard w.expr w.include_subdomains) rs' w.rule
    wildcards-known i w h = elim (get_elem?-last e.wildcards entry i h) [
      | inl g ↦ known-other i w g
      | inr (_, same) ↦
          subst (λ (v : WildcardEntry). Entry (IsWildcard v.expr v.include_subdomains) rs' v.rule)
            same
            (subst (Entry (IsWildcard expr inc) rs') (sym id-length)
              (Entry-new (IsWildcard expr inc) rs l r q))
    ]

    wildcards-IsFiled :
        (s : Store) (x : Bytes) (b : Bool) (id : ℕ)
        → Entry (IsWildcard x b) rs' id
        → (i : ℕ) × (get_elem? (e.wildcards ++ entry ∷ []) i
            ≡ some (record { expr = x; include_subdomains = b; rule = id }))
          × IsFiled (filed_in s (wildcard_anchor expr)) x i
    wildcards-IsFiled s x b id h = elim (Entry-cases (IsWildcard x b) rs l r id h) [
      | inl g ↦
          let (i, found, at) = t.indexes.filed x b id g in
          (
            i,
            get_elem?-append_left e.wildcards _ i (get_elem?-bound e.wildcards i found) ∙ found,
            IsFiled-old s x i at,
          )
      | inr (a, p) ↦
          let ex : expr ≡ x = ground arith in
          let eb : inc ≡ b = ground arith in
          let ei : new_id ≡ id = id-length ∙ sym a in
          (
            idx,
            get_elem?-append_last e.wildcards entry ∙ ground (arith, ex, eb, ei),
            subst (λ y. IsFiled (filed_in s (wildcard_anchor expr)) y idx) ex (IsFiled-new s),
          )
    ]

    wildcards-grow : length (e.wildcards ++ entry ∷ []) ≡ idx + 1
    wildcards-grow = omega (arith, length-append {0} e.wildcards (entry ∷ []))

    -- Positions of wildcards, and the new one.
    positions-within :
        (ids : List ℕ)
        → ((i : ℕ) → Elem i ids → i < idx)
        → (i : ℕ) → Elem i (ids ++ idx ∷ [])
        → i < length (e.wildcards ++ entry ∷ [])
    positions-within ids h i m = elim (Elem-append i ids (idx ∷ []) m) [
      | inl k ↦ omega (arith, wildcards-grow, h i k)
      | inr (inl q) ↦ omega (arith, wildcards-grow, q)
      | inr (inr none_left) ↦ elim none_left [ ]
    ]

    buckets-within :
        (s : Store) (anchor : Option Bytes) (k : Bytes) (i : ℕ)
        → Elem i ((filed_in s anchor).wildcard_buckets k)
        → i < length (e.wildcards ++ entry ∷ [])
    buckets-within s none k i m = omega (arith, wildcards-grow, t.indexes.within_buckets k i m)
    buckets-within s (some a) k i m = elim (Bool-cases (bytes_eq k a)) [
      | inl same ↦ positions-within (e.wildcard_buckets a) (t.indexes.within_buckets a) i (
          subst (λ b. Elem i (if b then e.wildcard_buckets a ++ idx ∷ [] else e.wildcard_buckets k))
            same m)
      | inr other ↦
          let old =
            subst
              (λ b. Elem i (if b then e.wildcard_buckets a ++ idx ∷ [] else e.wildcard_buckets k))
              other m in
          omega (arith, wildcards-grow, t.indexes.within_buckets k i old)
    ]

    unanchored-within :
        (s : Store) (anchor : Option Bytes) (i : ℕ)
        → Elem i (filed_in s anchor).wildcard_unanchored
        → i < length (e.wildcards ++ entry ∷ [])
    unanchored-within s none i m =
        positions-within e.wildcard_unanchored t.indexes.within_unanchored i m
    unanchored-within s (some a) i m =
        omega (arith, wildcards-grow, t.indexes.within_unanchored i m)

    add-wildcard : Adds e rs l r (Pattern.wildcard expr inc)
    unfolding add_pattern
    add-wildcard =
        let s = pushed e.store l r.line (is_exception r.action) form_verbatim in
        let (s', kept, k) = push_verbatim-Keeps s new_id r.text (omega (arith, room.verbatim)) in
        let p =
          push-pushed e.store l r.line (is_exception r.action) form_verbatim
            (omega (arith, room.rules)) in
        let i : ltb idx u32_size ≡ true =
          lt→ltb _ _ (omega (arith, t.few, id-length, room.rules)) in
        (
          filed_in s' (wildcard_anchor expr),
          rw (p, kept, i),
          record {
            labels = Labels-pushed e.store s' rs l r form_verbatim _ t.labels k;
            indexes = record {
              exact = index-other IsExact e.exact t.indexes.exact (λ x a. ground arith);
              subtree =
                  index-other IsSubtree e.subtree t.indexes.subtree (λ x (y, a, _). ground arith);
              known = wildcards-known;
              filed = wildcards-IsFiled s';
              within_buckets = buckets-within s' (wildcard_anchor expr);
              within_unanchored = unanchored-within s' (wildcard_anchor expr);
            };
            texts =
                added-Texts form_verbatim s' (λ _. inl refl)
                  (inl (
                    refl,
                    some-inj (
                        sym (push_verbatim-stored s new_id r.text (omega (arith, room.verbatim)))
                        ∙ kept),
                  ));
            growing = record {
              exact_formed = t.growing.exact_formed;
              exact_packed = t.growing.exact_packed;
              subtree_formed = t.growing.subtree_formed;
              subtree_packed = t.growing.subtree_packed;
            };
            few = (
              omega (arith, t.few, length_rs),
              omega (arith, t.few, length_rs),
              omega (arith, t.few, length_rs, length-append {0} e.wildcards (entry ∷ [])),
            );
          },
          record {
            exact = omega arith;
            subtree = omega arith;
            verbatim = omega (arith, k.grows);
            rules = omega (arith, lines-grow s' form_verbatim _ k);
          },
          refl,
        )

  -- One rule more.
  pub add_pattern-Adds : (p : Pattern) → r.pattern ≡ p → IsNormal r p → Adds e rs l r p
  add_pattern-Adds (Pattern.exact d) q n = add-exact d q n
  add_pattern-Adds (Pattern.subtree d) q n = add-subtree d q n
  add_pattern-Adds (Pattern.wildcard expr inc) q n = add-wildcard expr inc q
