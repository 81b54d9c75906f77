-- ===== src/Filter/Engine/Lists.antt =====
-- Adding whole lists of rules.
use sumidero.Prelude.{
  ℕ, suc, ◌+◌, ◌-◌, ◌^◌, ◌≤◌, ◌<◌, ◌≡◌, refl, sym, subst, ◌∙◌, Option, none, some, List, [], ◌∷◌,
  ◌++◌, map, append-nil, append_assoc, All, Bytes, length, lt→ltb, arith,
}
use mathlib.Core.Path.{subst₂}
use sumidero.Filter.Wildcard.{wildcard_anchor}
use sumidero.Filter.Types.{Rule}
use sumidero.Filter.Engine.{Engine, add_rule, add_rules, begin_list, add_list, add_lists}
use sumidero.Filter.Engine.Entries.{Rules}
use sumidero.Filter.Engine.Tracks.{FiledAt, IsFiled, Indexes, Growing, Tracks}
use sumidero.Filter.Engine.Room.{IsNormal, Room, weight}
use sumidero.Filter.Engine.Added.{add_pattern-Adds}

-- Every rule with the number of its list.
abbrev pub history : ℕ → List (List Rule) → Rules
history l [] = []
history l (rules ∷ rest) = map (λ r. (l, r)) rules ++ history (suc l) rest

abbrev pub weights : List Rule → ℕ
weights [] = 0
weights (r ∷ rs) = weight r + weights rs

abbrev pub total_weight : List (List Rule) → ℕ
total_weight [] = 0
total_weight (rules ∷ rest) = weights rules + total_weight rest

abbrev pub IsNormalRule : Rule → Type 0
IsNormalRule r = IsNormal r r.pattern

-- An engine for a history, with the number of its lists and room for more.
pub record At (e : Engine) (rs : Rules) (lists more : ℕ) : Type 0 where
  pub tracks : Tracks e rs
  pub room : Room e more
  pub count : e.list_count ≡ lists

Room-le : {e : Engine} {m n : ℕ} → Room e n → m ≤ n → Room e m
Room-le r h = record {
  exact = omega (arith, r.exact);
  subtree = omega (arith, r.subtree);
  verbatim = omega (arith, r.verbatim);
  rules = omega (arith, r.rules);
}

-- Beginning a list changes the number of lists and nothing else.
begun-At :
    {e : Engine} {rs : Rules} {l more : ℕ}
    → At e rs l more
    → At (record e { list_count = e.list_count + 1 }) rs (suc l) more
begun-At {e} {rs} a = record {
  tracks = record {
    labels = a.tracks.labels;
    indexes = record {
      exact = i.exact;
      subtree = i.subtree;
      known = i.known;
      filed = λ x b id h. let (idx, found, at) = i.filed x b id h in (idx, found, go x idx at);
      within_buckets = i.within_buckets;
      within_unanchored = i.within_unanchored;
    };
    growing = record {
      exact_formed = g.exact_formed;
      exact_packed = g.exact_packed;
      subtree_formed = g.subtree_formed;
      subtree_packed = g.subtree_packed;
    };
    few = a.tracks.few;
    texts = a.tracks.texts;
  };
  room = record {
    exact = a.room.exact;
    subtree = a.room.subtree;
    verbatim = a.room.verbatim;
    rules = a.room.rules;
  };
  count = omega (arith, a.count);
}
  where
    i : Indexes e rs
    i = a.tracks.indexes

    g : Growing e
    g = a.tracks.growing

    go :
        (x : Bytes) (idx : ℕ)
        → IsFiled e x idx
        → IsFiled (record e { list_count = e.list_count + 1 }) x idx
    go x idx = at (wildcard_anchor x)
      where
        at :
            (o : Option Bytes)
            → FiledAt e o idx
            → FiledAt (record e { list_count = e.list_count + 1 }) o idx
        at none h = h
        at (some k) h = h

add_rules-At :
    (rules : List Rule) (e : Engine) (rs : Rules) (l more : ℕ)
    → l < 2 ^ 16
    → All IsNormalRule rules
    → At e rs (suc l) (weights rules + more)
    → (e' : Engine) × (add_rules e rules ≡ some e')
      × At e' (rs ++ map (λ r. (l, r)) rules) (suc l) more
unfolding add_rules add_rule
add_rules-At [] e rs l more h n a = (
  e,
  refl,
  record {
    tracks = subst (Tracks e) (sym (append-nil rs)) a.tracks;
    room = Room-le a.room (omega arith);
    count = a.count;
  },
)
add_rules-At (r ∷ rules) e rs l more h n a =
    let room : Room e (weight r) = Room-le a.room (omega arith) in
    let (e', ran, tracks, grows, count) =
      add_pattern-Adds e rs l r a.tracks room r.pattern refl n.0 in
    let at : At e' (rs ++ (l, r) ∷ []) (suc l) (weights rules + more) = record {
      tracks = tracks;
      room = record {
        exact = omega (arith, a.room.exact, grows.exact);
        subtree = omega (arith, a.room.subtree, grows.subtree);
        verbatim = omega (arith, a.room.verbatim, grows.verbatim);
        rules = omega (arith, a.room.rules, grows.rules);
      };
      count = count ∙ a.count;
    } in
    let (e'', ran', at') = add_rules-At rules e' (rs ++ (l, r) ∷ []) l more h n.1 at in
    let c : e.list_count - 1 ≡ l = omega (arith, a.count) in
    (
      e'',
      rw (c, lt→ltb _ _ h, ran) ran',
      subst (λ x. At e'' x (suc l) more) (append_assoc rs ((l, r) ∷ []) (map (λ r. (l, r)) rules))
          at',
    )

pub add_lists-At :
    (lists : List (List Rule)) (e : Engine) (rs : Rules) (l more : ℕ)
    → l + length lists ≤ 2 ^ 16
    → All (All IsNormalRule) lists
    → At e rs l (total_weight lists + more)
    → (e' : Engine) × (add_lists e lists ≡ some e')
      × At e' (rs ++ history l lists) (l + length lists) more
unfolding add_lists add_list begin_list
add_lists-At [] e rs l more h n a = (
  e,
  refl,
  record {
    tracks = subst (Tracks e) (sym (append-nil rs)) a.tracks;
    room = Room-le a.room (omega arith);
    count = omega (arith, a.count);
  },
)
add_lists-At (rules ∷ lists) e rs l more h n a =
    let lt : e.list_count < 2 ^ 16 = omega (arith, a.count) in
    let begun : Engine = record e { list_count = e.list_count + 1 } in
    let at : At e rs l (weights rules + (total_weight lists + more)) = record {
      tracks = a.tracks;
      room = Room-le a.room (omega arith);
      count = a.count;
    } in
    let (e', ran, at') =
      add_rules-At rules begun rs l (total_weight lists + more) (omega arith) n.0 (begun-At at) in
    let (e'', ran', at'') =
      add_lists-At lists e' (rs ++ map (λ r. (l, r)) rules) (suc l) more (omega arith) n.1 at' in
    let count : suc l + length lists ≡ l + suc (length lists) = omega arith in
    (
      e'',
      rw (lt→ltb _ _ lt, ran) ran',
      subst₂ (λ x n. At e'' x n more)
          (append_assoc rs (map (λ r. (l, r)) rules) (history (suc l) lists)) count at'',
    )
