-- ===== src/Filter/Engine/Built.antt =====
-- `build` gives a finished engine for its lists, and does not panic while they fit in 32 bits.
use sumidero.Prelude.{
  ℕ, ◌+◌, ◌^◌, ◌≤◌, ◌<◌, ◌≡◌, ◌↔◌, refl, ap, ◌∙◌, Bool, Option, none, some, List, [], ◌∷◌, Bytes,
  All, length, length-map, arith,
}
use sumidero.Filter.Index
use sumidero.Filter.Index.{u32_size, KeyIndex}
use sumidero.Filter.Index.Sort.{SortUnstable}
use sumidero.Filter.Index.Insert.{IsFormed}
use sumidero.Filter.Index.Lookup.{IsOrdered, Holds}
use sumidero.Filter.Index.Finish.{finish-Holds}
use sumidero.Filter.Store.{Store}
use sumidero.Filter.Wildcard.{wildcard_anchor}
use sumidero.Filter.Types.{Rule}
use sumidero.Filter.Engine.{
  Engine, empty, relocate, set_lens, is_subtree_form, is_exact_form, finish, build,
}
use sumidero.Filter.Engine.Entries.{Rules, Entry}
use sumidero.Filter.Engine.Texts.{IsQuoted}
use sumidero.Filter.Engine.Told.{IsTold, finished-IsTold}
use sumidero.Filter.Engine.Tracks.{FiledAt, IsExact, IsSubtree, IsFiled, Labels, Indexes, Tracks}
use sumidero.Filter.Engine.Room.{Room}
use sumidero.Filter.Engine.Lists.{history, total_weight, IsNormalRule, At, add_lists-At}

-- A finished engine for a history.
pub record Ready (e : Engine) (rs : Rules) : Type 0 where
  pub labels : Labels e.store rs
  pub indexes : Indexes e rs
  pub exact_ordered : IsOrdered e.exact
  pub subtree_ordered : IsOrdered e.subtree
  pub told : All (λ p. IsQuoted p.1) rs → IsTold e rs

Labels-relocate :
    (owned : ℕ → Bool) (rules offs : List ℕ) (s : Store) (rs : Rules)
    → Labels s rs
    → Labels (relocate owned s rules offs) rs
unfolding relocate
Labels-relocate owned [] offs s rs h = h
Labels-relocate owned (rule ∷ rules) [] s rs h = h
Labels-relocate owned (rule ∷ rules) (off ∷ offs) s rs h =
    Labels-relocate owned rules offs _ rs
      (record { lists = h.lists; lines = h.lines; excepts = h.excepts })

Labels-set_lens :
    (owned : ℕ → Bool) (rules lens : List ℕ) (s : Store) (rs : Rules)
    → Labels s rs
    → Labels (set_lens owned s rules lens) rs
unfolding set_lens
Labels-set_lens owned [] lens s rs h = h
Labels-set_lens owned (rule ∷ rules) [] s rs h = h
Labels-set_lens owned (rule ∷ rules) (len ∷ lens) s rs h =
    Labels-set_lens owned rules lens _ rs
      (record { lists = h.lists; lines = h.lines; excepts = h.excepts })

module _ (std : SortUnstable) where
  -- The finished engine, from the finished indexes.
  abbrev finished : Engine → KeyIndex → KeyIndex → Engine
  finished e sub ex = record e {
    store =
        set_lens is_exact_form
          (set_lens is_subtree_form
            (relocate is_exact_form (relocate is_subtree_form e.store sub.rules sub.offs) ex.rules
              ex.offs)
            sub.rules sub.lens)
          ex.rules ex.lens;
    subtree = sub;
    exact = ex;
  }

  finish-Ready :
      (e : Engine) (rs : Rules)
      → Tracks e rs
      → Room e 0
      → (e' : Engine) × (finish std e ≡ some e') × Ready e' rs × (e'.list_count ≡ e.list_count)
  unfolding finish
  finish-Ready e rs t room =
      let g = t.growing in
      let count : length e.store.lines ≡ length rs =
        ap (length {A = ℕ}) t.labels.lines ∙ length-map rs _ in
      let (sub, ran, sub_formed, sub_ordered, sub_same) =
        finish-Holds std e.subtree g.subtree_formed g.subtree_packed
          (omega (arith, count, room.rules, t.few)) (omega (arith, room.subtree)) in
      let (ex, ran', ex_formed, ex_ordered, ex_same) =
        finish-Holds std e.exact g.exact_formed g.exact_packed
          (omega (arith, count, room.rules, t.few)) (omega (arith, room.exact)) in
      let i = t.indexes in
      let in_ex : (k : Bytes) (id : ℕ) → Holds ex k id ↔ Entry (IsExact k) rs id = λ k id.
        (λ h. (i.exact k id).0 ((ex_same k id).0 h), λ h. (ex_same k id).1 ((i.exact k id).1 h)) in
      let in_sub : (k : Bytes) (id : ℕ) → Holds sub k id ↔ Entry (IsSubtree k) rs id = λ k id. (
        λ h. (i.subtree k id).0 ((sub_same k id).0 h),
        λ h. (sub_same k id).1 ((i.subtree k id).1 h),
      ) in
      (
        finished e sub ex,
        rw (ran, ran'),
        record {
          labels = Labels-set_lens is_exact_form ex.rules ex.lens _ rs (
              Labels-set_lens is_subtree_form sub.rules sub.lens _ rs (
                Labels-relocate is_exact_form ex.rules ex.offs _ rs
                  (Labels-relocate is_subtree_form sub.rules sub.offs _ rs t.labels)));
          indexes = record {
            exact = in_ex;
            subtree = in_sub;
            known = i.known;
            filed = λ x b id h.
                let (idx, found, at) = i.filed x b id h in (idx, found, filed_same sub ex x idx at);
            within_buckets = i.within_buckets;
            within_unanchored = i.within_unanchored;
          };
          exact_ordered = ex_ordered;
          subtree_ordered = sub_ordered;
          told = λ q. finished-IsTold e rs (t.texts q) sub ex sub_formed ex_formed in_sub in_ex;
        },
        refl,
      )
    where
      filed_same :
          (sub ex : KeyIndex) (x : Bytes) (idx : ℕ)
          → IsFiled e x idx
          → IsFiled (finished e sub ex) x idx
      filed_same sub ex x idx = at (wildcard_anchor x)
        where
          at : (o : Option Bytes) → FiledAt e o idx → FiledAt (finished e sub ex) o idx
          at none h = h
          at (some k) h = h

  none-IsFormed : IsFormed Index.empty
  none-IsFormed = record { offs = refl; lens = refl; in_arena = λ i h. elim h [ ] }

  empty-At : (n : ℕ) → n < u32_size → At empty [] 0 n
  empty-At n h = record {
    tracks = record {
      labels = record { lists = refl; lines = refl; excepts = refl };
      indexes = record {
        exact = λ k id. (λ h. absurd (omega arith), λ (l, r, e, p). ground arith);
        subtree = λ k id. (λ h. absurd (omega arith), λ (l, r, e, p). ground arith);
        known = λ idx w e. absurd (ground arith);
        filed = λ x b id (l, r, e, p). absurd (ground arith);
        within_buckets = λ k idx h. absurd h;
        within_unanchored = λ idx h. absurd h;
      };
      growing = record {
        exact_formed = none-IsFormed;
        exact_packed = refl;
        subtree_formed = none-IsFormed;
        subtree_packed = refl;
      };
      few = (omega arith, omega arith, omega arith);
      texts = λ _. record { offs = refl; lens = refl; told = λ id l r h. absurd (ground arith) };
    };
    room = record {
      exact = omega arith;
      subtree = omega arith;
      verbatim = omega arith;
      rules = omega arith;
    };
    count = refl;
  }

  -- At most 65536 lists of normal rules that fit in 32 bits together are built without a panic; the
  -- two indexes of the engine are ordered and hold exactly the keys of the rules added, the
  -- wildcards are filed where the search looks, the columns hold every rule's list, line and action,
  -- and where the texts begin with a character, and with `@@` for an exception, every rule's span
  -- leads to its text.
  pub build-Ready :
      (lists : List (List Rule))
      → length lists ≤ 2 ^ 16
      → All (All IsNormalRule) lists
      → total_weight lists < u32_size
      → (e : Engine) × (build std lists ≡ some e)
        × Ready e (history 0 lists)
        × (e.list_count ≡ length lists)
  unfolding build
  build-Ready lists few normal small =
      let a = Room-start lists small in
      let (e, ran, at) = add_lists-At lists empty [] 0 0 (omega arith) normal a in
      let (e', ran', ready, count) = finish-Ready e (history 0 lists) at.tracks at.room in
      (e', rw ran ran', ready, count ∙ at.count ∙ omega arith)
    where
      Room-start :
          (lists : List (List Rule))
          → total_weight lists < u32_size
          → At empty [] 0 (total_weight lists + 0)
      Room-start lists h = empty-At (total_weight lists + 0) (omega arith)
