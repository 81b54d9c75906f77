-- ===== src/Filter/Engine.antt =====
-- `Engine` and `EngineBuilder` of crates/filter: rules go in list by list, and `finish` sorts the two
-- key indexes. `none` is a panic: a counter or an arena that leaves its width.
pub mod Entries
pub mod Texts
pub mod Stored
pub mod Forms
pub mod Spans
pub mod Told
pub mod Tracks
pub mod Room
pub mod Added
pub mod Lists
pub mod Built
use sumidero.Prelude.{
  ℕ, zero, suc, ◌+◌, ◌-◌, ◌^◌, Bool, true, false, not, ◌&&◌, ◌||◌, Option, none, some, List, [],
  ◌∷◌, ◌++◌, Bytes, codes, length, get_or, set, ltb, ◌==◌, if◌then◌else◌, expect, ◌>>=◌, ◌>>◌,
  bytes_eq, strip_prefix, strip_suffix, or_self,
}
use sumidero.Filter.Labels.{reverse_labels_into}
use sumidero.Filter.Wildcard.{wildcard_anchor}
use sumidero.Filter.Index
use sumidero.Filter.Index.{KeyIndex}
use sumidero.Filter.Index.Sort.{SortUnstable}
use sumidero.Filter.Store
use sumidero.Filter.Store.{
  Store, form_verbatim, form_subtree, form_exact, form_exact_caret, form_hosts_zero,
  is_char_boundary,
}
use sumidero.Filter.Types.{RuleAction, Pattern, exact, subtree, wildcard, Rule, is_exception}

pub record WildcardEntry : Type 0 where
  pub expr : Bytes
  pub include_subdomains : Bool
  pub rule : ℕ

-- The buckets are a map from an anchor to wildcard positions; an anchor that is not there has none.
pub record Engine : Type 0 where
  pub store : Store
  pub subtree : KeyIndex
  pub exact : KeyIndex
  pub wildcards : List WildcardEntry
  pub wildcard_buckets : Bytes → List ℕ
  pub wildcard_unanchored : List ℕ
  pub list_count : ℕ

abbrev pub empty : Engine
empty = record {
  store = Store.empty;
  subtree = Index.empty;
  exact = Index.empty;
  wildcards = [];
  wildcard_buckets = λ _. [];
  wildcard_unanchored = [];
  list_count = 0;
}

-- At most `u16::MAX + 1` lists.
unfoldable pub begin_list : Engine → Option Engine
begin_list e = do
  expect (ltb e.list_count (2 ^ 16))
  some (record e { list_count = e.list_count + 1 })

-- The text without the `@@` of an exception.
unfoldable pub body_of : Rule → Bytes
body_of r =
    if is_exception r.action then or_self (strip_prefix (codes "@@") r.text) r.text else r.text

-- Is the text `||domain^`?
unfoldable pub is_canonical_subtree : Bytes → Bytes → Bool
is_canonical_subtree body domain = elim (strip_prefix (codes "||") body) [
  | none ↦ false
  | some b ↦ elim (strip_suffix b'^' b) [ none ↦ false | some d ↦ bytes_eq d domain ]
]

-- The test for `0.0.0.0 domain`. Slicing `d[1..]` panics inside a character.
unfoldable pub is_hosts_zero : Bytes → Bytes → Option Bool
is_hosts_zero body domain = elim (strip_prefix (codes "0.0.0.0") body) [
  | none ↦ some false
  | some [] ↦ some false
  | some (sep ∷ d) ↦
      if length d == length domain
      then (do expect (is_char_boundary (sep ∷ d) 1); some (bytes_eq d domain && sep == b' '))
      else some false
]

unfoldable pub exact_form : Bool → Bytes → Bytes → Option ℕ
unfolding is_hosts_zero
exact_form except body domain =
    if bytes_eq body domain
    then some form_exact
    else if elim (strip_suffix b'^' body) [ none ↦ false | some d ↦ bytes_eq d domain ]
    then some form_exact_caret
    else if except
    then some form_verbatim
    else do
      zero_form ← is_hosts_zero body domain
      some (if zero_form then form_hosts_zero else form_verbatim)

-- `store.push_verbatim(id, text)` where the text is not rebuilt from the key.
unfoldable pub keep_text : Store → ℕ → ℕ → Bytes → Option Store
keep_text s form id text = if form == form_verbatim then Store.push_verbatim s id text else some s

unfoldable pub add_pattern : Engine → ℕ → Rule → Pattern → Option Engine
unfolding is_canonical_subtree exact_form keep_text body_of Store.push Store.push_verbatim
    Index.insert
add_pattern e list r (Pattern.subtree domain) = do
  let form = if is_canonical_subtree (body_of r) domain then form_subtree else form_verbatim
  (store, id) ← Store.push e.store list r.line (is_exception r.action) form
  key ← reverse_labels_into domain
  index ← Index.insert e.subtree key id
  kept ← keep_text store form id r.text
  some (record e { store = kept; subtree = index })
add_pattern e list r (Pattern.exact domain) = do
  form ← exact_form (is_exception r.action) (body_of r) domain
  (store, id) ← Store.push e.store list r.line (is_exception r.action) form
  index ← Index.insert e.exact domain id
  kept ← keep_text store form id r.text
  some (record e { store = kept; exact = index })
add_pattern e list r (Pattern.wildcard expr include_subdomains) = do
  (store, id) ← Store.push e.store list r.line (is_exception r.action) form_verbatim
  kept ← Store.push_verbatim store id r.text
  let idx = length e.wildcards
  expect (ltb idx Index.u32_size)
  let entry : WildcardEntry = record {
    expr = expr;
    include_subdomains = include_subdomains;
    rule = id;
  }
  let anchor = wildcard_anchor expr
  some (record e {
    store = kept;
    wildcards = e.wildcards ++ entry ∷ [];
    wildcard_buckets = elim anchor [
      | none ↦ e.wildcard_buckets
      | some a ↦
          λ k. if bytes_eq k a then e.wildcard_buckets a ++ idx ∷ [] else e.wildcard_buckets k
    ];
    wildcard_unanchored = elim anchor [
      | none ↦ e.wildcard_unanchored ++ idx ∷ []
      | some _ ↦ e.wildcard_unanchored
    ];
  })

-- The rule goes to the list that was begun last.
unfoldable pub add_rule : Engine → Rule → Option Engine
unfolding add_pattern
add_rule e r = do
  let list = e.list_count - 1
  expect (ltb list (2 ^ 16))
  add_pattern e list r r.pattern

unfoldable pub add_rules : Engine → List Rule → Option Engine
unfolding add_rule
add_rules e [] = some e
add_rules e (r ∷ rs) = do e ← add_rule e r; add_rules e rs

-- `EngineBuilder::add_list`
unfoldable pub add_list : Engine → List Rule → Option Engine
unfolding begin_list add_rules
add_list e rules = do e ← begin_list e; add_rules e rules

unfoldable pub add_lists : Engine → List (List Rule) → Option Engine
unfolding add_list
add_lists e [] = some e
add_lists e (l ∷ ls) = do e ← add_list e l; add_lists e ls

-- `matches!(form, FORM_EXACT | FORM_EXACT_CARET | FORM_HOSTS_ZERO)`
abbrev pub is_exact_form : ℕ → Bool
is_exact_form f = f == form_exact || f == form_exact_caret || f == form_hosts_zero

abbrev pub is_subtree_form : ℕ → Bool
is_subtree_form f = f == form_subtree

-- The calls of `relocate`, in order: a canonical text follows its key.
unfoldable pub relocate : (ℕ → Bool) → Store → List ℕ → List ℕ → Store
relocate owned s (rule ∷ rules) (off ∷ offs) =
    relocate owned
      (record s {
        span_off = if owned (Store.form s rule) then set s.span_off rule off else s.span_off;
      })
      rules offs
relocate owned s _ _ = s

-- The lengths of the canonical texts' keys.
unfoldable pub set_lens : (ℕ → Bool) → Store → List ℕ → List ℕ → Store
set_lens owned s (rule ∷ rules) (len ∷ lens) =
    set_lens owned
      (record s {
        span_len = if owned (Store.form s rule) then set s.span_len rule len else s.span_len;
      })
      rules lens
set_lens owned s _ _ = s

module _ (std : SortUnstable) where
  unfoldable pub finish : Engine → Option Engine
  unfolding relocate set_lens Index.finish
  finish e = do
    sub ← Index.finish std e.subtree
    let moved = relocate is_subtree_form e.store sub.rules sub.offs
    ex ← Index.finish std e.exact
    let moved' = relocate is_exact_form moved ex.rules ex.offs
    let sized = set_lens is_subtree_form moved' sub.rules sub.lens
    let sized' = set_lens is_exact_form sized ex.rules ex.lens
    some (record e { store = sized'; subtree = sub; exact = ex })

  -- `EngineBuilder`: every list added, and then `build`.
  unfoldable pub build : List (List Rule) → Option Engine
  unfolding add_lists finish
  build lists = do e ← add_lists empty lists; finish e

-- `list_count`
unfoldable pub list_count_of : Engine → ℕ
list_count_of e = e.list_count

-- `rule_count`
unfoldable pub rule_count : Engine → ℕ
rule_count e = length e.store.lines
