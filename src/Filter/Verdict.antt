-- ===== src/Filter/Verdict.antt =====
-- `Engine::verdict` and `Engine::matched` of crates/filter/src/engine.rs.
pub mod Scan
pub mod Settled
pub mod Text
pub mod Spelled
pub mod Correct
use sumidero.Prelude.{
  is_ascii_uppercase, to_ascii_lowercase, ℕ, zero, suc, ◌+◌, ◌-◌, Bool, true, false, not, ◌&&◌,
  ◌||◌, Option, none, some, List, [], ◌∷◌, ◌++◌, map, Bytes, codes, length, get_elem?, get_or, take,
  ltb, leb, ◌==◌, if◌then◌else◌, expect, ◌>>=◌, ◌>>◌, strip_suffix, or_self, any, find, drop,
}
use sumidero.Filter.Labels.{dot, after_dot, reverse_labels_into, boundaries}
use sumidero.Filter.Wildcard.{wildcard_matches}
use sumidero.Filter.Index
use sumidero.Filter.Index.{slice}
use sumidero.Filter.Store
use sumidero.Filter.Store.{form_subtree, form_exact, form_exact_caret, form_hosts_zero}
use sumidero.Filter.Engine.{Engine, is_exact_form}
use sumidero.Filter.Types.{RuleAction, MatchedRule, Verdict}

-- The name as it is matched: lower case, without one trailing dot.
unfoldable pub normalized : Bytes → Bytes
normalized name =
    let lowered = if any is_ascii_uppercase name then to_ascii_lowercase name else name in
    or_self (strip_suffix dot lowered) lowered

-- Where the search stands: an exception ends it, and otherwise the first block rule is kept. A
-- position outside the wildcards is a panic.
pub data Search : Type 0 where
  stop : ℕ → Search
  going : Option ℕ → Search
  panicked : Search

infixl 5 ◌>>>◌
abbrev pub ◌>>>◌ : Search → (Option ℕ → Search) → Search
stop id >>> f = stop id
going block >>> f = f block
panicked >>> f = panicked

-- `block.get_or_insert(id)`
abbrev pub get_or_insert : Option ℕ → ℕ → Option ℕ
get_or_insert none id = some id
get_or_insert (some b) id = some b

-- The closure `consider`, with the early return behind it.
unfoldable pub consider : Engine → ℕ → Option ℕ → Search
unfolding Store.is_except
consider e id block = if Store.is_except e.store id then stop id else going (get_or_insert block id)

unfoldable pub consider_all : Engine → List ℕ → Option ℕ → Search
unfolding consider
consider_all e [] block = going block
consider_all e (id ∷ ids) block = consider e id block >>> consider_all e ids

-- The loop over the label boundaries of the reversed name.
unfoldable pub consider_prefixes : Engine → Bytes → List ℕ → Option ℕ → Search
unfolding consider_all Index.equal_range
consider_prefixes e rev [] block = going block
consider_prefixes e rev (end ∷ ends) block =
    consider_all e (Index.equal_range e.subtree (take end rev)) block
    >>> consider_prefixes e rev ends

-- The closure `check`, with the early return behind it.
unfoldable pub check : Engine → Bytes → ℕ → Option ℕ → Search
unfolding wildcard_matches consider
check e name idx block = elim (get_elem? e.wildcards idx) [
  | none ↦ panicked
  | some w ↦
      if wildcard_matches w.expr name w.include_subdomains
      then consider e w.rule block
      else going block
]

unfoldable pub check_all : Engine → Bytes → List ℕ → Option ℕ → Search
unfolding check
check_all e name [] block = going block
check_all e name (idx ∷ idxs) block = check e name idx block >>> check_all e name idxs

-- The loop over the buckets of the name and of its parent domains, on at most `n` rounds.
unfoldable pub check_buckets : ℕ → Engine → Bytes → Bytes → Option ℕ → Search
unfolding check_all after_dot
check_buckets zero e name suffix block = going block
check_buckets (suc n) e name suffix block =
    check_all e name (e.wildcard_buckets suffix) block >>> λ block. elim (after_dot suffix) [
      | none ↦ going block
      | some rest ↦ check_buckets n e name rest block
    ]

unfoldable pub check_wildcards : Engine → Bytes → Option ℕ → Search
unfolding check_buckets
check_wildcards e name block = elim e.wildcards [
  | [] ↦ going block
  | _ ∷ _ ↦
      check_buckets (length name + 1) e name name block >>> check_all e name e.wildcard_unanchored
]

-- The id that decides, from the name and its reversed labels.
unfoldable pub search_rules : Engine → Bytes → Bytes → Search
unfolding consider_all consider_prefixes check_wildcards boundaries Index.equal_range
search_rules e name rev =
    consider_all e (Index.equal_range e.exact name) none
    >>> consider_prefixes e rev (boundaries rev)
    >>> check_wildcards e name

-- `&bytes[off..off + len]`, which panics out of range.
unfoldable pub checked_slice : ℕ → ℕ → Bytes → Option Bytes
checked_slice off len bytes = do expect (leb (off + len) (length bytes)); some (slice off len bytes)

-- `&text[off..off + len]` of a `str`, which panics inside a character too.
unfoldable pub str_slice : ℕ → ℕ → Bytes → Option Bytes
unfolding checked_slice
str_slice off len text = do
  part ← checked_slice off len text
  expect (Store.is_char_boundary text off && Store.is_char_boundary text (off + len))
  some part

-- The bytes that follow the first one of a character: how many, and the range of the next one.
abbrev Following : Type 0
Following = ℕ × ℕ × ℕ

unfoldable pub following : ℕ → Option Following
following b =
    if leb b 0x7f
    then some (0, 0x80, 0xbf)
    else if leb 0xc2 b && leb b 0xdf
    then some (1, 0x80, 0xbf)
    else if b == 0xe0
    then some (2, 0xa0, 0xbf)
    else if b == 0xed
    then some (2, 0x80, 0x9f)
    else if leb 0xe1 b && leb b 0xef
    then some (2, 0x80, 0xbf)
    else if b == 0xf0
    then some (3, 0x90, 0xbf)
    else if leb 0xf1 b && leb b 0xf3
    then some (3, 0x80, 0xbf)
    else if b == 0xf4
    then some (3, 0x80, 0x8f)
    else none

unfoldable pub is_utf8_after : Following → Bytes → Bool
unfolding following
is_utf8_after (zero, lo, hi) [] = true
is_utf8_after (suc n, lo, hi) [] = false
is_utf8_after (suc n, lo, hi) (b ∷ s) =
    let rest = is_utf8_after (n, 0x80, 0xbf) s in leb lo b && leb b hi && rest
is_utf8_after (zero, lo, hi) (b ∷ s) = elim (following b) [
  | none ↦ false
  | some next ↦ is_utf8_after next s
]

-- `str::from_utf8(bytes).expect("keys are ASCII")`
unfoldable pub from_utf8 : Bytes → Option Bytes
unfolding is_utf8_after
from_utf8 bytes = do expect (is_utf8_after (0, 0x80, 0xbf) bytes); some bytes

unfoldable pub subtree_text : Bytes → Bytes → Option Bytes
unfolding reverse_labels_into from_utf8
subtree_text at key = do
  buf ← reverse_labels_into key
  domain ← from_utf8 buf
  some (at ++ codes "||" ++ domain ++ b'^' ∷ [])

unfoldable pub exact_text : Bytes → ℕ → Bytes → Bytes
exact_text at f domain =
    if f == form_exact
    then at ++ domain
    else if f == form_exact_caret
    then at ++ domain ++ b'^' ∷ []
    else codes "0.0.0.0 " ++ domain

-- The text of a rule with its span: rebuilt from its key, or read from the verbatim arena.
unfoldable pub text_at : Engine → ℕ → ℕ → ℕ → Option Bytes
unfolding Store.form Store.is_except checked_slice str_slice from_utf8 subtree_text exact_text
text_at e id off len =
    let at = if Store.is_except e.store id then codes "@@" else [] in
    let f = Store.form e.store id in
    let from_subtree = do key ← checked_slice off len e.subtree.arena; subtree_text at key
    in let from_exact = do
      key ← checked_slice off len e.exact.arena
      domain ← from_utf8 key
      some (exact_text at f domain)
      in if f == form_subtree
        then from_subtree
        else if is_exact_form f
        then from_exact
        else str_slice off len e.store.verbatim

unfoldable pub text_of : Engine → ℕ → Option Bytes
unfolding text_at
text_of e id = do
  off ← get_elem? e.store.span_off id
  len ← get_elem? e.store.span_len id
  text_at e id off len

unfoldable pub matched : Engine → ℕ → Option (ℕ × MatchedRule)
unfolding text_of
matched e id = do
  text ← text_of e id
  list ← get_elem? e.store.lists id
  line ← get_elem? e.store.lines id
  some (
    list,
    record {
      action = if Store.is_except e.store id then RuleAction.except else RuleAction.block;
      text = text;
      line = line;
    },
  )

unfoldable pub conclude : Engine → Search → Option Verdict
unfolding matched
conclude e (stop id) = do (list, rule) ← matched e id; some (Verdict.except list rule)
conclude e (going (some id)) = do (list, rule) ← matched e id; some (Verdict.block list rule)
conclude e (going none) = some Verdict.no_match
conclude e panicked = none

-- `none` is a panic.
unfoldable pub verdict : Engine → Bytes → Option Verdict
unfolding normalized reverse_labels_into search_rules conclude
verdict e query =
    let name = normalized query in
    let decided = do rev ← reverse_labels_into name; conclude e (search_rules e name rev)
    in if leb (length name) 0 || ltb 253 (length name) then some Verdict.no_match else decided
