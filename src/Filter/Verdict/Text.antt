-- ===== src/Filter/Verdict/Text.antt =====
-- The text that `matched` makes for a rule.
use sumidero.Prelude.{
  ℕ, zero, ◌+◌, ◌≤◌, ◌≡◌, refl, sym, subst, ap, ◌∙◌, inl, inr, true, false, false≢true, some,
  some-inj, some≢none, suc, List, [], ◌∷◌, ◌++◌, map, All, Bytes, codes, Bool-cases, length,
  get_elem?, le→leb, ◌==◌, ==_iff, if◌then◌else◌, arith,
}
use sumidero.Filter.Labels.Reversed.{
  EndsInLabel, reversed, reversed-reversed, length-reversed, reverse_labels_into-reversed,
}
use sumidero.Filter.Index.{slice}
use sumidero.Filter.Store
use sumidero.Filter.Store.{form_verbatim, form_subtree}
use sumidero.Filter.Store.Strings.{is_char_boundary_iff}
use sumidero.Filter.Types.{RuleAction, Pattern, Rule, MatchedRule, is_exception}
use sumidero.Filter.Engine.{Engine, is_exact_form}
use sumidero.Filter.Engine.Entries.{Rules}
use sumidero.Filter.Engine.Texts.{IsQuoted, IsShown, IsSpan, mark}
use sumidero.Filter.Engine.Told.{SubtreeAt, ExactAt, IsTold}
use sumidero.Filter.Engine.Built.{Ready}
use sumidero.Filter.Verdict.{
  checked_slice, str_slice, following, is_utf8_after, from_utf8, subtree_text, text_at, text_of,
  matched,
}
use sumidero.Filter.Verdict.Settled.{is_except-action}

abbrev pub IsAscii : Bytes → Type 0
IsAscii = All (λ b. b ≤ 0x7f)

-- The action and the line of the rule, and its text.
abbrev pub Reports : Rule → MatchedRule → Type 0
Reports r m = (m.action ≡ r.action) × (m.line ≡ r.line) × IsShown r m.text

-- Keys are ASCII, and a subtree's domain does not begin with a dot.
abbrev pub HasKey : Pattern → Type 0
HasKey (Pattern.exact d) = IsAscii d
HasKey (Pattern.subtree d) = (length d ≤ 253) × IsAscii d × EndsInLabel (reversed d)
HasKey (Pattern.wildcard expr inc) = Unit

-- A rule as the parser makes it.
pub record IsParsed (r : Rule) : Type 0 where
  pub quoted : IsQuoted r
  pub has_key : HasKey r.pattern

ascii-utf8 : (s : Bytes) → IsAscii s → is_utf8_after (0, 0x80, 0xbf) s ≡ true
unfolding is_utf8_after following
ascii-utf8 [] h = refl
ascii-utf8 (b ∷ s) h = rw (le→leb b 0x7f h.0, following, is_utf8_after) (ascii-utf8 s h.1)

from_utf8-ascii : (s : Bytes) → IsAscii s → from_utf8 s ≡ some s
unfolding from_utf8
from_utf8-ascii s h = rw (ascii-utf8 s h) refl

checked_slice-some :
    (off len : ℕ) (s : Bytes)
    → off + len ≤ length s
    → checked_slice off len s ≡ some (slice off len s)
unfolding checked_slice
checked_slice-some off len s h = rw (le→leb (off + len) (length s) h) refl

str_slice-some :
    (s : Bytes) (r : Rule) (off len : ℕ)
    → IsSpan s r off len
    → str_slice off len s ≡ some (slice off len s)
unfolding str_slice
str_slice-some s r off len (fits, from, to, _) =
    let first = (is_char_boundary_iff s off).1 from in
    let last = (is_char_boundary_iff s (off + len)).1 to in
    rw (checked_slice-some off len s fits, first, last) refl

subtree_text-some :
    (at d : Bytes)
    → length d ≤ 253
    → IsAscii d
    → EndsInLabel (reversed d)
    → subtree_text at (reversed d) ≡ some (at ++ codes "||" ++ d ++ b'^' ∷ [])
unfolding subtree_text
subtree_text-some at d short ascii ends =
    let fits : length (reversed d) ≤ 253 = omega (arith, length-reversed d, short) in
    let back = (reverse_labels_into-reversed (reversed d) ends fits).0 in
    let same = reversed-reversed d in rw (back, same, from_utf8-ascii d ascii) refl

exact-not_subtree : (f : ℕ) → is_exact_form f ≡ true → (f == form_subtree) ≡ false
exact-not_subtree f h = elim (Bool-cases (f == form_subtree)) [
  | inl e ↦ absurd (false≢true (ap is_exact_form (sym ((==_iff _ _).0 e)) ∙ h))
  | inr e ↦ e
]

get_elem?-map :
    {A : Type 0} (f : A → ℕ) (xs : List A) (i : ℕ) {x : A}
    → get_elem? xs i ≡ some x
    → get_elem? (map f xs) i ≡ some (f x)
get_elem?-map f [] i h = absurd (some≢none (sym h))
get_elem?-map f (y ∷ xs) zero h = ap some (ap f (some-inj h))
get_elem?-map f (y ∷ xs) (suc i) h = get_elem?-map f xs i h

action-back :
    (a : RuleAction) → (if is_exception a then RuleAction.except else RuleAction.block) ≡ a
action-back RuleAction.block = refl
action-back RuleAction.except = refl

module _ (e : Engine) (rs : Rules) (ready : Ready e rs) (id l : ℕ) (r : Rule)
    (h : get_elem? rs id ≡ some (l, r)) (key : HasKey r.pattern) where
  text_at-subtree :
      (off len : ℕ)
      → SubtreeAt e r (Store.form e.store id) off len
      → text_at e id off len ≡ some r.text
  unfolding text_at
  text_at-subtree off len (d, p, f, text, (fits, found)) =
      let (short, ascii, ends) = subst HasKey p key in
      let cut = checked_slice-some off len e.subtree.arena fits ∙ ap some found in
      let made = subtree_text-some (mark r) d short ascii ends ∙ ap some (sym text) in
      rw (is_except-action e rs ready [] id h, f, cut) made

  text_at-exact :
      (off len : ℕ)
      → ExactAt e r (Store.form e.store id) off len
      → text_at e id off len ≡ some r.text
  unfolding text_at
  text_at-exact off len (d, p, f, text, (fits, found)) =
      let ascii = subst HasKey p key in
      let cut = checked_slice-some off len e.exact.arena fits ∙ ap some found in
      let other = exact-not_subtree (Store.form e.store id) f in
      rw (is_except-action e rs ready [] id h, other, f, cut, from_utf8-ascii d ascii)
        (ap some (sym text))

  text_at-arena :
      (off len : ℕ)
      → Store.form e.store id ≡ form_verbatim
      → IsSpan e.store.verbatim r off len
      → text_at e id off len ≡ some (slice off len e.store.verbatim)
  unfolding text_at
  text_at-arena off len f span = rw f (str_slice-some e.store.verbatim r off len span)

  -- The text is made without a panic, and it is the rule's.
  text_of-IsShown : IsTold e rs → (t : Bytes) × (text_of e id ≡ some t) × IsShown r t
  unfolding text_of
  text_of-IsShown told =
      let (off, len, at, n, span) = told id l r h in
      elim span [
        | inl c ↦ (r.text, rw (at, n) (text_at-subtree off len c), inl refl)
        | inr (inl c) ↦ (r.text, rw (at, n) (text_at-exact off len c), inl refl)
        | inr (inr (f, c)) ↦ (_, rw (at, n) (text_at-arena off len f c), c.3)
      ]

  pub matched-Reports : IsTold e rs → (m : MatchedRule) × (matched e id ≡ some (l, m)) × Reports r m
  unfolding matched
  matched-Reports told =
      let (t, made, shown) = text_of-IsShown told in
      let list : get_elem? e.store.lists id ≡ some l =
        ap (λ c. get_elem? c id) ready.labels.lists ∙ get_elem?-map (λ p. p.0) rs id h in
      let line : get_elem? e.store.lines id ≡ some r.line =
        ap (λ c. get_elem? c id) ready.labels.lines ∙ get_elem?-map (λ p. p.1.line) rs id h in
      (
        record {
          action = if Store.is_except e.store id then RuleAction.except else RuleAction.block;
          text = t;
          line = r.line;
        },
        rw (made, list, line) refl,
        (
          ap (λ b. if b then RuleAction.except else RuleAction.block)
                (is_except-action e rs ready [] id h)
              ∙ action-back r.action,
          refl,
          shown,
        ),
      )
