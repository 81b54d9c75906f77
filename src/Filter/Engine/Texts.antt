-- ===== src/Filter/Engine/Texts.antt =====
-- Where the store finds the text of a rule, while rules are added.
use sumidero.Prelude.{
  ℕ, suc, ◌+◌, ◌≤◌, ◌<◌, ◌≡◌, sym, subst, ap, ◌∙◌, ◌⊎◌, inl, inr, true, some, [], ◌∷◌, ◌++◌, Bytes,
  codes, length, length-append, get_elem?, take, get_elem?-bound, strip_prefix, if◌then◌else◌,
  arith,
}
use sumidero.Filter.Index.{slice}
use sumidero.Filter.Index.Insert.{slice-append_left}
use sumidero.Filter.Store
use sumidero.Filter.Store.{
  Store, form_verbatim, form_subtree, form_exact, form_exact_caret, form_hosts_zero, flag_bits,
  last_boundary, push_verbatim,
}
use sumidero.Filter.Store.Strings.{StartsChar, IsBoundary, IsBoundary-append_left}
use sumidero.Filter.Types.{Pattern, Rule, is_exception}
use sumidero.Filter.Engine.{is_exact_form}
use sumidero.Filter.Engine.Entries.{Rules, get_elem?-last}
use sumidero.Filter.Verdict.{exact_text}

-- A rule as the parser makes it: its text begins with a character, and with `@@` for an exception.
pub record IsQuoted (r : Rule) : Type 0 where
  pub starts : StartsChar r.text
  pub marked :
      is_exception r.action ≡ true → (b : Bytes) × (strip_prefix (codes "@@") r.text ≡ some b)

abbrev pub mark : Rule → Bytes
mark r = if is_exception r.action then codes "@@" else []

-- The text of a rule, or its longest part of whole characters within 255 bytes.
abbrev pub IsShown : Rule → Bytes → Type 0
IsShown r t = (t ≡ r.text) ⊎ ((255 < length r.text) × (t ≡ take (last_boundary r.text 255) r.text))

-- A form says how the text of a rule is made.
abbrev pub FromSubtree : Rule → ℕ → Type 0
FromSubtree r f =
    (d : Bytes) × (r.pattern ≡ Pattern.subtree d)
    × (f ≡ form_subtree)
    × (r.text ≡ mark r ++ codes "||" ++ d ++ b'^' ∷ [])

abbrev pub FromExact : Rule → ℕ → Type 0
FromExact r f =
    (d : Bytes) × (r.pattern ≡ Pattern.exact d)
    × (is_exact_form f ≡ true)
    × (r.text ≡ exact_text (mark r) f d)

-- A span of the verbatim arena.
abbrev pub IsSpan : Bytes → Rule → ℕ → ℕ → Type 0
IsSpan verbatim r off len =
    (off + len ≤ length verbatim)
    × IsBoundary verbatim off
    × IsBoundary verbatim (off + len)
    × IsShown r (slice off len verbatim)

abbrev pub FromArena : Store → ℕ → Rule → Type 0
FromArena s id r =
    (off len : ℕ) × (Store.form s id ≡ form_verbatim)
    × (get_elem? s.span_off id ≡ some off)
    × (get_elem? s.span_len id ≡ some len)
    × IsSpan s.verbatim r off len

abbrev pub TextOf : Store → ℕ → Rule → Type 0
TextOf s id r = FromSubtree r (Store.form s id) ⊎ (FromExact r (Store.form s id) ⊎ FromArena s id r)

pub record Texts (s : Store) (rs : Rules) : Type 0 where
  pub offs : length s.span_off ≡ length rs
  pub lens : length s.span_len ≡ length rs
  pub told : (id l : ℕ) (r : Rule) → get_elem? rs id ≡ some (l, r) → TextOf s id r

IsSpan-append :
    (s : Store) (t : Bytes) (r : Rule) (off len : ℕ) (s' : Store)
    → StartsChar t
    → s'.verbatim ≡ s.verbatim ++ t
    → IsSpan s.verbatim r off len
    → IsSpan s'.verbatim r off len
IsSpan-append s t r off len s' starts q (fits, from, to, shown) = (
  omega (arith, fits, ap (length {A = ℕ}) q, length-append {0} s.verbatim t),
  subst (λ v. IsBoundary v off) (sym q) (IsBoundary-append_left s.verbatim t off from starts),
  subst (λ v. IsBoundary v (off + len)) (sym q)
      (IsBoundary-append_left s.verbatim t (off + len) to starts),
  subst (IsShown r) (sym (ap (slice off len) q ∙ slice-append_left off len s.verbatim t fits))
      shown,
)

-- What a rule's text is made from stays where it is when a rule with another id is stored.
pub record Extends (s s' : Store) (n : ℕ) : Type 0 where
  pub offs : length s'.span_off ≡ suc n
  pub lens : length s'.span_len ≡ suc n
  pub forms : (id : ℕ) → id < n → Store.form s' id ≡ Store.form s id
  pub off_at : (id : ℕ) → id < n → get_elem? s'.span_off id ≡ get_elem? s.span_off id
  pub len_at : (id : ℕ) → id < n → get_elem? s'.span_len id ≡ get_elem? s.span_len id
  pub tail : Bytes
  pub starts : StartsChar tail
  pub verbatim : s'.verbatim ≡ s.verbatim ++ tail

TextOf-Extends :
    {s s' : Store} {n : ℕ} (x : Extends s s' n) (id : ℕ) (r : Rule)
    → id < n
    → TextOf s id r
    → TextOf s' id r
TextOf-Extends x id r lt (inl h) = inl (subst (FromSubtree r) (sym (x.forms id lt)) h)
TextOf-Extends x id r lt (inr (inl h)) = inr (inl (subst (FromExact r) (sym (x.forms id lt)) h))
TextOf-Extends {s} {s'} x id r lt (inr (inr (off, len, f, o, l, span))) = inr (
    inr (
      off,
      len,
      x.forms id lt ∙ f,
      x.off_at id lt ∙ o,
      x.len_at id lt ∙ l,
      IsSpan-append s x.tail r off len s' x.starts x.verbatim span,
    ))

pub Texts-Extends :
    {s s' : Store} (rs : Rules) (l : ℕ) (r : Rule)
    → Texts s rs
    → Extends s s' (length rs)
    → TextOf s' (length rs) r
    → Texts s' (rs ++ (l, r) ∷ [])
Texts-Extends {s} {s'} rs l r t x new = record {
  offs = x.offs ∙ omega (arith, length-append {0} rs ((l, r) ∷ []));
  lens = x.lens ∙ omega (arith, length-append {0} rs ((l, r) ∷ []));
  told = λ id m q h. elim (get_elem?-last rs (l, r) id h) [
    | inl g ↦ TextOf-Extends x id q (get_elem?-bound rs id g) (t.told id m q g)
    | inr (e, g) ↦ subst (TextOf s' id) (ap (λ x. x.1) g) (subst (λ i. TextOf s' i r) (sym e) new)
  ];
}
