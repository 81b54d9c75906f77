-- ===== src/Filter/Engine/Room.antt =====
-- The rules that can be added, the room that they take, and what adding one comes to.
use sumidero.Prelude.{
  ℕ, ◌+◌, ◌%◌, ◌≤◌, ◌<◌, ◌≡◌, refl, sym, ap, ap₂, ◌∙◌, inl, inr, Bool, true, false, not, Option,
  none, some, [], ◌∷◌, ◌++◌, map, Bytes, codes, Bool-cases, length, strip_prefix, bytes_eq, ◌&&◌,
  expect, ◌>>◌, ==_iff, ◌==◌, if◌then◌else◌, arith,
}
use mathlib.Core.List.{map-append}
use sumidero.Filter.Labels.Reversed.{EndsInLabel}
use sumidero.Filter.Index.{u32_size}
use sumidero.Filter.Store.{Store, form_verbatim, is_char_boundary}
use sumidero.Filter.Store.Pushed.{pushed, flag_bits-except, Keeps, push_verbatim-Keeps}
use sumidero.Filter.Types.{Pattern, Rule, is_exception}
use sumidero.Filter.Engine.{Engine, body_of, is_hosts_zero, exact_form, keep_text, add_pattern}
use sumidero.Filter.Engine.Entries.{Rules}
use sumidero.Filter.Engine.Tracks.{Labels, Tracks}

-- What `d[1..]` needs in the test for a hosts line.
abbrev pub IsSliceable : Bytes → Bytes → Type 0
IsSliceable body domain =
    (sep : ℕ) (d : Bytes)
    → strip_prefix (codes "0.0.0.0") body ≡ some (sep ∷ d)
    → length d ≡ length domain
    → is_char_boundary (sep ∷ d) 1 ≡ true

-- The rules that the parser makes: names of at most 253 bytes that end in a label.
abbrev pub IsNormal : Rule → Pattern → Type 0
IsNormal r (Pattern.exact d) = (length d ≤ 253) × IsSliceable (body_of r) d
IsNormal r (Pattern.subtree d) = (length d ≤ 253) × EndsInLabel d
IsNormal r (Pattern.wildcard expr inc) = Unit

-- Room for `n` more: entries, and bytes in each arena.
pub record Room (e : Engine) (n : ℕ) : Type 0 where
  pub exact : length e.exact.arena + n < u32_size
  pub subtree : length e.subtree.arena + n < u32_size
  pub verbatim : length e.store.verbatim + n < u32_size
  pub rules : length e.store.lines + n < u32_size

-- No rule takes more.
abbrev pub weight : Rule → ℕ
weight r = 256 + length r.text

pub Labels-pushed :
    (s s' : Store) (rs : Rules) (l : ℕ) (r : Rule) (form n : ℕ)
    → Labels s rs
    → Keeps (pushed s l r.line (is_exception r.action) form) s' n
    → Labels s' (rs ++ (l, r) ∷ [])
Labels-pushed s s' rs l r form n h k = record {
  lists = k.lists ∙ ap (λ x. x ++ l ∷ []) h.lists ∙ sym (map-append _ rs _);
  lines = k.lines ∙ ap (λ x. x ++ r.line ∷ []) h.lines ∙ sym (map-append _ rs _);
  excepts =
      ap (map (λ f. not (f % 2 == 0))) k.flags
      ∙ map-append _ s.flags _
      ∙ ap₂ ◌++◌ h.excepts (ap (λ x. x ∷ []) (flag_bits-except (is_exception r.action) form))
      ∙ sym (map-append _ rs _);
}

Keeps-refl : (s : Store) (n : ℕ) → Keeps s s n
Keeps-refl s n = record { lists = refl; lines = refl; flags = refl; grows = omega arith }

pub keep_text-Keeps :
    (s : Store) (form id : ℕ) (text : Bytes)
    → length s.verbatim < u32_size
    → (s' : Store) × (keep_text s form id text ≡ some s') × Keeps s s' (length text)
unfolding keep_text
keep_text-Keeps s form id text h = elim (Bool-cases (form == form_verbatim)) [
  | inl e ↦ rw (e, keep_text) (push_verbatim-Keeps s id text h)
  | inr e ↦ (s, rw e, Keeps-refl s (length text))
]

abbrev IsDefined : {A : Type 0} → Option A → Type 0
IsDefined {A} o = (a : A) × (o ≡ some a)

IsDefined-if :
    {A : Type 0} (b : Bool) (x y : Option A)
    → IsDefined x
    → IsDefined y
    → IsDefined (if b then x else y)
IsDefined-if true x y h k = h
IsDefined-if false x y h k = k

hosts_zero-IsDefined :
    (body domain : Bytes) → IsSliceable body domain → IsDefined (is_hosts_zero body domain)
unfolding is_hosts_zero
hosts_zero-IsDefined body domain h = go (strip_prefix (codes "0.0.0.0") body) refl
  where
    go :
        (o : Option Bytes)
        → strip_prefix (codes "0.0.0.0") body ≡ o
        → IsDefined (elim o [
          | none ↦ some false
          | some [] ↦ some false
          | some (sep ∷ d) ↦
              if length d == length domain
              then (do
                expect (is_char_boundary (sep ∷ d) 1)
                some (bytes_eq d domain && sep == b' '))
              else some false
        ])
    go none q = (false, refl)
    go (some []) q = (false, refl)
    go (some (sep ∷ d)) q = elim (Bool-cases (length d == length domain)) [
      | inl e ↦
          let cut = h sep d q ((==_iff _ _).0 e) in
          rw (e, cut) (bytes_eq d domain && sep == b' ', refl)
      | inr e ↦ rw e (false, refl)
    ]

pub exact_form-IsDefined :
    (except : Bool) (body domain : Bytes)
    → IsSliceable body domain
    → IsDefined (exact_form except body domain)
unfolding exact_form
exact_form-IsDefined except body domain h =
    let (z, q) = hosts_zero-IsDefined body domain h in
    IsDefined-if (bytes_eq body domain) _ _ (_, refl)
      (IsDefined-if _ _ _ (_, refl) (IsDefined-if except _ _ (_, refl) (rw q (_, refl))))

-- The outcome of adding a rule of weight at most `n`.
pub record Grows (e e' : Engine) (n : ℕ) : Type 0 where
  pub exact : length e'.exact.arena ≤ length e.exact.arena + n
  pub subtree : length e'.subtree.arena ≤ length e.subtree.arena + n
  pub verbatim : length e'.store.verbatim ≤ length e.store.verbatim + n
  pub rules : length e'.store.lines ≤ length e.store.lines + n

abbrev pub Adds : Engine → Rules → ℕ → Rule → Pattern → Type 0
Adds e rs l r p =
    (e' : Engine) × (add_pattern e l r p ≡ some e')
    × Tracks e' (rs ++ (l, r) ∷ [])
    × Grows e e' (weight r)
    × (e'.list_count ≡ e.list_count)
