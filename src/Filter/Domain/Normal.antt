-- ===== src/Filter/Domain/Normal.antt =====
-- What a normalized domain looks like, and that normalizing it again changes nothing.
use sumidero.Prelude.{
  All-map, ℕ, ◌+◌, ◌≡◌, ◌≢◌, ◌≤◌, refl, inl, inr, Bool, true, false, not, ◌||◌, Option, none, some,
  List, [], ◌∷◌, Bytes, length, leb, ltb, ◌==◌, if◌then◌else◌, Bool-cases, Option-cases, subst, all,
  any, split, ends_with, strip_suffix, or_self, is_ascii_uppercase, to_ascii_lowercase, All,
  All-elem, Elem, arith,
}
use sumidero.Filter.Labels.{dot}
use sumidero.Filter.Glob.{star}
use sumidero.Filter.Labels.Reversed.{EndsInLabel}
use sumidero.Filter.Domain.{
  lower_strip, is_name_byte, is_hyphen_bounded, is_label, normalize_domain, normalize_wildcard,
}

-- A label of 1 to 63 letters, digits, hyphens and underscores, with no hyphen at either end.
pub record IsLabel (label : Bytes) : Type 0 where
  pub ne_nil : label ≢ []
  pub short : length label ≤ 63
  pub inner_hyphens : is_hyphen_bounded label ≡ false
  pub bytes : All (λ b. is_name_byte b ≡ true) label

pub record IsDomain (d : Bytes) : Type 0 where
  pub short : length d ≤ 253
  pub ends : EndsInLabel d
  pub lower : any is_ascii_uppercase d ≡ false
  pub labels : All IsLabel (split dot d)

-- A name that ends in a dot has an empty label behind its first one.
ends_with-split :
    (s : Bytes)
    → ends_with dot s ≡ true
    → (l : Bytes) × (ls : List Bytes) × (split dot s ≡ l ∷ ls) × Elem [] ls
ends_with-split [] h = absurd (ground arith)
ends_with-split (b ∷ []) h = elim (Bool-cases (b == dot)) [
  | inl e ↦ rw e ([], [] ∷ [], refl, inl refl)
  | inr e ↦ absurd (ground arith)
]
ends_with-split (b ∷ c ∷ s) h =
    let (l, ls, q, m) = ends_with-split (c ∷ s) (ground arith) in
    elim (Bool-cases (b == dot)) [
      | inl e ↦ rw (e, q) ([], l ∷ ls, refl, inr m)
      | inr e ↦ rw (e, q) (b ∷ l, ls, refl, m)
    ]

lower_byte : (b : ℕ) → is_ascii_uppercase (if is_ascii_uppercase b then b + 32 else b) ≡ false
lower_byte b = ground arith

to_ascii_lowercase-lower : (s : Bytes) → any is_ascii_uppercase (to_ascii_lowercase s) ≡ false
to_ascii_lowercase-lower [] = refl
to_ascii_lowercase-lower (b ∷ s) = rw (lower_byte b) (to_ascii_lowercase-lower s)

lower_strip-lower : (s : Bytes) → any is_ascii_uppercase (lower_strip s) ≡ false
unfolding lower_strip
lower_strip-lower s = elim (Bool-cases (any is_ascii_uppercase (or_self (strip_suffix dot s) s))) [
  | inl e ↦ rw e (to_ascii_lowercase-lower (or_self (strip_suffix dot s) s))
  | inr e ↦ rw (e, e) refl
]

pub guard-some :
    {A : Type 0} (b : Bool) (o : Option A) {a : A}
    → (if b then none else o) ≡ some a
    → (b ≡ false) × (o ≡ some a)
guard-some true o h = absurd (ground arith)
guard-some false o h = (refl, h)

pub pass-some :
    {A : Type 0} (b : Bool) (o : Option A) {a : A}
    → (if b then o else none) ≡ some a
    → (b ≡ true) × (o ≡ some a)
pass-some true o h = (refl, h)
pass-some false o h = absurd (ground arith)

or-false : (a b : Bool) → a || b ≡ false → (a ≡ false) × (b ≡ false)
or-false true b h = absurd (ground arith)
or-false false b h = (refl, h)

not-false : (b : Bool) → not b ≡ false → b ≡ true
not-false true h = refl
not-false false h = absurd (ground arith)

some_inj : {x y : Bytes} → some x ≡ some y → x ≡ y
some_inj h = ground arith

within : (n : ℕ) (s : Bytes) → leb (length s) 0 || ltb n (length s) ≡ false → length s ≤ n
within n s h = ground arith

some_byte : (n : ℕ) (s : Bytes) → leb (length s) 0 || ltb n (length s) ≡ false → s ≢ []
some_byte n [] h = absurd (ground arith)
some_byte n (b ∷ s) h = ground arith

in_range :
    {n : ℕ} (s : Bytes) → s ≢ [] → length s ≤ n → leb (length s) 0 || ltb n (length s) ≡ false
in_range [] ne h = absurd (ne refl)
in_range (b ∷ s) ne h = ground arith

no_suffix : (s : Bytes) → ends_with dot s ≡ false → strip_suffix dot s ≡ none
no_suffix s h = elim (Option-cases (strip_suffix dot s)) [
  | inl q ↦ q
  | inr (r, q) ↦ absurd (ground arith)
]

All-all : {A : Type 0} (p : A → Bool) (xs : List A) → All (λ x. p x ≡ true) xs → all p xs ≡ true
All-all p [] h = refl
All-all p (x ∷ xs) (q, h) = rw q (All-all p xs h)

pub all-All : {A : Type 0} (p : A → Bool) (xs : List A) → all p xs ≡ true → All (λ x. p x ≡ true) xs
all-All p [] h = tt
all-All p (x ∷ xs) h = (ground arith, all-All p xs (ground arith))

is_label-IsLabel : (l : Bytes) → is_label l ≡ true → IsLabel l
unfolding is_label
is_label-IsLabel [] h = absurd (ground arith)
is_label-IsLabel (b ∷ l) h = record {
  ne_nil = ground arith;
  short = ground arith;
  inner_hyphens = ground arith;
  bytes = all-All is_name_byte (b ∷ l) (ground arith);
}

IsLabel-is_label : (l : Bytes) → IsLabel l → is_label l ≡ true
unfolding is_label
IsLabel-is_label l h =
    let fits : leb (length l) 0 || ltb 63 (length l) ≡ false = in_range l h.ne_nil h.short in
    rw (fits, h.inner_hyphens) (All-all is_name_byte l h.bytes)

labels-EndsInLabel : (d : Bytes) → d ≢ [] → All IsLabel (split dot d) → EndsInLabel d
labels-EndsInLabel d ne h = record {
  ne_nil = ne;
  no_dot = elim (Bool-cases (ends_with dot d)) [
    | inl e ↦
        let (l, ls, q, m) = ends_with-split d e in
        let empty : IsLabel [] = All-elem IsLabel ls [] ((rw q at h).1) m in
        absurd (empty.ne_nil refl)
    | inr e ↦ e
  ];
}

-- Whatever `normalize_domain` returns is a domain: at most 253 bytes in lower case, every label of 1
-- to 63 letters, digits, hyphens and underscores with no hyphen at its ends, and no trailing dot.
pub normalize_domain-IsDomain : (s : Bytes) {d : Bytes} → normalize_domain s ≡ some d → IsDomain d
unfolding normalize_domain
normalize_domain-IsDomain s {d} h =
    let x = lower_strip s in
    let (fits, h₁) = guard-some _ _ h in
    let (labels, h₂) = pass-some _ _ h₁ in
    let all_labels =
      All-map (λ l. is_label l ≡ true) IsLabel (split dot x) is_label-IsLabel
        (all-All is_label (split dot x) labels) in
    subst IsDomain (some_inj h₂) (record {
      short = within 253 x fits;
      ends = labels-EndsInLabel x (some_byte 253 x fits) all_labels;
      lower = lower_strip-lower s;
      labels = all_labels;
    })

-- A domain is normalized already.
pub IsDomain-normalize_domain : (d : Bytes) → IsDomain d → normalize_domain d ≡ some d
unfolding normalize_domain lower_strip
IsDomain-normalize_domain d h =
    let bare : strip_suffix dot d ≡ none = no_suffix d h.ends.no_dot in
    let fits : leb (length d) 0 || ltb 253 (length d) ≡ false = in_range d h.ends.ne_nil h.short in
    let labels =
      All-all is_label (split dot d)
        (All-map IsLabel (λ l. is_label l ≡ true) (split dot d) IsLabel-is_label h.labels) in
    rw (bare, h.lower, fits, labels) refl

abbrev pub is_expr_byte : ℕ → Bool
is_expr_byte b = is_name_byte b || b == dot || b == star

-- An expression of 1 to 253 lower case bytes of names, dots and stars.
pub record IsExpr (e : Bytes) : Type 0 where
  pub ne_nil : e ≢ []
  pub short : length e ≤ 253
  pub lower : any is_ascii_uppercase e ≡ false
  pub bytes : All (λ b. is_expr_byte b ≡ true) e

-- Whatever `normalize_wildcard` returns is an expression of at most 253 bytes in lower case, made of
-- bytes of names, dots and stars.
pub normalize_wildcard-IsExpr : (s : Bytes) {e : Bytes} → normalize_wildcard s ≡ some e → IsExpr e
unfolding normalize_wildcard
normalize_wildcard-IsExpr s {e} h =
    let x = lower_strip s in
    let (fits, h₁) = guard-some _ _ h in
    let (bytes, h₂) = guard-some _ _ h₁ in
    let (_, h₃) = pass-some _ _ h₂ in
    let fits' = (or-false (leb (length x) 0 || ltb 253 (length x)) _ fits).0 in
    subst IsExpr (some_inj h₃) (record {
      ne_nil = some_byte 253 x fits';
      short = within 253 x fits';
      lower = lower_strip-lower s;
      bytes = all-All is_expr_byte x (not-false (all is_expr_byte x) bytes);
    })
