-- ===== src/Core/SafeSearch/Tables.antt =====
-- The tables that are built: which bits are set, and which names are refused.
use sumidero.Prelude.{
  ℕ, ◌≡◌, refl, sym, ap, ◌∙◌, ◌⊎◌, ◌↔◌, inl, inr, Bool, true, false, false≢true, not, ◌||◌,
  Bool-cases, ok, err, is_ok, Result-cases, ok-inj, err-inj, err≢ok, is_nil, List, [], ◌∷◌, Elem,
  All, Bytes, bytes_eq, bytes_eq_sound, any, if◌then◌else◌,
}
use sumidero.Core.SafeSearch
use sumidero.Core.SafeSearch.{
  ConfigError, SafeSearch, supported_providers, youtube_hosts, bing_hosts, duckduckgo_hosts,
  has_bit, or_bit, bit_of, bits_of, validate_providers, new_table, is_google_host, rewrite,
}
use sumidero.Core.SafeSearch.Providers.{
  Provider, name, bit, same, same_sound, or_bit-has_bit, bit_of-name, name-same, or_same, or_true,
}

abbrev pub Supported : Bytes → Type 0
Supported n = (p : Provider) × (n ≡ name p)

pub supported : (n : Bytes) → any (λ m. bytes_eq m n) supported_providers ≡ true → Supported n
supported n h = elim (or_same _ _ h) [
  | inl e ↦ (Provider.google, sym (bytes_eq_sound _ n e))
  | inr h ↦ elim (or_same _ _ h) [
    | inl e ↦ (Provider.youtube, sym (bytes_eq_sound _ n e))
    | inr h ↦ elim (or_same _ _ h) [
      | inl e ↦ (Provider.bing, sym (bytes_eq_sound _ n e))
      | inr h ↦ elim (or_same _ _ h) [
        | inl e ↦ (Provider.duckduckgo, sym (bytes_eq_sound _ n e))
        | inr h ↦ absurd (false≢true h)
      ]
    ]
  ]
]

pub validate_providers-ok :
    (ps : List Bytes) → is_ok (validate_providers ps) ≡ true → All Supported ps
unfolding validate_providers
validate_providers-ok [] h = tt
validate_providers-ok (p ∷ ps) h = elim (Bool-cases (any (λ q. bytes_eq q p) supported_providers)) [
  | inl q ↦ (supported p q, validate_providers-ok ps (rw (q, validate_providers) at h))
  | inr q ↦ absurd (false≢true (rw (q, validate_providers) at h))
]

-- The bit of a provider is set by its name.
pub bits_of-has_bit :
    (p : Provider) (ps : List Bytes) (e : ℕ)
    → All Supported ps
    → (has_bit (bits_of e ps) (bit p) ≡ true) ↔ ((has_bit e (bit p) ≡ true) ⊎ Elem (name p) ps)
unfolding bits_of
bits_of-has_bit p [] e s = (λ h. inl h, λ h. elim h [ inl k ↦ k | inr k ↦ absurd k ])
bits_of-has_bit p (n ∷ ps) e ((r, q), s) =
    let set : has_bit (or_bit e (bit_of n)) (bit p) ≡ has_bit e (bit p) || same p r =
      ap (λ b. has_bit (or_bit e b) (bit p)) (ap bit_of q ∙ bit_of-name r) ∙ or_bit-has_bit p r e in
    let rest = bits_of-has_bit p ps (or_bit e (bit_of n)) s in
    (
      λ h. elim (rest.0 h) [
        | inl k ↦ elim (or_same (has_bit e (bit p)) (same p r) (sym set ∙ k)) [
          | inl k ↦ inl k
          | inr k ↦ inr (inl (ap name (same_sound p r k) ∙ sym q))
        ]
        | inr k ↦ inr (inr k)
      ],
      λ h. elim h [
        | inl k ↦ rest.1 (inl (set ∙ or_true (has_bit e (bit p)) (same p r) (inl k)))
        | inr (inl k) ↦
            rest.1
              (inl (set ∙ or_true (has_bit e (bit p)) (same p r) (inr (name-same p r (k ∙ q)))))
        | inr (inr k) ↦ rest.1 (inr k)
      ],
    )

-- The providers that a configuration enforces: all of them, if it names none.
abbrev pub IsEnforced : Bool → List Bytes → Provider → Type 0
IsEnforced enabled providers p = (enabled ≡ true) × ((providers ≡ []) ⊎ Elem (name p) providers)

pub has_bit-none : (p : Provider) → has_bit 0 (bit p) ≡ false
unfolding has_bit
has_bit-none Provider.google = refl
has_bit-none Provider.youtube = refl
has_bit-none Provider.bing = refl
has_bit-none Provider.duckduckgo = refl

pub has_bit-all : (p : Provider) → has_bit SafeSearch.all_providers (bit p) ≡ true
unfolding has_bit
has_bit-all Provider.google = refl
has_bit-all Provider.youtube = refl
has_bit-all Provider.bing = refl
has_bit-all Provider.duckduckgo = refl

abbrev pub bits_for : Bool → List Bytes → ℕ
bits_for enabled providers =
    if not enabled
    then 0
    else if is_nil providers
    then SafeSearch.all_providers
    else bits_of 0 providers

pub bits_for_iff :
    (p : Provider) (enabled : Bool) (providers : List Bytes)
    → All Supported providers
    → (has_bit (bits_for enabled providers) (bit p) ≡ true) ↔ IsEnforced enabled providers p
bits_for_iff p false providers s =
    (λ h. absurd (false≢true (sym (has_bit-none p) ∙ h)), λ h. absurd (false≢true h.0))
bits_for_iff p true [] s = (λ h. (refl, inl refl), λ h. has_bit-all p)
bits_for_iff p true (n ∷ ps) s =
    let iff = bits_of-has_bit p (n ∷ ps) 0 s in
    (
      λ h. elim (iff.0 h) [
        | inl k ↦ absurd (false≢true (sym (has_bit-none p) ∙ k))
        | inr k ↦ (refl, inr k)
      ],
      λ h. elim (h.1) [ inl k ↦ absurd (cons≢nil k) | inr k ↦ iff.1 (inr k) ],
    )
  where
    cons≢nil : n ∷ ps ≡ [] → ⊥
    cons≢nil h = cc

abbrev pub table : Bool → List Bytes → SafeSearch
table enabled providers = record { enabled = bits_for enabled providers }

pub new_table-supported :
    (enabled : Bool) (providers : List Bytes)
    → validate_providers providers ≡ ok tt
    → new_table enabled providers ≡ ok (table enabled providers)
unfolding new_table
new_table-supported false providers h = rw (h, new_table) refl
new_table-supported true [] h = refl
new_table-supported true (n ∷ ps) h = rw (h, new_table) refl

pub new_table-unsupported :
    (enabled : Bool) (providers : List Bytes) {e : ConfigError}
    → validate_providers providers ≡ err e
    → new_table enabled providers ≡ err e
unfolding new_table
new_table-unsupported enabled providers h = rw (h, new_table) refl

pub new_table-bits :
    (enabled : Bool) (providers : List Bytes) {s : SafeSearch}
    → new_table enabled providers ≡ ok s
    → All Supported providers × (s ≡ table enabled providers)
new_table-bits enabled providers {s} h = elim (Result-cases (validate_providers providers)) [
  | inl (a, q) ↦ (
    validate_providers-ok providers (ap is_ok q),
    ok-inj (sym h ∙ new_table-supported enabled providers q),
  )
  | inr (e, q) ↦ absurd (err≢ok (sym (new_table-unsupported enabled providers q) ∙ h))
]

pub unsupported : (n : Bytes) → any (λ m. bytes_eq m n) supported_providers ≡ false → ¬ Supported n
unsupported n h (p, e) =
    false≢true (sym h ∙ ap (λ k. any (λ m. bytes_eq m k) supported_providers) e ∙ listed p)
  where
    listed : (p : Provider) → any (λ m. bytes_eq m (name p)) supported_providers ≡ true
    listed Provider.google = refl
    listed Provider.youtube = refl
    listed Provider.bing = refl
    listed Provider.duckduckgo = refl

-- The first name that is not a provider's.
abbrev pub FirstUnsupported : List Bytes → Bytes → Type 0
FirstUnsupported [] n = ⊥
FirstUnsupported (p ∷ ps) n = ((p ≡ n) × ¬ Supported p) ⊎ (Supported p × FirstUnsupported ps n)

pub unknown-inj :
    {a b : Bytes} → ConfigError.unknown_provider a ≡ ConfigError.unknown_provider b → a ≡ b
unknown-inj h = ap (λ c. elim c [ ConfigError.unknown_provider x ↦ x ]) h

pub validate_providers-err :
    (ps : List Bytes) (n : Bytes)
    → (validate_providers ps ≡ err (ConfigError.unknown_provider n)) ↔ FirstUnsupported ps n
unfolding validate_providers
validate_providers-err [] n = (λ h. err≢ok (sym h), λ h. absurd h)
validate_providers-err (p ∷ ps) n =
    elim (Bool-cases (any (λ q. bytes_eq q p) supported_providers)) [
      | inl q ↦
          let rest = validate_providers-err ps n in
          (
            λ h. inr (supported p q, rest.0 (rw (q, validate_providers) at h)),
            λ h. elim h [
              | inl k ↦ absurd (k.1 (supported p q))
              | inr k ↦ rw (q, validate_providers) (rest.1 k.1)
            ],
          )
      | inr q ↦ (
        λ h. inl (unknown-inj (err-inj (rw (q, validate_providers) at h)), unsupported p q),
        λ h. elim h [
          | inl k ↦ rw (q, validate_providers) (ap (λ m. err (ConfigError.unknown_provider m)) k.0)
          | inr k ↦ absurd (unsupported p q k.0)
        ],
      )
    ]

-- No table is built exactly if a name is not a provider's, enforced or not, and the error names the
-- first such name.
pub new_table-err :
    (enabled : Bool) (providers : List Bytes) (n : Bytes)
    → (new_table enabled providers ≡ err (ConfigError.unknown_provider n))
      ↔ FirstUnsupported providers n
new_table-err enabled providers n = elim (Result-cases (validate_providers providers)) [
  | inl (a, q) ↦ (
    λ h. absurd (err≢ok (sym h ∙ new_table-supported enabled providers q)),
    λ h. absurd (err≢ok (sym ((validate_providers-err providers n).1 h) ∙ q)),
  )
  | inr (e, q) ↦ (
    λ h.
        (validate_providers-err providers n).0
          (q ∙ ap err (err-inj (sym (new_table-unsupported enabled providers q) ∙ h))),
    λ h. new_table-unsupported enabled providers ((validate_providers-err providers n).1 h),
  )
]

pub validate_providers-Supported :
    (ps : List Bytes) → (is_ok (validate_providers ps) ≡ true) ↔ All Supported ps
unfolding validate_providers
validate_providers-Supported ps = (validate_providers-ok ps, there ps)
  where
    listed : (n : Bytes) → Supported n → any (λ m. bytes_eq m n) supported_providers ≡ true
    listed n s = elim (Bool-cases (any (λ m. bytes_eq m n) supported_providers)) [
      | inl q ↦ q
      | inr q ↦ absurd (unsupported n q s)
    ]

    there : (ps : List Bytes) → All Supported ps → is_ok (validate_providers ps) ≡ true
    there [] h = refl
    there (p ∷ ps) (s, h) = rw (listed p s, validate_providers) (there ps h)

-- A table is built for supported names.
pub new_table-built :
    (enabled : Bool) (ps : List Bytes)
    → All Supported ps
    → (s : SafeSearch) × (new_table enabled ps ≡ ok s)
new_table-built enabled ps h = elim (Result-cases (validate_providers ps)) [
  | inl (a, q) ↦ (table enabled ps, new_table-supported enabled ps q)
  | inr (e, q) ↦ absurd (false≢true (ap is_ok (sym q) ∙ (validate_providers-Supported ps).1 h))
]
