-- ===== src/Core/Shadow.antt =====
-- crates/core/src/shadow.rs: what the answers of the reference resolver are compared by. Of the data of
-- a record shows whether it is an address, and if so an unspecified one; `display` is the text of a
-- response code, which hickory-proto gives.
use sumidero.Prelude.{
  ℕ, ◌≡◌, ◌↔◌, ◌⊎◌, refl, sym, ap, ◌∙◌, inl, inr, Bool, true, false, false≢true, Bool-cases, Option,
  Option-cases, none, some, some-inj, some≢none, List, [], ◌∷◌, ◌++◌, Elem, All, is_nil, Bytes,
  codes, ◌==◌, ==_iff, if◌then◌else◌,
}
use sumidero.Core.Cache.Entry.{ResponseCode, DnsRecord, Message}

abbrev pub class_expected : Bytes
class_expected = codes "expected"

abbrev pub class_we_block : Bytes
class_we_block = codes "we-block-they-answer"

abbrev pub class_they_block : Bytes
class_they_block = codes "they-block-we-answer"

abbrev pub class_rcode : Bytes
class_rcode = codes "rcode-mismatch"

-- `==` of two response codes.
abbrev pub same_code : ResponseCode → ResponseCode → Bool
same_code ResponseCode.no_error ResponseCode.no_error = true
same_code ResponseCode.nx_domain ResponseCode.nx_domain = true
same_code (ResponseCode.other m) (ResponseCode.other n) = m == n
same_code _ _ = false

same_code_iff : (a b : ResponseCode) → (same_code a b ≡ true) ↔ (a ≡ b)
same_code_iff ResponseCode.no_error ResponseCode.no_error = (λ h. refl, λ h. refl)
same_code_iff ResponseCode.no_error ResponseCode.nx_domain = (λ h. absurd (false≢true h), λ h. cc)
same_code_iff ResponseCode.no_error (ResponseCode.other n) = (λ h. absurd (false≢true h), λ h. cc)
same_code_iff ResponseCode.nx_domain ResponseCode.no_error = (λ h. absurd (false≢true h), λ h. cc)
same_code_iff ResponseCode.nx_domain ResponseCode.nx_domain = (λ h. refl, λ h. refl)
same_code_iff ResponseCode.nx_domain (ResponseCode.other n) = (λ h. absurd (false≢true h), λ h. cc)
same_code_iff (ResponseCode.other m) ResponseCode.no_error = (λ h. absurd (false≢true h), λ h. cc)
same_code_iff (ResponseCode.other m) ResponseCode.nx_domain = (λ h. absurd (false≢true h), λ h. cc)
same_code_iff (ResponseCode.other m) (ResponseCode.other n) = (
  λ h. ap ResponseCode.other ((==_iff m n).0 h),
  λ h. (==_iff m n).1 (ap (λ c. elim c [ ResponseCode.other k ↦ k | _ ↦ m ]) h),
)

no_error≢nx_domain : ResponseCode.no_error ≡ ResponseCode.nx_domain → ⊥
no_error≢nx_domain h = cc

other≢nx_domain : {n : ℕ} → ResponseCode.other n ≡ ResponseCode.nx_domain → ⊥
other≢nx_domain h = cc

other≢no_error : {n : ℕ} → ResponseCode.other n ≡ ResponseCode.no_error → ⊥
other≢no_error h = cc

module _ {D : Type 0} (unspecified : D → Option Bool) where
  -- The loop over the answers; `saw_addr` says whether an address came before.
  unfoldable pub scan_answers : Bool → List (DnsRecord D) → Bool
  scan_answers saw_addr [] = saw_addr
  scan_answers saw_addr (r ∷ rs) = elim (unspecified r.data_of) [
    | none ↦ scan_answers saw_addr rs
    | some true ↦ scan_answers true rs
    | some false ↦ false
  ]

  unfoldable pub looks_blocked : Message D → Bool
  unfolding scan_answers
  looks_blocked resp = elim resp.response_code [
    | ResponseCode.nx_domain ↦ true
    | ResponseCode.no_error ↦ scan_answers false resp.answers
    | ResponseCode.other _ ↦ false
  ]

  -- Every address is an unspecified one.
  abbrev pub AllUnspecified : List (DnsRecord D) → Type 0
  AllUnspecified rs =
      All (λ r. (unspecified r.data_of ≡ none) ⊎ (unspecified r.data_of ≡ some true)) rs

  abbrev pub HasAddress : List (DnsRecord D) → Type 0
  HasAddress rs = (r : DnsRecord D) × Elem r rs × (unspecified r.data_of ≡ some true)

  scan_answers_iff :
      (saw : Bool) (rs : List (DnsRecord D))
      → (scan_answers saw rs ≡ true) ↔ (((saw ≡ true) ⊎ HasAddress rs) × AllUnspecified rs)
  unfolding scan_answers
  scan_answers_iff saw [] = (λ h. (inl h, tt), λ h. elim h.0 [ inl k ↦ k | inr k ↦ absurd k.1 ])
  scan_answers_iff saw (r ∷ rs) = elim (Option-cases (unspecified r.data_of)) [
    | inl q ↦
        let rest = scan_answers_iff saw rs in
        (
          λ h.
              let (a, u) = rest.0 (rw (q, scan_answers) at h) in
              (elim a [ inl k ↦ inl k | inr (s, m, k) ↦ inr (s, inr m, k) ], (inl q, u)),
          λ (a, u).
              rw (q, scan_answers)
                (rest.1 (
                  elim a [
                    | inl k ↦ inl k
                    | inr (s, m, k) ↦ elim m [
                      | inl e ↦ absurd (some≢none (sym k ∙ ap (λ v. unspecified v.data_of) e ∙ q))
                      | inr m ↦ inr (s, m, k)
                    ]
                  ],
                  u.1,
                )),
        )
    | inr (true, q) ↦
        let rest = scan_answers_iff true rs in
        (
          λ h.
              let (a, u) = rest.0 (rw (q, scan_answers) at h) in (inr (r, inl refl, q), (inr q, u)),
          λ (a, u). rw (q, scan_answers) (rest.1 (inl refl, u.1)),
        )
    | inr (false, q) ↦ (
      λ h. absurd (false≢true (rw (q, scan_answers) at h)),
      λ (a, u). elim u.0 [
        | inl k ↦ absurd (some≢none (sym q ∙ k))
        | inr k ↦ absurd (false≢true (some-inj (sym q ∙ k)))
      ],
    )
  ]

  -- An answer looks blocked exactly if it is NXDOMAIN, or NOERROR with an address, all of whose
  -- addresses are unspecified ones.
  pub looks_blocked_iff :
      (resp : Message D)
      → (looks_blocked resp ≡ true) ↔ (
          (resp.response_code ≡ ResponseCode.nx_domain)
          ⊎ ((resp.response_code ≡ ResponseCode.no_error)
              × HasAddress resp.answers
              × AllUnspecified resp.answers))
  unfolding looks_blocked
  looks_blocked_iff resp = by_code resp.response_code refl
    where
      by_code :
          (c : ResponseCode)
          → resp.response_code ≡ c
          → (looks_blocked resp ≡ true) ↔ (
              (resp.response_code ≡ ResponseCode.nx_domain)
              ⊎ ((resp.response_code ≡ ResponseCode.no_error)
                  × HasAddress resp.answers
                  × AllUnspecified resp.answers))
      by_code ResponseCode.nx_domain e = (λ h. inl e, λ h. rw (e, looks_blocked) refl)
      by_code ResponseCode.no_error e =
          let iff = scan_answers_iff false resp.answers in
          (
            λ h.
                let both = iff.0 (rw (e, looks_blocked) at h) in
                elim both.0 [ inl k ↦ absurd (false≢true k) | inr k ↦ inr (e, k, both.1) ],
            λ h. elim h [
              | inl k ↦ absurd (no_error≢nx_domain (sym e ∙ k))
              | inr (_, a, u) ↦ rw (e, looks_blocked) (iff.1 (inr a, u))
            ],
          )
      by_code (ResponseCode.other n) e = (
        λ h. absurd (false≢true (rw (e, looks_blocked) at h)),
        λ h. elim h [
          | inl k ↦ absurd (other≢nx_domain (sym e ∙ k))
          | inr (k, a, u) ↦ absurd (other≢no_error (sym e ∙ k))
        ],
      )

  module _ (display : ResponseCode → Bytes) where
    abbrev pub describe : Message D → Bool → Bytes
    describe resp blocked_verdict =
        (if blocked_verdict
          then codes "blocked/"
          else if looks_blocked resp
          then codes "blocky/"
          else [])
        ++ display resp.response_code

    -- The class of two outcomes that diverge.
    unfoldable pub class_of : Message D → Bool → Message D → Option Bytes
    unfolding looks_blocked
    class_of ours ours_blocked theirs =
        let same = same_code ours.response_code theirs.response_code in
        let empty = same_code theirs.response_code ResponseCode.no_error in
        if ours_blocked
        then (if looks_blocked theirs
            then (if same then none else some class_expected)
            else if empty
            then (if is_nil theirs.answers then some class_expected else some class_we_block)
            else some class_we_block)
        else if looks_blocked theirs
        then (if looks_blocked ours then none else some class_they_block)
        else if same
        then none
        else some class_rcode

    unfoldable pub classify : Message D → Bool → Message D → Option (Bytes × Bytes × Bytes)
    unfolding class_of
    classify ours ours_blocked theirs = elim (class_of ours ours_blocked theirs) [
      | none ↦ none
      | some class ↦ some (describe ours ours_blocked, describe theirs false, class)
    ]

    -- The two resolvers agree.
    abbrev pub Agree : Message D → Bool → Message D → Type 0
    Agree ours true theirs =
        (looks_blocked theirs ≡ true) × (ours.response_code ≡ theirs.response_code)
    Agree ours false theirs =
        ((looks_blocked theirs ≡ true) × (looks_blocked ours ≡ true))
        ⊎ ((looks_blocked theirs ≡ false) × (ours.response_code ≡ theirs.response_code))

    class_of-Agree :
        (ours : Message D) (ours_blocked : Bool) (theirs : Message D)
        → (class_of ours ours_blocked theirs ≡ none) ↔ Agree ours ours_blocked theirs
    unfolding class_of
    class_of-Agree ours true theirs =
        let codes_iff = same_code_iff ours.response_code theirs.response_code in
        elim (Bool-cases (looks_blocked theirs)) [
          | inl q ↦ elim (Bool-cases (same_code ours.response_code theirs.response_code)) [
            | inl c ↦ (λ h. (q, codes_iff.0 c), λ h. rw (q, c, class_of) refl)
            | inr c ↦ (
              λ h. absurd (some≢none (rw (q, c, class_of) at h)),
              λ h. absurd (false≢true (sym c ∙ codes_iff.1 h.1)),
            )
          ]
          | inr q ↦ (λ h. absurd (reported h q), λ h. absurd (false≢true (sym q ∙ h.0)))
        ]
      where
        reported : class_of ours true theirs ≡ none → looks_blocked theirs ≡ false → ⊥
        reported h q = elim (Bool-cases (same_code theirs.response_code ResponseCode.no_error)) [
          | inl e ↦ elim (Bool-cases (is_nil theirs.answers)) [
            | inl n ↦ some≢none (rw (q, e, n, class_of) at h)
            | inr n ↦ some≢none (rw (q, e, n, class_of) at h)
          ]
          | inr e ↦ some≢none (rw (q, e, class_of) at h)
        ]
    class_of-Agree ours false theirs =
        let codes_iff = same_code_iff ours.response_code theirs.response_code in
        elim (Bool-cases (looks_blocked theirs)) [
          | inl q ↦ elim (Bool-cases (looks_blocked ours)) [
            | inl o ↦ (λ h. inl (q, o), λ h. rw (q, o, class_of) refl)
            | inr o ↦ (
              λ h. absurd (some≢none (rw (q, o, class_of) at h)),
              λ h. elim h [
                | inl k ↦ absurd (false≢true (sym o ∙ k.1))
                | inr k ↦ absurd (false≢true (sym k.0 ∙ q))
              ],
            )
          ]
          | inr q ↦ elim (Bool-cases (same_code ours.response_code theirs.response_code)) [
            | inl c ↦ (λ h. inr (q, codes_iff.0 c), λ h. rw (q, c, class_of) refl)
            | inr c ↦ (
              λ h. absurd (some≢none (rw (q, c, class_of) at h)),
              λ h. elim h [
                | inl k ↦ absurd (false≢true (sym q ∙ k.0))
                | inr k ↦ absurd (false≢true (sym c ∙ codes_iff.1 k.1))
              ],
            )
          ]
        ]

    -- Nothing is reported exactly if the resolvers agree: for a name that we blocked, if their answer
    -- looks blocked with the same code; for another one, if both answers look blocked, or theirs does
    -- not and the codes are the same.
    pub classify-none :
        (ours : Message D) (ours_blocked : Bool) (theirs : Message D)
        → (classify ours ours_blocked theirs ≡ none) ↔ Agree ours ours_blocked theirs
    unfolding classify
    classify-none ours ours_blocked theirs =
        let iff = class_of-Agree ours ours_blocked theirs in
        elim (Option-cases (class_of ours ours_blocked theirs)) [
          | inl q ↦ (λ h. iff.0 q, λ h. rw (q, classify) refl)
          | inr (c, q) ↦ (
            λ h. absurd (some≢none (rw (q, classify) at h)),
            λ h. absurd (some≢none (sym q ∙ iff.1 h)),
          )
        ]
