-- ===== src/Filter/Glob/Correct.antt =====
-- The matcher always answers, and the answer is right for names without a `*`.
use sumidero.Prelude.{
  ℕ, zero, suc, ◌+◌, ◌*◌, ◌≤◌, ◌<◌, ◌≡◌, ◌≢◌, refl, sym, subst, inl, inr, ◌↔◌, Bool, true, false,
  false≢true, [], ◌∷◌, ◌==◌, Option, none, some, Bytes, Bool-cases, length, arith,
}
use sumidero.Filter.Glob.{star, glob_match}
use sumidero.Filter.Glob.Relation.{
  Glob, done, byte, stop, more, IsPlain, byte_inv, star_at_end, must_take, two_stars, drop_byte,
}
use sumidero.Filter.Glob.Suffixes.{Saved, Round, only_stars, retry, loop, glob_loop-loop}

only_stars-Glob : (p : Bytes) → only_stars p ≡ true → Glob p []
unfolding only_stars
only_stars-Glob [] h = done
only_stars-Glob (c ∷ p) h = elim (Bool-cases (c == star)) [
  | inl e ↦ stop (ground arith) (only_stars-Glob p (ground arith))
  | inr e ↦ absurd (ground arith)
]

Glob-only_stars : {p : Bytes} → Glob p [] → only_stars p ≡ true
unfolding only_stars
Glob-only_stars done = refl
Glob-only_stars (stop e g) = ground (arith, Glob-only_stars g)

-- The run ended. `true` is right; `false` is right where `F` holds.
abbrev pub Answers : Type 0 → Type 0 → Option Bool → Type 0
Answers F G none = ⊥
Answers F G (some true) = G
Answers F G (some false) = F → ¬ G

Answers-some :
    (F G : Type 0) (b : Bool) → (b ≡ true → G) → (F → G → b ≡ true) → Answers F G (some b)
Answers-some F G true h k = h refl
Answers-some F G false h k = λ x g. false≢true (k x g)

-- `G` is the question at the start, `F` that the text holds no star, and every pattern in play is
-- shorter than `k`.
module _ (F G : Type 0) (k : ℕ) where
  -- `m` bounds the text that is left to retry.
  abbrev Keeps : ℕ → Bytes → Bytes → Saved → Type 0
  Keeps m p s none = F → G → Glob p s
  Keeps m p s (some (bp, bs)) =
      (Glob (star ∷ bp) bs → G)
      × (F → G → Glob (star ∷ bp) bs)
      × (F → Glob bp bs → Glob p s)
      × (F → IsPlain bs)
      × (length s ≤ length bs)
      × (length bs ≤ m)
      × (length bp < k)

  record Inv (f m : ℕ) (p : Bytes) (s : Bytes) (saved : Saved) : Type 0 where
    now : Glob p s → G
    later : F → G → Glob (star ∷ p) s
    keeps : Keeps m p s saved
    plain : F → IsPlain s
    text_bound : length s ≤ m
    pattern_bound : length p < k
    fuel : m * k + length p < f

  Inv-restart :
      {f m : ℕ} {p s : Bytes}
      → (Glob (star ∷ p) s → G)
      → (F → G → Glob (star ∷ p) s)
      → (F → IsPlain s)
      → length s ≤ m
      → length p < k
      → m * k + length p < f
      → Inv f m p s (some (p, s))
  Inv-restart sound complete plain hs hp hf = record {
    now = λ g. sound (stop refl g);
    later = complete;
    keeps = (sound, complete, λ _ g. g, plain, omega arith, hs, hp);
    plain = plain;
    text_bound = hs;
    pattern_bound = hp;
    fuel = hf;
  }

  Keeps-byte :
      (m : ℕ) (c d : ℕ) (p s : Bytes) (saved : Saved)
      → (F → c ≢ star)
      → Keeps m (c ∷ p) (d ∷ s) saved
      → Keeps m p s saved
  Keeps-byte m c d p s none n h = λ x g. (byte_inv (n x) (h x g)).1
  Keeps-byte m c d p s (some (bp, bs)) n (sound, complete, down, plain, shorter, hs, hp) =
      (sound, complete, λ x g. (byte_inv (n x) (down x g)).1, plain, omega arith, hs, hp)

  -- Equal bytes that may be stars match in any case; where the text is plain they are no stars.
  match_head : {c d : ℕ} {p s : Bytes} → c ≡ d → Glob p s → Glob (c ∷ p) (d ∷ s)
  match_head {c} e g = elim (Bool-cases (c == star)) [
    | inl h ↦ more (ground arith) (stop (ground arith) g)
    | inr h ↦ byte (ground arith) e g
  ]

  Inv-byte :
      {f m c d : ℕ} {p s : Bytes} {saved : Saved}
      → c ≡ d
      → Inv (suc f) m (c ∷ p) (d ∷ s) saved
      → Inv f m p s saved
  Inv-byte {m} {c} {d} {p} {s} {saved} e i =
      let n : F → c ≢ star = λ x h. (i.plain x).0 (ground arith) in
      record {
        now = λ g. i.now (match_head e g);
        later = λ x g. drop_byte s refl (n x) (i.later x g);
        keeps = Keeps-byte m c d p s saved n i.keeps;
        plain = λ x. (i.plain x).1;
        text_bound = omega arith;
        pattern_bound = omega arith;
        fuel = omega arith;
      }

  star_head : {c : ℕ} {p s : Bytes} → c ≡ star → Glob (star ∷ p) s → Glob (c ∷ p) s
  star_head {p} {s} e g = subst (λ (x : ℕ). Glob (x ∷ p) s) (sym e) g

  -- After a mismatch the saved star takes one byte more, which lowers `m` and pays for the pattern.
  retry-Answers :
      {f d : ℕ} {p s : Bytes} (m : ℕ) (saved : Saved) (next : Round)
      → ((m' : ℕ) (p' s' : Bytes) (b : Saved) → Inv f m' p' s' b → Answers F G (next p' s' b))
      → Inv (suc f) m p (d ∷ s) saved
      → (F → ¬ Glob p (d ∷ s))
      → Answers F G (retry saved next)
  unfolding retry
  retry-Answers m none next ih i fails = λ x g. fails x (i.keeps x g)
  retry-Answers m (some (bp, [])) next ih i fails = omega arith
  retry-Answers zero (some (bp, b ∷ bs)) next ih i fails = absurd (omega arith)
  retry-Answers (suc m) (some (bp, b ∷ bs)) next ih i fails =
      let (sound, complete, down, plain, _, _, _) = i.keeps in
      ih m bp bs (some (bp, bs)) (
        Inv-restart (λ g. sound (more refl g))
          (λ x g. must_take refl (complete x g) (λ h. fails x (down x h))) (λ x. (plain x).1)
          (omega arith) (omega arith) (omega arith))

  loop-Answers :
      (f m : ℕ) (p s : Bytes) (saved : Saved) → Inv f m p s saved → Answers F G (loop f p s saved)
  unfolding loop
  loop-Answers zero m p s saved i = omega arith
  loop-Answers (suc f) m p [] saved i =
      Answers-some F G (only_stars p) (λ h. i.now (only_stars-Glob p h))
        (λ x g. Glob-only_stars (star_at_end refl (i.later x g)))
  loop-Answers (suc f) m [] (d ∷ s) saved i =
      retry-Answers m saved (loop f) (loop-Answers f) i (λ x g. elim g [ ])
  loop-Answers (suc f) m (c ∷ p) (d ∷ s) saved i = elim (Bool-cases (c == d)) [
    | inl e ↦ rw e (loop-Answers f m p s saved (Inv-byte (ground arith) i))
    | inr e ↦ rw e (elim (Bool-cases (c == star)) [
      | inl h ↦
          let q : c ≡ star = ground arith in
          rw h (
            loop-Answers f m p (d ∷ s) (some (p, d ∷ s)) (
              Inv-restart (λ g. i.now (star_head q g))
                (λ x g. subst (λ (y : ℕ). Glob (y ∷ p) (d ∷ s)) q (two_stars refl q (i.later x g)))
                i.plain i.text_bound (omega arith) (omega arith)))
      | inr h ↦
          let n : c ≢ star = ground arith in
          let m' : c ≢ d = ground arith in
          rw h (retry-Answers m saved (loop f) (loop-Answers f) i (λ x g. m' (byte_inv n g).0))
    ])
  ]

-- The matcher stops within its fuel. If it answers true the text matches, and if it answers false a
-- text without a star does not match.
pub glob_match-Answers :
    (pat text : Bytes) → Answers (IsPlain text) (Glob pat text) (glob_match pat text)
unfolding glob_match
glob_match-Answers pat text = rw (glob_loop-loop _ pat text 0 0 none (omega arith) tt) (
    loop-Answers (IsPlain text) (Glob pat text) (length pat + 1) _ (length text) pat text none
      (record {
        now = λ g. g;
        later = λ _ g. stop refl g;
        keeps = λ _ g. g;
        plain = λ x. x;
        text_bound = omega arith;
        pattern_bound = omega arith;
        fuel = grind arith;
      }))

Answers-iff : (F G : Type 0) (r : Option Bool) → Answers F G r → F → (r ≡ some true) ↔ G
Answers-iff F G none h x = absurd h
Answers-iff F G (some true) h x = (λ _. h, λ _. refl)
Answers-iff F G (some false) h x = (λ e. cc, λ g. absurd (h x g))

-- On a text without a `*` the matcher answers true exactly if the text matches the pattern.
pub glob_match_iff :
    (pat text : Bytes) → IsPlain text → (glob_match pat text ≡ some true) ↔ Glob pat text
glob_match_iff pat text = Answers-iff _ _ _ (glob_match-Answers pat text)
