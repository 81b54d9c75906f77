-- ===== src/Filter/Index/Insert.antt =====
-- What an insertion adds to an index, and that it keeps the index well formed.
use native.Mathlib.Decide.{dec_lt}
use sumidero.Prelude.{
  ℕ, ◌+◌, ◌≤◌, ◌<◌, ◌≡◌, sym, ap, ap₂, ◌∙◌, ◌⊎◌, ◌↔◌, inl, inr, [], ◌∷◌, ◌++◌, some, Bytes, length,
  length-append, take, drop, drop-append, drop-append_left, take-append_left, take_of_length-le,
  length-drop, get_or, get_or-append_left, get_or-append_last, lt→ltb, arith,
}
use sumidero.Filter.Index.{KeyIndex, insert, key, rule_at, slice, u32_size}
use sumidero.Filter.Index.Lookup.{Holds}

-- The columns have one length, and every key lies in the arena.
pub record IsFormed (ix : KeyIndex) : Type 0 where
  pub offs : length ix.offs ≡ length ix.rules
  pub lens : length ix.lens ≡ length ix.rules
  pub in_arena :
      (i : ℕ) → i < length ix.rules → get_or ix.offs i 0 + get_or ix.lens i 0 ≤ length ix.arena

-- What `insert` returns when its checks pass.
abbrev pub inserted : KeyIndex → Bytes → ℕ → KeyIndex
inserted ix k rule = record {
  arena = ix.arena ++ k;
  offs = ix.offs ++ length ix.arena ∷ [];
  lens = ix.lens ++ length k ∷ [];
  rules = ix.rules ++ rule ∷ [];
}

-- `insert` fails exactly where an offset leaves 32 bits or the key has more than 255 bytes.
pub insert-inserted :
    (ix : KeyIndex) (k : Bytes) (rule : ℕ)
    → length ix.arena < u32_size
    → length k < 256
    → insert ix k rule ≡ some (inserted ix k rule)
unfolding insert
insert-inserted ix k rule h l = rw (lt→ltb _ _ h, lt→ltb _ _ l)

pub insert-eq-some :
    (ix : KeyIndex) (k : Bytes) (rule : ℕ) {ix' : KeyIndex}
    → insert ix k rule ≡ some ix'
    → (inserted ix k rule ≡ ix') × (length k < 256)
unfolding insert
insert-eq-some ix k rule h = ground arith

pub slice-append_left :
    (off n : ℕ) (s t : Bytes) → off + n ≤ length s → slice off n (s ++ t) ≡ slice off n s
slice-append_left off n s t h =
    ap (take n) (drop-append_left off s t (omega arith))
    ∙ take-append_left n (drop off s) t (omega (arith, length-drop off s))

pub slice-append_right : (s t : Bytes) → slice (length s) (length t) (s ++ t) ≡ t
slice-append_right s t =
    ap (take (length t)) (drop-append s t) ∙ take_of_length-le _ t (omega arith)

module _ (ix : KeyIndex) (formed : IsFormed ix) (k : Bytes) (rule : ℕ) where
  abbrev n : ℕ
  n = length ix.rules

  off_old : (i : ℕ) → i < n → get_or (inserted ix k rule).offs i 0 ≡ get_or ix.offs i 0
  off_old i h = get_or-append_left ix.offs _ i 0 (omega (arith, formed.offs))

  len_old : (i : ℕ) → i < n → get_or (inserted ix k rule).lens i 0 ≡ get_or ix.lens i 0
  len_old i h = get_or-append_left ix.lens _ i 0 (omega (arith, formed.lens))

  off_new : get_or (inserted ix k rule).offs n 0 ≡ length ix.arena
  off_new =
      ap (λ m. get_or (inserted ix k rule).offs m 0) (sym formed.offs)
      ∙ get_or-append_last ix.offs _ 0

  len_new : get_or (inserted ix k rule).lens n 0 ≡ length k
  len_new =
      ap (λ m. get_or (inserted ix k rule).lens m 0) (sym formed.lens)
      ∙ get_or-append_last ix.lens _ 0

  key-inserted_old : (i : ℕ) → i < n → key (inserted ix k rule) i ≡ key ix i
  unfolding key
  key-inserted_old i h =
      ap₂ (λ a b. slice a b (ix.arena ++ k)) (off_old i h) (len_old i h)
      ∙ slice-append_left _ _ ix.arena k (formed.in_arena i h)

  key-inserted_new : key (inserted ix k rule) n ≡ k
  unfolding key
  key-inserted_new =
      ap₂ (λ a b. slice a b (ix.arena ++ k)) off_new len_new ∙ slice-append_right ix.arena k

  length_rules : length (inserted ix k rule).rules ≡ n + 1
  length_rules = omega (arith, length-append {0} ix.rules (rule ∷ []))

  pub inserted-IsFormed : IsFormed (inserted ix k rule)
  inserted-IsFormed = record {
    offs =
        omega (arith, formed.offs, length_rules, length-append {0} ix.offs (length ix.arena ∷ []));
    lens = omega (arith, formed.lens, length_rules, length-append {0} ix.lens (length k ∷ []));
    in_arena = λ i h. elim (dec_lt i n) [
      | yes old ↦
          omega (
            arith,
            off_old i old,
            len_old i old,
            formed.in_arena i old,
            length-append {0} ix.arena k,
          )
      | no new ↦
          let e : i ≡ n = omega (arith, length_rules) in
          rw e (omega (arith, off_new, len_new, length-append {0} ix.arena k))
    ];
  }

  -- An insertion adds its pair, and nothing else.
  pub Holds-inserted :
      (k' : Bytes) (r : ℕ)
      → Holds (inserted ix k rule) k' r ↔ (Holds ix k' r ⊎ ((k ≡ k') × (rule ≡ r)))
  Holds-inserted k' r = (forth, back)
    where
      forth : Holds (inserted ix k rule) k' r → Holds ix k' r ⊎ ((k ≡ k') × (rule ≡ r))
      forth (i, lt, e, f) = elim (dec_lt i n) [
        | yes old ↦ inl (
          i,
          old,
          sym (key-inserted_old i old) ∙ e,
          sym (get_or-append_left ix.rules _ i 0 old) ∙ f,
        )
        | no new ↦
            let q : n ≡ i = omega (arith, length_rules) in
            inr (
              sym key-inserted_new ∙ ap (key (inserted ix k rule)) q ∙ e,
              sym (get_or-append_last ix.rules rule 0) ∙ ap (rule_at (inserted ix k rule)) q ∙ f,
            )
      ]

      back : Holds ix k' r ⊎ ((k ≡ k') × (rule ≡ r)) → Holds (inserted ix k rule) k' r
      back (inl (i, lt, e, f)) = (
        i,
        omega (arith, length_rules),
        key-inserted_old i lt ∙ e,
        get_or-append_left ix.rules _ i 0 lt ∙ f,
      )
      back (inr (e, f)) = (
        n,
        omega (arith, length_rules),
        key-inserted_new ∙ e,
        get_or-append_last ix.rules rule 0 ∙ f,
      )
