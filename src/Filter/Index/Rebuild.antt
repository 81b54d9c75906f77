-- ===== src/Filter/Index/Rebuild.antt =====
-- The loop that rebuilds an index in a given order keeps every key with its rule, and does not panic
-- while the keys fit in 32 bits.
use sumidero.Prelude.{
  ℕ, zero, suc, ◌+◌, ◌≤◌, ◌<◌, ◌≡◌, refl, sym, ap, ◌∙◌, inl, inr, List, [], ◌∷◌, ◌++◌, append-nil,
  append_assoc, Option, none, some, Bytes, Bool-cases, All, length, length-append, length-take,
  length-drop, drop, get_or, lt→ltb, bytes_eq, bytes_eq_iff, arith,
}
use sumidero.Filter.Index.{KeyIndex, key, rule_at, slice, u32_size, place, rebuild}
use sumidero.Filter.Index.Insert.{IsFormed, slice-append_left, slice-append_right}
use sumidero.Filter.Index.Sort.{sum_of}

abbrev pub len_at : KeyIndex → ℕ → ℕ
len_at ix i = get_or ix.lens i 0

abbrev pub off_at : KeyIndex → ℕ → ℕ
off_at ix i = get_or ix.offs i 0

-- Entry `j` of `st` holds what entry `rest[j]` of `ix` holds.
pub record Mirrors (ix : KeyIndex) (rest : List ℕ) (arena : Bytes) (st : KeyIndex) : Type 0 where
  pub more : (ext : Bytes) × (st.arena ≡ arena ++ ext)
  pub offs : length st.offs ≡ length rest
  pub lens : length st.lens ≡ length rest
  pub rules : length st.rules ≡ length rest
  pub in_arena : (j : ℕ) → j < length rest → off_at st j + len_at st j ≤ length st.arena
  pub keys : (j : ℕ) → j < length rest → key st j ≡ key ix (get_or rest j 0)
  pub same_rule : (j : ℕ) → j < length rest → rule_at st j ≡ rule_at ix (get_or rest j 0)
  pub same_len : (j : ℕ) → j < length rest → len_at st j ≡ len_at ix (get_or rest j 0)

get_or_of_drop : (n : ℕ) (xs : List ℕ) (x : ℕ) (r : List ℕ) → drop n xs ≡ x ∷ r → get_or xs n 0 ≡ x
get_or_of_drop zero [] x r h = absurd (ground arith)
get_or_of_drop zero (y ∷ xs) x r h = ground arith
get_or_of_drop (suc n) [] x r h = absurd (ground arith)
get_or_of_drop (suc n) (y ∷ xs) x r h = get_or_of_drop n xs x r h

drop_tail : (n : ℕ) (xs : List ℕ) (x : ℕ) (r : List ℕ) → drop n xs ≡ x ∷ r → drop (n + 1) xs ≡ r
drop_tail zero [] x r h = absurd (ground arith)
drop_tail zero (y ∷ xs) x r h = ground arith
drop_tail (suc n) [] x r h = absurd (ground arith)
drop_tail (suc n) (y ∷ xs) x r h = ground (arith, drop_tail n xs x r h)

module _ (ix : KeyIndex) (formed : IsFormed ix) (order : List ℕ) where
  length-key : (i : ℕ) → i < length ix.rules → length (key ix i) ≡ len_at ix i
  unfolding key
  length-key i h = omega (
    arith,
    formed.in_arena i h,
    length-take {0} (len_at ix i) (drop (off_at ix i) ix.arena),
    length-drop {0} (off_at ix i) ix.arena,
  )

  -- The last distinct key lies in the new arena.
  abbrev pub IsPlaced : Bytes → Option (ℕ × ℕ) → Type 0
  IsPlaced arena none = Unit
  IsPlaced arena (some (p, off)) =
      (off + length (key ix (get_or order p 0)) ≤ length arena)
      × (slice off (length (key ix (get_or order p 0))) arena ≡ key ix (get_or order p 0))

  -- The outcome of `place`: the key of `i` at the offset, in an arena that extends the old one.
  record Placed (i : ℕ) (arena : Bytes) (off : ℕ) (arena' : Bytes) (prev' : Option (ℕ × ℕ))
      : Type 0 where
    more : (ext : Bytes) × (arena' ≡ arena ++ ext)
    fits : off + length (key ix i) ≤ length arena'
    found : slice off (length (key ix i)) arena' ≡ key ix i
    budget : length arena' ≤ length arena + length (key ix i)
    placed : IsPlaced arena' prev'

  place-fresh :
      (pos i : ℕ) (arena : Bytes)
      → get_or order pos 0 ≡ i
      → Placed i arena (length arena) (arena ++ key ix i) (some (pos, length arena))
  place-fresh pos i arena e = record {
    more = (key ix i, refl);
    fits = omega (arith, length-append {0} arena (key ix i));
    found = slice-append_right arena (key ix i);
    budget = omega (arith, length-append {0} arena (key ix i));
    placed =
        rw e
          (omega (arith, length-append {0} arena (key ix i)), slice-append_right arena (key ix i));
  }

  place-Placed :
      (pos i : ℕ) (arena : Bytes) (prev : Option (ℕ × ℕ))
      → get_or order pos 0 ≡ i
      → length arena < u32_size
      → IsPlaced arena prev
      → (off : ℕ) × (arena' : Bytes) × (prev' : Option (ℕ × ℕ)) × (place ix order pos i arena prev
          ≡ some (off, arena', prev'))
        × Placed i arena off arena' prev'
  unfolding place
  place-Placed pos i arena none e h p = (
    length arena,
    arena ++ key ix i,
    some (pos, length arena),
    rw (lt→ltb _ _ h),
    place-fresh pos i arena e,
  )
  place-Placed pos i arena (some (q, off)) e h p =
      elim (Bool-cases (bytes_eq (key ix (get_or order q 0)) (key ix i))) [
        | inl same ↦
            let k : key ix (get_or order q 0) ≡ key ix i = (bytes_eq_iff _ _).0 same in
            (
              off,
              arena,
              some (q, off),
              rw same,
              record {
                more = ([], sym (append-nil arena));
                fits = rw k at p.0;
                found = rw k at p.1;
                budget = omega arith;
                placed = p;
              },
            )
        | inr other ↦ (
          length arena,
          arena ++ key ix i,
          some (pos, length arena),
          rw (other, lt→ltb _ _ h),
          place-fresh pos i arena e,
        )
      ]

  -- The first entry, and the entries that the rest of the loop pushes.
  abbrev pushed : ℕ → ℕ → KeyIndex → KeyIndex
  pushed i off tail = record {
    arena = tail.arena;
    offs = off ∷ tail.offs;
    lens = len_at ix i ∷ tail.lens;
    rules = rule_at ix i ∷ tail.rules;
  }

  Mirrors-cons :
      (i off : ℕ) (rest : List ℕ) (arena arena' : Bytes) (prev' : Option (ℕ × ℕ)) (tail : KeyIndex)
      → i < length ix.rules
      → Placed i arena off arena' prev'
      → Mirrors ix rest arena' tail
      → Mirrors ix (i ∷ rest) arena (pushed i off tail)
  unfolding key
  Mirrors-cons i off rest arena arena' prev' tail lt p m = record {
    more = (
      p.more.0 ++ m.more.0,
      m.more.1 ∙ ap (λ x. x ++ m.more.0) p.more.1 ∙ append_assoc arena p.more.0 m.more.0,
    );
    offs = ap suc m.offs;
    lens = ap suc m.lens;
    rules = ap suc m.rules;
    in_arena = elim [
      | zero ↦ λ _. omega (arith, p.fits, length-key i lt, inside)
      | suc j ↦ λ h. m.in_arena j (omega arith)
    ];
    keys = elim [ zero ↦ λ _. head_key | suc j ↦ λ h. m.keys j (omega arith) ];
    same_rule = elim [ zero ↦ λ _. refl | suc j ↦ λ h. m.same_rule j (omega arith) ];
    same_len = elim [ zero ↦ λ _. refl | suc j ↦ λ h. m.same_len j (omega arith) ];
  }
    where
      inside : length arena' ≤ length tail.arena
      inside = omega (arith, ap (length {A = ℕ}) m.more.1, length-append {0} arena' m.more.0)

      head_key : slice off (len_at ix i) tail.arena ≡ key ix i
      head_key =
          ap (λ (n : ℕ). slice off n tail.arena) (sym (length-key i lt))
          ∙ ap (slice off (length (key ix i))) m.more.1
          ∙ slice-append_left off (length (key ix i)) arena' m.more.0 p.fits
          ∙ p.found

  -- The loop from position `pos` on.
  pub rebuild-Mirrors :
      (rest : List ℕ) (pos : ℕ) (arena : Bytes) (prev : Option (ℕ × ℕ))
      → drop pos order ≡ rest
      → All (λ i. i < length ix.rules) rest
      → length arena + sum_of (len_at ix) rest < u32_size
      → IsPlaced arena prev
      → (st : KeyIndex) × (rebuild ix order pos rest arena prev ≡ some st)
        × Mirrors ix rest arena st
  unfolding rebuild
  rebuild-Mirrors [] pos arena prev e below budget p = (
    _,
    refl,
    record {
      more = ([], sym (append-nil arena));
      offs = refl;
      lens = refl;
      rules = refl;
      in_arena = λ j h. elim h [ ];
      keys = λ j h. elim h [ ];
      same_rule = λ j h. elim h [ ];
      same_len = λ j h. elim h [ ];
    },
  )
  rebuild-Mirrors (i ∷ rest) pos arena prev e below budget p =
      let here : get_or order pos 0 ≡ i = get_or_of_drop pos order i rest e in
      let (off, arena', prev', done, placed) = place-Placed pos i arena prev here (omega arith) p in
      let (tail, ran, m) =
        rebuild-Mirrors rest (pos + 1) arena' prev' (drop_tail pos order i rest e) below.1
          (omega (arith, placed.budget, length-key i below.0)) placed.placed in
      (
        pushed i off tail,
        rw (done, ran),
        Mirrors-cons i off rest arena arena' prev' tail below.0 placed m,
      )
