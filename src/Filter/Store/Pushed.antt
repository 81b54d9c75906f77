-- ===== src/Filter/Store/Pushed.antt =====
-- A rule pushed to the store, and its text kept there: what changes and that neither panics while
-- there is room.
use sumidero.Prelude.{
  ℕ, zero, suc, ◌+◌, ◌%◌, ◌≤◌, ◌<◌, min, ◌≡◌, refl, inl, inr, Bool, true, false, not, some, [], ◌∷◌,
  ◌++◌, Bytes, Bool-cases, length, length-append, set, lt→ltb, ◌==◌, arith,
}
use sumidero.Filter.Index.{u32_size}
use sumidero.Filter.Store.{
  Store, flag_bits, push, set_span, is_char_boundary, last_boundary, push_verbatim,
}

abbrev pub pushed : Store → ℕ → ℕ → Bool → ℕ → Store
pushed s list line except form = record s {
  lists = s.lists ++ list ∷ [];
  lines = s.lines ++ line ∷ [];
  flags = s.flags ++ flag_bits except form ∷ [];
  span_off = s.span_off ++ 0 ∷ [];
  span_len = s.span_len ++ 0 ∷ [];
}

pub push-pushed :
    (s : Store) (list line : ℕ) (except : Bool) (form : ℕ)
    → length s.lines < u32_size
    → push s list line except form ≡ some (pushed s list line except form, length s.lines)
unfolding push
push-pushed s list line except form h = rw (lt→ltb _ _ h)

-- The lowest bit of the flags is the exception mark, whatever the form.
pub flag_bits-except : (except : Bool) (form : ℕ) → not (flag_bits except form % 2 == 0) ≡ except
flag_bits-except true form = ground arith
flag_bits-except false form = ground arith

pub last_boundary-le : (text : Bytes) (l : ℕ) → last_boundary text l ≤ l
unfolding last_boundary
last_boundary-le text zero = omega arith
last_boundary-le text (suc l) = elim (Bool-cases (is_char_boundary text (suc l))) [
  | inl h ↦ rw h (omega arith)
  | inr h ↦ rw h (omega (arith, last_boundary-le text l))
]

-- What stays when a text is kept.
pub record Keeps (s s' : Store) (n : ℕ) : Type 0 where
  pub lists : s'.lists ≡ s.lists
  pub lines : s'.lines ≡ s.lines
  pub flags : s'.flags ≡ s.flags
  pub grows : length s'.verbatim ≤ length s.verbatim + n

pub push_verbatim-Keeps :
    (s : Store) (id : ℕ) (text : Bytes)
    → length s.verbatim < u32_size
    → (s' : Store) × (push_verbatim s id text ≡ some s') × Keeps s s' (length text)
unfolding push_verbatim set_span
push_verbatim-Keeps s id text h =
    let short : last_boundary text (min (length text) 255) < 256 =
      omega (arith, last_boundary-le text (min (length text) 255)) in
    let len = last_boundary text (min (length text) 255) in
    let s' : Store = record s {
      verbatim = s.verbatim ++ text;
      span_off = set s.span_off id (length s.verbatim);
      span_len = set s.span_len id len;
    } in
    (
      s',
      rw (lt→ltb _ _ h, lt→ltb _ _ short),
      record {
        lists = refl;
        lines = refl;
        flags = refl;
        grows = omega (arith, length-append {0} s.verbatim text);
      },
    )
