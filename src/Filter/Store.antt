-- ===== src/Filter/Store.antt =====
-- `Store` of crates/filter/src/engine.rs: per-rule metadata in parallel arrays, by rule id.
pub mod Pushed
pub mod Strings
use sumidero.Prelude.{
  ℕ, zero, suc, ◌+◌, ◌*◌, ◌/◌, ◌%◌, min, Bool, true, false, not, ◌||◌, Option, none, some, List, [],
  ◌∷◌, ◌++◌, Bytes, length, get_elem?, get_or, set, ltb, leb, ◌==◌, if◌then◌else◌, expect, ◌>>=◌,
  ◌>>◌,
}
use sumidero.Filter.Index.{u32_size}

pub record Store : Type 0 where
  pub lists : List ℕ
  pub lines : List ℕ
  pub flags : List ℕ
  pub span_off : List ℕ
  pub span_len : List ℕ
  pub verbatim : Bytes

abbrev pub empty : Store
empty = record { lists = []; lines = []; flags = []; span_off = []; span_len = []; verbatim = [] }

-- The text forms.
abbrev pub form_verbatim : ℕ
form_verbatim = 0

abbrev pub form_subtree : ℕ
form_subtree = 1

abbrev pub form_exact : ℕ
form_exact = 2

abbrev pub form_exact_caret : ℕ
form_exact_caret = 3

abbrev pub form_hosts_zero : ℕ
form_hosts_zero = 4

-- `u8::from(except) | (form << FORM_SHIFT)`: bit 0 and bits 1 to 3.
abbrev pub flag_bits : Bool → ℕ → ℕ
flag_bits except form = (if except then 1 else 0) + 2 * form

-- The new rule's id is the number of rules before it.
unfoldable pub push : Store → ℕ → ℕ → Bool → ℕ → Option (Store × ℕ)
push s list line except form = do
  let id = length s.lines
  expect (ltb id u32_size)
  some (
    record s {
      lists = s.lists ++ list ∷ [];
      lines = s.lines ++ line ∷ [];
      flags = s.flags ++ flag_bits except form ∷ [];
      span_off = s.span_off ++ 0 ∷ [];
      span_len = s.span_len ++ 0 ∷ [];
    },
    id,
  )

unfoldable pub set_span : Store → ℕ → ℕ → ℕ → Option Store
set_span s id off len = do
  expect (ltb len 256)
  some (record s { span_off = set s.span_off id off; span_len = set s.span_len id len })

-- `text.is_char_boundary(l)`: an end of the text, or a byte that continues no character.
abbrev pub is_char_boundary : Bytes → ℕ → Bool
is_char_boundary text l =
    if l == 0
    then true
    else elim (get_elem? text l) [ none ↦ l == length text | some b ↦ ltb b 0x80 || leb 0xc0 b ]

-- `(0..=len).rev().find(..).unwrap_or(0)`
unfoldable pub last_boundary : Bytes → ℕ → ℕ
last_boundary text zero = 0
last_boundary text (suc l) =
    let below = last_boundary text l in if is_char_boundary text (suc l) then suc l else below

unfoldable pub push_verbatim : Store → ℕ → Bytes → Option Store
unfolding last_boundary set_span
push_verbatim s id text = do
  let off = length s.verbatim
  expect (ltb off u32_size)
  set_span (record s { verbatim = s.verbatim ++ text }) id off
      (last_boundary text (min (length text) 255))

-- `flags[id] & FLAG_EXCEPT != 0`
unfoldable pub is_except : Store → ℕ → Bool
is_except s id = not (get_or s.flags id 0 % 2 == 0)

-- `flags[id] >> FORM_SHIFT`
unfoldable pub form : Store → ℕ → ℕ
form s id = get_or s.flags id 0 / 2
