-- ===== src/Filter/Spaces.antt =====
-- Lines and white space of UTF-8 texts, as crates/filter/src/parse.rs takes them from `str`.
use mathlib.Core.List.{reverse}
use sumidero.Prelude.{
  ℕ, zero, suc, Bool, ◌&&◌, ◌||◌, List, [], ◌∷◌, Bytes, length, leb, ◌==◌, if◌then◌else◌, drop,
  starts_with,
}

-- `\t` to `\r`, and the blank.
abbrev pub is_ascii_space : ℕ → Bool
is_ascii_space b = (leb 9 b && leb b 13) || b == 32

-- U+0085 and U+00A0.
abbrev pub is_space_2 : ℕ → ℕ → Bool
is_space_2 a b = a == 0xc2 && (b == 0x85 || b == 0xa0)

-- U+1680, U+2000 to U+200A, U+2028, U+2029, U+202F, U+205F and U+3000.
abbrev pub is_space_3 : ℕ → ℕ → ℕ → Bool
is_space_3 a b c =
    (a == 0xe1 && b == 0x9a && c == 0x80)
    || (a == 0xe2
        && b == 0x80
        && ((leb 0x80 c && leb c 0x8a) || c == 0xa8 || c == 0xa9 || c == 0xaf))
    || (a == 0xe2 && b == 0x81 && c == 0x9f)
    || (a == 0xe3 && b == 0x80 && c == 0x80)

-- The bytes of the white space character that a text starts with, and 0 for another start.
abbrev pub space_width : Bytes → ℕ
space_width [] = 0
space_width (a ∷ []) = if is_ascii_space a then 1 else 0
space_width (a ∷ b ∷ []) = if is_ascii_space a then 1 else if is_space_2 a b then 2 else 0
space_width (a ∷ b ∷ c ∷ s) =
    if is_ascii_space a then 1 else if is_space_2 a b then 2 else if is_space_3 a b c then 3 else 0

-- The same for the end of a text, which is given from its last byte on.
abbrev pub space_width_back : Bytes → ℕ
space_width_back [] = 0
space_width_back (a ∷ []) = if is_ascii_space a then 1 else 0
space_width_back (b ∷ a ∷ []) = if is_ascii_space b then 1 else if is_space_2 a b then 2 else 0
space_width_back (c ∷ b ∷ a ∷ s) =
    if is_ascii_space c then 1 else if is_space_2 b c then 2 else if is_space_3 a b c then 3 else 0

-- Takes white space off the front, at most `n` characters of it.
unfoldable pub skip_spaces : (Bytes → ℕ) → ℕ → Bytes → Bytes
skip_spaces width zero s = s
skip_spaces width (suc n) s =
    let rest = skip_spaces width n (drop (width s) s) in if width s == 0 then s else rest

-- `s.trim()`
unfoldable pub trim : Bytes → Bytes
unfolding skip_spaces
trim s =
    let front = skip_spaces space_width (length s) s in
    reverse (skip_spaces space_width_back (length front) (reverse front))

-- `s.split_whitespace()`: the runs of other characters. `skip` counts the bytes that still belong to
-- a white space character; `word` is the run so far, from its end.
abbrev pub add_word : Bytes → List Bytes → List Bytes
add_word [] words = words
add_word (b ∷ w) words = reverse (b ∷ w) ∷ words

unfoldable pub words_from : ℕ → Bytes → Bytes → List Bytes
words_from skip word [] = add_word word []
words_from (suc skip) word (b ∷ s) = words_from skip word s
words_from zero word (b ∷ s) =
    let next = words_from zero (b ∷ word) s in
    let after_1 = words_from 0 [] s in
    let after_2 = words_from 1 [] s in
    let after_3 = words_from 2 [] s in
    let width = space_width (b ∷ s) in
    if width == 0
    then next
    else add_word word (if width == 1 then after_1 else if width == 2 then after_2 else after_3)

unfoldable pub split_whitespace : Bytes → List Bytes
unfolding words_from
split_whitespace s = words_from 0 [] s

-- `s.lines()`: a line ends in `\n` or `\r\n`, and the last one needs no end.
unfoldable pub lines : Bytes → List Bytes
lines [] = []
lines (b ∷ s) =
    let rest = lines s in
    let joined : List Bytes = elim rest [ [] ↦ (b ∷ []) ∷ [] | l ∷ ls ↦ (b ∷ l) ∷ ls ] in
    if b == 10 then [] ∷ rest else if b == 13 && starts_with (10 ∷ []) s then rest else joined
