-- ===== src/Filter/Domain.antt =====
-- `normalize_domain` and `normalize_wildcard` of crates/filter/src/parse.rs.
pub mod Normal
use sumidero.Prelude.{
  ℕ, Bool, true, false, not, ◌&&◌, ◌||◌, Option, none, some, List, [], ◌∷◌, Bytes, codes, length,
  leb, ltb, ◌==◌, if◌then◌else◌, all, any, split, starts_with, ends_with, strip_suffix, or_self,
  contains_byte, is_ascii_uppercase, is_ascii_lowercase, is_ascii_digit, to_ascii_lowercase,
}
use sumidero.Filter.Labels.{dot}
use sumidero.Filter.Glob.{star}

abbrev pub hyphen : ℕ
hyphen = b'-'

-- Strip one trailing dot and lowercase.
unfoldable pub lower_strip : Bytes → Bytes
lower_strip s =
    let bare = or_self (strip_suffix dot s) s in
    if any is_ascii_uppercase bare then to_ascii_lowercase bare else bare

abbrev pub is_name_byte : ℕ → Bool
is_name_byte b = is_ascii_lowercase b || is_ascii_digit b || b == hyphen || b == b'_'

abbrev pub is_hyphen_bounded : Bytes → Bool
is_hyphen_bounded label = starts_with (hyphen ∷ []) label || ends_with hyphen label

-- A label passes the loop of `normalize_domain`.
unfoldable pub is_label : Bytes → Bool
is_label label =
    if leb (length label) 0 || ltb 63 (length label)
    then false
    else if is_hyphen_bounded label
    then false
    else all is_name_byte label

unfoldable pub normalize_domain : Bytes → Option Bytes
unfolding lower_strip is_label
normalize_domain s =
    let d = lower_strip s in
    if leb (length d) 0 || ltb 253 (length d)
    then none
    else if all is_label (split dot d)
    then some d
    else none

-- A segment passes the loop of `normalize_wildcard`.
unfoldable pub is_segment : Bytes → Bool
is_segment segment =
    if contains_byte star segment
    then true
    else not (leb (length segment) 0 || ltb 63 (length segment) || is_hyphen_bounded segment)

unfoldable pub normalize_wildcard : Bytes → Option Bytes
unfolding lower_strip is_segment
normalize_wildcard s =
    let e = lower_strip s in
    let alphanumeric =
      any (λ b. is_ascii_lowercase b || is_ascii_uppercase b || is_ascii_digit b) e in
    if leb (length e) 0 || ltb 253 (length e) || not alphanumeric
    then none
    else if not (all (λ b. is_name_byte b || b == dot || b == star) e)
    then none
    else if all is_segment (split dot e)
    then some e
    else none
