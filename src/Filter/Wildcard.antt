-- ===== src/Filter/Wildcard.antt =====
-- `wildcard_matches` and `wildcard_anchor` of crates/filter/src/engine.rs.
pub mod Covers
pub mod Anchor
use sumidero.Prelude.{
  ℕ, zero, suc, ◌+◌, Bool, true, false, Option, none, some, [], ◌∷◌, Bytes, length, drop, rfind,
  if◌then◌else◌, ◌>>=◌,
}
use sumidero.Filter.Glob.{star, glob_match}
use sumidero.Filter.Labels.{after_dot}

-- The answer of `glob_match`, which always gives one.
unfoldable pub is_match : Bytes → Bytes → Bool
unfolding glob_match
is_match expr text = elim (glob_match expr text) [ none ↦ false | some b ↦ b ]

-- `while let Some(dot) = rest.find('.')`, on at most `n` rounds.
unfoldable pub match_parents : ℕ → Bytes → Bytes → Bool
match_parents zero expr rest = false
match_parents (suc n) expr rest = elim (after_dot rest) [
  | none ↦ false
  | some r ↦ if is_match expr r then true else match_parents n expr r
]

unfoldable pub wildcard_matches : Bytes → Bytes → Bool → Bool
unfolding is_match match_parents after_dot
wildcard_matches expr name include_subdomains =
    if is_match expr name
    then true
    else if include_subdomains
    then match_parents (length name) expr name
    else false

nonempty : Bytes → Option Bytes
nonempty [] = none
nonempty (b ∷ s) = some (b ∷ s)

-- The complete labels behind the last `*`.
unfoldable pub wildcard_anchor : Bytes → Option Bytes
unfolding after_dot nonempty
wildcard_anchor expr = do
  i ← rfind star expr
  anchor ← after_dot (drop (i + 1) expr)
  nonempty anchor
