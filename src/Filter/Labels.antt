-- ===== src/Filter/Labels.antt =====
-- Names as dot-separated labels: `reverse_labels_into` and the label-boundary loops of
-- crates/filter/src/engine.rs.
pub mod Join
pub mod Under
pub mod Reversed
pub mod Boundaries
use mathlib.Core.List.{reverse}
use sumidero.Prelude.{
  ℕ, suc, ◌+◌, Option, none, some, List, [], ◌∷◌, ◌++◌, Bytes, length, drop, ltb, leb, ◌==◌,
  if◌then◌else◌, split, find,
}

abbrev pub dot : ℕ
dot = b'.'

-- The bytes behind the first dot: `&rest[rest.find('.')? + 1..]`.
unfoldable pub after_dot : Bytes → Option Bytes
after_dot rest = elim (find dot rest) [ none ↦ none | some i ↦ some (drop (i + 1) rest) ]

-- The loop over the labels from the last to the first; `out` is what is written so far.
unfoldable pub write_labels : Bytes → List Bytes → Bytes
write_labels out [] = out
write_labels out (label ∷ labels) =
    write_labels ((if ltb 0 (length out) then out ++ dot ∷ [] else out) ++ label) labels

-- `reverse_labels_into` a buffer of 256 bytes: a write behind its end panics.
unfoldable pub reverse_labels_into : Bytes → Option Bytes
unfolding write_labels
reverse_labels_into domain =
    let out = write_labels [] (reverse (split dot domain)) in
    if leb (length out) 256 then some out else none

-- The positions of the dots, counted from `i`.
unfoldable pub dots_from : ℕ → Bytes → List ℕ
dots_from i [] = []
dots_from i (b ∷ s) = if b == dot then i ∷ dots_from (i + 1) s else dots_from (i + 1) s

-- The ends of the label-boundary prefixes.
unfoldable pub boundaries : Bytes → List ℕ
unfolding dots_from
boundaries rev = dots_from 0 rev ++ length rev ∷ []
