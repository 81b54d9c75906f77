-- ===== src/Filter/Tests/Names.antt =====
-- Names, globs, labels and indexes, and the theorems about them at small inputs.
use sumidero.Prelude.{
  ℕ, ◌+◌, ◌≡◌, ◌≤◌, ◌<◌, ◌↔◌, refl, ◌∷◌, [], true, false, some, Bytes, codes, Elem, length, ltb,
  arith, take, zero, suc, get_or,
}
use sumidero.Filter.Glob.{glob_match}
use sumidero.Filter.Glob.Relation.{Glob, IsPlain}
use sumidero.Filter.Glob.Correct.{glob_match_iff, glob_match-Answers, Answers}
use sumidero.Filter.Labels.{boundaries, reverse_labels_into}
use sumidero.Filter.Labels.Under.{parents}
use sumidero.Filter.Labels.Reversed.{AtBoundary, reversed, reverse_labels_into-reversed}
use sumidero.Filter.Labels.Boundaries.{boundaries-AtBoundary}
use sumidero.Filter.Wildcard.{wildcard_matches, wildcard_anchor}
use sumidero.Filter.Wildcard.Covers.{Covers, wildcard_matches-Covers, Covers-wildcard_matches}
use sumidero.Filter.Wildcard.Anchor.{Covers-anchor}
use sumidero.Filter.Index.{KeyIndex, partition_point, equal_range, finish, key}
use sumidero.Filter.Index.Order.{bytes_lt_irrefl}
use sumidero.Filter.Index.Partition.{Splits, partition_point-Splits}
use sumidero.Filter.Index.Lookup.{Holds, IsOrdered, equal_range_iff}
use sumidero.Filter.Index.Insert.{IsFormed}
use sumidero.Filter.Index.Insertion.{insertion}
use sumidero.Filter.Index.Finish.{finish-Holds}

abbrev host : Bytes
host = codes "a.tx.io"

abbrev pattern : Bytes
pattern = codes "t*.io"

host-IsPlain : IsPlain host
host-IsPlain = ground arith

glob_match_iff_example : (glob_match pattern host ≡ some true) ↔ Glob pattern host
glob_match_iff_example = glob_match_iff pattern host host-IsPlain

glob_match-Answers_example :
    Answers
      (IsPlain (codes "*ba"))
      (Glob (codes "*a") (codes "*ba"))
      (glob_match (codes "*a") (codes "*ba"))
glob_match-Answers_example = glob_match-Answers (codes "*a") (codes "*ba")

-- A `*` in the name takes the place of the one in the pattern.
star_in_name : glob_match (codes "*a") (codes "*ba") ≡ some false
unfolding glob_match
star_in_name = refl

covered : wildcard_matches pattern host true ≡ true
unfolding wildcard_matches
covered = refl

wildcard_matches-Covers_example : Covers pattern true host
wildcard_matches-Covers_example = wildcard_matches-Covers pattern host true covered

Covers-wildcard_matches_example : wildcard_matches pattern host true ≡ true
Covers-wildcard_matches_example =
    Covers-wildcard_matches pattern host true host-IsPlain wildcard_matches-Covers_example

anchored : wildcard_anchor pattern ≡ some (codes "io")
unfolding wildcard_anchor
anchored = refl

Covers-anchor_example : Elem (codes "io") (parents host)
Covers-anchor_example =
    Covers-anchor pattern host (codes "io") true anchored wildcard_matches-Covers_example

reverse_labels_into-reversed_example :
    (reverse_labels_into host ≡ some (reversed host)) × (length (reversed host) < 256)
reverse_labels_into-reversed_example =
    reverse_labels_into-reversed host (record { ne_nil = ground arith; no_dot = refl })
      (omega arith)

boundaries-AtBoundary_example :
    ((e : ℕ) × Elem e (boundaries (codes "io.tx.a")) × (codes "io.tx" ≡ take e (codes "io.tx.a")))
    ↔ AtBoundary (codes "io.tx") (codes "io.tx.a")
boundaries-AtBoundary_example = boundaries-AtBoundary (codes "io.tx") (codes "io.tx.a")

partition_point-Splits_example : Splits 9 (λ i. ltb i 4) (partition_point 9 (λ i. ltb i 4))
partition_point-Splits_example =
    partition_point-Splits 9 (λ i. ltb i 4) (λ i j le lt h. ground arith)

-- Two keys out of order.
abbrev two_keys : KeyIndex
two_keys = record { arena = codes "ba"; offs = 0 ∷ 1 ∷ []; lens = 1 ∷ 1 ∷ []; rules = 7 ∷ 8 ∷ [] }

within : (i : ℕ) → i < 2 → get_or two_keys.offs i 0 + get_or two_keys.lens i 0 ≤ 2
within zero h = omega arith
within (suc zero) h = omega arith
within (suc (suc i)) h = absurd (omega arith)

two_keys-IsFormed : IsFormed two_keys
two_keys-IsFormed = record { offs = refl; lens = refl; in_arena = within }

finish-Holds_example :
    (st : KeyIndex) × (finish insertion two_keys ≡ some st)
    × IsFormed st
    × IsOrdered st
    × ((k : Bytes) (r : ℕ) → Holds st k r ↔ Holds two_keys k r)
finish-Holds_example =
    finish-Holds insertion two_keys two_keys-IsFormed refl (omega arith) (omega arith)

abbrev one_key : KeyIndex
one_key = record { arena = codes "ab"; offs = 0 ∷ []; lens = 2 ∷ []; rules = 7 ∷ [] }

one_key-IsOrdered : IsOrdered one_key
one_key-IsOrdered i j le lt =
    let a : i ≡ 0 = omega arith in
    let b : j ≡ 0 = omega arith in rw (a, b) (bytes_lt_irrefl (key one_key 0))

equal_range_iff_example : Elem 7 (equal_range one_key (codes "ab")) ↔ Holds one_key (codes "ab") 7
equal_range_iff_example = equal_range_iff one_key one_key-IsOrdered (codes "ab") 7
