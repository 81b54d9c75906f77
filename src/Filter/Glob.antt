-- ===== src/Filter/Glob.antt =====
-- `glob_match` and `wildcard_matches` of crates/filter/src/engine.rs: `*` in a pattern stands for
-- any run of bytes.
pub mod Relation
pub mod Suffixes
pub mod Correct
use sumidero.Prelude.{
  ℕ, zero, suc, ◌+◌, ◌*◌, Bool, true, false, ◌==◌, if◌then◌else◌, Option, none, some, Bytes,
  get_elem?, length, drop, find,
}

abbrev pub star : ℕ
star = b'*'

abbrev pub dot : ℕ
dot = b'.'

-- `p < pat.len() && pat[p] == c`
abbrev pub is_at : Bytes → ℕ → ℕ → Bool
is_at pat p c = elim (get_elem? pat p) [ none ↦ false | some b ↦ b == c ]

-- `while p < pat.len() && pat[p] == b'*' { p += 1; }` on at most `n` rounds.
unfoldable pub skip_stars : ℕ → Bytes → ℕ → ℕ
skip_stars zero pat p = p
skip_stars (suc n) pat p =
    let next = skip_stars n pat (p + 1) in if is_at pat p star then next else p

-- The `while t < text.len()` loop and what follows it. `none` means that the fuel ran out.
unfoldable pub glob_loop : ℕ → Bytes → Bytes → ℕ → ℕ → Option (ℕ × ℕ) → Option Bool
unfolding skip_stars
glob_loop zero pat text p t saved = none
glob_loop (suc f) pat text p t saved = elim (get_elem? text t) [
  | none ↦ some (skip_stars (length pat) pat p == length pat)
  | some c ↦
      let advance = glob_loop f pat text (p + 1) (t + 1) saved in
      let open_star = glob_loop f pat text (p + 1) t (some (p, t)) in
      let retry : Option Bool = elim saved [
        | none ↦ some false
        | some (sp, st) ↦ glob_loop f pat text (sp + 1) (st + 1) (some (sp, st + 1))
      ] in
      if is_at pat p c then advance else if is_at pat p star then open_star else retry
]

-- Each saved position costs at most one pass over the pattern.
abbrev pub glob_fuel : Bytes → Bytes → ℕ
glob_fuel pat text = (length text + 1) * (length pat + 1) + length pat + 1

unfoldable pub glob_match : Bytes → Bytes → Option Bool
unfolding glob_loop
glob_match pat text = glob_loop (glob_fuel pat text) pat text 0 0 none
