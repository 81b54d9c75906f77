-- ===== src/Filter/Engine/Tracks.antt =====
-- How an engine stands to the rules that were added to it.
use sumidero.Prelude.{
  ℕ, ◌≤◌, ◌<◌, ◌%◌, ◌≡◌, ◌↔◌, Bool, All, not, Option, none, some, map, Bytes, Elem, length,
  get_elem?, ◌==◌,
}
use sumidero.Filter.Labels.Reversed.{reversed}
use sumidero.Filter.Wildcard.{wildcard_anchor}
use sumidero.Filter.Index.Insert.{IsFormed}
use sumidero.Filter.Index.Finish.{IsPacked}
use sumidero.Filter.Index.Lookup.{Holds}
use sumidero.Filter.Store.{Store}
use sumidero.Filter.Types.{Pattern, Rule, is_exception}
use sumidero.Filter.Engine.{Engine, WildcardEntry}
use sumidero.Filter.Engine.Entries.{Rules, Entry}
use sumidero.Filter.Engine.Texts.{IsQuoted, Texts}

-- The exact rule for a name; the subtree rule whose reversed domain is a key; a wildcard rule.
abbrev pub IsExact : Bytes → Rule → Type 0
IsExact k r = r.pattern ≡ Pattern.exact k

abbrev pub IsSubtree : Bytes → Rule → Type 0
IsSubtree k r = (d : Bytes) × (r.pattern ≡ Pattern.subtree d) × (k ≡ reversed d)

abbrev pub IsWildcard : Bytes → Bool → Rule → Type 0
IsWildcard expr inc r = r.pattern ≡ Pattern.wildcard expr inc

-- The columns of the store hold the rules' lists, lines and actions.
pub record Labels (s : Store) (rs : Rules) : Type 0 where
  pub lists : s.lists ≡ map (λ p. p.0) rs
  pub lines : s.lines ≡ map (λ p. p.1.line) rs
  pub excepts : map (λ f. not (f % 2 == 0)) s.flags ≡ map (λ p. is_exception p.1.action) rs

-- A wildcard can be found where the search looks for it.
abbrev pub FiledAt : Engine → Option Bytes → ℕ → Type 0
FiledAt e none idx = Elem idx e.wildcard_unanchored
FiledAt e (some a) idx = Elem idx (e.wildcard_buckets a)

abbrev pub IsFiled : Engine → Bytes → ℕ → Type 0
IsFiled e expr idx = FiledAt e (wildcard_anchor expr) idx

pub record Indexes (e : Engine) (rs : Rules) : Type 0 where
  pub exact : (k : Bytes) (id : ℕ) → Holds e.exact k id ↔ Entry (IsExact k) rs id
  pub subtree : (k : Bytes) (id : ℕ) → Holds e.subtree k id ↔ Entry (IsSubtree k) rs id
  pub known :
      (idx : ℕ) (w : WildcardEntry)
      → get_elem? e.wildcards idx ≡ some w
      → Entry (IsWildcard w.expr w.include_subdomains) rs w.rule
  pub filed :
      (expr : Bytes) (inc : Bool) (id : ℕ)
      → Entry (IsWildcard expr inc) rs id
      → (idx : ℕ) × (get_elem? e.wildcards idx
          ≡ some (record { expr = expr; include_subdomains = inc; rule = id }))
        × IsFiled e expr idx
  pub within_buckets :
      (k : Bytes) (idx : ℕ) → Elem idx (e.wildcard_buckets k) → idx < length e.wildcards
  pub within_unanchored : (idx : ℕ) → Elem idx e.wildcard_unanchored → idx < length e.wildcards

-- The shape of the indexes while rules are added.
pub record Growing (e : Engine) : Type 0 where
  pub exact_formed : IsFormed e.exact
  pub exact_packed : IsPacked e.exact
  pub subtree_formed : IsFormed e.subtree
  pub subtree_packed : IsPacked e.subtree

pub record Tracks (e : Engine) (rs : Rules) : Type 0 where
  pub labels : Labels e.store rs
  pub indexes : Indexes e rs
  pub growing : Growing e
  pub texts : All (λ p. IsQuoted p.1) rs → Texts e.store rs
  pub few :
      (length e.exact.rules ≤ length rs)
      × (length e.subtree.rules ≤ length rs)
      × (length e.wildcards ≤ length rs)
