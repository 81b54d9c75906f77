-- ===== src/Filter/Types.antt =====
-- The public types of crates/filter/src/lib.rs, and the borrowed rules of crates/filter/src/parse.rs.
-- A borrowed rule and an owned one hold the same texts, so `Rule` stands for `RuleRef` too, and
-- `Pattern` for `PatternRef`.
use sumidero.Prelude.{ℕ, Bool, true, false, Bytes}

pub data RuleAction : Type 0 where
  block except : RuleAction

pub data Pattern : Type 0 where
  exact : Bytes → Pattern
  subtree : Bytes → Pattern
  wildcard : Bytes → Bool → Pattern

pub record Rule : Type 0 where
  pub action : RuleAction
  pub pattern : Pattern
  pub text : Bytes
  pub line : ℕ

-- `rule.action == RuleAction::Except`
abbrev pub is_exception : RuleAction → Bool
is_exception RuleAction.block = false
is_exception RuleAction.except = true

pub record MatchedRule : Type 0 where
  pub action : RuleAction
  pub text : Bytes
  pub line : ℕ

pub data Verdict : Type 0 where
  no_match : Verdict
  block : ℕ → MatchedRule → Verdict
  except : ℕ → MatchedRule → Verdict
