-- ===== src/Filter/Parse/Lines.antt =====
-- What the lines of a list give.
use sumidero.Prelude.{ℕ, ◌-◌, ◌^◌, ◌≡◌, ◌≤◌, ◌⊎◌, Bytes, All}
use sumidero.Filter.Types.{Pattern, Rule}
use sumidero.Filter.Domain.Normal.{IsDomain, IsExpr}
use sumidero.Filter.Parse.{IssueReason, ParsedList, IpAddrs, one_rule, one_issue}

-- The pattern of a parsed rule.
abbrev pub IsParsed : Pattern → Type 0
IsParsed (Pattern.exact d) = IsDomain d
IsParsed (Pattern.subtree d) = IsDomain d
IsParsed (Pattern.wildcard e inc) = IsExpr e

-- A rule of a line: its text, its number and a valid pattern.
pub record IsRuleOf (line : Bytes) (line_no : ℕ) (r : Rule) : Type 0 where
  pub text : r.text ≡ line
  pub number : r.line ≡ line_no
  pub pattern : IsParsed r.pattern

-- One rule, or one reported issue.
abbrev pub Outcome : Bytes → ℕ → ParsedList → Type 0
Outcome line line_no out =
    ((r : Rule) × (out ≡ one_rule r) × IsRuleOf line line_no r)
    ⊎ ((reason : IssueReason) × (out ≡ one_issue line line_no reason))

abbrev RulesOf : Bytes → ℕ → ParsedList → Type 0
RulesOf line line_no out = All (IsRuleOf line line_no) out.rules

module _ (ips : IpAddrs) where
  -- A parsed rule: a valid pattern and a line number of 32 bits, from 1.
  abbrev pub IsListed : Rule → Type 0
  IsListed r = IsParsed r.pattern × (1 ≤ r.line) × (r.line ≤ 2 ^ 32 - 1)
