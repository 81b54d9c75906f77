-- ===== src/Filter/Tests/Lists.antt =====
-- Lists of rules, parsed, and the theorems about them at small inputs.
use sumidero.Prelude.{
  ◌≡◌, refl, Bool, true, false, none, some, [], ◌∷◌, ◌++◌, Bytes, codes, bytes_eq, if◌then◌else◌,
}
use sumidero.Filter.Types.{RuleAction, Pattern, Rule}
use sumidero.Filter.Domain.{normalize_domain, normalize_wildcard}
use sumidero.Filter.Domain.Normal.{
  IsDomain, IsExpr, normalize_domain-IsDomain, IsDomain-normalize_domain, normalize_wildcard-IsExpr,
}
use sumidero.Filter.Parse.{IssueReason, IpAddrs, parse_list, count_rules}

-- Two addresses: the unspecified one, and one that is neither unspecified nor local.
abbrev two_addresses : IpAddrs
two_addresses = record {
  IpAddr = Bool;
  parse = λ s.
      if bytes_eq s (codes "0.0.0.0")
      then some true
      else if bytes_eq s (codes "9.9.9.9")
      then some false
      else none;
  is_unspecified = λ ip. ip;
  is_loopback = λ _. false;
}

abbrev text : Bytes
text =
    codes "! title"
    ++ 10 ∷ codes " @@||OK.com^ "
    ++ 13 ∷ 10 ∷ codes "0.0.0.0 a.com localhost b.com # x"
    ++ 10 ∷ 10 ∷ codes "9.9.9.9 c.com"
    ++ 10 ∷ codes "a-.com"

ok_rule : Rule
ok_rule = record {
  action = RuleAction.except;
  pattern = Pattern.subtree (codes "ok.com");
  text = codes "@@||OK.com^";
  line = 2;
}

host_rule : Bytes → Rule
host_rule name = record {
  action = RuleAction.block;
  pattern = Pattern.exact name;
  text = codes "0.0.0.0 a.com localhost b.com # x";
  line = 3;
}

parsed : parse_list two_addresses text ≡ record {
  rules = ok_rule ∷ host_rule (codes "a.com") ∷ host_rule (codes "b.com") ∷ [];
  issues =
      record {
        line = 5;
        text = codes "9.9.9.9 c.com";
        reason = IssueReason.unsupported_hosts_entry;
      }
      ∷ record { line = 6; text = codes "a-.com"; reason = IssueReason.invalid_domain }
      ∷ [];
}
unfolding parse_list ok_rule host_rule
parsed = refl

counted : count_rules two_addresses text ≡ record { rules = 3; issues = 2 }
unfolding count_rules
counted = refl

ads_normalized : normalize_domain (codes "Ads.Com.") ≡ some (codes "ads.com")
unfolding normalize_domain
ads_normalized = refl

normalize_domain-IsDomain_example : IsDomain (codes "ads.com")
normalize_domain-IsDomain_example = normalize_domain-IsDomain (codes "Ads.Com.") ads_normalized

IsDomain-normalize_domain_example : normalize_domain (codes "ads.com") ≡ some (codes "ads.com")
IsDomain-normalize_domain_example =
    IsDomain-normalize_domain (codes "ads.com") normalize_domain-IsDomain_example

wildcard_normalized : normalize_wildcard (codes "T*.io") ≡ some (codes "t*.io")
unfolding normalize_wildcard
wildcard_normalized = refl

normalize_wildcard-IsExpr_example : IsExpr (codes "t*.io")
normalize_wildcard-IsExpr_example = normalize_wildcard-IsExpr (codes "T*.io") wildcard_normalized
