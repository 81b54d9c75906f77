-- ===== src/Filter/Parse.antt =====
-- crates/filter/src/parse.rs: a list is read line by line, and a line is blank, a comment, a hosts
-- entry or one rule. Rules and rejected lines are collected in the order in which the code hands
-- them to `sink` and `issues`.
pub mod Lines
use sumidero.Prelude.{
  ℕ, ◌+◌, ◌-◌, ◌^◌, min, Bool, true, false, not, ◌&&◌, ◌||◌, Option, none, some, List, [], ◌∷◌,
  ◌++◌, Bytes, codes, length, leb, ltb, ◌==◌, if◌then◌else◌, any, split, contains_byte, contains,
  starts_with, ends_with, strip_prefix, strip_suffix, or_self, bytes_eq, drop, to_ascii_lowercase,
  map,
}
use sumidero.Filter.Labels.{dot}
use sumidero.Filter.Glob.{star}
use sumidero.Filter.Types.{RuleAction, Pattern, Rule}
use sumidero.Filter.Domain.{normalize_domain, normalize_wildcard}
use sumidero.Filter.Spaces.{space_width, trim, split_whitespace, lines}

pub data IssueReason : Type 0 where
  cosmetic_rule unsupported_modifier unsupported_hosts_entry unsupported_syntax invalid_domain :
      IssueReason

pub record LineIssue : Type 0 where
  pub line : ℕ
  pub text : Bytes
  pub reason : IssueReason

pub record ParsedList : Type 0 where
  pub rules : List Rule
  pub issues : List LineIssue

pub record ListCounts : Type 0 where
  pub rules : ℕ
  pub issues : ℕ

-- `parse::<IpAddr>` of the standard library, and of an address whether it is unspecified or a
-- loopback address.
pub record IpAddrs : Type 1 where
  pub IpAddr : Type 0
  pub parse : Bytes → Option IpAddr
  pub is_unspecified : IpAddr → Bool
  pub is_loopback : IpAddr → Bool

abbrev pub nothing : ParsedList
nothing = record { rules = []; issues = [] }

abbrev pub one_rule : Rule → ParsedList
one_rule r = record { rules = r ∷ []; issues = [] }

abbrev pub one_issue : Bytes → ℕ → IssueReason → ParsedList
one_issue line line_no reason = record {
  rules = [];
  issues = record { line = line_no; text = line; reason = reason } ∷ [];
}

-- One output after another.
abbrev pub both : ParsedList → ParsedList → ParsedList
both a b = record { rules = a.rules ++ b.rules; issues = a.issues ++ b.issues }

abbrev pub localhost_names : List Bytes
localhost_names =
    codes "localhost"
    ∷ codes "localhost.localdomain"
    ∷ codes "local"
    ∷ codes "broadcasthost"
    ∷ codes "ip6-localhost"
    ∷ codes "ip6-loopback"
    ∷ codes "ip6-localnet"
    ∷ codes "ip6-mcastprefix"
    ∷ codes "ip6-allnodes"
    ∷ codes "ip6-allrouters"
    ∷ codes "ip6-allhosts"
    ∷ []

abbrev pub cosmetic_markers : List Bytes
cosmetic_markers = codes "##" ∷ codes "#@#" ∷ codes "#?#" ∷ codes "#$#" ∷ codes "#%#" ∷ []

-- `s.split(c).next().unwrap_or(s)`
abbrev pub first_piece : ℕ → Bytes → Bytes
first_piece c s = elim (split c s) [ [] ↦ s | l ∷ _ ↦ l ]

-- A text behind `##` starts with a character that is no `#` and no white space.
abbrev pub is_heading : Bytes → Bool
is_heading [] = true
is_heading (b ∷ s) = b == b'#' || not (space_width (b ∷ s) == 0)

abbrev pub is_cosmetic : Bytes → Bool
is_cosmetic line =
    any (λ m. starts_with m line) (codes "#@#" ∷ codes "#?#" ∷ codes "#$#" ∷ codes "#%#" ∷ [])
    || (starts_with (codes "##") line && not (is_heading (drop 2 line)))

-- For a line that is consumed, what it reports.
unfoldable pub skip_or_report_comment : Bytes → ℕ → Option ParsedList
skip_or_report_comment line line_no =
    let comment =
      if is_cosmetic line then one_issue line line_no IssueReason.cosmetic_rule else nothing in
    if bytes_eq line [] || starts_with (codes "!") line
    then some nothing
    else if starts_with (codes "[") line && ends_with b']' line
    then some nothing
    else if starts_with (codes "#") line
    then some comment
    else none

unfoldable pub is_localhost : Bytes → Bool
is_localhost name =
    let bare = or_self (strip_suffix dot name) name in
    any (λ l. bytes_eq (to_ascii_lowercase l) (to_ascii_lowercase bare)) localhost_names

-- `.filter(|n| !is_localhost(n))`
unfoldable pub block_names : List Bytes → List Bytes
unfolding is_localhost
block_names [] = []
block_names (n ∷ ns) = let rest = block_names ns in if is_localhost n then rest else n ∷ rest

unfoldable pub parse_host : Bytes → ℕ → Bytes → ParsedList
unfolding normalize_domain
parse_host line line_no name = elim (normalize_domain name) [
  | some domain ↦ one_rule (record {
    action = RuleAction.block;
    pattern = Pattern.exact domain;
    text = line;
    line = line_no;
  })
  | none ↦ one_issue line line_no IssueReason.invalid_domain
]

unfoldable pub parse_hosts : Bytes → ℕ → List Bytes → ParsedList
unfolding parse_host
parse_hosts line line_no [] = nothing
parse_hosts line line_no (n ∷ ns) = both (parse_host line line_no n) (parse_hosts line line_no ns)

-- The names of a hosts line, behind the address.
unfoldable pub host_names : Bytes → List Bytes
unfolding block_names trim split_whitespace
host_names line = block_names (drop 1 (split_whitespace (trim (first_piece b'#' line))))

-- What is left of a rule's text: whether it blocks the subtree, and the expression.
unfoldable pub parse_pattern : Bool → Bytes → Option Pattern
unfolding normalize_domain normalize_wildcard
parse_pattern subtree rest =
    if contains_byte star rest
    then elim (normalize_wildcard rest) [
      | none ↦ none
      | some expr ↦ some (Pattern.wildcard expr subtree)
    ]
    else elim (normalize_domain rest) [
      | none ↦ none
      | some domain ↦ some (if subtree then Pattern.subtree domain else Pattern.exact domain)
    ]

abbrev pub is_some : Option Bytes → Bool
is_some none = false
is_some (some _) = true

-- The text behind a prefix, and the text itself where it does not start so.
abbrev pub behind : Bytes → Bytes → Bytes
behind prefix s = or_self (strip_prefix prefix s) s

abbrev pub rule_action : Bytes → RuleAction
rule_action line =
    if is_some (strip_prefix (codes "@@") line) then RuleAction.except else RuleAction.block

abbrev pub is_subtree_rule : Bytes → Bool
is_subtree_rule line = is_some (strip_prefix (codes "||") (behind (codes "@@") line))

-- The text without `@@`, `||` and one `^` at the end.
abbrev pub rule_expr : Bytes → Bytes
rule_expr line =
    let bare = behind (codes "||") (behind (codes "@@") line) in
    or_self (strip_suffix b'^' bare) bare

abbrev pub is_regex : Bytes → Bool
is_regex line = ltb 1 (length line) && starts_with (codes "/") line && ends_with b'/' line

abbrev pub is_anchored : Bytes → Bool
is_anchored rest = contains_byte b'^' rest || starts_with (codes "|") rest

-- The rule, if its expression is valid.
unfoldable pub sink_pattern : Bytes → ℕ → RuleAction → Option Pattern → ParsedList
sink_pattern line line_no action none = one_issue line line_no IssueReason.invalid_domain
sink_pattern line line_no action (some p) =
    one_rule (record { action = action; pattern = p; text = line; line = line_no })

-- The part of `parse_line` behind the test for a hosts line.
unfoldable pub parse_rule : Bytes → ℕ → ParsedList
unfolding parse_pattern sink_pattern
parse_rule line line_no =
    let rest = rule_expr line in
    if any (λ m. contains m line) cosmetic_markers
    then one_issue line line_no IssueReason.cosmetic_rule
    else if contains_byte b'$' line
    then one_issue line line_no IssueReason.unsupported_modifier
    else if is_regex line
    then one_issue line line_no IssueReason.unsupported_syntax
    else if is_anchored rest
    then one_issue line line_no IssueReason.unsupported_syntax
    else sink_pattern line line_no (rule_action line) (parse_pattern (is_subtree_rule line) rest)

-- `u32::try_from(idx).unwrap_or(u32::MAX).saturating_add(1)`
abbrev pub line_number : ℕ → ℕ
line_number idx = min (idx + 1) (2 ^ 32 - 1)

module _ (ips : IpAddrs) where
  unfoldable pub parse_hosts_line : Bytes → ips.IpAddr → ℕ → ParsedList
  unfolding host_names parse_hosts
  parse_hosts_line line ip line_no = elim (host_names line) [
    | [] ↦ nothing
    | n ∷ ns ↦
        if ips.is_unspecified ip || ips.is_loopback ip
        then parse_hosts line line_no (n ∷ ns)
        else one_issue line line_no IssueReason.unsupported_hosts_entry
  ]

  -- The address that a hosts line starts with, less a zone.
  unfoldable pub hosts_address : Bytes → Option ips.IpAddr
  unfolding split_whitespace
  hosts_address line = elim (split_whitespace line) [
    | [] ↦ none
    | first ∷ _ ↦ ips.parse (first_piece b'%' first)
  ]

  unfoldable pub parse_line : Bytes → ℕ → ParsedList
  unfolding hosts_address parse_hosts_line parse_rule
  parse_line line line_no = elim (hosts_address line) [
    | some ip ↦ parse_hosts_line line ip line_no
    | none ↦ parse_rule line line_no
  ]

  unfoldable pub parse_trimmed : Bytes → ℕ → ParsedList
  unfolding skip_or_report_comment parse_line
  parse_trimmed line line_no = elim (skip_or_report_comment line line_no) [
    | some out ↦ out
    | none ↦ parse_line line line_no
  ]

  -- The loop of `parse_list_streamed`, from the line with index `idx` on.
  unfoldable pub parse_lines : ℕ → List Bytes → ParsedList
  unfolding parse_trimmed trim
  parse_lines idx [] = nothing
  parse_lines idx (raw ∷ rest) =
      both (parse_trimmed (trim raw) (line_number idx)) (parse_lines (idx + 1) rest)

  unfoldable pub parse_list : Bytes → ParsedList
  unfolding parse_lines lines
  parse_list text = parse_lines 0 (lines text)

  unfoldable pub count_rules : Bytes → ListCounts
  unfolding parse_list
  count_rules text =
      let out = parse_list text in record { rules = length out.rules; issues = length out.issues }
