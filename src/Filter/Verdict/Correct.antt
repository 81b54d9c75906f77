-- ===== src/Filter/Verdict/Correct.antt =====
-- `verdict` against what the rules say: which rule decides, and what is reported of it.
use sumidero.Prelude.{
  ℕ, suc, ◌≡◌, ◌≤◌, ◌<◌, ◌^◌, refl, sym, ◌∙◌, some, none, List, [], ◌∷◌, map, All, All-append,
  All-elem, Elem-get_elem?, Bytes, length, get_elem?,
}
use sumidero.Filter.Labels.Reversed.{EndsInLabel, reversed}
use sumidero.Filter.Glob.Relation.{IsPlain}
use sumidero.Filter.Index.{u32_size}
use sumidero.Filter.Index.Sort.{SortUnstable}
use sumidero.Filter.Types.{RuleAction, Rule, MatchedRule, Verdict}
use sumidero.Filter.Engine.{Engine, build}
use sumidero.Filter.Engine.Entries.{Rules, Entry}
use sumidero.Filter.Engine.Texts.{IsQuoted}
use sumidero.Filter.Engine.Built.{Ready, build-Ready}
use sumidero.Filter.Engine.Lists.{history, total_weight, IsNormalRule}
use sumidero.Filter.Verdict.{
  Search, stop, going, panicked, search_rules, conclude, matched, verdict,
}
use sumidero.Filter.Verdict.Settled.{
  MatchesRule, EntryFor, Settles, verdict-conclude, search_rules-Settles,
}
use sumidero.Filter.Verdict.Spelled.{Spells, normalized-Spells}
use sumidero.Filter.Verdict.Text.{Reports, IsParsed, matched-Reports}

-- A rule of the list that matches the name and has the action, as it is reported.
abbrev pub Names : Rules → Bytes → RuleAction → ℕ → MatchedRule → Type 0
Names rs name action list m =
    (id : ℕ) × (r : Rule) × (get_elem? rs id ≡ some (list, r))
    × MatchesRule name r
    × (r.action ≡ action)
    × Reports r m

-- What the rules of the lists decide for a name.
abbrev pub Decides : Rules → Bytes → Verdict → Type 0
Decides rs name (Verdict.except list m) = Names rs name RuleAction.except list m
Decides rs name (Verdict.block list m) =
    ((i : ℕ) → ¬ EntryFor rs name RuleAction.except i) × Names rs name RuleAction.block list m
Decides rs name Verdict.no_match = (i : ℕ) → ¬ Entry (MatchesRule name) rs i

abbrev OfRule : (Rule → Type 0) → ℕ × Rule → Type 0
OfRule P (l, r) = P r

All-history :
    (P : Rule → Type 0) (lists : List (List Rule)) (l : ℕ)
    → All (All P) lists
    → All (OfRule P) (history l lists)
All-history P [] l h = tt
All-history P (rules ∷ rest) l h =
    All-append (OfRule P) (map (λ r. (l, r)) rules) (history (suc l) rest) (pairs rules h.0)
      (All-history P rest (suc l) h.1)
  where
    pairs : (rs : List Rule) → All P rs → All (OfRule P) (map (λ r. (l, r)) rs)
    pairs [] h = tt
    pairs (r ∷ rs) h = (h.0, pairs rs h.1)

All-IsQuoted : (rs : Rules) → All (λ p. IsParsed p.1) rs → All (λ p. IsQuoted p.1) rs
All-IsQuoted [] h = tt
All-IsQuoted (p ∷ rs) h = (h.0.quoted, All-IsQuoted rs h.1)

module _ (e : Engine) (rs : Rules) (ready : Ready e rs) (parsed : All (λ p. IsParsed p.1) rs)
    (name : Bytes) where
  matched-Names :
      (action : RuleAction) (id : ℕ)
      → EntryFor rs name action id
      → (list : ℕ) × (m : MatchedRule) × (matched e id ≡ some (list, m))
        × Names rs name action list m
  matched-Names action id (list, r, h, (match, same)) =
      let p = All-elem (λ p. IsParsed p.1) rs (list, r) parsed (Elem-get_elem? rs id h) in
      let (m, ran, reports) =
        matched-Reports e rs ready id list r h p.has_key (ready.told (All-IsQuoted rs parsed)) in
      (list, m, ran, (id, r, h, match, same, reports))

  -- A search that the rules settle is reported without a panic.
  conclude-Decides :
      (s : Search) → Settles rs name s → (v : Verdict) × (conclude e s ≡ some v) × Decides rs name v
  unfolding conclude
  conclude-Decides panicked h = absurd h
  conclude-Decides (stop id) h =
      let (list, m, ran, names) = matched-Names RuleAction.except id h in
      (Verdict.except list m, rw ran refl, names)
  conclude-Decides (going (some id)) (none_excepted, h) =
      let (list, m, ran, names) = matched-Names RuleAction.block id h in
      (Verdict.block list m, rw ran refl, (none_excepted, names))
  conclude-Decides (going none) h = (Verdict.no_match, refl, h)

module _ (std : SortUnstable) where
  -- At most 65536 lists of normal rules, together within 32 bits, are built without a panic. Let the
  -- rules be as the parser makes them: texts that begin with a character, and with `@@` for an
  -- exception, keys in ASCII, and subtree domains that begin and end in a label. Then a query that
  -- spells, in any case and with or without a last dot, a name of at most 253 bytes that ends in a
  -- label and has no `*` gets a verdict without a panic: a matching exception if there is one,
  -- otherwise a matching block rule, each with its list, its action, its line and its text (of a
  -- text of more than 255 bytes possibly only the whole characters within 255), and no match exactly
  -- where no rule matches.
  pub build-verdict :
      (lists : List (List Rule))
      → length lists ≤ 2 ^ 16
      → All (All IsNormalRule) lists
      → All (All IsParsed) lists
      → total_weight lists < u32_size
      → (query name : Bytes) → Spells query name
      → EndsInLabel name
      → IsPlain name
      → length name ≤ 253
      → (e : Engine) × (v : Verdict) × (build std lists ≡ some e)
        × (verdict e query ≡ some v)
        × Decides (history 0 lists) name v
  build-verdict lists few normal parsed small query name spelled ends plain short =
      let rs = history 0 lists in
      let (e, ran, ready, _) = build-Ready std lists few normal small in
      let same = normalized-Spells query name spelled ends in
      let (v, told, decides) =
        conclude-Decides e rs ready (All-history IsParsed lists 0 parsed) name
          (search_rules e name (reversed name)) (search_rules-Settles e rs ready name plain) in
      (e, v, ran, verdict-conclude e rs ready name query (sym same) ends short ∙ told, decides)
