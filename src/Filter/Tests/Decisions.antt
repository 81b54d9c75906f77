-- ===== src/Filter/Tests/Decisions.antt =====
-- The engine of a small list, built and asked.
use sumidero.Prelude.{◌≡◌, inr, refl, some, Bytes, codes, All, arith, Option, ◌>>=◌}
use sumidero.Filter.Index.Insertion.{insertion}
use sumidero.Filter.Index.Insertion
use sumidero.Filter.Index.Order
use sumidero.Filter.Wildcard
use sumidero.Filter.Labels.Reversed.{EndsInLabel}
use sumidero.Filter.Glob.Relation.{IsPlain}
use sumidero.Filter.Types.{RuleAction, Verdict}
use sumidero.Filter.Engine.{Engine, build, body_of}
use sumidero.Filter.Engine.Built.{Ready, build-Ready}
use sumidero.Filter.Engine.Lists.{history, IsNormalRule}
use sumidero.Filter.Verdict.{verdict}
use sumidero.Filter.Verdict.Correct.{Decides, build-verdict}
use sumidero.Filter.Verdict.Spelled.{Spells}
use sumidero.Filter.Verdict.Text.{IsAscii, IsParsed}
use sumidero.Filter.Tests.Rules.{ads, small_list}

asked : Bytes → Option Verdict
unfolding build verdict
asked query = do e ← build insertion small_list; verdict e query

blocked :
    asked (codes "X.ads.com.")
    ≡ some (
        Verdict.block 0 (record { action = RuleAction.block; text = codes "||ads.com^"; line = 1 }))
unfolding asked Insertion.insertion_sort Order.bytes_lt Wildcard.wildcard_anchor
blocked = refl

allowed :
    asked (codes "ok.ads.com")
    ≡ some (
        Verdict.except 0
          (record { action = RuleAction.except; text = codes "@@ok.ads.com"; line = 2 }))
unfolding asked Insertion.insertion_sort Order.bytes_lt Wildcard.wildcard_anchor
allowed = refl

tracked :
    asked (codes "a.tx.io")
    ≡ some
        (Verdict.block 0 (record { action = RuleAction.block; text = codes "||t*.io^"; line = 3 }))
unfolding asked Insertion.insertion_sort Order.bytes_lt Wildcard.wildcard_anchor
tracked = refl

unmatched : asked (codes "bads.com") ≡ some Verdict.no_match
unfolding asked Insertion.insertion_sort Order.bytes_lt Wildcard.wildcard_anchor
unmatched = refl

abbrev query : Bytes
query = codes "X.ads.com."

abbrev name : Bytes
name = codes "x.ads.com"

query-Spells : Spells query name
query-Spells = inr refl

name-EndsInLabel : EndsInLabel name
name-EndsInLabel = record { ne_nil = ground arith; no_dot = refl }

name-IsPlain : IsPlain name
name-IsPlain = ground arith

small_list-IsNormal : All (All IsNormalRule) small_list
unfolding body_of
small_list-IsNormal = (
  (
    (omega arith, record { ne_nil = ground arith; no_dot = refl }),
    ((omega arith, λ sep d h k. absurd (ground arith)), (tt, tt)),
  ),
  tt,
)

build-Ready_example :
    (e : Engine) × (build insertion small_list ≡ some e)
    × Ready e (history 0 small_list)
    × (e.list_count ≡ 1)
build-Ready_example =
    build-Ready insertion small_list (omega arith) small_list-IsNormal (omega arith)

ads-IsAscii : IsAscii ads
ads-IsAscii = (
  omega arith,
  (omega arith, (omega arith, (omega arith, (omega arith, (omega arith, (omega arith, tt)))))),
)

ok-IsAscii : IsAscii (codes "ok.ads.com")
ok-IsAscii = (omega arith, (omega arith, (omega arith, ads-IsAscii)))

small_list-IsParsed : All (All IsParsed) small_list
small_list-IsParsed = (
  (
    record {
      quoted = record { starts = refl; marked = λ h. absurd (ground arith) };
      has_key = (omega arith, ads-IsAscii, record { ne_nil = ground arith; no_dot = refl });
    },
    (
      record {
        quoted = record { starts = refl; marked = λ _. (codes "ok.ads.com", refl) };
        has_key = ok-IsAscii;
      },
      (
        record {
          quoted = record { starts = refl; marked = λ h. absurd (ground arith) };
          has_key = tt;
        },
        tt,
      ),
    ),
  ),
  tt,
)

build-verdict_example :
    (e : Engine) × (v : Verdict) × (build insertion small_list ≡ some e)
    × (verdict e query ≡ some v)
    × Decides (history 0 small_list) name v
build-verdict_example =
    build-verdict insertion small_list (omega arith) small_list-IsNormal small_list-IsParsed
      (omega arith) query name query-Spells name-EndsInLabel name-IsPlain (omega arith)
