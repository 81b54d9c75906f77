-- ===== src/Filter/Tests/Rules.antt =====
-- A small list, the finished index of its names, and what was proved of the code at them.
use sumidero.Prelude.{true, List, [], ◌∷◌, Bytes, codes}
use sumidero.Filter.Types.{RuleAction, Pattern, Rule}

abbrev pub ads : Bytes
ads = codes "ads.com"

abbrev pub block_ads : Rule
block_ads = record {
  action = RuleAction.block;
  pattern = Pattern.subtree ads;
  text = codes "||ads.com^";
  line = 1;
}

abbrev pub allow_ok : Rule
allow_ok = record {
  action = RuleAction.except;
  pattern = Pattern.exact (codes "ok.ads.com");
  text = codes "@@ok.ads.com";
  line = 2;
}

abbrev pub block_track : Rule
block_track = record {
  action = RuleAction.block;
  pattern = Pattern.wildcard (codes "t*.io") true;
  text = codes "||t*.io^";
  line = 3;
}

abbrev pub small_list : List (List Rule)
small_list = (block_ads ∷ allow_ok ∷ block_track ∷ []) ∷ []
