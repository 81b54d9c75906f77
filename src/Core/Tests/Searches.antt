-- ===== src/Core/Tests/Searches.antt =====
-- Names that are rewritten, and the theorems about it.
use sumidero.Prelude.{◌≡◌, refl, ◌↔◌, true, some, ok, err, List, [], ◌∷◌, Elem, Bytes, codes}
use sumidero.Core.SafeSearch.{ConfigError, SafeSearch, new_table, rewrite}
use sumidero.Core.SafeSearch.Providers.{Provider, hosts, endpoint}
use sumidero.Core.SafeSearch.Tables.{IsEnforced, FirstUnsupported, new_table-err}
use sumidero.Core.SafeSearch.Rewrites.{rewrite_iff}

abbrev bing_only : List Bytes
bing_only = codes "bing" ∷ []

abbrev table : SafeSearch
table = record { enabled = 4 }

built : new_table true bing_only ≡ ok table
unfolding new_table
built = refl

rewrite_iff_example : (rewrite table (codes "www.bing.com") ≡ some (codes "strict.bing.com")) ↔ (
    (p : Provider) × IsEnforced true bing_only p
    × Elem (codes "www.bing.com") (hosts p)
    × (codes "strict.bing.com" ≡ endpoint p))
rewrite_iff_example =
    rewrite_iff true bing_only (codes "www.bing.com") (codes "strict.bing.com") built

new_table-err_example :
    (new_table true (codes "bing" ∷ codes "yahoo" ∷ [])
      ≡ err (ConfigError.unknown_provider (codes "yahoo")))
    ↔ FirstUnsupported (codes "bing" ∷ codes "yahoo" ∷ []) (codes "yahoo")
new_table-err_example = new_table-err true (codes "bing" ∷ codes "yahoo" ∷ []) (codes "yahoo")
