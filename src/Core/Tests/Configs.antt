-- ===== src/Core/Tests/Configs.antt =====
-- A configuration, and the theorems about it.
use sumidero.Prelude.{ℕ, ◌≤◌, ◌≡◌, ◌↔◌, refl, true, none, some, ok, err, [], ◌∷◌, codes}
use sumidero.Core.SafeSearch.{SafeSearch, new_table}
use sumidero.Core.Cache.Slab.{new_inner, with_limits}
use sumidero.Core.Config.{
  Config, FilteringConfig, ListSource, Profile, bad_timeout, default_max_bytes, effective_lists,
  validate,
}
use sumidero.Core.Config.Lists.{find_list, find_last, or_else, profile_lists, effective_lists-find}
use sumidero.Core.Config.Validation.{HasDistinctNames, IsValid, validate_iff}
use sumidero.Core.Config.Start.{validate-started}

abbrev own_list : ListSource
own_list = record {
  name = codes "hagezi-pro";
  url = none;
  path = some (codes "/etc/sumidero/own.txt");
}

abbrev filtering : FilteringConfig
filtering = record {
  profile = some Profile.strict;
  lists = own_list ∷ [];
  list_dir = codes "/var/lib/sumidero/lists";
}

abbrev config : ℕ → Config ℕ ℕ ℕ
config timeout_ms = record {
  server = record { bind = 53 ∷ []; allow = 192 ∷ [] };
  filtering = filtering;
  upstreams = record {
    servers = codes "https://dns.google/dns-query" ∷ [];
    bootstrap = 9 ∷ [];
    timeout_ms = timeout_ms;
  };
  database = record { path = codes "/var/lib/sumidero/sumidero.sqlite" };
  safe_search = record { enabled = true; providers = codes "bing" ∷ [] };
  tls = record { extra_roots = [] };
  cache = record { max_entries = 16384; serve_stale_secs = 43200 };
}

passed : validate (config 3000) ≡ ok tt
unfolding validate
passed = refl

too_quick : validate (config 99) ≡ err (bad_timeout 99)
unfolding validate
too_quick = refl

validate_iff_example : (validate (config 3000) ≡ ok tt) ↔ IsValid (config 3000)
validate_iff_example = validate_iff (config 3000)

effective_lists-find_example :
    HasDistinctNames (effective_lists filtering)
    × (find_list (codes "hagezi-pro") (effective_lists filtering)
        ≡ or_else
            (find_last (codes "hagezi-pro") (own_list ∷ []))
            (find_list (codes "hagezi-pro") (profile_lists (some Profile.strict))))
effective_lists-find_example = effective_lists-find filtering (codes "hagezi-pro")

validate-started_example :
    (t : SafeSearch) × (new_table true (codes "bing" ∷ []) ≡ ok t)
    × ((with_limits 1000000 16384 default_max_bytes 43200
          ≡ some (new_inner {K = ℕ} {V = ℕ} 16384 default_max_bytes 43200))
        ↔ (16384 ≤ 1000000))
validate-started_example = validate-started ℕ ℕ 1000000 (config 3000) passed
