-- ===== src/Core/Config.antt =====
-- crates/core/src/config.rs: the configuration behind its TOML form, the lists that it comes to, and
-- its validation. Socket addresses, networks and IP addresses are types of the standard library and
-- of ipnet, which only their lists show. A path is absolute if it starts with `/`, as on Unix.
pub mod Checks
pub mod Lists
pub mod Validation
pub mod Start
use Prim.Native.String.{String}
use sumidero.Prelude.{
  ℕ, suc, ◌+◌, ◌*◌, ◌++◌, Bool, true, false, not, ◌&&◌, ◌||◌, Option, none, some, Result, ok, err,
  List, [], ◌∷◌, Bytes, codes, bytes_eq, starts_with, is_nil, any, set, leb, ltb, ◌==◌,
  if◌then◌else◌,
}
use sumidero.Core.SafeSearch
use sumidero.Core.SafeSearch.{validate_providers}

abbrev pub max_serve_stale_secs : ℕ
max_serve_stale_secs = 3 * 86400

abbrev pub default_max_bytes : ℕ
default_max_bytes = 64 * 1024 * 1024

pub record CacheConfig : Type 0 where
  pub max_entries : ℕ
  pub serve_stale_secs : ℕ

pub record TlsConfig : Type 0 where
  pub extra_roots : List Bytes

pub record ServerConfig (S N : Type 0) : Type 0 where
  pub bind : List S
  pub allow : List N

pub data Profile : Type 0 where
  minimal balanced strict : Profile

pub record ListSource : Type 0 where
  pub name : Bytes
  pub url : Option Bytes
  pub path : Option Bytes

pub record FilteringConfig : Type 0 where
  pub profile : Option Profile
  pub lists : List ListSource
  pub list_dir : Bytes

pub record UpstreamsConfig (I : Type 0) : Type 0 where
  pub servers : List Bytes
  pub bootstrap : List I
  pub timeout_ms : ℕ

pub record DatabaseConfig : Type 0 where
  pub path : Bytes

pub record SafeSearchConfig : Type 0 where
  pub enabled : Bool
  pub providers : List Bytes

pub record Config (S N I : Type 0) : Type 0 where
  pub server : ServerConfig S N
  pub filtering : FilteringConfig
  pub upstreams : UpstreamsConfig I
  pub database : DatabaseConfig
  pub safe_search : SafeSearchConfig
  pub tls : TlsConfig
  pub cache : CacheConfig

-- `ConfigError::Invalid`, with what its text names in place of the text.
pub data Invalid : Type 0 where
  empty_bind empty_allow empty_servers empty_bootstrap : Invalid
  bad_scheme : Bytes → Invalid
  bad_timeout : ℕ → Invalid
  relative_database relative_list_dir relative_root : Bytes → Invalid
  no_entries : Invalid
  long_stale : ℕ → Invalid
  bad_provider : SafeSearch.ConfigError → Invalid
  no_lists empty_name : Invalid
  duplicate_name no_source : Bytes → Invalid
  insecure_url relative_path : Bytes → Bytes → Invalid

abbrev pub Validated : Type 0
Validated = Result (Unit {0}) Invalid

-- `if bad { return Err(e) }`, and what follows.
abbrev pub reject_if : Bool → Invalid → Validated → Validated
reject_if bad e rest = if bad then err e else rest

-- `f(..)?`, and what follows.
abbrev pub then_check : Validated → Validated → Validated
then_check (ok _) rest = rest
then_check (err e) rest = err e

-- The first error of a loop.
abbrev pub check_each : {A : Type 0} → (A → Validated) → List A → Validated
check_each f [] = ok tt
check_each f (x ∷ xs) = then_check (f x) (check_each f xs)

abbrev pub is_absolute : Bytes → Bool
is_absolute path = starts_with (codes "/") path

abbrev pub is_https : Bytes → Bool
is_https url = starts_with (codes "https://") url

unfoldable pub validate_cache : CacheConfig → Validated
validate_cache c = reject_if (c.max_entries == 0) no_entries (
    reject_if (ltb max_serve_stale_secs c.serve_stale_secs) (long_stale c.serve_stale_secs) (ok tt))

unfoldable pub validate_tls : TlsConfig → Validated
validate_tls c =
    check_each (λ path. reject_if (not (is_absolute path)) (relative_root path) (ok tt))
      c.extra_roots

-- The lists of a profile.
abbrev hagezi : String → String → ListSource
hagezi name file = record {
  name = codes name;
  url =
      some (
        codes "https://raw.githubusercontent.com/hagezi/dns-blocklists/main/adblock/"
        ++ codes file);
  path = none;
}

abbrev pub hagezi_light : ListSource
hagezi_light = hagezi "hagezi-light" "light.txt"

abbrev pub hagezi_pro : ListSource
hagezi_pro = hagezi "hagezi-pro" "pro.txt"

abbrev pub hagezi_tif : ListSource
hagezi_tif = hagezi "hagezi-tif" "tif.txt"

abbrev pub lists_of : Profile → List ListSource
lists_of Profile.minimal = hagezi_light ∷ []
lists_of Profile.balanced = hagezi_pro ∷ []
lists_of Profile.strict = hagezi_pro ∷ hagezi_tif ∷ []

-- `iter().position(..)`
abbrev pub position : {A : Type 0} → (A → Bool) → List A → Option ℕ
position p [] = none
position p (x ∷ xs) =
    if p x then some 0 else elim (position p xs) [ none ↦ none | some i ↦ some (suc i) ]

-- One extra list takes the place of the list with its name, or comes last.
unfoldable pub override : List ListSource → ListSource → List ListSource
override result extra = elim (position (λ l. bytes_eq l.name extra.name) result) [
  | none ↦ result ++ extra ∷ []
  | some pos ↦ set result pos extra
]

abbrev pub override_all : List ListSource → List ListSource → List ListSource
override_all result [] = result
override_all result (extra ∷ extras) = override_all (override result extra) extras

unfoldable pub effective_lists : FilteringConfig → List ListSource
unfolding override
effective_lists c = override_all (elim c.profile [ none ↦ [] | some p ↦ lists_of p ]) c.lists

-- Names are neither empty nor repeated; `seen` are the ones before.
unfoldable pub check_names : List Bytes → List ListSource → Validated
check_names seen [] = ok tt
check_names seen (l ∷ ls) = reject_if (is_nil l.name) empty_name (
    reject_if (any (λ n. bytes_eq n l.name) seen) (duplicate_name l.name)
      (check_names (l.name ∷ seen) ls))

abbrev pub is_none : {A : Type 0} → Option A → Bool
is_none none = true
is_none (some a) = false

-- `if let Some(x) = o && bad(x)`
abbrev pub is_some_and : {A : Type 0} → (A → Bool) → Option A → Bool
is_some_and p none = false
is_some_and p (some a) = p a

abbrev pub or_empty : Option Bytes → Bytes
or_empty none = []
or_empty (some s) = s

unfoldable pub check_source : ListSource → Validated
check_source l = reject_if (is_none l.url && is_none l.path) (no_source l.name) (
    reject_if (is_some_and (λ url. not (is_https url)) l.url) (insecure_url l.name (or_empty l.url))
      (reject_if (is_some_and (λ path. not (is_absolute path)) l.path)
        (relative_path l.name (or_empty l.path)) (ok tt)))

unfoldable pub check_server : Bytes → Validated
check_server s =
    reject_if (not (is_https s) && not (starts_with (codes "quic://") s)) (bad_scheme s) (ok tt)

-- The error of safe search, as an error of the configuration.
abbrev pub checked_providers : List Bytes → Validated
checked_providers providers = elim (validate_providers providers) [
  | ok _ ↦ ok tt
  | err e ↦ err (bad_provider e)
]

module _ {S N I : Type 0} where
  -- `Config::validate`.
  unfoldable pub validate : Config S N I → Validated
  unfolding check_server validate_tls validate_cache validate_providers effective_lists check_names
      check_source
  validate c = reject_if (is_nil c.server.bind) empty_bind (
      reject_if (is_nil c.server.allow) empty_allow (
        reject_if (is_nil c.upstreams.servers) empty_servers (
          then_check (check_each check_server c.upstreams.servers) (
            reject_if (is_nil c.upstreams.bootstrap) empty_bootstrap (
              reject_if (not (leb 100 c.upstreams.timeout_ms && leb c.upstreams.timeout_ms 30000))
                (bad_timeout c.upstreams.timeout_ms)
                (reject_if (not (is_absolute c.database.path)) (relative_database c.database.path) (
                  reject_if (not (is_absolute c.filtering.list_dir))
                    (relative_list_dir c.filtering.list_dir)
                    (then_check (validate_tls c.tls) (
                      then_check (validate_cache c.cache) (
                        then_check (checked_providers c.safe_search.providers) (
                          reject_if (is_nil (effective_lists c.filtering)) no_lists (
                            then_check (check_names [] c.filtering.lists)
                              (check_each check_source (effective_lists c.filtering))))))))))))))
