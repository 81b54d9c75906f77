-- ===== src/Core/Config/Validation.antt =====
-- What a configuration that passes validation is.
use sumidero.Prelude.{
  ℕ, ◌≡◌, ◌≢◌, ◌≤◌, ◌<◌, refl, sym, ap, ◌∙◌, ◌↔◌, ◌⊎◌, inl, inr, Bool, true, false, false≢true,
  Bool-cases, not, ◌&&◌, none, ok, err≢ok, Result-cases, is_ok, List, [], ◌∷◌, Elem, All, All-map,
  Bytes, bytes_eq, bytes_eq_sound, bytes_eq_refl, codes, starts_with, any, leb, ltb, ◌==◌, arith,
}
use sumidero.Core.SafeSearch.{validate_providers}
use sumidero.Core.SafeSearch.Tables.{Supported, validate_providers-Supported}
use sumidero.Core.Config.{
  Config, CacheConfig, ListSource, is_absolute, is_https, max_serve_stale_secs, validate_cache,
  validate_tls, check_names, check_source, check_server, checked_providers, effective_lists,
  validate,
}
use sumidero.Core.Config.Checks.{
  Passes, check_each-Passes, is_nil-false, not-false, IsNoneOr, is_some_and-false, none_and-false,
  reject, and_then, at_end,
}

abbrev pub IsAbsolute : Bytes → Type 0
IsAbsolute path = is_absolute path ≡ true

abbrev pub IsHttps : Bytes → Type 0
IsHttps url = is_https url ≡ true

-- A list has a source, its URL is an `https` one, and its path is absolute.
abbrev pub IsUsable : ListSource → Type 0
IsUsable l =
    ((l.url ≢ none) ⊎ (l.path ≢ none))
    × (IsNoneOr (λ url. is_https url ≡ true) l.url
        × IsNoneOr (λ path. is_absolute path ≡ true) l.path)

check_source-IsUsable : (l : ListSource) → Passes (check_source l) ↔ IsUsable l
unfolding check_source
check_source-IsUsable l =
    reject _ (none_and-false l.url l.path) (
      reject _ (is_some_and-false is_https l.url) (at_end _ (is_some_and-false is_absolute l.path)))

abbrev pub HasScheme : Bytes → Type 0
HasScheme s = IsHttps s ⊎ (starts_with (codes "quic://") s ≡ true)

neither-false : (b c : Bool) → (not b && not c ≡ false) ↔ ((b ≡ true) ⊎ (c ≡ true))
neither-false true c = (λ h. inl refl, λ h. refl)
neither-false false true = (λ h. inr refl, λ h. refl)
neither-false false false = (
  λ h. absurd (false≢true (sym h)),
  λ h. elim h [ inl k ↦ absurd (false≢true k) | inr k ↦ absurd (false≢true k) ],
)

check_server-HasScheme : (s : Bytes) → Passes (check_server s) ↔ HasScheme s
unfolding check_server
check_server-HasScheme s = at_end _ (neither-false (is_https s) (starts_with (codes "quic://") s))

validate_tls-IsAbsolute :
    (roots : List Bytes)
    → Passes (validate_tls (record { extra_roots = roots })) ↔ All IsAbsolute roots
unfolding validate_tls
validate_tls-IsAbsolute roots =
    check_each-Passes _ IsAbsolute roots (λ path. at_end _ (not-false (is_absolute path)))

abbrev pub IsBounded : CacheConfig → Type 0
IsBounded c = (0 < c.max_entries) × (c.serve_stale_secs ≤ max_serve_stale_secs)

validate_cache-IsBounded : (c : CacheConfig) → Passes (validate_cache c) ↔ IsBounded c
unfolding validate_cache
validate_cache-IsBounded c =
    reject _ (zero-false c.max_entries)
      (at_end _ (ltb-false max_serve_stale_secs c.serve_stale_secs))
  where
    zero-false : (n : ℕ) → ((n == 0) ≡ false) ↔ (0 < n)
    zero-false n = ground arith

    ltb-false : (m n : ℕ) → (ltb m n ≡ false) ↔ (n ≤ m)
    ltb-false m n = ground arith

in_range : (n : ℕ) → (not (leb 100 n && leb n 30000) ≡ false) ↔ ((100 ≤ n) × (n ≤ 30000))
in_range n = ground arith

abbrev pub HasDistinctNames : List ListSource → Type 0
HasDistinctNames [] = Unit
HasDistinctNames (l ∷ ls) = All (λ k. k.name ≢ l.name) ls × HasDistinctNames ls

any-Elem : (n : Bytes) (seen : List Bytes) → (any (λ m. bytes_eq m n) seen ≡ false) ↔ ¬ Elem n seen
any-Elem n [] = (λ h k. k, λ h. refl)
any-Elem n (m ∷ seen) = elim (Bool-cases (bytes_eq m n)) [
  | inl q ↦ (
    λ h. absurd (false≢true (sym (rw q at h))),
    λ h. absurd (h (inl (sym (bytes_eq_sound m n q)))),
  )
  | inr q ↦
      let rest = any-Elem n seen in
      (
        λ h k. elim k [
          | inl e ↦ false≢true (sym q ∙ ap (bytes_eq m) e ∙ bytes_eq_refl m)
          | inr k ↦ rest.0 (rw q at h) k
        ],
        λ h. rw q (rest.1 (λ k. h (inr k))),
      )
]

abbrev IsNamed : List Bytes → ListSource → Type 0
IsNamed seen l = (l.name ≢ []) × ¬ Elem l.name seen

check_names-distinct :
    (seen : List Bytes) (ls : List ListSource)
    → Passes (check_names seen ls) ↔ (All (IsNamed seen) ls × HasDistinctNames ls)
unfolding check_names
check_names-distinct seen [] = (λ h. (tt, tt), λ h. refl)
check_names-distinct seen (l ∷ ls) =
    let both =
      reject _ (is_nil-false l.name)
        (reject _ (any-Elem l.name seen) (check_names-distinct (l.name ∷ seen) ls)) in
    (
      λ h.
          let (n, (f, (rest, d))) = both.0 h in
          (
            (
              (n, f),
              All-map (IsNamed (l.name ∷ seen)) (IsNamed seen) ls (λ k (m, g). (m, λ e. g (inr e)))
                  rest,
            ),
            (
              All-map (IsNamed (l.name ∷ seen)) (λ k. k.name ≢ l.name) ls (λ k (m, g) e. g (inl e))
                  rest,
              d,
            ),
          ),
      λ (((n, f), rest), (apart, d)). both.1 (n, (f, (named ls rest apart, d))),
    )
  where
    named :
        (ls : List ListSource)
        → All (IsNamed seen) ls
        → All (λ k. k.name ≢ l.name) ls
        → All (IsNamed (l.name ∷ seen)) ls
    named [] h k = tt
    named (m ∷ ls) ((n, f), h) (g, k) =
        ((n, λ e. elim e [ inl q ↦ g q | inr e ↦ f e ]), named ls h k)

abbrev pub HasNames : List ListSource → Type 0
HasNames ls = All (λ l. l.name ≢ []) ls × HasDistinctNames ls

check_names-HasNames : (ls : List ListSource) → Passes (check_names [] ls) ↔ HasNames ls
check_names-HasNames ls =
    let iff = check_names-distinct [] ls in
    (
      λ h. (All-map (IsNamed []) (λ l. l.name ≢ []) ls (λ l k. k.0) (iff.0 h).0, (iff.0 h).1),
      λ h. iff.1 (All-map (λ l. l.name ≢ []) (IsNamed []) ls (λ l n. (n, λ e. e)) h.0, h.1),
    )

checked_providers-Supported : (ps : List Bytes) → Passes (checked_providers ps) ↔ All Supported ps
checked_providers-Supported ps =
    let iff = validate_providers-Supported ps in
    elim (Result-cases (validate_providers ps)) [
      | inl (a, q) ↦ (λ h. iff.0 (ap is_ok q), λ h. rw (q, checked_providers) refl)
      | inr (e, q) ↦ (
        λ h. absurd (err≢ok (rw (q, checked_providers) at h)),
        λ h. absurd (false≢true (sym (ap is_ok q) ∙ iff.1 h)),
      )
    ]

module _ {S N I : Type 0} where
  -- A configuration that the server can run with.
  pub record IsValid (c : Config S N I) : Type 0 where
    pub bind : c.server.bind ≢ []
    pub allow : c.server.allow ≢ []
    pub servers : c.upstreams.servers ≢ []
    pub schemes : All HasScheme c.upstreams.servers
    pub bootstrap : c.upstreams.bootstrap ≢ []
    pub timeout : (100 ≤ c.upstreams.timeout_ms) × (c.upstreams.timeout_ms ≤ 30000)
    pub database : IsAbsolute c.database.path
    pub list_dir : IsAbsolute c.filtering.list_dir
    pub extra_roots : All IsAbsolute c.tls.extra_roots
    pub cache : IsBounded c.cache
    pub providers : All Supported c.safe_search.providers
    pub has_list : effective_lists c.filtering ≢ []
    pub names : HasNames c.filtering.lists
    pub sources : All IsUsable (effective_lists c.filtering)

  -- Validation passes exactly the configurations with sockets, clients, upstream servers of a known
  -- scheme, bootstrap addresses, a timeout from 100 to 30000, absolute paths, a cache of at least one
  -- entry and at most 3 stale days, known safe search providers, and at least one list, where the
  -- extra lists have names that are not empty and not repeated, and every list a usable source.
  pub validate_iff : (c : Config S N I) → (validate c ≡ ok tt) ↔ IsValid c
  unfolding validate
  validate_iff c =
      let iff = reject _ (is_nil-false c.server.bind) (
        reject _ (is_nil-false c.server.allow) (
          reject _ (is_nil-false c.upstreams.servers) (
            and_then
              (check_each-Passes check_server HasScheme c.upstreams.servers check_server-HasScheme)
              (reject _ (is_nil-false c.upstreams.bootstrap) (
                reject _ (in_range c.upstreams.timeout_ms) (
                  reject _ (not-false (is_absolute c.database.path)) (
                    reject _ (not-false (is_absolute c.filtering.list_dir)) (
                      and_then (validate_tls-IsAbsolute c.tls.extra_roots) (
                        and_then (validate_cache-IsBounded c.cache) (
                          and_then (checked_providers-Supported c.safe_search.providers) (
                            reject _ (is_nil-false (effective_lists c.filtering)) (
                              and_then (check_names-HasNames c.filtering.lists) (
                                check_each-Passes check_source IsUsable
                                  (effective_lists c.filtering)
                                  check_source-IsUsable))))))))))))) in
      (
        λ h.
            let (
              bind,
              (
                allow,
                (
                  servers,
                  (
                    schemes,
                    (
                      bootstrap,
                      (
                        timeout,
                        (
                          database,
                          (
                            list_dir,
                            (extra_roots, (cache, (providers, (has_list, (names, sources))))),
                          ),
                        ),
                      ),
                    ),
                  ),
                ),
              ),
            ) =
              iff.0 h in
            record {
              bind = bind;
              allow = allow;
              servers = servers;
              schemes = schemes;
              bootstrap = bootstrap;
              timeout = timeout;
              database = database;
              list_dir = list_dir;
              extra_roots = extra_roots;
              cache = cache;
              providers = providers;
              has_list = has_list;
              names = names;
              sources = sources;
            },
        λ v. iff.1 (
          v.bind,
          (
            v.allow,
            (
              v.servers,
              (
                v.schemes,
                (
                  v.bootstrap,
                  (
                    v.timeout,
                    (
                      v.database,
                      (
                        v.list_dir,
                        (
                          v.extra_roots,
                          (v.cache, (v.providers, (v.has_list, (v.names, v.sources)))),
                        ),
                      ),
                    ),
                  ),
                ),
              ),
            ),
          ),
        ),
      )
