-- ===== src/Lib.antt =====
-- A development for sumidero, a DNS filter: the rule parser and matcher of crates/filter, and of
-- crates/core the caches, safe search, the configuration, and the lookups of the server.
--
-- The program. A list of filter rules is parsed (crates/filter/src/parse.rs), compiled into an
-- engine (crates/filter/src/engine.rs, crates/filter/src/lib.rs), and asked for every query name by
-- the DNS server (crates/core). The development models the parser and the compiled matcher: a store
-- of columns by rule id, two sorted key indexes (exact names, and the reversed domains of the
-- subtree rules), and wildcards in buckets by the complete labels behind their last `*`. When no
-- upstream server resolves a name, the DNS server holds it down for a while in the failure cache,
-- and what it gets it keeps in the response cache; concurrent misses of a key share one lookup. The
-- configuration is validated before any of this starts, and safe search answers some names with
-- another endpoint.
--
-- Where it is.
--   Prelude            shared names; tests, lists and byte strings on the native numbers.
--   Filter.Types       RuleAction, Pattern, Rule, MatchedRule and Verdict of lib.rs.
--   Filter.Glob        glob_match; Glob.Relation says what a pattern means, Glob.Suffixes states the
--                      loop on suffixes in place of positions, Glob.Correct compares both.
--   Filter.Labels      reverse_labels_into and the boundaries that verdict walks.
--   Filter.Wildcard    wildcard_matches and wildcard_anchor.
--   Filter.Index       KeyIndex: insert, finish, partition_point and equal_range.
--   Filter.Store       Store: push, set_span, push_verbatim, is_except and form.
--   Filter.Engine      Engine and EngineBuilder: begin_list, add_rule, add_list, finish and build.
--                      Engine.Texts, Stored, Forms, Spans and Told follow the spans of the texts.
--   Filter.Verdict     Engine::verdict and Engine::matched. Verdict.Scan and Verdict.Settled have the
--                      search, Verdict.Text what is reported of a rule, Verdict.Spelled the query.
--   Filter.Domain      normalize_domain and normalize_wildcard of parse.rs.
--   Filter.Spaces      str::lines, trim and split_whitespace on UTF-8 bytes.
--   Filter.Parse       the rest of parse.rs, and count_rules of lib.rs.
--   Filter.Tests       runs of the matcher, and the theorems applied to small inputs.
--   Core.HashMap       the standard library's map, with the laws that the caches use.
--   Core.FailureCache  FailureCache of crates/core/src/failcache.rs; its child modules have the
--                      bounds, what is held, and streaks of failures.
--   Core.Cache         crates/core/src/cache.rs. Cache.Entry: what is stored of a response and how it
--                      is served. Cache.Slab: Inner, with its slots, links and free list; its child
--                      modules compare it with the list of the entries. Cache.Client: Cache::get and
--                      Cache::insert, one operation at a time and in sequences.
--   Core.BinarySearch  binary_search of the standard library on byte strings.
--   Core.SafeSearch    crates/core/src/safesearch.rs: the tables of hosts and the rewriting.
--   Core.Config        crates/core/src/config.rs: the configuration, its lists and its validation;
--                      Config.Start says what a valid configuration starts.
--   Core.Server        of crates/core/src/server.rs: Server.Lookups has the lookups that concurrent
--                      misses share, as steps of clients and tasks; Server.Settle files an upstream
--                      answer in both caches and asks them for the next query.
--   Core.Shadow        of crates/core/src/shadow.rs the comparison with a reference resolver.
--   Core.Tests         runs of these parts, and their theorems at small inputs.
--
-- How the code is read. Strings are lists of bytes; `codes` gives the bytes of a literal. A panic
-- (a failed `expect`, a slice out of range or inside a character, bytes that are no UTF-8, a full
-- buffer) is `none`, and `panicked` in the search of verdict. A column is read with a default where
-- the code indexes it by a position below the length of the index, and the flags also by a rule id
-- that was pushed; the invariants IsFormed and Labels say that these are in range. The map of wildcard
-- buckets is a function, where a missing anchor has no wildcards. `sort_unstable_by` of the standard
-- library is a parameter, SortUnstable: it permutes its list, and sorts it for a strict weak order.
-- Filter.Index.Insertion is one instance. The parse of IP addresses is a parameter, IpAddrs. The
-- records of hickory-proto are a parameter of the response cache, with the MINIMUM field of an SOA.
--
-- A map and a vector with a given capacity panic when an allocation for it is too large: the
-- parameter `tables` of with_limits is the largest capacity that both can have.
--
-- In the response cache usize::MAX stands for a missing link, a failed debug_assert! is a panic, sums
-- of bytes have no upper end, and the mutex makes every call one step.
--
-- The channels and tasks of tokio appear as steps: a send reaches every subscriber, and a task that
-- panics drops its guard and its sender. A client that goes away keeps its place in the list.
--
-- Fuel. The loop of glob_match runs on (length text + 1) * (length pat + 1) + length pat + 1
-- rounds, and glob_match-Answers says that they suffice. Evicting has as many rounds as the cache
-- has entries. The binary searches have as many rounds as their tables have entries, and the loops
-- over parent domains as many as bytes, since every round takes a byte off.
--
-- What is not modelled: heap_bytes, which counts capacities of the allocator; the shrinking of the
-- columns, which changes no content; Display instances and the owned copies of verdicts.
-- EngineBuilder::add_list_text and the rest of crates/core are not part of the development: the
-- upstream client, list downloads, the query database, the daemon, and handle_at. In the failure
-- cache an instant has no upper end, so that `now + hold` does not overflow, and the order in which
-- a map is walked is the order of its list, which no theorem fixes.
pub mod Prelude
pub mod Filter
pub mod Core
