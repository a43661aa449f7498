-- ===== src/Lib.antt =====
-- PromptShield: the core logic of the gateway that scans prompts with rule packs and records what
-- it decides.
--
-- The program's parts and how they interact. Rule packs are loaded and merged into one list of
-- rules (internal/rules); the scanner evaluates the rules on each line of a text and reports
-- violations (internal/scanner), some of them only where a verifier accepts the match; the gateway
-- records every decision in a ring in memory, which the dashboard pages through
-- (internal/application/decisions); long work runs as jobs (internal/jobs); packs and policies are
-- kept in repositories (internal/infrastructure/persistence/memory), and a service keeps the
-- scanner's rules those of the active policies (internal/application/services). The packs that the
-- gateway enforces are a set that is loaded again while it runs (internal/application/rulesets),
-- with a pool of scanners as a listener.
--
-- Which file models which part:
--   Base: shared names, lists by native positions, signed integers (Base/Int), byte strings
--     (Base/Text), Go maps as association lists (Base/Map), decimal text, TrimSpace and Atoi
--     (Base/Decimal), and sorting (Base/Sort).
--   Decisions: log.go, record.go and page.go of internal/application/decisions: `Log` is the ring,
--     `add`, `scan`, `recent`, `get` and `page` are Add, scan, Recent, Get and Page. Capacity:
--     ParseCapacity and NewLogFromEnv. Summary: Stats and percentile. Matches: MatchesFrom and
--     EventData. Inv, Refine, Scan, Paging and Listing are about them.
--   Jobs: internal/jobs/manager.go. `submit`, `get`, `list_jobs`, `cancel` and `cleanup_completed`
--     are the methods; processJob is `begin_job` and `finish_job`, since the lock is released while
--     the processor runs, and `receive` is a worker's receive from the channel. Jobs/World has the
--     step relation of calls and workers from NewManager on, Jobs/Inv its invariant.
--   Rules/Types, Rules/Merge: internal/rules/types.go and merge.go. `merge_packs` and
--     `merge_packs_priority_order` are MergePacks and MergePacksPriorityOrder.
--   Scanner/Verifiers: internal/scanner/verifiers.go. `luhn_check`, `ssn_area_valid`, `ssn_valid`,
--     `iban_valid` and `email_valid` are LuhnCheck, SSNAreaValid, SSNValid, IBANValid, EmailValid.
--   Scanner/Evaluate: internal/scanner/evaluate.go and the conditions of rule_eval.go.
--     `eval_keywords`, `eval_regexes`, `evaluate_line` and `evaluate_long_line` are evalKeywords,
--     evalRegexesStandard, evaluateLine and evaluateLongLine.
--   Scanner/Input: internal/scanner/io.go. `scan_reader`, `scan_chunked` and `scan_file` are
--     ScanReader, scanChunked (Input/Chunks) and ScanFile (Input/Files).
--   Scanner/Literals: internal/scanner/regex_literals.go. `extract_tokens` and `cache_key` are
--     extractLiteralTokensFromRegex and cacheKey.
--   Scanner/Compile: compileRules and compileRegex of internal/scanner/rule_eval.go, as
--     `compile_rules` and `compile_regex`.
--   Scanner/Loader: internal/scanner/loader.go; `load_rule_packs` is LoadRulePacks, over the merge
--     of Rules/Merge and the compilation.
--   Rules/Complexity: internal/rules/complexity.go, whose walk is `walk` with the score as state.
--   Rules/Validate, Rules/Schema: internal/rules/validate.go. `validate_pack` is ValidatePack, and
--     Schema has pruneNulls, flattenValidationError and normalizeInstanceLocation.
--   Rules/Checks: the checks of internal/rules/loader.go, loader_validate.go and patterns.go.
--   Rulepacks, Policies: rulepack_repository.go and policy_repository.go of
--     internal/infrastructure/persistence/memory, a function for each method.
--   Services/PolicyScanner: internal/application/services/policy_scanner_service.go, over the
--     policies of Policies, the loader of Scanner/Loader and the reader of Scanner/Input.
--   Services/RulepackService: internal/application/services/rulepacks.go over Rulepacks. Activate,
--     Errors and Names are about what its calls do; Dsl is ValidateDSL and ParseDSL.
--   Rulesets: internal/application/rulesets/set.go and snapshot.go; Rulesets/Pool is
--     internal/interfaces/http/enforcer/scanner_pool.go.
--   The Tests modules run the definitions on small data.
--
-- How the code is read. A method that holds its lock is one function of the state. The clock, a new
-- uuid, and the answers of a durable queue or a processor are arguments. A map is a list of its
-- entries, and the order of the list is the one in which `range` meets them, which Go leaves open.
-- A string is the list of its bytes, or of its runes where the code ranges over it.
--
-- Bounds and fuel. The walk over `extends` recurses on fuel, one more than the number of packs:
-- each call marks a pack that was not marked. `page` asks for Limit+1 records, and the sum wraps at
-- the largest int. The counters of the log and of the scanner are unbounded numbers, and so are
-- line numbers and latencies. The client's loops over pages have fuel, and the results say how much
-- is enough. The inner loop of scanChunked has as many rounds as the read has bytes, and each round
-- takes at least one. A reader is the list of its reads, so it ends.
--
-- What is not modelled: the regex engine, the Aho-Corasick library, the semantic evaluation and the
-- tables of package unicode are arguments of the definitions that use them; the job manager's
-- goroutines and channels; the LRU cache of regexes, of which only Get and Add are used; the parser
-- and the simplifier of regular expressions; the libraries for YAML, JSON schemas and hashes; the
-- stores over databases, the messaging, and the HTTP, gRPC and command glue.
pub mod Base
pub mod Decisions
pub mod Jobs
pub mod Policies
pub mod Rulepacks
pub mod Rules
pub mod Rulesets
pub mod Scanner
pub mod Services
