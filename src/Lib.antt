-- ===== src/Lib.antt =====
-- NexusHunter AI: the core logic of the Go backend, under backend/internal.
--
-- The parts and how they interact:
--   Prelude    shared names, results, maps, sorts, texts and their lemmas
--   Models     models/models.go: targets and scope rules, which several parts read
--   Jobs       jobs/jobs.go: the in-memory repository (Repository), the manager's calls (Exec, Manager)
--              and ReconstructJobLifecycle (Audit). Effects says what a call may do to the repository
--              and the bus, Lifecycle what sequences of calls do to a status, Trail and History how the
--              events on the bus follow, Deactivation what a deactivated target leaves behind,
--              Progress the calls that run a stored job.
--   Scope      scope/scope.go: Evaluate in its steps (Hosts, Rules, Evaluate), the import of scope files
--              (Import), ValidateTarget (Validate). Searches says what its loops find,
--              Authorized describes an authorized request without the code's order of tests; Domains is
--              about allowed domains, Eligibility about an imported list of assets.
--   Waf        waf/throttler.go (Throttler) and waf/waf.go (Detector); Bounds and Breaker are about the
--              throttler of an asset, Confidence about what the detector reports.
--   Reasoning  reasoning/engine.go: the transition checks (Transitions), PlanInvestigation and extractPath
--              (Plan); Machines and Priority are about them.
--   Planner    planner/planner.go: SanitizeUntrustedText (Sanitize), ValidatePlan (Validate),
--              GenerateInvestigationPlan and ApproveStep (Service); Safety and Approval are about them.
--              ValidatePlan asks Evaluate of Scope for the URLs of a plan's steps.
--   Evidence   evidence/: the records (Data), redaction (Redactor, Json, Sanitize, Dedupe), the canonical
--              form (Canonical, with Ranges on the orders of its loops), comparison (Headers, Diff), the store that the engine is given (Store)
--              and the engine (Engine, with EvaluateContradiction and SynthesizeAssetInterest in its
--              children). Masked, Clean, Laws, Relevance, Integrity and Comparison are about them.
--   EventBus   events/events.go: the bounded history and the channels of the bus; History what it
--              remembers. The job manager's model keeps its own list of the events handed to the bus.
--   Storage    storage/memory.go: Targets, Imports, Events, Jobs, Assets, Recon and Evidence, over the
--              records of Data; the children Confirmed, Log, Atomic, Index, Records, Lawful and Timeline
--              are about them, Upserts about a loop that several of them have. Its Evidence is the
--              store of the evidence engine; its Jobs does to the jobs what Jobs.Repository does.
--              Reasoning is the repository of signals, hypotheses and investigations (Guards is about
--              it), Observations that of technologies, services, tags and changes (Pages and Tags),
--              Plans that of the planner's plans (Approval), Sightings that of scripts, clouds and WAFs,
--              Analysis that of analysis runs and finding candidates.
--   Recon      recon/dedupe.go: the Deduplicator (Dedupe), and what it lets through (FirstSeen).
--   Tests      the theorems at concrete inputs
--
-- Names: functions and fields keep the names of the source in snake_case. A function that the source
-- writes as one loop or switch is split into its steps, which a comment names.
--
-- Choices:
--   - A text that the code walks is a list of bytes (Text), lower-cased and trimmed as ASCII; an
--     identifier or a status that is only compared is a native string.
--   - A time is a number of nanoseconds. What time.Now, events.GenerateID and time.Format return enters
--     a call as an argument (Stamp in Jobs).
--   - A Go map is an association list whose order stands for an order of iteration. sort.Slice is an
--     insertion sort by the same comparator.
--   - The manager of jobs holds its mutex while it reads and writes the repository, so calls are
--     sequential. A call returns the manager beside its result, errors included. The bus is the list of the events handed to
--     Publish. Every job repository of the code has the methods with an expected status, so the
--     persist functions take their first branch.
--   - url.Parse, net.ParseIP, regexp and json.Unmarshal are parameters (Scope.Platform, Decoder of
--     Scope.Import). The regular expression of host names is written out by hand.
--   - The float64 rates of the throttler are an interface with an order and the steps that the code
--     takes (Rates); its laws hold for the numbers other than NaN. The constants are multiples of 0.5.
--   - Numbers are printed with fuel for twenty digits, which is enough below 10 ^ 20. No other function
--     takes fuel.
--
--   - The token patterns, url.Parse and JSON of the redaction are a parameter (Redactor), json.Marshal and
--     SHA-256 of the canonical form another (Digest), the hash and the date of an authorization
--     snapshot a third (Snapshots). Every method of MemoryStorage holds its lock from start to end, so it
--     is one step. A pointer that it returns is taken for a copy; ConfirmScopeAndCreateTarget returns the
--     stored target itself and GetFindingCandidate the stored evidence, and what a caller does through
--     those is not modelled.
--   - Go chooses the order of a loop over a map anew each time. Where the choice shows, in the canonical
--     form of headers, the orders are an argument (Ranging in Evidence.Canonical).
--   - The repository of targets that the manager of jobs asks may change between two calls (Reach).
--
-- Not modelled: the rest of reasoning/engine.go (RunReasoningCycle) and of storage/memory.go, the
-- PostgreSQL repositories and of recon, intel, jsintel, cloudintel, safenet, api, ai, config,
-- scope/sanitizer.go, the Python service and the front end. They are I/O, SQL, or regular expressions
-- over pages, or parts that are to follow.
pub mod Prelude
pub mod Models
pub mod Jobs
pub mod Scope
pub mod Waf
pub mod Reasoning
pub mod Planner
pub mod Evidence
pub mod Storage
pub mod Recon
pub mod EventBus
pub mod Tests
