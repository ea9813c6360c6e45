-- ===== src/Lib.antt =====
-- Datum keeps hosts in a declared state: an agent reads layered documents, resolves them into one
-- manifest for its host, orders the resources, reads the host, plans, applies and verifies. This
-- library models the engine, the Go packages below internal/ that decide; what they call is a
-- parameter.
--
-- The parts, the files here, and the code:
--   * State: internal/state/state.go. Actions, states and outcomes, and HostFrom.
--   * Document: internal/document (document.go, names.go, value.go, identity.go, domains.go).
--     Document/Documents has the documents of a repository, Document/SafeText has SafeText,
--     Document/Reference has references, Document/Names the rules on names and ParseReference,
--     Document/Value the value tree and Lookup, Document/Canonical the canonical bytes, and
--     Document/Identity what names a target.
--   * Matcher: internal/match/match.go. Evaluate (`evaluate`) and Validate (`validate`).
--   * Resolve: internal/resolve. Resolve/Manifest has the types of a resolved manifest,
--     Resolve/Merge has merge.go: how the layers' values and references are merged,
--     Resolve/Substitute has substitute.go, and Resolve/Host has resolve.go: Host (`resolve_host`).
--   * Discover: internal/discover. Discover/Glob has glob.go, and Discover/Collect has what Walk
--     makes of the files that were read, with the nearest layer of each resource.
--   * Schema: internal/schema. Schema/Table has the fields of each type, Schema/Checks the checks of
--     a value, Schema/Rules those of several fields, and Schema/Validate Validate
--     (`validate_desired`).
--   * Anchor: internal/anchor/anchor.go. Which targets would reach Datum's own files.
--   * Revision: internal/revision/revision.go. The accepted revision.
--   * Metrics and Agent: internal/metrics/metrics.go and internal/report/report.go as far as they
--     keep state, and internal/agent/agent.go. One tick of the agent, and the loop of Run.
--   * Git: internal/git (git.go, verify.go). What is read from git's answers about references,
--     ancestry and signatures.
--   * Source: internal/source/source.go. Select (`select_revision`), which picks the revision of a pass.
--   * Config: internal/config. Config has Parse and Validate behind the YAML library, Config/Sizes and
--     Config/Durations have scalars.go: ParseSize, String and ParseDuration.
--   * Affected: cmd/datum/affected.go. Which hosts a change between two revisions reaches, and what
--     changes on one of them.
--   * Graph: internal/graph/graph.go. Graph/Build has BuildProtecting (`build`), findDuplicateTargets
--     and buildEdges, Graph/Sort has sort and describeCycle.
--   * Provider: internal/provider/provider.go. The interface that the operating systems' providers
--     implement, a record of `observe` and `apply` over a type `World` of hosts.
--   * Observe: internal/observe/observe.go. Host (`observe_host`) reads what a graph declares.
--   * Plan: internal/plan. diff.go is Plan, with Compare (`compare`); plan.go is Plan/Build, with
--     Build (`build_plan`).
--   * Reconcile: internal/reconcile/reconcile.go. Reconcile/Block has block, Reconcile/Apply has
--     enforce and verify for one step, and Reconcile/Pass has Apply (`apply`) and outcome.
--   * Schedule: internal/schedule/schedule.go. When the next pass is due.
--   * Prelude, Map and Text: lists, numbers, Go's maps and strings, and the functions of strings,
--     strconv and path/filepath that the code uses. Samples applies the theorems to a package with
--     its configuration file and service, and to a small repository.
--
-- They meet as in the code: `resolve_host` folds the layers of a repository and validates what it
-- merged, `build` takes the resources of a manifest and gives a graph, refusing what the anchor
-- refuses, `observe_host`
-- reads the host in the graph's order, `build_plan` compares and gives steps in that order, and
-- `apply` runs the steps, changing the host through the providers alone.
--
-- How the code is represented:
--   * A function that changes a receiver or a map returns the new value. A pass threads the host and
--     the variables of Apply's loop in a record, Pass.
--   * A Go map is an association list, written in place; the map of a value tree stands in the order
--     of its keys. Where Go ranges over a map in no fixed order and then sorts, the model goes
--     through the list and sorts. sort.Slice is an insertion sort that keeps the order of equals.
--   * A string is a list of bytes, a reference a pair of strings. Go's panics do not occur here.
--   * Errors are constructors that carry what the message names.
--   * Times are integers of nanoseconds since 1970. The interval is cut at the largest int64 as in the
--     code; time.Sub, which cuts off centuries away from 1970, is plain subtraction.
--   * The context is a predicate `stopped` on the resource at which the loop finds it cancelled. The
--     time limit of one action is the answer `overran` of a provider.
--
-- Loops without a structural argument run on fuel: `place` has one round for each node, `follow` one
-- more than there are stuck nodes, and `drain` one more than there are edges. The theorems on `sort`,
-- `build` and `block` hold without a hypothesis on fuel, so these bounds are enough.
--
-- The scan of placeholders has one round more than the text has bytes, and nearestLayer one more
-- than the directory has; the theorems on them show that these are enough.
--
-- Parameters: `refuses` is the check of internal/anchor wherever the graph is studied alone, and
-- `identity_refusal` the one that reads the host; `hash` is SHA-256; `match_segment` is
-- filepath.Match and `relative` filepath.Rel; the results of system calls are inputs; a provider is
-- any record of the interface.
--
-- Not modelled: the YAML library and the reader over its trees; running git, the network and the lock
-- of a pass (internal/run, internal/lock), so that git is a parameter that maps arguments to an answer;
-- the providers themselves; the formatting of reports and metrics; the command line, but for the command
-- `affected`.
pub mod Prelude
pub mod Map
pub mod Text
pub mod State
pub mod Document
pub mod Schedule
pub mod Matcher
pub mod Discover
pub mod Revision
pub mod Metrics
pub mod Agent
pub mod Config
pub mod Affected
pub mod Git
pub mod Source
pub mod Schema
pub mod Anchor
pub mod Resolve
pub mod Graph
pub mod Provider
pub mod Observe
pub mod Plan
pub mod Reconcile
pub mod Samples
