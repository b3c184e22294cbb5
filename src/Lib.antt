-- ===== src/Lib.antt =====
-- A verification library for the operator that merges LokiTenantOverride and MimirTenantOverride
-- custom resources (CRs) into the runtime-overrides ConfigMap of each backend.
--
-- The parts and how they interact. A reconcile (internal/controller/loki_controller.go and
-- mimir_controller.go) checks the output ConfigMap for drift, lists all CRs of its kind, decodes and
-- validates each one (internal/validate), groups the valid ones by tenant, sorts each group and
-- merges it with conflict tracking (internal/merge), renders the result (internal/render), applies
-- it (internal/apply), remembers its hash (hashcache.go), and writes the status of each CR
-- (status.go, peers.go). A bootstrap runs before (bootstrap.go); a target that is switched off has a
-- reconciler that only says so (disabled.go); the webhooks (internal/webhook) check a CR when it is
-- created or updated.
--
-- Which file models which part:
--   Value, Merge      the decoded documents; DeepMerge and deepCopy of internal/merge/merge.go
--   Overrides         Override, GroupByTenant, SortGroup (types.go, group.go)
--   Conflict          TrackingMerge, walkLeaves, leafValuesEqual (conflict.go)
--   Api               the types of api/v1alpha1, one record for the two kinds
--   Status, Peers     status.go and peers.go of internal/controller
--   Drift             drift.go and hashcache.go
--   Render, Apply     internal/render/render.go, SortedMarshal, internal/apply/apply.go
--   Reconciler        loki_controller.go and mimir_controller.go, one child for each method or two
--   Disabled          disabled.go
--   Runs              reconciles, bootstraps, restarts and other writers, as a step relation
--   Bootstrap         bootstrap.go
--   Config, Startup   internal/config/config.go, cmd/main.go, internal/validate/init.go
--   Watches           SetupWithManager of internal/controller
--   Copies            api/v1alpha1/zz_generated.deepcopy.go
--   Validate, Webhook internal/validate and internal/webhook
--   Banner            cmd/banner.go
--   Metrics           the names of internal/metrics/metrics.go
--   Platform, Proc    the interface to what the program only uses, and the type of its procedures
--   Prelude, Order, Format  shared helpers; Tests holds the examples
-- The laws of a part stand in its child modules.
--
-- State. A procedure takes the state (the cluster, the hash cache, the effects recorded so far) and
-- returns a value, an error or a panic beside the new state. The Kubernetes API, the clock, JSON,
-- YAML and SHA-256 are parameters, collected in the record Platform and, for the limits of the
-- backends, Upstream. A call of the API returns the cluster that it leaves, so that other writers may
-- act between two calls.
--
-- Representation. A Go map is the list of its entries in one iteration order. A string is its bytes.
-- A float64 is its bit pattern. An int32 or int64 that the code only compares and prints is an
-- integer. A value none stands for nil, or for a panic where the result of a pure function may be
-- one. All loops are structural recursion; there is no fuel.
--
-- Specification. Reconciler/Specified says what the output is to be: the CRs of a tenant laid over
-- each other in merge order, with no loop over groups and no conflict tracking. Reconciler/Refines
-- makes of it a function on the set of CRs, a quotient of the lists by their order. Reads
-- may be stale, since the client of the manager reads from a cache: no theorem assumes that a get sees
-- the write before it. Apply/Laws says what an apply that returns has found or sent.
--
-- Not modelled: parsing of the flags, logging, the scheme and the manager of cmd/main.go, the
-- registration with Prometheus, the tests under test, and the order in which goroutines interleave
-- within one procedure.
pub mod Prelude
pub mod Order
pub mod Value
pub mod Merge
pub mod Overrides
pub mod Conflict
pub mod Copies
pub mod Api
pub mod Status
pub mod Peers
pub mod Drift
pub mod Platform
pub mod Proc
pub mod Format
pub mod Render
pub mod Apply
pub mod Metrics
pub mod Reconciler
pub mod Disabled
pub mod Bootstrap
pub mod Config
pub mod Startup
pub mod Validate
pub mod Webhook
pub mod Banner
pub mod Tests
pub mod Watches
pub mod Runs
