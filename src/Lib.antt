-- ===== src/Lib.antt =====
-- The harness of the multi-agent travel planner, its validators, final aggregation and run service.
--
-- Agents run models and tools in a bounded loop and publish Artifacts on a Blackboard, a scheduler
-- runs their tasks, a repository keeps runs, tasks, events and outbox rows for the workers,
-- deterministic validators check the itineraries that come out, the final aggregator makes one
-- bundle of them, and the run service keeps the versions of a bundle for its owner. The modules
-- follow these parts. Code is named by its path in the repository.
--
-- * `Harness.Blackboard` models packages/harness/blackboard.py. A `Board` is the three dicts of
--   `MemoryBlackboard`; `write`, `get`, `latest` and `lineage` are its methods, `validate` and
--   `create` those of `ArtifactRecord`. Its children hold the invariant of the tables, the outcomes
--   of a write, the history of versions and the order of a lineage.
-- * `Harness.Repository` models packages/harness/persistence/repository.py. A `Repository` is the
--   six tables of `MemoryHarnessRepository`. `Tasks` and `Events` hold its methods, under their own
--   names, `Requests` the mutating ones as data, and `perform_all` their interleavings. `Changes`
--   and `Outbox` are the abstract views: what a request may do to one task row or one outbox row;
--   `Invariant`, `Life`, `Grants`, `Recovery` and `Delivery` rest on them. `Heartbeats` and `EventLog`
--   follow one method each through its tests.
-- * `Harness.Scheduler` models packages/harness/scheduler.py. `Graph` holds `TaskNode` and the
--   checks of `TaskDAG`, `Nodes` the attempts of `_run_node` and `_run_attempt`, `Rounds` the loop
--   of `DagScheduler.run`. A call that does not return is the error `never_ends`.
-- * `Domain` holds the contracts of packages/domain that these parts exchange (`Messaging`,
--   `Travel`, `Options`, `TripRequest`, `Itinerary`, `Review`, `Bundle`) and, in `Validators`, the passes of
--   packages/domain/validators.py, one child for each or two of them.
-- * `Models.Ledger` models packages/models/ledger.py: `estimate` of `ModelPrice`, and `append`,
--   `decision`, `record_model` and `record_tool` of `UsageLedger`.
-- * `Models.Routing` and `Models.Schema` model packages/models/routing.py: `generate` of
--   `RoutedModelGateway`, and the schema check of outputs, which recurs on the schema;
--   `Relation` says what conforming means.
-- * `Harness.ModelGateway`, `Harness.ToolGateway` and `Harness.Agent` model
--   packages/harness/model_gateway.py, tool_gateway.py and agent.py: the contracts of a model turn,
--   `register`, `list_specs` and `execute` of the tool gateway, and `run` of `BaseAgent`, whose
--   loop is `run_steps`. What gateways and handlers change is the type `World`.
-- * `Workflow.Repair` models packages/workflow/repair.py: the task tables, `dependency_closure`,
--   `plan` and `resume_after_clarification` of `TargetedRepairController`, and its `execute`, which
--   writes to the model of the Blackboard, in `Execution`.
-- * `Agents.Artifacts` models the artifacts of packages/agents/destination_intelligence.py and
--   mobility_lodging.py, and `Workflow.FinalAggregator` packages/workflow/final_aggregator.py:
--   `merge_evidence`, `build_comparison`, `freshness`, and `aggregate` up to its bundle.
-- * `Api.RunService` models apps/api/run_service.py, and `Api.RunModels` run_models.py. A
--   `RunService` is the state of `InMemoryTripRunService`; its methods keep their names, `_create_locked`
--   is `create` with its parts, and `serve_all` is a sequence of requests.
--   `Runs` holds a stored run and its operations, `Readers` and `Requests` the reading and the
--   changing calls, `Versions` what is true of one stored run, `Invariant` of all of them.
-- * `Prelude` holds what the modules share: dicts as association lists, stable sorting, outcomes,
--   lists over the native numbers.
--
-- A method that changes its object is a function from its state and arguments to a result and the
-- new state. The methods run under a lock, so each is one step, and concurrent callers are a list
-- of requests. What is raised is a constructor of an error type. An instant is a number of
-- microseconds since the year 1, UTC; a date is its ordinal; money is in hundredths. The hash of a
-- payload, `str` of a JSON value, the ends of operations, the state of the cancellation token, the
-- handlers of a repair, the order of a set of coordinate systems, the gateways of models, the handlers
-- and validation of tools and the sleeper are arguments, and so are the rounding of a share, the digests
-- and tokens of the run service, and the fixture bundle that it serves.
--
-- Fuel: `lineage` recurses at most once below each stored record, so the number of records is
-- enough on the tables that writes build; `_validate_acyclic` pops an id in each round, so the
-- number of nodes is; `DagScheduler.run` ends a node in each round, so one round more than there
-- are nodes is; a pass of `_dependency_closure` that goes on adds a task, so six passes are.
--
-- Not modelled: the Postgres classes and `build_lease_statement`, which are SQL; the field
-- constraints of pydantic; a cancellation of the caller, KeyboardInterrupt and SystemExit;
-- Python's recursion limit; the loops of recovery.py, the orchestrator and
-- `BudgetedModelGateway`, which join parts that are modelled; the prompts and float scores of
-- the agents; the adapters of providers; rendering; the rest of the web application.
pub mod Prelude
pub mod Agents
pub mod Api
pub mod Workflow
pub mod Models
pub mod Domain
pub mod Harness
