-- ===== src/Lib.antt =====
-- A model of ProjectOS's orchestration core, with theorems on it.
--
-- ProjectOS runs software projects by agents. Its state is one SQLite database; the daemon, the
-- workers, the PM agent and the HTTP interface change it through the functions of
-- src/projectos/store.py and src/projectos/run_next_actions.py, each inside a transaction. This library
-- models these functions and some beside them: the jobs and their life cycle, the leases of workers and their recovery, the
-- isolation of projects, the dependencies of jobs, the choice of the next job, the next actions of
-- an execution run and its end, the outbox of domain events and its dispatcher, the records that make a
-- request run once, the Sponsor's decisions, the QA gate, the routing of findings, and the versions and
-- gates of a release, and the report on a project's budget.
--
-- Files and code:
--   Base: shared names; Base/Tests: Boolean tests; Base/Tables: WHERE, UPDATE and COUNT on lists of
--     rows; Base/Order: ORDER BY.
--   Store/Schema: the tables as records, `Db` as the database. Rows stand in the order of insertion,
--     and AUTOINCREMENT is a counter beside the table.
--   Store/Action: a function of store.py that takes a connection is an `Action`: from a database to
--     what it returns or raises and the database it leaves. `connection` is that of
--     src/projectos/db.py: an exception undoes what was written.
--   Store/Rows, Store/Leases, Store/Lifecycle, Store/Creation, Store/Selection: the functions of
--     src/projectos/store.py under their own names. Statements of several functions that are the same
--     are shared (`end_job`, `has_id`).
--   Store/NextActions/Backing, Store/NextActions/Liveness, Store/NextActions/Reconcile:
--     src/projectos/run_next_actions.py, with the run and work rows it reads.
--   Store/Framing: what every step of an action keeps, as a relation on databases.
--   Store/Operations: the operations as one type, and any sequence of them.
--   Store/Consistency, Store/Isolation: what every sequence of operations keeps.
--   Store/Recovery: the recovery of expired leases, and the exclusion of a second worker.
--   Store/Lifecycle/Failure, Store/Lifecycle/Retry: the policy of a failure and its retry;
--     Store/Lifecycle/Ends: the operations that end a job.
--   Store/Selection/Choice, Store/Selection/Eligible: the choice of the next job, and of all that may run;
--     Store/Selection/Dependents: the two readings of the edges.
--   Store/NextActions/Persisted, Store/NextActions/Reconciled: the actions accepted and reconciled.
--   Runs/Outcomes: src/projectos/run_outcomes.py; Runs: src/projectos/execution_run.py and
--     src/projectos/run_state.py, on the same tables; Runs/Terminal: which events end a run.
--   Outbox: the table event_outbox and the operations of src/projectos/event_dispatcher.py on it;
--     Outbox/Emission: the rows that src/projectos/domain_events.py inserts; Outbox/Dispatch: a pass of
--     dispatch_event_outbox, as the verdicts on the claimed rows and what is written for them;
--     Outbox/Claims, Outbox/Order, Outbox/Holds: the exclusion of claims, the order in a stream, and
--     the rows held behind another.
--   Requests: the operation locks, idempotency keys and Slack claims of src/projectos/store.py, with
--     replay_or_begin and remember of src/projectos/services/control.py; Requests/Locks,
--     Requests/Idempotency and Requests/Slack: their properties.
--   Governance: the governance decisions of src/projectos/decisions.py and their tables in
--     src/projectos/store.py; Governance/Texts: the checks of texts; Governance/Opening and
--     Governance/Answers: open_decision, approve_decision and reject_decision; Governance/Sponsor: the
--     grant on a job; Governance/Inversion, Governance/Decided, Governance/Once: a decision is made once;
--     Governance/Effect: what an approval does to a job.
--   Quality: src/projectos/qa_gate.py and the validation of src/projectos/assurance_verdict.py;
--     Quality/Reviewed: the reviews that a call asks for; Quality/Rule, Quality/Gate, Quality/Counts and
--     Quality/Verdict: the gate, the counts, and what a recorded verdict does to the gate.
--   Remediation: src/projectos/finding_routing.py and src/projectos/remediation_capability.py;
--     Remediation/Groups: the groups of findings.
--   Delivery: src/projectos/delivery/semver.py and the loop of src/projectos/delivery/release_version.py;
--     Delivery/Decimal and Delivery/Semver: printing and reading; Delivery/Search and Delivery/Release: the next version;
--     Delivery/Gates: src/projectos/delivery/gates.py, and the gates' table of
--     src/projectos/delivery/store.py; Delivery/Gates/Statuses and Delivery/Gates/Blocking: what is read of
--     that table, and which gates block.
--   Budget: src/projectos/budget.py on the jobs' table and the columns of agent_runs and
--     project_schedules that it reads; Budget/Usage: one run; Budget/Report: the report. Base/Integer:
--     Python's integers.
--   Tests: scenarios at concrete input.
--
-- Choices of the model: each reading of the clock is an argument, in the order in which the function
-- makes them, in microseconds; a stored time is in seconds, as `replace(microsecond=0)` leaves it. In the
-- Governance functions some readings of one call are one argument: in `approve_decision`, `later` is read
-- by the release of the lease, the decision's update and its two events, and in `reject_decision`, `now`
-- by the update and the event.
-- Ids, priorities and attempts are natural numbers. A text that the code formats from values is a
-- constructor with these values (`Message`, `Payload`), and a JSON column that the code only stores is
-- its text. An outbox payload is an object that is not empty, or no JSON. `root_key` stands for
-- `_root_key`, which asks the file system; `fresh` for the random part of an action's id. The table run_next_actions is there, as the migrations make it. The loops go
-- through a list that was read before them, but for two on fuel: `decimal_in`, which needs no more than
-- the number and one, and `next_unpublished`, which needs no more than the number of published versions
-- and one; both bounds are proved. Python's texts are ASCII where they are stripped, compared in another
-- case or parsed. json.dumps and json.loads are parameters, and so is what Slack's client makes of an
-- outbox row (`post`). In a sequence of operations, one
-- that raises leaves what it had written, as in a transaction whose caller goes on.
--
-- Not modelled: reclaim_interrupted_running_job is defined, and is not among the operations of a
-- sequence; has_durable_next_action, which reads the remediation tables; the other tables of store.py
-- (evidence, the writing of agent runs, iterations, Slack envelopes); event_truthfulness.py; the printing of a
-- budget report, whose rows come without an order in SQL and in the table's here; the planning, the hand-off to
-- assurance, the remediation work, the release decisions and the delivery service; the interfaces (HTTP, Slack, command line), which pass
-- requests on; git, processes and files.
pub mod Base
pub mod Store
pub mod Runs
pub mod Requests
pub mod Outbox
pub mod Governance
pub mod Remediation
pub mod Quality
pub mod Delivery
pub mod Budget
pub mod Tests
