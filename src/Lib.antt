-- ===== src/Lib.antt =====
-- Verification of my-agent, a coding agent whose daemon holds the state of a workspace.
--
-- The program. Entries (command line, terminal, web) send requests to the daemon, which admits each
-- as a run of a session in a SQLite store (src/storage). A session executes one run at a time; the
-- others wait in its queue. A run calls a model provider (src/provider), whose stream of events is
-- put together into text or tool calls (src/tool_calls.rs); a failed call is retried or handed to
-- another candidate (src/provider/retry.rs, src/provider/circuit.rs). Each batch of tool calls is
-- written to the store before it is executed and after it. A run may ask its user a question, hand
-- work to child runs (src/storage/delegation.rs), and ends once; after a restart of the daemon,
-- what was being executed is marked as unknown and waits for a manual resolution.
--
-- The files.
--   Prelude and below: names of the libraries, Boolean tests, integers, text, dictionaries, and the
--     tables of SQL as lists of rows (first_where, update_where, count_where).
--   Result: RuntimeError and `Result` of src/storage/mod.rs, with the predicate Ensures.
--   Runs.Types: the tables of src/storage/mod.rs, and RunStatus with as_str and parse.
--   Runs.Rows: insert_event, read_run_in; mark_terminal_in of src/storage/delegation.rs.
--   Runs.Queue: admit_with_route, try_start_queued, remove_queued.
--   Runs.Tools: prepare_tool_batch, start_tool, finish_tool, finish_tool_batch.
--   Runs.Interactions: append_event, claim_interaction.
--   Runs.Attempts: start_provider_attempt, finish_provider_attempt.
--   Runs.Finish: finish, recover, reconcile_unknown.
--   Runs.Changes: what a run is to the others, as a step relation: each step changes the status of
--     a run along an edge of its life, inserts a run, or numbers an event. Runs.Changes.Sound,
--     Runs.Changes.Settled and Runs.Changes.Requests hold the invariants of the relation, Runs.Refine and below take
--     each operation to a path of it, and Runs.Ops puts the operations of both files of
--     src/storage into sequences.
--   Runs.Laws: what single operations do.
--   Delegations: admit_delegation of src/storage/delegation.rs. Delegations.Results:
--     reserve_delegation_result, release_delegation_result and deliver_delegation_result (the last
--     two are transition_result with a Target), with Life and Takeover over sequences of calls.
--   Provider.Error, Provider.Retry, Provider.Circuit: the files of those names in src/provider.
--     Retry.Outcomes follows the decisions of a call that fails again and again; Circuit.Traces and
--     Circuit.Held are the breaker over sequences of calls, Circuit.Probes its probes.
--   Provider.Attempt: the usage of src/provider/attempt.rs, and provider_usage of src/storage/mod.rs.
--   Assembler: src/tool_calls.rs.
--   Messages: the messages of src/provider.rs; Messages.Pairing: histories in which every tool call
--     is followed by its results.
--   Context: src/context.rs. Tokens estimates a text and cuts it, Summary is summarize_text, and
--     Compress has compress_history, compact_for_overflow and prepare; Chunks and History have
--     what they promise.
--   Turn: src/loop_engine.rs. Stream is request_model_once and AttemptObservation, Request is
--     request_model, Repeats is RepeatDetector, Waves is execute_in_waves, and Rounds, with its
--     Calls and Steps, is run_turn_inner with execute_one and record. Rounds.Effects and Rounds.Ends
--     follow a round through every way in which it may end; Request.Returned and Request.Probe follow
--     the probes of half-open circuits through a request.
--   Plan: src/plan.rs.
--   Cron: the store of src/cron.rs; Cron.Attempts: the loop of its execute_job.
--   Safety: src/safety.rs. Words are the methods of `str` it uses, Commands is classify_command, Paths
--     resolves a path (Resolved and Protected say to what, and which are protected), Policy has the
--     decisions; Permits states them as tables.
--   Approvals: src/daemon/approval.rs; Approvals.Traces: the broker over sequences of calls.
--   Examples: the theorems at concrete inputs.
--
-- The correspondence. An operation takes the database and returns the new one, or an error, after
-- which the transaction is rolled back and the database is the old one. The connection's mutex
-- makes an operation one step. A table is the list of its rows in the order of insertion; the id of
-- a run, "run-{rowid}", is the rowid. A status column holds the status itself instead of its text.
-- An operation reads the clock once: `now`, a number of milliseconds, is an argument. Counts and
-- budgets are natural numbers; where the source caps a sum at the largest u32 or u64, so does the
-- model. The text of JSON and the digest of an evidence are parameters (to_json, sha256), as are
-- the parser of a tool's arguments, the substring test, and the answer of a write to a file
-- (persist). The uniqueness of (run_id, seq) in `events` is not tested at an insert, since the
-- numbers follow `last_seq`.
-- Text is a String where it is kept and the list of its code points where it is read; a path is the
-- list of its names behind the root. A method of `str` that looks at case looks at ASCII only, as
-- to_ascii_lowercase does.
-- The cron crate is a record of a type of schedules, a parser and a next time.
-- What a turn meets outside is a record of functions: the streams of the providers, the times, the
-- cancellation and the compaction by the number of the attempt (World), the tools, the store and the
-- session by the number of the round (Engine). The loops of request_model and run_turn_inner are
-- written with what follows a step as an argument of the step.
-- Fuel. The attempts of a scheduled job take max_retries + 1. A candidate of a request takes two more
-- than the largest retry budget of the policy (candidate_fuel): each retry uses up a unit of the
-- budget of its error, and the messages are compacted at most once. The waves take the number of the calls.
-- A call that fails again and again takes any number above the retries of its error.
-- A turn with a limit of n rounds takes n + 1; a turn without a limit may go on for ever, as in the
-- source. All other recursion is over the rows, the calls, the events or the depth of a summary.
--
-- Not modelled: files and migrations, sockets, processes, the terminal and the web pages, the wire
-- formats of the providers, the read-only queries of the store but provider_usage, and the descriptors
-- of src/safety/file_access.rs. The model of a turn does not write the attempts of a request to the
-- store and takes that write to succeed; Runs.Attempts has it.
pub mod Approvals
pub mod Assembler
pub mod Context
pub mod Cron
pub mod Delegations
pub mod Examples
pub mod Messages
pub mod Plan
pub mod Prelude
pub mod Provider
pub mod Result
pub mod Runs
pub mod Safety
pub mod Turn
