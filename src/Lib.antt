-- ===== src/Lib.antt =====
-- Mona agent harness: the core of the Rust workspace under packages/.
--
-- A run keeps one canonical history of messages. The engine (packages/runtime/src/engine.rs) sends it
-- to a model, admits the reply together with the room to answer each of its tool calls, executes the
-- batch and appends the results. Plugins such as the planner keep their own state beside it.
--
-- Which file models which part:
--   Api.Error, Api.Artifact, Api.Content, Api.Message, Api.ToolResults: the data model and its
--     admission tests, packages/api/src/{error,content,message,protocol,tool}.rs.
--   Api.Validation: validate_messages of packages/api/src/validation.rs. Batches describes a well-paired
--     history independently of the code; Soundness and Completeness relate the two.
--   Runtime.History: History and ToolBudget of packages/runtime/src/history.rs. Exact is about the byte
--     count, Budget about the slots of one batch, Closing about closing a batch.
--   Planner.State: PlanSnapshot of packages/planner/src/state.rs. Update has the operations.
--   Planner.History: packages/planner/src/history.rs. Seeds is about a plan that is bound to a run, Revisions,
--     Newest and Origins about the loops over confirmed results, Confirmed, Results and Reported about which
--     results these are, Recovery about what a checkpoint gives back.
--   Api.Task: TaskControl of packages/api/src/run.rs, whose branches share one quota. Account has the
--     statistics, Quota and Rollup what a tree of handles counts, over a heap with aliasing.
--   Api.Options, Api.Checkpoint: ModelOptions of protocol.rs, and packages/api/src/checkpoint.rs.
--   Runtime.Checkpoints: packages/runtime/src/checkpoint.rs. Commits is about what the sink receives.
--   Runtime.Tools: run_one and cap_result of packages/runtime/src/tools.rs. Guards is about when the body
--     of a tool is entered, Capping about the size of a result.
--   Runtime.Batch: the preflight and the groups of execute_batch in tools.rs. Authority is about the calls
--     that pass, Groups about the order and the isolation of exclusive calls. The loop that runs a group is
--     not modelled.
--   Runtime.Repair: repair_unsettled of packages/runtime/src/engine.rs.
--   Runtime.Projection: selected_tools, projection and recover_projection of engine.rs, and with_sources of
--     packages/api/src/context.rs. Sizes is about the bytes of the protected sources, Sound about what can
--     be sent with them.
--   Runtime.Execution, Runtime.Engine: the drive loop of engine.rs with its inputs, over an execution and the
--     answers of each round. Triples has what the operations keep, Requests, Rounds and Drive follow a run.
--   Runtime.Admission: Engine::start, the leases of runs, cancel_all and close. Driving is about an admitted
--     run, Capacity about the host.
--   Runtime.Report: the end of a run in engine.rs, from the repair to the report. Sound is about what it says.
--   Api.Limits: RunLimits of packages/api/src/run.rs.
--   Api.Event: packages/api/src/event.rs. Ui has the projection of tool results, Snapshot how an event
--     changes a snapshot.
--   Runtime.Events: the event bus, packages/runtime/src/events.rs. Operations and Pieces have what the
--     sinks call, Runs every call as the events it publishes, Replay the stream against the snapshot,
--     Finish the end of a run.
--   Application: packages/application/src/. Protocol, Entries and Subscriptions have what protocol.rs, the
--     collector of service.rs and subscription.rs do; Clients lets events, losses and turns of a client
--     come in any order; Histories, Positions, Collector, Frames and Following relate a client to the log
--     of its run, CatchUp says when it is up to date, and Journals bounds what is kept. Registry has the
--     runs and requests of service.rs, Calls its methods in any order, Resends a request that is sent again;
--     the inputs of a run are not modelled.
--   Providers.Sse: packages/providers/src/sse.rs. Splits is about the cuts of the network, RoundTrip about
--     what a well-formed stream is decoded to.
--   Prelude: numbers, words of a machine, strings, lists and sets that the parts share.
--
-- How the code corresponds: a function that mutates `self` returns the new state, `Result` is a data
-- type with the code's errors, an early return is `refuse`, and `?` is the bind of `Result`. A String is
-- the list of its Unicode scalar values, and `len` is its length in UTF-8 bytes. `usize` is 64 bits wide,
-- with the checked and saturating operations of Rust written out. Loops are structural recursion over the
-- lists that they iterate; only the loop that cuts a text into events (Runtime.Events.Pieces) runs on
-- fuel, one unit for each character, which is enough since each round takes one at least.
--
-- Parameters: serde_json is not under packages/. Its sizes are the record Api.Serializer.Serializer, with
-- the layout of a JSON array and of a tagged message as the laws IsJson. `V` stands for
-- serde_json::Value, `F` for f64. Cancellation tokens, the clock and the
-- answers of a checkpoint sink are arguments of the operations that read them. A panic is the error driver_panic.
--
-- Not modelled: the asynchronous scheduling of tokio, JSON decoding, file and network I/O, and floating
-- point sampling options; so the adapters of models, tools, sessions, sandboxes and bridges, which are
-- mostly such calls. The events of the loop, the input
-- meter, packages/compaction and packages/subagent are not modelled either.
pub mod Prelude
pub mod Api
pub mod Runtime
pub mod Planner
pub mod Application
pub mod Providers
