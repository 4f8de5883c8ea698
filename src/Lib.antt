-- ===== src/Lib.antt =====
-- A verification library of marie, a peer-to-peer runtime for sessions of language-model agents.
--
-- The program is a set of Rust crates; marie-core holds its logic. A session is a tree of frames. The
-- frames run as jobs; each run answers with updates of channels, with new entries of its run log and
-- with a result. What a run commits is kept in snapshots, and requests to humans wait in a store of
-- their own. One node at a time serves a session: it holds a lease, which a Raft group grants. Secrets
-- are encrypted under master keys that rotate by epoch, and definitions of agents, graphs and models
-- are published in a versioned catalog.
--
-- How the code is modelled. A struct behind a mutex is a record, and a method that changes it takes
-- the record and returns the new one. A `Result` is `Result`, a panic is `none` but in one place. Numbers are natural
-- numbers, with the wrap-around of a machine integer written out where the code can reach it. A
-- `HashMap` is a list of pairs, a `BTreeMap` one in ascending order of its keys. Clocks, random
-- identifiers and nonces are arguments. Code of other crates is a parameter: the time of chrono, the
-- values and codecs of serde_json, the ciphers, the types of openraft; a theorem that needs something
-- of them has it as a hypothesis. The functions recurse over their lists; only the removal of a
-- subtree, a loop over a stack, has fuel, one unit for each node that it takes from the stack, and
-- answers `none` when it runs out; one unit more than the cached nodes have children is enough.
--
-- The files and what they model:
--
--   Base            shared: Boolean tests, `PartialEq`, lists, `Result`, HashMap and BTreeMap
--   Id              marie-core/src/id.rs, node.rs: the identifiers and their equality; Text is their text,
--                   as bytes, and its parser
--   Lease           marie-core/src/lease: Protocol is protocol.rs; Authority is authority.rs (acquire,
--                   renew, release, handle_request); Storage is storage.rs (Log: the Raft log, Machine:
--                   the state machine and its snapshots)
--   Secret          marie-core/src/secret: Manager is mod.rs (SecretManager, the codecs, proofs of
--                   membership); Vault is vault.rs over in_memory.rs
--   Catalog         marie-core/src/catalog: Store is in_memory.rs, Facade is mod.rs
--   Session.Model   the data that frames carry, from expert, tools, job, worker, shell and catalog
--   Session.Hitl    marie-core/src/hitl: Validate is model.rs, Store is store/in_memory.rs, Service is
--                   service.rs
--   Session.RunLogs, Protocol, Channel, Spec
--                   marie-core/src/session: run_log.rs, protocol.rs, channel.rs, spec.rs
--   Session.Spec.Core
--                   the specs of the built-in frames, in session/spec.rs, as the macro core_spec of
--                   marie-macros/src/lib.rs builds them
--   Session.Graphs  marie-core/src/graph: the declaration of a graph and the catalog of graphs
--   Session.Sessions
--                   marie-core/src/session: model.rs, store/mod.rs; entity.rs (UnitOfWork)
--   Session.Snapshots
--                   marie-core/src/session/snapshot: Store is store/in_memory.rs
--   Session.Frames  marie-core/src/session/frames: Policy is policy.rs, status.rs and data.rs; Node,
--                   Container and Store are node.rs, container.rs and store/in_memory.rs; Tree is
--                   tree.rs (Access: the methods on one node, Links: insertion and detachment,
--                   Removal; Termination: its fuel)
--   Session.Checkpointer
--                   marie-core/src/session/checkpointer/mod.rs: State is the checkpointer with what it
--                   sends; Marks, Inheritance, Commits, Appends, Children, Runs and Handlers are its
--                   methods, process_event and run; the other files have the proofs
--   Session.Logs, Controller, Worker
--                   marie-core/src/session: logs (Store: logs/store/in_memory.rs), controller.rs and
--                   worker.rs
--   Cli             marie-cli/src/repl: Tokenizer is tokenizer.rs; Args is args.rs and the completion of
--                   completer.rs; a text is the list of its code points
--
-- How the parts meet: a frame's node holds run logs, channels and policies; the tree caches nodes over
-- the frame store, and the snapshots are cached over theirs, both with a mark of what is not yet
-- written; the checkpointer owns a tree, the snapshots, the requests and the session, reads the graphs,
-- and turns each event into changes of these, further events and jobs; the vault derives its keys from
-- the manager; the Raft state machine drives the authority.
--
-- Conventions of the model: the caches of the tree and of the snapshots have no bound, so nothing is
-- evicted; stores are those in memory, and the Postgres ones are not modelled; concurrent calls are
-- modelled as a sequence, one call at a time. A handler of the checkpointer is a function from its
-- state to a result with the new state, which is kept when the result is an error; what it emits,
-- spawns and announces is appended to lists of the state, and identifiers and readings of the clock
-- come from sequences. A future that the code creates and never awaits does nothing. The events that a
-- run receives are given as lists; the end of the second stands for the closing of the queue. The
-- `todo!()` at the end of on_hitl_response is a panic that keeps what was written and sent before: it
-- sets `panicked`, and the run goes no further. The panic of an unwrap is `none`. When an insertion
-- into the cache of the snapshots replaces a dirty one, its `Drop` detaches a task that writes it:
-- such writes are listed in `detached`, and `land` runs the first of them. They are not awaited, so an
-- event is taken as one step in which none of them runs; they may run before the next event. What the
-- caches detach when the run ends and drops them has no counterpart, nor have the writes of frames,
-- requests and sessions on Drop.
--
-- Numbers that the code bounds and the model does not: the superstep, a u32, and sums of instants and
-- durations, where chrono panics. A nonce of a wrong length, where the cipher panics, is an error. The
-- controller caches 300 checkpointers and closes the ones that it evicts; the model keeps all.
--
-- Not modelled: the deletion of sessions by their controller, the rest of the command line, the
-- workers, the nodes of graphs, and everything that is network, SQL, wiring or user interface.
pub mod Base
pub mod Catalog
pub mod Cli
pub mod Id
pub mod Lease
pub mod Secret
pub mod Session
