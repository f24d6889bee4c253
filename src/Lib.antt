-- ===== src/Lib.antt =====
-- Verification of the core of wsync, the daemon that keeps a project's files on disk and the instances
-- of Roblox Studio in step.
--
-- The program. A file watcher feeds the read side of the processor (src/core/processor), which changes
-- the instance tree (src/core/tree.rs) and sends each change through the queue (src/core/queue.rs) to
-- the connected plugin; the plugin's pushes reach the write side through the server (src/server),
-- which changes the tree and the files. Between the two sides stands the conflict engine
-- (src/core/conflict/mod.rs), which both ask before they forward a change. When a plugin connects, its
-- snapshot is compared with the disk, and where the two disagree the sync base
-- (src/server/sync_base.rs), a record of the state on which the two last agreed, tells which side
-- moved (src/server/three_way.rs). A request to Studio leaves a receipt (src/server/operation.rs), and
-- one plugin at a time holds the bridge (src/server/ws/state.rs).
--
-- The files.
--   * Prelude and its children: the native numbers' Boolean tests, lists, maps keyed by numbers (a
--     function), text as a list of code points, and maps keyed by text (a sorted association list,
--     with `get`, `put`, `range_from` for `range` of a BTreeMap).
--   * Conflict models src/core/conflict. Conflict.Content is content.rs (`ContentState`,
--     `normalize_source`); Conflict.State is the data of mod.rs and the bookkeeping of
--     `ConflictEngine` (`prune`, `park`, `stamp`, `forget`, `take`, `restore`); Conflict.Fs has
--     `on_fs_addition`, `on_fs_update` and `on_fs_removal`; Conflict.Push has the five `on_push_`
--     handlers. The state is what the engine's mutex guards, a call takes it with the clock and gives
--     it back with the decision, and the notifications are part of what it returns. The definitions
--     follow the handlers' early returns: one for the parked instance, one for the open race window,
--     one for the rest. Conflict.Invariant and Conflict.Run are the invariant and the histories of
--     calls.
--   * SyncBase models src/server/sync_base.rs: `BaseView` (SyncBase.View) with its lookups, the
--     recorder's operations and its writer tick (SyncBase.Session), and `merge`. The writer reads the
--     tree between two critical sections, so the tick is two steps, `tick_commit` and `tick_store`, and
--     SyncBase.Interleaving lets every other call run in between.
--   * ThreeWay is `classify` of src/server/three_way.rs with its helpers.
--   * Queue models src/core/queue.rs: the listeners, the channels and the counters of each channel.
--     Queue.Run has sequences of completed calls; Queue.Races has what lies between the two locks
--     that `subscribe`, `push` and `unsubscribe` take one after the other.
--   * Operation models src/server/operation.rs: the bounded list of receipts and `completion`.
--   * PluginSlot models the plugin slot of src/server/ws/state.rs with the handlers that use it:
--     `plugin_connection` and `cleanup_plugin` of src/server/ws/mod.rs, and the routes of
--     src/server/subscribe.rs, unsubscribe.rs and read.rs. It calls the queue of Queue.
--   * Scope has the sync scope of src/project.rs, `parse_ref` of src/util.rs and `Key::from_studio`
--     of src/server/sync_base.rs.
--   * Divergence models src/server/divergence.rs. Divergence.Compare is `POST /compare`: the checks
--     of a chunk, `ingest_chunk` and the commit up to the connect apply, with the sync base and the
--     conflict engine that it changes. Divergence.Choice is the choice over a pending set.
--     Divergence.Decide is `decide`, the first step of the connect apply. Divergence.Protocol sends
--     an upload in chunks, and Divergence.Pending has sequences of requests.
--   * Resolve models `POST /resolve` of src/server/resolve.rs over the conflict engine;
--     Resolve.Records follows the parked records through it. Resolve.Auto is `auto_keep_studio`,
--     which calls the backlog of Backlog.
--   * CrashGuard models src/server/crash_guard.rs; CrashGuard.Survival has the lives of a daemon
--     and what the next daemon makes of a death.
--   * Backlog models src/server/backlog.rs over trees of files: the entries, the index file, what
--     is stored for an entry, and what stands at a workspace path. A call is given what the file
--     system refuses during it. Backlog.Copies has `copy_tree` and `same_tree`, Backlog.Entries,
--     Backlog.Captures and Backlog.Roundtrip the operations.
--   * Lifecycle models src/server/lifecycle.rs with the watchdog's two tests of src/daemon.rs;
--     Lifecycle.Watchdog has the rounds of the watchdog.
--   * Debouncer models src/vfs/debouncer.rs as it is built for Linux: translation, the events held
--     during a write, and their release. Debouncer.Run has sequences of its steps, and
--     Debouncer.Conservation follows the events through them.
--   * Tree models src/core/tree.rs and the sources of src/core/meta.rs: the metadata of instances
--     and the index from paths to instances. Tree.Removal is `remove_instance`, Tree.Operations
--     has each operation by itself, and Tree.Run sequences of them.
--   * Requests is the request router of src/server/ws/state.rs: the ids of requests, who waits for
--     a response, and the receipts behind them.
--
-- Numbers and time. Counters are natural numbers without a bound: the 64-bit counters of the queue
-- and the epoch of the sync base; the request ids wrap at 2 ^ 32. Instants and durations are natural
-- numbers, given to a call as the time at which it runs, and subtraction stops at 0 as
-- `saturating_sub` and `elapsed` do.
--
-- Fuel. Four loops have fuel: the search for a free id in `subscribe_internal`, where each round that
-- goes on has met another listener, so that one round more than there are listeners is enough, and
-- `next_request_id`, which skips the id 0 only and so needs two rounds; the walk of
-- `remove_instance`, which needs one level more than the instance is high; and the loop of
-- `get_change`, which takes one message a round, so that as many rounds as messages wait are enough.
--
-- Parameters. The hash of a content, the text of a property's value and the JSON values of
-- serde_json are records of functions (Conflict.Content.Codec, Operation.Json); what a message
-- carries is a field of Queue.Lib. The dom of rbx_dom_weak and the multimap are a record of
-- functions (Tree.Lib), with what is documented of them as the hypothesis Tree.Index.IsLib. The
-- parser of refs is a function. The unbounded channel of crossbeam is a record of functions
-- (Queue.Crossbeam), with what is documented of it, first in first out, as Queue.IsFifo: both are
-- fields of the queue's parameter Queue.Lib, and Queue.Fifo shows that a list of messages keeps these
-- laws. A send does not fail, since the receiver is held.
--
-- Not modelled: the walks over the tree for a content (Key::of, snapshot_tree), the connect apply but
-- its decision, the processor, the middleware that reads and writes files, the virtual file system but
-- its debouncer, the rest of the server's routes, the daemon's process control, the command line, and
-- everything whose work is input and output. The panics that a poisoned lock causes are left out.
-- The handlers of the plugin slot run one after the other.
pub mod Prelude
pub mod Backlog
pub mod Conflict
pub mod CrashGuard
pub mod Debouncer
pub mod Divergence
pub mod Lifecycle
pub mod Operation
pub mod PluginSlot
pub mod Queue
pub mod Requests
pub mod Resolve
pub mod Scope
pub mod SyncBase
pub mod ThreeWay
pub mod Tree
