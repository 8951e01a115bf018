-- ===== src/Lib.antt =====
-- calloop: a callback-based event loop for Rust. The loop polls file descriptors and timers, hands
-- each event to the source that it belongs to, and lets callbacks insert, change and remove sources
-- while they run.
--
-- The parts and the files that model them:
--   Token        src/token.rs and the token types of src/sys.rs: `TokenInner` packs a slot, a version
--                and a sub-source into a polling key; `TokenFactory` numbers the sub-sources.
--   SourceList   src/list.rs: the slots of the loop, reused under a new version.
--   Wheel        `TimerWheel` of src/sources/timer.rs. The binary heap is a list from which a
--                greatest element by `cmp` is picked.
--   Sys          src/sys.rs: `Poll` with the emulation of level-triggered events and the timers.
--   PostAction   `PostAction` of src/sources/mod.rs.
--   Sources      the trait `EventSource` of src/sources/mod.rs as an interface, with its instances
--                Sources/Generic (src/sources/generic.rs), Sources/Timer (src/sources/timer.rs) and
--                Sources/Transient (src/sources/transient.rs), and on top of Generic: Sources/Ping
--                (src/sources/ping/eventfd.rs; Ping/Pipe is src/sources/ping/pipe.rs, Ping/Contract
--                what both promise) and Sources/Signals (src/sources/signals.rs); on top of a ping:
--                Sources/Channel (src/sources/channel.rs), Sources/Stream (src/sources/stream.rs)
--                and Sources/Executor (src/sources/futures.rs; Executor/Process is the handling of
--                an event, Executor/Threads the atomic steps of the threads as a relation).
--   Async        src/io.rs: the dispatcher, and in Async/Adapter the adapter with its futures.
--   Dispatcher   `RefCell<DispatcherInner>` and the set of lifecycle tokens of src/sources/mod.rs.
--   Loop         src/loop_logic.rs. Loop/Handle has the calls of `LoopHandle`; Loop/Program has user
--                code as a tree of such calls; Loop/Event the handling of one event; Loop/Dispatch the
--                blocks of `dispatch_events` and `dispatch_idles`; Loop/Cycle puts them together, with
--                the retry of an interrupted poll, `dispatch`, `run` and `block_on`, whose
--                future is user code as well.
--                Loop/Answers, Invariant, Tokens, Pending, Lifecycle, Retry, Turns and Idles have its
--                proofs; Loop/Threads is the flags of `run` and `block_on` with the threads that set
--                them, as a relation in which a notification is sent or fails, and
--                Loop/Invariant/Life a loop from `try_new` on.
--   Error        src/error.rs, and the outcomes of an operation: a value, an error, or a panic.
--   Common       shared lists, tests and names.  Tests: concrete runs.
--
-- How they interact: `dispatch` asks `Poll` for events and due timers, finds each event's slot by
-- its token, borrows the dispatcher of the slot and runs the callback, which may call the handle
-- again; then it applies the action that the callback returned or left pending. An `Rc` is an index
-- into the cells of the loop, a `RefCell` knows whether it is borrowed, and a borrow that Rust
-- would refuse is a panic. A failed operation keeps what it changed before it failed.
--
-- Parameters: the crate `polling` is the interface `Poller`, the calls on an eventfd are `Eventfd`,
-- those on a pipe `Pipe`, `fcntl` is `Fcntl`, the sets of signals with the calls on them `SigSets`,
-- the crate async_task `AsyncTask`, the crate slab `Slab`, a stream of the user `Stream`, the enum
-- of signals of nix `NixSignal`; a user's source is an instance of `EventSource` with its callbacks
-- in `UserCode`. An instant is a number of ticks; clock readings, and the flags that other threads
-- set, are read from lists (`Attempt`, `Turn`).
--
-- Fuel: the loop over due timers runs on the number of entries of the wheel, each round taking one
-- out. The loops that read a pipe, a stream or a signalfd until it is empty run on fuel, which is
-- enough when it exceeds what they hold. The retry loop runs on the list of clock readings, and
-- says so when they run out.
--
-- Not modelled: Windows support, the vectored reads and writes of src/io.rs, poisoned locks, the
-- accessors of a signal's event, Debug output and logging. The drop of a source after its last
-- reference is modelled for Generic alone, and not within the loop. Layouts of tokens for 32- and
-- 16-bit targets differ in widths only. The tie between equal deadlines in the heap is resolved one
-- way here, which no theorem relies on.
pub mod Async
pub mod Common
pub mod Dispatcher
pub mod Error
pub mod Loop
pub mod PostAction
pub mod SourceList
pub mod Sources
pub mod Sys
pub mod Tests
pub mod Token
pub mod Wheel
