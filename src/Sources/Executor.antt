-- ===== src/Sources/Executor.antt =====
-- sources/futures.rs: an executor of futures as a source, over a ping. The crate `async_task` is the
-- interface `AsyncTask`, the crate `slab` the interface `Slab`, and the receiving end of
-- `std::sync::mpsc` a queue. `F` stands for futures, `T` for their values, `R` for the runnables of
-- `async_task`, `V` for wakers.
pub mod Process
pub mod Threads
pub mod Wakeups
pub mod Sequential
pub mod Results
pub mod Destroyed
use calloop.Common.{
  ℕ, zero, suc, Option, none, some, List, [], ◌∷◌, ◌++◌, Bool, true, false, if◌then◌else◌,
}
use calloop.Error.{Boxed, Result, ok, err, panicked, M, ◌>>=◌, ◌>>◌, zoom}
use calloop.Token.{Token}
use calloop.Sys.{Readiness}
use calloop.PostAction.{PostAction}
use calloop.Sources.Generic.{Generic}
use calloop.Sources.Ping.{Eventfd, ping}
use calloop.Sources.Ping

pub data Active (T V : Type 0) : Type 0 where
  future : V → Active T V
  finished : T → Active T V

-- The operations of `slab::Slab` that the program calls; indexing and `remove` panic at a vacant key.
pub record Slab (A L : Type 0) : Type 0 where
  pub new : L
  pub vacant_key : L → ℕ
  pub insert : A → L → L
  pub get : ℕ → L → Option A
  pub set : ℕ → A → L → L
  pub remove : ℕ → L → L
  pub entries : L → List A

-- What a future does while it is polled, and what the callback does: calls of `Scheduler::schedule`,
-- each continued by whether it succeeded, and of wakers.
pub data Code (F V A : Type 0) : Type 0 where
  ends : A → Code F V A
  scheduling : F → (Bool → Code F V A) → Code F V A
  waking : V → Code F V A → Code F V A

-- How a run of a runnable ends: the future waits, has its value, or was dropped before it had one.
pub data Ran (T : Type 0) : Type 0 where
  pending : Ran T
  ready : T → Ran T
  dropped : Ran T

-- Of `async_task`, with `W` for the state of its tasks: a woken waker hands the runnable over to the
-- schedule function unless the task is scheduled already or is over. To drop a runnable drops its
-- future, whose destructor wakes nothing.
pub record AsyncTask (F T R V W : Type 0) : Type 0 where
  pub spawn : ℕ → F → W → R × W
  pub metadata : R → ℕ
  pub waker : R → V
  pub wake : V → W → Option R × W
  pub run : R → W → Code F V (Ran T) × W
  pub discard : R → W → W

-- `State` with its `Sender`; `active_tasks` is `none` once the executor is destroyed.
pub record State (R L : Type 0) : Type 0 where
  pub incoming : List R
  pub notified : Bool
  pub active_tasks : Option L

-- What the scheduler, the wakers and the running futures share: the state, the kernel, the tasks.
pub record Shared (K R L W : Type 0) : Type 0 where
  pub state : State R L
  pub kernel : K
  pub tasks : W

pub data ScheduleError : Type 0 where
  executor_destroyed : ScheduleError

abbrev pub is_ok : Result ScheduleError (Unit {0}) → Bool
is_ok (ok _) = true
is_ok _ = false

abbrev pub max_runnables : ℕ
max_runnables = 1024

module _ {K R L W : Type 0} where
  abbrev pub set_active : Option L → Shared K R L W → Shared K R L W
  set_active o s = record s { state = record (s.state) { active_tasks = o } }

module _ {F T R V W L K : Type 0} ⦃k : Eventfd K⦄ (a : AsyncTask F T R V W)
    (l : Slab (Active T V) L) (fd : ℕ) where
  -- `Sender::send`: the runnable is in the queue before the flag is read.
  unfoldable pub send : R → Shared K R L W → Shared K R L W
  send r s = record {
    state = record (s.state) { incoming = s.state.incoming ++ r ∷ []; notified = true };
    kernel = if s.state.notified then s.kernel else ping fd s.kernel;
    tasks = s.tasks;
  }

  enter_task : F → L → R × W → Shared K R L W → Shared K R L W
  enter_task f tasks (r, w) s =
      send r (set_active (some (l.insert (future (a.waker r)) tasks)) (record s { tasks = w }))

  schedule_in : F → Option L → M ScheduleError (Shared K R L W) (Unit {0})
  unfolding enter_task
  schedule_in f none s = (err executor_destroyed, s)
  schedule_in f (some tasks) s =
      (ok tt, enter_task f tasks (a.spawn (l.vacant_key tasks) f s.tasks) s)

  -- `Scheduler::schedule`.
  unfoldable pub schedule : F → M ScheduleError (Shared K R L W) (Unit {0})
  unfolding schedule_in
  schedule f s = schedule_in f s.state.active_tasks s

  woken : Option R × W → Shared K R L W → Shared K R L W
  woken (none, w) s = record s { tasks = w }
  woken (some r, w) s = send r (record s { tasks = w })

  -- `Waker::wake`, with the schedule function of `schedule`.
  unfoldable pub wake : V → Shared K R L W → Shared K R L W
  unfolding woken
  wake v s = woken (a.wake v s.tasks) s

  unfoldable pub perform : {A : Type 0} → Code F V A → Shared K R L W → A × Shared K R L W
  perform (ends x) s = (x, s)
  perform (scheduling f next) s = let (r, s') = schedule f s in perform (next (is_ok r)) s'
  perform (waking v next) s = perform next (wake v s)

  -- `executor`, over a new eventfd.
  unfoldable pub new_shared : K → W → Shared K R L W
  new_shared kernel tasks = record {
    state = record { incoming = []; notified = false; active_tasks = some l.new };
    kernel = kernel;
    tasks = tasks;
  }
