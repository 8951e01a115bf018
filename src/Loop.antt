-- ===== src/Loop.antt =====
-- The event loop of loop_logic.rs: its state, and the calls of `LoopHandle`.
pub mod Handle
pub mod Program
pub mod Event
pub mod Dispatch
pub mod Cycle
pub mod Invariant
pub mod Tokens
pub mod Pending
pub mod Retry
pub mod Turns
pub mod Answers
pub mod Threads
pub mod Idles
pub mod Lifecycle
use calloop.Common.{ℕ, Option, none, some, List, [], Bool, get_elem?, set}
use calloop.Error.{Error, Result, panicked, M}
use calloop.Token.{TokenInner, factory_new}
use calloop.Sys.{Poll, PollEvent}
use calloop.PostAction.{PostAction}
use calloop.SourceList.{SourceList}
use calloop.Dispatcher.{DispatcherCell, Dispatching, LifecycleSet}

-- The `RefCell` around the closure of `insert_idle`: the closure is called at most once, and `cancel`
-- drops it.
pub record IdleCell (I : Type 0) : Type 0 where
  pub callback : Option (Option I)
  pub borrowed : Bool

-- `LoopInner`. An `Rc` of a dispatcher is the index of its cell in `dispatchers`, and an `Rc` of an
-- idle callback that of its cell in `idle_cells`; `I` stands for the closures of idle callbacks.
pub record LoopInner (P S I : Type 0) : Type 0 where
  pub poll : Poll P
  pub sources : SourceList ℕ
  pub lifecycle : LifecycleSet
  pub idles : List ℕ
  pub pending_action : PostAction
  pub dispatchers : List (DispatcherCell S)
  pub idle_cells : List (IdleCell I)

-- `EventLoop`, with the user's data that a dispatch borrows.
pub record EventLoop (P S I X : Type 0) : Type 0 where
  pub inner : LoopInner P S I
  pub synthetic_events : List PollEvent
  pub user : X

module _ {P S I : Type 0} where
  dispatching : LoopInner P S I → TokenInner → DispatcherCell S → Dispatching P S
  dispatching l t cell = record {
    cell = cell;
    poll = l.poll;
    lifecycle = l.lifecycle;
    factory = factory_new t;
  }

  after_dispatching :
      {A : Type 0}
      → ℕ
      → LoopInner P S I
      → Result Error A × Dispatching P S
      → Result Error A × LoopInner P S I
  after_dispatching id l (r, d) = (
    r,
    record l { poll = d.poll; lifecycle = d.lifecycle; dispatchers = set l.dispatchers id d.cell },
  )

  at_cell :
      {A : Type 0}
      → ℕ
      → TokenInner
      → M Error (Dispatching P S) A
      → Option (DispatcherCell S)
      → M Error (LoopInner P S I) A
  unfolding dispatching after_dispatching
  at_cell id t m none l = (panicked, l)
  at_cell id t m (some cell) l = after_dispatching id l (m (dispatching l t cell))

  -- A method of the dispatcher `id`, with a token factory for `t`. No index dangles.
  unfoldable pub on_dispatcher :
      {A : Type 0} → ℕ → TokenInner → M Error (Dispatching P S) A → M Error (LoopInner P S I) A
  unfolding at_cell
  on_dispatcher id t m l = at_cell id t m (get_elem? l.dispatchers id) l
