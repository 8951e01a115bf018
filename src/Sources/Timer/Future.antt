-- ===== src/Sources/Timer/Future.antt =====
-- `TimeoutFuture` of sources/timer.rs. The cell of its waker, an `Rc` that the callback of its timer
-- shares, is passed on as a state; `W` stands for the wakers, and `K` for what they work on. The cell is
-- borrowed while a waker is woken, so `wake` has no part in it.
pub mod Awaited
use calloop.Common.{ℕ, Option, none, some, Bool, true, false, leb, if◌then◌else◌}
use calloop.Error.{Error, Result, ok, err, panicked, M}
use calloop.Token.{RegistrationToken}
use calloop.Sources.{EventSource}
use calloop.Sources.Timer.{Timer, TimeoutAction, drop, checked_add}
use calloop.Sources.Timer
use calloop.Dispatcher.{DispatcherInner}
use calloop.Loop.{LoopInner}
use calloop.Loop.Handle.{insert_source}

pub record TimeoutFuture : Type 0 where
  pub deadline : Option ℕ

module _ {W : Type 0} where
  unfoldable pub poll_at : Option ℕ → ℕ → W → Option W → Bool × Option W
  poll_at none now waker cell = (false, cell)
  poll_at (some deadline) now waker cell =
      if leb deadline now then (true, cell) else (false, some waker)

  -- `poll`, at the time `now`: whether it is `Ready`, and the cell of the waker. A future with no
  -- deadline is pending for ever, and keeps no waker.
  unfoldable pub poll : TimeoutFuture → ℕ → W → Option W → Bool × Option W
  unfolding poll_at
  poll f now waker cell = poll_at f.deadline now waker cell

module _ {W K : Type 0} (wake : W → K → K) where
  unfoldable pub wake_cell : Option W → K → K
  wake_cell none k = k
  wake_cell (some waker) k = wake waker k

  -- The callback of the timer.
  unfoldable pub on_timeout : ℕ → Option W × K → TimeoutAction × (Option W × K)
  unfolding wake_cell
  on_timeout deadline (cell, k) = (drop, (cell, wake_cell cell k))

module _ {P S I : Type 0} ⦃e : EventSource P S⦄ where
  -- `insert_source(..).unwrap()`.
  unfoldable pub unwrap_inserted :
      Option ℕ
      → Result Error RegistrationToken × LoopInner P S I
      → Result Error TimeoutFuture × LoopInner P S I
  unwrap_inserted deadline (ok t, l) = (ok (record { deadline = deadline }), l)
  unwrap_inserted deadline (err x, l) = (panicked, l)
  unwrap_inserted deadline (panicked, l) = (panicked, l)

  -- `to_source` makes the timer with its callback a source of the loop.
  unfoldable pub from_deadline_inner :
      (Timer → DispatcherInner S) → Option ℕ → M Error (LoopInner P S I) TimeoutFuture
  unfolding unwrap_inserted
  from_deadline_inner to_source deadline l =
      unwrap_inserted deadline (insert_source (to_source (Timer.from_deadline_inner deadline)) l)

  unfoldable pub from_deadline :
      (Timer → DispatcherInner S) → ℕ → M Error (LoopInner P S I) TimeoutFuture
  unfolding from_deadline_inner
  from_deadline to_source deadline = from_deadline_inner to_source (some deadline)

  unfoldable pub from_duration :
      (Timer → DispatcherInner S) → ℕ → ℕ → ℕ → M Error (LoopInner P S I) TimeoutFuture
  unfolding from_deadline_inner checked_add
  from_duration to_source limit now duration =
      from_deadline_inner to_source (checked_add limit now duration)
