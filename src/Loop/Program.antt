-- ===== src/Loop/Program.antt =====
-- User code that runs inside a dispatch of loop_logic.rs and holds a `LoopHandle`: a program of
-- calls of the handle, each continued by what the call answers.
use calloop.Common.{ℕ, Option, List}
use calloop.Error.{ok, Boxed, Error, Result, M, pure, panic, ◌>>=◌, ◌>>◌, attempt}
use calloop.Token.{Token, RegistrationToken}
use calloop.Wheel.{TimerWheel}
use calloop.Sys.{Readiness}
use calloop.PostAction.{PostAction}
use calloop.Sources.{EventSource}
use calloop.Dispatcher.{DispatcherInner}
use calloop.Loop.{LoopInner}
use calloop.Loop.Handle.{insert_source, insert_idle, cancel_idle, enable, update, disable, remove}

-- Besides the handle a callback may hold the timer wheel, as the timers do.
-- `S` are the sources that the program may insert, `I` its idle callbacks, `A` its result.
pub data Program (S I A : Type 0) : Type 0 where
  done : A → Program S I A
  panics : Program S I A
  inserts_source :
      DispatcherInner S → (Result Error RegistrationToken → Program S I A) → Program S I A
  inserts_idle : I → (ℕ → Program S I A) → Program S I A
  cancels_idle : ℕ → Program S I A → Program S I A
  enables : RegistrationToken → (Result Error (Unit {0}) → Program S I A) → Program S I A
  updates : RegistrationToken → (Result Error (Unit {0}) → Program S I A) → Program S I A
  disables : RegistrationToken → (Result Error (Unit {0}) → Program S I A) → Program S I A
  removes : RegistrationToken → Program S I A → Program S I A
  edits_timers : (TimerWheel → TimerWheel) → Program S I A → Program S I A

-- What the dispatch needs of the sources and of the idle callbacks, with `X` the user's data.
pub record UserCode (P S I X : Type 0) : Type 0 where
  pub process_events : Readiness → Token → S → X → Program S I (Result Boxed PostAction × S × X)
  pub before_sleep : M Error S (Option (Readiness × Token))
  pub before_handle_events : List (Readiness × Token) → S → S
  pub idle : I → X → Program S I X

module _ {P S I : Type 0} where
  -- The wheel that the timers share with the `Poll`.
  unfoldable pub edit_timers : (TimerWheel → TimerWheel) → M Error (LoopInner P S I) (Unit {0})
  edit_timers f l = (ok tt, record l { poll = record (l.poll) { timers = f l.poll.timers } })

module _ {P S I A : Type 0} ⦃e : EventSource P S⦄ where
  -- The calls are made one after the other on the shared loop; a panic in one unwinds.
  unfoldable pub run : Program S I A → M Error (LoopInner P S I) A
  run (done a) = pure a
  run panics = panic
  run (inserts_source inner k) = do r ← attempt (insert_source inner); run (k r)
  run (inserts_idle callback k) = do id ← insert_idle callback; run (k id)
  run (cancels_idle id k) = do cancel_idle id; run k
  run (enables t k) = do r ← attempt (enable t); run (k r)
  run (updates t k) = do r ← attempt (update t); run (k r)
  run (disables t k) = do r ← attempt (disable t); run (k r)
  run (removes t k) = do remove t; run k
  run (edits_timers f k) = do edit_timers f; run k
