-- ===== src/Loop/Cycle.antt =====
-- `dispatch_events` as a whole, `dispatch`, `run` and `block_on` of loop_logic.rs. The clock, and the
-- flags that other threads set, are read from lists; a list that is too short ends with `starved`.
use calloop.Common.{
  ℕ, ◌-◌, Option, none, some, List, [], ◌∷◌, ◌++◌, Bool, true, false, leb, if◌then◌else◌,
}
use calloop.Error.{
  interrupted, Error, io_error, Result, ok, err, panicked, M, pure, ◌>>=◌, ◌>>◌, zoom,
}
use calloop.Token.{RegistrationToken}
use calloop.Sys.{Poller, PollEvent, Poll, poll}
use calloop.Sources.{EventSource}
use calloop.Loop.{EventLoop}
use calloop.Loop.Program.{Program, UserCode}
use calloop.Loop.Program
use calloop.Loop.Event.{on_inner}
use calloop.Loop.Dispatch.{
  before_sleep, before_handle_events, drain_synthetic, handle_events, dispatch_idles,
}

-- The clock around one attempt to poll: before the wait, after it, and `now.elapsed()` behind it.
pub record Attempt : Type 0 where
  pub before : ℕ
  pub after : ℕ
  pub elapsed : ℕ

-- How the loop around `poll.poll(timeout)` ends.
pub data Polled : Type 0 where
  events : List PollEvent → Polled
  timed_out starved : Polled

-- One turn of `run` or of `block_on`: what the two flags read, and the clock of the dispatch.
pub record Turn : Type 0 where
  pub stop : Bool
  pub future_ready : Bool
  pub attempts : List Attempt

pub data Ended (R : Type 0) : Type 0 where
  resolved : R → Ended R
  stopped out_of_turns : Ended R

-- `future_ready.store(true)` before the first turn; only wakers touch the flag meanwhile, and they set
-- it.
abbrev pub ready_at_first : List Turn → List Turn
ready_at_first [] = []
ready_at_first (turn ∷ turns) = record turn { future_ready = true } ∷ turns

-- The timeout of the next attempt after an interruption; `none` where the loop returns.
unfoldable pub after_interrupt : Option ℕ → ℕ → Option (Option ℕ)
after_interrupt none elapsed = some none
after_interrupt (some to) elapsed = if leb to elapsed then none else some (some (to - elapsed))

module _ {P : Type 0} ⦃o : Poller P⦄ where
  abbrev pub again :
      Option (Option ℕ) → (Option ℕ → M Error (Poll P) Polled) → M Error (Poll P) Polled
  again none next = pure timed_out
  again (some timeout) next = next timeout

  abbrev pub settle :
      Result Error (List PollEvent) × Poll P
      → Option (Option ℕ)
      → (Option ℕ → M Error (Poll P) Polled)
      → Result Error Polled × Poll P
  settle (ok evs, p) left next = (ok (events evs), p)
  settle (err (io_error interrupted), p) left next = again left next p
  settle (err x, p) left next = (err x, p)
  settle (panicked, p) left next = (panicked, p)

  -- The loop around `poll`, with one attempt for each reading of the clock.
  unfoldable pub retry : List Attempt → Option ℕ → M Error (Poll P) Polled
  unfolding after_interrupt
  retry [] timeout p = (ok starved, p)
  retry (a ∷ attempts) timeout p =
      settle (poll timeout a.before a.after p) (after_interrupt timeout a.elapsed) (retry attempts)

module _ {P S I X : Type 0} where
  unfoldable pub lifecycle_tokens : M Error (EventLoop P S I X) (List RegistrationToken)
  lifecycle_tokens l = (ok l.inner.lifecycle, l)

  abbrev pub on_poll : {A : Type 0} → M Error (Poll P) A → M Error (EventLoop P S I X) A
  on_poll m = on_inner (zoom (λ l. l.poll) (λ p l. record l { poll = p }) m)

  unfoldable pub edit_user : (X → X) → M Error (EventLoop P S I X) (Unit {0})
  edit_user cb l = (ok tt, record l { user = cb l.user })

module _ {P S I X : Type 0} ⦃o : Poller P⦄ ⦃e : EventSource P S⦄ ⦃u : UserCode P S I X⦄ where
  unfoldable pub after_poll : Polled → M Error (EventLoop P S I X) Bool
  unfolding lifecycle_tokens
  after_poll timed_out = pure true
  after_poll starved = pure false
  after_poll (events evs) = do
    tokens ← lifecycle_tokens
    before_handle_events tokens evs
    synthetic ← drain_synthetic
    handle_events (synthetic ++ evs)
    pure true

  -- `false` means that the clock's readings ran out.
  unfoldable pub dispatch_events : List Attempt → Option ℕ → M Error (EventLoop P S I X) Bool
  unfolding lifecycle_tokens after_poll
  dispatch_events attempts timeout = do
    tokens ← lifecycle_tokens
    left ← before_sleep tokens timeout
    polled ← on_poll (retry attempts left)
    after_poll polled

  unfoldable pub dispatch : List Attempt → Option ℕ → M Error (EventLoop P S I X) Bool
  dispatch attempts timeout = do
    finished ← dispatch_events attempts timeout
    dispatch_idles
    pure finished

  unfoldable pub run :
      List Turn → Option ℕ → (X → X) → M Error (EventLoop P S I X) (Ended (Unit {0}))
  unfolding edit_user
  run [] timeout cb = pure out_of_turns
  run (turn ∷ turns) timeout cb =
      if turn.stop
      then pure stopped
      else (dispatch turn.attempts timeout >> edit_user cb) >> run turns timeout cb

  abbrev pub keep_going :
      {R : Type 0}
      → Option R
      → M Error (EventLoop P S I X) (Ended R)
      → M Error (EventLoop P S I X) (Ended R)
  keep_going (some result) next = pure (resolved result)
  keep_going none next = next

  -- `future.as_mut().poll(..)` where the flag was set: what the future does to the loop is a program.
  unfoldable pub poll_if :
      {F R : Type 0}
      → Bool
      → (F → Program S I (Option R × F))
      → F
      → M Error (EventLoop P S I X) (Option R × F)
  poll_if true poll_future future = on_inner (Program.run (poll_future future))
  poll_if false poll_future future = pure (none, future)

  -- The loop of `block_on`, with a future of state `F`.
  unfoldable pub block_turns :
      {F R : Type 0}
      → (F → Program S I (Option R × F))
      → List Turn
      → F
      → (X → X)
      → M Error (EventLoop P S I X) (Ended R)
  unfolding edit_user poll_if
  block_turns poll_future [] future cb = pure out_of_turns
  block_turns poll_future (turn ∷ turns) future cb =
      if turn.stop
      then pure stopped
      else poll_if turn.future_ready poll_future future >>= λ polled. keep_going polled.0 (
          (dispatch turn.attempts none >> edit_user cb)
          >> block_turns poll_future turns polled.1 cb)

  unfoldable pub block_on :
      {F R : Type 0}
      → (F → Program S I (Option R × F))
      → List Turn
      → F
      → (X → X)
      → M Error (EventLoop P S I X) (Ended R)
  unfolding block_turns
  block_on poll_future turns = block_turns poll_future (ready_at_first turns)
