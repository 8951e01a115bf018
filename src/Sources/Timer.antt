-- ===== src/Sources/Timer.antt =====
-- The event source `Timer` of sources/timer.rs. Its `Rc` of the wheel is the wheel of the `Poll`
-- it is registered with; `limit` is the last instant that `Instant::checked_add` can represent.
pub mod Laws
pub mod Process
pub mod Future
use calloop.Common.{ℕ, ◌+◌, Option, none, some, not, leb, if◌then◌else◌}
use calloop.Error.{Error, ok, M, pure, ◌>>=◌, ◌>>◌}
use calloop.Token.{Token, token_eq}
use calloop.Wheel
use calloop.Wheel.{TimerWheel}
use calloop.PostAction.{PostAction, continue, remove}
use calloop.Sources.{Registering, EventSource, on_poll, next_token, get_source, modify_source}

pub record Registration : Type 0 where
  pub token : Token
  pub counter : ℕ

pub record Timer : Type 0 where
  pub registration : Option Registration
  pub deadline : Option ℕ

pub data TimeoutAction : Type 0 where
  drop : TimeoutAction
  to_instant to_duration : ℕ → TimeoutAction

unfoldable pub checked_add : ℕ → ℕ → ℕ → Option ℕ
checked_add limit now duration = if leb (now + duration) limit then some (now + duration) else none

unfoldable pub from_deadline_inner : Option ℕ → Timer
from_deadline_inner deadline = record { registration = none; deadline = deadline }

unfoldable pub from_deadline : ℕ → Timer
unfolding from_deadline_inner
from_deadline deadline = from_deadline_inner (some deadline)

unfoldable pub immediate : ℕ → Timer
unfolding from_deadline
immediate now = from_deadline now

unfoldable pub from_duration : ℕ → ℕ → ℕ → Timer
unfolding from_deadline_inner checked_add
from_duration limit now duration = from_deadline_inner (checked_add limit now duration)

unfoldable pub set_deadline : ℕ → Timer → Timer
set_deadline deadline t = record t { deadline = some deadline }

unfoldable pub set_duration : ℕ → ℕ → ℕ → Timer → Timer
unfolding checked_add
set_duration limit now duration t = record t { deadline = checked_add limit now duration }

abbrev pub current_deadline : Timer → Option ℕ
current_deadline t = t.deadline

-- What `process_events` works on: the timer, the wheel, and what the callback captures.
pub record Running (C : Type 0) : Type 0 where
  pub timer : Timer
  pub wheel : TimerWheel
  pub captured : C

module _ {C : Type 0} where
  -- The timer is put back into the wheel under its counter.
  reschedule : Registration → ℕ → Running C → PostAction × Running C
  reschedule r new_deadline s = (
    continue,
    record s {
      timer = record (s.timer) { deadline = some new_deadline };
      wheel = Wheel.insert_reuse r.counter new_deadline r.token s.wheel;
    },
  )

  after_duration : Registration → Option ℕ → Running C → PostAction × Running C
  unfolding reschedule
  after_duration r (some new_deadline) s = reschedule r new_deadline s
  after_duration r none s = (remove, record s { timer = record (s.timer) { deadline = none } })

  after_callback :
      ℕ → ℕ → Registration → Timer → TimerWheel → TimeoutAction × C → PostAction × Running C
  unfolding reschedule after_duration checked_add
  after_callback limit now r t w (drop, c) = (remove, record { timer = t; wheel = w; captured = c })
  after_callback limit now r t w (to_instant i, c) =
      reschedule r i (record { timer = t; wheel = w; captured = c })
  after_callback limit now r t w (to_duration d, c) =
      after_duration r (checked_add limit now d) (record { timer = t; wheel = w; captured = c })

  fire :
      ℕ
      → ℕ
      → Token
      → (ℕ → C → TimeoutAction × C)
      → Running C
      → Option Registration
      → Option ℕ
      → PostAction × Running C
  unfolding after_callback
  fire limit now t callback s (some r) (some deadline) =
      if not (token_eq r.token.inner t.inner)
      then (continue, s)
      else after_callback limit now r s.timer s.wheel (callback deadline s.captured)
  fire limit now t callback s _ _ = (continue, s)

  -- `process_events`; `now` is the clock as it reads after the callback. It has no error.
  unfoldable pub process_events :
      ℕ → ℕ → Token → (ℕ → C → TimeoutAction × C) → Running C → PostAction × Running C
  unfolding fire
  process_events limit now t callback s =
      fire limit now t callback s s.timer.registration s.timer.deadline

module _ {P : Type 0} where
  on_wheel : {A : Type 0} → (TimerWheel → A × TimerWheel) → M Error (Registering P Timer) A
  on_wheel f = on_poll λ p. let (a, w) = f p.timers in (ok a, record p { timers = w })

  register_at : Option ℕ → M Error (Registering P Timer) (Unit {0})
  unfolding on_wheel
  register_at none = pure tt
  register_at (some deadline) = do
    t ← next_token
    counter ← on_wheel (Wheel.insert deadline t)
    modify_source λ s. record s { registration = some (record { token = t; counter = counter }) }

  unfoldable pub register : M Error (Registering P Timer) (Unit {0})
  unfolding register_at
  register = do s ← get_source; register_at s.deadline

  cancel_registration : Option Registration → M Error (Registering P Timer) (Unit {0})
  unfolding on_wheel
  cancel_registration none = pure tt
  cancel_registration (some r) = on_wheel λ w. (tt, Wheel.cancel r.counter w)

  -- `self.registration.take()`, then the cancellation.
  unfoldable pub unregister : M Error (Registering P Timer) (Unit {0})
  unfolding cancel_registration
  unregister = do
    s ← get_source
    modify_source λ s. record s { registration = none }
    cancel_registration s.registration

  unfoldable pub reregister : M Error (Registering P Timer) (Unit {0})
  reregister = do unregister; register

  instance abbrev pub timer_source : EventSource P Timer
  timer_source = record { register = register; reregister = reregister; unregister = unregister }
