-- ===== src/Sys.antt =====
-- sys.rs: the polling system. The `polling` crate is the parameter `Poller`; a file descriptor is
-- its raw number; the clock is read through arguments. The buffer of events is not kept: `poll`
-- clears it before each use.
pub mod Timeouts
pub mod Events
pub mod Fallback
use calloop.Common.{
  ℕ, ◌-◌, min, Option, none, some, List, [], ◌∷◌, ◌++◌, map, Bool, true, false, not, ◌&&◌, ◌==◌,
  length, retain, if◌then◌else◌,
}
use calloop.Error.{
  IoError, Error, io_error, Result, ok, err, panicked, M, pure, ◌>>=◌, ◌>>◌, map_err, zoom,
}
use calloop.Token.{Token, from_usize, to_usize}
use calloop.Wheel.{TimerWheel, wheel_new, next_deadline, drain_expired}

pub data Mode : Type 0 where
  one_shot level edge : Mode

pub record Interest : Type 0 where
  pub readable : Bool
  pub writable : Bool

pub record Readiness : Type 0 where
  pub readable : Bool
  pub writable : Bool
  pub error : Bool

abbrev pub interest_empty : Interest
interest_empty = record { readable = false; writable = false }

abbrev pub interest_read : Interest
interest_read = record { readable = true; writable = false }

abbrev pub interest_write : Interest
interest_write = record { readable = false; writable = true }

abbrev pub readiness_empty : Readiness
readiness_empty = record { readable = false; writable = false; error = false }

pub record PollEvent : Type 0 where
  pub readiness : Readiness
  pub token : Token

-- Of the crate `polling`: an event and the modes.
pub record Event : Type 0 where
  pub key : ℕ
  pub readable : Bool
  pub writable : Bool

pub data PollMode : Type 0 where
  oneshot level edge : PollMode

-- The operations of `polling::Poller` that the program calls, over a poller of type `P`.
pub record Poller (P : Type 0) : Type 0 where
  pub supports_level : Bool
  pub add_with_mode : ℕ → Event → PollMode → M IoError P (Unit {0})
  pub modify_with_mode : ℕ → Event → PollMode → M IoError P (Unit {0})
  pub modify : ℕ → Event → M IoError P (Unit {0})
  pub delete : ℕ → M IoError P (Unit {0})
  pub wait : Option ℕ → M IoError P (List Event)
  pub notify : M IoError P (Unit {0})

-- The map from keys to descriptors and interests, with at most one entry for a key.
abbrev pub LevelTriggered : Type 0
LevelTriggered = List (ℕ × (ℕ × Event))

pub record Poll (P : Type 0) : Type 0 where
  pub poller : P
  pub level_triggered : Option LevelTriggered
  pub timers : TimerWheel

-- `HashMap::get`, `HashMap::insert`, and `HashMap::retain` by the descriptor.
pub lookup_key : ℕ → LevelTriggered → Option (ℕ × Event)
lookup_key k [] = none
lookup_key k ((j, v) ∷ m) = if j == k then some v else lookup_key k m

pub insert_key : ℕ → ℕ × Event → LevelTriggered → LevelTriggered
insert_key k v m = (k, v) ∷ retain (λ e. not (e.0 == k)) m

abbrev pub forget_fd : ℕ → LevelTriggered → LevelTriggered
forget_fd raw = retain (λ e. not (e.1.0 == raw))

unfoldable pub cvt_interest : Interest → Token → Event
cvt_interest interest tok = record {
  key = to_usize tok.inner;
  readable = interest.readable;
  writable = interest.writable;
}

unfoldable pub cvt_mode : Mode → Bool → PollMode
cvt_mode mode false = PollMode.oneshot
cvt_mode Mode.edge true = PollMode.edge
cvt_mode Mode.level true = PollMode.level
cvt_mode Mode.one_shot true = PollMode.oneshot

-- The timeout that `poll` hands to the poller, from the caller's and the time to the next timer.
unfoldable pub adjust_timeout : Option ℕ → Option ℕ → Option ℕ
adjust_timeout (some timeout) (some next_timeout) = some (min timeout next_timeout)
adjust_timeout (some timeout) none = some timeout
adjust_timeout none next_timeout = next_timeout

-- `deadline.saturating_duration_since(now)`.
abbrev pub time_left : ℕ → Option ℕ → Option ℕ
time_left now none = none
time_left now (some deadline) = some (deadline - now)

-- `PollEvent`s of the poller's events and of the timers.
unfoldable pub to_poll_event : Event → PollEvent
to_poll_event ev = record {
  readiness = record { readable = ev.readable; writable = ev.writable; error = false };
  token = record { inner = from_usize ev.key };
}

unfoldable pub timer_event : Token → PollEvent
timer_event t = record {
  readiness = record { readable = true; writable = false; error = false };
  token = t;
}

module _ {P : Type 0} ⦃o : Poller P⦄ where
  abbrev with_poller : {A : Type 0} → M IoError P A → M Error (Poll P) A
  with_poller m = map_err io_error (zoom (λ p. p.poller) (λ q p. record p { poller = q }) m)

  new_poll : Bool → P → Poll P
  new_poll force poller = record {
    poller = poller;
    level_triggered = if o.supports_level && not force then none else some [];
    timers = wheel_new;
  }

  -- `Poll::new_inner`, given what `Poller::new` answers.
  unfoldable pub new_inner : Bool → Result IoError P → Result Error (Poll P)
  unfolding new_poll
  new_inner force_fallback_lt (ok poller) = ok (new_poll force_fallback_lt poller)
  new_inner force_fallback_lt (err e) = err (io_error e)
  new_inner force_fallback_lt panicked = panicked

  -- Emulated level-triggered sources are armed again, as `poller.modify` does, in oneshot mode.
  rearm_entry : Option (ℕ × Event) → M IoError P (Unit {0})
  rearm_entry none = pure tt
  rearm_entry (some (source, interest)) = o.modify source interest

  rearm : Option LevelTriggered → ℕ → M IoError P (Unit {0})
  unfolding rearm_entry
  rearm none key = pure tt
  rearm (some m) key = rearm_entry (lookup_key key m)

  -- The iterator over the poller's events, collected up to the first error.
  unfoldable pub convert_events : Option LevelTriggered → List Event → M IoError P (List PollEvent)
  unfolding rearm
  convert_events lt [] = pure []
  convert_events lt (ev ∷ evs) = do
    rearm lt ev.key
    rest ← convert_events lt evs
    pure (to_poll_event ev ∷ rest)

  -- The timers that are due, taken out of the wheel and added behind the events.
  expire_timers : ℕ → List PollEvent → M Error (Poll P) (List PollEvent)
  expire_timers now events p =
      let (tokens, timers) = drain_expired (length p.timers.heap) now p.timers in
      (ok (events ++ map timer_event tokens), record p { timers = timers })

  poll_from : Option ℕ → ℕ → Option LevelTriggered → M Error (Poll P) (List PollEvent)
  poll_from timeout after level_triggered = do
    events ← with_poller (o.wait timeout)
    poll_events ← with_poller (convert_events level_triggered events)
    expire_timers after poll_events

  -- `Poll::poll`, with the clock as it reads before the wait and after it.
  unfoldable pub poll : Option ℕ → ℕ → ℕ → M Error (Poll P) (List PollEvent)
  unfolding poll_from expire_timers
  poll timeout before after p =
      let next_timeout = time_left before (next_deadline p.timers) in
      poll_from (adjust_timeout timeout next_timeout) after p.level_triggered p

  -- Under emulation, level-triggered registrations are remembered.
  remember : Mode → ℕ → Event → Poll P → Poll P
  remember Mode.level raw ev p = record p {
    level_triggered = elim p.level_triggered [
      | none ↦ none
      | some m ↦ some (insert_key ev.key (raw, ev) m)
    ];
  }
  remember Mode.one_shot raw ev p = p
  remember Mode.edge raw ev p = p

  unfoldable pub register : ℕ → Interest → Mode → Token → M Error (Poll P) (Unit {0})
  unfolding remember cvt_interest cvt_mode
  register raw interest mode tok = do
    let ev = cvt_interest interest tok
    with_poller (o.add_with_mode raw ev (cvt_mode mode o.supports_level))
    λ p. (ok tt, remember mode raw ev p)

  unfoldable pub reregister : ℕ → Interest → Mode → Token → M Error (Poll P) (Unit {0})
  unfolding remember cvt_interest cvt_mode
  reregister raw interest mode tok = do
    let ev = cvt_interest interest tok
    with_poller (o.modify_with_mode raw ev (cvt_mode mode o.supports_level))
    λ p. (ok tt, remember mode raw ev p)

  unfoldable pub unregister : ℕ → M Error (Poll P) (Unit {0})
  unregister raw = do
    with_poller (o.delete raw)
    λ p. (
      ok tt,
      record p {
        level_triggered = elim p.level_triggered [ none ↦ none | some m ↦ some (forget_fd raw m) ];
      },
    )

  -- `Notifier::notify`.
  unfoldable pub notify : M Error (Poll P) (Unit {0})
  notify = with_poller o.notify
