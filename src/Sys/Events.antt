-- ===== src/Sys/Events.antt =====
-- The events that `Poll::poll` of sys.rs reports, and what becomes of the timers.
use native.Mathlib.Nat.{le_refl}
use calloop.Common.{[], ◌∷◌, ap, ◌∙◌, ℕ, ◌≡◌, refl, Option, List, ◌++◌, map, arith, length}
use calloop.Error.{
  IoError, Error, io_error, Result, ok, err, panicked, map_err, zoom, bind_result,
  bind_result-eq_ok, map_err_result,
}
use calloop.Token.{Token}
use calloop.Token.Encoding.{InRange, from_usize-to_usize}
use calloop.Wheel.{next_deadline, drain_expired}
use calloop.Wheel.Expiry.{Drained, drain_expired-Drained}
use calloop.Sys.{
  LevelTriggered, rearm, Interest, Event, Poller, Poll, PollEvent, poll, convert_events,
  timer_event, to_poll_event, cvt_interest, adjust_timeout, time_left, expire_timers,
}

-- An event that the poller reports under the key of a registration is passed on with the token of
-- that registration, whatever of its interests came true.
pub to_poll_event-cvt_interest :
    (i : Interest) (t : Token) (ev : Event)
    → InRange t.inner
    → ev.key ≡ (cvt_interest i t).key
    → ((to_poll_event ev).token ≡ t)
      × ((to_poll_event ev).readiness.readable ≡ ev.readable)
      × ((to_poll_event ev).readiness.writable ≡ ev.writable)
unfolding to_poll_event cvt_interest
to_poll_event-cvt_interest i t ev h k = (ground (arith, from_usize-to_usize t.inner h), refl, refl)

module _ {P : Type 0} ⦃o : Poller P⦄ where
  -- A finished call of `poll`, given what the wait answered: `p` before it, and its result.
  pub data TimersAfter (after : ℕ) (p : Poll P) (waited : Result IoError (List Event))
      (r : Result Error (List PollEvent) × Poll P) : Type 0 where
    expired :
        (events : List Event) (tokens : List Token)
        → waited ≡ ok events
        → r.0 ≡ ok (map to_poll_event events ++ map timer_event tokens)
        → Drained after p.timers (tokens, r.1.timers)
        → TimersAfter after p waited r
    failed : (e : Error) → r.0 ≡ err e → r.1.timers ≡ p.timers → TimersAfter after p waited r
    poller_panicked : r.0 ≡ panicked → r.1.timers ≡ p.timers → TimersAfter after p waited r

  -- Every event is passed on, in its place, or the re-arming fails.
  convert_events-map :
      (lt : Option LevelTriggered) (evs : List Event) (q q' : P) (converted : List PollEvent)
      → convert_events lt evs q ≡ (ok converted, q')
      → converted ≡ map to_poll_event evs
  unfolding convert_events
  convert_events-map lt [] q q' converted h = ground arith
  convert_events-map lt (ev ∷ evs) q q' converted h =
      let (x, q1, armed, rest) = bind_result-eq_ok (rearm lt ev.key q) _ converted q' h in
      let (tail, q2, more, last) =
        bind_result-eq_ok (convert_events lt evs q1) _ converted q' rest in
      let ih = convert_events-map lt evs q1 q2 tail more in
      let split : converted ≡ to_poll_event ev ∷ tail = ground arith in
      split ∙ ap (λ es. to_poll_event ev ∷ es) ih

  expire_timers-TimersAfter :
      (after : ℕ) (events : List Event) (evs : List PollEvent) (p : Poll P) (q : P)
      → evs ≡ map to_poll_event events
      → TimersAfter after p (ok events) (expire_timers after evs (record p { poller = q }))
  unfolding expire_timers
  expire_timers-TimersAfter after events evs p q same =
      let tokens = (drain_expired (length p.timers.heap) after p.timers).0 in
      expired events tokens refl (ap (λ es. ok (es ++ map timer_event tokens)) same)
        (drain_expired-Drained (length p.timers.heap) after p.timers (le_refl _))

  -- From what the re-arming of level-triggered sources answered.
  after_convert :
      (after : ℕ) (p : Poll P) (events : List Event) (r : Result IoError (List PollEvent) × P)
      → ((evs : List PollEvent) (q : P) → r ≡ (ok evs, q) → evs ≡ map to_poll_event events)
      → TimersAfter after p (ok events) (
          bind_result
            (map_err_result io_error r.0, record p { poller = r.1 })
            (expire_timers after))
  after_convert after p events (ok evs, q) h =
      expire_timers-TimersAfter after events evs p q (h evs q refl)
  after_convert after p events (err e, q) h = failed (io_error e) refl refl
  after_convert after p events (panicked, q) h = poller_panicked refl refl

  -- From what the wait answered.
  after_wait :
      (after : ℕ) (p : Poll P) (r : Result IoError (List Event) × P)
      → TimersAfter after p r.0 (
          bind_result
            (map_err_result io_error r.0, record p { poller = r.1 })
            (λ events s.
              bind_result
                (map_err io_error
                  (zoom
                    (λ x. x.poller)
                    (λ y x. record x { poller = y })
                    (convert_events p.level_triggered events))
                  s)
                (expire_timers after)))
  after_wait after p (ok evs, q) =
      after_convert after p evs (convert_events p.level_triggered evs q)
        (λ es q'. convert_events-map p.level_triggered evs q q' es)
  after_wait after p (err e, q) = failed (io_error e) refl refl
  after_wait after p (panicked, q) = poller_panicked refl refl

  -- A call of `poll` that succeeds reports the events that the wait answered, in their order and
  -- converted, and behind them exactly the timers that are due, in the order of their deadlines; one
  -- that fails has taken no timer out of the wheel. The wait gets the timeout adjusted to the timers.
  pub poll-TimersAfter :
      (timeout : Option ℕ) (before after : ℕ) (p : Poll P)
      → let wait_for = adjust_timeout timeout (time_left before (next_deadline p.timers)) in
        TimersAfter after p (o.wait wait_for p.poller).0 (poll timeout before after p)
  unfolding poll
  poll-TimersAfter timeout before after p =
      after_wait after p
        (o.wait (adjust_timeout timeout (time_left before (next_deadline p.timers))) p.poller)
