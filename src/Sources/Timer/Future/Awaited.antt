-- ===== src/Sources/Timer/Future/Awaited.antt =====
-- That the `TimeoutFuture` of sources/timer.rs is woken by its timer, and is over then.
use calloop.Common.{
  ℕ, ◌≡◌, refl, ap, ◌∙◌, Option, none, some, List, [], ◌∷◌, true, ltb, leb, arith, if◌then◌else◌,
}
use calloop.Token.{Token, token_eq}
use calloop.Wheel.{TimerWheel}
use calloop.PostAction.{PostAction}
use calloop.Sources.Timer.{Timer, Registration, process_events}
use calloop.Sources.Timer.Future.{TimeoutFuture, poll, poll_at, wake_cell, on_timeout}

module _ {W : Type 0} where
  -- The cell after polls at the given times, with the given wakers.
  abbrev pub polls : TimeoutFuture → List (ℕ × W) → Option W → Option W
  polls f [] cell = cell
  polls f ((now, waker) ∷ ps) cell = polls f ps (poll f now waker cell).1

  -- The waker of the last poll before the deadline, if there was one.
  abbrev pub last_before : ℕ → List (ℕ × W) → Option W → Option W
  last_before deadline [] found = found
  last_before deadline ((now, waker) ∷ ps) found =
      last_before deadline ps (if ltb now deadline then some waker else found)

  polls_lem :
      (f : TimeoutFuture) (deadline : ℕ) (ps : List (ℕ × W)) (cell : Option W)
      → f.deadline ≡ some deadline
      → polls f ps cell ≡ last_before deadline ps cell
  unfolding poll poll_at
  polls_lem f deadline [] cell e = refl
  polls_lem f deadline ((now, waker) ∷ ps) cell e =
      let step : (poll f now waker cell).1 ≡ (if ltb now deadline then some waker else cell) =
        ground arith in
      ap (polls f ps) step
      ∙ polls_lem f deadline ps (if ltb now deadline then some waker else cell) e

module _ {W K : Type 0} (wake : W → K → K) where
  -- However often the future of a registered timer was polled: the event of the timer wakes the waker
  -- of the last poll before the deadline, once, and drops the timer with the wheel as it is. A poll is
  -- over exactly from the deadline on.
  pub process_events-Wakes :
      (limit now later : ℕ) (t : Token) (f : TimeoutFuture) (timer : Timer) (w : TimerWheel)
      (r : Registration) (deadline : ℕ) (ps : List (ℕ × W)) (k : K) (waker : W) (cell : Option W)
      → f.deadline ≡ some deadline
      → timer.registration ≡ some r
      → timer.deadline ≡ some deadline
      → token_eq r.token.inner t.inner ≡ true
      → let last = last_before deadline ps none in
        (process_events limit now t
            (on_timeout wake)
            (record { timer = timer; wheel = w; captured = (polls f ps none, k) })
          ≡ (
            PostAction.remove,
            record { timer = timer; wheel = w; captured = (last, wake_cell wake last k) },
          ))
        × ((poll f later waker cell).0 ≡ leb deadline later)
  unfolding process_events on_timeout poll poll_at
  process_events-Wakes limit now later t f timer w r deadline ps k waker cell e hr hd ht =
      (rw (hr, hd, ht, polls_lem f deadline ps none e) refl, ground arith)
