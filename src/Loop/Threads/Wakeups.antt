-- ===== src/Loop/Threads/Wakeups.antt =====
-- That a loop of loop_logic.rs never sleeps on a wake-up, nor on a stop that is followed by one.
use calloop.Common.{◌≡◌, ◌⊎◌, inl, inr, Bool, true, false, arith}
use calloop.Loop.Threads.{
  stop, wakeup, set_ready, reset_signals, take_ready, end_wait, Phase, outside, checking, swapping,
  polling, waiting, Threads, Step, wakes, notifies, stops, wakes_up, begins, finds_stop, blocks_on,
  runs_on, finds_ready, finds_unready, is_pending, is_resolved, dispatches, fails, fails_later,
  Steps, here, next, new_threads,
}

-- Whether the loop's thread will not look at `stop` again before it waits, nor at `future_ready`.
past_stop : Phase → Bool
past_stop outside = false
past_stop checking = false
past_stop swapping = true
past_stop polling = true
past_stop waiting = true

past_ready : Phase → Bool
past_ready outside = false
past_ready checking = false
past_ready swapping = false
past_ready polling = true
past_ready waiting = true

-- What the loop will not look at before its wait has a notification, on the way or pending, unless one
-- has failed.
record IsAwake (s : Threads) : Type 0 where
  ready :
      past_ready s.phase ≡ true
      → s.blocks ≡ true
      → s.shared.signal.future_ready ≡ true
      → s.waking ≡ 0
      → s.shared.lost ≡ false
      → s.shared.notified ≡ true
  stopped :
      past_stop s.phase ≡ true
      → s.shared.signal.stop ≡ true
      → s.stopping ≡ 0
      → s.shared.lost ≡ false
      → s.shared.notified ≡ true

Step-IsAwake : {s t : Threads} → Step s t → IsAwake s → IsAwake t
unfolding past_stop past_ready stop wakeup set_ready reset_signals take_ready end_wait
Step-IsAwake (wakes s) h = record {
  ready = λ p b r w kept. absurd (ground arith);
  stopped = h.stopped;
}
Step-IsAwake (notifies s n sent e) h = record {
  ready = λ p b r w kept. ground arith;
  stopped = λ p b w kept. ground arith;
}
Step-IsAwake (stops s) h = record { ready = h.ready; stopped = λ p b w kept. absurd (ground arith) }
Step-IsAwake (wakes_up s n sent e) h = record {
  ready = λ p b r w kept. ground arith;
  stopped = λ p b w kept. ground arith;
}
Step-IsAwake (begins s blocks e) h = record {
  ready = λ p b r w kept. ground arith;
  stopped = λ p b w kept. ground arith;
}
Step-IsAwake (finds_stop s e f) h = record {
  ready = λ p b r w kept. ground arith;
  stopped = λ p b w kept. ground arith;
}
Step-IsAwake (blocks_on s e f g) h = record {
  ready = λ p b r w kept. ground arith;
  stopped = λ p b w kept. ground arith;
}
Step-IsAwake (runs_on s e f g) h = record {
  ready = λ p b r w kept. ground arith;
  stopped = λ p b w kept. ground arith;
}
Step-IsAwake (finds_ready s e f) h = record {
  ready = λ p b r w kept. ground arith;
  stopped = λ p b w kept. ground (arith, h.stopped);
}
Step-IsAwake (finds_unready s e f) h = record {
  ready = λ p b r w kept. ground arith;
  stopped = λ p b w kept. ground (arith, h.stopped);
}
Step-IsAwake (is_pending s e) h = record {
  ready = λ p b r w kept. ground (arith, h.ready);
  stopped = λ p b w kept. ground (arith, h.stopped);
}
Step-IsAwake (is_resolved s e) h = record {
  ready = λ p b r w kept. ground arith;
  stopped = λ p b w kept. ground arith;
}
Step-IsAwake (dispatches s e) h = record {
  ready = λ p b r w kept. ground arith;
  stopped = λ p b w kept. ground arith;
}
Step-IsAwake (fails s e) h = record {
  ready = λ p b r w kept. ground arith;
  stopped = λ p b w kept. ground arith;
}
Step-IsAwake (fails_later s e) h = record {
  ready = λ p b r w kept. ground arith;
  stopped = λ p b w kept. ground arith;
}

Steps-IsAwake : {s t : Threads} → Steps s t → IsAwake s → IsAwake t
Steps-IsAwake here h = h
Steps-IsAwake (next p st) h = Step-IsAwake st (Steps-IsAwake p h)

new_threads-IsAwake : IsAwake new_threads
unfolding new_threads past_stop past_ready
new_threads-IsAwake = record {
  ready = λ p b r w kept. absurd (ground arith);
  stopped = λ p b w kept. absurd (ground arith);
}

-- However the steps of the threads alternate, in any number of calls of `run` and `block_on`: if no
-- notification has failed, and the loop waits, its future was woken or the loop was stopped, and no thread
-- is on the way to notify it, then a notification is pending, so the wait ends at once. A `stop` with no
-- `wakeup` behind it is not covered.
pub no_missed_wakeup :
    {s : Threads}
    → Steps new_threads s
    → s.phase ≡ waiting
    → s.shared.lost ≡ false
    → ((s.blocks ≡ true) × (s.shared.signal.future_ready ≡ true) × (s.waking ≡ 0))
      ⊎ ((s.shared.signal.stop ≡ true) × (s.stopping ≡ 0))
    → s.shared.notified ≡ true
unfolding past_stop past_ready
no_missed_wakeup p e f (inl (b, r, w)) =
    let h = Steps-IsAwake p new_threads-IsAwake in ground (arith, h.ready)
no_missed_wakeup p e f (inr (r, w)) =
    let h = Steps-IsAwake p new_threads-IsAwake in ground (arith, h.stopped)
