-- ===== src/Tests/Stopping.antt =====
-- Tests of the flags and the waker of loop_logic.rs.
use calloop.Common.{◌≡◌, true, inl, refl}
use calloop.Loop.Threads.{
  stop, wakeup, set_ready, reset_signals, take_ready, checking, swapping, polling, waiting, Threads,
  wakes, notifies, begins, blocks_on, finds_ready, is_pending, here, next, new_threads,
}
use calloop.Loop.Threads.Wakeups.{no_missed_wakeup}

-- The future is polled once and is woken while the loop goes to wait.
abbrev begun : Threads
begun = record new_threads {
  shared = reset_signals true new_threads.shared;
  phase = checking;
  blocks = true;
}

abbrev swapping_now : Threads
swapping_now = record begun { phase = swapping }

abbrev polled : Threads
polled = record swapping_now { shared = take_ready swapping_now.shared; phase = polling }

abbrev sleeping : Threads
sleeping = record polled { phase = waiting }

abbrev waking_now : Threads
waking_now = record sleeping { shared = set_ready sleeping.shared; waking = 1 }

abbrev woken : Threads
woken = record waking_now { shared = wakeup true waking_now.shared; waking = 0 }

no_missed_wakeup_example : woken.shared.notified ≡ true
unfolding stop wakeup set_ready reset_signals take_ready new_threads
no_missed_wakeup_example =
    no_missed_wakeup
      (next
        (next
          (next
            (next (next (next here (begins new_threads true refl)) (blocks_on begun refl refl refl))
              (finds_ready swapping_now refl refl))
            (is_pending polled refl))
          (wakes sleeping))
        (notifies waking_now 0 true refl))
      refl refl (inl (refl, refl, refl))
