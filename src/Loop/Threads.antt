-- ===== src/Loop/Threads.antt =====
-- The threads that meet in `run` and `block_on` of loop_logic.rs: the loop's own, and those that stop it
-- or wake it up by a `LoopSignal` or by the waker of the future, in steps that alternate in any order.
pub mod Wakeups
use calloop.Common.{◌||◌, not, ℕ, suc, ◌≡◌, Bool, true, false, if◌then◌else◌}

-- `Signals`.
pub record Signals : Type 0 where
  pub stop : Bool
  pub future_ready : Bool

-- `LoopSignal` shares the flags, and the poller with its `Notifier`: a notification ends the wait of the
-- loop, or its next one, and is used up by that. `lost` tells that a notification has failed.
pub record LoopSignal : Type 0 where
  pub signal : Signals
  pub notified : Bool
  pub lost : Bool

-- `LoopSignal::stop`, and `LoopSignal::wakeup`, whose notification is sent or not: its error is dropped.
unfoldable pub stop : LoopSignal → LoopSignal
stop l = record l { signal = record (l.signal) { stop = true } }

unfoldable pub wakeup : Bool → LoopSignal → LoopSignal
wakeup sent l = record l { notified = l.notified || sent; lost = l.lost || not sent }

-- The first half of `EventLoopWaker::wake`; the second is a `wakeup`.
unfoldable pub set_ready : LoopSignal → LoopSignal
set_ready l = record l { signal = record (l.signal) { future_ready = true } }

-- The two stores at the start of `block_on`; `run` has the first alone.
unfoldable pub reset_signals : Bool → LoopSignal → LoopSignal
reset_signals blocks l = record l {
  signal = record { stop = false; future_ready = if blocks then true else l.signal.future_ready };
}

-- `future_ready.swap(false)`; what it gives is read before.
unfoldable pub take_ready : LoopSignal → LoopSignal
take_ready l = record l { signal = record (l.signal) { future_ready = false } }

-- The wait within `dispatch_events`.
unfoldable pub end_wait : LoopSignal → LoopSignal
end_wait l = record l { notified = false }

-- Where the loop's thread is: about to read `stop`, about to swap `future_ready`, polling the future,
-- or in a dispatch that has not ended its wait.
pub data Phase : Type 0 where
  outside checking swapping polling waiting : Phase

-- Of the other threads, how many are between the two halves of a wake-up, and how many have stopped the
-- loop and are yet to wake it up. `blocks` tells `block_on` from `run`.
pub record Threads : Type 0 where
  pub shared : LoopSignal
  pub waking : ℕ
  pub stopping : ℕ
  pub phase : Phase
  pub blocks : Bool

pub data Step : Threads → Threads → Type 0 where
  wakes : (s : Threads) → Step s (record s { shared = set_ready s.shared; waking = suc s.waking })
  notifies :
      (s : Threads) (n : ℕ) (sent : Bool)
      → s.waking ≡ suc n
      → Step s (record s { shared = wakeup sent s.shared; waking = n })
  stops : (s : Threads) → Step s (record s { shared = stop s.shared; stopping = suc s.stopping })
  wakes_up :
      (s : Threads) (n : ℕ) (sent : Bool)
      → s.stopping ≡ suc n
      → Step s (record s { shared = wakeup sent s.shared; stopping = n })
  begins :
      (s : Threads) (blocks : Bool)
      → s.phase ≡ outside
      → Step s
          (record s { shared = reset_signals blocks s.shared; phase = checking; blocks = blocks })
  finds_stop :
      (s : Threads)
      → s.phase ≡ checking
      → s.shared.signal.stop ≡ true
      → Step s (record s { phase = outside })
  blocks_on :
      (s : Threads)
      → s.phase ≡ checking
      → s.shared.signal.stop ≡ false
      → s.blocks ≡ true
      → Step s (record s { phase = swapping })
  runs_on :
      (s : Threads)
      → s.phase ≡ checking
      → s.shared.signal.stop ≡ false
      → s.blocks ≡ false
      → Step s (record s { phase = waiting })
  finds_ready :
      (s : Threads)
      → s.phase ≡ swapping
      → s.shared.signal.future_ready ≡ true
      → Step s (record s { shared = take_ready s.shared; phase = polling })
  finds_unready :
      (s : Threads)
      → s.phase ≡ swapping
      → s.shared.signal.future_ready ≡ false
      → Step s (record s { shared = take_ready s.shared; phase = waiting })
  is_pending : (s : Threads) → s.phase ≡ polling → Step s (record s { phase = waiting })
  is_resolved : (s : Threads) → s.phase ≡ polling → Step s (record s { phase = outside })
  -- The wait ends, by a notification, an event or a timeout, and callbacks run until the next check; or
  -- the dispatch fails, before its wait or behind it.
  dispatches :
      (s : Threads)
      → s.phase ≡ waiting
      → Step s (record s { shared = end_wait s.shared; phase = checking })
  fails : (s : Threads) → s.phase ≡ waiting → Step s (record s { phase = outside })
  fails_later :
      (s : Threads)
      → s.phase ≡ waiting
      → Step s (record s { shared = end_wait s.shared; phase = outside })

pub data Steps (s : Threads) : Threads → Type 0 where
  here : Steps s s
  next : {t u : Threads} → Steps s t → Step t u → Steps s u

-- A new loop, as `try_new` makes it.
unfoldable pub new_threads : Threads
new_threads = record {
  shared = record {
    signal = record { stop = false; future_ready = false };
    notified = false;
    lost = false;
  };
  waking = 0;
  stopping = 0;
  phase = outside;
  blocks = false;
}
