-- ===== src/Sources/Executor/Threads.antt =====
-- The threads that meet in sources/futures.rs: those that wake a future run `Sender::send`, and that
-- of the event loop runs `Executor::process_events`, in steps that may alternate in any order.
use calloop.Common.{ℕ, suc, ◌<◌, ◌≡◌, List, [], ◌∷◌, ◌++◌, Bool, true, false}
use calloop.Sources.Ping.{Eventfd, ping, drain_ping}
use calloop.Sources.Ping.Delivery.{Counts}
use calloop.Sources.Executor.{max_runnables}

-- Where the thread of the event loop is. `drained` has read the eventfd and not yet reset the flag;
-- `running` has that many rounds left; `limited` has to wake itself up.
pub data Phase : Type 0 where
  asleep drained limited : Phase
  running : ℕ → Phase

-- Of the other threads, how many have put their runnable in the queue and not yet read the flag, and
-- how many have found it unset and not yet pinged.
pub record Threads (R K : Type 0) : Type 0 where
  pub incoming : List R
  pub notified : Bool
  pub kernel : K
  pub pushed : ℕ
  pub pinging : ℕ
  pub executor : Phase

module _ {R K : Type 0} ⦃k : Eventfd K⦄ (l : Counts K k) (fd : ℕ) where
  -- A premise `s.pushed ≡ suc n` says that a thread is there; `n` are left.
  pub data Step : Threads R K → Threads R K → Type 0 where
    pushes :
        (s : Threads R K) (r : R)
        → Step s (record s { incoming = s.incoming ++ r ∷ []; pushed = suc s.pushed })
    finds_notified :
        (s : Threads R K) (n : ℕ)
        → s.pushed ≡ suc n
        → s.notified ≡ true
        → Step s (record s { pushed = n })
    notifies :
        (s : Threads R K) (n : ℕ)
        → s.pushed ≡ suc n
        → s.notified ≡ false
        → Step s (record s { notified = true; pushed = n; pinging = suc s.pinging })
    pings :
        (s : Threads R K) (n : ℕ)
        → s.pinging ≡ suc n
        → Step s (record s { kernel = ping fd s.kernel; pinging = n })
    wakes :
        (s : Threads R K)
        → s.executor ≡ asleep
        → 0 < l.counter fd s.kernel
        → Step s (record s { kernel = (drain_ping fd s.kernel).1; executor = drained })
    unpinged : (s : Threads R K) → s.executor ≡ drained → Step s (record s { executor = limited })
    ignores : (s : Threads R K) → s.executor ≡ asleep → Step s (record s { executor = limited })
    resets :
        (s : Threads R K)
        → s.executor ≡ drained
        → Step s (record s { notified = false; executor = running max_runnables })
    takes :
        (s : Threads R K) (n : ℕ) (r : R) (rs : List R)
        → s.executor ≡ running (suc n)
        → s.incoming ≡ r ∷ rs
        → Step s (record s { incoming = rs; executor = running n })
    finds_empty :
        (s : Threads R K) (n : ℕ)
        → s.executor ≡ running (suc n)
        → s.incoming ≡ []
        → Step s (record s { executor = asleep })
    stops : (s : Threads R K) → s.executor ≡ running 0 → Step s (record s { executor = limited })
    pings_itself :
        (s : Threads R K)
        → s.executor ≡ limited
        → Step s (record s { kernel = ping fd s.kernel; executor = asleep })

  pub data Steps (s : Threads R K) : Threads R K → Type 0 where
    here : Steps s s
    next : {t u : Threads R K} → Steps s t → Step t u → Steps s u

  pub Steps-trans : {s t u : Threads R K} → Steps s t → Steps t u → Steps s u
  Steps-trans p here = p
  Steps-trans p (next q st) = next (Steps-trans p q) st

abbrev pub start : {R K : Type 0} → K → Threads R K
start kernel = record {
  incoming = [];
  notified = false;
  kernel = kernel;
  pushed = 0;
  pinging = 0;
  executor = asleep;
}
