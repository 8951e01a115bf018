-- ===== src/Sources/Executor/Wakeups.antt =====
-- That the executor of sources/futures.rs never sleeps on a runnable.
use calloop.Common.{ℕ, ◌+◌, ◌<◌, ◌≤◌, ◌≡◌, ◌≢◌, [], true, refl, ap, arith}
use calloop.Sources.Ping.{Eventfd}
use calloop.Sources.Ping.Delivery.{Counts, ping_pending}
use calloop.Sources.Executor.Threads.{
  Phase, asleep, drained, limited, running, Threads, start, Step, pushes, finds_notified, notifies,
  pings, wakes, unpinged, ignores, resets, takes, finds_empty, stops, pings_itself, Steps, here,
  next,
}

-- 1 if the executor is yet to reset the flag or to ping itself, and if it is yet to look at the
-- queue or to ping itself.
resetting : Phase → ℕ
resetting drained = 1
resetting asleep = 0
resetting limited = 1
resetting (running n) = 0

looking : Phase → ℕ
looking drained = 1
looking (running n) = 1
looking limited = 1
looking asleep = 0

resetting-le : (p : Phase) → resetting p ≤ looking p
unfolding resetting looking
resetting-le drained = omega arith
resetting-le asleep = omega arith
resetting-le limited = omega arith
resetting-le (running n) = omega arith

module _ {R K : Type 0} ⦃k : Eventfd K⦄ (l : Counts K k) (fd : ℕ) where
  -- Whoever finds the flag set may rely on it, and a queue that is not empty will be looked at.
  record IsAwake (s : Threads R K) : Type 0 where
    flag : s.notified ≡ true → 0 < l.counter fd s.kernel + s.pinging + resetting s.executor
    queue : s.incoming ≢ [] → 0 < l.counter fd s.kernel + s.pushed + s.pinging + looking s.executor

  Step-IsAwake : {s t : Threads R K} → Step l fd s t → IsAwake s → IsAwake t
  unfolding resetting looking
  Step-IsAwake (pushes s r) h = record { flag = h.flag; queue = λ q. omega arith }
  Step-IsAwake (finds_notified s n p f) h = record {
    flag = h.flag;
    queue = λ q. omega (arith, h.flag f, resetting-le s.executor);
  }
  Step-IsAwake (notifies s n p f) h = record { flag = λ q. omega arith; queue = λ q. omega arith }
  Step-IsAwake (pings s n p) h = record {
    flag = λ q. omega (arith, ping_pending l fd s.kernel);
    queue = λ q. omega (arith, ping_pending l fd s.kernel);
  }
  Step-IsAwake (wakes s e c) h = record { flag = λ q. omega arith; queue = λ q. omega arith }
  Step-IsAwake (unpinged s e) h = record { flag = λ q. omega arith; queue = λ q. omega arith }
  Step-IsAwake (ignores s e) h = record { flag = λ q. omega arith; queue = λ q. omega arith }
  Step-IsAwake (resets s e) h = record { flag = λ q. ground arith; queue = λ q. omega arith }
  Step-IsAwake (takes s n r rs e i) h = record {
    flag = λ q. omega (arith, h.flag q, ap resetting e);
    queue = λ q. omega arith;
  }
  Step-IsAwake (finds_empty s n e i) h = record {
    flag = λ q. omega (arith, h.flag q, ap resetting e);
    queue = λ q. absurd (q i);
  }
  Step-IsAwake (stops s e) h = record {
    flag = λ q. omega (arith, h.flag q, ap resetting e);
    queue = λ q. omega arith;
  }
  Step-IsAwake (pings_itself s e) h = record {
    flag = λ q. omega (arith, ping_pending l fd s.kernel);
    queue = λ q. omega (arith, ping_pending l fd s.kernel);
  }

  Steps-IsAwake : {s t : Threads R K} → Steps l fd s t → IsAwake s → IsAwake t
  Steps-IsAwake here h = h
  Steps-IsAwake (next p st) h = Step-IsAwake st (Steps-IsAwake p h)

  start-IsAwake : (kernel : K) → IsAwake (start kernel)
  start-IsAwake kernel = record { flag = λ q. absurd (ground arith); queue = λ q. absurd (q refl) }

  -- However the steps of the threads alternate: when the executor sleeps, no thread is on the way to
  -- wake it up, and a runnable is in the queue, then the eventfd is readable, so the loop will poll it.
  pub no_lost_wakeup :
      (kernel : K) {s : Threads R K}
      → Steps l fd (start kernel) s
      → s.executor ≡ asleep
      → s.pushed ≡ 0
      → s.pinging ≡ 0
      → s.incoming ≢ []
      → 0 < l.counter fd s.kernel
  unfolding looking
  no_lost_wakeup kernel {s} p e none_pushed none_pinging q =
      omega (arith, (Steps-IsAwake p (start-IsAwake kernel)).queue q, ap looking e)
