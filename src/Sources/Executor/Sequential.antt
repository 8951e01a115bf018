-- ===== src/Sources/Executor/Sequential.antt =====
-- The functions that model sources/futures.rs are runs of its threads, with no other thread between.
use calloop.Common.{
  ℕ, zero, suc, ◌/◌, ◌%◌, ◌==◌, ◌<◌, ◌≡◌, ◌≢◌, refl, sym, subst, Option, none, some, Bool, true,
  false, List, [], ◌∷◌, ◌++◌, if◌then◌else◌,
}
use calloop.Error.{Result, ok, err, panicked, M, bind_result}
use calloop.Token.{Token}
use calloop.Sys.{Readiness}
use calloop.PostAction.{PostAction}
use calloop.Sources.Generic.{Generic}
use calloop.Sources.Ping.{Eventfd, ping, drain_ping}
use calloop.Sources.Ping.Delivery.{Counts, delivers_at}
use calloop.Sources.Executor.{
  Active, future, finished, Slab, Code, ends, scheduling, waking, Ran, pending, ready, dropped,
  AsyncTask, Shared, max_runnables, set_active, send, enter_task, schedule_in, schedule, woken,
  wake, perform, is_ok,
}
use calloop.Sources.Executor.Process.{
  store_at, store_on_drop, stored, run_runnable, deliver, deliver_from, run_one, try_recv, drain,
  on_ping, decide, process_events,
}
use calloop.Sources.Executor.Threads.{
  Phase, asleep, running, Threads, pushes, finds_notified, notifies, pings, wakes, unpinged, resets,
  takes, finds_empty, stops, pings_itself, Steps, here, next, Steps-trans,
}

module _ {F T R V W L K : Type 0} ⦃k : Eventfd K⦄ (a : AsyncTask F T R V W)
    (l : Slab (Active T V) L) (n : Counts K k) (fd : ℕ) where
  -- What the threads see of the state, while the executor is at `p`.
  abbrev pub seen : Shared K R L W → Phase → Threads R K
  seen s p = record {
    incoming = s.state.incoming;
    notified = s.state.notified;
    kernel = s.kernel;
    pushed = 0;
    pinging = 0;
    executor = p;
  }

  sent_seen :
      (queue : List R) (b : Bool) (kernel : K) (p : Phase) (r : R)
      → let at : List R → Bool → K → Threads R K = λ q f s. record {
        incoming = q;
        notified = f;
        kernel = s;
        pushed = 0;
        pinging = 0;
        executor = p;
      } in
        Steps n fd
          (at queue b kernel)
          (at (queue ++ r ∷ []) true (if b then kernel else ping fd kernel))
  sent_seen queue true kernel p r = next (next here (pushes _ r)) (finds_notified _ 0 refl refl)
  sent_seen queue false kernel p r =
      next (next (next here (pushes _ r)) (notifies _ 0 refl refl)) (pings _ 0 refl)

  send-Steps :
      (r : R) (s : Shared K R L W) (p : Phase) → Steps n fd (seen s p) (seen (send a l fd r s) p)
  unfolding send
  send-Steps r s p = sent_seen s.state.incoming s.state.notified s.kernel p r

  schedule_in-Steps :
      (f : F) (o : Option L) (s : Shared K R L W) (p : Phase)
      → Steps n fd (seen s p) (seen (schedule_in a l fd f o s).1 p)
  unfolding schedule_in enter_task
  schedule_in-Steps f none s p = here
  schedule_in-Steps f (some tasks) s p =
      let (r, w) = a.spawn (l.vacant_key tasks) f s.tasks in
      send-Steps r
        (set_active (some (l.insert (future (a.waker r)) tasks)) (record s { tasks = w })) p

  woken-Steps :
      (r : Option R × W) (s : Shared K R L W) (p : Phase)
      → Steps n fd (seen s p) (seen (woken a l fd r s) p)
  unfolding woken
  woken-Steps (none, w) s p = here
  woken-Steps (some r, w) s p = send-Steps r (record s { tasks = w }) p

  perform-Steps :
      {A : Type 0} (code : Code F V A) (s : Shared K R L W) (p : Phase)
      → Steps n fd (seen s p) (seen (perform a l fd code s).1 p)
  unfolding perform schedule wake
  perform-Steps (ends x) s p = here
  perform-Steps (scheduling f k) s p =
      let r = schedule a l fd f s in
      Steps-trans n fd (schedule_in-Steps f s.state.active_tasks s p)
        (perform-Steps (k (is_ok r.0)) r.1 p)
  perform-Steps (waking v k) s p =
      Steps-trans n fd (woken-Steps (a.wake v s.tasks) s p) (perform-Steps k (wake a l fd v s) p)

  store_at-seen :
      (i : ℕ) (ran : Ran T) (tasks : L) (o : Option (Active T V)) (s : Shared K R L W) (p : Phase)
      → seen (store_at a l fd i ran tasks o s).1 p ≡ seen s p
  unfolding store_at
  store_at-seen i (ready x) tasks (some old) s p = refl
  store_at-seen i (ready x) tasks none s p = refl
  store_at-seen i dropped tasks (some old) s p = refl
  store_at-seen i dropped tasks none s p = refl
  store_at-seen i pending tasks (some old) s p = refl
  store_at-seen i pending tasks none s p = refl

  store_on_drop-seen :
      (i : ℕ) (ran : Ran T) (o : Option L) (s : Shared K R L W) (p : Phase)
      → seen (store_on_drop a l fd i ran o s).1 p ≡ seen s p
  unfolding store_on_drop
  store_on_drop-seen i ran none s p = refl
  store_on_drop-seen i ran (some tasks) s p = store_at-seen i ran tasks (l.get i tasks) s p

  run_runnable-Steps :
      (r : R) (s : Shared K R L W) (p : Phase)
      → Steps n fd (seen s p) (seen (run_runnable a l fd r s).1 p)
  unfolding run_runnable stored
  run_runnable-Steps r s p =
      let run = a.run r s.tasks in
      let s' : Shared K R L W = record s { tasks = run.1 } in
      let ran = perform a l fd run.0 s' in
      subst (λ t. Steps n fd (seen s p) t)
        (sym (store_on_drop-seen (a.metadata r) ran.0 ran.1.state.active_tasks ran.1 p))
        (perform-Steps run.0 s' p)

  module _ {C : Type 0} where
    bind-Steps :
        {E A B : Type 0} (s : Shared K R L W) (p : Phase) (m : Result E A × (Shared K R L W × C))
        (f : A → M E (Shared K R L W × C) B)
        → Steps n fd (seen s p) (seen m.1.0 p)
        → ((x : A) (q : Shared K R L W × C) → Steps n fd (seen q.0 p) (seen (f x q).1.0 p))
        → Steps n fd (seen s p) (seen (bind_result m f).1.0 p)
    bind-Steps s p (ok x, q) f h g = Steps-trans n fd h (g x q)
    bind-Steps s p (err e, q) f h g = h
    bind-Steps s p (panicked, q) f h g = h

    deliver-Steps :
        (callback : T → C → Code F V C) (i : ℕ) (o : Option (Active T V)) (tasks : L)
        (s : Shared K R L W) (c : C) (p : Phase)
        → Steps n fd (seen s p) (seen (deliver a l fd callback i o tasks (s, c)).1.0 p)
    unfolding deliver
    deliver-Steps callback i (some (finished x)) tasks s c p =
        perform-Steps (callback x c) (set_active (some (l.remove i tasks)) s) p
    deliver-Steps callback i (some (future v)) tasks s c p = here
    deliver-Steps callback i none tasks s c p = here

    deliver_from-Steps :
        (callback : T → C → Code F V C) (i : ℕ) (o : Option L) (s : Shared K R L W) (c : C)
        (p : Phase)
        → Steps n fd (seen s p) (seen (deliver_from a l fd callback i o (s, c)).1.0 p)
    unfolding deliver_from
    deliver_from-Steps callback i none s c p = here
    deliver_from-Steps callback i (some tasks) s c p =
        deliver-Steps callback i (l.get i tasks) tasks s c p

    run_one-Steps :
        (callback : T → C → Code F V C) (r : R) (s : Shared K R L W) (c : C) (p : Phase)
        → Steps n fd (seen s p) (seen (run_one a l fd callback r (s, c)).1.0 p)
    unfolding run_one
    run_one-Steps callback r s c p =
        let ran = run_runnable a l fd r s in
        bind-Steps s p (ran.0, (ran.1, c))
          (λ _ q. deliver_from a l fd callback (a.metadata r) q.0.state.active_tasks q)
          (run_runnable-Steps r s p)
          (λ _ q. deliver_from-Steps callback (a.metadata r) q.0.state.active_tasks q.0 q.1 p)

    -- Where the loop over the runnables leaves the executor; a panic unwinds.
    abbrev Leaves : Threads R K → Result (Unit {0}) Bool × (Shared K R L W × C) → Type 0
    Leaves t (ok true, (s, c)) = Steps n fd t (seen s asleep)
    Leaves t (ok false, (s, c)) = Steps n fd t (seen s (running 0))
    Leaves t (err e, (s, c)) = Unit
    Leaves t (panicked, (s, c)) = Unit

    Leaves-trans :
        (t u : Threads R K) (r : Result (Unit {0}) Bool × (Shared K R L W × C))
        → Steps n fd t u
        → Leaves u r
        → Leaves t r
    Leaves-trans t u (ok true, q) h g = Steps-trans n fd h g
    Leaves-trans t u (ok false, q) h g = Steps-trans n fd h g
    Leaves-trans t u (err e, q) h g = tt
    Leaves-trans t u (panicked, q) h g = tt

    bind-Leaves :
        (t : Threads R K) (p : Phase) (m : Result (Unit {0}) (Unit {0}) × (Shared K R L W × C))
        (f : M (Unit {0}) (Shared K R L W × C) Bool)
        → Steps n fd t (seen m.1.0 p)
        → ((q : Shared K R L W × C) → Leaves (seen q.0 p) (f q))
        → Leaves t (bind_result m (λ _. f))
    bind-Leaves t p (ok x, q) f h g = Leaves-trans t (seen q.0 p) (f q) h (g q)
    bind-Leaves t p (err e, q) f h g = tt
    bind-Leaves t p (panicked, q) f h g = tt

    try_recv-Leaves :
        (callback : T → C → Code F V C) (m : ℕ) (queue : List R)
        (f : M (Unit {0}) (Shared K R L W × C) Bool) (s : Shared K R L W) (c : C)
        → s.state.incoming ≡ queue
        → ((q : Shared K R L W × C) → Leaves (seen q.0 (running m)) (f q))
        → Leaves (seen s (running (suc m))) (try_recv a l fd callback queue f (s, c))
    unfolding try_recv
    try_recv-Leaves callback m [] f s c e g = next here (finds_empty _ m refl e)
    try_recv-Leaves callback m (r ∷ rs) f s c e g =
        let s' : Shared K R L W = record s { state = record (s.state) { incoming = rs } } in
        bind-Leaves (seen s (running (suc m))) (running m) (run_one a l fd callback r (s', c)) f
          (Steps-trans n fd (next here (takes (seen s (running (suc m))) m r rs refl e))
            (run_one-Steps callback r s' c (running m)))
          g

    drain-Leaves :
        (callback : T → C → Code F V C) (m : ℕ) (q : Shared K R L W × C)
        → Leaves (seen q.0 (running m)) (drain a l fd callback m q)
    unfolding drain
    drain-Leaves callback zero q = here
    drain-Leaves callback (suc m) q =
        try_recv-Leaves callback m q.0.state.incoming (drain a l fd callback m) q.0 q.1 refl
          (drain-Leaves callback m)

    decide-Steps :
        (t : Threads R K) (action : PostAction) (g : Generic ℕ) (kernel : K)
        (r : Result (Unit {0}) Bool) (s : Shared K R L W) (c : C)
        → Leaves t (r, (record s { kernel = kernel }, c))
        → let d = decide a l fd (ok action, (g, (kernel, (r, (s, c))))) in
          d.0 ≢ panicked → Steps n fd t (seen d.1.1.0 asleep)
    unfolding decide
    decide-Steps t action g kernel (ok true) s c h ne = h
    decide-Steps t action g kernel (ok false) s c h ne =
        next (next h (stops _ refl)) (pings_itself _ refl)
    decide-Steps t action g kernel (err e) s c h ne = absurd (ne refl)
    decide-Steps t action g kernel panicked s c h ne = absurd (ne refl)

    -- What `process_events` decides after the ping has read the eventfd; `b` tells that it was only
    -- closed.
    handled-Steps :
        (b : Bool) (action : PostAction) (g : Generic ℕ) (callback : T → C → Code F V C)
        (s : Shared K R L W) (c : C)
        → 0 < n.counter fd s.kernel
        → let kernel = (drain_ping fd s.kernel).1 in
          let x : K × (Result (Unit {0}) Bool × (Shared K R L W × C)) =
            (kernel, (ok false, (s, c))) in
          let d = decide a l fd (ok action, (g, (if b then x else on_ping a l fd callback x))) in
          d.0 ≢ panicked → Steps n fd (seen s asleep) (seen d.1.1.0 asleep)
    unfolding on_ping decide
    handled-Steps true action g callback s c counter ne =
        next (next (next here (wakes _ refl counter)) (unpinged _ refl)) (pings_itself _ refl)
    handled-Steps false action g callback s c counter ne =
        let kernel = (drain_ping fd s.kernel).1 in
        let s' : Shared K R L W = record s {
          state = record (s.state) { notified = false };
          kernel = kernel;
        } in
        let r = drain a l fd callback max_runnables (s', c) in
        decide-Steps (seen s asleep) action g r.1.0.kernel r.0 r.1.0 r.1.1
          (Leaves-trans (seen s asleep) (seen s' (running max_runnables)) r
            (next (next here (wakes _ refl counter)) (resets _ refl))
            (drain-Leaves callback max_runnables (s', c)))
          ne

    -- The sequential model of an event is a run of the threads: of that of the executor, which takes
    -- at most 1024 runnables, and of the wakers that its futures and the callback wake. So what holds
    -- of every alternation of the steps holds of `process_events`.
    pub process_events-Steps :
        (g : Generic ℕ) (t : Token) (readiness : Readiness) (callback : T → C → Code F V C)
        (s : Shared K R L W) (c : C)
        → g.file ≡ some fd
        → g.token ≡ some t
        → 0 < n.counter fd s.kernel
        → (process_events a l fd readiness t callback (g, (s, c))).0 ≢ panicked
        → Steps n fd
            (seen s asleep)
            (seen (process_events a l fd readiness t callback (g, (s, c))).1.1.0 asleep)
    unfolding process_events drain_ping
    process_events-Steps g t readiness callback s c file token counter ne =
        let v = n.counter fd s.kernel in
        let action = if v % 2 == 0 then PostAction.continue else PostAction.remove in
        let g' : Generic ℕ = record g { file = some fd } in
        let d =
          delivers_at n v fd s.kernel g t readiness (on_ping a l fd callback) (ok false, (s, c))
            refl counter file token in
        rw d.0 (handled-Steps (v / 2 == 0) action g' callback s c counter (rw d.0 at ne))
