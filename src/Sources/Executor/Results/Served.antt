-- ===== src/Sources/Executor/Results/Served.antt =====
-- That an event of the executor of sources/futures.rs leaves no value of a future behind.
use calloop.Common.{
  ℕ, zero, suc, ◌≡◌, ◌≢◌, refl, Option, none, some, Bool, true, false, List, [], ◌∷◌,
}
use calloop.Error.{Boxed, Result, ok, err, panicked, M, bind_result}
use calloop.Token.{Token}
use calloop.Sys.{Readiness}
use calloop.PostAction.{PostAction}
use calloop.Sources.Generic.{Generic}
use calloop.Sources.Ping.{Eventfd, ping}
use calloop.Sources.Ping
use calloop.Sources.Ping.Delivery.{captured}
use calloop.Sources.Executor.{
  Active, future, finished, Slab, Code, AsyncTask, Shared, max_runnables, set_active,
}
use calloop.Sources.Executor.Process.{
  run_runnable, deliver, deliver_from, run_one, try_recv, drain, on_ping, decide, process_events,
}
use calloop.Sources.Executor.Results.{
  SlabLaws, TakenBut, IsServed, all_of_but, remove-AllTaken, perform-IsServed,
  run_runnable-TakenBut,
}

module _ {F T R V W L K : Type 0} ⦃k : Eventfd K⦄ (a : AsyncTask F T R V W)
    (l : Slab (Active T V) L) (w : SlabLaws (Active T V) L l) (fd : ℕ) where
  module _ {C : Type 0} where
    -- After a panic nothing is claimed.
    abbrev pub ServedAfter : {A : Type 0} → Result (Unit {0}) A × (Shared K R L W × C) → Type 0
    ServedAfter (ok x, (s, c)) = IsServed l s
    ServedAfter (err e, (s, c)) = Unit
    ServedAfter (panicked, (s, c)) = Unit

    deliver-ServedAfter :
        (callback : T → C → Code F V C) (i : ℕ) (o : Option (Active T V)) (tasks : L)
        (s : Shared K R L W) (c : C)
        → l.get i tasks ≡ o
        → s.state.active_tasks ≡ some tasks
        → TakenBut l i (some tasks)
        → ServedAfter (deliver a l fd callback i o tasks (s, c))
    unfolding deliver
    deliver-ServedAfter callback i (some (finished x)) tasks s c e active h =
        perform-IsServed a l w fd (callback x c) (set_active (some (l.remove i tasks)) s)
          (record { taken = remove-AllTaken l w i tasks h })
    deliver-ServedAfter callback i (some (future v)) tasks s c e active h = record {
      taken = rw active (all_of_but l i tasks (rw e tt) h);
    }
    deliver-ServedAfter callback i none tasks s c e active h = record {
      taken = rw active (all_of_but l i tasks (rw e tt) h);
    }

    deliver_from-ServedAfter :
        (callback : T → C → Code F V C) (i : ℕ) (o : Option L) (s : Shared K R L W) (c : C)
        → s.state.active_tasks ≡ o
        → TakenBut l i o
        → ServedAfter (deliver_from a l fd callback i o (s, c))
    unfolding deliver_from
    deliver_from-ServedAfter callback i none s c e h = tt
    deliver_from-ServedAfter callback i (some tasks) s c e h =
        deliver-ServedAfter callback i (l.get i tasks) tasks s c refl e h

    bind-ServedAfter :
        {A : Type 0} (Q : Shared K R L W × C → Type 0)
        (m : Result (Unit {0}) (Unit {0}) × (Shared K R L W × C))
        (f : M (Unit {0}) (Shared K R L W × C) A)
        → Q m.1
        → ((q : Shared K R L W × C) → Q q → ServedAfter (f q))
        → ServedAfter (bind_result m (λ _. f))
    bind-ServedAfter Q (ok x, q) f h g = g q h
    bind-ServedAfter Q (err e, q) f h g = tt
    bind-ServedAfter Q (panicked, q) f h g = tt

    pub run_one-ServedAfter :
        (callback : T → C → Code F V C) (r : R) (s : Shared K R L W) (c : C)
        → IsServed l s
        → ServedAfter (run_one a l fd callback r (s, c))
    unfolding run_one
    run_one-ServedAfter callback r s c h =
        let ran = run_runnable a l fd r s in
        bind-ServedAfter (λ q. TakenBut l (a.metadata r) q.0.state.active_tasks) (ran.0, (ran.1, c))
          (λ q. deliver_from a l fd callback (a.metadata r) q.0.state.active_tasks q)
          (run_runnable-TakenBut a l w fd r s h)
          (λ q g.
            deliver_from-ServedAfter callback (a.metadata r) q.0.state.active_tasks q.0 q.1 refl g)

    after-ServedAfter :
        (m : Result (Unit {0}) (Unit {0}) × (Shared K R L W × C))
        (f : M (Unit {0}) (Shared K R L W × C) Bool)
        → ServedAfter m
        → ((q : Shared K R L W × C) → IsServed l q.0 → ServedAfter (f q))
        → ServedAfter (bind_result m (λ _. f))
    after-ServedAfter (ok x, q) f h g = g q h
    after-ServedAfter (err e, q) f h g = tt
    after-ServedAfter (panicked, q) f h g = tt

    try_recv-ServedAfter :
        (callback : T → C → Code F V C) (queue : List R)
        (f : M (Unit {0}) (Shared K R L W × C) Bool) (s : Shared K R L W) (c : C)
        → IsServed l s
        → ((q : Shared K R L W × C) → IsServed l q.0 → ServedAfter (f q))
        → ServedAfter (try_recv a l fd callback queue f (s, c))
    unfolding try_recv
    try_recv-ServedAfter callback [] f s c h g = h
    try_recv-ServedAfter callback (r ∷ rs) f s c h g =
        let s' : Shared K R L W = record s { state = record (s.state) { incoming = rs } } in
        after-ServedAfter (run_one a l fd callback r (s', c)) f
          (run_one-ServedAfter callback r s' c (record { taken = h.taken })) g

    drain-ServedAfter :
        (callback : T → C → Code F V C) (n : ℕ) (q : Shared K R L W × C)
        → IsServed l q.0
        → ServedAfter (drain a l fd callback n q)
    unfolding drain
    drain-ServedAfter callback zero q h = h
    drain-ServedAfter callback (suc n) q h =
        try_recv-ServedAfter callback q.0.state.incoming (drain a l fd callback n) q.0 q.1 h
          (drain-ServedAfter callback n)

    decide-IsServed :
        (r : Result Boxed PostAction
          × (Generic ℕ × (K × (Result (Unit {0}) Bool × (Shared K R L W × C)))))
        → ServedAfter r.1.1.1
        → (decide a l fd r).0 ≢ panicked
        → IsServed l (decide a l fd r).1.1.0
    unfolding decide
    decide-IsServed (ok action, (g, (kernel, (ok true, (s, c))))) h ne = record { taken = h.taken }
    decide-IsServed (ok action, (g, (kernel, (ok false, (s, c))))) h ne = record { taken = h.taken }
    decide-IsServed (ok action, (g, (kernel, (err e, (s, c))))) h ne = absurd (ne refl)
    decide-IsServed (ok action, (g, (kernel, (panicked, (s, c))))) h ne = absurd (ne refl)
    decide-IsServed (err x, (g, (kernel, (ok b, (s, c))))) h ne = record { taken = h.taken }
    decide-IsServed (err x, (g, (kernel, (err e, (s, c))))) h ne = absurd (ne refl)
    decide-IsServed (err x, (g, (kernel, (panicked, (s, c))))) h ne = absurd (ne refl)
    decide-IsServed (panicked, (g, (kernel, (r, (s, c))))) h ne = absurd (ne refl)

    on_ping-ServedAfter :
        (callback : T → C → Code F V C) (kernel : K) (r : Result (Unit {0}) Bool)
        (s : Shared K R L W) (c : C)
        → IsServed l s
        → ServedAfter (on_ping a l fd callback (kernel, (r, (s, c)))).1
    unfolding on_ping
    on_ping-ServedAfter callback kernel r s c h =
        drain-ServedAfter callback max_runnables
          (record s { state = record (s.state) { notified = false }; kernel = kernel }, c)
          (record { taken = h.taken })

    -- Where no value of a future waits in a slot, none waits in one after an event that does not panic,
    -- whatever runnables the event runs, and whatever they and the callback schedule and wake.
    pub process_events-IsServed :
        (g : Generic ℕ) (t : Token) (readiness : Readiness) (callback : T → C → Code F V C)
        (s : Shared K R L W) (c : C)
        → IsServed l s
        → (process_events a l fd readiness t callback (g, (s, c))).0 ≢ panicked
        → IsServed l (process_events a l fd readiness t callback (g, (s, c))).1.1.0
    unfolding process_events
    process_events-IsServed g t readiness callback s c h ne =
        decide-IsServed
          (Ping.process_events readiness t (on_ping a l fd callback)
            (g, (s.kernel, (ok false, (s, c)))))
          (captured (λ p. ServedAfter p.1) g t readiness (on_ping a l fd callback) s.kernel
            (ok false, (s, c)) (λ kernel. h)
            (λ kernel. on_ping-ServedAfter callback kernel (ok false) s c h))
          ne
