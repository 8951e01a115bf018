-- ===== src/Sources/Executor/Results/Events.antt =====
-- That an event of the executor of sources/futures.rs hands every value of a future to the callback.
use calloop.Common.{ℕ, ◌≡◌, ◌≢◌, refl, Bool, true, false}
use calloop.Error.{Boxed, Result, ok, err, panicked}
use calloop.Token.{Token}
use calloop.Sys.{Readiness}
use calloop.PostAction.{PostAction}
use calloop.Sources.Generic.{Generic}
use calloop.Sources.Ping.{Eventfd, ping}
use calloop.Sources.Ping
use calloop.Sources.Ping.Delivery.{captured}
use calloop.Sources.Executor.{Active, Slab, Code, AsyncTask, Shared, max_runnables}
use calloop.Sources.Executor.Process.{drain, on_ping, decide, process_events}
use calloop.Sources.Executor.Results.{SlabLaws, IsServed}
use calloop.Sources.Executor.Results.Served.{process_events-IsServed}
use calloop.Sources.Executor.Results.Rounds.{Rounds, over, drain-Rounds}

module _ {F T R V W L K C : Type 0} ⦃k : Eventfd K⦄ (a : AsyncTask F T R V W)
    (l : Slab (Active T V) L) (fd : ℕ) (callback : T → C → Code F V C) where
  -- `s` and `s'` differ at most in the flag and the kernel.
  pub record SameWork (s s' : Shared K R L W) : Type 0 where
    pub queue : s'.state.incoming ≡ s.state.incoming
    pub slots : s'.state.active_tasks ≡ s.state.active_tasks
    pub work : s'.tasks ≡ s.tasks

  -- Between two states the work was done in rounds, and nothing else.
  pub record Handing (s : Shared K R L W) (c : C) (s' : Shared K R L W) (c' : C) : Type 0 where
    pub first : Shared K R L W
    pub last : Shared K R L W
    pub begins : SameWork s first
    pub rounds : Rounds a l fd callback (first, c) (last, c')
    pub ends : SameWork last s'

module _ {F T R V W L K C : Type 0} ⦃k : Eventfd K⦄ (a : AsyncTask F T R V W)
    (l : Slab (Active T V) L) (w : SlabLaws (Active T V) L l) (fd : ℕ)
    (callback : T → C → Code F V C) where
  -- What is claimed of the state that the callback of the ping leaves; after a panic it is nothing.
  abbrev HandedBy : Shared K R L W → C → Result (Unit {0}) Bool × (Shared K R L W × C) → Type 0
  HandedBy s c (ok b, (s', c')) = Handing a l fd callback s c s' c'
  HandedBy s c (err x, q) = Unit
  HandedBy s c (panicked, q) = Unit

  drained-HandedBy :
      (r : Result (Unit {0}) Bool × (Shared K R L W × C)) (s first : Shared K R L W) (c : C)
      → SameWork a l fd callback s first
      → ((b : Bool) (q : Shared K R L W × C) → r ≡ (ok b, q) → Rounds a l fd callback (first, c) q)
      → HandedBy s c r
  drained-HandedBy (ok b, (s', c')) s first c k h = record {
    first = first;
    last = s';
    begins = k;
    rounds = h b (s', c') refl;
    ends = record { queue = refl; slots = refl; work = refl };
  }
  drained-HandedBy (err x, q) s first c k h = tt
  drained-HandedBy (panicked, q) s first c k h = tt

  on_ping-HandedBy :
      (kernel : K) (r : Result (Unit {0}) Bool) (s : Shared K R L W) (c : C)
      → IsServed l s
      → HandedBy s c (on_ping a l fd callback (kernel, (r, (s, c)))).1
  unfolding on_ping
  on_ping-HandedBy kernel r s c v =
      let first : Shared K R L W = record s {
        state = record (s.state) { notified = false };
        kernel = kernel;
      } in
      drained-HandedBy (drain a l fd callback max_runnables (first, c)) s first c
        (record { queue = refl; slots = refl; work = refl })
        (λ b q.
          drain-Rounds a l w fd callback max_runnables first c b q (record { taken = v.taken }))

  kernel_changed :
      (s s' : Shared K R L W) (c c' : C) (kernel : K)
      → Handing a l fd callback s c s' c'
      → Handing a l fd callback s c (record s' { kernel = kernel }) c'
  kernel_changed s s' c c' kernel h = record {
    first = h.first;
    last = h.last;
    begins = h.begins;
    rounds = h.rounds;
    ends = record { queue = h.ends.queue; slots = h.ends.slots; work = h.ends.work };
  }

  decided :
      (s : Shared K R L W) (c : C)
      (r : Result Boxed PostAction
        × (Generic ℕ × (K × (Result (Unit {0}) Bool × (Shared K R L W × C)))))
      → HandedBy s c r.1.1.1
      → (decide a l fd r).0 ≢ panicked
      → Handing a l fd callback s c (decide a l fd r).1.1.0 (decide a l fd r).1.1.1
  unfolding decide
  decided s c (ok x, (g, (kernel, (ok true, (s', c'))))) h ne = kernel_changed s s' c c' _ h
  decided s c (ok x, (g, (kernel, (ok false, (s', c'))))) h ne = kernel_changed s s' c c' _ h
  decided s c (ok x, (g, (kernel, (err e, q)))) h ne = absurd (ne refl)
  decided s c (ok x, (g, (kernel, (panicked, q)))) h ne = absurd (ne refl)
  decided s c (err x, (g, (kernel, (ok b, (s', c'))))) h ne = kernel_changed s s' c c' _ h
  decided s c (err x, (g, (kernel, (err e, q)))) h ne = absurd (ne refl)
  decided s c (err x, (g, (kernel, (panicked, q)))) h ne = absurd (ne refl)
  decided s c (panicked, (g, (kernel, (r, q)))) h ne = absurd (ne refl)

  -- Where no value of a future waits in a slot, an event that does not panic does its work in rounds, of
  -- the runnables of the queue in their order: if the runnable of a round ends with a value, the callback
  -- is called with it, once and with the slot of the future free already; otherwise it is not called.
  -- Nothing else changes the queue, the slots, the tasks and what the callback captures, and no value
  -- waits in a slot afterwards.
  pub process_events-Handing :
      (g : Generic ℕ) (t : Token) (readiness : Readiness) (s : Shared K R L W) (c : C)
      → IsServed l s
      → (process_events a l fd readiness t callback (g, (s, c))).0 ≢ panicked
      → let (s', c') = (process_events a l fd readiness t callback (g, (s, c))).1.1 in
        Handing a l fd callback s c s' c' × IsServed l s'
  unfolding process_events
  process_events-Handing g t readiness s c v ne = (
    decided s c
        (Ping.process_events readiness t (on_ping a l fd callback)
          (g, (s.kernel, (ok false, (s, c)))))
        (captured (λ p. HandedBy s c p.1) g t readiness (on_ping a l fd callback) s.kernel
          (ok false, (s, c))
          (λ kernel. record {
            first = s;
            last = s;
            begins = record { queue = refl; slots = refl; work = refl };
            rounds = over;
            ends = record { queue = refl; slots = refl; work = refl };
          })
          (λ kernel. on_ping-HandedBy kernel (ok false) s c v))
        ne,
    process_events-IsServed a l w fd g t readiness callback s c v ne,
  )
