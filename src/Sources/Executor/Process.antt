-- ===== src/Sources/Executor/Process.antt =====
-- sources/futures.rs: what the executor does when it is pinged, and when it is dropped.
use calloop.Common.{ℕ, zero, suc, Option, none, some, List, [], ◌∷◌, Bool, true, false}
use calloop.Error.{Boxed, Result, ok, err, panicked, M, ◌>>◌, zoom}
use calloop.Token.{Token}
use calloop.Sys.{Poller, Readiness}
use calloop.PostAction.{PostAction}
use calloop.Sources.Generic.{Generic}
use calloop.Sources.{EventSource, forward}
use calloop.Sources.Ping.{ping_source, Eventfd, ping}
use calloop.Sources.Ping
use calloop.Sources.Executor.{
  Active, future, finished, Slab, Code, Ran, pending, ready, dropped, AsyncTask, Shared, set_active,
  max_runnables, wake, perform,
}

module _ {F T R V W : Type 0} (a : AsyncTask F T R V W) where
  unfoldable pub discard_all : List R → W → W
  discard_all [] w = w
  discard_all (r ∷ rs) w = discard_all rs (a.discard r w)

module _ {F T R V W L K : Type 0} ⦃k : Eventfd K⦄ (a : AsyncTask F T R V W)
    (l : Slab (Active T V) L) (fd : ℕ) where
  unfoldable pub store_at :
      ℕ → Ran T → L → Option (Active T V) → M (Unit {0}) (Shared K R L W) (Unit {0})
  store_at index (ready x) tasks (some old) s =
      (ok tt, set_active (some (l.set index (finished x) tasks)) s)
  store_at index dropped tasks (some old) s = (ok tt, set_active (some (l.remove index tasks)) s)
  store_at index pending tasks o s = (ok tt, s)
  store_at index _ tasks none s = (panicked, s)

  -- `StoreOnDrop`, which is dropped when the future has its value or is dropped itself.
  unfoldable pub store_on_drop : ℕ → Ran T → Option L → M (Unit {0}) (Shared K R L W) (Unit {0})
  unfolding store_at
  store_on_drop index ran none s = (ok tt, s)
  store_on_drop index ran (some tasks) s = store_at index ran tasks (l.get index tasks) s

  unfoldable pub stored : ℕ → Ran T × Shared K R L W → Result (Unit {0}) (Unit {0}) × Shared K R L W
  unfolding store_on_drop
  stored index (ran, s) = store_on_drop index ran s.state.active_tasks s

  -- `Runnable::run`.
  unfoldable pub run_runnable : R → M (Unit {0}) (Shared K R L W) (Unit {0})
  unfolding stored perform
  run_runnable r s =
      let (code, w) = a.run r s.tasks in
      stored (a.metadata r) (perform a l fd code (record s { tasks = w }))

  -- What the callback of the ping works on: the shared state, the flag that tells that the queue was
  -- found empty, and what the user's callback captures.
  unfoldable pub deliver :
      {C : Type 0}
      → (T → C → Code F V C)
      → ℕ
      → Option (Active T V)
      → L
      → M (Unit {0}) (Shared K R L W × C) (Unit {0})
  deliver callback index (some (finished x)) tasks (s, c) =
      let (c', s') = perform a l fd (callback x c) (set_active (some (l.remove index tasks)) s) in
      (ok tt, (s', c'))
  deliver callback index _ tasks (s, c) = (ok tt, (s, c))

  unfoldable pub deliver_from :
      {C : Type 0}
      → (T → C → Code F V C)
      → ℕ
      → Option L
      → M (Unit {0}) (Shared K R L W × C) (Unit {0})
  unfolding deliver
  deliver_from callback index none p = (panicked, p)
  deliver_from callback index (some tasks) p = deliver callback index (l.get index tasks) tasks p

  -- `Runnable::run`, and the value that it left behind, if any.
  unfoldable pub run_one :
      {C : Type 0} → (T → C → Code F V C) → R → M (Unit {0}) (Shared K R L W × C) (Unit {0})
  unfolding run_runnable deliver_from
  run_one callback r = do
    zoom (λ p. p.0) (λ s p. (s, p.1)) (run_runnable r)
    λ p. deliver_from callback (a.metadata r) p.0.state.active_tasks p

  unfoldable pub try_recv :
      {C : Type 0}
      → (T → C → Code F V C)
      → List R
      → M (Unit {0}) (Shared K R L W × C) Bool
      → M (Unit {0}) (Shared K R L W × C) Bool
  unfolding run_one
  try_recv callback [] next p = (ok true, p)
  try_recv callback (r ∷ rs) next (s, c) =
      (run_one callback r >> next) (record s { state = record (s.state) { incoming = rs } }, c)

  -- The loop `for _ in 0..1024`; the answer is `clear_readiness`.
  unfoldable pub drain :
      {C : Type 0} → (T → C → Code F V C) → ℕ → M (Unit {0}) (Shared K R L W × C) Bool
  unfolding try_recv
  drain callback zero p = (ok false, p)
  drain callback (suc n) p = try_recv callback p.0.state.incoming (drain callback n) p

  -- The callback of the ping; it works on the kernel's state as the ping has left it.
  unfoldable pub on_ping :
      {C : Type 0}
      → (T → C → Code F V C)
      → K × (Result (Unit {0}) Bool × (Shared K R L W × C))
      → K × (Result (Unit {0}) Bool × (Shared K R L W × C))
  on_ping callback (kernel, (clear, (s, c))) =
      let (r, (s', c')) =
        drain callback max_runnables
          (record s { state = record (s.state) { notified = false }; kernel = kernel }, c) in
      (s'.kernel, (r, (s', c')))

  unfoldable pub decide :
      {C : Type 0}
      → Result Boxed PostAction
        × (Generic ℕ × (K × (Result (Unit {0}) Bool × (Shared K R L W × C))))
      → Result Boxed PostAction × (Generic ℕ × (Shared K R L W × C))
  decide (ok action, (g, (kernel, (ok true, (s, c))))) =
      (ok action, (g, (record s { kernel = kernel }, c)))
  decide (ok action, (g, (kernel, (ok false, (s, c))))) =
      (ok PostAction.continue, (g, (record s { kernel = ping fd kernel }, c)))
  decide (err x, (g, (kernel, (ok _, (s, c))))) = (err x, (g, (record s { kernel = kernel }, c)))
  decide (_, (g, (kernel, (_, (s, c))))) = (panicked, (g, (record s { kernel = kernel }, c)))

  -- `Executor::process_events`.
  unfoldable pub process_events :
      {C : Type 0}
      → Readiness
      → Token
      → (T → C → Code F V C)
      → M Boxed (Generic ℕ × (Shared K R L W × C)) PostAction
  unfolding on_ping decide
  process_events readiness t callback (g, (s, c)) =
      decide
        (Ping.process_events readiness t (on_ping callback) (g, (s.kernel, (ok false, (s, c)))))

  -- The entries are read by the drop of `Executor`: the waker of every unfinished future is woken.
  unfoldable pub wake_all : List (Active T V) → Shared K R L W → Shared K R L W
  wake_all [] s = s
  wake_all (future v ∷ es) s = wake_all es (wake a l fd v s)
  wake_all (finished x ∷ es) s = wake_all es s

  unfoldable pub discard_queue : Shared K R L W → Shared K R L W
  unfolding discard_all
  discard_queue s = record s {
    state = record (s.state) { incoming = [] };
    tasks = discard_all a s.state.incoming s.tasks;
  }

  unfoldable pub drop_active : Option L → M (Unit {0}) (Shared K R L W) (Unit {0})
  unfolding wake_all discard_queue
  drop_active none s = (panicked, s)
  drop_active (some tasks) s =
      (ok tt, discard_queue (wake_all (l.entries tasks) (set_active none s)))

  -- `Drop for Executor`.
  unfoldable pub drop_executor : M (Unit {0}) (Shared K R L W) (Unit {0})
  unfolding drop_active
  drop_executor s = drop_active s.state.active_tasks s

-- The registration is that of the ping.
instance abbrev pub executor_source :
    {P R L W K : Type 0} ⦃o : Poller P⦄ → EventSource P (Generic ℕ × Shared K R L W)
executor_source = forward (λ s. s.0) (λ g s. (g, s.1)) ping_source
