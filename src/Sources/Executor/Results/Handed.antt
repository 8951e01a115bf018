-- ===== src/Sources/Executor/Results/Handed.antt =====
-- What one round of the executor of sources/futures.rs does with what its runnable ended with.
use calloop.Common.{ℕ, ◌≡◌, ◌≢◌, refl, none, some, arith}
use calloop.Error.{ok, bind_result}
use calloop.Sources.Ping.{Eventfd}
use calloop.Sources.Executor.{
  Active, future, finished, Slab, Code, Ran, pending, ready, dropped, AsyncTask, Shared, set_active,
  perform,
}
use calloop.Sources.Executor.Process.{
  store_at, store_on_drop, stored, run_runnable, deliver, deliver_from, run_one,
}
use calloop.Sources.Executor.Results.{SlabLaws}

module _ {F T R V W L K C : Type 0} ⦃k : Eventfd K⦄ (a : AsyncTask F T R V W)
    (l : Slab (Active T V) L) (fd : ℕ) where
  -- The state and what the user's callback captures after a round whose runnable was that of the slot
  -- `i` and ended with `ran`; `tasks` are the slots.
  abbrev pub after_round :
      (T → C → Code F V C) → ℕ → L → Ran T → Shared K R L W → C → Shared K R L W × C
  after_round callback i tasks pending s c = (s, c)
  after_round callback i tasks dropped s c = (set_active (some (l.remove i tasks)) s, c)
  after_round callback i tasks (ready x) s c =
      let (c', s') =
        perform a l fd (callback x c)
          (set_active (some (l.remove i (l.set i (finished x) tasks))) s) in
      (s', c')

module _ {F T R V W L K C : Type 0} ⦃k : Eventfd K⦄ (a : AsyncTask F T R V W)
    (l : Slab (Active T V) L) (w : SlabLaws (Active T V) L l) (fd : ℕ) where
  pub round_done :
      (callback : T → C → Code F V C) (i : ℕ) (ran : Ran T) (s : Shared K R L W) (c : C) (tasks : L)
      (v : V)
      → s.state.active_tasks ≡ some tasks
      → l.get i tasks ≡ some (future v)
      → (ne : l.get i tasks ≢ none)
      → let m = store_at a l fd i ran tasks (some (future v)) s in
        bind_result {A = Unit {0}}
          (m.0, (m.1, c))
          (λ _ p. deliver_from a l fd callback i p.0.state.active_tasks p)
        ≡ (ok tt, after_round a l fd callback i tasks ran s c)
  unfolding store_at deliver_from deliver
  round_done callback i pending s c tasks v e g ne = rw (e, g) refl
  round_done callback i dropped s c tasks v e g ne = rw (w.get-remove_self i tasks) refl
  round_done callback i (ready x) s c tasks v e g ne =
      rw (w.get-set_self i (finished x) tasks ne) refl

  -- A round whose future is alive in its slot when the run is over: a value goes to the callback, at
  -- once and with the slot free already, so that the callback may schedule into it. A future that was
  -- dropped only frees its slot, and one that waits keeps it; in these cases the callback is not called.
  pub run_one-Handed :
      (callback : T → C → Code F V C) (r : R) (s : Shared K R L W) (c : C) (ran : Ran T)
      (s' : Shared K R L W) (tasks : L) (v : V)
      → perform a l fd (a.run r s.tasks).0 (record s { tasks = (a.run r s.tasks).1 }) ≡ (ran, s')
      → s'.state.active_tasks ≡ some tasks
      → l.get (a.metadata r) tasks ≡ some (future v)
      → run_one a l fd callback r (s, c)
        ≡ (ok tt, after_round a l fd callback (a.metadata r) tasks ran s' c)
  unfolding run_one run_runnable stored store_on_drop
  run_one-Handed callback r s c ran s' tasks v p e g =
      simp (p, e, g)
        (round_done callback (a.metadata r) ran s' c tasks v e g
          (rw g (λ q. absurd (ground arith))))
