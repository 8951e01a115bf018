-- ===== src/Sources/Executor/Destroyed.antt =====
-- The drop of the executor of sources/futures.rs.
use calloop.Common.{ℕ, ◌≡◌, refl, sym, ap, subst, ◌∙◌, Option, none, some, List, [], ◌∷◌, ◌++◌}
use mathlib.Core.List.{append_assoc, append-nil}
use calloop.Error.{ok, err}
use calloop.Sources.Ping.{Eventfd}
use calloop.Sources.Executor.{
  Active, future, finished, Slab, AsyncTask, Shared, set_active, send, woken, wake, schedule_in,
  schedule, executor_destroyed,
}
use calloop.Sources.Executor.Process.{
  wake_all, discard_all, discard_queue, drop_active, drop_executor,
}

-- The runnables that waking the unfinished futures hands over, and the tasks afterwards.
module _ {F T R V W : Type 0} (a : AsyncTask F T R V W) where
  consed : Option R → List R × W → List R × W
  consed none p = p
  consed (some r) (rs, w) = (r ∷ rs, w)

  pub woken_by : List (Active T V) → W → List R × W
  unfolding consed
  woken_by [] w = ([], w)
  woken_by (future v ∷ es) w = consed (a.wake v w).0 (woken_by es (a.wake v w).1)
  woken_by (finished x ∷ es) w = woken_by es w

module _ {F T R V W L K : Type 0} ⦃k : Eventfd K⦄ (a : AsyncTask F T R V W)
    (l : Slab (Active T V) L) (fd : ℕ) where
  -- `t` is `s` after runnables were sent and the tasks have become `w`.
  abbrev Sent : Shared K R L W → List R × W → Shared K R L W → Type 0
  Sent s p t =
      (t.state.incoming ≡ s.state.incoming ++ p.0)
      × (t.tasks ≡ p.1)
      × (t.state.active_tasks ≡ s.state.active_tasks)

  woken-Sent :
      (r : Option R) (w : W) (es : List (Active T V)) (s t : Shared K R L W)
      → Sent (woken a l fd (r, w) s) (woken_by a es w) t
      → Sent s (consed a r (woken_by a es w)) t
  unfolding woken send consed
  woken-Sent none w es s t h = h
  woken-Sent (some r) w es s t h =
      (h.0 ∙ append_assoc s.state.incoming (r ∷ []) (woken_by a es w).0, h.1, h.2)

  woken-tasks : (r : Option R) (w : W) (s : Shared K R L W) → (woken a l fd (r, w) s).tasks ≡ w
  unfolding woken send
  woken-tasks none w s = refl
  woken-tasks (some r) w s = refl

  wake_all-Sent :
      (es : List (Active T V)) (s : Shared K R L W)
      → Sent s (woken_by a es s.tasks) (wake_all a l fd es s)
  unfolding wake_all woken_by wake
  wake_all-Sent [] s = (sym (append-nil s.state.incoming), refl, refl)
  wake_all-Sent (future v ∷ es) s =
      let s' = wake a l fd v s in
      let r = a.wake v s.tasks in
      woken-Sent r.0 r.1 es s (wake_all a l fd es s') (
        subst (λ w. Sent s' (woken_by a es w) (wake_all a l fd es s')) (woken-tasks r.0 r.1 s)
          (wake_all-Sent es s'))
  wake_all-Sent (finished x ∷ es) s = wake_all-Sent es s

  -- What the drop of the executor leaves: no slots, an empty queue, and every runnable dropped that was
  -- in the queue or that the wakers of the unfinished futures handed over.
  pub record IsDestroyed (s t : Shared K R L W) (tasks : L) : Type 0 where
    pub no_slots : t.state.active_tasks ≡ none
    pub empty_queue : t.state.incoming ≡ []
    pub all_dropped :
        t.tasks
        ≡ discard_all a
            (s.state.incoming ++ (woken_by a (l.entries tasks) s.tasks).0)
            (woken_by a (l.entries tasks) s.tasks).1

  drop_active-IsDestroyed :
      (s : Shared K R L W) (tasks : L) → IsDestroyed s (drop_active a l fd (some tasks) s).1 tasks
  unfolding drop_active discard_queue
  drop_active-IsDestroyed s tasks =
      let h = wake_all-Sent (l.entries tasks) (set_active none s) in
      record { no_slots = h.2; empty_queue = refl; all_dropped = rw (h.0, h.1) refl }

  -- The drop of an executor destroys every task that is not over, whether its runnable waits in the
  -- queue or its future waits to be woken. To schedule a future is an error afterwards, and changes
  -- nothing.
  pub drop_executor-IsDestroyed :
      (s : Shared K R L W) (tasks : L) (f : F)
      → s.state.active_tasks ≡ some tasks
      → ((drop_executor a l fd s).0 ≡ ok tt)
        × IsDestroyed s (drop_executor a l fd s).1 tasks
        × (schedule a l fd f (drop_executor a l fd s).1
            ≡ (err executor_destroyed, (drop_executor a l fd s).1))
  unfolding drop_executor schedule schedule_in drop_active
  drop_executor-IsDestroyed s tasks f e =
      let d = drop_active-IsDestroyed s tasks in
      subst
        (λ o.
          let r = drop_active a l fd o s in
          (r.0 ≡ ok tt)
          × IsDestroyed s r.1 tasks
          × (schedule_in a l fd f r.1.state.active_tasks r.1 ≡ (err executor_destroyed, r.1)))
        (sym e)
        (refl, d, ap (λ o. schedule_in a l fd f o (drop_active a l fd (some tasks) s).1) d.no_slots)
