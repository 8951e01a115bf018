-- ===== src/Sources/Executor/Results.antt =====
-- What becomes of the values of the futures of sources/futures.rs.
pub mod Served
pub mod Handed
pub mod Rounds
pub mod Events
use calloop.Common.{
  ℕ, zero, suc, ◌≡◌, ◌≢◌, refl, sym, subst, ◌⊎◌, inl, inr, Option, none, some, Option-cases, Bool,
  true, false, List, [], ◌∷◌, ◌++◌, Bool-cases, ℕ_discrete, arith, if◌then◌else◌,
}
use calloop.Error.{Boxed, Result, ok, err, panicked, M, bind_result}
use calloop.Token.{Token}
use calloop.Sys.{Readiness}
use calloop.PostAction.{PostAction}
use calloop.Sources.Generic.{Generic}
use calloop.Sources.Ping.{Eventfd, ping}
use calloop.Sources.Executor.{
  Active, future, finished, Slab, Code, ends, scheduling, waking, Ran, pending, ready, dropped,
  AsyncTask, Shared, State, max_runnables, set_active, send, enter_task, schedule_in, schedule,
  woken, wake, perform, is_ok,
}
use calloop.Sources.Executor.Process.{
  store_at, store_on_drop, stored, run_runnable, deliver, deliver_from, run_one, try_recv, drain,
  on_ping, decide, process_events,
}

-- The documented behaviour of `slab::Slab`.
pub record SlabLaws (A L : Type 0) (l : Slab A L) : Type 0 where
  pub get-new : (i : ℕ) → l.get i l.new ≡ none
  pub get-insert_self : (x : A) (s : L) → l.get (l.vacant_key s) (l.insert x s) ≡ some x
  pub get-insert_ne :
      (i : ℕ) (x : A) (s : L) → i ≢ l.vacant_key s → l.get i (l.insert x s) ≡ l.get i s
  pub get-set_self : (i : ℕ) (x : A) (s : L) → l.get i s ≢ none → l.get i (l.set i x s) ≡ some x
  pub get-set_ne : (i j : ℕ) (x : A) (s : L) → i ≢ j → l.get j (l.set i x s) ≡ l.get j s
  pub get-remove_self : (i : ℕ) (s : L) → l.get i (l.remove i s) ≡ none
  pub get-remove_ne : (i j : ℕ) (s : L) → i ≢ j → l.get j (l.remove i s) ≡ l.get j s

-- No value waits in a slot.
abbrev pub IsTaken : {T V : Type 0} → Option (Active T V) → Type 0
IsTaken none = Unit
IsTaken (some (future v)) = Unit
IsTaken (some (finished x)) = ⊥

module _ {T V L : Type 0} (l : Slab (Active T V) L) where
  abbrev pub AllTaken : Option L → Type 0
  AllTaken none = Unit
  AllTaken (some tasks) = (i : ℕ) → IsTaken (l.get i tasks)

  -- The value of the future that has just run may wait in its slot.
  abbrev TakenBut : ℕ → Option L → Type 0
  TakenBut i none = Unit
  TakenBut i (some tasks) = (j : ℕ) → i ≢ j → IsTaken (l.get j tasks)

  all_but : (i : ℕ) (o : Option L) → AllTaken o → TakenBut i o
  all_but i none h = tt
  all_but i (some tasks) h = λ j ne. h j

  all_of_but :
      (i : ℕ) (tasks : L)
      → IsTaken (l.get i tasks)
      → TakenBut i (some tasks)
      → AllTaken (some tasks)
  all_of_but i tasks g h j = elim (ℕ_discrete i j) [ yes e ↦ rw (← e) g | no ne ↦ h j ne ]

  -- No value waits: every slot in use holds a future that is still running.
  pub record IsServed {K R W : Type 0} (s : Shared K R L W) : Type 0 where
    pub taken : AllTaken s.state.active_tasks

module _ {T V L : Type 0} (l : Slab (Active T V) L) (w : SlabLaws (Active T V) L l) where
  insert-AllTaken :
      (v : V) (tasks : L) → AllTaken l (some tasks) → AllTaken l (some (l.insert (future v) tasks))
  insert-AllTaken v tasks h i = elim (ℕ_discrete i (l.vacant_key tasks)) [
    | yes e ↦ rw (e, w.get-insert_self (future v) tasks) tt
    | no ne ↦ rw (w.get-insert_ne i (future v) tasks ne) (h i)
  ]

  remove-AllTaken :
      (i : ℕ) (tasks : L) → TakenBut l i (some tasks) → AllTaken l (some (l.remove i tasks))
  remove-AllTaken i tasks h j = elim (ℕ_discrete i j) [
    | yes e ↦ rw (← e, w.get-remove_self i tasks) tt
    | no ne ↦ rw (w.get-remove_ne i j tasks ne) (h j ne)
  ]

module _ {F T R V W L K : Type 0} ⦃k : Eventfd K⦄ (a : AsyncTask F T R V W)
    (l : Slab (Active T V) L) (w : SlabLaws (Active T V) L l) (fd : ℕ) where
  schedule_in-IsServed :
      (f : F) (o : Option L) (s : Shared K R L W)
      → AllTaken l o
      → IsServed l s
      → IsServed l (schedule_in a l fd f o s).1
  unfolding schedule_in enter_task send
  schedule_in-IsServed f none s h g = g
  schedule_in-IsServed f (some tasks) s h g = record {
    taken = insert-AllTaken l w (a.waker (a.spawn (l.vacant_key tasks) f s.tasks).0) tasks h;
  }

  woken-IsServed :
      (r : Option R × W) (s : Shared K R L W) → IsServed l s → IsServed l (woken a l fd r s)
  unfolding woken send
  woken-IsServed (none, w') s h = record { taken = h.taken }
  woken-IsServed (some r, w') s h = record { taken = h.taken }

  perform-IsServed :
      {A : Type 0} (code : Code F V A) (s : Shared K R L W)
      → IsServed l s
      → IsServed l (perform a l fd code s).1
  unfolding perform schedule wake
  perform-IsServed (ends x) s h = h
  perform-IsServed (scheduling f next) s h =
      let r = schedule a l fd f s in
      perform-IsServed (next (is_ok r.0)) r.1
        (schedule_in-IsServed f s.state.active_tasks s h.taken h)
  perform-IsServed (waking v next) s h =
      perform-IsServed next (wake a l fd v s) (woken-IsServed (a.wake v s.tasks) s h)

  store_at-TakenBut :
      (i : ℕ) (ran : Ran T) (tasks : L) (o : Option (Active T V)) (s : Shared K R L W)
      → AllTaken l (some tasks)
      → AllTaken l s.state.active_tasks
      → TakenBut l i (store_at a l fd i ran tasks o s).1.state.active_tasks
  unfolding store_at
  store_at-TakenBut i (ready x) tasks (some old) s h g =
      λ j ne. rw (w.get-set_ne i j (finished x) tasks ne) (h j)
  store_at-TakenBut i dropped tasks (some old) s h g =
      λ j ne. rw (w.get-remove_ne i j tasks ne) (h j)
  store_at-TakenBut i pending tasks (some old) s h g = all_but l i s.state.active_tasks g
  store_at-TakenBut i pending tasks none s h g = all_but l i s.state.active_tasks g
  store_at-TakenBut i (ready x) tasks none s h g = all_but l i s.state.active_tasks g
  store_at-TakenBut i dropped tasks none s h g = all_but l i s.state.active_tasks g

  store_on_drop-TakenBut :
      (i : ℕ) (ran : Ran T) (o : Option L) (s : Shared K R L W)
      → AllTaken l o
      → AllTaken l s.state.active_tasks
      → TakenBut l i (store_on_drop a l fd i ran o s).1.state.active_tasks
  unfolding store_on_drop
  store_on_drop-TakenBut i ran none s h g = all_but l i s.state.active_tasks g
  store_on_drop-TakenBut i ran (some tasks) s h g =
      store_at-TakenBut i ran tasks (l.get i tasks) s h g

  run_runnable-TakenBut :
      (r : R) (s : Shared K R L W)
      → IsServed l s
      → TakenBut l (a.metadata r) (run_runnable a l fd r s).1.state.active_tasks
  unfolding run_runnable stored
  run_runnable-TakenBut r s h =
      let run = a.run r s.tasks in
      let s' : Shared K R L W = record s { tasks = run.1 } in
      let ran = perform a l fd run.0 s' in
      let served = perform-IsServed run.0 s' (record { taken = h.taken }) in
      store_on_drop-TakenBut (a.metadata r) ran.0 ran.1.state.active_tasks ran.1 served.taken
        served.taken
