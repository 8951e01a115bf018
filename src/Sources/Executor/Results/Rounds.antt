-- ===== src/Sources/Executor/Results/Rounds.antt =====
-- The rounds of the executor of sources/futures.rs as a relation, and that its loop is a run of them.
use calloop.Common.{
  ℕ, zero, suc, ◌≡◌, refl, sym, ap, subst, ◌∙◌, Option, none, some, Bool, List, [], ◌∷◌, arith,
}
use calloop.Error.{Result, ok, M, bind_result, bind_result-eq_ok}
use calloop.Sources.Ping.{Eventfd}
use calloop.Sources.Executor.{
  Active, future, finished, Slab, Code, Ran, pending, ready, dropped, AsyncTask, Shared, perform,
}
use calloop.Sources.Executor.Process.{
  store_at, store_on_drop, stored, run_runnable, deliver, deliver_from, run_one, try_recv, drain,
}
use calloop.Sources.Executor.Results.{SlabLaws, IsTaken, AllTaken, IsServed, perform-IsServed}
use calloop.Sources.Executor.Results.Handed.{after_round, round_done}
use calloop.Sources.Executor.Results.Served.{ServedAfter, run_one-ServedAfter}

module _ {F T R V W L K C : Type 0} ⦃k : Eventfd K⦄ (a : AsyncTask F T R V W)
    (l : Slab (Active T V) L) (fd : ℕ) (callback : T → C → Code F V C) where
  -- From one state to another by rounds: each takes the first runnable of the queue, and `after_round`
  -- tells what happens to what it ended with; a value goes to the callback there.
  pub data Rounds : Shared K R L W × C → Shared K R L W × C → Type 0 where
    over : {q : Shared K R L W × C} → Rounds q q
    round :
        {s : Shared K R L W} {c : C} {q : Shared K R L W × C} (r : R) (rs : List R) (ran : Ran T)
        (s' : Shared K R L W) (tasks : L)
        → s.state.incoming ≡ r ∷ rs
        → perform a l fd
            (a.run r s.tasks).0
            (record s { state = record (s.state) { incoming = rs }; tasks = (a.run r s.tasks).1 })
          ≡ (ran, s')
        → s'.state.active_tasks ≡ some tasks
        → Rounds (after_round a l fd callback (a.metadata r) tasks ran s' c) q
        → Rounds (s, c) q

module _ {F T R V W L K C : Type 0} ⦃k : Eventfd K⦄ (a : AsyncTask F T R V W)
    (l : Slab (Active T V) L) (w : SlabLaws (Active T V) L l) (fd : ℕ)
    (callback : T → C → Code F V C) where
  ok_after :
      (r : Result (Unit {0}) (Unit {0}) × (Shared K R L W × C)) (q q' : Shared K R L W × C)
      → r ≡ (ok tt, q)
      → r ≡ (ok tt, q')
      → q' ≡ q
  ok_after r q q' g h = ap (λ p. p.1) (sym h ∙ g)

  settled_at :
      (i : ℕ) (ran : Ran T) (s : Shared K R L W) (c : C) (q : Shared K R L W × C) (tasks : L)
      (x : Option (Active T V))
      → s.state.active_tasks ≡ some tasks
      → l.get i tasks ≡ x
      → IsTaken x
      → bind_result {A = Unit {0}}
          ((store_at a l fd i ran tasks x s).0, ((store_at a l fd i ran tasks x s).1, c))
          (λ _ p. deliver_from a l fd callback i p.0.state.active_tasks p)
        ≡ (ok tt, q)
      → q ≡ after_round a l fd callback i tasks ran s c
  unfolding store_at deliver_from deliver
  settled_at i ran s c q tasks (some (future v)) e g t h =
      ok_after _ _ q
        (round_done a l w fd callback i ran s c tasks v e g (rw g (λ p. absurd (ground arith)))) h
  settled_at i ran s c q tasks (some (finished y)) e g t h = absurd t
  settled_at i pending s c q tasks none e g t h = ok_after _ _ q (rw (e, g) refl) h
  settled_at i dropped s c q tasks none e g t h = absurd (ground arith)
  settled_at i (ready y) s c q tasks none e g t h = absurd (ground arith)

  settled :
      (i : ℕ) (ran : Ran T) (s : Shared K R L W) (c : C) (q : Shared K R L W × C) (o : Option L)
      → s.state.active_tasks ≡ o
      → IsServed l s
      → bind_result {A = Unit {0}}
          ((store_on_drop a l fd i ran o s).0, ((store_on_drop a l fd i ran o s).1, c))
          (λ _ p. deliver_from a l fd callback i p.0.state.active_tasks p)
        ≡ (ok tt, q)
      → (tasks : L) × (s.state.active_tasks ≡ some tasks)
        × (q ≡ after_round a l fd callback i tasks ran s c)
  unfolding store_on_drop deliver_from
  settled i ran s c q none e v h = absurd (
      subst (λ o. (deliver_from a l fd callback i o (s, c)) ≡ (ok tt, q) → ⊥) (sym e)
        (λ g. absurd (ground arith)) h)
  settled i ran s c q (some tasks) e v h = (
    tasks,
    e,
    settled_at i ran s c q tasks (l.get i tasks) e refl (subst (λ o. AllTaken l o) e v.taken i) h,
  )

  run_one-round :
      (r : R) (rs : List R) (s : Shared K R L W) (c : C) (m q : Shared K R L W × C)
      → s.state.incoming ≡ r ∷ rs
      → IsServed l s
      → run_one a l fd callback r (record s { state = record (s.state) { incoming = rs } }, c)
        ≡ (ok tt, m)
      → Rounds a l fd callback m q
      → Rounds a l fd callback (s, c) q
  unfolding run_one run_runnable stored
  run_one-round r rs s c m q e v h rest =
      let s0 : Shared K R L W = record s {
        state = record (s.state) { incoming = rs };
        tasks = (a.run r s.tasks).1;
      } in
      let p = perform a l fd (a.run r s.tasks).0 s0 in
      let v' = perform-IsServed a l w fd (a.run r s.tasks).0 s0 (record { taken = v.taken }) in
      let (tasks, active, at) =
        settled (a.metadata r) p.0 p.1 c m p.1.state.active_tasks refl v' h in
      round r rs p.0 p.1 tasks e refl active (subst (λ m. Rounds a l fd callback m q) at rest)

  try_recv-Rounds :
      (queue : List R) (f : M (Unit {0}) (Shared K R L W × C) Bool) (s : Shared K R L W) (c : C)
      (b : Bool) (q : Shared K R L W × C)
      → s.state.incoming ≡ queue
      → IsServed l s
      → ((s : Shared K R L W) (c : C) (b : Bool) (q : Shared K R L W × C)
          → IsServed l s
          → f (s, c) ≡ (ok b, q)
          → Rounds a l fd callback (s, c) q)
      → try_recv a l fd callback queue f (s, c) ≡ (ok b, q)
      → Rounds a l fd callback (s, c) q
  unfolding try_recv
  try_recv-Rounds [] f s c b q e v g h =
      subst (Rounds a l fd callback (s, c)) (ap (λ p. p.1) h) over
  try_recv-Rounds (r ∷ rs) f s c b q e v g h =
      let s0 : Shared K R L W = record s { state = record (s.state) { incoming = rs } } in
      let ran = run_one a l fd callback r (s0, c) in
      let (x, m, here, rest) = bind_result-eq_ok ran (λ _. f) b q h in
      let v' =
        subst (ServedAfter a l w fd) here
          (run_one-ServedAfter a l w fd callback r s0 c (record { taken = v.taken })) in
      run_one-round r rs s c m q e v here (g m.0 m.1 b q v' rest)

  pub drain-Rounds :
      (n : ℕ) (s : Shared K R L W) (c : C) (b : Bool) (q : Shared K R L W × C)
      → IsServed l s
      → drain a l fd callback n (s, c) ≡ (ok b, q)
      → Rounds a l fd callback (s, c) q
  unfolding drain
  drain-Rounds zero s c b q v h = subst (Rounds a l fd callback (s, c)) (ap (λ p. p.1) h) over
  drain-Rounds (suc n) s c b q v h =
      try_recv-Rounds s.state.incoming (drain a l fd callback n) s c b q refl v (drain-Rounds n) h
