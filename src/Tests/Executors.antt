-- ===== src/Tests/Executors.antt =====
-- Tests of sources/futures.rs, over a slab that never reuses a key and futures that are ready at once.
use calloop.Common.{
  ℕ, zero, suc, ◌≡◌, ◌≢◌, ◌<◌, ◌==◌, refl, sym, Option, none, some, List, [], ◌∷◌, ◌++◌, true,
  arith, if◌then◌else◌,
}
use calloop.Error.{Boxed, Result, ok, err, panicked}
use calloop.Token.{token_eq}
use calloop.Sys.{readiness_empty}
use calloop.PostAction.{PostAction}
use calloop.Sources.Generic.{Generic}
use calloop.Sources.Generic
use calloop.Sources.Ping.{Eventfd, ping}
use calloop.Sources.Ping
use calloop.Sources.Executor.{
  Active, future, Slab, Code, ends, scheduling, ready, AsyncTask, Shared, schedule, send, perform,
  executor_destroyed,
}
use calloop.Sources.Executor.Process.{drain, process_events, run_one, drop_executor}
use calloop.Sources.Executor.Threads.{asleep, Threads, Steps, here, next, pushes, notifies, pings}
use calloop.Sources.Executor.Wakeups.{no_lost_wakeup}
use calloop.Sources.Executor.Sequential.{seen, process_events-Steps}
use calloop.Sources.Executor.Results.{SlabLaws, IsServed}
use calloop.Sources.Executor.Results.Events.{Handing, process_events-Handing}
use calloop.Sources.Executor.Results.Handed.{after_round, run_one-Handed}
use calloop.Sources.Executor.Destroyed.{IsDestroyed, drop_executor-IsDestroyed}
use calloop.Tests.Fixtures.{token_at}
use calloop.Tests.Descriptors.{one_eventfd, one_counts, ping_source}

abbrev Slots : Type 0 → Type 0
Slots A = ℕ × (ℕ → Option A)

abbrev write_slot : {A : Type 0} → (ℕ → Option A) → ℕ → Option A → ℕ → Option A
write_slot f i o j = if j == i then o else f j

abbrev collect : {A : Type 0} → ℕ → (ℕ → Option A) → List A
collect zero f = []
collect (suc n) f = elim (f n) [ none ↦ collect n f | some x ↦ x ∷ collect n f ]

abbrev growing_slab : (A : Type 0) → Slab A (Slots A)
growing_slab A = record {
  new = (0, λ i. none);
  vacant_key = λ s. s.0;
  insert = λ x s. (suc s.0, write_slot s.1 s.0 (some x));
  get = λ i s. s.1 i;
  set = λ i x s. (s.0, write_slot s.1 i (some x));
  remove = λ i s. (s.0, write_slot s.1 i none);
  entries = λ s. collect s.0 s.1;
}

write_slot_self : {A : Type 0} (f : ℕ → Option A) (i : ℕ) (o : Option A) → write_slot f i o i ≡ o
write_slot_self f i o = ground arith

write_slot_ne :
    {A : Type 0} (f : ℕ → Option A) (i j : ℕ) (o : Option A) → i ≢ j → write_slot f i o j ≡ f j
write_slot_ne f i j o ne = ground arith

abbrev growing_laws : (A : Type 0) → SlabLaws A (Slots A) (growing_slab A)
growing_laws A = record {
  get-new = λ i. refl;
  get-insert_self = λ x s. write_slot_self s.1 s.0 (some x);
  get-insert_ne = λ i x s ne. write_slot_ne s.1 s.0 i (some x) (λ e. ne (sym e));
  get-set_self = λ i x s h. write_slot_self s.1 i (some x);
  get-set_ne = λ i j x s ne. write_slot_ne s.1 i j (some x) ne;
  get-remove_self = λ i s. write_slot_self s.1 i none;
  get-remove_ne = λ i j s ne. write_slot_ne s.1 i j none ne;
}

-- A runnable is the index of its slot and the value of its future; the tasks count the drops.
abbrev ready_tasks : AsyncTask ℕ ℕ (ℕ × ℕ) (ℕ × ℕ) ℕ
ready_tasks = record {
  spawn = λ i f w. ((i, f), w);
  metadata = λ r. r.0;
  waker = λ r. r;
  wake = λ v w. (some v, w);
  run = λ r w. (ends (ready r.1), w);
  discard = λ r w. suc w;
}

abbrev World : Type 0
World = Shared ℕ (ℕ × ℕ) (Slots (Active ℕ (ℕ × ℕ))) ℕ

abbrev slab_two : Slab (Active ℕ (ℕ × ℕ)) (Slots (Active ℕ (ℕ × ℕ)))
slab_two = growing_slab (Active ℕ (ℕ × ℕ))

abbrev busy_slots : Slots (Active ℕ (ℕ × ℕ))
busy_slots = (2, λ i. some (future (i, 0)))

abbrev busy : World
busy = record {
  state = record {
    incoming = (0, 5) ∷ (1, 7) ∷ [];
    notified = true;
    active_tasks = some busy_slots;
  };
  kernel = 2;
  tasks = 0;
}

-- The callback schedules a future once more for a 7.
abbrev listen : ℕ → List ℕ → Code ℕ (ℕ × ℕ) (List ℕ)
listen x xs = if x == 7 then scheduling 8 (λ b. ends (xs ++ 7 ∷ [])) else ends (xs ++ x ∷ [])

abbrev handled : Result Boxed PostAction × (Generic ℕ × (World × List ℕ))
handled =
    process_events ready_tasks slab_two 4 readiness_empty (token_at 2) listen
      (ping_source, (busy, []))

-- The future that the callback schedules is run in the same event.
handled_values : handled.1.1.1 ≡ 5 ∷ 7 ∷ 8 ∷ []
unfolding process_events drain run_one perform schedule send ping Ping.process_events
    Generic.process_events token_eq
handled_values = refl

handled_ok : handled.0 ≡ ok PostAction.continue
unfolding process_events drain run_one perform schedule send ping Ping.process_events
    Generic.process_events token_eq
handled_ok = refl

handled_returns : handled.0 ≢ panicked
handled_returns e = absurd (ground (arith, handled_ok))

process_events-Steps_example :
    Steps one_counts 4
      (seen ready_tasks slab_two one_counts 4 busy asleep)
      (seen ready_tasks slab_two one_counts 4 handled.1.1.0 asleep)
process_events-Steps_example =
    process_events-Steps ready_tasks slab_two one_counts 4 ping_source (token_at 2) readiness_empty
      listen busy [] refl refl (omega arith) handled_returns

busy-IsServed : IsServed slab_two busy
busy-IsServed = record { taken = λ i. tt }

process_events-Handing_example :
    Handing ready_tasks slab_two 4 listen busy [] handled.1.1.0 handled.1.1.1
    × IsServed slab_two handled.1.1.0
process_events-Handing_example =
    process_events-Handing ready_tasks slab_two (growing_laws (Active ℕ (ℕ × ℕ))) 4 listen
      ping_source (token_at 2) readiness_empty busy [] busy-IsServed handled_returns

abbrev woken_up : Threads ℕ ℕ
woken_up = record {
  incoming = 9 ∷ [];
  notified = true;
  kernel = ping 4 0;
  pushed = 0;
  pinging = 0;
  executor = asleep;
}

no_lost_wakeup_example : 0 < ping 4 0
no_lost_wakeup_example =
    no_lost_wakeup one_counts 4 0 {s = woken_up}
      (next (next (next here (pushes _ 9)) (notifies _ 0 refl refl)) (pings _ 0 refl)) refl refl
      refl (λ e. absurd (ground arith))

drop_executor-IsDestroyed_example :
    let r = drop_executor ready_tasks slab_two 4 busy in
    (r.0 ≡ ok tt)
    × IsDestroyed ready_tasks slab_two 4 busy r.1 busy_slots
    × (schedule ready_tasks slab_two 4 3 r.1 ≡ (err executor_destroyed, r.1))
drop_executor-IsDestroyed_example =
    drop_executor-IsDestroyed ready_tasks slab_two 4 busy busy_slots 3 refl

run_one-Handed_example :
    run_one ready_tasks slab_two 4 listen (0, 5) (busy, [])
    ≡ (ok tt, after_round ready_tasks slab_two 4 listen 0 busy_slots (ready 5) busy [])
run_one-Handed_example =
    run_one-Handed ready_tasks slab_two (growing_laws (Active ℕ (ℕ × ℕ))) 4 listen (0, 5) busy []
      (ready 5) busy busy_slots (0, 0) (unfold perform in refl) refl refl
