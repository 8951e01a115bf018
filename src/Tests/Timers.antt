-- ===== src/Tests/Timers.antt =====
-- Tests of sources/timer.rs.
use calloop.Common.{List, true, ℕ, ◌+◌, ◌≡◌, refl, none, some, [], ◌∷◌, arith}
use calloop.Error.{ok}
use calloop.Token.{token, token_eq}
use calloop.Wheel.{drain_expired, cancel}
use calloop.Wheel.Expiry.{Drained, drain_expired-Drained}
use calloop.Wheel.Cancel.{without, IsValid, cancel-without}
use calloop.PostAction.{PostAction}
use calloop.Sources.{Registering}
use calloop.Sources.Timer.Future.{TimeoutFuture, poll, wake_cell, on_timeout}
use calloop.Sources.Timer.Future.Awaited.{polls, process_events-Wakes}
use calloop.Sources.Timer.{Timer, TimeoutAction, to_instant, Running, process_events, reregister}
use calloop.Sources.Timer.Laws.{others, reregister_replaces}
use calloop.Sources.Timer.Process.{Rescheduled, process_events-Rescheduled, process_events_stale}
use calloop.Tests.Fixtures.{Watch, inner_at, token_at, timeout_at, wheel_two, poll_two}

wheel_two-IsValid : IsValid wheel_two
wheel_two-IsValid = record {
  distinct = ground arith;
  below = ground arith;
  counter_u32 = omega arith;
}

drain_expired-Drained_example : Drained 5 wheel_two (drain_expired 2 5 wheel_two)
drain_expired-Drained_example = drain_expired-Drained 2 5 wheel_two (omega arith)

cancel-without_example : cancel 0 wheel_two ≡ record wheel_two { heap = without 0 wheel_two.heap }
cancel-without_example = cancel-without 0 wheel_two wheel_two-IsValid.distinct

-- A timer that is registered under the counter 1, and is now to fire at 6.
abbrev registering : Registering Watch Timer
registering = record {
  source = record {
    registration = some (record { token = token_at 1; counter = 1 });
    deadline = some 6;
  };
  poll = poll_two;
  factory = record { next_token = inner_at 1 0 0 };
}

reregister_replaces_example :
    let w = registering.poll.timers in
    let c' = (reregister registering).1 in
    ((reregister registering).0 ≡ ok tt)
    × ((d : ℕ)
        → registering.source.deadline ≡ some d
        → (c'.source.registration ≡ some (record { token = token_at 1; counter = w.counter }))
          × (c'.poll.timers.heap
              ≡ record { deadline = d; token = token_at 1; counter = w.counter }
                ∷ others registering.source.registration w.heap))
    × (registering.source.deadline ≡ none
        → (c'.source.registration ≡ none)
          × (c'.poll.timers.heap ≡ others registering.source.registration w.heap))
reregister_replaces_example =
    reregister_replaces registering (token_at 1) (record { next_token = inner_at 1 0 1 })
      wheel_two-IsValid (unfold token in refl)

-- A callback that asks for the next tick but three.
abbrev three_later : ℕ → Unit {0} → TimeoutAction × Unit {0}
three_later deadline c = (to_instant (deadline + 3), c)

abbrev fired : Running (Unit {0})
fired = record {
  timer = record {
    registration = some (record { token = token_at 0; counter = 0 });
    deadline = some 4;
  };
  wheel = record wheel_two { heap = timeout_at 9 1 ∷ [] };
  captured = tt;
}

fired-IsValid : IsValid fired.wheel
fired-IsValid = record { distinct = ground arith; below = ground arith; counter_u32 = omega arith }

process_events-Rescheduled_example :
    Rescheduled
      (record { token = token_at 0; counter = 0 })
      fired
      (process_events 100 5 (token_at 0) three_later fired).1
      (process_events 100 5 (token_at 0) three_later fired).0
      (some 7)
process_events-Rescheduled_example =
    process_events-Rescheduled 100 5 (token_at 0) three_later fired
      (record { token = token_at 0; counter = 0 }) 4 refl refl (unfold token_eq in refl)
      fired-IsValid (omega arith) (ground arith)

process_events_stale_example :
    process_events 100 5 (token_at 7) three_later fired ≡ (PostAction.continue, fired)
process_events_stale_example =
    process_events_stale 100 5 (token_at 7) three_later fired
      (λ r h. unfold token_eq in ground arith)

abbrev late : Running (Unit {0})
late = record fired { wheel = wheel_two }

-- A future for the time 4; its wakers are numbers, which are noted down.
abbrev awaited : TimeoutFuture
awaited = record { deadline = some 4 }

abbrev note_waker : ℕ → List ℕ → List ℕ
note_waker n ns = n ∷ ns

process_events-Wakes_example :
    (process_events 100 5 (token_at 0) (on_timeout note_waker) (record {
      timer = fired.timer;
      wheel = fired.wheel;
      captured = (polls awaited ((1, 7) ∷ (3, 8) ∷ (4, 9) ∷ []) none, []);
    })
      ≡ (
        PostAction.remove,
        record { timer = fired.timer; wheel = fired.wheel; captured = (some 8, 8 ∷ []) },
      ))
    × ((poll {W = ℕ} awaited 5 7 none).0 ≡ true)
unfolding wake_cell
process_events-Wakes_example =
    process_events-Wakes note_waker 100 5 5 (token_at 0) awaited fired.timer fired.wheel
      (record { token = token_at 0; counter = 0 }) 4 ((1, 7) ∷ (3, 8) ∷ (4, 9) ∷ []) [] 7 none refl
      refl refl (unfold token_eq in refl)
