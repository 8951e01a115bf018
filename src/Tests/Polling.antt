-- ===== src/Tests/Polling.antt =====
-- Tests of sys.rs.
use calloop.Common.{ℕ, ◌≤◌, ◌≡◌, ◌⊎◌, Option, none, some, List, [], ◌∷◌, true, false}
use calloop.Error.{ok}
use calloop.Token.{to_usize}
use calloop.Wheel.{next_deadline}
use calloop.Sys.{Event, Poll, Poller, LevelTriggered, poll, adjust_timeout, time_left}
use calloop.Sys.Timeouts.{LeavesAtLeast, adjust_timeout_bounds}
use calloop.Sys.Events.{TimersAfter, poll-TimersAfter}
use calloop.Tests.Fixtures.{Watch, watch_poller, poll_two, wheel_two, inner_at}

abbrev given : Option ℕ
given = some 10

adjust_timeout_bounds_example :
    ((t : ℕ) × (adjust_timeout given (time_left 1 (next_deadline wheel_two)) ≡ some t)
      × ((u : ℕ) → given ≡ some u → t ≤ u)
      × LeavesAtLeast t 1 wheel_two.heap)
    ⊎ ((adjust_timeout given (time_left 1 (next_deadline wheel_two)) ≡ none)
        × (given ≡ none)
        × (wheel_two.heap ≡ []))
adjust_timeout_bounds_example = adjust_timeout_bounds given 1 wheel_two

abbrev event_two : Event
event_two = record { key = to_usize (inner_at 2 1 0); readable = true; writable = false }

poll-TimersAfter_example :
    TimersAfter 5 poll_two
      (watch_poller.wait
        (adjust_timeout (some 10) (time_left 1 (next_deadline wheel_two)))
        poll_two.poller).0
      (poll (some 10) 1 5 poll_two)
poll-TimersAfter_example = poll-TimersAfter (some 10) 1 5 poll_two

-- A poller on which arming cannot fail, and that lists what was armed.
instance abbrev armed_poller : Poller (List (ℕ × Event))
armed_poller = record {
  supports_level = false;
  add_with_mode = λ raw ev mode q. (ok tt, (raw, ev) ∷ q);
  modify_with_mode = λ raw ev mode q. (ok tt, (raw, ev) ∷ q);
  modify = λ raw ev q. (ok tt, (raw, ev) ∷ q);
  delete = λ raw q. (ok tt, q);
  wait = λ timeout q. (ok [], q);
  notify = λ q. (ok tt, q);
}

abbrev remembered : LevelTriggered
remembered = (7, (3, record { key = 7; readable = true; writable = false })) ∷ []

abbrev reported : List Event
reported =
    record { key = 7; readable = true; writable = false }
    ∷ record { key = 8; readable = true; writable = false }
    ∷ []

abbrev poll_remembered : Poll Watch
poll_remembered = record poll_two { level_triggered = some remembered }
