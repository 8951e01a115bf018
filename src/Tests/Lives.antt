-- ===== src/Tests/Lives.antt =====
-- Tests of the life of a loop of loop_logic.rs.
use calloop.Common.{
  ℕ, suc, ◌==◌, if◌then◌else◌, Bool, Option, none, some, List, [], ◌∷◌, refl, true, false,
}
use calloop.Error.{ok}
use calloop.Sys.{Poll, new_inner}
use calloop.Wheel.{wheel_new}
use calloop.Loop.{EventLoop}
use calloop.Loop.Program.{Program, inserts_source, inserts_idle, done, run}
use calloop.Loop.Cycle.{Attempt, Turn, dispatch}
use calloop.Loop.Invariant.Life.{new_loop, try_new, created, uses, dispatches, IsFree, Lives-IsFree}
use calloop.Tests.Fixtures.{Watch, Probe, watch_two, watch_poller, probe_source, probe_code}

abbrev new_poll_two : Poll Watch
new_poll_two = record {
  poller = watch_two;
  level_triggered = some [];
  timers = record { heap = []; counter = 0 };
}

abbrev fresh : EventLoop Watch Probe (Unit {0}) ℕ
fresh = new_loop 0 new_poll_two

-- A source and an idle callback are inserted.
abbrev setup : Program Probe (Unit {0}) (Unit {0})
setup =
    inserts_source
      (record {
        source = record { registered = false; calls = 0 };
        needs_additional_lifecycle_events = true;
      })
      (λ r. inserts_idle tt (λ id. done tt))

abbrev one_attempt : List Attempt
one_attempt = record { before = 1; after = 5; elapsed = 0 } ∷ []

abbrev used : EventLoop Watch Probe (Unit {0}) ℕ
used = record fresh { inner = (run setup fresh.inner).1; user = 3 }

Lives-IsFree_example : IsFree (dispatch one_attempt (some 2) used).1
unfolding try_new new_inner wheel_new
Lives-IsFree_example =
    Lives-IsFree (dispatch one_attempt (some 2) used).1
      (dispatches one_attempt (some 2) (uses setup 3 (created {l = fresh} 0 (ok watch_two) refl)))

-- A future that inserts an idle callback at its first poll, and has its result at the second.
abbrev second_poll : ℕ → Program Probe (Unit {0}) (Option ℕ × ℕ)
second_poll polls =
    if polls == 0 then inserts_idle tt (λ id. done (none, 1)) else done (some 9, polls)

abbrev turn_that : Bool → Turn
turn_that stop = record { stop = stop; future_ready = false; attempts = one_attempt }

abbrev add_one : ℕ → ℕ
add_one n = suc n
