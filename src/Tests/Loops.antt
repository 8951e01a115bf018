-- ===== src/Tests/Loops.antt =====
-- Tests of loop_logic.rs.
use calloop.Common.{
  get_elem?, Bool, ℕ, suc, ◌++◌, ◌-◌, ◌≡◌, ◌≢◌, refl, inl, inr, none, some, [], ◌∷◌, ◌++◌, true,
  false, All, arith,
}
use calloop.Error.{
  Boxed, Error, Result, opaque, already_exists, io_error, other_error, ok, err, panicked,
}
use calloop.Token
use calloop.Token.{
  RegistrationToken, registration_token, factory_new, forget_sub_id, same_source_as,
}
use calloop.Sys.{Poll, Mode, poll}
use calloop.Sys
use calloop.Sources.Generic.{Generic, register, generic_source}
use calloop.Sources.Ping.{arc_as_fd}
use calloop.PostAction.{PostAction}
use calloop.SourceList.{get, vacant_entry, position_vacant}
use calloop.SourceList.Slots.{IsValid}
use calloop.Dispatcher.{DispatcherInner, reregister, register_free, is_borrowed, needs, enrol}
use calloop.Dispatcher
use calloop.Loop.{IdleCell, EventLoop, on_dispatcher}
use calloop.Loop.Program.{Program, done, updates, disables, enables, run}
use calloop.Loop.Handle.{
  update, remove, insert_source, new_dispatcher, register_dispatcher, on_sources, read_slot,
  write_slot, slot_token, fill, settle_slot, find_entry, entry_dispatcher, set_pending,
}
use calloop.Loop.Event.{
  on_inner, find_dispatcher, found, call_source, dispatch_event, dispatch_to, call_cell, finish,
  take_pending, apply_action, sweep, set_cell,
}
use calloop.Loop.Dispatch.{
  before_sleep, dispatch_idles, run_idles, dispatch_idle, call_idle, called, set_idle,
}
use calloop.Loop.Idles.{IsSpent}
use calloop.Loop.Idles.Once.{Walk, idles_run_once}
use calloop.Loop.Answers.{obey, returned, cleared, dispatch_event-obey, action_outlives_error}
use calloop.Loop.Cycle.{Turn, Attempt, starved, retry, dispatch_events}
use calloop.Loop.Invariant.{IsSound}
use calloop.Loop.Tokens.{within_callback, remove_silences}
use calloop.Loop.Pending.{no_action_left}
use calloop.Loop.Retry.{retry_ends, retry_twice}
use calloop.Loop.Lifecycle.{failed_insert_strands}
use calloop.Loop.Lifecycle.Stranded.{NotPolled, stranded_token_panics}
use calloop.Tests.Fixtures.{
  Watch, watch_poller, watch_two, poll_two, Probe, probe_source, probe_code, inner_at,
  registration_at, entry_at, sources_two, probe_cell, inner_two, loop_two, inner_none, event_at,
}

abbrev called_once : Probe
called_once = record { registered = true; calls = 1 }

sources_two-IsValid : IsValid sources_two
sources_two-IsValid = record {
  slots = (
    record { id_index = refl; version_u16 = omega arith; no_sub_id = refl },
    (record { id_index = refl; version_u16 = omega arith; no_sub_id = refl }, tt),
  );
  ids_u32 = omega arith;
}

inner_two-IsSound : IsSound 0 (inner_two false)
inner_two-IsSound = record {
  slots = sources_two-IsValid;
  backed = (omega arith, (omega arith, tt));
  enough = omega arith;
}

abbrev attempt_at : ℕ → Attempt
attempt_at elapsed = record { before = 1; after = 5; elapsed = elapsed }

remove_silences_example :
    dispatch_event (event_at 1) (on_inner (remove (registration_at 1)) loop_two).1
    ≡ (ok tt, (on_inner (remove (registration_at 1)) loop_two).1)
remove_silences_example =
    remove_silences loop_two (registration_at 1) (entry_at 1) (event_at 1) sources_two-IsValid
      (unfold get in unfold same_source_as in refl) (unfold forget_sub_id in refl)

abbrev then_continue :
    Result Error (Unit {0}) → Program Probe (Unit {0}) (Result Boxed PostAction × Probe × ℕ)
then_continue r = done (ok PostAction.continue, called_once, 1)

within_callback_example :
    (call_source (event_at 1) 1 loop_two
      ≡ finish 1 (probe_cell false) loop_two (
          run
            (probe_code.process_events
              (event_at 1).readiness
              (event_at 1).token
              (probe_cell false).inner.source
              0)
            (inner_two true)))
    × (run (updates (registration_at 1) then_continue) (inner_two true)
        ≡ run
            (then_continue (ok tt))
            (record (inner_two true) { pending_action = PostAction.reregister }))
    × (run (disables (registration_at 1) then_continue) (inner_two true)
        ≡ run
            (then_continue (ok tt))
            (record (inner_two true) { pending_action = PostAction.disable }))
    × (run (enables (registration_at 1) then_continue) (inner_two true)
        ≡ (panicked, inner_two true))
unfolding set_cell
within_callback_example =
    within_callback (event_at 1) loop_two (registration_at 1) (entry_at 1) 1 (probe_cell false)
      then_continue (unfold get in unfold same_source_as in refl) refl refl refl

-- The second source's callback was run once, and returned `Continue`.
abbrev second_called : PostAction → ℕ → EventLoop Watch Probe (Unit {0}) ℕ
second_called pending user = record loop_two {
  inner = record (inner_two false) {
    pending_action = pending;
    dispatchers =
        probe_cell false
        ∷ record (probe_cell false) {
          inner = record ((probe_cell false).inner) {
            source = record { registered = true; calls = 1 };
          };
        }
        ∷ [];
  };
  user = user;
}

no_action_left_example :
    (second_called PostAction.continue 1).inner.pending_action ≡ PostAction.continue
unfolding dispatch_event dispatch_to find_dispatcher call_source call_cell finish run get
    same_source_as forget_sub_id take_pending apply_action sweep set_cell
no_action_left_example =
    no_action_left (event_at 1) loop_two (second_called PostAction.continue 1) refl refl

-- The first source asked to be registered again, and failed.
abbrev failed : EventLoop Watch Probe (Unit {0}) ℕ
failed = record loop_two {
  inner = record (inner_two false) { pending_action = PostAction.reregister };
  user = 1;
}

action_outlives_error_example :
    (dispatch_event (event_at 0) loop_two ≡ (err (other_error (opaque 0)), failed))
    × (dispatch_event (event_at 1) failed
        ≡ on_inner
            (obey (inner_at 1 0 0) (entry_at 1) 1 PostAction.reregister)
            (cleared (returned 1 (probe_cell false) called_once 2 failed)))
unfolding find_dispatcher call_source call_cell finish run update find_entry entry_dispatcher
    set_pending get same_source_as forget_sub_id on_dispatcher reregister set_cell
action_outlives_error_example =
    action_outlives_error (event_at 0) (event_at 1) loop_two failed 0 1 (other_error (opaque 0))
      (entry_at 1) (probe_cell false) called_once 2 refl refl sources_two-IsValid refl refl refl
      refl refl

abbrev interrupted_twice : Poll Watch
interrupted_twice = record poll_two { poller = record watch_two { interrupts = 2 } }

retry_ends_example :
    (retry (attempt_at 3 ∷ attempt_at 4 ∷ attempt_at 11 ∷ []) (some 10) interrupted_twice).0
    ≢ ok starved
retry_ends_example =
    retry_ends (attempt_at 3 ∷ attempt_at 4 ∷ attempt_at 11 ∷ []) 10 interrupted_twice
      (inr (inr (inl (omega arith))))

retry_twice_example :
    retry (attempt_at 3 ∷ attempt_at 4 ∷ []) (some 10) interrupted_twice
    ≡ retry [] (some (10 - 3 - 4)) poll_two
retry_twice_example =
    retry_twice (attempt_at 3) (attempt_at 4) [] 10 interrupted_twice
      (record poll_two { poller = record watch_two { interrupts = 1 } }) poll_two
      (unfold poll in refl) (unfold poll in refl) (omega arith)

-- A source of descriptor 3, which the poller already has; descriptor 4 could be registered.
abbrev taken_inner : ℕ → DispatcherInner (Generic ℕ)
taken_inner fd = record {
  source = record {
    file = some fd;
    interest = record { readable = true; writable = false };
    mode = Mode.level;
    poller = false;
    token = none;
  };
  needs_additional_lifecycle_events = true;
}

failed_insert_strands_example :
    ((insert_source (taken_inner 3) inner_none).0 ≡ err (io_error already_exists))
    × ((t : RegistrationToken) × (t ≡ registration_token (factory_new (inner_at 0 0 0)))
        × ((insert_source (taken_inner 3) inner_none).1.lifecycle ≡ [] ++ t ∷ [])
        × (found (get (insert_source (taken_inner 3) inner_none).1.sources t.inner) ≡ none))
unfolding Token.token factory_new
failed_insert_strands_example =
    failed_insert_strands inner_none (taken_inner 3) (io_error already_exists) 0
      (record { sources = record { token = inner_at 0 0 0; source = none } ∷ [] })
      (record { token = inner_at 0 0 0; source = none })
      (record { slots = tt; ids_u32 = omega arith })
      (unfold vacant_entry in unfold position_vacant in refl) refl refl
      (unfold register in unfold Sys.register in refl)

-- Another source of the same type is inserted.
inserts_free_descriptor :
    (insert_source (taken_inner 4) inner_none).0
    ≡ ok (registration_token (factory_new (inner_at 0 0 0)))
unfolding insert_source new_dispatcher register_dispatcher on_sources read_slot write_slot
    slot_token fill settle_slot vacant_entry position_vacant on_dispatcher Dispatcher.register
    register_free is_borrowed needs enrol register Sys.register Token.token factory_new
    registration_token
inserts_free_descriptor = refl

abbrev loop_stranded : EventLoop Watch Probe (Unit {0}) ℕ
loop_stranded = record loop_two {
  inner = record (inner_two false) { lifecycle = registration_at 0 ∷ registration_at 5 ∷ [] };
}

stranded_token_panics_example :
    NotPolled loop_stranded
      (dispatch_events (attempt_at 0 ∷ []) (some 2) loop_stranded).1
      (dispatch_events (attempt_at 0 ∷ []) (some 2) loop_stranded).0
      (before_sleep (registration_at 0 ∷ []) (some 2) loop_stranded).0
stranded_token_panics_example =
    stranded_token_panics loop_stranded (registration_at 0 ∷ []) (registration_at 5) []
      (attempt_at 0 ∷ []) (some 2) refl (unfold get in refl)

abbrev turn_at : Bool → Turn
turn_at stop = record { stop = stop; future_ready = false; attempts = attempt_at 0 ∷ [] }

abbrev count_up : ℕ → ℕ
count_up n = suc n

abbrev idled : EventLoop Watch Probe (Unit {0}) ℕ
idled = record loop_two {
  inner = record (inner_two false) {
    idles = [];
    idle_cells = record { callback = some none; borrowed = false } ∷ [];
  };
  user = 1;
}

idles_run_once_example :
    Walk (0 ∷ []) (record loop_two { inner = record (inner_two false) { idles = [] } }) idled
    × All (λ i. IsSpent (get_elem? idled.inner.idle_cells i)) (0 ∷ [])
    × ((id : ℕ) (c : IdleCell (Unit {0}))
        → c.borrowed ≡ false
        → IsSpent (some c)
        → dispatch_idle id (some c) idled ≡ (ok tt, idled))
unfolding dispatch_idles run_idles dispatch_idle call_idle called set_idle run
idles_run_once_example = idles_run_once loop_two idled refl

-- The first source's action is still pending.
dispatch_event-obey_example :
    dispatch_event (event_at 1) failed
    ≡ on_inner
        (obey (inner_at 1 0 0) (entry_at 1) 1 PostAction.reregister)
        (cleared (returned 1 (probe_cell false) called_once 2 failed))
unfolding forget_sub_id
dispatch_event-obey_example =
    dispatch_event-obey (event_at 1) failed (entry_at 1) 1 (probe_cell false) PostAction.continue
      called_once 2 sources_two-IsValid (unfold get in unfold same_source_as in refl) refl refl refl
      refl
