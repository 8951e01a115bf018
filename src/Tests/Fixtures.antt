-- ===== src/Tests/Fixtures.antt =====
-- What the tests run on: a poller that keeps its descriptors in a list, sources that register with
-- it, and user code.
use calloop.Common.{
  ℕ, zero, suc, none, some, List, [], ◌∷◌, Bool, true, false, not, ◌==◌, retain, if◌then◌else◌,
}
use calloop.Error.{
  Boxed, opaque, IoError, interrupted, not_found, already_exists, Error, io_error, Result, ok, err,
  M,
}
use calloop.Token.{Token, TokenInner, RegistrationToken}
use calloop.Wheel.{TimerWheel, TimeoutData}
use calloop.Sys.{Poller, Poll, Event, PollEvent, Readiness}
use calloop.PostAction.{PostAction}
use calloop.SourceList.{SourceEntry, SourceList}
use calloop.Sources.{EventSource, Registering}
use calloop.Sources.Generic.{Generic}
use calloop.Dispatcher.{DispatcherCell}
use calloop.Loop.{LoopInner, EventLoop}
use calloop.Loop.Program.{Program, UserCode, done, updates}

-- `interrupts` waits are interrupted by a signal; the others report `ready`.
pub record Watch : Type 0 where
  pub descriptors : List ℕ
  pub ready : List Event
  pub interrupts : ℕ

abbrev pub contains : ℕ → List ℕ → Bool
contains n [] = false
contains n (m ∷ ms) = if m == n then true else contains n ms

abbrev pub wait_for : ℕ → Watch → Result IoError (List Event) × Watch
wait_for zero w = (ok w.ready, w)
wait_for (suc n) w = (err interrupted, record w { interrupts = n })

abbrev pub modify_watch : ℕ → Watch → Result IoError (Unit {0}) × Watch
modify_watch fd w = if contains fd w.descriptors then (ok tt, w) else (err not_found, w)

abbrev pub add_watch : ℕ → Watch → Result IoError (Unit {0}) × Watch
add_watch fd w =
    if contains fd w.descriptors
    then (err already_exists, w)
    else (ok tt, record w { descriptors = fd ∷ w.descriptors })

abbrev pub delete_watch : ℕ → Watch → Result IoError (Unit {0}) × Watch
delete_watch fd w =
    if contains fd w.descriptors
    then (ok tt, record w { descriptors = retain (λ n. not (n == fd)) w.descriptors })
    else (err not_found, w)

instance abbrev pub watch_poller : Poller Watch
watch_poller = record {
  supports_level = false;
  add_with_mode = λ fd ev mode. add_watch fd;
  modify_with_mode = λ fd ev mode. modify_watch fd;
  modify = λ fd ev. modify_watch fd;
  delete = delete_watch;
  wait = λ timeout w. wait_for w.interrupts w;
  notify = λ w. (ok tt, w);
}

-- A source that knows whether it is registered, and is strict about it.
pub record Probe : Type 0 where
  pub registered : Bool
  pub calls : ℕ

abbrev pub register_probe : M Error (Registering Watch Probe) (Unit {0})
register_probe c = (ok tt, record c { source = record (c.source) { registered = true } })

abbrev pub unregister_probe : M Error (Registering Watch Probe) (Unit {0})
unregister_probe c =
    if c.source.registered
    then (ok tt, record c { source = record (c.source) { registered = false } })
    else (err (io_error not_found), c)

instance abbrev pub probe_source : EventSource Watch Probe
probe_source = record {
  register = register_probe;
  reregister = register_probe;
  unregister = unregister_probe;
}

abbrev pub inner_at : ℕ → ℕ → ℕ → TokenInner
inner_at id version sub_id = record { id = id; version = version; sub_id = sub_id }

abbrev pub token_at : ℕ → Token
token_at id = record { inner = inner_at id 0 0 }

abbrev pub registration_at : ℕ → RegistrationToken
registration_at id = record { inner = inner_at id 0 0 }

-- Source 0 asks to be reregistered and fails at its first event; the others do nothing.
abbrev pub respond :
    Readiness → Token → Probe → ℕ → Program Probe (Unit {0}) (Result Boxed PostAction × Probe × ℕ)
respond readiness token probe user =
    if token.inner.id == 0
    then updates (registration_at 0) (λ _. done (err (opaque 0), probe, suc user))
    else done (ok PostAction.continue, record probe { calls = suc probe.calls }, suc user)

instance abbrev pub probe_code : UserCode Watch Probe (Unit {0}) ℕ
probe_code = record {
  process_events = respond;
  before_sleep = λ s. (ok none, s);
  before_handle_events = λ events s. s;
  idle = λ callback user. done (suc user);
}

abbrev pub timeout_at : ℕ → ℕ → TimeoutData
timeout_at deadline counter = record {
  deadline = deadline;
  token = token_at counter;
  counter = counter;
}

abbrev pub wheel_two : TimerWheel
wheel_two = record { heap = timeout_at 9 1 ∷ timeout_at 4 0 ∷ []; counter = 2 }

abbrev pub watch_two : Watch
watch_two = record { descriptors = 3 ∷ 5 ∷ []; ready = []; interrupts = 0 }

abbrev pub poll_two : Poll Watch
poll_two = record { poller = watch_two; level_triggered = some []; timers = wheel_two }

abbrev pub event_at : ℕ → PollEvent
event_at id = record {
  readiness = record { readable = true; writable = false; error = false };
  token = record { inner = inner_at id 0 2 };
}

abbrev pub entry_at : ℕ → SourceEntry ℕ
entry_at id = record { token = inner_at id 0 0; source = some id }

abbrev pub sources_two : SourceList ℕ
sources_two = record { sources = entry_at 0 ∷ entry_at 1 ∷ [] }

abbrev pub probe_cell : Bool → DispatcherCell Probe
probe_cell borrowed = record {
  inner = record {
    source = record { registered = true; calls = 0 };
    needs_additional_lifecycle_events = true;
  };
  borrowed = borrowed;
}

-- Two sources, the second of which is in its callback or not, and an idle callback.
abbrev pub inner_two : Bool → LoopInner Watch Probe (Unit {0})
inner_two borrowed = record {
  poll = poll_two;
  sources = sources_two;
  lifecycle = registration_at 0 ∷ [];
  idles = 0 ∷ [];
  pending_action = PostAction.continue;
  dispatchers = probe_cell false ∷ probe_cell borrowed ∷ [];
  idle_cells = record { callback = some (some tt); borrowed = false } ∷ [];
}

abbrev pub loop_two : EventLoop Watch Probe (Unit {0}) ℕ
loop_two = record { inner = inner_two false; synthetic_events = []; user = 0 }

abbrev pub inner_none : LoopInner Watch (Generic ℕ) (Unit {0})
inner_none = record {
  poll = poll_two;
  sources = record { sources = [] };
  lifecycle = [];
  idles = [];
  pending_action = PostAction.continue;
  dispatchers = [];
  idle_cells = [];
}
