-- ===== src/Tests/Descriptors.antt =====
-- Tests of sources/generic.rs, sources/ping/eventfd.rs and sources/channel.rs.
use calloop.Common.{
  ℕ, suc, ◌+◌, ◌-◌, ◌^◌, ◌<◌, ◌≤◌, ◌≡◌, ◌≢◌, ◌==◌, refl, ◌⊎◌, some, none, true, false, ltb, List,
  [], ◌∷◌, ◌++◌, arith, if◌then◌else◌,
}
use calloop.Error.{IoError, would_block, ok, err, M}
use calloop.Sys.{Readiness, readiness_empty, interest_read, Mode, Poll, Poller}
use calloop.Sys
use calloop.PostAction.{PostAction}
use calloop.Sources.{Registering}
use calloop.Sources.Generic.{Generic, register, unregister, drop_generic, process_events}
use calloop.Sources.Generic.Laws.{drop_after_register, unregistered_is_inert}
use calloop.Sources.Ping.{Eventfd, arc_as_fd}
use calloop.Sources.Ping.Delivery.{Counts}
use calloop.Sources.Channel.{Event, msg, closed, Receiver, Channel}
use calloop.Sources.Channel
use calloop.Sources.Channel.Delivery.{Served, process_events-Served}
use calloop.Tests.Fixtures.{
  Watch, watch_poller, watch_two, poll_two, inner_at, token_at, delete_watch,
}

abbrev generic_at : ℕ → Generic ℕ
generic_at fd = record {
  file = some fd;
  interest = interest_read;
  mode = Mode.level;
  poller = false;
  token = none;
}

abbrev unregistered_at : ℕ → Registering Watch (Generic ℕ)
unregistered_at fd = record {
  source = generic_at fd;
  poll = poll_two;
  factory = record { next_token = inner_at 2 0 0 };
}

-- The descriptor 3 is known to the poller already.
drop_after_register_example :
    ((register (unregistered_at 3)).0 ≡ ok tt
      × (drop_generic (register (unregistered_at 3)).1.source watch_two
          ≡ (delete_watch 3 watch_two).1))
    ⊎ ((register (unregistered_at 3)).0 ≢ ok tt
        × (drop_generic (register (unregistered_at 3)).1.source watch_two ≡ watch_two))
drop_after_register_example = drop_after_register (unregistered_at 3) 3 watch_two refl refl

abbrev no_call : Readiness → M IoError (ℕ × ℕ) PostAction
no_call readiness (f, n) = (ok PostAction.continue, (f, suc n))

abbrev registered_three : Registering Watch (Generic ℕ)
registered_three = record (unregistered_at 3) {
  source = record (generic_at 3) { poller = true; token = some (token_at 2) };
}

unregistered_is_inert_example :
    let g = (unregister registered_three).1.source in
    (drop_generic g watch_two ≡ watch_two)
    × (process_events readiness_empty (token_at 2) no_call (g, 0)
        ≡ (ok PostAction.continue, (g, 0)))
unregistered_is_inert_example =
    unregistered_is_inert registered_three 3 watch_two readiness_empty (token_at 2) no_call 0 refl
      (unfold unregister in unfold Sys.unregister in refl)

-- A kernel with one eventfd.
instance abbrev pub one_eventfd : Eventfd ℕ
one_eventfd = record {
  read = λ fd n. if n == 0 then (err would_block, n) else (ok n, 0);
  write = λ fd v n. if ltb (n + v) (2 ^ 64 - 1) then (ok tt, n + v) else (err would_block, n);
}

pub write_adds :
    (v n : ℕ)
    → n + v < 2 ^ 64 - 1
    → ((one_eventfd.write 4 v n).0 ≡ ok tt) × ((one_eventfd.write 4 v n).1 ≡ n + v)
write_adds v n h = ground arith

pub write_full :
    (v n : ℕ)
    → 2 ^ 64 - 1 ≤ n + v
    → ((one_eventfd.write 4 v n).0 ≡ err would_block) × ((one_eventfd.write 4 v n).1 ≡ n)
write_full v n h = ground arith

pub read_takes :
    (n : ℕ) → 0 < n → ((one_eventfd.read 4 n).0 ≡ ok n) × ((one_eventfd.read 4 n).1 ≡ 0)
read_takes n h = ground arith

abbrev pub one_counts : Counts ℕ one_eventfd
one_counts = record {
  counter = λ fd n. n;
  write_adds = λ fd v n h. write_adds v n h;
  write_full = λ fd v n h. write_full v n h;
  read_takes = λ fd n h. read_takes n h;
}

abbrev pub ping_source : Generic ℕ
ping_source = record (generic_at 4) { token = some (token_at 2) }

abbrev count_up : ℕ × ℕ → ℕ × ℕ
count_up (k, n) = (k, suc n)

abbrev listen : Event ℕ → List ℕ → List ℕ
listen (msg n) ns = ns ++ n ∷ []
listen closed ns = ns ++ 0 ∷ []

abbrev channel_two : Channel ℕ
channel_two = record {
  receiver = record { queue = 5 ∷ 6 ∷ []; connected = false };
  source = ping_source;
  fd = 4;
  capacity = 8;
}

process_events-Served_example :
    Served one_counts listen channel_two []
      (Channel.process_events readiness_empty (token_at 2) listen (channel_two, (6, [])))
process_events-Served_example =
    process_events-Served one_counts 3 listen channel_two 6 [] readiness_empty (token_at 2)
      (omega arith) (omega arith) refl refl
