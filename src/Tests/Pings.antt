-- ===== src/Tests/Pings.antt =====
-- Tests of sources/ping.rs with both of its implementations, and of sources/stream.rs.
use calloop.Common.{
  ℕ, suc, ◌-◌, ◌^◌, ◌≡◌, ◌<◌, ◌≤◌, ◌==◌, refl, ◌⊎◌, Option, none, some, List, [], ◌∷◌, ◌++◌, Bool,
  true, false, min, ltb, arith, if◌then◌else◌,
}
use calloop.Error.{ok, err, would_block}
use calloop.Sys.{readiness_empty}
use calloop.PostAction.{PostAction}
use calloop.Sources.Ping.{ping, drop_flag}
use calloop.Sources.Ping.Pipe.{Pipe, buf_len}
use calloop.Sources.Ping.Pipe
use calloop.Sources.Ping.Pipe.Drained.{Buffers}
use calloop.Sources.Ping.Contract.{
  of_counter, of_pipe, Contract, eventfd_handle, eventfd-Contract, pipe_handle, pipe-Contract,
}
use calloop.Sources.Stream.{Polled, item, ended, pending, Stream}
use calloop.Sources.Stream
use calloop.Sources.Stream.Delivery.{finishes, gives, delivered, process_events-Delivered}
use calloop.Tests.Fixtures.{token_at}
use calloop.Tests.Descriptors.{one_eventfd, one_counts, ping_source}

abbrev note : ℕ × List ℕ → ℕ × List ℕ
note (k, ns) = (k, ns ++ k ∷ [])

eventfd-Contract_example :
    Contract ℕ
      (List ℕ)
      (λ s. of_counter (one_counts.counter 4 s))
      (λ s. one_counts.counter 4 s < 2 ^ 64 - 2)
      false
      (ping 4)
      (drop_flag 4)
      (eventfd_handle ping_source (token_at 2) readiness_empty)
eventfd-Contract_example =
    eventfd-Contract one_counts 4 ping_source (token_at 2) readiness_empty refl refl

-- A pipe with room for eight bytes: how many it holds, at most eight, and whether it is closed.
abbrev Bytes : Type 0
Bytes = ℕ × Bool

instance abbrev small_pipe : Pipe Bytes
small_pipe = record {
  read = λ fd n s.
      if min s.0 8 == 0
      then ((if s.1 then ok 0 else err would_block), (0, s.1))
      else (ok (min n (min s.0 8)), (min s.0 8 - n, s.1));
  write =
      λ fd s. if ltb (min s.0 8) 8 then (ok tt, (suc (min s.0 8), s.1)) else (err would_block, s);
  close = λ fd s. (s.0, true);
}

small_write_adds :
    (n : ℕ) (b : Bool)
    → min n 8 < 8
    → (min (small_pipe.write 6 (n, b)).1.0 8 ≡ suc (min n 8))
      × ((small_pipe.write 6 (n, b)).1.1 ≡ b)
small_write_adds n b h = ground arith

small_write_full :
    (n : ℕ) (b : Bool)
    → 8 ≤ min n 8
    → (min (small_pipe.write 6 (n, b)).1.0 8 ≡ min n 8) × ((small_pipe.write 6 (n, b)).1.1 ≡ b)
small_write_full n b h = ground arith

small_read_takes :
    (n : ℕ) (b : Bool)
    → 0 < min n 8
    → ((small_pipe.read 4 buf_len (n, b)).0 ≡ ok (min buf_len (min n 8)))
      × (min (small_pipe.read 4 buf_len (n, b)).1.0 8 ≡ min n 8 - buf_len)
      × ((small_pipe.read 4 buf_len (n, b)).1.1 ≡ b)
small_read_takes n b h = ground arith

small_read_empty :
    (n : ℕ) (b : Bool)
    → min n 8 ≡ 0
    → ((small_pipe.read 4 buf_len (n, b)).0 ≡ (if b then ok 0 else err would_block))
      × (min (small_pipe.read 4 buf_len (n, b)).1.0 8 ≡ 0)
      × ((small_pipe.read 4 buf_len (n, b)).1.1 ≡ b)
small_read_empty n b h = ground arith

abbrev small_buffers : Buffers Bytes small_pipe 4 6
small_buffers = record {
  buffered = λ s. min s.0 8;
  closed = λ s. s.1;
  room = 8;
  some_room = omega arith;
  within = λ s. omega arith;
  write_adds = λ s h. small_write_adds s.0 s.1 h;
  write_full = λ s h. small_write_full s.0 s.1 h;
  close_closes = λ s. (refl, refl);
  read_takes = λ s h. small_read_takes s.0 s.1 h;
  read_empty = λ s h. small_read_empty s.0 s.1 h;
}

pipe-Contract_example :
    Contract Bytes
      (List ℕ)
      (of_pipe 4 6 small_buffers)
      (λ s. Unit)
      true
      (Pipe.ping 6)
      (Pipe.drop_ping 6)
      (pipe_handle 9 ping_source (token_at 2) readiness_empty)
pipe-Contract_example =
    pipe-Contract 4 6 small_buffers 9 ping_source (token_at 2) readiness_empty (omega arith) refl
      refl

-- A stream that counts down to its end, and wakes its waker at 2.
abbrev countdown : Stream ℕ ℕ
countdown = record {
  poll_next = λ s. if s == 0 then (ended, (false, 0)) else (item s, (s == 2, s - 1));
}

abbrev listen : Option ℕ → List ℕ → List ℕ
listen none ns = ns ++ 0 ∷ []
listen (some n) ns = ns ++ n ∷ []

process_events-Delivered_example :
    let r =
      Stream.process_events {K = ℕ} countdown 4 5 readiness_empty
        (token_at 2)
        listen
        (ping_source, (2, (2, []))) in
    (r.0 ≡ ok PostAction.remove)
    × (r.1.1.1 ≡ (0, delivered listen (2 ∷ 1 ∷ []) true []))
    × ((◌≡◌ {A = Bool} true false) ⊎ (1 < r.1.1.0))
process_events-Delivered_example =
    process_events-Delivered one_counts countdown 4 1 5 listen ping_source 2 2 [] readiness_empty
      (token_at 2) (2 ∷ 1 ∷ []) true true 0 (omega arith) (omega arith) refl refl
      (gives 2 true 1 refl (gives 1 false 0 refl (finishes refl))) (omega arith)
