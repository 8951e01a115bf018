-- ===== src/Sources/Stream.antt =====
-- sources/stream.rs: a stream as a source, over a ping that its waker sends. `futures_core::Stream` is
-- the interface `Stream`, `S` stands for the streams and `T` for their items.
pub mod Delivery
use calloop.Common.{ℕ, zero, suc, Option, none, some, Bool, true, false, if◌then◌else◌}
use calloop.Error.{Boxed, Result, ok, err, panicked, M}
use calloop.Token.{Token}
use calloop.Sys.{Poller, Readiness}
use calloop.PostAction.{PostAction}
use calloop.Sources.{EventSource, forward}
use calloop.Sources.Generic.{Generic}
use calloop.Sources.Ping.{ping_source, Eventfd, ping, new_source}
use calloop.Sources.Ping

pub data Polled (T : Type 0) : Type 0 where
  item : T → Polled T
  ended : Polled T
  pending : Polled T

-- The flag tells whether the stream woke its waker before `poll_next` returned.
pub record Stream (T S : Type 0) : Type 0 where
  pub poll_next : S → Polled T × (Bool × S)

pub data StreamError : Type 0 where
  ping_error : Boxed → StreamError
  out_of_rounds : StreamError  -- of the model: the fuel of the loop

module _ {K : Type 0} ⦃k : Eventfd K⦄ (fd : ℕ) where
  -- `PingWaker`.
  unfoldable pub wake : Bool → K → K
  wake woken kernel = if woken then ping fd kernel else kernel

module _ {T S K C : Type 0} ⦃k : Eventfd K⦄ (i : Stream T S) (fd : ℕ) where
  unfoldable pub after_poll :
      (Option T → C → C)
      → (K × (S × C) → K × (Option Bool × (S × C)))
      → Polled T × (Bool × S)
      → K
      → C
      → K × (Option Bool × (S × C))
  unfolding wake
  after_poll callback next (item x, (woken, s)) kernel c =
      next (wake fd woken kernel, (s, callback (some x) c))
  after_poll callback next (ended, (woken, s)) kernel c =
      (wake fd woken kernel, (some true, (s, callback none c)))
  after_poll callback next (pending, (woken, s)) kernel c =
      (wake fd woken kernel, (some false, (s, c)))

  -- The loop over `poll_next`; the answer is `end_of_stream`, or `none` without fuel.
  unfoldable pub poll_all : (Option T → C → C) → ℕ → K × (S × C) → K × (Option Bool × (S × C))
  unfolding after_poll
  poll_all callback zero (kernel, q) = (kernel, (none, q))
  poll_all callback (suc n) (kernel, (s, c)) =
      after_poll callback (poll_all callback n) (i.poll_next s) kernel c

  unfoldable pub decide :
      Result Boxed PostAction × (Generic ℕ × (K × (Option Bool × (S × C))))
      → Result StreamError PostAction × (Generic ℕ × (K × (S × C)))
  decide (ok action, (g, (kernel, (some end_of_stream, q)))) =
      (ok (if end_of_stream then PostAction.remove else action), (g, (kernel, q)))
  decide (ok action, (g, (kernel, (none, q)))) = (err out_of_rounds, (g, (kernel, q)))
  decide (err x, (g, (kernel, (_, q)))) = (err (ping_error x), (g, (kernel, q)))
  decide (panicked, (g, (kernel, (_, q)))) = (panicked, (g, (kernel, q)))

  -- `StreamSource::process_events`.
  unfoldable pub process_events :
      ℕ
      → Readiness
      → Token
      → (Option T → C → C)
      → M StreamError (Generic ℕ × (K × (S × C))) PostAction
  unfolding decide
  process_events fuel readiness t callback (g, (kernel, q)) = decide (
      Ping.process_events readiness t (λ p. poll_all callback fuel (p.0, p.1.1))
        (g, (kernel, (some false, q))))

-- `StreamSource::new` over a new eventfd: the first ping has the stream polled.
unfoldable pub new : {K S : Type 0} ⦃k : Eventfd K⦄ → ℕ → S → K → Generic ℕ × (S × K)
new fd s kernel = (new_source fd, (s, ping fd kernel))

-- The registration is that of the ping.
instance abbrev pub stream_source : {P S : Type 0} ⦃o : Poller P⦄ → EventSource P (Generic ℕ × S)
stream_source = forward (λ s. s.0) (λ g s. (g, s.1)) ping_source
