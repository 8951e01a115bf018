-- ===== src/Sources/Ping.antt =====
-- sources/ping/eventfd.rs: a ping wakes the loop up through the counter of an eventfd. `K` is the
-- kernel's state, which the sending and the receiving end share; a file is its descriptor.
pub mod Delivery
pub mod Pipe
pub mod Contract
use calloop.Common.{ℕ, ◌/◌, ◌%◌, ◌==◌, if◌then◌else◌}
use calloop.Error.{Boxed, of_io, IoError, would_block, Result, ok, err, panicked, M, map_err}
use calloop.Token.{Token}
use calloop.Sys.{Poller, Mode, Readiness, interest_read}
use calloop.PostAction.{PostAction}
use calloop.Sources.{EventSource, forward}
use calloop.Sources.Generic.{generic_source, AsFd, Generic}
use calloop.Sources.Generic

-- The two system calls on an eventfd, from the crate `rustix`.
pub record Eventfd (K : Type 0) : Type 0 where
  pub read : ℕ → M IoError K ℕ
  pub write : ℕ → ℕ → M IoError K (Unit {0})

abbrev pub increment_ping : ℕ
increment_ping = 2

abbrev pub increment_close : ℕ
increment_close = 1

-- `ArcAsFd`.
instance abbrev pub arc_as_fd : AsFd ℕ
arc_as_fd = record { as_fd = λ fd. fd }

-- The source of `make_ping` over a new eventfd.
unfoldable pub new_source : ℕ → Generic ℕ
new_source fd = Generic.new fd interest_read Mode.level

module _ {K : Type 0} ⦃k : Eventfd K⦄ where
  -- At the cap of the counter the earlier writes wake the loop up.
  forgive_full : Result IoError (Unit {0}) × K → Result IoError (Unit {0}) × K
  forgive_full (ok _, s) = (ok tt, s)
  forgive_full (err would_block, s) = (ok tt, s)
  forgive_full (err x, s) = (err x, s)
  forgive_full (panicked, s) = (panicked, s)

  unfoldable pub send_ping : ℕ → ℕ → M IoError K (Unit {0})
  unfolding forgive_full
  send_ping fd count s = if count == 0 then (panicked, s) else forgive_full (k.write fd count s)

  unfoldable pub drain_ping : ℕ → M IoError K ℕ
  drain_ping fd = k.read fd

  -- `Ping::ping`, and the drop of the last `Ping`; an error is logged.
  unfoldable pub ping : ℕ → K → K
  unfolding send_ping
  ping fd s = (send_ping fd increment_ping s).1

  unfoldable pub drop_flag : ℕ → K → K
  unfolding send_ping
  drop_flag fd s = (send_ping fd increment_close s).1

  module _ {C : Type 0} where
    -- `counter & INCREMENT_CLOSE`, and `counter & (u64::MAX - 1)`.
    unfoldable pub after_drain :
        (K × C → K × C) → Result IoError ℕ × K → ℕ × C → Result IoError PostAction × (ℕ × (K × C))
    after_drain callback (ok counter, s) (fd, c) = (
      ok (if counter % 2 == 0 then PostAction.continue else PostAction.remove),
      (fd, (if counter / 2 == 0 then (s, c) else callback (s, c))),
    )
    after_drain callback (err x, s) (fd, c) = (err x, (fd, (s, c)))
    after_drain callback (panicked, s) (fd, c) = (panicked, (fd, (s, c)))

    -- The callback that the generic source is given. What the user's callback does may itself ping.
    unfoldable pub on_ready : (K × C → K × C) → Readiness → M IoError (ℕ × (K × C)) PostAction
    unfolding after_drain drain_ping
    on_ready callback readiness (fd, (s, c)) = after_drain callback (drain_ping fd s) (fd, c)

    -- `PingSource::process_events`.
    unfoldable pub process_events :
        Readiness → Token → (K × C → K × C) → M Boxed (Generic ℕ × (K × C)) PostAction
    unfolding on_ready
    process_events readiness t callback =
        map_err of_io (Generic.process_events readiness t (on_ready callback))

-- The registration is that of the generic source, for the pipe as well.
abbrev pub ping_source : {P : Type 0} ⦃o : Poller P⦄ → EventSource P (Generic ℕ)
ping_source = forward (λ g. g) (λ g old. g) generic_source
