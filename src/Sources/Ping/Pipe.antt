-- ===== src/Sources/Ping/Pipe.antt =====
-- sources/ping/pipe.rs: a ping wakes the loop up by a byte in a pipe. `K` is the kernel's state; a file
-- is its descriptor.
pub mod Drained
use calloop.Common.{ℕ, zero, suc, Bool, true, false, ◌==◌, if◌then◌else◌}
use calloop.Error.{Boxed, of_io, IoError, would_block, Result, ok, err, panicked, M, map_err}
use calloop.Token.{Token}
use calloop.Sys.{Mode, Readiness, interest_read}
use calloop.PostAction.{PostAction}
use calloop.Sources.Generic.{Generic}
use calloop.Sources.Generic

-- The system calls on the two ends, from the crate `rustix`: `read` into a buffer of that many bytes
-- gives the number of bytes read, `write` writes one byte, and `close` drops the write end.
pub record Pipe (K : Type 0) : Type 0 where
  pub read : ℕ → ℕ → M IoError K ℕ
  pub write : ℕ → M IoError K (Unit {0})
  pub close : ℕ → K → K

abbrev pub buf_len : ℕ
buf_len = 32

pub data PingError : Type 0 where
  ping_error : Boxed → PingError
  out_of_rounds : PingError  -- of the model: the fuel of the loop

-- What the callback of the generic source fails with.
pub data ReadError : Type 0 where
  failed : IoError → ReadError
  no_fuel : ReadError

-- `PingError(e.into())`.
abbrev pub to_ping_error : ReadError → PingError
to_ping_error (failed e) = ping_error (of_io e)
to_ping_error no_fuel = out_of_rounds

-- The source of `make_ping` over the read end of a new pipe.
unfoldable pub new_source : ℕ → Generic ℕ
new_source fd = Generic.new fd interest_read Mode.level

module _ {K : Type 0} ⦃k : Pipe K⦄ where
  unfoldable pub send_ping : ℕ → M IoError K (Unit {0})
  send_ping fd = k.write fd

  -- `Ping::ping`; an error is logged.
  unfoldable pub ping : ℕ → K → K
  unfolding send_ping
  ping fd s = (send_ping fd s).1

  -- The drop of the last `Ping`.
  unfoldable pub drop_ping : ℕ → K → K
  drop_ping fd s = k.close fd s

  module _ {C : Type 0} where
    -- After the loop: the callback is called if something was read.
    unfoldable pub finish :
        (K × C → K × C)
        → PostAction
        → Bool
        → ℕ
        → K
        → C
        → Result ReadError PostAction × (ℕ × (K × C))
    finish callback action read_something fd s c =
        (ok action, (fd, (if read_something then callback (s, c) else (s, c))))

    unfoldable pub after_read :
        (K × C → K × C)
        → (Bool → K → Result ReadError PostAction × (ℕ × (K × C)))
        → Result IoError ℕ × K
        → Bool
        → ℕ
        → C
        → Result ReadError PostAction × (ℕ × (K × C))
    unfolding finish
    after_read callback next (ok zero, s) read_something fd c =
        finish callback PostAction.remove read_something fd s c
    after_read callback next (ok (suc n), s) read_something fd c = next true s
    after_read callback next (err would_block, s) read_something fd c =
        finish callback PostAction.continue read_something fd s c
    after_read callback next (err x, s) read_something fd c = (err (failed x), (fd, (s, c)))
    after_read callback next (panicked, s) read_something fd c = (panicked, (fd, (s, c)))

    -- The loop over `read`, with `read_something` so far.
    unfoldable pub read_all :
        (K × C → K × C) → ℕ → ℕ → C → Bool → K → Result ReadError PostAction × (ℕ × (K × C))
    unfolding after_read
    read_all callback fd zero c read_something s = (err no_fuel, (fd, (s, c)))
    read_all callback fd (suc n) c read_something s =
        after_read callback (read_all callback fd n c) (k.read fd buf_len s) read_something fd c

    -- The callback that the generic source is given.
    unfoldable pub on_ready : (K × C → K × C) → ℕ → Readiness → M ReadError (ℕ × (K × C)) PostAction
    on_ready callback fuel readiness (fd, (s, c)) = read_all callback fd fuel c false s

    -- `PingSource::process_events`.
    unfoldable pub process_events :
        ℕ → Readiness → Token → (K × C → K × C) → M PingError (Generic ℕ × (K × C)) PostAction
    unfolding on_ready
    process_events fuel readiness t callback =
        map_err to_ping_error (Generic.process_events readiness t (on_ready callback fuel))
