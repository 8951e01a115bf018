-- ===== src/Sources/Ping/Contract.antt =====
-- What sources/ping.rs promises of a ping, whichever of its modules implements it.
use calloop.Common.{
  ℕ, ◌+◌, ◌-◌, ◌^◌, ◌/◌, ◌%◌, ◌<◌, ◌≡◌, ◌==◌, ◌||◌, ◌&&◌, refl, Option, none, some, Bool, true,
  false, not, if-not, dec_lt, ◌⊎◌, inl, inr, arith, if◌then◌else◌,
}
use calloop.Error.{Result, ok}
use calloop.Token.{Token}
use calloop.Sys.{Readiness}
use calloop.PostAction.{PostAction}
use calloop.Sources.Generic.{Generic}
use calloop.Sources.Ping.{Eventfd, ping, drop_flag, process_events, send_ping}
use calloop.Sources.Ping.Delivery.{Counts, delivers_at, sent, send_full}
use calloop.Sources.Ping.Pipe.{Pipe}
use calloop.Sources.Ping.Pipe
use calloop.Sources.Ping.Pipe.Drained.{Buffers, ping-buffered, process_events-IsRead}

-- What is pending: a ping, however many were sent, and the drop of the last `Ping`.
pub record Pending : Type 0 where
  pub pinged : Bool
  pub closed : Bool

-- `view` is what is pending, `HasRoom` where the drop of the last `Ping` can be noted, and
-- `keeps_closed` tells whether each later event reports the drop again. `ping` and `drop_ping` are the
-- sender's operations, and `handle` an event of the source with a callback; an error or a panic is `none`.
pub record Contract (K C : Type 0) (view : K → Pending) (HasRoom : K → Type 0) (keeps_closed : Bool)
    (ping drop_ping : K → K) (handle : (K × C → K × C) → K × C → Option PostAction × (K × C))
    : Type 0 where
  pub ping_pings : (s : K) → view (ping s) ≡ record { pinged = true; closed = (view s).closed }
  pub drop_closes :
      (s : K)
      → HasRoom s
      → (view s).closed ≡ false
      → view (drop_ping s) ≡ record { pinged = (view s).pinged; closed = true }
  pub handles :
      (callback : K × C → K × C) (s : K) (c : C)
      → ((view s).pinged || (view s).closed) ≡ true
      → (at : K) × (view at ≡ record { pinged = false; closed = keeps_closed && (view s).closed })
        × (handle callback (s, c) ≡ (
          some (if (view s).closed then PostAction.remove else PostAction.continue),
          (if (view s).pinged then callback (at, c) else (at, c)),
        ))

abbrev pub to_option : {E A : Type 0} → Result E A → Option A
to_option (ok a) = some a
to_option _ = none

-- The counter of an eventfd as what is pending.
abbrev pub of_counter : ℕ → Pending
of_counter n = record { pinged = not (n / 2 == 0); closed = not (n % 2 == 0) }

of_counter-pinged :
    (n m : ℕ)
    → (n ≡ m + 2) ⊎ ((n ≡ m) × (1 < m))
    → of_counter n ≡ record { pinged = true; closed = (of_counter m).closed }
of_counter-pinged n m (inl h) = ground arith
of_counter-pinged n m (inr h) = ground arith

of_counter-closed :
    (n m : ℕ)
    → n ≡ m + 1
    → (of_counter m).closed ≡ false
    → of_counter n ≡ record { pinged = (of_counter m).pinged; closed = true }
of_counter-closed n m h e = ground arith

module _ {K : Type 0} ⦃k : Eventfd K⦄ (l : Counts K k) (fd : ℕ) where
  ping-pinged :
      (s : K)
      → of_counter (l.counter fd (ping fd s))
        ≡ record { pinged = true; closed = (of_counter (l.counter fd s)).closed }
  unfolding ping
  ping-pinged s = elim (dec_lt (l.counter fd s + 2) (2 ^ 64 - 1)) [
    | yes h ↦
        of_counter-pinged (l.counter fd (send_ping fd 2 s).1) (l.counter fd s)
          (inl (sent l fd 2 s (omega arith) h))
    | no h ↦
        of_counter-pinged (l.counter fd (send_ping fd 2 s).1) (l.counter fd s)
          (inr (send_full l fd 2 s (omega arith) (omega arith), omega arith))
  ]

  drop_flag-closed :
      (s : K)
      → l.counter fd s < 2 ^ 64 - 2
      → (of_counter (l.counter fd s)).closed ≡ false
      → of_counter (l.counter fd (drop_flag fd s))
        ≡ record { pinged = (of_counter (l.counter fd s)).pinged; closed = true }
  unfolding drop_flag
  drop_flag-closed s h e =
      of_counter-closed (l.counter fd (send_ping fd 1 s).1) (l.counter fd s)
        (sent l fd 1 s (omega arith) (omega arith)) e

module _ {K C : Type 0} ⦃k : Eventfd K⦄ (g : Generic ℕ) (t : Token) (readiness : Readiness) where
  abbrev pub eventfd_handle : (K × C → K × C) → K × C → Option PostAction × (K × C)
  eventfd_handle callback (s, c) =
      let r = process_events readiness t callback (g, (s, c)) in (to_option r.0, r.1.1)

module _ {K C : Type 0} ⦃k : Pipe K⦄ (fuel : ℕ) (g : Generic ℕ) (t : Token)
    (readiness : Readiness) where
  abbrev pub pipe_handle : (K × C → K × C) → K × C → Option PostAction × (K × C)
  pipe_handle callback (s, c) =
      let r = Pipe.process_events fuel readiness t callback (g, (s, c)) in (to_option r.0, r.1.1)

module _ {K C : Type 0} ⦃k : Eventfd K⦄ (l : Counts K k) (fd : ℕ) (g : Generic ℕ) (t : Token)
    (readiness : Readiness) (file : g.file ≡ some fd) (token : g.token ≡ some t) where
  eventfd_handles :
      (callback : K × C → K × C) (s : K) (c : C)
      → ((of_counter (l.counter fd s)).pinged || (of_counter (l.counter fd s)).closed) ≡ true
      → (at : K) × (of_counter (l.counter fd at) ≡ record { pinged = false; closed = false })
        × (eventfd_handle g t readiness callback (s, c) ≡ (
          some (
              if (of_counter (l.counter fd s)).closed
              then PostAction.remove
              else PostAction.continue),
          (if (of_counter (l.counter fd s)).pinged then callback (at, c) else (at, c)),
        ))
  eventfd_handles callback s c h =
      let v = l.counter fd s in
      let d = delivers_at l v fd s g t readiness callback c refl (ground arith) file token in
      (
        (k.read fd s).1,
        rw d.1 refl,
        rw
            (
              d.0,
              if-not (v % 2 == 0) PostAction.remove PostAction.continue,
              if-not (v / 2 == 0) (callback ((k.read fd s).1, c)) ((k.read fd s).1, c),
            )
            refl,
      )

  -- The eventfd keeps the promise of a ping: pings merge and none is lost, not even at the cap of the
  -- counter; the drop of the last `Ping` is pending if the counter is below 2^64 - 2, and the next event
  -- reports it and clears it; and an event, if anything is pending, calls the callback if and only if
  -- there was a ping, with nothing pending before the callback runs.
  pub eventfd-Contract :
      Contract K C
        (λ s. of_counter (l.counter fd s))
        (λ s. l.counter fd s < 2 ^ 64 - 2)
        false
        (ping fd)
        (drop_flag fd)
        (eventfd_handle g t readiness)
  eventfd-Contract = record {
    ping_pings = ping-pinged l fd;
    drop_closes = drop_flag-closed l fd;
    handles = eventfd_handles;
  }

module _ {K : Type 0} ⦃k : Pipe K⦄ (rd wr : ℕ) (l : Buffers K k rd wr) where
  abbrev pub of_pipe : K → Pending
  of_pipe s = record { pinged = not (l.buffered s == 0); closed = l.closed s }

  pipe_pings : (s : K) → of_pipe (Pipe.ping wr s) ≡ record { pinged = true; closed = l.closed s }
  pipe_pings s = let h = ping-buffered rd wr l s in ground (arith, h)

  pipe_closes :
      (s : K)
      → l.closed s ≡ false
      → of_pipe (Pipe.drop_ping wr s) ≡ record { pinged = (of_pipe s).pinged; closed = true }
  unfolding Pipe.drop_ping
  pipe_closes s e = let h = l.close_closes s in ground (arith, h)

module _ {K C : Type 0} ⦃k : Pipe K⦄ (rd wr : ℕ) (l : Buffers K k rd wr) (fuel : ℕ) (g : Generic ℕ)
    (t : Token) (readiness : Readiness) (enough : l.room < fuel) (file : g.file ≡ some rd)
    (token : g.token ≡ some t) where
  pipe_handles :
      (callback : K × C → K × C) (s : K) (c : C)
      → (at : K) × (of_pipe rd wr l at ≡ record { pinged = false; closed = l.closed s })
        × (pipe_handle fuel g t readiness callback (s, c) ≡ (
          some (if l.closed s then PostAction.remove else PostAction.continue),
          (if (of_pipe rd wr l s).pinged then callback (at, c) else (at, c)),
        ))
  pipe_handles callback s c =
      let q =
        process_events-IsRead rd wr l fuel g t readiness callback s c
          (omega (arith, l.within s, enough)) file token in
      (
        q.0,
        rw (q.1, q.2) refl,
        rw (q.3, if-not (l.buffered s == 0) (callback (q.0, c)) (q.0, c)) refl,
      )

  -- The pipe keeps the promise of a ping as well, with more rounds than the pipe holds bytes: a ping of a
  -- full pipe is not lost, since the pipe is readable; the drop of the last `Ping` is always pending
  -- afterwards, and is reported by every event from then on.
  pub pipe-Contract :
      Contract K C
        (of_pipe rd wr l)
        (λ s. Unit)
        true
        (Pipe.ping wr)
        (Pipe.drop_ping wr)
        (pipe_handle fuel g t readiness)
  pipe-Contract = record {
    ping_pings = pipe_pings rd wr l;
    drop_closes = λ s h e. pipe_closes rd wr l s e;
    handles = λ callback s c h. pipe_handles callback s c;
  }
