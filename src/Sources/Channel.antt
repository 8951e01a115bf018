-- ===== src/Sources/Channel.antt =====
-- sources/channel.rs: a channel whose receiving end is a source, over a ping. `Receiver` is the
-- receiving end of `std::sync::mpsc`; `T` is the type of the messages.
pub mod Delivery
use calloop.Common.{
  ℕ, zero, suc, ◌+◌, ◌-◌, ◌^◌, min, List, [], ◌∷◌, ◌++◌, Bool, true, false, length, leb,
  if◌then◌else◌,
}
use calloop.Error.{Boxed, Result, ok, err, panicked, M}
use calloop.Token.{Token}
use calloop.Sys.{Poller, Readiness}
use calloop.PostAction.{PostAction}
use calloop.Sources.{EventSource, forward}
use calloop.Sources.Generic.{Generic}
use calloop.Sources.Ping.{ping_source, Eventfd, ping}
use calloop.Sources.Ping

abbrev pub max_events_check : ℕ
max_events_check = 1024

pub data Event (T : Type 0) : Type 0 where
  msg : T → Event T
  closed : Event T

-- What was sent and not received, and whether a sender is left.
pub record Receiver (T : Type 0) : Type 0 where
  pub queue : List T
  pub connected : Bool

pub data Received (T : Type 0) : Type 0 where
  value : T → Received T
  empty disconnected : Received T

pub record Channel (T : Type 0) : Type 0 where
  pub receiver : Receiver T
  pub source : Generic ℕ
  pub fd : ℕ  -- of the `Ping` that the channel keeps
  pub capacity : ℕ

-- What the callback of the ping works on.
pub record Draining (T C : Type 0) : Type 0 where
  pub receiver : Receiver T
  pub clear_readiness : Bool
  pub disconnected : Bool
  pub captured : C

abbrev pub try_recv_queue : {T : Type 0} → Receiver T → List T → Received T × Receiver T
try_recv_queue r [] = ((if r.connected then empty else disconnected), r)
try_recv_queue r (x ∷ xs) = (value x, record r { queue = xs })

-- `Receiver::try_recv`.
abbrev pub try_recv : {T : Type 0} → Receiver T → Received T × Receiver T
try_recv r = try_recv_queue r r.queue

-- `cmp::min(capacity.saturating_add(1), MAX_EVENTS_CHECK)`, on a 64-bit `usize`.
unfoldable pub max_events : ℕ → ℕ
max_events capacity = min (min (capacity + 1) (2 ^ 64 - 1)) max_events_check

module _ {T C : Type 0} where
  unfoldable pub received :
      (Event T → C → C)
      → Received T × Receiver T
      → Draining T C
      → (Draining T C → Draining T C)
      → Draining T C
  received callback (value x, r) d next =
      next (record d { receiver = r; captured = callback (msg x) d.captured })
  received callback (empty, r) d next = record d { receiver = r; clear_readiness = true }
  received callback (disconnected, r) d next = record d {
    receiver = r;
    disconnected = true;
    captured = callback closed d.captured;
  }

  -- The loop `for _ in 0..max`.
  unfoldable pub drain : (Event T → C → C) → ℕ → Draining T C → Draining T C
  unfolding received
  drain callback zero d = d
  drain callback (suc n) d = received callback (try_recv d.receiver) d (drain callback n)

  module _ {K : Type 0} ⦃k : Eventfd K⦄ where
    unfoldable pub decide :
        Channel T
        → Result Boxed PostAction × (Generic ℕ × (K × Draining T C))
        → Result Boxed PostAction × (Channel T × (K × C))
    decide ch (ok action, (g, (s, d))) =
        let ch' = record ch { receiver = d.receiver; source = g } in
        if d.disconnected
        then (ok PostAction.remove, (ch', (s, d.captured)))
        else if d.clear_readiness
        then (ok action, (ch', (s, d.captured)))
        else (ok PostAction.continue, (ch', (ping ch.fd s, d.captured)))
    decide ch (err x, (g, (s, d))) =
        (err x, (record ch { receiver = d.receiver; source = g }, (s, d.captured)))
    decide ch (panicked, (g, (s, d))) =
        (panicked, (record ch { receiver = d.receiver; source = g }, (s, d.captured)))

    -- `Channel::process_events`.
    unfoldable pub process_events :
        Readiness → Token → (Event T → C → C) → M Boxed (Channel T × (K × C)) PostAction
    unfolding decide
    process_events readiness t callback (ch, (s, c)) =
        let d : Draining T C = record {
          receiver = ch.receiver;
          clear_readiness = false;
          disconnected = false;
          captured = c;
        } in
        decide ch (
          Ping.process_events readiness t (λ p. (p.0, drain callback (max_events ch.capacity) p.1))
            (ch.source, (s, d)))

-- The senders: a message is put in the queue, and then the loop is pinged.
module _ {T K : Type 0} ⦃k : Eventfd K⦄ where
  unfoldable pub send : ℕ → T → Receiver T × K → Receiver T × K
  send fd x (r, s) = (record r { queue = r.queue ++ x ∷ [] }, ping fd s)

  -- The drop of the last sender, whose ping comes after it.
  unfoldable pub drop_sender : ℕ → Receiver T × K → Receiver T × K
  drop_sender fd (r, s) = (record r { connected = false }, ping fd s)

  -- `SyncSender::try_send`; a full channel gives the message back, and pings as well.
  unfoldable pub try_send : ℕ → ℕ → T → Receiver T × K → Bool × (Receiver T × K)
  try_send fd bound x (r, s) =
      if leb bound (length r.queue)
      then (false, (r, ping fd s))
      else (true, (record r { queue = r.queue ++ x ∷ [] }, ping fd s))

-- The registration is that of the ping.
instance abbrev pub channel_source : {P T : Type 0} ⦃o : Poller P⦄ → EventSource P (Channel T)
channel_source = forward (λ c. c.source) (λ g c. record c { source = g }) ping_source
