-- ===== src/Sources/Channel/Delivery.antt =====
-- What the receiving end of sources/channel.rs delivers, and that it never sleeps on a message.
use calloop.Common.{
  ℕ, zero, suc, ◌*◌, ◌/◌, ◌%◌, ◌<◌, ◌≡◌, ◌==◌, refl, ap, some, Bool, true, false, List, [], ◌∷◌,
  ◌++◌, length, arith,
}
use calloop.Error.{Boxed, Result, ok}
use calloop.Token.{Token}
use calloop.Sys.{Readiness}
use calloop.PostAction.{PostAction}
use calloop.Sources.Generic.{Generic}
use calloop.Sources.Ping.{Eventfd, ping}
use calloop.Sources.Ping.Delivery.{Counts, delivers_at, sent}
use calloop.Sources.Channel.{
  Event, msg, closed, Channel, Draining, received, drain, max_events, decide, process_events,
}

module _ {T C : Type 0} where
  -- The callback's calls for a list of messages.
  abbrev pub delivered : (Event T → C → C) → List T → C → C
  delivered callback [] c = c
  delivered callback (x ∷ xs) c = delivered callback xs (callback (msg x) c)

  -- How the loop over the receiver ends, with `n` rounds allowed.
  pub data Drained (callback : Event T → C → C) (n : ℕ) (d d' : Draining T C) : Type 0 where
    emptied :
        d.receiver.connected ≡ true
        → d' ≡ record {
          receiver = record { queue = []; connected = true };
          clear_readiness = true;
          disconnected = d.disconnected;
          captured = delivered callback d.receiver.queue d.captured;
        }
        → Drained callback n d d'
    ended :
        d.receiver.connected ≡ false
        → d' ≡ record {
          receiver = record { queue = []; connected = false };
          clear_readiness = d.clear_readiness;
          disconnected = true;
          captured = callback closed (delivered callback d.receiver.queue d.captured);
        }
        → Drained callback n d d'
    limited :
        (xs ys : List T)
        → d.receiver.queue ≡ xs ++ ys
        → length xs ≡ n
        → d' ≡ record d {
          receiver = record (d.receiver) { queue = ys };
          captured = delivered callback xs d.captured;
        }
        → Drained callback n d d'

  drain-Drained :
      (callback : Event T → C → C) (n : ℕ) (queue : List T) (connected clear gone : Bool) (c : C)
      → let d : Draining T C = record {
        receiver = record { queue = queue; connected = connected };
        clear_readiness = clear;
        disconnected = gone;
        captured = c;
      } in
        Drained callback n d (drain callback n d)
  unfolding drain received
  drain-Drained callback zero queue connected clear gone c = limited [] queue refl refl refl
  drain-Drained callback (suc n) [] true clear gone c = emptied refl refl
  drain-Drained callback (suc n) [] false clear gone c = ended refl refl
  drain-Drained callback (suc n) (x ∷ queue) connected clear gone c =
      elim (drain-Drained callback n queue connected clear gone (callback (msg x) c)) [
        | emptied h q ↦ emptied h q
        | ended h q ↦ ended h q
        | limited xs ys h len q ↦ limited (x ∷ xs) ys (ap (λ zs. x ∷ zs) h) (ap suc len) q
      ]

module _ {T C K : Type 0} ⦃k : Eventfd K⦄ (l : Counts K k) where
  -- How an event of the channel ends: with an empty queue, with the channel removed once the senders
  -- are gone, or after the most messages allowed, and then another wake-up is pending.
  pub data Served (callback : Event T → C → C) (ch : Channel T) (c : C)
      (r : Result Boxed PostAction × (Channel T × (K × C))) : Type 0 where
    all_taken :
        ch.receiver.connected ≡ true
        → r.0 ≡ ok PostAction.continue
        → r.1.0.receiver.queue ≡ []
        → r.1.1.1 ≡ delivered callback ch.receiver.queue c
        → Served callback ch c r
    channel_closed :
        ch.receiver.connected ≡ false
        → r.0 ≡ ok PostAction.remove
        → r.1.1.1 ≡ callback closed (delivered callback ch.receiver.queue c)
        → Served callback ch c r
    round_full :
        (xs ys : List T)
        → ch.receiver.queue ≡ xs ++ ys
        → length xs ≡ max_events ch.capacity
        → r.0 ≡ ok PostAction.continue
        → r.1.0.receiver.queue ≡ ys
        → r.1.1.1 ≡ delivered callback xs c
        → 0 < l.counter ch.fd r.1.1.0
        → Served callback ch c r

  decide-Served :
      (callback : Event T → C → C) (ch : Channel T) (c : C) (g : Generic ℕ) (s : K)
      (d : Draining T C)
      → l.counter ch.fd s ≡ 0
      → Drained callback
          (max_events ch.capacity)
          (record {
            receiver = ch.receiver;
            clear_readiness = false;
            disconnected = false;
            captured = c;
          })
          d
      → Served callback ch c (decide ch (ok PostAction.continue, (g, (s, d))))
  unfolding decide ping
  decide-Served callback ch c g s d z (emptied h q) = rw q (all_taken h refl refl refl)
  decide-Served callback ch c g s d z (ended h q) = rw q (channel_closed h refl refl)
  decide-Served callback ch c g s d z (limited xs ys h len q) = rw q (
      round_full xs ys h len refl refl refl
        (omega (arith, sent l ch.fd 2 s (omega arith) (omega (arith, z)), z)))

  -- A ping delivers the messages in the order in which they were sent, up to the limit of a round.
  -- No message stays behind without another ping pending, and the channel is removed only after the
  -- last message, and `Closed`, were delivered.
  pub process_events-Served :
      (m : ℕ) (callback : Event T → C → C) (ch : Channel T) (s : K) (c : C) (readiness : Readiness)
      (t : Token)
      → l.counter ch.fd s ≡ m * 2
      → 0 < m
      → ch.source.file ≡ some ch.fd
      → ch.source.token ≡ some t
      → Served callback ch c (process_events readiness t callback (ch, (s, c)))
  unfolding process_events
  process_events-Served m callback ch s c readiness t count p f tok =
      let d : Draining T C = record {
        receiver = ch.receiver;
        clear_readiness = false;
        disconnected = false;
        captured = c;
      } in
      let run : K × Draining T C → K × Draining T C =
        λ p. (p.0, drain callback (max_events ch.capacity) p.1) in
      let h = delivers_at l (m * 2) ch.fd s ch.source t readiness run d count (omega arith) f tok in
      let even : (m * 2 % 2 == 0) ≡ true = ground arith in
      let some_ping : (m * 2 / 2 == 0) ≡ false = ground arith in
      rw (h.0, even, some_ping)
        (decide-Served callback ch c (record (ch.source) { file = some ch.fd }) (k.read ch.fd s).1
          (drain callback (max_events ch.capacity) d) h.1
          (drain-Drained callback (max_events ch.capacity) ch.receiver.queue ch.receiver.connected
            false false c))
