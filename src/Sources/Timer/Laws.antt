-- ===== src/Sources/Timer/Laws.antt =====
-- The registration of a timer of sources/timer.rs, and its entry in the wheel.
use calloop.Common.{ℕ, ◌≡◌, refl, Option, none, some, List, ◌∷◌, arith}
use calloop.Error.{Error, ok}
use calloop.Token.{Token, TokenFactory, token}
use calloop.Wheel.{TimeoutData, insert}
use calloop.Wheel.Cancel.{IsValid, without, cancel-without}
use calloop.Sources.{Registering}
use calloop.Sources.Timer.{Timer, Registration, register, reregister, unregister}

-- The entries of the wheel that are not the timer's.
abbrev pub others : Option Registration → List TimeoutData → List TimeoutData
others none ds = ds
others (some r) ds = without r.counter ds

module _ {P : Type 0} where
  -- A timer without its registration, and the wheel without the timer's entries.
  abbrev pub unregistered : Registering P Timer → Registering P Timer
  unregistered c = record {
    source = record (c.source) { registration = none };
    poll = record (c.poll) {
      timers = record (c.poll.timers) { heap = others c.source.registration c.poll.timers.heap };
    };
    factory = c.factory;
  }

  -- Unregistering a timer always succeeds, takes the timer's entries and no other out of a valid
  -- wheel, and leaves the deadline and everything else as it was.
  pub unregister_removes :
      (c : Registering P Timer) → IsValid c.poll.timers → unregister c ≡ (ok tt, unregistered c)
  unfolding unregister
  unregister_removes c v = go c.source.registration refl
    where
      go :
          (o : Option Registration)
          → c.source.registration ≡ o
          → unregister c ≡ (ok tt, unregistered c)
      go none e = ground arith
      go (some r) e = ground (arith, cancel-without r.counter c.poll.timers v.distinct)

  register_at_deadline :
      (c : Registering P Timer) (t : Token) (f : TokenFactory) (d : ℕ)
      → token {E = Error} c.factory ≡ (ok t, f)
      → c.source.deadline ≡ some d
      → let w = c.poll.timers in
        ((register c).1.source.registration ≡ some (record { token = t; counter = w.counter }))
        × ((register c).1.poll.timers.heap
            ≡ record { deadline = d; token = t; counter = w.counter } ∷ w.heap)
  unfolding register insert
  register_at_deadline c t f d k q = ground arith

  register_overflowed :
      (c : Registering P Timer) → c.source.deadline ≡ none → register c ≡ (ok tt, c)
  unfolding register
  register_overflowed c q = ground arith

  register_ok :
      (c : Registering P Timer) (t : Token) (f : TokenFactory)
      → token {E = Error} c.factory ≡ (ok t, f)
      → (register c).0 ≡ ok tt
  unfolding register
  register_ok c t f k = ground arith

  -- Registering again moves the timer to its deadline: whatever entry it had in a valid wheel is
  -- replaced by one at the deadline, under a new counter, with the token that the factory gives.
  -- A timer whose deadline has overflowed only loses its entry and its registration.
  pub reregister_replaces :
      (c : Registering P Timer) (t : Token) (f : TokenFactory)
      → IsValid c.poll.timers
      → token {E = Error} c.factory ≡ (ok t, f)
      → let w = c.poll.timers in
        let c' = (reregister c).1 in
        ((reregister c).0 ≡ ok tt)
        × ((d : ℕ)
            → c.source.deadline ≡ some d
            → (c'.source.registration ≡ some (record { token = t; counter = w.counter }))
              × (c'.poll.timers.heap
                  ≡ record { deadline = d; token = t; counter = w.counter }
                    ∷ others c.source.registration w.heap))
        × (c.source.deadline ≡ none
            → (c'.source.registration ≡ none)
              × (c'.poll.timers.heap ≡ others c.source.registration w.heap))
  reregister_replaces c t f v k =
      let e : reregister c ≡ register (unregistered c) =
        unfold reregister in rw (unregister_removes c v) in
      rw e (
        register_ok (unregistered c) t f k,
        λ d q. register_at_deadline (unregistered c) t f d k q,
        λ q. rw (register_overflowed (unregistered c) q) (refl, refl),
      )
