-- ===== src/Sources/Ping/Delivery.antt =====
-- What sources/ping/eventfd.rs delivers: pings are merged, and none is lost.
use calloop.Common.{
  ℕ, zero, suc, ◌+◌, ◌-◌, ◌*◌, ◌/◌, ◌%◌, ◌^◌, ◌<◌, ◌≤◌, dec_lt, ◌≡◌, ◌==◌, refl, ap, ◌∙◌, some,
  Bool, true, false, arith, if◌then◌else◌, Option, none, Bool-cases, inl, inr,
}
use calloop.Error.{IoError, would_block, interrupted, Result, ok, err, panicked}
use calloop.Token.{Token}
use calloop.Sys.{Readiness}
use calloop.PostAction.{PostAction}
use calloop.Sources.Generic.{Generic}
use calloop.Sources.Generic
use calloop.Sources.Generic.Laws.{called_back}
use calloop.Sources.Ping.{
  Eventfd, send_ping, drain_ping, ping, drop_flag, after_drain, on_ready, process_events,
  forgive_full,
}

-- The documented behaviour of an eventfd, as a u64 counter that stops at 2^64 - 2.
pub record Counts (K : Type 0) (k : Eventfd K) : Type 0 where
  pub counter : ℕ → K → ℕ
  pub write_adds :
      (fd v : ℕ) (s : K)
      → counter fd s + v < 2 ^ 64 - 1
      → ((k.write fd v s).0 ≡ ok tt) × (counter fd (k.write fd v s).1 ≡ counter fd s + v)
  pub write_full :
      (fd v : ℕ) (s : K)
      → 2 ^ 64 - 1 ≤ counter fd s + v
      → ((k.write fd v s).0 ≡ err would_block) × (counter fd (k.write fd v s).1 ≡ counter fd s)
  pub read_takes :
      (fd : ℕ) (s : K)
      → 0 < counter fd s
      → ((k.read fd s).0 ≡ ok (counter fd s)) × (counter fd (k.read fd s).1 ≡ 0)

module _ {K C : Type 0} ⦃k : Eventfd K⦄ (Q : K × C → Type 0) where
  captured_drained :
      (callback : K × C → K × C) (r : Result IoError ℕ × K) (fd : ℕ) (c : C)
      → ((s : K) → Q (s, c))
      → ((s : K) → Q (callback (s, c)))
      → Q (after_drain callback r (fd, c)).1.1
  unfolding after_drain
  captured_drained callback (ok v, s) fd c before after = elim (Bool-cases (v / 2 == 0)) [
    | inl none_sent ↦ rw none_sent (before s)
    | inr some_sent ↦ rw some_sent (after s)
  ]
  captured_drained callback (err x, s) fd c before after = before s
  captured_drained callback (panicked, s) fd c before after = before s

  captured_called :
      (callback : K × C → K × C) (readiness : Readiness) (g : Generic ℕ) (o : Option ℕ) (s : K)
      (c : C)
      → ((s : K) → Q (s, c))
      → ((s : K) → Q (callback (s, c)))
      → Q (Generic.call_back (on_ready callback) readiness g o (s, c)).1.1
  unfolding Generic.call_back on_ready
  captured_called callback readiness g none s c before after = before s
  captured_called callback readiness g (some fd) s c before after =
      captured_drained callback (drain_ping fd s) fd c before after

  -- What holds of the captured state before and after a call of the callback holds after the event.
  pub captured :
      (g : Generic ℕ) (t : Token) (readiness : Readiness) (callback : K × C → K × C) (s : K) (c : C)
      → ((s : K) → Q (s, c))
      → ((s : K) → Q (callback (s, c)))
      → Q (process_events readiness t callback (g, (s, c))).1.1
  unfolding process_events Generic.process_events
  captured g t readiness callback s c before after =
      elim (Bool-cases (Generic.is_token g.token t)) [
        | inl same ↦ rw same (captured_called callback readiness g g.file s c before after)
        | inr other ↦ rw other (before s)
      ]

module _ {K : Type 0} ⦃k : Eventfd K⦄ (l : Counts K k) where
  -- `n` pings in a row.
  pub pings : ℕ → ℕ → K → K
  pings fd zero s = s
  pings fd (suc n) s = ping fd (pings fd n s)

  forgive_full-ok : (r : Result IoError (Unit {0}) × K) → r.0 ≡ ok tt → (forgive_full r).1 ≡ r.1
  unfolding forgive_full
  forgive_full-ok (ok _, s) h = refl
  forgive_full-ok (err x, s) h = absurd (ground arith)
  forgive_full-ok (panicked, s) h = absurd (ground arith)

  pub sent :
      (fd v : ℕ) (s : K)
      → 0 < v
      → l.counter fd s + v < 2 ^ 64 - 1
      → l.counter fd (send_ping fd v s).1 ≡ l.counter fd s + v
  unfolding send_ping
  sent fd v s p h =
      let w = l.write_adds fd v s h in
      let nonzero : (v == 0) ≡ false = ground arith in
      rw nonzero (ap (l.counter fd) (forgive_full-ok (k.write fd v s) w.0) ∙ w.1)

  forgive_full-would_block :
      (r : Result IoError (Unit {0}) × K) → r.0 ≡ err would_block → (forgive_full r).1 ≡ r.1
  unfolding forgive_full
  forgive_full-would_block (ok _, s) h = absurd (ground arith)
  forgive_full-would_block (err interrupted, s) h = absurd (ground arith)
  forgive_full-would_block (err would_block, s) h = refl
  forgive_full-would_block (err x, s) h = refl
  forgive_full-would_block (panicked, s) h = absurd (ground arith)

  pub send_full :
      (fd v : ℕ) (s : K)
      → 0 < v
      → 2 ^ 64 - 1 ≤ l.counter fd s + v
      → l.counter fd (send_ping fd v s).1 ≡ l.counter fd s
  unfolding send_ping
  send_full fd v s p h =
      let w = l.write_full fd v s h in
      let nonzero : (v == 0) ≡ false = ground arith in
      rw nonzero (ap (l.counter fd) (forgive_full-would_block (k.write fd v s) w.0) ∙ w.1)

  -- A ping is never lost, not even at the cap of the counter.
  pub ping_pending : (fd : ℕ) (s : K) → 1 < l.counter fd (ping fd s)
  unfolding ping
  ping_pending fd s = elim (dec_lt (l.counter fd s + 2) (2 ^ 64 - 1)) [
    | yes h ↦ omega (arith, sent fd 2 s (omega arith) h)
    | no h ↦ omega (arith, send_full fd 2 s (omega arith) (omega arith))
  ]

  pings-counter :
      (n fd : ℕ) (s : K)
      → l.counter fd s + n * 2 < 2 ^ 64 - 1
      → l.counter fd (pings fd n s) ≡ l.counter fd s + n * 2
  unfolding ping pings
  pings-counter zero fd s h = omega arith
  pings-counter (suc n) fd s h =
      let before = pings-counter n fd s (omega arith) in
      sent fd 2 (pings fd n s) (omega arith) (omega (arith, before)) ∙ omega (arith, before)

  -- The kernel's state after `n` pings and, if so, the drop of the last `Ping`.
  pub sent_all : ℕ → Bool → ℕ → K → K
  sent_all n closed fd s = if closed then drop_flag fd (pings fd n s) else pings fd n s

  abbrev pub count_of : ℕ → Bool → ℕ
  count_of n closed = n * 2 + (if closed then 1 else 0)

  sent_all-counter :
      (n : ℕ) (closed : Bool) (fd : ℕ) (s : K)
      → l.counter fd s ≡ 0
      → count_of n closed < 2 ^ 64 - 1
      → l.counter fd (sent_all n closed fd s) ≡ count_of n closed
  unfolding sent_all drop_flag
  sent_all-counter n true fd s z h =
      let before = pings-counter n fd s (omega arith) in
      sent fd 1 (pings fd n s) (omega arith) (omega (arith, before)) ∙ omega (arith, before)
  sent_all-counter n false fd s z h = pings-counter n fd s (omega arith) ∙ omega arith

  drained :
      {C : Type 0} (callback : K × C → K × C) (r : Result IoError ℕ × K) (v fd : ℕ) (c : C)
      → r.0 ≡ ok v
      → after_drain callback r (fd, c) ≡ (
        ok (if v % 2 == 0 then PostAction.continue else PostAction.remove),
        (fd, (if v / 2 == 0 then (r.1, c) else callback (r.1, c))),
      )
  unfolding after_drain
  drained callback (ok a, s) v fd c h = ap (λ r. after_drain callback (r, s) (fd, c)) h
  drained callback (err x, s) v fd c h = absurd (ground arith)
  drained callback (panicked, s) v fd c h = absurd (ground arith)

  -- A ping event at the counter `v`.
  pub delivers_at :
      {C : Type 0} (v fd : ℕ) (s : K) (g : Generic ℕ) (t : Token) (readiness : Readiness)
      (callback : K × C → K × C) (c : C)
      → l.counter fd s ≡ v
      → 0 < v
      → g.file ≡ some fd
      → g.token ≡ some t
      → (process_events readiness t callback (g, (s, c)) ≡ (
        ok (if v % 2 == 0 then PostAction.continue else PostAction.remove),
        (
          record g { file = some fd },
          (if v / 2 == 0 then ((k.read fd s).1, c) else callback ((k.read fd s).1, c)),
        ),
      ))
        × (l.counter fd (k.read fd s).1 ≡ 0)
  unfolding process_events on_ready drain_ping
  delivers_at v fd s g t readiness callback c count p f tok =
      let read = l.read_takes fd s (omega (arith, count)) in
      let all = called_back g t fd readiness (on_ready callback) (s, c) tok f in
      let d = drained callback (k.read fd s) v fd c (read.0 ∙ ap ok count) in
      (rw (all, d) refl, read.1)

  closes :
      (n : ℕ) (closed : Bool)
      → (if count_of n closed % 2 == 0 then PostAction.continue else PostAction.remove)
        ≡ (if closed then PostAction.remove else PostAction.continue)
  closes n true = ground arith
  closes n false = ground arith

  pinged :
      {A : Type 0} (n : ℕ) (closed : Bool) (x y : A)
      → (if count_of n closed / 2 == 0 then x else y) ≡ (if n == 0 then x else y)
  pinged n true x y = ground arith
  pinged n false x y = ground arith

  -- Between two dispatches any number of pings, fewer than 2^63, and a close run the callback once
  -- if there was a ping and remove the source if there was a close; the counter is 0 before the
  -- callback runs, so a ping that the callback sends wakes the loop up again.
  pub ping_delivers :
      {C : Type 0} (n : ℕ) (closed : Bool) (fd : ℕ) (s : K) (g : Generic ℕ) (t : Token)
      (readiness : Readiness) (callback : K × C → K × C) (c : C)
      → l.counter fd s ≡ 0
      → 0 < count_of n closed
      → count_of n closed < 2 ^ 64 - 1
      → g.file ≡ some fd
      → g.token ≡ some t
      → let s' = sent_all n closed fd s in
        let r = process_events readiness t callback (g, (s', c)) in
        let drained = (k.read fd s').1 in
        (r.0 ≡ ok (if closed then PostAction.remove else PostAction.continue))
        × (r.1.1 ≡ (if n == 0 then (drained, c) else callback (drained, c)))
        × (l.counter fd drained ≡ 0)
  ping_delivers n closed fd s g t readiness callback c z some_sent cap f tok =
      let s' = sent_all n closed fd s in
      let count = sent_all-counter n closed fd s z cap in
      let d =
        delivers_at (count_of n closed) fd s' g t readiness callback c count some_sent f tok in
      (
        rw d.0 (ap ok (closes n closed)),
        rw d.0 (pinged n closed ((k.read fd s').1, c) (callback ((k.read fd s').1, c))),
        d.1,
      )
