-- ===== src/Loop/Retry.antt =====
-- How the loop around `poll.poll(timeout)` in `dispatch_events` of loop_logic.rs ends, and `run`.
use calloop.Common.{
  ℕ, ◌-◌, ◌+◌, ◌≤◌, ◌<◌, ◌≡◌, ◌≢◌, refl, ◌⊎◌, inl, inr, Option, some, List, [], ◌∷◌, false, leb,
  arith, Bool-cases,
}
use calloop.Error.{
  interrupted, would_block, invalid_input, not_found, already_exists, os, custom, Error, io_error,
  invalid_token, other_error, Result, ok, err, panicked, M,
}
use calloop.Sys.{Poller, PollEvent, Poll, poll}
use calloop.Loop.Cycle.{Attempt, Polled, events, starved, after_interrupt, again, settle, retry}

-- Some reading of the clock is `t` or more after the start.
abbrev Reaches : ℕ → List Attempt → Type 0
Reaches t [] = ⊥
Reaches t (a ∷ attempts) = (t ≤ a.elapsed) ⊎ Reaches t attempts

Reaches-earlier :
    (s t : ℕ) (attempts : List Attempt) → s ≤ t → Reaches t attempts → Reaches s attempts
Reaches-earlier s t [] h r = r
Reaches-earlier s t (a ∷ attempts) h (inl r) = inl (omega arith)
Reaches-earlier s t (a ∷ attempts) h (inr r) = inr (Reaches-earlier s t attempts h r)

module _ {P : Type 0} ⦃o : Poller P⦄ where
  -- The four ways in which an attempt ends.
  settle-cases :
      (Q : Result Error Polled × Poll P → Type 0) (r : Result Error (List PollEvent) × Poll P)
      (left : Option (Option ℕ)) (next : Option ℕ → M Error (Poll P) Polled)
      → ((evs : List PollEvent) (p : Poll P) → Q (ok (events evs), p))
      → ((x : Error) (p : Poll P) → Q (err x, p))
      → ((p : Poll P) → Q (panicked, p))
      → ((p : Poll P) → Q (again left next p))
      → Q (settle r left next)
  settle-cases Q (ok evs, p) left next a b c d = a evs p
  settle-cases Q (err invalid_token, p) left next a b c d = b invalid_token p
  settle-cases Q (err (other_error x), p) left next a b c d = b (other_error x) p
  settle-cases Q (err (io_error interrupted), p) left next a b c d = d p
  settle-cases Q (err (io_error would_block), p) left next a b c d = b (io_error would_block) p
  settle-cases Q (err (io_error invalid_input), p) left next a b c d = b (io_error invalid_input) p
  settle-cases Q (err (io_error not_found), p) left next a b c d = b (io_error not_found) p
  settle-cases Q (err (io_error already_exists), p) left next a b c d =
      b (io_error already_exists) p
  settle-cases Q (err (io_error (os n)), p) left next a b c d = b (io_error (os n)) p
  settle-cases Q (err (io_error (custom x)), p) left next a b c d = b (io_error (custom x)) p
  settle-cases Q (panicked, p) left next a b c d = c p

  -- With a timeout, the attempts end once the clock has moved on by the timeout, however often a
  -- signal interrupts the wait.
  pub retry_ends :
      (attempts : List Attempt) (timeout : ℕ) (p : Poll P)
      → Reaches timeout attempts
      → (retry attempts (some timeout) p).0 ≢ ok starved
  unfolding retry after_interrupt
  retry_ends [] timeout p r = elim r [ ]
  retry_ends (a ∷ attempts) timeout p r =
      settle-cases (λ x. x.0 ≢ ok starved) (poll (some timeout) a.before a.after p) _
        (retry attempts) (λ evs q. ground arith) (λ x q. ground arith) (λ q. ground arith)
        (λ q. elim (Bool-cases (leb timeout a.elapsed)) [
          | inl over ↦ rw over (ground arith)
          | inr early ↦ elim r [
            | inl now ↦ absurd (ground arith)
            | inr later ↦ rw early (
                retry_ends attempts (timeout - a.elapsed) q
                  (Reaches-earlier (timeout - a.elapsed) timeout attempts (omega arith) later))
          ]
        ])

  -- Interrupted at `a` and at `b` after the start, the third wait is for `timeout - a - b`, not for
  -- the `timeout - b` that are left: the elapsed time is counted anew from the start each time.
  pub retry_twice :
      (x y : Attempt) (rest : List Attempt) (timeout : ℕ) (p q r : Poll P)
      → poll (some timeout) x.before x.after p ≡ (err (io_error interrupted), q)
      → poll (some (timeout - x.elapsed)) y.before y.after q ≡ (err (io_error interrupted), r)
      → x.elapsed + y.elapsed < timeout
      → retry (x ∷ y ∷ rest) (some timeout) p
        ≡ retry rest (some (timeout - x.elapsed - y.elapsed)) r
  unfolding retry after_interrupt
  retry_twice x y rest timeout p q r h k lt =
      let early : leb timeout x.elapsed ≡ false = ground arith in
      let late : leb (timeout - x.elapsed) y.elapsed ≡ false = ground arith in
      rw (h, early, k, late) refl
