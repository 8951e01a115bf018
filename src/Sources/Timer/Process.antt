-- ===== src/Sources/Timer/Process.antt =====
-- What `process_events` of a timer, in sources/timer.rs, does to the wheel.
use calloop.Common.{
  subst, ◌+◌, leb, if◌then◌else◌, Option, ℕ, ◌≡◌, ◌≢◌, ◌<◌, refl, none, some, List, true, false,
  arith, All, ◌⊎◌, inl, inr, Option-cases,
}
use calloop.Token.{Token, token_eq}
use calloop.Wheel.{TimerWheel, TimeoutData, insert_reuse}
use calloop.Wheel.Cancel.{IsValid, HasDistinct}
use calloop.PostAction.{PostAction, continue, remove}
use calloop.Sources.Timer.{
  Registration, TimeoutAction, drop, to_instant, to_duration, Running, process_events, checked_add,
}

-- No entry of the wheel has the counter.
abbrev pub IsAbsent : ℕ → List TimeoutData → Type 0
IsAbsent counter = All (λ e. counter ≢ e.counter)

-- The deadline that an answer of the callback asks for, at the time `now`, if there is one.
abbrev pub asked : ℕ → ℕ → TimeoutAction → Option ℕ
asked limit now drop = none
asked limit now (to_instant i) = some i
asked limit now (to_duration d) = if leb (now + d) limit then some (now + d) else none

-- What becomes of a timer, its wheel and its source, when the deadline `next` is asked for.
pub data Rescheduled {C : Type 0} (r : Registration) (s s' : Running C) (a : PostAction)
    (next : Option ℕ) : Type 0 where
  kept :
      (d : ℕ)
      → next ≡ some d
      → a ≡ continue
      → s'.timer ≡ record (s.timer) { deadline = some d }
      → s'.wheel ≡ insert_reuse r.counter d r.token s.wheel
      → IsValid s'.wheel
      → Rescheduled r s s' a next
  dropped :
      next ≡ none
      → a ≡ remove
      → s'.wheel ≡ s.wheel
      → s'.timer.registration ≡ s.timer.registration
      → Rescheduled r s s' a next

insert_reuse-IsValid :
    (w : TimerWheel) (r : Registration) (d : ℕ)
    → IsValid w
    → r.counter < w.counter
    → IsAbsent r.counter w.heap
    → IsValid (insert_reuse r.counter d r.token w)
unfolding insert_reuse
insert_reuse-IsValid w r d v below absent = record {
  distinct = (absent, v.distinct);
  below = (below, v.below);
  counter_u32 = v.counter_u32;
}

module _ {C : Type 0} (limit now : ℕ) (t : Token) (callback : ℕ → C → TimeoutAction × C) where
  -- The callback's answer gives no new deadline, or one.
  answers :
      (x : TimeoutAction × C)
      → ((x.0 ≡ drop) ⊎ ((d : ℕ) × (x.0 ≡ to_duration d) × (checked_add limit now d ≡ none)))
        ⊎ ((i : ℕ) × ((x.0 ≡ to_instant i)
              ⊎ ((d : ℕ) × (x.0 ≡ to_duration d) × (checked_add limit now d ≡ some i))))
  answers (drop, c) = inl (inl refl)
  answers (to_instant i, c) = inr (i, inl refl)
  answers (to_duration d, c) = elim (Option-cases (checked_add limit now d)) [
    | inl e ↦ inl (inr (d, refl, e))
    | inr (i, e) ↦ inr (i, inr (d, refl, e))
  ]

  -- A timer that fires, its entry being out of a valid wheel: if the callback's answer gives a new
  -- deadline that can be represented, the timer is put back under its counter and token at that deadline,
  -- with the wheel still valid and the source kept; if not, the source is to be removed, with the wheel
  -- unchanged.
  pub process_events-Rescheduled :
      (s : Running C) (r : Registration) (deadline : ℕ)
      → s.timer.registration ≡ some r
      → s.timer.deadline ≡ some deadline
      → token_eq r.token.inner t.inner ≡ true
      → IsValid s.wheel
      → r.counter < s.wheel.counter
      → IsAbsent r.counter s.wheel.heap
      → Rescheduled r s
          (process_events limit now t callback s).1
          (process_events limit now t callback s).0
          (asked limit now (callback deadline s.captured).0)
  unfolding process_events checked_add
  process_events-Rescheduled s r deadline hr hd ht v below absent =
      elim (answers (callback deadline s.captured)) [
        | inl (inl e) ↦ dropped (ground arith) (ground arith) (ground arith) (ground arith)
        | inl (inr (d, e, f)) ↦ dropped (ground arith) (ground arith) (ground arith) (ground arith)
        | inr (i, inl e) ↦
            let w = insert_reuse-IsValid s.wheel r i v below absent in
            kept i (ground arith) (ground arith) (ground arith) (ground arith)
              (subst IsValid (ground arith) w)
        | inr (i, inr (d, e, f)) ↦
            let w = insert_reuse-IsValid s.wheel r i v below absent in
            kept i (ground arith) (ground arith) (ground arith) (ground arith)
              (subst IsValid (ground arith) w)
      ]

  -- An event that is not this timer's current one runs no callback and changes nothing.
  pub process_events_stale :
      (s : Running C)
      → ((r : Registration)
          → s.timer.registration ≡ some r
          → token_eq r.token.inner t.inner ≡ false)
      → process_events limit now t callback s ≡ (continue, s)
  unfolding process_events
  process_events_stale s h = elim (Option-cases s.timer.registration) [
    | inl e ↦ ground arith
    | inr (r, e) ↦ ground (arith, h r)
  ]

  -- If the wheel still holds the timer's entry when a late event of the timer is processed, as
  -- after a re-registration between the poll and the event, rescheduling makes a second entry with
  -- the same counter.
  pub process_events_duplicates :
      (s : Running C) (r : Registration) (deadline d : ℕ) (c' : C)
      → s.timer.registration ≡ some r
      → s.timer.deadline ≡ some deadline
      → token_eq r.token.inner t.inner ≡ true
      → ¬ IsAbsent r.counter s.wheel.heap
      → callback deadline s.captured ≡ (to_instant d, c')
      → ¬ HasDistinct (process_events limit now t callback s).1.wheel.heap
  unfolding process_events insert_reuse
  process_events_duplicates s r deadline d c' hr hd ht present hc distinct = present (ground arith)
