-- ===== src/Async/Wakeups.antt =====
-- That a future of the adapter of io.rs which waits is woken by an event, and finds it.
use calloop.Common.{
  ℕ, ◌≡◌, refl, ap, Option, none, some, List, [], ◌∷◌, ◌++◌, Bool, true, false, ◌||◌, set,
  get_elem?, get_elem?-lt, get_elem?-set_self, arith,
}
use mathlib.Core.List.{append-nil}
use calloop.Error.{Error, Result, ok, err, panicked, bind_result, attempt_result, attempt, ◌>>=◌}
use calloop.Token.{Token}
use calloop.Sys.{Interest, interest_read, interest_write, Mode, Readiness, readiness_empty, Poller}
use calloop.Sys
use calloop.PostAction.{PostAction}
use calloop.Async.{
  IoDispatcher, IoLoop, TaskPoll, ready, pending, found, on_poll, borrow, modify, token_of, settle,
  reregister,
}
use calloop.Async.Adapter.{
  take_readiness, wake, process_events, register_waker, wait_unless, poll_readable,
}

-- Whom an event wakes.
abbrev pub woken_by : {W : Type 0} → Option W → List W
woken_by none = []
woken_by (some w) = w ∷ []

module _ {P K W X : Type 0} where
  pub borrow_at :
      (id : ℕ) (l : IoLoop P K W X) (d : IoDispatcher W)
      → get_elem? l.cells id ≡ some d
      → borrow id l ≡ (ok d, l)
  unfolding borrow found
  borrow_at id l d e = ap (λ o. found o l) e

  pub modify_at :
      (id : ℕ) (f : IoDispatcher W → IoDispatcher W) (l : IoLoop P K W X) (d : IoDispatcher W)
      → get_elem? l.cells id ≡ some d
      → modify id f l ≡ (ok tt, record l { cells = set l.cells id (f d) })
  unfolding modify
  modify_at id f l d e =
      ap
        (λ r.
          bind_result r
            (λ d (l : IoLoop P K W X). (ok tt, record l { cells = set l.cells id (f d) })))
        (borrow_at id l d e)

  -- The dispatcher in the cell `id` is so.
  pub record HasCell (Q : IoDispatcher W → Type 0) (id : ℕ) (l : IoLoop P K W X) : Type 0 where
    pub cell : IoDispatcher W
    pub at : get_elem? l.cells id ≡ some cell
    pub holds : Q cell

  modify-HasCell :
      (Q : IoDispatcher W → Type 0) (id : ℕ) (f : IoDispatcher W → IoDispatcher W)
      (l : IoLoop P K W X) (d : IoDispatcher W)
      → get_elem? l.cells id ≡ some d
      → Q (f d)
      → HasCell Q id (modify id f l).1
  modify-HasCell Q id f l d e q = rw (modify_at id f l d e) (record {
    cell = f d;
    at = get_elem?-set_self l.cells id (f d) (get_elem?-lt l.cells id e);
    holds = q;
  })

  wake-woken :
      (o : Option W) (l : IoLoop P K W X)
      → wake o l ≡ (ok tt, record l { woken = l.woken ++ woken_by o })
  unfolding wake
  wake-woken none l = rw append-nil refl
  wake-woken (some w) l = refl

  -- An event notes its readiness, takes the waker out of the dispatcher and wakes it.
  pub process_events-at :
      (id : ℕ) (readiness : Readiness) (l : IoLoop P K W X) (d : IoDispatcher W)
      → get_elem? l.cells id ≡ some d
      → process_events id readiness l ≡ (
        ok PostAction.continue,
        record l {
          cells = set l.cells id (record d { last_readiness = readiness; waker = none });
          woken = l.woken ++ woken_by d.waker;
        },
      )
  unfolding process_events
  process_events-at id readiness l d e =
      rw (borrow_at id l d e, modify_at id _ l d e, wake-woken d.waker) refl

  take_readiness_at :
      (id : ℕ) (l : IoLoop P K W X) (d : IoDispatcher W)
      → get_elem? l.cells id ≡ some d
      → take_readiness id l ≡ (
        ok d.last_readiness,
        record l { cells = set l.cells id (record d { last_readiness = readiness_empty }) },
      )
  unfolding take_readiness
  take_readiness_at id l d e = rw (borrow_at id l d e, modify_at id _ l d e) refl

  module _ ⦃o : Poller P⦄ where
    settle-HasCell :
        (Q : IoDispatcher W → Type 0) (id : ℕ) (r : Result Error (Unit {0})) (l : IoLoop P K W X)
        → ((d : IoDispatcher W) → Q d → Q (record d { is_registered = true }))
        → HasCell Q id l
        → HasCell Q id (bind_result (attempt_result r, l) (settle id)).1
    unfolding settle
    settle-HasCell Q id (ok _) l keep h = modify-HasCell Q id _ l h.cell h.at (keep h.cell h.holds)
    settle-HasCell Q id (err x) l keep h = h
    settle-HasCell Q id panicked l keep h = h

    reregistered-HasCell :
        (Q : IoDispatcher W → Type 0) (id : ℕ) (d : IoDispatcher W) (t : Option Token)
        (l : IoLoop P K W X)
        → ((d : IoDispatcher W) → Q d → Q (record d { is_registered = true }))
        → HasCell Q id l
        → HasCell Q id
            (bind_result {B = Unit {0}} (found t l) (λ t.
              attempt (on_poll (Sys.reregister d.fd d.interest Mode.one_shot t)) >>= settle id)).1
    unfolding found on_poll
    reregistered-HasCell Q id d none l keep h = h
    reregistered-HasCell Q id d (some t) l keep h =
        let r = on_poll (Sys.reregister d.fd d.interest Mode.one_shot t) l in
        settle-HasCell Q id r.0 r.1 keep (record { cell = h.cell; at = h.at; holds = h.holds })

    reregister-HasCell :
        (Q : IoDispatcher W → Type 0) (id : ℕ) (l : IoLoop P K W X)
        → ((d : IoDispatcher W) → Q d → Q (record d { is_registered = true }))
        → HasCell Q id l
        → HasCell Q id (reregister id l).1
    unfolding reregister token_of
    reregister-HasCell Q id l keep h =
        rw (borrow_at id l h.cell h.at) (reregistered-HasCell Q id h.cell h.cell.token l keep h)

    -- Whether or not the registration succeeds, the waker waits in the dispatcher.
    register_waker-HasCell :
        (id : ℕ) (interest : Interest) (w : W) (l : IoLoop P K W X) (d : IoDispatcher W)
        → get_elem? l.cells id ≡ some d
        → HasCell (λ d. d.waker ≡ some w) id (register_waker id interest w l).1
    unfolding register_waker
    register_waker-HasCell id interest w l d e = rw (modify_at id _ l d e) (
        reregister-HasCell (λ d. d.waker ≡ some w) id
          (record l { cells = set l.cells id (record d { interest = interest; waker = some w }) })
          (λ d q. q)
          (record {
            cell = record d { interest = interest; waker = some w };
            at = get_elem?-set_self l.cells id _ (get_elem?-lt l.cells id e);
            holds = refl;
          }))

    waited-HasCell :
        (id : ℕ) (w : W) (r : Result Error (Unit {0}) × IoLoop P K W X)
        → HasCell (λ d. d.waker ≡ some w) id r.1
        → HasCell
            (λ d. d.waker ≡ some w)
            id
            (bind_result {B = TaskPoll (Unit {0})}
              (attempt_result r.0, r.1)
              (λ _ l. (ok pending, l))).1
    waited-HasCell id w (ok _, l) h = h
    waited-HasCell id w (err x, l) h = h
    waited-HasCell id w (panicked, l) h = h

    wait_unless-HasCell :
        (id : ℕ) (interest : Interest) (w : W) (b : Bool) (l : IoLoop P K W X) (d : IoDispatcher W)
        → get_elem? l.cells id ≡ some d
        → (wait_unless id interest w b l).0 ≡ ok pending
        → HasCell (λ d. d.waker ≡ some w) id (wait_unless id interest w b l).1
    unfolding wait_unless
    wait_unless-HasCell id interest w true l d e p = absurd (ground arith)
    wait_unless-HasCell id interest w false l d e p =
        waited-HasCell id w (register_waker id interest w l)
          (register_waker-HasCell id interest w l d e)

    -- The state after `take_readiness`.
    abbrev taken : ℕ → IoDispatcher W → IoLoop P K W X → IoLoop P K W X
    taken id d l = record l {
      cells = set l.cells id (record d { last_readiness = readiness_empty });
    }

    poll_readable-HasCell :
        (id : ℕ) (w : W) (l : IoLoop P K W X) (d : IoDispatcher W)
        → get_elem? l.cells id ≡ some d
        → (poll_readable id w l).0 ≡ ok pending
        → HasCell (λ d. d.waker ≡ some w) id (poll_readable id w l).1
    unfolding poll_readable
    poll_readable-HasCell id w l d e p = rw (take_readiness_at id l d e) (
        wait_unless-HasCell id interest_read w (d.last_readiness.readable || d.last_readiness.error)
          (taken id d l) (record d { last_readiness = readiness_empty })
          (get_elem?-set_self l.cells id _ (get_elem?-lt l.cells id e))
          (rw (take_readiness_at id l d e) at p))

    poll_readable-ready :
        (id : ℕ) (w : W) (l : IoLoop P K W X) (d : IoDispatcher W)
        → get_elem? l.cells id ≡ some d
        → (d.last_readiness.readable || d.last_readiness.error) ≡ true
        → poll_readable id w l ≡ (ok (ready tt), taken id d l)
    unfolding poll_readable wait_unless
    poll_readable-ready id w l d e b = rw (take_readiness_at id l d e, b) refl

    poll_readable-waits :
        (id : ℕ) (w : W) (l : IoLoop P K W X) (d : IoDispatcher W)
        → get_elem? l.cells id ≡ some d
        → (d.last_readiness.readable || d.last_readiness.error) ≡ false
        → HasCell (λ d. d.waker ≡ some w) id (poll_readable id w l).1
    unfolding poll_readable wait_unless
    poll_readable-waits id w l d e b =
        rw (take_readiness_at id l d e, b)
          (waited-HasCell id w (register_waker id interest_read w (taken id d l)) (
            register_waker-HasCell id interest_read w (taken id d l)
              (record d { last_readiness = readiness_empty })
              (get_elem?-set_self l.cells id _ (get_elem?-lt l.cells id e))))

    -- How the poll behind an event ends, by whether the event was of use: the future is over, and the
    -- readiness used up; or its new waker waits in the dispatcher.
    abbrev pub Repolled :
        Bool → ℕ → W → Result Error (TaskPoll (Unit {0})) × IoLoop P K W X → Type 0
    Repolled true id w r =
        (r.0 ≡ ok (ready tt))
        × HasCell (λ d. (d.last_readiness ≡ readiness_empty) × (d.waker ≡ none)) id r.1
    Repolled false id w r = HasCell (λ d. d.waker ≡ some w) id r.1

    repoll :
        (id : ℕ) (w : W) (l : IoLoop P K W X) (d : IoDispatcher W) (b : Bool)
        → get_elem? l.cells id ≡ some d
        → d.waker ≡ none
        → (d.last_readiness.readable || d.last_readiness.error) ≡ b
        → Repolled b id w (poll_readable id w l)
    repoll id w l d true e n b = rw (poll_readable-ready id w l d e b) (
      refl,
      record {
        cell = record d { last_readiness = readiness_empty };
        at = get_elem?-set_self l.cells id _ (get_elem?-lt l.cells id e);
        holds = (refl, n);
      },
    )
    repoll id w l d false e n b = poll_readable-waits id w l d e b

    -- A future that waits for a file to be readable, whose registration may even have failed: the next
    -- event of its dispatcher, of use or not, wakes its waker, once. If the event was of use, the future
    -- is over when it is polled then, which uses the readiness up; if not, the waker of that poll waits.
    pub readable_woken :
        (id : ℕ) (w w' : W) (l : IoLoop P K W X) (d : IoDispatcher W) (r : Readiness)
        → get_elem? l.cells id ≡ some d
        → (poll_readable id w l).0 ≡ ok pending
        → let waiting = (poll_readable id w l).1 in
          let event = process_events id r waiting in
          (event.0 ≡ ok PostAction.continue)
          × (event.1.woken ≡ waiting.woken ++ w ∷ [])
          × Repolled (r.readable || r.error) id w' (poll_readable id w' event.1)
    readable_woken id w w' l d r e p =
        let h = poll_readable-HasCell id w l d e p in
        let waiting = (poll_readable id w l).1 in
        let after : IoDispatcher W = record (h.cell) { last_readiness = r; waker = none } in
        let at = get_elem?-set_self waiting.cells id after (get_elem?-lt waiting.cells id h.at) in
        let event = process_events-at id r waiting h.cell h.at in
        let l' : IoLoop P K W X = record waiting {
          cells = set waiting.cells id after;
          woken = waiting.woken ++ woken_by h.cell.waker;
        } in
        (
          rw event refl,
          rw (event, h.holds) refl,
          rw event (repoll id w' l' after (r.readable || r.error) at refl refl),
        )
