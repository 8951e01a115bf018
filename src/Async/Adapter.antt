-- ===== src/Async/Adapter.antt =====
-- io.rs: how an adapter is made and dropped, and how its futures and its dispatcher work.
use calloop.Common.{ℕ, Option, none, some, [], ◌∷◌, ◌++◌, Bool, true, false, ◌||◌, if◌then◌else◌}
use calloop.Error.{
  IoError, would_block, Error, io_error_from, Result, ok, err, panicked, M, pure, panic, ◌>>=◌,
  ◌>>◌, attempt,
}
use calloop.Token.{Token}
use calloop.Sys.{Interest, interest_read, interest_write, Readiness, readiness_empty, Poller}
use calloop.Sys
use calloop.PostAction.{PostAction}
use calloop.SourceList.{SourceEntry, SourceList, get_mut}
use calloop.Async.{
  Fcntl, SlotSource, IoLoop, Async, TaskPoll, ready, pending, on_poll, borrow, modify, token_of,
  set_nonblocking, new_dispatcher, claim_slot, register, reregister,
}

unfoldable pub registered : {A : Type 0} → Result Error (Unit {0}) → TaskPoll (Result IoError A)
registered (ok _) = pending
registered (err x) = ready (err (io_error_from x))
registered panicked = ready panicked

module _ {P K W X : Type 0} where
  -- `mem::replace(&mut self.last_readiness, Readiness::EMPTY)`.
  unfoldable pub take_readiness : ℕ → M Error (IoLoop P K W X) Readiness
  unfolding borrow modify
  take_readiness id = do
    d ← borrow id
    modify id λ d. record d { last_readiness = readiness_empty }
    pure d.last_readiness

  unfoldable pub wake : Option W → M Error (IoLoop P K W X) (Unit {0})
  wake none l = (ok tt, l)
  wake (some waker) l = (ok tt, record l { woken = l.woken ++ waker ∷ [] })

  -- `EventDispatcher::process_events` of the dispatcher.
  unfoldable pub process_events : ℕ → Readiness → M Error (IoLoop P K W X) PostAction
  unfolding borrow modify wake
  process_events id readiness = do
    d ← borrow id
    modify id λ d. record d { last_readiness = readiness; waker = none }
    wake d.waker
    pure PostAction.continue

  unfoldable pub vacate :
      Result Error
        (SourceEntry (SlotSource X) × (SourceEntry (SlotSource X) → SourceList (SlotSource X)))
      → M Error (IoLoop P K W X) (Unit {0})
  vacate (ok (e, put)) l = (ok tt, record l { sources = put (record e { source = none }) })
  vacate (err x) l = (ok tt, l)
  vacate panicked l = (panicked, l)

  -- `if let Ok(slot) = self.sources.borrow_mut().get_mut(token.inner) { slot.source = None; }`.
  unfoldable pub clear_slot : Token → M Error (IoLoop P K W X) (Unit {0})
  unfolding vacate
  clear_slot t l = vacate (get_mut l.sources t.inner) l

  module _ ⦃o : Poller P⦄ where
    unfoldable pub note_gone : ℕ → Result Error (Unit {0}) → M Error (IoLoop P K W X) (Unit {0})
    unfolding modify
    note_gone id (ok _) = modify id λ d. record d { is_registered = false }
    note_gone id _ = pure tt

    unfoldable pub forget : ℕ → ℕ → Bool → M Error (IoLoop P K W X) (Unit {0})
    unfolding note_gone on_poll
    forget id fd registered =
        if registered then attempt (on_poll (Sys.unregister fd)) >>= note_gone id else pure tt

    -- `IoLoopInner::kill`.
    unfoldable pub kill : ℕ → M Error (IoLoop P K W X) (Unit {0})
    unfolding borrow token_of forget clear_slot
    kill id = do d ← borrow id; t ← token_of d; forget id d.fd d.is_registered; clear_slot t

    -- `EventDispatcher::unregister` of the dispatcher.
    unfoldable pub unregister : ℕ → M Error (IoLoop P K W X) Bool
    unfolding borrow on_poll
    unregister id = do
      d ← borrow id
      if d.is_registered then on_poll (Sys.unregister d.fd) else pure tt
      pure true

    -- `Async::register_waker`.
    unfoldable pub register_waker : ℕ → Interest → W → M Error (IoLoop P K W X) (Unit {0})
    unfolding modify
    register_waker id interest waker = do
      modify id λ d. record d { interest = interest; waker = some waker }
      reregister id

    -- A future that waits for a readiness: `r.readable || r.error`, or `r.writable || r.error`. That the
    -- registration fails is not looked at.
    unfoldable pub wait_unless :
        ℕ → Interest → W → Bool → M Error (IoLoop P K W X) (TaskPoll (Unit {0}))
    wait_unless id interest waker true = pure (ready tt)
    wait_unless id interest waker false = do
      attempt (register_waker id interest waker)
      pure pending

    -- `Readable::poll`.
    unfoldable pub poll_readable : ℕ → W → M Error (IoLoop P K W X) (TaskPoll (Unit {0}))
    unfolding wait_unless
    poll_readable id waker = do
      r ← take_readiness id
      wait_unless id interest_read waker (r.readable || r.error)

    -- `Writable::poll`.
    unfoldable pub poll_writable : ℕ → W → M Error (IoLoop P K W X) (TaskPoll (Unit {0}))
    unfolding wait_unless
    poll_writable id waker = do
      r ← take_readiness id
      wait_unless id interest_write waker (r.writable || r.error)

    -- `poll_read`, `poll_write` and their like, after the file's operation has answered; `?` turns the
    -- error of the registration into one of IO.
    unfoldable pub poll_io :
        {A : Type 0}
        → ℕ
        → Interest
        → W
        → Result IoError A
        → M Error (IoLoop P K W X) (TaskPoll (Result IoError A))
    unfolding registered
    poll_io id interest waker (err would_block) = do
      result ← attempt (register_waker id interest waker)
      pure (registered result)
    poll_io id interest waker (ok a) = pure (ready (ok a))
    poll_io id interest waker (err x) = pure (ready (err x))
    poll_io id interest waker panicked = panic

    module _ ⦃f : Fcntl K⦄ where
      -- `Async::new`; on an early return by `?` no `Async` is there to be dropped.
      unfoldable pub new : ℕ → M Error (IoLoop P K W X) Async
      new fd = do
        was_nonblocking ← set_nonblocking fd true
        id ← new_dispatcher fd
        claim_slot id
        register id
        pure (record { fd = fd; dispatcher = id; was_nonblocking = was_nonblocking })

      -- `Drop for Async`; `into_inner` does the same and gives the file back.
      unfoldable pub drop_async : Async → M Error (IoLoop P K W X) (Unit {0})
      unfolding borrow
      drop_async a = do
        kill a.dispatcher
        d ← borrow a.dispatcher
        attempt (set_nonblocking d.fd a.was_nonblocking)
        pure tt
