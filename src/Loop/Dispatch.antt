-- ===== src/Loop/Dispatch.antt =====
-- `dispatch_events`, `dispatch_idles` and `run` of loop_logic.rs.
use calloop.Common.{
  ℕ, Option, none, some, List, [], ◌∷◌, ◌++◌, true, false, get_elem?, set, if◌then◌else◌,
}
use calloop.Error.{Error, Result, ok, err, panicked, M, pure, panic, ◌>>=◌, ◌>>◌}
use calloop.Token.{Token, RegistrationToken, same_source_as}
use calloop.Sys.{PollEvent, Readiness}
use calloop.Sources.{EventSource}
use calloop.Dispatcher.{DispatcherCell}
use calloop.Loop.{IdleCell, LoopInner, EventLoop}
use calloop.Loop.Program.{UserCode, run}
use calloop.Loop.Event.{find_dispatcher, on_inner, dispatch_event}

-- `EventIterator`: the events of one source, in order.
unfoldable pub events_of : RegistrationToken → List PollEvent → List (Readiness × Token)
events_of t [] = []
events_of t (ev ∷ evs) =
    if same_source_as ev.token.inner t.inner
    then (ev.readiness, ev.token) ∷ events_of t evs
    else events_of t evs

module _ {P S I : Type 0} where
  -- `self.borrow_mut()` for the time of the call of `m`, which works on the source.
  unfoldable pub on_cell :
      {A : Type 0}
      → M Error S A
      → ℕ
      → Option (DispatcherCell S)
      → LoopInner P S I
      → Result Error A × LoopInner P S I
  on_cell m id none l = (panicked, l)
  on_cell m id (some cell) l =
      if cell.borrowed
      then (panicked, l)
      else let (r, s) = m cell.inner.source in
        (
          r,
          record l {
            dispatchers =
                set l.dispatchers id (record cell { inner = record (cell.inner) { source = s } });
          },
        )

  unfoldable pub with_source : {A : Type 0} → ℕ → M Error S A → M Error (LoopInner P S I) A
  unfolding on_cell
  with_source id m l = on_cell m id (get_elem? l.dispatchers id) l

  -- A lifecycle token must have a source, or the loop panics (`unreachable!()`).
  unfoldable pub at_source : {A : Type 0} → M Error S A → Option ℕ → M Error (LoopInner P S I) A
  at_source m none = panic
  at_source m (some id) = with_source id m

module _ {P S I X : Type 0} ⦃e : EventSource P S⦄ ⦃u : UserCode P S I X⦄ where
  unfoldable pub note_synthetic :
      Option (Readiness × Token) → Option ℕ → M Error (EventLoop P S I X) (Option ℕ)
  note_synthetic none timeout l = (ok timeout, l)
  note_synthetic (some (readiness, token)) timeout l = (
    ok (some 0),
    record l {
      synthetic_events = l.synthetic_events ++ record { readiness = readiness; token = token } ∷ [];
    },
  )

  -- The first block of `dispatch_events`: the timeout to poll with, once all sources were notified.
  unfoldable pub before_sleep :
      List RegistrationToken → Option ℕ → M Error (EventLoop P S I X) (Option ℕ)
  unfolding note_synthetic at_source
  before_sleep [] timeout = pure timeout
  before_sleep (t ∷ ts) timeout = do
    source ← on_inner (find_dispatcher t.inner)
    event ← on_inner (at_source u.before_sleep source)
    timeout' ← note_synthetic event timeout
    before_sleep ts timeout'

  -- The third block: each source sees its events, but no synthetic ones.
  unfoldable pub before_handle_events :
      List RegistrationToken → List PollEvent → M Error (EventLoop P S I X) (Unit {0})
  unfolding at_source
  before_handle_events [] events = pure tt
  before_handle_events (t ∷ ts) events = do
    source ← on_inner (find_dispatcher t.inner)
    on_inner (at_source (λ s. (ok tt, u.before_handle_events (events_of t events) s)) source)
    before_handle_events ts events

  unfoldable pub handle_events : List PollEvent → M Error (EventLoop P S I X) (Unit {0})
  handle_events [] = pure tt
  handle_events (ev ∷ evs) = do dispatch_event ev; handle_events evs

  -- `self.synthetic_events.drain(..)`: the buffer is empty afterwards, also if the loop breaks off.
  unfoldable pub drain_synthetic : M Error (EventLoop P S I X) (List PollEvent)
  drain_synthetic l = (ok l.synthetic_events, record l { synthetic_events = [] })

  unfoldable pub set_idle : ℕ → IdleCell I → EventLoop P S I X → EventLoop P S I X
  set_idle id cell l = record l {
    inner = record (l.inner) { idle_cells = set l.inner.idle_cells id cell };
  }

  -- The borrow of the cell ends with the callback, also when that panics.
  unfoldable pub called :
      ℕ
      → Result Error X × LoopInner P S I
      → EventLoop P S I X
      → Result Error (Unit {0}) × EventLoop P S I X
  unfolding set_idle
  called id (ok x, inner) l = (
    ok tt,
    set_idle id (record { callback = some none; borrowed = false })
        (record l { inner = inner; user = x }),
  )
  called id (err x, inner) l = (
    err x,
    set_idle id (record { callback = some none; borrowed = false }) (record l { inner = inner }),
  )
  called id (panicked, inner) l = (
    panicked,
    set_idle id (record { callback = some none; borrowed = false }) (record l { inner = inner }),
  )

  unfoldable pub call_idle :
      ℕ → Option (Option I) → EventLoop P S I X → Result Error (Unit {0}) × EventLoop P S I X
  unfolding called set_idle
  call_idle id none l = (ok tt, l)
  call_idle id (some none) l = (ok tt, l)
  call_idle id (some (some callback)) l =
      let l' = set_idle id (record { callback = some none; borrowed = true }) l in
      called id (run (u.idle callback l'.user) l'.inner) l'

  unfoldable pub dispatch_idle :
      ℕ → Option (IdleCell I) → EventLoop P S I X → Result Error (Unit {0}) × EventLoop P S I X
  unfolding call_idle
  dispatch_idle id none l = (panicked, l)
  dispatch_idle id (some cell) l =
      if cell.borrowed then (panicked, l) else call_idle id cell.callback l

  unfoldable pub run_idles : List ℕ → M Error (EventLoop P S I X) (Unit {0})
  unfolding dispatch_idle
  run_idles [] = pure tt
  run_idles (id ∷ ids) =
      (λ l. dispatch_idle id (get_elem? l.inner.idle_cells id) l) >> run_idles ids

  -- `std::mem::take` leaves an empty list, into which the callbacks insert.
  unfoldable pub dispatch_idles : M Error (EventLoop P S I X) (Unit {0})
  unfolding run_idles
  dispatch_idles l = run_idles l.inner.idles (record l { inner = record (l.inner) { idles = [] } })
