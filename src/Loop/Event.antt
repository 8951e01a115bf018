-- ===== src/Loop/Event.antt =====
-- One event of `dispatch_events` in loop_logic.rs: its source's callback, and what the callback
-- asked the loop to do.
use calloop.Common.{ℕ, Option, none, some, true, get_elem?, set, if◌then◌else◌}
use calloop.Error.{
  Boxed, Error, other_error, map_err_result, Result, ok, err, panicked, M, pure, ◌>>=◌, ◌>>◌, zoom,
  attempt,
}
use calloop.Token.{TokenInner, forget_sub_id}
use calloop.Sys.{PollEvent}
use calloop.PostAction.{PostAction}
use calloop.SourceList.{SourceList, SourceEntry, get, get_mut}
use calloop.Sources.{EventSource}
use calloop.Dispatcher.{DispatcherCell, reregister, unregister}
use calloop.Loop.{LoopInner, EventLoop, on_dispatcher}
use calloop.Loop.Program.{UserCode, run}

-- The dispatcher that `get` finds in a slot, if the slot is not vacant.
abbrev pub found : Result Error (SourceEntry ℕ) → Option ℕ
found (ok e) = e.source
found _ = none

-- The user's pending action overwrites `Continue`, and nothing else.
abbrev pub combine_pending : PostAction → PostAction → PostAction
combine_pending PostAction.continue pending = pending
combine_pending ret pending = ret

module _ {P S I : Type 0} where
  -- `sources.get(token).ok().and_then(|entry| entry.source.clone())`.
  unfoldable pub find_dispatcher : TokenInner → M Error (LoopInner P S I) (Option ℕ)
  find_dispatcher t l = (ok (found (get l.sources t)), l)

  -- `pending_action.replace(PostAction::Continue)`.
  unfoldable pub take_pending : M Error (LoopInner P S I) PostAction
  take_pending l = (ok l.pending_action, record l { pending_action = PostAction.continue })

  -- `if let Ok(entry) = sources.get_mut(reg_token) { entry.source = None; }`.
  unfoldable pub clear_slot :
      Result Error (SourceEntry ℕ × (SourceEntry ℕ → SourceList ℕ))
      → M Error (LoopInner P S I) (Unit {0})
  clear_slot (ok (entry, put)) l =
      (ok tt, record l { sources = put (record entry { source = none }) })
  clear_slot _ l = (ok tt, l)

  unfoldable pub vacate : TokenInner → M Error (LoopInner P S I) (Unit {0})
  unfolding clear_slot
  vacate t l = clear_slot (get_mut l.sources t) l

  -- The `RefCell` of a dispatcher, at the start and at the end of a mutable borrow.
  unfoldable pub set_cell : ℕ → DispatcherCell S → LoopInner P S I → LoopInner P S I
  set_cell id cell l = record l { dispatchers = set l.dispatchers id cell }

module _ {P S I : Type 0} ⦃e : EventSource P S⦄ where
  unfoldable pub apply_action : TokenInner → ℕ → PostAction → M Error (LoopInner P S I) (Unit {0})
  apply_action t id PostAction.reregister = do on_dispatcher id t reregister; pure tt
  apply_action t id PostAction.disable = do
    on_dispatcher id t (unregister (record { inner = t }))
    pure tt
  apply_action t id PostAction.remove = vacate t
  apply_action t id PostAction.continue = pure tt

  -- A source that was removed within its callback is unregistered now; an error is logged.
  unfoldable pub sweep : TokenInner → ℕ → Option ℕ → M Error (LoopInner P S I) (Unit {0})
  sweep t id (some _) = pure tt
  sweep t id none = do attempt (on_dispatcher id t (unregister (record { inner = t }))); pure tt

module _ {P S I X : Type 0} where
  abbrev pub on_inner : {A : Type 0} → M Error (LoopInner P S I) A → M Error (EventLoop P S I X) A
  on_inner = zoom (λ l. l.inner) (λ i l. record l { inner = i })

module _ {P S I X : Type 0} ⦃e : EventSource P S⦄ ⦃u : UserCode P S I X⦄ where
  -- The callback's program has ended: the borrow ends, with the source as the callback left it.
  -- After a panic the source stays as it was.
  unfoldable pub finish :
      ℕ
      → DispatcherCell S
      → EventLoop P S I X
      → Result Error (Result Boxed PostAction × S × X) × LoopInner P S I
      → Result Error PostAction × EventLoop P S I X
  unfolding set_cell
  finish id cell l (ok (r, s, x), inner) =
      let back = record cell { inner = record (cell.inner) { source = s } } in
      (map_err_result other_error r, record l { inner = set_cell id back inner; user = x })
  finish id cell l (err x, inner) = (err x, record l { inner = set_cell id cell inner })
  finish id cell l (panicked, inner) = (panicked, record l { inner = set_cell id cell inner })

  unfoldable pub call_cell :
      PollEvent
      → ℕ
      → Option (DispatcherCell S)
      → EventLoop P S I X
      → Result Error PostAction × EventLoop P S I X
  unfolding finish set_cell
  call_cell ev id none l = (panicked, l)
  call_cell ev id (some cell) l =
      if cell.borrowed
      then (panicked, l)
      else finish id cell l (
          run (u.process_events ev.readiness ev.token cell.inner.source l.user)
            (set_cell id (record cell { borrowed = true }) l.inner))

  -- `disp.process_events(event.readiness, event.token, data)`.
  unfoldable pub call_source : PollEvent → ℕ → M Error (EventLoop P S I X) PostAction
  unfolding call_cell
  call_source ev id l = call_cell ev id (get_elem? l.inner.dispatchers id) l

  unfoldable pub dispatch_to :
      PollEvent → TokenInner → Option ℕ → M Error (EventLoop P S I X) (Unit {0})
  unfolding sweep
  dispatch_to ev t none = pure tt
  dispatch_to ev t (some id) = do
    ret ← call_source ev id
    pending ← on_inner take_pending
    on_inner (apply_action t id (combine_pending ret pending))
    left ← on_inner (find_dispatcher t)
    on_inner (sweep t id left)

  -- The body of the loop over the events; an event of no source is logged.
  unfoldable pub dispatch_event : PollEvent → M Error (EventLoop P S I X) (Unit {0})
  unfolding dispatch_to
  dispatch_event ev = do
    let t = forget_sub_id ev.token.inner
    found ← on_inner (find_dispatcher t)
    dispatch_to ev t found
