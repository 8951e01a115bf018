-- ===== src/Loop/Invariant/Cycle.antt =====
-- A whole cycle of `dispatch` in loop_logic.rs keeps the loop sound, and ends every borrow.
use calloop.Common.{
  ℕ, ◌≡◌, refl, inl, inr, Option, none, some, List, [], ◌∷◌, ◌++◌, true, false, get_elem?, set, All,
  Bool-cases, if-false,
}
use calloop.Error.{Error, Result, ok, err, panicked, M}
use calloop.Token.{RegistrationToken, Token}
use calloop.Sys.{Poller, Readiness, PollEvent, Poll}
use calloop.Sources.{EventSource}
use calloop.Dispatcher.{DispatcherCell}
use calloop.Loop.{LoopInner, EventLoop, IdleCell}
use calloop.Loop.Program.{UserCode}
use calloop.Loop.Event.{find_dispatcher, on_inner, dispatch_event}
use calloop.Loop.Invariant.{IsSound, Kept, Keeps, Kept-refl, Kept-trans, borrows, Grown-free}
use calloop.Loop.Invariant.Handling.{pure-Keeps, same-Kept}
use calloop.Loop.Invariant.Calls.{run-Keeps}
use calloop.Loop.Dispatch.{
  on_cell, with_source, at_source, note_synthetic, before_sleep, before_handle_events,
  handle_events, drain_synthetic, set_idle, called, call_idle, dispatch_idle, run_idles,
  dispatch_idles,
}
use calloop.Loop.Cycle.{
  Attempt, Polled, retry, lifecycle_tokens, on_poll, after_poll, dispatch_events, dispatch, events,
  timed_out, starved,
}
use calloop.Loop.Invariant.Handling.{cell-Kept, then_same-Kept}
use calloop.Loop.Invariant.Dispatching.{
  KeepsLoop, KeepsLoop-bind, on_inner-KeepsLoop, same-KeepsLoop, dispatch_event-KeepsLoop,
  find_dispatcher-Keeps,
}

module _ {P S I : Type 0} where
  on_cell-Kept :
      {A : Type 0} (m : M Error S A) (id : ℕ) (o : Option (DispatcherCell S)) (l : LoopInner P S I)
      → get_elem? l.dispatchers id ≡ o
      → IsSound 0 l
      → Kept 0 l (on_cell m id o l).1
  unfolding on_cell
  on_cell-Kept m id none l q s = Kept-refl 0 l s
  on_cell-Kept m id (some c) l q s = elim (Bool-cases c.borrowed) [
    | inl taken ↦ rw taken (Kept-refl 0 l s)
    | inr free ↦
        if-false (λ (r : Result Error _ × LoopInner P S I). Kept 0 l r.1) c.borrowed (panicked, l) _
          free (cell-Kept 0 id l c _ q refl s)
  ]

  at_source-Keeps :
      {A : Type 0} (m : M Error S A) (o : Option ℕ)
      → Keeps {P = P} {S = S} {I = I} 0 (at_source m o)
  unfolding at_source with_source
  at_source-Keeps m none = pure-Keeps 0 panicked
  at_source-Keeps m (some id) = record { keeps = λ l s. on_cell-Kept m id _ l refl s }

module _ {P S I X : Type 0} where
  poll-KeepsLoop :
      {A : Type 0} (m : M Error (Poll P) A) → KeepsLoop {P = P} {S = S} {I = I} {X = X} (on_poll m)
  poll-KeepsLoop m = on_inner-KeepsLoop _ (record { keeps = λ l s. same-Kept 0 l _ refl refl s })

module _ {P S I X : Type 0} ⦃e : EventSource P S⦄ ⦃u : UserCode P S I X⦄ where
  note_synthetic-KeepsLoop :
      (o : Option (Readiness × Token)) (t : Option ℕ)
      → KeepsLoop {P = P} {S = S} {I = I} {X = X} (note_synthetic o t)
  unfolding note_synthetic
  note_synthetic-KeepsLoop none t = same-KeepsLoop (ok t)
  note_synthetic-KeepsLoop (some _) t = record { keeps = λ l s. Kept-refl 0 l.inner s }

  before_sleep-KeepsLoop :
      (ts : List RegistrationToken) (timeout : Option ℕ)
      → KeepsLoop {P = P} {S = S} {I = I} {X = X} (before_sleep ts timeout)
  unfolding before_sleep
  before_sleep-KeepsLoop [] timeout = same-KeepsLoop (ok timeout)
  before_sleep-KeepsLoop (t ∷ ts) timeout =
      KeepsLoop-bind (on_inner (find_dispatcher t.inner)) _
        (on_inner-KeepsLoop _ (find_dispatcher-Keeps t.inner))
        (λ source.
          KeepsLoop-bind (on_inner (at_source u.before_sleep source)) _
            (on_inner-KeepsLoop _ (at_source-Keeps u.before_sleep source))
            (λ event.
              KeepsLoop-bind (note_synthetic event timeout) (before_sleep ts)
                (note_synthetic-KeepsLoop event timeout) (before_sleep-KeepsLoop ts)))

  before_handle_events-KeepsLoop :
      (ts : List RegistrationToken) (evs : List PollEvent)
      → KeepsLoop {P = P} {S = S} {I = I} {X = X} (before_handle_events ts evs)
  unfolding before_handle_events
  before_handle_events-KeepsLoop [] evs = same-KeepsLoop (ok tt)
  before_handle_events-KeepsLoop (t ∷ ts) evs =
      KeepsLoop-bind (on_inner (find_dispatcher t.inner)) _
        (on_inner-KeepsLoop _ (find_dispatcher-Keeps t.inner))
        (λ source.
          KeepsLoop-bind (on_inner (at_source _ source)) _
            (on_inner-KeepsLoop _ (at_source-Keeps _ source))
            (λ _. before_handle_events-KeepsLoop ts evs))

  handle_events-KeepsLoop :
      (evs : List PollEvent) → KeepsLoop {P = P} {S = S} {I = I} {X = X} (handle_events evs)
  unfolding handle_events
  handle_events-KeepsLoop [] = same-KeepsLoop (ok tt)
  handle_events-KeepsLoop (ev ∷ evs) =
      KeepsLoop-bind (dispatch_event ev) _ (dispatch_event-KeepsLoop ev)
        (λ _. handle_events-KeepsLoop evs)

  called-Kept :
      (id : ℕ) (l l' : EventLoop P S I X) (r : Result Error X × LoopInner P S I)
      → Kept 0 l.inner r.1
      → Kept 0 l.inner (called id r l').1.inner
  unfolding called set_idle
  called-Kept id l l' (ok x, m) h = then_same-Kept 0 l.inner m _ refl refl h
  called-Kept id l l' (err x, m) h = then_same-Kept 0 l.inner m _ refl refl h
  called-Kept id l l' (panicked, m) h = then_same-Kept 0 l.inner m _ refl refl h

  call_idle-Kept :
      (id : ℕ) (o : Option (Option I)) (l : EventLoop P S I X)
      → IsSound 0 l.inner
      → Kept 0 l.inner (call_idle id o l).1.inner
  unfolding call_idle set_idle
  call_idle-Kept id none l s = Kept-refl 0 l.inner s
  call_idle-Kept id (some none) l s = Kept-refl 0 l.inner s
  call_idle-Kept id (some (some callback)) l s =
      let h =
        same-Kept 0 l.inner
          (record (l.inner) {
            idle_cells =
                set l.inner.idle_cells id (record { callback = some none; borrowed = true });
          })
          refl refl s in
      called-Kept id l _ _
        (Kept-trans 0 l.inner _ _ h ((run-Keeps (u.idle callback l.user)).keeps _ h.sound))

  dispatch_idle-Kept :
      (id : ℕ) (o : Option (IdleCell I)) (l : EventLoop P S I X)
      → IsSound 0 l.inner
      → Kept 0 l.inner (dispatch_idle id o l).1.inner
  unfolding dispatch_idle
  dispatch_idle-Kept id none l s = Kept-refl 0 l.inner s
  dispatch_idle-Kept id (some c) l s = elim (Bool-cases c.borrowed) [
    | inl taken ↦ rw taken (Kept-refl 0 l.inner s)
    | inr free ↦
        if-false (λ (r : Result Error (Unit {0}) × EventLoop P S I X). Kept 0 l.inner r.1.inner)
          c.borrowed (panicked, l) _ free (call_idle-Kept id c.callback l s)
  ]

  run_idles-KeepsLoop : (ids : List ℕ) → KeepsLoop {P = P} {S = S} {I = I} {X = X} (run_idles ids)
  unfolding run_idles
  run_idles-KeepsLoop [] = same-KeepsLoop (ok tt)
  run_idles-KeepsLoop (id ∷ ids) =
      KeepsLoop-bind (λ l. dispatch_idle id (get_elem? l.inner.idle_cells id) l) _
        (record { keeps = λ l s. dispatch_idle-Kept id _ l s }) (λ _. run_idles-KeepsLoop ids)

  dispatch_idles-KeepsLoop : KeepsLoop {P = P} {S = S} {I = I} {X = X} dispatch_idles
  unfolding dispatch_idles
  dispatch_idles-KeepsLoop = record {
    keeps = λ l s.
        let h = same-Kept 0 l.inner (record (l.inner) { idles = [] }) refl refl s in
        Kept-trans 0 l.inner _ _ h ((run_idles-KeepsLoop l.inner.idles).keeps _ h.sound);
  }

module _ {P S I X : Type 0} ⦃o : Poller P⦄ ⦃e : EventSource P S⦄ ⦃u : UserCode P S I X⦄ where
  after_poll-KeepsLoop : (p : Polled) → KeepsLoop {P = P} {S = S} {I = I} {X = X} (after_poll p)
  unfolding after_poll lifecycle_tokens drain_synthetic
  after_poll-KeepsLoop timed_out = same-KeepsLoop (ok true)
  after_poll-KeepsLoop starved = same-KeepsLoop (ok false)
  after_poll-KeepsLoop (events evs) =
      KeepsLoop-bind lifecycle_tokens _ (record { keeps = λ l s. Kept-refl 0 l.inner s })
        (λ tokens.
          KeepsLoop-bind (before_handle_events tokens evs) _
            (before_handle_events-KeepsLoop tokens evs)
            (λ _.
              KeepsLoop-bind drain_synthetic _ (record { keeps = λ l s. Kept-refl 0 l.inner s })
                (λ synthetic.
                  KeepsLoop-bind (handle_events (synthetic ++ evs)) _
                    (handle_events-KeepsLoop (synthetic ++ evs)) (λ _. same-KeepsLoop (ok true)))))

  dispatch_events-KeepsLoop :
      (attempts : List Attempt) (timeout : Option ℕ)
      → KeepsLoop {P = P} {S = S} {I = I} {X = X} (dispatch_events attempts timeout)
  unfolding dispatch_events lifecycle_tokens
  dispatch_events-KeepsLoop attempts timeout =
      KeepsLoop-bind lifecycle_tokens _ (record { keeps = λ l s. Kept-refl 0 l.inner s })
        (λ tokens.
          KeepsLoop-bind (before_sleep tokens timeout) _ (before_sleep-KeepsLoop tokens timeout)
            (λ left.
              KeepsLoop-bind (on_poll (retry attempts left)) after_poll
                (poll-KeepsLoop (retry attempts left)) after_poll-KeepsLoop))

  dispatch-KeepsLoop :
      (attempts : List Attempt) (timeout : Option ℕ)
      → KeepsLoop {P = P} {S = S} {I = I} {X = X} (dispatch attempts timeout)
  unfolding dispatch
  dispatch-KeepsLoop attempts timeout =
      KeepsLoop-bind (dispatch_events attempts timeout) _
        (dispatch_events-KeepsLoop attempts timeout)
        (λ finished.
          KeepsLoop-bind dispatch_idles _ dispatch_idles-KeepsLoop
            (λ _. same-KeepsLoop (ok finished)))

  -- A dispatch, however it ends, leaves the slots well formed, every source of a slot in its cell,
  -- and no source borrowed.
  pub dispatch-IsSound :
      (attempts : List Attempt) (timeout : Option ℕ) (l : EventLoop P S I X)
      → IsSound 0 l.inner
      → All (λ b. b ≡ false) (borrows l.inner.dispatchers)
      → IsSound 0 (dispatch attempts timeout l).1.inner
        × All (λ b. b ≡ false) (borrows (dispatch attempts timeout l).1.inner.dispatchers)
  dispatch-IsSound attempts timeout l s f =
      let h = (dispatch-KeepsLoop attempts timeout).keeps l s in
      (h.sound, Grown-free _ _ f h.borrowed_as_before)
