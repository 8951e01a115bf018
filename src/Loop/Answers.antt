-- ===== src/Loop/Answers.antt =====
-- What loop_logic.rs does with the answer of a source whose callback makes no calls of the handle.
use calloop.Common.{
  ℕ, ◌≡◌, refl, ap, ◌∙◌, none, some, List, [], ◌∷◌, zero, suc, true, false, get_elem?, set,
  if-false,
}
use calloop.Error.{Error, Result, ok, err, panicked, M, pure, bind_result, ◌>>=◌, ◌>>◌, attempt}
use calloop.Token.{TokenInner, forget_sub_id}
use calloop.PostAction.{PostAction}
use calloop.Sys.{PollEvent}
use calloop.SourceList.{SourceEntry, SourceList, get}
use calloop.SourceList.Slots.{IsValid}
use calloop.SourceList.Laws.{get_mut-get_ok, get_mut_writes}
use calloop.Sources.{EventSource}
use calloop.Dispatcher.{DispatcherCell, reregister, unregister}
use calloop.Loop.{LoopInner, EventLoop, on_dispatcher}
use calloop.Loop.Program.{UserCode, done, run}
use calloop.Loop.Event.{
  found, find_dispatcher, take_pending, combine_pending, clear_slot, vacate, set_cell, apply_action,
  sweep, on_inner, finish, call_cell, call_source, dispatch_to, dispatch_event,
}
use calloop.Loop.Pending.{after_callback}
use calloop.Loop.Tokens.{sources-on_dispatcher}

set-set {ℓ} : {A : Type ℓ} (xs : List A) (i : ℕ) (a b : A) → set (set xs i a) i b ≡ set xs i b
set-set [] i a b = refl
set-set (x ∷ xs) zero a b = refl
set-set (x ∷ xs) (suc i) a b = ap (λ ys. x ∷ ys) (set-set xs i a b)

module _ {P S I X : Type 0} where
  -- The loop when the callback of the source `id` has returned, with what it made of the source and of
  -- the user's data.
  abbrev pub returned : ℕ → DispatcherCell S → S → X → EventLoop P S I X → EventLoop P S I X
  returned id cell s x l = record l {
    inner = record (l.inner) {
      dispatchers =
          set l.inner.dispatchers id (record cell { inner = record (cell.inner) { source = s } });
    };
    user = x;
  }

module _ {P S I : Type 0} where
  -- The slot `entry` under the token `t` is vacant.
  abbrev pub vacated : TokenInner → SourceEntry ℕ → LoopInner P S I → LoopInner P S I
  vacated t entry l = record l {
    sources = record { sources = set l.sources.sources t.id (record entry { source = none }) };
  }

module _ {P S I : Type 0} ⦃e : EventSource P S⦄ where
  -- What each answer asks for.
  abbrev pub obey :
      TokenInner → SourceEntry ℕ → ℕ → PostAction → M Error (LoopInner P S I) (Unit {0})
  obey t entry id PostAction.continue = pure tt
  obey t entry id PostAction.reregister = do on_dispatcher id t reregister; pure tt
  obey t entry id PostAction.disable = do
    on_dispatcher id t (unregister (record { inner = t }))
    pure tt
  obey t entry id PostAction.remove = λ l.
      (do attempt (on_dispatcher id t (unregister (record { inner = t }))); pure tt)
        (vacated t entry l)

  then_pure-sources :
      {A : Type 0} (r : Result Error A × LoopInner P S I) (sources : SourceList ℕ)
      → r.1.sources ≡ sources
      → (bind_result r (λ _. pure tt)).1.sources ≡ sources
  then_pure-sources (ok a, l) sources h = h
  then_pure-sources (err x, l) sources h = h
  then_pure-sources (panicked, l) sources h = h

module _ {P S I : Type 0} where
  find_dispatcher-some :
      (l : LoopInner P S I) (t : TokenInner) (entry : SourceEntry ℕ) (id : ℕ)
      → get l.sources t ≡ ok entry
      → entry.source ≡ some id
      → find_dispatcher t l ≡ (ok (some id), l)
  unfolding find_dispatcher
  find_dispatcher-some l t entry id h src = ap (λ r. (ok (found r), l)) h ∙ ap (λ o. (ok o, l)) src

module _ {P S I X : Type 0} ⦃e : EventSource P S⦄ where
  -- A source that is still in its slot is not unregistered.
  kept-after :
      (t : TokenInner) (id : ℕ) (r : Result Error (Unit {0}) × LoopInner P S I)
      (l : EventLoop P S I X)
      → found (get r.1.sources t) ≡ some id
      → bind_result
          (r.0, record l { inner = r.1 })
          (λ _. on_inner (find_dispatcher t) >>= λ left. on_inner (sweep t id left))
        ≡ (r.0, record l { inner = r.1 })
  unfolding find_dispatcher sweep
  kept-after t id (ok a, m) l h = rw h refl
  kept-after t id (err x, m) l h = refl
  kept-after t id (panicked, m) l h = refl

module _ {P S I X : Type 0} ⦃e : EventSource P S⦄ ⦃u : UserCode P S I X⦄ where
  after_callback-obey :
      (t : TokenInner) (entry : SourceEntry ℕ) (id : ℕ) (a : PostAction) (l : EventLoop P S I X)
      → IsValid l.inner.sources
      → get l.inner.sources t ≡ ok entry
      → entry.source ≡ some id
      → after_callback t id a l ≡ on_inner (obey t entry id a) l
  unfolding after_callback apply_action
  after_callback-obey t entry id PostAction.continue l v h s =
      kept-after t id (ok tt, l.inner) l (rw h s)
  after_callback-obey t entry id PostAction.reregister l v h s =
      let m = on_dispatcher id t reregister in
      kept-after t id ((m >> pure tt) l.inner) l (
        rw (then_pure-sources (m l.inner) l.inner.sources (sources-on_dispatcher id t _ l.inner))
          (rw h s))
  after_callback-obey t entry id PostAction.disable l v h s =
      let m = on_dispatcher id t (unregister (record { inner = t })) in
      kept-after t id ((m >> pure tt) l.inner) l (
        rw (then_pure-sources (m l.inner) l.inner.sources (sources-on_dispatcher id t _ l.inner))
          (rw h s))
  after_callback-obey t entry id PostAction.remove l v h s =
      let m = get_mut-get_ok l.inner.sources t entry h in
      let wrote =
        get_mut_writes l.inner.sources t t entry (record entry { source = none }) _ v m refl in
      unfold vacate in
      unfold clear_slot in unfold find_dispatcher in unfold sweep in rw m (rw wrote.0 refl)

  call_source-returned :
      (ev : PollEvent) (l : EventLoop P S I X) (id : ℕ) (cell : DispatcherCell S) (a : PostAction)
      (s : S) (x : X)
      → get_elem? l.inner.dispatchers id ≡ some cell
      → cell.borrowed ≡ false
      → u.process_events ev.readiness ev.token cell.inner.source l.user ≡ done (ok a, s, x)
      → call_source ev id l ≡ (ok a, returned id cell s x l)
  unfolding call_source call_cell finish set_cell run
  call_source-returned ev l id cell a s x at free p =
      let back : DispatcherCell S = record cell { inner = record (cell.inner) { source = s } } in
      let same = set-set l.inner.dispatchers id (record cell { borrowed = true }) back in
      rw at (
        if-false
          (λ (r : Result Error PostAction × EventLoop P S I X). r ≡ (ok a, returned id cell s x l))
          cell.borrowed (panicked, l) _ free (rw (p, same) refl))

  -- The same, once the loop has taken the pending action.
  abbrev pub cleared : EventLoop P S I X → EventLoop P S I X
  cleared l = record l { inner = record (l.inner) { pending_action = PostAction.continue } }

  -- Where the slots are valid, an event of a source in its slot, under whatever sub-token, that is not
  -- borrowed and whose callback makes no calls and does not fail: the source and the user's data are as
  -- the callback leaves them, no action is pending any more, and the answer is obeyed, unless it is
  -- `Continue`: then an action is obeyed that was pending before. A source that is to be removed loses its
  -- slot and is then unregistered, whether or not that succeeds; the others keep it.
  pub dispatch_event-obey :
      (ev : PollEvent) (l : EventLoop P S I X) (entry : SourceEntry ℕ) (id : ℕ)
      (cell : DispatcherCell S) (a : PostAction) (s : S) (x : X)
      → IsValid l.inner.sources
      → get l.inner.sources (forget_sub_id ev.token.inner) ≡ ok entry
      → entry.source ≡ some id
      → get_elem? l.inner.dispatchers id ≡ some cell
      → cell.borrowed ≡ false
      → u.process_events ev.readiness ev.token cell.inner.source l.user ≡ done (ok a, s, x)
      → dispatch_event ev l
        ≡ on_inner
            (obey
              (forget_sub_id ev.token.inner)
              entry
              id
              (combine_pending a l.inner.pending_action))
            (cleared (returned id cell s x l))
  unfolding dispatch_event dispatch_to take_pending after_callback
  dispatch_event-obey ev l entry id cell a s x v h src at free p =
      let t = forget_sub_id ev.token.inner in
      let m = cleared (returned id cell s x l) in
      let find = find_dispatcher-some l.inner t entry id h src in
      let called = call_source-returned ev l id cell a s x at free p in
      let b = combine_pending a l.inner.pending_action in
      let handled : dispatch_event ev l ≡ after_callback t id b m = rw (find, called) refl in
      handled ∙ after_callback-obey t entry id b m v h src

  -- A callback that fails ends the handling of its event at once, with whatever action it asked for still
  -- pending. Where the slots are still valid, the next event's source is in its slot and not borrowed, and
  -- its callback makes no calls and answers `Continue`, that action is carried out on that source, of
  -- whatever token.
  pub action_outlives_error :
      (ev ev' : PollEvent) (l l1 : EventLoop P S I X) (id id' : ℕ) (error : Error)
      (entry : SourceEntry ℕ) (cell : DispatcherCell S) (s : S) (x : X)
      → find_dispatcher (forget_sub_id ev.token.inner) l.inner ≡ (ok (some id), l.inner)
      → call_source ev id l ≡ (err error, l1)
      → IsValid l1.inner.sources
      → get l1.inner.sources (forget_sub_id ev'.token.inner) ≡ ok entry
      → entry.source ≡ some id'
      → get_elem? l1.inner.dispatchers id' ≡ some cell
      → cell.borrowed ≡ false
      → u.process_events ev'.readiness ev'.token cell.inner.source l1.user
        ≡ done (ok PostAction.continue, s, x)
      → (dispatch_event ev l ≡ (err error, l1))
        × (dispatch_event ev' l1
            ≡ on_inner
                (obey (forget_sub_id ev'.token.inner) entry id' l1.inner.pending_action)
                (cleared (returned id' cell s x l1)))
  unfolding dispatch_event dispatch_to
  action_outlives_error ev ev' l l1 id id' error entry cell s x f c v h src at free p = (
    rw (f, c) refl,
    dispatch_event-obey ev' l1 entry id' cell PostAction.continue s x v h src at free p,
  )
