-- ===== src/Loop/Pending.antt =====
-- The action that a callback leaves for the loop (`pending_action` of loop_logic.rs).
use calloop.Common.{
  ℕ, ◌≡◌, refl, ap, sym, ◌∙◌, subst, inl, inr, Option, none, some, get_elem?, Option-cases,
}
use calloop.Error.{
  Error, Result, ok, err, panicked, M, Result-cases, bind_result, ◌>>=◌, ◌>>◌, attempt,
  bind_result-eq_ok,
}
use calloop.Token.{TokenInner, forget_sub_id}
use calloop.PostAction.{PostAction}
use calloop.Sys.{PollEvent}
use calloop.SourceList.{get, get_mut}
use calloop.Sources.{EventSource}
use calloop.Dispatcher.{Dispatching, reregister, unregister}
use calloop.Loop.{LoopInner, EventLoop, on_dispatcher, at_cell, after_dispatching}
use calloop.Loop.Program.{UserCode}
use calloop.Loop.Event.{
  find_dispatcher, take_pending, clear_slot, vacate, on_inner, call_source, apply_action, sweep,
  dispatch_to, dispatch_event, combine_pending, found,
}

module _ {P S I : Type 0} where
  abbrev KeepsPending : {A : Type 0} → M Error (LoopInner P S I) A → Type 0
  KeepsPending m = (l : LoopInner P S I) → (m l).1.pending_action ≡ l.pending_action

  pending-on_dispatcher :
      {A : Type 0} (id : ℕ) (t : TokenInner) (m : M Error (Dispatching P S) A)
      → KeepsPending (on_dispatcher id t m)
  unfolding on_dispatcher at_cell after_dispatching
  pending-on_dispatcher id t m l = elim (Option-cases (get_elem? l.dispatchers id)) [
    | inl q ↦ rw q refl
    | inr (c, q) ↦ rw q refl
  ]

  pending-then :
      {A B : Type 0} (p : PostAction) (r : Result Error A × LoopInner P S I)
      (b : A → Result Error B)
      → r.1.pending_action ≡ p
      → (bind_result r (λ a l. (b a, l))).1.pending_action ≡ p
  pending-then p (ok a, l) b h = h
  pending-then p (err x, l) b h = h
  pending-then p (panicked, l) b h = h

  pending-vacate : (t : TokenInner) → KeepsPending (vacate t)
  unfolding vacate clear_slot
  pending-vacate t l = elim (Result-cases (get_mut l.sources t)) [
    | inl ((entry, put), q) ↦ rw q refl
    | inr (inl (x, q)) ↦ rw q refl
    | inr (inr q) ↦ rw q refl
  ]

module _ {P S I : Type 0} ⦃e : EventSource P S⦄ where
  pending-apply_action :
      (t : TokenInner) (id : ℕ) (a : PostAction)
      → KeepsPending {P = P} {S = S} {I = I} (apply_action t id a)
  unfolding apply_action
  pending-apply_action t id PostAction.reregister l =
      pending-then l.pending_action (on_dispatcher id t reregister l) (λ _. ok tt)
        (pending-on_dispatcher id t reregister l)
  pending-apply_action t id PostAction.disable l =
      let m = unregister (record { inner = t }) in
      pending-then l.pending_action (on_dispatcher id t m l) (λ _. ok tt)
        (pending-on_dispatcher id t m l)
  pending-apply_action t id PostAction.remove l = pending-vacate t l
  pending-apply_action t id PostAction.continue l = refl

  pending-sweep :
      (t : TokenInner) (id : ℕ) (o : Option ℕ) → KeepsPending {P = P} {S = S} {I = I} (sweep t id o)
  unfolding sweep
  pending-sweep t id none l =
      let m = unregister (record { inner = t }) in
      pending-then l.pending_action (attempt (on_dispatcher id t m) l) (λ _. ok tt)
        (pending-on_dispatcher id t m l)
  pending-sweep t id (some _) l = refl

module _ {P S I X : Type 0} ⦃e : EventSource P S⦄ ⦃u : UserCode P S I X⦄ where
  -- The rest of an event's handling, once the callback has returned and the action is known.
  unfoldable pub after_callback :
      TokenInner → ℕ → PostAction → M Error (EventLoop P S I X) (Unit {0})
  after_callback t id action = do
    on_inner (apply_action t id action)
    left ← on_inner (find_dispatcher t)
    on_inner (sweep t id left)

  after_callback-pending :
      (t : TokenInner) (id : ℕ) (a : PostAction) (l l' : EventLoop P S I X)
      → l.inner.pending_action ≡ PostAction.continue
      → after_callback t id a l ≡ (ok tt, l')
      → l'.inner.pending_action ≡ PostAction.continue
  unfolding after_callback find_dispatcher
  after_callback-pending t id a l l' c h =
      let (x, m, applied, rest) = bind_result-eq_ok (on_inner (apply_action t id a) l) _ tt l' h in
      sym (ap (λ r. r.1.inner.pending_action) rest)
      ∙ pending-sweep t id (found (get m.inner.sources t)) m.inner
      ∙ sym (ap (λ r. r.1.inner.pending_action) applied)
      ∙ pending-apply_action t id a l.inner
      ∙ c

  dispatch_to-pending :
      (ev : PollEvent) (t : TokenInner) (o : Option ℕ) (l l' : EventLoop P S I X)
      → l.inner.pending_action ≡ PostAction.continue
      → dispatch_to ev t o l ≡ (ok tt, l')
      → l'.inner.pending_action ≡ PostAction.continue
  unfolding dispatch_to take_pending after_callback
  dispatch_to-pending ev t none l l' c h =
      subst (λ m. m.inner.pending_action ≡ PostAction.continue) (ap (λ r. r.1) h) c
  dispatch_to-pending ev t (some id) l l' c h =
      let (ret, m, called, rest) = bind_result-eq_ok (call_source ev id l) _ tt l' h in
      after_callback-pending t id (combine_pending ret m.inner.pending_action)
        (record m { inner = record (m.inner) { pending_action = PostAction.continue } }) l' refl
        rest

  -- When no action was pending before an event, and the event was handled without an error, none is left
  -- over for the next event.
  pub no_action_left :
      (ev : PollEvent) (l l' : EventLoop P S I X)
      → l.inner.pending_action ≡ PostAction.continue
      → dispatch_event ev l ≡ (ok tt, l')
      → l'.inner.pending_action ≡ PostAction.continue
  unfolding dispatch_event find_dispatcher
  no_action_left ev l l' c h = dispatch_to-pending ev (forget_sub_id ev.token.inner) _ l l' c h
