-- ===== src/Loop/Tokens.antt =====
-- What a registration token of loop_logic.rs can and cannot do: tokens of sources that are gone, and
-- calls on a source from within its own callback.
use calloop.Common.{
  ℕ, ◌≡◌, refl, ap, sym, ◌∙◌, subst, inl, inr, Option, none, some, Bool, true, false, get_elem?,
  set, arith, Option-cases, set-get_elem?, get_elem?-set_self, get_elem?-lt,
}
use calloop.Error.{
  Boxed, invalid_token, Error, Result, ok, err, panicked, M, bind_result, attempt_result,
}
use calloop.Token.{TokenInner, RegistrationToken, same_source_as, forget_sub_id}
use calloop.PostAction.{PostAction}
use calloop.Sys.{PollEvent}
use calloop.SourceList.{SourceEntry, SourceList, get}
use calloop.SourceList.Slots.{IsValid}
use calloop.Sources.{EventSource}
use calloop.Dispatcher.{
  register_free, reregister_free, unregister_free, is_borrowed, DispatcherCell, Dispatching,
  register, reregister, unregister,
}
use calloop.Loop.{LoopInner, EventLoop, on_dispatcher, at_cell, after_dispatching, dispatching}
use calloop.Loop.Program.{UserCode, Program, updates, disables, enables}
use calloop.Loop.Program
use calloop.Loop.Event.{
  find_dispatcher, on_inner, dispatch_to, dispatch_event, call_source, call_cell, finish, set_cell,
}
use calloop.Loop.Handle.{
  find_entry, entry_dispatcher, set_pending, check_same, enable, update, disable,
  take_and_unregister, remove_found, remove, on_sources,
}
use calloop.SourceList.Laws.{get_mut-get_ok, get_mut-get_err, get-eq_ok, get_mut_writes}

module _ {P S I : Type 0} where
  pub sources-on_dispatcher :
      {A : Type 0} (id : ℕ) (t : TokenInner) (m : M Error (Dispatching P S) A) (l : LoopInner P S I)
      → (on_dispatcher id t m l).1.sources ≡ l.sources
  unfolding on_dispatcher at_cell after_dispatching
  sources-on_dispatcher id t m l = elim (Option-cases (get_elem? l.dispatchers id)) [
    | inl q ↦ rw q refl
    | inr (c, q) ↦ rw q refl
  ]

  -- A method that the borrow stops.
  busy-on_dispatcher :
      {A : Type 0} (id : ℕ) (t : TokenInner) (m : M Error (Dispatching P S) A) (l : LoopInner P S I)
      (c : DispatcherCell S) (r : Result Error A)
      → get_elem? l.dispatchers id ≡ some c
      → m (dispatching l t c) ≡ (r, dispatching l t c)
      → on_dispatcher id t m l ≡ (r, l)
  unfolding on_dispatcher at_cell after_dispatching dispatching
  busy-on_dispatcher id t m l c r at h =
      let same = set-get_elem? l.dispatchers id c at in rw (at, h) (rw same refl)

same_source_as-sym : (a b : TokenInner) → same_source_as a b ≡ true → same_source_as b a ≡ true
unfolding same_source_as
same_source_as-sym a b h = ground arith

module _ {P S : Type 0} ⦃e : EventSource P S⦄ where
  busy-register : (d : Dispatching P S) → d.cell.borrowed ≡ true → register d ≡ (panicked, d)
  unfolding register register_free is_borrowed
  busy-register d b = subst (λ b'. register_free b' d ≡ (panicked, d)) (sym b) refl

  busy-reregister : (d : Dispatching P S) → d.cell.borrowed ≡ true → reregister d ≡ (ok false, d)
  unfolding reregister reregister_free is_borrowed
  busy-reregister d b = subst (λ b'. reregister_free b' d ≡ (ok false, d)) (sym b) refl

  busy-unregister :
      (t : RegistrationToken) (d : Dispatching P S)
      → d.cell.borrowed ≡ true
      → unregister t d ≡ (ok false, d)
  unfolding unregister unregister_free is_borrowed
  busy-unregister t d b = subst (λ b'. unregister_free t b' d ≡ (ok false, d)) (sym b) refl

module _ {P S I : Type 0} ⦃e : EventSource P S⦄ where
  -- A token that the list of sources refuses: `enable`, `update` and `disable` report it, `remove`
  -- does nothing, and none of them changes the loop.
  pub revoked_token :
      (l : LoopInner P S I) (t : RegistrationToken)
      → get l.sources t.inner ≡ err invalid_token
      → (enable t l ≡ (err invalid_token, l))
        × (update t l ≡ (err invalid_token, l))
        × (disable t l ≡ (err invalid_token, l))
        × (remove t l ≡ (ok tt, l))
  unfolding enable update disable remove find_entry remove_found
  revoked_token l t h =
      (rw h refl, rw h refl, rw h refl, rw (get_mut-get_err l.sources t.inner invalid_token h) refl)

  borrowed_calls :
      (l : LoopInner P S I) (t : RegistrationToken) (entry : SourceEntry ℕ) (id : ℕ)
      (c : DispatcherCell S)
      → get l.sources t.inner ≡ ok entry
      → entry.source ≡ some id
      → get_elem? l.dispatchers id ≡ some c
      → c.borrowed ≡ true
      → (update t l ≡ (ok tt, record l { pending_action = PostAction.reregister }))
        × (disable t l ≡ (ok tt, record l { pending_action = PostAction.disable }))
        × (enable t l ≡ (panicked, l))
  unfolding update disable enable find_entry entry_dispatcher check_same set_pending dispatching
  borrowed_calls l t entry id c h s at b =
      let same = same_source_as-sym entry.token t.inner (get-eq_ok l.sources t.inner entry h).1 in
      let u = entry.token in
      (
        rw (h, s, busy-on_dispatcher id u reregister l c (ok false) at (busy-reregister _ b)) refl,
        rw
            (
              h,
              s,
              same,
              busy-on_dispatcher id u (unregister t) l c (ok false) at (busy-unregister t _ b),
            )
            refl,
        rw (h, s, busy-on_dispatcher id u register l c panicked at (busy-register _ b)) refl,
      )

  quietly-sources :
      (r : Result Error Bool × LoopInner P S I) (f : LoopInner P S I)
      → r.1.sources ≡ f.sources
      → (bind_result (attempt_result r.0, r.1) (λ _ l. (ok tt, l))).1.sources ≡ f.sources
  quietly-sources (ok _, l) f h = h
  quietly-sources (err _, l) f h = h
  quietly-sources (panicked, l) f h = h

  taken-sources :
      (t : RegistrationToken) (entry : SourceEntry ℕ) (put : SourceEntry ℕ → SourceList ℕ)
      (o : Option ℕ) (l : LoopInner P S I)
      → entry.source ≡ o
      → get l.sources t.inner ≡ ok entry
      → get (put (record entry { source = none })) t.inner ≡ ok (record entry { source = none })
      → get (take_and_unregister t entry put o l).1.sources t.inner
        ≡ ok (record entry { source = none })
  unfolding take_and_unregister on_sources
  taken-sources t entry put none l q h g = h ∙ ap (λ o. ok (record entry { source = o })) q
  taken-sources t entry put (some id) l q h g =
      let l1 = record l { sources = put (record entry { source = none }) } in
      let r = on_dispatcher id entry.token (unregister t) l1 in
      rw (quietly-sources r l1 (sources-on_dispatcher id entry.token (unregister t) l1)) g

  -- A source that was in its slot before `remove` is not in it afterwards.
  removed-find :
      (l : LoopInner P S I) (t : RegistrationToken) (entry : SourceEntry ℕ)
      → IsValid l.sources
      → get l.sources t.inner ≡ ok entry
      → get (remove t l).1.sources t.inner ≡ ok (record entry { source = none })
  unfolding remove remove_found
  removed-find l t entry v h =
      let m = get_mut-get_ok l.sources t.inner entry h in
      let wrote =
        get_mut_writes l.sources t.inner t.inner entry (record entry { source = none }) _ v m
          refl in
      rw m (
        taken-sources t entry (λ e'. record { sources = set l.sources.sources t.inner.id e' })
          entry.source l refl h wrote.0)

module _ {P S I X : Type 0} ⦃e : EventSource P S⦄ ⦃u : UserCode P S I X⦄ where
  -- After `remove`, an event for the source, under whatever sub-token, is dropped: no callback runs
  -- and the loop stays as it is.
  pub remove_silences :
      (l : EventLoop P S I X) (t : RegistrationToken) (entry : SourceEntry ℕ) (ev : PollEvent)
      → IsValid l.inner.sources
      → get l.inner.sources t.inner ≡ ok entry
      → forget_sub_id ev.token.inner ≡ t.inner
      → dispatch_event ev (on_inner (remove t) l).1 ≡ (ok tt, (on_inner (remove t) l).1)
  unfolding dispatch_event find_dispatcher dispatch_to
  remove_silences l t entry ev v h same = rw (same, removed-find l.inner t entry v h) refl

module _ {P S I X : Type 0} ⦃e : EventSource P S⦄ ⦃u : UserCode P S I X⦄ where
  -- The callback of a source that is not borrowed runs with its dispatcher borrowed. There `update` and
  -- `disable` of this very source only note the action for the loop, and `enable` panics.
  pub within_callback :
      (ev : PollEvent) (l : EventLoop P S I X) (t : RegistrationToken) (entry : SourceEntry ℕ)
      (id : ℕ) (c : DispatcherCell S)
      (more : Result Error (Unit {0}) → Program S I (Result Boxed PostAction × S × X))
      → get l.inner.sources t.inner ≡ ok entry
      → entry.source ≡ some id
      → get_elem? l.inner.dispatchers id ≡ some c
      → c.borrowed ≡ false
      → let inner = set_cell id (record c { borrowed = true }) l.inner in
        (call_source ev id l
          ≡ finish id c l
              (Program.run (u.process_events ev.readiness ev.token c.inner.source l.user) inner))
        × (Program.run (updates t more) inner
            ≡ Program.run (more (ok tt)) (record inner { pending_action = PostAction.reregister }))
        × (Program.run (disables t more) inner
            ≡ Program.run (more (ok tt)) (record inner { pending_action = PostAction.disable }))
        × (Program.run (enables t more) inner ≡ (panicked, inner))
  unfolding call_source call_cell set_cell Program.run
  within_callback ev l t entry id c more h s at free =
      let c' : DispatcherCell S = record c { borrowed = true } in
      let inner = set_cell id c' l.inner in
      let at' = get_elem?-set_self l.inner.dispatchers id c' (get_elem?-lt _ id at) in
      let (up, dis, en) = borrowed_calls inner t entry id c' h s at' refl in
      (rw (at, free) refl, rw up refl, rw dis refl, rw en refl)
