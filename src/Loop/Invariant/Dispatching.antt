-- ===== src/Loop/Invariant/Dispatching.antt =====
-- An event, a cycle and a dispatch of loop_logic.rs keep the loop sound, and end every borrow.
use calloop.Common.{
  ℕ, zero, suc, ◌≡◌, refl, ap, ◌∙◌, subst, inl, inr, Option, none, some, List, [], ◌∷◌, true, false,
  get_elem?, set, length-set, arith, Option-cases, Bool-cases, if-false,
}
use calloop.Error.{Boxed, Error, Result, ok, err, panicked, M, Result-cases, bind_result, ◌>>=◌}
use calloop.Token.{TokenInner, forget_sub_id}
use calloop.PostAction.{PostAction}
use calloop.Sys.{PollEvent}
use calloop.SourceList.{get_mut}
use calloop.Sources.{EventSource}
use calloop.Dispatcher.{DispatcherCell, reregister, unregister}
use calloop.Dispatcher.Borrow.{reregister-KeepsBorrow, unregister-KeepsBorrow}
use calloop.Loop.{LoopInner, EventLoop, on_dispatcher}
use calloop.Loop.Program.{UserCode, run}
use calloop.Loop.Event.{
  find_dispatcher, take_pending, clear_slot, vacate, set_cell, on_inner, finish, call_cell,
  call_source, apply_action, sweep, dispatch_to, dispatch_event, combine_pending,
}
use calloop.Loop.Invariant.{
  IsSound, Grown, Kept, Keeps, Kept-refl, Kept-trans, Keeps-bind, borrows, borrows-set,
  Grown-unborrow,
}
use calloop.Loop.Invariant.Handling.{on_dispatcher-Keeps, put-Kept, pure-Keeps, same-Kept}
use calloop.Loop.Invariant.Calls.{run-Keeps, quietly-Keeps}

module _ {P S I X : Type 0} where
  pub record KeepsLoop {A : Type 0} (m : M Error (EventLoop P S I X) A) : Type 0 where
    pub keeps : (l : EventLoop P S I X) → IsSound 0 l.inner → Kept 0 l.inner (m l).1.inner

  KeptLoop-bind_result :
      {A B : Type 0} (l : EventLoop P S I X) (r : Result Error A × EventLoop P S I X)
      (f : A → M Error (EventLoop P S I X) B)
      → Kept 0 l.inner r.1.inner
      → ((a : A) → KeepsLoop (f a))
      → Kept 0 l.inner (bind_result r f).1.inner
  KeptLoop-bind_result l (ok a, l') f h hf =
      Kept-trans 0 l.inner l'.inner _ h ((hf a).keeps l' h.sound)
  KeptLoop-bind_result l (err x, l') f h hf = h
  KeptLoop-bind_result l (panicked, l') f h hf = h

  pub KeepsLoop-bind :
      {A B : Type 0} (m : M Error (EventLoop P S I X) A) (f : A → M Error (EventLoop P S I X) B)
      → KeepsLoop m
      → ((a : A) → KeepsLoop (f a))
      → KeepsLoop (m >>= f)
  KeepsLoop-bind m f hm hf = record {
    keeps = λ l s. KeptLoop-bind_result l (m l) f (hm.keeps l s) hf;
  }

  pub on_inner-KeepsLoop :
      {A : Type 0} (m : M Error (LoopInner P S I) A) → Keeps 0 m → KeepsLoop (on_inner m)
  on_inner-KeepsLoop m h = record { keeps = λ l s. h.keeps l.inner s }

  pub same-KeepsLoop : {A : Type 0} (r : Result Error A) → KeepsLoop (λ l. (r, l))
  same-KeepsLoop r = record { keeps = λ l s. Kept-refl 0 l.inner s }

borrows-get :
    {S : Type 0} (cs : List (DispatcherCell S)) (i : ℕ) (c : DispatcherCell S)
    → get_elem? cs i ≡ some c
    → get_elem? (borrows cs) i ≡ some c.borrowed
borrows-get [] i c h = absurd (ground arith)
borrows-get (x ∷ cs) zero c h = ground arith
borrows-get (x ∷ cs) (suc i) c h = borrows-get cs i c h

module _ {P S I : Type 0} where
  set_cell-IsSound :
      (k id : ℕ) (d : DispatcherCell S) (l : LoopInner P S I)
      → IsSound k l
      → IsSound k (set_cell id d l)
  unfolding set_cell
  set_cell-IsSound k id d l s =
      let n = length-set l.dispatchers id d in
      record { slots = s.slots; backed = rw n s.backed; enough = omega (arith, n, s.enough) }

  -- The borrow of a callback ends with the callback, whatever the callback did in between.
  unborrow-Kept :
      (id : ℕ) (c busy d : DispatcherCell S) (l m : LoopInner P S I)
      → get_elem? l.dispatchers id ≡ some c
      → c.borrowed ≡ false
      → busy.borrowed ≡ true
      → d.borrowed ≡ false
      → Kept 0 (set_cell id busy l) m
      → Kept 0 l (set_cell id d m)
  unfolding set_cell
  unborrow-Kept id c busy d l m at free b f h = record {
    sound = set_cell-IsSound 0 id d m h.sound;
    borrowed_as_before =
        rw (borrows-set m.dispatchers id d, f)
          (Grown-unborrow (borrows l.dispatchers) (borrows m.dispatchers) id
            (borrows-get l.dispatchers id c at ∙ ap some free)
            (subst (λ bs. Grown bs (borrows m.dispatchers))
              (borrows-set l.dispatchers id busy ∙ ap (set (borrows l.dispatchers) id) b)
              h.borrowed_as_before));
  }

  take_pending-Keeps : Keeps {P = P} {S = S} {I = I} 0 take_pending
  unfolding take_pending
  take_pending-Keeps = record { keeps = λ l s. same-Kept 0 l _ refl refl s }

  pub find_dispatcher-Keeps : (t : TokenInner) → Keeps {P = P} {S = S} {I = I} 0 (find_dispatcher t)
  unfolding find_dispatcher
  find_dispatcher-Keeps t = record { keeps = λ l s. Kept-refl 0 l s }

  vacate-Keeps : (t : TokenInner) → Keeps {P = P} {S = S} {I = I} 0 (vacate t)
  unfolding vacate clear_slot
  vacate-Keeps t = record {
    keeps = λ l s. elim (Result-cases (get_mut l.sources t)) [
      | inl ((entry, put), q) ↦ rw q (put-Kept 0 t l entry put q s)
      | inr (inl (x, q)) ↦ rw q (Kept-refl 0 l s)
      | inr (inr q) ↦ rw q (Kept-refl 0 l s)
    ];
  }

module _ {P S I : Type 0} ⦃e : EventSource P S⦄ where
  apply_action-Keeps :
      (t : TokenInner) (id : ℕ) (a : PostAction)
      → Keeps {P = P} {S = S} {I = I} 0 (apply_action t id a)
  unfolding apply_action
  apply_action-Keeps t id PostAction.reregister =
      Keeps-bind 0 (on_dispatcher id t reregister) _
        (on_dispatcher-Keeps 0 id t reregister reregister-KeepsBorrow) (λ _. pure-Keeps 0 (ok tt))
  apply_action-Keeps t id PostAction.disable =
      Keeps-bind 0 (on_dispatcher id t (unregister (record { inner = t }))) _
        (on_dispatcher-Keeps 0 id t _ (unregister-KeepsBorrow (record { inner = t })))
        (λ _. pure-Keeps 0 (ok tt))
  apply_action-Keeps t id PostAction.remove = vacate-Keeps t
  apply_action-Keeps t id PostAction.continue = pure-Keeps 0 (ok tt)

  sweep-Keeps :
      (t : TokenInner) (id : ℕ) (o : Option ℕ) → Keeps {P = P} {S = S} {I = I} 0 (sweep t id o)
  unfolding sweep
  sweep-Keeps t id none = quietly-Keeps 0 id t (record { inner = t })
  sweep-Keeps t id (some _) = pure-Keeps 0 (ok tt)

module _ {P S I X : Type 0} ⦃e : EventSource P S⦄ ⦃u : UserCode P S I X⦄ where
  finish-Kept :
      (id : ℕ) (c busy : DispatcherCell S) (l : EventLoop P S I X)
      (r : Result Error (Result Boxed PostAction × S × X) × LoopInner P S I)
      → get_elem? l.inner.dispatchers id ≡ some c
      → c.borrowed ≡ false
      → busy.borrowed ≡ true
      → Kept 0 (set_cell id busy l.inner) r.1
      → Kept 0 l.inner (finish id c l r).1.inner
  unfolding finish
  finish-Kept id c busy l (ok (r, s, x), m) at free b h =
      unborrow-Kept id c busy _ l.inner m at free b free h
  finish-Kept id c busy l (err x, m) at free b h =
      unborrow-Kept id c busy _ l.inner m at free b free h
  finish-Kept id c busy l (panicked, m) at free b h =
      unborrow-Kept id c busy _ l.inner m at free b free h

  call_source-KeepsLoop :
      (ev : PollEvent) (id : ℕ) → KeepsLoop {P = P} {S = S} {I = I} {X = X} (call_source ev id)
  unfolding call_source call_cell
  call_source-KeepsLoop ev id = record {
    keeps = λ l s. elim (Option-cases (get_elem? l.inner.dispatchers id)) [
      | inl q ↦ rw q (Kept-refl 0 l.inner s)
      | inr (c, q) ↦ elim (Bool-cases c.borrowed) [
        | inl taken ↦ rw (q, taken) (Kept-refl 0 l.inner s)
        | inr free ↦
            let busy : DispatcherCell S = record c { borrowed = true } in
            let ran =
              run (u.process_events ev.readiness ev.token c.inner.source l.user)
                (set_cell id busy l.inner) in
            rw q (
              if-false (λ r. Kept 0 l.inner r.1.inner) c.borrowed (panicked, l) (finish id c l ran)
                free
                (finish-Kept id c busy l ran q free refl
                  ((run-Keeps _).keeps _ (set_cell-IsSound 0 id busy l.inner s))))
      ]
    ];
  }

  dispatch_to-KeepsLoop :
      (ev : PollEvent) (t : TokenInner) (o : Option ℕ)
      → KeepsLoop {P = P} {S = S} {I = I} {X = X} (dispatch_to ev t o)
  unfolding dispatch_to
  dispatch_to-KeepsLoop ev t none = same-KeepsLoop (ok tt)
  dispatch_to-KeepsLoop ev t (some id) =
      KeepsLoop-bind (call_source ev id) _ (call_source-KeepsLoop ev id) (λ ret.
        KeepsLoop-bind (on_inner take_pending) _ (on_inner-KeepsLoop _ take_pending-Keeps)
          (λ pending.
            KeepsLoop-bind (on_inner (apply_action t id (combine_pending ret pending))) _
              (on_inner-KeepsLoop _ (apply_action-Keeps t id (combine_pending ret pending)))
              (λ _.
                KeepsLoop-bind (on_inner (find_dispatcher t)) _
                  (on_inner-KeepsLoop _ (find_dispatcher-Keeps t))
                  (λ left. on_inner-KeepsLoop _ (sweep-Keeps t id left)))))

  pub dispatch_event-KeepsLoop :
      (ev : PollEvent) → KeepsLoop {P = P} {S = S} {I = I} {X = X} (dispatch_event ev)
  unfolding dispatch_event
  dispatch_event-KeepsLoop ev =
      let t = forget_sub_id ev.token.inner in
      KeepsLoop-bind (on_inner (find_dispatcher t)) (dispatch_to ev t)
        (on_inner-KeepsLoop _ (find_dispatcher-Keeps t)) (dispatch_to-KeepsLoop ev t)
