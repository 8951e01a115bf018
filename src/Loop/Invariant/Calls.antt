-- ===== src/Loop/Invariant/Calls.antt =====
-- The calls of `LoopHandle` in loop_logic.rs, and every program of them, keep the loop sound.
use calloop.Common.{
  refl, ℕ, suc, ◌≡◌, inl, inr, Option, none, some, length, arith, Option-cases, Bool-cases,
}
use calloop.Error.{
  Error, Result, ok, err, panicked, M, Result-cases, ◌>>=◌, pure, fail, ◌>>◌, attempt,
}
use calloop.Token.{TokenInner, RegistrationToken, same_source_as}
use calloop.PostAction.{PostAction}
use calloop.SourceList.{SourceEntry, SourceList, vacant_entry, get_mut}
use calloop.Sources.{EventSource}
use calloop.Dispatcher.{DispatcherInner, register, reregister, unregister}
use calloop.Dispatcher.Borrow.{register-KeepsBorrow, reregister-KeepsBorrow, unregister-KeepsBorrow}
use calloop.Loop.{LoopInner, on_dispatcher}
use calloop.Loop.Handle.{
  on_sources, read_slot, write_slot, new_dispatcher, register_dispatcher, settle_slot,
  insert_source, insert_idle, cancel_idle, find_entry, entry_dispatcher, set_pending, check_same,
  enable, update, disable, take_and_unregister, remove_found, remove,
}
use calloop.Loop.Invariant.{IsSound, Kept, Keeps, Kept-refl, Kept-trans, Keeps-bind}
use calloop.Wheel.{TimerWheel}
use calloop.Loop.Program.{
  edits_timers, edit_timers, Program, done, panics, inserts_source, inserts_idle, cancels_idle,
  enables, updates, disables, removes, run,
}
use calloop.Loop.Invariant.Handling.{
  same-Kept, on_dispatcher-Keeps, attempt-Keeps, vacant_entry-Keeps, new_dispatcher-Kept,
  write_slot-Keeps, put-Kept, read_slot-Keeps, pure-Keeps, set_pending-Keeps, insert_idle-Keeps,
  cancel_idle-Keeps,
}

module _ {P S I : Type 0} where
  Kept-weaken : (k : ℕ) (l l' : LoopInner P S I) → Kept k l l' → Kept 0 l l'
  Kept-weaken k l l' h = record {
    sound = record { slots = h.sound.slots; backed = h.sound.backed; enough = omega arith };
    borrowed_as_before = h.borrowed_as_before;
  }

  edit_timers-Keeps :
      (f : TimerWheel → TimerWheel) → Keeps {P = P} {S = S} {I = I} 0 (edit_timers f)
  unfolding edit_timers
  edit_timers-Keeps f = record { keeps = λ l s. same-Kept 0 l _ refl refl s }

module _ {P S I : Type 0} ⦃e : EventSource P S⦄ where
  settle_slot-Keeps :
      (k i : ℕ) (t : TokenInner) (r : Result Error (Unit {0}))
      → Keeps {P = P} {S = S} {I = I} k (settle_slot i t r)
  unfolding settle_slot
  settle_slot-Keeps k i t (ok _) = pure-Keeps k (ok (record { inner = t }))
  settle_slot-Keeps k i t (err x) =
      Keeps-bind k (write_slot i none) (λ _. fail x) (write_slot-Keeps k i none tt)
        (λ _. pure-Keeps k (err x))
  settle_slot-Keeps k i t panicked = pure-Keeps k panicked

  register_dispatcher-Keeps :
      (id : ℕ) → Keeps {P = P} {S = S} {I = I} (suc id) (register_dispatcher id)
  unfolding register_dispatcher
  register_dispatcher-Keeps id =
      Keeps-bind (suc id) (on_sources vacant_entry) _ (vacant_entry-Keeps (suc id)) (λ i.
        Keeps-bind (suc id) (write_slot i (some id)) _
          (write_slot-Keeps (suc id) i (some id) (omega arith))
          (λ _. Keeps-bind (suc id) (read_slot i) _ (read_slot-Keeps (suc id) i) (λ t.
            Keeps-bind (suc id) (attempt (on_dispatcher id t register)) _
              (attempt-Keeps (suc id) _
                (on_dispatcher-Keeps (suc id) id t register register-KeepsBorrow))
              (settle_slot-Keeps (suc id) i t))))

  insert_source-Keeps :
      (inner : DispatcherInner S) → Keeps {P = P} {S = S} {I = I} 0 (insert_source inner)
  unfolding insert_source new_dispatcher
  insert_source-Keeps inner = record {
    keeps = λ l s.
        let h = new_dispatcher-Kept (suc (length l.dispatchers)) inner l (omega arith) s in
        Kept-weaken _ l _ (
          Kept-trans _ l _ _ h
            ((register_dispatcher-Keeps (length l.dispatchers)).keeps _ h.sound));
  }

  dispatcher-Keeps :
      (k : ℕ) (entry : SourceEntry ℕ) → Keeps {P = P} {S = S} {I = I} k (entry_dispatcher entry)
  unfolding entry_dispatcher
  dispatcher-Keeps k entry = record {
    keeps = λ l s. elim (Option-cases entry.source) [
      | inl q ↦ rw q (Kept-refl k l s)
      | inr (id, q) ↦ rw q (Kept-refl k l s)
    ];
  }

  check_same-Keeps :
      (k : ℕ) (t : RegistrationToken) (u : TokenInner)
      → Keeps {P = P} {S = S} {I = I} k (check_same t u)
  unfolding check_same
  check_same-Keeps k t u = record {
    keeps = λ l s. elim (Bool-cases (same_source_as t.inner u)) [
      | inl q ↦ rw q (Kept-refl k l s)
      | inr q ↦ rw q (Kept-refl k l s)
    ];
  }

  -- An entry is looked up, and then its dispatcher; neither changes anything.
  entered-Keeps :
      {A : Type 0} (k : ℕ) (t : RegistrationToken)
      (f : SourceEntry ℕ → ℕ → M Error (LoopInner P S I) A)
      → ((entry : SourceEntry ℕ) (id : ℕ) → Keeps k (f entry id))
      → Keeps k (find_entry t >>= λ entry. entry_dispatcher entry >>= f entry)
  unfolding find_entry
  entered-Keeps k t f h =
      Keeps-bind k (find_entry t) _ (record { keeps = λ l s. Kept-refl k l s })
        (λ entry.
          Keeps-bind k (entry_dispatcher entry) (f entry) (dispatcher-Keeps k entry) (h entry))

  enable-Keeps : (k : ℕ) (t : RegistrationToken) → Keeps {P = P} {S = S} {I = I} k (enable t)
  unfolding enable
  enable-Keeps k t =
      entered-Keeps k t _
        (λ entry id. on_dispatcher-Keeps k id entry.token register register-KeepsBorrow)

  update-Keeps : (k : ℕ) (t : RegistrationToken) → Keeps {P = P} {S = S} {I = I} k (update t)
  unfolding update
  update-Keeps k t = entered-Keeps k t _ (λ entry id.
      Keeps-bind k (on_dispatcher id entry.token reregister) (set_pending PostAction.reregister)
        (on_dispatcher-Keeps k id entry.token reregister reregister-KeepsBorrow)
        (set_pending-Keeps k PostAction.reregister))

  disable-Keeps : (k : ℕ) (t : RegistrationToken) → Keeps {P = P} {S = S} {I = I} k (disable t)
  unfolding disable check_same
  disable-Keeps k t = entered-Keeps k t _ (λ entry id.
      Keeps-bind k (check_same t entry.token) _ (check_same-Keeps k t entry.token) (λ _.
        Keeps-bind k (on_dispatcher id entry.token (unregister t)) (set_pending PostAction.disable)
          (on_dispatcher-Keeps k id entry.token (unregister t) (unregister-KeepsBorrow t))
          (set_pending-Keeps k PostAction.disable)))

  -- `unregister`, with its error logged.
  pub quietly-Keeps :
      (k id : ℕ) (t : TokenInner) (r : RegistrationToken)
      → Keeps {P = P} {S = S} {I = I} k (attempt (on_dispatcher id t (unregister r)) >> pure tt)
  quietly-Keeps k id t r =
      Keeps-bind k (attempt (on_dispatcher id t (unregister r))) _
        (attempt-Keeps k _ (on_dispatcher-Keeps k id t (unregister r) (unregister-KeepsBorrow r)))
        (λ _. pure-Keeps k (ok tt))

  take_and_unregister-Kept :
      (k : ℕ) (t : RegistrationToken) (entry : SourceEntry ℕ) (put : SourceEntry ℕ → SourceList ℕ)
      (o : Option ℕ) (l : LoopInner P S I)
      → get_mut l.sources t.inner ≡ ok (entry, put)
      → IsSound k l
      → Kept k l (take_and_unregister t entry put o l).1
  unfolding take_and_unregister on_sources
  take_and_unregister-Kept k t entry put none l q s = Kept-refl k l s
  take_and_unregister-Kept k t entry put (some id) l q s =
      let h = put-Kept k t.inner l entry put q s in
      Kept-trans k l _ _ h ((quietly-Keeps k id entry.token t).keeps _ h.sound)

  remove-Keeps : (k : ℕ) (t : RegistrationToken) → Keeps {P = P} {S = S} {I = I} k (remove t)
  unfolding remove remove_found
  remove-Keeps k t = record {
    keeps = λ l s. elim (Result-cases (get_mut l.sources t.inner)) [
      | inl ((entry, put), q) ↦ rw q (take_and_unregister-Kept k t entry put entry.source l q s)
      | inr (inl (x, q)) ↦ rw q (Kept-refl k l s)
      | inr (inr q) ↦ rw q (Kept-refl k l s)
    ];
  }

  -- Whatever a program calls, in whatever order, and however the calls end.
  pub run-Keeps :
      {A : Type 0} (program : Program S I A) → Keeps {P = P} {S = S} {I = I} 0 (run program)
  unfolding run
  run-Keeps (done a) = pure-Keeps 0 (ok a)
  run-Keeps panics = pure-Keeps 0 panicked
  run-Keeps (inserts_source inner k) =
      Keeps-bind 0 (attempt (insert_source inner)) _ (attempt-Keeps 0 _ (insert_source-Keeps inner))
        (λ r. run-Keeps (k r))
  run-Keeps (inserts_idle callback k) =
      Keeps-bind 0 (insert_idle callback) _ (insert_idle-Keeps 0 callback) (λ id. run-Keeps (k id))
  run-Keeps (cancels_idle id k) =
      Keeps-bind 0 (cancel_idle id) _ (cancel_idle-Keeps 0 id) (λ _. run-Keeps k)
  run-Keeps (enables t k) =
      Keeps-bind 0 (attempt (enable t)) _ (attempt-Keeps 0 _ (enable-Keeps 0 t))
        (λ r. run-Keeps (k r))
  run-Keeps (updates t k) =
      Keeps-bind 0 (attempt (update t)) _ (attempt-Keeps 0 _ (update-Keeps 0 t))
        (λ r. run-Keeps (k r))
  run-Keeps (disables t k) =
      Keeps-bind 0 (attempt (disable t)) _ (attempt-Keeps 0 _ (disable-Keeps 0 t))
        (λ r. run-Keeps (k r))
  run-Keeps (removes t k) = Keeps-bind 0 (remove t) _ (remove-Keeps 0 t) (λ _. run-Keeps k)
  run-Keeps (edits_timers f k) =
      Keeps-bind 0 (edit_timers f) _ (edit_timers-Keeps f) (λ _. run-Keeps k)
