-- ===== src/Loop/Idles/Calls.antt =====
-- No call of `LoopHandle` in loop_logic.rs, and no program of them, makes a spent callback callable.
use calloop.Common.{
  ℕ, ◌≡◌, refl, inl, inr, Option, none, some, Bool, true, false, get_elem?, Option-cases,
  Bool-cases,
}
use calloop.Error.{Error, Result, ok, err, panicked, M, Result-cases, ◌>>=◌, pure, ◌>>◌, attempt}
use calloop.Token.{TokenInner, RegistrationToken, same_source_as}
use calloop.PostAction.{PostAction}
use calloop.SourceList.{SourceEntry, SourceList, vacant_entry, get_mut}
use calloop.Sources.{EventSource}
use calloop.Dispatcher.{DispatcherInner, register, reregister, unregister}
use calloop.Dispatcher.{Dispatching}
use calloop.Loop.{LoopInner, IdleCell, on_dispatcher}
use calloop.Loop.Handle.{
  on_sources, read_slot, slot_token, write_slot, settle_slot, new_dispatcher, register_dispatcher,
  insert_source, insert_idle, cancel_idle, cancel_cell, find_entry, entry_dispatcher, set_pending,
  check_same, enable, update, disable, take_and_unregister, remove_found, remove,
}
use calloop.Wheel.{TimerWheel}
use calloop.Loop.Program.{
  edits_timers, edit_timers, Program, done, panics, inserts_source, inserts_idle, cancels_idle,
  enables, updates, disables, removes, run,
}
use calloop.Loop.Idles.{
  IsSpent, IsSpent-append, IsSpent-set, KeepsSpent, KeepsSpent-bind, cells-on_dispatcher,
  same-KeepsSpent,
}

module _ {P S I : Type 0} ⦃e : EventSource P S⦄ where
  cells-settle_slot :
      (i : ℕ) (t : TokenInner) (r : Result Error (Unit {0})) (l : LoopInner P S I)
      → (settle_slot i t r l).1.idle_cells ≡ l.idle_cells
  unfolding settle_slot write_slot
  cells-settle_slot i t (ok _) l = refl
  cells-settle_slot i t (err x) l = refl
  cells-settle_slot i t panicked l = refl

  cells-read_slot : (i : ℕ) (l : LoopInner P S I) → (read_slot i l).1.idle_cells ≡ l.idle_cells
  unfolding read_slot slot_token
  cells-read_slot i l = elim (Option-cases (get_elem? l.sources.sources i)) [
    | inl q ↦ rw q refl
    | inr (x, q) ↦ rw q refl
  ]

  on_dispatcher-KeepsSpent :
      {A : Type 0} (i id : ℕ) (t : TokenInner) (m : M Error (Dispatching P S) A)
      → KeepsSpent {P = P} {S = S} {I = I} i (on_dispatcher id t m)
  on_dispatcher-KeepsSpent i id t m = same-KeepsSpent i _ (cells-on_dispatcher id t m)

  attempt-KeepsSpent :
      {A : Type 0} (i : ℕ) (m : M Error (LoopInner P S I) A)
      → KeepsSpent i m
      → KeepsSpent i (attempt m)
  attempt-KeepsSpent i m h = record { keeps = λ l s. h.keeps l s }

  insert_source-KeepsSpent :
      (i : ℕ) (inner : DispatcherInner S)
      → KeepsSpent {P = P} {S = S} {I = I} i (insert_source inner)
  unfolding insert_source new_dispatcher register_dispatcher on_sources write_slot
  insert_source-KeepsSpent i inner =
      KeepsSpent-bind i (new_dispatcher inner) register_dispatcher (same-KeepsSpent i _ (λ l. refl))
        (λ id. KeepsSpent-bind i (on_sources vacant_entry) _ (same-KeepsSpent i _ (λ l. refl)) (λ j.
          KeepsSpent-bind i (write_slot j (some id)) _ (same-KeepsSpent i _ (λ l. refl)) (λ _.
            KeepsSpent-bind i (read_slot j) _ (same-KeepsSpent i _ (cells-read_slot j)) (λ t.
              KeepsSpent-bind i (attempt (on_dispatcher id t register)) _
                (attempt-KeepsSpent i _ (on_dispatcher-KeepsSpent i id t register))
                (λ r. same-KeepsSpent i (settle_slot j t r) (cells-settle_slot j t r))))))

  cells-entry_dispatcher :
      (entry : SourceEntry ℕ) (l : LoopInner P S I)
      → (entry_dispatcher entry l).1.idle_cells ≡ l.idle_cells
  unfolding entry_dispatcher
  cells-entry_dispatcher entry l = elim (Option-cases entry.source) [
    | inl q ↦ rw q refl
    | inr (x, q) ↦ rw q refl
  ]

  entered-KeepsSpent :
      {A : Type 0} (i : ℕ) (t : RegistrationToken)
      (f : SourceEntry ℕ → ℕ → M Error (LoopInner P S I) A)
      → ((entry : SourceEntry ℕ) (id : ℕ) → KeepsSpent i (f entry id))
      → KeepsSpent i (find_entry t >>= λ entry. entry_dispatcher entry >>= f entry)
  unfolding find_entry
  entered-KeepsSpent i t f h =
      KeepsSpent-bind i (find_entry t) _ (same-KeepsSpent i _ (λ l. refl)) (λ entry.
        KeepsSpent-bind i (entry_dispatcher entry) (f entry)
          (same-KeepsSpent i _ (cells-entry_dispatcher entry)) (h entry))

  cells-set_pending :
      (a : PostAction) (b : Bool) (l : LoopInner P S I)
      → (set_pending a b l).1.idle_cells ≡ l.idle_cells
  unfolding set_pending
  cells-set_pending a true l = refl
  cells-set_pending a false l = refl

  cells-check_same :
      (t : RegistrationToken) (u : TokenInner) (l : LoopInner P S I)
      → (check_same t u l).1.idle_cells ≡ l.idle_cells
  unfolding check_same
  cells-check_same t u l = elim (Bool-cases (same_source_as t.inner u)) [
    | inl q ↦ rw q refl
    | inr q ↦ rw q refl
  ]

  enable-KeepsSpent :
      (i : ℕ) (t : RegistrationToken) → KeepsSpent {P = P} {S = S} {I = I} i (enable t)
  unfolding enable
  enable-KeepsSpent i t =
      entered-KeepsSpent i t _ (λ entry id. on_dispatcher-KeepsSpent i id entry.token register)

  update-KeepsSpent :
      (i : ℕ) (t : RegistrationToken) → KeepsSpent {P = P} {S = S} {I = I} i (update t)
  unfolding update
  update-KeepsSpent i t = entered-KeepsSpent i t _ (λ entry id.
      KeepsSpent-bind i (on_dispatcher id entry.token reregister)
        (set_pending PostAction.reregister) (on_dispatcher-KeepsSpent i id entry.token reregister)
        (λ b. same-KeepsSpent i _ (cells-set_pending PostAction.reregister b)))

  disable-KeepsSpent :
      (i : ℕ) (t : RegistrationToken) → KeepsSpent {P = P} {S = S} {I = I} i (disable t)
  unfolding disable
  disable-KeepsSpent i t = entered-KeepsSpent i t _ (λ entry id.
      KeepsSpent-bind i (check_same t entry.token) _
        (same-KeepsSpent i _ (cells-check_same t entry.token))
        (λ _.
          KeepsSpent-bind i (on_dispatcher id entry.token (unregister t))
            (set_pending PostAction.disable)
            (on_dispatcher-KeepsSpent i id entry.token (unregister t))
            (λ b. same-KeepsSpent i _ (cells-set_pending PostAction.disable b))))

  quietly-KeepsSpent :
      (i id : ℕ) (t : TokenInner) (r : RegistrationToken)
      → KeepsSpent {P = P} {S = S} {I = I} i
          (attempt (on_dispatcher id t (unregister r)) >> pure tt)
  quietly-KeepsSpent i id t r =
      KeepsSpent-bind i (attempt (on_dispatcher id t (unregister r))) _
        (attempt-KeepsSpent i _ (on_dispatcher-KeepsSpent i id t (unregister r)))
        (λ _. same-KeepsSpent i _ (λ l. refl))

  take_and_unregister-KeepsSpent :
      (i : ℕ) (t : RegistrationToken) (entry : SourceEntry ℕ) (put : SourceEntry ℕ → SourceList ℕ)
      (o : Option ℕ)
      → KeepsSpent {P = P} {S = S} {I = I} i (take_and_unregister t entry put o)
  unfolding take_and_unregister on_sources
  take_and_unregister-KeepsSpent i t entry put none = same-KeepsSpent i _ (λ l. refl)
  take_and_unregister-KeepsSpent i t entry put (some id) = record {
    keeps = λ l s. (quietly-KeepsSpent i id entry.token t).keeps _ s;
  }

  remove-KeepsSpent :
      (i : ℕ) (t : RegistrationToken) → KeepsSpent {P = P} {S = S} {I = I} i (remove t)
  unfolding remove remove_found
  remove-KeepsSpent i t = record {
    keeps = λ l s. elim (Result-cases (get_mut l.sources t.inner)) [
      | inl ((entry, put), q) ↦
          rw q ((take_and_unregister-KeepsSpent i t entry put entry.source).keeps l s)
      | inr (inl (x, q)) ↦ rw q s
      | inr (inr q) ↦ rw q s
    ];
  }

  insert_idle-KeepsSpent : (i : ℕ) (f : I) → KeepsSpent {P = P} {S = S} i (insert_idle f)
  unfolding insert_idle
  insert_idle-KeepsSpent i f = record { keeps = λ l s. IsSpent-append l.idle_cells _ i s }

  IsSpent-cancel_cell :
      (i id : ℕ) (o : Option (IdleCell I)) (l : LoopInner P S I)
      → IsSpent (get_elem? l.idle_cells i)
      → IsSpent (get_elem? (cancel_cell id o l).1.idle_cells i)
  unfolding cancel_cell
  IsSpent-cancel_cell i id none l s = s
  IsSpent-cancel_cell i id (some c) l s = elim (Bool-cases c.borrowed) [
    | inl q ↦ rw q s
    | inr q ↦
        rw q (IsSpent-set l.idle_cells i id (record { callback = none; borrowed = false }) tt s)
  ]

  cancel_idle-KeepsSpent : (i id : ℕ) → KeepsSpent {P = P} {S = S} {I = I} i (cancel_idle id)
  unfolding cancel_idle
  cancel_idle-KeepsSpent i id = record {
    keeps = λ l s. IsSpent-cancel_cell i id (get_elem? l.idle_cells id) l s;
  }

  edit_timers-KeepsSpent :
      (i : ℕ) (f : TimerWheel → TimerWheel) → KeepsSpent {P = P} {S = S} {I = I} i (edit_timers f)
  unfolding edit_timers
  edit_timers-KeepsSpent i f = same-KeepsSpent i _ (λ l. refl)

  pub run-KeepsSpent :
      {A : Type 0} (i : ℕ) (program : Program S I A)
      → KeepsSpent {P = P} {S = S} {I = I} i (run program)
  unfolding run
  run-KeepsSpent i (done a) = same-KeepsSpent i _ (λ l. refl)
  run-KeepsSpent i panics = same-KeepsSpent i _ (λ l. refl)
  run-KeepsSpent i (inserts_source inner k) =
      KeepsSpent-bind i (attempt (insert_source inner)) _
        (attempt-KeepsSpent i _ (insert_source-KeepsSpent i inner)) (λ r. run-KeepsSpent i (k r))
  run-KeepsSpent i (inserts_idle callback k) =
      KeepsSpent-bind i (insert_idle callback) _ (insert_idle-KeepsSpent i callback)
        (λ id. run-KeepsSpent i (k id))
  run-KeepsSpent i (cancels_idle id k) =
      KeepsSpent-bind i (cancel_idle id) _ (cancel_idle-KeepsSpent i id) (λ _. run-KeepsSpent i k)
  run-KeepsSpent i (enables t k) =
      KeepsSpent-bind i (attempt (enable t)) _ (attempt-KeepsSpent i _ (enable-KeepsSpent i t))
        (λ r. run-KeepsSpent i (k r))
  run-KeepsSpent i (updates t k) =
      KeepsSpent-bind i (attempt (update t)) _ (attempt-KeepsSpent i _ (update-KeepsSpent i t))
        (λ r. run-KeepsSpent i (k r))
  run-KeepsSpent i (disables t k) =
      KeepsSpent-bind i (attempt (disable t)) _ (attempt-KeepsSpent i _ (disable-KeepsSpent i t))
        (λ r. run-KeepsSpent i (k r))
  run-KeepsSpent i (removes t k) =
      KeepsSpent-bind i (remove t) _ (remove-KeepsSpent i t) (λ _. run-KeepsSpent i k)
  run-KeepsSpent i (edits_timers f k) =
      KeepsSpent-bind i (edit_timers f) _ (edit_timers-KeepsSpent i f) (λ _. run-KeepsSpent i k)
