-- ===== src/Loop/Handle.antt =====
-- The calls of `LoopHandle` in loop_logic.rs.
use calloop.Common.{
  ℕ, Option, none, some, List, [], ◌∷◌, ◌++◌, Bool, true, false, not, length, get_elem?, set,
  if◌then◌else◌,
}
use calloop.Error.{
  Error, invalid_token, Result, ok, err, panicked, M, pure, fail, panic, ◌>>=◌, ◌>>◌, zoom, attempt,
}
use calloop.Token.{TokenInner, RegistrationToken, same_source_as}
use calloop.PostAction.{PostAction}
use calloop.SourceList.{SourceList, SourceEntry, vacant_entry, get, get_mut}
use calloop.Sources.{EventSource}
use calloop.Dispatcher.{DispatcherInner, register, reregister, unregister}
use calloop.Loop.{IdleCell, LoopInner, on_dispatcher}

unfoldable pub fill :
    List (SourceEntry ℕ) → ℕ → Option ℕ → Option (SourceEntry ℕ) → List (SourceEntry ℕ)
fill es i source none = es
fill es i source (some e) = set es i (record e { source = source })

module _ {P S I : Type 0} where
  unfoldable pub on_sources : {A : Type 0} → M Error (SourceList ℕ) A → M Error (LoopInner P S I) A
  on_sources = zoom (λ l. l.sources) (λ s l. record l { sources = s })

  -- The slot behind the `&mut SourceEntry` of `vacant_entry`.
  unfoldable pub slot_token : Option (SourceEntry ℕ) → M Error (LoopInner P S I) TokenInner
  slot_token none = panic
  slot_token (some e) = pure e.token

  unfoldable pub read_slot : ℕ → M Error (LoopInner P S I) TokenInner
  unfolding slot_token
  read_slot i l = slot_token (get_elem? l.sources.sources i) l

  unfoldable pub write_slot : ℕ → Option ℕ → M Error (LoopInner P S I) (Unit {0})
  unfolding fill
  write_slot i source l =
      let es = l.sources.sources in
      (ok tt, record l { sources = record { sources = fill es i source (get_elem? es i) } })

  -- `Rc::new(RefCell::new(DispatcherInner { .. }))`.
  unfoldable pub new_dispatcher : DispatcherInner S → M Error (LoopInner P S I) ℕ
  new_dispatcher inner l = (
    ok (length l.dispatchers),
    record l { dispatchers = l.dispatchers ++ record { inner = inner; borrowed = false } ∷ [] },
  )

  -- The dispatcher found through an entry.
  unfoldable pub entry_dispatcher : SourceEntry ℕ → M Error (LoopInner P S I) ℕ
  entry_dispatcher e = elim e.source [ none ↦ fail invalid_token | some id ↦ pure id ]

  -- `if !done { self.inner.pending_action.set(action) }`.
  unfoldable pub set_pending : PostAction → Bool → M Error (LoopInner P S I) (Unit {0})
  set_pending action true l = (ok tt, l)
  set_pending action false l = (ok tt, record l { pending_action = action })

  -- `insert_idle`: the closure in its cell, and the handle by which it can be cancelled.
  unfoldable pub insert_idle : I → M Error (LoopInner P S I) ℕ
  insert_idle callback l =
      let id = length l.idle_cells in
      (
        ok id,
        record l {
          idle_cells =
              l.idle_cells ++ record { callback = some (some callback); borrowed = false } ∷ [];
          idles = l.idles ++ id ∷ [];
        },
      )

  unfoldable pub cancel_cell : ℕ → Option (IdleCell I) → M Error (LoopInner P S I) (Unit {0})
  cancel_cell id none l = (panicked, l)
  cancel_cell id (some cell) l =
      if cell.borrowed
      then (panicked, l)
      else (ok tt, record l { idle_cells = set l.idle_cells id (record cell { callback = none }) })

  -- `Idle::cancel`.
  unfoldable pub cancel_idle : ℕ → M Error (LoopInner P S I) (Unit {0})
  unfolding cancel_cell
  cancel_idle id l = cancel_cell id (get_elem? l.idle_cells id) l

module _ {P S I : Type 0} ⦃e : EventSource P S⦄ where
  unfoldable pub settle_slot :
      ℕ → TokenInner → Result Error (Unit {0}) → M Error (LoopInner P S I) RegistrationToken
  unfolding write_slot
  settle_slot i t (ok _) = pure (record { inner = t })
  settle_slot i t (err x) = do write_slot i none; fail x
  settle_slot i t panicked = panic

  -- `register_dispatcher`, for the dispatcher in the cell `id`.
  unfoldable pub register_dispatcher : ℕ → M Error (LoopInner P S I) RegistrationToken
  unfolding on_sources read_slot write_slot settle_slot
  register_dispatcher id = do
    i ← on_sources vacant_entry
    write_slot i (some id)
    t ← read_slot i
    ret ← attempt (on_dispatcher id t register)
    settle_slot i t ret

  -- `insert_source`; the source that an error gives back is the one passed in.
  unfoldable pub insert_source : DispatcherInner S → M Error (LoopInner P S I) RegistrationToken
  unfolding register_dispatcher new_dispatcher
  insert_source inner = do id ← new_dispatcher inner; register_dispatcher id

  unfoldable pub find_entry : RegistrationToken → M Error (LoopInner P S I) (SourceEntry ℕ)
  find_entry t l = (get l.sources t.inner, l)

  unfoldable pub enable : RegistrationToken → M Error (LoopInner P S I) (Unit {0})
  unfolding find_entry entry_dispatcher
  enable t = do
    entry ← find_entry t
    id ← entry_dispatcher entry
    on_dispatcher id entry.token register

  unfoldable pub update : RegistrationToken → M Error (LoopInner P S I) (Unit {0})
  unfolding find_entry entry_dispatcher set_pending
  update t = do
    entry ← find_entry t
    id ← entry_dispatcher entry
    done ← on_dispatcher id entry.token reregister
    set_pending PostAction.reregister done

  unfoldable pub check_same : RegistrationToken → TokenInner → M Error (LoopInner P S I) (Unit {0})
  check_same t entry_token =
      if not (same_source_as t.inner entry_token) then fail invalid_token else pure tt

  unfoldable pub disable : RegistrationToken → M Error (LoopInner P S I) (Unit {0})
  unfolding find_entry entry_dispatcher set_pending check_same
  disable t = do
    entry ← find_entry t
    id ← entry_dispatcher entry
    check_same t entry.token
    done ← on_dispatcher id entry.token (unregister t)
    set_pending PostAction.disable done

  -- `source.take()` through the reference of `get_mut`, then `unregister`, whose error is logged.
  unfoldable pub take_and_unregister :
      RegistrationToken
      → SourceEntry ℕ
      → (SourceEntry ℕ → SourceList ℕ)
      → Option ℕ
      → M Error (LoopInner P S I) (Unit {0})
  take_and_unregister t entry put none = pure tt
  take_and_unregister t entry put (some id) = do
    on_sources (λ s. (ok tt, put (record entry { source = none })))
    attempt (on_dispatcher id entry.token (unregister t))
    pure tt

  unfoldable pub remove_found :
      RegistrationToken
      → Result Error (SourceEntry ℕ × (SourceEntry ℕ → SourceList ℕ))
      → M Error (LoopInner P S I) (Unit {0})
  unfolding take_and_unregister on_sources
  remove_found t (ok (entry, put)) = take_and_unregister t entry put entry.source
  remove_found t _ = pure tt

  unfoldable pub remove : RegistrationToken → M Error (LoopInner P S I) (Unit {0})
  unfolding remove_found
  remove t l = remove_found t (get_mut l.sources t.inner) l
