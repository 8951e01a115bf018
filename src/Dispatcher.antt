-- ===== src/Dispatcher.antt =====
-- `DispatcherInner` and `AdditionalLifecycleEventsSet` of sources/mod.rs. `S` is an event source
-- together with the callback that its dispatcher holds; a `RefCell` knows whether it is borrowed.
pub mod Borrow
pub mod Enrolment
use calloop.Common.{List, [], ◌∷◌, ◌++◌, Bool, true, false, not, retain}
use calloop.Error.{Error, ok, M, pure, panic, ◌>>=◌, ◌>>◌}
use calloop.Token.{RegistrationToken, TokenFactory, token_eq, registration_token}
use calloop.Sys.{Poll}
use calloop.Sources.{Registering, EventSource}

pub record DispatcherInner (S : Type 0) : Type 0 where
  pub source : S
  pub needs_additional_lifecycle_events : Bool

-- `RefCell<DispatcherInner>`.
pub record DispatcherCell (S : Type 0) : Type 0 where
  pub inner : DispatcherInner S
  pub borrowed : Bool

abbrev pub LifecycleSet : Type 0
LifecycleSet = List RegistrationToken

unfoldable pub lifecycle_register : RegistrationToken → LifecycleSet → LifecycleSet
lifecycle_register t values = values ++ t ∷ []

unfoldable pub lifecycle_unregister : RegistrationToken → LifecycleSet → LifecycleSet
lifecycle_unregister t values = retain (λ it. not (token_eq it.inner t.inner)) values

-- What the methods of `EventDispatcher` borrow.
pub record Dispatching (P S : Type 0) : Type 0 where
  pub cell : DispatcherCell S
  pub poll : Poll P
  pub lifecycle : LifecycleSet
  pub factory : TokenFactory

module _ {P S : Type 0} where
  unfoldable pub enrol : Bool → M Error (Dispatching P S) (Unit {0})
  enrol false d = (ok tt, d)
  enrol true d = (
    ok tt,
    record d { lifecycle = lifecycle_register (registration_token d.factory) d.lifecycle },
  )

  unfoldable pub strike : Bool → RegistrationToken → M Error (Dispatching P S) (Unit {0})
  strike false t d = (ok tt, d)
  strike true t d = (ok tt, record d { lifecycle = lifecycle_unregister t d.lifecycle })

  unfoldable pub needs : M Error (Dispatching P S) Bool
  needs d = (ok d.cell.inner.needs_additional_lifecycle_events, d)

  -- `self.borrow_mut()`, which panics, and `self.try_borrow_mut()`.
  unfoldable pub is_borrowed : M Error (Dispatching P S) Bool
  is_borrowed d = (ok d.cell.borrowed, d)

module _ {P S : Type 0} ⦃e : EventSource P S⦄ where
  -- A method of the source, which is borrowed mutably.
  abbrev pub on_source : {A : Type 0} → M Error (Registering P S) A → M Error (Dispatching P S) A
  on_source m d =
      let (r, c) =
        m (record { source = d.cell.inner.source; poll = d.poll; factory = d.factory }) in
      (
        r,
        record d {
          cell = record (d.cell) { inner = record (d.cell.inner) { source = c.source } };
          poll = c.poll;
          factory = c.factory;
        },
      )

  unfoldable pub register_free : Bool → M Error (Dispatching P S) (Unit {0})
  unfolding enrol needs
  register_free true = panic
  register_free false = do n ← needs; enrol n; on_source e.register

  unfoldable pub register : M Error (Dispatching P S) (Unit {0})
  unfolding register_free is_borrowed
  register = do b ← is_borrowed; register_free b

  unfoldable pub reregister_free : Bool → M Error (Dispatching P S) Bool
  unfolding enrol needs
  reregister_free true = pure false
  reregister_free false = do on_source e.reregister; n ← needs; enrol n; pure true

  -- `Ok(false)` means that the dispatcher is in use, by its own callback.
  unfoldable pub reregister : M Error (Dispatching P S) Bool
  unfolding reregister_free is_borrowed
  reregister = do b ← is_borrowed; reregister_free b

  unfoldable pub unregister_free : RegistrationToken → Bool → M Error (Dispatching P S) Bool
  unfolding strike needs
  unregister_free t true = pure false
  unregister_free t false = do on_source e.unregister; n ← needs; strike n t; pure true

  unfoldable pub unregister : RegistrationToken → M Error (Dispatching P S) Bool
  unfolding unregister_free is_borrowed
  unregister t = do b ← is_borrowed; unregister_free t b
