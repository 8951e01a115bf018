-- ===== src/Sources/Transient.antt =====
-- sources/transient.rs: a wrapper that registers, disables, replaces and removes a nested source.
-- `T` is the nested source, `C` what the callback captures.
pub mod Lifecycle
pub mod Actions
use calloop.Common.{Option, some, Bool, true, false}
use calloop.Error.{bind_result, Error, Result, ok, err, panicked, M, pure, ◌>>=◌, ◌>>◌}
use calloop.PostAction.{PostAction}
use calloop.Sources.{Registering, EventSource, get_source, modify_source}

pub data TransientSourceState (T : Type 0) : Type 0 where
  keep register disable remove : T → TransientSourceState T
  replace : (new old : T) → TransientSourceState T
  none : TransientSourceState T

pub record TransientSource (T : Type 0) : Type 0 where
  pub state : TransientSourceState T

module _ {T : Type 0} where
  -- `Default`, and `From<T>`.
  unfoldable pub default : TransientSource T
  default = record { state = none }

  unfoldable pub from : T → TransientSource T
  from source = record { state = register source }

  -- The source is taken out, with `None` in its place, and wrapped anew.
  unfoldable pub replace_state :
      (T → TransientSourceState T) → TransientSourceState T → TransientSourceState T
  replace_state replacer (keep source) = replacer source
  replace_state replacer (register source) = replacer source
  replace_state replacer (remove source) = replacer source
  replace_state replacer (disable source) = replacer source
  replace_state replacer (replace new old) = replacer new
  replace_state replacer none = none

  map_state :
      {U : Type 0} → (T → U × T) → TransientSourceState T → Option U × TransientSourceState T
  map_state f (keep source) = let (u, s) = f source in (some u, keep s)
  map_state f (register source) = let (u, s) = f source in (some u, register s)
  map_state f (disable source) = let (u, s) = f source in (some u, disable s)
  map_state f (replace new old) = let (u, s) = f new in (some u, replace s old)
  map_state f (remove source) = (Option.none, remove source)
  map_state f none = (Option.none, none)

  -- `TransientSource::map`: the function may change the source.
  unfoldable pub map : {U : Type 0} → (T → U × T) → TransientSource T → Option U × TransientSource T
  unfolding map_state
  map f t = let (u, s) = map_state f t.state in (u, record { state = s })

  abbrev pub is_none_state : TransientSourceState T → Bool
  is_none_state none = true
  is_none_state _ = false

  unfoldable pub is_none : TransientSource T → Bool
  is_none t = is_none_state t.state

  unfoldable pub remove_source : TransientSource T → TransientSource T
  unfolding replace_state
  remove_source t = record { state = replace_state remove t.state }

  unfoldable pub replace_source : T → TransientSource T → TransientSource T
  unfolding replace_state
  replace_source new t = record { state = replace_state (λ old. replace new old) t.state }

  module _ {E C : Type 0} where
    -- What the child's action makes of the state, and whether a re-registration is due.
    after_child : Result E PostAction × (T × C) → Result E PostAction × (TransientSource T × C)
    unfolding replace_state
    after_child (ok PostAction.continue, (s, c)) =
        (ok PostAction.continue, (record { state = keep s }, c))
    after_child (ok PostAction.reregister, (s, c)) =
        (ok PostAction.reregister, (record { state = keep s }, c))
    after_child (ok PostAction.disable, (s, c)) =
        (ok PostAction.reregister, (record { state = replace_state disable (keep s) }, c))
    after_child (ok PostAction.remove, (s, c)) =
        (ok PostAction.reregister, (record { state = replace_state remove (keep s) }, c))
    after_child (err e, (s, c)) = (err e, (record { state = keep s }, c))
    after_child (panicked, (s, c)) = (panicked, (record { state = keep s }, c))

    process_state :
        M E (T × C) PostAction
        → C
        → TransientSourceState T
        → Result E PostAction × (TransientSource T × C)
    unfolding after_child
    process_state child c (keep source) = after_child (child (source, c))
    process_state child c s = (ok PostAction.continue, (record { state = s }, c))

    -- `child` is the nested `process_events` at the readiness, token and callback given.
    unfoldable pub process_events : M E (T × C) PostAction → M E (TransientSource T × C) PostAction
    unfolding process_state
    process_events child (t, c) = process_state child c t.state

module _ {P T : Type 0} ⦃e : EventSource P T⦄ where
  -- An operation on the source inside the variant `k`; its result is the source after it.
  unfoldable pub in_variant :
      (T → TransientSourceState T)
      → M Error (Registering P T) (Unit {0})
      → T
      → M Error (Registering P (TransientSource T)) T
  in_variant k m source c =
      let (r, c') = m (record { source = source; poll = c.poll; factory = c.factory }) in
      let c'' : Registering P (TransientSource T) = record {
        source = record { state = k c'.source };
        poll = c'.poll;
        factory = c'.factory;
      } in
      bind_result (r, c'') (λ _ s. (ok c'.source, s))

  -- `self.state.replace_state(replacer)`.
  change_state :
      (T → TransientSourceState T) → M Error (Registering P (TransientSource T)) (Unit {0})
  unfolding replace_state
  change_state replacer = modify_source λ t. record { state = replace_state replacer t.state }

  register_state : TransientSourceState T → M Error (Registering P (TransientSource T)) (Unit {0})
  unfolding change_state
  register_state (keep source) = do in_variant keep e.register source; pure tt
  register_state (register source) = do in_variant register e.register source; change_state keep
  register_state (disable source) = do in_variant disable e.register source; change_state keep
  register_state (replace new old) = do
    in_variant (λ n. replace n old) e.register new
    change_state keep
  register_state (remove source) = change_state (λ _. none)
  register_state none = pure tt

  unfoldable pub register_source : M Error (Registering P (TransientSource T)) (Unit {0})
  unfolding register_state
  register_source = do t ← get_source; register_state t.state

  reregister_state : TransientSourceState T → M Error (Registering P (TransientSource T)) (Unit {0})
  unfolding change_state
  reregister_state (keep source) = do in_variant keep e.reregister source; pure tt
  reregister_state (register source) = do in_variant register e.register source; change_state keep
  reregister_state (disable source) = do in_variant disable e.unregister source; pure tt
  reregister_state (remove source) = do
    in_variant remove e.unregister source
    change_state (λ _. none)
  reregister_state (replace new old) = do
    old' ← in_variant (λ o. replace new o) e.unregister old
    in_variant (λ n. replace n old') e.register new
    change_state keep
  reregister_state none = pure tt

  unfoldable pub reregister_source : M Error (Registering P (TransientSource T)) (Unit {0})
  unfolding reregister_state
  reregister_source = do t ← get_source; reregister_state t.state

  unregister_state : TransientSourceState T → M Error (Registering P (TransientSource T)) (Unit {0})
  unfolding change_state
  unregister_state (keep source) = do in_variant keep e.unregister source; pure tt
  unregister_state (register source) = do in_variant register e.unregister source; pure tt
  unregister_state (disable source) = do in_variant disable e.unregister source; pure tt
  unregister_state (remove source) = do
    in_variant remove e.unregister source
    change_state (λ _. none)
  unregister_state (replace new old) = do
    old' ← in_variant (λ o. replace new o) e.unregister old
    in_variant (λ n. replace n old') e.unregister new
    change_state register
  unregister_state none = pure tt

  unfoldable pub unregister_source : M Error (Registering P (TransientSource T)) (Unit {0})
  unfolding unregister_state
  unregister_source = do t ← get_source; unregister_state t.state

  instance abbrev pub transient_source : EventSource P (TransientSource T)
  transient_source = record {
    register = register_source;
    reregister = reregister_source;
    unregister = unregister_source;
  }
