-- ===== src/Sources/Transient/Actions.antt =====
-- What the wrapper of sources/transient.rs tells its parent, and what `map`, `remove` and `replace`
-- make of its state.
use calloop.Common.{◌≡◌, ◌≢◌, refl, inl, inr, Bool, true, false, arith, Option}
use calloop.Error.{Error, Result, ok, err, panicked, M, bind_result}
use calloop.PostAction.{PostAction}
use calloop.Sources.{Registering, EventSource}
use calloop.Sources.Transient.{
  TransientSourceState, TransientSource, keep, register, disable, remove, replace, none, map,
  process_events, remove_source, is_none, reregister_source, reregister_state, in_variant,
  replace_state, change_state,
}
use calloop.Sources.Transient.Lifecycle.{Tracks, inner, outer, in_variant-cases, registered_after}

-- The states from which events reach the nested source.
abbrev pub is_kept : {T : Type 0} → TransientSourceState T → Bool
is_kept (keep s) = true
is_kept _ = false

-- The variant that a child's action leaves the wrapper in.
abbrev pub state_for : {T : Type 0} → PostAction → T → TransientSourceState T
state_for PostAction.continue s = keep s
state_for PostAction.reregister s = keep s
state_for PostAction.disable s = disable s
state_for PostAction.remove s = remove s

-- What the parent is told.
abbrev pub reported : PostAction → PostAction
reported PostAction.continue = PostAction.continue
reported _ = PostAction.reregister

-- The three ways in which an event passes through the wrapper.
pub data Passes {T E C : Type 0} (child : M E (T × C) PostAction) (t : TransientSource T) (c : C)
    (r : Result E PostAction × (TransientSource T × C)) : Type 0 where
  ignored : is_kept t.state ≡ false → r ≡ (ok PostAction.continue, (t, c)) → Passes child t c r
  acted :
      (s s' : T) (c' : C) (a : PostAction)
      → t.state ≡ keep s
      → child (s, c) ≡ (ok a, (s', c'))
      → r ≡ (ok (reported a), (record { state = state_for a s' }, c'))
      → Passes child t c r
  errored :
      (s s' : T) (c' : C) (x : E)
      → t.state ≡ keep s
      → child (s, c) ≡ (err x, (s', c'))
      → r ≡ (err x, (record { state = keep s' }, c'))
      → Passes child t c r
  unwound :
      (s s' : T) (c' : C)
      → t.state ≡ keep s
      → child (s, c) ≡ (panicked, (s', c'))
      → r ≡ (panicked, (record { state = keep s' }, c'))
      → Passes child t c r

module _ {T E C : Type 0} (child : M E (T × C) PostAction) where
  kept-Passes :
      (s : T) (c : C) (r : Result E PostAction × (T × C))
      → child (s, c) ≡ r
      → Passes child
          (record { state = keep s })
          c
          (process_events child (record { state = keep s }, c))
  unfolding process_events
  kept-Passes s c (ok PostAction.continue, (s', c')) q =
      acted s s' c' PostAction.continue refl q (ground arith)
  kept-Passes s c (ok PostAction.reregister, (s', c')) q =
      acted s s' c' PostAction.reregister refl q (ground arith)
  kept-Passes s c (ok PostAction.disable, (s', c')) q =
      acted s s' c' PostAction.disable refl q (ground arith)
  kept-Passes s c (ok PostAction.remove, (s', c')) q =
      acted s s' c' PostAction.remove refl q (ground arith)
  kept-Passes s c (err x, (s', c')) q = errored s s' c' x refl q (ground arith)
  kept-Passes s c (panicked, (s', c')) q = unwound s s' c' refl q (ground arith)

  -- The wrapper hands an event to the nested source only while it keeps it. It reports `Continue`
  -- or `Reregister` alone, stores what else the child asked for in its state, and passes an error
  -- or a panic on with the child still kept.
  pub process_events-Passes :
      (t : TransientSource T) (c : C) → Passes child t c (process_events child (t, c))
  process_events-Passes t c = go t.state
    where
      go :
          (s : TransientSourceState T)
          → Passes child (record { state = s }) c (process_events child (record { state = s }, c))
      go (keep s) = kept-Passes s c (child (s, c)) refl
      go (register s) = ignored refl (unfold process_events in refl)
      go (disable s) = ignored refl (unfold process_events in refl)
      go (remove s) = ignored refl (unfold process_events in refl)
      go (replace n o) = ignored refl (unfold process_events in refl)
      go none = ignored refl (unfold process_events in refl)

emptied : {T : Type 0} (s : TransientSourceState T) → replace_state (λ _. none) s ≡ none
unfolding replace_state
emptied (keep s) = refl
emptied (register s) = refl
emptied (disable s) = refl
emptied (remove s) = refl
emptied (replace n o) = refl
emptied none = refl

module _ {P T : Type 0} ⦃e : EventSource P T⦄ where
  removed :
      {U E C : Type 0} (f : T → U × T) (child : M E (T × C) PostAction) (x : C)
      (c : Registering P (TransientSource T)) (s : T)
      → let t : TransientSource T = record { state = remove s } in
        let c' = reregister_source (record c { source = t }) in
        ((map f t).0 ≡ Option.none)
        × (process_events child (t, x) ≡ (ok PostAction.continue, (t, x)))
        × (c'.0 ≡ ok tt → is_none c'.1.source ≡ true)
  unfolding map process_events reregister_source is_none
  removed f child x c s = (
    refl,
    refl,
    gone (in_variant remove e.unregister s (record c { source = record { state = remove s } })),
  )
    where
      gone :
          (v : Result Error T × Registering P (TransientSource T))
          → (bind_result v (λ _. change_state (λ _. none))).0 ≡ ok tt
          → is_none (bind_result v (λ _. change_state (λ _. none))).1.source ≡ true
      gone (ok y, c') q = rw (emptied c'.source.state)
      gone (err y, c') q = absurd (ground arith)
      gone (panicked, c') q = absurd (ground arith)

  -- A source that is removed is out of reach of `map` and of events at once, and the next
  -- `reregister` that succeeds unregisters it and leaves the wrapper empty.
  pub remove_source_lem :
      {U E C : Type 0} (f : T → U × T) (child : M E (T × C) PostAction) (x : C)
      (c : Registering P (TransientSource T))
      → let t = remove_source c.source in
        let c' = reregister_source (record c { source = t }) in
        ((map f t).0 ≡ Option.none)
        × (process_events child (t, x) ≡ (ok PostAction.continue, (t, x)))
        × (c'.0 ≡ ok tt → is_none c'.1.source ≡ true)
  unfolding remove_source
  remove_source_lem {U} {E} {C} f child x c = go c.source.state
    where
      go :
          (s : TransientSourceState T)
          → let t = remove_source (record { state = s }) in
            let c' = reregister_source (record c { source = t }) in
            ((map f t).0 ≡ Option.none)
            × (process_events child (t, x) ≡ (ok PostAction.continue, (t, x)))
            × (c'.0 ≡ ok tt → is_none c'.1.source ≡ true)
      go none =
          unfold remove_source map process_events reregister_source is_none in
          (refl, refl, λ q. refl)
      go (keep s) = removed f child x c s
      go (register s) = removed f child x c s
      go (disable s) = removed f child x c s
      go (remove s) = removed f child x c s
      go (replace n o) = removed f child x c n

  disabled_step :
      (k : Tracks P T e) (s : T) (c : Registering P (TransientSource T))
      → (reregister_state (disable s) c).0 ≡ ok tt
      → let c' = (e.unregister (inner k s c)).1 in
        ((e.unregister (inner k s c)).0 ≡ ok tt)
        × (reregister_state (disable s) c ≡ (ok tt, outer k (disable c'.source) c'))
  unfolding reregister_state
  disabled_step k s c h = elim (in_variant-cases k disable e.unregister s c) [
    | inl (q, g) ↦ (q, rw g refl)
    | inr (inl (x, g)) ↦ absurd (ground arith)
    | inr (inr g) ↦ absurd (ground arith)
  ]

  -- A wrapper that holds a disabled source fails to reregister the second time, if the source, like
  -- a descriptor unknown to the poller, refuses to be unregistered twice.
  pub reregister_disabled_again :
      (k : Tracks P T e)
      (strict : (c : Registering P T) → k.registered c.source ≡ false → (e.unregister c).0 ≢ ok tt)
      (c : Registering P (TransientSource T)) (s : T)
      → c.source.state ≡ disable s
      → (reregister_source c).0 ≡ ok tt
      → (reregister_source (reregister_source c).1).0 ≢ ok tt
  unfolding reregister_source in_variant
  reregister_disabled_again k strict c s d h h' =
      let c₁ = (e.unregister (inner k s c)).1 in
      let (q, f) = disabled_step k s c (rw d at h) in
      let off = registered_after k e.unregister false k.unregister_ok (inner k s c) q in
      let e₁ : reregister_source c ≡ (ok tt, outer k (disable c₁.source) c₁) = rw d f in
      let (q', _) = disabled_step k c₁.source (outer k (disable c₁.source) c₁) (rw e₁ at h') in
      strict (inner k c₁.source (outer k (disable c₁.source) c₁)) off q'
