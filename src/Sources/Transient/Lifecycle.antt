-- ===== src/Sources/Transient/Lifecycle.antt =====
-- Registration through the wrapper of sources/transient.rs: which nested source is registered with
-- the poll after `register`, `reregister` and `unregister`.
use calloop.Common.{◌≡◌, ◌⊎◌, inl, inr, Bool, true, false, arith}
use calloop.Error.{Error, ok, err, panicked, M, ◌>>=◌, Result-cases}
use calloop.Sources.{Registering, EventSource}
use calloop.Sources.Transient.{
  TransientSourceState, TransientSource, keep, register, disable, remove, replace, none,
  register_source, unregister_source, register_state, unregister_state, in_variant,
}

-- What a nested source promises: whether it is registered, as its successful operations leave it.
pub record Tracks (P T : Type 0) (e : EventSource P T) : Type 0 where
  pub registered : T → Bool
  pub register_ok :
      (c c' : Registering P T) → e.register c ≡ (ok tt, c') → registered c'.source ≡ true
  pub reregister_ok :
      (c c' : Registering P T) → e.reregister c ≡ (ok tt, c') → registered c'.source ≡ true
  pub unregister_ok :
      (c c' : Registering P T) → e.unregister c ≡ (ok tt, c') → registered c'.source ≡ false

module _ {P T : Type 0} ⦃e : EventSource P T⦄ (k : Tracks P T e) where
  abbrev pub IsKept : TransientSourceState T → Type 0
  IsKept (keep s) = k.registered s ≡ true
  IsKept _ = ⊥

  abbrev pub IsDisabled : TransientSourceState T → Type 0
  IsDisabled (disable s) = k.registered s ≡ false
  IsDisabled _ = ⊥

  -- What was asked for, in the first state, is done in the second: a source that was kept or is new is
  -- kept and registered, one to be disabled is held and not registered, and one to be removed is gone.
  abbrev pub IsSettled : TransientSourceState T → TransientSourceState T → Type 0
  IsSettled (keep s) state = IsKept state
  IsSettled (register s) state = IsKept state
  IsSettled (replace n o) state = IsKept state
  IsSettled (disable s) state = IsDisabled state
  IsSettled (remove s) state = state ≡ none
  IsSettled none state = state ≡ none

  -- No source that is held is registered, and none waits to be removed or replaced.
  abbrev pub IsReleased : TransientSourceState T → Type 0
  IsReleased (keep s) = k.registered s ≡ false
  IsReleased (register s) = k.registered s ≡ false
  IsReleased (disable s) = k.registered s ≡ false
  IsReleased none = Unit
  IsReleased _ = ⊥

  -- A kept source that is registered, or nothing.
  abbrev pub IsActive : TransientSourceState T → Type 0
  IsActive (keep s) = k.registered s ≡ true
  IsActive none = Unit
  IsActive _ = ⊥

  abbrev pub inner : T → Registering P (TransientSource T) → Registering P T
  inner s c = record { source = s; poll = c.poll; factory = c.factory }

  abbrev pub outer : TransientSourceState T → Registering P T → Registering P (TransientSource T)
  outer s c = record { source = record { state = s }; poll = c.poll; factory = c.factory }

  pub registered_after :
      (m : M Error (Registering P T) (Unit {0})) (b : Bool)
      → ((c c' : Registering P T) → m c ≡ (ok tt, c') → k.registered c'.source ≡ b)
      → (c : Registering P T) → (m c).0 ≡ ok tt
      → k.registered (m c).1.source ≡ b
  registered_after m b h c q = h c (m c).1 (ground arith)

  -- The child's operation inside a variant: it fails as the child does, and the context is the
  -- child's own, wrapped.
  pub in_variant-cases :
      (v : T → TransientSourceState T) (m : M Error (Registering P T) (Unit {0})) (s : T)
      (c : Registering P (TransientSource T))
      → let c' = (m (inner s c)).1 in
        (((m (inner s c)).0 ≡ ok tt)
          × (in_variant v m s c ≡ (ok c'.source, outer (v c'.source) c')))
        ⊎ ((x : Error) × (in_variant v m s c ≡ (err x, outer (v c'.source) c')))
        ⊎ (in_variant v m s c ≡ (panicked, outer (v c'.source) c'))
  unfolding in_variant
  in_variant-cases v m s c = elim (Result-cases (m (inner s c)).0) [
    | inl (u, q) ↦ inl (q, ground arith)
    | inr (inl (x, q)) ↦ inr (inl (x, ground arith))
    | inr (inr q) ↦ inr (inr (ground arith))
  ]

  abbrev with_state :
      TransientSourceState T → Registering P (TransientSource T) → Registering P (TransientSource T)
  with_state s c = record c { source = record { state = s } }

  -- What holds after a child's operation and the steps `f` behind it, if all of it succeeds.
  after_child_op :
      (Q : TransientSourceState T → Type 0) (v : T → TransientSourceState T)
      (m : M Error (Registering P T) (Unit {0})) (b : Bool)
      → ((c c' : Registering P T) → m c ≡ (ok tt, c') → k.registered c'.source ≡ b)
      → (f : T → M Error (Registering P (TransientSource T)) (Unit {0})) (s : T)
        (c : Registering P (TransientSource T))
      → ((c' : Registering P T)
          → k.registered c'.source ≡ b
          → (f c'.source (outer (v c'.source) c')).0 ≡ ok tt
          → Q (f c'.source (outer (v c'.source) c')).1.source.state)
      → ((in_variant v m s >>= f) c).0 ≡ ok tt
      → Q ((in_variant v m s >>= f) c).1.source.state
  after_child_op Q v m b law f s c then h = elim (in_variant-cases v m s c) [
    | inl (q, g) ↦
        rw g (then (m (inner s c)).1 (registered_after m b law (inner s c) q) (rw g at h))
    | inr (inl (x, g)) ↦ absurd (ground arith)
    | inr (inr g) ↦ absurd (ground arith)
  ]

  -- After a successful `unregister` no source that the wrapper still holds is registered.
  unregister_source-IsReleased :
      (c : Registering P (TransientSource T))
      → (unregister_source c).0 ≡ ok tt
      → IsReleased (unregister_source c).1.source.state
  unfolding unregister_source
  unregister_source-IsReleased c h = go c.source.state h
    where
      go :
          (s : TransientSourceState T)
          → (unregister_state s (with_state s c)).0 ≡ ok tt
          → IsReleased (unregister_state s (with_state s c)).1.source.state
      go none h = tt
      go (keep s) h =
          after_child_op IsReleased keep e.unregister false k.unregister_ok _ s _ (λ c' r _. r) h
      go (register s) h =
          after_child_op IsReleased register e.unregister false k.unregister_ok _ s _ (λ c' r _. r)
            h
      go (disable s) h =
          after_child_op IsReleased disable e.unregister false k.unregister_ok _ s _ (λ c' r _. r) h
      go (remove s) h =
          after_child_op IsReleased remove e.unregister false k.unregister_ok _ s _ (λ c' r _. tt) h
      go (replace n o) h =
          after_child_op IsReleased (λ x. replace n x) e.unregister false k.unregister_ok _ o _
            (λ c' r h'.
              after_child_op IsReleased (λ x. replace x c'.source) e.unregister false
                k.unregister_ok _ n _ (λ c'' r' _. r') h')
            h

  -- After a successful `register` the wrapper keeps a registered source, or is empty.
  register_source-IsActive :
      (c : Registering P (TransientSource T))
      → (register_source c).0 ≡ ok tt
      → IsActive (register_source c).1.source.state
  unfolding register_source
  register_source-IsActive c h = go c.source.state h
    where
      go :
          (s : TransientSourceState T)
          → (register_state s (with_state s c)).0 ≡ ok tt
          → IsActive (register_state s (with_state s c)).1.source.state
      go none h = tt
      go (keep s) h =
          after_child_op IsActive keep e.register true k.register_ok _ s _ (λ c' r _. r) h
      go (register s) h =
          after_child_op IsActive register e.register true k.register_ok _ s _ (λ c' r _. r) h
      go (disable s) h =
          after_child_op IsActive disable e.register true k.register_ok _ s _ (λ c' r _. r) h
      go (remove s) h = tt
      go (replace n o) h =
          after_child_op IsActive (λ x. replace x o) e.register true k.register_ok _ n _
            (λ c' r _. r) h
