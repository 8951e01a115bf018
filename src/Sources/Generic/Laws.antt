-- ===== src/Sources/Generic/Laws.antt =====
-- The reference to the poller that `Generic` of sources/generic.rs holds, and what its `Drop` does.
use calloop.Common.{
  ◌≢◌, ◌≡◌, refl, ap, sym, subst, ◌∙◌, ◌⊎◌, inl, inr, Option, none, some, Bool, true, false,
  Bool-cases, arith, if◌then◌else◌,
}
use calloop.Error.{Error, Result, ok, err, panicked, M, bind_result}
use calloop.Token.{Token, TokenInner, token_eq}
use calloop.Sys.{Interest, Mode, Readiness, Poller, Poll}
use calloop.Sys
use calloop.PostAction.{PostAction, continue}
use calloop.Sources.{Registering, on_poll, next_token}
use calloop.Sources.Generic.{
  AsFd, Generic, call_back, is_token, process_events, register, unregister, raw_fd, drop_generic,
  drop_file, delete_quietly,
}

module _ {P F : Type 0} ⦃o : Poller P⦄ ⦃a : AsFd F⦄ where
  -- What `Drop` relies on: whether the source holds the poller, with the file it has.
  abbrev Holds : Registering P (Generic F) → Registering P (Generic F) → Bool → Type 0
  Holds c c' b = (c'.source.poller ≡ b) × (c'.source.file ≡ c.source.file)

  -- How `register` and `unregister` leave the source, with `b` what success makes of it.
  pub data Tracked (c : Registering P (Generic F)) (b : Bool)
      (r : Result Error (Unit {0}) × Registering P (Generic F)) : Type 0 where
    succeeded : r.0 ≡ ok tt → Holds c r.1 b → (b ≡ false → r.1.source.token ≡ none) → Tracked c b r
    refused : r.0 ≢ ok tt → Holds c r.1 c.source.poller → Tracked c b r

  bind-Tracked :
      {A : Type 0} (c : Registering P (Generic F)) (b : Bool)
      (r : Result Error A × Registering P (Generic F))
      (k : A → M Error (Registering P (Generic F)) (Unit {0}))
      → r.1.source ≡ c.source
      → ((x : A) (c' : Registering P (Generic F)) → c'.source ≡ c.source → Tracked c b (k x c'))
      → Tracked c b (bind_result r k)
  bind-Tracked c b (ok x, c') k h f = f x c' h
  bind-Tracked c b (err x, c') k h f =
      refused (λ e. ground arith) (ap (λ s. s.poller) h, ap (λ s. s.file) h)
  bind-Tracked c b (panicked, c') k h f =
      refused (λ e. ground arith) (ap (λ s. s.poller) h, ap (λ s. s.file) h)

  raw_fd-source : (o : Option F) (c : Registering P (Generic F)) → (raw_fd o c).1.source ≡ c.source
  unfolding raw_fd
  raw_fd-source none c = refl
  raw_fd-source (some f) c = refl

  unregister-Tracked : (c : Registering P (Generic F)) → Tracked c false (unregister c)
  unfolding unregister
  unregister-Tracked c =
      bind-Tracked c false (raw_fd c.source.file c) _ (raw_fd-source c.source.file c) (λ raw c1 h1.
        bind-Tracked c false (on_poll (Sys.unregister raw) c1) _ h1
          (λ _ c2 h2. succeeded refl (refl, ap (λ s. s.file) h2) (λ _. refl)))

  register-Tracked : (c : Registering P (Generic F)) → Tracked c true (register c)
  unfolding register
  register-Tracked c = bind-Tracked c true (next_token c) _ refl (λ t c1 h1.
      bind-Tracked c true (raw_fd c1.source.file c1) _ (raw_fd-source c1.source.file c1 ∙ h1)
        (λ raw c2 h2.
          bind-Tracked c true (on_poll (Sys.register raw c1.source.interest c1.source.mode t) c2) _
            h2 (λ _ c3 h3. succeeded refl (refl, ap (λ s. s.file) h3) (λ e. ground arith))))

  drop_held :
      (g : Generic F) (f : F) (p : P)
      → g.file ≡ some f
      → drop_generic g p ≡ (if g.poller then (o.delete (a.as_fd f) p).1 else p)
  unfolding drop_generic drop_file delete_quietly
  drop_held g f p h = elim (Bool-cases g.poller) [ inl q ↦ rw (h, q) refl | inr q ↦ rw (h, q) refl ]

  -- Dropping a source that was new deletes its descriptor from the poller if its registration
  -- succeeded, and leaves the poller alone if that failed: the descriptor may be another's.
  pub drop_after_register :
      (c : Registering P (Generic F)) (f : F) (p : P)
      → c.source.file ≡ some f
      → c.source.poller ≡ false
      → ((register c).0 ≡ ok tt
          × (drop_generic (register c).1.source p ≡ (o.delete (a.as_fd f) p).1))
        ⊎ ((register c).0 ≢ ok tt × (drop_generic (register c).1.source p ≡ p))
  drop_after_register c f p h n = elim (register-Tracked c) [
    | succeeded r (q, k) _ ↦ inl (
      r,
      drop_held (register c).1.source f p (k ∙ h)
          ∙ ap (λ b. if b then (o.delete (a.as_fd f) p).1 else p) q,
    )
    | refused r (q, k) ↦ inr (
      r,
      drop_held (register c).1.source f p (k ∙ h)
          ∙ ap (λ b. if b then (o.delete (a.as_fd f) p).1 else p) (q ∙ n),
    )
  ]

  -- After a successful `unregister` dropping the source leaves the poller alone, and every event is
  -- ignored, under whatever token, without a call of the callback.
  pub unregistered_is_inert :
      {C E : Type 0} (c : Registering P (Generic F)) (f : F) (p : P) (readiness : Readiness)
      (t : Token) (callback : Readiness → M E (F × C) PostAction) (x : C)
      → c.source.file ≡ some f
      → (unregister c).0 ≡ ok tt
      → let g = (unregister c).1.source in
        (drop_generic g p ≡ p)
        × (process_events readiness t callback (g, x) ≡ (ok continue, (g, x)))
  unfolding process_events
  unregistered_is_inert c f p readiness t callback x h u = elim (unregister-Tracked c) [
    | succeeded r (q, k) n ↦ (
      drop_held (unregister c).1.source f p (k ∙ h)
          ∙ ap (λ b. if b then (o.delete (a.as_fd f) p).1 else p) q,
      rw (n refl) refl,
    )
    | refused r _ ↦ absurd (r u)
  ]

token_eq_refl : (t : TokenInner) → token_eq t t ≡ true
unfolding token_eq
token_eq_refl t = ground arith

-- An event under the source's own token is the callback's.
pub called_back :
    {F X E : Type 0} (g : Generic F) (t : Token) (fd : F) (readiness : Readiness)
    (callback : Readiness → M E (F × X) PostAction) (x : X)
    → g.token ≡ some t
    → g.file ≡ some fd
    → let r = callback readiness (fd, x) in
      process_events readiness t callback (g, x) ≡ (r.0, (record g { file = some r.1.0 }, r.1.1))
unfolding process_events call_back
called_back {F = F} {X = X} {E = E} g t fd readiness callback x tok f =
    let r = callback readiness (fd, x) in
    let after : Result E PostAction × (Generic F × X) =
      (r.0, (record g { file = some r.1.0 }, r.1.1)) in
    subst
      (λ o.
        (if is_token o t
          then call_back callback readiness g g.file x
          else (ok PostAction.continue, (g, x)))
        ≡ after)
      (sym tok)
      (subst
        (λ b.
          (if b then call_back callback readiness g g.file x else (ok PostAction.continue, (g, x)))
          ≡ after)
        (sym (token_eq_refl t.inner))
        (subst (λ o. call_back callback readiness g o x ≡ after) (sym f) refl))
