-- ===== src/Dispatcher/Enrolment.antt =====
-- When the dispatchers of sources/mod.rs put a source into the set of the additional lifecycle
-- events, and take it out.
use calloop.Common.{
  ◌≡◌, ◌∙◌, ap, sym, subst, inl, inr, [], ◌∷◌, ◌++◌, Bool, true, not, retain, All, Bool-cases,
  arith,
}
use calloop.Error.{ok, bind_result, bind_result-eq_ok, pure}
use calloop.Token.{TokenFactory, RegistrationToken, token_eq, registration_token}
use calloop.Sources.{EventSource}
use calloop.Dispatcher.{
  Dispatching, LifecycleSet, lifecycle_register, lifecycle_unregister, on_source, enrol, strike,
  needs, is_borrowed, register_free, register, reregister_free, reregister, unregister_free,
  unregister,
}

retain-All :
    (p : RegistrationToken → Bool) (ts : LifecycleSet) → All (λ t. p t ≡ true) (retain p ts)
retain-All p [] = tt
retain-All p (t ∷ ts) = elim (Bool-cases (p t)) [
  | inl y ↦ rw y (y, retain-All p ts)
  | inr n ↦ rw n (retain-All p ts)
]

module _ {P S : Type 0} ⦃e : EventSource P S⦄ where
  -- A source with lifecycle events that is unregistered is out of the set, however often it was in.
  pub unregister-All :
      (d d' : Dispatching P S) (t : RegistrationToken)
      → d.cell.inner.needs_additional_lifecycle_events ≡ true
      → unregister t d ≡ (ok true, d')
      → All (λ it. not (token_eq it.inner t.inner) ≡ true) d'.lifecycle
  unfolding unregister unregister_free is_borrowed needs strike lifecycle_unregister
  unregister-All d d' t n h = elim (Bool-cases d.cell.borrowed) [
    | inl b ↦ absurd (ground arith)
    | inr b ↦
        let h1 = subst (λ b'. unregister_free t b' d ≡ (ok true, d')) b h in
        let (x, m, ran, rest) = bind_result-eq_ok (on_source e.unregister d) _ true d' h1 in
        let n' = sym (ap (λ r. r.1.cell.inner.needs_additional_lifecycle_events) ran) ∙ n in
        let struck =
          subst (λ n. bind_result (strike n t m) (λ _. pure true) ≡ (ok true, d')) n' rest in
        subst (λ ts. All (λ it. not (token_eq it.inner t.inner) ≡ true) ts)
          (ap (λ r. r.1.lifecycle) struck)
          (retain-All (λ it. not (token_eq it.inner t.inner)) m.lifecycle)
  ]

  register-eq_ok :
      (d d' : Dispatching P S)
      → d.cell.inner.needs_additional_lifecycle_events ≡ true
      → register d ≡ (ok tt, d')
      → (d'.lifecycle ≡ d.lifecycle ++ registration_token d.factory ∷ [])
        × (d'.cell.inner.needs_additional_lifecycle_events ≡ true)
  unfolding register register_free is_borrowed needs enrol lifecycle_register
  register-eq_ok d d' n h = elim (Bool-cases d.cell.borrowed) [
    | inl b ↦ absurd (ground arith)
    | inr b ↦
        let h1 = subst (λ b'. register_free b' d ≡ (ok tt, d')) b h in
        let ran =
          subst (λ n. bind_result (enrol n d) (λ _. on_source e.register) ≡ (ok tt, d')) n h1 in
        (
          sym (ap (λ r. r.1.lifecycle) ran),
          sym (ap (λ r. r.1.cell.inner.needs_additional_lifecycle_events) ran) ∙ n,
        )
  ]

  reregister-eq_ok :
      (d d' : Dispatching P S)
      → d.cell.inner.needs_additional_lifecycle_events ≡ true
      → reregister d ≡ (ok true, d')
      → d'.lifecycle ≡ d.lifecycle ++ registration_token d'.factory ∷ []
  unfolding reregister reregister_free is_borrowed needs enrol lifecycle_register
  reregister-eq_ok d d' n h = elim (Bool-cases d.cell.borrowed) [
    | inl b ↦ absurd (ground arith)
    | inr b ↦
        let h1 = subst (λ b'. reregister_free b' d ≡ (ok true, d')) b h in
        let (x, m, ran, rest) = bind_result-eq_ok (on_source e.reregister d) _ true d' h1 in
        let n' = sym (ap (λ r. r.1.cell.inner.needs_additional_lifecycle_events) ran) ∙ n in
        let enrolled =
          subst (λ n. bind_result (enrol n m) (λ _. pure true) ≡ (ok true, d')) n' rest in
        sym (ap (λ r. r.1.lifecycle) enrolled)
        ∙ ap (λ ts. ts ++ registration_token m.factory ∷ []) (sym (ap (λ r. r.1.lifecycle) ran))
        ∙ ap (λ f. d.lifecycle ++ registration_token f ∷ []) (ap (λ r. r.1.factory) enrolled)
  ]

  -- Registered and then registered again, as on a change of its interest, it is in the set twice.
  pub reregister_enrols_again :
      (d d1 d2 : Dispatching P S) (f : TokenFactory)
      → d.cell.inner.needs_additional_lifecycle_events ≡ true
      → register d ≡ (ok tt, d1)
      → reregister (record d1 { factory = f }) ≡ (ok true, d2)
      → d2.lifecycle
        ≡ (d.lifecycle ++ registration_token d.factory ∷ []) ++ registration_token d2.factory ∷ []
  reregister_enrols_again d d1 d2 f n h h' =
      let r = register-eq_ok d d1 n h in
      reregister-eq_ok (record d1 { factory = f }) d2 r.1 h'
      ∙ ap (λ ts. ts ++ registration_token d2.factory ∷ []) r.0
