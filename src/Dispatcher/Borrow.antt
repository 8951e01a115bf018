-- ===== src/Dispatcher/Borrow.antt =====
-- The methods of `EventDispatcher` in sources/mod.rs end the borrow that they start.
use calloop.Common.{◌≡◌, refl, inl, inr, Bool, true, false, Bool-cases, arith, sym, subst}
use calloop.Error.{Error, Result, ok, err, panicked, M, bind_result, ◌>>=◌, pure, ◌>>◌}
use calloop.Token.{RegistrationToken}
use calloop.Sources.{EventSource}
use calloop.Dispatcher.{
  Dispatching, on_source, enrol, strike, needs, is_borrowed, register_free, register,
  reregister_free, reregister, unregister_free, unregister,
}

module _ {P S : Type 0} where
  -- A method of a dispatcher does not touch the borrow.
  abbrev pub KeepsBorrow : {A : Type 0} → M Error (Dispatching P S) A → Type 0
  KeepsBorrow m = (d : Dispatching P S) → (m d).1.cell.borrowed ≡ d.cell.borrowed

  enrol-KeepsBorrow : (b : Bool) → KeepsBorrow (enrol b)
  unfolding enrol
  enrol-KeepsBorrow true d = refl
  enrol-KeepsBorrow false d = refl

  strike-KeepsBorrow : (b : Bool) (t : RegistrationToken) → KeepsBorrow (strike b t)
  unfolding strike
  strike-KeepsBorrow true t d = refl
  strike-KeepsBorrow false t d = refl

module _ {P S : Type 0} ⦃e : EventSource P S⦄ where
  pub register-KeepsBorrow : KeepsBorrow {P = P} {S = S} register
  unfolding register register_free is_borrowed needs enrol
  register-KeepsBorrow d = ground arith

  after_reregister :
      (d : Dispatching P S) (r : Result Error (Unit {0}) × Dispatching P S)
      → r.1.cell.borrowed ≡ d.cell.borrowed
      → (bind_result r (λ _. needs >>= λ n. enrol n >> pure true)).1.cell.borrowed ≡ d.cell.borrowed
  unfolding needs enrol
  after_reregister d (ok _, d') h = ground arith
  after_reregister d (err x, d') h = h
  after_reregister d (panicked, d') h = h

  after_unregister :
      (d : Dispatching P S) (t : RegistrationToken) (r : Result Error (Unit {0}) × Dispatching P S)
      → r.1.cell.borrowed ≡ d.cell.borrowed
      → (bind_result r (λ _. needs >>= λ n. strike n t >> pure true)).1.cell.borrowed
        ≡ d.cell.borrowed
  unfolding needs strike
  after_unregister d t (ok _, d') h = ground arith
  after_unregister d t (err x, d') h = h
  after_unregister d t (panicked, d') h = h

  pub reregister-KeepsBorrow : KeepsBorrow {P = P} {S = S} reregister
  unfolding reregister reregister_free is_borrowed
  reregister-KeepsBorrow d = elim (Bool-cases d.cell.borrowed) [
    | inl q ↦ ground arith
    | inr q ↦
        subst (λ b. (reregister_free b d).1.cell.borrowed ≡ d.cell.borrowed) (sym q)
          (after_reregister d (on_source e.reregister d) refl)
  ]

  pub unregister-KeepsBorrow : (t : RegistrationToken) → KeepsBorrow {P = P} {S = S} (unregister t)
  unfolding unregister unregister_free is_borrowed
  unregister-KeepsBorrow t d = elim (Bool-cases d.cell.borrowed) [
    | inl q ↦ ground arith
    | inr q ↦
        subst (λ b. (unregister_free t b d).1.cell.borrowed ≡ d.cell.borrowed) (sym q)
          (after_unregister d t (on_source e.unregister d) refl)
  ]
