-- ===== src/Sources/Signals/Delivery.antt =====
-- What sources/signals.rs delivers of the signals that its signalfd holds.
use calloop.Common.{ℕ, zero, suc, ◌<◌, ◌≡◌, refl, some, none, List, [], ◌∷◌, length, arith}
use calloop.Error.{IoError, ok, err, panicked, map_err_result}
use calloop.Token.{Token}
use calloop.Sys.{Readiness}
use calloop.PostAction.{PostAction}
use calloop.Sources.Generic.{Generic}
use calloop.Sources.Generic.Laws.{called_back}
use calloop.Sources.Signals.{
  SigSets, signal_error, to_signal_error, failed, after_read, read_all, on_ready, process_events,
}
use calloop.Error.{of_io, Result}

-- How an event ends, by how the last read ends.
abbrev pub answer : {E : Type 0} → (IoError → E) → Result IoError (Unit {0}) → Result E PostAction
answer f (ok a) = ok PostAction.continue
answer f (err e) = err (f e)
answer f panicked = panicked

answer-map_err :
    (r : Result IoError (Unit {0}))
    → map_err_result to_signal_error (answer failed r) ≡ answer (λ e. signal_error (of_io e)) r
answer-map_err (ok a) = refl
answer-map_err (err e) = refl
answer-map_err panicked = refl

module _ {Q V K : Type 0} (i : SigSets Q V K) (fd : ℕ) where
  -- The signalfd gives the signals `vs`, and then has none, or fails.
  pub data Reads : K → List V → Result IoError (Unit {0}) → K → Type 0 where
    empty : {k k' : K} → i.read_signal fd k ≡ (ok none, k') → Reads k [] (ok tt) k'
    fails : {k k' : K} (e : IoError) → i.read_signal fd k ≡ (err e, k') → Reads k [] (err e) k'
    reads :
        {k k' : K} (v : V) {vs : List V} {r : Result IoError (Unit {0})} (t : K)
        → i.read_signal fd k ≡ (ok (some v), t)
        → Reads t vs r k'
        → Reads k (v ∷ vs) r k'

  module _ {C : Type 0} where
    -- The callback's calls, one for each signal.
    abbrev pub told : (V → C → C) → List V → C → C
    told callback [] c = c
    told callback (v ∷ vs) c = told callback vs (callback v c)

    read_all_lem :
        (callback : V → C → C) (fuel : ℕ) (k : K) (c : C) (vs : List V)
        (r : Result IoError (Unit {0})) (k' : K)
        → length vs < fuel
        → Reads k vs r k'
        → read_all i callback fuel fd k c ≡ (answer failed r, (fd, (k', told callback vs c)))
    unfolding read_all after_read
    read_all_lem callback zero k c vs r k' h p = absurd (omega arith)
    read_all_lem callback (suc n) k c [] _ k' h (empty p) = rw p refl
    read_all_lem callback (suc n) k c [] _ k' h (fails e p) = rw p refl
    read_all_lem callback (suc n) k c (v ∷ vs) r k' h (reads _ t p q) =
        rw p (read_all_lem callback n t (callback v c) vs r k' (omega arith) q)

    -- An event delivers all signals that are pending, in order, until the signalfd has none; with more
    -- fuel than signals the loop ends by itself. When a read fails, the signals before it were
    -- delivered, and the error is returned.
    pub process_events_lem :
        (fuel : ℕ) (readiness : Readiness) (t : Token) (callback : V → C → C) (g : Generic ℕ)
        (k : K) (c : C) (vs : List V) (r : Result IoError (Unit {0})) (k' : K)
        → length vs < fuel
        → g.file ≡ some fd
        → g.token ≡ some t
        → Reads k vs r k'
        → process_events i fuel readiness t callback (g, (k, c)) ≡ (
          answer (λ e. signal_error (of_io e)) r,
          (record g { file = some fd }, (k', told callback vs c)),
        )
    unfolding process_events on_ready
    process_events_lem fuel readiness t callback g k c vs r k' h f tok p =
        rw
          (
            called_back g t fd readiness (on_ready i callback fuel) (k, c) tok f,
            read_all_lem callback fuel k c vs r k' h p,
            answer-map_err r,
          )
          refl
