-- ===== src/Loop/Turns.antt =====
-- How `run` and `block_on` of loop_logic.rs end.
use calloop.Common.{
  ℕ, ◌≡◌, ◌≢◌, refl, inl, inr, Option, List, [], ◌∷◌, ◌++◌, true, Bool-cases, arith,
}
use calloop.Error.{Error, Result, ok, err, panicked, M, bind_result, ◌>>◌}
use calloop.Sys.{Poller}
use calloop.Sources.{EventSource}
use calloop.Loop.{EventLoop}
use calloop.Loop.Program.{Program, UserCode}
use calloop.Loop.Cycle.{Turn, out_of_turns, run, dispatch, edit_user}

bind_result-congr :
    {E S A B : Type 0} (r : Result E A × S) (f g : A → M E S B)
    → ((a : A) (s : S) → f a s ≡ g a s)
    → bind_result r f ≡ bind_result r g
bind_result-congr (ok a, s) f g h = h a s
bind_result-congr (err x, s) f g h = refl
bind_result-congr (panicked, s) f g h = refl

bind_result-ne :
    {E S A B : Type 0} (r : Result E A × S) (f : A → M E S B) (b : B)
    → ((a : A) (s : S) → (f a s).0 ≢ ok b)
    → (bind_result r f).0 ≢ ok b
bind_result-ne (ok a, s) f b h = h a s
bind_result-ne (err x, s) f b h = λ e. ground arith
bind_result-ne (panicked, s) f b h = λ e. ground arith

module _ {P S I X : Type 0} ⦃o : Poller P⦄ ⦃e : EventSource P S⦄ ⦃u : UserCode P S I X⦄ where
  -- Once the stop flag is read as set, no further turn is made, whatever would follow; `run` then
  -- ends, if no dispatch before failed, because it was stopped.
  pub run_stops :
      (before rest : List Turn) (turn : Turn) (timeout : Option ℕ) (cb : X → X)
      (l : EventLoop P S I X)
      → turn.stop ≡ true
      → (run (before ++ turn ∷ rest) timeout cb l ≡ run (before ++ turn ∷ []) timeout cb l)
        × ((run (before ++ turn ∷ rest) timeout cb l).0 ≢ ok out_of_turns)
  unfolding run
  run_stops [] rest turn timeout cb l h = (rw h refl, rw h (λ e. ground arith))
  run_stops (b ∷ before) rest turn timeout cb l h = elim (Bool-cases b.stop) [
    | inl y ↦ (rw y refl, rw y (λ e. ground arith))
    | inr n ↦
        let d = (dispatch b.attempts timeout >> edit_user cb) l in
        (
          rw n (bind_result-congr d _ _ (λ _ s. (run_stops before rest turn timeout cb s h).0)),
          rw n (
              bind_result-ne d _ out_of_turns
                (λ _ s. (run_stops before rest turn timeout cb s h).1)),
        )
  ]
