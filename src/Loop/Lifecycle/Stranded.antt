-- ===== src/Loop/Lifecycle/Stranded.antt =====
-- The first block of `dispatch_events` in loop_logic.rs over a lifecycle set with a token that has no
-- source.
use calloop.Common.{
  ℕ, ◌≡◌, refl, sym, subst, Option, none, some, List, [], ◌∷◌, ◌++◌, Bool, get_elem?, arith, ◌⊎◌,
  inl, inr, ◌∙◌, Bool-cases,
}
use calloop.Error.{Error, Result, ok, err, panicked, bind_result, M, ◌>>=◌}
use calloop.Token.{Token, RegistrationToken}
use calloop.Sys.{Poller, Readiness}
use calloop.SourceList.{get}
use calloop.Sources.{EventSource}
use calloop.Dispatcher.{DispatcherCell}
use calloop.Loop.{EventLoop}
use calloop.Loop.Program.{UserCode}
use calloop.Loop.Event.{find_dispatcher}
use calloop.Loop.Event.{found, on_inner}
use calloop.Loop.Dispatch.{on_cell, with_source, at_source, note_synthetic, before_sleep}
use calloop.Loop.Cycle.{Attempt, on_poll, retry, after_poll, dispatch_events, lifecycle_tokens}

-- A computation over `lifecycle = before ++ t ∷ ts` that gave `r` has not polled, and has not ended
-- well: it panicked, or failed as the part before `t` did.
pub record NotPolled {P S I X A : Type 0} (l l' : EventLoop P S I X) (r : Result Error A)
    (earlier : Result Error (Option ℕ)) : Type 0 where
  pub same_poll : l'.inner.poll ≡ l.inner.poll
  pub ended_badly : (r ≡ panicked) ⊎ ((x : Error) × (r ≡ err x) × (earlier ≡ err x))

-- The loop `l'` has the poller and the slots of `l`.
record SamePoll {P S I X : Type 0} (l l' : EventLoop P S I X) : Type 0 where
  polls : l'.inner.poll ≡ l.inner.poll
  slots : l'.inner.sources ≡ l.inner.sources

module _ {P S I X : Type 0} ⦃e : EventSource P S⦄ ⦃u : UserCode P S I X⦄ where
  -- What `before_sleep` does with what a source answered.
  abbrev told :
      List RegistrationToken
      → Option ℕ
      → Result Error (Option (Readiness × Token)) × EventLoop P S I X
      → Result Error (Option ℕ) × EventLoop P S I X
  told ts timeout p =
      bind_result p (λ event. note_synthetic event timeout >>= λ timeout'. before_sleep ts timeout')

  on_cell-SamePoll :
      {A : Type 0} (m : M Error S A) (id : ℕ) (o : Option (DispatcherCell S))
      (l : EventLoop P S I X)
      → SamePoll l (on_inner (λ i. on_cell m id o i) l).1
  unfolding on_cell
  on_cell-SamePoll m id none l = record { polls = refl; slots = refl }
  on_cell-SamePoll m id (some cell) l = elim (Bool-cases cell.borrowed) [
    | inl b ↦ rw (b) (record { polls = refl; slots = refl })
    | inr b ↦ rw (b) (record { polls = refl; slots = refl })
  ]

  at_source-SamePoll :
      {A : Type 0} (m : M Error S A) (o : Option ℕ) (l : EventLoop P S I X)
      → SamePoll l (on_inner (at_source m o) l).1
  unfolding at_source with_source
  at_source-SamePoll m none l = record { polls = refl; slots = refl }
  at_source-SamePoll m (some id) l = on_cell-SamePoll m id (get_elem? l.inner.dispatchers id) l

  later-NotPolled :
      {A : Type 0} (l l' l'' : EventLoop P S I X) (r : Result Error A)
      (earlier : Result Error (Option ℕ))
      → l'.inner.poll ≡ l.inner.poll
      → NotPolled l' l'' r earlier
      → NotPolled l l'' r earlier
  later-NotPolled l l' l'' r earlier q n = record {
    same_poll = n.same_poll ∙ q;
    ended_badly = n.ended_badly;
  }

  -- One source was told, with the outcome `p`; `rest` is the claim about the sources behind it.
  told-NotPolled :
      (p : Result Error (Option (Readiness × Token)) × EventLoop P S I X)
      (bs : List RegistrationToken) (t : RegistrationToken) (ts : List RegistrationToken)
      (timeout : Option ℕ) (l : EventLoop P S I X)
      → ((timeout' : Option ℕ) (l' : EventLoop P S I X)
          → found (get l'.inner.sources t.inner) ≡ none
          → NotPolled l'
              (before_sleep (bs ++ t ∷ ts) timeout' l').1
              (before_sleep (bs ++ t ∷ ts) timeout' l').0
              (before_sleep bs timeout' l').0)
      → SamePoll l p.1
      → found (get l.inner.sources t.inner) ≡ none
      → NotPolled l
          (told (bs ++ t ∷ ts) timeout p).1
          (told (bs ++ t ∷ ts) timeout p).0
          (told bs timeout p).0
  unfolding note_synthetic
  told-NotPolled (ok none, l') bs t ts timeout l rest k f =
      later-NotPolled l l' _ _ _ k.polls (rest timeout l' (rw (k.slots) f))
  told-NotPolled (ok (some (readiness, token)), l') bs t ts timeout l rest k f =
      let l'' : EventLoop P S I X = record l' {
        synthetic_events =
            l'.synthetic_events ++ record { readiness = readiness; token = token } ∷ [];
      } in
      later-NotPolled l l'' _ _ _ k.polls (rest (some 0) l'' (rw (k.slots) f))
  told-NotPolled (err x, l') bs t ts timeout l rest k f = record {
    same_poll = k.polls;
    ended_badly = inr (x, refl, refl);
  }
  told-NotPolled (panicked, l') bs t ts timeout l rest k f = record {
    same_poll = k.polls;
    ended_badly = inl refl;
  }

  before_sleep-NotPolled :
      (before : List RegistrationToken) (t : RegistrationToken) (ts : List RegistrationToken)
      (timeout : Option ℕ) (l : EventLoop P S I X)
      → found (get l.inner.sources t.inner) ≡ none
      → NotPolled l
          (before_sleep (before ++ t ∷ ts) timeout l).1
          (before_sleep (before ++ t ∷ ts) timeout l).0
          (before_sleep before timeout l).0
  unfolding before_sleep find_dispatcher
  before_sleep-NotPolled [] t ts timeout l f =
      unfold at_source in rw (f) (record { same_poll = refl; ended_badly = inl refl })
  before_sleep-NotPolled (b ∷ bs) t ts timeout l f =
      told-NotPolled (on_inner (at_source u.before_sleep (found (get l.inner.sources b.inner))) l)
        bs t ts timeout l (λ timeout' l'. before_sleep-NotPolled bs t ts timeout' l')
        (at_source-SamePoll u.before_sleep (found (get l.inner.sources b.inner)) l) f

-- What follows a computation that did not end well is not run.
unpolled-NotPolled :
    {P S I X A : Type 0} (l : EventLoop P S I X) (p : Result Error (Option ℕ) × EventLoop P S I X)
    (next : Option ℕ → M Error (EventLoop P S I X) A) (earlier : Result Error (Option ℕ))
    → NotPolled l p.1 p.0 earlier
    → NotPolled l (bind_result p next).1 (bind_result p next).0 earlier
unpolled-NotPolled l (ok a, l') next earlier n =
    absurd (elim n.ended_badly [ inl q ↦ ground arith | inr (x, q, w) ↦ ground arith ])
unpolled-NotPolled l (err x, l') next earlier n = elim n.ended_badly [
  | inl q ↦ absurd (ground arith)
  | inr (y, q, w) ↦ record { same_poll = n.same_poll; ended_badly = inr (y, ground arith, w) }
]
unpolled-NotPolled l (panicked, l') next earlier n = record {
  same_poll = n.same_poll;
  ended_badly = inl refl;
}

module _ {P S I X : Type 0} ⦃o : Poller P⦄ ⦃e : EventSource P S⦄ ⦃u : UserCode P S I X⦄ where
  -- Wherever in the lifecycle set a token stands that the slots refuse or whose slot is vacant: the
  -- next dispatch does not poll. It panics, or it gives an error or a panic to which `before_sleep`
  -- of a source before that token led.
  pub stranded_token_panics :
      (l : EventLoop P S I X) (before : List RegistrationToken) (t : RegistrationToken)
      (ts : List RegistrationToken) (attempts : List Attempt) (timeout : Option ℕ)
      → l.inner.lifecycle ≡ before ++ t ∷ ts
      → found (get l.inner.sources t.inner) ≡ none
      → NotPolled l
          (dispatch_events attempts timeout l).1
          (dispatch_events attempts timeout l).0
          (before_sleep before timeout l).0
  unfolding dispatch_events lifecycle_tokens
  stranded_token_panics l before t ts attempts timeout h f =
      let next : Option ℕ → M Error (EventLoop P S I X) Bool =
        λ left. on_poll (retry attempts left) >>= after_poll in
      subst
        (λ tokens.
          let r = bind_result (before_sleep tokens timeout l) next in
          NotPolled l r.1 r.0 (before_sleep before timeout l).0)
        (sym h)
        (unpolled-NotPolled l (before_sleep (before ++ t ∷ ts) timeout l) next _
          (before_sleep-NotPolled before t ts timeout l f))
