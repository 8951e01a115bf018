-- ===== src/Loop/Idles/Once.antt =====
-- The idle callbacks of loop_logic.rs and sources/mod.rs: each is called at most once.
use calloop.Common.{
  ℕ, ◌≡◌, refl, ap, sym, ◌∙◌, subst, ◌⊎◌, inl, inr, Option, none, some, List, [], ◌∷◌, Bool, true,
  false, get_elem?, set, All, arith, Bool-cases, if◌then◌else◌, if-false,
}
use calloop.Error.{Error, Result, ok, err, panicked, bind_result-eq_ok}
use calloop.Sources.{EventSource}
use calloop.Loop.{LoopInner, EventLoop, IdleCell}
use calloop.Loop.Program.{UserCode, run}
use calloop.Loop.Dispatch.{set_idle, called, call_idle, dispatch_idle, run_idles, dispatch_idles}
use calloop.Loop.Idles.{IsSpent, IsUsed, IsSpent-set, IsSpent-before, IsSpent-busy}
use calloop.Loop.Idles.Calls.{run-KeepsSpent}

module _ {P S I : Type 0} where
  -- The cell `id` holds no callback any more, and is borrowed or not.
  abbrev pub emptied : ℕ → Bool → LoopInner P S I → LoopInner P S I
  emptied id borrowed l = record l {
    idle_cells = set l.idle_cells id (record { callback = some none; borrowed = borrowed });
  }

module _ {P S I X : Type 0} ⦃e : EventSource P S⦄ ⦃u : UserCode P S I X⦄ where
  abbrev SpentIn : ℕ → EventLoop P S I X → Type 0
  SpentIn i l = IsSpent (get_elem? l.inner.idle_cells i)

  IsSpent-called :
      (i id : ℕ) (r : Result Error X × LoopInner P S I) (l l' : EventLoop P S I X)
      → IsSpent (get_elem? r.1.idle_cells i)
      → called id r l ≡ (ok tt, l')
      → SpentIn i l'
  unfolding called set_idle
  IsSpent-called i id (ok x, m) l l' s h =
      subst (SpentIn i) (ap (λ r. r.1) h)
        (IsSpent-set m.idle_cells i id (record { callback = some none; borrowed = false }) tt s)
  IsSpent-called i id (err x, m) l l' s h = absurd (ground arith)
  IsSpent-called i id (panicked, m) l l' s h = absurd (ground arith)

  -- Whatever cell was spent before is spent afterwards, and so is the one that was to be called.
  IsSpent-call_idle :
      (i id : ℕ) (o : Option (Option I)) (b : Bool) (l l' : EventLoop P S I X)
      → get_elem? l.inner.idle_cells id ≡ some (record { callback = o; borrowed = b })
      → (i ≡ id) ⊎ SpentIn i l
      → call_idle id o l ≡ (ok tt, l')
      → SpentIn i l'
  unfolding call_idle set_idle
  IsSpent-call_idle i id none b l l' at s h =
      subst (SpentIn i) (ap (λ r. r.1) h) (IsSpent-before i id _ l.inner.idle_cells at tt s)
  IsSpent-call_idle i id (some none) b l l' at s h =
      subst (SpentIn i) (ap (λ r. r.1) h) (IsSpent-before i id _ l.inner.idle_cells at tt s)
  IsSpent-call_idle i id (some (some callback)) b l l' at s h =
      let busy : IdleCell I = record { callback = some none; borrowed = true } in
      let m : LoopInner P S I = record (l.inner) { idle_cells = set l.inner.idle_cells id busy } in
      let program = u.idle callback l.user in
      IsSpent-called i id (run program m) (record l { inner = m }) l'
        ((run-KeepsSpent i program).keeps m (IsSpent-busy i id _ busy l.inner.idle_cells at tt s)) h

  IsSpent-dispatch_idle :
      (i id : ℕ) (o : Option (IdleCell I)) (l l' : EventLoop P S I X)
      → get_elem? l.inner.idle_cells id ≡ o
      → (i ≡ id) ⊎ SpentIn i l
      → dispatch_idle id o l ≡ (ok tt, l')
      → SpentIn i l'
  unfolding dispatch_idle
  IsSpent-dispatch_idle i id none l l' at s h = absurd (ground arith)
  IsSpent-dispatch_idle i id (some c) l l' at s h = elim (Bool-cases c.borrowed) [
    | inl y ↦ absurd (ground arith)
    | inr n ↦
        IsSpent-call_idle i id c.callback c.borrowed l l' at s
          (subst (λ b. (if b then (panicked, l) else call_idle id c.callback l) ≡ (ok tt, l')) n h)
  ]

  IsSpent-run_idles :
      (i : ℕ) (ids : List ℕ) (l l' : EventLoop P S I X)
      → SpentIn i l
      → run_idles ids l ≡ (ok tt, l')
      → SpentIn i l'
  unfolding run_idles
  IsSpent-run_idles i [] l l' s h = subst (SpentIn i) (ap (λ r. r.1) h) s
  IsSpent-run_idles i (id ∷ ids) l l' s h =
      let o = get_elem? l.inner.idle_cells id in
      let (x, m, here, rest) =
        bind_result-eq_ok (dispatch_idle id o l) (λ _. run_idles ids) tt l' h in
      IsSpent-run_idles i ids m l' (IsSpent-dispatch_idle i id o l m refl (inr s) here) rest

  All-run_idles :
      (ids : List ℕ) (l l' : EventLoop P S I X)
      → run_idles ids l ≡ (ok tt, l')
      → All (λ i. SpentIn i l') ids
  unfolding run_idles
  All-run_idles [] l l' h = tt
  All-run_idles (id ∷ ids) l l' h =
      let o = get_elem? l.inner.idle_cells id in
      let (x, m, here, rest) =
        bind_result-eq_ok (dispatch_idle id o l) (λ _. run_idles ids) tt l' h in
      (
        IsSpent-run_idles id ids m l' (IsSpent-dispatch_idle id id o l m refl (inl refl) here) rest,
        All-run_idles ids m l' rest,
      )

  spent_calls_none :
      (id : ℕ) (o : Option (Option I)) (l : EventLoop P S I X)
      → IsUsed o
      → call_idle id o l ≡ (ok tt, l)
  unfolding call_idle
  spent_calls_none id none l s = refl
  spent_calls_none id (some none) l s = refl
  spent_calls_none id (some (some f)) l s = elim s [ ]

  spent_again :
      (id : ℕ) (c : IdleCell I) (l : EventLoop P S I X)
      → c.borrowed ≡ false
      → IsSpent (some c)
      → dispatch_idle id (some c) l ≡ (ok tt, l)
  unfolding dispatch_idle
  spent_again id c l f s =
      if-false (λ (r : Result Error (Unit {0}) × EventLoop P S I X). r ≡ (ok tt, l)) c.borrowed
        (panicked, l) _ f (spent_calls_none id c.callback l s)

  -- The idle callbacks of a list, one after the other: each that is still there at its turn is called, on
  -- the user's data as it is then, and its cell is emptied and is borrowed for the time of the call; one
  -- that was called or cancelled before is passed over.
  pub data Walk : List ℕ → EventLoop P S I X → EventLoop P S I X → Type 0 where
    ends : {l : EventLoop P S I X} → Walk [] l l
    calls :
        {ids : List ℕ} {l l' : EventLoop P S I X} (id : ℕ) (callback : I) (x : X)
        (inner : LoopInner P S I)
        → get_elem? l.inner.idle_cells id
          ≡ some (record { callback = some (some callback); borrowed = false })
        → run (u.idle callback l.user) (emptied id true l.inner) ≡ (ok x, inner)
        → Walk ids (record l { inner = emptied id false inner; user = x }) l'
        → Walk (id ∷ ids) l l'
    skips :
        {ids : List ℕ} {l l' : EventLoop P S I X} (id : ℕ)
        → IsSpent (get_elem? l.inner.idle_cells id)
        → Walk ids l l'
        → Walk (id ∷ ids) l l'

  called-Walk :
      (id : ℕ) (callback : I) (ids : List ℕ) (r : Result Error X × LoopInner P S I)
      (l m l' : EventLoop P S I X)
      → get_elem? l.inner.idle_cells id
        ≡ some (record { callback = some (some callback); borrowed = false })
      → run (u.idle callback l.user) (emptied id true l.inner) ≡ r
      → called id r (record l { inner = emptied id true l.inner }) ≡ (ok tt, m)
      → Walk ids m l'
      → Walk (id ∷ ids) l l'
  unfolding called set_idle
  called-Walk id callback ids (ok x, inner) l m l' at e h rest =
      calls id callback x inner at e (subst (λ m. Walk ids m l') (sym (ap (λ r. r.1) h)) rest)
  called-Walk id callback ids (err x, inner) l m l' at e h rest = absurd (ground arith)
  called-Walk id callback ids (panicked, inner) l m l' at e h rest = absurd (ground arith)

  call_idle-Walk :
      (id : ℕ) (o : Option (Option I)) (ids : List ℕ) (l m l' : EventLoop P S I X)
      → get_elem? l.inner.idle_cells id ≡ some (record { callback = o; borrowed = false })
      → call_idle id o l ≡ (ok tt, m)
      → Walk ids m l'
      → Walk (id ∷ ids) l l'
  unfolding call_idle set_idle
  call_idle-Walk id none ids l m l' at h rest =
      skips id (rw at tt) (subst (λ m. Walk ids m l') (sym (ap (λ r. r.1) h)) rest)
  call_idle-Walk id (some none) ids l m l' at h rest =
      skips id (rw at tt) (subst (λ m. Walk ids m l') (sym (ap (λ r. r.1) h)) rest)
  call_idle-Walk id (some (some callback)) ids l m l' at h rest =
      called-Walk id callback ids _ l m l' at refl h rest

  dispatch_idle-Walk :
      (id : ℕ) (o : Option (IdleCell I)) (ids : List ℕ) (l m l' : EventLoop P S I X)
      → get_elem? l.inner.idle_cells id ≡ o
      → dispatch_idle id o l ≡ (ok tt, m)
      → Walk ids m l'
      → Walk (id ∷ ids) l l'
  unfolding dispatch_idle
  dispatch_idle-Walk id none ids l m l' at h rest = absurd (ground arith)
  dispatch_idle-Walk id (some c) ids l m l' at h rest = elim (Bool-cases c.borrowed) [
    | inl y ↦ absurd (ground arith)
    | inr n ↦
        call_idle-Walk id c.callback ids l m l'
          (at ∙ ap (λ b. some (record { callback = c.callback; borrowed = b })) n)
          (subst (λ b. (if b then (panicked, l) else call_idle id c.callback l) ≡ (ok tt, m)) n h)
          rest
  ]

  run_idles-Walk :
      (ids : List ℕ) (l l' : EventLoop P S I X) → run_idles ids l ≡ (ok tt, l') → Walk ids l l'
  unfolding run_idles
  run_idles-Walk [] l l' h = subst (Walk [] l) (ap (λ r. r.1) h) ends
  run_idles-Walk (id ∷ ids) l l' h =
      let o = get_elem? l.inner.idle_cells id in
      let (x, m, here, rest) =
        bind_result-eq_ok (dispatch_idle id o l) (λ _. run_idles ids) tt l' h in
      dispatch_idle-Walk id o ids l m l' refl here (run_idles-Walk ids m l' rest)

  -- A dispatch of the idle callbacks that succeeds runs the callbacks that were waiting, in their order,
  -- each unless it was cancelled before its turn. Afterwards each of them is spent, whatever the callbacks
  -- did, and to dispatch a spent one again calls nothing.
  pub idles_run_once :
      (l l' : EventLoop P S I X)
      → dispatch_idles l ≡ (ok tt, l')
      → Walk l.inner.idles (record l { inner = record (l.inner) { idles = [] } }) l'
        × All (λ i. IsSpent (get_elem? l'.inner.idle_cells i)) l.inner.idles
        × ((id : ℕ) (c : IdleCell I)
            → c.borrowed ≡ false
            → IsSpent (some c)
            → dispatch_idle id (some c) l' ≡ (ok tt, l'))
  unfolding dispatch_idles
  idles_run_once l l' h = (
    run_idles-Walk l.inner.idles _ l' h,
    All-run_idles l.inner.idles _ l' h,
    λ id c f s. spent_again id c l' f s,
  )
