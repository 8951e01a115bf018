-- ===== src/Sources/Signals/Commands.antt =====
-- The operations on a source of sources/signals.rs as commands on its view of the signals.
use calloop.Common.{
  ℕ, ◌≡◌, subst, sym, ◌||◌, ◌&&◌, refl, ap, ◌∙◌, some, Bool, not, List, [], ◌∷◌, arith,
}
use calloop.Error.{
  IoError, Error, io_error, Result, ok, err, panicked, M, ◌>>◌, pure, map_err_result, bind_result,
  bind_result-eq_ok,
}
use calloop.Sources.Signals.{
  Signal, SigSets, Signals, add_all, remove_all, on_kernel, set_own_mask, watch, set_sfd_mask,
  add_signals, remove_signals, set_signals,
}
use calloop.Sources.Signals.Masks.{Masks, listed, contains-add_all, contains-remove_all}

-- What a program asks of a source it has, and the source's answer.
pub data Command : Type 0 where
  add remove set : List Signal → Command

-- The abstract view of one signal: whether the source reports it, and whether the thread blocks it.
abbrev pub View : Type 0
View = Bool × Bool

module _ {Q V K : Type 0} (i : SigSets Q V K) where
  abbrev pub run : Command → M Error (Signals Q × K) (Unit {0})
  run (add ss) = add_signals i ss
  run (remove ss) = remove_signals i ss
  run (set ss) = set_signals i ss

  abbrev pub run_all : List Command → M Error (Signals Q × K) (Unit {0})
  run_all [] = pure tt
  run_all (c ∷ cs) = run c >> run_all cs

module _ {Q V K : Type 0} {i : SigSets Q V K} (l : Masks i) where
  -- What a command does to the view of the signal of the number `n`.
  abbrev pub viewed : ℕ → Command → View → View
  viewed n (add ss) (w, b) = (listed l n ss || w, (listed l n ss || w) || b)
  viewed n (remove ss) (w, b) = (not (listed l n ss) && w, not (listed l n ss) && b)
  viewed n (set ss) (w, b) = (listed l n ss, listed l n ss || not w && b)

  abbrev pub viewed_all : ℕ → List Command → View → View
  viewed_all n [] v = v
  viewed_all n (c ∷ cs) v = viewed_all n cs (viewed n c v)

  -- The source and the kernel agree on the views `v`: the mask of the source is that of its signalfd.
  abbrev pub Agrees : ℕ → (ℕ → View) → Signals Q × K → Type 0
  Agrees fd v c =
      (c.0.sfd.file ≡ some fd)
      × ((n : ℕ)
          → (l.contains n c.0.mask ≡ (v n).0)
            × (l.watched fd n c.1 ≡ (v n).0)
            × (l.blocked n c.1 ≡ (v n).1))

module _ {Q V K : Type 0} (i : SigSets Q V K) where
  succeeds :
      (r : Result IoError (Unit {0}) × K) (s : Signals Q) (f : M Error (Signals Q × K) (Unit {0}))
      (c : Signals Q × K)
      → bind_result (map_err_result io_error r.0, (s, r.1)) (λ _. f) ≡ (ok tt, c)
      → (r.0 ≡ ok tt) × (f (s, r.1) ≡ (ok tt, c))
  succeeds (ok a, k) s f c h = (refl, h)
  succeeds (err e, k) s f c h = absurd (ground arith)
  succeeds (panicked, k) s f c h = absurd (ground arith)

  -- A chain of calls that succeeds, has succeeded at its first call.
  on_kernel-ok :
      (m : M IoError K (Unit {0})) (f : M Error (Signals Q × K) (Unit {0})) (s : Signals Q) (k : K)
      (c : Signals Q × K)
      → (on_kernel i m >> f) (s, k) ≡ (ok tt, c)
      → ((m k).0 ≡ ok tt) × (f (s, (m k).1) ≡ (ok tt, c))
  unfolding on_kernel
  on_kernel-ok m f s k c h = succeeds (m k) s f c h

  set_sfd_mask-ok :
      (fd : ℕ) (q : Q) (f : M Error (Signals Q × K) (Unit {0})) (s : Signals Q) (k : K)
      (c : Signals Q × K)
      → s.sfd.file ≡ some fd
      → (set_sfd_mask i q >> f) (s, k) ≡ (ok tt, c)
      → ((i.set_mask fd q k).0 ≡ ok tt) × (f (s, (i.set_mask fd q k).1) ≡ (ok tt, c))
  unfolding set_sfd_mask watch
  set_sfd_mask-ok fd q f s k c e h =
      on_kernel-ok (i.set_mask fd q) f s k c
        (subst (λ file. bind_result (watch i file q (s, k)) (λ _. f) ≡ (ok tt, c)) e h)

  bind-pure :
      (m : M Error (Signals Q × K) (Unit {0})) (c d : Signals Q × K)
      → m c ≡ (ok tt, d)
      → (m >> pure tt) c ≡ (ok tt, d)
  bind-pure m c d h = ap (λ r. bind_result r (λ _. pure tt)) h

module _ {Q V K : Type 0} {i : SigSets Q V K} (l : Masks i) (fd : ℕ) where
  add_signals-Agrees :
      (ss : List Signal) (v : ℕ → View) (s : Signals Q) (k : K) (c : Signals Q × K)
      → Agrees l fd v (s, k)
      → add_signals i ss (s, k) ≡ (ok tt, c)
      → Agrees l fd (λ n. viewed l n (add ss) (v n)) c
  unfolding add_signals set_own_mask
  add_signals-Agrees ss v s k c (file, a) h =
      let q = add_all i ss s.mask in
      let s' : Signals Q = record s { mask = q } in
      let r = on_kernel-ok i (i.thread_block q) (set_sfd_mask i q) s' k c h in
      let k' = (i.thread_block q k).1 in
      let z =
        set_sfd_mask-ok i fd q (pure tt) s' k' c file
          (bind-pure i (set_sfd_mask i q) (s', k') c r.1) in
      rw (sym (ap (λ r. r.1) z.1)) (
        file,
        λ n.
            let b = l.block_lem q k r.0 n in
            let w = l.set_mask_lem fd q k' z.0 n in
            let m = contains-add_all l n ss s.mask in
            (
              m ∙ rw (a n).0 refl,
              w.0 ∙ m ∙ rw (a n).0 refl,
              ground (arith, w.1, b.0, m, (a n).0, (a n).2),
            ),
      )

  remove_signals-Agrees :
      (ss : List Signal) (v : ℕ → View) (s : Signals Q) (k : K) (c : Signals Q × K)
      → Agrees l fd v (s, k)
      → remove_signals i ss (s, k) ≡ (ok tt, c)
      → Agrees l fd (λ n. viewed l n (remove ss) (v n)) c
  unfolding remove_signals set_own_mask
  remove_signals-Agrees ss v s k c (file, a) h =
      let q = remove_all i ss s.mask in
      let removed = add_all i ss i.empty in
      let s' : Signals Q = record s { mask = q } in
      let r = on_kernel-ok i (i.thread_unblock removed) (set_sfd_mask i q) s' k c h in
      let k' = (i.thread_unblock removed k).1 in
      let z =
        set_sfd_mask-ok i fd q (pure tt) s' k' c file
          (bind-pure i (set_sfd_mask i q) (s', k') c r.1) in
      rw (sym (ap (λ r. r.1) z.1)) (
        file,
        λ n.
            let b = l.unblock_lem removed k r.0 n in
            let w = l.set_mask_lem fd q k' z.0 n in
            let m = contains-remove_all l n ss s.mask in
            let gone = contains-add_all l n ss i.empty in
            (
              m ∙ rw (a n).0 refl,
              w.0 ∙ m ∙ rw (a n).0 refl,
              ground (arith, w.1, b.0, gone, l.empty_lem n, (a n).2),
            ),
      )

  set_signals-Agrees :
      (ss : List Signal) (v : ℕ → View) (s : Signals Q) (k : K) (c : Signals Q × K)
      → Agrees l fd v (s, k)
      → set_signals i ss (s, k) ≡ (ok tt, c)
      → Agrees l fd (λ n. viewed l n (set ss) (v n)) c
  unfolding set_signals set_own_mask
  set_signals-Agrees ss v s k c (file, a) h =
      let q = add_all i ss i.empty in
      let last = set_sfd_mask i q >> set_own_mask i q in
      let r =
        on_kernel-ok i (i.thread_unblock s.mask) (on_kernel i (i.thread_block q) >> last) s k c h in
      let k' = (i.thread_unblock s.mask k).1 in
      let r' = on_kernel-ok i (i.thread_block q) last s k' c r.1 in
      let k'' = (i.thread_block q k').1 in
      let z = set_sfd_mask-ok i fd q (set_own_mask i q) s k'' c file r'.1 in
      rw (sym (ap (λ r. r.1) z.1)) (
        file,
        λ n.
            let u = l.unblock_lem s.mask k r.0 n in
            let b = l.block_lem q k' r'.0 n in
            let w = l.set_mask_lem fd q k'' z.0 n in
            let m = contains-add_all l n ss i.empty in
            let e = l.empty_lem n in
            (
              ground (arith, m, e),
              ground (arith, w.0, m, e),
              ground (arith, w.1, b.0, u.0, m, e, (a n).0, (a n).2),
            ),
      )

  -- Each command that succeeds does to every signal what its name says: to the source's mask, to what
  -- its signalfd reports, and to what the thread blocks. `add` blocks the whole mask again, `set`
  -- unblocks what only the old mask has, and `remove` unblocks also signals that the source never had.
  run-Agrees :
      (command : Command) (v : ℕ → View) (s : Signals Q) (k : K) (c : Signals Q × K)
      → Agrees l fd v (s, k)
      → run i command (s, k) ≡ (ok tt, c)
      → Agrees l fd (λ n. viewed l n command (v n)) c
  run-Agrees (add ss) v s k c a h = add_signals-Agrees ss v s k c a h
  run-Agrees (remove ss) v s k c a h = remove_signals-Agrees ss v s k c a h
  run-Agrees (set ss) v s k c a h = set_signals-Agrees ss v s k c a h

  -- So does a sequence of commands.
  pub run_all-Agrees :
      (commands : List Command) (v : ℕ → View) (s : Signals Q) (k : K) (c : Signals Q × K)
      → Agrees l fd v (s, k)
      → run_all i commands (s, k) ≡ (ok tt, c)
      → Agrees l fd (λ n. viewed_all l n commands (v n)) c
  run_all-Agrees [] v s k c a h = rw (sym (ap (λ r. r.1) h)) a
  run_all-Agrees (x ∷ xs) v s k c a h =
      let (t, d, e, rest) = bind_result-eq_ok (run i x (s, k)) (λ _. run_all i xs) tt c h in
      run_all-Agrees xs (λ n. viewed l n x (v n)) d.0 d.1 c (run-Agrees x v s k d a e) rest
