-- ===== src/Sources/Signals/Numbers/Known.antt =====
-- That the numbers of the signals of sources/signals.rs are read back.
use calloop.Common.{
  get_elem?, zero, suc, ℕ, ◌≡◌, ◌==◌, refl, ap, sym, ◌∙◌, inl, inr, some, true, Bool-cases, List,
  [], ◌∷◌, arith,
}
use calloop.Error.{ok}
use calloop.Sources.Signals.{
  SigSets, Signal, sighup, sigint, sigquit, sigill, sigtrap, sigabrt, sigbus, sigfpe, sigkill,
  sigusr1, sigsegv, sigusr2, sigpipe, sigalrm, sigterm, sigchld, sigcont, sigstop, sigtstp, sigttin,
  sigttou, sigurg, sigxcpu, sigxfsz, sigvtalrm, sigprof, sigwinch, sigio, sigsys,
}
use calloop.Sources.Signals.Masks.{Masks, listed}
use calloop.Sources.Signals.Numbers.{NixSignal, all_signals, as_nix, first_match, from_num}

-- The values of nix's enum are told apart by their names and by their numbers.
pub record Names {N : Type 0} (i : NixSignal N) : Type 0 where
  pub matches_own : (s : Signal) → i.matches s (i.named s) ≡ true
  pub matches_one : (s t : Signal) → i.matches s (i.named t) ≡ true → s ≡ t
  pub numbered : (m : N) → i.try_from (i.as_i32 m) ≡ some m

-- Every signal is matched against.
all_signals-at : (s : Signal) → (n : ℕ) × (get_elem? all_signals n ≡ some s)
unfolding all_signals
all_signals-at sighup = (0, refl)
all_signals-at sigint = (1, refl)
all_signals-at sigquit = (2, refl)
all_signals-at sigill = (3, refl)
all_signals-at sigtrap = (4, refl)
all_signals-at sigabrt = (5, refl)
all_signals-at sigbus = (6, refl)
all_signals-at sigfpe = (7, refl)
all_signals-at sigkill = (8, refl)
all_signals-at sigusr1 = (9, refl)
all_signals-at sigsegv = (10, refl)
all_signals-at sigusr2 = (11, refl)
all_signals-at sigpipe = (12, refl)
all_signals-at sigalrm = (13, refl)
all_signals-at sigterm = (14, refl)
all_signals-at sigchld = (15, refl)
all_signals-at sigcont = (16, refl)
all_signals-at sigstop = (17, refl)
all_signals-at sigtstp = (18, refl)
all_signals-at sigttin = (19, refl)
all_signals-at sigttou = (20, refl)
all_signals-at sigurg = (21, refl)
all_signals-at sigxcpu = (22, refl)
all_signals-at sigxfsz = (23, refl)
all_signals-at sigvtalrm = (24, refl)
all_signals-at sigprof = (25, refl)
all_signals-at sigwinch = (26, refl)
all_signals-at sigio = (27, refl)
all_signals-at sigsys = (28, refl)

module _ {N : Type 0} (i : NixSignal N) (names : Names i) where
  first_match-named :
      (s : Signal) (ss : List Signal) (n : ℕ)
      → get_elem? ss n ≡ some s
      → first_match i ss (i.named s) ≡ some s
  first_match-named s [] n h = absurd (ground arith)
  first_match-named s (t ∷ ss) zero h =
      let e : t ≡ s = ground arith in
      let own : i.matches t (i.named s) ≡ true =
        ap (λ x. i.matches x (i.named s)) e ∙ names.matches_own s in
      rw own (ap some e)
  first_match-named s (t ∷ ss) (suc n) h = elim (Bool-cases (i.matches t (i.named s))) [
    | inl e ↦ rw e (ap some (names.matches_one t s e))
    | inr e ↦ rw e (first_match-named s ss n h)
  ]

  -- A signal is read back from its number.
  from_num-as_nix : (s : Signal) → from_num i (i.as_i32 (as_nix i s)) ≡ ok s
  unfolding from_num as_nix
  from_num-as_nix s =
      rw
        (
          names.numbered (i.named s),
          first_match-named s all_signals (all_signals-at s).0 (all_signals-at s).1,
        )
        refl

  -- A number of a signal on a list is read as a signal of that number, where the sets know the signals
  -- by nix's numbers. So the panic of `Event::signal` is not met for what a source was asked to report.
  pub from_num-known :
      {Q V K : Type 0} {sets : SigSets Q V K} (l : Masks sets) (n : ℕ) (ss : List Signal)
      → ((s : Signal) → l.number s ≡ i.as_i32 (as_nix i s))
      → listed l n ss ≡ true
      → (s : Signal) × (from_num i n ≡ ok s) × (l.number s ≡ n)
  from_num-known l n [] q h = absurd (ground arith)
  from_num-known l n (s ∷ ss) q h = elim (Bool-cases (n == l.number s)) [
    | inl e ↦
        let same : n ≡ l.number s = ground arith in
        (s, ap (from_num i) (same ∙ q s) ∙ from_num-as_nix s, sym same)
    | inr e ↦ from_num-known l n ss q (ground arith)
  ]
