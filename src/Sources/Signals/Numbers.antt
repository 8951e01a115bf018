-- ===== src/Sources/Signals/Numbers.antt =====
-- The numbers of the signals of sources/signals.rs. The enum of signals of the crate `nix` is the
-- interface `NixSignal`, `N` stands for its values.
pub mod Known
use calloop.Common.{ℕ, Option, none, some, Bool, List, [], ◌∷◌, if◌then◌else◌}
use calloop.Error.{Result, ok, panicked}
use calloop.Sources.Signals.{
  Signal, sighup, sigint, sigquit, sigill, sigtrap, sigabrt, sigbus, sigfpe, sigkill, sigusr1,
  sigsegv, sigusr2, sigpipe, sigalrm, sigterm, sigchld, sigcont, sigstop, sigtstp, sigttin, sigttou,
  sigurg, sigxcpu, sigxfsz, sigvtalrm, sigprof, sigwinch, sigio, sigsys,
}

-- `matches` is the match against the value that has a signal's name.
pub record NixSignal (N : Type 0) : Type 0 where
  pub named : Signal → N
  pub matches : Signal → N → Bool
  pub as_i32 : N → ℕ
  pub try_from : ℕ → Option N

unfoldable pub all_signals : List Signal
all_signals =
    sighup ∷ sigint ∷ sigquit ∷ sigill ∷ sigtrap ∷ sigabrt ∷ sigbus ∷ sigfpe ∷ sigkill ∷ sigusr1
    ∷ sigsegv ∷ sigusr2 ∷ sigpipe ∷ sigalrm ∷ sigterm ∷ sigchld ∷ sigcont ∷ sigstop ∷ sigtstp
    ∷ sigttin ∷ sigttou ∷ sigurg ∷ sigxcpu ∷ sigxfsz ∷ sigvtalrm ∷ sigprof ∷ sigwinch ∷ sigio
    ∷ sigsys ∷ []

module _ {N : Type 0} (i : NixSignal N) where
  unfoldable pub as_nix : Signal → N
  as_nix s = i.named s

  abbrev pub first_match : List Signal → N → Option Signal
  first_match [] m = none
  first_match (s ∷ ss) m = if i.matches s m then some s else first_match ss m

  abbrev pub or_panic : {A : Type 0} → Option A → Result (Unit {0}) A
  or_panic none = panicked
  or_panic (some a) = ok a

  abbrev pub from_nix : Option N → Result (Unit {0}) Signal
  from_nix none = panicked
  from_nix (some m) = or_panic (first_match all_signals m)

  -- `Signal::from_num`; `Event::signal` applies it to `ssi_signo`.
  unfoldable pub from_num : ℕ → Result (Unit {0}) Signal
  from_num id = from_nix (i.try_from id)
