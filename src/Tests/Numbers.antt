-- ===== src/Tests/Numbers.antt =====
-- Tests of the numbers of the signals of sources/signals.rs.
use calloop.Common.{
  ℕ, ◌≡◌, ◌==◌, refl, ap, sym, ◌∙◌, Option, none, some, List, [], ◌∷◌, get_elem?, arith,
}
use calloop.Error.{ok}
use calloop.Sources.Signals.{
  Signal, sighup, sigint, sigquit, sigill, sigtrap, sigabrt, sigbus, sigfpe, sigkill, sigusr1,
  sigsegv, sigusr2, sigpipe, sigalrm, sigterm, sigchld, sigcont, sigstop, sigtstp, sigttin, sigttou,
  sigurg, sigxcpu, sigxfsz, sigvtalrm, sigprof, sigwinch, sigio, sigsys,
}
use calloop.Sources.Signals.Numbers.{NixSignal, as_nix, from_num}
use calloop.Sources.Signals.Numbers.Known.{Names, from_num-known}
use calloop.Tests.Signalling.{linux_number, one_signalfd_masks}
use mathlib.Core.Option.{some-injective}

abbrev linux_signals : List (Option Signal)
linux_signals =
    none
    ∷ some sighup
    ∷ some sigint
    ∷ some sigquit
    ∷ some sigill
    ∷ some sigtrap
    ∷ some sigabrt
    ∷ some sigbus
    ∷ some sigfpe
    ∷ some sigkill
    ∷ some sigusr1
    ∷ some sigsegv
    ∷ some sigusr2
    ∷ some sigpipe
    ∷ some sigalrm
    ∷ some sigterm
    ∷ none
    ∷ some sigchld
    ∷ some sigcont
    ∷ some sigstop
    ∷ some sigtstp
    ∷ some sigttin
    ∷ some sigttou
    ∷ some sigurg
    ∷ some sigxcpu
    ∷ some sigxfsz
    ∷ some sigvtalrm
    ∷ some sigprof
    ∷ some sigwinch
    ∷ some sigio
    ∷ none
    ∷ some sigsys
    ∷ []

signal_of-linux_number : (s : Signal) → get_elem? linux_signals (linux_number s) ≡ some (some s)
unfolding linux_number
signal_of-linux_number sighup = refl
signal_of-linux_number sigint = refl
signal_of-linux_number sigquit = refl
signal_of-linux_number sigill = refl
signal_of-linux_number sigtrap = refl
signal_of-linux_number sigabrt = refl
signal_of-linux_number sigbus = refl
signal_of-linux_number sigfpe = refl
signal_of-linux_number sigkill = refl
signal_of-linux_number sigusr1 = refl
signal_of-linux_number sigsegv = refl
signal_of-linux_number sigusr2 = refl
signal_of-linux_number sigpipe = refl
signal_of-linux_number sigalrm = refl
signal_of-linux_number sigterm = refl
signal_of-linux_number sigchld = refl
signal_of-linux_number sigcont = refl
signal_of-linux_number sigstop = refl
signal_of-linux_number sigtstp = refl
signal_of-linux_number sigttin = refl
signal_of-linux_number sigttou = refl
signal_of-linux_number sigurg = refl
signal_of-linux_number sigxcpu = refl
signal_of-linux_number sigxfsz = refl
signal_of-linux_number sigvtalrm = refl
signal_of-linux_number sigprof = refl
signal_of-linux_number sigwinch = refl
signal_of-linux_number sigio = refl
signal_of-linux_number sigsys = refl

abbrev nix_by_number : NixSignal ℕ
nix_by_number = record {
  named = linux_number;
  matches = λ s m. linux_number s == m;
  as_i32 = λ m. m;
  try_from = λ id. some id;
}

same_number : (s t : Signal) → linux_number s ≡ linux_number t → s ≡ t
same_number s t e = some-injective _ _ (
    some-injective _ _ (
      sym (signal_of-linux_number s)
      ∙ ap (λ n. get_elem? linux_signals n) e
      ∙ signal_of-linux_number t))

nix_by_number-Names : Names nix_by_number
nix_by_number-Names = record {
  matches_own = λ s. ground arith;
  matches_one = λ s t e. same_number s t (ground arith);
  numbered = λ m. refl;
}

from_num-known_example : (s : Signal) × (from_num nix_by_number 15 ≡ ok s) × (linux_number s ≡ 15)
from_num-known_example =
    from_num-known nix_by_number nix_by_number-Names one_signalfd_masks 15 (sigint ∷ sigterm ∷ [])
      (λ s. unfold as_nix in refl) (unfold linux_number in refl)
