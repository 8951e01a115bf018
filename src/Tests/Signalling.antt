-- ===== src/Tests/Signalling.antt =====
-- Tests of sources/signals.rs.
use calloop.Common.{
  ℕ, ◌≡◌, ◌==◌, ◌||◌, ◌&&◌, not, Bool, false, refl, Option, none, some, List, [], ◌∷◌, ◌++◌, arith,
}
use calloop.Error.{IoError, Result, ok}
use calloop.Sys.{Mode, interest_read, readiness_empty}
use calloop.PostAction.{PostAction}
use calloop.Sources.Generic.{Generic}
use calloop.Sources.Generic
use calloop.Sources.Signals.{
  Signal, sighup, sigint, sigquit, sigill, sigtrap, sigabrt, sigbus, sigfpe, sigkill, sigusr1,
  sigsegv, sigusr2, sigpipe, sigalrm, sigterm, sigchld, sigcont, sigstop, sigtstp, sigttin, sigttou,
  sigurg, sigxcpu, sigxfsz, sigvtalrm, sigprof, sigwinch, sigio, sigsys, SigSets, Signals,
  signal_error,
}
use calloop.Sources.Signals
use calloop.Sources.Signals.Masks.{Masks}
use calloop.Sources.Signals.Commands.{add, remove, viewed_all}
use calloop.Sources.Signals.Lifetime.{first_view, drop_signals-Restores}
use calloop.Sources.Signals.Delivery.{empty, reads, process_events_lem}
use calloop.Tests.Fixtures.{token_at}
use calloop.Tests.Descriptors.{ping_source}

unfoldable pub linux_number : Signal → ℕ
linux_number sighup = 1
linux_number sigint = 2
linux_number sigquit = 3
linux_number sigill = 4
linux_number sigtrap = 5
linux_number sigabrt = 6
linux_number sigbus = 7
linux_number sigfpe = 8
linux_number sigkill = 9
linux_number sigusr1 = 10
linux_number sigsegv = 11
linux_number sigusr2 = 12
linux_number sigpipe = 13
linux_number sigalrm = 14
linux_number sigterm = 15
linux_number sigchld = 17
linux_number sigcont = 18
linux_number sigstop = 19
linux_number sigtstp = 20
linux_number sigttin = 21
linux_number sigttou = 22
linux_number sigurg = 23
linux_number sigxcpu = 24
linux_number sigxfsz = 25
linux_number sigvtalrm = 26
linux_number sigprof = 27
linux_number sigwinch = 28
linux_number sigio = 29
linux_number sigsys = 31

-- A set of signal numbers.
abbrev pub Numbers : Type 0
Numbers = ℕ → Bool

-- The thread's mask, the mask of its only signalfd, and the signals that wait to be read.
abbrev pub Kernel : Type 0
Kernel = Numbers × (Numbers × List ℕ)

abbrev pub read_pending : Kernel → Result IoError (Option ℕ) × Kernel
read_pending (b, (w, [])) = (ok none, (b, (w, [])))
read_pending (b, (w, n ∷ ns)) = (ok (some n), (b, (w, ns)))

abbrev pub one_signalfd : SigSets Numbers ℕ Kernel
one_signalfd = record {
  empty = λ n. false;
  add = λ s q n. n == linux_number s || q n;
  remove = λ s q n. not (n == linux_number s) && q n;
  thread_block = λ q k. (ok tt, ((λ n. q n || k.0 n), k.1));
  thread_unblock = λ q k. (ok tt, ((λ n. not (q n) && k.0 n), k.1));
  with_flags = λ q k. (ok 3, (k.0, (q, k.1.1)));
  set_mask = λ fd q k. (ok tt, (k.0, (q, k.1.1)));
  read_signal = λ fd k. read_pending k;
}

abbrev pub one_signalfd_masks : Masks one_signalfd
one_signalfd_masks = record {
  number = linux_number;
  contains = λ n q. q n;
  blocked = λ n k. k.0 n;
  watched = λ fd n k. k.1.0 n;
  empty_lem = λ n. refl;
  add_lem = λ n s q. refl;
  remove_lem = λ n s q. refl;
  block_lem = λ q k h n. (refl, λ fd. refl);
  unblock_lem = λ q k h n. (refl, λ fd. refl);
  set_mask_lem = λ fd q k h n. (refl, refl);
  with_flags_lem = λ q k fd h n. (refl, refl);
}

-- A thread that blocks SIGHUP.
abbrev at_start : Kernel
at_start = ((λ n. n == 1), ((λ n. false), []))

abbrev first_mask : Numbers
first_mask n = n == 15 || (n == 2 || false)

abbrev made : Signals Numbers
made = record { sfd = Generic.new 3 interest_read Mode.level; mask = first_mask }

abbrev made_kernel : Kernel
made_kernel = ((λ n. first_mask n || n == 1), (first_mask, []))

abbrev last_mask : Numbers
last_mask n = not (n == 2) && (n == 10 || first_mask n)

abbrev changed : Signals Numbers
changed = record { sfd = Generic.new 3 interest_read Mode.level; mask = last_mask }

abbrev changed_kernel : Kernel
changed_kernel = (
  (λ n. not (n == 2 || false) && ((n == 10 || first_mask n) || (first_mask n || n == 1))),
  (last_mask, []),
)

drop_signals-Restores_example :
    (fd : ℕ) × (changed.sfd.file ≡ some fd)
    × ((n : ℕ)
        → let v =
            viewed_all one_signalfd_masks n
              (add (sigusr1 ∷ []) ∷ remove (sigint ∷ []) ∷ [])
              (first_view one_signalfd_masks (sigint ∷ sigterm ∷ []) at_start n) in
          (changed_kernel.1.0 n ≡ v.0)
          × (changed_kernel.0 n ≡ v.1)
          × ((Signals.drop_signals one_signalfd changed changed_kernel).0 n ≡ (not v.0 && v.1)))
unfolding Signals.new Signals.add_all Signals.remove_all Signals.add_signals Signals.remove_signals
    Signals.set_own_mask Signals.on_kernel Signals.watch Signals.set_sfd_mask linux_number
    Generic.new
drop_signals-Restores_example =
    drop_signals-Restores one_signalfd_masks (sigint ∷ sigterm ∷ [])
      (add (sigusr1 ∷ []) ∷ remove (sigint ∷ []) ∷ []) made changed at_start made_kernel
      changed_kernel refl refl refl

abbrev gather : ℕ → List ℕ → List ℕ
gather n ns = ns ++ n ∷ []

-- Two signals wait.
abbrev two_waiting : Kernel
two_waiting = (first_mask, (first_mask, 2 ∷ 15 ∷ []))

abbrev read_out : Kernel
read_out = (first_mask, (first_mask, []))

process_events_lem_example :
    Signals.process_events one_signalfd 3 readiness_empty
      (token_at 2)
      gather
      (ping_source, (two_waiting, []))
    ≡ (ok PostAction.continue, (record ping_source { file = some 4 }, (read_out, 2 ∷ 15 ∷ [])))
process_events_lem_example =
    process_events_lem one_signalfd 4 3 readiness_empty (token_at 2) gather ping_source two_waiting
      [] (2 ∷ 15 ∷ []) (ok tt) read_out (omega arith) refl refl
      (reads 2 (first_mask, (first_mask, 15 ∷ [])) refl (reads 15 read_out refl (empty refl)))
