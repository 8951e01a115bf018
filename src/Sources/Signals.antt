-- ===== src/Sources/Signals.antt =====
-- sources/signals.rs: Unix signals as events of a source over a signalfd. The sets of signals and the
-- calls on the mask of the thread and on the signalfd, of the crate `nix`, are the interface `SigSets`;
-- `K` is the kernel's state, `Q` stands for the sets, `V` for what is read of a signal.
pub mod Masks
pub mod Commands
pub mod Lifetime
pub mod Delivery
pub mod Numbers
use calloop.Common.{ℕ, zero, suc, Option, none, some, List, [], ◌∷◌}
use calloop.Error.{
  Boxed, of_io, IoError, Error, io_error, Result, ok, err, panicked, M, pure, ◌>>=◌, ◌>>◌, zoom,
  map_err,
}
use calloop.Token.{Token}
use calloop.Sys.{Poller, Mode, Readiness, interest_read}
use calloop.PostAction.{PostAction}
use calloop.Sources.{EventSource, forward}
use calloop.Sources.Generic.{Generic, AsFd, generic_source}
use calloop.Sources.Generic

pub data Signal : Type 0 where
  sighup sigint sigquit sigill sigtrap sigabrt sigbus sigfpe sigkill sigusr1 sigsegv sigusr2 :
      Signal
  sigpipe sigalrm sigterm sigchld sigcont sigstop sigtstp sigttin sigttou sigurg sigxcpu : Signal
  sigxfsz sigvtalrm sigprof sigwinch sigio sigsys : Signal

pub record SigSets (Q V K : Type 0) : Type 0 where
  pub empty : Q
  pub add : Signal → Q → Q
  pub remove : Signal → Q → Q
  pub thread_block : Q → M IoError K (Unit {0})
  pub thread_unblock : Q → M IoError K (Unit {0})
  pub with_flags : Q → M IoError K ℕ
  pub set_mask : ℕ → Q → M IoError K (Unit {0})
  pub read_signal : ℕ → M IoError K (Option V)

pub record Signals (Q : Type 0) : Type 0 where
  pub sfd : Generic ℕ
  pub mask : Q

-- A `SignalError`, or the end of the fuel of the model's loop.
pub data SignalError : Type 0 where
  signal_error : Boxed → SignalError
  out_of_rounds : SignalError

-- What the callback of the generic source fails with.
pub data ReadError : Type 0 where
  failed : IoError → ReadError
  no_fuel : ReadError

abbrev pub to_signal_error : ReadError → SignalError
to_signal_error (failed e) = signal_error (of_io e)
to_signal_error no_fuel = out_of_rounds

module _ {Q V K : Type 0} (i : SigSets Q V K) where
  -- `for &s in signals { mask.add(s.as_nix()); }`, and the same with `remove`.
  unfoldable pub add_all : List Signal → Q → Q
  add_all [] mask = mask
  add_all (s ∷ signals) mask = add_all signals (i.add s mask)

  unfoldable pub remove_all : List Signal → Q → Q
  remove_all [] mask = mask
  remove_all (s ∷ signals) mask = remove_all signals (i.remove s mask)

  -- `Signals::new`.
  unfoldable pub new : List Signal → M Error K (Signals Q)
  unfolding add_all
  new signals = do
    let mask = add_all signals i.empty
    map_err io_error (i.thread_block mask)
    sfd ← map_err io_error (i.with_flags mask)
    pure (record { sfd = Generic.new sfd interest_read Mode.level; mask = mask })

  unfoldable pub on_kernel : {A : Type 0} → M IoError K A → M Error (Signals Q × K) A
  on_kernel m = map_err io_error (zoom (λ c. c.1) (λ k c. (c.0, k)) m)

  unfoldable pub set_own_mask : Q → M Error (Signals Q × K) (Unit {0})
  set_own_mask mask (s, k) = (ok tt, (record s { mask = mask }, k))

  -- `self.sfd.get_mut().set_mask(mask)`.
  unfoldable pub watch : Option ℕ → Q → M Error (Signals Q × K) (Unit {0})
  unfolding on_kernel
  watch none mask c = (panicked, c)
  watch (some fd) mask c = on_kernel (i.set_mask fd mask) c

  unfoldable pub set_sfd_mask : Q → M Error (Signals Q × K) (Unit {0})
  unfolding watch
  set_sfd_mask mask c = watch c.0.sfd.file mask c

  unfoldable pub add_signals : List Signal → M Error (Signals Q × K) (Unit {0})
  unfolding set_own_mask on_kernel set_sfd_mask
  add_signals signals (s, k) =
      let mask = add_all signals s.mask in
      (do set_own_mask mask; on_kernel (i.thread_block mask); set_sfd_mask mask) (s, k)

  unfoldable pub remove_signals : List Signal → M Error (Signals Q × K) (Unit {0})
  unfolding set_own_mask on_kernel set_sfd_mask
  remove_signals signals (s, k) =
      let mask = remove_all signals s.mask in
      let removed = add_all signals i.empty in
      (do set_own_mask mask; on_kernel (i.thread_unblock removed); set_sfd_mask mask) (s, k)

  unfoldable pub set_signals : List Signal → M Error (Signals Q × K) (Unit {0})
  unfolding set_own_mask on_kernel set_sfd_mask
  set_signals signals (s, k) =
      let new_mask = add_all signals i.empty in
      (do
        on_kernel (i.thread_unblock s.mask)
        on_kernel (i.thread_block new_mask)
        set_sfd_mask new_mask
        set_own_mask new_mask)
        (s, k)

  -- `Drop for Signals`; an error is logged.
  unfoldable pub drop_signals : Signals Q → K → K
  drop_signals s k = (i.thread_unblock s.mask k).1

  module _ {C : Type 0} where
    unfoldable pub after_read :
        (V → C → C)
        → (K → C → Result ReadError PostAction × (ℕ × (K × C)))
        → Result IoError (Option V) × K
        → ℕ
        → C
        → Result ReadError PostAction × (ℕ × (K × C))
    after_read callback next (ok (some info), k) fd c = next k (callback info c)
    after_read callback next (ok none, k) fd c = (ok PostAction.continue, (fd, (k, c)))
    after_read callback next (err x, k) fd c = (err (failed x), (fd, (k, c)))
    after_read callback next (panicked, k) fd c = (panicked, (fd, (k, c)))

    -- The loop over `read_signal`.
    unfoldable pub read_all :
        (V → C → C) → ℕ → ℕ → K → C → Result ReadError PostAction × (ℕ × (K × C))
    unfolding after_read
    read_all callback zero fd k c = (err no_fuel, (fd, (k, c)))
    read_all callback (suc n) fd k c =
        after_read callback (read_all callback n fd) (i.read_signal fd k) fd c

    unfoldable pub on_ready : (V → C → C) → ℕ → Readiness → M ReadError (ℕ × (K × C)) PostAction
    unfolding read_all
    on_ready callback fuel readiness (fd, (k, c)) = read_all callback fuel fd k c

    -- `Signals::process_events`.
    unfoldable pub process_events :
        ℕ → Readiness → Token → (V → C → C) → M SignalError (Generic ℕ × (K × C)) PostAction
    unfolding on_ready
    process_events fuel readiness t callback =
        map_err to_signal_error (Generic.process_events readiness t (on_ready callback fuel))

-- The registration is that of the signalfd.
instance abbrev pub signals_source :
    {P Q : Type 0} ⦃o : Poller P⦄ ⦃a : AsFd ℕ⦄ → EventSource P (Signals Q)
signals_source = forward (λ s. s.sfd) (λ g s. record s { sfd = g }) generic_source
