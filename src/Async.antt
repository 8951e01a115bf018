-- ===== src/Async.antt =====
-- io.rs: the adapter of a file for futures. Its dispatcher stands in a slot of the event loop as the
-- sources do; the calls `fcntl_getfl` and `fcntl_setfl` of the crate `rustix` are the interface
-- `Fcntl`, with the flags of a file as the one that matters and the rest.
pub mod Adapter
pub mod Wakeups
pub mod Lifetime
use calloop.Common.{
  ℕ, Option, none, some, List, [], ◌∷◌, ◌++◌, Bool, true, false, not, ◌&&◌, ◌||◌, ◌==◌, length,
  get_elem?, set, if◌then◌else◌,
}
use calloop.Error.{
  IoError, would_block, Error, io_error, io_error_from, Result, ok, err, panicked, M, pure, fail,
  panic, ◌>>=◌, ◌>>◌, zoom, map_err, attempt,
}
use calloop.Token.{Token, TokenInner}
use calloop.Sys.{
  Interest, interest_empty, interest_read, interest_write, Mode, Readiness, readiness_empty, Poller,
  Poll,
}
use calloop.Sys
use calloop.PostAction.{PostAction}
use calloop.SourceList.{SourceEntry, SourceList, vacant_entry, get_mut}

pub record OFlags : Type 0 where
  pub nonblocking : Bool
  pub others : ℕ

pub record Fcntl (K : Type 0) : Type 0 where
  pub getfl : ℕ → M IoError K OFlags
  pub setfl : ℕ → OFlags → M IoError K (Unit {0})

-- `W` stands for wakers.
pub record IoDispatcher (W : Type 0) : Type 0 where
  pub fd : ℕ
  pub token : Option Token
  pub waker : Option W
  pub is_registered : Bool
  pub interest : Interest
  pub last_readiness : Readiness

-- `Rc<dyn EventDispatcher>`: the dispatcher of an adapter, by its cell, or another source's.
pub data SlotSource (X : Type 0) : Type 0 where
  io : ℕ → SlotSource X
  other : X → SlotSource X

-- The part of `LoopInner` that the adapters work on, with the cells of their dispatchers, the kernel's
-- state, and the wakers that were woken.
pub record IoLoop (P K W X : Type 0) : Type 0 where
  pub poll : Poll P
  pub sources : SourceList (SlotSource X)
  pub cells : List (IoDispatcher W)
  pub kernel : K
  pub woken : List W

-- `Async`; the file is its raw descriptor.
pub record Async : Type 0 where
  pub fd : ℕ
  pub dispatcher : ℕ
  pub was_nonblocking : Bool

pub data TaskPoll (A : Type 0) : Type 0 where
  ready : A → TaskPoll A
  pending : TaskPoll A

abbrev pub bool_eq : Bool → Bool → Bool
bool_eq true b = b
bool_eq false b = not b

-- `previous | NONBLOCK`, or `previous & !NONBLOCK`.
abbrev pub with_nonblocking : Bool → OFlags → OFlags
with_nonblocking b flags = record flags { nonblocking = b }

module _ {P K W X : Type 0} where
  unfoldable pub on_kernel : {A : Type 0} → M IoError K A → M Error (IoLoop P K W X) A
  on_kernel m = map_err io_error (zoom (λ l. l.kernel) (λ k l. record l { kernel = k }) m)

  unfoldable pub on_poll : {A : Type 0} → M Error (Poll P) A → M Error (IoLoop P K W X) A
  on_poll = zoom (λ l. l.poll) (λ p l. record l { poll = p })

  unfoldable pub on_sources :
      {A : Type 0} → M Error (SourceList (SlotSource X)) A → M Error (IoLoop P K W X) A
  on_sources = zoom (λ l. l.sources) (λ s l. record l { sources = s })

  unfoldable pub found : {A : Type 0} → Option A → M Error (IoLoop P K W X) A
  found none = panic
  found (some d) = pure d

  -- `RefCell::borrow` of the dispatcher in the cell `id`. No index dangles.
  unfoldable pub borrow : ℕ → M Error (IoLoop P K W X) (IoDispatcher W)
  unfolding found
  borrow id l = found (get_elem? l.cells id) l

  unfoldable pub modify :
      ℕ → (IoDispatcher W → IoDispatcher W) → M Error (IoLoop P K W X) (Unit {0})
  unfolding borrow
  modify id f = do d ← borrow id; λ l. (ok tt, record l { cells = set l.cells id (f d) })

  -- `disp.token.expect("No token for IO dispatcher")`.
  unfoldable pub token_of : IoDispatcher W → M Error (IoLoop P K W X) Token
  unfolding found
  token_of d = found d.token

  module _ ⦃f : Fcntl K⦄ where
    unfoldable pub set_nonblocking : ℕ → Bool → M Error (IoLoop P K W X) Bool
    unfolding on_kernel
    set_nonblocking fd is_nonblocking = do
      previous ← on_kernel (f.getfl fd)
      let next = with_nonblocking is_nonblocking previous
      if bool_eq next.nonblocking previous.nonblocking then pure tt else on_kernel (f.setfl fd next)
      pure previous.nonblocking

  -- `Rc::new(RefCell::new(IoDispatcher { .. }))`.
  unfoldable pub new_dispatcher : ℕ → M Error (IoLoop P K W X) ℕ
  new_dispatcher fd l = (
    ok (length l.cells),
    record l {
      cells =
          l.cells
          ++ record {
            fd = fd;
            token = none;
            waker = none;
            is_registered = false;
            interest = interest_empty;
            last_readiness = readiness_empty;
          }
            ∷ [];
    },
  )

  -- Through the `&mut SourceEntry` of `vacant_entry`: the slot gets the dispatcher.
  unfoldable pub fill_slot :
      ℕ → ℕ → Option (SourceEntry (SlotSource X)) → M Error (IoLoop P K W X) Token
  fill_slot i id none l = (panicked, l)
  fill_slot i id (some e) l = (
    ok (record { inner = e.token }),
    record l {
      sources = record { sources = set l.sources.sources i (record e { source = some (io id) }) };
    },
  )

  unfoldable pub claim_slot : ℕ → M Error (IoLoop P K W X) (Unit {0})
  unfolding on_sources fill_slot modify
  claim_slot id = do
    i ← on_sources vacant_entry
    t ← λ l. fill_slot i id (get_elem? l.sources.sources i) l
    modify id λ d. record d { token = some t }

  module _ ⦃o : Poller P⦄ where
    unfoldable pub settle : ℕ → Result Error (Unit {0}) → M Error (IoLoop P K W X) (Unit {0})
    unfolding modify
    settle id (ok _) = modify id λ d. record d { is_registered = true }
    settle id (err x) = fail x
    settle id panicked = panic

    -- `IoLoopInner::register`: nothing is of interest yet.
    unfoldable pub register : ℕ → M Error (IoLoop P K W X) (Unit {0})
    unfolding borrow token_of on_poll settle
    register id = do
      d ← borrow id
      t ← token_of d
      result ← attempt (on_poll (Sys.register d.fd interest_empty Mode.one_shot t))
      settle id result

    -- `IoLoopInner::reregister`.
    unfoldable pub reregister : ℕ → M Error (IoLoop P K W X) (Unit {0})
    unfolding borrow token_of on_poll settle
    reregister id = do
      d ← borrow id
      t ← token_of d
      result ← attempt (on_poll (Sys.reregister d.fd d.interest Mode.one_shot t))
      settle id result
