-- ===== src/Loop/Invariant/Life.antt =====
-- A loop of loop_logic.rs from `EventLoop::try_new` on, through all that a program does with it.
use calloop.Common.{ℕ, ◌≡◌, subst, Option, List, [], false, All, arith}
use calloop.Error.{IoError, Error, Result, ok, err, panicked}
use calloop.Sys.{Poller, Poll, new_inner}
use calloop.PostAction.{PostAction}
use calloop.Sources.{EventSource}
use calloop.Loop.{EventLoop}
use calloop.Loop.Program.{Program, UserCode, run}
use calloop.Loop.Cycle.{Attempt, dispatch}
use calloop.Loop.Invariant.{IsSound, borrows, Grown-free}
use calloop.Loop.Invariant.Calls.{run-Keeps}
use calloop.Loop.Invariant.Cycle.{dispatch-IsSound}

module _ {P S I X : Type 0} where
  unfoldable pub new_loop : X → Poll P → EventLoop P S I X
  new_loop user poll = record {
    inner = record {
      poll = poll;
      sources = record { sources = [] };
      lifecycle = [];
      idles = [];
      pending_action = PostAction.continue;
      dispatchers = [];
      idle_cells = [];
    };
    synthetic_events = [];
    user = user;
  }

  abbrev pub loop_of : X → Result Error (Poll P) → Result Error (EventLoop P S I X)
  loop_of user (ok poll) = ok (new_loop user poll)
  loop_of user (err x) = err x
  loop_of user panicked = panicked

-- `EventLoop::try_new`, given what `Poller::new` answers, with the user's data put to it.
unfoldable pub try_new :
    {P S I X : Type 0} ⦃o : Poller P⦄ → X → Result IoError P → Result Error (EventLoop P S I X)
try_new user poller = loop_of user (new_inner false poller)

module _ {P S I X : Type 0} ⦃o : Poller P⦄ ⦃e : EventSource P S⦄ ⦃u : UserCode P S I X⦄ where
  -- The loops that a program can get at: a new one; one whose handle the program has used, whatever it
  -- called and made of its data; and one that was dispatched, however that ended.
  pub data Lives : EventLoop P S I X → Type 0 where
    created :
        {l : EventLoop P S I X} (user : X) (poller : Result IoError P)
        → try_new user poller ≡ ok l
        → Lives l
    uses :
        {l : EventLoop P S I X} (program : Program S I (Unit {0})) (user : X)
        → Lives l
        → Lives (record l { inner = (run program l.inner).1; user = user })
    dispatches :
        {l : EventLoop P S I X} (attempts : List Attempt) (timeout : Option ℕ)
        → Lives l
        → Lives (dispatch attempts timeout l).1

  abbrev pub IsFree : EventLoop P S I X → Type 0
  IsFree l = IsSound 0 l.inner × All (λ b. b ≡ false) (borrows l.inner.dispatchers)

  new_loop-IsFree : (user : X) (poll : Poll P) → IsFree (new_loop user poll)
  unfolding new_loop
  new_loop-IsFree user poll = (
    record {
      slots = record { slots = tt; ids_u32 = omega arith };
      backed = tt;
      enough = omega arith;
    },
    tt,
  )

  loop_of-IsFree :
      (user : X) (r : Result Error (Poll P)) (l : EventLoop P S I X)
      → loop_of user r ≡ ok l
      → IsFree l
  loop_of-IsFree user (ok poll) l h =
      let e : new_loop user poll ≡ l = ground arith in subst IsFree e (new_loop-IsFree user poll)
  loop_of-IsFree user (err x) l h = absurd (ground arith)
  loop_of-IsFree user panicked l h = absurd (ground arith)

  -- A loop that `try_new` made has well-formed slots with every source in its cell, and no source
  -- borrowed, after any number of dispatches and whatever the program and its callbacks call, also when
  -- they fail or panic.
  pub Lives-IsFree : (l : EventLoop P S I X) → Lives l → IsFree l
  unfolding try_new
  Lives-IsFree l (created user poller h) = loop_of-IsFree user (new_inner false poller) l h
  Lives-IsFree _ (uses {l} program user p) =
      let h = Lives-IsFree l p in
      let k = (run-Keeps program).keeps l.inner h.0 in
      (k.sound, Grown-free _ _ h.1 k.borrowed_as_before)
  Lives-IsFree _ (dispatches {l} attempts timeout p) =
      let h = Lives-IsFree l p in dispatch-IsSound attempts timeout l h.0 h.1
