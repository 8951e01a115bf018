-- ===== src/Tests/Adapters.antt =====
-- Tests of io.rs, over a kernel with the flags of one file.
use calloop.Common.{ℕ, ◌≡◌, refl, none, some, [], ◌∷◌, ◌++◌, true, false, set, arith}
use calloop.Error.{already_exists, io_error, ok, err}
use calloop.Token.{increment_version}
use calloop.Sys.{Readiness, readiness_empty, interest_empty, interest_read, Mode, Poller, Poll}
use calloop.Sys
use calloop.PostAction.{PostAction}
use calloop.SourceList.{SourceEntry, SourceList, vacant_entry}
use calloop.SourceList.Slots.{IsValid}
use calloop.Async.{
  reregister, Fcntl, OFlags, IoDispatcher, SlotSource, io, other, IoLoop, Async, pending,
  set_nonblocking,
}
use calloop.Async.Adapter.{
  new, drop_async, process_events, take_readiness, register_waker, poll_readable,
}
use calloop.Async.Wakeups.{Repolled, readable_woken}
use calloop.Async.Lifetime.{new_failed_leaks}
use calloop.Async.Lifetime.Restored.{FcntlLaws, IsRestored, new-drop_async}
use calloop.Tests.Fixtures.{Watch, watch_poller, watch_two, poll_two, inner_at, token_at}

instance abbrev one_file : Fcntl OFlags
one_file = record { getfl = λ fd s. (ok s, s); setfl = λ fd fl s. (ok tt, fl) }

abbrev one_file_laws : FcntlLaws OFlags one_file
one_file_laws = record {
  flags = λ fd s. s;
  getfl_reads = λ fd s. refl;
  setfl_writes = λ fd fl s. (refl, refl);
}

abbrev blocking : OFlags
blocking = record { nonblocking = false; others = 2 }

abbrev entry_other : SourceEntry (SlotSource ℕ)
entry_other = record { token = inner_at 0 0 0; source = some (other 7) }

abbrev entry_vacant : SourceEntry (SlotSource ℕ)
entry_vacant = record { token = inner_at 1 0 0; source = none }

abbrev entry_claimed : SourceEntry (SlotSource ℕ)
entry_claimed = record { token = inner_at 1 1 0; source = none }

-- A loop with one other source and a vacant slot.
abbrev loop_one : IoLoop Watch OFlags ℕ ℕ
loop_one = record {
  poll = poll_two;
  sources = record { sources = entry_other ∷ entry_vacant ∷ [] };
  cells = [];
  kernel = blocking;
  woken = [];
}

abbrev claimed_one : SourceList (SlotSource ℕ)
claimed_one = record { sources = entry_other ∷ entry_claimed ∷ [] }

loop_one-IsValid : IsValid loop_one.sources
loop_one-IsValid = record { slots = omega arith; ids_u32 = omega arith }

claims_one : vacant_entry loop_one.sources ≡ (ok 1, claimed_one)
unfolding vacant_entry increment_version
claims_one = refl

-- The poller knows the descriptor 3 already.
new_failed_leaks_example :
    ((new 3 loop_one).0 ≡ err (io_error already_exists))
    × ((new 3 loop_one).1.sources.sources
        ≡ set claimed_one.sources 1 (record entry_claimed { source = some (io 0) }))
    × ((new 3 loop_one).1.kernel ≡ record blocking { nonblocking = true })
new_failed_leaks_example =
    new_failed_leaks 3 false loop_one
      (record loop_one { kernel = record blocking { nonblocking = true } }) claimed_one 1
      entry_claimed (io_error already_exists) (unfold set_nonblocking in refl) claims_one refl
      (unfold Sys.register in refl)

new-drop_async_example :
    (a : Async) × (l2 : IoLoop Watch OFlags ℕ ℕ) × (new 4 loop_one ≡ (ok a, l2))
    × ((drop_async a l2).0 ≡ ok tt)
    × IsRestored one_file_laws 4 loop_one
        (drop_async a l2).1
        1
        entry_claimed
        (record poll_two { poller = record watch_two { descriptors = 4 ∷ 3 ∷ 5 ∷ [] } })
new-drop_async_example =
    new-drop_async one_file_laws 4 loop_one claimed_one 1 entry_claimed
      (record poll_two { poller = record watch_two { descriptors = 4 ∷ 3 ∷ 5 ∷ [] } })
      loop_one-IsValid claims_one refl (unfold Sys.register in refl) (unfold Sys.unregister in refl)

abbrev dispatcher_one : IoDispatcher ℕ
dispatcher_one = record {
  fd = 3;
  token = some (token_at 1);
  waker = none;
  is_registered = true;
  interest = interest_empty;
  last_readiness = readiness_empty;
}

abbrev loop_waiting : IoLoop Watch OFlags ℕ ℕ
loop_waiting = record loop_one { cells = dispatcher_one ∷ [] }

abbrev readable : Readiness
readable = record { readable = true; writable = false; error = false }

waits_first : (poll_readable 0 8 loop_waiting).0 ≡ ok pending
unfolding poll_readable take_readiness register_waker reregister Sys.reregister
waits_first = refl

readable_woken_example :
    let waiting = (poll_readable 0 8 loop_waiting).1 in
    let event = process_events 0 readable waiting in
    (event.0 ≡ ok PostAction.continue)
    × (event.1.woken ≡ waiting.woken ++ 8 ∷ [])
    × Repolled true 0 9 (poll_readable 0 9 event.1)
readable_woken_example = readable_woken 0 8 9 loop_waiting dispatcher_one readable refl waits_first
