-- ===== src/Async/Lifetime.antt =====
-- What an adapter of io.rs leaves behind: after a failed `new`, and after its drop.
pub mod Restored
use calloop.Common.{
  Bool-cases, ◌⊎◌, inl, inr, ℕ, ◌≡◌, ◌≢◌, refl, ap, sym, subst, ◌∙◌, Option, none, some, List, [],
  ◌∷◌, ◌++◌, Bool, true, false, not, set, length, get_elem?, get_elem?-lt, get_elem?-set_self,
  get_elem?-set_ne, length-set, get_elem?-append_end, set-append_end, arith, if◌then◌else◌,
}
use calloop.Error.{
  IoError, Error, io_error, Result, ok, err, panicked, M, bind_result, attempt_result,
  map_err_result, map_err, zoom,
}
use calloop.Token.{Token, TokenInner, get_id}
use calloop.Sys.{Interest, interest_empty, Mode, Readiness, readiness_empty, Poller, Poll}
use calloop.Sys
use calloop.SourceList.{SourceEntry, SourceList, vacant_entry, get, get_mut}
use calloop.SourceList.Slots.{IsValid}
use calloop.SourceList.Laws.{get_elem?-vacant_entry_ne, get_mut-claimed}
use calloop.Async.{
  bool_eq, Fcntl, OFlags, with_nonblocking, IoDispatcher, SlotSource, io, IoLoop, Async, found,
  on_poll, on_kernel, on_sources, borrow, modify, token_of, settle, set_nonblocking, new_dispatcher,
  fill_slot, claim_slot, register,
}
use calloop.Async.Adapter.{new, drop_async, kill, forget, clear_slot, vacate, note_gone}
use calloop.Async.Wakeups.{borrow_at, modify_at}

abbrev pub fresh_dispatcher : {W : Type 0} → ℕ → Option Token → IoDispatcher W
fresh_dispatcher fd t = record {
  fd = fd;
  token = t;
  waker = none;
  is_registered = false;
  interest = interest_empty;
  last_readiness = readiness_empty;
}

-- The loop when `new` registers the dispatcher, which stands in the slot `i` by then.
abbrev pub enrolled :
    {P K W X : Type 0}
    → ℕ
    → IoLoop P K W X
    → SourceList (SlotSource X)
    → ℕ
    → SourceEntry (SlotSource X)
    → IoLoop P K W X
enrolled fd l sources i e = record l {
  sources = record {
    sources = set sources.sources i (record e { source = some (io (length l.cells)) });
  };
  cells = l.cells ++ fresh_dispatcher fd (some (record { inner = e.token })) ∷ [];
}

module _ {P K W X : Type 0} ⦃o : Poller P⦄ ⦃f : Fcntl K⦄ where
  claimed :
      (fd : ℕ) (l : IoLoop P K W X) (sources : SourceList (SlotSource X)) (i : ℕ)
      (e : SourceEntry (SlotSource X))
      → vacant_entry l.sources ≡ (ok i, sources)
      → get_elem? sources.sources i ≡ some e
      → claim_slot (length l.cells) (new_dispatcher fd l).1 ≡ (ok tt, enrolled fd l sources i e)
  unfolding claim_slot new_dispatcher on_sources fill_slot
  claimed fd l sources i e v g =
      let d : IoDispatcher W = fresh_dispatcher fd none in
      let l' : IoLoop P K W X = record l {
        sources = record {
          sources = set sources.sources i (record e { source = some (io (length l.cells)) });
        };
        cells = l.cells ++ d ∷ [];
      } in
      rw
        (
          v,
          g,
          modify_at (length l.cells) _ l' d (get_elem?-append_end l.cells d),
          set-append_end l.cells d,
        )
        refl

  registered_at :
      (fd : ℕ) (l : IoLoop P K W X) (sources : SourceList (SlotSource X)) (i : ℕ)
      (e : SourceEntry (SlotSource X))
      → let l' = enrolled fd l sources i e in
        let r =
          on_poll (Sys.register fd interest_empty Mode.one_shot (record { inner = e.token })) l' in
        register (length l.cells) l'
        ≡ bind_result (attempt_result r.0, r.1) (settle (length l.cells))
  unfolding register token_of found
  registered_at fd l sources i e =
      let d : IoDispatcher W = fresh_dispatcher fd (some (record { inner = e.token })) in
      rw (borrow_at (length l.cells) (enrolled fd l sources i e) d (get_elem?-append_end l.cells d))
        refl

  refused :
      (id : ℕ) (r : Result Error (Unit {0}) × IoLoop P K W X) (x : Error)
      → r.0 ≡ err x
      → bind_result (attempt_result r.0, r.1) (settle id) ≡ (err x, r.1)
  unfolding settle
  refused id r x e = rw e refl

  -- A file that the poller refuses: `new` fails, and returns with its dispatcher in the slot that was
  -- claimed and with the file as `set_nonblocking` made it.
  pub new_failed_leaks :
      (fd : ℕ) (b : Bool) (l l1 : IoLoop P K W X) (sources : SourceList (SlotSource X)) (i : ℕ)
      (e : SourceEntry (SlotSource X)) (x : Error)
      → set_nonblocking fd true l ≡ (ok b, l1)
      → vacant_entry l1.sources ≡ (ok i, sources)
      → get_elem? sources.sources i ≡ some e
      → (Sys.register fd interest_empty Mode.one_shot (record { inner = e.token }) l1.poll).0
        ≡ err x
      → ((new fd l).0 ≡ err x)
        × ((new fd l).1.sources.sources
            ≡ set sources.sources i (record e { source = some (io (length l1.cells)) }))
        × ((new fd l).1.kernel ≡ l1.kernel)
  unfolding new new_dispatcher on_poll
  new_failed_leaks fd b l l1 sources i e x n v g r =
      let l' = enrolled fd l1 sources i e in
      let q =
        on_poll (Sys.register fd interest_empty Mode.one_shot (record { inner = e.token })) l' in
      let failed = registered_at fd l1 sources i e ∙ refused (length l1.cells) q x r in
      rw (n, claimed fd l1 sources i e v g, failed) (refl, refl, refl)
