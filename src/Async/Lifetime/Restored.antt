-- ===== src/Async/Lifetime/Restored.antt =====
-- That an adapter of io.rs which is dropped again leaves everything as it was.
use calloop.Common.{
  Bool-cases, inl, inr, ℕ, ◌≡◌, ◌≢◌, refl, ap, ◌∙◌, none, some, [], ◌∷◌, ◌++◌, Bool, true, false,
  set, length, get_elem?, get_elem?-lt, get_elem?-set_self, get_elem?-set_ne, length-set,
  get_elem?-append_end, set-append_end, arith,
}
use calloop.Error.{Error, Result, ok, bind_result, attempt_result}
use calloop.Sys.{Interest, interest_empty, Mode, Readiness, readiness_empty, Poller, Poll}
use calloop.Sys
use calloop.SourceList.{SourceEntry, SourceList, vacant_entry}
use calloop.SourceList.Slots.{IsValid}
use calloop.SourceList.Laws.{get_elem?-vacant_entry_ne, get_mut-claimed}
use calloop.Async.{
  bool_eq, Fcntl, OFlags, with_nonblocking, IoDispatcher, SlotSource, io, IoLoop, Async, found,
  on_poll, on_kernel, token_of, settle, set_nonblocking, new_dispatcher,
}
use calloop.Async.Adapter.{new, drop_async, kill, forget, clear_slot, vacate, note_gone}
use calloop.Async.Wakeups.{borrow_at, modify_at}
use calloop.Async.Lifetime.{fresh_dispatcher, enrolled, claimed, registered_at}

-- The documented behaviour of `fcntl` on the flags of a file.
pub record FcntlLaws (K : Type 0) (f : Fcntl K) : Type 0 where
  pub flags : ℕ → K → OFlags
  pub getfl_reads : (fd : ℕ) (s : K) → f.getfl fd s ≡ (ok (flags fd s), s)
  pub setfl_writes :
      (fd : ℕ) (fl : OFlags) (s : K)
      → ((f.setfl fd fl s).0 ≡ ok tt) × (flags fd (f.setfl fd fl s).1 ≡ fl)

bool_eq→eq : (a b : Bool) → bool_eq a b ≡ true → b ≡ a
bool_eq→eq true b e = e
bool_eq→eq false true e = absurd (ground arith)
bool_eq→eq false false e = refl

module _ {P K W X : Type 0} ⦃o : Poller P⦄ ⦃f : Fcntl K⦄ (w : FcntlLaws K f) where
  -- `set_nonblocking` answers what the file was, and changes that flag alone.
  record IsSwitched (fd : ℕ) (b : Bool) (l : IoLoop P K W X) : Type 0 where
    kernel : K
    result :
        set_nonblocking fd b l
        ≡ (ok (w.flags fd l.kernel).nonblocking, record l { kernel = kernel })
    changed : w.flags fd kernel ≡ with_nonblocking b (w.flags fd l.kernel)

  set_nonblocking-IsSwitched : (fd : ℕ) (b : Bool) (l : IoLoop P K W X) → IsSwitched fd b l
  unfolding set_nonblocking on_kernel
  set_nonblocking-IsSwitched fd b l =
      elim (Bool-cases (bool_eq b (w.flags fd l.kernel).nonblocking)) [
        | inl same ↦ record {
          kernel = l.kernel;
          result = rw (w.getfl_reads fd l.kernel, same) refl;
          changed =
              ap (λ c. with_nonblocking c (w.flags fd l.kernel))
                (bool_eq→eq b (w.flags fd l.kernel).nonblocking same);
        }
        | inr other ↦
            let fl = with_nonblocking b (w.flags fd l.kernel) in
            let h = w.setfl_writes fd fl l.kernel in
            record {
              kernel = (f.setfl fd fl l.kernel).1;
              result = rw (w.getfl_reads fd l.kernel, other, h.0) refl;
              changed = h.1;
            }
      ]

  -- The loop after `new` has succeeded.
  abbrev pub adapted :
      ℕ
      → IoLoop P K W X
      → SourceList (SlotSource X)
      → ℕ
      → SourceEntry (SlotSource X)
      → K
      → Poll P
      → IoLoop P K W X
  adapted fd l sources i e kernel p = record (enrolled fd l sources i e) {
    poll = p;
    cells =
        l.cells
        ++ record (fresh_dispatcher fd (some (record { inner = e.token }))) { is_registered = true }
          ∷ [];
    kernel = kernel;
  }

  accepted :
      (fd : ℕ) (l : IoLoop P K W X) (sources : SourceList (SlotSource X)) (i : ℕ)
      (e : SourceEntry (SlotSource X)) (r : Result Error (Unit {0}) × Poll P)
      → r.0 ≡ ok tt
      → bind_result
          (attempt_result r.0, record (enrolled fd l sources i e) { poll = r.1 })
          (settle (length l.cells))
        ≡ (ok tt, adapted fd l sources i e l.kernel r.1)
  unfolding settle
  accepted fd l sources i e r h =
      let d : IoDispatcher W = fresh_dispatcher fd (some (record { inner = e.token })) in
      rw
        (
          h,
          modify_at (length l.cells) _ (record (enrolled fd l sources i e) { poll = r.1 }) d
              (get_elem?-append_end l.cells d),
          set-append_end l.cells d,
        )
        refl

  new-adapted :
      (fd : ℕ) (l : IoLoop P K W X) (sources : SourceList (SlotSource X)) (i : ℕ)
      (e : SourceEntry (SlotSource X)) (s : IsSwitched fd true l)
      → vacant_entry l.sources ≡ (ok i, sources)
      → get_elem? sources.sources i ≡ some e
      → (Sys.register fd interest_empty Mode.one_shot (record { inner = e.token }) l.poll).0 ≡ ok tt
      → new fd l ≡ (
        ok (record {
          fd = fd;
          dispatcher = length l.cells;
          was_nonblocking = (w.flags fd l.kernel).nonblocking;
        }),
        adapted fd l sources i e s.kernel
            (Sys.register fd interest_empty Mode.one_shot (record { inner = e.token }) l.poll).1,
      )
  unfolding new new_dispatcher on_poll
  new-adapted fd l sources i e s v g r =
      let l1 : IoLoop P K W X = record l { kernel = s.kernel } in
      let q = Sys.register fd interest_empty Mode.one_shot (record { inner = e.token }) l.poll in
      let done = registered_at fd l1 sources i e ∙ accepted fd l1 sources i e q r in
      rw (s.result, claimed fd l1 sources i e v g, done) refl

  gone :
      (id : ℕ) (r : Result Error (Unit {0}) × IoLoop P K W X) (d : IoDispatcher W)
      → r.0 ≡ ok tt
      → get_elem? r.1.cells id ≡ some d
      → bind_result (attempt_result r.0, r.1) (note_gone id)
        ≡ (ok tt, record (r.1) { cells = set r.1.cells id (record d { is_registered = false }) })
  unfolding note_gone
  gone id r d h g = rw (h, modify_at id _ r.1 d g) refl

  kill-adapted :
      (fd : ℕ) (l : IoLoop P K W X) (sources : SourceList (SlotSource X)) (i : ℕ)
      (e : SourceEntry (SlotSource X)) (kernel : K) (p : Poll P)
      → IsValid l.sources
      → vacant_entry l.sources ≡ (ok i, sources)
      → get_elem? sources.sources i ≡ some e
      → (Sys.unregister fd p).0 ≡ ok tt
      → kill (length l.cells) (adapted fd l sources i e kernel p) ≡ (
        ok tt,
        record l {
          poll = (Sys.unregister fd p).1;
          sources = record {
            sources =
                set
                  (set sources.sources i (record e { source = some (io (length l.cells)) }))
                  i
                  (record e { source = none });
          };
          cells = l.cells ++ fresh_dispatcher fd (some (record { inner = e.token })) ∷ [];
          kernel = kernel;
        },
      )
  unfolding kill token_of found forget clear_slot vacate on_poll
  kill-adapted fd l sources i e kernel p valid v g u =
      let l2 = adapted fd l sources i e kernel p in
      let d : IoDispatcher W = record (fresh_dispatcher fd (some (record { inner = e.token }))) {
        is_registered = true;
      } in
      let at = get_elem?-append_end l.cells d in
      let q = on_poll (Sys.unregister fd) l2 in
      rw
        (
          borrow_at (length l.cells) l2 d at,
          gone (length l.cells) q d u at,
          set-append_end l.cells d,
          get_mut-claimed l.sources sources i e (record e { source = some (io (length l.cells)) })
              valid v g refl,
        )
        refl

  -- What is left of an adapter that was made from `l` over the slot `i`: the flags of the file are what
  -- they were, the slot is vacant, no other slot has changed, and the poller has let the file go.
  pub record IsRestored (fd : ℕ) (l l' : IoLoop P K W X) (i : ℕ) (e : SourceEntry (SlotSource X))
      (p : Poll P) : Type 0 where
    pub flags_back : w.flags fd l'.kernel ≡ w.flags fd l.kernel
    pub slot_free : get_elem? l'.sources.sources i ≡ some (record e { source = none })
    pub others_kept :
        (j : ℕ) → i ≢ j → get_elem? l'.sources.sources j ≡ get_elem? l.sources.sources j
    pub released : l'.poll ≡ (Sys.unregister fd p).1

  restored :
      (fd : ℕ) (l : IoLoop P K W X) (sources : SourceList (SlotSource X)) (i : ℕ)
      (e : SourceEntry (SlotSource X)) (s : IsSwitched fd true l) (p : Poll P)
      → IsValid l.sources
      → vacant_entry l.sources ≡ (ok i, sources)
      → get_elem? sources.sources i ≡ some e
      → (Sys.unregister fd p).0 ≡ ok tt
      → let r =
          drop_async
            (record {
              fd = fd;
              dispatcher = length l.cells;
              was_nonblocking = (w.flags fd l.kernel).nonblocking;
            })
            (adapted fd l sources i e s.kernel p) in
        (r.0 ≡ ok tt) × IsRestored fd l r.1 i e p
  unfolding drop_async
  restored fd l sources i e s p valid v g u =
      let id = length l.cells in
      let d : IoDispatcher W = fresh_dispatcher fd (some (record { inner = e.token })) in
      let filled = set sources.sources i (record e { source = some (io id) }) in
      let vacant : SourceEntry (SlotSource X) = record e { source = none } in
      let k = kill-adapted fd l sources i e s.kernel p valid v g u in
      let l3 : IoLoop P K W X = record l {
        poll = (Sys.unregister fd p).1;
        sources = record {
          sources =
              set (set sources.sources i (record e { source = some (io id) })) i
                (record e { source = none });
        };
        cells = l.cells ++ d ∷ [];
        kernel = s.kernel;
      } in
      let back = set_nonblocking-IsSwitched fd (w.flags fd l.kernel).nonblocking l3 in
      let b = borrow_at id l3 d (get_elem?-append_end l.cells d) in
      (
        rw (k, b, back.result) refl,
        rw (k, b, back.result)
            (record {
              flags_back =
                  back.changed ∙ ap (with_nonblocking (w.flags fd l.kernel).nonblocking) s.changed;
              slot_free = get_elem?-set_self filled i vacant (
                  omega (
                    arith,
                    length-set {0} sources.sources i (record e { source = some (io id) }),
                    get_elem?-lt sources.sources i g,
                  ));
              others_kept = λ j ne.
                  get_elem?-set_ne filled i j vacant ne
                  ∙ get_elem?-set_ne sources.sources i j _ ne
                  ∙ get_elem?-vacant_entry_ne l.sources sources i j v ne;
              released = refl;
            }),
      )

  -- An adapter that was made and dropped again, by a poller that takes the file and lets it go, leaves
  -- everything as it was: the flags of the file, its slot, which is vacant again, the other slots.
  pub new-drop_async :
      (fd : ℕ) (l : IoLoop P K W X) (sources : SourceList (SlotSource X)) (i : ℕ)
      (e : SourceEntry (SlotSource X)) (p : Poll P)
      → IsValid l.sources
      → vacant_entry l.sources ≡ (ok i, sources)
      → get_elem? sources.sources i ≡ some e
      → Sys.register fd interest_empty Mode.one_shot (record { inner = e.token }) l.poll
        ≡ (ok tt, p)
      → (Sys.unregister fd p).0 ≡ ok tt
      → (a : Async) × (l2 : IoLoop P K W X) × (new fd l ≡ (ok a, l2))
        × ((drop_async a l2).0 ≡ ok tt)
        × IsRestored fd l (drop_async a l2).1 i e p
  new-drop_async fd l sources i e p valid v g r u =
      let s = set_nonblocking-IsSwitched fd true l in
      let made = new-adapted fd l sources i e s v g (rw r refl) in
      let back = restored fd l sources i e s p valid v g u in
      (_, adapted fd l sources i e s.kernel p, rw r at made, back.0, back.1)
