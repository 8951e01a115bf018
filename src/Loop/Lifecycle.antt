-- ===== src/Loop/Lifecycle.antt =====
-- The sources with additional lifecycle events: `AdditionalLifecycleEventsSet` of sources/mod.rs, and
-- an insertion that fails.
pub mod Stranded
use calloop.Common.{
  ℕ, ◌≡◌, refl, sym, subst, Option, none, some, List, [], ◌∷◌, ◌++◌, Bool, true, false, length,
  get_elem?, set, arith, get_elem?-lt, get_elem?-set_self, get_elem?-append_end, ◌⊎◌, inl, inr, ◌∙◌,
  Bool-cases,
}
use mathlib.Core.Option.{some-injective}
use calloop.Error.{Error, Result, ok, err, panicked, bind_result, M, ◌>>=◌}
use calloop.Token.{Token, RegistrationToken, same_source_as}
use calloop.Sys.{Poller, Readiness}
use calloop.SourceList.{SourceEntry, SourceList, get}
use calloop.SourceList.Slots.{IsValid}
use calloop.Sources.{EventSource}
use calloop.Dispatcher.{
  register_free, is_borrowed, DispatcherInner, DispatcherCell, Dispatching, register,
}
use calloop.Loop.{LoopInner, EventLoop, on_dispatcher, at_cell, after_dispatching}
use calloop.Loop.Program.{UserCode}
use calloop.Loop.Event.{find_dispatcher}
use calloop.Token.{get_id, registration_token, factory_new}
use calloop.SourceList.{vacant_entry}
use calloop.SourceList.Laws.{get-vacant_entry_self}
use calloop.Loop.Handle.{
  on_sources, insert_source, register_dispatcher, new_dispatcher, read_slot, slot_token, write_slot,
  settle_slot, fill,
}
use calloop.Loop.Event.{found, on_inner}
use calloop.Loop.Dispatch.{on_cell, with_source, at_source, note_synthetic, before_sleep}
use calloop.Loop.Cycle.{Attempt, on_poll, retry, after_poll, dispatch_events, lifecycle_tokens}
use calloop.Dispatcher.{on_source, enrol, needs, lifecycle_register}

module _ {P S : Type 0} ⦃e : EventSource P S⦄ where
  -- What a failed `register` leaves in the lifecycle set.
  failing-register :
      (d : Dispatching P S) (x : Error)
      → d.cell.borrowed ≡ false
      → d.cell.inner.needs_additional_lifecycle_events ≡ true
      → (e.register (record { source = d.cell.inner.source; poll = d.poll; factory = d.factory })).0
        ≡ err x
      → ((register d).0 ≡ err x)
        × ((register d).1.lifecycle ≡ d.lifecycle ++ registration_token d.factory ∷ [])
  unfolding register register_free is_borrowed needs enrol lifecycle_register
  failing-register d x b n h =
      let Q : Result Error (Unit {0}) × Dispatching P S → Type 0 =
        λ r. (r.0 ≡ err x) × (r.1.lifecycle ≡ d.lifecycle ++ registration_token d.factory ∷ []) in
      subst (λ b'. Q (register_free b' d)) (sym b)
        (subst (λ n'. Q (bind_result (enrol n' d) (λ _. on_source e.register))) (sym n) (h, refl))

vacant_slot :
    (es : List (SourceEntry ℕ)) (i : ℕ) (ent : SourceEntry ℕ)
    → get_elem? es i ≡ some ent
    → get_id ent.token ≡ i
    → ent.source ≡ none
    → found (get (record { sources = es }) (registration_token (factory_new ent.token)).inner)
      ≡ none
unfolding get same_source_as registration_token factory_new
vacant_slot es i ent at num v = ground arith

module _ {P S I : Type 0} ⦃e : EventSource P S⦄ where
  -- Where the slots are valid and have a vacant one, and `register` of a source with lifecycle events
  -- fails for the token of that slot, the source is not inserted, but its token stays in the lifecycle
  -- set, and its slot is vacant.
  pub failed_insert_strands :
      (l : LoopInner P S I) (inner : DispatcherInner S) (x : Error) (i : ℕ) (s : SourceList ℕ)
      (slot : SourceEntry ℕ)
      → IsValid l.sources
      → vacant_entry l.sources ≡ (ok i, s)
      → get_elem? s.sources i ≡ some slot
      → inner.needs_additional_lifecycle_events ≡ true
      → (e.register
          (record { source = inner.source; poll = l.poll; factory = factory_new slot.token })).0
        ≡ err x
      → ((insert_source inner l).0 ≡ err x)
        × ((t : RegistrationToken) × (t ≡ registration_token (factory_new slot.token))
            × ((insert_source inner l).1.lifecycle ≡ l.lifecycle ++ t ∷ [])
            × (found (get (insert_source inner l).1.sources t.inner) ≡ none))
  unfolding insert_source register_dispatcher new_dispatcher read_slot slot_token write_slot
      settle_slot fill on_sources on_dispatcher at_cell after_dispatching
  failed_insert_strands l inner x i s ent v c at n fails =
      let (ent', at', vacant, num', self) = get-vacant_entry_self l.sources s i v c in
      let num : get_id ent.token ≡ i =
        subst (λ y. get_id y.token ≡ i) (some-injective _ _ (sym at' ∙ at)) num' in
      let id = length l.dispatchers in
      let cell : DispatcherCell S = record { inner = inner; borrowed = false } in
      let full : SourceEntry ℕ = record ent { source = some id } in
      let lt = get_elem?-lt s.sources i at in
      let at1 = get_elem?-set_self s.sources i full lt in
      let d : Dispatching P S = record {
        cell = cell;
        poll = l.poll;
        lifecycle = l.lifecycle;
        factory = factory_new ent.token;
      } in
      let f = failing-register d x refl n fails in
      let t = registration_token d.factory in
      let vac : SourceEntry ℕ = record ent { source = none } in
      let at2 = get_elem?-set_self (set s.sources i full) i vac (get_elem?-lt _ i at1) in
      let gone = vacant_slot (set (set s.sources i full) i vac) i vac at2 num refl in
      let cs = get_elem?-append_end l.dispatchers cell in
      (
        rw (c, at, at1, cs, f.0) refl,
        (t, refl, rw (c, at, at1, cs, f.0) f.1, rw (c, at, at1, cs, f.0, at1) gone),
      )
