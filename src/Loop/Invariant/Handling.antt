-- ===== src/Loop/Invariant/Handling.antt =====
-- The steps that the calls of `LoopHandle` in loop_logic.rs are made of keep the loop sound.
use calloop.Common.{
  ℕ, suc, ◌≤◌, ◌≡◌, refl, sym, subst, inl, inr, Option, none, some, List, [], ◌∷◌, Bool, true,
  false, length, get_elem?, set, All, All-set, length-set, length-append, arith, Option-cases,
  Bool-cases,
}
use calloop.Error.{Error, Result, ok, M, attempt}
use calloop.Token.{TokenInner}
use calloop.PostAction.{PostAction}
use calloop.SourceList.{SourceEntry, SourceList, vacant_entry, get_mut}
use calloop.SourceList.Slots.{IsValid}
use calloop.SourceList.Laws.{vacant_entry-IsValid, All-vacant_entry, AreSlots-set, get_mut-eq_ok}
use calloop.Dispatcher.{DispatcherInner, DispatcherCell, Dispatching}
use calloop.Dispatcher.Borrow.{KeepsBorrow}
use calloop.Loop.{LoopInner, IdleCell, on_dispatcher, at_cell, after_dispatching, dispatching}
use calloop.Loop.Handle.{
  on_sources, slot_token, read_slot, write_slot, fill, new_dispatcher, insert_idle, cancel_idle,
  cancel_cell, set_pending,
}
use calloop.Loop.Invariant.{
  IsBacked, IsSound, Grown, Kept, Keeps, Kept-refl, Kept-trans, borrows, borrows-set_same,
  borrows-append, All-IsBacked_grow, IsBacked-grow, Grown-refl, Grown-append,
}

module _ {P S I : Type 0} where
  -- Writes that leave the slots and the cells alone.
  pub same-Kept :
      (k : ℕ) (l l' : LoopInner P S I)
      → l'.sources ≡ l.sources
      → l'.dispatchers ≡ l.dispatchers
      → IsSound k l
      → Kept k l l'
  same-Kept k l l' p q s = record {
    sound = record {
      slots = subst IsValid (sym p) s.slots;
      backed =
          subst (λ es. All (λ e. IsBacked (length l'.dispatchers) e.source) es.sources) (sym p)
            (subst (λ ds. All (λ e. IsBacked (length ds) e.source) l.sources.sources) (sym q)
              s.backed);
      enough = subst (λ ds. k ≤ length ds) (sym q) s.enough;
    };
    borrowed_as_before =
        subst (λ ds. Grown (borrows l.dispatchers) (borrows ds)) (sym q) (Grown-refl _);
  }

  pub cell-Kept :
      (k id : ℕ) (l : LoopInner P S I) (c d : DispatcherCell S)
      → get_elem? l.dispatchers id ≡ some c
      → d.borrowed ≡ c.borrowed
      → IsSound k l
      → Kept k l (record l { dispatchers = set l.dispatchers id d })
  cell-Kept k id l c d at same s =
      let n = length-set l.dispatchers id d in
      record {
        sound = record {
          slots = s.slots;
          backed = rw n s.backed;
          enough = omega (arith, n, s.enough);
        };
        borrowed_as_before = rw (borrows-set_same l.dispatchers id c d at same) (Grown-refl _);
      }

  pub then_same-Kept :
      (k : ℕ) (l m n : LoopInner P S I)
      → n.sources ≡ m.sources
      → n.dispatchers ≡ m.dispatchers
      → Kept k l m
      → Kept k l n
  then_same-Kept k l m n p q h = Kept-trans k l m n h (same-Kept k m n p q h.sound)

  -- A method of a dispatcher that ends its borrow keeps the loop sound.
  pub on_dispatcher-Keeps :
      {A : Type 0} (k id : ℕ) (t : TokenInner) (m : M Error (Dispatching P S) A)
      → KeepsBorrow m
      → Keeps {I = I} k (on_dispatcher id t m)
  unfolding on_dispatcher at_cell after_dispatching dispatching
  on_dispatcher-Keeps k id t m h = record {
    keeps = λ l s. elim (Option-cases (get_elem? l.dispatchers id)) [
      | inl q ↦ rw q (Kept-refl k l s)
      | inr (c, q) ↦
          let d = m (dispatching l t c) in
          rw q (
            then_same-Kept k l _ _ refl refl
              (cell-Kept k id l c d.1.cell q (h (dispatching l t c)) s))
    ];
  }

  pub attempt-Keeps :
      {A : Type 0} (k : ℕ) (m : M Error (LoopInner P S I) A) → Keeps k m → Keeps k (attempt m)
  attempt-Keeps k m h = record { keeps = λ l s. h.keeps l s }

  pub vacant_entry-Keeps : (k : ℕ) → Keeps {P = P} {S = S} {I = I} k (on_sources vacant_entry)
  unfolding on_sources
  vacant_entry-Keeps k = record {
    keeps = λ l s. record {
      sound = record {
        slots = vacant_entry-IsValid l.sources s.slots;
        backed = All-vacant_entry (IsBacked (length l.dispatchers)) l.sources tt s.backed;
        enough = s.enough;
      };
      borrowed_as_before = Grown-refl _;
    };
  }

  pub new_dispatcher-Kept :
      (k : ℕ) (inner : DispatcherInner S) (l : LoopInner P S I)
      → k ≤ suc (length l.dispatchers)
      → IsSound 0 l
      → Kept k l (new_dispatcher inner l).1
  unfolding new_dispatcher
  new_dispatcher-Kept k inner l le s =
      let cell : DispatcherCell S = record { inner = inner; borrowed = false } in
      let n = length-append l.dispatchers (cell ∷ []) in
      record {
        sound = record {
          slots = s.slots;
          backed = All-IsBacked_grow (length l.dispatchers) _ _ (omega (arith, n)) s.backed;
          enough = omega (arith, n, le);
        };
        borrowed_as_before = rw (borrows-append l.dispatchers (cell ∷ [])) (Grown-append _);
      }

  refill-Kept :
      (k i : ℕ) (l : LoopInner P S I) (es : List (SourceEntry ℕ)) (e : SourceEntry ℕ)
      (source : Option ℕ)
      → get_elem? l.sources.sources i ≡ some e
      → es ≡ set l.sources.sources i (record e { source = source })
      → IsBacked k source
      → IsSound k l
      → Kept k l (record l { sources = record { sources = es } })
  refill-Kept k i l es e source at w b s = rw w (record {
    sound = record {
      slots = record {
        slots = AreSlots-set 0 i l.sources.sources e _ s.slots.slots at refl;
        ids_u32 =
            omega (
              arith,
              length-set l.sources.sources i (record e { source = source }),
              s.slots.ids_u32,
            );
      };
      backed = All-set _ l.sources.sources i _ s.backed (IsBacked-grow k _ source s.enough b);
      enough = s.enough;
    };
    borrowed_as_before = Grown-refl _;
  })

  pub write_slot-Keeps :
      (k i : ℕ) (source : Option ℕ)
      → IsBacked k source
      → Keeps {P = P} {S = S} {I = I} k (write_slot i source)
  unfolding write_slot fill
  write_slot-Keeps k i source b = record {
    keeps = λ l s. elim (Option-cases (get_elem? l.sources.sources i)) [
      | inl q ↦ rw q (Kept-refl k l s)
      | inr (e, q) ↦ rw q (refill-Kept k i l _ e source q refl b s)
    ];
  }

  -- A slot that is emptied through the reference of `get_mut`.
  pub put-Kept :
      (k : ℕ) (t : TokenInner) (l : LoopInner P S I) (e : SourceEntry ℕ)
      (put : SourceEntry ℕ → SourceList ℕ)
      → get_mut l.sources t ≡ ok (e, put)
      → IsSound k l
      → Kept k l (record l { sources = put (record e { source = none }) })
  put-Kept k t l e put h s =
      let (at, same, wrote) = get_mut-eq_ok l.sources t e (record e { source = none }) put h in
      rw wrote (refill-Kept k t.id l _ e none at refl tt s)

  pub read_slot-Keeps : (k i : ℕ) → Keeps {P = P} {S = S} {I = I} k (read_slot i)
  unfolding read_slot slot_token
  read_slot-Keeps k i = record {
    keeps = λ l s. elim (Option-cases (get_elem? l.sources.sources i)) [
      | inl q ↦ rw q (Kept-refl k l s)
      | inr (e, q) ↦ rw q (Kept-refl k l s)
    ];
  }

  pub pure-Keeps :
      {A : Type 0} (k : ℕ) (r : Result Error A) → Keeps {P = P} {S = S} {I = I} k (λ l. (r, l))
  pure-Keeps k r = record { keeps = λ l s. Kept-refl k l s }

  pub set_pending-Keeps :
      (k : ℕ) (a : PostAction) (b : Bool) → Keeps {P = P} {S = S} {I = I} k (set_pending a b)
  unfolding set_pending
  set_pending-Keeps k a true = record { keeps = λ l s. Kept-refl k l s }
  set_pending-Keeps k a false = record { keeps = λ l s. same-Kept k l _ refl refl s }

  pub insert_idle-Keeps : (k : ℕ) (f : I) → Keeps {P = P} {S = S} k (insert_idle f)
  unfolding insert_idle
  insert_idle-Keeps k f = record { keeps = λ l s. same-Kept k l _ refl refl s }

  cancel_cell-Kept :
      (k id : ℕ) (o : Option (IdleCell I)) (l : LoopInner P S I)
      → IsSound k l
      → Kept k l (cancel_cell id o l).1
  unfolding cancel_cell
  cancel_cell-Kept k id none l s = Kept-refl k l s
  cancel_cell-Kept k id (some c) l s = elim (Bool-cases c.borrowed) [
    | inl q ↦ rw q (Kept-refl k l s)
    | inr q ↦ rw q (same-Kept k l _ refl refl s)
  ]

  pub cancel_idle-Keeps : (k id : ℕ) → Keeps {P = P} {S = S} {I = I} k (cancel_idle id)
  unfolding cancel_idle
  cancel_idle-Keeps k id = record {
    keeps = λ l s. cancel_cell-Kept k id (get_elem? l.idle_cells id) l s;
  }
