-- ===== src/SourceList/Laws.antt =====
-- What `vacant_entry`, `get` and `get_mut` of list.rs promise to the event loop.
use calloop.Common.{
  ℕ, zero, suc, ◌^◌, ◌≤◌, ◌<◌, ◌≡◌, ◌≢◌, refl, sym, subst, ◌∙◌, inl, inr, Option, none, some, List,
  [], ◌∷◌, ◌++◌, true, ltb, length, get_elem?, set, arith, length-append, length-set, Bool-cases,
  Option-cases, ap, get_elem?-append_ne, get_elem?-append_end, get_elem?-ge, get_elem?-lt,
  get_elem?-set_self, get_elem?-set_ne, All, All-append,
}
use mathlib.Core.Option.{some-injective}
use calloop.Error.{Error, invalid_token, Result, ok, err, panicked}
use calloop.Token.{TokenInner, get_id, same_source_as, increment_version}
use calloop.SourceList.{SourceEntry, SourceList, bump, vacant_entry, get, get_mut}
use calloop.SourceList.Slots.{
  AreSlots, IsValid, AreSlots-get, AreSlots-bump, AreSlots-push, length-bump, position_vacant-cases,
}

module _ {S : Type 0} where
  fresh_entry : ℕ → SourceEntry S
  fresh_entry i = record { token = record { id = i; version = 0; sub_id = 0 }; source = none }

  -- The three ways in which `vacant_entry` ends.
  data Claim (l : SourceList S) (r : Result Error ℕ × SourceList S) : Type 0 where
    reused :
        (i : ℕ) (e : SourceEntry S)
        → get_elem? l.sources i ≡ some e
        → e.source ≡ none
        → r ≡ (ok i, record { sources = bump l.sources i })
        → Claim l r
    added :
        length l.sources < 2 ^ 32
        → r ≡ (
          ok (length l.sources),
          record { sources = l.sources ++ fresh_entry (length l.sources) ∷ [] },
        )
        → Claim l r
    full : 2 ^ 32 ≤ length l.sources → r ≡ (panicked, l) → Claim l r

  vacant_entry-Claim : (l : SourceList S) → Claim l (vacant_entry l)
  unfolding vacant_entry fresh_entry
  vacant_entry-Claim l = elim (position_vacant-cases 0 l.sources) [
    | inl p ↦ elim (Bool-cases (ltb (length l.sources) (2 ^ 32))) [
      | inl small ↦ added (ground arith) (ground arith)
      | inr big ↦ full (ground arith) (ground arith)
    ]
    | inr (i, e, p, g, n) ↦ reused i e g n (ground arith)
  ]

  get_elem?-bump_self :
      (es : List (SourceEntry S)) (i : ℕ) (e : SourceEntry S)
      → get_elem? es i ≡ some e
      → get_elem? (bump es i) i ≡ some (record e { token = increment_version e.token })
  unfolding bump
  get_elem?-bump_self [] i e h = ground arith
  get_elem?-bump_self (x ∷ es) zero e h = ground arith
  get_elem?-bump_self (x ∷ es) (suc i) e h = get_elem?-bump_self es i e h

  get_elem?-bump_ne :
      (es : List (SourceEntry S)) (i j : ℕ) → i ≢ j → get_elem? (bump es i) j ≡ get_elem? es j
  unfolding bump
  get_elem?-bump_ne [] i j h = refl
  get_elem?-bump_ne (x ∷ es) zero zero h = absurd (h refl)
  get_elem?-bump_ne (x ∷ es) zero (suc j) h = refl
  get_elem?-bump_ne (x ∷ es) (suc i) zero h = refl
  get_elem?-bump_ne (x ∷ es) (suc i) (suc j) h = get_elem?-bump_ne es i j (λ e. h (ap suc e))

  -- Claiming a slot keeps the slots numbered and their ids within a u32.
  pub vacant_entry-IsValid : (l : SourceList S) → IsValid l → IsValid (vacant_entry l).1
  unfolding fresh_entry
  vacant_entry-IsValid l v = elim (vacant_entry-Claim l) [
    | reused i e g n q ↦ rw q (record {
      slots = AreSlots-bump 0 i l.sources v.slots;
      ids_u32 = omega (arith, length-bump l.sources i, v.ids_u32);
    })
    | added small q ↦ rw q (record {
      slots = AreSlots-push 0 l.sources _ v.slots (omega arith);
      ids_u32 =
          omega (arith, length-append {0} l.sources (fresh_entry (length l.sources) ∷ []), small);
    })
    | full big q ↦ rw q v
  ]

  All-bump :
      (Q : Option S → Type 0) (es : List (SourceEntry S)) (i : ℕ)
      → All (λ e. Q e.source) es
      → All (λ e. Q e.source) (bump es i)
  unfolding bump
  All-bump Q [] i a = a
  All-bump Q (e ∷ es) zero a = a
  All-bump Q (e ∷ es) (suc i) a = (a.0, All-bump Q es i a.1)

  -- A claim moves no source into a slot.
  pub All-vacant_entry :
      (Q : Option S → Type 0) (l : SourceList S)
      → Q none
      → All (λ e. Q e.source) l.sources
      → All (λ e. Q e.source) (vacant_entry l).1.sources
  unfolding fresh_entry
  All-vacant_entry Q l n a = elim (vacant_entry-Claim l) [
    | reused i e g _ q ↦ rw q (All-bump Q l.sources i a)
    | added _ q ↦ rw q (All-append _ l.sources _ a (n, tt))
    | full _ q ↦ rw q a
  ]

  -- A token that was valid for the slot before it was claimed is refused afterwards.
  pub vacant_entry_revokes :
      (l l' : SourceList S) (i : ℕ) (t : TokenInner) (e : SourceEntry S)
      → IsValid l
      → vacant_entry l ≡ (ok i, l')
      → get_id t ≡ i
      → get l t ≡ ok e
      → get l' t ≡ err invalid_token
  unfolding get same_source_as increment_version
  vacant_entry_revokes l l' i t e v c at h = elim (vacant_entry-Claim l) [
    | reused j x g n q ↦
        ground (arith, get_elem?-bump_self l.sources j x g, AreSlots-get 0 j l.sources x v.slots g)
    | added small q ↦ ground (arith, get_elem?-ge l.sources (length l.sources))
    | full big q ↦ ground arith
  ]

  -- A claim concerns its slot only: every other token reads as before.
  get-vacant_entry_ne :
      (l l' : SourceList S) (i : ℕ) (t : TokenInner)
      → vacant_entry l ≡ (ok i, l')
      → get_id t ≢ i
      → get l' t ≡ get l t
  unfolding get
  get-vacant_entry_ne l l' i t c ne = elim (vacant_entry-Claim l) [
    | reused j e g n q ↦ ground (arith, get_elem?-bump_ne l.sources j t.id)
    | added small q ↦
        ground (arith, get_elem?-append_ne l.sources (fresh_entry (length l.sources)) t.id)
    | full big q ↦ ground arith
  ]

  pub get_elem?-vacant_entry_ne :
      (l l' : SourceList S) (i j : ℕ)
      → vacant_entry l ≡ (ok i, l')
      → i ≢ j
      → get_elem? l'.sources j ≡ get_elem? l.sources j
  get_elem?-vacant_entry_ne l l' i j c ne = elim (vacant_entry-Claim l) [
    | reused n e g _ q ↦ ground (arith, get_elem?-bump_ne l.sources n j)
    | added small q ↦
        ground (arith, get_elem?-append_ne l.sources (fresh_entry (length l.sources)) j)
    | full big q ↦ ground arith
  ]

  -- The claimed slot is vacant, and its own token reads it.
  pub get-vacant_entry_self :
      (l l' : SourceList S) (i : ℕ)
      → IsValid l
      → vacant_entry l ≡ (ok i, l')
      → (e : SourceEntry S) × (get_elem? l'.sources i ≡ some e)
        × (e.source ≡ none)
        × (get_id e.token ≡ i)
        × (get l' e.token ≡ ok e)
  unfolding get same_source_as increment_version fresh_entry
  get-vacant_entry_self l l' i v c = elim (vacant_entry-Claim l) [
    | reused j x g n q ↦
        let x' : SourceEntry S = record x { token = increment_version x.token } in
        let g' = get_elem?-bump_self l.sources j x g in
        let s = AreSlots-get 0 j l.sources x v.slots g in
        (x', ground arith, n, ground arith, ground arith)
    | added small q ↦
        let x' : SourceEntry S = fresh_entry (length l.sources) in
        let g' = get_elem?-append_end l.sources x' in
        (x', ground arith, refl, ground arith, ground arith)
    | full big q ↦ absurd (ground arith)
  ]

  pub get_mut-eq_ok :
      (l : SourceList S) (t : TokenInner) (e e' : SourceEntry S)
      (put : SourceEntry S → SourceList S)
      → get_mut l t ≡ ok (e, put)
      → (get_elem? l.sources t.id ≡ some e)
        × (same_source_as e.token t ≡ true)
        × (put e' ≡ record { sources = set l.sources t.id e' })
  unfolding get_mut
  get_mut-eq_ok l t e e' put h = elim (Option-cases (get_elem? l.sources t.id)) [
    | inl none_there ↦ absurd (ground arith)
    | inr (x, q) ↦ elim (Bool-cases (same_source_as x.token t)) [
      | inl same ↦ ground arith
      | inr other ↦ absurd (ground arith)
    ]
  ]

  -- `get` and `get_mut` refuse the same tokens, and find the same entry.
  pub get_mut-get_ok :
      (l : SourceList S) (t : TokenInner) (e : SourceEntry S)
      → get l t ≡ ok e
      → get_mut l t ≡ ok (e, λ e'. record { sources = set l.sources (get_id t) e' })
  unfolding get get_mut
  get_mut-get_ok l t e h = rw h refl

  pub get_mut-get_err :
      (l : SourceList S) (t : TokenInner) (x : Error) → get l t ≡ err x → get_mut l t ≡ err x
  unfolding get get_mut
  get_mut-get_err l t x h = rw h refl

  pub get-eq_ok :
      (l : SourceList S) (t : TokenInner) (e : SourceEntry S)
      → get l t ≡ ok e
      → (get_elem? l.sources (get_id t) ≡ some e) × (same_source_as e.token t ≡ true)
  unfolding get
  get-eq_ok l t e h = elim (Option-cases (get_elem? l.sources (get_id t))) [
    | inl none_there ↦ absurd (ground arith)
    | inr (x, q) ↦ elim (Bool-cases (same_source_as x.token t)) [
      | inl same ↦ ground arith
      | inr other ↦ absurd (ground arith)
    ]
  ]

  pub AreSlots-set :
      (k i : ℕ) (es : List (SourceEntry S)) (e e' : SourceEntry S)
      → AreSlots k es
      → get_elem? es i ≡ some e
      → e'.token ≡ e.token
      → AreSlots k (set es i e')
  AreSlots-set k i [] e e' h p q = h
  AreSlots-set k zero (x ∷ es) e e' h p q = ground arith
  AreSlots-set k (suc i) (x ∷ es) e e' h p q = (h.0, AreSlots-set (suc k) i es e e' h.1 p q)

  -- A write through the reference of `get_mut` that keeps the slot's token is read back by that
  -- token, is seen by no token of another slot, and keeps the slots well formed.
  pub get_mut_writes :
      (l : SourceList S) (t u : TokenInner) (e e' : SourceEntry S)
      (put : SourceEntry S → SourceList S)
      → IsValid l
      → get_mut l t ≡ ok (e, put)
      → e'.token ≡ e.token
      → (get (put e') t ≡ ok e')
        × (get_id u ≢ get_id t → get (put e') u ≡ get l u)
        × IsValid (put e')
  unfolding get same_source_as
  get_mut_writes l t u e e' put v h k =
      let (at, same, wrote) = get_mut-eq_ok l t e e' put h in
      let self = get_elem?-set_self l.sources t.id e' (get_elem?-lt l.sources t.id at) in
      (
        rw wrote (ground arith),
        λ ne. rw wrote (ground (arith, get_elem?-set_ne l.sources t.id u.id e')),
        rw wrote (record {
          slots = AreSlots-set 0 t.id l.sources e e' v.slots at k;
          ids_u32 = omega (arith, length-set l.sources t.id e', v.ids_u32);
        }),
      )

  -- What was written to the claimed slot is found by the slot's token.
  pub get_mut-claimed :
      (l l' : SourceList S) (i : ℕ) (e e' : SourceEntry S)
      → IsValid l
      → vacant_entry l ≡ (ok i, l')
      → get_elem? l'.sources i ≡ some e
      → e'.token ≡ e.token
      → get_mut (record { sources = set l'.sources i e' }) e.token
        ≡ ok (e', λ x. record { sources = set (set l'.sources i e') i x })
  unfolding get same_source_as
  get_mut-claimed l l' i e e' v c g k =
      let (x, gx, n, idx, got) = get-vacant_entry_self l l' i v c in
      let same : x ≡ e = some-injective _ _ (sym gx ∙ g) in
      let idx' : get_id e.token ≡ i = subst (λ y. get_id y.token ≡ i) same idx in
      let eq = get-eq_ok l' e.token e (subst (λ y. get l' y.token ≡ ok y) same got) in
      let wrote = get_elem?-set_self l'.sources i e' (get_elem?-lt l'.sources i g) in
      let l'' : SourceList S = record { sources = set l'.sources i e' } in
      let read : get l'' e.token ≡ ok e' = ground arith in
      subst (λ j. get_mut l'' e.token ≡ ok (e', λ y. record { sources = set l''.sources j y })) idx'
        (get_mut-get_ok l'' e.token e' read)
