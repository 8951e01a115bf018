-- ===== src/SourceList/Slots.antt =====
-- The well-formedness of the slots of list.rs, and which slot `vacant_entry` claims.
use calloop.Common.{
  ℕ, zero, suc, ◌+◌, ◌^◌, ◌≤◌, ◌<◌, ◌≡◌, refl, ◌⊎◌, inl, inr, none, some, List, [], ◌∷◌, ◌++◌,
  length, get_elem?, arith, Option-cases, ap,
}
use calloop.Token.{increment_version}
use calloop.SourceList.{SourceEntry, SourceList, position_vacant, bump}

-- The tokens of the slots `k`, `k + 1`, …: ids count up, versions are u16, no sub-id.
pub record IsSlot {S : Type 0} (k : ℕ) (e : SourceEntry S) : Type 0 where
  pub id_index : e.token.id ≡ k
  pub version_u16 : e.token.version < 2 ^ 16
  pub no_sub_id : e.token.sub_id ≡ 0

module _ {S : Type 0} where
  abbrev pub AreSlots : ℕ → List (SourceEntry S) → Type 0
  AreSlots k [] = Unit
  AreSlots k (e ∷ es) = IsSlot k e × AreSlots (suc k) es

  pub record IsValid (l : SourceList S) : Type 0 where
    pub slots : AreSlots 0 l.sources
    pub ids_u32 : length l.sources ≤ 2 ^ 32

  pub AreSlots-get :
      (k i : ℕ) (es : List (SourceEntry S)) (e : SourceEntry S)
      → AreSlots k es
      → get_elem? es i ≡ some e
      → IsSlot (k + i) e
  AreSlots-get k i [] e h p = ground arith
  AreSlots-get k zero (x ∷ es) e h p = ground arith
  AreSlots-get k (suc i) (x ∷ es) e h p = ground (arith, AreSlots-get (suc k) i es e h.1)

  pub AreSlots-bump : (k i : ℕ) (es : List (SourceEntry S)) → AreSlots k es → AreSlots k (bump es i)
  unfolding bump increment_version
  AreSlots-bump k i [] h = h
  AreSlots-bump k zero (e ∷ es) h = (ground (arith, h.0), h.1)
  AreSlots-bump k (suc i) (e ∷ es) h = (h.0, AreSlots-bump (suc k) i es h.1)

  pub AreSlots-push :
      (k : ℕ) (es : List (SourceEntry S)) (e : SourceEntry S)
      → AreSlots k es
      → IsSlot (k + length es) e
      → AreSlots k (es ++ e ∷ [])
  AreSlots-push k [] e h s = (ground arith, tt)
  AreSlots-push k (x ∷ es) e h s = (h.0, AreSlots-push (suc k) es e h.1 (ground arith))

  pub length-bump : (es : List (SourceEntry S)) (i : ℕ) → length (bump es i) ≡ length es
  unfolding bump
  length-bump [] i = refl
  length-bump (e ∷ es) zero = refl
  length-bump (e ∷ es) (suc i) = ap suc (length-bump es i)

  -- What `position` finds is the first vacant slot.
  pub position_vacant-cases :
      (k : ℕ) (es : List (SourceEntry S))
      → (position_vacant k es ≡ none)
        ⊎ ((i : ℕ) × (e : SourceEntry S) × (position_vacant k es ≡ some (k + i))
            × (get_elem? es i ≡ some e)
            × (e.source ≡ none))
  unfolding position_vacant
  position_vacant-cases k [] = inl refl
  position_vacant-cases k (e ∷ es) = elim (Option-cases e.source) [
    | inl n ↦ inr (0, e, ground arith, refl, n)
    | inr (s, q) ↦ elim (position_vacant-cases (suc k) es) [
      | inl none_left ↦ inl (ground arith)
      | inr (i, e', p, g, n) ↦ inr (suc i, e', ground arith, g, n)
    ]
  ]
