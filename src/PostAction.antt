-- ===== src/PostAction.antt =====
-- `PostAction` of sources/mod.rs, and how composed sources combine the actions of their children.
use calloop.Common.{
  ◌≡◌, ◌≢◌, refl, ◌⊎◌, inl, inr, Bool, true, false, not, List, [], ◌∷◌, All, if◌then◌else◌, arith,
}

pub data PostAction : Type 0 where
  continue reregister disable remove : PostAction

-- `==` of the derived `PartialEq`.
unfoldable pub action_eq : PostAction → PostAction → Bool
action_eq continue continue = true
action_eq reregister reregister = true
action_eq disable disable = true
action_eq remove remove = true
action_eq _ _ = false

infixl 60 ◌bitor◌
unfoldable pub ◌bitor◌ : PostAction → PostAction → PostAction
unfolding action_eq
a bitor b = if action_eq a b then a else reregister

unfoldable pub bitor_assign : PostAction → PostAction → PostAction
unfolding action_eq
bitor_assign self rhs = if not (action_eq self rhs) then reregister else self

-- A composed source's loop over its children, `action |= child`.
pub combine : PostAction → List PostAction → PostAction
combine a [] = a
combine a (b ∷ bs) = combine (bitor_assign a b) bs

bitor_assign-bitor : (a b : PostAction) → bitor_assign a b ≡ a bitor b
unfolding bitor_assign ◌bitor◌
bitor_assign-bitor a b = ground arith

combine-reregister : (bs : List PostAction) → combine reregister bs ≡ reregister
unfolding combine bitor_assign
combine-reregister [] = refl
combine-reregister (b ∷ bs) = ground (arith, combine-reregister bs)

same_or_not :
    (a b : PostAction)
    → ((b ≡ a) × (bitor_assign a b ≡ a)) ⊎ ((b ≢ a) × (bitor_assign a b ≡ reregister))
unfolding bitor_assign
same_or_not a b = ground arith

-- Combining keeps the common action of children that agree, and is `Reregister` as soon as two of
-- them differ; the order of the children does not matter to which of the two it is.
pub combine_lem :
    (a : PostAction) (bs : List PostAction)
    → (All (λ b. b ≡ a) bs × (combine a bs ≡ a))
      ⊎ ((¬ All (λ b. b ≡ a) bs) × (combine a bs ≡ reregister))
combine_lem a [] = inl (tt, unfold combine in refl)
combine_lem a (b ∷ bs) = elim (same_or_not a b) [
  | inl (e, f) ↦ elim (combine_lem a bs) [
    | inl (all, r) ↦ inl ((e, all), unfold combine in rw f r)
    | inr (nall, r) ↦ inr (λ h. nall h.1, unfold combine in rw f r)
  ]
  | inr (ne, f) ↦ inr (λ h. ne h.0, unfold combine in rw f (combine-reregister bs))
]

-- `|` is commutative, associative and idempotent, and `|=` is the same operation.
pub bitor_laws :
    (a b c : PostAction)
    → (a bitor b ≡ b bitor a)
      × (a bitor b bitor c ≡ a bitor (b bitor c))
      × (a bitor a ≡ a)
      × (bitor_assign a b ≡ a bitor b)
unfolding bitor_assign ◌bitor◌
bitor_laws a b c = ground arith
