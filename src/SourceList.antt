-- ===== src/SourceList.antt =====
-- list.rs: the slots of the event loop. `S` stands for `Rc<dyn EventDispatcher>`.
pub mod Slots
pub mod Laws
use calloop.Common.{
  ℕ, zero, suc, ◌+◌, Option, none, some, List, [], ◌∷◌, ◌++◌, Bool, true, false, length, get_elem?,
  set, if◌then◌else◌,
}
use calloop.Error.{Error, invalid_token, Result, ok, err, panicked, M}
use calloop.Token.{TokenInner, new, get_id, same_source_as, increment_version}

pub record SourceEntry (S : Type 0) : Type 0 where
  pub token : TokenInner
  pub source : Option S

pub record SourceList (S : Type 0) : Type 0 where
  pub sources : List (SourceEntry S)

abbrev pub is_none : {A : Type 0} → Option A → Bool
is_none none = true
is_none (some a) = false

module _ {S : Type 0} where
  unfoldable pub list_new : SourceList S
  list_new = record { sources = [] }

  -- `iter().position(|slot| slot.source.is_none())`, counted from `k`.
  unfoldable pub position_vacant : ℕ → List (SourceEntry S) → Option ℕ
  position_vacant k [] = none
  position_vacant k (e ∷ es) = if is_none e.source then some k else position_vacant (suc k) es

  -- `slot.token = slot.token.increment_version()` at a slot.
  unfoldable pub bump : List (SourceEntry S) → ℕ → List (SourceEntry S)
  bump [] i = []
  bump (e ∷ es) zero = record e { token = increment_version e.token } ∷ es
  bump (e ∷ es) (suc i) = e ∷ bump es i

  push_slot : SourceList S → Result (Unit {0}) TokenInner → Result Error ℕ × SourceList S
  push_slot l (ok t) = (
    ok (length l.sources),
    record { sources = l.sources ++ record { token = t; source = none } ∷ [] },
  )
  push_slot l _ = (panicked, l)

  claim_slot : SourceList S → Option ℕ → Result Error ℕ × SourceList S
  unfolding push_slot bump
  claim_slot l (some id) = (ok id, record { sources = bump l.sources id })
  claim_slot l none = push_slot l (new (length l.sources))

  -- The result is the index of the slot that the `&mut SourceEntry` points to.
  unfoldable pub vacant_entry : M Error (SourceList S) ℕ
  unfolding claim_slot position_vacant new
  vacant_entry l = claim_slot l (position_vacant 0 l.sources)

  check_entry : TokenInner → Option (SourceEntry S) → Result Error (SourceEntry S)
  check_entry t none = err invalid_token
  check_entry t (some e) = if same_source_as e.token t then ok e else err invalid_token

  unfoldable pub get : SourceList S → TokenInner → Result Error (SourceEntry S)
  unfolding check_entry
  get l t = check_entry t (get_elem? l.sources (get_id t))

  reference :
      SourceList S
      → TokenInner
      → Result Error (SourceEntry S)
      → Result Error (SourceEntry S × (SourceEntry S → SourceList S))
  reference l t (ok e) = ok (e, λ e'. record { sources = set l.sources (get_id t) e' })
  reference l t (err x) = err x
  reference l t panicked = panicked

  -- A `&mut SourceEntry` is the entry, with the list that a write through it leaves.
  unfoldable pub get_mut :
      SourceList S → TokenInner → Result Error (SourceEntry S × (SourceEntry S → SourceList S))
  unfolding check_entry reference
  get_mut l t = reference l t (check_entry t (get_elem? l.sources (get_id t)))
