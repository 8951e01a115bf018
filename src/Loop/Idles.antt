-- ===== src/Loop/Idles.antt =====
-- The cells of idle callbacks of loop_logic.rs and sources/mod.rs: when a callback is spent, and the
-- steps that leave it so.
pub mod Calls
pub mod Once
use calloop.Common.{
  ℕ, zero, suc, ◌<◌, ◌≡◌, refl, sym, subst, ◌⊎◌, inl, inr, Option, none, some, List, [], ◌∷◌, ◌++◌,
  length, get_elem?, set, arith, Option-cases, get_elem?-lt, get_elem?-set_self,
  get_elem?-append_left,
}
use calloop.Error.{Error, Result, ok, err, panicked, M, bind_result, ◌>>=◌, ◌>>◌}
use calloop.Token.{TokenInner}
use calloop.Dispatcher.{Dispatching}
use calloop.Loop.{LoopInner, IdleCell, on_dispatcher, at_cell, after_dispatching}

module _ {I : Type 0} where
  abbrev IsUsed : Option (Option I) → Type 0
  IsUsed (some (some _)) = ⊥
  IsUsed _ = Unit

  -- The callback in a cell was called, or cancelled.
  abbrev pub IsSpent : Option (IdleCell I) → Type 0
  IsSpent none = ⊥
  IsSpent (some c) = IsUsed c.callback

  IsSpent-lt : (cells : List (IdleCell I)) (i : ℕ) → IsSpent (get_elem? cells i) → i < length cells
  IsSpent-lt [] i h = elim h [ ]
  IsSpent-lt (c ∷ cells) zero h = omega arith
  IsSpent-lt (c ∷ cells) (suc i) h = omega (arith, IsSpent-lt cells i h)

  IsSpent-set :
      (cells : List (IdleCell I)) (i j : ℕ) (c : IdleCell I)
      → IsUsed c.callback
      → IsSpent (get_elem? cells i)
      → IsSpent (get_elem? (set cells j c) i)
  IsSpent-set [] i j c u h = h
  IsSpent-set (x ∷ cells) zero zero c u h = u
  IsSpent-set (x ∷ cells) zero (suc j) c u h = h
  IsSpent-set (x ∷ cells) (suc i) zero c u h = h
  IsSpent-set (x ∷ cells) (suc i) (suc j) c u h = IsSpent-set cells i j c u h

  IsSpent-set_self :
      (cells : List (IdleCell I)) (i : ℕ) (c : IdleCell I)
      → IsUsed c.callback
      → i < length cells
      → IsSpent (get_elem? (set cells i c) i)
  IsSpent-set_self cells i c u h = rw (get_elem?-set_self cells i c h) u

  IsSpent-append :
      (cells new : List (IdleCell I)) (i : ℕ)
      → IsSpent (get_elem? cells i)
      → IsSpent (get_elem? (cells ++ new) i)
  IsSpent-append cells new i h = rw (get_elem?-append_left cells new i (IsSpent-lt cells i h)) h

  -- The cell to be called, or one that was spent before.
  IsSpent-before :
      (i id : ℕ) (c : IdleCell I) (cells : List (IdleCell I))
      → get_elem? cells id ≡ some c
      → IsUsed c.callback
      → (i ≡ id) ⊎ IsSpent (get_elem? cells i)
      → IsSpent (get_elem? cells i)
  IsSpent-before i id c cells at h (inl q) =
      subst (λ j. IsSpent (get_elem? cells j)) (sym q) (subst IsSpent (sym at) h)
  IsSpent-before i id c cells at h (inr s) = s

  IsSpent-busy :
      (i id : ℕ) (c busy : IdleCell I) (cells : List (IdleCell I))
      → get_elem? cells id ≡ some c
      → IsUsed busy.callback
      → (i ≡ id) ⊎ IsSpent (get_elem? cells i)
      → IsSpent (get_elem? (set cells id busy) i)
  IsSpent-busy i id c busy cells at h (inl q) =
      subst (λ j. IsSpent (get_elem? (set cells id busy) j)) (sym q)
        (IsSpent-set_self cells id busy h (get_elem?-lt cells id at))
  IsSpent-busy i id c busy cells at h (inr s) = IsSpent-set cells i id busy h s

module _ {P S I : Type 0} where
  pub record KeepsSpent {A : Type 0} (i : ℕ) (m : M Error (LoopInner P S I) A) : Type 0 where
    pub keeps :
        (l : LoopInner P S I)
        → IsSpent (get_elem? l.idle_cells i)
        → IsSpent (get_elem? (m l).1.idle_cells i)

  IsSpent-bind_result :
      {A B : Type 0} (i : ℕ) (r : Result Error A × LoopInner P S I)
      (f : A → M Error (LoopInner P S I) B)
      → IsSpent (get_elem? r.1.idle_cells i)
      → ((a : A) → KeepsSpent i (f a))
      → IsSpent (get_elem? (bind_result r f).1.idle_cells i)
  IsSpent-bind_result i (ok a, l') f h hf = (hf a).keeps l' h
  IsSpent-bind_result i (err x, l') f h hf = h
  IsSpent-bind_result i (panicked, l') f h hf = h

  KeepsSpent-bind :
      {A B : Type 0} (i : ℕ) (m : M Error (LoopInner P S I) A) (f : A → M Error (LoopInner P S I) B)
      → KeepsSpent i m
      → ((a : A) → KeepsSpent i (f a))
      → KeepsSpent i (m >>= f)
  KeepsSpent-bind i m f hm hf = record {
    keeps = λ l s. IsSpent-bind_result i (m l) f (hm.keeps l s) hf;
  }

  same-KeepsSpent :
      {A : Type 0} (i : ℕ) (m : M Error (LoopInner P S I) A)
      → ((l : LoopInner P S I) → (m l).1.idle_cells ≡ l.idle_cells)
      → KeepsSpent i m
  same-KeepsSpent i m h = record {
    keeps = λ l s. subst (λ cs. IsSpent (get_elem? cs i)) (sym (h l)) s;
  }

  cells-on_dispatcher :
      {A : Type 0} (id : ℕ) (t : TokenInner) (m : M Error (Dispatching P S) A) (l : LoopInner P S I)
      → (on_dispatcher id t m l).1.idle_cells ≡ l.idle_cells
  unfolding on_dispatcher at_cell after_dispatching
  cells-on_dispatcher id t m l = elim (Option-cases (get_elem? l.dispatchers id)) [
    | inl q ↦ rw q refl
    | inr (c, q) ↦ rw q refl
  ]
