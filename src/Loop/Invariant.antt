-- ===== src/Loop/Invariant.antt =====
-- What the code behind loop_logic.rs relies on between any two of its steps: the slots are
-- well formed, no `Rc` dangles, and a `RefCell` stays borrowed exactly as long as its callback runs.
pub mod Handling
pub mod Calls
pub mod Dispatching
pub mod Cycle
pub mod Life
use calloop.Common.{
  ℕ, zero, suc, ◌≤◌, ◌<◌, ◌≡◌, refl, ap, sym, ◌∙◌, Option, none, some, List, [], ◌∷◌, ◌++◌, Bool,
  true, false, length, get_elem?, set, All, arith,
}
use mathlib.Core.Option.{some-injective}
use calloop.Error.{Error, Result, ok, err, panicked, M, bind_result, ◌>>=◌}
use calloop.SourceList.{SourceEntry}
use calloop.SourceList.Slots.{IsValid}
use calloop.Dispatcher.{DispatcherCell}
use calloop.Loop.{LoopInner}

abbrev pub IsBacked : ℕ → Option ℕ → Type 0
IsBacked n none = Unit
IsBacked n (some id) = id < n

-- New cells are not borrowed, the others are as before.
abbrev pub Grown : List Bool → List Bool → Type 0
Grown [] new = All (λ b. b ≡ false) new
Grown (b ∷ old) [] = ⊥
Grown (b ∷ old) (c ∷ new) = (c ≡ b) × Grown old new

module _ {S : Type 0} where
  abbrev pub borrows : List (DispatcherCell S) → List Bool
  borrows [] = []
  borrows (c ∷ cs) = c.borrowed ∷ borrows cs

  borrows-set :
      (cs : List (DispatcherCell S)) (i : ℕ) (c : DispatcherCell S)
      → borrows (set cs i c) ≡ set (borrows cs) i c.borrowed
  borrows-set [] i c = refl
  borrows-set (x ∷ cs) zero c = refl
  borrows-set (x ∷ cs) (suc i) c = ap (λ bs. x.borrowed ∷ bs) (borrows-set cs i c)

  borrows-set_same :
      (cs : List (DispatcherCell S)) (i : ℕ) (c d : DispatcherCell S)
      → get_elem? cs i ≡ some c
      → d.borrowed ≡ c.borrowed
      → borrows (set cs i d) ≡ borrows cs
  borrows-set_same [] i c d h q = refl
  borrows-set_same (x ∷ cs) zero c d h q = ground arith
  borrows-set_same (x ∷ cs) (suc i) c d h q =
      ap (λ bs. x.borrowed ∷ bs) (borrows-set_same cs i c d h q)

  borrows-append : (cs ds : List (DispatcherCell S)) → borrows (cs ++ ds) ≡ borrows cs ++ borrows ds
  borrows-append [] ds = refl
  borrows-append (x ∷ cs) ds = ap (λ bs. x.borrowed ∷ bs) (borrows-append cs ds)

Grown-refl : (bs : List Bool) → Grown bs bs
Grown-refl [] = tt
Grown-refl (b ∷ bs) = (refl, Grown-refl bs)

Grown-free : (b c : List Bool) → All (λ b. b ≡ false) b → Grown b c → All (λ b. b ≡ false) c
Grown-free [] c h k = k
Grown-free (x ∷ b) [] h k = elim k [ ]
Grown-free (x ∷ b) (y ∷ c) h k = (k.0 ∙ h.0, Grown-free b c h.1 k.1)

Grown-trans : (a b c : List Bool) → Grown a b → Grown b c → Grown a c
Grown-trans [] b c h k = Grown-free b c h k
Grown-trans (x ∷ a) [] c h k = elim h [ ]
Grown-trans (x ∷ a) (y ∷ b) [] h k = elim k [ ]
Grown-trans (x ∷ a) (y ∷ b) (z ∷ c) h k = (k.0 ∙ h.0, Grown-trans a b c h.1 k.1)

Grown-append : (bs : List Bool) → Grown bs (bs ++ false ∷ [])
Grown-append [] = (refl, tt)
Grown-append (b ∷ bs) = (refl, Grown-append bs)

-- A cell that is borrowed for a while, and then no more.
Grown-unborrow :
    (bs cs : List Bool) (i : ℕ)
    → get_elem? bs i ≡ some false
    → Grown (set bs i true) cs
    → Grown bs (set cs i false)
Grown-unborrow [] cs i h k = absurd (ground arith)
Grown-unborrow (b ∷ bs) [] zero h k = elim k [ ]
Grown-unborrow (b ∷ bs) [] (suc i) h k = elim k [ ]
Grown-unborrow (b ∷ bs) (c ∷ cs) zero h k = (sym (some-injective _ _ h), k.1)
Grown-unborrow (b ∷ bs) (c ∷ cs) (suc i) h k = (k.0, Grown-unborrow bs cs i h k.1)

-- At least `k` dispatchers are there.
pub record IsSound {P S I : Type 0} (k : ℕ) (l : LoopInner P S I) : Type 0 where
  pub slots : IsValid l.sources
  pub backed : All (λ e. IsBacked (length l.dispatchers) e.source) l.sources.sources
  pub enough : k ≤ length l.dispatchers

module _ {P S I : Type 0} where
  -- From a sound loop to a sound one, with no cell left borrowed that was not.
  pub record Kept (k : ℕ) (l l' : LoopInner P S I) : Type 0 where
    pub sound : IsSound k l'
    pub borrowed_as_before : Grown (borrows l.dispatchers) (borrows l'.dispatchers)

  pub record Keeps {A : Type 0} (k : ℕ) (m : M Error (LoopInner P S I) A) : Type 0 where
    pub keeps : (l : LoopInner P S I) → IsSound k l → Kept k l (m l).1

  Kept-refl : (k : ℕ) (l : LoopInner P S I) → IsSound k l → Kept k l l
  Kept-refl k l s = record { sound = s; borrowed_as_before = Grown-refl _ }

  Kept-trans : (k : ℕ) (l m n : LoopInner P S I) → Kept k l m → Kept k m n → Kept k l n
  Kept-trans k l m n h h' = record {
    sound = h'.sound;
    borrowed_as_before = Grown-trans _ _ _ h.borrowed_as_before h'.borrowed_as_before;
  }

  Kept-bind_result :
      {A B : Type 0} (k : ℕ) (l : LoopInner P S I) (r : Result Error A × LoopInner P S I)
      (f : A → M Error (LoopInner P S I) B)
      → Kept k l r.1
      → ((a : A) → Keeps k (f a))
      → Kept k l (bind_result r f).1
  Kept-bind_result k l (ok a, l') f h hf = Kept-trans k l l' _ h ((hf a).keeps l' h.sound)
  Kept-bind_result k l (err x, l') f h hf = h
  Kept-bind_result k l (panicked, l') f h hf = h

  Keeps-bind :
      {A B : Type 0} (k : ℕ) (m : M Error (LoopInner P S I) A) (f : A → M Error (LoopInner P S I) B)
      → Keeps k m
      → ((a : A) → Keeps k (f a))
      → Keeps k (m >>= f)
  Keeps-bind k m f hm hf = record { keeps = λ l s. Kept-bind_result k l (m l) f (hm.keeps l s) hf }

IsBacked-grow : (m n : ℕ) (o : Option ℕ) → m ≤ n → IsBacked m o → IsBacked n o
IsBacked-grow m n none h b = tt
IsBacked-grow m n (some id) h b = omega arith

All-IsBacked_grow :
    (m n : ℕ) (es : List (SourceEntry ℕ))
    → m ≤ n
    → All (λ e. IsBacked m e.source) es
    → All (λ e. IsBacked n e.source) es
All-IsBacked_grow m n [] h a = tt
All-IsBacked_grow m n (e ∷ es) h a =
    (IsBacked-grow m n e.source h a.0, All-IsBacked_grow m n es h a.1)
