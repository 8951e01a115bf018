-- ===== src/Sources/Signals/Masks.antt =====
-- The sets of signals of sources/signals.rs: what the thread's mask blocks and what the signalfd watches.
use calloop.Common.{ℕ, ◌≡◌, ◌==◌, ◌||◌, ◌&&◌, refl, Bool, false, not, List, [], ◌∷◌, arith}
use calloop.Error.{ok}
use calloop.Sources.Signals.{Signal, SigSets, add_all, remove_all}

-- The documented behaviour of the sets and of the calls on them. A signal is known by its number; a
-- call that succeeds changes the one mask it is for, and an unsuccessful one leaves the thread's mask.
pub record Masks {Q V K : Type 0} (i : SigSets Q V K) : Type 0 where
  pub number : Signal → ℕ
  pub contains : ℕ → Q → Bool
  pub blocked : ℕ → K → Bool
  pub watched : ℕ → ℕ → K → Bool
  pub empty_lem : (n : ℕ) → contains n i.empty ≡ false
  pub add_lem :
      (n : ℕ) (s : Signal) (q : Q) → contains n (i.add s q) ≡ (n == number s || contains n q)
  pub remove_lem :
      (n : ℕ) (s : Signal) (q : Q)
      → contains n (i.remove s q) ≡ (not (n == number s) && contains n q)
  pub block_lem :
      (q : Q) (k : K)
      → (i.thread_block q k).0 ≡ ok tt
      → (n : ℕ)
      → (blocked n (i.thread_block q k).1 ≡ (contains n q || blocked n k))
        × ((fd : ℕ) → watched fd n (i.thread_block q k).1 ≡ watched fd n k)
  pub unblock_lem :
      (q : Q) (k : K)
      → (i.thread_unblock q k).0 ≡ ok tt
      → (n : ℕ)
      → (blocked n (i.thread_unblock q k).1 ≡ (not (contains n q) && blocked n k))
        × ((fd : ℕ) → watched fd n (i.thread_unblock q k).1 ≡ watched fd n k)
  pub set_mask_lem :
      (fd : ℕ) (q : Q) (k : K)
      → (i.set_mask fd q k).0 ≡ ok tt
      → (n : ℕ)
      → (watched fd n (i.set_mask fd q k).1 ≡ contains n q)
        × (blocked n (i.set_mask fd q k).1 ≡ blocked n k)
  pub with_flags_lem :
      (q : Q) (k : K) (fd : ℕ)
      → (i.with_flags q k).0 ≡ ok fd
      → (n : ℕ)
      → (watched fd n (i.with_flags q k).1 ≡ contains n q)
        × (blocked n (i.with_flags q k).1 ≡ blocked n k)

module _ {Q V K : Type 0} {i : SigSets Q V K} (l : Masks i) where
  -- Whether a list has the signal of the number `n`.
  abbrev pub listed : ℕ → List Signal → Bool
  listed n [] = false
  listed n (s ∷ ss) = n == l.number s || listed n ss

  pub contains-add_all :
      (n : ℕ) (ss : List Signal) (q : Q)
      → l.contains n (add_all i ss q) ≡ (listed n ss || l.contains n q)
  unfolding add_all
  contains-add_all n [] q = refl
  contains-add_all n (s ∷ ss) q = ground (arith, contains-add_all n ss (i.add s q), l.add_lem n s q)

  pub contains-remove_all :
      (n : ℕ) (ss : List Signal) (q : Q)
      → l.contains n (remove_all i ss q) ≡ (not (listed n ss) && l.contains n q)
  unfolding remove_all
  contains-remove_all n [] q = refl
  contains-remove_all n (s ∷ ss) q =
      ground (arith, contains-remove_all n ss (i.remove s q), l.remove_lem n s q)
