-- ===== src/Wheel/Cancel.antt =====
-- Cancellation in the timer wheel of sources/timer.rs, and the counters by which it finds an entry.
use calloop.Common.{
  ℕ, ◌+◌, ◌^◌, ◌≤◌, ◌<◌, ◌≡◌, ◌≢◌, refl, List, [], ◌∷◌, All, arith, inl, inr, subst, sym, retain,
  not, ◌==◌,
}
use calloop.Token.{Token}
use calloop.Wheel.{TimeoutData, TimerWheel, extract, peek, pop, cancel, insert}
use calloop.Wheel.Expiry.{extract-cases}

-- No two entries carry the same counter.
abbrev pub HasDistinct : List TimeoutData → Type 0
HasDistinct [] = Unit
HasDistinct (d ∷ ds) = All (λ e. d.counter ≢ e.counter) ds × HasDistinct ds

-- The entries other than those of `counter`.
abbrev pub without : ℕ → List TimeoutData → List TimeoutData
without counter = retain (λ d. not (d.counter == counter))

without_absent : (c : ℕ) (ds : List TimeoutData) → All (λ e. c ≢ e.counter) ds → without c ds ≡ ds
without_absent c [] h = refl
without_absent c (d ∷ ds) h = ground (arith, without_absent c ds h.1)

extract-counter_ne :
    (c : ℕ) (x : TimeoutData) (ys : List TimeoutData)
    → All (λ e. c ≢ e.counter) (x ∷ ys)
    → c ≢ (extract x ys).0.counter
extract-counter_ne c x [] h = unfold extract in h.0
extract-counter_ne c x (y ∷ ys) h = elim (extract-cases x y ys) [
  | inl (_, e) ↦ rw e h.0
  | inr (_, e) ↦ rw e (extract-counter_ne c y ys h.1)
]

-- `r` took out of `ds` exactly the entries with the counter of its first part.
abbrev TakesCounter : List TimeoutData → TimeoutData × List TimeoutData → Type 0
TakesCounter ds r = r.1 ≡ without r.0.counter ds

extract-TakesCounter :
    (x : TimeoutData) (ys : List TimeoutData)
    → HasDistinct (x ∷ ys)
    → TakesCounter (x ∷ ys) (extract x ys)
extract-TakesCounter x [] h = unfold extract in ground arith
extract-TakesCounter x (y ∷ ys) h = elim (extract-cases x y ys) [
  | inl (_, e) ↦
      subst (TakesCounter (x ∷ y ∷ ys)) (sym e)
        (ground (arith, without_absent x.counter (y ∷ ys) h.0))
  | inr (_, e) ↦
      subst (TakesCounter (x ∷ y ∷ ys)) (sym e)
        (ground (arith, extract-TakesCounter y ys h.1, extract-counter_ne x.counter y ys h.0))
]

-- The fast path of `cancel` agrees with its general path: on a wheel with distinct counters,
-- whichever is taken removes exactly the entries of the counter.
pub cancel-without :
    (c : ℕ) (w : TimerWheel)
    → HasDistinct w.heap
    → cancel c w ≡ record w { heap = without c w.heap }
unfolding cancel peek pop
cancel-without c w h = go w.heap h
  where
    go :
        (ds : List TimeoutData)
        → HasDistinct ds
        → cancel c (record w { heap = ds }) ≡ record w { heap = without c ds }
    go [] k = refl
    go (x ∷ xs) k = ground (arith, extract-TakesCounter x xs k)

-- The counters in use are distinct, and below the one that `insert` hands out next.
pub record IsValid (w : TimerWheel) : Type 0 where
  pub distinct : HasDistinct w.heap
  pub below : All (λ d. d.counter < w.counter) w.heap
  pub counter_u32 : w.counter < 2 ^ 32

below_ne :
    (n : ℕ) (ds : List TimeoutData) → All (λ d. d.counter < n) ds → All (λ e. n ≢ e.counter) ds
below_ne n [] h = tt
below_ne n (d ∷ ds) h = (omega arith, below_ne n ds h.1)

below_mono :
    (m n : ℕ) (ds : List TimeoutData)
    → m ≤ n
    → All (λ d. d.counter < m) ds
    → All (λ d. d.counter < n) ds
below_mono m n [] k h = tt
below_mono m n (d ∷ ds) k h = (omega arith, below_mono m n ds k h.1)

-- As long as fewer than 2^32 - 1 timeouts were ever inserted, `insert` keeps the counters
-- distinct, and gives back the counter under which `cancel` finds the new entry and no other.
pub insert-IsValid :
    (w : TimerWheel) (deadline : ℕ) (t : Token)
    → IsValid w
    → w.counter + 1 < 2 ^ 32
    → let (c, w') = insert deadline t w in
      IsValid w' × ((cancel c w').heap ≡ w.heap) × ((cancel c w').counter ≡ w.counter + 1)
unfolding insert
insert-IsValid w deadline t v small =
    let d : HasDistinct (insert deadline t w).1.heap =
      (below_ne w.counter w.heap v.below, v.distinct) in
    (
      record {
        distinct = d;
        below = (omega arith, below_mono w.counter _ w.heap (omega arith) v.below);
        counter_u32 = omega arith;
      },
      ground (
        arith,
        cancel-without w.counter (insert deadline t w).1 d,
        without_absent w.counter w.heap (below_ne w.counter w.heap v.below),
      ),
      ground (arith, cancel-without w.counter (insert deadline t w).1 d),
    )

without-All {κ} :
    (P : TimeoutData → Type κ) (c : ℕ) (ds : List TimeoutData) → All P ds → All P (without c ds)
without-All P c [] h = tt
without-All P c (d ∷ ds) h = ground (arith, without-All P c ds h.1)

without-HasDistinct : (c : ℕ) (ds : List TimeoutData) → HasDistinct ds → HasDistinct (without c ds)
without-HasDistinct c [] h = tt
without-HasDistinct c (d ∷ ds) h =
    ground (arith, without-HasDistinct c ds h.1, without-All (λ e. d.counter ≢ e.counter) c ds h.0)

-- Cancelling keeps the wheel valid, whether or not the counter is in use.
cancel-IsValid : (c : ℕ) (w : TimerWheel) → IsValid w → IsValid (cancel c w)
cancel-IsValid c w v = rw (cancel-without c w v.distinct) (record {
  distinct = without-HasDistinct c w.heap v.distinct;
  below = without-All (λ d. d.counter < w.counter) c w.heap v.below;
  counter_u32 = v.counter_u32;
})
