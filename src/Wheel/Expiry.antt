-- ===== src/Wheel/Expiry.antt =====
-- What expires: the order of the timer wheel of sources/timer.rs, and the loop of `Poll::poll`
-- over `next_expired`.
use mathlib.Core.List.Perm
use mathlib.Core.List.{Perm}
use calloop.Common.{
  ℕ, zero, suc, ◌≤◌, ◌<◌, ◌≡◌, refl, Option, none, some, List, [], ◌∷◌, ◌++◌, map, length, All,
  arith, Bool-cases, leb, inl, inr, ◌⊎◌, false, ap, subst, sym,
}
use mathlib.Core.Option.{some-injective}
use calloop.Token.{Token}
use calloop.Wheel.{
  TimeoutData, TimerWheel, extract, peek, pop, next_expired, next_deadline, drain_expired,
}

-- Every deadline of the list is `t` or later.
abbrev pub NotBefore : ℕ → List TimeoutData → Type 0
NotBefore t = All (λ d. t ≤ d.deadline)

NotBefore-mono : (s t : ℕ) (ds : List TimeoutData) → s ≤ t → NotBefore t ds → NotBefore s ds
NotBefore-mono s t [] h k = tt
NotBefore-mono s t (d ∷ ds) h k = (omega arith, NotBefore-mono s t ds h k.1)

pub extract-cases :
    (x y : TimeoutData) (ys : List TimeoutData)
    → ((x.deadline ≤ (extract y ys).0.deadline) × (extract x (y ∷ ys) ≡ (x, y ∷ ys)))
      ⊎ (((extract y ys).0.deadline < x.deadline)
          × (extract x (y ∷ ys) ≡ ((extract y ys).0, x ∷ (extract y ys).1)))
unfolding extract
extract-cases x y ys = ground arith

extract-perm :
    (x : TimeoutData) (ys : List TimeoutData) → Perm (x ∷ ys) ((extract x ys).0 ∷ (extract x ys).1)
extract-perm x [] = unfold extract in Perm.refl (x ∷ [])
extract-perm x (y ∷ ys) = elim (extract-cases x y ys) [
  | inl (h, e) ↦ rw e (Perm.refl _)
  | inr (h, e) ↦ rw e (Perm.trans (Perm.cons x (extract-perm y ys)) (Perm.swap _ _ _))
]

-- The first part of `r` is at least as early as `x` and all of `ys`, and as what is left.
abbrev IsEarliest : TimeoutData → List TimeoutData → TimeoutData × List TimeoutData → Type 0
IsEarliest x ys r =
    (r.0.deadline ≤ x.deadline) × NotBefore r.0.deadline ys × NotBefore r.0.deadline r.1

extract-IsEarliest : (x : TimeoutData) (ys : List TimeoutData) → IsEarliest x ys (extract x ys)
extract-IsEarliest x [] = unfold extract in (omega arith, tt, tt)
extract-IsEarliest x (y ∷ ys) =
    let (hy, hys, hrest) = extract-IsEarliest y ys in
    elim (extract-cases x y ys) [
      | inl (h, e) ↦
          let k : NotBefore x.deadline (y ∷ ys) = (omega arith, NotBefore-mono _ _ ys h hys) in
          subst (IsEarliest x (y ∷ ys)) (sym e) (omega arith, k, k)
      | inr (h, e) ↦
          subst (IsEarliest x (y ∷ ys)) (sym e) (omega arith, (hy, hys), (omega arith, hrest))
    ]

extract_keeps :
    (t : ℕ) (x : TimeoutData) (ys : List TimeoutData)
    → NotBefore t (x ∷ ys)
    → NotBefore t ((extract x ys).0 ∷ (extract x ys).1)
extract_keeps t x [] h = unfold extract in h
extract_keeps t x (y ∷ ys) h = elim (extract-cases x y ys) [
  | inl (_, e) ↦ rw e h
  | inr (_, e) ↦ let k = extract_keeps t y ys h.1 in rw e (k.0, (h.0, k.1))
]

-- The next deadline is that of some timeout, and no timeout is due before it.
pub next_deadline_earliest :
    (w : TimerWheel) (t : ℕ) → next_deadline w ≡ some t → NotBefore t w.heap
unfolding next_deadline peek
next_deadline_earliest w t h = go w.heap h
  where
    go : (ds : List TimeoutData) → next_deadline (record w { heap = ds }) ≡ some t → NotBefore t ds
    go [] e = tt
    go (x ∷ xs) e =
        let (hx, hxs, _) = extract-IsEarliest x xs in
        let q : (extract x xs).0.deadline ≡ t = some-injective _ _ e in
        subst (λ u. NotBefore u (x ∷ xs)) q (hx, hxs)

late :
    (now : ℕ) (x : TimeoutData) (xs : List TimeoutData)
    → IsEarliest x xs (extract x xs)
    → leb (extract x xs).0.deadline now ≡ false
    → NotBefore (suc now) (x ∷ xs)
late now x xs (hx, hxs, _) h =
    (ground arith, NotBefore-mono (suc now) (extract x xs).0.deadline xs (ground arith) hxs)

pub next_deadline_none : (w : TimerWheel) → next_deadline w ≡ none → w.heap ≡ []
unfolding next_deadline peek
next_deadline_none w h = go w.heap h
  where
    go : (ds : List TimeoutData) → next_deadline (record w { heap = ds }) ≡ none → ds ≡ []
    go [] e = refl
    go (x ∷ xs) e = absurd (ground arith)

-- What one call of `next_expired` takes out.
data Expired (now : ℕ) (w : TimerWheel) (r : Option (ℕ × Token) × TimerWheel) : Type 0 where
  nothing_due : r ≡ (none, w) → NotBefore (suc now) w.heap → Expired now w r
  due :
      (d : TimeoutData) (rest : List TimeoutData)
      → r ≡ (some (d.counter, d.token), record w { heap = rest })
      → d.deadline ≤ now
      → Perm w.heap (d ∷ rest)
      → NotBefore d.deadline rest
      → length w.heap ≡ suc (length rest)
      → ((t : ℕ) → NotBefore t w.heap → NotBefore t (d ∷ rest))
      → Expired now w r

length-extract : (x : TimeoutData) (ys : List TimeoutData) → length (extract x ys).1 ≡ length ys
unfolding extract
length-extract x [] = refl
length-extract x (y ∷ ys) = ground (arith, length-extract y ys)

next_expired_heap :
    (now c : ℕ) (ds : List TimeoutData)
    → Expired now
        (record { heap = ds; counter = c })
        (next_expired now (record { heap = ds; counter = c }))
unfolding next_expired peek pop
next_expired_heap now c [] = nothing_due refl tt
next_expired_heap now c (x ∷ xs) = elim (Bool-cases (leb (extract x xs).0.deadline now)) [
  | inl yet ↦
      due (extract x xs).0 (extract x xs).1 (ground arith) (ground arith) (extract-perm x xs)
        (extract-IsEarliest x xs).2 (omega (arith, length-extract x xs))
        (λ t h. extract_keeps t x xs h)
  | inr later ↦ nothing_due (ground arith) (late now x xs (extract-IsEarliest x xs) later)
]

next_expired-Expired : (now : ℕ) (w : TimerWheel) → Expired now w (next_expired now w)
next_expired-Expired now w = next_expired_heap now w.counter w.heap

-- Each deadline is at least as early as those after it.
abbrev pub Ascending : List TimeoutData → Type 0
Ascending [] = Unit
Ascending (d ∷ ds) = NotBefore d.deadline ds × Ascending ds

-- What the loop of `poll` takes out of the wheel `w`, and what it leaves.
pub record Drained (now : ℕ) (w : TimerWheel) (r : List Token × TimerWheel) : Type 0 where
  pub fired : List TimeoutData
  pub tokens : r.0 ≡ map (λ d. d.token) fired
  pub conserved : Perm w.heap (fired ++ r.1.heap)
  pub all_due : All (λ d. d.deadline ≤ now) fired
  pub in_order : Ascending fired
  pub rest_later : NotBefore (suc now) r.1.heap
  pub counter_kept : r.1.counter ≡ w.counter

abbrev DrainedFrom : ℕ → TimerWheel → List Token × TimerWheel → Type 0
DrainedFrom now w r = (d : Drained now w r) × ((t : ℕ) → NotBefore t w.heap → NotBefore t d.fired)

nothing_fires : (now : ℕ) (w : TimerWheel) → NotBefore (suc now) w.heap → DrainedFrom now w ([], w)
nothing_fires now w h = (
  record {
    fired = [];
    tokens = refl;
    conserved = Perm.refl w.heap;
    all_due = tt;
    in_order = tt;
    rest_later = h;
    counter_kept = refl;
  },
  λ t k. tt,
)

one_fires :
    (now : ℕ) (w : TimerWheel) (d : TimeoutData) (rest : List TimeoutData)
    (r : List Token × TimerWheel)
    → d.deadline ≤ now
    → Perm w.heap (d ∷ rest)
    → NotBefore d.deadline rest
    → ((t : ℕ) → NotBefore t w.heap → NotBefore t (d ∷ rest))
    → DrainedFrom now (record w { heap = rest }) r
    → DrainedFrom now w (d.token ∷ r.0, r.1)
one_fires now w d rest r yet p first keeps (later, keeps') = (
  record {
    fired = d ∷ later.fired;
    tokens = ap (λ ts. d.token ∷ ts) later.tokens;
    conserved = Perm.trans p (Perm.cons d later.conserved);
    all_due = (yet, later.all_due);
    in_order = (keeps' d.deadline first, later.in_order);
    rest_later = later.rest_later;
    counter_kept = later.counter_kept;
  },
  λ t k. let both = keeps t k in (both.0, keeps' t both.1),
)

drain_nothing :
    (fuel now : ℕ) (w w' : TimerWheel)
    → next_expired now w ≡ (none, w')
    → ([], w') ≡ drain_expired (suc fuel) now w
unfolding drain_expired
drain_nothing fuel now w w' q = ground arith

drain_due :
    (fuel now c : ℕ) (t : Token) (w w' : TimerWheel)
    → next_expired now w ≡ (some (c, t), w')
    → (t ∷ (drain_expired fuel now w').0, (drain_expired fuel now w').1)
      ≡ drain_expired (suc fuel) now w
unfolding drain_expired
drain_due fuel now c t w w' q = ground arith

empty_later : (t : ℕ) (ds : List TimeoutData) → length ds ≤ 0 → NotBefore t ds
empty_later t [] h = tt
empty_later t (d ∷ ds) h = absurd (omega arith)

drained_from :
    (fuel now : ℕ) (w : TimerWheel)
    → length w.heap ≤ fuel
    → DrainedFrom now w (drain_expired fuel now w)
drained_from zero now w h =
    unfold drain_expired in nothing_fires now w (empty_later (suc now) w.heap h)
drained_from (suc fuel) now w h = elim (next_expired-Expired now w) [
  | nothing_due q later ↦
      subst (DrainedFrom now w) (drain_nothing fuel now w w q) (nothing_fires now w later)
  | due d rest q yet p first len keeps ↦
      subst (DrainedFrom now w) (drain_due fuel now d.counter d.token w _ q)
        (one_fires now w d rest _ yet p first keeps (drained_from fuel now _ (omega arith)))
]

-- With the number of entries as fuel the loop takes out the timeouts that are due, each once and
-- in the order of their deadlines, and leaves exactly those that are not.
pub drain_expired-Drained :
    (fuel now : ℕ) (w : TimerWheel)
    → length w.heap ≤ fuel
    → Drained now w (drain_expired fuel now w)
drain_expired-Drained fuel now w h = (drained_from fuel now w h).0
