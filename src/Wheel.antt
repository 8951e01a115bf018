-- ===== src/Wheel.antt =====
-- The timer wheel of sources/timer.rs. An `Instant` is a number of ticks. Of `BinaryHeap` the
-- model keeps the elements as a list and picks a greatest one by `cmp`; where several are
-- greatest, the one pushed last is picked.
pub mod Expiry
pub mod Cancel
use Prim.Native.Nat.{compare, Ordering}
use calloop.Common.{
  ℕ, zero, suc, ◌+◌, ◌%◌, ◌^◌, Option, none, some, List, [], ◌∷◌, Bool, not, leb, ◌==◌, retain,
  if◌then◌else◌,
}
use calloop.Token.{Token}

pub record TimeoutData : Type 0 where
  pub deadline : ℕ
  pub token : Token
  pub counter : ℕ  -- u32

pub record TimerWheel : Type 0 where
  pub heap : List TimeoutData
  pub counter : ℕ  -- u32

abbrev pub reverse_ordering : Ordering → Ordering
reverse_ordering Ordering.lt = Ordering.gt
reverse_ordering Ordering.eq = Ordering.eq
reverse_ordering Ordering.gt = Ordering.lt

-- `impl Ord for TimeoutData`: earlier values have priority.
abbrev pub cmp : TimeoutData → TimeoutData → Ordering
cmp a b = reverse_ordering (compare a.deadline b.deadline)

-- A greatest element of `x ∷ ys`, and the others.
pub extract : TimeoutData → List TimeoutData → TimeoutData × List TimeoutData
extract x [] = (x, [])
extract x (y ∷ ys) =
    let (m, rest) = extract y ys in elim (cmp x m) [ Ordering.lt ↦ (m, x ∷ rest) | _ ↦ (x, y ∷ ys) ]

pub peek : List TimeoutData → Option TimeoutData
peek [] = none
peek (x ∷ xs) = some (extract x xs).0

pub pop : List TimeoutData → List TimeoutData
pop [] = []
pop (x ∷ xs) = (extract x xs).1

unfoldable pub wheel_new : TimerWheel
wheel_new = record { heap = []; counter = 0 }

unfoldable pub insert : ℕ → Token → TimerWheel → ℕ × TimerWheel
insert deadline token w = (
  w.counter,
  record {
    heap = record { deadline = deadline; token = token; counter = w.counter } ∷ w.heap;
    counter = (w.counter + 1) % 2 ^ 32;
  },
)

unfoldable pub insert_reuse : ℕ → ℕ → Token → TimerWheel → TimerWheel
insert_reuse counter deadline token w = record w {
  heap = record { deadline = deadline; token = token; counter = counter } ∷ w.heap;
}

abbrev pub has_counter : ℕ → Option TimeoutData → Bool
has_counter counter none = Bool.false
has_counter counter (some d) = d.counter == counter

-- The fast path pops the top of the heap alone.
unfoldable pub cancel : ℕ → TimerWheel → TimerWheel
cancel counter w =
    if has_counter counter (peek w.heap)
    then record w { heap = pop w.heap }
    else record w { heap = retain (λ d. not (d.counter == counter)) w.heap }

take_expired : ℕ → TimerWheel → Option TimeoutData → Option (ℕ × Token) × TimerWheel
take_expired now w none = (none, w)
take_expired now w (some d) =
    if leb d.deadline now
    then (some (d.counter, d.token), record w { heap = pop w.heap })
    else (none, w)

unfoldable pub next_expired : ℕ → TimerWheel → Option (ℕ × Token) × TimerWheel
unfolding take_expired
next_expired now w = take_expired now w (peek w.heap)

abbrev pub deadline_of : Option TimeoutData → Option ℕ
deadline_of none = none
deadline_of (some d) = some d.deadline

unfoldable pub next_deadline : TimerWheel → Option ℕ
next_deadline w = deadline_of (peek w.heap)

-- The loop `while let Some((_, token)) = timers.next_expired(now)` of `Poll::poll`, on fuel; each
-- round takes an entry out, so the number of entries is enough.
unfoldable pub drain_expired : ℕ → ℕ → TimerWheel → List Token × TimerWheel
drain_expired zero now w = ([], w)
drain_expired (suc fuel) now w =
    let (r, w') = next_expired now w in
    elim r [
      | none ↦ ([], w')
      | some (c, t) ↦ let rest = drain_expired fuel now w' in (t ∷ rest.0, rest.1)
    ]
