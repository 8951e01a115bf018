-- ===== src/Sources/Stream/Delivery.antt =====
-- What the source of sources/stream.rs delivers of a stream.
use calloop.Common.{
  Bool-cases, ℕ, zero, suc, ◌*◌, ◌/◌, ◌%◌, ◌<◌, ◌≡◌, ◌==◌, refl, ap, ◌⊎◌, inl, inr, Option, none,
  some, Bool, true, false, ◌||◌, List, [], ◌∷◌, length, arith, if◌then◌else◌,
}
use calloop.Error.{ok}
use calloop.Token.{Token}
use calloop.Sys.{Readiness}
use calloop.PostAction.{PostAction}
use calloop.Sources.Generic.{Generic}
use calloop.Sources.Ping.{Eventfd}
use calloop.Sources.Ping.Delivery.{Counts, delivers_at, ping_pending}
use calloop.Sources.Stream.{
  item, ended, pending, Stream, wake, after_poll, poll_all, decide, process_events,
}

module _ {T S : Type 0} (i : Stream T S) where
  -- A stream gives the items `xs` and then is over, or waits; `woken` tells whether it woke its waker on
  -- the way.
  pub data Yields : S → List T → Bool → Bool → S → Type 0 where
    waits :
        {s s' : S} {woken : Bool}
        → i.poll_next s ≡ (pending, (woken, s'))
        → Yields s [] false woken s'
    finishes :
        {s s' : S} {woken : Bool} → i.poll_next s ≡ (ended, (woken, s')) → Yields s [] true woken s'
    gives :
        {s s' : S} (x : T) {xs : List T} {over : Bool} (woken : Bool) {later : Bool} (t : S)
        → i.poll_next s ≡ (item x, (woken, t))
        → Yields t xs over later s'
        → Yields s (x ∷ xs) over (woken || later) s'

module _ {T C : Type 0} where
  -- The callback's calls for the items and, after the last of an ended stream, for the end.
  abbrev pub delivered : (Option T → C → C) → List T → Bool → C → C
  delivered callback [] over c = if over then callback none c else c
  delivered callback (x ∷ xs) over c = delivered callback xs over (callback (some x) c)

module _ {K : Type 0} ⦃k : Eventfd K⦄ (l : Counts K k) (fd : ℕ) where
  wake-pending :
      (woken : Bool) (kernel : K)
      → (woken ≡ true) ⊎ (1 < l.counter fd kernel)
      → 1 < l.counter fd (wake fd woken kernel)
  unfolding wake
  wake-pending true kernel h = ping_pending l fd kernel
  wake-pending false kernel (inl e) = absurd (ground arith)
  wake-pending false kernel (inr h) = h

  wake_later :
      (woken later : Bool) (kernel : K)
      → ((woken || later) ≡ true) ⊎ (1 < l.counter fd kernel)
      → (later ≡ true) ⊎ (1 < l.counter fd (wake fd woken kernel))
  wake_later true later kernel h = inr (wake-pending true kernel (inl refl))
  wake_later false later kernel (inl e) = inl e
  wake_later false later kernel (inr h) = inr (wake-pending false kernel (inr h))

module _ {T S K C : Type 0} ⦃k : Eventfd K⦄ (l : Counts K k) (i : Stream T S) (fd : ℕ) where
  -- How the loop ends, and that a wake-up on the way leaves the eventfd readable.
  record IsLooped (callback : Option T → C → C) (n : ℕ) (kernel : K) (s : S) (c : C) (xs : List T)
      (over woken : Bool) (s' : S) : Type 0 where
    loops :
        (poll_all i fd callback n (kernel, (s, c))).1
        ≡ (some over, (s', delivered callback xs over c))
    awake :
        (woken ≡ true) ⊎ (1 < l.counter fd kernel)
        → 1 < l.counter fd (poll_all i fd callback n (kernel, (s, c))).0

  poll_all-IsLooped :
      (callback : Option T → C → C) (n : ℕ) (kernel : K) (s : S) (c : C) (xs : List T)
      (over woken : Bool) (s' : S)
      → length xs < n
      → Yields i s xs over woken s'
      → IsLooped callback n kernel s c xs over woken s'
  unfolding poll_all after_poll
  poll_all-IsLooped callback zero kernel s c xs over woken s' h y = absurd (omega arith)
  poll_all-IsLooped callback (suc n) kernel s c [] false woken s' h (waits p) = record {
    loops = rw p refl;
    awake = rw p (wake-pending l fd woken kernel);
  }
  poll_all-IsLooped callback (suc n) kernel s c [] true woken s' h (finishes p) = record {
    loops = rw p refl;
    awake = rw p (wake-pending l fd woken kernel);
  }
  poll_all-IsLooped callback (suc n) kernel s c (x ∷ xs) over _ s' h (gives _ woken {later} t p y) =
      let ih =
        poll_all-IsLooped callback n (wake fd woken kernel) t (callback (some x) c) xs over later s'
          (omega arith) y in
      record {
        loops = rw p ih.loops;
        awake = λ q. rw p (ih.awake (wake_later l fd woken later kernel q));
      }

  -- A ping of the waker delivers what the stream has, in order, until the stream waits or is over; with
  -- more fuel than it has items, the loop ends by itself. An ended stream reports its end, after its
  -- last item, and is removed. If the stream woke its waker meanwhile, another wake-up is pending.
  pub process_events-Delivered :
      (m : ℕ) (fuel : ℕ) (callback : Option T → C → C) (g : Generic ℕ) (kernel : K) (s : S) (c : C)
      (readiness : Readiness) (t : Token) (xs : List T) (over woken : Bool) (s' : S)
      → l.counter fd kernel ≡ m * 2
      → 0 < m
      → g.file ≡ some fd
      → g.token ≡ some t
      → Yields i s xs over woken s'
      → length xs < fuel
      → let r = process_events i fd fuel readiness t callback (g, (kernel, (s, c))) in
        (r.0 ≡ ok (if over then PostAction.remove else PostAction.continue))
        × (r.1.1.1 ≡ (s', delivered callback xs over c))
        × ((woken ≡ false) ⊎ (1 < l.counter fd r.1.1.0))
  unfolding process_events decide
  process_events-Delivered m fuel callback g kernel s c readiness t xs over woken s' count p f tok y
        h =
      let run : K × (Option Bool × (S × C)) → K × (Option Bool × (S × C)) =
        λ p. poll_all i fd callback fuel (p.0, p.1.1) in
      let d =
        delivers_at l (m * 2) fd kernel g t readiness run (some false, (s, c)) count (omega arith) f
          tok in
      let even : (m * 2 % 2 == 0) ≡ true = ground arith in
      let some_ping : (m * 2 / 2 == 0) ≡ false = ground arith in
      let q = poll_all-IsLooped callback fuel (k.read fd kernel).1 s c xs over woken s' h y in
      let g' : Generic ℕ = record g { file = some fd } in
      let looped = poll_all i fd callback fuel ((k.read fd kernel).1, (s, c)) in
      let result = ap (λ z. decide i fd (ok PostAction.continue, (g', (looped.0, z)))) q.loops in
      rw (d.0, even, some_ping, result)
        (refl, refl, elim (Bool-cases woken) [ inl e ↦ inr (q.awake (inl e)) | inr e ↦ inl e ])
