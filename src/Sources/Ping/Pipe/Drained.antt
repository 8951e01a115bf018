-- ===== src/Sources/Ping/Pipe/Drained.antt =====
-- What sources/ping/pipe.rs delivers.
use calloop.Common.{
  if-not, ℕ, zero, suc, ◌-◌, ◌<◌, ◌≤◌, ◌≡◌, ◌==◌, ◌||◌, refl, ap, ◌∙◌, some, Bool, true, false, not,
  min, dec_lt, arith, if◌then◌else◌,
}
use calloop.Error.{IoError, would_block, Result, ok, err, panicked}
use calloop.Token.{Token}
use calloop.Sys.{Readiness}
use calloop.PostAction.{PostAction}
use calloop.Sources.Generic.{Generic}
use calloop.Sources.Generic.Laws.{called_back}
use calloop.Sources.Ping.Pipe.{
  Pipe, ReadError, buf_len, send_ping, ping, finish, after_read, read_all, on_ready, process_events,
}

-- The documented behaviour of a pipe from the write end `wr` to the read end `rd`, not blocking: it has
-- room for at least one byte, a write to a full pipe would block, and so does a read of an empty one
-- while the write end is open; afterwards it reads nothing.
pub record Buffers (K : Type 0) (k : Pipe K) (rd wr : ℕ) : Type 0 where
  pub buffered : K → ℕ
  pub closed : K → Bool
  pub room : ℕ
  pub some_room : 0 < room
  pub within : (s : K) → buffered s ≤ room
  pub write_adds :
      (s : K)
      → buffered s < room
      → (buffered (k.write wr s).1 ≡ suc (buffered s)) × (closed (k.write wr s).1 ≡ closed s)
  pub write_full :
      (s : K)
      → room ≤ buffered s
      → (buffered (k.write wr s).1 ≡ buffered s) × (closed (k.write wr s).1 ≡ closed s)
  pub close_closes :
      (s : K) → (buffered (k.close wr s) ≡ buffered s) × (closed (k.close wr s) ≡ true)
  pub read_takes :
      (s : K)
      → 0 < buffered s
      → ((k.read rd buf_len s).0 ≡ ok (min buf_len (buffered s)))
        × (buffered (k.read rd buf_len s).1 ≡ buffered s - buf_len)
        × (closed (k.read rd buf_len s).1 ≡ closed s)
  pub read_empty :
      (s : K)
      → buffered s ≡ 0
      → ((k.read rd buf_len s).0 ≡ (if closed s then ok 0 else err would_block))
        × (buffered (k.read rd buf_len s).1 ≡ 0)
        × (closed (k.read rd buf_len s).1 ≡ closed s)

module _ {K C : Type 0} ⦃k : Pipe K⦄ (rd wr : ℕ) (l : Buffers K k rd wr) where
  -- How the reads end: all bytes taken, the callback called once if there were any, and the source to be
  -- removed if the write end is closed.
  pub record IsRead (callback : K × C → K × C) (some_read : Bool) (was_closed : Bool) (c : C)
      (r : Result ReadError PostAction × (ℕ × (K × C))) : Type 0 where
    pub at : K
    pub empty : l.buffered at ≡ 0
    pub kept : l.closed at ≡ was_closed
    pub result : r ≡ (
      ok (if was_closed then PostAction.remove else PostAction.continue),
      (rd, (if some_read then callback (at, c) else (at, c))),
    )

  after_more :
      (callback : K × C → K × C) (next : Bool → K → Result ReadError PostAction × (ℕ × (K × C)))
      (r : Result IoError ℕ × K) (b : Bool) (c : C) (m : ℕ)
      → r.0 ≡ ok m
      → 0 < m
      → after_read callback next r b rd c ≡ next true r.1
  unfolding after_read
  after_more callback next (ok zero, s) b c m e h = absurd (ground arith)
  after_more callback next (ok (suc n), s) b c m e h = refl
  after_more callback next (err x, s) b c m e h = absurd (ground arith)
  after_more callback next (panicked, s) b c m e h = absurd (ground arith)

  after_last :
      (callback : K × C → K × C) (next : Bool → K → Result ReadError PostAction × (ℕ × (K × C)))
      (r : Result IoError ℕ × K) (b : Bool) (c : C) (was_closed : Bool)
      → r.0 ≡ (if was_closed then ok 0 else err would_block)
      → after_read callback next r b rd c
        ≡ finish callback (if was_closed then PostAction.remove else PostAction.continue) b rd r.1 c
  unfolding after_read
  after_last callback next r b c true e =
      ap (λ (x : Result IoError ℕ). after_read callback next (x, r.1) b rd c) e
  after_last callback next r b c false e =
      ap (λ (x : Result IoError ℕ). after_read callback next (x, r.1) b rd c) e

  read_all-IsRead :
      (callback : K × C → K × C) (n : ℕ) (c : C) (b : Bool) (s : K)
      → l.buffered s < n
      → IsRead callback (b || not (l.buffered s == 0)) (l.closed s) c (read_all callback rd n c b s)
  unfolding read_all finish
  read_all-IsRead callback zero c b s h = absurd (omega arith)
  read_all-IsRead callback (suc n) c b s h = elim (dec_lt 0 (l.buffered s)) [
    | yes p ↦
        let r = l.read_takes s p in
        let s' = (k.read rd buf_len s).1 in
        let ih = read_all-IsRead callback n c true s' (omega (arith, r.1)) in
        let step =
          after_more callback (read_all callback rd n c) (k.read rd buf_len s) b c
            (min buf_len (l.buffered s)) r.0 (ground arith) in
        let some_bytes : (b || not (l.buffered s == 0)) ≡ true = ground arith in
        record {
          at = ih.at;
          empty = ih.empty;
          kept = ih.kept ∙ r.2;
          result = step ∙ rw (some_bytes, ← r.2) ih.result;
        }
    | no p ↦
        let r = l.read_empty s (omega arith) in
        let same : (b || not (l.buffered s == 0)) ≡ b = ground arith in
        record {
          at = (k.read rd buf_len s).1;
          empty = r.1;
          kept = r.2;
          result = rw same (
              after_last callback (read_all callback rd n c) (k.read rd buf_len s) b c (l.closed s)
                r.0);
        }
  ]

  -- With more rounds than bytes in the pipe the loop ends. Any number of pings since the last event call
  -- the callback once, the source is removed if and only if the last `Ping` was dropped, and the pipe is
  -- empty when the callback runs.
  pub process_events-IsRead :
      (fuel : ℕ) (g : Generic ℕ) (t : Token) (readiness : Readiness) (callback : K × C → K × C)
      (s : K) (c : C)
      → l.buffered s < fuel
      → g.file ≡ some rd
      → g.token ≡ some t
      → (at : K) × (l.buffered at ≡ 0)
        × (l.closed at ≡ l.closed s)
        × (process_events fuel readiness t callback (g, (s, c)) ≡ (
          ok (if l.closed s then PostAction.remove else PostAction.continue),
          (record g { file = some rd }, (if l.buffered s == 0 then (at, c) else callback (at, c))),
        ))
  unfolding process_events on_ready
  process_events-IsRead fuel g t readiness callback s c h f tok =
      let q = read_all-IsRead callback fuel c false s h in
      let all = called_back g t rd readiness (on_ready callback fuel) (s, c) tok f in
      (
        q.at,
        q.empty,
        q.kept,
        rw (all, q.result, if-not (l.buffered s == 0) (callback (q.at, c)) (q.at, c)) refl,
      )

module _ {K : Type 0} ⦃k : Pipe K⦄ (rd wr : ℕ) (l : Buffers K k rd wr) where
  -- A ping of a full pipe is dropped, but the pipe is readable already.
  pub ping-buffered : (s : K) → (0 < l.buffered (ping wr s)) × (l.closed (ping wr s) ≡ l.closed s)
  unfolding ping send_ping
  ping-buffered s = elim (dec_lt (l.buffered s) l.room) [
    | yes h ↦ let r = l.write_adds s h in (omega (arith, r.0), r.1)
    | no h ↦ let r = l.write_full s (omega arith) in (omega (arith, r.0, l.some_room), r.1)
  ]
