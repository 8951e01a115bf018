-- ===== src/Sources/Signals/Lifetime.antt =====
-- The masks of sources/signals.rs over the life of a source, from `Signals::new` to its drop.
use calloop.Common.{ℕ, ◌∙◌, ◌≡◌, refl, ◌||◌, ◌&&◌, some, not, List, arith}
use calloop.Error.{
  IoError, Error, io_error, Result, ok, err, panicked, M, pure, map_err_result, bind_result,
}
use calloop.Sys.{Mode, interest_read}
use calloop.Sources.Generic.{Generic}
use calloop.Sources.Generic
use calloop.Sources.Signals.{Signal, SigSets, Signals, add_all, new, drop_signals}
use calloop.Sources.Signals.Masks.{Masks, listed, contains-add_all}
use calloop.Sources.Signals.Commands.{Command, View, run_all, viewed_all, Agrees, run_all-Agrees}

module _ {Q V K : Type 0} {i : SigSets Q V K} (l : Masks i) where
  made :
      (r : Result IoError ℕ × K) (q : Q) (s : Signals Q) (k : K)
      → bind_result
          (map_err_result io_error r.0, r.1)
          (λ sfd. pure (record { sfd = Generic.new sfd interest_read Mode.level; mask = q }))
        ≡ (ok s, k)
      → (fd : ℕ) × (r.0 ≡ ok fd) × (s.sfd.file ≡ some fd) × (s.mask ≡ q) × (k ≡ r.1)
  unfolding Generic.new
  made (ok fd, k') q s k h = (fd, refl, ground arith, ground arith, ground arith)
  made (err e, k') q s k h = absurd (ground arith)
  made (panicked, k') q s k h = absurd (ground arith)

  blocks :
      (r : Result IoError (Unit {0}) × K) (f : M Error K (Signals Q)) (s : Signals Q) (k : K)
      → bind_result (map_err_result io_error r.0, r.1) (λ _. f) ≡ (ok s, k)
      → (r.0 ≡ ok tt) × (f r.1 ≡ (ok s, k))
  blocks (ok a, k') f s k h = (refl, h)
  blocks (err e, k') f s k h = absurd (ground arith)
  blocks (panicked, k') f s k h = absurd (ground arith)

  -- What a new source reports and blocks.
  abbrev pub first_view : List Signal → K → ℕ → View
  first_view ss k n = (listed l n ss, listed l n ss || l.blocked n k)

  pub new-Agrees :
      (ss : List Signal) (s : Signals Q) (k k' : K)
      → new i ss k ≡ (ok s, k')
      → (fd : ℕ) × Agrees l fd (first_view ss k) (s, k')
  unfolding new
  new-Agrees ss s k k' h =
      let q = add_all i ss i.empty in
      let r = blocks (i.thread_block q k) _ s k' h in
      let (fd, f, file, mask, kernel) = made (i.with_flags q (i.thread_block q k).1) q s k' r.1 in
      (
        fd,
        (
          file,
          λ n.
              let b = l.block_lem q k r.0 n in
              let w = l.with_flags_lem q (i.thread_block q k).1 fd f n in
              let m = contains-add_all l n ss i.empty in
              let e = l.empty_lem n in
              rw (mask, kernel)
                (ground (arith, m, e), ground (arith, w.0, m, e), ground (arith, w.1, b.0, m, e)),
        ),
      )

  -- A source that `Signals::new` made and that any commands changed, reports and blocks what the
  -- commands say. Its drop, if the system lets it, unblocks what it reports, and nothing else.
  pub drop_signals-Restores :
      (ss : List Signal) (commands : List Command) (s s' : Signals Q) (k k' k'' : K)
      → new i ss k ≡ (ok s, k')
      → run_all i commands (s, k') ≡ (ok tt, (s', k''))
      → (i.thread_unblock s'.mask k'').0 ≡ ok tt
      → (fd : ℕ) × (s'.sfd.file ≡ some fd)
        × ((n : ℕ)
            → let v = viewed_all l n commands (first_view ss k n) in
              (l.watched fd n k'' ≡ v.0)
              × (l.blocked n k'' ≡ v.1)
              × (l.blocked n (drop_signals i s' k'') ≡ (not v.0 && v.1)))
  unfolding drop_signals
  drop_signals-Restores ss commands s s' k k' k'' h run d =
      let (fd, a) = new-Agrees ss s k k' h in
      let (file, b) = run_all-Agrees l fd commands (first_view ss k) s k' (s', k'') a run in
      (
        fd,
        file,
        λ n. ((b n).1, (b n).2, (l.unblock_lem s'.mask k'' d n).0 ∙ rw ((b n).0, (b n).2) refl),
      )
