-- ===== src/Token/Versions.antt =====
-- Stale tokens: how a slot's version tells its successive sources apart.
use calloop.Common.{ℕ, zero, suc, ◌+◌, ◌%◌, ◌^◌, ◌<◌, ◌≡◌, refl, false, true, arith}
use calloop.Token.{TokenInner, same_source_as, increment_version}

-- The token of a slot after it was reused `n` times.
pub reuse : ℕ → TokenInner → TokenInner
reuse zero t = t
reuse (suc n) t = increment_version (reuse n t)

reuse_fields :
    (n : ℕ) (t : TokenInner)
    → t.version < 2 ^ 16
    → ((reuse n t).id ≡ t.id) × ((reuse n t).version ≡ (t.version + n) % 2 ^ 16)
unfolding reuse increment_version
reuse_fields zero t h = (refl, omega arith)
reuse_fields (suc n) t h = omega (arith, reuse_fields n t h)

-- A token stays refused while its slot has been reused between 1 and 65535 times.
pub same_source_as-reuse :
    (n : ℕ) (t : TokenInner)
    → t.version < 2 ^ 16
    → 0 < n
    → n < 2 ^ 16
    → same_source_as (reuse n t) t ≡ false
unfolding same_source_as
same_source_as-reuse n t h pos small = ground (arith, reuse_fields n t h)

-- After 65536 reuses the version has come round, and the old token is accepted again.
same_source_as-reuse_wraps :
    (t : TokenInner) → t.version < 2 ^ 16 → same_source_as (reuse (2 ^ 16) t) t ≡ true
unfolding same_source_as
same_source_as-reuse_wraps t h = ground (arith, reuse_fields (2 ^ 16) t h)
