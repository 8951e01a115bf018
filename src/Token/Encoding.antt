-- ===== src/Token/Encoding.antt =====
-- Tokens as `usize` keys: the two conversions of token.rs are inverse.
use calloop.Common.{ℕ, ◌^◌, ◌<◌, ◌≡◌, arith}
use calloop.Token.{TokenInner, from_usize, to_usize}

-- The fields fit their Rust types.
pub record InRange (t : TokenInner) : Type 0 where
  pub id_u32 : t.id < 2 ^ 32
  pub version_u16 : t.version < 2 ^ 16
  pub sub_id_u16 : t.sub_id < 2 ^ 16

-- A token survives its encoding as a polling key.
pub from_usize-to_usize : (t : TokenInner) → InRange t → from_usize (to_usize t) ≡ t
unfolding from_usize to_usize
from_usize-to_usize t h = ground arith

-- Every key that the polling system may hand back is the encoding of the token read from it.
to_usize-from_usize : (v : ℕ) → v < 2 ^ 64 → to_usize (from_usize v) ≡ v
unfolding from_usize to_usize
to_usize-from_usize v h = omega arith

from_usize-InRange : (v : ℕ) → InRange (from_usize v)
unfolding from_usize
from_usize-InRange v = omega arith

-- The key of a token in range is a `usize`: no bit is shifted out.
to_usize-lt : (t : TokenInner) → InRange t → to_usize t < 2 ^ 64
unfolding to_usize
to_usize-lt t h = omega arith
