-- ===== src/Token.antt =====
-- token.rs, on a 64-bit target, with `Token` and `TokenFactory` of sys.rs and `RegistrationToken`
-- of loop_logic.rs.
pub mod Encoding
pub mod Versions
pub mod Factory
use calloop.Common.{ℕ, ◌+◌, ◌-◌, ◌*◌, ◌/◌, ◌%◌, ◌^◌, Bool, ◌&&◌, ltb, leb, ◌==◌, if◌then◌else◌}
use calloop.Error.{Result, ok, err, panicked, M}

abbrev pub bits_version : ℕ
bits_version = 16

abbrev pub bits_subid : ℕ
bits_subid = 16

abbrev pub mask_subid : ℕ
mask_subid = 2 ^ bits_subid - 1

-- `x & (2 ^ k - 1)`.
abbrev pub low_bits : ℕ → ℕ → ℕ
low_bits x k = x % 2 ^ k

-- `id` is a u32, `version` and `sub_id` are u16.
pub record TokenInner : Type 0 where
  pub id : ℕ
  pub version : ℕ
  pub sub_id : ℕ

-- `id.try_into()` refuses what is no u32.
unfoldable pub new : ℕ → Result (Unit {0}) TokenInner
new id = if ltb id (2 ^ 32) then ok (record { id = id; version = 0; sub_id = 0 }) else err tt

abbrev pub get_id : TokenInner → ℕ
get_id t = t.id

unfoldable pub same_source_as : TokenInner → TokenInner → Bool
same_source_as t other = t.id == other.id && t.version == other.version

unfoldable pub increment_version : TokenInner → TokenInner
increment_version t = record {
  id = t.id;
  version = low_bits ((t.version + 1) % 2 ^ 16) bits_version;
  sub_id = 0;
}

-- `checked_add` fails above u16::MAX, and the mask is tested after it; both end in a panic.
unfoldable pub increment_sub_id : TokenInner → Result (Unit {0}) TokenInner
increment_sub_id t =
    if ltb (t.sub_id + 1) (2 ^ 16) && leb (t.sub_id + 1) mask_subid
    then ok (record { id = t.id; version = t.version; sub_id = t.sub_id + 1 })
    else panicked

unfoldable pub forget_sub_id : TokenInner → TokenInner
forget_sub_id t = record { id = t.id; version = t.version; sub_id = 0 }

-- `impl From<usize> for TokenInner`; `as u16` and `as u32` keep the low bits.
unfoldable pub from_usize : ℕ → TokenInner
from_usize value = record {
  id = (value / 2 ^ (bits_subid + bits_version)) % 2 ^ 32;
  version = low_bits (value / 2 ^ bits_subid) bits_version % 2 ^ 16;
  sub_id = low_bits value bits_subid % 2 ^ 16;
}

-- `impl From<TokenInner> for usize`; a shift drops the bits above 64.
unfoldable pub to_usize : TokenInner → ℕ
to_usize t =
    (t.id * 2 ^ (bits_subid + bits_version)) % 2 ^ 64
    + (t.version * 2 ^ bits_subid) % 2 ^ 64
    + t.sub_id

pub record Token : Type 0 where
  pub inner : TokenInner

pub record RegistrationToken : Type 0 where
  pub inner : TokenInner

-- `==` of the derived `PartialEq`.
unfoldable pub token_eq : TokenInner → TokenInner → Bool
token_eq a b = a.id == b.id && (a.version == b.version && a.sub_id == b.sub_id)

pub record TokenFactory : Type 0 where
  pub next_token : TokenInner

unfoldable pub factory_new : TokenInner → TokenFactory
unfolding forget_sub_id
factory_new t = record { next_token = forget_sub_id t }

unfoldable pub registration_token : TokenFactory → RegistrationToken
unfolding forget_sub_id
registration_token f = record { inner = forget_sub_id f.next_token }

-- Takes what `increment_sub_id` answers; its only failure is a panic.
take_token :
    {E : Type 0} → TokenInner → Result (Unit {0}) TokenInner → Result E Token × TokenFactory
take_token t (ok next) = (ok (record { inner = t }), record { next_token = next })
take_token t _ = (panicked, record { next_token = t })

-- `TokenFactory::token`: the successor is computed before the token is handed out.
unfoldable pub token : {E : Type 0} → M E TokenFactory Token
unfolding take_token increment_sub_id
token f = take_token f.next_token (increment_sub_id f.next_token)
