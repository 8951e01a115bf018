-- ===== src/Token/Factory.antt =====
-- The tokens that one `TokenFactory` of sys.rs hands out.
use calloop.Common.{
  get_elem?, some, ◌==◌, ℕ, zero, suc, ◌+◌, ◌^◌, ◌<◌, ◌≤◌, ◌≡◌, true, List, [], ◌∷◌, arith,
}
use calloop.Error.{ok, panicked, M, pure, ◌>>=◌}
use calloop.Token.{token_eq, TokenInner, Token, TokenFactory, token, factory_new, same_source_as}

-- `n` calls of `token` in a row.
pub tokens : {E : Type 0} → ℕ → M E TokenFactory (List Token)
tokens zero = pure []
tokens (suc n) = do t ← token; ts ← tokens n; pure (t ∷ ts)

-- The tokens of the sub-sources `k`, `k + 1`, … of one source.
unfoldable pub numbered : TokenInner → ℕ → ℕ → List Token
numbered t k zero = []
numbered t k (suc n) =
    record { inner = record { id = t.id; version = t.version; sub_id = k } } ∷ numbered t (suc k) n

at_sub_id : TokenInner → ℕ → TokenInner
at_sub_id t k = record { id = t.id; version = t.version; sub_id = k }

tokens_from :
    {E : Type 0} (n k : ℕ) (t : TokenInner)
    → k + n < 2 ^ 16
    → tokens {E = E} n (record { next_token = at_sub_id t k })
      ≡ (ok (numbered t k n), record { next_token = at_sub_id t (k + n) })
unfolding tokens numbered at_sub_id token
tokens_from zero k t h = ground arith
tokens_from {E} (suc n) k t h = ground (arith, tokens_from {E = E} n (suc k) t)

-- The first `n` tokens, up to 65535, carry the sub-ids 0, 1, …, n - 1 of the factory's source.
pub tokens-factory_new :
    {E : Type 0} (n : ℕ) (t : TokenInner)
    → n < 2 ^ 16
    → (tokens {E = E} n (factory_new t)).0 ≡ ok (numbered t 0 n)
unfolding factory_new at_sub_id
tokens-factory_new {E} n t h = ground (arith, tokens_from {E = E} n 0 t)

tokens_from_panics :
    {E : Type 0} (n k : ℕ) (t : TokenInner)
    → k < 2 ^ 16
    → 2 ^ 16 ≤ k + n
    → (tokens {E = E} n (record { next_token = at_sub_id t k })).0 ≡ panicked
unfolding tokens at_sub_id token
tokens_from_panics zero k t h p = absurd (omega arith)
tokens_from_panics {E} (suc n) k t h p = ground (arith, tokens_from_panics {E = E} n (suc k) t)

-- A source that asks its factory for 65536 tokens or more panics, although the last sub-id,
-- 65535, was never handed out.
tokens-factory_new_panics :
    {E : Type 0} (n : ℕ) (t : TokenInner)
    → 2 ^ 16 ≤ n
    → (tokens {E = E} n (factory_new t)).0 ≡ panicked
unfolding factory_new at_sub_id
tokens-factory_new_panics {E} n t h = tokens_from_panics {E = E} n 0 t (omega arith) (omega arith)

numbered_get :
    (t : TokenInner) (n k i : ℕ)
    → i < n
    → get_elem? (numbered t k n) i ≡ some (record { inner = at_sub_id t (k + i) })
unfolding numbered at_sub_id
numbered_get t zero k i h = elim h [ ]
numbered_get t (suc n) k zero h = ground arith
numbered_get t (suc n) k (suc i) h = ground (arith, numbered_get t n (suc k) i)

-- The tokens of one factory all belong to its source, and no two of them are equal.
pub numbered_distinct :
    (t a b : TokenInner) (n i j : ℕ)
    → i < n
    → j < n
    → get_elem? (numbered t 0 n) i ≡ some (record { inner = a })
    → get_elem? (numbered t 0 n) j ≡ some (record { inner = b })
    → (same_source_as a t ≡ true) × (token_eq a b ≡ (i == j))
unfolding same_source_as token_eq at_sub_id
numbered_distinct t a b n i j hi hj ei ej =
    ground (arith, numbered_get t n 0 i, numbered_get t n 0 j)
