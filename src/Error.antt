-- ===== src/Error.antt =====
-- error.rs, and the result of a fallible operation of Rust. A panic is a third outcome. A boxed
-- error is known by where it comes from.
use calloop.Common.{ℕ, ◌≡◌, refl, ◌⊎◌, inl, inr, arith}

mutual
  pub data Boxed : Type 0 where
    of_io : IoError → Boxed
    opaque : ℕ → Boxed

  pub data IoError : Type 0 where
    interrupted would_block invalid_input not_found already_exists : IoError
    os : ℕ → IoError
    custom : Boxed → IoError

pub data Error : Type 0 where
  invalid_token : Error
  io_error : IoError → Error
  other_error : Boxed → Error

-- `impl From<Error> for std::io::Error`.
unfoldable pub io_error_from : Error → IoError
io_error_from invalid_token = invalid_input
io_error_from (io_error e) = e
io_error_from (other_error b) = custom b

pub data Result {ℓ κ} (E : Type ℓ) (A : Type κ) : Type (ℓ ⊔ κ) where
  ok : A → Result E A
  err : E → Result E A
  panicked : Result E A

-- An operation that may fail and that changes a state of type `S`; what it changed before it
-- failed stays changed.
abbrev pub M {ℓ} : Type ℓ → Type ℓ → Type ℓ → Type ℓ
M E S A = S → Result E A × S

abbrev pub pure {ℓ} : {E S A : Type ℓ} → A → M E S A
pure a s = (ok a, s)

abbrev pub fail {ℓ} : {E S A : Type ℓ} → E → M E S A
fail e s = (err e, s)

abbrev pub panic {ℓ} : {E S A : Type ℓ} → M E S A
panic s = (panicked, s)

abbrev pub bind_result {ℓ} : {E S A B : Type ℓ} → Result E A × S → (A → M E S B) → Result E B × S
bind_result (ok a, s) f = f a s
bind_result (err e, s) f = (err e, s)
bind_result (panicked, s) f = (panicked, s)

infixl 5 ◌>>=◌ ◌>>◌
abbrev pub ◌>>=◌ {ℓ} : {E S A B : Type ℓ} → M E S A → (A → M E S B) → M E S B
◌>>=◌ m f s = bind_result (m s) f

abbrev pub ◌>>◌ {ℓ} : {E S A B : Type ℓ} → M E S A → M E S B → M E S B
m >> k = m >>= λ _. k

-- `Result::map_err`, and the conversion of `?`.
abbrev pub map_err_result {ℓ} : {E F A : Type ℓ} → (E → F) → Result E A → Result F A
map_err_result f (ok a) = ok a
map_err_result f (err e) = err (f e)
map_err_result f panicked = panicked

abbrev pub map_err {ℓ} : {E F S A : Type ℓ} → (E → F) → M E S A → M F S A
map_err f m s = let (r, s') = m s in (map_err_result f r, s')

-- An operation on a part of the state.
abbrev pub zoom {ℓ} : {E S T A : Type ℓ} → (S → T) → (T → S → S) → M E T A → M E S A
zoom get put m s = let (r, t) = m (get s) in (r, put t s)

-- `Result::is_ok`, and `if let Err(e) = m { warn!(..) }`: a panic passes through.
abbrev pub attempt_result {ℓ} : {E A : Type ℓ} → Result E A → Result E (Result E A)
attempt_result (ok a) = ok (ok a)
attempt_result (err e) = ok (err e)
attempt_result panicked = panicked

abbrev pub attempt {ℓ} : {E S A : Type ℓ} → M E S A → M E S (Result E A)
attempt m s = let (r, s') = m s in (attempt_result r, s')

pub Result-cases {ℓ κ} :
    {E : Type ℓ} {A : Type κ} (r : Result E A)
    → ((a : A) × (r ≡ ok a)) ⊎ ((e : E) × (r ≡ err e)) ⊎ (r ≡ panicked)
Result-cases (ok a) = inl (a, refl)
Result-cases (err e) = inr (inl (e, refl))
Result-cases panicked = inr (inr refl)

pub bind_result-eq_ok {ℓ} :
    {E S A B : Type ℓ} (r : Result E A × S) (f : A → M E S B) (b : B) (s : S)
    → bind_result r f ≡ (ok b, s)
    → (a : A) × (t : S) × (r ≡ (ok a, t)) × (f a t ≡ (ok b, s))
bind_result-eq_ok (ok a, t) f b s h = (a, t, refl, h)
bind_result-eq_ok (err e, t) f b s h = absurd (ground arith)
bind_result-eq_ok (panicked, t) f b s h = absurd (ground arith)
