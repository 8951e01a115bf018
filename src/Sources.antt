-- ===== src/Sources.antt =====
-- The registration side of the trait `EventSource` of sources/mod.rs, and the sources built on it.
pub mod Generic
pub mod Timer
pub mod Transient
pub mod Ping
pub mod Channel
pub mod Executor
pub mod Stream
pub mod Signals
use calloop.Error.{Error, ok, M, zoom}
use calloop.Token.{Token, TokenFactory, token}
use calloop.Sys.{Poll}

-- What `register`, `reregister` and `unregister` borrow: `&mut self`, the `Poll` and the
-- `TokenFactory`, which `unregister` leaves alone.
pub record Registering (P S : Type 0) : Type 0 where
  pub source : S
  pub poll : Poll P
  pub factory : TokenFactory

pub record EventSource (P S : Type 0) : Type 0 where
  pub register : M Error (Registering P S) (Unit {0})
  pub reregister : M Error (Registering P S) (Unit {0})
  pub unregister : M Error (Registering P S) (Unit {0})

module _ {P S : Type 0} where
  abbrev pub on_poll : {A : Type 0} → M Error (Poll P) A → M Error (Registering P S) A
  on_poll = zoom (λ c. c.poll) (λ p c. record c { poll = p })

  abbrev pub next_token : M Error (Registering P S) Token
  next_token = zoom (λ c. c.factory) (λ f c. record c { factory = f }) token

  abbrev pub get_source : M Error (Registering P S) S
  get_source c = (ok c.source, c)

  abbrev pub modify_source : (S → S) → M Error (Registering P S) (Unit {0})
  modify_source f c = (ok tt, record c { source = f c.source })

  -- A nested source: the child's operation on its part of the parent.
  abbrev pub on_child :
      {T A : Type 0}
      → (S → T)
      → (T → S → S)
      → M Error (Registering P T) A
      → M Error (Registering P S) A
  on_child get put m c =
      let (r, c') = m (record { source = get c.source; poll = c.poll; factory = c.factory }) in
      (r, record { source = put c'.source c.source; poll = c'.poll; factory = c'.factory })

  -- A source that leaves its registration to a part of it; `Box<T>` and `&mut T` are all of it.
  abbrev pub forward : {T : Type 0} → (S → T) → (T → S → S) → EventSource P T → EventSource P S
  forward get put e = record {
    register = on_child get put e.register;
    reregister = on_child get put e.reregister;
    unregister = on_child get put e.unregister;
  }
