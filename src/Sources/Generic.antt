-- ===== src/Sources/Generic.antt =====
-- sources/generic.rs: an event source over one file descriptor. `F` stands for the file, `C` for
-- what the callback captures, `E` for the error type.
pub mod Laws
use calloop.Common.{ℕ, Option, none, some, Bool, true, false, if◌then◌else◌}
use calloop.Error.{Error, Result, ok, panicked, M, pure, panic, ◌>>=◌, ◌>>◌}
use calloop.Token.{Token, token_eq}
use calloop.Sys.{Interest, Mode, Readiness, Poller}
use calloop.Sys
use calloop.PostAction.{PostAction, continue}
use calloop.Sources.{Registering, EventSource, on_poll, next_token, get_source, modify_source}

-- `AsFd`: the raw descriptor of a file.
pub record AsFd (F : Type 0) : Type 0 where
  pub as_fd : F → ℕ

-- `poller` tells whether the source holds a reference to the poller.
pub record Generic (F : Type 0) : Type 0 where
  pub file : Option F
  pub interest : Interest
  pub mode : Mode
  pub poller : Bool
  pub token : Option Token

-- `self.token == Some(token)`.
abbrev pub is_token : Option Token → Token → Bool
is_token none t = false
is_token (some own) t = token_eq own.inner t.inner

module _ {F : Type 0} where
  unfoldable pub new : F → Interest → Mode → Generic F
  new file interest mode = record {
    file = some file;
    interest = interest;
    mode = mode;
    poller = false;
    token = none;
  }

  module _ {C E : Type 0} where
    -- `callback(readiness, self.file.as_mut().unwrap())`.
    unfoldable pub call_back :
        (Readiness → M E (F × C) PostAction)
        → Readiness
        → Generic F
        → Option F
        → C
        → Result E PostAction × (Generic F × C)
    call_back callback readiness g none c = (panicked, (g, c))
    call_back callback readiness g (some f) c =
        let (r, (f', c')) = callback readiness (f, c) in (r, (record g { file = some f' }, c'))

    unfoldable pub process_events :
        Readiness → Token → (Readiness → M E (F × C) PostAction) → M E (Generic F × C) PostAction
    unfolding call_back
    process_events readiness t callback (g, c) =
        if is_token g.token t
        then call_back callback readiness g g.file c
        else (ok continue, (g, c))

-- `poller.delete(..).ok()`, with a result that is not looked at.
delete_quietly : {P : Type 0} ⦃o : Poller P⦄ → ℕ → Bool → P → P
delete_quietly raw false p = p
delete_quietly ⦃o⦄ raw true p = (o.delete raw p).1

module _ {P F : Type 0} ⦃o : Poller P⦄ ⦃a : AsFd F⦄ where
  -- `&self.file.as_ref().unwrap().0`.
  raw_fd : Option F → M Error (Registering P (Generic F)) ℕ
  raw_fd none = panic
  raw_fd (some f) = pure (a.as_fd f)

  unfoldable pub register : M Error (Registering P (Generic F)) (Unit {0})
  unfolding raw_fd
  register = do
    t ← next_token
    g ← get_source
    raw ← raw_fd g.file
    on_poll (Sys.register raw g.interest g.mode t)
    modify_source λ g. record g { poller = true; token = some t }

  unfoldable pub reregister : M Error (Registering P (Generic F)) (Unit {0})
  unfolding raw_fd
  reregister = do
    t ← next_token
    g ← get_source
    raw ← raw_fd g.file
    on_poll (Sys.reregister raw g.interest g.mode t)
    modify_source λ g. record g { token = some t }

  unfoldable pub unregister : M Error (Registering P (Generic F)) (Unit {0})
  unfolding raw_fd
  unregister = do
    g ← get_source
    raw ← raw_fd g.file
    on_poll (Sys.unregister raw)
    modify_source λ g. record g { poller = false; token = none }

  drop_file : Option F → Bool → P → P
  unfolding delete_quietly
  drop_file none held p = p
  drop_file (some f) held p = delete_quietly (a.as_fd f) held p

  -- `Drop for Generic`; `unwrap` does the same before it gives the file back.
  unfoldable pub drop_generic : Generic F → P → P
  unfolding drop_file
  drop_generic g p = drop_file g.file g.poller p

  instance abbrev pub generic_source : EventSource P (Generic F)
  generic_source = record { register = register; reregister = reregister; unregister = unregister }
