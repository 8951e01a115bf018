-- ===== src/Tests/Wrappers.antt =====
-- Tests of sources/transient.rs and of the dispatchers of sources/mod.rs.
use calloop.Common.{ℕ, suc, ◌≡◌, ◌≢◌, refl, sym, ap, [], ◌∷◌, true, false, arith}
use calloop.Error.{Error, ok, M}
use calloop.PostAction.{PostAction}
use calloop.Sources.{Registering}
use calloop.Sources.Transient.{
  TransientSourceState, TransientSource, disable, reregister_source, in_variant,
}
use calloop.Sources.Transient.Lifecycle.{Tracks}
use calloop.Sources.Transient.Actions.{reregister_disabled_again}
use calloop.Dispatcher.{Dispatching}
use calloop.Tests.Fixtures.{
  Watch, Probe, probe_source, unregister_probe, poll_two, inner_at, registration_at, probe_cell,
}

unregister_probe-free :
    (c c' : Registering Watch Probe)
    → unregister_probe c ≡ (ok tt, c')
    → c'.source.registered ≡ false
unregister_probe-free c c' h = ground arith

abbrev probe_tracks : Tracks Watch Probe probe_source
probe_tracks = record {
  registered = λ s. s.registered;
  register_ok = λ c c' h. sym (ap (λ r. r.1.source.registered) h);
  reregister_ok = λ c c' h. sym (ap (λ r. r.1.source.registered) h);
  unregister_ok = unregister_probe-free;
}

abbrev wrapped : TransientSourceState Probe → Registering Watch (TransientSource Probe)
wrapped s = record {
  source = record { state = s };
  poll = poll_two;
  factory = record { next_token = inner_at 0 0 0 };
}

abbrev probe : Probe
probe = record { registered = true; calls = 0 }

-- A source that asks to be disabled.
abbrev tired : M Error (Probe × ℕ) PostAction
tired (s, c) = (ok PostAction.disable, (s, suc c))

abbrev count : Probe → ℕ × Probe
count s = (s.calls, s)

probe-strict :
    (c : Registering Watch Probe)
    → c.source.registered ≡ false
    → (probe_source.unregister c).0 ≢ ok tt
probe-strict c h = ground arith

reregister_disabled_again_example :
    (reregister_source (reregister_source (wrapped (disable probe))).1).0 ≢ ok tt
reregister_disabled_again_example =
    reregister_disabled_again probe_tracks probe-strict (wrapped (disable probe)) probe refl
      (unfold reregister_source in unfold in_variant in refl)

abbrev enrolled : Dispatching Watch Probe
enrolled = record {
  cell = probe_cell false;
  poll = poll_two;
  lifecycle = registration_at 4 ∷ registration_at 0 ∷ registration_at 0 ∷ [];
  factory = record { next_token = inner_at 0 0 0 };
}
