-- ===== src/Sys/Fallback.antt =====
-- The emulation of level-triggered sources in sys.rs, for pollers that only have oneshot events.
use calloop.Common.{
  Option-cases, ℕ, ◌≡◌, ◌≢◌, refl, none, some, List, [], ◌∷◌, map, arith, inl, inr, ◌⊎◌, retain,
  not, ◌==◌, All, if◌then◌else◌,
}
use calloop.Error.{Result-cases, ok}
use calloop.Token.{Token, to_usize}
use calloop.Sys.{
  Interest, Event, Poller, Poll, convert_events, to_poll_event, Mode, register, reregister,
  unregister, lookup_key, insert_key, forget_fd, LevelTriggered, cvt_interest,
}

lookup_key-insert_key :
    (k j : ℕ) (v : ℕ × Event) (m : LevelTriggered)
    → lookup_key j (insert_key k v m) ≡ (if k == j then some v else lookup_key j m)
unfolding lookup_key insert_key
lookup_key-insert_key k j v m = ground (arith, others m)
  where
    others :
        (m : LevelTriggered)
        → k ≢ j
        → lookup_key j (retain (λ e. not (e.0 == k)) m) ≡ lookup_key j m
    others [] ne = refl
    others ((i, w) ∷ m) ne = ground (arith, others m)

-- The descriptor is not among those remembered.
abbrev pub IsForgotten : ℕ → LevelTriggered → Type 0
IsForgotten raw = All (λ e. e.1.0 ≢ raw)

forget_fd-IsForgotten : (raw : ℕ) (m : LevelTriggered) → IsForgotten raw (forget_fd raw m)
forget_fd-IsForgotten raw [] = tt
forget_fd-IsForgotten raw ((k, (fd, ev)) ∷ m) = ground (arith, forget_fd-IsForgotten raw m)

lookup_key-IsForgotten :
    (raw k : ℕ) (m : LevelTriggered) (v : ℕ × Event)
    → IsForgotten raw m
    → lookup_key k m ≡ some v
    → v.0 ≢ raw
unfolding lookup_key
lookup_key-IsForgotten raw k [] v h e = absurd (ground arith)
lookup_key-IsForgotten raw k ((j, w) ∷ m) v h e =
    ground (arith, lookup_key-IsForgotten raw k m v h.1)

-- What `modify` is called with for the events in turn: the remembered sources among them.
abbrev pub rearmed : LevelTriggered → List Event → List (ℕ × Event)
rearmed m [] = []
rearmed m (ev ∷ evs) = elim (lookup_key ev.key m) [
  | none ↦ rearmed m evs
  | some v ↦ v ∷ rearmed m evs
]

-- A poller after `arm` was applied to each of the sources.
abbrev pub arm_all : {P : Type 0} → (ℕ → Event → P → P) → List (ℕ × Event) → P → P
arm_all arm [] q = q
arm_all arm ((raw, ev) ∷ vs) q = arm_all arm vs (arm raw ev q)

module _ {P : Type 0} ⦃o : Poller P⦄ where
  -- Under emulation, if the poller's `modify` succeeds with the effect `arm`, each event of a
  -- remembered level-triggered source arms that source once, with the interest and token of its
  -- registration and in the order of the events, and every event is reported.
  pub convert_events-arm_all :
      (arm : ℕ → Event → P → P)
      (modify_ok : (raw : ℕ) (ev : Event) (q : P) → o.modify raw ev q ≡ (ok tt, arm raw ev q))
      (m : LevelTriggered) (evs : List Event) (q : P)
      → convert_events (some m) evs q ≡ (ok (map to_poll_event evs), arm_all arm (rearmed m evs) q)
  unfolding convert_events
  convert_events-arm_all arm modify_ok m [] q = refl
  convert_events-arm_all arm modify_ok m (ev ∷ evs) q = elim (Option-cases (lookup_key ev.key m)) [
    | inl e ↦ ground (arith, convert_events-arm_all arm modify_ok m evs q)
    | inr ((raw, i), e) ↦
        ground (arith, modify_ok raw i q, convert_events-arm_all arm modify_ok m evs (arm raw i q))
  ]

  -- Once a descriptor is unregistered, no event arms it any more, whatever key it comes with; the
  -- other descriptors stay as they were. An `unregister` that fails forgets nothing.
  pub unregister-IsForgotten :
      (raw : ℕ) (p : Poll P) (m : LevelTriggered)
      → p.level_triggered ≡ some m
      → (((unregister raw p).0 ≡ ok tt)
          × ((unregister raw p).1.level_triggered ≡ some (forget_fd raw m))
          × ((k : ℕ) (v : ℕ × Event) → lookup_key k (forget_fd raw m) ≡ some v → v.0 ≢ raw))
        ⊎ (((unregister raw p).0 ≢ ok tt) × ((unregister raw p).1.level_triggered ≡ some m))
  unfolding unregister
  unregister-IsForgotten raw p m e = elim (Result-cases (o.delete raw p.poller).0) [
    | inl (_, d) ↦ inl (
      ground arith,
      ground arith,
      λ k v. lookup_key-IsForgotten raw k (forget_fd raw m) v (forget_fd-IsForgotten raw m),
    )
    | inr (inl (_, d)) ↦ inr (ground arith, ground arith)
    | inr (inr d) ↦ inr (ground arith, ground arith)
  ]

  -- A successful level-triggered registration is remembered under the key of its token.
  pub register_remembers :
      (raw : ℕ) (i : Interest) (t : Token) (p : Poll P) (m : LevelTriggered)
      → p.level_triggered ≡ some m
      → (register raw i Mode.level t p).0 ≡ ok tt
      → (m' : LevelTriggered) × ((register raw i Mode.level t p).1.level_triggered ≡ some m')
        × ((k : ℕ)
            → lookup_key k m'
              ≡ (if to_usize t.inner == k then some (raw, cvt_interest i t) else lookup_key k m))
  unfolding register
  register_remembers raw i t p m e h = (
    insert_key (to_usize t.inner) (raw, cvt_interest i t) m,
    ground arith,
    λ k. lookup_key-insert_key (to_usize t.inner) k (raw, cvt_interest i t) m,
  )

  -- The emulation outlives a change of mode: after `reregister` in oneshot mode, an entry that a
  -- level-triggered registration left is still there, so events under its key arm the source again.
  pub reregister_one_shot_keeps :
      (raw : ℕ) (i : Interest) (t : Token) (p : Poll P) (m : LevelTriggered)
      → p.level_triggered ≡ some m
      → (reregister raw i Mode.one_shot t p).1.level_triggered ≡ some m
  unfolding reregister
  reregister_one_shot_keeps raw i t p m e = ground arith
