-- ===== src/Session/Trace.antt =====
-- packages/protocols/uds/src/session-state.ts: sequences of calls of the session state machine.
use mathlib.Core.Path.{subst}
use yes_you_can.Prelude.{
  ℕ, ◌+◌, ◌≡◌, refl, sym, ap, ◌∙◌, ◌≢◌, ◌⊎◌, inl, inr, true, false, ◌||◌, Option, none, some, List,
  [], ◌∷◌, arith, ltb, leb, ◌==◌, if◌then◌else◌, if_cases, ==_iff, Bool-cases, Option-cases,
  get_some_or, includes,
}
use yes_you_can.Session.{
  UdsTiming, SessionDefinition, Policy, Machine, SessionError, Expiry, find, put_all, construct,
  construct_with, request, enter, reset, activity, tick, s3_ms_of, unlock, lock, session_default,
}

-- One call that changes the machine; the number of `ask`, `reset_at`, `active_at` and `tick_at` that
-- comes last is the time.
pub data Event : Type 0 where
  ask : ℕ → ℕ → Event
  reset_at : ℕ → Event
  active_at : ℕ → Event
  tick_at : ℕ → Event
  unlock_at : ℕ → Event
  relock : Event

unfoldable pub step : Policy → Event → Machine → Machine
unfolding request reset activity tick unlock lock
step policy (ask type at) m = (request policy type at m).0
step policy (reset_at at) m = (reset policy at m).0
step policy (active_at at) m = activity at m
step policy (tick_at now) m = (tick policy now m).0
step policy (unlock_at level) m = unlock level m
step policy relock m = lock m

unfoldable pub run : Policy → List Event → Machine → Machine
unfolding step
run policy [] m = m
run policy (e ∷ es) m = run policy es (step policy e m)

-- The active session and the default session stand in the table under their types.
pub record WellFormed (policy : Policy) (m : Machine) : Type 0 where
  pub default_found : find policy.default_type policy.definitions ≡ some policy.default_definition
  pub current_found : find m.current.type policy.definitions ≡ some m.current

pub find_type :
    (type : ℕ) (table : List SessionDefinition) (d : SessionDefinition)
    → find type table ≡ some d
    → d.type ≡ type
unfolding find
find_type type [] d h = cc
find_type type (e ∷ es) d h = elim (Bool-cases (e.type == type)) [
  | inl same ↦
      let hit : some e ≡ some d = sym (rw same refl) ∙ h in
      ap (λ (o : Option SessionDefinition). (get_some_or o e).type) (sym hit)
      ∙ (==_iff e.type type).0 same
  | inr other ↦ find_type type es d (sym (rw other refl) ∙ h)
]

-- What one call does to the session and to the unlocked level.
pub record Moves (policy : Policy) (m m' : Machine) : Type 0 where
  pub well : WellFormed policy m'
  pub declared :
      (m'.current ≡ m.current)
      ⊎ (m'.current ≡ policy.default_definition)
      ⊎ (includes m'.current.from m.current.type ≡ true)
      ⊎ (m'.current.type ≡ m.current.type)
  pub relocked : (m'.current.type ≡ m.current.type) ⊎ (m'.unlocked_level ≡ 0)

Moves-same :
    (policy : Policy) (m m' : Machine)
    → WellFormed policy m
    → m'.current ≡ m.current
    → Moves policy m m'
Moves-same policy m m' w e = record {
  well = record { default_found = w.default_found; current_found = rw e w.current_found };
  declared = inl e;
  relocked = inl (ap (λ (d : SessionDefinition). d.type) e);
}

Moves-reset :
    (policy : Policy) (m : Machine) (at : ℕ)
    → WellFormed policy m
    → Moves policy m (reset policy at m).0
unfolding reset
Moves-reset policy m at w = record {
  well = record {
    default_found = w.default_found;
    current_found =
        ap (λ t. find t policy.definitions)
          (find_type policy.default_type policy.definitions policy.default_definition
            w.default_found)
        ∙ w.default_found;
  };
  declared = inr (inl refl);
  relocked = inr refl;
}

-- The state behind a request that is accepted.
abbrev entered : SessionDefinition → ℕ → ℕ → Machine
entered d at level = record { current = d; last_activity_at = at; unlocked_level = level }

entered-WellFormed :
    (policy : Policy) (m : Machine) (type at level : ℕ) (d : SessionDefinition)
    → WellFormed policy m
    → find type policy.definitions ≡ some d
    → WellFormed policy (entered d at level)
entered-WellFormed policy m type at level d w found = record {
  default_found = w.default_found;
  current_found =
      ap (λ t. find t policy.definitions) (find_type type policy.definitions d found) ∙ found;
}

Moves-enter :
    (policy : Policy) (m : Machine) (type at : ℕ) (d : SessionDefinition)
    → WellFormed policy m
    → find type policy.definitions ≡ some d
    → Moves policy m (enter policy type at (some d) m).0
unfolding enter
Moves-enter policy m type at d w found = elim (Bool-cases (type == m.current.type)) [
  | inl same ↦ rw same (record {
    well = entered-WellFormed policy m type at m.unlocked_level d w found;
    declared = inr (inr (inr (find_type type policy.definitions d found ∙ (==_iff type _).0 same)));
    relocked = inl (find_type type policy.definitions d found ∙ (==_iff type _).0 same);
  })
  | inr other ↦ elim (Bool-cases (includes d.from m.current.type)) [
    | inl listed ↦ rw other (
        rw listed (record {
          well = entered-WellFormed policy m type at 0 d w found;
          declared = inr (inr (inl listed));
          relocked = inr refl;
        }))
    | inr unlisted ↦ rw other (rw unlisted (Moves-same policy m m w refl))
  ]
]

Moves-request :
    (policy : Policy) (m : Machine) (type at : ℕ)
    → WellFormed policy m
    → Moves policy m (request policy type at m).0
unfolding request
Moves-request policy m type at w = elim (Option-cases (find type policy.definitions)) [
  | inl missing ↦ rw missing (unfold enter in Moves-same policy m m w refl)
  | inr (d, found) ↦ rw found (Moves-enter policy m type at d w found)
]

Moves-tick :
    (policy : Policy) (m : Machine) (now : ℕ)
    → WellFormed policy m
    → Moves policy m (tick policy now m).0
unfolding tick
Moves-tick policy m now w =
    if_cases (λ (x : Machine × Expiry). Moves policy m x.0)
      (m.current.type == policy.default_type || ltb now (m.last_activity_at + s3_ms_of policy m)) _
      _ (Moves-same policy m m w refl) (Moves-reset policy m now w)

-- Whatever call is made: the active session stays one of the table; it is the one before, the
-- default session, or one that declares the session before as a session to be entered from; and
-- a call that changes the session drops the unlocked level.
pub step-Moves :
    (policy : Policy) (e : Event) (m : Machine)
    → WellFormed policy m
    → Moves policy m (step policy e m)
unfolding step
step-Moves policy (ask type at) m w = Moves-request policy m type at w
step-Moves policy (reset_at at) m w = Moves-reset policy m at w
step-Moves policy (active_at at) m w = unfold activity in Moves-same policy m (activity at m) w refl
step-Moves policy (tick_at now) m w = Moves-tick policy m now w
step-Moves policy (unlock_at level) m w =
    unfold unlock in Moves-same policy m (unlock level m) w refl
step-Moves policy relock m w = unfold lock in Moves-same policy m (lock m) w refl

Starts : SessionError ⊎ (Policy × Machine) → Type 0
Starts (inl error) = Unit
Starts (inr (policy, m)) = WellFormed policy m × (m.unlocked_level ≡ 0)

construct_with-Starts :
    (table : List SessionDefinition) (default_type : ℕ) (implemented : List ℕ) (timing : UdsTiming)
    (at : ℕ) (found : Option SessionDefinition)
    → find default_type table ≡ found
    → Starts (construct_with table default_type implemented timing at found)
unfolding Starts construct_with
construct_with-Starts table default_type implemented timing at none h = tt
construct_with-Starts table default_type implemented timing at (some d) h = (
  record {
    default_found = h;
    current_found = ap (λ t. find t table) (find_type default_type table d h) ∙ h;
  },
  refl,
)

construct-Starts :
    (sessions : List SessionDefinition) (default_session : Option ℕ) (services : Option (List ℕ))
    (timing : UdsTiming) (at : ℕ)
    → Starts (construct sessions default_session services timing at)
unfolding construct
construct-Starts [] default_session services timing at = unfold Starts in tt
construct-Starts (d ∷ ds) default_session services timing at =
    construct_with-Starts (put_all (d ∷ ds) []) (get_some_or default_session session_default)
      (get_some_or services []) timing at
      (find (get_some_or default_session session_default) (put_all (d ∷ ds) [])) refl

run-WellFormed :
    (policy : Policy) (es : List Event) (m : Machine)
    → WellFormed policy m
    → WellFormed policy (run policy es m)
unfolding run
run-WellFormed policy [] m w = w
run-WellFormed policy (e ∷ es) m w =
    run-WellFormed policy es (step policy e m) (step-Moves policy e m w).well

-- Every machine that the constructor returns is well formed after every sequence of calls: its
-- active session is the one that the table has under its type.
pub reachable-WellFormed :
    (sessions : List SessionDefinition) (default_session : Option ℕ) (services : Option (List ℕ))
    (timing : UdsTiming) (at : ℕ) (policy : Policy) (m : Machine) (es : List Event)
    → construct sessions default_session services timing at ≡ inr (policy, m)
    → WellFormed policy (run policy es m)
unfolding Starts
reachable-WellFormed sessions default_session services timing at policy m es e =
    let start : Starts (inr (policy, m)) =
      subst Starts e (construct-Starts sessions default_session services timing at) in
    run-WellFormed policy es m start.0

-- S3, for an active session other than the default one and a request at the time `at`: from its S3
-- time after the request on, a tick leaves it for the default session, locked; up to then, a tick
-- keeps the session and the unlocked level.
pub tick-after-activity :
    (policy : Policy) (m : Machine) (at now : ℕ)
    → WellFormed policy m
    → m.current.type ≢ policy.default_type
    → let late = leb (at + s3_ms_of policy m) now in
      let after = tick policy now (activity at m) in
      (after.1.expired ≡ late)
      × (after.0.current.type ≡ (if late then policy.default_type else m.current.type))
      × (after.0.unlocked_level ≡ (if late then 0 else m.unlocked_level))
unfolding tick activity s3_ms_of
tick-after-activity policy m at now w other =
    let away : (m.current.type == policy.default_type) ≡ false = ground arith in
    elim (Bool-cases (leb (at + s3_ms_of policy m) now)) [
      | inl late ↦
          let over : ltb now (at + s3_ms_of policy m) ≡ false = ground arith in
          rw (away, over, late)
            (unfold reset in
              (
                refl,
                find_type policy.default_type policy.definitions policy.default_definition
                    w.default_found,
                refl,
              ))
      | inr early ↦
          let running : ltb now (at + s3_ms_of policy m) ≡ true = ground arith in
          rw (away, running, early) (refl, refl, refl)
    ]
