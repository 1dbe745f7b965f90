-- ===== src/Tests/Services.antt =====
-- The session state machine.
use yes_you_can.Prelude.{ℕ, ◌+◌, ◌≡◌, refl, ◌≢◌, [], ◌∷◌, arith, leb, if◌then◌else◌}
use yes_you_can.Session.{
  SessionDefinition, Policy, Machine, find, default_uds_timing, tick, activity, s3_ms_of,
  session_default, session_extended, session_programming,
}
use yes_you_can.Session.Shipped.{
  default_session_definition, extended_session_definition, programming_session_definition,
  simulator_sessions,
}
use yes_you_can.Session.Trace.{ask, step, WellFormed, Moves, step-Moves, tick-after-activity}
use yes_you_can.Session.Services.{programming_entry}

abbrev simulator : Policy
simulator = record {
  definitions = simulator_sessions;
  default_type = session_default;
  default_definition = default_session_definition;
  implemented = 0x22 ∷ 0x2e ∷ [];
  fallback_timing = default_uds_timing;
}

-- The machine in a session since the time 100, unlocked at `level`.
abbrev in_session : SessionDefinition → ℕ → Machine
in_session d level = record { current = d; last_activity_at = 100; unlocked_level = level }

simulator_extended-WellFormed : WellFormed simulator (in_session extended_session_definition 1)
unfolding find simulator_sessions default_session_definition extended_session_definition
    programming_session_definition
simulator_extended-WellFormed = record { default_found = refl; current_found = refl }

step-Moves_example :
    Moves simulator
      (in_session extended_session_definition 1)
      (step simulator (ask session_programming 200) (in_session extended_session_definition 1))
step-Moves_example =
    step-Moves simulator (ask session_programming 200) (in_session extended_session_definition 1)
      simulator_extended-WellFormed

extended_is_other : (in_session extended_session_definition 1).current.type ≢ simulator.default_type
unfolding extended_session_definition
extended_is_other e = absurd (omega arith)

extended_is_not_programming :
    (in_session extended_session_definition 1).current.type ≢ session_programming
unfolding extended_session_definition
extended_is_not_programming e = absurd (omega arith)

programming_entered :
    (step simulator
      (ask session_programming 200)
      (in_session extended_session_definition 1)).current.type
    ≡ session_programming
unfolding step simulator_sessions default_session_definition extended_session_definition
    programming_session_definition
programming_entered = refl

tick-after-activity_example :
    let m = in_session extended_session_definition 1 in
    let late = leb (300 + s3_ms_of simulator m) 6000 in
    let after = tick simulator 6000 (activity 300 m) in
    (after.1.expired ≡ late)
    × (after.0.current.type ≡ (if late then simulator.default_type else m.current.type))
    × (after.0.unlocked_level ≡ (if late then 0 else m.unlocked_level))
tick-after-activity_example =
    tick-after-activity simulator (in_session extended_session_definition 1) 300 6000
      simulator_extended-WellFormed extended_is_other

programming_entry_example :
    (in_session extended_session_definition 1).current.type ≡ session_extended
programming_entry_example =
    programming_entry simulator (ask session_programming 200)
      (in_session extended_session_definition 1) refl refl simulator_extended-WellFormed
      extended_is_not_programming programming_entered
