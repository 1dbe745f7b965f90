-- ===== src/Session/Services.antt =====
-- packages/protocols/uds/src/session-state.ts: which service is allowed in which session, and the
-- sessions of the simulator.
use yes_you_can.Prelude.{
  ℕ, ◌≡◌, refl, sym, ap, ◌∙◌, ◌≢◌, inl, inr, Bool, true, false, not, ◌&&◌, ◌||◌, Option, none, some,
  List, [], ◌∷◌, arith, if◌then◌else◌, get_some_or, is_none, includes, All,
}
use yes_you_can.Session.{
  SessionDefinition, Policy, Machine, find, refusal_in, service_refusal, is_service_allowed,
  session_default, session_extended, session_programming, service_not_supported_in_active_session,
  always_available_services, write_services,
}
use yes_you_can.Session.Shipped.{
  simulator_sessions, default_session_definition, programming_session_definition,
}
use yes_you_can.Session.Trace.{Event, step, WellFormed, step-Moves, find_type}

-- The services of a session; a session without a list has all of them.
abbrev pub listed : Option (List ℕ) → ℕ → Bool
listed none service = true
listed (some allowed) service = includes allowed service

refusal_in-listed :
    (services : Option (List ℕ)) (service : ℕ)
    → refusal_in services service
      ≡ (if listed services service then none else some service_not_supported_in_active_session)
unfolding refusal_in
refusal_in-listed none service = refl
refusal_in-listed (some allowed) service = refl

-- A service that the ECU implements is allowed exactly if it is one of the three that every session
-- has or the active session lists it (or has no list); otherwise its NRC is 0x7f. A service that
-- the ECU does not implement is not allowed, and has no NRC here.
pub service_refusal_cases :
    (policy : Policy) (service : ℕ) (m : Machine)
    → let here = includes always_available_services service || listed m.current.services service in
      (is_service_allowed policy service m ≡ (includes policy.implemented service && here))
      × (service_refusal policy service m ≡ (
          if includes policy.implemented service && not here
          then some service_not_supported_in_active_session
          else none))
unfolding is_service_allowed service_refusal
service_refusal_cases policy service m = rw (refusal_in-listed m.current.services service) (
    by_cases (includes policy.implemented service) (includes always_available_services service)
      (listed m.current.services service))
  where
    by_cases :
        (implemented always here : Bool)
        → ((implemented
              && is_none (
                  if not implemented
                  then none
                  else if always
                  then none
                  else if here
                  then none
                  else some service_not_supported_in_active_session))
            ≡ (implemented && (always || here)))
          × ((if not implemented
                then none
                else if always
                then none
                else if here
                then none
                else some service_not_supported_in_active_session)
              ≡ (if implemented && not (always || here)
                  then some service_not_supported_in_active_session
                  else none))
    by_cases true true here = (refl, refl)
    by_cases true false true = (refl, refl)
    by_cases true false false = (refl, refl)
    by_cases false always here = (refl, refl)

programming_definition_lem :
    (table : List SessionDefinition) (type : ℕ) (d : SessionDefinition)
    → table ≡ simulator_sessions
    → type ≡ session_programming
    → find type table ≡ some d
    → programming_session_definition ≡ d
unfolding find simulator_sessions programming_session_definition
programming_definition_lem table type d e k h =
    let found : some programming_session_definition ≡ some d =
      sym (ap (find session_programming) e) ∙ ap (λ t. find t table) (sym k) ∙ h in
    ap (λ (o : Option SessionDefinition). get_some_or o d) found

-- In an ECU with the simulator's sessions, no call but one from within the extended session enters
-- the programming session.
pub programming_entry :
    (policy : Policy) (e : Event) (m : Machine)
    → policy.definitions ≡ simulator_sessions
    → policy.default_type ≡ session_default
    → WellFormed policy m
    → m.current.type ≢ session_programming
    → (step policy e m).current.type ≡ session_programming
    → m.current.type ≡ session_extended
unfolding programming_session_definition
programming_entry policy e m table default w before after =
    let moves = step-Moves policy e m w in
    let d =
      programming_definition_lem policy.definitions _ _ table after moves.well.current_found in
    elim moves.declared [
      | inl same ↦ absurd (before (ap (λ (d : SessionDefinition). d.type) (sym same) ∙ after))
      | inr (inl home) ↦
          let one =
            find_type policy.default_type policy.definitions policy.default_definition
              w.default_found in
          let two = ap (λ (d : SessionDefinition). d.type) home in
          absurd (omega (arith, one, two, after, default))
      | inr (inr (inl declared)) ↦
          let only : includes (session_extended ∷ []) m.current.type ≡ true =
            ap (λ (t : SessionDefinition). includes t.from m.current.type) d ∙ declared in
          ground arith
      | inr (inr (inr same)) ↦ absurd (before (sym same ∙ after))
    ]

-- In the default session of the simulator no service that changes state is allowed.
pub write_services_refused :
    (policy : Policy) (m : Machine)
    → m.current ≡ default_session_definition
    → All (λ service. is_service_allowed policy service m ≡ false) write_services
unfolding is_service_allowed service_refusal refusal_in default_session_definition
write_services_refused policy m e = rw e (
  refused (includes policy.implemented 0x14),
  (
    refused (includes policy.implemented 0x27),
    (
      refused (includes policy.implemented 0x2e),
      (
        refused (includes policy.implemented 0x2f),
        (
          refused (includes policy.implemented 0x31),
          (refused (includes policy.implemented 0x85), tt),
        ),
      ),
    ),
  ),
)
  where
    refused :
        (implemented : Bool)
        → (implemented
            && is_none
                (if not implemented then none else some service_not_supported_in_active_session))
          ≡ false
    refused true = refl
    refused false = refl
