-- ===== src/Session/Shipped.antt =====
-- packages/protocols/uds/src/session-state.ts: the sessions that the package ships.
use yes_you_can.Prelude.{ℕ, none, some, List, [], ◌∷◌, ◌++◌}
use yes_you_can.Text.{Text, codes}
use yes_you_can.Session.{
  SessionDefinition, session_default, session_extended, session_programming, known_session_types,
  always_available_services, read_services, write_services,
}

abbrev plain_session : ℕ → Text → List ℕ → List ℕ → SessionDefinition
plain_session type name from services = record {
  type = type;
  name = name;
  from = from;
  services = some services;
  p2 = none;
  p2_star = none;
  s3 = none;
}

unfoldable pub default_session_definition : SessionDefinition
default_session_definition =
    plain_session session_default (codes "defaultSession") known_session_types
      (always_available_services ++ read_services)

unfoldable pub extended_session_definition : SessionDefinition
extended_session_definition =
    plain_session session_extended (codes "extendedDiagnosticSession") known_session_types
      (always_available_services ++ read_services ++ write_services)

unfoldable pub programming_session_definition : SessionDefinition
programming_session_definition =
    plain_session session_programming (codes "programmingSession") (session_extended ∷ [])
      (always_available_services ++ read_services ++ write_services)

unfoldable pub standard_sessions : List SessionDefinition
unfolding default_session_definition extended_session_definition
standard_sessions = default_session_definition ∷ extended_session_definition ∷ []

unfoldable pub simulator_sessions : List SessionDefinition
unfolding default_session_definition extended_session_definition programming_session_definition
simulator_sessions =
    default_session_definition ∷ extended_session_definition ∷ programming_session_definition ∷ []
