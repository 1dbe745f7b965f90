-- ===== src/Uds/Server/Dispatch.antt =====
-- packages/protocols/uds/src/server.ts: the service table with the session policy, and `handle`.
use yes_you_can.Prelude.{
  ℕ, Bool, Option, none, some, List, [], ◌∷◌, if◌then◌else◌, is_none, includes,
}
use yes_you_can.Bytes.{Bytes}
use yes_you_can.Session.{tick, activity, service_refusal}
use yes_you_can.Uds.Codes.{
  diagnostic_session_control, ecu_reset, clear_diagnostic_information, read_dtc_information,
  read_data_by_identifier, security_access, write_data_by_identifier, routine_control,
  tester_present, general_reject, service_not_supported, response_pending,
}
use yes_you_can.Uds.Server.{
  ServerOptions, Server, Answer, silent, respond, thrown, negative_response, refuse,
}
use yes_you_can.Uds.Server.Handlers.{serve}

-- The services of the handler table.
abbrev pub table_services : Bool → List ℕ
table_services no_security =
    tester_present
    ∷ diagnostic_session_control
    ∷ ecu_reset
    ∷ clear_diagnostic_information
    ∷ read_dtc_information
    ∷ read_data_by_identifier
    ∷ write_data_by_identifier
    ∷ routine_control
    ∷ (if no_security then [] else security_access ∷ [])

module _ {W : Type 0} where
  abbrev pub allowed_call :
      ServerOptions W → ℕ → ℕ → Bytes → Server W → Option ℕ → Answer × Server W
  allowed_call options now service payload s (some nrc) = (refuse service nrc, s)
  allowed_call options now service payload s none = serve options now service payload s

  unfoldable pub dispatch : ServerOptions W → ℕ → ℕ → Bytes → Server W → Answer × Server W
  unfolding service_refusal serve
  dispatch options now service payload s =
      if includes (table_services (is_none options.security_access)) service
      then allowed_call options now service payload s
          (service_refusal options.policy service s.session)
      else (refuse service service_not_supported, s)

  -- What is sent: the pending response, where it is configured, and the answer.
  unfoldable pub sent : ServerOptions W → ℕ → Answer → List Bytes
  sent options service silent = []
  sent options service thrown = negative_response service general_reject ∷ []
  sent options service (respond response) =
      if includes options.pending_services service
      then negative_response service response_pending ∷ response ∷ []
      else response ∷ []

  -- `handle`, on a link that sends.
  unfoldable pub handle : ServerOptions W → ℕ → Bytes → Server W → List Bytes × Server W
  unfolding dispatch sent tick activity
  handle options now [] s = ([], s)
  handle options now (service ∷ rest) s =
      let m = activity now (tick options.policy now s.session).0 in
      let (answer, s') = dispatch options now service (service ∷ rest) (record s { session = m }) in
      (sent options service answer, s')
