-- ===== src/Uds/Server/Answers.antt =====
-- packages/protocols/uds/src/server.ts: every answer is one to the service that was asked for.
use yes_you_can.Prelude.{
  ℕ, ◌≡◌, refl, ◌⊎◌, inl, inr, Bool, true, false, Option, none, some, List, [], ◌∷◌, ◌==◌,
  if◌then◌else◌, ==_iff, Bool-cases, is_none, get_or, includes,
}
use yes_you_can.Bytes.{Bytes}
use yes_you_can.Session.{Policy, Machine, service_refusal, tick, activity}
use yes_you_can.Uds.Codes.{
  diagnostic_session_control, ecu_reset, clear_diagnostic_information, read_dtc_information,
  read_data_by_identifier, security_access, write_data_by_identifier, routine_control,
  tester_present, general_reject, service_not_supported, response_pending, positive_response_sid,
}
use yes_you_can.Uds.Server.{
  HookAnswer, accepts, refuses, throws, ServerDid, ServerDtc, ServerRoutine, ServerSecurityAccess,
  ServerOptions, Server, Answer, silent, respond, thrown, negative_response, refuse,
}
use yes_you_can.Uds.Server.Dtcs.{clear_known, handle_clear_dtc, handle_read_dtc, listed, one_record}
use yes_you_can.Uds.Server.Handlers.{
  handle_tester_present, session_response, handle_session_control, handle_ecu_reset, did_response,
  handle_read_did, hook_answer, store, write_found, handle_write_did, key_tried, seed_given,
  handle_security_access, routine_answer, run_routine, handle_routine_control, secured, serve,
  with_session, with_dtcs,
}
use yes_you_can.Uds.Server.Dispatch.{table_services, allowed_call, dispatch, sent, handle}

-- An answer to a service: a positive response, a negative one with an NRC, or an error, which
-- `handle` reports; only a tester that is present may be left without one.
pub data AnswerTo (service : ℕ) : Answer → Type 0 where
  positive : (bytes : Bytes) → AnswerTo service (respond (positive_response_sid service ∷ bytes))
  negative : (nrc : ℕ) → AnswerTo service (refuse service nrc)
  threw : AnswerTo service thrown
  quiet : service ≡ tester_present → AnswerTo service silent

-- The same of an answer that comes with a state.
pub data Answered (service : ℕ) {A : Type 0} : Answer × A → Type 0 where
  answered : {answer : Answer} {a : A} → AnswerTo service answer → Answered service (answer, a)

either :
    {service : ℕ} (b : Bool) {x y : Answer}
    → AnswerTo service x
    → AnswerTo service y
    → AnswerTo service (if b then x else y)
either true h k = h
either false h k = k

either_with :
    {service : ℕ} {A : Type 0} (b : Bool) {x y : Answer × A}
    → Answered service x
    → Answered service y
    → Answered service (if b then x else y)
either_with true h k = h
either_with false h k = k

answer_of : {service : ℕ} {A : Type 0} {x : Answer × A} → Answered service x → AnswerTo service x.0
answer_of (answered h) = h

tester_present-AnswerTo :
    (payload : Bytes) → AnswerTo tester_present (handle_tester_present payload)
unfolding handle_tester_present
tester_present-AnswerTo payload = either _ (positive _) (quiet refl)

session_control-Answered :
    (policy : Policy) (now : ℕ) (payload : Bytes) (m : Machine)
    → Answered diagnostic_session_control (handle_session_control policy now payload m)
unfolding handle_session_control session_response
session_control-Answered policy now payload m =
    either_with _ (answered (negative _)) (answered (either _ (negative _) (positive _)))

ecu_reset-Answered :
    (policy : Policy) (now : ℕ) (payload : Bytes) (m : Machine)
    → Answered ecu_reset (handle_ecu_reset policy now payload m)
unfolding handle_ecu_reset
ecu_reset-Answered policy now payload m = search (either_with, answered, positive, negative)

clear_known-Answered :
    (known : Option Bool) (dtcs : List ServerDtc)
    → Answered clear_diagnostic_information (clear_known known dtcs)
unfolding clear_known
clear_known-Answered none dtcs = answered threw
clear_known-Answered (some false) dtcs = answered (negative _)
clear_known-Answered (some true) dtcs = answered (positive _)

clear-Answered :
    (payload : Bytes) (dtcs : List ServerDtc)
    → Answered clear_diagnostic_information (handle_clear_dtc payload dtcs)
unfolding handle_clear_dtc
clear-Answered payload dtcs =
    either_with _ (answered (negative _))
      (either_with _ (answered (positive _)) (clear_known-Answered _ dtcs))

listed-AnswerTo :
    (header : Bytes) (bytes : Option Bytes)
    → AnswerTo read_dtc_information
        (listed (positive_response_sid read_dtc_information ∷ header) bytes)
listed-AnswerTo header none = threw
listed-AnswerTo header (some bytes) = positive _

one_record-AnswerTo :
    (bytes_of : ServerDtc → Bytes) (sub_function : ℕ) (requested : Bytes) (number : ℕ)
    (found : Option (Option ServerDtc))
    → AnswerTo read_dtc_information (one_record bytes_of sub_function requested number found)
one_record-AnswerTo bytes_of sub_function requested number none = threw
one_record-AnswerTo bytes_of sub_function requested number (some none) = negative _
one_record-AnswerTo bytes_of sub_function requested number (some (some d)) = positive _

read_dtc-AnswerTo :
    (mask format : ℕ) (payload : Bytes) (dtcs : List ServerDtc)
    → AnswerTo read_dtc_information (handle_read_dtc mask format payload dtcs)
unfolding handle_read_dtc
read_dtc-AnswerTo mask format payload dtcs =
    search (either, listed-AnswerTo, one_record-AnswerTo, positive, negative) depth 20

did_response-AnswerTo : (read : Option Bytes) → AnswerTo read_data_by_identifier (did_response read)
unfolding did_response
did_response-AnswerTo none = threw
did_response-AnswerTo (some []) = negative _
did_response-AnswerTo (some (b ∷ bs)) = positive _

hook_answer-AnswerTo :
    (did : ℕ) (h : HookAnswer) → AnswerTo write_data_by_identifier (hook_answer did h)
hook_answer-AnswerTo did accepts = positive _
hook_answer-AnswerTo did (refuses nrc) = negative _
hook_answer-AnswerTo did throws = negative _

routine_answer-AnswerTo :
    (control id : ℕ) (result : Option Bytes)
    → AnswerTo routine_control (routine_answer control id result)
routine_answer-AnswerTo control id none = threw
routine_answer-AnswerTo control id (some result) = positive _

seed_given-AnswerTo :
    (level : ℕ) (seed : Option Bytes) → AnswerTo security_access (seed_given level seed)
seed_given-AnswerTo level none = threw
seed_given-AnswerTo level (some seed) = positive _

-- A response to a service: a positive one, or a negative one with an NRC.
pub ResponseTo : ℕ → Bytes → Type 0
ResponseTo service bytes =
    (get_or bytes 0 0 ≡ positive_response_sid service)
    ⊎ ((nrc : ℕ) × (bytes ≡ negative_response service nrc))

-- What is sent for the answer of a handler: nothing, which only TesterPresent may ask for; a general
-- reject for an error; and a response of the service as it is, behind exactly one pending response if
-- one is configured for the service.
pub data Sent (pending_services : List ℕ) (service : ℕ) : Answer → List Bytes → Type 0 where
  nothing_sent : service ≡ tester_present → Sent pending_services service silent []
  error_sent : Sent pending_services service thrown (negative_response service general_reject ∷ [])
  response_sent :
      {response : Bytes}
      → includes pending_services service ≡ false
      → ResponseTo service response
      → Sent pending_services service (respond response) (response ∷ [])
  late_response_sent :
      {response : Bytes}
      → includes pending_services service ≡ true
      → ResponseTo service response
      → Sent pending_services service
          (respond response)
          (negative_response service response_pending ∷ response ∷ [])

module _ {W : Type 0} where
  read_did-AnswerTo :
      (payload : Bytes) (s : Server W)
      → AnswerTo read_data_by_identifier (handle_read_did payload s)
  unfolding handle_read_did
  read_did-AnswerTo payload s = either _ (negative _) (did_response-AnswerTo _)

  store-Answered :
      (d : ServerDid W) (did : ℕ) (bytes : Bytes) (hook : Option (Bytes → W → HookAnswer × W))
      (s : Server W)
      → Answered write_data_by_identifier (store d did bytes hook s)
  unfolding store
  store-Answered d did bytes none s = answered (positive _)
  store-Answered d did bytes (some hook) s = answered (hook_answer-AnswerTo did _)

  write_found-Answered :
      (did : ℕ) (bytes : Bytes) (found : Option (ServerDid W)) (s : Server W)
      → Answered write_data_by_identifier (write_found did bytes found s)
  unfolding write_found
  write_found-Answered did bytes none s = answered (negative _)
  write_found-Answered did bytes (some d) s =
      either_with _ (answered (negative _)) (store-Answered d did bytes d.write s)

  write_did-Answered :
      (payload : Bytes) (s : Server W)
      → Answered write_data_by_identifier (handle_write_did payload s)
  unfolding handle_write_did
  write_did-Answered payload s = search (either_with, answered, negative, write_found-Answered)

  key_tried-Answered :
      (access : ServerSecurityAccess W) (now level : ℕ) (right : Option Bool) (s : Server W)
      → Answered security_access (key_tried access now level right s)
  unfolding key_tried
  key_tried-Answered access now level none s = answered threw
  key_tried-Answered access now level (some true) s = answered (positive _)
  key_tried-Answered access now level (some false) s = answered (negative _)

  secured-Answered :
      (access : Option (ServerSecurityAccess W)) (now : ℕ) (payload : Bytes) (s : Server W)
      → Answered security_access (secured access now payload s)
  unfolding handle_security_access
  secured-Answered none now payload s = answered (negative _)
  secured-Answered (some access) now payload s =
      search (either_with, answered, negative, seed_given-AnswerTo, key_tried-Answered)

  run_routine-Answered :
      (control id : ℕ) (bytes : Bytes) (found : Option (ServerRoutine W)) (s : Server W)
      → Answered routine_control (run_routine control id bytes found s)
  unfolding run_routine
  run_routine-Answered control id bytes none s = answered (negative _)
  run_routine-Answered control id bytes (some r) s = answered (routine_answer-AnswerTo control id _)

  routine-Answered :
      (routines : List (ServerRoutine W)) (payload : Bytes) (s : Server W)
      → Answered routine_control (handle_routine_control routines payload s)
  unfolding handle_routine_control
  routine-Answered routines payload s =
      search (either_with, answered, negative, run_routine-Answered)

  -- The handler of one service.
  at_service :
      (service k : ℕ) {x y : Answer × Server W}
      → Answered k x
      → Answered service y
      → Answered service (if service == k then x else y)
  at_service service k h other = elim (Bool-cases (service == k)) [
    | inl same ↦ rw (same, (==_iff service k).0 same) h
    | inr differs ↦ rw differs other
  ]

  session_handled :
      {service : ℕ} (s : Server W) {x : Answer × Machine}
      → Answered service x
      → Answered service (with_session s x)
  session_handled s (answered h) = answered h

  dtcs_handled :
      {service : ℕ} (s : Server W) {x : Answer × List ServerDtc}
      → Answered service x
      → Answered service (with_dtcs s x)
  dtcs_handled s (answered h) = answered h

  serve-Answered :
      (options : ServerOptions W) (now service : ℕ) (payload : Bytes) (s : Server W)
      → Answered service (serve options now service payload s)
  unfolding serve
  serve-Answered options now service payload s =
      at_service service tester_present (answered (tester_present-AnswerTo payload)) (
        at_service service diagnostic_session_control
          (session_handled s (session_control-Answered options.policy now payload s.session))
          (at_service service ecu_reset
            (session_handled s (ecu_reset-Answered options.policy now payload s.session))
            (at_service service clear_diagnostic_information
              (dtcs_handled s (clear-Answered payload s.dtcs))
              (at_service service read_dtc_information
                (answered (
                  read_dtc-AnswerTo options.dtc_availability_mask options.dtc_format_identifier
                    payload s.dtcs))
                (at_service service read_data_by_identifier (answered (read_did-AnswerTo payload s))
                  (at_service service write_data_by_identifier (write_did-Answered payload s) (
                    at_service service routine_control (routine-Answered options.routines payload s)
                      (at_service service security_access
                        (secured-Answered options.security_access now payload s)
                        (answered (negative service_not_supported))))))))))

  allowed_call-Answered :
      (options : ServerOptions W) (now service : ℕ) (payload : Bytes) (s : Server W)
      (refusal : Option ℕ)
      → Answered service (allowed_call options now service payload s refusal)
  allowed_call-Answered options now service payload s none =
      serve-Answered options now service payload s
  allowed_call-Answered options now service payload s (some nrc) = answered (negative nrc)

  dispatch-Answered :
      (options : ServerOptions W) (now service : ℕ) (payload : Bytes) (s : Server W)
      → Answered service (dispatch options now service payload s)
  unfolding dispatch
  dispatch-Answered options now service payload s =
      either_with (includes (table_services (is_none options.security_access)) service)
        (allowed_call-Answered options now service payload s
          (service_refusal options.policy service s.session))
        (answered (negative service_not_supported))

  response-Sent :
      (options : ServerOptions W) (service : ℕ) (response : Bytes)
      → ResponseTo service response
      → Sent options.pending_services service
          (respond response)
          (sent options service (respond response))
  unfolding sent
  response-Sent options service response h =
      elim (Bool-cases (includes options.pending_services service)) [
        | inl late ↦ rw late (late_response_sent late h)
        | inr soon ↦ rw soon (response_sent soon h)
      ]

  sent-Sent :
      (options : ServerOptions W) (service : ℕ) {answer : Answer}
      → AnswerTo service answer
      → Sent options.pending_services service answer (sent options service answer)
  sent-Sent options service (quiet e) = unfold sent in nothing_sent e
  sent-Sent options service threw = unfold sent in error_sent
  sent-Sent options service (positive bytes) =
      response-Sent options service _ (unfold ResponseTo in inl refl)
  sent-Sent options service (negative nrc) =
      response-Sent options service _ (unfold ResponseTo in inr (nrc, refl))

  -- Every request gets an answer to its service. The response that its handler gives, positive and of
  -- the service, or negative and naming it, is what is sent last; in front of it is exactly one
  -- pending response if one is configured for the service, and nothing otherwise. A handler that
  -- throws is answered with generalReject alone, and nothing is sent only for TesterPresent.
  pub handle-Sent :
      (options : ServerOptions W) (now service : ℕ) (rest : Bytes) (s : Server W)
      → let m = activity now (tick options.policy now s.session).0 in
        Sent options.pending_services service
          (dispatch options now service (service ∷ rest) (record s { session = m })).0
          (handle options now (service ∷ rest) s).0
  unfolding handle
  handle-Sent options now service rest s =
      let m = activity now (tick options.policy now s.session).0 in
      sent-Sent options service (
        answer_of
          (dispatch-Answered options now service (service ∷ rest) (record s { session = m })))
