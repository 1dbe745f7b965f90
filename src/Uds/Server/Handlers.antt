-- ===== src/Uds/Server/Handlers.antt =====
-- packages/protocols/uds/src/server.ts: the other handlers, and the call of the one for a service.
use yes_you_can.Prelude.{
  ℕ, ◌+◌, ◌-◌, ◌*◌, ◌/◌, ◌%◌, Bool, true, false, not, ◌&&◌, ◌||◌, Option, none, some, List, [], ◌∷◌,
  ◌++◌, ltb, leb, ◌==◌, if◌then◌else◌, get_some_or, length, get_or, drop, includes,
}
use Prim.Native.Nat.{bit_and}
use yes_you_can.Bytes.{Bytes, write_u16be}
use yes_you_can.Session.{
  Policy, Machine, Transition, request, reset, unlock, p2_ms_of, p2_star_ms_of,
}
use yes_you_can.Uds.Codes.{
  diagnostic_session_control, ecu_reset, clear_diagnostic_information, read_dtc_information,
  read_data_by_identifier, security_access, write_data_by_identifier, routine_control,
  tester_present, general_reject, service_not_supported, sub_function_not_supported,
  incorrect_length, conditions_not_correct, request_out_of_range, invalid_key,
  exceed_number_of_attempts, required_time_delay_not_expired, positive_response_sid,
}
use yes_you_can.Uds.Server.{
  HookAnswer, accepts, refuses, throws, ServerDid, ServerDtc, ServerRoutine, ServerSecurityAccess,
  ServerOptions, Server, Answer, silent, respond, thrown, refuse, find_did, register_did,
  find_routine,
}
use yes_you_can.Uds.Server.Dtcs.{handle_clear_dtc, handle_read_dtc}

unfoldable pub handle_tester_present : Bytes → Answer
handle_tester_present payload =
    if bit_and (get_or payload 1 0) 0x80 == 0
    then respond (positive_response_sid tester_present ∷ 0x00 ∷ [])
    else silent

-- The response of a session that was entered, or the refusal.
unfoldable pub session_response : Policy → Machine → ℕ → Transition → Answer
unfolding p2_ms_of p2_star_ms_of write_u16be
session_response policy m requested transition =
    if not transition.ok
    then refuse diagnostic_session_control (get_some_or transition.nrc sub_function_not_supported)
    else respond (
        positive_response_sid diagnostic_session_control
        ∷ requested
        ∷ (write_u16be (p2_ms_of policy m) ++ write_u16be ((p2_star_ms_of policy m + 5) / 10)))

unfoldable pub handle_session_control : Policy → ℕ → Bytes → Machine → Answer × Machine
unfolding session_response request
handle_session_control policy now payload m =
    let requested = get_or payload 1 0 % 128 in
    let (m', transition) = request policy requested now m in
    if ltb (length payload) 2
    then (refuse diagnostic_session_control incorrect_length, m)
    else (session_response policy m' requested transition, m')

unfoldable pub handle_ecu_reset : Policy → ℕ → Bytes → Machine → Answer × Machine
unfolding reset
handle_ecu_reset policy now payload m =
    let reset_type = get_or payload 1 0 % 128 in
    if ltb (length payload) 2
    then (refuse ecu_reset incorrect_length, m)
    else if not (reset_type == 0x01) && (not (reset_type == 0x02) && not (reset_type == 0x03))
    then (refuse ecu_reset sub_function_not_supported, m)
    else (respond (positive_response_sid ecu_reset ∷ reset_type ∷ []), (reset policy now m).0)

abbrev pub in_sessions : Option (List ℕ) → ℕ → Bool
in_sessions none type = true
in_sessions (some sessions) type = includes sessions type

abbrev pub join_read : Option Bytes → Option Bytes → Option Bytes
join_read none rest = none
join_read (some bytes) none = none
join_read (some bytes) (some rest) = some (bytes ++ rest)

-- `matched === 0` is an empty list behind the service id, since a match adds its identifier.
unfoldable pub did_response : Option Bytes → Answer
did_response none = thrown
did_response (some []) = refuse read_data_by_identifier request_out_of_range
did_response (some (b ∷ bs)) = respond (positive_response_sid read_data_by_identifier ∷ b ∷ bs)

abbrev pub written_response : ℕ → Answer
written_response did = respond (positive_response_sid write_data_by_identifier ∷ write_u16be did)

abbrev pub hook_answer : ℕ → HookAnswer → Answer
hook_answer did accepts = written_response did
hook_answer did (refuses nrc) = refuse write_data_by_identifier nrc
hook_answer did throws = refuse write_data_by_identifier general_reject

abbrev pub routine_answer : ℕ → ℕ → Option Bytes → Answer
routine_answer control id none = thrown
routine_answer control id (some result) =
    respond (positive_response_sid routine_control ∷ control ∷ (write_u16be id ++ result))

-- `seed()`, by what it returns; `none` is an error that it throws.
abbrev pub seed_given : ℕ → Option Bytes → Answer
seed_given level none = thrown
seed_given level (some seed) = respond (positive_response_sid security_access ∷ level ∷ seed)

module _ {W : Type 0} where
  -- One identifier of the loop: its two bytes and its value; `some []` where it is left out.
  unfoldable pub read_one : ℕ → W → ℕ → Option (ServerDid W) → Option Bytes
  unfolding write_u16be
  read_one type world did none = some []
  read_one type world did (some d) =
      if in_sessions d.sessions type
      then elim (d.value world) [ none ↦ none | some value ↦ some (write_u16be did ++ value) ]
      else some []

  -- The loop of `handleReadDataByIdentifier`, on the bytes behind the service id.
  unfoldable pub read_dids : ℕ → W → List (ServerDid W) → Bytes → Option Bytes
  unfolding read_one find_did
  read_dids type world dids [] = some []
  read_dids type world dids (b ∷ []) = some []
  read_dids type world dids (high ∷ low ∷ rest) =
      let did = high * 256 + low in
      join_read (read_one type world did (find_did did dids)) (read_dids type world dids rest)

  unfoldable pub handle_read_did : Bytes → Server W → Answer
  unfolding read_dids did_response
  handle_read_did payload s =
      if ltb (length payload) 3 || not ((length payload - 1) % 2 == 0)
      then refuse read_data_by_identifier incorrect_length
      else did_response (read_dids s.session.current.type s.world s.dids (drop 1 payload))

  -- The write itself: by the hook, or by a new value that a read answers with.
  unfoldable pub store :
      ServerDid W → ℕ → Bytes → Option (Bytes → W → HookAnswer × W) → Server W → Answer × Server W
  unfolding register_did write_u16be
  store d did bytes none s = (
    written_response did,
    record s { dids = register_did (record d { did = did; value = λ (w : W). some bytes }) s.dids },
  )
  store d did bytes (some hook) s =
      let (answer, world) = hook bytes s.world in
      (hook_answer did answer, record s { world = world })

  unfoldable pub write_found : ℕ → Bytes → Option (ServerDid W) → Server W → Answer × Server W
  unfolding store
  write_found did bytes none s = (refuse write_data_by_identifier request_out_of_range, s)
  write_found did bytes (some d) s =
      if not d.writable
      then (refuse write_data_by_identifier conditions_not_correct, s)
      else store d did bytes d.write s

  unfoldable pub handle_write_did : Bytes → Server W → Answer × Server W
  unfolding write_found find_did
  handle_write_did payload s =
      let did = get_or payload 1 0 * 256 + get_or payload 2 0 in
      if ltb (length payload) 4
      then (refuse write_data_by_identifier incorrect_length, s)
      else write_found did (drop 3 payload) (find_did did s.dids) s

  -- A key that was tried, by what `verifyKey` returns.
  unfoldable pub key_tried :
      ServerSecurityAccess W → ℕ → ℕ → Option Bool → Server W → Answer × Server W
  unfolding unlock
  key_tried access now level none s = (thrown, s)
  key_tried access now level (some true) s = (
    respond (positive_response_sid security_access ∷ level ∷ []),
    record s { security_failures = 0; session = unlock level s.session },
  )
  key_tried access now level (some false) s =
      let failures = s.security_failures + 1 in
      (
        refuse security_access (if leb 3 failures then exceed_number_of_attempts else invalid_key),
        record s {
          security_failures = failures;
          locked_out_until =
              if leb 3 failures && not (access.lockout_ms == 0)
              then now + access.lockout_ms
              else s.locked_out_until;
        },
      )

  unfoldable pub handle_security_access :
      ServerSecurityAccess W → ℕ → Bytes → Server W → Answer × Server W
  unfolding key_tried
  handle_security_access access now payload s =
      let level = get_or payload 1 0 in
      let (seed, seeded) = access.seed s.world in
      let (right, tried) = access.verify_key level (drop 2 payload) s.world in
      if ltb now s.locked_out_until
      then (refuse security_access required_time_delay_not_expired, s)
      else if level % 2 == 1
      then (seed_given level seed, record s { world = seeded })
      else key_tried access now level right (record s { world = tried })

  unfoldable pub run_routine :
      ℕ → ℕ → Bytes → Option (ServerRoutine W) → Server W → Answer × Server W
  unfolding write_u16be
  run_routine control id bytes none s = (refuse routine_control request_out_of_range, s)
  run_routine control id bytes (some r) s =
      let (result, world) = r.run bytes s.world in
      (routine_answer control id result, record s { world = world })

  unfoldable pub handle_routine_control :
      List (ServerRoutine W) → Bytes → Server W → Answer × Server W
  unfolding run_routine find_routine
  handle_routine_control routines payload s =
      let id = get_or payload 2 0 * 256 + get_or payload 3 0 in
      if ltb (length payload) 4
      then (refuse routine_control incorrect_length, s)
      else run_routine (get_or payload 1 0) id (drop 4 payload) (find_routine id routines) s

  abbrev pub with_session : Server W → Answer × Machine → Answer × Server W
  with_session s (answer, m) = (answer, record s { session = m })

  abbrev pub with_dtcs : Server W → Answer × List ServerDtc → Answer × Server W
  with_dtcs s (answer, dtcs) = (answer, record s { dtcs = dtcs })

  abbrev pub secured : Option (ServerSecurityAccess W) → ℕ → Bytes → Server W → Answer × Server W
  secured none now payload s = (refuse security_access service_not_supported, s)
  secured (some access) now payload s = handle_security_access access now payload s

  -- `handlers.get(serviceId)` and the call of what it is.
  unfoldable pub serve : ServerOptions W → ℕ → ℕ → Bytes → Server W → Answer × Server W
  unfolding handle_tester_present handle_session_control handle_ecu_reset handle_clear_dtc
      handle_read_dtc handle_read_did handle_write_did handle_security_access handle_routine_control
  serve options now service payload s =
      if service == tester_present
      then (handle_tester_present payload, s)
      else if service == diagnostic_session_control
      then with_session s (handle_session_control options.policy now payload s.session)
      else if service == ecu_reset
      then with_session s (handle_ecu_reset options.policy now payload s.session)
      else if service == clear_diagnostic_information
      then with_dtcs s (handle_clear_dtc payload s.dtcs)
      else if service == read_dtc_information
      then (
        handle_read_dtc options.dtc_availability_mask options.dtc_format_identifier payload s.dtcs,
        s,
      )
      else if service == read_data_by_identifier
      then (handle_read_did payload s, s)
      else if service == write_data_by_identifier
      then handle_write_did payload s
      else if service == routine_control
      then handle_routine_control options.routines payload s
      else if service == security_access
      then secured options.security_access now payload s
      else (refuse service service_not_supported, s)
