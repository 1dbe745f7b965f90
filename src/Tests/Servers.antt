-- ===== src/Tests/Servers.antt =====
-- The UDS server of a small ECU, and trouble codes.
use yes_you_can.Prelude.{
  ℕ, ◌+◌, ◌*◌, ◌/◌, ◌≡◌, refl, true, false, none, some, List, [], ◌∷◌, arith, ◌==◌, get_or,
}
use yes_you_can.Text.{codes}
use yes_you_can.Bytes.{Bytes}
use yes_you_can.Session.{
  Policy, Machine, tick, activity, find, enter, request, default_uds_timing, session_default,
  p2_ms_of, p2_star_ms_of,
}
use yes_you_can.Session.Shipped.{
  default_session_definition, extended_session_definition, programming_session_definition,
  simulator_sessions,
}
use yes_you_can.Dtc.Codes.{encode_dtc, decode_dtc, encode_dtc-decode_dtc}
use yes_you_can.Uds.Codes.{
  exceed_number_of_attempts, required_time_delay_not_expired, security_access,
}
use yes_you_can.Uds.Server.{
  ServerDid, ServerDtc, ServerSecurityAccess, ServerOptions, Server, respond, refuse, find_did,
}
use yes_you_can.Uds.Server.Handlers.{
  handle_security_access, handle_write_did, handle_read_did, handle_session_control,
}
use yes_you_can.Uds.Server.Dispatch.{handle, dispatch, table_services}
use yes_you_can.Uds.Server.Answers.{Sent, handle-Sent}
use yes_you_can.Uds.Server.Lockout.{handle_all, third_failure_locks_out}
use yes_you_can.Uds.Server.Security.{Unlocks, handle-Unlocks}
use yes_you_can.Uds.Server.Writes.{read_did-write_did}
use yes_you_can.Uds.Timing.{Tells, parse_session_timing-handle_session_control}

encode_dtc-decode_dtc_example : encode_dtc (decode_dtc 0x04 0x20 0).code ≡ some (0x04, 0x20)
encode_dtc-decode_dtc_example = encode_dtc-decode_dtc 0x04 0x20 0 (omega arith) (omega arith)

abbrev policy : Policy
policy = record {
  definitions = simulator_sessions;
  default_type = session_default;
  default_definition = default_session_definition;
  implemented = table_services false;
  fallback_timing = default_uds_timing;
}

abbrev machine : Machine
machine = record {
  current = extended_session_definition;
  last_activity_at = 100;
  unlocked_level = 0;
}

-- The world of this ECU is a counter, and the key of every level is one byte, 0x2a.
abbrev access : ServerSecurityAccess ℕ
access = record {
  seed = λ (w : ℕ). (some (0x11 ∷ []), w + 1);
  verify_key = λ (level : ℕ) (key : Bytes) (w : ℕ). (some (get_or key 0 0 == 0x2a), w);
  lockout_ms = 10000;
}

abbrev options : ServerOptions ℕ
options = record {
  policy = policy;
  routines = [];
  security_access = some access;
  pending_services = 0x27 ∷ [];
  dtc_availability_mask = 0xff;
  dtc_format_identifier = 0;
}

abbrev coding_did : ServerDid ℕ
coding_did = record {
  did = 0x0200;
  value = λ (w : ℕ). some (0x00 ∷ []);
  writable = true;
  sessions = none;
  write = none;
}

abbrev faults : List ServerDtc
faults =
    record { code = codes "P0420"; status = 0x2f; snapshot = none; extended_data = none }
    ∷ record { code = codes "P0301"; status = 0x28; snapshot = none; extended_data = none }
    ∷ []

abbrev server : Server ℕ
server = record {
  session = machine;
  dids = coding_did ∷ [];
  dtcs = faults;
  security_failures = 2;
  locked_out_until = 0;
  world = 0;
}

handle-Sent_example :
    Sent
      (0x27 ∷ [])
      0x27
      (dispatch options 200 0x27
        (0x27 ∷ 0x01 ∷ [])
        (record server { session = activity 200 (tick policy 200 server.session).0 })).0
      (handle options 200 (0x27 ∷ 0x01 ∷ []) server).0
handle-Sent_example = handle-Sent options 200 0x27 (0x01 ∷ []) server

handle-Unlocks_example :
    Unlocks options
      (0x27 ∷ 0x02 ∷ 0x2a ∷ [])
      200
      server
      (handle options 200 (0x27 ∷ 0x02 ∷ 0x2a ∷ []) server).1
handle-Unlocks_example = handle-Unlocks options 200 0x27 (0x02 ∷ 0x2a ∷ []) server

-- A tester that is present, and a session that is changed, during the lockout.
abbrev in_between : List (ℕ × Bytes)
in_between = (250, 0x3e ∷ 0x00 ∷ []) ∷ (270, 0x10 ∷ 0x01 ∷ []) ∷ []

third_failure_locks_out_example :
    let (answer, s') = handle_security_access access 200 (0x27 ∷ 0x02 ∷ 0x00 ∷ []) server in
    let s'' = handle_all options in_between s' in
    (answer ≡ refuse security_access exceed_number_of_attempts)
    × (s'.session ≡ machine)
    × (handle_security_access access 300 (0x27 ∷ 0x02 ∷ 0x2a ∷ []) s''
        ≡ (refuse security_access required_time_delay_not_expired, s''))
third_failure_locks_out_example =
    third_failure_locks_out options access 200 300 (0x27 ∷ 0x02 ∷ 0x00 ∷ [])
      (0x27 ∷ 0x02 ∷ 0x2a ∷ []) in_between server (omega arith) refl refl (omega arith)
      (omega arith, (omega arith, tt)) (omega arith) (omega arith)

read_did-write_did_example :
    let (answer, s') = handle_write_did (0x2e ∷ 0x02 ∷ 0x00 ∷ 0x18 ∷ []) server in
    (answer ≡ respond (0x6e ∷ 0x02 ∷ 0x00 ∷ []))
    × (handle_read_did (0x22 ∷ 0x02 ∷ 0x00 ∷ []) s' ≡ respond (0x62 ∷ 0x02 ∷ 0x00 ∷ 0x18 ∷ []))
unfolding find_did
read_did-write_did_example =
    read_did-write_did coding_did 0x2e 0x02 0x00 0x18 [] server (omega arith) (omega arith) refl
      refl refl refl

parse_session_timing-handle_session_control_example :
    let (m', transition) = request policy 0x03 200 machine in
    Tells
      (p2_ms_of policy m')
      ((p2_star_ms_of policy m' + 5) / 10 * 10)
      (handle_session_control policy 200 (0x10 ∷ 0x03 ∷ []) machine).0
unfolding request find enter p2_ms_of p2_star_ms_of simulator_sessions default_session_definition
    extended_session_definition programming_session_definition
parse_session_timing-handle_session_control_example =
    parse_session_timing-handle_session_control policy 200 0x10 0x03 [] machine refl (omega arith)
      (omega arith)
