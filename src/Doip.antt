-- ===== src/Doip.antt =====
-- packages/transport/doip/src/message.ts: DoIP messages. An exception is the data of its text.
pub mod RoundTrip
pub mod Vehicle
use yes_you_can.Prelude.{
  ℕ, zero, suc, ◌+◌, ◌-◌, ◌*◌, ◌/◌, ◌%◌, ◌^◌, ◌≤◌, ◌<◌, min, max, ◌≡◌, refl, sym, ap, ◌∙◌, ◌≢◌, ◌↔◌,
  ◌⊎◌, inl, inr, Bool, true, false, not, ◌&&◌, ◌||◌, Option, none, some, List, [], ◌∷◌, ◌++◌, map,
  append_assoc, append-nil, arith, ltb, leb, ◌==◌, if◌then◌else◌, if_cases, ==_iff, ==_refl, leb→le,
  ltb→lt, Bool-cases, Option-cases, get_some_or, is_none, some_injective, &&_iff, length, get_or,
  take, drop, replicate, flatten, length-append, take-append-drop, length-take, length-drop,
  length-replicate, take-append, drop-append, take_all, drop_all, includes, All, All-append,
}
use yes_you_can.Bytes.{
  Bytes, concat_bytes, u16be, u32be, write_u16be, write_u32be, ascii_bytes_from,
}
use yes_you_can.Text.{Text, codes, trim}

abbrev pub doip_protocol_version : ℕ
doip_protocol_version = 0x02

abbrev pub doip_header_length : ℕ
doip_header_length = 8

pub record DoipHeader : Type 0 where
  pub version : ℕ
  pub payload_type : ℕ
  pub payload_length : ℕ

pub data DoipError : Type 0 where
  header_too_short : ℕ → DoipError
  version_check_failed : ℕ → ℕ → DoipError
  vehicle_response_too_short : ℕ → DoipError
  routing_response_too_short : ℕ → DoipError
  diagnostic_message_too_short : ℕ → DoipError
  diagnostic_ack_too_short : ℕ → DoipError

-- `~v & 0xff` of a byte
abbrev pub complement : ℕ → ℕ
complement v = 255 - v % 256

unfoldable pub encode_header : ℕ → ℕ → Bytes
encode_header payload_type payload_length = concat_bytes (
    (doip_protocol_version ∷ complement doip_protocol_version ∷ [])
    ∷ write_u16be payload_type
    ∷ write_u32be payload_length
    ∷ [])

-- Two bytes differ in every bit exactly if their sum is 255.
abbrev pub xor_is_ff : ℕ → ℕ → Bool
xor_is_ff a b = a + b == 255

unfoldable pub decode_header : Bytes → DoipError ⊎ DoipHeader
decode_header bytes =
    if ltb (length bytes) doip_header_length
    then inl (header_too_short (length bytes))
    else if not (xor_is_ff (get_or bytes 0 0) (get_or bytes 1 0))
    then inl (version_check_failed (get_or bytes 0 0) (get_or bytes 1 0))
    else inr (record {
      version = get_or bytes 0 0;
      payload_type = u16be bytes 2;
      payload_length = u32be bytes 4;
    })

unfoldable pub encode_message : ℕ → Bytes → Bytes
unfolding encode_header
encode_message payload_type payload =
    concat_bytes (encode_header payload_type (length payload) ∷ payload ∷ [])

pub record VehicleIdentification : Type 0 where
  pub vin : Text
  pub logical_address : ℕ
  pub eid : Bytes
  pub gid : Bytes
  pub further_action_required : Bool
  pub vin_sync_status : Option ℕ

-- The loop over the 17 characters of a VIN is that of `asciiBytes`.
unfoldable pub encode_vehicle_identification_request : Option Text → Bytes
encode_vehicle_identification_request none = []
encode_vehicle_identification_request (some []) = []
encode_vehicle_identification_request (some (c ∷ cs)) = ascii_bytes_from 17 (c ∷ cs)

unfoldable pub decode_vehicle_identification_response : Bytes → DoipError ⊎ VehicleIdentification
decode_vehicle_identification_response payload =
    if ltb (length payload) 32
    then inl (vehicle_response_too_short (length payload))
    else inr (record {
      vin = trim (take 17 payload);
      logical_address = u16be payload 17;
      eid = take 6 (drop 19 payload);
      gid = take 6 (drop 25 payload);
      further_action_required = not (get_or payload 31 0 == 0x00);
      vin_sync_status = if ltb 32 (length payload) then some (get_or payload 32 0) else none;
    })

abbrev pub optional_byte : Option ℕ → Bytes
optional_byte none = []
optional_byte (some b) = (b % 256) ∷ []

unfoldable pub encode_vehicle_identification_response : VehicleIdentification → Bytes
encode_vehicle_identification_response response = concat_bytes (
    ascii_bytes_from 17 response.vin
    ∷ write_u16be response.logical_address
    ∷ response.eid
    ∷ response.gid
    ∷ ((if response.further_action_required then 0x01 else 0x00) ∷ [])
    ∷ optional_byte response.vin_sync_status
    ∷ [])

unfoldable pub encode_routing_activation_request : ℕ → Option ℕ → Bytes
encode_routing_activation_request source_address activation_type = concat_bytes (
    write_u16be source_address
    ∷ ((get_some_or activation_type 0x00 % 256) ∷ 0x00 ∷ 0x00 ∷ 0x00 ∷ 0x00 ∷ [])
    ∷ [])

-- The name of a code is a look-up in a constant table, and is left out.
pub record RoutingActivation : Type 0 where
  pub tester_logical_address : ℕ
  pub entity_logical_address : ℕ
  pub code : ℕ

unfoldable pub decode_routing_activation_response : Bytes → DoipError ⊎ RoutingActivation
decode_routing_activation_response payload =
    if ltb (length payload) 5
    then inl (routing_response_too_short (length payload))
    else inr (record {
      tester_logical_address = u16be payload 0;
      entity_logical_address = u16be payload 2;
      code = get_or payload 4 0;
    })

unfoldable pub encode_routing_activation_response : RoutingActivation → Bytes
encode_routing_activation_response response = concat_bytes (
    write_u16be response.tester_logical_address
    ∷ write_u16be response.entity_logical_address
    ∷ ((response.code % 256) ∷ 0x00 ∷ 0x00 ∷ 0x00 ∷ 0x00 ∷ [])
    ∷ [])

pub record DiagnosticMessage : Type 0 where
  pub source_address : ℕ
  pub target_address : ℕ
  pub uds_payload : Bytes

unfoldable pub encode_diagnostic_message : DiagnosticMessage → Bytes
encode_diagnostic_message message = concat_bytes (
    write_u16be message.source_address
    ∷ write_u16be message.target_address
    ∷ message.uds_payload
    ∷ [])

unfoldable pub decode_diagnostic_message : Bytes → DoipError ⊎ DiagnosticMessage
decode_diagnostic_message payload =
    if ltb (length payload) 4
    then inl (diagnostic_message_too_short (length payload))
    else inr (record {
      source_address = u16be payload 0;
      target_address = u16be payload 2;
      uds_payload = drop 4 payload;
    })

pub record DiagnosticAck : Type 0 where
  pub source_address : ℕ
  pub target_address : ℕ
  pub ack_code : ℕ

unfoldable pub decode_diagnostic_ack : Bytes → DoipError ⊎ DiagnosticAck
decode_diagnostic_ack payload =
    if ltb (length payload) 5
    then inl (diagnostic_ack_too_short (length payload))
    else inr (record {
      source_address = u16be payload 0;
      target_address = u16be payload 2;
      ack_code = get_or payload 4 0;
    })
