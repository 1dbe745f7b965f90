-- ===== src/Tests/Gateways.antt =====
-- DoIP messages.
use yes_you_can.Prelude.{
  ◌≡◌, refl, inr, Bool, true, ◌&&◌, some, [], ◌∷◌, arith, ltb, ltb→lt, &&_iff, drop, All,
}
use yes_you_can.Text.{codes, trim}
use yes_you_can.Bytes.{Bytes, IsByte}
use yes_you_can.Doip.{
  doip_protocol_version, encode_message, decode_header, DiagnosticMessage, VehicleIdentification,
  encode_vehicle_identification_response, decode_vehicle_identification_response,
}
use yes_you_can.Doip.RoundTrip.{decode_header-encode_message}
use yes_you_can.Doip.Vehicle.{Encodable, decode_response-encode_response}

decode_header-encode_message_example :
    (decode_header (encode_message 0x8001 (0x22 ∷ 0xf1 ∷ 0x90 ∷ []))
      ≡ inr (record { version = doip_protocol_version; payload_type = 0x8001; payload_length = 3 }))
    × (drop 8 (encode_message 0x8001 (0x22 ∷ 0xf1 ∷ 0x90 ∷ [])) ≡ 0x22 ∷ 0xf1 ∷ 0x90 ∷ [])
decode_header-encode_message_example =
    decode_header-encode_message 0x8001 (0x22 ∷ 0xf1 ∷ 0x90 ∷ []) (omega arith) (omega arith)

abbrev message : DiagnosticMessage
message = record {
  source_address = 0x0e00;
  target_address = 0x1001;
  uds_payload = 0x10 ∷ 0x03 ∷ [];
}

abbrev response : VehicleIdentification
response = record {
  vin = codes "WVWZZZ1JZXW000001";
  logical_address = 0x1001;
  eid = 1 ∷ 2 ∷ 3 ∷ 4 ∷ 5 ∷ 6 ∷ [];
  gid = 6 ∷ 5 ∷ 4 ∷ 3 ∷ 2 ∷ 1 ∷ [];
  further_action_required = true;
  vin_sync_status = some 0x10;
}

abbrev all_narrow : Bytes → Bool
all_narrow [] = true
all_narrow (b ∷ bs) = ltb b 256 && all_narrow bs

All-all_narrow : (bytes : Bytes) → all_narrow bytes ≡ true → All IsByte bytes
All-all_narrow [] h = tt
All-all_narrow (b ∷ bs) h =
    let (small, rest) = (&&_iff (ltb b 256) (all_narrow bs)).0 h in
    (ltb→lt b 256 small, All-all_narrow bs rest)

response-Encodable : Encodable response
unfolding trim
response-Encodable = record {
  seventeen = refl;
  narrow = All-all_narrow response.vin refl;
  trimmed = refl;
  address = omega arith;
  six_eid = refl;
  six_gid = refl;
  status = inr (0x10, refl, omega arith);
}

decode_response-encode_response_example :
    decode_vehicle_identification_response (encode_vehicle_identification_response response)
    ≡ inr response
decode_response-encode_response_example =
    decode_response-encode_response response response-Encodable
