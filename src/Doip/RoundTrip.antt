-- ===== src/Doip/RoundTrip.antt =====
-- packages/transport/doip/src/message.ts: what is encoded decodes to itself.
use yes_you_can.Prelude.{
  ℕ, suc, ◌+◌, ◌*◌, ◌/◌, ◌%◌, ◌≤◌, ◌<◌, ◌≡◌, refl, ◌↔◌, inl, inr, false, [], ◌++◌, append-nil,
  arith, ltb, ◌==◌, ltb→lt, Bool-cases, length, get_or, drop,
}
use yes_you_can.Bytes.{Bytes, u16be, u32be, write_u16be, write_u32be}
use yes_you_can.Doip.{
  DoipHeader, doip_protocol_version, encode_header, decode_header, encode_message,
  DiagnosticMessage, encode_diagnostic_message, decode_diagnostic_message, RoutingActivation,
  encode_routing_activation_response, decode_routing_activation_response,
}

pub word_kept : (v : ℕ) → v < 65536 → v / 256 % 256 * 256 + v % 256 ≡ v
word_kept v h = omega arith

long_word_kept :
    (v : ℕ)
    → v < 4294967296
    → (v / 16777216 % 256 * 256 + v / 65536 % 256) * 65536 + (v / 256 % 256 * 256 + v % 256) ≡ v
long_word_kept v h = omega arith

-- For a payload type below 2^16 and a payload shorter than 2^32 bytes, the header of an encoded message
-- decodes to the version, the payload type and the length of the payload; and the payload stands
-- behind it.
pub decode_header-encode_message :
    (payload_type : ℕ) (payload : Bytes)
    → payload_type < 65536
    → length payload < 4294967296
    → (decode_header (encode_message payload_type payload)
        ≡ inr (record {
          version = doip_protocol_version;
          payload_type = payload_type;
          payload_length = length payload;
        }))
      × (drop 8 (encode_message payload_type payload) ≡ payload)
unfolding decode_header encode_message encode_header write_u16be write_u32be u16be u32be
decode_header-encode_message payload_type payload h k =
    let enough : ltb (suc (suc (suc (suc (suc (suc (suc (suc (length (payload ++ [])))))))))) 8
        ≡ false =
      ground arith in
    (
      rw enough (rw (word_kept payload_type h, long_word_kept (length payload) k) refl),
      append-nil payload,
    )

-- Bytes that are too short for a header, or whose second byte is not the complement of the first,
-- are refused, and all others accepted.
pub decode_header_accepts :
    (bytes : Bytes)
    → ((header : DoipHeader) × (decode_header bytes ≡ inr header))
      ↔ (8 ≤ length bytes) × (get_or bytes 0 0 + get_or bytes 1 0 ≡ 255)
unfolding decode_header
decode_header_accepts bytes = elim (Bool-cases (ltb (length bytes) 8)) [
  | inl short ↦ rw short (λ (header, e). cc, λ (k, e). absurd (omega (arith, ltb→lt _ _ short)))
  | inr enough ↦ elim (Bool-cases (get_or bytes 0 0 + get_or bytes 1 0 == 255)) [
    | inl same ↦ rw enough (rw same (λ h. (ground arith, ground arith), λ h. (_, refl)))
    | inr other ↦ rw enough (rw other (λ (header, e). cc, λ (k, e). absurd (ground arith)))
  ]
]

-- A diagnostic message with 16-bit addresses decodes to itself, also one without a payload.
pub decode_diagnostic_message-encode_diagnostic_message :
    (message : DiagnosticMessage)
    → message.source_address < 65536
    → message.target_address < 65536
    → decode_diagnostic_message (encode_diagnostic_message message) ≡ inr message
unfolding decode_diagnostic_message encode_diagnostic_message write_u16be u16be
decode_diagnostic_message-encode_diagnostic_message message h k =
    let enough : ltb (suc (suc (suc (suc (length (message.uds_payload ++ [])))))) 4 ≡ false =
      ground arith in
    rw enough (
      rw
        (
          word_kept message.source_address h,
          word_kept message.target_address k,
          append-nil message.uds_payload,
        )
        refl)

-- So does a routing activation response.
pub decode_routing_activation_response-encode_routing_activation_response :
    (response : RoutingActivation)
    → response.tester_logical_address < 65536
    → response.entity_logical_address < 65536
    → response.code < 256
    → decode_routing_activation_response (encode_routing_activation_response response)
      ≡ inr response
unfolding decode_routing_activation_response encode_routing_activation_response write_u16be u16be
decode_routing_activation_response-encode_routing_activation_response response h k c =
    let byte : response.code % 256 ≡ response.code = omega arith in
    rw
      (
        word_kept response.tester_logical_address h,
        word_kept response.entity_logical_address k,
        byte,
      )
      refl
