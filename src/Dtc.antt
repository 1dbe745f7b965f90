-- ===== src/Dtc.antt =====
-- packages/protocols/uds/src/dtc.ts: the status byte of a trouble code, the availability mask and the
-- severity. The bits of one byte are distinct, so the source's `|` is a sum.
pub mod Codes
use yes_you_can.Prelude.{
  ℕ, ◌+◌, ◌*◌, ◌/◌, ◌%◌, ◌≤◌, ◌≡◌, refl, inl, inr, Bool, true, false, ◌&&◌, [], ◌∷◌, arith, ◌==◌,
  if◌then◌else◌, Bool-cases, All,
}
use yes_you_can.Bytes.{IsByte}

pub record DtcStatusBits : Type 0 where
  pub test_failed : Bool
  pub test_failed_this_operation_cycle : Bool
  pub pending_dtc : Bool
  pub confirmed_dtc : Bool
  pub test_not_completed_since_last_clear : Bool
  pub test_failed_since_last_clear : Bool
  pub test_not_completed_this_operation_cycle : Bool
  pub warning_indicator_requested : Bool

-- The local function `bit` of `decodeDtcStatus`, with `2 ^ index` for the shift.
abbrev pub bit : ℕ → ℕ → Bool
bit status weight = status / weight % 2 == 1

unfoldable pub decode_dtc_status : ℕ → DtcStatusBits
decode_dtc_status status = record {
  test_failed = bit status 1;
  test_failed_this_operation_cycle = bit status 2;
  pending_dtc = bit status 4;
  confirmed_dtc = bit status 8;
  test_not_completed_since_last_clear = bit status 16;
  test_failed_since_last_clear = bit status 32;
  test_not_completed_this_operation_cycle = bit status 64;
  warning_indicator_requested = bit status 128;
}

abbrev weigh : Bool → ℕ → ℕ
weigh true weight = weight
weigh false weight = 0

-- For a record in which every bit is given.
unfoldable pub encode_dtc_status : DtcStatusBits → ℕ
encode_dtc_status bits =
    (weigh bits.test_failed 1
      + weigh bits.test_failed_this_operation_cycle 2
      + weigh bits.pending_dtc 4
      + weigh bits.confirmed_dtc 8
      + weigh bits.test_not_completed_since_last_clear 16
      + weigh bits.test_failed_since_last_clear 32
      + weigh bits.test_not_completed_this_operation_cycle 64
      + weigh bits.warning_indicator_requested 128)
    % 256

pub data DtcSeverity : Type 0 where
  info minor major critical : DtcSeverity

abbrev pub availability_mask_all : ℕ
availability_mask_all = 0xff

unfoldable pub supported_status_bits : ℕ → DtcStatusBits
unfolding decode_dtc_status
supported_status_bits mask = decode_dtc_status (mask % 256)

unfoldable pub dtc_severity : DtcStatusBits → ℕ → DtcSeverity
unfolding supported_status_bits
dtc_severity bits mask =
    let supported = supported_status_bits mask in
    if supported.test_failed && bits.test_failed
    then critical
    else if supported.confirmed_dtc && bits.confirmed_dtc
    then major
    else if supported.pending_dtc && bits.pending_dtc
    then minor
    else info

-- The bit as a number.
abbrev ones : Bool → ℕ
ones true = 1
ones false = 0

weigh-ones : (b : Bool) (weight : ℕ) → (weigh b weight ≡ ones b * weight) × (ones b ≤ 1)
weigh-ones true weight = (omega arith, omega arith)
weigh-ones false weight = (omega arith, omega arith)

weigh-bit : (status weight : ℕ) → weigh (bit status weight) weight ≡ status / weight % 2 * weight
weigh-bit status weight = elim (Bool-cases (bit status weight)) [
  | inl set ↦ let one : status / weight % 2 ≡ 1 = ground arith in rw set (rw one (omega arith))
  | inr clear ↦ let nil : status / weight % 2 ≡ 0 = ground arith in rw clear (rw nil (omega arith))
]

bit_of_ones : (status weight : ℕ) (b : Bool) → status / weight % 2 ≡ ones b → bit status weight ≡ b
bit_of_ones status weight true h = ground arith
bit_of_ones status weight false h = ground arith

agree : (m a b : Bool) → (m ≡ true → a ≡ b) → (m && a) ≡ (m && b)
agree true a b h = h refl
agree false a b h = refl

-- A status byte survives decoding and encoding.
pub encode_dtc_status-decode_dtc_status :
    (status : ℕ) → IsByte status → encode_dtc_status (decode_dtc_status status) ≡ status
unfolding encode_dtc_status decode_dtc_status
encode_dtc_status-decode_dtc_status status h =
    rw
      (
        weigh-bit status 1,
        weigh-bit status 2,
        weigh-bit status 4,
        weigh-bit status 8,
        weigh-bit status 16,
        weigh-bit status 32,
        weigh-bit status 64,
        weigh-bit status 128,
      )
      (omega arith)

-- Status bits survive encoding and decoding, and the byte is a byte.
pub decode_dtc_status-encode_dtc_status :
    (bits : DtcStatusBits)
    → (decode_dtc_status (encode_dtc_status bits) ≡ bits) × IsByte (encode_dtc_status bits)
unfolding encode_dtc_status decode_dtc_status
decode_dtc_status-encode_dtc_status bits =
    let v = encode_dtc_status bits in
    let a = weigh-ones bits.test_failed 1 in
    let b = weigh-ones bits.test_failed_this_operation_cycle 2 in
    let c = weigh-ones bits.pending_dtc 4 in
    let d = weigh-ones bits.confirmed_dtc 8 in
    let e = weigh-ones bits.test_not_completed_since_last_clear 16 in
    let f = weigh-ones bits.test_failed_since_last_clear 32 in
    let g = weigh-ones bits.test_not_completed_this_operation_cycle 64 in
    let i = weigh-ones bits.warning_indicator_requested 128 in
    (
      rw
          (
            bit_of_ones v 1 bits.test_failed (omega (arith, a, b, c, d, e, f, g, i)),
            bit_of_ones v 2 bits.test_failed_this_operation_cycle
                (omega (arith, a, b, c, d, e, f, g, i)),
            bit_of_ones v 4 bits.pending_dtc (omega (arith, a, b, c, d, e, f, g, i)),
            bit_of_ones v 8 bits.confirmed_dtc (omega (arith, a, b, c, d, e, f, g, i)),
            bit_of_ones v 16 bits.test_not_completed_since_last_clear
                (omega (arith, a, b, c, d, e, f, g, i)),
            bit_of_ones v 32 bits.test_failed_since_last_clear
                (omega (arith, a, b, c, d, e, f, g, i)),
            bit_of_ones v 64 bits.test_not_completed_this_operation_cycle
                (omega (arith, a, b, c, d, e, f, g, i)),
            bit_of_ones v 128 bits.warning_indicator_requested
                (omega (arith, a, b, c, d, e, f, g, i)),
          )
          refl,
      omega arith,
    )

-- The severity of a status byte depends on testFailed, pendingDtc and confirmedDtc only, and on none
-- of these outside the availability mask: two status bytes that agree on those of the three that
-- the mask has get the same severity under it.
pub dtc_severity_masked :
    (status status' mask : ℕ)
    → All
        (λ weight. bit (mask % 256) weight ≡ true → bit status weight ≡ bit status' weight)
        (1 ∷ 4 ∷ 8 ∷ [])
    → dtc_severity (decode_dtc_status status) mask ≡ dtc_severity (decode_dtc_status status') mask
unfolding dtc_severity supported_status_bits decode_dtc_status
dtc_severity_masked status status' mask h =
    rw
      (
        agree (bit (mask % 256) 1) (bit status 1) (bit status' 1) h.0,
        agree (bit (mask % 256) 8) (bit status 8) (bit status' 8) h.1.1.0,
        agree (bit (mask % 256) 4) (bit status 4) (bit status' 4) h.1.0,
      )
      refl
