-- ===== src/Uds/Server/Faults.antt =====
-- packages/protocols/uds/src/server.ts: what ClearDiagnosticInformation leaves of the fault memory, and
-- the counts of ReadDTCInformation.
use yes_you_can.Prelude.{
  get_or, ℕ, ◌/◌, ◌%◌, ◌≡◌, refl, ap, ◌∙◌, ◌⊎◌, inl, inr, Bool, true, false, ◌&&◌, ◌||◌, none, some,
  List, [], ◌∷◌, map, arith, leb, ◌==◌, if◌then◌else◌, length, All,
}
use Prim.Native.Nat.{bit_and}
use native.Mathlib.Decide.{ℕ_discrete}
use yes_you_can.Prelude.Bits.{agree_below, agree_below→eq}
use yes_you_can.Text.{Text}
use yes_you_can.Bytes.{Bytes, IsByte}
use yes_you_can.Dtc.Codes.{encode_dtc}
use yes_you_can.Dtc.{decode_dtc_status}
use yes_you_can.Uds.Codes.{clear_diagnostic_information, positive_response_sid}
use yes_you_can.Uds.Server.{ServerDtc, Answer, respond}
use yes_you_can.Uds.Server.Dtcs.{cleared}

-- The bit `testFailed` as the clear tests it, and as the status is decoded.
abbrev failed_bit : ℕ → ℕ
failed_bit status = bit_and status 0x01

failed_table : (status : ℕ) → IsByte status → failed_bit status ≡ status % 2
unfolding agree_below ℕ_discrete
failed_table = agree_below→eq failed_bit (λ (n : ℕ). n % 2) 256 refl

-- The faults that are present, by the decoded status.
pub still_failing : List ServerDtc → List Text
unfolding decode_dtc_status
still_failing [] = []
still_failing (d ∷ ds) =
    let rest = still_failing ds in
    if (decode_dtc_status d.status).test_failed then d.code ∷ rest else rest

parity : (n : ℕ) → (n % 2 ≡ 0) ⊎ (n % 2 ≡ 1)
parity n = ground arith

-- What a clear leaves: the faults that are present, each with the two bits of a failing test.
pub cleared_lem :
    (dtcs : List ServerDtc)
    → All (λ (d : ServerDtc). IsByte d.status) dtcs
    → (map (λ (d : ServerDtc). d.code) (cleared dtcs) ≡ still_failing dtcs)
      × All (λ (d : ServerDtc). d.status ≡ 0x03) (cleared dtcs)
unfolding cleared still_failing decode_dtc_status
cleared_lem [] h = (refl, tt)
cleared_lem (d ∷ ds) h =
    let rest = cleared_lem ds h.1 in
    elim (parity d.status) [
      | inl even ↦
          let clear : failed_bit d.status ≡ 0 = failed_table d.status h.0 ∙ even in
          let low : d.status / 1 % 2 ≡ 0 = omega (arith, even) in rw (clear, low) rest
      | inr odd ↦
          let set : failed_bit d.status ≡ 1 = failed_table d.status h.0 ∙ odd in
          let low : d.status / 1 % 2 ≡ 1 = omega (arith, odd) in
          rw (set, low) (ap (λ (cs : List Text). d.code ∷ cs) rest.0, (refl, rest.1))
    ]

-- The three bytes of a group that names all codes.
pub names_all : ℕ → ℕ → ℕ → Bool
names_all high middle low =
    (high == 0xff && (middle == 0xff && low == 0xff)) || (high == 0 && (middle == 0 && low == 0))

-- Two bytes are those of a stored code. A stored code that is none ends the search.
pub has_code : ℕ → ℕ → List ServerDtc → Bool
has_code high middle [] = false
has_code high middle (d ∷ ds) = elim (encode_dtc d.code) [
  | none ↦ false
  | some (h, m) ↦ (h == high && m == middle) || has_code high middle ds
]

-- The request is obeyed: it has four bytes, and the three behind the service name all codes, or are
-- the two of a stored code and a zero.
pub obeyed : Bytes → List ServerDtc → Bool
unfolding names_all
obeyed payload dtcs =
    let high = get_or payload 1 0 in
    let middle = get_or payload 2 0 in
    let low = get_or payload 3 0 in
    leb 4 (length payload) && (names_all high middle low || (low == 0 && has_code high middle dtcs))

-- What a request to clear leaves, by whether it is obeyed.
pub Clears : Bool → List ServerDtc → Answer × List ServerDtc → Type 0
Clears true dtcs (answer, after) =
    (answer ≡ respond (positive_response_sid clear_diagnostic_information ∷ []))
    × (map (λ (d : ServerDtc). d.code) after ≡ still_failing dtcs)
    × All (λ (d : ServerDtc). d.status ≡ 0x03) after
Clears false dtcs (answer, after) = after ≡ dtcs
