-- ===== src/Uds/Server/Dtcs.antt =====
-- packages/protocols/uds/src/server.ts: the handlers of ClearDiagnosticInformation and
-- ReadDTCInformation. A code that does not encode makes the handler throw.
use yes_you_can.Prelude.{
  ℕ, ◌+◌, ◌*◌, ◌/◌, ◌%◌, Bool, true, false, not, ◌&&◌, ◌||◌, Option, none, some, List, [], ◌∷◌,
  ◌++◌, ltb, leb, ◌==◌, if◌then◌else◌, get_some_or, length, get_or, take, drop,
}
use yes_you_can.Bytes.{Bytes}
use yes_you_can.Dtc.Codes.{encode_dtc_to_bytes}
use Prim.Native.Nat.{bit_and}
use yes_you_can.Uds.Codes.{
  clear_diagnostic_information, read_dtc_information, incorrect_length, request_out_of_range,
  sub_function_not_supported, report_number_of_dtc_by_status_mask, report_dtc_by_status_mask,
  report_dtc_snapshot_identification, report_dtc_snapshot_record, report_dtc_extended_data_record,
  report_supported_dtc, dtc_group_all, positive_response_sid,
}
use yes_you_can.Uds.Server.{ServerDtc, Answer, respond, thrown, refuse}

-- The two bytes of a group that names one code.
abbrev pub group_of : Bytes → ℕ
group_of bytes = get_or bytes 0 0 * 65536 + get_or bytes 1 0 * 256

abbrev pub either_known : Bool → Option Bool → Option Bool
either_known true rest = some true
either_known false rest = rest

-- `dtcs.some(…)`; `none` is an error, which a code in front of the first match throws.
unfoldable pub group_known : ℕ → List ServerDtc → Option Bool
group_known group [] = some false
group_known group (d ∷ ds) = elim (encode_dtc_to_bytes d.code 0) [
  | none ↦ none
  | some bytes ↦ either_known (group_of bytes == group) (group_known group ds)
]

-- The statuses after a clear: a fault that is still present is set again, the others leave.
unfoldable pub cleared : List ServerDtc → List ServerDtc
cleared [] = []
cleared (d ∷ ds) =
    let rest = cleared ds in
    if bit_and d.status 0x01 == 0 then rest else record d { status = 0x03 } ∷ rest

abbrev pub clear_done : List ServerDtc → Answer × List ServerDtc
clear_done dtcs = (respond (positive_response_sid clear_diagnostic_information ∷ []), cleared dtcs)

abbrev pub requested_group : Bytes → ℕ
requested_group payload = get_or payload 1 0 * 65536 + get_or payload 2 0 * 256 + get_or payload 3 0

-- The clear of one group, by whether a code has it.
unfoldable pub clear_known : Option Bool → List ServerDtc → Answer × List ServerDtc
unfolding cleared
clear_known none dtcs = (thrown, dtcs)
clear_known (some false) dtcs = (refuse clear_diagnostic_information request_out_of_range, dtcs)
clear_known (some true) dtcs = clear_done dtcs

unfoldable pub handle_clear_dtc : Bytes → List ServerDtc → Answer × List ServerDtc
unfolding group_known cleared clear_known
handle_clear_dtc payload dtcs =
    let group = requested_group payload in
    if ltb (length payload) 4
    then (refuse clear_diagnostic_information incorrect_length, dtcs)
    else if group == dtc_group_all || group == 0
    then clear_done dtcs
    else clear_known (group_known group dtcs) dtcs

-- The four bytes of a code in a list.
abbrev pub dtc_record : ServerDtc → Bytes → Bytes
dtc_record d encoded =
    get_or encoded 0 0 ∷ get_or encoded 1 0 ∷ get_or encoded 2 0 ∷ (d.status % 256) ∷ []

abbrev pub append_record : Bytes → Option Bytes → Option Bytes
append_record entry none = none
append_record entry (some bytes) = some (entry ++ bytes)

-- The loop over the codes whose status meets a mask; `list()` of the source is the mask that all meet.
unfoldable pub list_by_mask : (ServerDtc → Bool) → List ServerDtc → Option Bytes
list_by_mask chosen [] = some []
list_by_mask chosen (d ∷ ds) =
    let rest = list_by_mask chosen ds in
    if chosen d
    then elim (encode_dtc_to_bytes d.code 0) [
      | none ↦ none
      | some encoded ↦ append_record (dtc_record d encoded) rest
    ]
    else rest

abbrev pub meets : ℕ → ServerDtc → Bool
meets mask d = not (bit_and d.status mask == 0)

unfoldable pub count_by_mask : ℕ → List ServerDtc → ℕ
count_by_mask mask [] = 0
count_by_mask mask (d ∷ ds) =
    let rest = count_by_mask mask ds in if meets mask d then rest + 1 else rest

-- `dtc.snapshot !== undefined && dtc.snapshot.length > 0 ? 1 : 0`
abbrev pub snapshot_records : Option Bytes → ℕ
snapshot_records none = 0
snapshot_records (some []) = 0
snapshot_records (some (b ∷ bs)) = 1

-- `bytes[index] === byte`: false behind the end.
abbrev pub byte_is : Bytes → ℕ → ℕ → Bool
byte_is bytes index byte = ltb index (length bytes) && get_or bytes index 0 == byte

abbrev pub same_number : Bytes → Bytes → Bool
same_number encoded wanted =
    byte_is wanted 0 (get_or encoded 0 0) && byte_is wanted 1 (get_or encoded 1 0)

abbrev pub is_wanted : Option Bytes → Bytes → Bool
is_wanted none encoded = true
is_wanted (some wanted) encoded = same_number encoded wanted

unfoldable pub snapshot_identification : Option Bytes → List ServerDtc → Option Bytes
snapshot_identification wanted [] = some []
snapshot_identification wanted (d ∷ ds) =
    let rest = snapshot_identification wanted ds in
    elim (encode_dtc_to_bytes d.code 0) [
      | none ↦ none
      | some encoded ↦
          if is_wanted wanted encoded
          then append_record (dtc_record d encoded ++ (snapshot_records d.snapshot ∷ [])) rest
          else rest
    ]

-- `dtcs.find(…)`: the inner `none` is a code that is not there, the outer one an error.
unfoldable pub find_dtc : Bytes → List ServerDtc → Option (Option ServerDtc)
find_dtc requested [] = some none
find_dtc requested (d ∷ ds) =
    let rest = find_dtc requested ds in
    elim (encode_dtc_to_bytes d.code 0) [
      | none ↦ none
      | some encoded ↦ if same_number encoded requested then some (some d) else rest
    ]

-- A list behind its header.
abbrev pub listed : Bytes → Option Bytes → Answer
listed header none = thrown
listed header (some bytes) = respond (header ++ bytes)

-- The record of one code, behind its lookup.
abbrev pub one_record : (ServerDtc → Bytes) → ℕ → Bytes → ℕ → Option (Option ServerDtc) → Answer
one_record bytes_of sub_function requested number none = thrown
one_record bytes_of sub_function requested number (some none) =
    refuse read_dtc_information request_out_of_range
one_record bytes_of sub_function requested number (some (some d)) = respond (
    positive_response_sid read_dtc_information
    ∷ sub_function
    ∷ get_or requested 0 0
    ∷ get_or requested 1 0
    ∷ get_or requested 2 0
    ∷ (d.status % 256)
    ∷ number
    ∷ bytes_of d)

unfoldable pub handle_read_dtc : ℕ → ℕ → Bytes → List ServerDtc → Answer
unfolding list_by_mask count_by_mask snapshot_identification find_dtc
handle_read_dtc mask format payload dtcs =
    let sub_function = get_or payload 1 0 in
    let status_mask = get_or payload 2 0xff in
    let header = positive_response_sid read_dtc_information ∷ sub_function ∷ (mask % 256) ∷ [] in
    let requested = take 3 (drop 2 payload) in
    if sub_function == report_dtc_by_status_mask
    then listed header (list_by_mask (meets status_mask) dtcs)
    else if sub_function == report_supported_dtc
    then listed header (list_by_mask (λ (d : ServerDtc). true) dtcs)
    else if sub_function == report_number_of_dtc_by_status_mask
    then respond (
        header
        ++ ((format % 256)
            ∷ (count_by_mask status_mask dtcs / 256 % 256)
            ∷ (count_by_mask status_mask dtcs % 256)
            ∷ []))
    else if sub_function == report_dtc_snapshot_identification
    then listed header (
        snapshot_identification
          (if leb 4 (length payload) then some (take 2 (drop 2 payload)) else none) dtcs)
    else if sub_function == report_dtc_snapshot_record
    then one_record (λ (d : ServerDtc). get_some_or d.snapshot []) sub_function requested
        (get_or payload 5 0xff) (find_dtc requested dtcs)
    else if sub_function == report_dtc_extended_data_record
    then one_record (λ (d : ServerDtc). get_some_or d.extended_data []) sub_function requested
        (get_or payload 5 0x01) (find_dtc requested dtcs)
    else refuse read_dtc_information sub_function_not_supported
