-- ===== src/Uds/Codes.antt =====
-- packages/protocols/uds/src/services.ts and nrc.ts: the numbers of the services, of their
-- sub-functions and of the negative responses that the server gives.
use Prim.Native.Nat.{ℕ, ◌+◌, ◌%◌}

-- `SID`
abbrev pub diagnostic_session_control : ℕ
diagnostic_session_control = 0x10

abbrev pub ecu_reset : ℕ
ecu_reset = 0x11

abbrev pub clear_diagnostic_information : ℕ
clear_diagnostic_information = 0x14

abbrev pub read_dtc_information : ℕ
read_dtc_information = 0x19

abbrev pub read_data_by_identifier : ℕ
read_data_by_identifier = 0x22

abbrev pub security_access : ℕ
security_access = 0x27

abbrev pub write_data_by_identifier : ℕ
write_data_by_identifier = 0x2e

abbrev pub routine_control : ℕ
routine_control = 0x31

abbrev pub tester_present : ℕ
tester_present = 0x3e

-- `NRC`
abbrev pub general_reject : ℕ
general_reject = 0x10

abbrev pub service_not_supported : ℕ
service_not_supported = 0x11

abbrev pub sub_function_not_supported : ℕ
sub_function_not_supported = 0x12

abbrev pub incorrect_length : ℕ
incorrect_length = 0x13

abbrev pub conditions_not_correct : ℕ
conditions_not_correct = 0x22

abbrev pub request_out_of_range : ℕ
request_out_of_range = 0x31

abbrev pub invalid_key : ℕ
invalid_key = 0x35

abbrev pub exceed_number_of_attempts : ℕ
exceed_number_of_attempts = 0x36

abbrev pub required_time_delay_not_expired : ℕ
required_time_delay_not_expired = 0x37

abbrev pub response_pending : ℕ
response_pending = 0x78

-- `DTC_REPORT`
abbrev pub report_number_of_dtc_by_status_mask : ℕ
report_number_of_dtc_by_status_mask = 0x01

abbrev pub report_dtc_by_status_mask : ℕ
report_dtc_by_status_mask = 0x02

abbrev pub report_dtc_snapshot_identification : ℕ
report_dtc_snapshot_identification = 0x03

abbrev pub report_dtc_snapshot_record : ℕ
report_dtc_snapshot_record = 0x04

abbrev pub report_dtc_extended_data_record : ℕ
report_dtc_extended_data_record = 0x06

abbrev pub report_supported_dtc : ℕ
report_supported_dtc = 0x0a

abbrev pub negative_response_sid : ℕ
negative_response_sid = 0x7f

abbrev pub dtc_group_all : ℕ
dtc_group_all = 0xffffff

abbrev pub positive_response_sid : ℕ → ℕ
positive_response_sid request_sid = (request_sid + 0x40) % 256
