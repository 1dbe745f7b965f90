-- ===== src/IsoTp/Params.antt =====
-- packages/transport/iso-tp/src/params.ts: timing, frame types and separation times. A time is in
-- milliseconds; a separation time, which may be a fraction, is in tenths of a millisecond.
use yes_you_can.Prelude.{ℕ, ◌+◌, ◌-◌, ◌*◌, ◌/◌, ◌≤◌, min, max, ◌≡◌, ◌&&◌, arith, leb, if◌then◌else◌}

pub record IsoTpTiming : Type 0 where
  pub n_as_ms : ℕ
  pub send_timeout_ms : ℕ
  pub n_bs_ms : ℕ
  pub n_cr_ms : ℕ
  pub st_min_tenths : ℕ
  pub st_min_tx_tenths : ℕ
  pub block_size : ℕ
  pub wft_max : ℕ
  pub max_retries : ℕ

abbrev pub default_timing : IsoTpTiming
default_timing = record {
  n_as_ms = 5;
  send_timeout_ms = 1000;
  n_bs_ms = 1000;
  n_cr_ms = 1000;
  st_min_tenths = 0;
  st_min_tx_tenths = 0;
  block_size = 0;
  wft_max = 8;
  max_retries = 0;
}

abbrev pub slow_link_timing : IsoTpTiming
slow_link_timing = record {
  n_as_ms = 25;
  send_timeout_ms = 3000;
  n_bs_ms = 2000;
  n_cr_ms = 2000;
  st_min_tenths = 0;
  st_min_tx_tenths = 0;
  block_size = 0;
  wft_max = 8;
  max_retries = 2;
}

abbrev pub default_max_receive_bytes : ℕ
default_max_receive_bytes = 65535

-- The values of `FRAME_TYPE`.
abbrev pub single_type : ℕ
single_type = 0x00

abbrev pub first_type : ℕ
first_type = 0x10

abbrev pub consecutive_type : ℕ
consecutive_type = 0x20

abbrev pub flow_control_type : ℕ
flow_control_type = 0x30

-- The values of `FLOW_STATUS`.
abbrev pub continue_to_send : ℕ
continue_to_send = 0x00

abbrev pub wait_status : ℕ
wait_status = 0x01

abbrev pub overflow_status : ℕ
overflow_status = 0x02

unfoldable pub parse_st_min : ℕ → ℕ
parse_st_min byte =
    if leb byte 0x7f
    then byte * 10
    else if leb 0xf1 byte && leb byte 0xf9
    then byte - 0xf0
    else 1270

-- `Math.round` rounds half up; a separation time is not negative.
unfoldable pub encode_st_min : ℕ → ℕ
encode_st_min tenths = max 0 (min 127 ((tenths + 5) / 10))

-- Every byte decodes to a separation time of at most 127 ms, and a time of whole milliseconds up
-- to 127 comes back from its encoding.
pub parse_st_min-encode_st_min :
    (byte ms : ℕ)
    → ms ≤ 127
    → (parse_st_min byte ≤ 1270)
      × (encode_st_min (parse_st_min byte) ≤ 127)
      × (parse_st_min (encode_st_min (ms * 10)) ≡ ms * 10)
unfolding parse_st_min encode_st_min
parse_st_min-encode_st_min byte ms h = (ground arith, ground arith, ground arith)
