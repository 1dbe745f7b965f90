-- ===== src/Tests/Links.antt =====
-- The ISO-TP connection.
use yes_you_can.Prelude.{
  ◌%◌, ◌*◌, ◌<◌, ◌≡◌, refl, sym, ap, ◌∙◌, inl, inr, Bool, true, false, none, some, List, [], ◌∷◌,
  ◌++◌, arith, get_some_or, length, replicate, All,
}
use yes_you_can.Text.{codes}
use yes_you_can.Bytes.{Bytes}
use yes_you_can.Can.{CanFrame}
use yes_you_can.IsoTp.Params.{default_timing, continue_to_send, wait_status}
use yes_you_can.IsoTp.Options.{
  IsoTpOptions, Addressing, normal, extended, frame_payload_capacity, single_frame_capacity, padded,
  with_address, max_receive_bytes,
}
use yes_you_can.IsoTp.Errors.{n_bs_timeout, is_retryable}
use yes_you_can.IsoTp.Segment.{
  segments, frame_count_for, frame_count_for-segments, first_frame_body, first_chunk_length,
}
use yes_you_can.IsoTp.Connection.{initial_connection}
use yes_you_can.IsoTp.Sender.{
  Environment, accepted, flow, FlowControlFrame, sent, transmit, written, await_flow_control,
}
use yes_you_can.IsoTp.Sender.Answered.{Ended, transmit-Ended}
use yes_you_can.IsoTp.Sender.Prefix.{Sends, wires, frame_bodies, transmit-Sends}
use yes_you_can.IsoTp.Receiver.{handle_frame, handle_frames, note_frame}
use yes_you_can.IsoTp.Receiver.Reassembly.{Linked, carrying}
use yes_you_can.IsoTp.Receiver.Message.{arrivals, Delivers}
use yes_you_can.IsoTp.RoundTrip.{Sendable, frames_delivered, transmit-delivered}
use yes_you_can.IsoTp.RoundTrip.Lost.{seven_bytes_dropped}
use yes_you_can.IsoTp.Request.{
  Attempt, answered, threw, resolved, rejected, request_exclusive, failures,
  request_exclusive_answered, request_exclusive_rejected,
}

-- Classic CAN, with padding; an extended end has the address 0x55 on both sides.
abbrev pub options : Addressing → Bool → IsoTpOptions
options addressing fd = record {
  tx_id = 0x7e0;
  rx_id = 0x7e8;
  extended_id = none;
  addressing = addressing;
  target_address = some 0x55;
  source_address = some 0x55;
  padding = true;
  pad_byte = none;
  fd = fd;
  bus_can_fd = true;
  channel = none;
  bus_channel = codes "can0";
  timing = default_timing;
  max_receive = none;
}

abbrev pub classic : IsoTpOptions
classic = options normal false

Linked-itself :
    (o : IsoTpOptions)
    → o.target_address ≡ o.source_address
    → o.source_address ≡ some 0x55
    → Linked o o
Linked-itself o e h = record {
  same_addressing = refl;
  same_mtu = refl;
  address = inr (h ∙ ap (λ t. some (get_some_or t 0x00 % 256)) (sym (e ∙ h)));
}

abbrev ten_bytes : Bytes
ten_bytes = 0x62 ∷ 0xf1 ∷ 0x90 ∷ 1 ∷ 2 ∷ 3 ∷ 4 ∷ 5 ∷ 6 ∷ 7 ∷ []

abbrev grant_all : FlowControlFrame
grant_all = record { status = continue_to_send; block_size = 0; st_min_tenths = 0 }

-- Two frames are accepted, and one Flow Control grants all.
abbrev obliging : Environment
obliging = record { writes = accepted ∷ accepted ∷ []; flows = flow grant_all ∷ [] }

abbrev pub blank : CanFrame
blank = record {
  timestamp = 0;
  id = 0x7e8;
  extended = false;
  fd = false;
  dlc = 8;
  payload = [];
  channel = codes "can0";
  direction = none;
  brs = none;
}

ten_bytes-Sendable : Sendable classic classic (length ten_bytes)
unfolding single_frame_capacity max_receive_bytes frame_payload_capacity
ten_bytes-Sendable = inr (record {
  long = omega arith;
  announced = omega arith;
  bounded = omega arith;
  form = inl (omega arith);
  fits = omega arith;
})

ten_sent : (transmit classic ten_bytes obliging).outcome ≡ sent
unfolding transmit single_frame_capacity frame_payload_capacity await_flow_control
    first_chunk_length
ten_sent = refl

transmit-delivered_example : Delivers initial_connection.pending ten_bytes (
    handle_frames classic
      (arrivals blank (λ k. 10 * k) 0 (written (transmit classic ten_bytes obliging).actions))
      initial_connection)
transmit-delivered_example =
    transmit-delivered classic classic ten_bytes obliging blank (λ k. 10 * k) initial_connection
      (Linked-itself classic refl refl) ten_bytes-Sendable ten_sent

frames_delivered_example : Delivers initial_connection.pending ten_bytes (
    handle_frames classic
      (arrivals blank (λ k. 10 * k) 0 (wires classic (frame_bodies classic ten_bytes)))
      initial_connection)
frames_delivered_example =
    frames_delivered classic classic ten_bytes blank (λ k. 10 * k) initial_connection
      (Linked-itself classic refl refl) ten_bytes-Sendable

transmit-Sends_example :
    Sends (wires classic (frame_bodies classic ten_bytes)) (transmit classic ten_bytes obliging)
transmit-Sends_example = transmit-Sends classic ten_bytes obliging

abbrev grant_one : FlowControlFrame
grant_one = record { status = continue_to_send; block_size = 1; st_min_tenths = 0 }

ten_bytes_long : single_frame_capacity classic < length ten_bytes
unfolding single_frame_capacity frame_payload_capacity
ten_bytes_long = omega arith

frame_count_for-segments_example :
    frame_count_for classic (length ten_bytes)
    ≡ length (segments (frame_payload_capacity classic) ten_bytes)
frame_count_for-segments_example =
    frame_count_for-segments classic ten_bytes ten_bytes_long (omega arith)

abbrev seven_bytes : Bytes
seven_bytes = 1 ∷ 2 ∷ 3 ∷ 4 ∷ 5 ∷ 6 ∷ 7 ∷ []

addressed_capacity : frame_payload_capacity (options extended false) ≡ 7
unfolding frame_payload_capacity
addressed_capacity = refl

seven_bytes_dropped_example :
    let o = options extended false in
    let first = first_frame_body (frame_payload_capacity o) seven_bytes in
    let frame = carrying blank (with_address o (padded o first)) in
    (frame_bodies o seven_bytes ≡ segments (frame_payload_capacity o) seven_bytes)
    × (handle_frame o 10 frame initial_connection ≡ (note_frame 10 frame initial_connection, []))
seven_bytes_dropped_example =
    seven_bytes_dropped (options extended false) (options extended false) seven_bytes 10 blank
      initial_connection (Linked-itself (options extended false) refl refl) addressed_capacity refl

abbrev after_two : List Attempt
after_two = failures (n_bs_timeout ∷ n_bs_timeout ∷ []) ++ (answered ten_bytes ∷ [])

two_retryable : All (λ e. is_retryable e ≡ true) (n_bs_timeout ∷ n_bs_timeout ∷ [])
unfolding is_retryable
two_retryable = (refl, (refl, tt))

request_exclusive_answered_example :
    ((request_exclusive 2 after_two).ending ≡ resolved ten_bytes)
    × ((request_exclusive 2 after_two).retries ≡ 2)
request_exclusive_answered_example =
    request_exclusive_answered 2 (n_bs_timeout ∷ n_bs_timeout ∷ []) ten_bytes [] two_retryable
      (omega arith)

-- The third failure is one too many.
request_exclusive_rejected_example :
    let x =
      request_exclusive 2
        (failures (n_bs_timeout ∷ n_bs_timeout ∷ []) ++ (threw n_bs_timeout ∷ [])) in
    (x.ending ≡ rejected n_bs_timeout) × (x.retries ≡ 2)
request_exclusive_rejected_example =
    request_exclusive_rejected 2 (n_bs_timeout ∷ n_bs_timeout ∷ []) n_bs_timeout [] two_retryable
      (omega arith) (inr refl)

abbrev asks_to_wait : FlowControlFrame
asks_to_wait = record { status = wait_status; block_size = 0; st_min_tenths = 0 }

-- The other end only ever asks to wait.
abbrev stubborn : Environment
stubborn = record { writes = replicate 10 accepted; flows = replicate 200 (flow asks_to_wait) }

transmit-Ended_example : Ended (transmit classic ten_bytes stubborn)
transmit-Ended_example = transmit-Ended classic ten_bytes stubborn (omega arith) (omega arith)
