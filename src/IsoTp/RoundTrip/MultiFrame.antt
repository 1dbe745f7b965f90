-- ===== src/IsoTp/RoundTrip/MultiFrame.antt =====
-- packages/transport/iso-tp/src/connection.ts: a payload in a First Frame and Consecutive Frames.
use yes_you_can.Prelude.{
  ℕ, ◌+◌, ◌≤◌, ◌<◌, ◌≡◌, refl, sym, ap, ◌∙◌, ◌⊎◌, [], ◌∷◌, ◌++◌, append-nil, arith, length, take,
  drop, length-append, take-append-drop, length-take, length-drop,
}
use yes_you_can.Bytes.{Bytes}
use yes_you_can.Can.{CanFrame}
use yes_you_can.IsoTp.Params.{continue_to_send}
use yes_you_can.IsoTp.Options.{
  IsoTpOptions, padded, with_address, frame_payload_capacity, single_frame_capacity,
  max_receive_bytes,
}
use yes_you_can.IsoTp.Segment.{
  first_frame_header, first_chunk_length, first_frame_body, consecutive_bodies, segments,
  capacity_bounds,
}
use yes_you_can.IsoTp.Connection.{Connection}
use yes_you_can.IsoTp.Sender.Prefix.{wires}
use yes_you_can.IsoTp.Receiver.{
  handle_frame, handle_frames, handle_body, note_frame, send_flow_control,
}
use yes_you_can.IsoTp.Receiver.Reassembly.{
  Linked, deliveries, Receiving, carrying, fill_full, same_capacity,
}
use yes_you_can.IsoTp.Receiver.Message.{
  arrivals, Delivers, Delivers-more, message_frames, note_frame_keeps,
}
use yes_you_can.IsoTp.RoundTrip.First.{opened, first_opens}
use yes_you_can.IsoTp.RoundTrip.Frame.{handle_frame-sent}

-- The condition on a payload under which the receiver takes its First Frame.
pub record Segmented (p o : IsoTpOptions) (n : ℕ) : Type 0 where
  pub long : single_frame_capacity p < n
  pub announced : 7 < n
  pub bounded : n < 0x80000000
  pub form : (n ≤ 0xfff) ⊎ (8 < frame_payload_capacity p)
  pub fits : n ≤ max_receive_bytes o

length-first_frame_header :
    (n : ℕ)
    → (length (first_frame_header n) ≡ 2) ⊎ (0xfff < n) × (length (first_frame_header n) ≡ 6)
unfolding first_frame_header
length-first_frame_header n = ground arith

first_chunk_bounds :
    (p o : IsoTpOptions) (n : ℕ)
    → Segmented p o n
    → (length (first_frame_header n) + first_chunk_length (frame_payload_capacity p) n
        ≡ frame_payload_capacity p)
      × (first_chunk_length (frame_payload_capacity p) n < n)
unfolding first_chunk_length
first_chunk_bounds p o n s =
    let bounds = capacity_bounds p in
    let header = length-first_frame_header n in
    (ground (arith, bounds, header, s.long), ground (arith, bounds, header, s.long))

first_frame_full :
    (p o : IsoTpOptions) (payload : Bytes)
    → Segmented p o (length payload)
    → length (first_frame_body (frame_payload_capacity p) payload) ≡ frame_payload_capacity p
unfolding first_frame_body
first_frame_full p o payload s =
    let n = first_chunk_length (frame_payload_capacity p) (length payload) in
    omega (
      arith,
      first_chunk_bounds p o (length payload) s,
      length-append (first_frame_header (length payload)) (take n payload),
      length-take n payload,
    )

first_handled :
    (p o : IsoTpOptions) (payload : Bytes) (now : ℕ) (template : CanFrame) (c : Connection)
    → Linked p o
    → Segmented p o (length payload)
    → let frame =
        carrying template
          (with_address p (padded p (first_frame_body (frame_payload_capacity p) payload))) in
      let n = first_chunk_length (frame_payload_capacity p) (length payload) in
      handle_frame o now frame c
      ≡ send_flow_control o now continue_to_send
          (opened now (length payload) (take n payload) (note_frame now frame c))
unfolding first_frame_body
first_handled p o payload now template c l s =
    let body = first_frame_body (frame_payload_capacity p) payload in
    let frame = carrying template (with_address p (padded p body)) in
    let full = first_frame_full p o payload s in
    handle_frame-sent p o now template c body l (omega (arith, full, capacity_bounds p))
    ∙ ap (λ t. handle_body o now (body ++ t) (note_frame now frame c)) (fill_full p body full)
    ∙ ap (λ t. handle_body o now t (note_frame now frame c)) (append-nil body)
    ∙ first_opens o now (length payload)
        (take (first_chunk_length (frame_payload_capacity p) (length payload)) payload)
        (note_frame now frame c) s.announced s.bounded (rw (sym (same_capacity p o l)) s.form)
        s.fits

opened-Receiving :
    (o : IsoTpOptions) (now k : ℕ) (payload : Bytes) (c : Connection)
    → let step =
        send_flow_control o now continue_to_send (opened now (length payload) (take k payload) c) in
      (deliveries step.1 ≡ []) × Receiving step.0 (take k payload) (drop k payload) 1 c.pending
unfolding send_flow_control deliveries
opened-Receiving o now k payload c = (
  refl,
  record {
    state = record {
      expected_length = length payload;
      chunks = take k payload ∷ [];
      received = length (take k payload);
      next_sequence = 1;
      last_frame_at = now;
      block_count = 0;
      witness_base = c.witness_seq;
    };
    active = refl;
    expects =
        ap length (sym (take-append-drop k payload))
        ∙ length-append (take k payload) (drop k payload);
    holds = append-nil (take k payload);
    counted = refl;
    numbered = refl;
    owned = refl;
  },
)

first_received :
    (p o : IsoTpOptions) (payload : Bytes) (now : ℕ) (template : CanFrame) (c : Connection)
    → Linked p o
    → Segmented p o (length payload)
    → let step =
        handle_frame o now
          (carrying template
            (with_address p (padded p (first_frame_body (frame_payload_capacity p) payload))))
          c in
      let n = first_chunk_length (frame_payload_capacity p) (length payload) in
      (deliveries step.1 ≡ []) × Receiving step.0 (take n payload) (drop n payload) 1 c.pending
first_received p o payload now template c l s =
    let frame =
      carrying template
        (with_address p (padded p (first_frame_body (frame_payload_capacity p) payload))) in
    let n = first_chunk_length (frame_payload_capacity p) (length payload) in
    let (quiet, r) = opened-Receiving o now n payload (note_frame now frame c) in
    rw (first_handled p o payload now template c l s) (
      quiet,
      record {
        state = r.state;
        active = r.active;
        expects = r.expects;
        holds = r.holds;
        counted = r.counted;
        numbered = r.numbered;
        owned = r.owned ∙ (note_frame_keeps now frame c).1;
      },
    )

pub multi_frame_delivered :
    (p o : IsoTpOptions) (payload : Bytes) (template : CanFrame) (times : ℕ → ℕ) (c : Connection)
    → Linked p o
    → Segmented p o (length payload)
    → Delivers c.pending payload (
        handle_frames o
          (arrivals template times 0 (wires p (segments (frame_payload_capacity p) payload)))
          c)
unfolding segments handle_frames
multi_frame_delivered p o payload template times c l s =
    let capacity = frame_payload_capacity p in
    let k = first_chunk_length capacity (length payload) in
    let rest = drop k payload in
    let capable : 1 < frame_payload_capacity p = omega (arith, capacity_bounds p) in
    let (quiet, receiving) = first_received p o payload (times 0) template c l s in
    Delivers-more p o l capable template times c.pending _ 1 [] (take k payload) rest payload
      (consecutive_bodies (length rest) capacity 1 rest) quiet (take-append-drop k payload)
      (message_frames p o l capable template times c.pending (length rest) 1 _ (take k payload) rest
        1 (omega arith) receiving (omega arith)
        (omega (arith, length-drop k payload, first_chunk_bounds p o (length payload) s)))
