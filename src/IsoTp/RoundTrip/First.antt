-- ===== src/IsoTp/RoundTrip/First.antt =====
-- A First Frame: what is sent opens a reception of the whole message.
use yes_you_can.Prelude.{
  ℕ, zero, suc, ◌+◌, ◌*◌, ◌/◌, ◌%◌, ◌≤◌, ◌<◌, ◌≡◌, refl, ap, ◌∙◌, ◌⊎◌, inl, inr, true, false, ◌||◌,
  some, [], ◌∷◌, ◌++◌, arith, ltb, leb, ltb→lt, Bool-cases, length, drop,
}
use yes_you_can.Bytes.{Bytes}
use yes_you_can.IsoTp.Params.{continue_to_send}
use yes_you_can.IsoTp.Options.{IsoTpOptions, frame_payload_capacity, max_receive_bytes}
use yes_you_can.IsoTp.Segment.{first_frame_header}
use yes_you_can.IsoTp.Connection.{Connection}
use yes_you_can.IsoTp.Receiver.{
  handle_body, handle_first, first_declared, open_reception, ff_length_rejected, send_flow_control,
  ff_dl, escaped_length,
}

-- The start of a reception of `n` bytes whose first bytes are `first`.
abbrev pub opened : ℕ → ℕ → Bytes → Connection → Connection
opened now n first c = record c {
  rx_state = some (record {
    expected_length = n;
    chunks = first ∷ [];
    received = length first;
    next_sequence = 1;
    last_frame_at = now;
    block_count = 0;
    witness_base = c.witness_seq;
  });
  cr_timer = true;
}

open_reception_lem :
    (o : IsoTpOptions) (now n : ℕ) (chunk : Bytes) (c : Connection)
    → n ≤ max_receive_bytes o
    → open_reception o now n chunk c
      ≡ send_flow_control o now continue_to_send (opened now n chunk c)
unfolding open_reception
open_reception_lem o now n chunk c h =
    let fits : ltb (max_receive_bytes o) n ≡ false = ground arith in rw fits refl

first_declared_plain :
    (o : IsoTpOptions) (now n : ℕ) (body : Bytes) (c : Connection)
    → 7 < n
    → first_declared o now body n c ≡ open_reception o now n (drop 2 body) c
unfolding first_declared
first_declared_plain o now zero body c h = absurd (omega arith)
first_declared_plain o now (suc n) body c h =
    let taken : ff_length_rejected false (suc n) ≡ false =
      unfold ff_length_rejected in ground arith in
    rw taken refl

first_declared_escaped :
    (o : IsoTpOptions) (now n : ℕ) (body : Bytes) (c : Connection)
    → escaped_length body ≡ n
    → 0xfff < n
    → n < 0x80000000
    → 8 < frame_payload_capacity o
    → first_declared o now body 0 c ≡ open_reception o now n (drop 6 body) c
unfolding first_declared
first_declared_escaped o now n body c e h k roomy =
    let taken : (ff_length_rejected true (escaped_length body) || leb (frame_payload_capacity o) 8)
        ≡ false =
      unfold ff_length_rejected in ground arith in
    rw taken (ap (λ m. open_reception o now m (drop 6 body) c) e)

first_plain :
    (o : IsoTpOptions) (now n : ℕ) (chunk : Bytes) (c : Connection)
    → 7 < n
    → n ≤ 0xfff
    → handle_body o now ((0x10 + n / 256 % 16) ∷ (n % 256) ∷ chunk) c
      ≡ open_reception o now n chunk c
unfolding handle_body handle_first
first_plain o now n chunk c h k =
    let tag : (0x10 + n / 256 % 16) / 16 * 16 ≡ 0x10 = omega arith in
    let whole : ff_dl ((0x10 + n / 256 % 16) ∷ (n % 256) ∷ chunk) ≡ n = omega arith in
    rw tag (
      ap (λ m. first_declared o now ((0x10 + n / 256 % 16) ∷ (n % 256) ∷ chunk) m c) whole
      ∙ first_declared_plain o now n ((0x10 + n / 256 % 16) ∷ (n % 256) ∷ chunk) c h)

first_escaped :
    (o : IsoTpOptions) (now n : ℕ) (chunk : Bytes) (c : Connection)
    → 0xfff < n
    → n < 0x80000000
    → 8 < frame_payload_capacity o
    → handle_body o now
        (0x10 ∷ 0 ∷ (n / 16777216 % 256) ∷ (n / 65536 % 256) ∷ (n / 256 % 256) ∷ (n % 256) ∷ chunk)
        c
      ≡ open_reception o now n chunk c
unfolding handle_body handle_first
first_escaped o now n chunk c h k roomy =
    first_declared_escaped o now n
      (0x10 ∷ 0 ∷ (n / 16777216 % 256) ∷ (n / 65536 % 256) ∷ (n / 256 % 256) ∷ (n % 256) ∷ chunk) c
      (omega arith) h k roomy

-- The First Frame of a message of 8 bytes or more, whatever its form.
pub first_opens :
    (o : IsoTpOptions) (now n : ℕ) (chunk : Bytes) (c : Connection)
    → 7 < n
    → n < 0x80000000
    → (n ≤ 0xfff) ⊎ (8 < frame_payload_capacity o)
    → n ≤ max_receive_bytes o
    → handle_body o now (first_frame_header n ++ chunk) c
      ≡ send_flow_control o now continue_to_send (opened now n chunk c)
unfolding first_frame_header
first_opens o now n chunk c h k roomy fits = elim (Bool-cases (ltb 0xfff n)) [
  | inl e ↦
      let wide : 8 < frame_payload_capacity o = ground arith in
      rw e (
        first_escaped o now n chunk c (ltb→lt _ _ e) k wide
        ∙ open_reception_lem o now n chunk c fits)
  | inr e ↦
      let short : n ≤ 0xfff = ground arith in
      rw e (first_plain o now n chunk c h short ∙ open_reception_lem o now n chunk c fits)
]
