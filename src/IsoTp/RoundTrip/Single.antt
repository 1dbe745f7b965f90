-- ===== src/IsoTp/RoundTrip/Single.antt =====
-- A Single Frame: what is sent is delivered.
use yes_you_can.Prelude.{
  ℕ, zero, suc, ◌+◌, ◌-◌, ◌*◌, ◌/◌, ◌%◌, ◌≤◌, ◌<◌, ◌≡◌, refl, ap, ◌∙◌, inl, inr, true, false, ◌||◌,
  none, [], ◌∷◌, ◌++◌, arith, ltb, leb, leb→le, Bool-cases, length, take, length-append,
  take-append, drop-append,
}
use yes_you_can.Bytes.{Bytes}
use yes_you_can.IsoTp.Options.{
  IsoTpOptions, frame_payload_capacity, capacity_cases, single_frame_capacity,
}
use yes_you_can.IsoTp.Segment.{single_frame_header, single_frame_body}
use yes_you_can.IsoTp.Connection.{Connection}
use yes_you_can.IsoTp.Receiver.{handle_body, handle_single, single_declared, take_single, deliver}
use yes_you_can.IsoTp.Receiver.Accept.{deliver_lem}
use yes_you_can.IsoTp.Receiver.Message.{Delivers}

header_short : (n : ℕ) → n ≤ 7 → single_frame_header n ≡ n ∷ []
unfolding single_frame_header
header_short n h =
    let short : ltb 7 n ≡ false = ground arith in
    let small : 0 + n % 16 ≡ n = omega arith in rw short (rw small refl)

header_long : (n : ℕ) → 7 < n → single_frame_header n ≡ 0 ∷ n ∷ []
unfolding single_frame_header
header_long n h = let long : ltb 7 n ≡ true = ground arith in rw long refl

-- The state in which a Single Frame is delivered.
abbrev pub closed_by_single : Connection → Connection
closed_by_single c = record c {
  stats = record c.stats { rx_single_frames = c.stats.rx_single_frames + 1 };
  cr_timer = false;
  rx_state = none;
}

pub Delivers-single :
    (payload : Bytes) (c : Connection)
    → Delivers c.pending payload (deliver payload (closed_by_single c))
Delivers-single payload c =
    let (given, idle, kept) = deliver_lem payload (closed_by_single c) in
    record { given = given; idle = idle; finished = kept }

take_single_lem :
    (o : IsoTpOptions) (payload filler header : Bytes) (c : Connection)
    → 0 < length payload
    → length payload ≤ frame_payload_capacity o - length header
    → take_single o (header ++ (payload ++ filler)) (length header) (length payload) c
      ≡ deliver payload (closed_by_single c)
unfolding take_single
take_single_lem o payload filler header c h fits =
    let sound : (ltb (length payload) 1
          || ltb (frame_payload_capacity o - length header) (length payload)
          || ltb (length (header ++ (payload ++ filler))) (length header + length payload))
        ≡ false =
      ground (arith, length-append payload filler, length-append header (payload ++ filler)) in
    rw sound (
      ap (λ t. deliver (take (length payload) t) (closed_by_single c))
        (drop-append header (payload ++ filler) (length header) refl)
      ∙ ap (λ t. deliver t (closed_by_single c)) (take-append payload filler (length payload) refl))

single_declared_short :
    (o : IsoTpOptions) (body : Bytes) (n : ℕ) (c : Connection)
    → 0 < n
    → single_declared o body n c ≡ take_single o body 1 n c
unfolding single_declared
single_declared_short o body zero c h = absurd (omega arith)
single_declared_short o body (suc n) c h = refl

single_short :
    (o : IsoTpOptions) (now : ℕ) (payload filler : Bytes) (c : Connection)
    → 0 < length payload
    → length payload ≤ 7
    → length payload ≤ frame_payload_capacity o - 1
    → handle_body o now (length payload ∷ (payload ++ filler)) c
      ≡ deliver payload (closed_by_single c)
unfolding handle_body handle_single
single_short o now payload filler c h k fits =
    let tag : length payload / 16 * 16 ≡ 0 = omega arith in
    let small : length payload % 16 ≡ length payload = omega arith in
    rw tag (
      ap (λ n. single_declared o (length payload ∷ (payload ++ filler)) n c) small
      ∙ single_declared_short o (length payload ∷ (payload ++ filler)) (length payload) c h
      ∙ take_single_lem o payload filler (length payload ∷ []) c h fits)

single_long :
    (o : IsoTpOptions) (now : ℕ) (payload filler : Bytes) (c : Connection)
    → 7 < length payload
    → length payload ≤ frame_payload_capacity o - 2
    → handle_body o now (0 ∷ length payload ∷ (payload ++ filler)) c
      ≡ deliver payload (closed_by_single c)
unfolding handle_body handle_single single_declared
single_long o now payload filler c h fits =
    let roomy : leb (frame_payload_capacity o) 8 ≡ false = ground arith in
    rw roomy (take_single_lem o payload filler (0 ∷ length payload ∷ []) c (omega arith) fits)

capacity_of_short :
    (o : IsoTpOptions) (n : ℕ)
    → n ≤ single_frame_capacity o
    → (n ≤ 7 → n ≤ frame_payload_capacity o - 1) × (7 < n → n ≤ frame_payload_capacity o - 2)
unfolding single_frame_capacity
capacity_of_short o n h =
    (λ k. ground (arith, capacity_cases o), λ k. ground (arith, capacity_cases o))

-- The body of a Single Frame is delivered, whatever stands behind it in the frame.
pub single_body :
    (o : IsoTpOptions) (now : ℕ) (payload filler : Bytes) (c : Connection)
    → 0 < length payload
    → length payload ≤ single_frame_capacity o
    → handle_body o now (single_frame_body payload ++ filler) c
      ≡ deliver payload (closed_by_single c)
unfolding single_frame_body
single_body o now payload filler c h k =
    let (short, long) = capacity_of_short o (length payload) k in
    elim (Bool-cases (leb (length payload) 7)) [
      | inl e ↦
          let le = leb→le (length payload) 7 e in
          rw (header_short (length payload) le)
            (single_short o now payload filler c h le (short le))
      | inr e ↦
          let lt : 7 < length payload = ground arith in
          rw (header_long (length payload) lt) (single_long o now payload filler c lt (long lt))
    ]
