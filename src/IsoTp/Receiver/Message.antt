-- ===== src/IsoTp/Receiver/Message.antt =====
-- The Consecutive Frames of a message, one after the other: the reception goes on until the payload
-- is whole, and it is delivered once.
use yes_you_can.Prelude.{
  ℕ, zero, suc, ◌+◌, ◌%◌, ◌≤◌, ◌<◌, ◌≡◌, refl, sym, ap, ◌∙◌, inl, inr, Option, none, List, [], ◌∷◌,
  ◌++◌, append_assoc, append-nil, arith, ◌==◌, ==_iff, Bool-cases, length, take, drop,
  length-append, take-append-drop, take_all,
}
use mathlib.Core.Path.{ap₂}
use yes_you_can.Bytes.{Bytes, concat_bytes}
use yes_you_can.Can.{CanFrame}
use yes_you_can.IsoTp.Options.{
  IsoTpOptions, padded, padded-fill, fill, with_address, frame_payload_capacity,
}
use yes_you_can.IsoTp.Segment.{consecutive_body, consecutive_bodies, chunk_length}
use yes_you_can.IsoTp.Connection.{Connection, RxState, Step, ◌then_do◌, record_witness}
use yes_you_can.IsoTp.Sender.Prefix.{wires, rest_shrinks, bodies_of_nil}
use yes_you_can.IsoTp.Receiver.{handle_frame, handle_frames, accept_chunk, take_chunk, note_frame}
use yes_you_can.IsoTp.Receiver.Reassembly.{
  Linked, deliveries, deliveries-append, Receiving, carrying, handle_frame-carrying,
  handle_body-consecutive, take_chunk-facts,
}
use yes_you_can.IsoTp.Receiver.Accept.{accept_last, accept_more, Receiving-SameReception}

-- The frames of a list of payloads on the wire; the k-th arrives at `times k`.
abbrev pub arrivals : CanFrame → (ℕ → ℕ) → ℕ → List Bytes → List (ℕ × CanFrame)
arrivals template times k [] = []
arrivals template times k (wire ∷ more) =
    (times k, carrying template wire) ∷ arrivals template times (suc k) more

pub note_frame_keeps :
    (now : ℕ) (frame : CanFrame) (c : Connection)
    → ((note_frame now frame c).rx_state ≡ c.rx_state)
      × ((note_frame now frame c).pending ≡ c.pending)
unfolding note_frame record_witness
note_frame_keeps now frame c = (refl, refl)

nil_of_length : (xs : Bytes) → length xs ≡ 0 → xs ≡ []
nil_of_length [] h = refl
nil_of_length (x ∷ xs) h = absurd (omega arith)

abbrev pub one_delivery : Option ℕ → Bytes → List (Option ℕ × Bytes)
one_delivery owner payload = (owner, payload) ∷ []

-- A step that delivers `payload` to `owner`, once, and leaves no reception and no request open.
pub record Delivers (owner : Option ℕ) (payload : Bytes) (step : Step) : Type 0 where
  pub given : deliveries step.1 ≡ one_delivery owner payload
  pub idle : step.0.pending ≡ none
  pub finished : step.0.rx_state ≡ none

-- One Consecutive Frame of the sender, for a reception that waits for it.
module _ (p o : IsoTpOptions) (l : Linked p o) (capable : 1 < frame_payload_capacity p) (now : ℕ)
    (template : CanFrame) (c : Connection) (got rest : Bytes) (sequence : ℕ) (small : sequence < 16)
    (owner : Option ℕ) (r : Receiving c got rest sequence owner) where
  chunk : Bytes
  chunk = take (chunk_length (frame_payload_capacity p) rest) rest

  body : Bytes
  unfolding chunk
  body = (0x20 + sequence) ∷ (chunk ++ fill p ((0x20 + sequence) ∷ chunk))

  after_frame : Connection
  unfolding body
  after_frame = note_frame now (carrying template (with_address p body)) c

  same_body : padded p (consecutive_body (frame_payload_capacity p) sequence rest) ≡ body
  unfolding consecutive_body body
  same_body =
      let number : sequence % 16 ≡ sequence = omega arith in
      rw number (padded-fill p ((0x20 + sequence) ∷ chunk))

  state' : RxState
  unfolding body
  state' = take_chunk now body r.state

  one_frame :
      handle_frame o now
        (carrying template
          (with_address p (padded p (consecutive_body (frame_payload_capacity p) sequence rest))))
        c
      ≡ accept_chunk o now state' after_frame
  unfolding state' after_frame
  one_frame =
      ap (λ b. handle_frame o now (carrying template (with_address p b)) c) same_body
      ∙ handle_frame-carrying p o now template c (0x20 + sequence)
          (chunk ++ fill p ((0x20 + sequence) ∷ chunk)) l
      ∙ handle_body-consecutive o now sequence (chunk ++ fill p ((0x20 + sequence) ∷ chunk))
          after_frame r.state small ((note_frame_keeps now _ c).0 ∙ r.active) r.numbered

  state'-facts :
      (state'.expected_length ≡ length got + length rest)
      × (concat_bytes state'.chunks ≡ got ++ chunk)
      × (state'.received ≡ length got + length chunk)
      × (state'.next_sequence ≡ (sequence + 1) % 16)
  unfolding state' take_chunk
  state'-facts =
      let facts =
        take_chunk-facts p now (0x20 + sequence) rest got r.state capable r.expects r.holds
          r.counted in
      (r.expects, facts.0, facts.1, ap (λ (n : ℕ). (n + 1) % 16) r.numbered)

  remainder : Bytes
  remainder = drop (chunk_length (frame_payload_capacity p) rest) rest

  split : chunk ++ remainder ≡ rest
  unfolding chunk remainder
  split = take-append-drop (chunk_length (frame_payload_capacity p) rest) rest

  split_length : length chunk + length remainder ≡ length rest
  split_length = sym (length-append chunk remainder) ∙ ap length split

  owner_kept : after_frame.pending ≡ owner
  unfolding after_frame
  owner_kept = (note_frame_keeps now _ c).1 ∙ r.owned

  whole : length remainder ≡ 0 → got ++ chunk ≡ got ++ rest
  whole h =
      ap (λ t. got ++ t)
        (sym (append-nil chunk) ∙ ap (λ t. chunk ++ t) (sym (nil_of_length remainder h)) ∙ split)

  next_frame :
      0 < length remainder
      → let step =
          handle_frame o now
            (carrying template (
              with_address p
                (padded p (consecutive_body (frame_payload_capacity p) sequence rest))))
            c in
        (deliveries step.1 ≡ [])
        × Receiving step.0 (got ++ chunk) remainder ((sequence + 1) % 16) owner
  next_frame h =
      let (expects, holds, counted, numbered) = state'-facts in
      let (quiet, kept, same) =
        accept_more o now state' after_frame (omega (arith, split_length)) in
      rw one_frame (
        quiet,
        Receiving-SameReception state' _ _ (got ++ chunk) remainder ((sequence + 1) % 16) same refl
            (kept ∙ owner_kept) (omega (arith, split_length, length-append got chunk)) holds
            (omega (arith, length-append got chunk)) numbered,
      )

  last_frame :
      length remainder ≡ 0
      → let step =
          handle_frame o now
            (carrying template (
              with_address p
                (padded p (consecutive_body (frame_payload_capacity p) sequence rest))))
            c in
        (deliveries step.1 ≡ (owner, got ++ rest) ∷ [])
        × (step.0.pending ≡ none)
        × (step.0.rx_state ≡ none)
  last_frame h =
      let (expects, holds, counted, numbered) = state'-facts in
      let (given, idle, closed) =
        accept_last o now state' after_frame (omega (arith, split_length)) in
      rw one_frame (given ∙ same_delivery expects holds, idle, closed)
    where
      same_delivery :
          state'.expected_length ≡ length got + length rest
          → concat_bytes state'.chunks ≡ got ++ chunk
          → one_delivery after_frame.pending
              (take state'.expected_length (concat_bytes state'.chunks))
            ≡ one_delivery owner (got ++ rest)
      same_delivery expects holds = ap₂ one_delivery owner_kept (
          ap (take state'.expected_length) (holds ∙ whole h)
          ∙ take_all state'.expected_length (got ++ rest) (omega (arith, length-append got rest)))

module _ (p o : IsoTpOptions) (l : Linked p o) (capable : 1 < frame_payload_capacity p)
    (template : CanFrame) (times : ℕ → ℕ) (owner : Option ℕ) where
  pub Delivers-more :
      (first : Step) (k : ℕ) (got chunk left rest : Bytes) (bodies : List Bytes)
      → deliveries first.1 ≡ []
      → chunk ++ left ≡ rest
      → Delivers owner
          ((got ++ chunk) ++ left)
          (handle_frames o (arrivals template times k (wires p bodies)) first.0)
      → Delivers owner
          (got ++ rest)
          (first then_do handle_frames o (arrivals template times k (wires p bodies)))
  Delivers-more first k got chunk left rest bodies quiet split d = record {
    given =
        deliveries-append first.1 _
        ∙ ap
            (λ t.
              t
              ++ deliveries
                  (handle_frames o (arrivals template times k (wires p bodies)) first.0).1)
            quiet
        ∙ d.given
        ∙ ap (one_delivery owner) (append_assoc got chunk left ∙ ap (λ t. got ++ t) split);
    idle = d.idle;
    finished = d.finished;
  }

  Delivers-last :
      (first : Step) (fuel k sequence : ℕ) (left payload : Bytes)
      → length left ≡ 0
      → Delivers owner payload first
      → Delivers owner payload (
          first
          then_do handle_frames o (
              arrivals template times k
                (wires p (consecutive_bodies fuel (frame_payload_capacity p) sequence left))))
  unfolding handle_frames deliveries
  Delivers-last first fuel k sequence left payload h d = rw (nil_of_length left h) (
      rw (bodies_of_nil fuel (frame_payload_capacity p) sequence) (record {
        given = deliveries-append first.1 [] ∙ append-nil (deliveries first.1) ∙ d.given;
        idle = d.idle;
        finished = d.finished;
      }))

  pub message_frames :
      (fuel k : ℕ) (c : Connection) (got rest : Bytes) (sequence : ℕ)
      → sequence < 16
      → Receiving c got rest sequence owner
      → length rest ≤ fuel
      → 0 < length rest
      → Delivers owner (got ++ rest) (
          handle_frames o
            (arrivals template times k
              (wires p (consecutive_bodies fuel (frame_payload_capacity p) sequence rest)))
            c)
  unfolding consecutive_bodies handle_frames remainder frame_payload_capacity chunk
  message_frames fuel k c got [] sequence small r f h = absurd (omega arith)
  message_frames zero k c got (b ∷ bs) sequence small r f h = absurd (omega arith)
  message_frames (suc fuel) k c got (b ∷ bs) sequence small r f h =
      let n = chunk_length (frame_payload_capacity p) (b ∷ bs) in
      let left = drop n (b ∷ bs) in
      let shorter = rest_shrinks (frame_payload_capacity p) (b ∷ bs) capable refl in
      elim (Bool-cases (length left == 0)) [
        | inl none_left ↦
            let gone : length left ≡ 0 = (==_iff (length left) 0).0 none_left in
            let (given, idle, finished) =
              last_frame p o l capable (times k) template c got (b ∷ bs) sequence small owner r
                gone in
            Delivers-last _ fuel (suc k) ((sequence + 1) % 16) left (got ++ b ∷ bs) gone
              (record { given = given; idle = idle; finished = finished })
        | inr some_left ↦
            let more : 0 < length left = ground arith in
            let (quiet, next) =
              next_frame p o l capable (times k) template c got (b ∷ bs) sequence small owner r
                more in
            Delivers-more _ (suc k) got (take n (b ∷ bs)) left (b ∷ bs)
              (consecutive_bodies fuel (frame_payload_capacity p) ((sequence + 1) % 16) left) quiet
              (take-append-drop n (b ∷ bs))
              (message_frames fuel (suc k) _ (got ++ take n (b ∷ bs)) left ((sequence + 1) % 16)
                (omega arith) next (omega arith) more)
      ]
