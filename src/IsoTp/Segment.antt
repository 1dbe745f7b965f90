-- ===== src/IsoTp/Segment.antt =====
-- packages/transport/iso-tp/src/connection.ts: the bodies of the frames that carry a payload.
use yes_you_can.Prelude.{
  ℕ, zero, suc, ◌+◌, ◌-◌, ◌*◌, ◌/◌, ◌%◌, ◌≤◌, ◌<◌, min, ◌≡◌, sym, ◌∙◌, inl, inr, Bool, not, ◌&&◌,
  List, [], ◌∷◌, ◌++◌, arith, ltb, leb, if◌then◌else◌, leb→le, Bool-cases, length, take, drop,
  length-drop,
}
use yes_you_can.Bytes.{Bytes}
use yes_you_can.IsoTp.Params.{single_type, first_type, consecutive_type}
use yes_you_can.IsoTp.Options.{
  IsoTpOptions, frame_payload_capacity, single_frame_capacity, capacity_cases,
}
use native.Mathlib.Nat.{div-eq-sub-div, div-eq_of_lt}

-- The body that `sendSingleFrame` builds; the sum with the length nibble is the source's `|`.
unfoldable pub single_frame_header : ℕ → Bytes
single_frame_header n = if ltb 7 n then single_type ∷ n ∷ [] else (single_type + n % 16) ∷ []

unfoldable pub single_frame_fits : IsoTpOptions → Bytes → Bool
single_frame_fits o payload =
    not (ltb 7 (length payload) && ltb (frame_payload_capacity o - 2) (length payload))

unfoldable pub single_frame_body : Bytes → Bytes
unfolding single_frame_header
single_frame_body payload = single_frame_header (length payload) ++ payload

unfoldable pub first_frame_header : ℕ → Bytes
first_frame_header n =
    if ltb 0xfff n
    then first_type
      ∷ 0x00
      ∷ (n / 16777216 % 256)
      ∷ (n / 65536 % 256)
      ∷ (n / 256 % 256)
      ∷ (n % 256)
      ∷ []
    else (first_type + n / 256 % 16) ∷ (n % 256) ∷ []

unfoldable pub first_chunk_length : ℕ → ℕ → ℕ
unfolding first_frame_header
first_chunk_length capacity n = min (capacity - length (first_frame_header n)) n

unfoldable pub first_frame_body : ℕ → Bytes → Bytes
unfolding first_chunk_length
first_frame_body capacity payload =
    first_frame_header (length payload)
    ++ take (first_chunk_length capacity (length payload)) payload

-- `chunkLength` of one Consecutive Frame; `rest` is the payload from `offset` on.
abbrev pub chunk_length : ℕ → Bytes → ℕ
chunk_length capacity rest = min (capacity - 1) (length rest)

unfoldable pub consecutive_body : ℕ → ℕ → Bytes → Bytes
consecutive_body capacity sequence rest =
    (consecutive_type + sequence % 16) ∷ take (chunk_length capacity rest) rest

-- The bodies of all Consecutive Frames for `rest`, as ISO 15765-2 cuts them, without the flow
-- control between them.
unfoldable pub consecutive_bodies : ℕ → ℕ → ℕ → Bytes → List Bytes
unfolding consecutive_body
consecutive_bodies zero capacity sequence rest = []
consecutive_bodies (suc fuel) capacity sequence [] = []
consecutive_bodies (suc fuel) capacity sequence (b ∷ bs) =
    consecutive_body capacity sequence (b ∷ bs)
    ∷ consecutive_bodies fuel capacity ((sequence + 1) % 16)
        (drop (chunk_length capacity (b ∷ bs)) (b ∷ bs))

-- The whole segmented message.
unfoldable pub segments : ℕ → Bytes → List Bytes
unfolding first_frame_body consecutive_bodies
segments capacity payload =
    let rest = drop (first_chunk_length capacity (length payload)) payload in
    first_frame_body capacity payload ∷ consecutive_bodies (length rest) capacity 1 rest

-- `Math.ceil(a / b)`
abbrev pub ceil_div : ℕ → ℕ → ℕ
ceil_div a b = (a + (b - 1)) / b

unfoldable pub frame_count_for : IsoTpOptions → ℕ → ℕ
frame_count_for o n =
    let consecutive_capacity = frame_payload_capacity o - 1 in
    let first_chunk = frame_payload_capacity o - 2 in
    if leb n (single_frame_capacity o)
    then 1
    else 1 + ceil_div (n - first_chunk) consecutive_capacity

zero-ceil_div : (c : ℕ) → 0 < c → ceil_div 0 c ≡ 0
zero-ceil_div c k = div-eq_of_lt (omega arith)

ceil_div_step : (n c : ℕ) → 0 < n → 0 < c → ceil_div n c ≡ suc (ceil_div (n - min c n) c)
ceil_div_step n c h k =
    let less : (n + (c - 1)) / c ≡ (n + (c - 1) - c) / c + 1 = div-eq-sub-div k (omega arith) in
    elim (Bool-cases (leb c n)) [
      | inl e ↦
          let le : c ≤ n = leb→le c n e in
          let same : n + (c - 1) - c ≡ n - min c n + (c - 1) = omega arith in
          rw less (rw same (omega arith))
      | inr e ↦
          let lt : n < c = ground arith in
          let small : (n + (c - 1) - c) / c ≡ 0 = div-eq_of_lt (omega arith) in
          let gone : n - min c n ≡ 0 = omega arith in
          rw less (rw (small, gone) (rw (zero-ceil_div c k)))
    ]

length-consecutive_bodies :
    (fuel capacity sequence : ℕ) (rest : Bytes)
    → 1 < capacity
    → length rest ≤ fuel
    → length (consecutive_bodies fuel capacity sequence rest)
      ≡ ceil_div (length rest) (capacity - 1)
unfolding consecutive_bodies
length-consecutive_bodies zero capacity sequence [] c h =
    sym (zero-ceil_div (capacity - 1) (omega arith))
length-consecutive_bodies zero capacity sequence (b ∷ bs) c h = absurd (omega arith)
length-consecutive_bodies (suc fuel) capacity sequence [] c h =
    sym (zero-ceil_div (capacity - 1) (omega arith))
length-consecutive_bodies (suc fuel) capacity sequence (b ∷ bs) c h =
    let more = drop (chunk_length capacity (b ∷ bs)) (b ∷ bs) in
    let left : length more ≡ length (b ∷ bs) - chunk_length capacity (b ∷ bs) =
      length-drop (chunk_length capacity (b ∷ bs)) (b ∷ bs) in
    rw (length-consecutive_bodies fuel capacity ((sequence + 1) % 16) more c (omega (arith, left)))
      (rw left (sym (ceil_div_step (length (b ∷ bs)) (capacity - 1) (omega arith) (omega arith))))

first_chunk_length_short :
    (capacity n : ℕ) → n ≤ 0xfff → capacity - 2 ≤ n → first_chunk_length capacity n ≡ capacity - 2
unfolding first_chunk_length
first_chunk_length_short capacity n h k = ground arith

pub capacity_bounds :
    (o : IsoTpOptions)
    → (7 ≤ frame_payload_capacity o) × (frame_payload_capacity o - 2 ≤ single_frame_capacity o)
unfolding single_frame_capacity
capacity_bounds o = ground (arith, capacity_cases o)

frame_count_for_long :
    (o : IsoTpOptions) (n : ℕ)
    → single_frame_capacity o < n
    → frame_count_for o n
      ≡ 1 + ceil_div (n - (frame_payload_capacity o - 2)) (frame_payload_capacity o - 1)
unfolding frame_count_for
frame_count_for_long o n h = ground arith

length-segments :
    (capacity : ℕ) (payload : Bytes)
    → 1 < capacity
    → length (segments capacity payload)
      ≡ suc
          (ceil_div (length payload - first_chunk_length capacity (length payload)) (capacity - 1))
unfolding segments
length-segments capacity payload h =
    let rest = drop (first_chunk_length capacity (length payload)) payload in
    rw (length-consecutive_bodies (length rest) capacity 1 rest h (omega arith))
      (rw (length-drop (first_chunk_length capacity (length payload)) payload))

-- `frameCountFor` is the number of frames that a payload of at most 4095 bytes is sent in, if it
-- does not fit a Single Frame.
pub frame_count_for-segments :
    (o : IsoTpOptions) (payload : Bytes)
    → single_frame_capacity o < length payload
    → length payload ≤ 0xfff
    → frame_count_for o (length payload) ≡ length (segments (frame_payload_capacity o) payload)
frame_count_for-segments o payload h k =
    let (seven, below) = capacity_bounds o in
    frame_count_for_long o (length payload) h
    ∙ rw (length-segments (frame_payload_capacity o) payload (omega arith)) (
        rw (first_chunk_length_short (frame_payload_capacity o) (length payload) k (omega arith))
          (omega arith))

first_chunk_length_long : (n : ℕ) → 0xfff < n → first_chunk_length 64 n ≡ 58
unfolding first_chunk_length
first_chunk_length_long n h = ground arith

-- On CAN FD a payload above 4095 bytes has the longer First Frame header, which `frameCountFor`
-- does not count: it is one frame short whenever the last four bytes need a frame of their own.
pub frame_count_for_short :
    (o : IsoTpOptions) (payload : Bytes) (k : ℕ)
    → frame_payload_capacity o ≡ 64
    → 0xfff < length payload
    → length payload ≡ 62 + 63 * k
    → frame_count_for o (length payload) + 1 ≡ length (segments (frame_payload_capacity o) payload)
unfolding single_frame_capacity
frame_count_for_short o payload k e h n =
    let counted = frame_count_for_long o (length payload) (ground arith) in
    rw counted (
      rw (length-segments (frame_payload_capacity o) payload (omega arith))
        (rw e (rw (first_chunk_length_long (length payload) h) (omega arith))))
