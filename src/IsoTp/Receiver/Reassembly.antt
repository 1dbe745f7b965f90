-- ===== src/IsoTp/Receiver/Reassembly.antt =====
-- The receiver puts a segmented message together: each Consecutive Frame of the sender takes it one
-- step further, and the last one delivers the payload.
use yes_you_can.Prelude.{
  ℕ, suc, ◌+◌, ◌-◌, ◌*◌, ◌/◌, ◌%◌, ◌<◌, min, ◌≡◌, refl, sym, ap, ◌∙◌, ◌⊎◌, true, Option, none, some,
  List, [], ◌∷◌, ◌++◌, append_assoc, append-nil, arith, leb, ◌==◌, if◌then◌else◌, get_some_or,
  length, take, length-append, length-take, take-append,
}
use yes_you_can.Bytes.{Bytes, concat_bytes}
use yes_you_can.Can.{CanFrame}
use yes_you_can.IsoTp.Options.{
  IsoTpOptions, Addressing, normal, extended, mtu, fill, with_address, overhead_of,
  frame_payload_capacity,
}
use yes_you_can.IsoTp.Segment.{chunk_length}
use yes_you_can.IsoTp.Connection.{Connection, RxState, Effect, resolve, unsolicited}
use yes_you_can.IsoTp.Receiver.{
  strip_address, handle_stripped, handle_frame, continue_reception, handle_body, accept_chunk,
  take_chunk, consecutive_chunk, note_frame,
}

-- The two ends of a link: `p` sends what `o` receives.
pub record Linked (p o : IsoTpOptions) : Type 0 where
  pub same_addressing : p.addressing ≡ o.addressing
  pub same_mtu : mtu p ≡ mtu o
  pub address :
      (o.source_address ≡ none)
      ⊎ (o.source_address ≡ some (get_some_or p.target_address 0x00 % 256))

-- What the callers and the listeners get: the request's id, or none for a listener.
unfoldable pub deliveries : List Effect → List (Option ℕ × Bytes)
deliveries [] = []
deliveries (resolve id payload ∷ es) = (some id, payload) ∷ deliveries es
deliveries (unsolicited payload ∷ es) = (none, payload) ∷ deliveries es
deliveries (e ∷ es) = deliveries es

pub deliveries-append :
    (xs ys : List Effect) → deliveries (xs ++ ys) ≡ deliveries xs ++ deliveries ys
unfolding deliveries
deliveries-append [] ys = refl
deliveries-append (resolve id payload ∷ xs) ys =
    ap (λ t. (some id, payload) ∷ t) (deliveries-append xs ys)
deliveries-append (unsolicited payload ∷ xs) ys =
    ap (λ t. (none, payload) ∷ t) (deliveries-append xs ys)
deliveries-append (_ ∷ xs) ys = deliveries-append xs ys

strip_extended :
    (source : Option ℕ) (a b : ℕ) (bs : Bytes)
    → (source ≡ none) ⊎ (source ≡ some a)
    → strip_address extended source (a ∷ b ∷ bs) ≡ some (b ∷ bs)
unfolding strip_address
strip_extended source a b bs h = ground arith

strip_with :
    (addressing : Addressing) (p o : IsoTpOptions) (b : ℕ) (bs : Bytes)
    → p.addressing ≡ addressing
    → Linked p o
    → strip_address addressing o.source_address (with_address p (b ∷ bs)) ≡ some (b ∷ bs)
unfolding with_address
strip_with normal p o b bs e l = rw e (unfold strip_address in refl)
strip_with extended p o b bs e l = rw e (strip_extended o.source_address _ b bs l.address)

-- The receiver sees the padded body that the sender built.
pub strip-with_address :
    (p o : IsoTpOptions) (b : ℕ) (bs : Bytes)
    → Linked p o
    → strip_address o.addressing o.source_address (with_address p (b ∷ bs)) ≡ some (b ∷ bs)
strip-with_address p o b bs l = strip_with o.addressing p o b bs l.same_addressing l

pub same_capacity :
    (p o : IsoTpOptions) → Linked p o → frame_payload_capacity p ≡ frame_payload_capacity o
unfolding frame_payload_capacity
same_capacity p o l = rw (l.same_addressing, l.same_mtu)

-- A body that fills its frame is not padded.
pub fill_full :
    (p : IsoTpOptions) (body : Bytes) → length body ≡ frame_payload_capacity p → fill p body ≡ []
unfolding frame_payload_capacity
fill_full p body h =
    let none_left : (if p.padding then mtu p - overhead_of p.addressing else length body)
          - length body
        ≡ 0 =
      ground arith in
    rw none_left

-- A reception in progress: `got` is in, `rest` is to come, `owner` waits for it.
pub record Receiving (c : Connection) (got rest : Bytes) (sequence : ℕ) (owner : Option ℕ)
    : Type 0 where
  pub state : RxState
  pub active : c.rx_state ≡ some state
  pub expects : state.expected_length ≡ length got + length rest
  pub holds : concat_bytes state.chunks ≡ got
  pub counted : state.received ≡ length got
  pub numbered : state.next_sequence ≡ sequence
  pub owned : c.pending ≡ owner

-- The frame on the wire, as any frame with that payload.
abbrev pub carrying : CanFrame → Bytes → CanFrame
carrying template wire = record template { payload = wire }

-- A frame of the sender goes to `handle_body` as the sender built it.
pub handle_frame-carrying :
    (p o : IsoTpOptions) (now : ℕ) (template : CanFrame) (c : Connection) (b : ℕ) (bs : Bytes)
    → Linked p o
    → let frame = carrying template (with_address p (b ∷ bs)) in
      handle_frame o now frame c ≡ handle_body o now (b ∷ bs) (note_frame now frame c)
unfolding handle_frame
handle_frame-carrying p o now template c b bs l =
    ap
      (λ t.
        handle_stripped o now t (note_frame now (carrying template (with_address p (b ∷ bs))) c))
      (strip-with_address p o b bs l)

handle_body-continue :
    (o : IsoTpOptions) (now sequence : ℕ) (chunk : Bytes) (c : Connection)
    → sequence < 16
    → handle_body o now ((0x20 + sequence) ∷ chunk) c
      ≡ continue_reception o now ((0x20 + sequence) ∷ chunk) c.rx_state c
unfolding handle_body
handle_body-continue o now sequence chunk c h =
    let tag : (0x20 + sequence) / 16 * 16 ≡ 0x20 = omega arith in rw tag refl

continue_reception-accept :
    (o : IsoTpOptions) (now sequence : ℕ) (chunk : Bytes) (c : Connection) (state : RxState)
    → sequence < 16
    → state.next_sequence ≡ sequence
    → continue_reception o now ((0x20 + sequence) ∷ chunk) (some state) c
      ≡ accept_chunk o now (take_chunk now ((0x20 + sequence) ∷ chunk) state) c
unfolding continue_reception
continue_reception-accept o now sequence chunk c state h e =
    let number : (((0x20 + sequence) % 16) == state.next_sequence) ≡ true = ground arith in
    rw number refl

-- A Consecutive Frame with the expected number is taken to `accept_chunk`.
pub handle_body-consecutive :
    (o : IsoTpOptions) (now sequence : ℕ) (chunk : Bytes) (c : Connection) (state : RxState)
    → sequence < 16
    → c.rx_state ≡ some state
    → state.next_sequence ≡ sequence
    → handle_body o now ((0x20 + sequence) ∷ chunk) c
      ≡ accept_chunk o now (take_chunk now ((0x20 + sequence) ∷ chunk) state) c
handle_body-consecutive o now sequence chunk c state h active numbered =
    handle_body-continue o now sequence chunk c h
    ∙ ap (λ rx. continue_reception o now ((0x20 + sequence) ∷ chunk) rx c) active
    ∙ continue_reception-accept o now sequence chunk c state h numbered

flatten-snoc :
    (chunks : List Bytes) (chunk : Bytes)
    → concat_bytes (chunks ++ (chunk ∷ [])) ≡ concat_bytes chunks ++ chunk
flatten-snoc [] chunk = append-nil chunk
flatten-snoc (x ∷ xs) chunk =
    ap (λ t. x ++ t) (flatten-snoc xs chunk) ∙ sym (append_assoc x (concat_bytes xs) chunk)

chunk_kept :
    (chunk filler : Bytes) (capacity expected received remaining : ℕ)
    → length chunk ≡ min (capacity - 1) remaining
    → (length chunk ≡ capacity - 1 → length filler ≡ 0)
    → expected ≡ received + remaining
    → take (min (expected - received) (suc (length (chunk ++ filler)) - 1)) (chunk ++ filler)
      ≡ chunk
chunk_kept chunk filler capacity expected received remaining cut full e =
    take-append chunk filler (min (expected - received) (suc (length (chunk ++ filler)) - 1))
      (ground (arith, length-append chunk filler))

length-chunk :
    (capacity : ℕ) (rest : Bytes)
    → length (take (chunk_length capacity rest) rest) ≡ min (capacity - 1) (length rest)
length-chunk capacity rest = omega (arith, length-take (chunk_length capacity rest) rest)

-- The chunk that the receiver cuts out of a padded body is the one that the sender put in.
consecutive_chunk-padded :
    (p : IsoTpOptions) (expected received sequence : ℕ) (rest : Bytes)
    → 1 < frame_payload_capacity p
    → expected ≡ received + length rest
    → let chunk = take (chunk_length (frame_payload_capacity p) rest) rest in
      consecutive_chunk expected received (sequence ∷ (chunk ++ fill p (sequence ∷ chunk))) ≡ chunk
unfolding consecutive_chunk
consecutive_chunk-padded p expected received sequence rest c e =
    let open' : leb received expected ≡ true = ground arith in
    rw open' (
      chunk_kept chunk (fill p (sequence ∷ chunk)) (frame_payload_capacity p) expected received
        (length rest) (length-chunk (frame_payload_capacity p) rest)
        (λ h. ap length (fill_full p (sequence ∷ chunk) (omega arith))) e)
  where
    chunk : Bytes
    chunk = take (chunk_length (frame_payload_capacity p) rest) rest

-- The state behind one frame: more of the message is in, and the rest has shrunk by as much.
pub take_chunk-facts :
    (p : IsoTpOptions) (now sequence : ℕ) (rest got : Bytes) (state : RxState)
    → 1 < frame_payload_capacity p
    → state.expected_length ≡ length got + length rest
    → concat_bytes state.chunks ≡ got
    → state.received ≡ length got
    → let chunk = take (chunk_length (frame_payload_capacity p) rest) rest in
      let state' = take_chunk now (sequence ∷ (chunk ++ fill p (sequence ∷ chunk))) state in
      (concat_bytes state'.chunks ≡ got ++ chunk) × (state'.received ≡ length got + length chunk)
unfolding take_chunk
take_chunk-facts p now sequence rest got state c expects holds counted =
    (flatten-snoc state.chunks _ ∙ rw (holds, same) refl, rw (same, counted) refl)
  where
    chunk : Bytes
    chunk = take (chunk_length (frame_payload_capacity p) rest) rest

    same :
        consecutive_chunk state.expected_length state.received
          (sequence ∷ (chunk ++ fill p (sequence ∷ chunk)))
        ≡ chunk
    same =
        consecutive_chunk-padded p state.expected_length state.received sequence rest c
          (omega arith)
