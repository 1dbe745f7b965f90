-- ===== src/IsoTp/Options.antt =====
-- packages/transport/iso-tp/src/params.ts, connection.ts: the options of a connection, what a
-- frame can carry, padding and the frame that is handed to the bus.
use yes_you_can.Prelude.{
  ℕ, ◌-◌, ◌%◌, ◌≤◌, min, ◌≡◌, refl, sym, ◌⊎◌, inl, inr, Bool, ◌&&◌, Option, none, some, [], ◌∷◌,
  ◌++◌, append-nil, arith, ltb, leb, if◌then◌else◌, leb→le, Bool-cases, get_some_or, length,
  replicate,
}
use yes_you_can.Bytes.{Bytes}
use yes_you_can.Text.{Text}
use yes_you_can.Can.{CanFrame, create_frame, tx}
use yes_you_can.IsoTp.Params.{IsoTpTiming, default_max_receive_bytes}

pub data Addressing : Type 0 where
  normal extended : Addressing

-- `IsoTpOptions`, with `bus.capabilities.canFd` and `bus.info.channels[0] ?? "can0"` of the bus that
-- the connection is made for. `timing` is the merged record of the constructor.
pub record IsoTpOptions : Type 0 where
  pub tx_id : ℕ
  pub rx_id : ℕ
  pub extended_id : Option Bool
  pub addressing : Addressing
  pub target_address : Option ℕ
  pub source_address : Option ℕ
  pub padding : Bool
  pub pad_byte : Option ℕ
  pub fd : Bool
  pub bus_can_fd : Bool
  pub channel : Option Text
  pub bus_channel : Text
  pub timing : IsoTpTiming
  pub max_receive : Option ℕ

unfoldable pub mtu : IsoTpOptions → ℕ
mtu o = if o.fd && o.bus_can_fd then 64 else 8

unfoldable pub max_receive_bytes : IsoTpOptions → ℕ
max_receive_bytes o = get_some_or o.max_receive default_max_receive_bytes

abbrev pub overhead_of : Addressing → ℕ
overhead_of normal = 0
overhead_of extended = 1

-- Also the `addressingOverhead` of `padded`.
abbrev pub addressing_overhead : IsoTpOptions → ℕ
addressing_overhead o = overhead_of o.addressing

unfoldable pub frame_payload_capacity : IsoTpOptions → ℕ
unfolding mtu
frame_payload_capacity o = mtu o - addressing_overhead o

unfoldable pub single_frame_capacity : IsoTpOptions → ℕ
single_frame_capacity o =
    let capacity = frame_payload_capacity o in
    if ltb 8 capacity then capacity - 2 else min (capacity - 1) 7

unfoldable pub padded : IsoTpOptions → Bytes → Bytes
padded o body =
    let target = if o.padding then mtu o - addressing_overhead o else length body in
    if leb target (length body)
    then body
    else body ++ replicate (target - length body) (get_some_or o.pad_byte 0xaa % 256)

abbrev with_address_of : Addressing → Option ℕ → Bytes → Bytes
with_address_of normal target body = body
with_address_of extended target body = get_some_or target 0x00 % 256 ∷ body

-- `withAddress` of `writeFrame`; a `Uint8Array` keeps its elements modulo 256, here and in `padded`.
unfoldable pub with_address : IsoTpOptions → Bytes → Bytes
with_address o body = with_address_of o.addressing o.target_address body

-- The frame that `writeFrame` hands to the bus at the time `now`.
unfoldable pub frame_of : IsoTpOptions → ℕ → Bytes → CanFrame
frame_of o now body = create_frame now o.tx_id (with_address o body) (record {
  extended = some (get_some_or o.extended_id (ltb 0x7ff o.tx_id));
  fd = some o.fd;
  channel = some (get_some_or o.channel o.bus_channel);
  timestamp = some now;
  direction = some tx;
  brs = none;
  dlc = none;
})

-- The four shapes of a link: classic CAN or CAN FD, with or without an address byte.
pub capacity_cases :
    (o : IsoTpOptions)
    → (frame_payload_capacity o ≡ 7)
      ⊎ (frame_payload_capacity o ≡ 8)
      ⊎ (frame_payload_capacity o ≡ 63)
      ⊎ (frame_payload_capacity o ≡ 64)
unfolding frame_payload_capacity
capacity_cases o = ground arith

-- What padding adds behind a body.
abbrev pub fill : IsoTpOptions → Bytes → Bytes
fill o body =
    replicate ((if o.padding then mtu o - addressing_overhead o else length body) - length body)
      (get_some_or o.pad_byte 0xaa % 256)

fill_short :
    (target : ℕ) (body : Bytes) (b : ℕ)
    → target ≤ length body
    → replicate (target - length body) b ≡ []
fill_short target body b h = let none_left : target - length body ≡ 0 = omega arith in rw none_left

pub padded-fill : (o : IsoTpOptions) (body : Bytes) → padded o body ≡ body ++ fill o body
unfolding padded
padded-fill o body =
    let target = if o.padding then mtu o - addressing_overhead o else length body in
    elim (Bool-cases (leb target (length body))) [
      | inl e ↦ rw e (
          rw (fill_short target body (get_some_or o.pad_byte 0xaa % 256) (leb→le _ _ e))
            (sym (append-nil body)))
      | inr e ↦ rw e refl
    ]
