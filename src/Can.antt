-- ===== src/Can.antt =====
-- packages/transport/can/src/frame.ts: CAN frames, acceptance filters and the data length code.
pub mod Dlc
use yes_you_can.Prelude.{
  ℕ, ◌+◌, ◌-◌, Bool, true, false, not, ◌&&◌, ◌||◌, List, [], ◌∷◌, Option, none, some, ltb, leb,
  ◌==◌, if◌then◌else◌, get_some_or, length, get_or, min,
}
use yes_you_can.Bytes.{Bytes}
use yes_you_can.Text.{Text, codes}
use Prim.Native.Nat.{bit_and}

pub data Direction : Type 0 where
  tx rx : Direction

pub record CanFrame : Type 0 where
  pub timestamp : ℕ
  pub id : ℕ
  pub extended : Bool
  pub fd : Bool
  pub dlc : ℕ
  pub payload : Bytes
  pub channel : Text
  pub direction : Option Direction
  pub brs : Option Bool

pub record CanFilter : Type 0 where
  pub id : ℕ
  pub mask : ℕ
  pub extended : Option Bool

abbrev same_bool : Bool → Bool → Bool
same_bool true b = b
same_bool false b = not b

-- The callback of `filters.some`.
unfoldable pub filter_accepts : CanFrame → CanFilter → Bool
filter_accepts frame f = elim f.extended [
  | none ↦ bit_and frame.id f.mask == bit_and f.id f.mask
  | some e ↦ same_bool e frame.extended && (bit_and frame.id f.mask == bit_and f.id f.mask)
]

unfoldable pub any_filter_accepts : CanFrame → List CanFilter → Bool
unfolding filter_accepts
any_filter_accepts frame [] = false
any_filter_accepts frame (f ∷ fs) = filter_accepts frame f || any_filter_accepts frame fs

unfoldable pub frame_matches_filters : CanFrame → List CanFilter → Bool
unfolding any_filter_accepts
frame_matches_filters frame [] = true
frame_matches_filters frame (f ∷ fs) = any_filter_accepts frame (f ∷ fs)

abbrev pub can_max_dlc : ℕ
can_max_dlc = 8

abbrev pub fd_lengths : List ℕ
fd_lengths = 0 ∷ 1 ∷ 2 ∷ 3 ∷ 4 ∷ 5 ∷ 6 ∷ 7 ∷ 8 ∷ 12 ∷ 16 ∷ 20 ∷ 24 ∷ 32 ∷ 48 ∷ 64 ∷ []

unfoldable pub dlc_to_length : ℕ → Bool → ℕ
dlc_to_length dlc false = min dlc can_max_dlc
dlc_to_length dlc true = get_or fd_lengths (min dlc (length fd_lengths - 1)) can_max_dlc

-- The loop of `lengthToDlc`, over the rest of the table from index `dlc` on.
unfoldable pub length_to_dlc_from : List ℕ → ℕ → ℕ → ℕ
length_to_dlc_from [] dlc n = length fd_lengths - 1
length_to_dlc_from (l ∷ ls) dlc n = if leb n l then dlc else length_to_dlc_from ls (dlc + 1) n

unfoldable pub length_to_dlc : ℕ → Bool → ℕ
unfolding length_to_dlc_from
length_to_dlc n false = min n can_max_dlc
length_to_dlc n true = length_to_dlc_from fd_lengths 0 n

-- The `options` of `createFrame`; `none` is a property that is left out.
pub record FrameOptions : Type 0 where
  pub extended : Option Bool
  pub fd : Option Bool
  pub channel : Option Text
  pub timestamp : Option ℕ
  pub direction : Option Direction
  pub brs : Option Bool
  pub dlc : Option ℕ

-- `now` is what `Date.now()` returns.
unfoldable pub create_frame : ℕ → ℕ → Bytes → FrameOptions → CanFrame
unfolding length_to_dlc
create_frame now id payload options =
    let fd = get_some_or options.fd false in
    record {
      timestamp = get_some_or options.timestamp now;
      id = id;
      extended = get_some_or options.extended (ltb 0x7ff id);
      fd = fd;
      dlc = get_some_or options.dlc (length_to_dlc (length payload) fd);
      payload = payload;
      channel = get_some_or options.channel (codes "can0");
      direction = options.direction;
      brs = options.brs;
    }
