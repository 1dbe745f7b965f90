-- ===== src/Writes/Coding.antt =====
-- packages/core/src/writes/coding.ts: the changes of a coding block, bit by bit and byte by byte. The
-- numbers of a change are integers; an error and a line of the summary are the data that their texts
-- are built from.
pub mod Bits
pub mod Changes
pub mod Edits
pub mod Ecu
pub mod Restore
use yes_you_can.Prelude.{
  ℕ, zero, suc, ◌+◌, ◌-◌, ◌*◌, ◌/◌, ◌%◌, ◌^◌, ◌≤◌, ◌<◌, min, max, ◌≡◌, refl, sym, ap, ◌∙◌, ◌≢◌, ◌↔◌,
  ◌⊎◌, inl, inr, Bool, true, false, not, ◌&&◌, ◌||◌, Option, none, some, List, [], ◌∷◌, ◌++◌, map,
  append_assoc, append-nil, arith, ltb, leb, ◌==◌, if◌then◌else◌, if_cases, ==_iff, ==_refl, leb→le,
  ltb→lt, Bool-cases, Option-cases, get_some_or, is_none, some_injective, &&_iff, length, get_or,
  take, drop, replicate, flatten, length-append, take-append-drop, length-take, length-drop,
  length-replicate, take-append, drop-append, take_all, drop_all, includes, All, All-append,
}
use Prim.Native.Nat.{bit_and, bit_or}
use yes_you_can.Prelude.Int.{ℤ, pos, negsuc}
use yes_you_can.Text.{Text}
use yes_you_can.Bytes.{Bytes}

pub record CodingChange : Type 0 where
  pub byte_index : ℤ
  pub bit_index : Option ℤ
  pub value : ℤ
  pub description : Option Text

-- What `applyCodingChanges` throws.
pub data CodingError : Type 0 where
  byte_outside : ℤ → ℕ → CodingError
  bit_outside : ℤ → CodingError
  not_a_bit : ℤ → CodingError
  not_a_byte : ℤ → CodingError

-- A line of `diffSummary`.
pub data DiffLine : Type 0 where
  bit_line : ℕ → ℕ → ℕ → ℕ → Option Text → DiffLine
  byte_line : ℕ → ℕ → ℕ → Option Text → DiffLine

-- `0 <= z && z < bound`, with the number that z is.
unfoldable pub within : ℕ → ℤ → Option ℕ
within bound (negsuc n) = none
within bound (pos n) = if ltb n bound then some n else none

-- `bytes[index] = value`, in range.
unfoldable pub set_byte : Bytes → ℕ → ℕ → Bytes
set_byte [] index value = []
set_byte (b ∷ bs) zero value = value ∷ bs
set_byte (b ∷ bs) (suc index) value = b ∷ set_byte bs index value

-- `(byte & (1 << index)) !== 0 ? 1 : 0`
abbrev pub bit_of : ℕ → ℕ → ℕ
bit_of byte index = if bit_and byte (2 ^ index) == 0 then 0 else 1

-- `byte | mask` and `byte & ~mask`, for the mask of one bit of a byte.
abbrev pub put_bit : ℕ → ℕ → ℕ → ℕ
put_bit byte index value =
    if value == 1 then bit_or byte (2 ^ index) else bit_and byte (255 - 2 ^ index)

-- The branch of a change of one bit, behind its two tests.
unfoldable pub change_bit :
    CodingChange → Bytes → ℕ → ℤ → Option ℕ → Option ℕ → CodingError ⊎ (Bytes × DiffLine)
unfolding set_byte
change_bit change bytes index bit none value = inl (bit_outside bit)
change_bit change bytes index bit (some i) none = inl (not_a_bit change.value)
change_bit change bytes index bit (some i) (some v) =
    let byte = get_or bytes index 0 in
    inr (
      set_byte bytes index (put_bit byte i v),
      bit_line index i (bit_of byte i) v change.description,
    )

-- The branch of a change of a whole byte, behind its test.
unfoldable pub change_byte : CodingChange → Bytes → ℕ → Option ℕ → CodingError ⊎ (Bytes × DiffLine)
unfolding set_byte
change_byte change bytes index none = inl (not_a_byte change.value)
change_byte change bytes index (some v) =
    inr (set_byte bytes index v, byte_line index (get_or bytes index 0) v change.description)

unfoldable pub change_at :
    CodingChange → Bytes → Option ℕ → Option ℤ → CodingError ⊎ (Bytes × DiffLine)
unfolding change_bit change_byte within
change_at change bytes none bit_index = inl (byte_outside change.byte_index (length bytes))
change_at change bytes (some index) none = change_byte change bytes index (within 256 change.value)
change_at change bytes (some index) (some bit) =
    change_bit change bytes index bit (within 8 bit) (within 2 change.value)

-- One round of the loop.
unfoldable pub apply_change : CodingChange → Bytes → CodingError ⊎ (Bytes × DiffLine)
unfolding change_at within
apply_change change bytes =
    change_at change bytes (within (length bytes) change.byte_index) change.bit_index

-- The loop of `applyCodingChanges`, with the summary so far.
unfoldable pub apply_from :
    List CodingChange → Bytes → List DiffLine → CodingError ⊎ (Bytes × List DiffLine)
unfolding apply_change
apply_from [] bytes summary = inr (bytes, summary)
apply_from (c ∷ cs) bytes summary = elim (apply_change c bytes) [
  | inl error ↦ inl error
  | inr (bytes', line) ↦ apply_from cs bytes' (summary ++ (line ∷ []))
]

unfoldable pub apply_coding_changes :
    Bytes → List CodingChange → CodingError ⊎ (Bytes × List DiffLine)
unfolding apply_from
apply_coding_changes original changes = apply_from changes original []
