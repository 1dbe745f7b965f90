-- ===== src/Bytes.antt =====
-- packages/shared/src/bytes.ts. A `Uint8Array` is a list of numbers below 256; a read past the
-- end gives the source's `?? 0`.
pub mod Words
pub mod Hex
use yes_you_can.Prelude.{
  ℕ, zero, suc, ◌+◌, ◌-◌, ◌*◌, ◌/◌, ◌%◌, ◌^◌, ◌<◌, Bool, true, false, ◌&&◌, ◌||◌, List, [], ◌∷◌,
  ◌++◌, Option, none, some, ltb, leb, ◌==◌, if◌then◌else◌, length, get_or, flatten,
}
use yes_you_can.Prelude.Int.{ℤ, pos, sub_ℕ}
use yes_you_can.Text.{Text, is_hex_digit, hex_value, hex_padded, trim}

abbrev pub Bytes : Type 0
Bytes = List ℕ

abbrev pub IsByte : ℕ → Type 0
IsByte b = b < 256

-- The loop of `toHex` behind the first byte.
unfoldable pub to_hex_rest : Bytes → Text → Text
to_hex_rest [] separator = []
to_hex_rest (b ∷ bs) separator = separator ++ (hex_padded 2 b ++ to_hex_rest bs separator)

unfoldable pub to_hex : Bytes → Text → Text
unfolding to_hex_rest
to_hex [] separator = []
to_hex (b ∷ bs) separator = hex_padded 2 b ++ to_hex_rest bs separator

abbrev is_x : ℕ → Bool
is_x c = c == b'x' || c == b'X'

-- `text.replace(/0x/gi, "")`: left to right, without overlaps.
unfoldable pub strip_prefixes : Text → Text
strip_prefixes [] = []
strip_prefixes (c ∷ []) = c ∷ []
strip_prefixes (c ∷ d ∷ rest) =
    let kept = c ∷ strip_prefixes (d ∷ rest) in
    let dropped = strip_prefixes rest in if c == b'0' && is_x d then dropped else kept

-- `.replace(/[^0-9a-fA-F]/g, "")`
unfoldable pub hex_only : Text → Text
hex_only [] = []
hex_only (c ∷ cs) = if is_hex_digit c then c ∷ hex_only cs else hex_only cs

-- The loop over the pairs of digits; `none` is the exception for an odd number of them.
unfoldable pub hex_pairs : Text → Option Bytes
hex_pairs [] = some []
hex_pairs (c ∷ []) = none
hex_pairs (c ∷ d ∷ rest) = elim (hex_pairs rest) [
  | none ↦ none
  | some bytes ↦ some ((hex_value c * 16 + hex_value d) ∷ bytes)
]

unfoldable pub from_hex : Text → Option Bytes
unfolding strip_prefixes hex_only hex_pairs
from_hex text = hex_pairs (hex_only (strip_prefixes text))

unfoldable pub bytes_equal_from : Bytes → Bytes → Bool
bytes_equal_from [] [] = true
bytes_equal_from [] (b ∷ bs) = false
bytes_equal_from (a ∷ as') [] = false
bytes_equal_from (a ∷ as') (b ∷ bs) = if a == b then bytes_equal_from as' bs else false

unfoldable pub bytes_equal : Bytes → Bytes → Bool
unfolding bytes_equal_from
bytes_equal a b = if length a == length b then bytes_equal_from a b else false

abbrev pub concat_bytes : List Bytes → Bytes
concat_bytes chunks = flatten chunks

-- `(hi << 8) | lo`
unfoldable pub u16be : Bytes → ℕ → ℕ
u16be bytes offset = get_or bytes offset 0 * 256 + get_or bytes (offset + 1) 0

unfoldable pub u32be : Bytes → ℕ → ℕ
unfolding u16be
u32be bytes offset = u16be bytes offset * 65536 + u16be bytes (offset + 2)

unfoldable pub write_u16be : ℕ → Bytes
write_u16be value = (value / 256 % 256) ∷ (value % 256) ∷ []

unfoldable pub write_u32be : ℕ → Bytes
write_u32be value =
    (value / 16777216 % 256) ∷ (value / 65536 % 256) ∷ (value / 256 % 256) ∷ (value % 256) ∷ []

-- The loop of `readUintBE` at index `offset`, with `length` rounds left.
unfoldable pub read_uint_be_from : ℕ → Bytes → ℕ → ℕ → ℕ
read_uint_be_from value bytes offset zero = value
read_uint_be_from value bytes offset (suc length) =
    read_uint_be_from (value * 256 + get_or bytes offset 0) bytes (offset + 1) length

unfoldable pub read_uint_be : Bytes → ℕ → ℕ → ℕ
unfolding read_uint_be_from
read_uint_be bytes offset length = read_uint_be_from 0 bytes offset length

-- `2 ** (length * 8 - 1)` for a length of at least 1
unfoldable pub read_int_be : Bytes → ℕ → ℕ → ℤ
unfolding read_uint_be
read_int_be bytes offset length =
    let unsigned = read_uint_be bytes offset length in
    let sign_bit = 2 ^ (length * 8 - 1) in
    if leb sign_bit unsigned then sub_ℕ unsigned (sign_bit * 2) else pos unsigned

abbrev pub bit_at : Bytes → ℕ → ℕ
bit_at bytes index = get_or bytes (index / 8) 0 / 2 ^ (7 - index % 8) % 2

unfoldable pub read_bits_be_from : ℕ → Bytes → ℕ → ℕ → ℕ
read_bits_be_from value bytes index zero = value
read_bits_be_from value bytes index (suc count) =
    read_bits_be_from (value * 2 + bit_at bytes index) bytes (index + 1) count

unfoldable pub read_bits_be : Bytes → ℕ → ℕ → ℕ
unfolding read_bits_be_from
read_bits_be bytes bit_offset bit_length = read_bits_be_from 0 bytes bit_offset bit_length

-- The characters in front of the first zero byte.
unfoldable pub until_zero : Bytes → Text
until_zero [] = []
until_zero (b ∷ bs) = if b == 0 then [] else b ∷ until_zero bs

unfoldable pub ascii : Bytes → Text
unfolding until_zero trim
ascii bytes = trim (until_zero bytes)

-- The loop of `asciiBytes`: a character behind the end of the text is a blank.
unfoldable pub ascii_bytes_from : ℕ → Text → Bytes
ascii_bytes_from zero text = []
ascii_bytes_from (suc n) [] = 0x20 ∷ ascii_bytes_from n []
ascii_bytes_from (suc n) (c ∷ cs) = (c % 256) ∷ ascii_bytes_from n cs

unfoldable pub ascii_bytes : Text → Option ℕ → Bytes
unfolding ascii_bytes_from
ascii_bytes text none = ascii_bytes_from (length text) text
ascii_bytes text (some n) = ascii_bytes_from n text
