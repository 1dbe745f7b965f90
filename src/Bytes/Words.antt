-- ===== src/Bytes/Words.antt =====
-- Big-endian words and bit ranges: what is written is read back, and the bit reader agrees with
-- the byte reader.
use yes_you_can.Prelude.{
  ℕ, zero, suc, ◌+◌, ◌-◌, ◌*◌, ◌/◌, ◌%◌, ◌^◌, ◌<◌, ◌≡◌, refl, ◌∙◌, arith, [], ◌∷◌, ◌++◌, get_or,
  All,
}
use mathlib.Core.Path.{ap₂}
use yes_you_can.Bytes.{
  Bytes, IsByte, u16be, u32be, write_u16be, write_u32be, read_uint_be_from, read_uint_be,
  read_bits_be_from, read_bits_be, bit_at,
}

-- A 16-bit number is read back from the bytes that it was written as, whatever follows them.
pub u16be-write_u16be : (v : ℕ) (rest : Bytes) → v < 65536 → u16be (write_u16be v ++ rest) 0 ≡ v
unfolding u16be write_u16be
u16be-write_u16be v rest h = omega arith

-- A 32-bit number is read back from the bytes that it was written as, whatever follows them.
pub u32be-write_u32be :
    (v : ℕ) (rest : Bytes) → v < 4294967296 → u32be (write_u32be v ++ rest) 0 ≡ v
unfolding u32be write_u32be
u32be-write_u32be v rest h = omega arith

get_or-IsByte : (bytes : Bytes) (i : ℕ) → All IsByte bytes → get_or bytes i 0 < 256
get_or-IsByte [] i h = omega arith
get_or-IsByte (b ∷ bs) zero h = h.0
get_or-IsByte (b ∷ bs) (suc i) h = get_or-IsByte bs i h.1

bit_of_byte :
    (bytes : Bytes) (offset k i : ℕ)
    → k < 8
    → i ≡ offset * 8 + k
    → bit_at bytes i ≡ get_or bytes offset 0 / 2 ^ (7 - k) % 2
bit_of_byte bytes offset k i h e =
    let quotient : i / 8 ≡ offset = omega arith in
    let remainder : i % 8 ≡ k = omega arith in
    ap₂ (λ (q r : ℕ). get_or bytes q 0 / 2 ^ (7 - r) % 2) quotient remainder

-- The eight bits of a byte, most significant first, put it together again.
byte_of_bits :
    (value b c₀ c₁ c₂ c₃ c₄ c₅ c₆ c₇ : ℕ)
    → b < 256
    → c₀ ≡ b / 128 % 2
    → c₁ ≡ b / 64 % 2
    → c₂ ≡ b / 32 % 2
    → c₃ ≡ b / 16 % 2
    → c₄ ≡ b / 8 % 2
    → c₅ ≡ b / 4 % 2
    → c₆ ≡ b / 2 % 2
    → c₇ ≡ b / 1 % 2
    → (((((((value * 2 + c₀) * 2 + c₁) * 2 + c₂) * 2 + c₃) * 2 + c₄) * 2 + c₅) * 2 + c₆) * 2 + c₇
      ≡ value * 256 + b
byte_of_bits value b c₀ c₁ c₂ c₃ c₄ c₅ c₆ c₇ h e₀ e₁ e₂ e₃ e₄ e₅ e₆ e₇ = omega arith

-- Eight rounds of the bit reader from a byte boundary on are one round of the byte reader.
eight_bits :
    (value : ℕ) (bytes : Bytes) (offset count : ℕ)
    → All IsByte bytes
    → read_bits_be_from value bytes
        (offset * 8)
        (suc (suc (suc (suc (suc (suc (suc (suc count))))))))
      ≡ read_bits_be_from (value * 256 + get_or bytes offset 0) bytes (suc offset * 8) count
unfolding read_bits_be_from
eight_bits value bytes offset count h =
    ap₂ (λ (v i : ℕ). read_bits_be_from v bytes i count)
      (byte_of_bits value (get_or bytes offset 0) _ _ _ _ _ _ _ _ (get_or-IsByte bytes offset h)
        (bit_of_byte bytes offset 0 _ (omega arith) (omega arith))
        (bit_of_byte bytes offset 1 _ (omega arith) (omega arith))
        (bit_of_byte bytes offset 2 _ (omega arith) (omega arith))
        (bit_of_byte bytes offset 3 _ (omega arith) (omega arith))
        (bit_of_byte bytes offset 4 _ (omega arith) (omega arith))
        (bit_of_byte bytes offset 5 _ (omega arith) (omega arith))
        (bit_of_byte bytes offset 6 _ (omega arith) (omega arith))
        (bit_of_byte bytes offset 7 _ (omega arith) (omega arith)))
      (omega arith)

read_bits_be_from-read_uint_be_from :
    (value : ℕ) (bytes : Bytes) (offset n : ℕ)
    → All IsByte bytes
    → read_bits_be_from value bytes (offset * 8) (n * 8) ≡ read_uint_be_from value bytes offset n
unfolding read_uint_be_from
read_bits_be_from-read_uint_be_from value bytes offset zero h = unfold read_bits_be_from in refl
read_bits_be_from-read_uint_be_from value bytes offset (suc n) h =
    let more : suc n * 8 ≡ suc (suc (suc (suc (suc (suc (suc (suc (n * 8)))))))) = omega arith in
    let next : offset + 1 ≡ suc offset = omega arith in
    rw (more, next)
      (eight_bits value bytes offset (n * 8) h
        ∙ read_bits_be_from-read_uint_be_from (value * 256 + get_or bytes offset 0) bytes
            (suc offset) n h)

-- Read over whole bytes, the bit reader and the byte reader return the same number.
pub read_bits_be-read_uint_be :
    (bytes : Bytes) (offset n : ℕ)
    → All IsByte bytes
    → read_bits_be bytes (offset * 8) (n * 8) ≡ read_uint_be bytes offset n
unfolding read_bits_be read_uint_be
read_bits_be-read_uint_be bytes offset n h = read_bits_be_from-read_uint_be_from 0 bytes offset n h
