-- ===== src/Writes/Coding/Bits.antt =====
-- packages/core/src/writes/coding.ts: a bit that is put into a byte. The facts are tables over all
-- bytes, bits and values, checked by evaluation.
use native.Mathlib.Decide.{ℕ_discrete}
use yes_you_can.Prelude.{ℕ, ◌+◌, ◌*◌, ◌/◌, ◌%◌, ◌<◌, ◌≡◌, refl, arith, ltb, ◌==◌, if◌then◌else◌}
use yes_you_can.Prelude.Bits.{agree_below, agree_below→eq}
use yes_you_can.Bytes.{IsByte}
use yes_you_can.Writes.Coding.{bit_of, put_bit}

-- The places of a byte, a bit that is put, a bit that is read, and a value in one number.
abbrev packed : ℕ → ℕ → ℕ → ℕ → ℕ
packed byte index other value = byte + 256 * index + 2048 * other + 16384 * value

abbrev read_after_put : ℕ → ℕ
read_after_put n = bit_of (put_bit (n % 256) (n / 256 % 8) (n / 16384)) (n / 2048 % 8)

abbrev expected : ℕ → ℕ
expected n = if n / 256 % 8 == n / 2048 % 8 then n / 16384 else bit_of (n % 256) (n / 2048 % 8)

table : (n : ℕ) → n < 32768 → read_after_put n ≡ expected n
unfolding agree_below ℕ_discrete
table = agree_below→eq read_after_put expected 32768 refl

abbrev is_bounded : ℕ → ℕ → ℕ → ℕ
is_bounded byte index value = if ltb (put_bit byte index value) 256 then 1 else 0

abbrev bounded : ℕ → ℕ
bounded n = is_bounded (n % 256) (n / 256 % 8) (n / 2048)

bound_table : (n : ℕ) → n < 4096 → bounded n ≡ 1
unfolding agree_below ℕ_discrete
bound_table = agree_below→eq bounded (λ (n : ℕ). 1) 4096 refl

unpacked :
    (n byte index other value : ℕ)
    → n < 32768
    → n % 256 ≡ byte
    → n / 256 % 8 ≡ index
    → n / 2048 % 8 ≡ other
    → n / 16384 ≡ value
    → bit_of (put_bit byte index value) other
      ≡ (if index == other then value else bit_of byte other)
unpacked n byte index other value h b i o v = rw⁻¹ (b, i, o, v) (table n h)

-- A bit that was put into a byte reads back, and every other bit of the byte stays.
pub bit_of-put_bit :
    (byte index value other : ℕ)
    → IsByte byte
    → index < 8
    → other < 8
    → value < 2
    → bit_of (put_bit byte index value) other
      ≡ (if index == other then value else bit_of byte other)
bit_of-put_bit byte index value other b i o v =
    unpacked (packed byte index other value) byte index other value (omega arith) (omega arith)
      (omega arith) (omega arith) (omega arith)

bounded_unpacked :
    (n byte index value : ℕ)
    → n < 4096
    → n % 256 ≡ byte
    → n / 256 % 8 ≡ index
    → n / 2048 ≡ value
    → is_bounded byte index value ≡ 1
bounded_unpacked n byte index value h b i v = rw⁻¹ (b, i, v) (bound_table n h)

pub put_bit-IsByte :
    (byte index value : ℕ) → IsByte byte → index < 8 → value < 2 → IsByte (put_bit byte index value)
put_bit-IsByte byte index value b i v =
    let one =
      bounded_unpacked (byte + 256 * index + 2048 * value) byte index value (omega arith)
        (omega arith) (omega arith) (omega arith) in
    ground arith
