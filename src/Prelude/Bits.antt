-- ===== src/Prelude/Bits.antt =====
-- The bit operations that the source applies to bytes, as arithmetic. Each is a table over the
-- bytes, checked by evaluation, so that the models may write `b % 16` for `b & 0x0f`.
use Prim.Native.Nat.{ℕ, zero, suc, ◌+◌, ◌-◌, ◌*◌, ◌/◌, ◌%◌, ◌<◌, bit_and, bit_or, bit_xor}
use mathlib.Core.Path.{◌≡◌, refl}
use mathlib.Core.Bool.{Bool, true, false}
use mathlib.Core.Logic.{ite}
use native.Mathlib.Decide.{ℕ_discrete}
use native.Mathlib.Omega.{arith}

module _ (f g : ℕ → ℕ) where
  unfoldable pub agree_below : ℕ → Bool
  unfolding ℕ_discrete
  agree_below zero = true
  agree_below (suc n) = ite (ℕ_discrete (f n) (g n)) (agree_below n) false

  pub agree_below→eq : (n : ℕ) → agree_below n ≡ true → (i : ℕ) → i < n → f i ≡ g i
  unfolding agree_below
  agree_below→eq zero e i h = absurd (omega arith)
  agree_below→eq (suc n) e i h = ground (arith, agree_below→eq n (ground arith) i)

-- `b & 0x0f`
pub low_nibble : (b : ℕ) → b < 256 → bit_and b 0x0f ≡ b % 16
unfolding agree_below
low_nibble = agree_below→eq _ _ 256 refl

-- `b & 0xf0`
pub high_nibble : (b : ℕ) → b < 256 → bit_and b 0xf0 ≡ b / 16 * 16
unfolding agree_below
high_nibble = agree_below→eq _ _ 256 refl

-- `FRAME_TYPE.… | (n & 0x0f)`: the fields are disjoint.
pub nibble_tags :
    (n : ℕ)
    → n < 16
    → (bit_or 0x10 n ≡ 16 + n) × (bit_or 0x20 n ≡ 32 + n) × (bit_or 0x30 n ≡ 48 + n)
unfolding agree_below
nibble_tags n h = (
  agree_below→eq (bit_or 0x10) (λ k. 16 + k) 16 refl n h,
  agree_below→eq (bit_or 0x20) (λ k. 32 + k) 16 refl n h,
  agree_below→eq (bit_or 0x30) (λ k. 48 + k) 16 refl n h,
)

-- `~b & 0xff` is `255 - b`, the only byte that `^` takes to 0xff with `b`.
pub xor_complement : (b : ℕ) → b < 256 → bit_xor b (255 - b) ≡ 255
unfolding agree_below
xor_complement = agree_below→eq _ _ 256 refl
