-- ===== src/Bytes/Hex.antt =====
-- Hexadecimal text: what `toHex` prints, `fromHex` reads back.
use yes_you_can.Prelude.{
  ℕ, ◌+◌, ◌*◌, ◌/◌, ◌%◌, ◌<◌, ◌≡◌, refl, arith, true, false, [], ◌∷◌, ◌++◌, some, All, All-append,
}
use yes_you_can.Text.{Text, is_hex_digit, hex_value, hex_digit, hex_padded}
use yes_you_can.Bytes.{
  Bytes, IsByte, is_x, to_hex, to_hex_rest, strip_prefixes, hex_only, hex_pairs, from_hex,
}

-- A separator that the reader removes whole, and that cannot complete a `0x`.
abbrev pub IsSeparator : Text → Type 0
IsSeparator = All (λ c. (is_hex_digit c ≡ false) × (is_x c ≡ false))

hex_digit_facts :
    (n : ℕ)
    → n < 16
    → (is_hex_digit (hex_digit n) ≡ true)
      × (hex_value (hex_digit n) ≡ n)
      × (is_x (hex_digit n) ≡ false)
hex_digit_facts n h = ground arith

-- A text without `x` has no prefix to strip.
strip_prefixes_id : (text : Text) → All (λ c. is_x c ≡ false) text → strip_prefixes text ≡ text
unfolding strip_prefixes
strip_prefixes_id [] h = refl
strip_prefixes_id (c ∷ []) h = refl
strip_prefixes_id (c ∷ d ∷ rest) h = rw (h.1.0) (ground (arith, strip_prefixes_id (d ∷ rest) h.1))

pair_digits : (b : ℕ) → b < 256 → hex_padded 2 b ≡ hex_digit (b / 16) ∷ hex_digit (b % 16) ∷ []
unfolding hex_padded
pair_digits b h = let high : b / 16 % 16 ≡ b / 16 = omega arith in rw high refl

abbrev NoX : Text → Type 0
NoX = All (λ c. is_x c ≡ false)

NoX-separator : (separator : Text) → IsSeparator separator → NoX separator
NoX-separator [] k = tt
NoX-separator (c ∷ cs) k = (k.0.1, NoX-separator cs k.1)

NoX-pair : (b : ℕ) (rest : Text) → b < 256 → NoX rest → NoX (hex_padded 2 b ++ rest)
NoX-pair b rest h k =
    rw (pair_digits b h)
      ((hex_digit_facts (b / 16) (omega arith)).2, ((hex_digit_facts (b % 16) (omega arith)).2, k))

NoX-to_hex_rest :
    (bs : Bytes) (separator : Text)
    → All IsByte bs
    → IsSeparator separator
    → NoX (to_hex_rest bs separator)
unfolding to_hex_rest
NoX-to_hex_rest [] separator h k = tt
NoX-to_hex_rest (b ∷ bs) separator h k =
    All-append (λ c. is_x c ≡ false) separator _ (NoX-separator separator k)
      (NoX-pair b _ h.0 (NoX-to_hex_rest bs separator h.1 k))

hex_only-separator :
    (separator rest : Text) → IsSeparator separator → hex_only (separator ++ rest) ≡ hex_only rest
unfolding hex_only
hex_only-separator [] rest k = refl
hex_only-separator (c ∷ cs) rest k = rw (k.0.0) (hex_only-separator cs rest k.1)

hex_pairs-pair :
    (b : ℕ) (rest : Text) (bytes : Bytes)
    → b < 256
    → hex_pairs (hex_only rest) ≡ some bytes
    → hex_pairs (hex_only (hex_padded 2 b ++ rest)) ≡ some (b ∷ bytes)
unfolding hex_only hex_pairs
hex_pairs-pair b rest bytes h e =
    let high = hex_digit_facts (b / 16) (omega arith) in
    let low = hex_digit_facts (b % 16) (omega arith) in
    let whole : b / 16 * 16 + b % 16 ≡ b = omega arith in
    rw (pair_digits b h) (rw (high.0, low.0) (rw e (rw (high.1, low.1) (rw whole))))

hex_pairs-to_hex_rest :
    (bs : Bytes) (separator : Text)
    → All IsByte bs
    → IsSeparator separator
    → hex_pairs (hex_only (to_hex_rest bs separator)) ≡ some bs
unfolding to_hex_rest
hex_pairs-to_hex_rest [] separator h k = unfold hex_only hex_pairs in refl
hex_pairs-to_hex_rest (b ∷ bs) separator h k =
    rw (hex_only-separator separator _ k)
      (hex_pairs-pair b _ bs h.0 (hex_pairs-to_hex_rest bs separator h.1 k))

-- What `to_hex` prints of bytes, `from_hex` reads back, whatever the separator, as long as it holds
-- no hexadecimal digit and no `x`.
pub from_hex-to_hex :
    (bytes : Bytes) (separator : Text)
    → All IsByte bytes
    → IsSeparator separator
    → from_hex (to_hex bytes separator) ≡ some bytes
unfolding from_hex to_hex
from_hex-to_hex [] separator h k = refl
from_hex-to_hex (b ∷ bs) separator h k =
    rw (strip_prefixes_id _ (NoX-pair b _ h.0 (NoX-to_hex_rest bs separator h.1 k)))
      (hex_pairs-pair b _ bs h.0 (hex_pairs-to_hex_rest bs separator h.1 k))
