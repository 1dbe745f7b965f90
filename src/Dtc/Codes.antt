-- ===== src/Dtc/Codes.antt =====
-- packages/protocols/uds/src/dtc.ts: the two-byte number of a trouble code and its five characters.
use yes_you_can.Prelude.{
  inl, inr, Bool-cases, &&_iff, ℕ, zero, suc, ◌+◌, ◌*◌, ◌/◌, ◌%◌, ◌<◌, ◌≡◌, refl, ◌∙◌, true, false,
  ◌&&◌, Option, none, some, List, [], ◌∷◌, ◌++◌, arith, leb, ◌==◌, if◌then◌else◌, get_or,
}
use mathlib.Core.Path.{ap₂}
use yes_you_can.Text.{
  Text, trim, trim_start, to_upper_case, hex_digit, hex_value, hex_padded, is_hex_digit, is_space,
  upper,
}
use yes_you_can.Bytes.{Bytes, IsByte}

pub record DecodedDtc : Type 0 where
  pub code : Text
  pub letter : ℕ
  pub digits : Text
  pub failure_type : Text
  pub raw : Text

-- `DTC_LETTERS`
abbrev pub dtc_letters : List ℕ
dtc_letters = b'P' ∷ b'C' ∷ b'B' ∷ b'U' ∷ []

-- For bytes.
unfoldable pub decode_dtc : ℕ → ℕ → ℕ → DecodedDtc
unfolding hex_padded
decode_dtc high low failure =
    let letter = get_or dtc_letters (high / 64 % 4) b'P' in
    let digits =
      hex_digit (high / 16 % 4)
      ∷ hex_digit (high % 16)
      ∷ hex_digit (low / 16 % 16)
      ∷ hex_digit (low % 16)
      ∷ [] in
    record {
      code = letter ∷ digits;
      letter = letter;
      digits = digits;
      failure_type = hex_padded 2 failure;
      raw = hex_padded 2 high ++ (hex_padded 2 low ++ hex_padded 2 failure);
    }

unfoldable pub decode_dtc_bytes : Bytes → DecodedDtc
unfolding decode_dtc
decode_dtc_bytes raw = decode_dtc (get_or raw 0 0) (get_or raw 1 0) (get_or raw 2 0)

-- `DTC_LETTERS.indexOf(letter)`, which the expression has found.
unfoldable pub letter_index : ℕ → Option ℕ
letter_index c =
    if c == b'P'
    then some 0
    else if c == b'C'
    then some 1
    else if c == b'B'
    then some 2
    else if c == b'U'
    then some 3
    else none

-- /^([PCBU])([0-3])([0-9A-Fa-f]){3}$/ and the numbers of its groups.
unfoldable pub match_dtc : Text → Option (ℕ × ℕ)
unfolding letter_index
match_dtc (l ∷ a ∷ b ∷ c ∷ d ∷ []) =
    if (leb b'0' a && leb a b'3') && (is_hex_digit b && (is_hex_digit c && is_hex_digit d))
    then elim (letter_index l) [
      | none ↦ none
      | some letter ↦
          some (letter * 64 + hex_value a * 16 + hex_value b, hex_value c * 16 + hex_value d)
    ]
    else none
match_dtc other = none

-- `none` is what it throws.
unfoldable pub encode_dtc : Text → Option (ℕ × ℕ)
unfolding match_dtc trim
encode_dtc code = match_dtc (to_upper_case (trim code))

-- The bytes of a code with the failure type.
abbrev pub with_failure : ℕ → Option (ℕ × ℕ) → Option Bytes
with_failure failure none = none
with_failure failure (some (high, low)) = some (high ∷ low ∷ (failure % 256) ∷ [])

unfoldable pub encode_dtc_to_bytes : Text → ℕ → Option Bytes
unfolding encode_dtc
encode_dtc_to_bytes code failure = with_failure failure (encode_dtc code)

letter_facts :
    (k : ℕ)
    → k < 4
    → let c = get_or dtc_letters k b'P' in
      (letter_index c ≡ some k) × (is_space c ≡ false) × (upper c ≡ c)
unfolding letter_index
letter_facts zero h = (refl, refl, refl)
letter_facts (suc zero) h = (refl, refl, refl)
letter_facts (suc (suc zero)) h = (refl, refl, refl)
letter_facts (suc (suc (suc zero))) h = (refl, refl, refl)
letter_facts (suc (suc (suc (suc k)))) h = absurd (omega arith)

digit_facts :
    (n : ℕ)
    → n < 16
    → (is_space (hex_digit n) ≡ false)
      × (upper (hex_digit n) ≡ hex_digit n)
      × (is_hex_digit (hex_digit n) ≡ true)
      × (hex_value (hex_digit n) ≡ n)
digit_facts n h = ground arith

first_digit : (n : ℕ) → n < 4 → (leb b'0' (hex_digit n) && leb (hex_digit n) b'3') ≡ true
first_digit n h = ground arith

-- Five characters of which the first and the last are no white space.
trim_five :
    (l a b c d : ℕ)
    → is_space l ≡ false
    → is_space d ≡ false
    → trim (l ∷ a ∷ b ∷ c ∷ d ∷ []) ≡ l ∷ a ∷ b ∷ c ∷ d ∷ []
unfolding trim trim_start
trim_five l a b c d hl hd = rw (hl, hd) refl

encode_five :
    (k n a b c : ℕ)
    → k < 4
    → n < 4
    → a < 16
    → b < 16
    → c < 16
    → encode_dtc
        (get_or dtc_letters k b'P' ∷ hex_digit n ∷ hex_digit a ∷ hex_digit b ∷ hex_digit c ∷ [])
      ≡ some (k * 64 + n * 16 + a, b * 16 + c)
unfolding encode_dtc match_dtc
encode_five k n a b c hk hn ha hb hc =
    let (index, solid, kept) = letter_facts k hk in
    let fn = digit_facts n (omega arith) in
    let fa = digit_facts a ha in
    let fb = digit_facts b hb in
    let fc = digit_facts c hc in
    rw
      (trim_five (get_or dtc_letters k b'P') (hex_digit n) (hex_digit a) (hex_digit b) (hex_digit c)
        solid fc.0)
      (rw (kept, fn.1, fa.1, fb.1, fc.1)
        (rw (first_digit n hn, fa.2, fb.2, fc.2, index)
          (rw (fn.1, fa.1, fb.1, fc.1) (rw (fn.3, fa.3, fb.3, fc.3) refl))))

-- The five characters of a trouble code encode back to the two bytes that they were decoded from.
pub encode_dtc-decode_dtc :
    (high low failure : ℕ)
    → IsByte high
    → IsByte low
    → encode_dtc (decode_dtc high low failure).code ≡ some (high, low)
unfolding decode_dtc
encode_dtc-decode_dtc high low failure h l =
    encode_five (high / 64 % 4) (high / 16 % 4) (high % 16) (low / 16 % 16) (low % 16) (omega arith)
      (omega arith) (omega arith) (omega arith) (omega arith)
    ∙ ap₂ (λ (x y : ℕ). some (x, y)) (omega arith) (omega arith)

-- A trouble code encodes to two bytes.
hex_value_bound : (c : ℕ) → is_hex_digit c ≡ true → hex_value c < 16
hex_value_bound c h = ground arith

first_value_bound : (c : ℕ) → (leb b'0' c && leb c b'3') ≡ true → hex_value c < 4
first_value_bound c h = ground arith

letter_index_bound : (c k : ℕ) → letter_index c ≡ some k → k < 4
unfolding letter_index
letter_index_bound c k h = ground arith

-- The two numbers of a match, if there is one, are bytes.
abbrev pub EncodedBytes : Option (ℕ × ℕ) → Type 0
EncodedBytes none = Unit
EncodedBytes (some (high, low)) = IsByte high × IsByte low

matched-EncodedBytes :
    (a b c d : ℕ) (letter : Option ℕ)
    → ((k : ℕ) → letter ≡ some k → k < 4)
    → hex_value a < 4
    → hex_value b < 16
    → hex_value c < 16
    → hex_value d < 16
    → EncodedBytes (elim letter [
      | none ↦ none
      | some k ↦ some (k * 64 + hex_value a * 16 + hex_value b, hex_value c * 16 + hex_value d)
    ])
matched-EncodedBytes a b c d none h ha hb hc hd = tt
matched-EncodedBytes a b c d (some k) h ha hb hc hd =
    let small = h k refl in (omega arith, omega arith)

match_dtc-EncodedBytes : (text : Text) → EncodedBytes (match_dtc text)
unfolding match_dtc
match_dtc-EncodedBytes [] = tt
match_dtc-EncodedBytes (l ∷ []) = tt
match_dtc-EncodedBytes (l ∷ a ∷ []) = tt
match_dtc-EncodedBytes (l ∷ a ∷ b ∷ []) = tt
match_dtc-EncodedBytes (l ∷ a ∷ b ∷ c ∷ []) = tt
match_dtc-EncodedBytes (l ∷ a ∷ b ∷ c ∷ d ∷ []) =
    elim (Bool-cases
      ((leb b'0' a && leb a b'3') && (is_hex_digit b && (is_hex_digit c && is_hex_digit d)))) [
        | inr other ↦ rw other tt
        | inl all ↦
            let (first, others) =
              (&&_iff (leb b'0' a && leb a b'3')
                  (is_hex_digit b && (is_hex_digit c && is_hex_digit d))).0
                all in
            let (second, last) =
              (&&_iff (is_hex_digit b) (is_hex_digit c && is_hex_digit d)).0 others in
            let (third, fourth) = (&&_iff (is_hex_digit c) (is_hex_digit d)).0 last in
            rw all (
              matched-EncodedBytes a b c d (letter_index l) (letter_index_bound l)
                (first_value_bound a first) (hex_value_bound b second) (hex_value_bound c third)
                (hex_value_bound d fourth))
      ]
match_dtc-EncodedBytes (l ∷ a ∷ b ∷ c ∷ d ∷ e ∷ rest) = tt

pub encode_dtc-EncodedBytes : (code : Text) → EncodedBytes (encode_dtc code)
unfolding encode_dtc
encode_dtc-EncodedBytes code = match_dtc-EncodedBytes (to_upper_case (trim code))
