-- ===== src/Vin/CheckDigit.antt =====
-- packages/core/src/vehicle/vin.ts: what the check digit detects.
use yes_you_can.Prelude.{
  ℕ, zero, suc, ◌+◌, ◌-◌, ◌*◌, ◌%◌, ◌≤◌, ◌<◌, ◌≡◌, refl, sym, ap, ◌∙◌, ◌≢◌, Bool, true, ◌&&◌, List,
  [], ◌∷◌, ◌++◌, arith, ltb, ltb→lt, &&_iff, length, get_or,
}
use yes_you_can.Text.{Text}
use yes_you_can.Vin.{
  transliteration, weights, char_value, weighted_sum, remainder_char, check_digit_of,
}

abbrev all_below_ten : List ℕ → Bool
all_below_ten [] = true
all_below_ten (x ∷ xs) = ltb x 10 && all_below_ten xs

get_or-below_ten : (xs : List ℕ) (i : ℕ) → all_below_ten xs ≡ true → get_or xs i 0 < 10
get_or-below_ten [] i h = omega arith
get_or-below_ten (x ∷ xs) zero h = ltb→lt x 10 ((&&_iff (ltb x 10) (all_below_ten xs)).0 h).0
get_or-below_ten (x ∷ xs) (suc i) h =
    get_or-below_ten xs i ((&&_iff (ltb x 10) (all_below_ten xs)).0 h).1

letter_value_small : (i : ℕ) → get_or transliteration i 0 < 10
letter_value_small i = get_or-below_ten transliteration i refl

char_value_small : (c : ℕ) → char_value c < 10
unfolding char_value
char_value_small c = ground (arith, letter_value_small (c - 65))

-- The prime 11 keeps different values apart under every weight but 0.
kept_apart :
    (w base a b : ℕ)
    → a < 10
    → b < 10
    → a ≢ b
    → 2 ≤ w
    → w ≤ 10
    → (base + a * w) % 11 ≢ (base + b * w) % 11
kept_apart zero base a b h k other low high e = absurd (omega arith)
kept_apart (suc zero) base a b h k other low high e = absurd (omega arith)
kept_apart (suc (suc zero)) base a b h k other low high e = other (omega arith)
kept_apart (suc (suc (suc zero))) base a b h k other low high e = other (omega arith)
kept_apart (suc (suc (suc (suc zero)))) base a b h k other low high e = other (omega arith)
kept_apart (suc (suc (suc (suc (suc zero))))) base a b h k other low high e = other (omega arith)
kept_apart (suc (suc (suc (suc (suc (suc zero)))))) base a b h k other low high e =
    other (omega arith)
kept_apart (suc (suc (suc (suc (suc (suc (suc zero))))))) base a b h k other low high e =
    other (omega arith)
kept_apart (suc (suc (suc (suc (suc (suc (suc (suc zero)))))))) base a b h k other low high e =
    other (omega arith)
kept_apart (suc (suc (suc (suc (suc (suc (suc (suc (suc zero))))))))) base a b h k other low high
      e =
    other (omega arith)
kept_apart (suc (suc (suc (suc (suc (suc (suc (suc (suc (suc zero)))))))))) base a b h k other low
      high e =
    other (omega arith)
kept_apart (suc (suc (suc (suc (suc (suc (suc (suc (suc (suc (suc n))))))))))) base a b h k other
      low high e =
    absurd (omega arith)

weighted_sum-replaced :
    (ws : List ℕ) (u v : Text) (c : ℕ)
    → length u < length ws
    → (base : ℕ) × ((d : ℕ)
        → weighted_sum ws (u ++ (d ∷ v)) ≡ base + char_value d * get_or ws (length u) 0)
unfolding weighted_sum
weighted_sum-replaced [] u v c h = absurd (omega arith)
weighted_sum-replaced (w ∷ ws) [] v c h = (weighted_sum ws v, λ d. omega arith)
weighted_sum-replaced (w ∷ ws) (x ∷ u) v c h =
    let (base, e) = weighted_sum-replaced ws u v c (omega arith) in
    (char_value x * w + base, λ d. omega (arith, e d))

weight_bounds : (i : ℕ) → i < 17 → i ≢ 8 → (2 ≤ get_or weights i 0) × (get_or weights i 0 ≤ 10)
weight_bounds zero h k = (omega arith, omega arith)
weight_bounds (suc zero) h k = (omega arith, omega arith)
weight_bounds (suc (suc zero)) h k = (omega arith, omega arith)
weight_bounds (suc (suc (suc zero))) h k = (omega arith, omega arith)
weight_bounds (suc (suc (suc (suc zero)))) h k = (omega arith, omega arith)
weight_bounds (suc (suc (suc (suc (suc zero))))) h k = (omega arith, omega arith)
weight_bounds (suc (suc (suc (suc (suc (suc zero)))))) h k = (omega arith, omega arith)
weight_bounds (suc (suc (suc (suc (suc (suc (suc zero))))))) h k = (omega arith, omega arith)
weight_bounds (suc (suc (suc (suc (suc (suc (suc (suc zero)))))))) h k = absurd (k refl)
weight_bounds (suc (suc (suc (suc (suc (suc (suc (suc (suc zero))))))))) h k =
    (omega arith, omega arith)
weight_bounds (suc (suc (suc (suc (suc (suc (suc (suc (suc (suc zero)))))))))) h k =
    (omega arith, omega arith)
weight_bounds (suc (suc (suc (suc (suc (suc (suc (suc (suc (suc (suc zero))))))))))) h k =
    (omega arith, omega arith)
weight_bounds (suc (suc (suc (suc (suc (suc (suc (suc (suc (suc (suc (suc zero)))))))))))) h k =
    (omega arith, omega arith)
weight_bounds (suc (suc (suc (suc (suc (suc (suc (suc (suc (suc (suc (suc (suc zero))))))))))))) h
      k =
    (omega arith, omega arith)
weight_bounds
      (suc (suc (suc (suc (suc (suc (suc (suc (suc (suc (suc (suc (suc (suc zero)))))))))))))) h k =
    (omega arith, omega arith)
weight_bounds
      (suc (suc (suc (suc (suc (suc (suc (suc (suc (suc (suc (suc (suc (suc (suc zero)))))))))))))))
      h k =
    (omega arith, omega arith)
weight_bounds
      (suc (
        suc
          (suc (suc (suc (suc (suc (suc (suc (suc (suc (suc (suc (suc (suc (suc zero))))))))))))))))
      h k =
    (omega arith, omega arith)
weight_bounds
      (suc (
        suc (
          suc
            (suc (suc (suc (suc (suc (suc (suc (suc (suc (suc (suc (suc (suc (suc n)))))))))))))))))
      h k =
    absurd (omega arith)

mod-bound : (n : ℕ) → n % 11 < 11
mod-bound n = omega arith

remainder_char_injective : (r s : ℕ) → r < 11 → s < 11 → remainder_char r ≡ remainder_char s → r ≡ s
remainder_char_injective r s h k e = ground arith

-- Replacing one character, at any position but that of the check digit, by one of another value
-- changes the check digit.
pub substitution_detected :
    (u v : Text) (c d : ℕ)
    → length u < 17
    → length u ≢ 8
    → char_value c ≢ char_value d
    → check_digit_of (u ++ (c ∷ v)) ≢ check_digit_of (u ++ (d ∷ v))
unfolding check_digit_of
substitution_detected u v c d h k other e =
    let (base, sum) = weighted_sum-replaced weights u v c h in
    let (low, high) = weight_bounds (length u) h k in
    let same : remainder_char (weighted_sum weights (u ++ (c ∷ v)) % 11)
        ≡ remainder_char (weighted_sum weights (u ++ (d ∷ v)) % 11) =
      ap (λ t. get_or t 0 0) e in
    kept_apart (get_or weights (length u) 0) base (char_value c) (char_value d) (char_value_small c)
      (char_value_small d) other low high
      (ap (λ n. n % 11) (sym (sum c))
        ∙ remainder_char_injective _ _ (mod-bound _) (mod-bound _) same
        ∙ ap (λ n. n % 11) (sum d))
