-- ===== src/Tests/Vehicles.antt =====
-- Vehicle identification numbers.
use yes_you_can.Prelude.{◌≡◌, refl, ◌≢◌, [], ◌∷◌, ◌++◌, arith, length}
use yes_you_can.Text.{Text, codes, trim}
use yes_you_can.Vin.{char_value, check_digit_of, compute_vin_check_digit}
use yes_you_can.Vin.CheckDigit.{substitution_detected}

-- All characters of 1M8GDM9AXKP042788 but the last.
abbrev front : Text
front = codes "1M8GDM9AXKP04278"

other_value : char_value b'8' ≢ char_value b'3'
unfolding char_value
other_value e = absurd (omega arith)

substitution_detected_example :
    check_digit_of (front ++ (b'8' ∷ [])) ≢ check_digit_of (front ++ (b'3' ∷ []))
substitution_detected_example =
    substitution_detected front [] b'8' b'3' (omega arith) not_the_check_digit other_value
  where
    not_the_check_digit : length front ≢ 8
    not_the_check_digit e = absurd (omega arith)

known_check_digit : compute_vin_check_digit (codes " 1m8gdm9axkp042788 ") ≡ codes "X"
unfolding compute_vin_check_digit trim
known_check_digit = refl
