-- ===== src/Vin.antt =====
-- packages/core/src/vehicle/vin.ts: vehicle identification numbers. A character is its code; the notes
-- of an analysis are data.
pub mod CheckDigit
use yes_you_can.Prelude.{
  ℕ, zero, suc, ◌+◌, ◌-◌, ◌*◌, ◌/◌, ◌%◌, ◌^◌, ◌≤◌, ◌<◌, min, max, ◌≡◌, refl, sym, ap, ◌∙◌, ◌≢◌, ◌↔◌,
  ◌⊎◌, inl, inr, Bool, true, false, not, ◌&&◌, ◌||◌, Option, none, some, List, [], ◌∷◌, ◌++◌, map,
  append_assoc, append-nil, arith, ltb, leb, ◌==◌, if◌then◌else◌, if_cases, ==_iff, ==_refl, leb→le,
  ltb→lt, Bool-cases, Option-cases, get_some_or, is_none, some_injective, &&_iff, length, get_or,
  take, drop, replicate, flatten, length-append, take-append-drop, length-take, length-drop,
  length-replicate, take-append, drop-append, take_all, drop_all, includes, All, All-append,
}
use yes_you_can.Text.{Text, codes, trim, to_upper_case, is_digit, eq_text}

-- `TRANSLITERATION`, from A to Z; a letter that the table does not have counts 0.
abbrev pub transliteration : List ℕ
transliteration =
    1 ∷ 2 ∷ 3 ∷ 4 ∷ 5 ∷ 6 ∷ 7 ∷ 8 ∷ 0 ∷ 1 ∷ 2 ∷ 3 ∷ 4 ∷ 5 ∷ 0 ∷ 7 ∷ 0 ∷ 9 ∷ 2 ∷ 3 ∷ 4 ∷ 5 ∷ 6 ∷ 7
    ∷ 8 ∷ 9 ∷ []

abbrev pub weights : List ℕ
weights = 8 ∷ 7 ∷ 6 ∷ 5 ∷ 4 ∷ 3 ∷ 2 ∷ 10 ∷ 0 ∷ 9 ∷ 8 ∷ 7 ∷ 6 ∷ 5 ∷ 4 ∷ 3 ∷ 2 ∷ []

-- The value of a character in the sum.
unfoldable pub char_value : ℕ → ℕ
char_value c =
    if is_digit c then c - 48 else if leb 65 c then get_or transliteration (c - 65) 0 else 0

-- The loop over the positions; behind the end of the text stands "0".
unfoldable pub weighted_sum : List ℕ → Text → ℕ
unfolding char_value
weighted_sum [] text = 0
weighted_sum (w ∷ ws) [] = 0 * w + weighted_sum ws []
weighted_sum (w ∷ ws) (c ∷ cs) = char_value c * w + weighted_sum ws cs

-- `String(remainder)`, or X for 10
abbrev pub remainder_char : ℕ → ℕ
remainder_char r = if r == 10 then 88 else 48 + r

-- `computeVinCheckDigit` behind the normalisation
unfoldable pub check_digit_of : Text → Text
unfolding weighted_sum
check_digit_of normalized = remainder_char (weighted_sum weights normalized % 11) ∷ []

unfoldable pub compute_vin_check_digit : Text → Text
unfolding check_digit_of
compute_vin_check_digit vin = check_digit_of (to_upper_case (trim vin))

-- [IOQ], on text in upper case
abbrev pub is_forbidden : ℕ → Bool
is_forbidden c = c == 73 || c == 79 || c == 81

-- [A-HJ-NPR-Z0-9]
abbrev pub is_vin_char : ℕ → Bool
is_vin_char c = is_digit c || (leb 65 c && leb c 90 && not (is_forbidden c))

abbrev pub all_vin_chars : Text → Bool
all_vin_chars [] = true
all_vin_chars (c ∷ cs) = is_vin_char c && all_vin_chars cs

abbrev pub any_forbidden : Text → Bool
any_forbidden [] = false
any_forbidden (c ∷ cs) = is_forbidden c || any_forbidden cs

-- The test on a normalised text.
unfoldable pub is_well_formed : Text → Bool
is_well_formed vin = length vin == 17 && all_vin_chars vin && not (any_forbidden vin)

unfoldable pub is_well_formed_vin : Text → Bool
unfolding is_well_formed
is_well_formed_vin candidate = is_well_formed (to_upper_case (trim candidate))

pub data VinCheckResult : Type 0 where
  valid invalid_check_digit malformed : VinCheckResult

pub data Note : Type 0 where
  check_digit_mismatch : Text → Text → Note
  wrong_length : ℕ → Note
  forbidden_letter : Note
  foreign_character : Note

pub record VinAnalysis : Type 0 where
  pub vin : Text
  pub well_formed : Bool
  pub check_digit : VinCheckResult
  pub check_digit_char : Text
  pub expected_check_digit_char : Text
  pub wmi : Text
  pub model_year_char : Text
  pub plant_char : Text
  pub serial : Text
  pub notes : List Note

-- `vin[i] ?? ""`
abbrev pub char_at : ℕ → Text → Text
char_at i vin = take 1 (drop i vin)

abbrev pub note_if : Bool → Note → List Note
note_if true note = note ∷ []
note_if false note = []

-- `CHARACTER_CLASS` asks for one character at least.
unfoldable pub malformed_notes : Text → List Note
malformed_notes vin =
    note_if (not (length vin == 17)) (wrong_length (length vin))
    ++ note_if (any_forbidden vin) forbidden_letter
    ++ note_if (ltb 0 (length vin) && not (all_vin_chars vin)) foreign_character

-- `analyseVin` on the normalised text; `isWellFormedVin` and `computeVinCheckDigit` normalise it again.
unfoldable pub analyse_normalized : Text → VinAnalysis
unfolding is_well_formed_vin compute_vin_check_digit malformed_notes
analyse_normalized vin =
    let well = is_well_formed_vin vin in
    let expected = if well then compute_vin_check_digit vin else [] in
    let actual = char_at 8 vin in
    let same = eq_text actual expected in
    record {
      vin = vin;
      well_formed = well;
      check_digit = if well then (if same then valid else invalid_check_digit) else malformed;
      check_digit_char = actual;
      expected_check_digit_char = expected;
      wmi = take 3 vin;
      model_year_char = char_at 9 vin;
      plant_char = char_at 10 vin;
      serial = drop 11 vin;
      notes =
          if well
          then note_if (not same) (check_digit_mismatch actual expected)
          else malformed_notes vin;
    }

unfoldable pub analyse_vin : Text → VinAnalysis
unfolding analyse_normalized
analyse_vin candidate = analyse_normalized (to_upper_case (trim candidate))

-- The loop of `guessModelYear` over the candidates.
unfoldable pub best_year : ℕ → ℕ → List ℕ → ℕ
best_year reference best [] = best
best_year reference best (y ∷ ys) =
    best_year reference (if leb y (reference + 1) && ltb best y then y else best) ys

-- `guessModelYear`, on the years that the code can stand for.
unfoldable pub guess_model_year : List ℕ → ℕ → Option ℕ
unfolding best_year
guess_model_year [] reference = none
guess_model_year (y ∷ ys) reference = some (best_year reference y (y ∷ ys))
