-- ===== src/Text.antt =====
-- JavaScript strings as lists of code units, with the built-ins that the source calls on them.
-- Case conversion is that of ASCII.
use mathlib.Core.Path.{ap₂}
use yes_you_can.Prelude.{
  ℕ, zero, suc, ◌+◌, ◌-◌, ◌*◌, ◌/◌, ◌%◌, ◌≡◌, refl, ap, ◌∙◌, ◌↔◌, Bool, true, false, ◌&&◌, ◌||◌,
  List, [], ◌∷◌, ◌++◌, map, arith, ◌<◌, ◌≤◌, inl, inr, Bool-cases, ltb, leb, ◌==◌, if◌then◌else◌,
  ==_iff, ==_refl, &&_iff,
}
use mathlib.Core.List.{reverse}
use Prim.Native.Char.{code}
use Prim.Native.String.{String}

abbrev pub Text : Type 0
Text = List ℕ

-- The code units of a literal.
abbrev pub codes : String → Text
codes String.[] = []
codes (String.◌∷◌ c s) = code c ∷ codes s

abbrev pub is_digit : ℕ → Bool
is_digit c = leb b'0' c && leb c b'9'

-- /[0-9A-Fa-f]/
abbrev pub is_hex_digit : ℕ → Bool
is_hex_digit c = is_digit c || (leb b'A' c && leb c b'F') || (leb b'a' c && leb c b'f')

-- One digit of `Number.parseInt(…, 16)`, on a character that passed the test above.
abbrev pub hex_value : ℕ → ℕ
hex_value c = if leb c b'9' then c - 48 else if leb c b'F' then c - 55 else c - 87

-- One digit of `n.toString(16).toUpperCase()`, for n below 16.
abbrev pub hex_digit : ℕ → ℕ
hex_digit n = if ltb n 10 then 48 + n else 55 + n

-- `Number.parseInt(text, 16)` on hexadecimal digits
unfoldable pub parse_hex_from : ℕ → Text → ℕ
parse_hex_from acc [] = acc
parse_hex_from acc (c ∷ cs) = parse_hex_from (acc * 16 + hex_value c) cs

abbrev pub parse_hex : Text → ℕ
parse_hex text = parse_hex_from 0 text

abbrev pub all_hex : Text → Bool
all_hex [] = true
all_hex (c ∷ cs) = is_hex_digit c && all_hex cs

-- The `width` lowest hexadecimal digits of n in upper case, which is
-- `n.toString(16).padStart(width, "0").toUpperCase()` for n below 16 ^ width.
unfoldable pub hex_padded : ℕ → ℕ → Text
hex_padded zero n = []
hex_padded (suc width) n = hex_padded width (n / 16) ++ (hex_digit (n % 16) ∷ [])

-- The white space and line ends of `String.prototype.trim`.
abbrev pub is_space : ℕ → Bool
is_space c =
    (leb 9 c && leb c 13)
    || c == 32
    || c == 160
    || c == 0x1680
    || (leb 0x2000 c && leb c 0x200a)
    || c == 0x2028
    || c == 0x2029
    || c == 0x202f
    || c == 0x205f
    || c == 0x3000
    || c == 0xfeff

unfoldable pub trim_start : Text → Text
trim_start [] = []
trim_start (c ∷ cs) = if is_space c then trim_start cs else c ∷ cs

unfoldable pub trim : Text → Text
unfolding trim_start
trim text = reverse (trim_start (reverse (trim_start text)))

abbrev pub upper : ℕ → ℕ
upper c = if leb b'a' c && leb c b'z' then c - 32 else c

abbrev pub lower : ℕ → ℕ
lower c = if leb b'A' c && leb c b'Z' then c + 32 else c

abbrev pub to_lower_case : Text → Text
to_lower_case text = map lower text

-- `String(n)`, with the number of digits that there is fuel for; n + 1 digits are enough, which
-- `decimal_from-enough` states.
unfoldable pub decimal_from : ℕ → ℕ → Text
decimal_from zero n = []
decimal_from (suc fuel) n =
    let rest = decimal_from fuel (n / 10) in
    if ltb n 10 then (48 + n) ∷ [] else rest ++ ((48 + n % 10) ∷ [])

unfoldable pub decimal : ℕ → Text
unfolding decimal_from
decimal n = decimal_from (n + 1) n

-- More fuel than the number gives the same digits.
pub decimal_from-enough : (f g n : ℕ) → n < f → n < g → decimal_from f n ≡ decimal_from g n
unfolding decimal_from
decimal_from-enough zero g n h k = absurd (omega arith)
decimal_from-enough (suc f) zero n h k = absurd (omega arith)
decimal_from-enough (suc f) (suc g) n h k = elim (Bool-cases (ltb n 10)) [
  | inl small ↦ rw small refl
  | inr large ↦
      let big : 10 ≤ n = ground arith in
      let same = decimal_from-enough f g (n / 10) (omega arith) (omega arith) in
      rw (large, same) refl
]

abbrev pub to_upper_case : Text → Text
to_upper_case text = map upper text

abbrev pub eq_text : Text → Text → Bool
eq_text [] [] = true
eq_text [] (d ∷ ds) = false
eq_text (c ∷ cs) [] = false
eq_text (c ∷ cs) (d ∷ ds) = c == d && eq_text cs ds

pub eq_text_refl : (s : Text) → eq_text s s ≡ true
eq_text_refl [] = refl
eq_text_refl (c ∷ cs) = (&&_iff (c == c) (eq_text cs cs)).1 (==_refl c, eq_text_refl cs)

pub eq_text_iff : (s t : Text) → (eq_text s t ≡ true) ↔ (s ≡ t)
eq_text_iff [] [] = (λ h. refl, λ h. refl)
eq_text_iff [] (d ∷ ds) = (λ h. cc, λ h. cc)
eq_text_iff (c ∷ cs) [] = (λ h. cc, λ h. cc)
eq_text_iff (c ∷ cs) (d ∷ ds) = (
  λ h.
      let (same, rest) = (&&_iff (c == d) (eq_text cs ds)).0 h in
      ap₂ (λ x xs. x ∷ xs) ((==_iff c d).0 same) ((eq_text_iff cs ds).0 rest),
  λ h. ap (λ t. eq_text t (d ∷ ds)) h ∙ eq_text_refl (d ∷ ds),
)
