-- ===== src/Writes/Coding/Changes.antt =====
-- packages/core/src/writes/coding.ts: which changes are accepted, and what one of them does to every bit.
use yes_you_can.Prelude.{
  ℕ, zero, suc, ◌<◌, ◌≡◌, refl, ap, ◌∙◌, ◌⊎◌, inl, inr, Bool, true, false, ◌&&◌, Option, none, some,
  [], ◌∷◌, arith, ltb, ◌==◌, if◌then◌else◌, ==_iff, ltb→lt, Bool-cases, length, get_or, All,
}
use yes_you_can.Prelude.Int.{ℤ, pos, negsuc}
use yes_you_can.Bytes.{Bytes, IsByte}
use yes_you_can.Writes.Coding.{
  CodingChange, CodingError, DiffLine, within, set_byte, bit_of, put_bit, change_bit, change_byte,
  change_at, apply_change,
}
use yes_you_can.Writes.Coding.Bits.{bit_of-put_bit, put_bit-IsByte}

-- A change that names a byte of the block, a bit of it or none, and a value of the right size.
unfoldable pub in_range : ℕ → ℤ → Bool
in_range bound (pos n) = ltb n bound
in_range bound (negsuc n) = false

unfoldable pub valid_value : Option ℤ → ℤ → Bool
unfolding in_range
valid_value none value = in_range 256 value
valid_value (some bit) value = in_range 8 bit && in_range 2 value

unfoldable pub valid_change : ℕ → CodingChange → Bool
unfolding valid_value
valid_change size c = in_range size c.byte_index && valid_value c.bit_index c.value

unfoldable pub is_at : ℤ → ℕ → Bool
is_at (pos n) i = n == i
is_at (negsuc n) i = false

abbrev magnitude : ℤ → ℕ
magnitude (pos n) = n
magnitude (negsuc n) = 0

-- The bit j of a byte that a change names, if the bit was d.
unfoldable pub named_bit : Option ℤ → ℤ → ℕ → ℕ → ℕ
unfolding is_at
named_bit none value j d = bit_of (magnitude value) j
named_bit (some bit) value j d = if is_at bit j then magnitude value else d

-- What one change does.
unfoldable pub Changed : CodingChange → Bytes → CodingError ⊎ (Bytes × DiffLine) → Type 0
unfolding valid_change is_at named_bit
Changed c bytes (inl error) = valid_change (length bytes) c ≡ false
Changed c bytes (inr (bytes', line)) =
    (valid_change (length bytes) c ≡ true)
    × (length bytes' ≡ length bytes)
    × All IsByte bytes'
    × ((i j : ℕ)
        → j < 8
        → bit_of (get_or bytes' i 0) j ≡ (
            if is_at c.byte_index i
            then named_bit c.bit_index c.value j (bit_of (get_or bytes i 0) j)
            else bit_of (get_or bytes i 0) j))

length-set_byte : (bytes : Bytes) (k v : ℕ) → length (set_byte bytes k v) ≡ length bytes
unfolding set_byte
length-set_byte [] k v = refl
length-set_byte (b ∷ bs) zero v = refl
length-set_byte (b ∷ bs) (suc k) v = ap suc (length-set_byte bs k v)

get_or-set_byte :
    (bytes : Bytes) (k v i : ℕ)
    → k < length bytes
    → get_or (set_byte bytes k v) i 0 ≡ (if k == i then v else get_or bytes i 0)
unfolding set_byte
get_or-set_byte [] k v i h = absurd (omega arith)
get_or-set_byte (b ∷ bs) zero v zero h = ground arith
get_or-set_byte (b ∷ bs) zero v (suc i) h = ground arith
get_or-set_byte (b ∷ bs) (suc k) v zero h = ground arith
get_or-set_byte (b ∷ bs) (suc k) v (suc i) h = ground (arith, get_or-set_byte bs k v i)

All-set_byte :
    (bytes : Bytes) (k v : ℕ) → All IsByte bytes → IsByte v → All IsByte (set_byte bytes k v)
unfolding set_byte
All-set_byte [] k v h b = h
All-set_byte (x ∷ xs) zero v h b = (b, h.1)
All-set_byte (x ∷ xs) (suc k) v h b = (h.0, All-set_byte xs k v h.1 b)

get_or-IsByte : (bytes : Bytes) (i : ℕ) → All IsByte bytes → IsByte (get_or bytes i 0)
get_or-IsByte [] i h = omega arith
get_or-IsByte (b ∷ bs) zero h = h.0
get_or-IsByte (b ∷ bs) (suc i) h = get_or-IsByte bs i h.1

-- An integer within a bound, or not.
within_cases :
    (bound : ℕ) (z : ℤ)
    → ((within bound z ≡ none) × (in_range bound z ≡ false))
      ⊎ ((n : ℕ) × (within bound z ≡ some n) × (z ≡ pos n) × (n < bound))
unfolding within in_range
within_cases bound (negsuc n) = inl (refl, refl)
within_cases bound (pos n) = elim (Bool-cases (ltb n bound)) [
  | inl small ↦ inr (n, rw small refl, refl, ltb→lt n bound small)
  | inr large ↦ inl (rw large refl, large)
]

-- The bit j of a byte that is stored, or of the old one.
stored_bit :
    (bytes : Bytes) (k v i j d : ℕ)
    → k < length bytes
    → (k ≡ i → bit_of v j ≡ d)
    → bit_of (get_or (set_byte bytes k v) i 0) j
      ≡ (if k == i then d else bit_of (get_or bytes i 0) j)
stored_bit bytes k v i j d h e = rw (get_or-set_byte bytes k v i h) (elim (Bool-cases (k == i)) [
  | inl here ↦ rw here (e ((==_iff k i).0 here))
  | inr away ↦ rw away refl
])

lt→ltb : (a b : ℕ) → a < b → ltb a b ≡ true
lt→ltb a b h = ground arith

change_byte-Changed :
    (c : CodingChange) (bytes : Bytes) (k : ℕ)
    → All IsByte bytes
    → c.byte_index ≡ pos k
    → k < length bytes
    → c.bit_index ≡ none
    → Changed c bytes (change_byte c bytes k (within 256 c.value))
unfolding Changed change_byte valid_change valid_value in_range is_at named_bit
change_byte-Changed c bytes k bs at_k h whole = elim (within_cases 256 c.value) [
  | inl (out, bad) ↦ rw (out, at_k, whole, bad, lt→ltb k (length bytes) h) refl
  | inr (v, yes_v, is_v, small) ↦
      rw (yes_v, at_k, whole, is_v)
        (
          rw (lt→ltb k (length bytes) h, lt→ltb v 256 small) refl,
          length-set_byte bytes k v,
          All-set_byte bytes k v bs small,
          λ (i j : ℕ) (low : j < 8). stored_bit bytes k v i j (bit_of v j) h (λ e. refl),
        )
]

change_bit-Changed :
    (c : CodingChange) (bytes : Bytes) (k : ℕ) (bit : ℤ)
    → All IsByte bytes
    → c.byte_index ≡ pos k
    → k < length bytes
    → c.bit_index ≡ some bit
    → Changed c bytes (change_bit c bytes k bit (within 8 bit) (within 2 c.value))
unfolding Changed change_bit valid_change valid_value in_range is_at named_bit
change_bit-Changed c bytes k bit bs at_k h one =
    let old = get_or bytes k 0 in
    elim (within_cases 8 bit) [
      | inl (out, bad) ↦ rw (out, at_k, one, bad, lt→ltb k (length bytes) h) refl
      | inr (b, at_b, is_b, low) ↦ elim (within_cases 2 c.value) [
        | inl (out, bad) ↦
            rw (at_b, out, at_k, one, is_b, bad, lt→ltb k (length bytes) h, lt→ltb b 8 low) refl
        | inr (v, at_v, is_v, small) ↦
            rw (at_b, at_v, at_k, one, is_b, is_v)
              (
                rw (lt→ltb k (length bytes) h, lt→ltb b 8 low, lt→ltb v 2 small) refl,
                length-set_byte bytes k (put_bit old b v),
                All-set_byte bytes k (put_bit old b v) bs
                    (put_bit-IsByte old b v (get_or-IsByte bytes k bs) low small),
                λ (i j : ℕ) (inside : j < 8).
                    stored_bit bytes k (put_bit old b v) i j
                      (if b == j then v else bit_of (get_or bytes i 0) j) h
                      (λ (e : k ≡ i).
                        bit_of-put_bit old b v j (get_or-IsByte bytes k bs) low inside small
                        ∙ ap (λ (n : ℕ). if b == j then v else bit_of (get_or bytes n 0) j) e),
              )
      ]
    ]

change_at-Changed :
    (c : CodingChange) (bytes : Bytes) (k : ℕ) (bit_index : Option ℤ)
    → All IsByte bytes
    → c.byte_index ≡ pos k
    → k < length bytes
    → c.bit_index ≡ bit_index
    → Changed c bytes (change_at c bytes (some k) bit_index)
unfolding change_at
change_at-Changed c bytes k none bs at_k low e = change_byte-Changed c bytes k bs at_k low e
change_at-Changed c bytes k (some bit) bs at_k low e =
    change_bit-Changed c bytes k bit bs at_k low e

pub apply_change-Changed :
    (c : CodingChange) (bytes : Bytes) → All IsByte bytes → Changed c bytes (apply_change c bytes)
unfolding apply_change
apply_change-Changed c bytes bs = elim (within_cases (length bytes) c.byte_index) [
  | inl (out, bad) ↦ rw out (unfold Changed valid_change change_at in rw bad refl)
  | inr (k, at_k, is_k, low) ↦ rw at_k (change_at-Changed c bytes k c.bit_index bs is_k low refl)
]
