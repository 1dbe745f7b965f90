-- ===== src/Writes/Coding/Edits.antt =====
-- packages/core/src/writes/coding.ts: what the changes of a coding block do together.
use yes_you_can.Prelude.{
  ℕ, ◌+◌, ◌<◌, ◌≡◌, refl, sym, ap, ◌∙◌, ◌⊎◌, inl, inr, Bool, true, false, ◌&&◌, List, [], ◌∷◌, ◌++◌,
  arith, if◌then◌else◌, length, get_or, length-append, All,
}
use yes_you_can.Bytes.{Bytes, IsByte}
use yes_you_can.Writes.Coding.{
  CodingChange, CodingError, DiffLine, bit_of, apply_change, apply_from, apply_coding_changes,
}
use yes_you_can.Writes.Coding.Changes.{
  valid_change, is_at, named_bit, Changed, apply_change-Changed,
}

pub all_valid : ℕ → List CodingChange → Bool
unfolding valid_change
all_valid size [] = true
all_valid size (c ∷ cs) = valid_change size c && all_valid size cs

-- The bit j of the byte i after all the changes, if it was d: the last change that names it wins.
pub last_named : List CodingChange → ℕ → ℕ → ℕ → ℕ
unfolding is_at named_bit
last_named [] i j d = d
last_named (c ∷ cs) i j d =
    last_named cs i j (if is_at c.byte_index i then named_bit c.bit_index c.value j d else d)

-- What all the changes do.
pub Edited :
    List CodingChange → Bytes → List DiffLine → CodingError ⊎ (Bytes × List DiffLine) → Type 0
unfolding all_valid last_named
Edited cs bytes summary (inl error) = all_valid (length bytes) cs ≡ false
Edited cs bytes summary (inr (bytes', summary')) =
    (all_valid (length bytes) cs ≡ true)
    × (length bytes' ≡ length bytes)
    × All IsByte bytes'
    × (length summary' ≡ length summary + length cs)
    × ((i j : ℕ)
        → j < 8
        → bit_of (get_or bytes' i 0) j ≡ last_named cs i j (bit_of (get_or bytes i 0) j))

-- A round of the loop, and the rest of it.
edit_more :
    (c : CodingChange) (cs : List CodingChange) (bytes bytes' : Bytes) (line : DiffLine)
    (summary : List DiffLine) (r : CodingError ⊎ (Bytes × List DiffLine))
    → Changed c bytes (inr (bytes', line))
    → Edited cs bytes' (summary ++ (line ∷ [])) r
    → Edited (c ∷ cs) bytes summary r
unfolding Edited all_valid last_named Changed
edit_more c cs bytes bytes' line summary (inl error) one more =
    rw one.0 (ap (λ (n : ℕ). all_valid n cs) (sym one.1) ∙ more)
edit_more c cs bytes bytes' line summary (inr (after, lines)) one more = (
  rw one.0 (ap (λ (n : ℕ). all_valid n cs) (sym one.1) ∙ more.0),
  more.1 ∙ one.1,
  more.2,
  omega (arith, more.3, length-append summary (line ∷ [])),
  λ (i j : ℕ) (low : j < 8). more.4 i j low ∙ ap (λ (d : ℕ). last_named cs i j d) (one.3 i j low),
)

stopped :
    (c : CodingChange) (cs : List CodingChange) (bytes : Bytes) (summary : List DiffLine)
    (error : CodingError)
    → Changed c bytes (inl error)
    → Edited (c ∷ cs) bytes summary (inl error)
unfolding Edited all_valid Changed
stopped c cs bytes summary error h = rw h refl

Edited-step :
    (c : CodingChange) (cs : List CodingChange) (bytes : Bytes) (summary : List DiffLine)
    (r : CodingError ⊎ (Bytes × DiffLine))
    → Changed c bytes r
    → ((bs : Bytes) (lines : List DiffLine)
        → All IsByte bs
        → Edited cs bs lines (apply_from cs bs lines))
    → Edited (c ∷ cs) bytes summary (elim r [
      | inl error ↦ inl error
      | inr (bytes', line) ↦ apply_from cs bytes' (summary ++ (line ∷ []))
    ])
Edited-step c cs bytes summary (inl error) h ih = stopped c cs bytes summary error h
Edited-step c cs bytes summary (inr (bytes', line)) h ih =
    edit_more c cs bytes bytes' line summary (apply_from cs bytes' (summary ++ (line ∷ []))) h
      (ih bytes' (summary ++ (line ∷ [])) (unfold Changed in h.2))

apply_from-Edited :
    (cs : List CodingChange) (bytes : Bytes) (summary : List DiffLine)
    → All IsByte bytes
    → Edited cs bytes summary (apply_from cs bytes summary)
unfolding apply_from
apply_from-Edited [] bytes summary bs =
    unfold Edited all_valid last_named in
    (refl, refl, bs, omega arith, λ (i j : ℕ) (low : j < 8). refl)
apply_from-Edited (c ∷ cs) bytes summary bs =
    Edited-step c cs bytes summary (apply_change c bytes) (apply_change-Changed c bytes bs)
      (apply_from-Edited cs)

-- The changes of a coding block are applied exactly if each names a byte of the block and a value of
-- the right size, and a bit of the byte if it names one. Then the block keeps its length and its
-- bytes, the summary has one line for each change, and every bit of every byte is what the last
-- change that names it says, or the bit of the original if none names it.
pub apply_coding_changes-Edited :
    (original : Bytes) (changes : List CodingChange)
    → All IsByte original
    → Edited changes original [] (apply_coding_changes original changes)
unfolding apply_coding_changes
apply_coding_changes-Edited original changes h = apply_from-Edited changes original [] h
