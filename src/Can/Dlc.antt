-- ===== src/Can/Dlc.antt =====
-- The data length code: the table and its inverse.
use yes_you_can.Prelude.{
  ℕ, zero, suc, ◌+◌, ◌≤◌, ◌<◌, min, ◌≡◌, inl, inr, true, List, [], ◌∷◌, arith, leb, leb→le,
  Bool-cases, length, get_or,
}
use yes_you_can.Can.{can_max_dlc, fd_lengths, dlc_to_length, length_to_dlc, length_to_dlc_from}

-- The loop stops at the first entry that is large enough, if there is one.
first_fit :
    (ls : List ℕ) (k n m : ℕ)
    → m < length ls
    → n ≤ get_or ls m can_max_dlc
    → (i : ℕ) × (length_to_dlc_from ls k n ≡ k + i) × (i ≤ m) × (n ≤ get_or ls i can_max_dlc)
unfolding length_to_dlc_from
first_fit [] k n m h e = absurd (omega arith)
first_fit (l ∷ ls) k n zero h e = (0, ground arith, omega arith, e)
first_fit (l ∷ ls) k n (suc m) h e = elim (Bool-cases (leb n l)) [
  | inl fits ↦ (0, rw fits (omega arith), omega arith, leb→le n l fits)
  | inr more ↦
      let (i, stops, below, room) = first_fit ls (k + 1) n m (omega arith) e in
      (suc i, rw more (omega arith), omega arith, room)
]

-- On CAN FD the code of a length up to 64 is at most 15, its frame has room for the length, and no
-- code `dlc` whose frame has room for the length is less.
pub length_to_dlc_least :
    (n dlc : ℕ)
    → n ≤ 64
    → n ≤ dlc_to_length dlc true
    → (n ≤ dlc_to_length (length_to_dlc n true) true)
      × (length_to_dlc n true ≤ 15)
      × (length_to_dlc n true ≤ dlc)
unfolding length_to_dlc dlc_to_length
length_to_dlc_least n dlc h k = (room, omega (arith, found), least k)
  where
    found :
        (i : ℕ) × (length_to_dlc_from fd_lengths 0 n ≡ 0 + i)
        × (i ≤ 15)
        × (n ≤ get_or fd_lengths i can_max_dlc)
    found = first_fit fd_lengths 0 n 15 (omega arith) (omega arith)

    room : n ≤ get_or fd_lengths (min (length_to_dlc_from fd_lengths 0 n) 15) can_max_dlc
    room =
        let (i, stops, below, fits) = found in
        let same : min (length_to_dlc_from fd_lengths 0 n) 15 ≡ i = omega arith in rw same fits

    least : n ≤ get_or fd_lengths (min dlc 15) can_max_dlc → length_to_dlc_from fd_lengths 0 n ≤ dlc
    least e =
        let (i, stops, below, fits) = first_fit fd_lengths 0 n (min dlc 15) (omega arith) e in
        omega arith
