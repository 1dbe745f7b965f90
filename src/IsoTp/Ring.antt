-- ===== src/IsoTp/Ring.antt =====
-- packages/transport/iso-tp/src/connection.ts: the witness ring, which every frame is recorded in.
mod Branches
use yes_you_can.Prelude.{
  ℕ, zero, suc, ◌+◌, ◌-◌, ◌≤◌, ◌≡◌, refl, sym, ap, ◌∙◌, inl, inr, true, false, List, [], ◌∷◌, ◌++◌,
  append_assoc, append-nil, arith, ltb, leb, Bool-cases, length, drop, length-append, length-drop,
}
use yes_you_can.Bytes.{to_hex}
use yes_you_can.Can.{CanFrame}
use yes_you_can.IsoTp.Errors.{WitnessFrame}
use yes_you_can.IsoTp.Options.{IsoTpOptions}
use yes_you_can.IsoTp.Receiver.{handle_frame, handle_frames}
use yes_you_can.IsoTp.Ring.Branches.{Quiet-handle_frame}
use yes_you_can.IsoTp.Connection.{
  Connection, initial_connection, record_witness, shift_over, witness_limit,
}

-- The entries of a sequence of frames, numbered from the one after `n`.
abbrev pub entries : ℕ → List (ℕ × CanFrame) → List WitnessFrame
entries n [] = []
entries n ((now, frame) ∷ more) =
    (record { seq = n + 1; at = now; id = frame.id; data_hex = to_hex frame.payload (32 ∷ []) })
    ∷ entries (n + 1) more

module _ {A : Type 0} where
  drop-append_short : (k : ℕ) (xs ys : List A) → k ≤ length xs → drop k (xs ++ ys) ≡ drop k xs ++ ys
  drop-append_short zero xs ys h = refl
  drop-append_short (suc k) [] ys h = absurd (omega arith)
  drop-append_short (suc k) (x ∷ xs) ys h = drop-append_short k xs ys (omega arith)

  drop_one-drop : (k : ℕ) (xs : List A) → drop 1 (drop k xs) ≡ drop (suc k) xs
  drop_one-drop zero xs = refl
  drop_one-drop (suc k) [] = refl
  drop_one-drop (suc k) (x ∷ xs) = drop_one-drop k xs

-- The last entries of a list, as many as the ring has room for.
abbrev last_entries : List WitnessFrame → List WitnessFrame
last_entries all = drop (length all - witness_limit) all

shift_over-last_entries :
    (all : List WitnessFrame) (e : WitnessFrame)
    → shift_over witness_limit (last_entries all ++ (e ∷ [])) ≡ last_entries (all ++ (e ∷ []))
unfolding shift_over
shift_over-last_entries all e =
    let k = length all - 32 in
    let n = length-drop k all in
    let long = length-append (drop k all) (e ∷ []) in
    let longer = length-append all (e ∷ []) in
    elim (Bool-cases (leb 32 (length all))) [
      | inl full ↦
          let over : ltb 32 (length (drop k all ++ (e ∷ []))) ≡ true = ground (arith, n, long) in
          let next : length (all ++ (e ∷ [])) - 32 ≡ suc k = ground (arith, longer) in
          rw (over, next)
            (ap (drop 1) (sym (drop-append_short k all (e ∷ []) (omega arith)))
              ∙ drop_one-drop k (all ++ (e ∷ [])))
      | inr room ↦
          let fits : ltb 32 (length (drop k all ++ (e ∷ []))) ≡ false = ground (arith, n, long) in
          let none_before : k ≡ 0 = ground arith in
          let none_after : length (all ++ (e ∷ [])) - 32 ≡ 0 = ground (arith, longer) in
          rw (fits, none_after) (ap (λ i. drop i all ++ (e ∷ [])) none_before)
    ]

ring_from :
    (o : IsoTpOptions) (frames : List (ℕ × CanFrame)) (c : Connection) (all : List WitnessFrame)
    → c.witness ≡ last_entries all
    → (handle_frames o frames c).0.witness ≡ last_entries (all ++ entries c.witness_seq frames)
unfolding handle_frames
ring_from o [] c all h = h ∙ ap last_entries (sym (append-nil all))
ring_from o ((now, frame) ∷ more) c all h =
    let e : WitnessFrame = record {
      seq = c.witness_seq + 1;
      at = now;
      id = frame.id;
      data_hex = to_hex frame.payload (32 ∷ []);
    } in
    let q = Quiet-handle_frame o now frame c in
    let recorded : (handle_frame o now frame c).0.witness ≡ last_entries (all ++ (e ∷ [])) =
      unfold record_witness in
      (q.ring
        ∙ ap (λ t. shift_over witness_limit (t ++ (e ∷ []))) h
        ∙ shift_over-last_entries all e) in
    let numbered : (handle_frame o now frame c).0.witness_seq ≡ c.witness_seq + 1 =
      unfold record_witness in q.numbered in
    ring_from o more (handle_frame o now frame c).0 (all ++ (e ∷ [])) recorded
    ∙ ap (λ (n : ℕ). last_entries ((all ++ (e ∷ [])) ++ entries n more)) numbered
    ∙ ap last_entries (append_assoc all (e ∷ []) (entries (c.witness_seq + 1) more))

-- From a new connection on, once it has handled any frames, whether they are for it or not, the witness
-- ring holds exactly the last 32 of the frames, or all of them if there were fewer, in the order of
-- arrival and numbered from 1.
pub ring_holds_last :
    (o : IsoTpOptions) (frames : List (ℕ × CanFrame))
    → (handle_frames o frames initial_connection).0.witness
      ≡ drop (length (entries 0 frames) - witness_limit) (entries 0 frames)
unfolding initial_connection
ring_holds_last o frames = ring_from o frames initial_connection [] refl
