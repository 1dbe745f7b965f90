-- ===== src/IsoTp/Sender/Prefix.antt =====
-- What `transmit` puts on the wire: a prefix of the segmented payload, and all of it if it reports
-- success; and the fuel of its loop is enough.
use yes_you_can.Prelude.{
  ℕ, zero, suc, ◌+◌, ◌%◌, ◌≤◌, ◌<◌, ◌≡◌, refl, sym, ap, ◌∙◌, ◌≢◌, inl, inr, true, false, ◌&&◌, List,
  [], ◌∷◌, ◌++◌, map, arith, ltb, leb, ◌==◌, if◌then◌else◌, if_cases, Bool-cases, length, drop,
  length-drop,
}
use yes_you_can.Bytes.{Bytes}
use yes_you_can.IsoTp.Options.{
  IsoTpOptions, padded, with_address, frame_payload_capacity, single_frame_capacity,
}
use yes_you_can.IsoTp.Segment.{
  single_frame_body, first_chunk_length, first_frame_body, chunk_length, consecutive_body,
  consecutive_bodies, segments, capacity_bounds, single_frame_fits,
}
use yes_you_can.IsoTp.Sender.{
  FlowControlFrame, FlowEvent, Environment, Action, count, sleep, tx_single_frames, Outcome, sent,
  failed, stuck, timeouts, Run, end_with, after, write_frame, await_flow_control, Progress, grant,
  advance, is_empty, pause, message_sent, started, after_consecutive, send_round, send_consecutive,
  send_multi_frame, send_single_frame, transmit, written, written-append,
}
use yes_you_can.IsoTp.Sender.Rules.{IsCut, answer_rule, await_rule}

-- The payloads on the wire of a list of frame bodies.
abbrev pub wires : IsoTpOptions → List Bytes → List Bytes
wires o bodies = map (λ body. with_address o (padded o body)) bodies

-- A run has written a prefix of `target`, and all of it if it ends with `sent`; it is not stuck.
pub record Sends (target : List Bytes) (run : Run) : Type 0 where
  pub tail : List Bytes
  pub prefix : written run.actions ++ tail ≡ target
  pub whole : run.outcome ≡ sent → tail ≡ []
  pub ends : run.outcome ≢ stuck

Sends-cut : (target : List Bytes) (out : Outcome) → IsCut out → Sends target (end_with out)
unfolding written
Sends-cut target out h = record {
  tail = target;
  prefix = refl;
  whole = λ e. absurd (h.0 e);
  ends = h.1;
}

Sends-after :
    (target : List Bytes) (quiet : List Action)
    → written quiet ≡ []
    → (run : Run) → Sends target run
    → Sends target (after quiet run)
Sends-after target quiet h run s = record {
  tail = s.tail;
  prefix = rw (written-append quiet run.actions) (rw h s.prefix);
  whole = s.whole;
  ends = s.ends;
}

Sends-write :
    (o : IsoTpOptions) (body : Bytes) (target : List Bytes) (env : Environment)
    (next : Environment → Run)
    → ((env' : Environment) → Sends target (next env'))
    → Sends (with_address o (padded o body) ∷ target) (write_frame o (padded o body) env next)
unfolding write_frame written
Sends-write o body target env next h =
    let s =
      answer_rule (Sends target) (Sends-cut target) env.writes
        (λ more. next (record env { writes = more })) (λ more. h (record env { writes = more })) in
    record {
      tail = s.tail;
      prefix = ap (λ t. with_address o (padded o body) ∷ t) s.prefix;
      whole = s.whole;
      ends = s.ends;
    }

Sends-await :
    (target : List Bytes) (wft_max : ℕ) (flows : List FlowEvent)
    (next : FlowControlFrame → List FlowEvent → Run)
    → ((fc : FlowControlFrame) (more : List FlowEvent) → Sends target (next fc more))
    → Sends target (await_flow_control wft_max 0 flows next)
unfolding written
Sends-await target wft_max flows next h =
    await_rule (Sends target) (Sends-cut target) (Sends-after target (count timeouts ∷ []) refl)
      wft_max 0 flows next h

pub written-pause : (tenths : ℕ) → written (pause tenths) ≡ []
unfolding written
written-pause tenths =
    if_cases (λ acts. written acts ≡ []) (ltb 0 tenths) (sleep tenths ∷ []) [] refl refl

Sends-message_sent : Sends [] message_sent
unfolding written
Sends-message_sent = record { tail = []; prefix = refl; whole = λ e. refl; ends = λ e. cc }

pub bodies_of_nil : (fuel capacity sequence : ℕ) → consecutive_bodies fuel capacity sequence [] ≡ []
unfolding consecutive_bodies
bodies_of_nil zero capacity sequence = refl
bodies_of_nil (suc fuel) capacity sequence = refl

nil_of_is_empty : (rest : Bytes) → is_empty rest ≡ true → rest ≡ []
nil_of_is_empty [] h = refl
nil_of_is_empty (b ∷ bs) h = cc

bodies_step :
    (fuel capacity sequence : ℕ) (rest : Bytes)
    → is_empty rest ≡ false
    → consecutive_bodies (suc fuel) capacity sequence rest
      ≡ consecutive_body capacity sequence rest
        ∷ consecutive_bodies fuel capacity
            ((sequence + 1) % 16)
            (drop (chunk_length capacity rest) rest)
unfolding consecutive_bodies
bodies_step fuel capacity sequence [] h = cc
bodies_step fuel capacity sequence (b ∷ bs) h = refl

-- Each Consecutive Frame takes at least one byte.
pub rest_shrinks :
    (capacity : ℕ) (rest : Bytes)
    → 1 < capacity
    → is_empty rest ≡ false
    → length (drop (chunk_length capacity rest) rest) < length rest
rest_shrinks capacity [] c h = cc
rest_shrinks capacity (b ∷ bs) c h =
    omega (arith, length-drop (chunk_length capacity (b ∷ bs)) (b ∷ bs))

module _ (o : IsoTpOptions) (again : Progress → Environment → Run) where
  after_consecutive-Sends :
      (fuel : ℕ) (s : Progress) (env : Environment)
      → let target =
          wires o (consecutive_bodies fuel (frame_payload_capacity o) s.sequence s.rest) in
        ((fc : FlowControlFrame) (env' : Environment) → Sends target (again (grant s fc) env'))
        → ((env' : Environment) → Sends target (again s env'))
        → Sends target (after_consecutive o s again env)
  unfolding after_consecutive
  after_consecutive-Sends fuel s env granted free = elim (Bool-cases (is_empty s.rest)) [
    | inl done ↦
        rw (nil_of_is_empty s.rest done)
          (rw (bodies_of_nil fuel (frame_payload_capacity o) s.sequence) Sends-message_sent)
    | inr more ↦
        let target =
          wires o (consecutive_bodies fuel (frame_payload_capacity o) s.sequence s.rest) in
        rw more (
          Sends-after target (pause s.st_min_tenths) (written-pause s.st_min_tenths) _ (
            if_cases (Sends target) (ltb 0 s.current_block && leb s.current_block s.in_block) _ _
              (Sends-await target o.timing.wft_max env.flows _
                (λ fc flows. granted fc (record env { flows = flows })))
              (free env)))
  ]

send_consecutive-Sends :
    (fuel : ℕ) (o : IsoTpOptions) (s : Progress) (env : Environment)
    → 1 < frame_payload_capacity o
    → length s.rest < fuel
    → Sends
        (wires o (consecutive_bodies fuel (frame_payload_capacity o) s.sequence s.rest))
        (send_consecutive fuel o s env)
unfolding send_consecutive
send_consecutive-Sends zero o s env c h = absurd (omega arith)
send_consecutive-Sends (suc fuel) o s env c h = elim (Bool-cases (is_empty s.rest)) [
  | inl done ↦ rw (nil_of_is_empty s.rest done) (
      rw (bodies_of_nil (suc fuel) (frame_payload_capacity o) s.sequence)
        (unfold send_round in Sends-message_sent))
  | inr more ↦
      let s' = advance (frame_payload_capacity o) s in
      let shorter : length s'.rest < fuel =
        omega (arith, rest_shrinks (frame_payload_capacity o) s.rest c more) in
      rw (bodies_step fuel (frame_payload_capacity o) s.sequence s.rest more) (
        unfold send_round in
        rw more (
          Sends-write o (consecutive_body (frame_payload_capacity o) s.sequence s.rest)
            (wires o (consecutive_bodies fuel (frame_payload_capacity o) s'.sequence s'.rest)) env
            (after_consecutive o s' (send_consecutive fuel o))
            (λ env'.
              after_consecutive-Sends o (send_consecutive fuel o) fuel s' env'
                (λ fc env''. send_consecutive-Sends fuel o (grant s' fc) env'' c shorter)
                (λ env''. send_consecutive-Sends fuel o s' env'' c shorter))))
]

-- More fuel than there are bytes changes nothing.
bodies_fuel :
    (n m capacity sequence : ℕ) (rest : Bytes)
    → 1 < capacity
    → length rest ≤ n
    → length rest ≤ m
    → consecutive_bodies n capacity sequence rest ≡ consecutive_bodies m capacity sequence rest
unfolding consecutive_bodies
bodies_fuel n m capacity sequence [] c h k =
    bodies_of_nil n capacity sequence ∙ sym (bodies_of_nil m capacity sequence)
bodies_fuel zero m capacity sequence (b ∷ bs) c h k = absurd (omega arith)
bodies_fuel (suc n) zero capacity sequence (b ∷ bs) c h k = absurd (omega arith)
bodies_fuel (suc n) (suc m) capacity sequence (b ∷ bs) c h k =
    let less = rest_shrinks capacity (b ∷ bs) c refl in
    ap (λ t. consecutive_body capacity sequence (b ∷ bs) ∷ t)
      (bodies_fuel n m capacity ((sequence + 1) % 16)
        (drop (chunk_length capacity (b ∷ bs)) (b ∷ bs)) c (omega (arith, less))
        (omega (arith, less)))

loop-Sends :
    (o : IsoTpOptions) (rest : Bytes) (fc : FlowControlFrame) (env : Environment)
    → Sends
        (wires o (consecutive_bodies (length rest) (frame_payload_capacity o) 1 rest))
        (send_consecutive (suc (length rest)) o (started rest fc) env)
loop-Sends o rest fc env =
    let c : 1 < frame_payload_capacity o = omega (arith, capacity_bounds o) in
    rw
      (bodies_fuel (length rest) (suc (length rest)) (frame_payload_capacity o) 1 rest c
        (omega arith) (omega arith))
      (send_consecutive-Sends (suc (length rest)) o (started rest fc) env c (omega arith))

send_multi_frame-Sends :
    (o : IsoTpOptions) (payload : Bytes) (env : Environment)
    → Sends (wires o (segments (frame_payload_capacity o) payload)) (send_multi_frame o payload env)
unfolding send_multi_frame segments
send_multi_frame-Sends o payload env =
    let capacity = frame_payload_capacity o in
    let rest = drop (first_chunk_length capacity (length payload)) payload in
    let others = wires o (consecutive_bodies (length rest) capacity 1 rest) in
    if_cases (Sends (with_address o (padded o (first_frame_body capacity payload)) ∷ others))
      (leb capacity 8 && ltb 0xfff (length payload)) _ _
      (Sends-cut _ (failed _) ((λ e. cc), (λ e. cc)))
      (Sends-write o (first_frame_body capacity payload) others env _ (λ env'.
        Sends-await others o.timing.wft_max env'.flows _
          (λ fc flows. loop-Sends o rest fc (record env' { flows = flows }))))

-- The frames that ISO 15765-2 sends a payload in: one Single Frame, or the segments.
unfoldable pub frame_bodies : IsoTpOptions → Bytes → List Bytes
frame_bodies o payload =
    if leb (length payload) (single_frame_capacity o)
    then single_frame_body payload ∷ []
    else segments (frame_payload_capacity o) payload

Sends-single : Sends [] (record { actions = count tx_single_frames ∷ []; outcome = sent })
unfolding written
Sends-single = record { tail = []; prefix = refl; whole = λ e. refl; ends = λ e. cc }

send_single_frame-Sends :
    (o : IsoTpOptions) (payload : Bytes) (env : Environment)
    → Sends (wires o (single_frame_body payload ∷ [])) (send_single_frame o payload env)
unfolding send_single_frame
send_single_frame-Sends o payload env =
    if_cases (Sends (wires o (single_frame_body payload ∷ []))) (single_frame_fits o payload) _ _
      (Sends-write o (single_frame_body payload) [] env _ (λ env'. Sends-single))
      (Sends-cut _ (failed _) ((λ e. cc), (λ e. cc)))

-- Whatever the adapter and the receiver answer, `transmit` writes a prefix of the frames of the
-- payload, in order, and it has written all of them if it reports success. The fuel of the loop is
-- enough: a run stops short only where it fails or waits for an answer that has not come.
pub transmit-Sends :
    (o : IsoTpOptions) (payload : Bytes) (env : Environment)
    → Sends (wires o (frame_bodies o payload)) (transmit o payload env)
unfolding transmit frame_bodies
transmit-Sends o payload env =
    if_cases (Sends _) (length payload == 0) _ _ (Sends-cut _ (failed _) ((λ e. cc), (λ e. cc)))
      (elim (Bool-cases (leb (length payload) (single_frame_capacity o))) [
        | inl short ↦ rw short (send_single_frame-Sends o payload env)
        | inr long ↦ rw long (send_multi_frame-Sends o payload env)
      ])
