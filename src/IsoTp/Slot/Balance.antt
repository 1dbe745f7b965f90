-- ===== src/IsoTp/Slot/Balance.antt =====
-- packages/transport/iso-tp/src/connection.ts: what a frame does to the response slot.
use yes_you_can.Prelude.{
  ℕ, zero, suc, ◌+◌, ◌-◌, ◌*◌, ◌/◌, ◌%◌, ◌≡◌, refl, ap, ◌∙◌, inl, inr, true, false, ◌&&◌, ◌||◌,
  Option, none, some, List, [], ◌∷◌, ◌++◌, append_assoc, ltb, leb, ◌==◌, if_cases, Option-cases,
  length, get_or, drop,
}
use yes_you_can.Bytes.{Bytes}
use yes_you_can.Can.{CanFrame}
use yes_you_can.IsoTp.Options.{IsoTpOptions, max_receive_bytes, frame_payload_capacity}
use yes_you_can.IsoTp.Errors.{IsoTpError, first_frame_overflow}
use yes_you_can.IsoTp.Params.{
  parse_st_min, continue_to_send, overflow_status, single_type, first_type, consecutive_type,
  flow_control_type,
}
use yes_you_can.IsoTp.Sender.{FlowControlFrame}
use yes_you_can.IsoTp.Connection.{
  Connection, RxState, Effect, resolve, reject, Step, ◌then_do◌, fail_pending, record_witness,
}
use yes_you_can.IsoTp.Receiver.{
  send_flow_control, deliver, take_single, single_declared, handle_single, open_reception,
  first_declared, handle_first, accept_chunk, continue_reception, handle_consecutive, hand_over,
  handle_flow_control, handle_body, note_frame, handle_stripped, handle_frame, ff_length_rejected,
  ff_dl, escaped_length, take_chunk, strip_address,
}

-- The requests that are settled, in order.
unfoldable pub settled : List Effect → List ℕ
settled [] = []
settled (resolve id payload ∷ es) = id ∷ settled es
settled (reject id error ∷ es) = id ∷ settled es
settled (e ∷ es) = settled es

-- The request in the slot.
abbrev pub in_slot : Option ℕ → List ℕ
in_slot none = []
in_slot (some id) = id ∷ []

pub settled-append : (xs ys : List Effect) → settled (xs ++ ys) ≡ settled xs ++ settled ys
unfolding settled
settled-append [] ys = refl
settled-append (resolve id payload ∷ xs) ys = ap (λ t. id ∷ t) (settled-append xs ys)
settled-append (reject id error ∷ xs) ys = ap (λ t. id ∷ t) (settled-append xs ys)
settled-append (_ ∷ xs) ys = settled-append xs ys

-- A step that settles what leaves the slot, and issues nothing.
pub record Balanced (c : Connection) (step : Step) : Type 0 where
  pub kept : settled step.1 ++ in_slot step.0.pending ≡ in_slot c.pending
  pub same : step.0.pending_sequence ≡ c.pending_sequence

pub Balanced-quiet :
    (c c' : Connection) (es : List Effect)
    → settled es ≡ []
    → c'.pending ≡ c.pending
    → c'.pending_sequence ≡ c.pending_sequence
    → Balanced c (c', es)
Balanced-quiet c c' es quiet e f = record {
  kept = ap (λ t. t ++ in_slot c'.pending) quiet ∙ ap in_slot e;
  same = f;
}

Balanced-then :
    (c : Connection) (first : Step) (next : Connection → Step)
    → Balanced c first
    → Balanced first.0 (next first.0)
    → Balanced c (first then_do next)
Balanced-then c first next b d = record {
  kept =
      ap (λ t. t ++ in_slot (next first.0).0.pending) (settled-append first.1 (next first.0).1)
      ∙ append_assoc (settled first.1) (settled (next first.0).1) (in_slot (next first.0).0.pending)
      ∙ ap (λ t. settled first.1 ++ t) d.kept
      ∙ b.kept;
  same = d.same ∙ b.same;
}

Balanced-deliver : (payload : Bytes) (c : Connection) → Balanced c (deliver payload c)
unfolding deliver settled
Balanced-deliver payload c = elim (Option-cases c.pending) [
  | inl e ↦ rw e (record { kept = refl; same = refl })
  | inr (id, e) ↦ rw e (record { kept = refl; same = refl })
]

pub Balanced-fail_pending :
    (error : IsoTpError) (c : Connection) → Balanced c (fail_pending error c)
unfolding fail_pending settled
Balanced-fail_pending error c = elim (Option-cases c.pending) [
  | inl e ↦ rw e (record { kept = refl; same = refl })
  | inr (id, e) ↦ rw e (record { kept = refl; same = refl })
]

Balanced-send_flow_control :
    (o : IsoTpOptions) (now status : ℕ) (c : Connection)
    → Balanced c (send_flow_control o now status c)
unfolding send_flow_control settled
Balanced-send_flow_control o now status c = record { kept = refl; same = refl }

-- A step that changes neither the slot nor anything that callers wait for.
pub Balanced-none : (c : Connection) → Balanced c (c, [])
unfolding settled
Balanced-none c = record { kept = refl; same = refl }

-- The other fields of the state do not count.
pub Balanced-from :
    (c c' : Connection) (step : Step)
    → c'.pending ≡ c.pending
    → c'.pending_sequence ≡ c.pending_sequence
    → Balanced c' step
    → Balanced c step
Balanced-from c c' step e f b = record { kept = b.kept ∙ ap in_slot e; same = b.same ∙ f }

Balanced-take_single :
    (o : IsoTpOptions) (body : Bytes) (header n : ℕ) (c : Connection)
    → Balanced c (take_single o body header n c)
unfolding take_single
Balanced-take_single o body header n c =
    if_cases (Balanced c)
      (ltb n 1 || ltb (frame_payload_capacity o - header) n || ltb (length body) (header + n)) _ _
      (Balanced-none c) (Balanced-from c _ _ refl refl (Balanced-deliver _ _))

Balanced-single_declared :
    (o : IsoTpOptions) (body : Bytes) (n : ℕ) (c : Connection)
    → Balanced c (single_declared o body n c)
unfolding single_declared
Balanced-single_declared o body zero c =
    if_cases (Balanced c) (leb (frame_payload_capacity o) 8) _ _ (Balanced-none c)
      (Balanced-take_single o body 2 (get_or body 1 0) c)
Balanced-single_declared o body (suc n) c = Balanced-take_single o body 1 (suc n) c

Balanced-open_reception :
    (o : IsoTpOptions) (now n : ℕ) (first : Bytes) (c : Connection)
    → Balanced c (open_reception o now n first c)
unfolding open_reception
Balanced-open_reception o now n first c =
    if_cases (Balanced c) (ltb (max_receive_bytes o) n) _ _
      (Balanced-then c _ (fail_pending (first_frame_overflow n (max_receive_bytes o)))
        (Balanced-send_flow_control o now overflow_status c) (Balanced-fail_pending _ _))
      (Balanced-from c _ _ refl refl (Balanced-send_flow_control o now continue_to_send _))

Balanced-first_declared :
    (o : IsoTpOptions) (now : ℕ) (body : Bytes) (n : ℕ) (c : Connection)
    → Balanced c (first_declared o now body n c)
unfolding first_declared
Balanced-first_declared o now body zero c =
    if_cases (Balanced c)
      (ff_length_rejected true (escaped_length body) || leb (frame_payload_capacity o) 8) _ _
      (Balanced-none c) (Balanced-open_reception o now (escaped_length body) (drop 6 body) c)
Balanced-first_declared o now body (suc n) c =
    if_cases (Balanced c) (ff_length_rejected false (suc n)) _ _ (Balanced-none c)
      (Balanced-open_reception o now (suc n) (drop 2 body) c)

Balanced-accept_chunk :
    (o : IsoTpOptions) (now : ℕ) (state : RxState) (c : Connection)
    → Balanced c (accept_chunk o now state c)
unfolding accept_chunk
Balanced-accept_chunk o now state c =
    if_cases (Balanced c) (leb state.expected_length state.received) _ _
      (Balanced-from c _ _ refl refl (Balanced-deliver _ _))
      (if_cases (Balanced c)
        (ltb 0 o.timing.block_size && leb o.timing.block_size state.block_count) _ _
        (Balanced-from c _ _ refl refl (Balanced-send_flow_control o now continue_to_send _))
        (Balanced-from c _ _ refl refl (Balanced-none _)))

Balanced-continue_reception :
    (o : IsoTpOptions) (now : ℕ) (body : Bytes) (rx : Option RxState) (c : Connection)
    → Balanced c (continue_reception o now body rx c)
unfolding continue_reception
Balanced-continue_reception o now body none c = Balanced-from c _ _ refl refl (Balanced-none _)
Balanced-continue_reception o now body (some state) c =
    if_cases (Balanced c) (get_or body 0 0 % 16 == state.next_sequence) _ _
      (Balanced-accept_chunk o now (take_chunk now body state) c)
      (Balanced-from c _ _ refl refl (Balanced-fail_pending _ _))

Balanced-hand_over :
    (fc : FlowControlFrame) (waiters : List ℕ) (c : Connection)
    → Balanced c (hand_over fc waiters c)
unfolding hand_over settled
Balanced-hand_over fc [] c =
    if_cases (Balanced c) (ltb (length c.fc_queue) 16) _ _
      (Balanced-from c _ _ refl refl (Balanced-none _)) (Balanced-none c)
Balanced-hand_over fc (waiter ∷ others) c = record { kept = refl; same = refl }

Balanced-handle_single :
    (o : IsoTpOptions) (body : Bytes) (c : Connection) → Balanced c (handle_single o body c)
unfolding handle_single
Balanced-handle_single o body c = Balanced-single_declared o body (get_or body 0 0 % 16) c

Balanced-handle_first :
    (o : IsoTpOptions) (now : ℕ) (body : Bytes) (c : Connection)
    → Balanced c (handle_first o now body c)
unfolding handle_first
Balanced-handle_first o now body c = Balanced-first_declared o now body (ff_dl body) c

Balanced-handle_consecutive :
    (o : IsoTpOptions) (now : ℕ) (body : Bytes) (c : Connection)
    → Balanced c (handle_consecutive o now body c)
unfolding handle_consecutive
Balanced-handle_consecutive o now body c = Balanced-continue_reception o now body c.rx_state c

Balanced-handle_flow_control :
    (body : Bytes) (c : Connection) → Balanced c (handle_flow_control body c)
unfolding handle_flow_control
Balanced-handle_flow_control body c =
    Balanced-from c
      (record c {
        stats = record c.stats { rx_flow_control_frames = c.stats.rx_flow_control_frames + 1 };
      })
      _ refl refl
      (Balanced-hand_over
        (record {
          status = get_or body 0 0 % 16;
          block_size = get_or body 1 0;
          st_min_tenths = parse_st_min (get_or body 2 0);
        })
        c.fc_waiters
        (record c {
          stats = record c.stats { rx_flow_control_frames = c.stats.rx_flow_control_frames + 1 };
        }))

Balanced-handle_body :
    (o : IsoTpOptions) (now : ℕ) (body : Bytes) (c : Connection)
    → Balanced c (handle_body o now body c)
unfolding handle_body
Balanced-handle_body o now body c =
    let type = get_or body 0 0 / 16 * 16 in
    if_cases (Balanced c) (type == single_type) _ _ (Balanced-handle_single o body c) (
      if_cases (Balanced c) (type == first_type) _ _ (Balanced-handle_first o now body c) (
        if_cases (Balanced c) (type == consecutive_type) _ _
          (Balanced-handle_consecutive o now body c)
          (if_cases (Balanced c) (type == flow_control_type) _ _
            (Balanced-handle_flow_control body c) (Balanced-none c))))

Balanced-handle_stripped :
    (o : IsoTpOptions) (now : ℕ) (body : Option Bytes) (c : Connection)
    → Balanced c (handle_stripped o now body c)
unfolding handle_stripped
Balanced-handle_stripped o now none c = Balanced-none c
Balanced-handle_stripped o now (some body) c = Balanced-handle_body o now body c

pub Balanced-handle_frame :
    (o : IsoTpOptions) (now : ℕ) (frame : CanFrame) (c : Connection)
    → Balanced c (handle_frame o now frame c)
unfolding handle_frame note_frame record_witness
Balanced-handle_frame o now frame c = Balanced-from c (note_frame now frame c) _ refl refl (
    Balanced-handle_stripped o now (strip_address o.addressing o.source_address frame.payload)
      (note_frame now frame c))
