-- ===== src/IsoTp/Slot.antt =====
-- packages/transport/iso-tp/src/connection.ts: the response slot over any sequence of the calls and
-- timers of a connection.
mod Balance
unfoldable pub use Balance.{settled, in_slot}
use yes_you_can.Prelude.{
  ℕ, zero, suc, ◌+◌, ◌-◌, ◌*◌, ◌/◌, ◌%◌, ◌^◌, ◌≤◌, ◌<◌, min, max, ◌≡◌, refl, sym, ap, ◌∙◌, ◌≢◌, ◌↔◌,
  ◌⊎◌, inl, inr, Bool, true, false, not, ◌&&◌, ◌||◌, Option, none, some, List, [], ◌∷◌, ◌++◌, map,
  append_assoc, append-nil, arith, ltb, leb, ◌==◌, if◌then◌else◌, if_cases, ==_iff, ==_refl, leb→le,
  ltb→lt, Bool-cases, Option-cases, get_some_or, is_none, some_injective, &&_iff, length, get_or,
  take, drop, replicate, flatten, length-append, take-append-drop, length-take, length-drop,
  length-replicate, take-append, drop-append, take_all, drop_all, includes, All, All-append,
}
use yes_you_can.Bytes.{Bytes}
use yes_you_can.Can.{CanFrame}
use yes_you_can.IsoTp.Options.{
  IsoTpOptions, Addressing, normal, extended, max_receive_bytes, frame_payload_capacity,
}
use yes_you_can.IsoTp.Errors.{IsoTpError, first_frame_overflow, closed}
use yes_you_can.IsoTp.Params.{
  parse_st_min, continue_to_send, overflow_status, single_type, first_type, consecutive_type,
  flow_control_type,
}
use yes_you_can.IsoTp.Sender.{FlowControlFrame}
use yes_you_can.IsoTp.Connection.{
  Connection, RxState, Effect, send_frame, resolve, reject, unsolicited, settle_flow, abort_write,
  wake_receiver, unsubscribe, Step, ◌then_do◌, initial_connection, open_connection, fail_pending,
  await_response, response_timer, abort_reception, cr_timer_fires, check_cr_timeout,
  unsubscribe_effect, close, record_witness,
}
use yes_you_can.IsoTp.Receiver.{
  send_flow_control, deliver, take_single, single_declared, handle_single, open_reception,
  first_declared, handle_first, accept_chunk, continue_reception, handle_consecutive, hand_over,
  handle_flow_control, handle_body, note_frame, handle_stripped, handle_frame, ff_length_rejected,
  ff_dl, escaped_length, take_chunk, strip_address,
}
use yes_you_can.IsoTp.Slot.Balance.{
  settled-append, Balanced, Balanced-quiet, Balanced-none, Balanced-from, Balanced-fail_pending,
  Balanced-handle_frame,
}

-- One thing that happens to a connection. `sendOnly` and `receive` are left out: they do not hold the
-- response slot.
pub data Happening : Type 0 where
  opens : Happening
  arrives : ℕ → CanFrame → Happening
  requests : Happening
  response_expires : ℕ → ℕ → ℕ → Happening
  cr_expires : Happening
  cr_checked : ℕ → Happening
  closes : Happening
  -- The `catch` of `requestExclusive`, behind a transmission that failed or a response that was
  -- rejected.
  gives_up : IsoTpError → Happening

unfoldable pub happen : IsoTpOptions → Happening → Connection → Step
unfolding handle_frame await_response response_timer cr_timer_fires check_cr_timeout close
    open_connection fail_pending
happen o opens c = (open_connection c, [])
happen o (arrives now frame) c = handle_frame o now frame c
happen o requests c = await_response c
happen o (response_expires id timeout_ms base) c = response_timer id timeout_ms base c
happen o cr_expires c = cr_timer_fires o c
happen o (cr_checked now) c = (check_cr_timeout o now c).0
happen o closes c = close c
happen o (gives_up error) c = fail_pending error c

unfoldable pub happen_all : IsoTpOptions → List Happening → Connection → Step
unfolding happen
happen_all o [] c = (c, [])
happen_all o (h ∷ hs) c = happen o h c then_do happen_all o hs

-- The numbers that the requests of a sequence get after the number `n`.
abbrev pub issued : ℕ → List Happening → List ℕ
issued n [] = []
issued n (requests ∷ hs) = (n + 1) ∷ issued (n + 1) hs
issued n (h ∷ hs) = issued n hs

Balanced-response_timer :
    (id timeout_ms base : ℕ) (c : Connection) → Balanced c (response_timer id timeout_ms base c)
unfolding response_timer settled
Balanced-response_timer id timeout_ms base c = elim (Option-cases c.pending) [
  | inl e ↦ rw e (record { kept = refl; same = refl })
  | inr (held, e) ↦ elim (Bool-cases (held == id)) [
    | inl same ↦
        let own : id ≡ held = sym ((==_iff held id).0 same) in
        rw (e, same) (record { kept = ap (λ n. n ∷ []) own; same = refl })
    | inr other ↦ rw (e, other) (record { kept = refl; same = refl })
  ]
]

Balanced-abort_reception :
    (o : IsoTpOptions) (state : RxState) (c : Connection) → Balanced c (abort_reception o state c)
unfolding abort_reception
Balanced-abort_reception o state c = Balanced-from c _ _ refl refl (Balanced-fail_pending _ _)

Balanced-cr_timer_fires : (o : IsoTpOptions) (c : Connection) → Balanced c (cr_timer_fires o c)
unfolding cr_timer_fires
Balanced-cr_timer_fires o c = elim (Option-cases c.rx_state) [
  | inl e ↦ rw e (Balanced-from _ _ _ refl refl (Balanced-none _))
  | inr (state, e) ↦ rw e (Balanced-abort_reception o state _)
]

Balanced-check_cr_timeout :
    (o : IsoTpOptions) (now : ℕ) (c : Connection) → Balanced c (check_cr_timeout o now c).0
unfolding check_cr_timeout
Balanced-check_cr_timeout o now c = elim (Option-cases c.rx_state) [
  | inl e ↦ rw e (Balanced-none _)
  | inr (state, e) ↦ elim (Bool-cases (ltb o.timing.n_cr_ms (now - state.last_frame_at))) [
    | inl late ↦ rw (e, late) (Balanced-abort_reception o state _)
    | inr early ↦ rw (e, early) (Balanced-none _)
  ]
]

settled_front : (xs ys : List Effect) → settled ys ≡ [] → settled (xs ++ ys) ≡ settled xs
settled_front xs ys h = settled-append xs ys ∙ ap (λ t. settled xs ++ t) h ∙ append-nil (settled xs)

settled-settle_flow : (waiters : List ℕ) → settled (map (λ w. settle_flow w none) waiters) ≡ []
unfolding settled
settled-settle_flow [] = refl
settled-settle_flow (w ∷ ws) = settled-settle_flow ws

settled-abort_write : (waiters : List ℕ) → settled (map abort_write waiters) ≡ []
unfolding settled
settled-abort_write [] = refl
settled-abort_write (w ∷ ws) = settled-abort_write ws

settled-wake_receiver : (waiters : List ℕ) → settled (map wake_receiver waiters) ≡ []
unfolding settled
settled-wake_receiver [] = refl
settled-wake_receiver (w ∷ ws) = settled-wake_receiver ws

settled-unsubscribe_effect :
    (b : Bool) (es : List Effect) → settled (unsubscribe_effect b ++ es) ≡ settled es
unfolding unsubscribe_effect settled
settled-unsubscribe_effect true es = refl
settled-unsubscribe_effect false es = refl

Balanced-close : (c : Connection) → Balanced c (close c)
unfolding close
Balanced-close c =
    let failed = fail_pending closed (record c { subscribed = false }) in
    let b = Balanced-fail_pending closed (record c { subscribed = false }) in
    record {
      kept =
          ap (λ t. t ++ in_slot failed.0.pending)
            (settled_front _ _ (settled-wake_receiver c.receive_waiters)
              ∙ settled_front _ _ (settled-abort_write c.write_waiters)
              ∙ settled_front _ _ (settled-settle_flow c.fc_waiters)
              ∙ settled-unsubscribe_effect c.subscribed failed.1)
          ∙ b.kept;
      same = b.same;
    }

-- What a step settles and leaves, against what it found and issued.
abbrev Accounts : Connection → Step → List ℕ → Type 0
Accounts c step new = settled step.1 ++ in_slot step.0.pending ≡ in_slot c.pending ++ new

Accounts-await_response :
    (c : Connection)
    → Accounts c (await_response c) ((c.pending_sequence + 1) ∷ [])
      × ((await_response c).0.pending_sequence ≡ c.pending_sequence + 1)
unfolding await_response settled
Accounts-await_response c = elim (Option-cases c.pending) [
  | inl e ↦ rw e (refl, refl)
  | inr (stale, e) ↦ rw e (refl, refl)
]

Accounts-then :
    (c : Connection) (first : Step) (next : Connection → Step) (new later : List ℕ)
    → Accounts c first new
    → Accounts first.0 (next first.0) later
    → Accounts c (first then_do next) (new ++ later)
Accounts-then c first next new later a b =
    ap (λ t. t ++ in_slot (next first.0).0.pending) (settled-append first.1 (next first.0).1)
    ∙ append_assoc (settled first.1) (settled (next first.0).1) (in_slot (next first.0).0.pending)
    ∙ ap (λ t. settled first.1 ++ t) b
    ∙ sym (append_assoc (settled first.1) (in_slot first.0.pending) later)
    ∙ ap (λ t. t ++ later) a
    ∙ append_assoc (in_slot c.pending) new later

-- A step that issues nothing, and what follows it.
quiet_step :
    (o : IsoTpOptions) (hs : List Happening) (c : Connection) (first : Step)
    → Balanced c first
    → Accounts first.0 (happen_all o hs first.0) (issued first.0.pending_sequence hs)
    → Accounts c (first then_do happen_all o hs) (issued c.pending_sequence hs)
quiet_step o hs c first b a =
    Accounts-then c first (happen_all o hs) [] (issued c.pending_sequence hs)
      (b.kept ∙ sym (append-nil (in_slot c.pending)))
      (a ∙ ap (λ n. in_slot first.0.pending ++ issued n hs) b.same)

-- Over any sequence of openings, frames, requests, response timers, N_Cr timers and checks, failed
-- attempts of a request and closings, from any state: the requests that have been
-- settled, followed by the one in the slot at the end, if any, are the one in the slot at the start, if
-- any, followed by those issued since, in the order of issue and each as often as it was issued.
pub each_settled_once :
    (o : IsoTpOptions) (hs : List Happening) (c : Connection)
    → settled (happen_all o hs c).1 ++ in_slot (happen_all o hs c).0.pending
      ≡ in_slot c.pending ++ issued c.pending_sequence hs
unfolding happen_all happen
each_settled_once o [] c = unfold settled in sym (append-nil (in_slot c.pending))
each_settled_once o (opens ∷ hs) c =
    quiet_step o hs c (open_connection c, [])
      (unfold open_connection in Balanced-from c _ _ refl refl (Balanced-none _))
      (each_settled_once o hs (open_connection c))
each_settled_once o (arrives now frame ∷ hs) c =
    quiet_step o hs c _ (Balanced-handle_frame o now frame c) (each_settled_once o hs _)
each_settled_once o (requests ∷ hs) c =
    let (accounts, next) = Accounts-await_response c in
    Accounts-then c (await_response c) (happen_all o hs) ((c.pending_sequence + 1) ∷ [])
      (issued (c.pending_sequence + 1) hs) accounts
      (each_settled_once o hs (await_response c).0
        ∙ ap (λ n. in_slot (await_response c).0.pending ++ issued n hs) next)
each_settled_once o (response_expires id timeout_ms base ∷ hs) c =
    quiet_step o hs c _ (Balanced-response_timer id timeout_ms base c) (each_settled_once o hs _)
each_settled_once o (cr_expires ∷ hs) c =
    quiet_step o hs c _ (Balanced-cr_timer_fires o c) (each_settled_once o hs _)
each_settled_once o (cr_checked now ∷ hs) c =
    quiet_step o hs c _ (Balanced-check_cr_timeout o now c) (each_settled_once o hs _)
each_settled_once o (closes ∷ hs) c =
    quiet_step o hs c _ (Balanced-close c) (each_settled_once o hs _)
each_settled_once o (gives_up error ∷ hs) c =
    quiet_step o hs c _ (Balanced-fail_pending error c) (each_settled_once o hs _)
