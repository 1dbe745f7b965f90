-- ===== src/IsoTp/Connection.antt =====
-- packages/transport/iso-tp/src/connection.ts: the state of an `IsoTpConnection`, the witness ring,
-- the response slot, the N_Cr timer and `close`. A method takes the state and returns the new one
-- with the effects that others see, in order.
use yes_you_can.Prelude.{
  ℕ, ◌+◌, ◌-◌, Bool, true, false, Option, none, some, List, [], ◌∷◌, ◌++◌, map, ltb, ◌==◌,
  if◌then◌else◌, length, drop,
}
use yes_you_can.Bytes.{Bytes, to_hex}
use yes_you_can.Can.{CanFrame}
use yes_you_can.IsoTp.Options.{IsoTpOptions}
use yes_you_can.IsoTp.Errors.{
  IsoTpError, WitnessFrame, closed, taken_over, response_timeout, n_cr_timeout,
}
use yes_you_can.IsoTp.Sender.{FlowControlFrame}

pub record Stats : Type 0 where
  pub tx_frames : ℕ
  pub rx_frames : ℕ
  pub tx_single_frames : ℕ
  pub rx_single_frames : ℕ
  pub tx_multi_frame_messages : ℕ
  pub rx_multi_frame_messages : ℕ
  pub tx_flow_control_frames : ℕ
  pub rx_flow_control_frames : ℕ
  pub timeouts : ℕ
  pub retries : ℕ
  pub sequence_errors : ℕ

abbrev pub fc_queue_limit : ℕ
fc_queue_limit = 16

abbrev pub witness_limit : ℕ
witness_limit = 32

pub record RxState : Type 0 where
  pub expected_length : ℕ
  pub chunks : List Bytes
  pub received : ℕ
  pub next_sequence : ℕ
  pub last_frame_at : ℕ
  pub block_count : ℕ
  pub witness_base : ℕ

-- `pending` holds the id of the request in the response slot, `fc_waiters` those of the waits for
-- Flow Control. A request is settled exactly when it leaves the slot, so `settled` is not kept.
pub record Connection : Type 0 where
  pub witness : List WitnessFrame
  pub witness_seq : ℕ
  pub rx_state : Option RxState
  pub cr_timer : Bool
  pub pending : Option ℕ
  pub pending_sequence : ℕ
  pub subscribed : Bool
  pub queue_generation : ℕ
  pub fc_waiters : List ℕ
  pub fc_queue : List FlowControlFrame
  pub write_waiters : List ℕ
  pub receive_waiters : List ℕ
  pub stats : Stats

-- What the callers, the adapter and the waiting promises see.
pub data Effect : Type 0 where
  send_frame : CanFrame → Effect
  resolve : ℕ → Bytes → Effect
  reject : ℕ → IsoTpError → Effect
  unsolicited : Bytes → Effect
  settle_flow : ℕ → Option FlowControlFrame → Effect
  abort_write : ℕ → Effect
  wake_receiver : ℕ → Effect
  unsubscribe : Effect

abbrev pub Step : Type 0
Step = Connection × List Effect

-- First `m`, then `next` from the state that it leaves.
infixl 5 ◌then_do◌
abbrev pub ◌then_do◌ : Step → (Connection → Step) → Step
m then_do next = ((next m.0).0, m.1 ++ (next m.0).1)

unfoldable pub initial_stats : Stats
initial_stats = record {
  tx_frames = 0;
  rx_frames = 0;
  tx_single_frames = 0;
  rx_single_frames = 0;
  tx_multi_frame_messages = 0;
  rx_multi_frame_messages = 0;
  tx_flow_control_frames = 0;
  rx_flow_control_frames = 0;
  timeouts = 0;
  retries = 0;
  sequence_errors = 0;
}

unfoldable pub initial_connection : Connection
unfolding initial_stats
initial_connection = record {
  witness = [];
  witness_seq = 0;
  rx_state = none;
  cr_timer = false;
  pending = none;
  pending_sequence = 0;
  subscribed = false;
  queue_generation = 0;
  fc_waiters = [];
  fc_queue = [];
  write_waiters = [];
  receive_waiters = [];
  stats = initial_stats;
}

unfoldable pub open_connection : Connection → Connection
open_connection c = record c { subscribed = true }

-- `witness.shift()` when the ring is over its limit
unfoldable pub shift_over : ℕ → List WitnessFrame → List WitnessFrame
shift_over limit ring = if ltb limit (length ring) then drop 1 ring else ring

unfoldable pub record_witness : ℕ → CanFrame → Connection → Connection
unfolding shift_over
record_witness now frame c =
    let seq = c.witness_seq + 1 in
    let entry : WitnessFrame = record {
      seq = seq;
      at = now;
      id = frame.id;
      data_hex = to_hex frame.payload (32 ∷ []);
    } in
    record c { witness_seq = seq; witness = shift_over witness_limit (c.witness ++ (entry ∷ [])) }

unfoldable pub since : ℕ → List WitnessFrame → List WitnessFrame
since seq [] = []
since seq (w ∷ ws) = if ltb seq w.seq then w ∷ since seq ws else since seq ws

unfoldable pub witness_since : ℕ → Connection → List WitnessFrame
unfolding since
witness_since seq c = since seq c.witness

unfoldable pub fail_pending : IsoTpError → Connection → Step
fail_pending error c = elim c.pending [
  | none ↦ (c, [])
  | some id ↦ (record c { pending = none }, reject id error ∷ [])
]

-- The part of `awaitResponse` that runs when the promise is made; the id is that of the new request.
unfoldable pub await_response : Connection → Step
await_response c =
    let id = c.pending_sequence + 1 in
    let taken : List Effect = elim c.pending [
      | none ↦ []
      | some stale ↦ reject stale taken_over ∷ []
    ] in
    (record c { pending = some id; pending_sequence = id }, taken)

-- The response timer of the request `id`: a settled request, which is one out of the slot, is past.
unfoldable pub response_timer : ℕ → ℕ → ℕ → Connection → Step
response_timer id timeout_ms witness_base c = elim c.pending [
  | none ↦ (c, [])
  | some held ↦
      if held == id
      then (
        record c { pending = none; stats = record c.stats { timeouts = c.stats.timeouts + 1 } },
        reject id (response_timeout timeout_ms (witness_since witness_base c)) ∷ [],
      )
      else (c, [])
]

-- What both N_Cr evaluations do with a reception that has run out of time.
unfoldable pub abort_reception : IsoTpOptions → RxState → Connection → Step
unfolding fail_pending
abort_reception o state c =
    fail_pending (n_cr_timeout o.timing.n_cr_ms (witness_since state.witness_base c)) (record c {
      cr_timer = false;
      rx_state = none;
      stats = record c.stats { timeouts = c.stats.timeouts + 1 };
    })

-- The callback of the timer that `armCrTimeout` sets.
unfoldable pub cr_timer_fires : IsoTpOptions → Connection → Step
unfolding abort_reception
cr_timer_fires o c = elim c.rx_state [
  | none ↦ (record c { cr_timer = false }, [])
  | some state ↦ abort_reception o state c
]

-- `checkCrTimeout`, at the time `now`; a clock that runs backwards has not run out.
unfoldable pub check_cr_timeout : IsoTpOptions → ℕ → Connection → Step × Bool
unfolding abort_reception
check_cr_timeout o now c = elim c.rx_state [
  | none ↦ ((c, []), false)
  | some state ↦
      if ltb o.timing.n_cr_ms (now - state.last_frame_at)
      then (abort_reception o state c, true)
      else ((c, []), false)
]

unfoldable pub unsubscribe_effect : Bool → List Effect
unsubscribe_effect true = unsubscribe ∷ []
unsubscribe_effect false = []

unfoldable pub close : Connection → Step
unfolding fail_pending unsubscribe_effect
close c =
    let failed = fail_pending closed (record c { subscribed = false }) in
    (
      record (failed.0) {
        fc_waiters = [];
        write_waiters = [];
        queue_generation = c.queue_generation + 1;
        fc_queue = [];
        cr_timer = false;
        rx_state = none;
        receive_waiters = [];
      },
      unsubscribe_effect c.subscribed
          ++ failed.1
          ++ map (λ w. settle_flow w none) c.fc_waiters
          ++ map abort_write c.write_waiters
          ++ map wake_receiver c.receive_waiters,
    )
