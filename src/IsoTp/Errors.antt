-- ===== src/IsoTp/Errors.antt =====
-- packages/transport/iso-tp/src/connection.ts: the errors of a connection, and which of them buy
-- another attempt.
use yes_you_can.Prelude.{ℕ, Bool, true, false, Option, some, List}
use yes_you_can.Text.{Text}

-- One frame of the ECU, kept as evidence for a timeout.
pub record WitnessFrame : Type 0 where
  pub seq : ℕ
  pub at : ℕ
  pub id : ℕ
  pub data_hex : Text

-- The errors by the place that raises them. The timeouts of the receiving side carry their
-- witness; a failed write carries the `retryable` detail of the adapter's own error.
pub data IsoTpError : Type 0 where
  empty_payload : IsoTpError
  single_frame_too_long : ℕ → IsoTpError
  segmentation_too_long : ℕ → IsoTpError
  n_bs_timeout : IsoTpError
  closed_in_flow_control : IsoTpError
  wft_exceeded : IsoTpError
  flow_control_overflow : IsoTpError
  write_failed : Option Bool → IsoTpError
  closed : IsoTpError
  closed_in_queue : IsoTpError
  taken_over : IsoTpError
  response_timeout : ℕ → List WitnessFrame → IsoTpError
  n_cr_timeout : ℕ → List WitnessFrame → IsoTpError
  sequence_error : ℕ → ℕ → IsoTpError
  first_frame_overflow : ℕ → ℕ → IsoTpError

-- The details `timeout: "N_Bs"` and `timeout: "N_Cr"`, and an adapter's explicit `true`.
unfoldable pub is_retryable : IsoTpError → Bool
is_retryable n_bs_timeout = true
is_retryable closed_in_flow_control = true
is_retryable (n_cr_timeout limit frames) = true
is_retryable (write_failed (some b)) = b
is_retryable _ = false
