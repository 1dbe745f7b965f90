-- ===== src/IsoTp/Request.antt =====
-- packages/transport/iso-tp/src/connection.ts: `requestExclusive`, the retries of one request.
use yes_you_can.Prelude.{
  ℕ, suc, ◌+◌, ◌≤◌, ◌<◌, ◌≡◌, refl, ap, ◌∙◌, ◌⊎◌, inl, inr, true, false, not, ◌||◌, List, [], ◌∷◌,
  ◌++◌, arith, leb, if◌then◌else◌, if_cases, Bool-cases, length, All,
}
use yes_you_can.Bytes.{Bytes}
use yes_you_can.IsoTp.Errors.{
  IsoTpError, is_retryable, response_timeout, WitnessFrame, closed, closed_in_flow_control,
}

-- What one attempt ends with: the answer, or what the transmission or the wait for the answer threw.
pub data Attempt : Type 0 where
  answered : Bytes → Attempt
  threw : IsoTpError → Attempt

pub data Ending : Type 0 where
  resolved : Bytes → Ending
  rejected : IsoTpError → Ending
  in_progress : Ending

-- How often the request was transmitted and retried, and how it ended.
pub record Exchange : Type 0 where
  pub attempts : ℕ
  pub retries : ℕ
  pub ending : Ending

abbrev pub ended : Ending → Exchange
ended ending = record { attempts = 1; retries = 0; ending = ending }

-- One attempt more, and the retry behind it.
abbrev pub retried : Exchange → Exchange
retried x = record { attempts = x.attempts + 1; retries = x.retries + 1; ending = x.ending }

-- The loop, with `attempt` as in the source; the list is what becomes of the attempts, in order. At its end an attempt is still open.
unfoldable pub attempt_from : ℕ → ℕ → List Attempt → Exchange
attempt_from max_retries attempt [] = ended in_progress
attempt_from max_retries attempt (answered payload ∷ later) = ended (resolved payload)
attempt_from max_retries attempt (threw error ∷ later) =
    let rest = attempt_from max_retries (attempt + 1) later in
    if leb max_retries attempt || not (is_retryable error)
    then ended (rejected error)
    else retried rest

unfoldable pub request_exclusive : ℕ → List Attempt → Exchange
unfolding attempt_from
request_exclusive max_retries later = attempt_from max_retries 0 later

attempts_bounded :
    (max_retries attempt : ℕ) (later : List Attempt)
    → attempt ≤ max_retries
    → let x = attempt_from max_retries attempt later in
      (x.attempts ≡ x.retries + 1) × (x.attempts + attempt ≤ max_retries + 1)
unfolding attempt_from
attempts_bounded max_retries attempt [] h = (refl, omega arith)
attempts_bounded max_retries attempt (answered payload ∷ later) h = (refl, omega arith)
attempts_bounded max_retries attempt (threw error ∷ later) h =
    elim (Bool-cases (leb max_retries attempt)) [
      | inl last ↦ rw last (refl, omega arith)
      | inr more ↦
          let below : attempt + 1 ≤ max_retries = ground arith in
          let (count, bound) = attempts_bounded max_retries (attempt + 1) later below in
          rw more (
            if_cases
              (λ (x : Exchange).
                (x.attempts ≡ x.retries + 1) × (x.attempts + attempt ≤ max_retries + 1))
              (not (is_retryable error)) (ended (rejected error)) _ (refl, omega arith)
              (omega arith, omega arith))
    ]

-- A request is transmitted at most `max_retries + 1` times, once more than it is retried.
pub request_exclusive_bounded :
    (max_retries : ℕ) (later : List Attempt)
    → let x = request_exclusive max_retries later in
      (x.attempts ≡ x.retries + 1) × (x.attempts ≤ max_retries + 1)
unfolding request_exclusive
request_exclusive_bounded max_retries later =
    omega (arith, attempts_bounded max_retries 0 later (omega arith))

-- Failures that are retried.
abbrev pub failures : List IsoTpError → List Attempt
failures [] = []
failures (e ∷ es) = threw e ∷ failures es

attempt_from-failures :
    (max_retries attempt : ℕ) (errors : List IsoTpError) (later : List Attempt)
    → All (λ e. is_retryable e ≡ true) errors
    → attempt + length errors ≤ max_retries
    → let x = attempt_from max_retries attempt (failures errors ++ later) in
      let y = attempt_from max_retries (attempt + length errors) later in
      (x.ending ≡ y.ending) × (x.retries ≡ y.retries + length errors)
unfolding attempt_from
attempt_from-failures max_retries attempt [] later h k =
    let same : attempt + 0 ≡ attempt = omega arith in rw same (refl, omega arith)
attempt_from-failures max_retries attempt (e ∷ errors) later (r, h) k =
    let more : leb max_retries attempt ≡ false = ground arith in
    let next : attempt + suc (length errors) ≡ attempt + 1 + length errors = omega arith in
    let (ending, count) =
      attempt_from-failures max_retries (attempt + 1) errors later h (omega arith) in
    rw (more, r, next) (ending, omega arith)

rejects :
    (max_retries attempt : ℕ) (error : IsoTpError)
    → (is_retryable error ≡ false) ⊎ (attempt ≡ max_retries)
    → (leb max_retries attempt || not (is_retryable error)) ≡ true
rejects max_retries attempt error h = ground arith

attempt_from_last :
    (max_retries attempt : ℕ) (next : Attempt) (later : List Attempt)
    → let x = attempt_from max_retries attempt (next ∷ later) in
      ((payload : Bytes)
        → next ≡ answered payload
        → (x.ending ≡ resolved payload) × (x.retries ≡ 0))
      × ((error : IsoTpError)
          → next ≡ threw error
          → (is_retryable error ≡ false) ⊎ (attempt ≡ max_retries)
          → (x.ending ≡ rejected error) × (x.retries ≡ 0))
unfolding attempt_from
attempt_from_last max_retries attempt (answered p) later = (
  λ payload e. (
    ap (λ a. elim a as (λ x. Ending) [ answered q ↦ resolved q | threw q ↦ in_progress ]) e,
    refl,
  ),
  λ error e h. cc,
)
attempt_from_last max_retries attempt (threw q) later = (
  λ payload e. cc,
  λ error e h.
      let same : q ≡ error =
        ap (λ a. elim a as (λ x. IsoTpError) [ answered p ↦ q | threw r ↦ r ]) e in
      let stop = rejects max_retries attempt q (rw same h) in rw stop (ap rejected same, refl),
)

after_failures :
    (max_retries : ℕ) (errors : List IsoTpError) (next : Attempt) (later : List Attempt)
    → All (λ e. is_retryable e ≡ true) errors
    → length errors ≤ max_retries
    → let x = request_exclusive max_retries (failures errors ++ (next ∷ later)) in
      ((payload : Bytes)
        → next ≡ answered payload
        → (x.ending ≡ resolved payload) × (x.retries ≡ length errors))
      × ((error : IsoTpError)
          → next ≡ threw error
          → (is_retryable error ≡ false) ⊎ (length errors ≡ max_retries)
          → (x.ending ≡ rejected error) × (x.retries ≡ length errors))
unfolding request_exclusive
after_failures max_retries errors next later h k =
    let (ending, count) =
      attempt_from-failures max_retries 0 errors (next ∷ later) h (omega arith) in
    let start : 0 + length errors ≡ length errors = omega arith in
    let last = attempt_from_last max_retries (length errors) next later in
    (
      λ payload e.
          let (one, two) = last.0 payload e in
          (
            ending ∙ ap (λ n. (attempt_from max_retries n (next ∷ later)).ending) start ∙ one,
            count
                ∙ ap (λ n. (attempt_from max_retries n (next ∷ later)).retries + length errors)
                    start
                ∙ omega (arith, two),
          ),
      λ error e stop.
          let (one, two) = last.1 error e stop in
          (
            ending ∙ ap (λ n. (attempt_from max_retries n (next ∷ later)).ending) start ∙ one,
            count
                ∙ ap (λ n. (attempt_from max_retries n (next ∷ later)).retries + length errors)
                    start
                ∙ omega (arith, two),
          ),
    )

-- An answer after retryable failures, which are no more than the retries that are allowed, resolves
-- the request; it has been retried once for each of them.
pub request_exclusive_answered :
    (max_retries : ℕ) (errors : List IsoTpError) (payload : Bytes) (later : List Attempt)
    → All (λ e. is_retryable e ≡ true) errors
    → length errors ≤ max_retries
    → let x = request_exclusive max_retries (failures errors ++ (answered payload ∷ later)) in
      (x.ending ≡ resolved payload) × (x.retries ≡ length errors)
request_exclusive_answered max_retries errors payload later h k =
    (after_failures max_retries errors (answered payload) later h k).0 payload refl

-- A failure that is not retryable, or any failure once all retries that are allowed have been used,
-- rejects the request with its error; it has been retried once for each retryable failure before.
pub request_exclusive_rejected :
    (max_retries : ℕ) (errors : List IsoTpError) (error : IsoTpError) (later : List Attempt)
    → All (λ e. is_retryable e ≡ true) errors
    → length errors ≤ max_retries
    → (is_retryable error ≡ false) ⊎ (length errors ≡ max_retries)
    → let x = request_exclusive max_retries (failures errors ++ (threw error ∷ later)) in
      (x.ending ≡ rejected error) × (x.retries ≡ length errors)
request_exclusive_rejected max_retries errors error later h k stop =
    (after_failures max_retries errors (threw error) later h k).1 error refl stop

-- A response timeout is never retried, however many retries are configured.
pub response_timeout_rejects :
    (max_retries timeout_ms : ℕ) (frames : List WitnessFrame) (later : List Attempt)
    → let x = request_exclusive max_retries (threw (response_timeout timeout_ms frames) ∷ later) in
      (x.ending ≡ rejected (response_timeout timeout_ms frames)) × (x.attempts ≡ 1)
unfolding request_exclusive attempt_from is_retryable
response_timeout_rejects max_retries timeout_ms frames later =
    elim (Bool-cases (leb max_retries 0)) [
      | inl none_left ↦ rw none_left (refl, refl)
      | inr some_left ↦ rw some_left (refl, refl)
    ]

-- A request that waits for Flow Control when the connection is closed is attempted again, if any
-- retry is allowed; one that waits for its response is not.
pub closed_retried :
    (max_retries : ℕ) (later : List Attempt)
    → 0 < max_retries
    → (request_exclusive max_retries (threw closed_in_flow_control ∷ later)
        ≡ retried (attempt_from max_retries 1 later))
      × (request_exclusive max_retries (threw closed ∷ later) ≡ ended (rejected closed))
unfolding request_exclusive attempt_from is_retryable
closed_retried max_retries later h =
    let some_left : leb max_retries 0 ≡ false = ground arith in rw some_left (refl, refl)
