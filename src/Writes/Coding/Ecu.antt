-- ===== src/Writes/Coding/Ecu.antt =====
-- packages/core/src/writes/coding.ts: coding as a write operation of the port. The ECU is what the
-- target's calls do to the environment: a call rejects with a message, or it answers. The texts of
-- the reasons and of the summary are those of `coding_text` and of the data of the changes.
use yes_you_can.Prelude.{
  ℕ, ◌⊎◌, inl, inr, Bool, true, false, not, Option, none, some, List, [], ◌∷◌, ◌==◌, if◌then◌else◌,
  get_some_or, is_none,
}
use yes_you_can.Text.{Text, codes}
use yes_you_can.Bytes.{Bytes, to_hex, bytes_equal}
use yes_you_can.Safety.{high, WritePermit, WriteRequestContext}
use yes_you_can.Writes.Transaction.{prepare, BodyResult, thrown, returned, Transaction}
use yes_you_can.Writes.Operation.{WriteOperation}
use yes_you_can.Writes.Port.{failed_outcome}
use yes_you_can.Writes.Coding.{CodingChange, CodingError, DiffLine, apply_coding_changes}

-- `CodingTargetEcu`. `prepareWrite` answers with the session type.
pub record CodingTargetEcu (E : Type 0) : Type 0 where
  pub id : Text
  pub name : Text
  pub session_type : Option ℕ
  pub read_coding : ℕ → E → (Text ⊎ Bytes) × E
  pub write_coding : Bytes → ℕ → E → Option Text × E
  pub prepare_write : Option (ℕ → E → (Text ⊎ ℕ) × E)

-- What `recordAction` is told.
pub data CodingAction : Type 0 where
  coding_write : ℕ → Text → Text → CodingAction
  coding_aborted : Text → Text → CodingAction

pub record CodingInput (E : Type 0) : Type 0 where
  pub target : CodingTargetEcu E
  pub did : Option ℕ
  pub changes : List CodingChange
  pub user_confirmed : Bool
  pub record_action : Option (CodingAction → E → E)

pub record CodingPrepared (E : Type 0) : Type 0 where
  pub target : CodingTargetEcu E
  pub did : ℕ
  pub original_bytes : Bytes
  pub new_bytes : Bytes
  pub diff_summary : List DiffLine
  pub session_type : ℕ

pub record CodingResult : Type 0 where
  pub did : ℕ
  pub before : Bytes
  pub after : Bytes
  pub diff_summary : List DiffLine
  pub verified : Bool
  pub permit : WritePermit

-- What the stages of coding produce.
pub data CodingValue (E : Type 0) : Type 0 where
  backup : CodingPrepared E → CodingValue E
  coded : CodingResult → CodingValue E

abbrev pub default_coding_did : ℕ
default_coding_did = 0x0200

-- What the reasons are about; `say` turns it into text.
pub data CodingReason : Type 0 where
  switch_failed : Text → CodingReason
  backup_failed : ℕ → Text → CodingReason
  invalid_change : CodingError → CodingReason
  no_changes : CodingReason
  write_failed : Text → CodingReason
  readback_failed : Text → CodingReason
  readback_differs : Bytes → Bytes → CodingReason
  no_backup : CodingReason
  rollback_failed : Text → CodingReason

abbrev pub no_lines : List DiffLine → Bool
no_lines [] = true
no_lines (l ∷ ls) = false

module _ {E : Type 0} (say : CodingReason → Text) where
  abbrev pub refuse : CodingReason → BodyResult (CodingValue E)
  refuse reason = failed_outcome (say reason ∷ []) []

  abbrev pub produce : CodingValue E → BodyResult (CodingValue E)
  produce value =
      returned
        (record { ok = true; value = some value; reasons = []; warnings = []; detail = none })

  -- `prepare` behind `applyCodingChanges`.
  unfoldable pub prepare_edited :
      CodingTargetEcu E
      → ℕ
      → ℕ
      → Bytes
      → CodingError ⊎ (Bytes × List DiffLine)
      → BodyResult (CodingValue E)
  prepare_edited target did session original (inl error) = refuse (invalid_change error)
  prepare_edited target did session original (inr (modified, summary)) =
      if no_lines summary
      then refuse no_changes
      else produce (
          backup (record {
            target = target;
            did = did;
            original_bytes = original;
            new_bytes = modified;
            diff_summary = summary;
            session_type = session;
          }))

  -- `prepare` behind the read of the backup.
  unfoldable pub prepare_read :
      CodingInput E → ℕ → ℕ → (Text ⊎ Bytes) × E → BodyResult (CodingValue E) × E
  unfolding prepare_edited
  prepare_read input did session (inl error, e) = (refuse (backup_failed did error), e)
  prepare_read input did session (inr original, e) = (
    prepare_edited input.target did session original (apply_coding_changes original input.changes),
    e,
  )

  -- `prepare` behind the switch of the session.
  unfoldable pub prepare_switched : CodingInput E → (Text ⊎ ℕ) × E → BodyResult (CodingValue E) × E
  unfolding prepare_read
  prepare_switched input (inl error, e) = (refuse (switch_failed error), e)
  prepare_switched input (inr session, e) =
      let did = get_some_or input.did default_coding_did in
      prepare_read input did session (input.target.read_coding did e)

  unfoldable pub switch_session :
      CodingTargetEcu E → Option (ℕ → E → (Text ⊎ ℕ) × E) → E → (Text ⊎ ℕ) × E
  switch_session target none e = (inr (get_some_or target.session_type 0x01), e)
  switch_session target (some switch) e = switch 0x03 e

  unfoldable pub coding_prepare :
      Transaction (CodingValue E) → CodingInput E → E → BodyResult (CodingValue E) × E
  unfolding prepare_switched switch_session
  coding_prepare t input e =
      prepare_switched input (switch_session input.target input.target.prepare_write e)

  abbrev pub new_value : Option (CodingValue E) → Text
  new_value none = codes "coding-change"
  new_value (some (backup prepared)) = to_hex prepared.new_bytes (codes " ")
  new_value (some (coded result)) = codes "coding-change"

  unfoldable pub coding_describe :
      Transaction (CodingValue E)
      → CodingInput E
      → Option (CodingValue E)
      → ℕ
      → Text ⊎ (WriteRequestContext × List Text)
  coding_describe t input prepared session = inr (
    record {
      ecu_id = input.target.id;
      ecu_name = input.target.name;
      expected_ecu_type = none;
      actual_ecu_type = none;
      expected_software_variant = none;
      actual_software_variant = none;
      definition_version = t.binding.definition_version;
      risk = high;
      user_confirmed = input.user_confirmed;
      backup_available = not (is_none prepared);
      active_session_type = some session;
      network = none;
    },
    if session == 0x01
        then codes "coding write attempted in default diagnostic session" ∷ []
        else [],
  )

  abbrev pub tell : Option (CodingAction → E → E) → CodingAction → E → E
  tell none action e = e
  tell (some record_action) action e = record_action action e

  unfoldable pub execute_written :
      CodingPrepared E → WritePermit → Option Text × E → BodyResult (CodingValue E) × E
  execute_written prepared permit (some error, e) = (refuse (write_failed error), e)
  execute_written prepared permit (none, e) = (
    produce (
        coded (record {
          did = prepared.did;
          before = prepared.original_bytes;
          after = prepared.new_bytes;
          diff_summary = prepared.diff_summary;
          verified = false;
          permit = permit;
        })),
    e,
  )

  -- A `prepared` that is not there is a TypeError of the source.
  unfoldable pub coding_execute :
      Transaction (CodingValue E)
      → CodingInput E
      → Option (CodingValue E)
      → WritePermit
      → E
      → BodyResult (CodingValue E) × E
  unfolding execute_written
  coding_execute t input none permit e = (thrown (codes "TypeError"), e)
  coding_execute t input (some (coded result)) permit e = (thrown (codes "TypeError"), e)
  coding_execute t input (some (backup prepared)) permit e =
      let told =
        tell input.record_action
          (coding_write prepared.did (to_hex prepared.new_bytes (codes " ")) permit.id) e in
      execute_written prepared permit
        (prepared.target.write_coding prepared.new_bytes prepared.did told)

  unfoldable pub verify_read : CodingResult → (Text ⊎ Bytes) × E → BodyResult (CodingValue E) × E
  verify_read executed (inl error, e) = (refuse (readback_failed error), e)
  verify_read executed (inr read_back, e) = (
    if bytes_equal read_back executed.after
        then produce (coded (record executed { after = read_back; verified = true }))
        else refuse (readback_differs read_back executed.after),
    e,
  )

  unfoldable pub coding_verify :
      Transaction (CodingValue E)
      → CodingInput E
      → Option (CodingValue E)
      → Option (CodingValue E)
      → E
      → BodyResult (CodingValue E) × E
  unfolding verify_read
  coding_verify t input (some (backup prepared)) (some (coded executed)) e =
      verify_read executed (prepared.target.read_coding prepared.did e)
  coding_verify t input prepared executed e = (thrown (codes "TypeError"), e)

  unfoldable pub rollback_written : Option Text × E → BodyResult (CodingValue E) × E
  rollback_written (some error, e) = (refuse (rollback_failed error), e)
  rollback_written (none, e) =
      (returned (record { ok = true; value = none; reasons = []; warnings = []; detail = none }), e)

  unfoldable pub rollback_to : Option (CodingValue E) → E → BodyResult (CodingValue E) × E
  unfolding rollback_written
  rollback_to (some (backup prepared)) e =
      rollback_written (prepared.target.write_coding prepared.original_bytes prepared.did e)
  rollback_to (some (coded result)) e = (thrown (codes "TypeError"), e)
  rollback_to none e = (refuse no_backup, e)

  unfoldable pub coding_rollback :
      Transaction (CodingValue E) → CodingInput E → Text → E → BodyResult (CodingValue E) × E
  unfolding rollback_to
  coding_rollback t input reason e = rollback_to (t.values prepare) e

  abbrev pub is_verified : Option (CodingValue E) → Bool
  is_verified (some (coded result)) = result.verified
  is_verified (some (backup prepared)) = false
  is_verified none = false

  abbrev pub session_of_backup : CodingValue E → Option ℕ
  session_of_backup (backup prepared) = some prepared.session_type
  session_of_backup (coded result) = none

  -- `createCodingOperation`
  abbrev pub coding_operation : WriteOperation (CodingInput E) (CodingValue E) E
  coding_operation = record {
    kind = codes "coding";
    title = codes "ECU Coding (Configuration Write)";
    risk = high;
    prepare = coding_prepare;
    describe = coding_describe;
    execute = coding_execute;
    verify = some coding_verify;
    rollback = some coding_rollback;
    outcome_of = some is_verified;
    rollback_unavailable = none;
    on_abort =
        some (λ (t : Transaction (CodingValue E)) (input : CodingInput E) (reason : Text) (e : E).
          tell input.record_action (coding_aborted input.target.id reason) e);
    session_of = session_of_backup;
  }
