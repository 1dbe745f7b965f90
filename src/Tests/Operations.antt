-- ===== src/Tests/Operations.antt =====
-- Writes: a transaction, the port, and coding and adaptation of a small ECU whose environment is its coding block.
use yes_you_can.Prelude.{
  ℕ, ◌+◌, ◌-◌, ◌≤◌, ◌≡◌, refl, inr, Bool, ltb, true, false, Option, none, some, List, [], ◌∷◌, ◌++◌,
  arith, length, drop,
}
use yes_you_can.Prelude.Int.{pos}
use yes_you_can.Text.{Text, codes}
use yes_you_can.Bytes.{Bytes}
use yes_you_can.Safety.{
  VehicleState, millivolts, high, WritePermit, Finding, Warning, SafetyViolation,
}
use yes_you_can.Writes.Transaction.{
  StageName, prepare, execute, verify, open_state, executed, verified, BodyResult, returned,
  Transaction, begin_transaction, stage, suspend, abort, resume, ok, failed, StageReport,
}
use yes_you_can.Writes.Transaction.Order.{Staged, stage-Staged, finished_stays, suspended_verifies}
use yes_you_can.Writes.Transaction.Sound.{Sound}
use yes_you_can.Writes.Transaction.Reach.{
  Call, run, suspends, resumes, calls, calls_from_begin-Sound,
}
use yes_you_can.Writes.Transaction.Journal.{Grows, calls-Grows}
use yes_you_can.Writes.Operation.{WriteBinding, WriteOperation, WritePort, World, await, remember}
use yes_you_can.Writes.Port.Flow.{run_operation, run_permitted, run_executed, failed_reasons}
use yes_you_can.Writes.Port.Bodies.{described}
use yes_you_can.Writes.Port.Guard.{Safe, Stated, prepare_stage, unproven_inert, other}
use yes_you_can.Writes.Port.Account.{Accounted, run_operation-Accounted}
use yes_you_can.Writes.Port.Stale.{stale_permit_inert, writing, silent_verification_accepted}
use yes_you_can.Writes.Port.Ended.{Ended, run_operation-Ended, remember_newest}
use yes_you_can.Writes.Coding.{
  CodingChange, apply_coding_changes, apply_from, apply_change, change_at, change_bit, within,
  set_byte, bit_line,
}
use yes_you_can.Writes.Coding.Edits.{Edited, apply_coding_changes-Edited}
use yes_you_can.Writes.Coding.Ecu.{
  CodingTargetEcu, CodingInput, CodingPrepared, CodingValue, backup, coded, CodingReason,
  coding_operation, coding_execute, coding_prepare, switch_session, prepare_switched, prepare_read,
  prepare_edited, coding_verify, coding_rollback, produce, coding_describe,
}
use yes_you_can.Writes.Coding.Restore.{StoresCoding, result_of, coding_restores}
use yes_you_can.Writes.Adaptation.{
  Numbers, AdaptationTargetEcu, AdaptationInput, AdaptationPrepared, AdaptationResult,
  AdaptationValue, captured, adapted, AdaptationReason, captured_from, adapted_from, yield_value,
  switch_to_write, adaptation_prepare, adaptation_execute, adaptation_verify, adaptation_rollback,
}
use yes_you_can.Writes.Adaptation.Restore.{StoresChannel, adaptation_restores}

-- The block of the ECU is the environment.
abbrev ecu : CodingTargetEcu Bytes
ecu = record {
  id = codes "ecu";
  name = codes "Engine";
  session_type = some 0x03;
  read_coding = λ (did : ℕ) (e : Bytes). (inr e, e);
  write_coding = λ (bytes : Bytes) (did : ℕ) (e : Bytes). (none, bytes);
  prepare_write = none;
}

-- Bit 3 of byte 0 is set.
abbrev lights : CodingChange
lights = record { byte_index = pos 0; bit_index = some (pos 3); value = pos 1; description = none }

abbrev lights_on : CodingInput Bytes
lights_on = record {
  target = ecu;
  did = none;
  changes = lights ∷ [];
  user_confirmed = true;
  record_action = none;
}

abbrev say : CodingReason → Text
say reason = codes "coding failed"

abbrev coding : WriteOperation (CodingInput Bytes) (CodingValue Bytes) Bytes
coding = coding_operation say

abbrev port : WritePort Bytes
port = record {
  safety = record { min_battery_millivolts = 12000; permit_ttl_ms = 60000 };
  history_size = 2;
  now = λ (e : Bytes). 1000;
  elapse = λ (e : Bytes). e;
  finding_text = λ (f : Finding). codes "not met";
  warning_text = λ (w : Warning). codes "high risk";
  violation_text = λ (v : SafetyViolation). codes "refused";
}

abbrev parked : VehicleState
parked = record {
  stationary = some true;
  battery_voltage = some (millivolts 12600);
  ignition_on = some true;
  parking_brake = some true;
}

abbrev binding_in : VehicleState → WriteBinding
binding_in state = record {
  ecu_id = codes "ecu";
  ecu_name = codes "Engine";
  session_id = none;
  session_type = some 0x03;
  definition_version = some (codes "1");
  vehicle_state = state;
}

abbrev world : World (CodingValue Bytes) Bytes
world = record { environment = 0x10 ∷ 0x20 ∷ []; audit = []; transactions = [] }

run_operation-Accounted_example :
    Accounted port coding lights_on
      (binding_in parked)
      (prepare_stage port coding lights_on (binding_in parked) (codes "tx") world).0
      (await port (prepare_stage port coding lights_on (binding_in parked) (codes "tx") world).2)
      world
      (run_operation port coding lights_on (binding_in parked) (codes "tx") (codes "p") world).0
      (run_operation port coding lights_on (binding_in parked) (codes "tx") (codes "p") world).1
run_operation-Accounted_example =
    run_operation-Accounted port coding lights_on (binding_in parked) (codes "tx") (codes "p") world

abbrev moving : VehicleState
moving = record parked { stationary = some false }

abbrev no_write :
    Transaction (CodingValue Bytes)
    → CodingInput Bytes
    → Option (CodingValue Bytes)
    → WritePermit
    → Bytes
    → BodyResult (CodingValue Bytes) × Bytes
no_write t input prepared permit e = (BodyResult.thrown (codes "not called"), e)

unproven_inert_example :
    let (answer, w') =
      run_operation port coding lights_on (binding_in moving) (codes "tx") (codes "p") world in
    (answer.ok ≡ false)
    × (w'.audit ≡ world.audit)
    × (run_operation port
          (other port coding lights_on
            (binding_in moving)
            (codes "tx")
            (codes "p")
            no_write
            none
            none
            none)
          lights_on
          (binding_in moving)
          (codes "tx")
          (codes "p")
          world
        ≡ run_operation port coding lights_on (binding_in moving) (codes "tx") (codes "p") world)
unfolding Safe Stated described coding_describe
unproven_inert_example =
    unproven_inert port coding lights_on (binding_in moving) (codes "tx") (codes "p") no_write none
      none none world (λ p. cc p.still)

abbrev tx : Transaction (CodingValue Bytes)
tx = record {
  id = codes "tx";
  binding = record {
    kind = codes "coding";
    risk = high;
    ecu_id = codes "ecu";
    ecu_name = codes "Engine";
    session_id = none;
    session_type = some 0x03;
    definition_version = some (codes "1");
  };
  current_state = open_state;
  stage_reports = [];
  journal_entries = [];
  preconditions = none;
  permit = none;
  started_at = 0;
  ended_at = none;
  reason = none;
  values = λ (s : StageName). none;
}

abbrev permit_for : Text → WritePermit
permit_for ecu_id = record {
  id = codes "p";
  issued_at = 500;
  ecu_id = ecu_id;
  risk = high;
  checks = record { ok = true; failed = []; unproven = []; warnings = [] };
  expires_at = 60500;
}

stale_permit_inert_example :
    let (answer, w') =
      run_permitted port coding lights_on
        (binding_in parked)
        tx
        world
        (some (permit_for (codes "x"))) in
    (answer.ok ≡ false)
    × (run_permitted port
          (writing port coding lights_on (binding_in parked) (permit_for (codes "x")) no_write)
          lights_on
          (binding_in parked)
          tx
          world
          (some (permit_for (codes "x")))
        ≡ run_permitted port coding lights_on
            (binding_in parked)
            tx
            world
            (some (permit_for (codes "x"))))
stale_permit_inert_example =
    stale_permit_inert port coding lights_on (binding_in parked) (permit_for (codes "x")) no_write
      tx world (inr (λ e. cc e))

run_operation-Ended_example :
    Ended
      (run_operation port coding lights_on
        (binding_in parked)
        (codes "tx")
        (codes "p")
        world).0.transaction.current_state
run_operation-Ended_example =
    run_operation-Ended port coding lights_on (binding_in parked) (codes "tx") (codes "p") world

remember_newest_example :
    (length (remember port tx world).transactions ≤ 2)
    × ((remember port tx world).transactions ≡ drop (0 + 1 - 2) ([] ++ (tx ∷ [])))
remember_newest_example = remember_newest port tx world (omega arith)

abbrev silent_verify :
    Transaction (CodingValue Bytes)
    → CodingInput Bytes
    → Option (CodingValue Bytes)
    → Option (CodingValue Bytes)
    → Bytes
    → BodyResult (CodingValue Bytes) × Bytes
silent_verify t input prepared value e =
    (returned (record { ok = false; value = none; reasons = []; warnings = []; detail = none }), e)

abbrev unverified : WriteOperation (CodingInput Bytes) (CodingValue Bytes) Bytes
unverified = record coding { verify = some silent_verify }

abbrev execute_report : StageReport
execute_report = record {
  stage = execute;
  state = ok;
  reasons = [];
  warnings = [];
  at = 900;
  detail = none;
}

abbrev written_tx : Transaction (CodingValue Bytes)
written_tx = record tx { current_state = executed; stage_reports = execute_report ∷ [] }

silent_verification_accepted_example :
    (run_executed port unverified lights_on (written_tx, execute_report, world)).0.ok ≡ true
unfolding failed_reasons
silent_verification_accepted_example =
    silent_verification_accepted port unverified lights_on silent_verify written_tx execute_report
      world (record { ok = false; value = none; reasons = []; warnings = []; detail = none }) refl
      refl refl refl refl refl refl

abbrev plain : BodyResult (CodingValue Bytes)
plain = returned (record { ok = true; value = none; reasons = []; warnings = []; detail = none })

abbrev interrupted : List (ℕ × Call (CodingValue Bytes))
interrupted =
    (1, run prepare plain)
    ∷ (2, suspends (codes "power"))
    ∷ (3, resumes)
    ∷ (4, run execute plain)
    ∷ []

calls_from_begin-Sound_example :
    Sound (calls interrupted (begin_transaction (codes "tx") tx.binding 0))
calls_from_begin-Sound_example = calls_from_begin-Sound (codes "tx") tx.binding 0 interrupted

calls-Grows_example : Grows tx (calls interrupted tx)
calls-Grows_example = calls-Grows interrupted tx

abbrev body : Bytes → BodyResult (CodingValue Bytes) × Bytes
body e = (plain, 0x55 ∷ e)

stage-Staged_example :
    let (t', entry, e') = stage (λ (e : Bytes). 7) prepare body tx (0x10 ∷ []) in
    Staged prepare tx (0x10 ∷ []) plain (0x55 ∷ 0x10 ∷ []) t' entry e'
stage-Staged_example = stage-Staged (λ (e : Bytes). 7) prepare body tx (0x10 ∷ [])

abbrev done_tx : Transaction (CodingValue Bytes)
done_tx = record tx { current_state = verified; ended_at = some 5 }

finished_stays_example :
    let (t', entry, e') = stage (λ (e : Bytes). 7) execute body done_tx (0x10 ∷ []) in
    (entry.state ≡ failed)
    × (e' ≡ 0x10 ∷ [])
    × (t'.current_state ≡ verified)
    × (t'.journal_entries ≡ [])
    × (t'.ended_at ≡ some 5)
    × (suspend 9 (codes "power") done_tx ≡ done_tx)
    × (abort 9 (codes "power") done_tx ≡ done_tx)
    × (resume done_tx ≡ (done_tx, false))
finished_stays_example =
    finished_stays (λ (e : Bytes). 7) execute body done_tx (0x10 ∷ []) 9 (codes "power") refl

suspended_verifies_example :
    let (t', entry, e') =
      stage (λ (e : Bytes). 7) verify body (suspend 3 (codes "power") tx) (0x10 ∷ []) in
    (t'.current_state ≡ verified)
    × (t'.stage_reports ≡ tx.stage_reports ++ (entry ∷ []))
    × (entry.state ≡ ok)
    × (entry.stage ≡ verify)
suspended_verifies_example =
    suspended_verifies (λ (e : Bytes). 7) tx 3 (codes "power") body (0x10 ∷ [])
      (record { ok = true; value = none; reasons = []; warnings = []; detail = none }) refl refl
      refl

apply_coding_changes-Edited_example :
    Edited
      (lights ∷ [])
      (0x10 ∷ 0x20 ∷ [])
      []
      (apply_coding_changes (0x10 ∷ 0x20 ∷ []) (lights ∷ []))
apply_coding_changes-Edited_example =
    apply_coding_changes-Edited (0x10 ∷ 0x20 ∷ []) (lights ∷ []) (omega arith)

abbrev prepared_coding : CodingPrepared Bytes
prepared_coding = record {
  target = ecu;
  did = 0x0200;
  original_bytes = 0x10 ∷ [];
  new_bytes = 0x18 ∷ [];
  diff_summary = bit_line 0 3 0 1 none ∷ [];
  session_type = 0x03;
}

abbrev block : ℕ → Bytes → Bytes
block did e = e

ecu-StoresCoding : StoresCoding ecu block
ecu-StoresCoding = record {
  reads = λ did e. refl;
  keeps = λ did e. refl;
  accepts = λ bytes did e. refl;
  stores = λ bytes did e. refl;
}

abbrev coded_tx : Transaction (CodingValue Bytes)
coded_tx = record tx { values = λ (s : StageName). some (backup prepared_coding) }

coding_restores_example :
    let (written, e') =
      coding_execute say coded_tx lights_on
        (some (backup prepared_coding))
        (permit_for (codes "ecu"))
        (0x10 ∷ []) in
    let (undone, e'') = coding_rollback say coded_tx lights_on (codes "failed") (0x18 ∷ []) in
    (0x10 ∷ [] ≡ (coding_prepare say tx lights_on (0x10 ∷ [])).1)
    × (apply_coding_changes (0x10 ∷ []) (lights ∷ []) ≡ inr (0x18 ∷ [], bit_line 0 3 0 1 none ∷ []))
    × (written
        ≡ produce say (
            coded (result_of say lights_on prepared_coding block false (permit_for (codes "ecu")))))
    × (e' ≡ 0x18 ∷ [])
    × ((coding_verify say coded_tx lights_on
          (some (backup prepared_coding))
          (some (
            coded (result_of say lights_on prepared_coding block false (permit_for (codes "ecu")))))
          e').0
        ≡ produce say
            (coded (result_of say lights_on prepared_coding block true (permit_for (codes "ecu")))))
    × (undone
        ≡ returned (record { ok = true; value = none; reasons = []; warnings = []; detail = none }))
    × (e'' ≡ 0x10 ∷ [])
unfolding coding_prepare switch_session prepare_switched prepare_read prepare_edited
    apply_coding_changes apply_from apply_change change_at change_bit within set_byte
coding_restores_example =
    coding_restores say lights_on prepared_coding block coded_tx tx (permit_for (codes "ecu"))
      (codes "failed") (0x10 ∷ []) (0x10 ∷ []) (0x18 ∷ []) ecu-StoresCoding refl refl

-- Values in thousandths, on an ECU with one channel.
abbrev thousandths : Numbers ℕ
thousandths = record { less = ltb; distance = λ (a b : ℕ). (a - b) + (b - a); thousandth = 1 }

abbrev idle_ecu : AdaptationTargetEcu ℕ ℕ
idle_ecu = record {
  id = codes "ecu";
  name = codes "Engine";
  session_type = none;
  read_adaptation = λ (did e : ℕ). (inr e, e);
  write_adaptation = λ (did value e : ℕ). (none, value);
  prepare_write = some (λ (session e : ℕ). (inr session, e));
}

abbrev idle_speed : AdaptationInput ℕ ℕ
idle_speed = record {
  target = idle_ecu;
  channel_did = 1;
  channel_name = codes "idle";
  requested_value = 700000;
  allowed_range = record { min = 600000; max = 900000; unit = some (codes "rpm") };
  user_confirmed = true;
  tolerance = none;
  record_action = none;
}

abbrev mention : AdaptationReason ℕ → Text
mention reason = codes "adaptation failed"

abbrev one_channel : ℕ → ℕ → ℕ
one_channel did e = e

idle_ecu-StoresChannel : StoresChannel idle_ecu one_channel
idle_ecu-StoresChannel = record {
  reads = λ did e. refl;
  keeps = λ did e. refl;
  accepts = λ did value e. refl;
  stores = λ did value e. refl;
}

abbrev idle_backup : AdaptationPrepared ℕ ℕ
idle_backup = captured_from thousandths mention idle_speed 0x03 800000

abbrev idle_tx : Transaction (AdaptationValue ℕ ℕ)
idle_tx = record {
  id = codes "tx";
  binding = tx.binding;
  current_state = open_state;
  stage_reports = [];
  journal_entries = [];
  preconditions = none;
  permit = none;
  started_at = 0;
  ended_at = none;
  reason = none;
  values = λ (s : StageName). some (captured idle_backup);
}

abbrev idle_result : Bool → AdaptationResult ℕ
idle_result = adapted_from thousandths mention idle_backup (permit_for (codes "ecu")) 700000

adaptation_restores_example :
    let (written, e2) =
      adaptation_execute thousandths mention idle_tx idle_speed
        (some (captured idle_backup))
        (permit_for (codes "ecu"))
        800000 in
    ((adaptation_prepare thousandths mention idle_tx idle_speed 800000).0
      ≡ yield_value thousandths mention (captured idle_backup))
    × (written ≡ yield_value thousandths mention (adapted (idle_result false)))
    × (e2 ≡ 700000)
    × ((adaptation_verify thousandths mention idle_tx idle_speed
          (some (captured idle_backup))
          (some (adapted (idle_result false)))
          e2).0
        ≡ yield_value thousandths mention (adapted (idle_result true)))
    × ((adaptation_rollback thousandths mention idle_tx idle_speed (codes "failed") 700000).1
        ≡ 800000)
unfolding switch_to_write
adaptation_restores_example =
    adaptation_restores thousandths mention idle_speed one_channel idle_tx idle_tx 0x03
      (permit_for (codes "ecu")) (codes "failed") 800000 800000 700000 idle_ecu-StoresChannel refl
      refl refl refl
