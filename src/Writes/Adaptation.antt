-- ===== src/Writes/Adaptation.antt =====
-- packages/core/src/writes/adaptation.ts: adaptation as a write operation of the port. The numbers of
-- JavaScript, which are floating-point numbers, are a type N with the operations that the source uses.
-- The ECU is what the target's calls do to the environment; the texts of the reasons are those of `say`.
pub mod Restore
use yes_you_can.Prelude.{
  ℕ, ◌⊎◌, inl, inr, Bool, true, false, not, ◌||◌, Option, none, some, [], ◌∷◌, ◌==◌, if◌then◌else◌,
  get_some_or, is_none, List,
}
use yes_you_can.Text.{Text, codes}
use yes_you_can.Safety.{medium, WritePermit, WriteRequestContext}
use yes_you_can.Writes.Transaction.{prepare, BodyResult, thrown, returned, Transaction}
use yes_you_can.Writes.Operation.{WriteOperation}
use yes_you_can.Writes.Port.{failed_outcome}

-- `a < b`, `Math.abs(a - b)` and the constant 0.001.
pub record Numbers (N : Type 0) : Type 0 where
  pub less : N → N → Bool
  pub distance : N → N → N
  pub thousandth : N

-- `AdaptationTargetEcu`. `prepareWrite` answers with the session type.
pub record AdaptationTargetEcu (N E : Type 0) : Type 0 where
  pub id : Text
  pub name : Text
  pub session_type : Option ℕ
  pub read_adaptation : ℕ → E → (Text ⊎ N) × E
  pub write_adaptation : ℕ → N → E → Option Text × E
  pub prepare_write : Option (ℕ → E → (Text ⊎ ℕ) × E)

pub record AdaptationRange (N : Type 0) : Type 0 where
  pub min : N
  pub max : N
  pub unit : Option Text

-- What `recordAction` is told.
pub data AdaptationAction (N : Type 0) : Type 0 where
  adaptation_write : ℕ → Text → N → Text → AdaptationAction N
  adaptation_aborted : Text → Text → AdaptationAction N

pub record AdaptationInput (N E : Type 0) : Type 0 where
  pub target : AdaptationTargetEcu N E
  pub channel_did : ℕ
  pub channel_name : Text
  pub requested_value : N
  pub allowed_range : AdaptationRange N
  pub user_confirmed : Bool
  pub tolerance : Option N
  pub record_action : Option (AdaptationAction N → E → E)

pub record AdaptationPrepared (N E : Type 0) : Type 0 where
  pub target : AdaptationTargetEcu N E
  pub channel_did : ℕ
  pub channel_name : Text
  pub original_value : N
  pub requested_value : N
  pub allowed_range : AdaptationRange N
  pub tolerance : N
  pub session_type : ℕ

pub record AdaptationResult (N : Type 0) : Type 0 where
  pub channel_did : ℕ
  pub channel_name : Text
  pub before : N
  pub after : N
  pub unit : Option Text
  pub verified : Bool
  pub permit : WritePermit

-- What the stages of adaptation produce.
pub data AdaptationValue (N E : Type 0) : Type 0 where
  captured : AdaptationPrepared N E → AdaptationValue N E
  adapted : AdaptationResult N → AdaptationValue N E

-- What the reasons are about.
pub data AdaptationReason (N : Type 0) : Type 0 where
  outside_range : Text → N → AdaptationRange N → AdaptationReason N
  adaptation_switch_failed : Text → AdaptationReason N
  capture_failed : Text → ℕ → Text → AdaptationReason N
  adaptation_failed : Text → Text → AdaptationReason N
  adaptation_unread : Text → Text → AdaptationReason N
  outside_tolerance : N → N → N → AdaptationReason N
  nothing_captured : AdaptationReason N
  restore_failed : Text → Text → AdaptationReason N

-- `unit ? { unit } : {}`
abbrev pub shown_unit : Option Text → Option Text
shown_unit none = none
shown_unit (some []) = none
shown_unit (some (c ∷ cs)) = some (c ∷ cs)

abbrev pub is_outside : {N : Type 0} → Numbers N → N → AdaptationRange N → Bool
is_outside numbers value range = numbers.less value range.min || numbers.less range.max value

module _ {N E : Type 0} (numbers : Numbers N) (say : AdaptationReason N → Text) where
  abbrev pub decline : AdaptationReason N → BodyResult (AdaptationValue N E)
  decline reason = failed_outcome (say reason ∷ []) []

  abbrev pub yield_value : AdaptationValue N E → BodyResult (AdaptationValue N E)
  yield_value value =
      returned
        (record { ok = true; value = some value; reasons = []; warnings = []; detail = none })

  abbrev pub captured_from : AdaptationInput N E → ℕ → N → AdaptationPrepared N E
  captured_from input session original = record {
    target = input.target;
    channel_did = input.channel_did;
    channel_name = input.channel_name;
    original_value = original;
    requested_value = input.requested_value;
    allowed_range = input.allowed_range;
    tolerance = get_some_or input.tolerance numbers.thousandth;
    session_type = session;
  }

  -- `prepare` behind the read of the backup.
  unfoldable pub capture :
      AdaptationInput N E → ℕ → (Text ⊎ N) × E → BodyResult (AdaptationValue N E) × E
  capture input session (inl error, e) =
      (decline (capture_failed input.channel_name input.channel_did error), e)
  capture input session (inr original, e) =
      (yield_value (captured (captured_from input session original)), e)

  -- `prepare` behind the switch of the session.
  unfoldable pub capture_switched :
      AdaptationInput N E → (Text ⊎ ℕ) × E → BodyResult (AdaptationValue N E) × E
  unfolding capture
  capture_switched input (inl error, e) = (decline (adaptation_switch_failed error), e)
  capture_switched input (inr session, e) =
      capture input session (input.target.read_adaptation input.channel_did e)

  unfoldable pub switch_to_write :
      AdaptationTargetEcu N E → Option (ℕ → E → (Text ⊎ ℕ) × E) → E → (Text ⊎ ℕ) × E
  switch_to_write target none e = (inr (get_some_or target.session_type 0x01), e)
  switch_to_write target (some switch) e = switch 0x03 e

  unfoldable pub adaptation_prepare :
      Transaction (AdaptationValue N E)
      → AdaptationInput N E
      → E
      → BodyResult (AdaptationValue N E) × E
  unfolding capture_switched switch_to_write
  adaptation_prepare t input e =
      if is_outside numbers input.requested_value input.allowed_range
      then (decline (outside_range input.channel_name input.requested_value input.allowed_range), e)
      else capture_switched input (switch_to_write input.target input.target.prepare_write e)

  unfoldable pub adaptation_describe :
      Transaction (AdaptationValue N E)
      → AdaptationInput N E
      → Option (AdaptationValue N E)
      → ℕ
      → Text ⊎ (WriteRequestContext × List Text)
  adaptation_describe t input prepared session = inr (
    record {
      ecu_id = input.target.id;
      ecu_name = input.target.name;
      expected_ecu_type = none;
      actual_ecu_type = none;
      expected_software_variant = none;
      actual_software_variant = none;
      definition_version = t.binding.definition_version;
      risk = medium;
      user_confirmed = input.user_confirmed;
      backup_available = not (is_none prepared);
      active_session_type = some session;
      network = none;
    },
    if session == 0x01
        then codes "adaptation write attempted in default diagnostic session" ∷ []
        else [],
  )

  abbrev pub tell_action : Option (AdaptationAction N → E → E) → AdaptationAction N → E → E
  tell_action none action e = e
  tell_action (some record_action) action e = record_action action e

  abbrev pub adapted_from : AdaptationPrepared N E → WritePermit → N → Bool → AdaptationResult N
  adapted_from prepared permit after checked = record {
    channel_did = prepared.channel_did;
    channel_name = prepared.channel_name;
    before = prepared.original_value;
    after = after;
    unit = shown_unit prepared.allowed_range.unit;
    verified = checked;
    permit = permit;
  }

  unfoldable pub adaptation_written :
      AdaptationPrepared N E → WritePermit → Option Text × E → BodyResult (AdaptationValue N E) × E
  adaptation_written prepared permit (some error, e) =
      (decline (adaptation_failed prepared.channel_name error), e)
  adaptation_written prepared permit (none, e) =
      (yield_value (adapted (adapted_from prepared permit prepared.requested_value false)), e)

  -- A `prepared` that is not there is a TypeError of the source.
  unfoldable pub adaptation_execute :
      Transaction (AdaptationValue N E)
      → AdaptationInput N E
      → Option (AdaptationValue N E)
      → WritePermit
      → E
      → BodyResult (AdaptationValue N E) × E
  unfolding adaptation_written
  adaptation_execute t input none permit e = (thrown (codes "TypeError"), e)
  adaptation_execute t input (some (adapted result)) permit e = (thrown (codes "TypeError"), e)
  adaptation_execute t input (some (captured prepared)) permit e =
      let told =
        tell_action input.record_action
          (adaptation_write prepared.channel_did prepared.channel_name prepared.requested_value
            permit.id)
          e in
      adaptation_written prepared permit
        (prepared.target.write_adaptation prepared.channel_did prepared.requested_value told)

  unfoldable pub adaptation_read :
      AdaptationPrepared N E
      → AdaptationResult N
      → (Text ⊎ N) × E
      → BodyResult (AdaptationValue N E) × E
  adaptation_read prepared executed (inl error, e) =
      (decline (adaptation_unread prepared.channel_name error), e)
  adaptation_read prepared executed (inr read_back, e) = (
    if numbers.less prepared.tolerance (numbers.distance read_back prepared.requested_value)
        then decline (outside_tolerance read_back prepared.requested_value prepared.tolerance)
        else yield_value (adapted (record executed { after = read_back; verified = true })),
    e,
  )

  unfoldable pub adaptation_verify :
      Transaction (AdaptationValue N E)
      → AdaptationInput N E
      → Option (AdaptationValue N E)
      → Option (AdaptationValue N E)
      → E
      → BodyResult (AdaptationValue N E) × E
  unfolding adaptation_read
  adaptation_verify t input (some (captured prepared)) (some (adapted executed)) e =
      adaptation_read prepared executed (prepared.target.read_adaptation prepared.channel_did e)
  adaptation_verify t input prepared executed e = (thrown (codes "TypeError"), e)

  unfoldable pub adaptation_restored :
      AdaptationPrepared N E → Option Text × E → BodyResult (AdaptationValue N E) × E
  adaptation_restored prepared (some error, e) =
      (decline (restore_failed prepared.channel_name error), e)
  adaptation_restored prepared (none, e) =
      (returned (record { ok = true; value = none; reasons = []; warnings = []; detail = none }), e)

  unfoldable pub restore_captured :
      Option (AdaptationValue N E) → E → BodyResult (AdaptationValue N E) × E
  unfolding adaptation_restored
  restore_captured (some (captured prepared)) e =
      adaptation_restored prepared
        (prepared.target.write_adaptation prepared.channel_did prepared.original_value e)
  restore_captured (some (adapted result)) e = (thrown (codes "TypeError"), e)
  restore_captured none e = (decline nothing_captured, e)

  unfoldable pub adaptation_rollback :
      Transaction (AdaptationValue N E)
      → AdaptationInput N E
      → Text
      → E
      → BodyResult (AdaptationValue N E) × E
  unfolding restore_captured
  adaptation_rollback t input reason e = restore_captured (t.values prepare) e

  abbrev pub adaptation_reached : Option (AdaptationValue N E) → Bool
  adaptation_reached (some (adapted result)) = result.verified
  adaptation_reached (some (captured prepared)) = false
  adaptation_reached none = false

  abbrev pub session_of_captured : AdaptationValue N E → Option ℕ
  session_of_captured (captured prepared) = some prepared.session_type
  session_of_captured (adapted result) = none

  -- `createAdaptationOperation`
  abbrev pub adaptation_operation : WriteOperation (AdaptationInput N E) (AdaptationValue N E) E
  adaptation_operation = record {
    kind = codes "adaptation";
    title = codes "ECU Parameter Adaptation";
    risk = medium;
    prepare = adaptation_prepare;
    describe = adaptation_describe;
    execute = adaptation_execute;
    verify = some adaptation_verify;
    rollback = some adaptation_rollback;
    outcome_of = some adaptation_reached;
    rollback_unavailable = none;
    on_abort =
        some
          (λ (t : Transaction (AdaptationValue N E)) (input : AdaptationInput N E) (reason : Text)
              (e : E).
            tell_action input.record_action (adaptation_aborted input.channel_name reason) e);
    session_of = session_of_captured;
  }
