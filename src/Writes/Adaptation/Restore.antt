-- ===== src/Writes/Adaptation/Restore.antt =====
-- packages/core/src/writes/adaptation.ts: adaptation on an ECU that stores what it is sent.
use yes_you_can.Prelude.{ℕ, ◌≡◌, refl, ◌⊎◌, inl, inr, true, false, none, some}
use yes_you_can.Text.{Text}
use yes_you_can.Safety.{WritePermit}
use yes_you_can.Writes.Transaction.{Transaction, prepare}
use yes_you_can.Writes.Adaptation.{
  Numbers, AdaptationTargetEcu, AdaptationInput, AdaptationPrepared, AdaptationValue, captured,
  adapted, AdaptationReason, adaptation_write, is_outside, yield_value, captured_from, adapted_from,
  tell_action, switch_to_write, capture, capture_switched, adaptation_prepare, adaptation_execute,
  adaptation_written, adaptation_verify, adaptation_read, adaptation_rollback, restore_captured,
  adaptation_restored,
}

-- An ECU whose channels are `stored`: a read answers with the value and changes none, and a write is
-- accepted and replaces the value.
pub record StoresChannel {N E : Type 0} (target : AdaptationTargetEcu N E) (stored : ℕ → E → N)
    : Type 0 where
  pub reads : (did : ℕ) (e : E) → (target.read_adaptation did e).0 ≡ inr (stored did e)
  pub keeps : (did : ℕ) (e : E) → stored did (target.read_adaptation did e).1 ≡ stored did e
  pub accepts : (did : ℕ) (value : N) (e : E) → (target.write_adaptation did value e).0 ≡ none
  pub stores :
      (did : ℕ) (value : N) (e : E) → stored did (target.write_adaptation did value e).1 ≡ value

module _ {N E : Type 0} (numbers : Numbers N) (say : AdaptationReason N → Text)
    (input : AdaptationInput N E) (stored : ℕ → E → N) where
  -- The backup that `prepare` takes when it is called in the environment behind the switch.
  abbrev pub backup_at : ℕ → E → AdaptationPrepared N E
  backup_at session e = captured_from numbers say input session (stored input.channel_did e)

  capture_ready :
      (session : ℕ) (e : E) (switched : Text ⊎ ℕ)
      → StoresChannel input.target stored
      → switched ≡ inr session
      → (capture_switched numbers say input (switched, e)).0
        ≡ yield_value numbers say (captured (backup_at session e))
  unfolding capture_switched capture
  capture_ready session e (inl error) h ready = cc ready
  capture_ready session e (inr s) h ready =
      let same : s ≡ session = cc ready in rw (h.reads input.channel_did e, same) refl

  -- An adaptation within the allowed range, on an ECU that stores its channels and lets its session
  -- be switched, where a value is within the tolerance of itself: `prepare` takes the value of the
  -- channel as the backup; `execute` then succeeds and the channel holds the requested value; `verify`
  -- passes behind it; and `rollback`, then or later, puts the value of the backup back.
  pub adaptation_restores :
      (t u : Transaction (AdaptationValue N E)) (session : ℕ) (permit : WritePermit) (reason : Text)
      (e later latest : E)
      → StoresChannel input.target stored
      → is_outside numbers input.requested_value input.allowed_range ≡ false
      → let (switched, e1) =
          switch_to_write numbers say input.target input.target.prepare_write e in
        let p = backup_at session e1 in
        switched ≡ inr session
        → u.values prepare ≡ some (captured p)
        → numbers.less p.tolerance (numbers.distance input.requested_value input.requested_value)
          ≡ false
        → let (written, e2) =
            adaptation_execute numbers say u input (some (captured p)) permit later in
          let result = adapted_from numbers say p permit input.requested_value in
          ((adaptation_prepare numbers say t input e).0 ≡ yield_value numbers say (captured p))
          × (written ≡ yield_value numbers say (adapted (result false)))
          × (stored input.channel_did e2 ≡ input.requested_value)
          × ((adaptation_verify numbers say u input
                (some (captured p))
                (some (adapted (result false)))
                e2).0
              ≡ yield_value numbers say (adapted (result true)))
          × (stored input.channel_did (adaptation_rollback numbers say u input reason latest).1
              ≡ stored input.channel_did e1)
  unfolding adaptation_prepare adaptation_execute adaptation_written adaptation_verify
      adaptation_read adaptation_rollback restore_captured adaptation_restored
  adaptation_restores t u session permit reason e later latest h inside ready held close =
      let did = input.channel_did in
      let (switched, e1) = switch_to_write numbers say input.target input.target.prepare_write e in
      let p = backup_at session e1 in
      let told =
        tell_action numbers say input.record_action
          (adaptation_write did input.channel_name input.requested_value permit.id) later in
      let e2 = (input.target.write_adaptation did input.requested_value told).1 in
      rw
        (
          inside,
          held,
          h.accepts did input.requested_value told,
          h.accepts did p.original_value latest,
          h.reads did e2,
          h.stores did input.requested_value told,
          close,
        )
        (
          capture_ready session e1 switched h ready,
          refl,
          refl,
          refl,
          h.stores did p.original_value latest,
        )
