-- ===== src/Writes/Coding/Restore.antt =====
-- packages/core/src/writes/coding.ts: coding on an ECU that stores what it is sent.
use yes_you_can.Prelude.{
  get_some_or, sym, ap, ◌∙◌, ◌⊎◌, Option, List, some_injective, ℕ, ◌≡◌, refl, ◌≢◌, inl, inr, Bool,
  true, false, none, some, [], ◌∷◌, arith, ==_refl, Bool-cases, length,
}
use yes_you_can.Text.{Text, codes}
use yes_you_can.Bytes.{Bytes, bytes_equal, bytes_equal_from, to_hex}
use yes_you_can.Safety.{WritePermit}
use yes_you_can.Writes.Transaction.{Transaction, prepare, BodyResult, thrown, returned}
use yes_you_can.Writes.Coding.{CodingError, DiffLine, apply_coding_changes}
use yes_you_can.Writes.Coding.Ecu.{
  CodingReason, invalid_change, no_changes, switch_failed, default_coding_did, prepare_edited,
  prepare_read, prepare_switched, coding_prepare, switch_session, CodingTargetEcu, coding_write,
  CodingInput, CodingPrepared, CodingResult, CodingValue, backup, coded, CodingReason,
  readback_differs, produce, refuse, coding_execute, execute_written, coding_verify, verify_read,
  coding_rollback, rollback_to, rollback_written, tell,
}

bytes_equal_from_refl : (a : Bytes) → bytes_equal_from a a ≡ true
unfolding bytes_equal_from
bytes_equal_from_refl [] = refl
bytes_equal_from_refl (x ∷ xs) = rw (==_refl x) (bytes_equal_from_refl xs)

bytes_equal_from→eq : (a b : Bytes) → bytes_equal_from a b ≡ true → a ≡ b
unfolding bytes_equal_from
bytes_equal_from→eq [] [] h = refl
bytes_equal_from→eq [] (y ∷ ys) h = cc h
bytes_equal_from→eq (x ∷ xs) [] h = cc h
bytes_equal_from→eq (x ∷ xs) (y ∷ ys) h = ground (arith, bytes_equal_from→eq xs ys)

bytes_equal_refl : (a : Bytes) → bytes_equal a a ≡ true
unfolding bytes_equal
bytes_equal_refl a = rw (==_refl (length a)) (bytes_equal_from_refl a)

bytes_equal→eq : (a b : Bytes) → bytes_equal a b ≡ true → a ≡ b
unfolding bytes_equal
bytes_equal→eq a b h = ground (arith, bytes_equal_from→eq a b)

-- An ECU whose coding blocks are `stored`: a read answers with the block and changes none, and a
-- write is accepted and replaces the block.
pub record StoresCoding {E : Type 0} (target : CodingTargetEcu E) (stored : ℕ → E → Bytes)
    : Type 0 where
  pub reads : (did : ℕ) (e : E) → (target.read_coding did e).0 ≡ inr (stored did e)
  pub keeps : (did : ℕ) (e : E) → stored did (target.read_coding did e).1 ≡ stored did e
  pub accepts : (bytes : Bytes) (did : ℕ) (e : E) → (target.write_coding bytes did e).0 ≡ none
  pub stores :
      (bytes : Bytes) (did : ℕ) (e : E) → stored did (target.write_coding bytes did e).1 ≡ bytes

-- What a stage has produced, if it has produced a backup.
module _ {E : Type 0} where
  prepared_of : Option (CodingValue E) → Option (CodingPrepared E)
  prepared_of none = none
  prepared_of (some (backup q)) = some q
  prepared_of (some (coded result)) = none

  backup_in : BodyResult (CodingValue E) → Option (CodingPrepared E)
  unfolding prepared_of
  backup_in (thrown message) = none
  backup_in (returned outcome) = prepared_of outcome.value

module _ {E : Type 0} (say : CodingReason → Text) (input : CodingInput E) (p : CodingPrepared E)
    (stored : ℕ → E → Bytes) where
  -- What `execute` produces, and what `verify` makes of it.
  abbrev pub result_of : Bool → WritePermit → CodingResult
  result_of checked permit = record {
    did = p.did;
    before = p.original_bytes;
    after = p.new_bytes;
    diff_summary = p.diff_summary;
    verified = checked;
    permit = permit;
  }

  -- A verification passes exactly if the ECU holds the bytes that were written; otherwise it is
  -- refused with both.
  coding_verify_exact :
      (t : Transaction (CodingValue E)) (permit : WritePermit) (e : E)
      → StoresCoding p.target stored
      → let outcome =
          (coding_verify say t input
            (some (backup p))
            (some (coded (result_of false permit)))
            e).0 in
        (stored p.did e ≡ p.new_bytes → outcome ≡ produce say (coded (result_of true permit)))
        × (stored p.did e ≢ p.new_bytes
            → outcome ≡ refuse say (readback_differs (stored p.did e) p.new_bytes))
  unfolding coding_verify verify_read
  coding_verify_exact t permit e h = rw (h.reads p.did e) (
    λ (same : stored p.did e ≡ p.new_bytes). rw (same, bytes_equal_refl p.new_bytes) refl,
    λ (differ : stored p.did e ≢ p.new_bytes).
        elim (Bool-cases (bytes_equal (stored p.did e) p.new_bytes)) [
          | inl equal ↦ absurd (differ (bytes_equal→eq (stored p.did e) p.new_bytes equal))
          | inr unequal ↦ rw unequal refl
        ],
  )

  -- What the backup that `prepare` has taken is, in the environment that it leaves.
  record Prepared (e : E) : Type 0 where
    target : p.target ≡ input.target
    original : p.original_bytes ≡ stored p.did e
    edited : apply_coding_changes p.original_bytes input.changes ≡ inr (p.new_bytes, p.diff_summary)

  no_backup_refused : (reason : CodingReason) → refuse say reason ≢ produce say (backup p)
  no_backup_refused reason h = cc h

  prepare_edited-Prepared :
      (did session : ℕ) (e : E) (edited : CodingError ⊎ (Bytes × List DiffLine))
      → apply_coding_changes (stored did e) input.changes ≡ edited
      → prepare_edited say input.target did session (stored did e) edited ≡ produce say (backup p)
      → Prepared e
  unfolding prepare_edited backup_in prepared_of
  prepare_edited-Prepared did session e (inl error) h k =
      absurd (no_backup_refused (invalid_change error) k)
  prepare_edited-Prepared did session e (inr (modified, [])) h k =
      absurd (no_backup_refused no_changes k)
  prepare_edited-Prepared did session e (inr (modified, l ∷ ls)) h k =
      let q : CodingPrepared E = record {
        target = input.target;
        did = did;
        original_bytes = stored did e;
        new_bytes = modified;
        diff_summary = l ∷ ls;
        session_type = session;
      } in
      let same : q ≡ p = some_injective (ap backup_in k) in
      record {
        target = ap (λ (x : CodingPrepared E). x.target) (sym same);
        original =
            ap (λ (x : CodingPrepared E). x.original_bytes) (sym same)
            ∙ ap (λ (x : CodingPrepared E). stored x.did e) same;
        edited =
            ap (λ (x : CodingPrepared E). apply_coding_changes x.original_bytes input.changes)
              (sym same)
            ∙ h
            ∙ ap (λ (x : CodingPrepared E). inr (x.new_bytes, x.diff_summary)) same;
      }

  prepare_read-Prepared :
      (did session : ℕ) (bytes : Bytes) (read : (Text ⊎ Bytes) × E)
      → read.0 ≡ inr bytes
      → stored did read.1 ≡ bytes
      → (prepare_read say input did session read).0 ≡ produce say (backup p)
      → Prepared (prepare_read say input did session read).1
  unfolding prepare_read
  prepare_read-Prepared did session bytes (inl error, e) is_read held k = cc is_read
  prepare_read-Prepared did session bytes (inr original, e) is_read held k =
      let same : original ≡ stored did e = cc (is_read, held) in
      prepare_edited-Prepared did session e (apply_coding_changes (stored did e) input.changes) refl
        (rw (← same) k)

  prepare_switched-Prepared :
      (switched : (Text ⊎ ℕ) × E)
      → StoresCoding input.target stored
      → (prepare_switched say input switched).0 ≡ produce say (backup p)
      → Prepared (prepare_switched say input switched).1
  unfolding prepare_switched
  prepare_switched-Prepared (inl error, e) h k = absurd (no_backup_refused (switch_failed error) k)
  prepare_switched-Prepared (inr session, e) h k =
      let did = get_some_or input.did default_coding_did in
      prepare_read-Prepared did session (stored did e) (input.target.read_coding did e)
        (h.reads did e) (h.keeps did e) k

  -- On an ECU that stores its coding, and with the backup that `prepare` has made of it: the backup
  -- holds the bytes that the ECU then held, and the changes applied to them are the new bytes.
  -- `execute` succeeds and the ECU holds the new bytes, `verify` passes then, and `rollback`
  -- succeeds, then or later, and the ECU holds the bytes of the backup again.
  pub coding_restores :
      (t u : Transaction (CodingValue E)) (permit : WritePermit) (reason : Text)
      (e later latest : E)
      → StoresCoding input.target stored
      → (coding_prepare say u input e).0 ≡ produce say (backup p)
      → t.values prepare ≡ some (backup p)
      → let (written, e') = coding_execute say t input (some (backup p)) permit later in
        let (undone, e'') = coding_rollback say t input reason latest in
        (p.original_bytes ≡ stored p.did (coding_prepare say u input e).1)
        × (apply_coding_changes p.original_bytes input.changes ≡ inr (p.new_bytes, p.diff_summary))
        × (written ≡ produce say (coded (result_of false permit)))
        × (stored p.did e' ≡ p.new_bytes)
        × ((coding_verify say t input
              (some (backup p))
              (some (coded (result_of false permit)))
              e').0
            ≡ produce say (coded (result_of true permit)))
        × (undone
            ≡ returned
                (record { ok = true; value = none; reasons = []; warnings = []; detail = none }))
        × (stored p.did e'' ≡ p.original_bytes)
  unfolding coding_prepare coding_execute execute_written coding_rollback rollback_to
      rollback_written
  coding_restores t u permit reason e later latest stores_input taken held =
      let was =
        prepare_switched-Prepared (switch_session say input.target input.target.prepare_write e)
          stores_input taken in
      let h : StoresCoding p.target stored = rw was.target stores_input in
      let told =
        tell say input.record_action (coding_write p.did (to_hex p.new_bytes (codes " ")) permit.id)
          later in
      let e' = (p.target.write_coding p.new_bytes p.did told).1 in
      rw (held, h.accepts p.new_bytes p.did told, h.accepts p.original_bytes p.did latest)
        (
          was.original,
          was.edited,
          refl,
          h.stores p.new_bytes p.did told,
          (coding_verify_exact t permit e' h).0 (h.stores p.new_bytes p.did told),
          refl,
          h.stores p.original_bytes p.did latest,
        )
