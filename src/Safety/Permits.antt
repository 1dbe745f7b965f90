-- ===== src/Safety/Permits.antt =====
-- packages/core/src/safety/safety-manager.ts: permits, their check at write time, and the audit log.
use yes_you_can.Prelude.{
  ℕ, ◌+◌, ◌≤◌, ◌≡◌, refl, sym, ap, ◌∙◌, ◌≢◌, ◌↔◌, ◌⊎◌, inl, inr, true, false, none, List, [], ◌∷◌,
  arith, ltb, Bool-cases, length, length-append,
}
use yes_you_can.Text.{Text, eq_text, eq_text_iff}
use yes_you_can.Safety.{
  VehicleState, WriteRequestContext, Finding, violated, not_proven, SafetyManager, SafetyViolation,
  refused, AuditEntry, WritePermit, evaluate, findings, unproven_of, no_findings, request_permit,
  verify_permit, record_audit,
}
use yes_you_can.Safety.Preconditions.{Proven, evaluate_iff}

false_not_true : false ≢ true
false_not_true e = cc

some_finding :
    (fs : List Finding)
    → no_findings fs ≡ false
    → (f : Finding) × (gs : List Finding) × (fs ≡ f ∷ gs)
some_finding [] h = cc
some_finding (f ∷ fs) h = (f, fs, refl)

failed_nonempty :
    (manager : SafetyManager) (context : WriteRequestContext) (state : VehicleState)
    → (evaluate manager context state).ok ≡ false
    → (f : Finding) × (fs : List Finding) × ((evaluate manager context state).failed ≡ f ∷ fs)
unfolding evaluate
failed_nonempty manager context state h = some_finding (findings manager context state) h

-- `xs` is `ys` with entries left out.
pub data IsSublist : List Finding → List Finding → Type 0 where
  ends : IsSublist [] []
  skips : {x : Finding} {xs ys : List Finding} → IsSublist xs ys → IsSublist xs (x ∷ ys)
  keeps : {x : Finding} {xs ys : List Finding} → IsSublist xs ys → IsSublist (x ∷ xs) (x ∷ ys)

-- What a request for a permit leaves: a permit of the ECU that the preconditions were proven for,
-- or a refusal that names at least one reason; and in both cases one more entry of the audit log.
pub Decided :
    SafetyManager
    → ℕ
    → WriteRequestContext
    → VehicleState
    → List AuditEntry
    → (SafetyViolation ⊎ WritePermit) × List AuditEntry
    → Type 0
Decided manager now context state log (inr permit, log') =
    Proven manager context state
    × (permit.ecu_id ≡ context.ecu_id)
    × (permit.expires_at ≡ now + manager.permit_ttl_ms)
    × (length log' ≡ length log + 1)
Decided manager now context state log (inl violation, log') =
    (¬ Proven manager context state)
    × ((f : Finding) × (fs : List Finding) × (violation ≡ refused context.ecu_name (f ∷ fs)))
    × (length log' ≡ length log + 1)

-- A permit is issued exactly if every precondition is proven, for the ECU of the request and for
-- the configured time; otherwise the request is refused with at least one reason. Either way the
-- audit log has exactly one more entry.
pub request_permit-Decided :
    (manager : SafetyManager) (now : ℕ) (id : Text) (context : WriteRequestContext)
    (state : VehicleState) (log : List AuditEntry)
    → Decided manager now context state log (request_permit manager now id context state log)
unfolding request_permit Decided record_audit
request_permit-Decided manager now id context state log =
    let checks = evaluate manager context state in
    elim (Bool-cases (evaluate manager context state).ok) [
      | inl passed ↦
          rw passed ((evaluate_iff manager context state).0 passed, refl, refl, length-append log _)
      | inr blocked ↦
          let (f, fs, e) = failed_nonempty manager context state blocked in
          rw blocked (
            λ p. absurd (false_not_true (sym blocked ∙ (evaluate_iff manager context state).1 p)),
            (f, fs, ap (refused context.ecu_name) e),
            length-append log _,
          )
    ]

-- At write time a permit passes exactly for its ECU, and up to the time at which it expires.
pub verify_permit_iff :
    (now : ℕ) (permit : WritePermit) (ecu_id : Text)
    → (verify_permit now permit ecu_id ≡ none)
      ↔ ((permit.ecu_id ≡ ecu_id) × (now ≤ permit.expires_at))
unfolding verify_permit
verify_permit_iff now permit ecu_id = elim (Bool-cases (eq_text permit.ecu_id ecu_id)) [
  | inl same ↦ rw same (
    λ h. ((eq_text_iff permit.ecu_id ecu_id).0 same, ground arith),
    λ h. let fresh : ltb permit.expires_at now ≡ false = ground arith in rw fresh refl,
  )
  | inr other ↦
      rw other (
        λ h. cc,
        λ h. absurd (false_not_true (sym other ∙ (eq_text_iff permit.ecu_id ecu_id).1 h.0)),
      )
]

-- The reasons that are a missing proof are among the failures, in the order of these.
pub unproven-failed : (fs : List Finding) → IsSublist (unproven_of fs) fs
unfolding unproven_of
unproven-failed [] = ends
unproven-failed (violated reason ∷ fs) = skips (unproven-failed fs)
unproven-failed (not_proven reason ∷ fs) = keeps (unproven-failed fs)
