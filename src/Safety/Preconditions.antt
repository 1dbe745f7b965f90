-- ===== src/Safety/Preconditions.antt =====
-- packages/core/src/safety/safety-manager.ts: what a passed evaluation proves.
use yes_you_can.Prelude.{
  ℕ, ◌≤◌, ◌≡◌, refl, sym, ap, ◌∙◌, ◌≢◌, ◌↔◌, ◌⊎◌, inl, inr, Bool, true, false, Option, none, some,
  List, [], ◌∷◌, ◌++◌, arith, ltb, ◌==◌, if◌then◌else◌, some_injective,
}
use yes_you_can.Text.{Text, eq_text, eq_text_iff}
use yes_you_can.Safety.{
  Reading, not_a_number, below_zero, millivolts, VehicleState, NetworkPreconditions, RiskLevel, low,
  medium, high, WriteRequestContext, Reason, ecu_type, software_variant, stationary, ignition, tls,
  routing, no_backup, not_confirmed, brake, Finding, SafetyManager, check_flag, check_voltage,
  is_below, check_brake, needs_brake, check_match, check_version, check_set, check_session,
  check_devices, check_network, findings, evaluate, no_findings,
}

-- The reading is no number, or at least the minimum.
pub Sufficient : ℕ → Option Reading → Type 0
Sufficient least reading =
    (reading ≡ some not_a_number) ⊎ ((v : ℕ) × (reading ≡ some (millivolts v)) × (least ≤ v))

-- What is expected, if anything is, has been read.
pub Matches : Option Text → Option Text → Type 0
Matches expected actual = (expected ≡ none) ⊎ ((t : Text) × (expected ≡ some t) × (actual ≡ some t))

-- There is no network, or it is encrypted, routed, and no foreign device is known to be in it.
pub Guarded : Option NetworkPreconditions → Type 0
Guarded network =
    (network ≡ none)
    ⊎ ((n : NetworkPreconditions) × (network ≡ some n)
        × (n.tls_active ≡ some true)
        × (n.routing_activation_ok ≡ some true)
        × (n.unauthorized_devices_in_segment ≢ some true))

-- The preconditions of a write, each with its evidence.
pub record Proven (manager : SafetyManager) (context : WriteRequestContext) (state : VehicleState)
    : Type 0 where
  pub still : state.stationary ≡ some true
  pub supplied : Sufficient manager.min_battery_millivolts state.battery_voltage
  pub ignited : state.ignition_on ≡ some true
  pub held : (context.risk ≡ low) ⊎ (state.parking_brake ≡ some true)
  pub right_ecu : Matches context.expected_ecu_type context.actual_ecu_type
  pub right_software : Matches context.expected_software_variant context.actual_software_variant
  pub versioned : (c : ℕ) × (cs : Text) × (context.definition_version ≡ some (c ∷ cs))
  pub backed_up : context.backup_available ≡ true
  pub confirmed : context.user_confirmed ≡ true
  pub in_session : (type : ℕ) × (context.active_session_type ≡ some type) × (type ≢ 0x01)
  pub guarded : Guarded context.network

no_findings-append :
    (xs ys : List Finding)
    → (no_findings (xs ++ ys) ≡ true) ↔ (no_findings xs ≡ true) × (no_findings ys ≡ true)
no_findings-append [] ys = (λ h. (refl, h), λ h. h.1)
no_findings-append (x ∷ xs) ys = (λ h. cc, λ h. h.0)

flagged_iff :
    (b : Bool) (f : Finding) → (no_findings (if b then f ∷ [] else []) ≡ true) ↔ (b ≡ false)
flagged_iff true f = (λ h. cc, λ h. cc)
flagged_iff false f = (λ h. refl, λ h. refl)

cleared_iff :
    (b : Bool) (f : Finding) → (no_findings (if b then [] else f ∷ []) ≡ true) ↔ (b ≡ true)
cleared_iff true f = (λ h. refl, λ h. refl)
cleared_iff false f = (λ h. cc, λ h. cc)

check_flag_iff :
    (reason : Reason) (flag : Option Bool)
    → (no_findings (check_flag reason flag) ≡ true) ↔ (flag ≡ some true)
unfolding check_flag
check_flag_iff reason none = (λ h. cc, λ h. cc)
check_flag_iff reason (some true) = (λ h. refl, λ h. refl)
check_flag_iff reason (some false) = (λ h. cc, λ h. cc)

check_voltage_iff :
    (least : ℕ) (reading : Option Reading)
    → (no_findings (check_voltage least reading) ≡ true) ↔ Sufficient least reading
unfolding check_voltage is_below Sufficient
check_voltage_iff least none = (λ h. cc, λ h. elim h [ inl e ↦ cc | inr (v, e, k) ↦ cc ])
check_voltage_iff least (some not_a_number) = (λ h. inl refl, λ h. refl)
check_voltage_iff least (some below_zero) =
    (λ h. cc, λ h. elim h [ inl e ↦ cc | inr (v, e, k) ↦ cc ])
check_voltage_iff least (some (millivolts v)) = (
  λ h. let above = (flagged_iff (ltb v least) _).0 h in inr (v, refl, ground arith),
  λ h. (flagged_iff (ltb v least) _).1 (elim h [
    | inl e ↦ cc
    | inr (w, e, k) ↦
        let same = some_injective e in
        let equal : v ≡ w = ap (λ r. elim r as (λ x. ℕ) [ millivolts u ↦ u | _ ↦ v ]) same in
        ground arith
  ]),
)

check_brake_iff :
    (risk : RiskLevel) (flag : Option Bool)
    → (no_findings (check_brake risk flag) ≡ true) ↔ ((risk ≡ low) ⊎ (flag ≡ some true))
unfolding check_brake needs_brake
check_brake_iff low flag = (λ h. inl refl, λ h. refl)
check_brake_iff medium flag = (
  λ h. inr ((check_flag_iff brake flag).0 h),
  λ h. elim h [ inl e ↦ cc | inr e ↦ (check_flag_iff brake flag).1 e ],
)
check_brake_iff high flag = (
  λ h. inr ((check_flag_iff brake flag).0 h),
  λ h. elim h [ inl e ↦ cc | inr e ↦ (check_flag_iff brake flag).1 e ],
)

check_match_iff :
    (reason : Reason) (expected actual : Option Text)
    → (no_findings (check_match reason expected actual) ≡ true) ↔ Matches expected actual
unfolding check_match Matches
check_match_iff reason none actual = (λ h. inl refl, λ h. refl)
check_match_iff reason (some t) none = (λ h. cc, λ h. elim h [ inl e ↦ cc | inr (s, e, k) ↦ cc ])
check_match_iff reason (some t) (some s) = (
  λ h. inr (t, refl, ap some (sym ((eq_text_iff t s).0 ((cleared_iff (eq_text t s) _).0 h)))),
  λ h. (cleared_iff (eq_text t s) _).1 (
      (eq_text_iff t s).1
        (elim h [ inl e ↦ cc | inr (u, e, k) ↦ some_injective e ∙ sym (some_injective k) ])),
)

check_version_iff :
    (version : Option Text)
    → (no_findings (check_version version) ≡ true)
      ↔ ((c : ℕ) × (cs : Text) × (version ≡ some (c ∷ cs)))
unfolding check_version
check_version_iff none = (λ h. cc, λ (c, cs, e). cc)
check_version_iff (some []) = (λ h. cc, λ (c, cs, e). cc)
check_version_iff (some (c ∷ cs)) = (λ h. (c, cs, refl), λ h. refl)

check_set_iff :
    (reason : Reason) (b : Bool) → (no_findings (check_set reason b) ≡ true) ↔ (b ≡ true)
unfolding check_set
check_set_iff reason true = (λ h. refl, λ h. refl)
check_set_iff reason false = (λ h. cc, λ h. cc)

check_session_iff :
    (session : Option ℕ)
    → (no_findings (check_session session) ≡ true)
      ↔ ((type : ℕ) × (session ≡ some type) × (type ≢ 0x01))
unfolding check_session
check_session_iff none = (λ h. cc, λ (t, e, k). cc)
check_session_iff (some type) = (
  λ h. let other = (flagged_iff (type == 0x01) _).0 h in (type, refl, ground arith),
  λ (t, e, k). let same = some_injective e in (flagged_iff (type == 0x01) _).1 (ground arith),
)

check_devices_iff :
    (flag : Option Bool) → (no_findings (check_devices flag) ≡ true) ↔ (flag ≢ some true)
unfolding check_devices
check_devices_iff none = (λ h e. cc, λ h. refl)
check_devices_iff (some false) = (λ h e. cc, λ h. refl)
check_devices_iff (some true) = (λ h. cc, λ h. absurd (h refl))

check_network_iff :
    (network : Option NetworkPreconditions)
    → (no_findings (check_network network) ≡ true) ↔ Guarded network
unfolding check_network Guarded
check_network_iff none = (λ h. inl refl, λ h. refl)
check_network_iff (some n) =
    let encrypted = check_flag_iff tls n.tls_active in
    let routed = check_flag_iff routing n.routing_activation_ok in
    let alone = check_devices_iff n.unauthorized_devices_in_segment in
    (
      λ h.
          let (front, devices) = (no_findings-append _ _).0 h in
          let (first, second) = (no_findings-append _ _).0 front in
          inr (n, refl, encrypted.0 first, routed.0 second, alone.0 devices),
      λ h. elim h [
        | inl e ↦ cc
        | inr (m, e, a, b, c) ↦
            let same = some_injective e in
            (no_findings-append _ _).1 (
              (no_findings-append _ _).1 (
                encrypted.1 (ap (λ (x : NetworkPreconditions). x.tls_active) same ∙ a),
                routed.1 (ap (λ (x : NetworkPreconditions). x.routing_activation_ok) same ∙ b),
              ),
              alone.1 (λ bad. c (
                  sym (ap (λ (x : NetworkPreconditions). x.unauthorized_devices_in_segment) same)
                  ∙ bad)),
            )
      ],
    )

both_iff {ℓ κ} :
    {P : Type ℓ} {Q : Type κ} (xs ys : List Finding)
    → (no_findings xs ≡ true) ↔ P
    → (no_findings ys ≡ true) ↔ Q
    → (no_findings (xs ++ ys) ≡ true) ↔ P × Q
both_iff xs ys f g = (
  λ h. let (a, b) = (no_findings-append xs ys).0 h in (f.0 a, g.0 b),
  λ h. (no_findings-append xs ys).1 (f.1 h.0, g.1 h.1),
)

-- The evaluation passes exactly if every precondition of the write has been proven: each that the
-- source names, the brake for a risk above low, the network's where there is a network. A voltage
-- that is no number passes like one that is high enough.
pub evaluate_iff :
    (manager : SafetyManager) (context : WriteRequestContext) (state : VehicleState)
    → ((evaluate manager context state).ok ≡ true) ↔ Proven manager context state
unfolding evaluate findings
evaluate_iff manager context state =
    let all =
      both_iff _ _
        (both_iff _ _
          (both_iff _ _
            (both_iff _ _
              (both_iff _ _
                (both_iff _ _
                  (both_iff _ _
                    (both_iff _ _
                      (both_iff _ _
                        (both_iff _ _ (check_flag_iff stationary state.stationary)
                          (check_voltage_iff manager.min_battery_millivolts state.battery_voltage))
                        (check_flag_iff ignition state.ignition_on))
                      (check_brake_iff context.risk state.parking_brake))
                    (check_match_iff ecu_type context.expected_ecu_type context.actual_ecu_type))
                  (check_match_iff software_variant context.expected_software_variant
                    context.actual_software_variant))
                (check_version_iff context.definition_version))
              (check_set_iff no_backup context.backup_available))
            (check_set_iff not_confirmed context.user_confirmed))
          (check_session_iff context.active_session_type))
        (check_network_iff context.network) in
    (
      λ h.
          let ((((((((((a, b), c), d), e), f), g), h'), i), j), k) = all.0 h in
          record {
            still = a;
            supplied = b;
            ignited = c;
            held = d;
            right_ecu = e;
            right_software = f;
            versioned = g;
            backed_up = h';
            confirmed = i;
            in_session = j;
            guarded = k;
          },
      λ p. all.1 (
        (
          (
            (
              (
                (((((p.still, p.supplied), p.ignited), p.held), p.right_ecu), p.right_software),
                p.versioned,
              ),
              p.backed_up,
            ),
            p.confirmed,
          ),
          p.in_session,
        ),
        p.guarded,
      ),
    )
