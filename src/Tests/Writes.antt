-- ===== src/Tests/Writes.antt =====
-- The safety layer.
use yes_you_can.Prelude.{◌≡◌, ◌↔◌, true, none, some, []}
use yes_you_can.Text.{codes}
use yes_you_can.Safety.{
  millivolts, VehicleState, medium, WriteRequestContext, SafetyManager,
  default_min_battery_millivolts, default_permit_ttl_ms, WritePermit, evaluate, request_permit,
}
use yes_you_can.Safety.Preconditions.{Proven, evaluate_iff}
use yes_you_can.Safety.Permits.{Decided, request_permit-Decided}

abbrev manager : SafetyManager
manager = record {
  min_battery_millivolts = default_min_battery_millivolts;
  permit_ttl_ms = default_permit_ttl_ms;
}

abbrev context : WriteRequestContext
context = record {
  ecu_id = codes "gateway";
  ecu_name = codes "Gateway";
  expected_ecu_type = some (codes "J533");
  actual_ecu_type = some (codes "J533");
  expected_software_variant = none;
  actual_software_variant = none;
  definition_version = some (codes "1.0");
  risk = medium;
  user_confirmed = true;
  backup_available = true;
  active_session_type = some 3;
  network = none;
}

-- The parking brake was not reported.
abbrev state : VehicleState
state = record {
  stationary = some true;
  battery_voltage = some (millivolts 12600);
  ignition_on = some true;
  parking_brake = none;
}

evaluate_iff_example : ((evaluate manager context state).ok ≡ true) ↔ Proven manager context state
evaluate_iff_example = evaluate_iff manager context state

request_permit-Decided_example :
    Decided manager 5000 context state []
      (request_permit manager 5000 (codes "p1") context state [])
request_permit-Decided_example = request_permit-Decided manager 5000 (codes "p1") context state []

abbrev permit : WritePermit
permit = record {
  id = codes "p1";
  issued_at = 5000;
  ecu_id = codes "gateway";
  risk = medium;
  checks = record { ok = true; failed = []; unproven = []; warnings = [] };
  expires_at = 65000;
}
