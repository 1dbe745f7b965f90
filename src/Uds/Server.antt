-- ===== src/Uds/Server.antt =====
-- packages/protocols/uds/src/server.ts: the UDS server of a virtual ECU. W is what its closures read
-- and change: the vehicle model behind it. A closure that throws gives `none`. A request is handled
-- at one time `now`, in ms. Logging is left out.
pub mod Dtcs
pub mod Handlers
pub mod Dispatch
pub mod Faults
pub mod Answers
pub mod Lockout
pub mod Security
pub mod Writes
use yes_you_can.Prelude.{
  ℕ, zero, suc, ◌+◌, ◌-◌, ◌*◌, ◌/◌, ◌%◌, ◌^◌, ◌≤◌, ◌<◌, min, max, ◌≡◌, refl, sym, ap, ◌∙◌, ◌≢◌, ◌↔◌,
  ◌⊎◌, inl, inr, Bool, true, false, not, ◌&&◌, ◌||◌, Option, none, some, List, [], ◌∷◌, ◌++◌, map,
  append_assoc, append-nil, arith, ltb, leb, ◌==◌, if◌then◌else◌, if_cases, ==_iff, ==_refl, leb→le,
  ltb→lt, Bool-cases, Option-cases, get_some_or, is_none, some_injective, &&_iff, length, get_or,
  take, drop, replicate, flatten, length-append, take-append-drop, length-take, length-drop,
  length-replicate, take-append, drop-append, take_all, drop_all, includes, All, All-append,
}
use yes_you_can.Text.{Text, eq_text}
use yes_you_can.Bytes.{Bytes}
use yes_you_can.Session.{Policy, Machine, reset}
use yes_you_can.Uds.Codes.{negative_response_sid}

-- What the write hook of a DID does: it accepts, refuses with an NRC, or throws.
pub data HookAnswer : Type 0 where
  accepts : HookAnswer
  refuses : ℕ → HookAnswer
  throws : HookAnswer

pub record ServerDid (W : Type 0) : Type 0 where
  pub did : ℕ
  pub value : W → Option Bytes
  pub writable : Bool
  pub sessions : Option (List ℕ)
  pub write : Option (Bytes → W → HookAnswer × W)

pub record ServerDtc : Type 0 where
  pub code : Text
  pub status : ℕ
  pub snapshot : Option Bytes
  pub extended_data : Option Bytes

pub record ServerRoutine (W : Type 0) : Type 0 where
  pub id : ℕ
  pub run : Bytes → W → Option Bytes × W

pub record ServerSecurityAccess (W : Type 0) : Type 0 where
  pub seed : W → Option Bytes × W
  pub verify_key : ℕ → Bytes → W → Option Bool × W
  pub lockout_ms : ℕ

-- The fields that never change. `lockoutMs` that is absent is 0, which its one reader treats alike.
pub record ServerOptions (W : Type 0) : Type 0 where
  pub policy : Policy
  pub routines : List (ServerRoutine W)
  pub security_access : Option (ServerSecurityAccess W)
  pub pending_services : List ℕ
  pub dtc_availability_mask : ℕ
  pub dtc_format_identifier : ℕ

-- The fields that change.
pub record Server (W : Type 0) : Type 0 where
  pub session : Machine
  pub dids : List (ServerDid W)
  pub dtcs : List ServerDtc
  pub security_failures : ℕ
  pub locked_out_until : ℕ
  pub world : W

-- What a handler returns: nothing, a response, or an error that it throws.
pub data Answer : Type 0 where
  silent : Answer
  respond : Bytes → Answer
  thrown : Answer

abbrev pub negative_response : ℕ → ℕ → Bytes
negative_response service nrc = negative_response_sid ∷ service ∷ nrc ∷ []

abbrev pub refuse : ℕ → ℕ → Answer
refuse service nrc = respond (negative_response service nrc)

module _ {W : Type 0} where
  -- `dids.get(did)`
  unfoldable pub find_did : ℕ → List (ServerDid W) → Option (ServerDid W)
  find_did did [] = none
  find_did did (d ∷ ds) = let rest = find_did did ds in if d.did == did then some d else rest

  -- `dids.set(did, definition)`
  unfoldable pub register_did : ServerDid W → List (ServerDid W) → List (ServerDid W)
  register_did definition [] = definition ∷ []
  register_did definition (d ∷ ds) =
      let rest = register_did definition ds in
      if d.did == definition.did then definition ∷ ds else d ∷ rest

  unfoldable pub unregister_did : ℕ → List (ServerDid W) → List (ServerDid W) × Bool
  unregister_did did [] = ([], false)
  unregister_did did (d ∷ ds) =
      let (rest, found) = unregister_did did ds in
      if d.did == did then (ds, true) else (d ∷ rest, found)

  -- `registerWritableDid`
  unfoldable pub register_writable_did :
      ℕ
      → (W → Option Bytes)
      → (Bytes → W → HookAnswer × W)
      → Option (List ℕ)
      → List (ServerDid W)
      → List (ServerDid W)
  register_writable_did did value write sessions = register_did (record {
    did = did;
    value = value;
    writable = true;
    sessions = sessions;
    write = some write;
  })

  -- `resetSession`
  unfoldable pub reset_session : ServerOptions W → ℕ → Server W → Server W
  reset_session options now s = record s { session = (reset options.policy now s.session).0 }

  unfoldable pub find_routine : ℕ → List (ServerRoutine W) → Option (ServerRoutine W)
  find_routine id [] = none
  find_routine id (r ∷ rs) = let rest = find_routine id rs in if r.id == id then some r else rest

-- `a ?? b`
abbrev pub or_bytes : Option Bytes → Option Bytes → Option Bytes
or_bytes none b = b
or_bytes (some a) b = some a

-- `setDtc`
unfoldable pub set_dtc : ServerDtc → List ServerDtc → List ServerDtc
set_dtc dtc [] = dtc ∷ []
set_dtc dtc (e ∷ es) =
    let rest = set_dtc dtc es in
    if eq_text e.code dtc.code
    then record {
      code = dtc.code;
      status = dtc.status;
      snapshot = or_bytes dtc.snapshot e.snapshot;
      extended_data = or_bytes dtc.extended_data e.extended_data;
    }
      ∷ es
    else e ∷ rest

-- `setDtcStatus`
unfoldable pub set_dtc_status : Text → ℕ → List ServerDtc → List ServerDtc
set_dtc_status code status =
    set_dtc (record { code = code; status = status; snapshot = none; extended_data = none })

-- `removeDtc`
unfoldable pub remove_dtc : Text → List ServerDtc → List ServerDtc × Bool
remove_dtc code [] = ([], false)
remove_dtc code (e ∷ es) =
    let (rest, found) = remove_dtc code es in
    if eq_text e.code code then (es, true) else (e ∷ rest, found)
