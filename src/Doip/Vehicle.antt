-- ===== src/Doip/Vehicle.antt =====
-- packages/transport/doip/src/message.ts: the vehicle identification response.
use mathlib.Core.Path.{ap₂}
use yes_you_can.Prelude.{
  ℕ, zero, suc, ◌+◌, ◌*◌, ◌/◌, ◌%◌, ◌<◌, ◌≡◌, refl, ap, ◌∙◌, ◌⊎◌, inl, inr, Bool, true, false, not,
  Option, none, some, [], ◌∷◌, ◌++◌, append-nil, arith, ltb, ◌==◌, if◌then◌else◌, some_injective,
  length, get_or, take, drop, length-append, take-append, drop-append, All,
}
use yes_you_can.Bytes.{Bytes, IsByte, u16be, write_u16be, ascii_bytes_from}
use yes_you_can.Text.{Text, trim}
use yes_you_can.Doip.{
  VehicleIdentification, encode_vehicle_identification_response, optional_byte,
  decode_vehicle_identification_response,
}
use yes_you_can.Doip.RoundTrip.{word_kept}

get_or-drop : (n k : ℕ) (bytes : Bytes) → get_or bytes (n + k) 0 ≡ get_or (drop n bytes) k 0
get_or-drop zero k bytes = let same : 0 + k ≡ k = omega arith in rw same refl
get_or-drop (suc n) k [] = refl
get_or-drop (suc n) k (b ∷ bs) =
    let next : suc n + k ≡ suc (n + k) = omega arith in rw next (get_or-drop n k bs)

drop-drop : (n k : ℕ) (bytes : Bytes) → drop (n + k) bytes ≡ drop k (drop n bytes)
drop-drop zero k bytes = let same : 0 + k ≡ k = omega arith in rw same refl
drop-drop (suc n) zero [] = let next : suc n + 0 ≡ suc n = omega arith in rw next refl
drop-drop (suc n) (suc k) [] =
    let next : suc n + suc k ≡ suc (n + suc k) = omega arith in rw next refl
drop-drop (suc n) k (b ∷ bs) =
    let next : suc n + k ≡ suc (n + k) = omega arith in rw next (drop-drop n k bs)

ascii_bytes_from_full :
    (n : ℕ) (text : Text) → length text ≡ n → All IsByte text → ascii_bytes_from n text ≡ text
unfolding ascii_bytes_from
ascii_bytes_from_full zero [] e h = refl
ascii_bytes_from_full zero (c ∷ cs) e h = absurd (omega arith)
ascii_bytes_from_full (suc n) [] e h = absurd (omega arith)
ascii_bytes_from_full (suc n) (c ∷ cs) e (b, h) =
    let byte : c % 256 ≡ c = omega arith in
    rw byte (ap (λ t. c ∷ t) (ascii_bytes_from_full n cs (omega arith) h))

-- The response that the wire can carry: a VIN of 17 one-byte characters without blanks at its ends,
-- identifiers of 6 bytes, a 16-bit address, and a status of one byte, if any.
pub record Encodable (r : VehicleIdentification) : Type 0 where
  pub seventeen : length r.vin ≡ 17
  pub narrow : All IsByte r.vin
  pub trimmed : trim r.vin ≡ r.vin
  pub address : r.logical_address < 65536
  pub six_eid : length r.eid ≡ 6
  pub six_gid : length r.gid ≡ 6
  pub status : (r.vin_sync_status ≡ none) ⊎ ((s : ℕ) × (r.vin_sync_status ≡ some s) × (s < 256))

-- What stands behind the 17 characters of the VIN.
abbrev behind : VehicleIdentification → Bytes
behind r =
    (r.logical_address / 256 % 256)
    ∷ (r.logical_address % 256)
    ∷ (r.eid
        ++ (r.gid
            ++ ((if r.further_action_required then 0x01 else 0x00)
                ∷ optional_byte r.vin_sync_status)))

encode_response_lem :
    (r : VehicleIdentification)
    → Encodable r
    → encode_vehicle_identification_response r ≡ r.vin ++ behind r
unfolding encode_vehicle_identification_response write_u16be
encode_response_lem r h =
    rw (ascii_bytes_from_full 17 r.vin h.seventeen h.narrow)
      (rw (append-nil (optional_byte r.vin_sync_status)) refl)

status_lem :
    (status : Option ℕ) (n x : ℕ)
    → (status ≡ none) ⊎ ((s : ℕ) × (status ≡ some s) × (s < 256))
    → n ≡ 32 + length (optional_byte status)
    → x ≡ get_or (optional_byte status) 0 0
    → (if ltb 32 n then some x else none) ≡ status
status_lem none n x h e k = let over : ltb 32 n ≡ false = ground arith in rw over refl
status_lem (some s) n x h e k =
    let more : ltb 32 n ≡ true = ground arith in
    let same : x ≡ s = elim h [
      | inl none_left ↦ cc
      | inr (t, given, small) ↦ let equal = some_injective given in omega arith
    ] in
    rw more (rw same refl)

-- The fields of the response, each where the decoder looks for it.
module _ (r : VehicleIdentification) (h : Encodable r) where
  payload : Bytes
  payload = r.vin ++ behind r

  tail : Bytes
  tail = (if r.further_action_required then 0x01 else 0x00) ∷ optional_byte r.vin_sync_status

  payload-vin : take 17 payload ≡ r.vin
  unfolding payload
  payload-vin = take-append r.vin (behind r) 17 h.seventeen

  payload-behind : drop 17 payload ≡ behind r
  unfolding payload
  payload-behind = drop-append r.vin (behind r) 17 h.seventeen

  payload-address : u16be payload 17 ≡ r.logical_address
  unfolding u16be
  payload-address =
      ap₂ (λ (a b : ℕ). a * 256 + b)
        (get_or-drop 17 0 payload ∙ ap (λ t. get_or t 0 0) payload-behind)
        (get_or-drop 17 1 payload ∙ ap (λ t. get_or t 1 0) payload-behind)
      ∙ word_kept r.logical_address h.address

  payload-eid_on : drop 19 payload ≡ r.eid ++ (r.gid ++ tail)
  unfolding tail
  payload-eid_on = drop-drop 17 2 payload ∙ ap (λ t. drop 2 t) payload-behind

  payload-eid : take 6 (drop 19 payload) ≡ r.eid
  payload-eid = ap (λ t. take 6 t) payload-eid_on ∙ take-append r.eid (r.gid ++ tail) 6 h.six_eid

  payload-gid_on : drop 25 payload ≡ r.gid ++ tail
  payload-gid_on =
      drop-drop 19 6 payload
      ∙ ap (λ t. drop 6 t) payload-eid_on
      ∙ drop-append r.eid (r.gid ++ tail) 6 h.six_eid

  payload-gid : take 6 (drop 25 payload) ≡ r.gid
  payload-gid = ap (λ t. take 6 t) payload-gid_on ∙ take-append r.gid tail 6 h.six_gid

  payload-tail : drop 31 payload ≡ tail
  payload-tail =
      drop-drop 25 6 payload
      ∙ ap (λ t. drop 6 t) payload-gid_on
      ∙ drop-append r.gid tail 6 h.six_gid

  length-payload : length payload ≡ 32 + length (optional_byte r.vin_sync_status)
  unfolding payload
  length-payload = omega (
    arith,
    length-append r.vin (behind r),
    length-append r.eid (
        r.gid
        ++ ((if r.further_action_required then 0x01 else 0x00) ∷ optional_byte r.vin_sync_status)),
    length-append r.gid
        ((if r.further_action_required then 0x01 else 0x00) ∷ optional_byte r.vin_sync_status),
    h.seventeen,
    h.six_eid,
    h.six_gid,
  )

  payload-flag : not (get_or payload 31 0 == 0x00) ≡ r.further_action_required
  unfolding tail
  payload-flag =
      ap (λ b. not (b == 0)) (get_or-drop 31 0 payload ∙ ap (λ t. get_or t 0 0) payload-tail)
      ∙ flag r.further_action_required
    where
      flag : (b : Bool) → not ((if b then 0x01 else 0x00) == 0) ≡ b
      flag true = refl
      flag false = refl

  payload-status :
      (if ltb 32 (length payload) then some (get_or payload 32 0) else none) ≡ r.vin_sync_status
  unfolding tail
  payload-status =
      status_lem r.vin_sync_status (length payload) (get_or payload 32 0) h.status length-payload
        (get_or-drop 31 1 payload ∙ ap (λ t. get_or t 1 0) payload-tail)

  fields : decode_vehicle_identification_response payload ≡ inr r
  unfolding decode_vehicle_identification_response
  fields =
      let enough : ltb (length payload) 32 ≡ false = ground (arith, length-payload) in
      rw enough (
        rw
          (
            payload-vin, payload-address, payload-eid, payload-gid, payload-flag, payload-status,
            h.trimmed,
          )
          refl)

-- A vehicle identification response that the wire can carry decodes to itself.
pub decode_response-encode_response :
    (r : VehicleIdentification)
    → Encodable r
    → decode_vehicle_identification_response (encode_vehicle_identification_response r) ≡ inr r
unfolding payload
decode_response-encode_response r h =
    ap decode_vehicle_identification_response (encode_response_lem r h) ∙ fields r h
