-- ===== src/Uds/Timing.antt =====
-- packages/protocols/uds/src/timing.ts: the session timing that a client reads from the response to
-- DiagnosticSessionControl, against the response of the server.
use yes_you_can.Prelude.{
  ℕ, ◌+◌, ◌*◌, ◌/◌, ◌%◌, ◌<◌, ◌≡◌, refl, true, false, ◌||◌, Option, none, some, ◌∷◌, ◌++◌, arith,
  ltb, ◌==◌, if◌then◌else◌, length,
}
use yes_you_can.Bytes.{Bytes, u16be, write_u16be}
use yes_you_can.Session.{Policy, Machine, Transition, request, p2_ms_of, p2_star_ms_of}
use yes_you_can.Uds.Codes.{diagnostic_session_control, positive_response_sid}
use yes_you_can.Uds.Server.{Answer, respond}
use yes_you_can.Uds.Server.Handlers.{session_response, handle_session_control}

abbrev checked_timing : ℕ → ℕ → Option (ℕ × ℕ)
checked_timing p2 units = if p2 == 0xffff || units == 0xffff then none else some (p2, units * 10)

-- P2 and P2* in ms.
unfoldable pub parse_session_timing : Bytes → Option (ℕ × ℕ)
unfolding u16be
parse_session_timing response =
    if ltb (length response) 6 then none else checked_timing (u16be response 2) (u16be response 4)

-- What a positive answer to a request for a session says of the timing.
pub Tells : ℕ → ℕ → Answer → Type 0
Tells p2 p2_star answer =
    (bytes : Bytes) × (answer ≡ respond bytes) × (parse_session_timing bytes ≡ some (p2, p2_star))

parse_words :
    (a b p2 units : ℕ)
    → p2 < 0xffff
    → units < 0xffff
    → parse_session_timing (a ∷ b ∷ (write_u16be p2 ++ write_u16be units)) ≡ some (p2, units * 10)
unfolding parse_session_timing u16be write_u16be
parse_words a b p2 units h k =
    let e : p2 / 256 % 256 * 256 + p2 % 256 ≡ p2 = omega arith in
    let f : units / 256 % 256 * 256 + units % 256 ≡ units = omega arith in
    let g : (p2 == 0xffff) ≡ false = ground arith in
    let i : (units == 0xffff) ≡ false = ground arith in rw (e, f, g, i) refl

session-Tells :
    (policy : Policy) (m : Machine) (requested : ℕ) (transition : Transition)
    → transition.ok ≡ true
    → p2_ms_of policy m < 0xffff
    → (p2_star_ms_of policy m + 5) / 10 < 0xffff
    → Tells
        (p2_ms_of policy m)
        ((p2_star_ms_of policy m + 5) / 10 * 10)
        (session_response policy m requested transition)
unfolding session_response Tells
session-Tells policy m requested transition good p2 p2_star = rw good (
  positive_response_sid diagnostic_session_control
      ∷ requested
      ∷ (write_u16be (p2_ms_of policy m) ++ write_u16be ((p2_star_ms_of policy m + 5) / 10)),
  refl,
  parse_words (positive_response_sid diagnostic_session_control) requested (p2_ms_of policy m)
      ((p2_star_ms_of policy m + 5) / 10) p2 p2_star,
)

-- A session that is entered: the client reads the P2 of the session that the ECU is in then, and its
-- P2*, rounded to 10 ms, as long as both are below the value that is not valid.
pub parse_session_timing-handle_session_control :
    (policy : Policy) (now service sub_function : ℕ) (rest : Bytes) (m : Machine)
    → let (m', transition) = request policy (sub_function % 128) now m in
      transition.ok ≡ true
      → p2_ms_of policy m' < 0xffff
      → (p2_star_ms_of policy m' + 5) / 10 < 0xffff
      → Tells
          (p2_ms_of policy m')
          ((p2_star_ms_of policy m' + 5) / 10 * 10)
          (handle_session_control policy now (service ∷ sub_function ∷ rest) m).0
unfolding handle_session_control
parse_session_timing-handle_session_control policy now service sub_function rest m good p2 p2_star =
    let (m', transition) = request policy (sub_function % 128) now m in
    let long : ltb (length (service ∷ sub_function ∷ rest)) 2 ≡ false = ground arith in
    rw long (session-Tells policy m' (sub_function % 128) transition good p2 p2_star)
