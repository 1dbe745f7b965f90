-- ===== src/Uds/Server/Lockout.antt =====
-- packages/protocols/uds/src/server.ts: the lockout of SecurityAccess.
use yes_you_can.Prelude.{
  ◌*◌, ap, ◌∙◌, Option, none, some, List, [], ◌∷◌, not, if_cases, includes, is_none, length, All, ℕ,
  ◌+◌, ◌%◌, ◌≤◌, ◌<◌, ◌≡◌, refl, true, false, arith, ltb, leb, ◌==◌, get_or, drop,
}
use yes_you_can.Bytes.{Bytes}
use yes_you_can.Session.{tick, activity, service_refusal}
use yes_you_can.Uds.Codes.{
  diagnostic_session_control, ecu_reset, tester_present, clear_diagnostic_information,
  read_dtc_information, read_data_by_identifier, write_data_by_identifier, routine_control,
  security_access, required_time_delay_not_expired, exceed_number_of_attempts,
}
use yes_you_can.Uds.Server.{
  ServerSecurityAccess, Server, refuse, Answer, ServerOptions, ServerDid, ServerRoutine, HookAnswer,
  find_did, find_routine,
}
use yes_you_can.Uds.Server.Handlers.{
  key_tried, handle_security_access, store, write_found, handle_write_did, run_routine,
  handle_routine_control, secured, serve,
}
use yes_you_can.Uds.Server.Dispatch.{table_services, dispatch, allowed_call, handle}

module _ {W : Type 0} (access : ServerSecurityAccess W) where
  -- While the ECU is locked out every request is refused: no seed is given, no key is tried, and
  -- the server is the same.
  locked_out :
      (now : ℕ) (payload : Bytes) (s : Server W)
      → now < s.locked_out_until
      → handle_security_access access now payload s
        ≡ (refuse security_access required_time_delay_not_expired, s)
  unfolding handle_security_access
  locked_out now payload s h = let e : ltb now s.locked_out_until ≡ true = ground arith in rw e refl

  wrong_key :
      (now : ℕ) (payload : Bytes) (s : Server W)
      → s.locked_out_until ≤ now
      → get_or payload 1 0 % 2 ≡ 0
      → (access.verify_key (get_or payload 1 0) (drop 2 payload) s.world).0 ≡ some false
      → handle_security_access access now payload s
        ≡ key_tried access now (get_or payload 1 0) (some false) (record s {
          world = (access.verify_key (get_or payload 1 0) (drop 2 payload) s.world).1;
        })
  unfolding handle_security_access
  wrong_key now payload s free even wrong =
      let e : ltb now s.locked_out_until ≡ false = ground arith in rw (e, even, wrong) refl

  third_wrong_key :
      (now level : ℕ) (s : Server W)
      → 2 ≤ s.security_failures
      → 0 < access.lockout_ms
      → key_tried access now level (some false) s ≡ (
        refuse security_access exceed_number_of_attempts,
        record s {
          security_failures = s.security_failures + 1;
          locked_out_until = now + access.lockout_ms;
        },
      )
  unfolding key_tried
  third_wrong_key now level s two some_time =
      let e : leb 3 (s.security_failures + 1) ≡ true = ground arith in
      let f : (access.lockout_ms == 0) ≡ false = ground arith in rw (e, f) refl

-- No request ends a lockout early.
module _ {W : Type 0} (options : ServerOptions W) (payload : Bytes) where
  store_lockout :
      (d : ServerDid W) (did : ℕ) (bytes : Bytes) (s : Server W)
      (hook : Option (Bytes → W → HookAnswer × W))
      → (store d did bytes hook s).1.locked_out_until ≡ s.locked_out_until
  unfolding store
  store_lockout d did bytes s none = refl
  store_lockout d did bytes s (some hook) = refl

  found_lockout :
      (did : ℕ) (bytes : Bytes) (s : Server W) (found : Option (ServerDid W))
      → (write_found did bytes found s).1.locked_out_until ≡ s.locked_out_until
  unfolding write_found
  found_lockout did bytes s none = refl
  found_lockout did bytes s (some d) =
      if_cases (λ (x : Answer × Server W). x.1.locked_out_until ≡ s.locked_out_until)
        (not d.writable) _ _ refl (store_lockout d did bytes s d.write)

  write_lockout :
      (s : Server W) → (handle_write_did payload s).1.locked_out_until ≡ s.locked_out_until
  unfolding handle_write_did
  write_lockout s =
      if_cases (λ (x : Answer × Server W). x.1.locked_out_until ≡ s.locked_out_until)
        (ltb (length payload) 4) _ _ refl
        (found_lockout (get_or payload 1 0 * 256 + get_or payload 2 0) (drop 3 payload) s
          (find_did (get_or payload 1 0 * 256 + get_or payload 2 0) s.dids))

  run_lockout :
      (control id : ℕ) (bytes : Bytes) (s : Server W) (found : Option (ServerRoutine W))
      → (run_routine control id bytes found s).1.locked_out_until ≡ s.locked_out_until
  unfolding run_routine
  run_lockout control id bytes s none = refl
  run_lockout control id bytes s (some r) = refl

  routine_lockout :
      (s : Server W)
      → (handle_routine_control options.routines payload s).1.locked_out_until ≡ s.locked_out_until
  unfolding handle_routine_control
  routine_lockout s =
      if_cases (λ (x : Answer × Server W). x.1.locked_out_until ≡ s.locked_out_until)
        (ltb (length payload) 4) _ _ refl
        (run_lockout (get_or payload 1 0) (get_or payload 2 0 * 256 + get_or payload 3 0)
          (drop 4 payload) s
          (find_routine (get_or payload 2 0 * 256 + get_or payload 3 0) options.routines))

  secured_lockout :
      (access : Option (ServerSecurityAccess W)) (now : ℕ) (s : Server W)
      → now < s.locked_out_until
      → (secured access now payload s).1.locked_out_until ≡ s.locked_out_until
  secured_lockout none now s h = refl
  secured_lockout (some access) now s h =
      ap (λ (x : Answer × Server W). x.1.locked_out_until) (locked_out access now payload s h)

  serve_lockout :
      (now service : ℕ) (s : Server W)
      → now < s.locked_out_until
      → (serve options now service payload s).1.locked_out_until ≡ s.locked_out_until
  unfolding serve
  serve_lockout now service s h =
      let Same = λ (z : Answer × Server W). z.1.locked_out_until ≡ s.locked_out_until in
      let branch = λ (k : ℕ) (x y : Answer × Server W) (e : Same x) (other : Same y).
        if_cases Same (service == k) x y e other in
      branch tester_present _ _ refl (
        branch diagnostic_session_control _ _ refl (
          branch ecu_reset _ _ refl (
            branch clear_diagnostic_information _ _ refl (
              branch read_dtc_information _ _ refl (
                branch read_data_by_identifier _ _ refl (
                  branch write_data_by_identifier _ _ (write_lockout s) (
                    branch routine_control _ _ (routine_lockout s) (
                      branch security_access _ _ (secured_lockout options.security_access now s h)
                        refl))))))))

  call_lockout :
      (now service : ℕ) (s : Server W) (refusal : Option ℕ)
      → now < s.locked_out_until
      → (allowed_call options now service payload s refusal).1.locked_out_until ≡ s.locked_out_until
  call_lockout now service s none h = serve_lockout now service s h
  call_lockout now service s (some nrc) h = refl

  dispatch_lockout :
      (now service : ℕ) (s : Server W)
      → now < s.locked_out_until
      → (dispatch options now service payload s).1.locked_out_until ≡ s.locked_out_until
  unfolding dispatch
  dispatch_lockout now service s h =
      if_cases (λ (x : Answer × Server W). x.1.locked_out_until ≡ s.locked_out_until)
        (includes (table_services (is_none options.security_access)) service) _ _
        (call_lockout now service s (service_refusal options.policy service s.session) h) refl

-- Requests with the times at which they arrive.
unfoldable pub handle_all : {W : Type 0} → ServerOptions W → List (ℕ × Bytes) → Server W → Server W
handle_all options [] s = s
handle_all options ((now, payload) ∷ more) s =
    handle_all options more (handle options now payload s).1

module _ {W : Type 0} (options : ServerOptions W) where
  handle_lockout :
      (now : ℕ) (payload : Bytes) (s : Server W)
      → now < s.locked_out_until
      → (handle options now payload s).1.locked_out_until ≡ s.locked_out_until
  unfolding handle
  handle_lockout now [] s h = refl
  handle_lockout now (service ∷ rest) s h =
      dispatch_lockout options (service ∷ rest) now service
        (record s { session = activity now (tick options.policy now s.session).0 }) h

  handle_all_lockout :
      (until : ℕ) (requests : List (ℕ × Bytes)) (s : Server W)
      → s.locked_out_until ≡ until
      → All (λ (r : ℕ × Bytes). r.0 < until) requests
      → (handle_all options requests s).locked_out_until ≡ until
  unfolding handle_all
  handle_all_lockout until [] s e h = e
  handle_all_lockout until ((now, payload) ∷ more) s e h =
      handle_all_lockout until more (handle options now payload s).1
        (handle_lockout now payload s (omega (arith, e, h.0)) ∙ e) h.1

  -- A wrong key that is at least the third in a row, tried while the ECU is not locked out, is
  -- answered with exceedNumberOfAttempts and leaves the session. From then on, until the time of the
  -- lockout has passed, whatever other requests of any service have been handled in between, a
  -- SecurityAccess request is refused and changes nothing, whatever key it carries.
  pub third_failure_locks_out :
      (access : ServerSecurityAccess W) (now later : ℕ) (payload next : Bytes)
      (between : List (ℕ × Bytes)) (s : Server W)
      → s.locked_out_until ≤ now
      → get_or payload 1 0 % 2 ≡ 0
      → (access.verify_key (get_or payload 1 0) (drop 2 payload) s.world).0 ≡ some false
      → 2 ≤ s.security_failures
      → All (λ (r : ℕ × Bytes). r.0 < now + access.lockout_ms) between
      → 0 < access.lockout_ms
      → later < now + access.lockout_ms
      → let (answer, s') = handle_security_access access now payload s in
        let s'' = handle_all options between s' in
        (answer ≡ refuse security_access exceed_number_of_attempts)
        × (s'.session ≡ s.session)
        × (handle_security_access access later next s''
            ≡ (refuse security_access required_time_delay_not_expired, s''))
  third_failure_locks_out access now later payload next between s free even wrong two all lasts
        soon =
      let tried : Server W = record s {
        world = (access.verify_key (get_or payload 1 0) (drop 2 payload) s.world).1;
      } in
      let locked : Server W = record tried {
        security_failures = s.security_failures + 1;
        locked_out_until = now + access.lockout_ms;
      } in
      let held = handle_all_lockout (now + access.lockout_ms) between locked refl all in
      rw
        (
          wrong_key access now payload s free even wrong,
          third_wrong_key access now (get_or payload 1 0) tried two lasts,
        )
        (
          refl,
          refl,
          locked_out access later next (handle_all options between locked)
              (omega (arith, held, soon)),
        )
