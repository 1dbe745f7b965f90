-- ===== src/Uds/Server/Security.antt =====
-- packages/protocols/uds/src/server.ts: what unlocks the ECU.
use yes_you_can.Prelude.{
  ℕ, ◌+◌, ◌*◌, ◌%◌, ◌≤◌, ◌≡◌, refl, ap, ◌∙◌, ◌⊎◌, inl, inr, Bool, true, false, not, ◌&&◌, ◌||◌,
  Option, none, some, ◌∷◌, arith, ltb, ◌==◌, if_cases, Bool-cases, get_some_or, is_none, length,
  get_or, drop, includes,
}
use yes_you_can.Bytes.{Bytes}
use yes_you_can.Session.{
  Policy, Machine, Expiry, s3_ms_of, Transition, SessionDefinition, request, enter, find, reset,
  tick, activity, unlock, service_refusal,
}
use yes_you_can.Uds.Codes.{
  security_access, diagnostic_session_control, ecu_reset, tester_present,
  clear_diagnostic_information, read_dtc_information, read_data_by_identifier,
  write_data_by_identifier, routine_control,
}
use yes_you_can.Uds.Server.{
  HookAnswer, ServerDid, ServerRoutine, ServerSecurityAccess, ServerOptions, Server, Answer,
  find_did, find_routine,
}
use yes_you_can.Uds.Server.Handlers.{
  handle_session_control, handle_ecu_reset, key_tried, handle_security_access, store, write_found,
  handle_write_did, run_routine, handle_routine_control, secured, serve,
}
use yes_you_can.Uds.Server.Dispatch.{table_services, dispatch, allowed_call, handle}

-- The level of a machine is the one before, or none.
Lowered : Machine → Machine → Type 0
Lowered m m' = (m'.unlocked_level ≡ m.unlocked_level) ⊎ (m'.unlocked_level ≡ 0)

enter-Lowered :
    (policy : Policy) (type at : ℕ) (found : Option SessionDefinition) (m : Machine)
    → Lowered m (enter policy type at found m).0
unfolding enter Lowered
enter-Lowered policy type at none m = inl refl
enter-Lowered policy type at (some d) m = elim (Bool-cases (type == m.current.type)) [
  | inl same ↦ rw same (inl refl)
  | inr other ↦ rw other (
      if_cases (λ (x : Machine × Transition). Lowered m x.0) (not (includes d.from m.current.type))
        _ _ (unfold Lowered in inl refl) (unfold Lowered in inr refl))
]

control-Lowered :
    (policy : Policy) (now : ℕ) (payload : Bytes) (m : Machine)
    → Lowered m (handle_session_control policy now payload m).1
unfolding handle_session_control request
control-Lowered policy now payload m =
    if_cases (λ (x : Answer × Machine). Lowered m x.1) (ltb (length payload) 2) _ _
      (unfold Lowered in inl refl)
      (enter-Lowered policy (get_or payload 1 0 % 128) now
        (find (get_or payload 1 0 % 128) policy.definitions) m)

reset-Lowered :
    (policy : Policy) (now : ℕ) (payload : Bytes) (m : Machine)
    → Lowered m (handle_ecu_reset policy now payload m).1
unfolding handle_ecu_reset reset
reset-Lowered policy now payload m =
    if_cases (λ (x : Answer × Machine). Lowered m x.1) (ltb (length payload) 2) _ _
      (unfold Lowered in inl refl)
      (if_cases (λ (x : Answer × Machine). Lowered m x.1)
        (not (get_or payload 1 0 % 128 == 1)
          && (not (get_or payload 1 0 % 128 == 2) && not (get_or payload 1 0 % 128 == 3)))
        _ _ (unfold Lowered in inl refl) (unfold Lowered in inr refl))

tick-Lowered :
    (policy : Policy) (now : ℕ) (m : Machine) → Lowered m (activity now (tick policy now m).0)
unfolding tick reset activity s3_ms_of
tick-Lowered policy now m =
    if_cases (λ (x : Machine × Expiry). Lowered m (activity now x.0))
      (m.current.type == policy.default_type
        || ltb now (m.last_activity_at + get_some_or m.current.s3 policy.fallback_timing.s3_ms))
      _ _ (unfold Lowered in inl refl) (unfold Lowered in inr refl)

module _ {W : Type 0} (options : ServerOptions W) (payload : Bytes) where
  -- How the level may change: it stays, it is dropped, or it is that of the request, whose key the
  -- ECU has verified while it was not locked out.
  pub Unlocks : ℕ → Server W → Server W → Type 0
  Unlocks now s s' =
      (s'.session.unlocked_level ≡ s.session.unlocked_level)
      ⊎ ((s'.session.unlocked_level ≡ 0)
          ⊎ ((access : ServerSecurityAccess W) × (options.security_access ≡ some access)
              × (s.locked_out_until ≤ now)
              × ((access.verify_key (get_or payload 1 0) (drop 2 payload) s.world).0 ≡ some true)
              × (s'.session.unlocked_level ≡ get_or payload 1 0)))

  kept : (now : ℕ) (s s' : Server W) → s'.session ≡ s.session → Unlocks now s s'
  unfolding Unlocks
  kept now s s' e = inl (ap (λ (m : Machine). m.unlocked_level) e)

  machine_only :
      (now : ℕ) (s : Server W) (m : Machine)
      → Lowered s.session m
      → Unlocks now s (record s { session = m })
  unfolding Unlocks Lowered
  machine_only now s m (inl same) = inl same
  machine_only now s m (inr none_left) = inr (inl none_left)

  tried-Unlocks :
      (access : ServerSecurityAccess W) (now : ℕ) (right : Option Bool) (tried : W) (s : Server W)
      → options.security_access ≡ some access
      → s.locked_out_until ≤ now
      → (access.verify_key (get_or payload 1 0) (drop 2 payload) s.world).0 ≡ right
      → Unlocks now s
          (key_tried access now (get_or payload 1 0) right (record s { world = tried })).1
  unfolding key_tried unlock Unlocks
  tried-Unlocks access now none tried s is_access free failed = inl refl
  tried-Unlocks access now (some true) tried s is_access free right =
      inr (inr (access, is_access, free, right, refl))
  tried-Unlocks access now (some false) tried s is_access free wrong = inl refl

  access-Unlocks :
      (access : ServerSecurityAccess W) (now : ℕ) (s : Server W)
      → options.security_access ≡ some access
      → Unlocks now s (handle_security_access access now payload s).1
  unfolding handle_security_access
  access-Unlocks access now s is_access = elim (Bool-cases (ltb now s.locked_out_until)) [
    | inl locked ↦ rw locked (kept now s s refl)
    | inr free ↦ rw free (
        if_cases (λ (x : Answer × Server W). Unlocks now s x.1) (get_or payload 1 0 % 2 == 1) _ _
          (unfold Unlocks in inl refl)
          (tried-Unlocks access now
            (access.verify_key (get_or payload 1 0) (drop 2 payload) s.world).0
            (access.verify_key (get_or payload 1 0) (drop 2 payload) s.world).1 s is_access
            (ground arith) refl))
  ]

  secured-Unlocks :
      (access : Option (ServerSecurityAccess W)) (now : ℕ) (s : Server W)
      → options.security_access ≡ access
      → Unlocks now s (secured access now payload s).1
  secured-Unlocks none now s h = kept now s s refl
  secured-Unlocks (some access) now s h = access-Unlocks access now s h

  store_session :
      (d : ServerDid W) (did : ℕ) (bytes : Bytes) (s : Server W)
      (hook : Option (Bytes → W → HookAnswer × W))
      → (store d did bytes hook s).1.session ≡ s.session
  unfolding store
  store_session d did bytes s none = refl
  store_session d did bytes s (some hook) = refl

  found_session :
      (did : ℕ) (bytes : Bytes) (s : Server W) (found : Option (ServerDid W))
      → (write_found did bytes found s).1.session ≡ s.session
  unfolding write_found
  found_session did bytes s none = refl
  found_session did bytes s (some d) =
      if_cases (λ (x : Answer × Server W). x.1.session ≡ s.session) (not d.writable) _ _ refl
        (store_session d did bytes s d.write)

  write_session : (s : Server W) → (handle_write_did payload s).1.session ≡ s.session
  unfolding handle_write_did
  write_session s =
      if_cases (λ (x : Answer × Server W). x.1.session ≡ s.session) (ltb (length payload) 4) _ _
        refl
        (found_session (get_or payload 1 0 * 256 + get_or payload 2 0) (drop 3 payload) s
          (find_did (get_or payload 1 0 * 256 + get_or payload 2 0) s.dids))

  run_session :
      (control id : ℕ) (bytes : Bytes) (s : Server W) (found : Option (ServerRoutine W))
      → (run_routine control id bytes found s).1.session ≡ s.session
  unfolding run_routine
  run_session control id bytes s none = refl
  run_session control id bytes s (some r) = refl

  routine_session :
      (s : Server W) → (handle_routine_control options.routines payload s).1.session ≡ s.session
  unfolding handle_routine_control
  routine_session s =
      if_cases (λ (x : Answer × Server W). x.1.session ≡ s.session) (ltb (length payload) 4) _ _
        refl
        (run_session (get_or payload 1 0) (get_or payload 2 0 * 256 + get_or payload 3 0)
          (drop 4 payload) s
          (find_routine (get_or payload 2 0 * 256 + get_or payload 3 0) options.routines))

  serve-Unlocks :
      (now service : ℕ) (s : Server W) → Unlocks now s (serve options now service payload s).1
  unfolding serve
  serve-Unlocks now service s =
      let branch =
        λ (k : ℕ) (x y : Answer × Server W) (h : Unlocks now s x.1) (other : Unlocks now s y.1).
          if_cases (λ (z : Answer × Server W). Unlocks now s z.1) (service == k) x y h other in
      branch tester_present _ _ (kept now s s refl) (
        branch diagnostic_session_control _ _
          (machine_only now s _ (control-Lowered options.policy now payload s.session))
          (branch ecu_reset _ _
            (machine_only now s _ (reset-Lowered options.policy now payload s.session))
            (branch clear_diagnostic_information _ _ (kept now s _ refl) (
              branch read_dtc_information _ _ (kept now s s refl) (
                branch read_data_by_identifier _ _ (kept now s s refl) (
                  branch write_data_by_identifier _ _ (kept now s _ (write_session s)) (
                    branch routine_control _ _ (kept now s _ (routine_session s)) (
                      branch security_access _ _
                        (secured-Unlocks options.security_access now s refl)
                        (kept now s s refl)))))))))

  call-Unlocks :
      (now service : ℕ) (s : Server W) (refusal : Option ℕ)
      → Unlocks now s (allowed_call options now service payload s refusal).1
  call-Unlocks now service s none = serve-Unlocks now service s
  call-Unlocks now service s (some nrc) = kept now s s refl

  dispatch-Unlocks :
      (now service : ℕ) (s : Server W) → Unlocks now s (dispatch options now service payload s).1
  unfolding dispatch
  dispatch-Unlocks now service s =
      if_cases (λ (x : Answer × Server W). Unlocks now s x.1)
        (includes (table_services (is_none options.security_access)) service) _ _
        (call-Unlocks now service s (service_refusal options.policy service s.session))
        (kept now s s refl)

  Lowered-first :
      (now : ℕ) (s : Server W) (m : Machine) (s' : Server W)
      → Lowered s.session m
      → Unlocks now (record s { session = m }) s'
      → Unlocks now s s'
  unfolding Unlocks Lowered
  Lowered-first now s m s' (inl same) (inl e) = inl (e ∙ same)
  Lowered-first now s m s' (inr zeroed) (inl e) = inr (inl (e ∙ zeroed))
  Lowered-first now s m s' first (inr later) = inr later

module _ {W : Type 0} where
  -- Whatever is requested, the security level that the ECU is unlocked at stays, or is dropped, or
  -- becomes that of the request; the last only if the ECU was not locked out and has verified the
  -- key that the request carries.
  pub handle-Unlocks :
      (options : ServerOptions W) (now service : ℕ) (rest : Bytes) (s : Server W)
      → Unlocks options (service ∷ rest) now s (handle options now (service ∷ rest) s).1
  unfolding handle
  handle-Unlocks options now service rest s =
      let m = activity now (tick options.policy now s.session).0 in
      Lowered-first options (service ∷ rest) now s m
        (dispatch options now service (service ∷ rest) (record s { session = m })).1
        (tick-Lowered options.policy now s.session)
        (dispatch-Unlocks options (service ∷ rest) now service (record s { session = m }))
