-- ===== src/Uds/Server/Writes.antt =====
-- packages/protocols/uds/src/server.ts: an identifier that is written reads back.
use yes_you_can.Prelude.{
  ℕ, ◌+◌, ◌*◌, ◌/◌, ◌%◌, ◌≡◌, refl, inl, inr, true, false, none, some, List, [], ◌∷◌, append-nil,
  arith, ltb, ◌==◌, ==_refl, Bool-cases, length,
}
use yes_you_can.Bytes.{Bytes, IsByte, write_u16be}
use yes_you_can.Uds.Codes.{read_data_by_identifier, write_data_by_identifier, positive_response_sid}
use yes_you_can.Uds.Server.{ServerDid, Server, respond, find_did, register_did}
use yes_you_can.Uds.Server.Handlers.{
  in_sessions, read_one, read_dids, did_response, handle_read_did, store, write_found,
  handle_write_did,
}

two_bytes :
    (high low : ℕ) → IsByte high → IsByte low → write_u16be (high * 256 + low) ≡ high ∷ low ∷ []
unfolding write_u16be
two_bytes high low h l =
    let e : (high * 256 + low) / 256 % 256 ≡ high = omega arith in
    let f : (high * 256 + low) % 256 ≡ low = omega arith in rw (e, f) refl

module _ {W : Type 0} where
  find_did-register_did :
      (d : ServerDid W) (dids : List (ServerDid W)) → find_did d.did (register_did d dids) ≡ some d
  unfolding find_did register_did
  find_did-register_did d [] = rw (==_refl d.did) refl
  find_did-register_did d (e ∷ es) = elim (Bool-cases (e.did == d.did)) [
    | inl same ↦ rw (same, ==_refl d.did) refl
    | inr other ↦ rw (other, other) (find_did-register_did d es)
  ]

  -- A read of one identifier whose value is constant.
  read_constant :
      (d : ServerDid W) (high low byte : ℕ) (bytes : Bytes) (s : Server W)
      → IsByte high
      → IsByte low
      → find_did (high * 256 + low) s.dids ≡ some d
      → d.value s.world ≡ some (byte ∷ bytes)
      → in_sessions d.sessions s.session.current.type ≡ true
      → handle_read_did (read_data_by_identifier ∷ high ∷ low ∷ []) s
        ≡ respond (positive_response_sid read_data_by_identifier ∷ high ∷ low ∷ byte ∷ bytes)
  unfolding handle_read_did read_dids read_one did_response
  read_constant d high low byte bytes s h l found is_value open_here =
      let e : (high * 256 + low) / 256 % 256 ≡ high = omega arith in
      let f : (high * 256 + low) % 256 ≡ low = omega arith in
      rw (found, open_here, is_value) (unfold write_u16be in rw (e, f, append-nil bytes) refl)

  -- An identifier that is writable, has no hook of its own and may be read in the active session: a
  -- write of at least one byte is accepted, and a read of the identifier then answers with exactly
  -- the bytes that were written.
  pub read_did-write_did :
      (d : ServerDid W) (service high low byte : ℕ) (bytes : Bytes) (s : Server W)
      → IsByte high
      → IsByte low
      → find_did (high * 256 + low) s.dids ≡ some d
      → d.writable ≡ true
      → d.write ≡ none
      → in_sessions d.sessions s.session.current.type ≡ true
      → let (answer, s') = handle_write_did (service ∷ high ∷ low ∷ byte ∷ bytes) s in
        (answer ≡ respond (positive_response_sid write_data_by_identifier ∷ high ∷ low ∷ []))
        × (handle_read_did (read_data_by_identifier ∷ high ∷ low ∷ []) s'
            ≡ respond (positive_response_sid read_data_by_identifier ∷ high ∷ low ∷ byte ∷ bytes))
  unfolding handle_write_did write_found store
  read_did-write_did d service high low byte bytes s h l found writable plain open_here =
      let stored : ServerDid W = record {
        did = high * 256 + low;
        value = λ (w : W). some (byte ∷ bytes);
        writable = true;
        sessions = d.sessions;
        write = none;
      } in
      let long : ltb (length (service ∷ high ∷ low ∷ byte ∷ bytes)) 4 ≡ false = ground arith in
      rw (long, found)
        (rw (writable, plain, two_bytes high low h l)
          (
            refl,
            read_constant stored high low byte bytes
                (record s { dids = register_did stored s.dids }) h l
                (find_did-register_did stored s.dids) refl open_here,
          ))
