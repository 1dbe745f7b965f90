-- ===== src/Logging/Integrity/Attested.antt =====
-- packages/core/src/logging/integrity.ts: what a signature attests to.
use yes_you_can.Prelude.{
  ℕ, ◌≡◌, refl, ap, ◌∙◌, sym, Bool, true, false, ◌&&◌, ◌==◌, List, [], ◌∷◌, ◌++◌, inl, inr,
  Bool-cases, arith, length, get_or, ◌≢◌, ◌⊎◌,
}
use yes_you_can.Text.{Text, codes, eq_text, eq_text_refl, decimal, decimal_from}
use yes_you_can.Logging.Integrity.{
  RawTraceEntry, IntegrityPort, RawTraceManifest, ManifestSigner, ManifestVerifier,
  verify_raw_trace_manifest, canonical_manifest_binding, sign_raw_trace_manifest,
  signature_confirmed, verify_raw_trace_manifest_signature, is_supported_version, manifest_format,
  hash_raw_trace,
}

-- A signer and a verifier of the same key: the verifier confirms what the signer has signed, and the
-- value of a signature for no other binding.
pub record SameKey (signer : ManifestSigner) (verifier : ManifestVerifier) : Type 0 where
  pub algorithm : (m : RawTraceManifest) → (signer.sign m).algorithm ≡ codes "ed25519"
  pub key_id : (m : RawTraceManifest) → (signer.sign m).key_id ≡ verifier.key_id
  pub confirms :
      (m : RawTraceManifest)
      → verifier.verify (canonical_manifest_binding m) (signer.sign m).value ≡ true
  pub only :
      (m : RawTraceManifest) (binding : Text)
      → verifier.verify binding (signer.sign m).value ≡ true
      → binding ≡ canonical_manifest_binding m

append_cancel : (front xs ys : Text) → front ++ xs ≡ front ++ ys → xs ≡ ys
append_cancel [] xs ys h = h
append_cancel (c ∷ cs) xs ys h = append_cancel cs xs ys (cc h)

-- The bindings of the two versions of a manifest differ.
versions_differ :
    (m : RawTraceManifest)
    → canonical_manifest_binding (record m { version = 2 })
      ≢ canonical_manifest_binding (record m { version = 1 })
unfolding canonical_manifest_binding decimal decimal_from
versions_differ m h =
    let e : 50 ≡ 49 = ap (λ (t : Text). get_or t 1 0) (append_cancel m.format _ _ h) in
    omega (arith, e)

-- The binding of a signed manifest is that of version 2 of what was signed.
signed_binding :
    (m : RawTraceManifest) (signer : ManifestSigner)
    → canonical_manifest_binding (sign_raw_trace_manifest m signer)
      ≡ canonical_manifest_binding (record m { version = 2 })
unfolding canonical_manifest_binding sign_raw_trace_manifest
signed_binding m signer = refl

module _ (signer : ManifestSigner) (verifier : ManifestVerifier)
    (same : SameKey signer verifier) where
  confirmed_binding :
      (m : RawTraceManifest)
      → verify_raw_trace_manifest_signature (sign_raw_trace_manifest m signer) verifier
        ≡ verifier.verify
            (canonical_manifest_binding (record m { version = 2 }))
            (signer.sign m).value
  unfolding verify_raw_trace_manifest_signature signature_confirmed sign_raw_trace_manifest
      canonical_manifest_binding
  confirmed_binding m = rw (same.algorithm m, same.key_id m, eq_text_refl verifier.key_id) refl

  -- By the version of the manifest that is signed.
  confirmed_version :
      (m : RawTraceManifest) (answer : Bool)
      → m.version ≡ 1 ⊎ m.version ≡ 2
      → verifier.verify
          (canonical_manifest_binding (record m { version = 2 }))
          (signer.sign m).value
        ≡ answer
      → answer ≡ (m.version == 2)
  confirmed_version m answer (inl one) h = elim (Bool-cases answer) [
    | inr refused ↦ rw (one, refused) refl
    | inl good ↦ absurd (
        versions_differ m (
          same.only m (canonical_manifest_binding (record m { version = 2 })) (h ∙ good)
          ∙ ap (λ (v : ℕ). canonical_manifest_binding (record m { version = v })) one))
  ]
  confirmed_version m answer (inr two) h =
      let signed : canonical_manifest_binding (record m { version = 2 })
          ≡ canonical_manifest_binding m =
        sym (ap (λ (v : ℕ). canonical_manifest_binding (record m { version = v })) two) in
      rw two (
        sym h ∙ ap (λ (b : Text). verifier.verify b (signer.sign m).value) signed ∙ same.confirms m)

without :
    (f v a n d : Bool)
    → (f && v && a && n && d) ≡ true
    → ((f && true && a && n && d) ≡ true) × (v ≡ true)
without true true a n d h = (h, refl)
without true false a n d h = cc h
without false v a n d h = cc h

supported_cases : (v : ℕ) → is_supported_version v ≡ true → v ≡ 1 ⊎ v ≡ 2
supported_cases v h = ground arith

module _ {N D : Type 0} (show : N → Text) (port : IntegrityPort D) where
  -- A manifest that verifies against a trace still does when it is signed, and what its signature
  -- attests to is confirmed with the key of the signer exactly if the manifest had version 2
  -- already: the signature of a manifest of version 1 is never confirmed.
  pub verify_signature-sign :
      (entries : List (RawTraceEntry N)) (m : RawTraceManifest) (signer : ManifestSigner)
      (verifier : ManifestVerifier)
      → SameKey signer verifier
      → verify_raw_trace_manifest show port entries m ≡ true
      → let signed = sign_raw_trace_manifest m signer in
        (verify_raw_trace_manifest show port entries signed ≡ true)
        × (verify_raw_trace_manifest_signature signed verifier ≡ (m.version == 2))
  unfolding verify_raw_trace_manifest sign_raw_trace_manifest
  verify_signature-sign entries m signer verifier same h =
      let parts =
        without (eq_text m.format manifest_format) (is_supported_version m.version)
          (eq_text m.algorithm port.algorithm) (m.entries == length entries)
          (eq_text m.sha256 (hash_raw_trace show port entries)) h in
      (
        parts.0,
        confirmed_binding signer verifier same m
            ∙ confirmed_version signer verifier same m _ (supported_cases m.version parts.1) refl,
      )
