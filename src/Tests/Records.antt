-- ===== src/Tests/Records.antt =====
-- Logging: a trace of one frame, with a digest that keeps the text and a signer whose signature is the
-- binding.
use yes_you_can.Prelude.{ℕ, ◌≡◌, refl, true, false, none, List, [], ◌∷◌, ◌++◌}
use yes_you_can.Text.{Text, codes, eq_text, eq_text_refl, eq_text_iff, decimal, decimal_from}
use yes_you_can.Logging.Integrity.{
  RawTraceEntry, TraceDirection, IntegrityPort, RawTraceManifest, ManifestSigner, ManifestVerifier,
  canonical_manifest_binding, verify_raw_trace_manifest, sign_raw_trace_manifest,
  verify_raw_trace_manifest_signature, manifest_format, hash_raw_trace, update_all,
  canonical_raw_trace_chunks, canonical_entry,
}
use yes_you_can.Logging.Integrity.Attested.{SameKey, verify_signature-sign}

abbrev keeping : IntegrityPort Text
keeping = record {
  algorithm = codes "sha256";
  create_digest = [];
  update = λ (chunk digest : Text). digest ++ chunk;
  hex = λ (digest : Text). digest;
}

abbrev signer : ManifestSigner
signer = record {
  key_id = codes "key";
  public_key = codes "public";
  sign = λ (m : RawTraceManifest). record {
    key_id = codes "key";
    algorithm = codes "ed25519";
    value = canonical_manifest_binding m;
  };
}

abbrev verifier : ManifestVerifier
verifier = record { key_id = codes "key"; verify = eq_text }

signer-SameKey : SameKey signer verifier
signer-SameKey = record {
  algorithm = λ m. refl;
  key_id = λ m. refl;
  confirms = λ m. eq_text_refl (canonical_manifest_binding m);
  only = λ m binding h. (eq_text_iff binding (canonical_manifest_binding m)).0 h;
}

abbrev trace : List (RawTraceEntry ℕ)
trace =
    record {
      t = 5;
      can_id = 0x7e0;
      direction = TraceDirection.tx;
      dlc = 2;
      payload_hex = codes "1A";
      channel = codes "can0";
      extended = false;
      fd = false;
    }
    ∷ []

-- The manifest that an earlier version has written.
abbrev first_version : RawTraceManifest
first_version = record {
  format = manifest_format;
  version = 1;
  algorithm = codes "sha256";
  entries = 1;
  sha256 = codes "23:5|2016|tx|2|1a|can0|0|0" ++ (10 ∷ []);
  signature = none;
  public_key = none;
}

verify_signature-sign_example :
    (verify_raw_trace_manifest decimal keeping trace (sign_raw_trace_manifest first_version signer)
      ≡ true)
    × (verify_raw_trace_manifest_signature (sign_raw_trace_manifest first_version signer) verifier
        ≡ false)
unfolding verify_raw_trace_manifest hash_raw_trace update_all canonical_raw_trace_chunks
    canonical_entry decimal decimal_from
verify_signature-sign_example =
    verify_signature-sign decimal keeping trace first_version signer verifier signer-SameKey refl
