-- ===== src/Logging/Integrity.antt =====
-- packages/core/src/logging/integrity.ts: the manifest of a raw trace and its signature. The digest,
-- the signer and the verifier are the ports of the source. Times are numbers of JavaScript, which the
-- parameter `show` prints; the fields of an entry that no digest covers are left out.
pub mod Attested
use yes_you_can.Prelude.{
  ℕ, Bool, true, false, ◌&&◌, ◌||◌, not, Option, none, some, List, [], ◌∷◌, ◌++◌, ◌==◌, is_none,
  take, length, if◌then◌else◌,
}
use yes_you_can.Text.{Text, codes, eq_text, to_lower_case, decimal}

pub data TraceDirection : Type 0 where
  tx rx : TraceDirection

pub record RawTraceEntry (N : Type 0) : Type 0 where
  pub t : N
  pub can_id : ℕ
  pub direction : TraceDirection
  pub dlc : ℕ
  pub payload_hex : Text
  pub channel : Text
  pub extended : Bool
  pub fd : Bool

-- `IntegrityPort` with its `IntegrityDigest`, whose state is D.
pub record IntegrityPort (D : Type 0) : Type 0 where
  pub algorithm : Text
  pub create_digest : D
  pub update : Text → D → D
  pub hex : D → Text

pub record RawTraceSignature : Type 0 where
  pub key_id : Text
  pub algorithm : Text
  pub value : Text

pub record RawTraceManifest : Type 0 where
  pub format : Text
  pub version : ℕ
  pub algorithm : Text
  pub entries : ℕ
  pub sha256 : Text
  pub signature : Option RawTraceSignature
  pub public_key : Option Text

pub record ManifestSigner : Type 0 where
  pub key_id : Text
  pub public_key : Text
  pub sign : RawTraceManifest → RawTraceSignature

pub record ManifestVerifier : Type 0 where
  pub key_id : Text
  pub verify : Text → Text → Bool

abbrev pub raw_trace_manifest_version : ℕ
raw_trace_manifest_version = 2

abbrev pub is_supported_version : ℕ → Bool
is_supported_version version = version == 1 || version == 2

abbrev pub manifest_format : Text
manifest_format = codes "vdp.raw-trace-manifest"

-- `fields.join("|")`
abbrev pub join_fields : List Text → Text
join_fields [] = []
join_fields (f ∷ []) = f
join_fields (f ∷ g ∷ fs) = f ++ (codes "|" ++ join_fields (g ∷ fs))

abbrev pub direction_text : TraceDirection → Text
direction_text tx = codes "tx"
direction_text rx = codes "rx"

abbrev pub flag_text : Bool → Text
flag_text true = codes "1"
flag_text false = codes "0"

module _ {N : Type 0} (show : N → Text) where
  unfoldable pub canonical_entry : RawTraceEntry N → Text
  canonical_entry entry = join_fields (
      show entry.t
      ∷ decimal entry.can_id
      ∷ direction_text entry.direction
      ∷ decimal entry.dlc
      ∷ to_lower_case entry.payload_hex
      ∷ entry.channel
      ∷ flag_text entry.extended
      ∷ flag_text entry.fd
      ∷ [])

  unfoldable pub canonical_raw_trace_chunks : List (RawTraceEntry N) → List Text
  unfolding canonical_entry
  canonical_raw_trace_chunks [] = []
  canonical_raw_trace_chunks (e ∷ es) =
      let line = canonical_entry e in
      (decimal (length line) ++ (codes ":" ++ (line ++ (10 ∷ [])))) ∷ canonical_raw_trace_chunks es

unfoldable pub update_all : {D : Type 0} → IntegrityPort D → List Text → D → D
update_all port [] digest = digest
update_all port (c ∷ cs) digest = update_all port cs (port.update c digest)

module _ {N D : Type 0} (show : N → Text) (port : IntegrityPort D) where
  unfoldable pub hash_raw_trace : List (RawTraceEntry N) → Text
  unfolding update_all canonical_raw_trace_chunks
  hash_raw_trace entries =
      port.hex (update_all port (canonical_raw_trace_chunks show entries) port.create_digest)

  unfoldable pub create_raw_trace_manifest : List (RawTraceEntry N) → RawTraceManifest
  unfolding hash_raw_trace
  create_raw_trace_manifest entries = record {
    format = manifest_format;
    version = raw_trace_manifest_version;
    algorithm = port.algorithm;
    entries = length entries;
    sha256 = hash_raw_trace entries;
    signature = none;
    public_key = none;
  }

  unfoldable pub verify_raw_trace_manifest : List (RawTraceEntry N) → RawTraceManifest → Bool
  unfolding hash_raw_trace
  verify_raw_trace_manifest entries manifest =
      eq_text manifest.format manifest_format
      && is_supported_version manifest.version
      && eq_text manifest.algorithm port.algorithm
      && manifest.entries == length entries
      && eq_text manifest.sha256 (hash_raw_trace entries)

unfoldable pub canonical_manifest_binding : RawTraceManifest → Text
unfolding decimal
canonical_manifest_binding manifest = join_fields (
    manifest.format
    ∷ decimal manifest.version
    ∷ manifest.algorithm
    ∷ decimal manifest.entries
    ∷ manifest.sha256
    ∷ [])

unfoldable pub trace_id_from_manifest : RawTraceManifest → Text
trace_id_from_manifest manifest = codes "t-" ++ take 16 manifest.sha256

unfoldable pub sign_raw_trace_manifest : RawTraceManifest → ManifestSigner → RawTraceManifest
sign_raw_trace_manifest manifest signer = record {
  format = manifest.format;
  version = raw_trace_manifest_version;
  algorithm = manifest.algorithm;
  entries = manifest.entries;
  sha256 = manifest.sha256;
  signature = some (signer.sign manifest);
  public_key = some signer.public_key;
}

-- The signature that is there, behind the test of the public key.
unfoldable pub signature_confirmed :
    RawTraceManifest → ManifestVerifier → Option RawTraceSignature → Bool
unfolding canonical_manifest_binding
signature_confirmed manifest verifier none = false
signature_confirmed manifest verifier (some signature) =
    not (is_none manifest.public_key)
    && eq_text signature.algorithm (codes "ed25519")
    && eq_text signature.key_id verifier.key_id
    && verifier.verify (canonical_manifest_binding manifest) signature.value

unfoldable pub verify_raw_trace_manifest_signature : RawTraceManifest → ManifestVerifier → Bool
unfolding signature_confirmed
verify_raw_trace_manifest_signature manifest verifier =
    signature_confirmed manifest verifier manifest.signature
