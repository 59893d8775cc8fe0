-- ===== src/OfflinePkg/Structure.antt =====
-- ValidateManifestStructure of backend/internal/offlinepkg/validate.go, and ParseManifest of parse.go.
use sthira.Prelude.{
  ℕ, String, Bool, not, ◌||◌, Option, none, some, List, [], ◌∷◌, leb, ltb, ◌==◌, str_eq,
}
use sthira.Prelude.Result.{Result, ok, err, ◌>>=◌, ◌>>◌, reject_if}
use sthira.OfflinePkg.{
  Signature, CriticalCardDescriptor, ResourceDescriptor, ManifestProvenance, Manifest, PkgError,
  malformed_data, Library,
}

-- The case labels of the switch on the type of a resource.
abbrev pub is_resource_type : String → Bool
is_resource_type t =
    str_eq t "VECTOR_TILES"
    || (str_eq t "MAP_STYLE"
        || (str_eq t "MAP_SPRITE"
            || (str_eq t "MAP_GLYPHS" || (str_eq t "GAZETTEER" || str_eq t "EMERGENCY_AUDIO"))))

abbrev pub is_evidence_class : String → Bool
is_evidence_class e =
    str_eq e "SYNTHETIC_DEMO"
    || (str_eq e "AUTHORIZED_OPERATIONAL"
        || (str_eq e "CAPTURED_OFFICIAL_SAMPLE" || str_eq e "AUTHORIZED_SHADOW"))

abbrev pub or_malformed {ℓ} : {A : Type ℓ} → Option A → Result PkgError A
or_malformed none = err malformed_data
or_malformed (some a) = ok a

abbrev pub check_provenance : ManifestProvenance → Result PkgError (Unit {0})
check_provenance p = do
  reject_if (str_eq p.authority "") malformed_data
  reject_if (str_eq p.dataset_id "") malformed_data
  reject_if (not (is_evidence_class p.evidence_class)) malformed_data

abbrev pub check_signature : Option Signature → Result PkgError (Unit {0})
check_signature none = ok tt
check_signature (some s) = do
  reject_if (not (str_eq s.algorithm "Ed25519")) malformed_data
  reject_if (str_eq s.key_id "") malformed_data
  reject_if (str_eq s.value "") malformed_data

module _ (lib : Library) where
  abbrev pub check_critical_card : CriticalCardDescriptor → Result PkgError (Unit {0})
  check_critical_card cc = do
    reject_if (str_eq cc.package_id "") malformed_data
    reject_if (ltb cc.version 1) malformed_data
    reject_if (str_eq cc.uri "") malformed_data
    reject_if (not (lib.byte_len cc.checksum_sha256 == 64)) malformed_data
    reject_if (leb cc.uncompressed_bytes 0) malformed_data
    reject_if (ltb 65536 cc.uncompressed_bytes) malformed_data
    reject_if (leb cc.compressed_bytes 0) malformed_data
    reject_if (ltb 65536 cc.compressed_bytes) malformed_data
    reject_if (str_eq cc.content_type "") malformed_data

  abbrev pub check_resource : ResourceDescriptor → Result PkgError (Unit {0})
  check_resource res = do
    reject_if (str_eq res.resource_id "") malformed_data
    reject_if (not (is_resource_type res.type)) malformed_data
    reject_if (str_eq res.uri "") malformed_data
    reject_if (not (lib.byte_len res.checksum_sha256 == 64)) malformed_data
    reject_if (leb res.byte_size 0) malformed_data
    reject_if (str_eq res.attribution "") malformed_data

  abbrev pub check_resources : List ResourceDescriptor → Result PkgError (Unit {0})
  check_resources [] = ok tt
  check_resources (res ∷ rest) = check_resource res >> check_resources rest

  unfoldable pub validate_manifest_structure : Manifest → Result PkgError (Unit {0})
  validate_manifest_structure m = do
    reject_if (not (str_eq m.schema_version "3.0")) malformed_data
    reject_if (str_eq m.manifest_id "") malformed_data
    reject_if (str_eq m.jurisdiction "") malformed_data
    reject_if (ltb m.revision 1) malformed_data
    gen_at ← or_malformed (lib.parse_time m.generated_at)
    valid_until ← or_malformed (lib.parse_time m.valid_until)
    reject_if (not (ltb gen_at valid_until)) malformed_data
    reject_if (str_eq m.source_status "") malformed_data
    check_critical_card m.critical_card
    check_resources m.resources
    check_provenance m.provenance
    reject_if (not (lib.byte_len m.checksum_sha256 == 64)) malformed_data
    check_signature m.signature

  -- ParseManifest under a limit on the bytes; the depth and the repeated keys are in the decoding.
  unfoldable pub parse_manifest : ℕ → String → Result PkgError Manifest
  unfolding validate_manifest_structure
  parse_manifest max_bytes doc = do
    reject_if (ltb max_bytes (lib.byte_len doc)) malformed_data
    m ← or_malformed (lib.decode_manifest doc)
    validate_manifest_structure m
    ok m
