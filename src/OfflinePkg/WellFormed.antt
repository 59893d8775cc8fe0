-- ===== src/OfflinePkg/WellFormed.antt =====
-- What ValidateManifestStructure of backend/internal/offlinepkg/validate.go asks of a manifest, written
-- out field by field.
use sthira.Prelude.{
  ℕ, ◌≤◌, ◌<◌, ◌≡◌, ◌≢◌, ◌↔◌, ◌⊎◌, inl, inr, refl, String, Bool, true, false, not, ◌||◌, Option,
  none, some, List, [], ◌∷◌, leb, ltb, ◌==◌, str_eq, eq_iff, arith, All,
}
use sthira.Prelude.Result.{Result, ok, err, ◌>>=◌, ◌>>◌, reject_if}
use sthira.OfflinePkg.{
  Signature, CriticalCardDescriptor, ResourceDescriptor, ManifestProvenance, Manifest, PkgError,
  Library,
}
use sthira.OfflinePkg.Structure.{
  is_resource_type, is_evidence_class, or_malformed, check_provenance, check_signature,
  check_critical_card, check_resource, check_resources, validate_manifest_structure,
}

-- A check accepts exactly where the proposition holds.
abbrev pub Accepts : Result PkgError (Unit {0}) → Type 0 → Type 0
Accepts r P = (r ≡ ok tt) ↔ P

pub passes : (t : Bool) (e : PkgError) {P : Type 0} → (t ≡ false) ↔ P → Accepts (reject_if t e) P
passes true e i = ((λ h. cc), (λ p. let f = i.1 p in cc))
passes false e i = ((λ h. i.0 refl), (λ p. refl))

pub both :
    (r k : Result PkgError (Unit {0})) {P Q : Type 0}
    → Accepts r P
    → Accepts k Q
    → Accepts (r >> k) (P × Q)
both (err e) k i j = ((λ h. cc), (λ (p, q). let f = i.1 p in cc))
both (ok tt) k i j = ((λ h. (i.0 refl, j.0 h)), (λ (p, q). j.1 q))

-- One check, and then the others.
pub guards :
    (t : Bool) (e : PkgError) (k : Result PkgError (Unit {0})) {P Q : Type 0}
    → (t ≡ false) ↔ P
    → Accepts k Q
    → Accepts (reject_if t e >> k) (P × Q)
guards t e k i j = both (reject_if t e) k (passes t e i) j

pub binds {ℓ} :
    {A : Type ℓ} (o : Option A) (f : A → Result PkgError (Unit {0})) (Q : A → Type 0)
    → ((a : A) → Accepts (f a) (Q a))
    → ((or_malformed o >>= f) ≡ ok tt) ↔ ((a : A) × (o ≡ some a) × Q a)
binds none f Q i = ((λ h. cc), (λ (a, e, q). cc))
binds (some a) f Q i =
    ((λ h. (a, refl, (i a).0 h)), (λ (b, e, q). let same : a ≡ b = cc in rw same ((i b).1 q)))

module _ (s t : String) where
  pub not_blank : (str_eq s t ≡ false) ↔ (s ≢ t)
  not_blank = ((λ h e. let f = (eq_iff s t).1 e in cc), (λ n. ground (arith, eq_iff s t)))

  pub same_text : (not (str_eq s t) ≡ false) ↔ (s ≡ t)
  same_text = ((λ h. ground (arith, eq_iff s t)), (λ e. ground (arith, eq_iff s t)))

  is_text : (str_eq s t ≡ true) ↔ (s ≡ t)
  is_text = eq_iff s t

module _ (m n : ℕ) where
  pub not_below : (ltb m n ≡ false) ↔ (n ≤ m)
  not_below = ((λ h. ground arith), (λ h. ground arith))

  pub above : (leb m n ≡ false) ↔ (n < m)
  above = ((λ h. ground arith), (λ h. ground arith))

  pub below : (not (ltb m n) ≡ false) ↔ (m < n)
  below = ((λ h. ground arith), (λ h. ground arith))

  pub same_number : (not (m == n) ≡ false) ↔ (m ≡ n)
  same_number = ((λ h. ground arith), (λ h. ground arith))

either : (a b : Bool) {P Q : Type 0} → (a ≡ true) ↔ P → (b ≡ true) ↔ Q → ((a || b) ≡ true) ↔ (P ⊎ Q)
either true b i j = ((λ h. inl (i.0 refl)), (λ s. refl))
either false b i j =
    ((λ h. inr (j.0 h)), (λ s. elim s [ inl p ↦ (let f = i.1 p in cc) | inr q ↦ j.1 q ]))

negated : (a : Bool) {P : Type 0} → (a ≡ true) ↔ P → (not a ≡ false) ↔ P
negated true i = ((λ h. i.0 refl), (λ p. refl))
negated false i = ((λ h. cc), (λ p. let f = i.1 p in cc))

-- The types of a resource and the classes of evidence.
abbrev pub IsResourceType : String → Type 0
IsResourceType t =
    (t ≡ "VECTOR_TILES")
    ⊎ ((t ≡ "MAP_STYLE")
        ⊎ ((t ≡ "MAP_SPRITE")
            ⊎ ((t ≡ "MAP_GLYPHS") ⊎ ((t ≡ "GAZETTEER") ⊎ (t ≡ "EMERGENCY_AUDIO")))))

resource_type : (t : String) → (not (is_resource_type t) ≡ false) ↔ IsResourceType t
resource_type t = negated (is_resource_type t) (
    either _ _ (is_text t "VECTOR_TILES") (
      either _ _ (is_text t "MAP_STYLE") (
        either _ _ (is_text t "MAP_SPRITE") (
          either _ _ (is_text t "MAP_GLYPHS")
            (either _ _ (is_text t "GAZETTEER") (is_text t "EMERGENCY_AUDIO"))))))

abbrev pub IsEvidenceClass : String → Type 0
IsEvidenceClass e =
    (e ≡ "SYNTHETIC_DEMO")
    ⊎ ((e ≡ "AUTHORIZED_OPERATIONAL")
        ⊎ ((e ≡ "CAPTURED_OFFICIAL_SAMPLE") ⊎ (e ≡ "AUTHORIZED_SHADOW")))

evidence_class : (e : String) → (not (is_evidence_class e) ≡ false) ↔ IsEvidenceClass e
evidence_class e = negated (is_evidence_class e) (
    either _ _ (is_text e "SYNTHETIC_DEMO") (
      either _ _ (is_text e "AUTHORIZED_OPERATIONAL")
        (either _ _ (is_text e "CAPTURED_OFFICIAL_SAMPLE") (is_text e "AUTHORIZED_SHADOW"))))

abbrev pub ProvenanceFits : ManifestProvenance → Type 0
ProvenanceFits p = (p.authority ≢ "") × ((p.dataset_id ≢ "") × (IsEvidenceClass p.evidence_class))

abbrev pub SignatureFits : Option Signature → Type 0
SignatureFits none = Unit
SignatureFits (some s) = (s.algorithm ≡ "Ed25519") × ((s.key_id ≢ "") × (s.value ≢ ""))

module _ (lib : Library) where
  abbrev pub CardFits : CriticalCardDescriptor → Type 0
  CardFits cc =
      (cc.package_id ≢ "")
      × ((1 ≤ cc.version)
          × ((cc.uri ≢ "")
              × ((lib.byte_len cc.checksum_sha256 ≡ 64)
                  × ((0 < cc.uncompressed_bytes)
                      × ((cc.uncompressed_bytes ≤ 65536)
                          × ((0 < cc.compressed_bytes)
                              × ((cc.compressed_bytes ≤ 65536) × ((cc.content_type ≢ "")))))))))

  abbrev pub ResourceFits : ResourceDescriptor → Type 0
  ResourceFits res =
      (res.resource_id ≢ "")
      × (IsResourceType res.type
          × ((res.uri ≢ "")
              × ((lib.byte_len res.checksum_sha256 ≡ 64)
                  × ((0 < res.byte_size) × ((res.attribution ≢ ""))))))

  -- Every condition on the fields of a manifest.
  abbrev pub IsWellFormed : Manifest → Type 0
  IsWellFormed m =
      (m.schema_version ≡ "3.0")
      × ((m.manifest_id ≢ "")
          × ((m.jurisdiction ≢ "")
              × ((1 ≤ m.revision)
                  × ((generated : ℕ) × (lib.parse_time m.generated_at ≡ some generated)
                      × ((expires : ℕ) × (lib.parse_time m.valid_until ≡ some expires)
                          × ((generated < expires)
                              × ((m.source_status ≢ "")
                                  × (CardFits m.critical_card
                                      × (All ResourceFits m.resources
                                          × (ProvenanceFits m.provenance
                                              × ((lib.byte_len m.checksum_sha256 ≡ 64)
                                                  × (SignatureFits m.signature))))))))))))

  provenance_fits : (p : ManifestProvenance) → Accepts (check_provenance p) (ProvenanceFits p)
  provenance_fits p =
      guards _ _ _ (not_blank p.authority "")
        (guards _ _ _ (not_blank p.dataset_id "") (passes _ _ (evidence_class p.evidence_class)))

  signature_fits : (o : Option Signature) → Accepts (check_signature o) (SignatureFits o)
  signature_fits none = ((λ h. tt), (λ h. refl))
  signature_fits (some s) =
      guards _ _ _ (same_text s.algorithm "Ed25519")
        (guards _ _ _ (not_blank s.key_id "") (passes _ _ (not_blank s.value "")))

  card_fits : (d : CriticalCardDescriptor) → Accepts (check_critical_card lib d) (CardFits d)
  card_fits d = guards _ _ _ (not_blank d.package_id "") (
      guards _ _ _ (not_below d.version 1) (
        guards _ _ _ (not_blank d.uri "") (
          guards _ _ _ (same_number (lib.byte_len d.checksum_sha256) 64) (
            guards _ _ _ (above d.uncompressed_bytes 0) (
              guards _ _ _ (not_below 65536 d.uncompressed_bytes) (
                guards _ _ _ (above d.compressed_bytes 0) (
                  guards _ _ _ (not_below 65536 d.compressed_bytes)
                    (passes _ _ (not_blank d.content_type "")))))))))

  resource_fits : (r : ResourceDescriptor) → Accepts (check_resource lib r) (ResourceFits r)
  resource_fits r = guards _ _ _ (not_blank r.resource_id "") (
      guards _ _ _ (resource_type r.type) (
        guards _ _ _ (not_blank r.uri "") (
          guards _ _ _ (same_number (lib.byte_len r.checksum_sha256) 64)
            (guards _ _ _ (above r.byte_size 0) (passes _ _ (not_blank r.attribution ""))))))

  resources_fit :
      (rs : List ResourceDescriptor) → Accepts (check_resources lib rs) (All ResourceFits rs)
  resources_fit [] = ((λ h. tt), (λ h. refl))
  resources_fit (r ∷ rs) =
      both (check_resource lib r) (check_resources lib rs) (resource_fits r) (resources_fit rs)

  pub validate-IsWellFormed :
      (m : Manifest) → Accepts (validate_manifest_structure lib m) (IsWellFormed m)
  unfolding validate_manifest_structure
  validate-IsWellFormed m = guards _ _ _ (same_text m.schema_version "3.0") (
      guards _ _ _ (not_blank m.manifest_id "") (
        guards _ _ _ (not_blank m.jurisdiction "") (
          guards _ _ _ (not_below m.revision 1) (
            binds (lib.parse_time m.generated_at) _ _ (λ generated.
              binds (lib.parse_time m.valid_until) _ _ (λ expires.
                guards _ _ _ (below generated expires) (
                  guards _ _ _ (not_blank m.source_status "") (
                    both _ _ (card_fits m.critical_card) (
                      both _ _ (resources_fit m.resources) (
                        both _ _ (provenance_fits m.provenance) (
                          guards _ _ _ (same_number (lib.byte_len m.checksum_sha256) 64)
                            (signature_fits m.signature))))))))))))
