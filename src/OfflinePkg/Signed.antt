-- ===== src/OfflinePkg/Signed.antt =====
-- What a verified manifest is, and what revoking a key does to the documents that it signed.
use sthira.Prelude.{
  ◌≡◌, ◌≤◌, ◌⊎◌, inl, inr, Bool-cases, eq_iff, refl, ℕ, String, Bool, true, false, not, ◌&&◌,
  Option, none, some, ◌↔◌, ◌==◌, str_eq, lookup, arith,
}
use sthira.Prelude.Result.{Result, ok, ◌>>◌, reject_if, >>=-eq-ok, past, reject_if-eq-ok}
use sthira.OfflinePkg.{Signature, Manifest, PkgError, Library}
use sthira.OfflinePkg.Structure.{validate_manifest_structure}
use sthira.OfflinePkg.WellFormed.{IsWellFormed, validate-IsWellFormed, same_text, same_number}
use sthira.OfflinePkg.Trust.{
  TrustedKey, TrustStore, or_unknown, lookup_key, before_start, after_end, unauthorized,
  signature_of, or_invalid, canonical_bytes, verify_signature_at, verify_manifest,
}

-- The key may sign for the jurisdiction at `now`.
pub record MaySign (k : TrustedKey) (jurisdiction : String) (now : ℕ) : Type 0 where
  pub live : k.revoked ≡ false
  pub permitted : (k.permitted_jurisdiction ≡ "*") ⊎ (k.permitted_jurisdiction ≡ jurisdiction)
  pub begun : (t : ℕ) → k.valid_from ≡ some t → t ≤ now
  pub not_ended : (t : ℕ) → k.valid_until ≡ some t → now ≤ t

-- The signature `sig` over `canonical` is by the key that the store holds under `key_id`.
pub record IsSigned (lib : Library) (ts : TrustStore) (now : ℕ)
    (key_id jurisdiction canonical sig : String) : Type 0 where
  pub key : TrustedKey
  pub pinned : lookup key_id ts ≡ some key
  pub may_sign : MaySign key jurisdiction now
  pub bytes : String
  pub decoded : lib.decode_base64 sig ≡ some bytes
  pub long : lib.byte_len bytes ≡ 64
  pub genuine : lib.ed25519_verify key.public_key canonical bytes ≡ true

-- The JSON of the manifest without its checksum and its signature.
abbrev pub unsigned_json : Library → Manifest → String
unsigned_json lib m = lib.marshal (record {
  schema_version = m.schema_version;
  manifest_id = m.manifest_id;
  jurisdiction = m.jurisdiction;
  revision = m.revision;
  generated_at = m.generated_at;
  valid_until = m.valid_until;
  source_status = m.source_status;
  critical_card = m.critical_card;
  resources = m.resources;
  revocations = m.revocations;
  provenance = m.provenance;
  checksum_sha256 = "";
  signature = none;
})

-- Every field is as it must be, the checksum is that of the JSON without the checksum and the
-- signature, and the signature over that JSON is genuine.
pub record IsVerified (lib : Library) (ts : TrustStore) (now : ℕ) (m : Manifest) : Type 0 where
  pub structure : IsWellFormed lib m
  pub signature : Signature
  pub attached : m.signature ≡ some signature
  pub digest : m.checksum_sha256 ≡ lib.sha256_hex (unsigned_json lib m)
  pub signed :
      IsSigned lib ts now signature.key_id m.jurisdiction (unsigned_json lib m) signature.value

-- A check that let the call through.
stops {ℓ} :
    {B : Type ℓ} (t : Bool) (e : PkgError) (k : Result PkgError B) {b : B}
    → (reject_if t e >> k) ≡ ok b
    → t ≡ false
stops true e k h = cc
stops false e k h = refl

not-eq-false : (b : Bool) → not b ≡ false → b ≡ true
not-eq-false b h = ground arith

begun_iff :
    (o : Option ℕ) (now : ℕ) → (before_start o now ≡ false) ↔ ((t : ℕ) → o ≡ some t → t ≤ now)
begun_iff none now = ((λ h t e. cc), (λ f. refl))
begun_iff (some s) now = (
  (λ h t e. let same : s ≡ t = cc in ground (arith, same)),
  (λ f. let g = f s refl in ground (arith, g)),
)

not_ended_iff :
    (o : Option ℕ) (now : ℕ) → (after_end o now ≡ false) ↔ ((t : ℕ) → o ≡ some t → now ≤ t)
not_ended_iff none now = ((λ h t e. cc), (λ f. refl))
not_ended_iff (some s) now = (
  (λ h t e. let same : s ≡ t = cc in ground (arith, same)),
  (λ f. let g = f s refl in ground (arith, g)),
)

permitted_iff :
    (place j : String)
    → ((not (str_eq place "*") && not (str_eq place j)) ≡ false) ↔ ((place ≡ "*") ⊎ (place ≡ j))
permitted_iff place j = (
  (λ h. elim (Bool-cases (str_eq place "*")) [
    | inl e ↦ inl ((eq_iff place "*").0 e)
    | inr e ↦ inr ((eq_iff place j).0 (ground arith))
  ]),
  (λ s. elim s [
    | inl e ↦ ground (arith, (eq_iff place "*").1 e)
    | inr e ↦ ground (arith, (eq_iff place j).1 e)
  ]),
)

key_found :
    (found : Option TrustedKey) (k : TrustedKey)
    → unauthorized (or_unknown found) ≡ ok k
    → found ≡ some k
key_found none k h = cc
key_found (some found) k h = cc

or_invalid-eq-ok : (o : Option String) (b : String) → or_invalid o ≡ ok b → o ≡ some b
or_invalid-eq-ok none b h = cc
or_invalid-eq-ok (some a) b h = cc

signature_of-eq-ok : (o : Option Signature) (s : Signature) → signature_of o ≡ ok s → o ≡ some s
signature_of-eq-ok none s h = cc
signature_of-eq-ok (some a) s h = cc

module _ (lib : Library) (ts : TrustStore) where
  pub verify_signature_at-IsSigned :
      (id j canonical sig : String) (now : ℕ)
      → verify_signature_at lib ts id j canonical sig now ≡ ok tt
      → IsSigned lib ts now id j canonical sig
  unfolding verify_signature_at
  verify_signature_at-IsSigned id j canonical sig now h =
      let (k, found, h1) = >>=-eq-ok (unauthorized (lookup_key ts id)) _ h in
      let h2 = past k.revoked _ _ h1 in
      let h3 =
        past (not (str_eq k.permitted_jurisdiction "*") && not (str_eq k.permitted_jurisdiction j))
          _ _ h2 in
      let h4 = past (before_start k.valid_from now) _ _ h3 in
      let h5 = past (after_end k.valid_until now) _ _ h4 in
      let (bytes, decoded, h6) = >>=-eq-ok (or_invalid (lib.decode_base64 sig)) _ h5 in
      let h7 = past (not (lib.byte_len bytes == 64)) _ _ h6 in
      record {
        key = k;
        pinned = key_found (lookup id ts) k found;
        may_sign = record {
          live = stops k.revoked _ _ h1;
          permitted = (permitted_iff k.permitted_jurisdiction j).0 (
              stops
                (not (str_eq k.permitted_jurisdiction "*")
                  && not (str_eq k.permitted_jurisdiction j))
                _ _ h2);
          begun = (begun_iff k.valid_from now).0 (stops (before_start k.valid_from now) _ _ h3);
          not_ended =
              (not_ended_iff k.valid_until now).0 (stops (after_end k.valid_until now) _ _ h4);
        };
        bytes = bytes;
        decoded = or_invalid-eq-ok (lib.decode_base64 sig) bytes decoded;
        long =
            (same_number (lib.byte_len bytes) 64).0 (stops (not (lib.byte_len bytes == 64)) _ _ h6);
        genuine =
            not-eq-false _
              (reject_if-eq-ok (not (lib.ed25519_verify k.public_key canonical bytes)) _ h7);
      }

  pub IsSigned-verify_signature_at :
      (id j canonical sig : String) (now : ℕ)
      → IsSigned lib ts now id j canonical sig
      → verify_signature_at lib ts id j canonical sig now ≡ ok tt
  unfolding verify_signature_at
  IsSigned-verify_signature_at id j canonical sig now s = rw (
    s.pinned,
    s.may_sign.live,
    (permitted_iff s.key.permitted_jurisdiction j).1 s.may_sign.permitted,
    (begun_iff s.key.valid_from now).1 s.may_sign.begun,
    (not_ended_iff s.key.valid_until now).1 s.may_sign.not_ended,
    s.decoded,
    s.long,
    s.genuine,
  )

  accepted :
      (now : ℕ) (m : Manifest) → verify_manifest lib ts now m ≡ ok tt → IsVerified lib ts now m
  unfolding verify_manifest canonical_bytes
  accepted now m h =
      let (u, structure, h1) = >>=-eq-ok (validate_manifest_structure lib m) _ h in
      let (s, attached, h2) = >>=-eq-ok (signature_of m.signature) _ h1 in
      let t = not (str_eq m.checksum_sha256 (lib.sha256_hex (canonical_bytes lib m))) in
      record {
        structure = (validate-IsWellFormed lib m).0 structure;
        signature = s;
        attached = signature_of-eq-ok m.signature s attached;
        digest =
            (same_text m.checksum_sha256 (lib.sha256_hex (canonical_bytes lib m))).0
              (stops t _ _ h2);
        signed =
            verify_signature_at-IsSigned s.key_id m.jurisdiction (canonical_bytes lib m) s.value now
              (past t _ _ h2);
      }

  verified :
      (now : ℕ) (m : Manifest) → IsVerified lib ts now m → verify_manifest lib ts now m ≡ ok tt
  unfolding verify_manifest canonical_bytes
  verified now m v =
      rw
        (
          (validate-IsWellFormed lib m).1 v.structure,
          v.attached,
          (same_text m.checksum_sha256 (lib.sha256_hex (canonical_bytes lib m))).1 v.digest,
        )
        (IsSigned-verify_signature_at v.signature.key_id m.jurisdiction (canonical_bytes lib m)
          v.signature.value now v.signed)

  -- VerifyManifest accepts exactly the manifests that have every field as the format asks, have a
  -- checksum that is that of their JSON without the checksum and the signature, and have a signature
  -- over that JSON by a key of the trust store that is not revoked, is permitted for the
  -- manifest's jurisdiction or for all, and has begun and not ended at that moment.
  pub verify_manifest-IsVerified :
      (now : ℕ) (m : Manifest) → (verify_manifest lib ts now m ≡ ok tt) ↔ IsVerified lib ts now m
  verify_manifest-IsVerified now m = (accepted now m, verified now m)
