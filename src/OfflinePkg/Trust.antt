-- ===== src/OfflinePkg/Trust.antt =====
-- The trust store of backend/internal/offlinepkg/trust.go and VerifyManifest of validate.go. The zero
-- time of a key's validity is `none`.
use sthira.Prelude.{
  ℕ, String, Bool, true, false, not, ◌&&◌, Option, none, some, List, [], ◌∷◌, ltb, ◌==◌, str_eq,
  Map, lookup, insert,
}
use sthira.Prelude.Result.{Result, ok, err, ◌>>=◌, ◌>>◌, reject_if}
use sthira.OfflinePkg.{
  Signature, Manifest, PkgError, invalid_signature, signer_unauthorized, key_expired, unknown_key,
  checksum_mismatch, Library,
}
use sthira.OfflinePkg.Structure.{validate_manifest_structure}

pub record TrustedKey : Type 0 where
  pub key_id : String
  pub public_key : String
  pub permitted_jurisdiction : String
  pub valid_from : Option ℕ
  pub valid_until : Option ℕ
  pub revoked : Bool

abbrev pub TrustStore : Type 0
TrustStore = Map TrustedKey

abbrev pub or_unknown : Option TrustedKey → Result PkgError TrustedKey
or_unknown none = err unknown_key
or_unknown (some k) = ok k

-- LookupKey
abbrev pub lookup_key : TrustStore → String → Result PkgError TrustedKey
lookup_key ts key_id = or_unknown (lookup key_id ts)

unfoldable pub revoke_key : TrustStore → String → Result PkgError TrustStore
revoke_key ts key_id = do
  k ← lookup_key ts key_id
  ok (insert key_id (record k { revoked = true }) ts)

abbrev pub before_start : Option ℕ → ℕ → Bool
before_start none now = false
before_start (some t) now = ltb now t

abbrev pub after_end : Option ℕ → ℕ → Bool
after_end none now = false
after_end (some t) now = ltb t now

-- The error of LookupKey, wrapped.
abbrev pub unauthorized : Result PkgError TrustedKey → Result PkgError TrustedKey
unauthorized (err e) = err signer_unauthorized
unauthorized (ok k) = ok k

abbrev pub signature_of : Option Signature → Result PkgError Signature
signature_of none = err invalid_signature
signature_of (some s) = ok s

abbrev pub or_invalid : Option String → Result PkgError String
or_invalid none = err invalid_signature
or_invalid (some bytes) = ok bytes

-- CanonicalBytes of a manifest: its JSON without the checksum and the signature.
unfoldable pub canonical_bytes : Library → Manifest → String
canonical_bytes lib m = lib.marshal (record m { checksum_sha256 = ""; signature = none })

module _ (lib : Library) where
  unfoldable pub add_key : TrustStore → TrustedKey → Result PkgError TrustStore
  add_key ts k = do
    reject_if (str_eq k.key_id "") signer_unauthorized
    reject_if (not (lib.byte_len k.public_key == 32)) invalid_signature
    ok (insert k.key_id k ts)

  -- NewTrustStore drops the keys that AddKey refuses.
  unfoldable pub new_trust_store : List TrustedKey → TrustStore → TrustStore
  unfolding add_key
  new_trust_store [] ts = ts
  new_trust_store (k ∷ ks) ts = elim (add_key ts k) [
    | ok ts' ↦ new_trust_store ks ts'
    | err _ ↦ new_trust_store ks ts
  ]

  unfoldable pub verify_signature_at :
      TrustStore → String → String → String → String → ℕ → Result PkgError (Unit {0})
  verify_signature_at ts key_id jurisdiction canonical sig now = do
    k ← unauthorized (lookup_key ts key_id)
    reject_if k.revoked signer_unauthorized  -- which also wraps ErrKeyRevoked
    reject_if
        (not (str_eq k.permitted_jurisdiction "*")
          && not (str_eq k.permitted_jurisdiction jurisdiction))
        signer_unauthorized
    reject_if (before_start k.valid_from now) key_expired
    reject_if (after_end k.valid_until now) key_expired
    bytes ← or_invalid (lib.decode_base64 sig)
    reject_if (not (lib.byte_len bytes == 64)) invalid_signature
    reject_if (not (lib.ed25519_verify k.public_key canonical bytes)) invalid_signature

  unfoldable pub verify_manifest : TrustStore → ℕ → Manifest → Result PkgError (Unit {0})
  unfolding validate_manifest_structure canonical_bytes verify_signature_at
  verify_manifest ts now m = do
    validate_manifest_structure lib m
    s ← signature_of m.signature
    reject_if (not (str_eq m.checksum_sha256 (lib.sha256_hex (canonical_bytes lib m))))
        checksum_mismatch
    verify_signature_at ts s.key_id m.jurisdiction (canonical_bytes lib m) s.value now
