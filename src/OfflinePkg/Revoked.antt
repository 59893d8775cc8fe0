-- ===== src/OfflinePkg/Revoked.antt =====
-- What revoking a key of the trust store does to the documents that it signed.
use sthira.Prelude.{
  ◌≡◌, refl, sym, ◌∙◌, ap, ℕ, String, true, false, Option, none, some, List, [], ◌∷◌, ◌==◌, not,
  inl, inr, str_eq, eq_refl, Bool-cases, Option-cases, lookup, insert, lookup-insert, All,
}
use sthira.Prelude.Result.{Result, ok, err, >>=-eq-ok}
use sthira.OfflinePkg.{PkgError, signer_unauthorized, Library}
use sthira.OfflinePkg.Trust.{
  TrustedKey, TrustStore, or_unknown, lookup_key, revoke_key, add_key, verify_signature_at,
}

-- A change of the trust store; one that is refused leaves it as it is.
pub data Change : Type 0 where
  add : TrustedKey → Change
  revoke : String → Change

abbrev pub kept : TrustStore → Result PkgError TrustStore → TrustStore
kept ts (ok ts') = ts'
kept ts (err e) = ts

unfoldable pub change : Library → TrustStore → Change → TrustStore
unfolding add_key revoke_key
change lib ts (add k) = kept ts (add_key lib ts k)
change lib ts (revoke id) = kept ts (revoke_key ts id)

unfoldable pub changes : Library → TrustStore → List Change → TrustStore
changes lib ts [] = ts
changes lib ts (c ∷ cs) = changes lib (change lib ts c) cs

-- The store holds the key, revoked.
abbrev pub HoldsRevoked : String → TrustStore → Type 0
HoldsRevoked id ts = (k : TrustedKey) × (lookup id ts ≡ some k) × (k.revoked ≡ true)

-- The change does not add a key under `id`.
abbrev pub SparesKey : String → Change → Type 0
SparesKey id (add k) = str_eq k.key_id id ≡ false
SparesKey id (revoke other) = Unit

or_unknown-eq-ok : (o : Option TrustedKey) (k : TrustedKey) → or_unknown o ≡ ok k → o ≡ some k
or_unknown-eq-ok none k h = cc
or_unknown-eq-ok (some a) k h = cc

insert-HoldsRevoked :
    (id at : String) (k : TrustedKey) (ts : TrustStore)
    → (str_eq at id ≡ true → k.revoked ≡ true)
    → HoldsRevoked id ts
    → HoldsRevoked id (insert at k ts)
insert-HoldsRevoked id at k ts same (held, found, gone) = elim (Bool-cases (str_eq at id)) [
  | inl e ↦ (k, rw (lookup-insert at id k ts, e) refl, same e)
  | inr e ↦ (held, rw (lookup-insert at id k ts, e) found, gone)
]

change-HoldsRevoked :
    (lib : Library) (id : String) (ts : TrustStore) (c : Change)
    → SparesKey id c
    → HoldsRevoked id ts
    → HoldsRevoked id (change lib ts c)
unfolding change add_key revoke_key
change-HoldsRevoked lib id ts (add k) spared held = elim (Bool-cases (str_eq k.key_id "")) [
  | inl e ↦ rw e held
  | inr e ↦ elim (Bool-cases (not (lib.byte_len k.public_key == 32))) [
    | inl f ↦ rw (e, f) held
    | inr f ↦ rw (e, f) (insert-HoldsRevoked id k.key_id k ts (λ same. cc) held)
  ]
]
change-HoldsRevoked lib id ts (revoke other) spared held = elim (Option-cases (lookup other ts)) [
  | inl e ↦ rw e held
  | inr (k, e) ↦
      rw e (insert-HoldsRevoked id other (record k { revoked = true }) ts (λ same. refl) held)
]

changes-HoldsRevoked :
    (lib : Library) (id : String) (ts : TrustStore) (cs : List Change)
    → All (SparesKey id) cs
    → HoldsRevoked id ts
    → HoldsRevoked id (changes lib ts cs)
unfolding changes
changes-HoldsRevoked lib id ts [] spared held = held
changes-HoldsRevoked lib id ts (c ∷ cs) (spared, rest) held =
    changes-HoldsRevoked lib id (change lib ts c) cs rest
      (change-HoldsRevoked lib id ts c spared held)

revoke_key-HoldsRevoked :
    (id : String) (ts revoked_ts : TrustStore)
    → revoke_key ts id ≡ ok revoked_ts
    → HoldsRevoked id revoked_ts
unfolding revoke_key
revoke_key-HoldsRevoked id ts revoked_ts h =
    let (k, found, stored) = >>=-eq-ok (lookup_key ts id) _ h in
    let k' : TrustedKey = record k { revoked = true } in
    let same : insert id k' ts ≡ revoked_ts = stored_eq _ _ stored in
    (k', ap (lookup id) (sym same) ∙ rw (lookup-insert id id k' ts, eq_refl id) refl, refl)
  where
    stored_eq : (a b : TrustStore) → ◌≡◌ {A = Result PkgError TrustStore} (ok a) (ok b) → a ≡ b
    stored_eq a b e = cc

-- Once RevokeKey has succeeded for a key, every signature under the key's identifier is refused, for
-- every document and at every moment, after any later additions and revocations of keys among
-- which no key is added under that identifier again.
pub revoked_refused :
    (lib : Library) (id : String) (ts revoked_ts : TrustStore) (cs : List Change)
    (j canonical sig : String) (now : ℕ)
    → revoke_key ts id ≡ ok revoked_ts
    → All (SparesKey id) cs
    → verify_signature_at lib (changes lib revoked_ts cs) id j canonical sig now
      ≡ err signer_unauthorized
unfolding verify_signature_at
revoked_refused lib id ts revoked_ts cs j canonical sig now revoked spared =
    let (k, found, gone) =
      changes-HoldsRevoked lib id revoked_ts cs spared
        (revoke_key-HoldsRevoked id ts revoked_ts revoked) in
    rw (found, gone) refl
