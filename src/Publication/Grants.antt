-- ===== src/Publication/Grants.antt =====
-- What the checks on the authority behind a publication of backend/internal/store/publication.go find.
use mathlib.Core.List.{Memᴰ}
use sthira.Prelude.{
  ◌≡◌, ◌≤◌, ◌<◌, ◌==◌, eq_iff, refl, ◌∙◌, subst, ap, ℕ, String, Bool, true, false, not, ◌||◌,
  Option, none, some, str_eq, any, if◌then◌else◌, arith,
}
use sthira.Prelude.Result.{Result, ok, ◌>>◌, reject_if, >>=-eq-ok, past, reject_if-eq-ok}
use sthira.Booking.Tables.{Package, Source, SourceAuthorization, Authority}
use sthira.Booking.Authority.{select, is_null, null_or_after, has_source}
use sthira.OfflinePkg.{Library, Manifest}
use sthira.OfflinePkg.Structure.{parse_manifest}
use sthira.Publication.Rows.{select-Memᴰ, any-Memᴰ}
use sthira.Publication.{ManifestRow, PublishError, publication_authority, or_else}
use sthira.Publication.Authorities.{
  check_source, authorized_in, check_authorization, package_of, in_effect, active_package,
}
use sthira.Publication.Manifests.{document, check_critical}

-- A check that let the call through.
pub stops {ℓ} :
    {B : Type ℓ} (t : Bool) (e : PublishError) (k : Result PublishError B) {b : B}
    → (reject_if t e >> k) ≡ ok b
    → t ≡ false
stops true e k h = cc
stops false e k h = refl

pub or_else-eq-ok {ℓ} :
    {A : Type ℓ} (e : PublishError) (o : Option A) (a : A) → or_else e o ≡ ok a → o ≡ some a
or_else-eq-ok e none a h = cc
or_else-eq-ok e (some b) a h = cc

pub not-eq-false : (b : Bool) → not b ≡ false → b ≡ true
not-eq-false b h = ground arith

pub or-eq-false : (a b : Bool) → (a || b) ≡ false → (a ≡ false) × (b ≡ false)
or-eq-false true b h = cc
or-eq-false false b h = (refl, h)

pub ok-injective {ℓ} :
    {A : Type ℓ} (a b : A) → ◌≡◌ {A = Result PublishError A} (ok a) (ok b) → a ≡ b
ok-injective a b h = cc

-- What a conditional was on either side of its test.
pub then_branch {ℓ} :
    {A : Type ℓ} (a b : A) {c : A} (t : Bool) → t ≡ true → (if t then a else b) ≡ c → a ≡ c
then_branch a b true e g = g
then_branch a b false e g = cc

pub else_branch {ℓ} :
    {A : Type ℓ} (a b : A) {c : A} (t : Bool) → t ≡ false → (if t then a else b) ≡ c → b ≡ c
else_branch a b true e g = cc
else_branch a b false e g = g

-- The source may publish in the jurisdiction, and the package is one of its packages in effect.
pub record HasAuthority (auth : Authority) (now : ℕ) (source_id jurisdiction package_id : String)
    : Type 0 where
  pub source : Source
  pub registered : Memᴰ source auth.sources
  pub named : source.source_id ≡ source_id
  pub operational : source.state ≡ "OPERATIONAL"
  pub authorization : SourceAuthorization
  pub granted : Memᴰ authorization auth.authorizations
  pub grantee : authorization.source_id ≡ source_id
  pub place : authorization.jurisdiction ≡ jurisdiction
  pub in_force : (t : ℕ) → authorization.expires_at ≡ some t → now < t
  pub pkg : Package
  pub listed : Memᴰ pkg auth.packages
  pub owner : pkg.source_id ≡ source_id
  pub covers : pkg.package_id ≡ package_id
  pub latest : pkg.superseded_by ≡ none
  pub begun : pkg.effective_at ≤ now
  pub not_ended : now < pkg.expires_at

pub check_source-eq-ok :
    (auth : Authority) (source_id : String) {u : Unit {0}}
    → check_source auth source_id ≡ ok u
    → (s : Source) × (select (has_source source_id) auth.sources ≡ some s)
      × (str_eq s.state "OPERATIONAL" ≡ true)
unfolding check_source
check_source-eq-ok auth source_id h =
    let (s, found, h1) =
      >>=-eq-ok (or_else publication_authority (select (has_source source_id) auth.sources)) _ h in
    (
      s,
      or_else-eq-ok publication_authority _ s found,
      not-eq-false _ (reject_if-eq-ok (not (str_eq s.state "OPERATIONAL")) _ h1),
    )

pub check_authorization-eq-ok :
    (auth : Authority) (source_id jurisdiction : String) (now : ℕ) {u : Unit {0}}
    → check_authorization auth source_id jurisdiction now ≡ ok u
    → any (authorized_in source_id jurisdiction now) auth.authorizations ≡ true
unfolding check_authorization
check_authorization-eq-ok auth source_id jurisdiction now h =
    not-eq-false _ (
      reject_if-eq-ok (not (any (authorized_in source_id jurisdiction now) auth.authorizations)) _
        h)

pub active_package-eq-ok :
    (auth : Authority) (source_id package_id : String) (now : ℕ) (p : Package)
    → active_package auth source_id package_id now ≡ ok p
    → (select (package_of source_id package_id) auth.packages ≡ some p)
      × (is_null p.superseded_by ≡ true)
      × (in_effect now p ≡ true)
unfolding active_package
active_package-eq-ok auth source_id package_id now p h =
    let (q, found, h1) =
      >>=-eq-ok
        (or_else publication_authority (select (package_of source_id package_id) auth.packages)) _
        h in
    let latest = stops (not (is_null q.superseded_by)) _ _ h1 in
    let h2 = past (not (is_null q.superseded_by)) _ _ h1 in
    let effective = stops (not (in_effect now q)) _ _ h2 in
    let same : q ≡ p = ok-injective q p (past (not (in_effect now q)) _ _ h2) in
    (
      or_else-eq-ok publication_authority _ p (found ∙ ap ok same),
      subst (λ k. is_null k.superseded_by ≡ true) same (not-eq-false _ latest),
      subst (λ k. in_effect now k ≡ true) same (not-eq-false _ effective),
    )

is_null-none {ℓ} : {A : Type ℓ} (o : Option A) → is_null o ≡ true → o ≡ none
is_null-none none h = refl
is_null-none (some a) h = cc

after_now : (o : Option ℕ) (now t : ℕ) → null_or_after o now ≡ true → o ≡ some t → now < t
after_now none now t h e = cc
after_now (some u) now t h e = let same : u ≡ t = cc in ground (arith, h, same)

authorized_in-parts :
    (source_id jurisdiction : String) (now : ℕ) (a : SourceAuthorization)
    → authorized_in source_id jurisdiction now a ≡ true
    → (a.source_id ≡ source_id)
      × (a.jurisdiction ≡ jurisdiction)
      × (null_or_after a.expires_at now ≡ true)
authorized_in-parts source_id jurisdiction now a h = (
  ground (arith, eq_iff a.source_id source_id),
  ground (arith, eq_iff a.jurisdiction jurisdiction),
  ground arith,
)

-- What the checks of the source, of its authorization and of its package have found.
pub has_authority :
    (auth : Authority) (now : ℕ) (source_id jurisdiction package_id : String) (s : Source)
    (p : Package)
    → select (has_source source_id) auth.sources ≡ some s
    → str_eq s.state "OPERATIONAL" ≡ true
    → any (authorized_in source_id jurisdiction now) auth.authorizations ≡ true
    → select (package_of source_id package_id) auth.packages ≡ some p
    → is_null p.superseded_by ≡ true
    → in_effect now p ≡ true
    → (a : HasAuthority auth now source_id jurisdiction package_id) × (a.pkg ≡ p)
has_authority auth now source_id jurisdiction package_id s p found up allowed listed latest active =
    let (there, named) = select-Memᴰ (has_source source_id) auth.sources s found in
    let (a, granted, fits) = any-Memᴰ (authorized_in source_id jurisdiction now) _ allowed in
    let (grantee, place, later) = authorized_in-parts source_id jurisdiction now a fits in
    let (in_list, owned) = select-Memᴰ (package_of source_id package_id) auth.packages p listed in
    (
      record {
        source = s;
        registered = there;
        named = (eq_iff s.source_id source_id).0 named;
        operational = (eq_iff s.state "OPERATIONAL").0 up;
        authorization = a;
        granted = granted;
        grantee = grantee;
        place = place;
        in_force = λ t e. after_now a.expires_at now t later e;
        pkg = p;
        listed = in_list;
        owner = ground (arith, eq_iff p.source_id source_id);
        covers = ground (arith, eq_iff p.package_id package_id);
        latest = is_null-none p.superseded_by latest;
        begun = ground arith;
        not_ended = ground arith;
      },
      refl,
    )

critical_card :
    (lib : Library) (doc : Manifest) (package_id : String) (version : ℕ)
    → check_critical lib (ok doc) package_id version ≡ ok tt
    → (doc.critical_card.package_id ≡ package_id) × (doc.critical_card.version ≡ version)
critical_card lib doc package_id version h = (
  (eq_iff doc.critical_card.package_id package_id).0 (
      not-eq-false _
        (stops (not (str_eq doc.critical_card.package_id package_id)) publication_authority _ h)),
  number doc.critical_card.version version (
      not-eq-false _ (
        reject_if-eq-ok (not (doc.critical_card.version == version)) publication_authority
          (past (not (str_eq doc.critical_card.package_id package_id)) publication_authority _ h))),
)
  where
    number : (a b : ℕ) → (a == b) ≡ true → a ≡ b
    number a b e = ground arith

pub card_of :
    (lib : Library) (doc : Manifest) (x : ManifestRow) (package_id : String) (version : ℕ)
    → check_critical lib (document lib x) package_id version ≡ ok tt
    → (lib.byte_len x.raw_json == 0) ≡ false
    → parse_manifest lib 262144 x.raw_json ≡ ok doc
    → (doc.critical_card.package_id ≡ package_id) × (doc.critical_card.version ≡ version)
card_of lib doc x package_id version h long parses =
    critical_card lib doc package_id version (rw (long, parses) at h)
