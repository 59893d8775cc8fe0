-- ===== src/Publication/ResourceTrips.antt =====
-- What is stored as a resource is what is read.
use sthira.Prelude.{
  ◌≡◌, refl, sym, ◌∙◌, subst, ap, ℕ, String, Bool, true, false, not, ◌&&◌, Option, none, some, List,
  [], ◌∷◌, ◌++◌, ◌==◌, str_eq, eq_iff, eq_refl, if◌then◌else◌, Bool-cases, inl, inr,
}
use sthira.Prelude.Result.{Result, ok, err, past}
use sthira.Booking.Authority.{select}
use sthira.OfflinePkg.{Library}
use sthira.Publication.{
  PublishError, not_found, or_else, conflict, resource_id_required, content_type_required,
  content_required, content_length_mismatch, bad_checksum_length, bad_checksum,
}
use sthira.Publication.Rows.{select-append}
use sthira.Publication.Grants.{stops, not-eq-false}
use sthira.Publication.Resources.{
  PublishedResource, has_resource, same_resource, save_resource, publish_resource,
  get_published_resource,
}

select-append_none :
    (p : PublishedResource → Bool) (rows : List PublishedResource) (x : PublishedResource)
    → select p rows ≡ none
    → p x ≡ true
    → select p (rows ++ (x ∷ [])) ≡ some x
unfolding select
select-append_none p [] x h e = rw e refl
select-append_none p (y ∷ rows) x h e = elim (Bool-cases (p y)) [
  | inl f ↦ absurd (found (p y) f h)
  | inr f ↦ rw f (
      select-append_none p rows x (subst (λ b. (if b then some y else select p rows) ≡ none) f h) e)
]
  where
    found : {A : Type 0} → (b : Bool) → b ≡ true → (if b then some y else select p rows) ≡ none → A
    found b t g = cc

-- After a resource has been published successfully, the resource that is read under its identifier has
-- its content and its checksum, which is the digest of the content, and every resource that was
-- there before is read unchanged.
pub publish-get :
    (lib : Library) (rows after : List PublishedResource) (now : ℕ) (r : PublishedResource)
    → publish_resource lib rows now r ≡ ok after
    → ((x : PublishedResource) × (get_published_resource after r.resource_id ≡ ok x)
        × (x.content ≡ r.content)
        × (x.checksum_sha256 ≡ lib.sha256_hex r.content))
      × ((id : String) (y : PublishedResource)
          → get_published_resource rows id ≡ ok y
          → get_published_resource after id ≡ ok y)
unfolding publish_resource get_published_resource
publish-get lib rows after now r h =
    let h1 = past (str_eq r.resource_id "") resource_id_required _ h in
    let h2 = past (str_eq r.content_type "") content_type_required _ h1 in
    let h3 = past (lib.byte_len r.content == 0) content_required _ h2 in
    let h4 = past (not (r.content_length == lib.byte_len r.content)) content_length_mismatch _ h3 in
    let h5 = past (not (lib.byte_len r.checksum_sha256 == 64)) bad_checksum_length _ h4 in
    let t = not (str_eq (lib.sha256_hex r.content) r.checksum_sha256) in
    let h6 = past t bad_checksum _ h5 in
    stored (select (has_resource r.resource_id) rows) refl
      (sym (
        (eq_iff (lib.sha256_hex r.content) r.checksum_sha256).0
          (not-eq-false _ (stops t bad_checksum _ h5))))
      h6
  where
    result_of :
        (a b : List PublishedResource)
        → ◌≡◌ {A = Result PublishError (List PublishedResource)} (ok a) (ok b)
        → a ≡ b
    result_of a b g = cc

    found_of :
        (o : Option PublishedResource) (y : PublishedResource)
        → or_else not_found o ≡ ok y
        → o ≡ some y
    found_of none y g = cc
    found_of (some x) y g = cc

    both : (a b : Bool) → (a && b) ≡ true → (a ≡ true) × (b ≡ true)
    both true b g = (refl, g)
    both false b g = cc

    matching :
        (x : PublishedResource) (b : Bool)
        → same_resource x r ≡ b
        → (if not b then err conflict else ok rows) ≡ ok after
        → (same_resource x r ≡ true) × (rows ≡ after)
    matching x true s g = (s, result_of rows after g)
    matching x false s g = cc

    stored :
        (o : Option PublishedResource)
        → select (has_resource r.resource_id) rows ≡ o
        → r.checksum_sha256 ≡ lib.sha256_hex r.content
        → save_resource rows now r o ≡ ok after
        → ((x : PublishedResource) × (or_else not_found (select (has_resource r.resource_id) after)
              ≡ ok x)
            × (x.content ≡ r.content)
            × (x.checksum_sha256 ≡ lib.sha256_hex r.content))
          × ((id : String) (y : PublishedResource)
              → or_else not_found (select (has_resource id) rows) ≡ ok y
              → or_else not_found (select (has_resource id) after) ≡ ok y)
    stored none e digest g =
        let same : rows ++ (record r { created_at = now } ∷ []) ≡ after = result_of _ after g in
        rw (← same) (
          (
            record r { created_at = now },
            ap (or_else not_found) (
                select-append_none (has_resource r.resource_id) rows (record r { created_at = now })
                  e (eq_refl r.resource_id)),
            refl,
            digest,
          ),
          λ id y k.
              ap (or_else not_found) (select-append (has_resource id) rows _ y (found_of _ y k)),
        )
    stored (some x) e digest g =
        let (matches, same) = matching x (same_resource x r) refl g in
        let (sums, contents) = both _ _ matches in
        rw (← same) (
          (
            x,
            ap (or_else not_found) e,
            (eq_iff x.content r.content).0 contents,
            (eq_iff x.checksum_sha256 r.checksum_sha256).0 sums ∙ digest,
          ),
          λ id y k. k,
        )
