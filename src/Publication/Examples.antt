-- ===== src/Publication/Examples.antt =====
-- Tests of the publication of manifests, and its theorems at concrete inputs.
use sthira.Prelude.{◌≡◌, ◌≢◌, refl, ◌≤◌, String, true, false, some, List, [], ◌∷◌, All, ◌⊎◌, lookup}
use sthira.Prelude.Result.{ok, err}
use sthira.Booking.Authority.{select}
use sthira.OfflinePkg.Structure.{parse_manifest}
use sthira.OfflinePkg.Trust.{verify_manifest}
use sthira.OfflinePkg.Fixtures.{pinned_keys, test_library}
use sthira.Publication.{ManifestRow, not_found, publication_authority, identity_mismatch}
use sthira.Publication.Fixtures.{
  authority, quarantined_source, manifest, staged_row, current_row, withdrawn_row, old_row,
  superseded_row,
}
use sthira.Publication.Manifests.{
  is_current, get_published_manifest, publish_manifest, promote_manifest, set_manifest_status,
}
use sthira.Publication.Publisher.{publish}
use sthira.Publication.Promotion.{Promotion, Current, promote_manifest-Promotion}
use sthira.Publication.History.{Event, published, promotes, run}
use sthira.Publication.Immutable.{Extends, run-Extends}
use sthira.Publication.Trusted.{IsTrusted}
use sthira.Publication.Withdrawn.{IsGone, withdrawn_final}
use sthira.Publication.Delivered.{IsBest, get_published_manifest-IsBest, delivered-IsTrusted}
use sthira.Publication.Effective.{promote_delivers}
use sthira.Publication.Cards.{CardRow, insert_card, promote_card, PublishedCard, ParsedCard}
use sthira.Publication.CardPublisher.{publish_trusted_card}
use sthira.Publication.Resources.{PublishedResource, publish_resource, get_published_resource}
use sthira.Publication.ResourceTrips.{publish-get}

stages : publish test_library (some pinned_keys) 50 authority 50 [] manifest ≡ ok (staged_row ∷ [])
unfolding publish parse_manifest verify_manifest lookup select
stages = refl

publishes_again :
    publish test_library (some pinned_keys) 60 authority 60 (withdrawn_row ∷ []) manifest
    ≡ ok (withdrawn_row ∷ [])
unfolding publish parse_manifest verify_manifest lookup select
publishes_again = refl

refuses_quarantined :
    publish test_library (some pinned_keys) 50 quarantined_source 50 [] manifest
    ≡ err publication_authority
unfolding publish parse_manifest verify_manifest lookup select
refuses_quarantined = refl

refuses_other_revision :
    publish test_library (some pinned_keys) 50 authority 50 [] (record manifest { revision = 8 })
    ≡ err identity_mismatch
unfolding publish parse_manifest verify_manifest lookup select
refuses_other_revision = refl

promotes_staged :
    promote_manifest test_library authority 50
      (old_row ∷ staged_row ∷ [])
      (old_row ∷ staged_row ∷ [])
      "IN-KA"
      7
    ≡ ok (superseded_row ∷ current_row ∷ [])
unfolding promote_manifest parse_manifest select
promotes_staged = refl

-- Between the two reads the manifest was withdrawn.
promotes_too_late :
    promote_manifest test_library authority 50 (staged_row ∷ []) (withdrawn_row ∷ []) "IN-KA" 7
    ≡ err publication_authority
unfolding promote_manifest parse_manifest select
promotes_too_late = refl

-- The lower-level publication overwrites the status of what is there.
overwrites :
    publish_manifest test_library
      (withdrawn_row ∷ [])
      60
      (record manifest { package_id = "pkg"; checksum_sha256 = "digest"; source_status = "" })
    ≡ ok (current_row ∷ [])
unfolding publish_manifest parse_manifest select
overwrites = refl

-- A revision below the current one is promoted beside it.
promotes_older :
    promote_manifest test_library authority 50
      (record old_row { source_status = "STAGED" } ∷ current_row ∷ [])
      (record old_row { source_status = "STAGED" } ∷ current_row ∷ [])
      "IN-KA"
      6
    ≡ ok (old_row ∷ current_row ∷ [])
unfolding promote_manifest parse_manifest select
promotes_older = refl

abbrev history : List Event
history =
    published 50 authority 50 manifest
    ∷ promotes authority 51 (staged_row ∷ []) "IN-KA" 7
    ∷ published 52 quarantined_source 52 manifest
    ∷ []

history_current : run test_library pinned_keys [] history ≡ current_row ∷ []
unfolding run parse_manifest verify_manifest lookup select
history_current = refl

promote_manifest-Promotion_example :
    Current (staged_row ∷ []) (staged_row ∷ []) "IN-KA" 7 (current_row ∷ [])
    ⊎ Promotion test_library authority 50
        (staged_row ∷ [])
        (staged_row ∷ [])
        "IN-KA"
        7
        (current_row ∷ [])
unfolding promote_manifest parse_manifest select
promote_manifest-Promotion_example =
    promote_manifest-Promotion test_library authority 50 (staged_row ∷ []) (staged_row ∷ []) "IN-KA"
      7 (current_row ∷ []) refl

run-Extends_example : Extends (old_row ∷ []) (run test_library pinned_keys (old_row ∷ []) history)
run-Extends_example = run-Extends test_library pinned_keys (old_row ∷ []) history

withdrawn_final_example :
    IsGone "IN-KA" 7 (run test_library pinned_keys (withdrawn_row ∷ []) history)
unfolding set_manifest_status
withdrawn_final_example =
    withdrawn_final test_library pinned_keys "IN-KA" 7 (current_row ∷ []) (withdrawn_row ∷ [])
      history refl

get_published_manifest-IsBest_example :
    ((x : ManifestRow)
      → get_published_manifest (withdrawn_row ∷ old_row ∷ []) "IN-KA" ≡ ok x
      → IsBest (withdrawn_row ∷ old_row ∷ []) "IN-KA" x)
    × (get_published_manifest (withdrawn_row ∷ old_row ∷ []) "IN-KA" ≡ err not_found
        → All
            (λ y. y.jurisdiction ≡ "IN-KA" → y.source_status ≡ "STAGED")
            (withdrawn_row ∷ old_row ∷ []))
get_published_manifest-IsBest_example =
    get_published_manifest-IsBest (withdrawn_row ∷ old_row ∷ []) "IN-KA"

delivered-IsTrusted_example :
    (current_row.jurisdiction ≡ "IN-KA")
    × (current_row.source_status ≢ "STAGED")
    × IsTrusted test_library pinned_keys history current_row
unfolding run get_published_manifest parse_manifest verify_manifest lookup select
delivered-IsTrusted_example =
    delivered-IsTrusted test_library pinned_keys history "IN-KA" current_row refl

promote_delivers_example :
    (x : ManifestRow) × (get_published_manifest (superseded_row ∷ current_row ∷ []) "IN-KA" ≡ ok x)
    × (is_current x ≡ true)
    × (7 ≤ x.revision)
promote_delivers_example =
    promote_delivers test_library authority 50 (old_row ∷ staged_row ∷ [])
      (superseded_row ∷ current_row ∷ []) "IN-KA" 7 promotes_staged

abbrev staged_card : CardRow
staged_card = record {
  package_id = "pkg";
  version = 3;
  source_id = some "src";
  jurisdiction = some "IN-KA";
  raw_json = "card";
  checksum_sha256 = "digest";
  source_status = "STAGED";
  quarantined = false;
  created_at = 50;
}

abbrev old_card : CardRow
old_card = record staged_card { version = 2; source_status = "CURRENT" }

abbrev new_cards : List CardRow
new_cards =
    record old_card { source_status = "SUPERSEDED" }
    ∷ record staged_card { source_status = "CURRENT" }
    ∷ []

promotes_card :
    promote_card test_library authority 50
      (old_card ∷ staged_card ∷ [])
      (old_card ∷ staged_card ∷ [])
      "pkg"
      3
    ≡ ok new_cards
unfolding promote_card select
promotes_card = refl

promotes_other_version :
    promote_card test_library authority 50
      (old_card ∷ record staged_card { version = 4 } ∷ [])
      (old_card ∷ record staged_card { version = 4 } ∷ [])
      "pkg"
      4
    ≡ err publication_authority
unfolding promote_card select
promotes_other_version = refl

abbrev tiles : PublishedResource
tiles = record {
  resource_id = "tiles";
  content_type = "application/x-protobuf";
  content_length = 64;
  checksum_sha256 = "digest";
  content = "the tiles";
  created_at = 50;
}

publish-get_example :
    ((x : PublishedResource) × (get_published_resource (tiles ∷ []) "tiles" ≡ ok x)
      × (x.content ≡ "the tiles")
      × (x.checksum_sha256 ≡ "digest"))
    × ((id : String) (y : PublishedResource)
        → get_published_resource [] id ≡ ok y
        → get_published_resource (tiles ∷ []) id ≡ ok y)
unfolding publish_resource select
publish-get_example = publish-get test_library [] (tiles ∷ []) 50 tiles refl

abbrev card : PublishedCard
card = record {
  package_id = "pkg";
  version = 3;
  jurisdiction = "";
  source_id = "src";
  raw_json = "card";
  checksum_sha256 = "";
  source_status = "CURRENT";
  quarantined = true;
}

abbrev signed_card : ParsedCard
signed_card = record {
  package_id = "pkg";
  version = 3;
  jurisdiction = "IN-KA";
  checksum_sha256 = "digest";
}

stages_card :
    publish_trusted_card test_library (λ text. ok signed_card) (λ doc. ok tt) authority 50 [] card
    ≡ ok (staged_card ∷ [])
unfolding publish_trusted_card select insert_card
stages_card = refl

card_of_other_place :
    publish_trusted_card test_library
      (λ text. ok signed_card)
      (λ doc. ok tt)
      authority
      50
      []
      (record card { jurisdiction = "IN-TN" })
    ≡ err identity_mismatch
unfolding publish_trusted_card select insert_card
card_of_other_place = refl
