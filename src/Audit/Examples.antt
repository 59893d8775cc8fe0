-- ===== src/Audit/Examples.antt =====
-- The theorems on the audit log at one event. The hash is stood for by simple ones of 64 digits, and
-- a time column keeps whole microseconds.
use sthira.Prelude.{
  ◌≡◌, refl, ◌⊎◌, ◌*◌, ◌/◌, none, some, List, [], ◌∷◌, str_eq, map, if◌then◌else◌, Bool-cases, inl,
  inr, String,
}
use Prim.Native.String.{count}
use sthira.Stay.Model.{reserved, AuditEvent, AuditRow}
use sthira.Audit.{
  Library, genesis_hash, head_hash, compute_event_hash, canonical, stored, record_event,
  verify_from, verify_chain,
}
use sthira.Audit.Chain.{verify-record_event}
use sthira.Audit.Tampering.{Collision, hashed_text, tamper_evident}

abbrev constant : Library
constant = record {
  sha256_hex = λ s. genesis_hash;
  format_time = λ t. "t";
  stored_time = λ t. t / 1000 * 1000;
}

abbrev booking : AuditEvent
booking = record {
  event_id = "s1:STAY_RESERVE:u1:k1";
  occurred_at = 1234567;
  actor_id = "u1";
  action = "STAY_RESERVE";
  subject_id = "s1";
  outcome = "OK";
  reason = "";
  from_state = none;
  to_state = some reserved;
}

abbrev log : List AuditRow
log =
    record { event = stored constant booking; prev_hash = genesis_hash; event_hash = genesis_hash }
    ∷ []

verify-record_event_example :
    verify_chain constant log
    ≡ str_eq
        (compute_event_hash constant (head_hash "" []) (stored constant booking))
        (compute_event_hash constant (head_hash "" []) booking)
unfolding verify_chain verify_from record_event head_hash compute_event_hash canonical
verify-record_event_example = verify-record_event constant (λ s. refl) [] log booking refl refl

-- A hash that tells the text of the booking from all others.
abbrev booking_text : String
booking_text = canonical constant genesis_hash booking

abbrev ones : String
ones = "1111111111111111111111111111111111111111111111111111111111111111"

abbrev telling : Library
telling = record constant { sha256_hex = λ s. if str_eq s booking_text then ones else genesis_hash }

telling_digits : (s : String) → count (telling.sha256_hex s) ≡ 64
telling_digits s = elim (Bool-cases (str_eq s booking_text)) [
  | inl e ↦ rw e refl
  | inr e ↦ rw e refl
]

abbrev arrival : AuditEvent
arrival = record booking { event_id = "s1:STAY_ARRIVE:u1:k2"; action = "STAY_ARRIVE" }

abbrev log_by : String → List AuditRow
log_by actor =
    record { event = booking; prev_hash = genesis_hash; event_hash = ones }
    ∷ record {
      event = record arrival { actor_id = actor };
      prev_hash = ones;
      event_hash = genesis_hash;
    }
    ∷ []

-- Two logs that differ in the actor of their last event.
tamper_evident_example :
    (map (hashed_text telling) (log_by "u1") ≡ map (hashed_text telling) (log_by "u2"))
    ⊎ Collision telling (log_by "u1") (log_by "u2")
unfolding verify_chain verify_from compute_event_hash canonical
tamper_evident_example =
    tamper_evident telling telling_digits (log_by "u1") (log_by "u2") refl refl refl refl
