-- ===== src/Stay/Conserved/Moves.antt =====
-- Reserve, Arrive, Cancel, Expire and Depart of backend/internal/store/stay.go keep the capacity
-- accounts.
use sthira.Prelude.{ℕ, ◌≡◌, refl, String, Bool, true, false, Option, arith, not}
use sthira.Prelude.Int.{pos, neg, neg_part-neg, pos_part-neg}
use sthira.Prelude.Result.{ok, >>=-eq-ok, reject_if, reject_if-eq-ok}
use sthira.Stay.Model.{Stay, arrived, cancelled, expired, departed, Db, StayState, AuditSink}
use sthira.Stay.Rows.{get_stay_for_update}
use sthira.Stay.Ops.{
  arrive, cancel, expire, depart, touched, arrive_at, depart_at, move_to, is_reserved, is_arrived,
  past_expiry,
}
use sthira.Stay.Conserved.{Balanced, Matches}
use sthira.Stay.Conserved.Steps.{get_stay-find, transition-Balanced}

module _ (st : Stay) (now : ℕ) (f : String) (d : ℕ) where
  arrive-Matches :
      is_reserved st.state ≡ true
      → Matches
          (neg st.party_size)
          (pos st.party_size)
          st
          (touched (arrive_at now) now st)
          st.facility_id
          st.start_date
          st.end_date
          f
          d
  arrive-Matches h = ground (arith, neg_part-neg st.party_size, pos_part-neg st.party_size)

  leave-Matches :
      (target : StayState)
      → is_reserved st.state ≡ true
      → is_reserved target ≡ false
      → is_arrived target ≡ false
      → Matches
          (neg st.party_size)
          (pos 0)
          st
          (touched (move_to target) now st)
          st.facility_id
          st.start_date
          st.end_date
          f
          d
  leave-Matches target h p q =
      ground (arith, neg_part-neg st.party_size, pos_part-neg st.party_size)

  depart-Matches :
      is_arrived st.state ≡ true
      → Matches
          (pos 0)
          (neg st.party_size)
          st
          (touched (depart_at now) now st)
          st.facility_id
          st.start_date
          st.end_date
          f
          d
  depart-Matches h = ground (arith, neg_part-neg st.party_size, pos_part-neg st.party_size)

pub not-false : (b : Bool) → not b ≡ false → b ≡ true
not-false true h = refl
not-false false h = cc

module _ (sink : Option AuditSink) (db : Db) (id : String) (now : ℕ) (key : String) (db' : Db)
    (f : String) (d : ℕ) (b : Balanced db.inventory db.stays f d) where
  pub arrive-Balanced : arrive sink db id now key ≡ ok db' → Balanced db'.inventory db'.stays f d
  unfolding arrive
  arrive-Balanced h =
      let (st, found, h1) = >>=-eq-ok (get_stay_for_update db.stays id) _ h in
      let (_, live, h2) = >>=-eq-ok (reject_if (not (is_reserved st.state)) _) _ h1 in
      let (_, _, h3) = >>=-eq-ok (reject_if (past_expiry st.expires_at now) _) _ h2 in
      transition-Balanced sink db id st (neg st.party_size) (pos st.party_size) (arrive_at now)
        "STAY_ARRIVE" arrived now key f d (get_stay-find db.stays id found) h3
        (arrive-Matches st now f d (not-false _ (reject_if-eq-ok _ _ live))) b

  pub cancel-Balanced : cancel sink db id now key ≡ ok db' → Balanced db'.inventory db'.stays f d
  unfolding cancel
  cancel-Balanced h =
      let (st, found, h1) = >>=-eq-ok (get_stay_for_update db.stays id) _ h in
      let (_, live, h2) = >>=-eq-ok (reject_if (not (is_reserved st.state)) _) _ h1 in
      transition-Balanced sink db id st (neg st.party_size) (pos 0) (move_to cancelled)
        "STAY_CANCEL" cancelled now key f d (get_stay-find db.stays id found) h2
        (leave-Matches st now f d cancelled (not-false _ (reject_if-eq-ok _ _ live)) refl refl) b

  pub expire-Balanced : expire sink db id now key ≡ ok db' → Balanced db'.inventory db'.stays f d
  unfolding expire
  expire-Balanced h =
      let (st, found, h1) = >>=-eq-ok (get_stay_for_update db.stays id) _ h in
      let (_, live, h2) = >>=-eq-ok (reject_if (not (is_reserved st.state)) _) _ h1 in
      let (_, _, h3) = >>=-eq-ok (reject_if (not (past_expiry st.expires_at now)) _) _ h2 in
      transition-Balanced sink db id st (neg st.party_size) (pos 0) (move_to expired) "STAY_EXPIRE"
        expired now key f d (get_stay-find db.stays id found) h3
        (leave-Matches st now f d expired (not-false _ (reject_if-eq-ok _ _ live)) refl refl) b

  pub depart-Balanced : depart sink db id now key ≡ ok db' → Balanced db'.inventory db'.stays f d
  unfolding depart
  depart-Balanced h =
      let (st, found, h1) = >>=-eq-ok (get_stay_for_update db.stays id) _ h in
      let (_, live, h2) = >>=-eq-ok (reject_if (not (is_arrived st.state)) _) _ h1 in
      transition-Balanced sink db id st (pos 0) (neg st.party_size) (depart_at now) "STAY_DEPART"
        departed now key f d (get_stay-find db.stays id found) h2
        (depart-Matches st now f d (not-false _ (reject_if-eq-ok _ _ live))) b
