-- ===== src/CapFeed/Replay.antt =====
-- The same alert delivered twice to backend/internal/capfeed/lifecycle.go.
use sthira.Prelude.{
  ℕ, ◌≡◌, refl, sym, String, true, false, none, some, lookup, Bool-cases, Option-cases, inl, inr,
}
use sthira.CapFeed.{
  Parsed, Lifecycle, LifecycleState, Library, active, stale_update, quarantined, with_state,
  or_empty, has_sent, is_stale, append_revision, revise, begin, resolve_reference, ingest,
  target_state,
}
use sthira.CapFeed.Revisions.{IsOrdered}
use sthira.CapFeed.Appended.{
  SameAlerts, revision, has_sent-snoc, appended, resolve-same, resolve-known, appended-stale,
  append-known, is_stale-same,
}

begin-seen :
    (l : Lifecycle) (p : Parsed) (now : ℕ)
    → has_sent (or_empty (lookup p.alert.identifier l.by_id)) p.alert.sent ≡ true
    → (begin l p now).0 ≡ l
unfolding begin
begin-seen l p now d = rw d refl

begin-stale :
    (l : Lifecycle) (p : Parsed) (now : ℕ)
    → has_sent (or_empty (lookup p.alert.identifier l.by_id)) p.alert.sent ≡ false
    → is_stale l p.alert.identifier p.alert.sent ≡ true
    → (begin l p now).0 ≡ quarantined l stale_update p "revision is not newer than current" now
unfolding begin
begin-stale l p now d e = rw (d, e) refl

begin-fresh :
    (l : Lifecycle) (p : Parsed) (now : ℕ)
    → has_sent (or_empty (lookup p.alert.identifier l.by_id)) p.alert.sent ≡ false
    → is_stale l p.alert.identifier p.alert.sent ≡ false
    → (begin l p now).0
      ≡ with_state p.alert.identifier active (append_revision l p.alert.identifier p)
unfolding begin
begin-fresh l p now d e = rw (d, e) refl

begin_twice :
    (l : Lifecycle) (p : Parsed) (now now' : ℕ)
    → IsOrdered l
    → SameAlerts (begin l p now).0 (begin (begin l p now).0 p now').0
unfolding is_stale
begin_twice l p now now' o =
    let id = p.alert.identifier in
    elim (Bool-cases (has_sent (or_empty (lookup id l.by_id)) p.alert.sent)) [
      | inl d ↦
          rw (begin-seen l p now d, begin-seen l p now' d) (record { by_id = refl; state = refl })
      | inr d ↦ elim (Bool-cases (is_stale l id p.alert.sent)) [
        | inl e ↦
            (let l1 = quarantined l stale_update p "revision is not newer than current" now in
              rw (begin-stale l p now d e, begin-stale l1 p now' d e)
                (record { by_id = refl; state = refl }))
        | inr e ↦
            (let l1 = with_state id active (append_revision l id p) in
              let seen : has_sent (or_empty (lookup id l1.by_id)) p.alert.sent ≡ true =
                rw (appended l id p o e)
                  (has_sent-snoc (or_empty (lookup id l.by_id)) (revision p)) in
              rw (begin-fresh l p now d e, begin-seen l1 p now' seen)
                (record { by_id = refl; state = refl }))
      ]
    ]

revise-none :
    (l : Lifecycle) (p : Parsed) (st : LifecycleState) (now : ℕ)
    → SameAlerts l (revise l p st none now).0
unfolding revise
revise-none l p st now = record { by_id = refl; state = refl }

revise-stale :
    (l : Lifecycle) (p : Parsed) (st : LifecycleState) (target : String) (now : ℕ)
    → is_stale l target p.alert.sent ≡ true
    → SameAlerts l (revise l p st (some target) now).0
unfolding revise
revise-stale l p st target now e = rw e (record { by_id = refl; state = refl })

revise-fresh :
    (l : Lifecycle) (p : Parsed) (st : LifecycleState) (target : String) (now : ℕ)
    → is_stale l target p.alert.sent ≡ false
    → (revise l p st (some target) now).0 ≡ with_state target st (append_revision l target p)
unfolding revise
revise-fresh l p st target now e = rw e refl

-- A revision that was not applied is not applied the second time.
refused_twice :
    (lib : Library) (l l1 : Lifecycle) (p : Parsed) (st : LifecycleState) (now : ℕ)
    → SameAlerts l l1
    → ((target : String)
        → resolve_reference lib l p.alert.references ≡ some target
        → is_stale l target p.alert.sent ≡ true)
    → SameAlerts l1 (revise l1 p st (resolve_reference lib l1 p.alert.references) now).0
refused_twice lib l l1 p st now s old =
    let same = resolve-same lib l l1 p.alert.references (λ c. rw s.by_id refl) in
    elim (Option-cases (resolve_reference lib l p.alert.references)) [
      | inl e ↦ rw (same, e) (revise-none l1 p st now)
      | inr (target, e) ↦
          rw (same, e)
            (revise-stale l1 p st target now
              (rw (is_stale-same l l1 target p.alert.sent s.by_id) (old target e)))
    ]

revise_twice :
    (lib : Library) (l : Lifecycle) (p : Parsed) (st : LifecycleState) (now now' : ℕ)
    → IsOrdered l
    → (let l1 = (revise l p st (resolve_reference lib l p.alert.references) now).0 in
        SameAlerts l1 (revise l1 p st (resolve_reference lib l1 p.alert.references) now').0)
revise_twice lib l p st now now' o =
    elim (Option-cases (resolve_reference lib l p.alert.references)) [
      | inl e ↦ rw e (
          refused_twice lib l (revise l p st none now).0 p st now' (revise-none l p st now)
            (λ target h. cc))
      | inr (target, e) ↦ rw e (elim (Bool-cases (is_stale l target p.alert.sent)) [
        | inl old ↦
            refused_twice lib l (revise l p st (some target) now).0 p st now'
              (revise-stale l p st target now old)
              (λ t h. let q : target ≡ t = cc in rw (sym q) old)
        | inr new ↦ rw (revise-fresh l p st target now new) (
            let l1 = with_state target st (append_revision l target p) in
            let same =
              resolve-same lib l l1 p.alert.references (λ c.
                append-known l target p c (resolve-known lib l p.alert.references target e)) in
            rw (same, e) (revise-stale l1 p st target now' (appended-stale l target p st o new)))
      ])
    ]

ingest-begin :
    (lib : Library) (l : Lifecycle) (p : Parsed) (now : ℕ)
    → target_state p.alert.msg_type ≡ none
    → ingest lib l p now ≡ begin l p now
unfolding ingest
ingest-begin lib l p now e = rw (ingest, e) refl

ingest-revise :
    (lib : Library) (l : Lifecycle) (p : Parsed) (now : ℕ) (st : LifecycleState)
    → target_state p.alert.msg_type ≡ some st
    → ingest lib l p now ≡ revise l p st (resolve_reference lib l p.alert.references) now
unfolding ingest
ingest-revise lib l p now st e = rw (ingest, e) refl

-- An alert, update or cancellation that is delivered a second time, at any later clock, changes no
-- alert's revisions and no state, whether the first delivery was applied or not.
pub ingest_twice :
    (lib : Library) (l : Lifecycle) (p : Parsed) (now now' : ℕ)
    → IsOrdered l
    → (let l1 = (ingest lib l p now).0 in SameAlerts l1 (ingest lib l1 p now').0)
ingest_twice lib l p now now' o = elim (Option-cases (target_state p.alert.msg_type)) [
  | inl e ↦
      rw (ingest-begin lib l p now e, ingest-begin lib (begin l p now).0 p now' e)
        (begin_twice l p now now' o)
  | inr (st, e) ↦
      (let l1 = (revise l p st (resolve_reference lib l p.alert.references) now).0 in
        rw (ingest-revise lib l p now st e, ingest-revise lib l1 p now' st e)
          (revise_twice lib l p st now now' o))
]
