-- ===== src/CapFeed/Appended.antt =====
-- What a revision that is appended changes for the guards of backend/internal/capfeed/lifecycle.go.
use sthira.Prelude.{
  ℕ, ◌≡◌, refl, sym, String, true, false, Option, none, some, List, [], ◌∷◌, ◌++◌, arith, str_eq,
  if◌then◌else◌, lookup, lookup-insert, eq_refl, eq_iff, Bool-cases, inl, inr,
}
use sthira.CapFeed.{
  Parsed, Stored, Lifecycle, LifecycleState, Library, with_state, or_empty, has_sent, is_stale,
  is_known, append_revision, resolve_reference, second,
}
use sthira.CapFeed.Revisions.{
  IsOrdered, sort-Increasing, Increasing-snoc, lookup-Increasing, last-snoc,
}

-- The alerts and their states are the same; the quarantine may differ.
pub record SameAlerts (l l' : Lifecycle) : Type 0 where
  pub by_id : l'.by_id ≡ l.by_id
  pub state : l'.state ≡ l.state

pub has_sent-snoc : (rs : List Stored) (x : Stored) → has_sent (rs ++ x ∷ []) x.sent ≡ true
unfolding has_sent
has_sent-snoc [] x = ground arith
has_sent-snoc (r ∷ rs) x = ground (arith, has_sent-snoc rs x)

abbrev pub revision : Parsed → Stored
revision p = record { parsed = p; sent = p.alert.sent }

-- What an accepted revision leaves under its identifier.
pub appended :
    (l : Lifecycle) (id : String) (p : Parsed)
    → IsOrdered l
    → is_stale l id p.alert.sent ≡ false
    → or_empty (lookup id (append_revision l id p).by_id)
      ≡ or_empty (lookup id l.by_id) ++ revision p ∷ []
unfolding append_revision is_stale
appended l id p o fresh =
    rw
      (
        lookup-insert,
        eq_refl id,
        sort-Increasing _ (Increasing-snoc _ (revision p) (lookup-Increasing id l.by_id o) fresh),
      )
      refl

pub resolve-same :
    (lib : Library) (l l' : Lifecycle) (refs : List String)
    → ((c : String) → is_known (lookup c l'.by_id) ≡ is_known (lookup c l.by_id))
    → resolve_reference lib l' refs ≡ resolve_reference lib l refs
unfolding resolve_reference
resolve-same lib l l' [] h = refl
resolve-same lib l l' (ref ∷ refs) h =
    rw (h (lib.trim_space (second lib (lib.split ref ",") ref)), resolve-same lib l l' refs h) refl

resolved : (c t : String) → (if str_eq c "" then none else some c) ≡ some t → c ≡ t
resolved c t h = elim (Bool-cases (str_eq c "")) [
  | inl e ↦ (let q : ◌≡◌ {A = Option String} none (some t) = (rw e at h) in cc)
  | inr e ↦ (let q : ◌≡◌ {A = Option String} (some c) (some t) = (rw e at h) in cc)
]

pub resolve-known :
    (lib : Library) (l : Lifecycle) (refs : List String) (t : String)
    → resolve_reference lib l refs ≡ some t
    → is_known (lookup t l.by_id) ≡ true
unfolding resolve_reference
resolve-known lib l [] t h = cc
resolve-known lib l (ref ∷ refs) t h =
    let c = lib.trim_space (second lib (lib.split ref ",") ref) in
    elim (Bool-cases (is_known (lookup c l.by_id))) [
      | inl k ↦
          (let q : (if str_eq c "" then none else some c) ≡ some t =
              (rw (resolve_reference, k) at h) in
            let same : c ≡ t = resolved c t q in rw (sym same) k)
      | inr k ↦ resolve-known lib l refs t (rw (resolve_reference, k) at h)
    ]

-- Once accepted, a revision is not newer than the current one.
pub appended-stale :
    (l : Lifecycle) (id : String) (p : Parsed) (st : LifecycleState)
    → IsOrdered l
    → is_stale l id p.alert.sent ≡ false
    → is_stale (with_state id st (append_revision l id p)) id p.alert.sent ≡ true
unfolding is_stale
appended-stale l id p st o e =
    rw (appended l id p o e, last-snoc (or_empty (lookup id l.by_id)) (revision p)) (ground arith)

-- Appending to a known identifier makes no other one known.
pub append-known :
    (l : Lifecycle) (target : String) (p : Parsed) (c : String)
    → is_known (lookup target l.by_id) ≡ true
    → is_known (lookup c (append_revision l target p).by_id) ≡ is_known (lookup c l.by_id)
unfolding append_revision
append-known l target p c k = elim (Bool-cases (str_eq target c)) [
  | inl e ↦
      (let same : target ≡ c = ground (arith, eq_iff target c) in
        rw (lookup-insert, e, ← same, k) refl)
  | inr e ↦ rw (lookup-insert, e) refl
]

pub is_stale-same :
    (l l' : Lifecycle) (id : String) (sent : ℕ)
    → l'.by_id ≡ l.by_id
    → is_stale l' id sent ≡ is_stale l id sent
unfolding is_stale
is_stale-same l l' id sent h = rw h refl
