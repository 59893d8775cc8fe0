-- ===== src/CapFeed/Revisions.antt =====
-- The revisions of an alert that backend/internal/capfeed/lifecycle.go keeps.
use sthira.Prelude.{
  ℕ, ◌<◌, ◌≡◌, refl, String, false, Option, none, some, List, [], ◌∷◌, ◌++◌, str_eq, ltb, arith,
  Map, lookup, insert, All, Bool-cases, Option-cases, inl, inr,
}
use sthira.CapFeed.{
  Parsed, Stored, Lifecycle, Library, LifecycleState, or_empty, last, insert_by_sent, sort_by_sent,
  has_sent, not_after, is_stale, append_revision, revise, begin, ingest, expire_from, target_state,
  is_active,
}

-- Every revision of the list was sent after the instant.
abbrev pub AllAfter : ℕ → List Stored → Type 0
AllAfter t [] = Unit
AllAfter t (r ∷ rs) = (t < r.sent) × AllAfter t rs

-- Each revision was sent after the one before it.
abbrev pub Increasing : List Stored → Type 0
Increasing [] = Unit
Increasing (r ∷ rs) = AllAfter r.sent rs × Increasing rs

-- There is a revision, and they are in order.
pub record Revised (revs : List Stored) : Type 0 where
  pub newest : (r : Stored) × (last revs ≡ some r)
  pub in_order : Increasing revs

abbrev pub OfEntry : String × List Stored → Type 0
OfEntry (id, revs) = Revised revs

-- Every identifier has revisions, in order.
abbrev pub IsOrdered : Lifecycle → Type 0
IsOrdered l = All OfEntry l.by_id

-- The sort has nothing to do on a list in order.
pub sort-Increasing : (rs : List Stored) → Increasing rs → sort_by_sent rs ≡ rs
unfolding sort_by_sent insert_by_sent
sort-Increasing [] h = refl
sort-Increasing (r ∷ []) h = refl
sort-Increasing (r ∷ s ∷ rs) ((lt, _), i) = rw (sort-Increasing (s ∷ rs) i) (ground arith)

AllAfter-snoc :
    (t : ℕ) (rs : List Stored) (x : Stored) → AllAfter t rs → t < x.sent → AllAfter t (rs ++ x ∷ [])
AllAfter-snoc t [] x a h = (h, tt)
AllAfter-snoc t (r ∷ rs) x (p, a) h = (p, AllAfter-snoc t rs x a h)

pub last-snoc : (rs : List Stored) (x : Stored) → last (rs ++ x ∷ []) ≡ some x
unfolding last
last-snoc [] x = refl
last-snoc (r ∷ rs) x = rw (last-snoc rs x) refl

last-cons : (r s : Stored) (rs : List Stored) → last (r ∷ s ∷ rs) ≡ last (s ∷ rs)
unfolding last
last-cons r s rs = elim (Option-cases (last rs)) [ inl h ↦ rw h refl | inr (t, h) ↦ rw h refl ]

bound :
    (t : ℕ) (s : Stored) (rs : List Stored) (y : ℕ)
    → AllAfter t (s ∷ rs)
    → not_after (last (s ∷ rs)) y ≡ false
    → t < y
bound t s [] y (lt, _) h = unfold last in ground arith
bound t s (r ∷ rs) y (lt, a) h = bound t r rs y a (rw (last-cons s r rs) at h)

-- A revision that is not stale goes to the end.
pub Increasing-snoc :
    (rs : List Stored) (x : Stored)
    → Increasing rs
    → not_after (last rs) x.sent ≡ false
    → Increasing (rs ++ x ∷ [])
Increasing-snoc [] x i h = (tt, tt)
Increasing-snoc (r ∷ []) x (a, i) h = ((unfold last in ground arith, tt), (tt, tt))
Increasing-snoc (r ∷ s ∷ rs) x (a, i) h = (
  AllAfter-snoc r.sent (s ∷ rs) x a (bound r.sent s rs x.sent a (rw (last-cons r s rs) at h)),
  Increasing-snoc (s ∷ rs) x i (rw (last-cons r s rs) at h),
)

insert-All :
    (k : String) (revs : List Stored) (m : Map (List Stored))
    → Revised revs
    → All OfEntry m
    → All OfEntry (insert k revs m)
unfolding insert
insert-All k revs [] r a = (r, tt)
insert-All k revs ((j, v) ∷ m) r (p, a) = elim (Bool-cases (str_eq j k)) [
  | inl e ↦ rw e (r, a)
  | inr e ↦ rw e (p, insert-All k revs m r a)
]

pub lookup-Increasing :
    (k : String) (m : Map (List Stored)) → All OfEntry m → Increasing (or_empty (lookup k m))
unfolding lookup
lookup-Increasing k [] a = tt
lookup-Increasing k ((j, v) ∷ m) (p, a) = elim (Bool-cases (str_eq j k)) [
  | inl e ↦ rw e p.in_order
  | inr e ↦ rw e (lookup-Increasing k m a)
]

append_revision-IsOrdered :
    (l : Lifecycle) (id : String) (p : Parsed)
    → is_stale l id p.alert.sent ≡ false
    → IsOrdered l
    → IsOrdered (append_revision l id p)
unfolding append_revision is_stale
append_revision-IsOrdered l id p fresh o =
    let x : Stored = record { parsed = p; sent = p.alert.sent } in
    let old = or_empty (lookup id l.by_id) in
    let inc = Increasing-snoc old x (lookup-Increasing id l.by_id o) fresh in
    rw (sort-Increasing (old ++ x ∷ []) inc) (
      insert-All id (old ++ x ∷ []) l.by_id
        (record { newest = (x, last-snoc old x); in_order = inc }) o)

revise-IsOrdered :
    (l : Lifecycle) (p : Parsed) (st : LifecycleState) (target : Option String) (now : ℕ)
    → IsOrdered l
    → IsOrdered (revise l p st target now).0
unfolding revise
revise-IsOrdered l p st none now o = o
revise-IsOrdered l p st (some target) now o = elim (Bool-cases (is_stale l target p.alert.sent)) [
  | inl e ↦ rw e o
  | inr e ↦ rw e (append_revision-IsOrdered l target p e o)
]

begin-IsOrdered : (l : Lifecycle) (p : Parsed) (now : ℕ) → IsOrdered l → IsOrdered (begin l p now).0
unfolding begin
begin-IsOrdered l p now o =
    elim (Bool-cases (has_sent (or_empty (lookup p.alert.identifier l.by_id)) p.alert.sent)) [
      | inl d ↦ rw d o
      | inr d ↦ elim (Bool-cases (is_stale l p.alert.identifier p.alert.sent)) [
        | inl e ↦ rw (d, e) o
        | inr e ↦ rw (d, e) (append_revision-IsOrdered l p.alert.identifier p e o)
      ]
    ]

pub ingest-IsOrdered :
    (lib : Library) (l : Lifecycle) (p : Parsed) (now : ℕ)
    → IsOrdered l
    → IsOrdered (ingest lib l p now).0
unfolding ingest
ingest-IsOrdered lib l p now o = elim (Option-cases (target_state p.alert.msg_type)) [
  | inl e ↦ rw (e, ingest) (begin-IsOrdered l p now o)
  | inr (st, e) ↦ rw (e, ingest) (revise-IsOrdered l p st _ now o)
]

-- `Expire` never reads the last of no revisions.
pub expire_from-some :
    (m : Map (List Stored)) (state : Map LifecycleState) (now : ℕ)
    → All OfEntry m
    → (r : Map LifecycleState × List String) × (expire_from m state now ≡ some r)
unfolding expire_from
expire_from-some [] state now a = ((state, []), refl)
expire_from-some ((id, revs) ∷ m) state now (p, a) =
    elim (Bool-cases (is_active (lookup id state))) [
      | inr e ↦ (let (r, q) = expire_from-some m state now a in (r, rw (e, expire_from) q))
      | inl e ↦
          (let (x, f) = p.newest in
            elim (Bool-cases (ltb now x.parsed.alert.expires)) [
              | inl g ↦
                  (let (r, q) = expire_from-some m state now a in (r, rw (e, expire_from, f, g) q))
              | inr g ↦
                  (let (r, q) = expire_from-some m (insert id LifecycleState.expired state) now a in
                    ((r.0, id ∷ r.1), rw (e, expire_from, f, g, q) refl))
            ])
    ]
