-- ===== src/SourceAct/Laws.antt =====
-- What the lifecycle of backend/internal/sourceact/activation.go guarantees of a source.
use sthira.Prelude.{
  false, ℕ, ◌≡◌, refl, String, true, Option, none, some, List, [], ◌∷◌, arith, lookup, insert,
  lookup-insert, lookup-empty, eq_iff, subst, Bool, not, str_eq, if◌then◌else◌, Bool-cases, inl,
  inr,
}
use sthira.Prelude.Result.{Result, ok, err, reject_if, ◌>>◌}
use sthira.SourceAct.Steps.{Within, none_left, taken, been_through, legal-been_through}
use sthira.SourceAct.{
  State, discovered, access_requested, sample_acquired, validated, authorized, operational,
  quarantined, Source, NewSource, AuditEvent, Service, ActivationError, not_operational,
  new_service, discover, transition, require_operational, may_drive_guidance, legal, known, moved,
  source_of,
}

-- A request to the service.
pub data Request : Type 0 where
  discovers : NewSource → ℕ → Request
  transitions : String → State → String → String → String → ℕ → Request

unfoldable pub perform : Service → Request → Result ActivationError Service
perform s (discovers src now) = discover s src now
perform s (transitions id target actor reason event now) =
    transition s id target actor reason event now

abbrev kept : Service → Result ActivationError Service → Service
kept s (ok s') = s'
kept s (err e) = s

unfoldable pub run : Service → List Request → Service
run s [] = s
run s (r ∷ rs) = run (kept s (perform s r)) rs

-- The states that the requests which were accepted gave a source, the last one first.
abbrev pub noted : Request → String → Result ActivationError Service → List State → List State
noted r id (err e) acc = acc
noted (discovers src now) id (ok s') acc = if str_eq src.source_id id then discovered ∷ acc else acc
noted (transitions j target actor reason event now) id (ok s') acc =
    if str_eq j id then target ∷ acc else acc

unfoldable pub entered : Service → List Request → String → List State → List State
entered s [] id acc = acc
entered s (r ∷ rs) id acc = entered (kept s (perform s r)) rs id (noted r id (perform s r) acc)

discovered_lem :
    (s s' : Service) (src : NewSource) (now : ℕ)
    → discover s src now ≡ ok s'
    → (s'.by_id ≡ insert src.source_id (source_of src now) s.by_id)
      × (lookup src.source_id s.by_id ≡ none)
unfolding discover
discovered_lem s s' src now h = (ground arith, ground arith)

-- What an accepted transition did.
record Moved (s s' : Service) (id : String) (target : State) (now : ℕ) : Type 0 where
  from : Source
  there : lookup id s.by_id ≡ some from
  allowed : legal from.state target ≡ true
  wrote : s'.by_id ≡ insert id (moved from target now) s.by_id

Moved-from :
    (s s' : Service) (o : Option Source) (id : String) (target : State)
    (actor reason event : String) (now : ℕ)
    → lookup id s.by_id ≡ o
    → transition s id target actor reason event now ≡ ok s'
    → Moved s s' id target now
unfolding transition
Moved-from s s' none id target actor reason event now e h = cc (rw (e, known) at h)
Moved-from s s' (some from) id target actor reason event now e h = record {
  from = from;
  there = e;
  allowed = ground (arith, e);
  wrote = ground (arith, e);
}

-- The source, if it is there, has been through the states that its state asks for.
abbrev Climbed : String → Service → List State → Type 0
Climbed id s acc =
    (src : Source) → lookup id s.by_id ≡ some src → Within (been_through src.state) acc

some_of : (a b : Source) → ◌≡◌ {A = Option Source} (some a) (some b) → a ≡ b
some_of a b h = cc

perform-Climbed :
    (s s' : Service) (r : Request) (id : String) (acc : List State)
    → perform s r ≡ ok s'
    → Climbed id s acc
    → Climbed id s' (noted r id (ok s') acc)
unfolding perform
perform-Climbed s s' (discovers new now) id acc h c src there =
    let (wrote, fresh) = discovered_lem s s' new now h in
    let at_id = rw (wrote, lookup-insert new.source_id id (source_of new now) s.by_id) at there in
    elim (Bool-cases (str_eq new.source_id id)) [
      | inl e ↦
          (let same = some_of (source_of new now) src (rw e at at_id) in
            rw (e, ← same) (taken none_left))
      | inr e ↦ rw e (c src (rw e at at_id))
    ]
perform-Climbed s s' (transitions j target actor reason event now) id acc h c src there =
    let m = Moved-from s s' (lookup j s.by_id) j target actor reason event now refl h in
    let at_id = rw (m.wrote, lookup-insert j id (moved m.from target now) s.by_id) at there in
    elim (Bool-cases (str_eq j id)) [
      | inl e ↦
          (let same = some_of (moved m.from target now) src (rw e at at_id) in
            let before : lookup id s.by_id ≡ some m.from =
              subst (λ k. lookup k s.by_id ≡ some m.from) ((eq_iff j id).0 e) m.there in
            rw (e, ← same) (legal-been_through m.from.state target acc m.allowed (c m.from before)))
      | inr e ↦ rw e (c src (rw e at at_id))
    ]

kept-Climbed :
    (s : Service) (r : Request) (o : Result ActivationError Service) (id : String)
    (acc : List State)
    → perform s r ≡ o
    → Climbed id s acc
    → Climbed id (kept s o) (noted r id o acc)
kept-Climbed s r (ok s') id acc h c = perform-Climbed s s' r id acc h c
kept-Climbed s r (err e) id acc h c = c

run-Climbed :
    (s : Service) (rs : List Request) (id : String) (acc : List State)
    → Climbed id s acc
    → Climbed id (run s rs) (entered s rs id acc)
unfolding run entered
run-Climbed s [] id acc c = c
run-Climbed s (r ∷ rs) id acc c =
    run-Climbed (kept s (perform s r)) rs id (noted r id (perform s r) acc)
      (kept-Climbed s r (perform s r) id acc refl c)

operational-only : (k : State) → may_drive_guidance k ≡ true → k ≡ operational
unfolding may_drive_guidance
operational-only operational h = refl
operational-only _ h = cc

past_guard :
    (t : Bool) (a b : Source)
    → (reject_if (not t) not_operational >> ok a) ≡ ok b
    → (t ≡ true) × (a ≡ b)
past_guard true a b h = (refl, cc)
past_guard false a b h = cc

operational_at :
    (s : Service) (id : String) (src : Source) (o : Option Source) (acc : List State)
    → lookup id s.by_id ≡ o
    → Climbed id s acc
    → require_operational s id ≡ ok src
    → (src.state ≡ operational) × Within (been_through operational) acc
unfolding require_operational may_drive_guidance
operational_at s id src none acc e c h = cc (rw (require_operational, e) at h)
operational_at s id src (some found) acc e c h =
    let (on, same) =
      past_guard (may_drive_guidance found.state) found src (rw (require_operational, e) at h) in
    let up = operational-only found.state on in
    (
      subst (λ x. x.state ≡ operational) same up,
      subst (λ k. Within (been_through k) acc) up (c found e),
    )

-- Whatever was asked of a new service, a source that may drive guidance is operational, and among the
-- states that accepted requests gave it are, in this order, those of the whole activation: discovered,
-- access requested, sample acquired, validated, authorized and operational.
pub operational_earned :
    (audit : Option (List AuditEvent)) (rs : List Request) (id : String) (src : Source)
    → require_operational (run (new_service audit) rs) id ≡ ok src
    → (src.state ≡ operational)
      × Within
          (operational ∷ authorized ∷ validated ∷ sample_acquired ∷ access_requested ∷ discovered
            ∷ [])
          (entered (new_service audit) rs id [])
operational_earned audit rs id src h =
    operational_at (run (new_service audit) rs) id src
      (lookup id (run (new_service audit) rs).by_id) (entered (new_service audit) rs id []) refl
      (run-Climbed (new_service audit) rs id [] (λ x there. cc (lookup-empty {V = Source} id))) h

stays_quarantined :
    (s s' : Service) (r : Request) (id : String) (src : Source)
    → perform s r ≡ ok s'
    → lookup id s.by_id ≡ some src
    → src.state ≡ quarantined
    → lookup id s'.by_id ≡ some src
unfolding perform legal
stays_quarantined s s' (discovers new now) id src h there q =
    let (wrote, fresh) = discovered_lem s s' new now h in
    ground (
      arith,
      wrote,
      lookup-insert new.source_id id (source_of new now) s.by_id,
      eq_iff new.source_id id,
    )
stays_quarantined s s' (transitions j target actor reason event now) id src h there q =
    let m = Moved-from s s' (lookup j s.by_id) j target actor reason event now refl h in
    ground (
      arith,
      m.wrote,
      m.allowed,
      m.there,
      lookup-insert j id (moved m.from target now) s.by_id,
      eq_iff j id,
    )

kept-quarantined :
    (s : Service) (r : Request) (o : Result ActivationError Service) (id : String) (src : Source)
    → perform s r ≡ o
    → lookup id s.by_id ≡ some src
    → src.state ≡ quarantined
    → lookup id (kept s o).by_id ≡ some src
kept-quarantined s r (ok s') id src h there q = stays_quarantined s s' r id src h there q
kept-quarantined s r (err e) id src h there q = there

-- A quarantined source stays as it is, record and version included, whatever is asked afterwards,
-- and so is refused for guidance for good.
pub quarantine_final :
    (s : Service) (rs : List Request) (id : String) (src : Source)
    → lookup id s.by_id ≡ some src
    → src.state ≡ quarantined
    → (lookup id (run s rs).by_id ≡ some src)
      × (require_operational (run s rs) id ≡ err not_operational)
unfolding run require_operational
quarantine_final s [] id src there q = (there, rw (there, q))
quarantine_final s (r ∷ rs) id src there q =
    quarantine_final (kept s (perform s r)) rs id src
      (kept-quarantined s r (perform s r) id src refl there q) q
