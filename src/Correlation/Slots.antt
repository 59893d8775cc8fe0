-- ===== src/Correlation/Slots.antt =====
-- What each operation leaves in the slots of the requests.
use sthira.Prelude.{
  ◌≡◌, refl, ap, ℕ, String, Bool, true, false, Option, none, some, [], ◌∷◌, str_eq, eq_iff,
  if◌then◌else◌, Map, lookup, insert, remove, lookup-insert, lookup-remove, lookup-empty,
}
use sthira.Correlation.{Generations, or_empty, stage_of, slot, put_slot, without_stage}

pub or_empty-lookup :
    (o : Option (Map ℕ)) (stage : String) → lookup stage (or_empty o) ≡ stage_of stage o
or_empty-lookup none stage = lookup-empty stage
or_empty-lookup (some stages) stage = refl

stage_of-if :
    (b : Bool) (s : String) (x y : Option (Map ℕ))
    → stage_of s (if b then x else y) ≡ (if b then stage_of s x else stage_of s y)
stage_of-if true s x y = refl
stage_of-if false s x y = refl

-- A write is seen under its request and stage, and nowhere else.
pub slot-put_slot :
    (m : Generations) (id stage i s : String) (gen : ℕ)
    → slot (put_slot m id stage gen) i s
      ≡ (if str_eq id i then (if str_eq stage s then some gen else slot m id s) else slot m i s)
unfolding slot put_slot
slot-put_slot m id stage i s gen =
    rw
      (
        lookup-insert id i (insert stage gen (or_empty (lookup id m))) m,
        stage_of-if (str_eq id i) s (some (insert stage gen (or_empty (lookup id m)))) (lookup i m),
        lookup-insert stage s gen (or_empty (lookup id m)),
        or_empty-lookup (lookup id m) s,
      )
      refl

without_stage-lookup :
    (m : Generations) (id i s : String) (rest : Map ℕ)
    → stage_of s (lookup i (without_stage m id rest))
      ≡ (if str_eq id i then lookup s rest else stage_of s (lookup i m))
without_stage-lookup m id i s [] =
    rw (lookup-remove id i m, stage_of-if (str_eq id i) s none (lookup i m), lookup-empty {V = ℕ} s)
      refl
without_stage-lookup m id i s (x ∷ rest) =
    rw (lookup-insert id i (x ∷ rest) m, stage_of-if (str_eq id i) s (some (x ∷ rest)) (lookup i m))
      refl

-- Consuming a slot empties it, and changes no other.
pub slot-without_stage :
    (m : Generations) (id stage i s : String)
    → slot (without_stage m id (remove stage (or_empty (lookup id m)))) i s
      ≡ (if str_eq id i then (if str_eq stage s then none else slot m id s) else slot m i s)
unfolding slot
slot-without_stage m id stage i s =
    rw
      (
        without_stage-lookup m id i s (remove stage (or_empty (lookup id m))),
        lookup-remove stage s (or_empty (lookup id m)),
        or_empty-lookup (lookup id m) s,
      )
      refl

-- Making the map of a request changes no slot.
pub slot-made :
    (m : Generations) (id i s : String)
    → slot (insert id (or_empty (lookup id m)) m) i s ≡ slot m i s
unfolding slot
slot-made m id i s =
    rw
      (
        lookup-insert id i (or_empty (lookup id m)) m,
        stage_of-if (str_eq id i) s (some (or_empty (lookup id m))) (lookup i m),
        or_empty-lookup (lookup id m) s,
      )
      (same (str_eq id i) (λ e. ap (λ k. stage_of s (lookup k m)) ((eq_iff id i).0 e)))
  where
    same :
        (b : Bool)
        → (b ≡ true → stage_of s (lookup id m) ≡ stage_of s (lookup i m))
        → (if b then stage_of s (lookup id m) else stage_of s (lookup i m))
          ≡ stage_of s (lookup i m)
    same true h = h refl
    same false h = refl

pub slot-removed :
    (m : Generations) (id i s : String)
    → slot (remove id m) i s ≡ (if str_eq id i then none else slot m i s)
unfolding slot
slot-removed m id i s =
    rw (lookup-remove id i m, stage_of-if (str_eq id i) s none (lookup i m)) refl
