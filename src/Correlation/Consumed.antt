-- ===== src/Correlation/Consumed.antt =====
-- A response is accepted for the call in flight, and once.
use sthira.Prelude.{
  ◌≡◌, refl, sym, ◌∙◌, ap, ℕ, String, Bool, true, false, ◌&&◌, Option, none, some, List, [], ◌∷◌,
  ◌==◌, str_eq, eq_iff, eq_refl, if◌then◌else◌, lookup, insert, remove, All,
}
use sthira.Correlation.{
  CorrelationMap, or_empty, slot, owns, without_stage, claim, withdraw, mark_inflight,
  check_and_consume,
}
use sthira.Correlation.Slots.{
  or_empty-lookup, slot-put_slot, slot-without_stage, slot-made, slot-removed,
}

-- CheckAndConsume accepts exactly the generation in the slot, and then empties that slot; no other slot
-- changes, and where it refuses none does.
pub check_and_consume-slot :
    (m : CorrelationMap) (id stage : String) (gen : ℕ) (i s : String)
    → ((check_and_consume m id stage gen).1 ≡ owns (slot m.inflight id stage) gen)
      × (slot (check_and_consume m id stage gen).0.inflight i s ≡ (
          if owns (slot m.inflight id stage) gen && (str_eq id i && str_eq stage s)
          then none
          else slot m.inflight i s))
unfolding check_and_consume slot
check_and_consume-slot m id stage gen i s =
    rw (or_empty-lookup (lookup id m.inflight) stage)
      (by_owner (owns (slot m.inflight id stage) gen))
  where
    consumed : CorrelationMap
    consumed = record m {
      inflight = without_stage m.inflight id (remove stage (or_empty (lookup id m.inflight)));
    }

    made : CorrelationMap
    made = record m { inflight = insert id (or_empty (lookup id m.inflight)) m.inflight }

    emptied :
        (a b : Bool)
        → (a ≡ true → slot m.inflight id s ≡ slot m.inflight i s)
        → (if a then (if b then none else slot m.inflight id s) else slot m.inflight i s)
          ≡ (if a && b then none else slot m.inflight i s)
    emptied true true h = refl
    emptied true false h = h refl
    emptied false b h = refl

    chosen : Bool → CorrelationMap × Bool
    chosen b = if b then (consumed, true) else (made, false)

    by_owner :
        (b : Bool)
        → ((chosen b).1 ≡ b)
          × (slot (chosen b).0.inflight i s
              ≡ (if b && (str_eq id i && str_eq stage s) then none else slot m.inflight i s))
    by_owner true = (
      refl,
      slot-without_stage m.inflight id stage i s
          ∙ emptied (str_eq id i) (str_eq stage s)
              (λ e. ap (λ k. slot m.inflight k s) ((eq_iff id i).0 e)),
    )
    by_owner false = (refl, slot-made m.inflight id i s)

-- A call on the map.
pub data Step : Type 0 where
  claims : String → String → Step
  withdraws : String → Step
  marks : String → String → ℕ → Step
  checks : String → String → ℕ → Step

unfoldable pub step : CorrelationMap → Step → CorrelationMap
unfolding claim withdraw mark_inflight check_and_consume
step m (claims id stage) = (claim m id stage).0
step m (withdraws id) = withdraw m id
step m (marks id stage gen) = mark_inflight m id stage gen
step m (checks id stage gen) = (check_and_consume m id stage gen).0

unfoldable pub steps : CorrelationMap → List Step → CorrelationMap
unfolding step
steps m [] = m
steps m (x ∷ xs) = steps (step m x) xs

module _ (id stage : String) (gen : ℕ) where
  -- The call does not put the generation in flight for the stage of the request.
  abbrev pub SparesSlot : Step → Type 0
  SparesSlot (marks i s g) = (str_eq i id && (str_eq s stage && g == gen)) ≡ false
  SparesSlot _ = Unit

  -- The generation is not in flight.
  abbrev IsFree : CorrelationMap → Type 0
  IsFree m = owns (slot m.inflight id stage) gen ≡ false

  owns-if :
      (b : Bool) (o : Option ℕ) → owns o gen ≡ false → owns (if b then none else o) gen ≡ false
  owns-if true o h = refl
  owns-if false o h = h

  marked-IsFree :
      (m : CorrelationMap) (i s : String) (g : ℕ)
      → (str_eq i id && (str_eq s stage && g == gen)) ≡ false
      → IsFree m
      → IsFree (mark_inflight m i s g)
  unfolding mark_inflight
  marked-IsFree m i s g spared free = rw (slot-put_slot m.inflight i s id stage g) (
      by_key (str_eq i id) (str_eq s stage)
        (λ e. ap (λ k. owns (slot m.inflight k stage) gen) ((eq_iff i id).0 e) ∙ free) spared)
    where
      by_key :
          (a b : Bool)
          → (a ≡ true → owns (slot m.inflight i stage) gen ≡ false)
          → (a && (b && g == gen)) ≡ false
          → owns
              (if a
                then (if b then some g else slot m.inflight i stage)
                else slot m.inflight id stage)
              gen
            ≡ false
      by_key true true h e = e
      by_key true false h e = h refl
      by_key false b h e = free

  step-IsFree : (m : CorrelationMap) (x : Step) → SparesSlot x → IsFree m → IsFree (step m x)
  unfolding step claim withdraw
  step-IsFree m (claims i s) spared free = free
  step-IsFree m (withdraws i) spared free =
      rw (slot-removed m.inflight i id stage)
        (owns-if (str_eq i id) (slot m.inflight id stage) free)
  step-IsFree m (marks i s g) spared free = marked-IsFree m i s g spared free
  step-IsFree m (checks i s g) spared free = rw ((check_and_consume-slot m i s g id stage).1) (
      owns-if (owns (slot m.inflight i s) g && (str_eq i id && str_eq s stage))
        (slot m.inflight id stage) free)

  steps-IsFree :
      (m : CorrelationMap) (xs : List Step) → All SparesSlot xs → IsFree m → IsFree (steps m xs)
  unfolding steps
  steps-IsFree m [] spared free = free
  steps-IsFree m (x ∷ xs) (spared, rest) free =
      steps-IsFree (step m x) xs rest (step-IsFree m x spared free)

  -- A response that has been accepted is not accepted again, after every later sequence of claims,
  -- withdrawals, checks and marks among which none puts the same generation in flight again for
  -- the same stage of the same request.
  pub accepted_once :
      (m : CorrelationMap) (xs : List Step)
      → (check_and_consume m id stage gen).1 ≡ true
      → All SparesSlot xs
      → (check_and_consume (steps (check_and_consume m id stage gen).0 xs) id stage gen).1 ≡ false
  accepted_once m xs accepted spared =
      (check_and_consume-slot (steps m' xs) id stage gen id stage).0
      ∙ steps-IsFree m' xs spared emptied
    where
      m' : CorrelationMap
      m' = (check_and_consume m id stage gen).0

      owned : owns (slot m.inflight id stage) gen ≡ true
      owned = sym (check_and_consume-slot m id stage gen id stage).0 ∙ accepted

      emptied : IsFree m'
      emptied =
          rw ((check_and_consume-slot m id stage gen id stage).1, owned, eq_refl id, eq_refl stage)
            refl
