-- ===== src/Serving/Bounded.antt =====
-- Where the loop of the eviction ends.
use sthira.Prelude.{
  ◌≡◌, refl, ◌∙◌, ℕ, zero, suc, ◌+◌, ◌-◌, ◌≤◌, String, true, false, none, some, List, [], ◌∷◌, ◌⊎◌,
  inl, inr, str_eq, eq_refl, if◌then◌else◌, Map, lookup, length, arith,
}
use sthira.Booking.Authority.{is_null}
use sthira.Serving.{
  MemoryCache, CacheEntry, Shelf, Candidate, candidates, oldest, evict, over, evict_loop, count,
}
use sthira.Serving.Shelves.{Agrees}
use sthira.Serving.Eviction.{
  IsConsistent, length-candidates, evict-Evicted, evict-oldest, round-elim,
}

no_entries : {V : Type 0} → (s : Shelf V) → Agrees s → length s.times ≡ 0 → length s.entries ≡ 0
unfolding lookup
no_entries {V} s a h = by_maps s.entries s.times a h
  where
    by_maps :
        (entries : Map (CacheEntry V)) (times : Map ℕ)
        → ((k : String) → is_null (lookup k times) ≡ is_null (lookup k entries))
        → length times ≡ 0
        → length entries ≡ 0
    by_maps [] times a h = refl
    by_maps ((k, e) ∷ entries) [] a h =
        let bad : true ≡ is_null (if str_eq k k then some e else lookup k entries) = a k in
        let bad' : true ≡ false = bad ∙ rw (eq_refl k) refl in cc
    by_maps ((k, e) ∷ entries) (t ∷ times) a h = absurd (omega arith)

no_candidates : (c : MemoryCache) → IsConsistent c → length (candidates c) ≡ 0 → count c ≡ 0
no_candidates c k h = omega (
  arith,
  length-candidates c,
  no_entries c.manifests k.manifests (omega (arith, length-candidates c)),
  no_entries c.cards k.cards (omega (arith, length-candidates c)),
)

-- The loop has emptied the cache, or reached a number of entries within the bounds.
abbrev pub IsSettled : ℕ → MemoryCache → Type 0
IsSettled tb c = (count c ≡ 0) ⊎ ((te : ℕ) × (over c te tb ≡ false) × (count c + 1 ≤ te))

oldest-none : (xs : List Candidate) → oldest xs ≡ none → length xs ≡ 0
unfolding oldest
oldest-none [] h = refl
oldest-none (x ∷ xs) h = cc

-- With a round for each candidate the loop never stops for want of rounds.
pub evict_loop-IsSettled :
    (n : ℕ) (c : MemoryCache) (te tb : ℕ)
    → IsConsistent c
    → length (candidates c) ≤ n
    → count c + 1 ≤ te
    → IsSettled tb (evict_loop n c te tb)
unfolding evict_loop
evict_loop-IsSettled zero c te tb k enough room = inl (no_candidates c k (omega (arith, enough)))
evict_loop-IsSettled (suc n) c te tb k enough room =
    round-elim (IsSettled tb) (over c te tb) (oldest (candidates c)) c _ (λ e. inr (te, e, room))
      (λ f. inl (no_candidates c k (oldest-none (candidates c) f)))
      (λ x f.
        let (fewer, shorter) = evict-oldest c x k f in
        evict_loop-IsSettled n (evict c x) (te - 1) tb ((evict-Evicted c x).consistent k)
          (omega (arith, shorter, enough)) (omega (arith, fewer, room)))
