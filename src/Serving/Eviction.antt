-- ===== src/Serving/Eviction.antt =====
-- What the eviction of entries does to the cache.
use sthira.Prelude.{
  ◌≡◌, refl, ◌∙◌, subst, ap, ℕ, zero, suc, ◌+◌, ◌-◌, ◌≤◌, ◌<◌, String, Bool, true, false, Option,
  none, some, List, [], ◌∷◌, ◌++◌, inl, inr, ltb, str_eq, eq_refl, if◌then◌else◌, Bool-cases, Map,
  lookup, All, length, length-append, arith,
}
use sthira.Booking.Authority.{is_null}
use sthira.Serving.{
  MemoryCache, invalidate_manifest, invalidate_card, Candidate, manifest, card, written,
  manifest_candidates, card_candidates, candidates, older, oldest, evict, over, round, evict_loop,
  count,
}
use sthira.Serving.Shelves.{weight, Agrees, take_out-TakenOut, take_out-smaller}

pub record IsConsistent (c : MemoryCache) : Type 0 where
  pub manifests : Agrees c.manifests
  pub cards : Agrees c.cards

-- The byte count is ahead of the bytes of the entries by `d` at least.
abbrev pub Drifted : ℕ → MemoryCache → Type 0
Drifted d c = weight c.manifests + weight c.cards + d ≤ c.current_bytes

-- `c'` is `c` without some entries.
pub record Evicted (c c' : MemoryCache) : Type 0 where
  pub consistent : IsConsistent c → IsConsistent c'
  pub drift : (d : ℕ) → Drifted d c → Drifted d c'
  pub fewer : count c' ≤ count c
  pub lighter : c'.current_bytes ≤ c.current_bytes
  pub max_entries : c'.max_entries ≡ c.max_entries
  pub max_bytes : c'.max_bytes ≡ c.max_bytes

pub Evicted-refl : (c : MemoryCache) → Evicted c c
Evicted-refl c = record {
  consistent = λ x. x;
  drift = λ d x. x;
  fewer = omega arith;
  lighter = omega arith;
  max_entries = refl;
  max_bytes = refl;
}

pub Evicted-trans : (a b c : MemoryCache) → Evicted a b → Evicted b c → Evicted a c
Evicted-trans a b c x y = record {
  consistent = λ k. y.consistent (x.consistent k);
  drift = λ d k. y.drift d (x.drift d k);
  fewer = omega (arith, x.fewer, y.fewer);
  lighter = omega (arith, x.lighter, y.lighter);
  max_entries = y.max_entries ∙ x.max_entries;
  max_bytes = y.max_bytes ∙ x.max_bytes;
}

pub invalidate_manifest-Evicted :
    (c : MemoryCache) (j : String) → Evicted c (invalidate_manifest c j)
unfolding invalidate_manifest
invalidate_manifest-Evicted c j =
    let t = take_out-TakenOut j c.manifests c.current_bytes in
    record {
      consistent = λ k. record { manifests = t.agrees k.manifests; cards = k.cards };
      drift = λ d k. omega (arith, t.drift (weight c.cards + d) (omega (arith, k)));
      fewer = omega (arith, t.fewer);
      lighter = t.lighter;
      max_entries = refl;
      max_bytes = refl;
    }

pub invalidate_card-Evicted : (c : MemoryCache) (key : String) → Evicted c (invalidate_card c key)
unfolding invalidate_card
invalidate_card-Evicted c key =
    let t = take_out-TakenOut key c.cards c.current_bytes in
    record {
      consistent = λ k. record { manifests = k.manifests; cards = t.agrees k.cards };
      drift = λ d k. omega (arith, t.drift (weight c.manifests + d) (omega (arith, k)));
      fewer = omega (arith, t.fewer);
      lighter = t.lighter;
      max_entries = refl;
      max_bytes = refl;
    }

pub evict-Evicted : (c : MemoryCache) (x : Candidate) → Evicted c (evict c x)
unfolding evict
evict-Evicted c (manifest key t) = invalidate_manifest-Evicted c key
evict-Evicted c (card key t) = invalidate_card-Evicted c key

-- The write times name the candidate.
abbrev IsListed : Map ℕ → Map ℕ → Candidate → Type 0
IsListed ms cs (manifest key t) = is_null (lookup key ms) ≡ false
IsListed ms cs (card key t) = is_null (lookup key cs) ≡ false

deeper :
    (j k : String) (t : ℕ) (m : Map ℕ)
    → is_null (lookup k m) ≡ false
    → is_null (lookup k ((j, t) ∷ m)) ≡ false
unfolding lookup
deeper j k t m h = elim (Bool-cases (str_eq j k)) [ inl e ↦ rw e refl | inr e ↦ rw e h ]

head_found : (k : String) (t : ℕ) (m : Map ℕ) → is_null (lookup k ((k, t) ∷ m)) ≡ false
unfolding lookup
head_found k t m = rw (eq_refl k) refl

manifest_candidates-IsListed :
    (ms cs ts : Map ℕ)
    → ((k : String) → is_null (lookup k ts) ≡ false → is_null (lookup k ms) ≡ false)
    → All (IsListed ms cs) (manifest_candidates ts)
manifest_candidates-IsListed ms cs [] up = tt
manifest_candidates-IsListed ms cs ((k, t) ∷ ts) up = (
  up k (head_found k t ts),
  manifest_candidates-IsListed ms cs ts (λ j h. up j (deeper k j t ts h)),
)

card_candidates-IsListed :
    (ms cs ts : Map ℕ)
    → ((k : String) → is_null (lookup k ts) ≡ false → is_null (lookup k cs) ≡ false)
    → All (IsListed ms cs) (card_candidates ts)
card_candidates-IsListed ms cs [] up = tt
card_candidates-IsListed ms cs ((k, t) ∷ ts) up =
    (up k (head_found k t ts), card_candidates-IsListed ms cs ts (λ j h. up j (deeper k j t ts h)))

All-append :
    (P : Candidate → Type 0) (xs ys : List Candidate) → All P xs → All P ys → All P (xs ++ ys)
All-append P [] ys px py = py
All-append P (x ∷ xs) ys (h, px) py = (h, All-append P xs ys px py)

-- The oldest of the candidates is one of them.
oldest-All :
    (P : Candidate → Type 0) (xs : List Candidate) (x : Candidate)
    → All P xs
    → oldest xs ≡ some x
    → P x
unfolding oldest
oldest-All P [] x all h = cc
oldest-All P (y ∷ ys) x (py, all) h =
    subst P (some_eq _ x h) (from (oldest ys) (λ z e. oldest-All P ys z all e))
  where
    some_eq : (a b : Candidate) → some a ≡ some b → a ≡ b
    some_eq a b e = cc

    pick : (z : Candidate) (b : Bool) → P z → P (if b then z else y)
    pick z true pz = pz
    pick z false pz = py

    from : (o : Option Candidate) → ((z : Candidate) → o ≡ some z → P z) → P (older y o)
    from none g = py
    from (some z) g = pick z (ltb (written z) (written y)) (g z refl)

length-manifest_candidates : (ts : Map ℕ) → length (manifest_candidates ts) ≡ length ts
length-manifest_candidates [] = refl
length-manifest_candidates (x ∷ ts) = ap suc (length-manifest_candidates ts)

length-card_candidates : (ts : Map ℕ) → length (card_candidates ts) ≡ length ts
length-card_candidates [] = refl
length-card_candidates (x ∷ ts) = ap suc (length-card_candidates ts)

pub length-candidates :
    (c : MemoryCache) → length (candidates c) ≡ length c.manifests.times + length c.cards.times
length-candidates c =
    rw
      (
        length-append (manifest_candidates c.manifests.times) (card_candidates c.cards.times),
        length-manifest_candidates c.manifests.times,
        length-card_candidates c.cards.times,
      )
      refl

evict-smaller :
    (c : MemoryCache) (x : Candidate)
    → IsConsistent c
    → IsListed c.manifests.times c.cards.times x
    → (count (evict c x) < count c) × (length (candidates (evict c x)) < length (candidates c))
unfolding evict invalidate_manifest invalidate_card
evict-smaller c (manifest key t) k listed =
    let (fewer, shorter) = take_out-smaller key c.manifests c.current_bytes k.manifests listed in
    (
      omega (arith, fewer),
      rw (length-candidates c, length-candidates (evict c (manifest key t)))
          (omega (arith, shorter)),
    )
evict-smaller c (card key t) k listed =
    let (fewer, shorter) = take_out-smaller key c.cards c.current_bytes k.cards listed in
    (
      omega (arith, fewer),
      rw (length-candidates c, length-candidates (evict c (card key t))) (omega (arith, shorter)),
    )

-- The oldest candidate is evicted for good.
pub evict-oldest :
    (c : MemoryCache) (x : Candidate)
    → IsConsistent c
    → oldest (candidates c) ≡ some x
    → (count (evict c x) < count c) × (length (candidates (evict c x)) < length (candidates c))
evict-oldest c x k h = evict-smaller c x k (
    oldest-All (IsListed c.manifests.times c.cards.times) (candidates c) x
      (All-append (IsListed c.manifests.times c.cards.times) _ _
        (manifest_candidates-IsListed c.manifests.times c.cards.times c.manifests.times (λ j e. e))
        (card_candidates-IsListed c.manifests.times c.cards.times c.cards.times (λ j e. e)))
      h)

-- A round ends the loop within the bounds, ends it without a candidate, or goes on.
pub round-elim :
    (P : MemoryCache → Type 0) (b : Bool) (o : Option Candidate) (c : MemoryCache)
    (next : Candidate → MemoryCache)
    → (b ≡ false → P c)
    → (o ≡ none → P c)
    → ((x : Candidate) → o ≡ some x → P (next x))
    → P (round b o c next)
round-elim P false o c next within empty go = within refl
round-elim P true none c next within empty go = empty refl
round-elim P true (some x) c next within empty go = go x refl

pub evict_loop-Evicted : (n : ℕ) (c : MemoryCache) (te tb : ℕ) → Evicted c (evict_loop n c te tb)
unfolding evict_loop
evict_loop-Evicted zero c te tb = Evicted-refl c
evict_loop-Evicted (suc n) c te tb =
    round-elim (Evicted c) (over c te tb) (oldest (candidates c)) c _ (λ e. Evicted-refl c)
      (λ f. Evicted-refl c)
      (λ x f.
        Evicted-trans c (evict c x) _ (evict-Evicted c x)
          (evict_loop-Evicted n (evict c x) (te - 1) tb))
