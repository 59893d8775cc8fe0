-- ===== src/Serving/Shelves.antt =====
-- The accounts of one shelf of the cache.
use sthira.Prelude.{
  ◌≡◌, refl, sym, ◌∙◌, subst, ap, ℕ, ◌+◌, ◌≤◌, ◌<◌, String, Bool, true, false, Option, none, some,
  [], ◌∷◌, inl, inr, str_eq, if◌then◌else◌, Bool-cases, Map, lookup, insert, remove, lookup-insert,
  lookup-remove, values, sum, weight_of, sum-insert, length, arith,
}
use sthira.Booking.Authority.{is_null}
use sthira.Serving.{CacheEntry, Shelf, taken_out, take_out, write_entry}

abbrev pub size_of : {V : Type 0} → CacheEntry V → ℕ
size_of e = e.byte_size

-- The bytes of the entries of a shelf.
abbrev pub weight : {V : Type 0} → Shelf V → ℕ
weight s = sum size_of (values s.entries)

-- The map of write times has the keys of the map of entries.
abbrev pub Agrees : {V : Type 0} → Shelf V → Type 0
Agrees s = (k : String) → is_null (lookup k s.times) ≡ is_null (lookup k s.entries)

module _ {V : Type 0} where
  pub sum-remove-weight :
      (w : V → ℕ) (k : String) (m : Map V)
      → sum w (values (remove k m)) + weight_of w (lookup k m) ≤ sum w (values m)
  unfolding sum remove lookup
  sum-remove-weight w k [] = omega arith
  sum-remove-weight w k ((j, x) ∷ m) = elim (Bool-cases (str_eq j k)) [
    | inl e ↦ rw e (omega (arith, sum-remove-weight w k m))
    | inr e ↦ rw e (omega (arith, sum-remove-weight w k m))
  ]

  length-remove : (k : String) (m : Map V) → length (remove k m) ≤ length m
  unfolding remove
  length-remove k [] = omega arith
  length-remove k ((j, x) ∷ m) = elim (Bool-cases (str_eq j k)) [
    | inl e ↦ rw e (omega (arith, length-remove k m))
    | inr e ↦ rw e (omega (arith, length-remove k m))
  ]

  -- A key that is there is removed.
  pub length-remove_found :
      (k : String) (m : Map V) → is_null (lookup k m) ≡ false → length (remove k m) < length m
  unfolding remove lookup
  length-remove_found k [] h = cc
  length-remove_found k ((j, x) ∷ m) h = elim (Bool-cases (str_eq j k)) [
    | inl e ↦ rw e (omega (arith, length-remove k m))
    | inr e ↦ rw e (
        omega (
          arith,
          length-remove_found k m
              (subst (λ b. is_null (if b then some x else lookup k m) ≡ false) e h),
        ))
  ]

  pub length-insert : (k : String) (v : V) (m : Map V) → length (insert k v m) ≤ length m + 1
  unfolding insert
  length-insert k v [] = omega arith
  length-insert k v ((j, x) ∷ m) = elim (Bool-cases (str_eq j k)) [
    | inl e ↦ rw e (omega arith)
    | inr e ↦ rw e (omega (arith, length-insert k v m))
  ]

  pub is_null-if :
      (b : Bool) (o p : Option V)
      → is_null (if b then o else p) ≡ (if b then is_null o else is_null p)
  is_null-if true o p = refl
  is_null-if false o p = refl

module _ {V : Type 0} where
  -- What taking a key out does to a shelf and to the byte count.
  pub record TakenOut (s : Shelf V) (bytes : ℕ) (s' : Shelf V) (bytes' : ℕ) : Type 0 where
    pub agrees : Agrees s → Agrees s'
    pub drift : (d : ℕ) → weight s + d ≤ bytes → weight s' + d ≤ bytes'
    pub fewer : length s'.entries ≤ length s.entries
    pub lighter : bytes' ≤ bytes

  taken_out-TakenOut :
      (key : String) (s : Shelf V) (bytes : ℕ) (o : Option (CacheEntry V))
      → lookup key s.entries ≡ o
      → TakenOut s bytes (taken_out key s bytes o).0 (taken_out key s bytes o).1
  taken_out-TakenOut key s bytes none h = record {
    agrees = λ a. a;
    drift = λ d le. le;
    fewer = omega arith;
    lighter = omega arith;
  }
  taken_out-TakenOut key s bytes (some e) h = record {
    agrees = λ a k.
        rw
          (
            lookup-remove key k s.times,
            lookup-remove key k s.entries,
            is_null-if (str_eq key k) none (lookup k s.times),
            is_null-if (str_eq key k) none (lookup k s.entries),
            a k,
          )
          refl;
    drift = λ d le. omega (
      arith,
      subst (λ o. sum size_of (values (remove key s.entries)) + weight_of size_of o ≤ weight s) h
          (sum-remove-weight size_of key s.entries),
    );
    fewer = length-remove key s.entries;
    lighter = omega arith;
  }

  pub take_out-TakenOut :
      (key : String) (s : Shelf V) (bytes : ℕ)
      → TakenOut s bytes (take_out key s bytes).0 (take_out key s bytes).1
  unfolding take_out
  take_out-TakenOut key s bytes = taken_out-TakenOut key s bytes (lookup key s.entries) refl

  -- Taking out a key that is there makes both maps smaller.
  pub take_out-smaller :
      (key : String) (s : Shelf V) (bytes : ℕ)
      → Agrees s
      → is_null (lookup key s.times) ≡ false
      → (length (take_out key s bytes).0.entries < length s.entries)
        × (length (take_out key s bytes).0.times < length s.times)
  unfolding take_out
  take_out-smaller key s bytes a there = out (lookup key s.entries) refl
    where
      out :
          (o : Option (CacheEntry V))
          → lookup key s.entries ≡ o
          → (length (taken_out key s bytes o).0.entries < length s.entries)
            × (length (taken_out key s bytes o).0.times < length s.times)
      out none h = let bad : true ≡ false = ap is_null (sym h) ∙ sym (a key) ∙ there in cc
      out (some e) h = (
        length-remove_found key s.entries (sym (a key) ∙ there),
        length-remove_found key s.times there,
      )

  pub write_entry-Agrees :
      (key : String) (v : V) (size ttl now : ℕ) (s : Shelf V)
      → Agrees s
      → Agrees (write_entry key v size ttl now s)
  unfolding write_entry
  write_entry-Agrees key v size ttl now s a k =
      rw
        (
          lookup-insert key k now s.times,
          lookup-insert key k new_entry s.entries,
          is_null-if (str_eq key k) (some now) (lookup k s.times),
          is_null-if (str_eq key k) (some new_entry) (lookup k s.entries),
          a k,
        )
        refl
    where
      new_entry : CacheEntry V
      new_entry = record { value = v; expires_at = now + ttl; written_at = now; byte_size = size }

  pub weight-write_entry :
      (key : String) (v : V) (size ttl now : ℕ) (s : Shelf V)
      → weight (write_entry key v size ttl now s) + weight_of size_of (lookup key s.entries)
        ≡ weight s + size
  unfolding write_entry
  weight-write_entry key v size ttl now s = sum-insert size_of key _ s.entries
