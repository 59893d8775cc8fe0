-- ===== src/Booking/Replay.antt =====
-- What the idempotency keys of backend/internal/store/idempotency.go keep.
use sthira.Prelude.{
  ℕ, ◌≤◌, ◌≡◌, inl, inr, refl, String, Bool, true, false, Option, none, some, List, [], ◌∷◌, ◌++◌,
  arith, eq_refl, Option-cases,
}
use sthira.Prelude.Result.{ok, ◌>>=◌, >>=-eq-ok}
use sthira.Booking.Keys.{
  KeyRow, completed, Answer, Begun, begun, replayed, LegacyChecker, has_key, find_key, update_keys,
  sweep, hash_match, matched, resume, reclaim, finish, new_row, BookingResult, begin_with_compat,
  complete, reclaims, completes,
}

-- A completed row stands where its key is looked up.
abbrev pub Settled : String → String → String → KeyRow → List KeyRow → Type 0
Settled s o k row keys = (find_key s o k keys ≡ some row) × (row.state ≡ completed)

find_key-append :
    (s o k : String) (row : KeyRow) (keys rest : List KeyRow)
    → find_key s o k keys ≡ some row
    → find_key s o k (keys ++ rest) ≡ some row
unfolding find_key
find_key-append s o k row [] rest h = cc
find_key-append s o k row (r ∷ rs) rest h = ground (arith, find_key-append s o k row rs rest)

module _ (s o k : String) (row : KeyRow) (p : KeyRow → Bool) (set : KeyRow → KeyRow)
    (untouched : p row ≡ false)
    (same : (r : KeyRow) → has_key s o k (set r) ≡ has_key s o k r) where
  find_key-update :
      (keys : List KeyRow)
      → find_key s o k keys ≡ some row
      → find_key s o k (update_keys p set keys) ≡ some row
  unfolding find_key update_keys
  find_key-update [] h = cc
  find_key-update (r ∷ rs) h = ground (arith, same r, find_key-update rs)

pub find_key-sweep :
    (s o k : String) (row : KeyRow) (now : ℕ) (keys : List KeyRow)
    → now ≤ row.expires_at
    → find_key s o k keys ≡ some row
    → find_key s o k (sweep now keys) ≡ some row
unfolding find_key sweep
find_key-sweep s o k row now [] l h = cc
find_key-sweep s o k row now (r ∷ rs) l h = ground (arith, find_key-sweep s o k row now rs l)

pub matched-begun :
    (t : Bool) (go : BookingResult Begun) (keys : List KeyRow)
    → matched t go ≡ ok (begun keys)
    → go ≡ ok (begun keys)
matched-begun true go keys h = h
matched-begun false go keys h = cc

resume-begun :
    (s o k : String) (row : KeyRow) (keys keys' : List KeyRow)
    → resume keys s o k row ≡ ok (begun keys')
    → update_keys (reclaims s o k) reclaim keys ≡ keys'
unfolding resume
resume-begun s o k row keys keys' h = ground arith

pub completed_stays :
    (s o k : String) (row : KeyRow)
    → row.state ≡ completed
    → (reclaims s o k row ≡ false) × (completes s o k row ≡ false)
completed_stays s o k row done = (ground arith, ground arith)

-- Claiming a key, the same one or another, keeps it.
pub begin-Settled :
    (s o k : String) (row : KeyRow) (keys : List KeyRow) (s' o' k' h : String)
    (legacy : Option LegacyChecker) (e : ℕ) (keys' : List KeyRow)
    → begin_with_compat keys s' o' k' h legacy e ≡ ok (begun keys')
    → Settled s o k row keys
    → Settled s o k row keys'
unfolding begin_with_compat
begin-Settled s o k row keys s' o' k' h legacy e keys' q (found, done) =
    elim (Option-cases (find_key s' o' k' keys)) [
      | inl n ↦
          let added : ok (begun (keys ++ new_row s' o' k' h e ∷ [])) ≡ ok (begun keys') =
            (rw (n, begin_with_compat) at q) in
          let same : keys ++ new_row s' o' k' h e ∷ [] ≡ keys' = cc in
          (rw (← same) (find_key-append s o k row keys (new_row s' o' k' h e ∷ []) found), done)
      | inr (other, there) ↦
          let go : (hash_match legacy other h >>= λ t. matched t (resume keys s' o' k' other))
              ≡ ok (begun keys') =
            (rw (there, begin_with_compat) at q) in
          let (t, _, go') = >>=-eq-ok (hash_match legacy other h) _ go in
          let same =
            resume-begun s' o' k' other keys keys'
              (matched-begun t (resume keys s' o' k' other) keys' go') in
          (
            rw (← same) (
                find_key-update s o k row (reclaims s' o' k') reclaim
                  (completed_stays s' o' k' row done).0 (λ r. refl) keys found),
            done,
          )
    ]

-- Completing a claimed key keeps a completed one.
pub complete-Settled :
    (s o k : String) (row : KeyRow) (keys : List KeyRow) (s' o' k' : String) (answer : Answer)
    (keys' : List KeyRow)
    → complete keys s' o' k' answer ≡ ok keys'
    → Settled s o k row keys
    → Settled s o k row keys'
unfolding complete
complete-Settled s o k row keys s' o' k' answer keys' q (found, done) =
    let same : update_keys (completes s' o' k') (finish answer) keys ≡ keys' = ground arith in
    (
      rw (← same) (
          find_key-update s o k row (completes s' o' k') (finish answer)
            (completed_stays s' o' k' row done).1 (λ r. refl) keys found),
      done,
    )

hash_match_self :
    (legacy : Option LegacyChecker) (row : KeyRow)
    → hash_match legacy row row.payload_hash ≡ ok true
hash_match_self none row = rw (eq_refl row.payload_hash) refl
hash_match_self (some legacy) row = rw (eq_refl row.payload_hash) refl

pub resume-completed :
    (s o k : String) (row : KeyRow) (keys : List KeyRow)
    → row.state ≡ completed
    → resume keys s o k row ≡ ok (replayed row.result)
unfolding resume
resume-completed s o k row keys done = rw done refl

-- A completed row is what its key and hash give back.
pub Settled-begin :
    (s o k : String) (row : KeyRow) (keys : List KeyRow) (legacy : Option LegacyChecker) (e : ℕ)
    → Settled s o k row keys
    → begin_with_compat keys s o k row.payload_hash legacy e ≡ ok (replayed row.result)
unfolding begin_with_compat
Settled-begin s o k row keys legacy e (found, done) =
    rw (found, begin_with_compat)
      (rw (hash_match_self legacy row) (resume-completed s o k row keys done))
