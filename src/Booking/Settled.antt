-- ===== src/Booking/Settled.antt =====
-- Tables of idempotency keys of backend/internal/store/idempotency.go that are all completed.
use sthira.Prelude.{
  ℕ, ◌≡◌, ◌∙◌, sym, ap, inl, inr, refl, String, true, Option, none, some, List, [], ◌∷◌, ◌++◌,
  arith, ltb, All, eq_refl, Bool-cases, Option-cases,
}
use sthira.Prelude.Result.{ok, ◌>>=◌, >>=-eq-ok}
use sthira.Booking.Keys.{
  KeyRow, completed, Answer, Begun, begun, replayed, LegacyChecker, has_key, find_key, update_keys,
  sweep, hash_match, matched, resume, finish, new_row, BookingResult, begin_with_compat, complete,
  completes,
}
use sthira.Booking.Replay.{Settled, matched-begun, resume-completed, completed_stays}

abbrev pub IsCompleted : KeyRow → Type 0
IsCompleted r = r.state ≡ completed

module _ (s o k : String) (set : KeyRow → KeyRow) where
  update-settled :
      (keys rest : List KeyRow)
      → All IsCompleted keys
      → update_keys (completes s o k) set (keys ++ rest)
        ≡ keys ++ update_keys (completes s o k) set rest
  unfolding update_keys
  update-settled [] rest a = refl
  update-settled (r ∷ rs) rest (done, a) =
      rw ((completed_stays s o k r done).1, update-settled rs rest a) refl

found-settled :
    (s o k : String) (row : KeyRow) (keys : List KeyRow)
    → All IsCompleted keys
    → find_key s o k keys ≡ some row
    → IsCompleted row
unfolding find_key
found-settled s o k row [] a h = cc
found-settled s o k row (r ∷ rs) (done, a) h = ground (arith, found-settled s o k row rs a)

settled_begun :
    (s o k : String) (keys : List KeyRow) (h : String) (legacy : Option LegacyChecker) (e : ℕ)
    (keys1 : List KeyRow)
    → All IsCompleted keys
    → begin_with_compat keys s o k h legacy e ≡ ok (begun keys1)
    → (find_key s o k keys ≡ none) × (keys ++ new_row s o k h e ∷ [] ≡ keys1)
unfolding begin_with_compat
settled_begun s o k keys h legacy e keys1 a b = elim (Option-cases (find_key s o k keys)) [
  | inl n ↦
      let added : ok (begun (keys ++ new_row s o k h e ∷ [])) ≡ ok (begun keys1) =
        (rw (n, begin_with_compat) at b) in
      (n, cc)
  | inr (row, there) ↦
      let go : (hash_match legacy row h >>= λ t. matched t (resume keys s o k row))
          ≡ ok (begun keys1) =
        (rw (there, begin_with_compat) at b) in
      let (t, _, go') = >>=-eq-ok (hash_match legacy row h) _ go in
      let over = resume-completed s o k row keys (found-settled s o k row keys a there) in
      let no = matched-begun t (resume keys s o k row) keys1 go' in
      absurd (replayed-begun row.result keys1 (sym over ∙ no))
]
  where
    replayed-begun :
        (result : Option Answer) (ks : List KeyRow)
        → ◌≡◌ {A = BookingResult Begun} (ok (replayed result)) (ok (begun ks))
        → ⊥
    replayed-begun result ks q = cc

has_key_self : (s o k h : String) (e : ℕ) → has_key s o k (new_row s o k h e) ≡ true
has_key_self s o k h e = rw (eq_refl s, eq_refl o, eq_refl k) refl

finished_new :
    (s o k h : String) (e : ℕ) (answer : Answer)
    → update_keys (completes s o k) (finish answer) (new_row s o k h e ∷ [])
      ≡ finish answer (new_row s o k h e) ∷ []
unfolding update_keys
finished_new s o k h e answer = rw (eq_refl s, eq_refl o, eq_refl k) refl

find_key-last :
    (s o k : String) (row : KeyRow) (keys : List KeyRow)
    → find_key s o k keys ≡ none
    → has_key s o k row ≡ true
    → find_key s o k (keys ++ row ∷ []) ≡ some row
unfolding find_key
find_key-last s o k row [] n h = rw h refl
find_key-last s o k row (r ∷ rs) n h = ground (arith, find_key-last s o k row rs)

-- In a table of completed rows, what claims a key and completes it adds one completed row.
pub begin-complete :
    (s o k : String) (keys : List KeyRow) (h : String) (legacy : Option LegacyChecker) (e : ℕ)
    (keys1 keys2 : List KeyRow) (answer : Answer)
    → All IsCompleted keys
    → begin_with_compat keys s o k h legacy e ≡ ok (begun keys1)
    → complete keys1 s o k answer ≡ ok keys2
    → (keys ++ finish answer (new_row s o k h e) ∷ [] ≡ keys2)
      × Settled s o k (finish answer (new_row s o k h e)) keys2
unfolding complete
begin-complete s o k keys h legacy e keys1 keys2 answer a b c =
    let (n, added) = settled_begun s o k keys h legacy e keys1 a b in
    let done : update_keys (completes s o k) (finish answer) keys1 ≡ keys2 = ground arith in
    let last : keys ++ finish answer (new_row s o k h e) ∷ [] ≡ keys2 =
      sym (
        update-settled s o k (finish answer) keys (new_row s o k h e ∷ []) a
        ∙ ap (λ t. keys ++ t) (finished_new s o k h e answer))
      ∙ (rw (sym added) at done) in
    (
      last,
      (
        rw (← last) (
            find_key-last s o k (finish answer (new_row s o k h e)) keys n
              (has_key_self s o k h e)),
        refl,
      ),
    )

pub All-append :
    (keys : List KeyRow) (row : KeyRow)
    → All IsCompleted keys
    → IsCompleted row
    → All IsCompleted (keys ++ row ∷ [])
All-append [] row a d = (d, tt)
All-append (r ∷ rs) row (d', a) d = (d', All-append rs row a d)

pub sweep-All :
    (now : ℕ) (keys : List KeyRow) → All IsCompleted keys → All IsCompleted (sweep now keys)
unfolding sweep
sweep-All now [] a = tt
sweep-All now (r ∷ rs) (d, a) = elim (Bool-cases (ltb r.expires_at now)) [
  | inl e ↦ rw e (sweep-All now rs a)
  | inr e ↦ rw e (d, sweep-All now rs a)
]
