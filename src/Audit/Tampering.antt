-- ===== src/Audit/Tampering.antt =====
-- Two audit logs with one head hash, in backend/internal/store/audit.go.
use sthira.Prelude.{
  ◌≡◌, ◌≢◌, ◌⊎◌, inl, inr, refl, sym, ◌∙◌, String, true, List, [], ◌∷◌, arith, str_eq, eq_iff,
  Bool-cases, length, map,
}
use Prim.Native.String.{count}
use text.Mathlib.TextLemmas.{append_inj}
use sthira.Stay.Model.{AuditEvent, AuditRow}
use sthira.Audit.{Library, genesis_hash, canonical, verify_from, verify_chain}
use sthira.Audit.Chain.{last_hash, verified}

-- The rows that stand at one position of two logs.
pub data Paired (x y : AuditRow) : List AuditRow → List AuditRow → Type 0 where
  here : {xs ys : List AuditRow} → Paired x y (x ∷ xs) (y ∷ ys)
  there : {a b : AuditRow} {xs ys : List AuditRow} → Paired x y xs ys → Paired x y (a ∷ xs) (b ∷ ys)

-- What was hashed for a row.
abbrev pub hashed_text : Library → AuditRow → String
hashed_text lib r = canonical lib r.prev_hash r.event

-- At one position of the two logs stand rows of different texts, whose hashes are those of the texts,
-- and are the same.
pub record Collision (lib : Library) (xs ys : List AuditRow) : Type 0 where
  pub x : AuditRow
  pub y : AuditRow
  pub paired : Paired x y xs ys
  pub apart : hashed_text lib x ≢ hashed_text lib y
  pub x_hash : lib.sha256_hex (hashed_text lib x) ≡ x.event_hash
  pub y_hash : lib.sha256_hex (hashed_text lib y) ≡ y.event_hash
  pub same_hash : x.event_hash ≡ y.event_hash

deeper :
    (lib : Library) (a b : AuditRow) (xs ys : List AuditRow)
    → Collision lib xs ys
    → Collision lib (a ∷ xs) (b ∷ ys)
deeper lib a b xs ys c = record {
  x = c.x;
  y = c.y;
  paired = there c.paired;
  apart = c.apart;
  x_hash = c.x_hash;
  y_hash = c.y_hash;
  same_hash = c.same_hash;
}

apart_or_equal : (s t : String) → (s ≡ t) ⊎ (s ≢ t)
apart_or_equal s t = elim (Bool-cases (str_eq s t)) [
  | inl e ↦ inl (ground (arith, eq_iff s t))
  | inr e ↦ inr (λ q. ground (arith, eq_iff s t))
]

module _ (lib : Library) (hashes : (s : String) → count (lib.sha256_hex s) ≡ 64) where
  -- The text hashed begins with the hash of the row before.
  canonical_prev :
      (p q : String) (a b : AuditEvent)
      → count p ≡ count q
      → canonical lib p a ≡ canonical lib q b
      → p ≡ q
  unfolding canonical
  canonical_prev p q a b n h = (append_inj h n).0

  last_row_agrees :
      (p q : String) (xs ys : List AuditRow)
      → p ≢ q
      → count p ≡ count q
      → verify_from lib p xs ≡ true
      → verify_from lib q ys ≡ true
      → length xs ≡ length ys
      → last_hash lib p xs ≡ last_hash lib q ys
      → Collision lib xs ys
  last_row_agrees p q [] [] n c v w l h = absurd (n h)
  last_row_agrees p q [] (y ∷ ys) n c v w l h = absurd (omega arith)
  last_row_agrees p q (x ∷ xs) [] n c v w l h = absurd (omega arith)
  last_row_agrees p q (x ∷ xs) (y ∷ ys) n c v w l h =
      let (xp, xh, xv) = verified lib p x xs v in
      let (yp, yh, yv) = verified lib q y ys w in
      elim (apart_or_equal x.event_hash y.event_hash) [
        | inl e ↦ record {
          x = x;
          y = y;
          paired = here;
          apart = λ t. n (
              sym xp
              ∙ canonical_prev x.prev_hash y.prev_hash x.event y.event (rw (xp, yp) c) t
              ∙ yp);
          x_hash = xh;
          y_hash = yh;
          same_hash = e;
        }
        | inr m ↦ deeper lib x y xs ys (
            last_row_agrees x.event_hash y.event_hash xs ys m
              (rw (← xh, ← yh) (hashes (hashed_text lib x) ∙ sym (hashes (hashed_text lib y)))) xv
              yv (omega arith) h)
      ]

  texts_agree :
      (p : String) (xs ys : List AuditRow)
      → verify_from lib p xs ≡ true
      → verify_from lib p ys ≡ true
      → length xs ≡ length ys
      → last_hash lib p xs ≡ last_hash lib p ys
      → (map (hashed_text lib) xs ≡ map (hashed_text lib) ys) ⊎ Collision lib xs ys
  texts_agree p [] [] v w l h = inl refl
  texts_agree p [] (y ∷ ys) v w l h = absurd (omega arith)
  texts_agree p (x ∷ xs) [] v w l h = absurd (omega arith)
  texts_agree p (x ∷ xs) (y ∷ ys) v w l h =
      let (xp, xh, xv) = verified lib p x xs v in
      let (yp, yh, yv) = verified lib p y ys w in
      elim (apart_or_equal x.event_hash y.event_hash) [
        | inl e ↦ elim (apart_or_equal (hashed_text lib x) (hashed_text lib y)) [
          | inl t ↦
              elim (texts_agree x.event_hash xs ys xv (rw e yv) (omega arith) (h ∙ rw e refl)) [
                | inl ts ↦ inl (rw (t, ts) refl)
                | inr k ↦ inr (deeper lib x y xs ys k)
              ]
          | inr n ↦ inr (record {
            x = x;
            y = y;
            paired = here;
            apart = n;
            x_hash = xh;
            y_hash = yh;
            same_hash = e;
          })
        ]
        | inr m ↦ inr (
            deeper lib x y xs ys (
              last_row_agrees x.event_hash y.event_hash xs ys m
                (rw (← xh, ← yh) (hashes (hashed_text lib x) ∙ sym (hashes (hashed_text lib y)))) xv
                yv (omega arith) h))
      ]

  -- With a hash of 64 digits, two logs of one length that verify and end in one hash were hashed from the
  -- same texts, row by row, or have at some position two rows of different texts whose hashes, which
  -- are those of the texts, are the same.
  pub tamper_evident :
      (xs ys : List AuditRow)
      → verify_chain lib xs ≡ true
      → verify_chain lib ys ≡ true
      → length xs ≡ length ys
      → last_hash lib genesis_hash xs ≡ last_hash lib genesis_hash ys
      → (map (hashed_text lib) xs ≡ map (hashed_text lib) ys) ⊎ Collision lib xs ys
  unfolding verify_chain
  tamper_evident xs ys v w l h = texts_agree genesis_hash xs ys v w l h
