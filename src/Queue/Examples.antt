-- ===== src/Queue/Examples.antt =====
-- The theorems on the offline queue at a concrete operation. The library's functions are stood for by
-- simple ones: nothing to trim, every text valid JSON, and the hash is the text itself.
use Prim.Native.String.{◌++◌ as append_str}
use sthira.Prelude.Int.{pos}
use sthira.Queue.Worker.{Exchange, response, World, with_defaults, submit}
use sthira.Queue.Worker.Envelope as Envelope
use sthira.Queue.Worker.Settled.{Kept, submit-Tells, submit-Kept, submit_finishes}
use sthira.Queue.Worker.Runs.{Tells}
use sthira.Queue.Worker.Finishes.{Done}
use sthira.Prelude.{
  ℕ, zero, suc, String, Bool, not, ◌||◌, Bool-cases, inl, inr, false, ap, sym, lookup, ◌≤◌, ◌≡◌,
  refl, true, none, some, [], ◌∷◌, str_eq, if◌then◌else◌, sum,
}
use sthira.Prelude.Result.{ok}
use sthira.Queue.Operation.{pending, in_flight, committed, PendingOperation, Library}
use sthira.Queue.Store.{Store, read_file, read_all, read_one}
use sthira.Queue.Store.LiveKeys.{open_with}
use sthira.Queue.Store.History.{fresh, enqueue_it, run, one_open_per_key}

-- Two texts of the JSON object without members.
abbrev tabbed : String → String
tabbed s = if str_eq s "{}" then "{ }" else s

tabbed_settled : (s : String) → tabbed (tabbed s) ≡ tabbed s
tabbed_settled s = elim (Bool-cases (str_eq s "{}")) [ inl e ↦ rw e refl | inr e ↦ rw (e, e) refl ]

abbrev plain : Library
plain = record {
  trim_space = λ s. s;
  json_valid = λ s. true;
  sha256_hex = λ s. s;
  reformat = tabbed;
}

abbrev reservation : PendingOperation
reservation = record {
  id = "op1";
  created_at = none;
  idempotency_key = "k1";
  endpoint = "/v1/reservations";
  method = "POST";
  token_ref = "t1";
  payload = "{}";
  payload_hash = "";
  snapshot_version = 3;
  selection_expiry = some 100;
  state = pending;
  retry_count = 0;
  last_error = "";
  last_status_code = 0;
  committed_at = none;
  server_result = "";
}

abbrev sent : PendingOperation
sent = record reservation { state = in_flight }

abbrev done : PendingOperation
done = record sent {
  state = committed;
  committed_at = some 9;
  last_status_code = 201;
  server_result = "{}";
}

abbrev queued : PendingOperation
queued = record reservation { created_at = some 6; payload = "{ }"; payload_hash = "k1\n{}" }

-- The directory `q`, and the ids that lead to its files: `./op1` and `op1` to the same one, and
-- `../op1` out of it.
abbrev joined : String → String
joined id =
    if str_eq id "op1" || str_eq id "./op1"
    then "q/op1.json"
    else if str_eq id "../op1"
    then "op1.json"
    else append_str "q/" (append_str id ".json")

abbrev in_queue : String → Bool
in_queue path = not (str_eq path "op1.json")

abbrev empty_store : Store
empty_store = fresh joined in_queue []

abbrev directory : Store
directory = record empty_store { files = ("q/op1.json", queued) ∷ [] }

one_open_per_key_example :
    sum (open_with "k1") (
      read_all (
        run plain
          (enqueue_it reservation 5 6
            ∷ enqueue_it (record reservation { id = "op2" }) 5 6
            ∷ enqueue_it (record reservation { id = "../op1" }) 5 6
            ∷ [])
          empty_store))
    ≤ 1
one_open_per_key_example =
    one_open_per_key plain joined in_queue []
      (enqueue_it reservation 5 6
        ∷ enqueue_it (record reservation { id = "op2" }) 5 6
        ∷ enqueue_it (record reservation { id = "../op1" }) 5 6
        ∷ [])
      "k1"

-- A worker whose dispatches are answered with a busy server and then with a created reservation.
abbrev codec : Envelope.Library
codec = record {
  sprintf = λ f args. f;
  duplicate_keys = λ s. none;
  success_envelope = λ s. ok (record {
    error_codes = [];
    content = Envelope.object (("reservation_id", "r1") ∷ ("stay_id", "s1") ∷ []);
  });
  error_envelope = λ s. some ("INTERNAL" ∷ []);
  submitted = λ s. none;
  path_parts = λ s. [];
  to_upper = λ s. s;
  equal_fold = str_eq;
}

abbrev exchange_at : ℕ → Exchange
exchange_at zero = response 500 "{}"
exchange_at (suc n) = response 201 "{}"

abbrev world : World
world = record {
  cancelled = λ n. false;
  interrupted = λ n. false;
  exchange = exchange_at;
  token = some "secret";
  now = 7;
  later = 8;
}

directory_named : (op : PendingOperation) → read_one directory "op1" ≡ ok op → op.id ≡ "op1"
unfolding read_one read_file lookup
directory_named op h = let q : queued ≡ op = cc in ap (λ x. x.id) (sym q)

submit-Tells_example :
    Tells "op1" (submit plain codec world (with_defaults (pos 3) (pos 1) (pos 4)) directory "op1")
submit-Tells_example =
    submit-Tells plain codec world (pos 3) (pos 1) (pos 4) directory "op1" directory_named

submit-Kept_example :
    Kept plain "op1" directory
      (submit plain codec world (with_defaults (pos 3) (pos 1) (pos 4)) directory "op1").0
submit-Kept_example =
    submit-Kept plain codec world (pos 3) (pos 1) (pos 4) directory "op1" tabbed_settled
      directory_named

submit_finishes_example :
    Done (submit plain codec world (with_defaults (pos 3) (pos 1) (pos 4)) directory "op1")
unfolding read_one read_file lookup
submit_finishes_example =
    submit_finishes plain codec world (pos 3) (pos 1) (pos 4) directory "op1" queued "secret" refl
      refl refl refl (λ n. refl) (λ n. refl) refl
