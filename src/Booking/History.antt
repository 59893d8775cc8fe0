-- ===== src/Booking/History.antt =====
-- Histories of the server of backend/internal/httpserver/stay_handlers.go: the two writing handlers, the
-- removal of expired keys, the expiry of a hold, and a change of the tables of the authorities.
use sthira.Prelude.{
  ℕ, ◌+◌, ◌≤◌, ◌≡◌, sym, refl, String, Bool, Option, none, some, List, [], ◌∷◌, All, subst,
}
use sthira.Prelude.Result.{ok}
use sthira.Stay.Ops.{expire}
use sthira.Stay.Changes.{in_tx}
use sthira.Booking.Keys.{
  KeyRow, begun, Answer, LegacyChecker, sweep, complete, begin_with_compat, finish, new_row,
}
use sthira.Booking.Tables.{Authority}
use sthira.Booking.Handlers.{
  sink, handle_create_reservation, legacy_check, reservation_payload_hash, event_payload_hash,
  created_answer,
}
use sthira.Booking.Requests.{CreateRequest, EventRequest, Library, Server, Reply}
use sthira.Booking.Events.{event_operation, handle_stay_event}
use sthira.Booking.Outcomes.{
  CreateOutcome, idle_create, made, create-CreateOutcome, EventOutcome, idle_event, applied,
  event-EventOutcome,
}
use sthira.Booking.Replay.{Settled, begin-Settled, complete-Settled, find_key-sweep}
use sthira.Booking.Settled.{IsCompleted, begin-complete, All-append, sweep-All}

pub data Call : Type 0 where
  creates : String → CreateRequest → String → String → ℕ → Call
  event : String → String → EventRequest → String → String → ℕ → Call
  sweeps : ℕ → Call
  expires : String → ℕ → String → Call
  publishes : Authority → Call

-- A sweep that is due no later than `t`; the other calls come at any time.
abbrev pub SweptBy : ℕ → Call → Type 0
SweptBy t (sweeps now) = now ≤ t
SweptBy t _ = Unit

module _ (lib : Library) (synthetic : Bool) where
  unfoldable pub step : Server → Call → Server
  step server (creates session req stay_id res_id now) =
      (handle_create_reservation lib synthetic server session req stay_id res_id now).0
  step server (event session stay_id req new_stay_id new_res_id now) =
      (handle_stay_event lib synthetic server stay_id req now session new_stay_id new_res_id).0
  step server (sweeps now) = record server { keys = sweep now server.keys }
  step server (expires stay_id now key) = record server {
    db = (in_tx server.db (expire (sink lib) server.db stay_id now key)).0;
  }
  step server (publishes authority) = record server { authority = authority }

  unfoldable pub run : Server → List Call → Server
  unfolding step
  run server [] = server
  run server (c ∷ cs) = run (step server c) cs

  Settled-claimed :
      (s o k : String) (row : KeyRow) (server server' : Server) (s' o' k' h : String)
      (legacy : Option LegacyChecker) (e : ℕ) (keys : List KeyRow) (answer : Answer)
      → begin_with_compat server.keys s' o' k' h legacy e ≡ ok (begun keys)
      → complete keys s' o' k' answer ≡ ok server'.keys
      → Settled s o k row server.keys
      → Settled s o k row server'.keys
  Settled-claimed s o k row server server' s' o' k' h legacy e keys answer b c settled =
      complete-Settled s o k row keys s' o' k' answer server'.keys c
        (begin-Settled s o k row server.keys s' o' k' h legacy e keys b settled)

  module _ (s o k : String) (row : KeyRow) where
    Settled-create :
        (server : Server) (session : String) (req : CreateRequest) (stay_id res_id : String)
        (now : ℕ) (out : Server × Reply)
        → CreateOutcome lib synthetic server session req stay_id res_id now out
        → Settled s o k row server.keys
        → Settled s o k row out.0.keys
    Settled-create server session req stay_id res_id now out (idle_create p q) settled =
        subst (λ (x : Server). Settled s o k row x.keys) (sym p) settled
    Settled-create server session req stay_id res_id now out (made start stop keys a b v p made_)
          settled =
        Settled-claimed s o k row server out.0 session "reservation.create" req.idem_key
          (reservation_payload_hash lib session req) (some (legacy_check lib server session req))
          (now + 3600000000000) keys (created_answer lib res_id stay_id) p made_.keys_done settled

    Settled-event :
        (server : Server) (session stay_id : String) (req : EventRequest)
        (new_stay_id new_res_id : String) (now : ℕ) (out : Server × Reply)
        → EventOutcome lib synthetic server stay_id req now session new_stay_id new_res_id out
        → Settled s o k row server.keys
        → Settled s o k row out.0.keys
    Settled-event server session stay_id req new_stay_id new_res_id now out (idle_event p) settled =
        subst (λ (x : Server). Settled s o k row x.keys) (sym p) settled
    Settled-event server session stay_id req new_stay_id new_res_id now out
          (applied st answer keys p owner d c r) settled =
        Settled-claimed s o k row server out.0 session (event_operation lib req) req.idem_key
          (event_payload_hash lib session stay_id req) none (now + 3600000000000) keys answer p c
          settled

    step-Settled :
        (server : Server) (c : Call)
        → SweptBy row.expires_at c
        → Settled s o k row server.keys
        → Settled s o k row (step server c).keys
    unfolding step
    step-Settled server (creates session req stay_id res_id now) w settled =
        Settled-create server session req stay_id res_id now _
          (create-CreateOutcome lib synthetic server session req stay_id res_id now) settled
    step-Settled server (event session stay_id req new_stay_id new_res_id now) w settled =
        Settled-event server session stay_id req new_stay_id new_res_id now _
          (event-EventOutcome lib synthetic server stay_id req now session new_stay_id new_res_id)
          settled
    step-Settled server (sweeps now) w (found, done) =
        (find_key-sweep s o k row now server.keys w found, done)
    step-Settled server (expires stay_id now key) w settled = settled
    step-Settled server (publishes authority) w settled = settled

    pub run-Settled :
        (server : Server) (cs : List Call)
        → All (SweptBy row.expires_at) cs
        → Settled s o k row server.keys
        → Settled s o k row (run server cs).keys
    unfolding run
    run-Settled server [] w settled = settled
    run-Settled server (c ∷ cs) (w, ws) settled =
        run-Settled (step server c) cs ws (step-Settled server c w settled)

  IsCompleted-after :
      (server server' : Server) (s o k h : String) (legacy : Option LegacyChecker) (e : ℕ)
      (keys : List KeyRow) (answer : Answer)
      → begin_with_compat server.keys s o k h legacy e ≡ ok (begun keys)
      → complete keys s o k answer ≡ ok server'.keys
      → All IsCompleted server.keys
      → All IsCompleted server'.keys
  IsCompleted-after server server' s o k h legacy e keys answer b c a =
      let (last, _) = begin-complete s o k server.keys h legacy e keys server'.keys answer a b c in
      subst (All IsCompleted) last
        (All-append server.keys (finish answer (new_row s o k h e)) a refl)

  IsCompleted-create :
      (server : Server) (session : String) (req : CreateRequest) (stay_id res_id : String) (now : ℕ)
      (out : Server × Reply)
      → CreateOutcome lib synthetic server session req stay_id res_id now out
      → All IsCompleted server.keys
      → All IsCompleted out.0.keys
  IsCompleted-create server session req stay_id res_id now out (idle_create p q) a =
      subst (λ (x : Server). All IsCompleted x.keys) (sym p) a
  IsCompleted-create server session req stay_id res_id now out (made start stop keys d b v p made_)
        a =
      IsCompleted-after server out.0 session "reservation.create" req.idem_key
        (reservation_payload_hash lib session req) (some (legacy_check lib server session req))
        (now + 3600000000000) keys (created_answer lib res_id stay_id) p made_.keys_done a

  IsCompleted-event :
      (server : Server) (session stay_id : String) (req : EventRequest)
      (new_stay_id new_res_id : String) (now : ℕ) (out : Server × Reply)
      → EventOutcome lib synthetic server stay_id req now session new_stay_id new_res_id out
      → All IsCompleted server.keys
      → All IsCompleted out.0.keys
  IsCompleted-event server session stay_id req new_stay_id new_res_id now out (idle_event p) a =
      subst (λ (x : Server). All IsCompleted x.keys) (sym p) a
  IsCompleted-event server session stay_id req new_stay_id new_res_id now out
        (applied st answer keys p owner d c r) a =
      IsCompleted-after server out.0 session (event_operation lib req) req.idem_key
        (event_payload_hash lib session stay_id req) none (now + 3600000000000) keys answer p c a

  step-IsCompleted :
      (server : Server) (c : Call)
      → All IsCompleted server.keys
      → All IsCompleted (step server c).keys
  unfolding step
  step-IsCompleted server (creates session req stay_id res_id now) a =
      IsCompleted-create server session req stay_id res_id now _
        (create-CreateOutcome lib synthetic server session req stay_id res_id now) a
  step-IsCompleted server (event session stay_id req new_stay_id new_res_id now) a =
      IsCompleted-event server session stay_id req new_stay_id new_res_id now _
        (event-EventOutcome lib synthetic server stay_id req now session new_stay_id new_res_id) a
  step-IsCompleted server (sweeps now) a = sweep-All now server.keys a
  step-IsCompleted server (expires stay_id now key) a = a
  step-IsCompleted server (publishes authority) a = a

  -- Over any calls a table of idempotency keys that are all completed stays so: between transactions no
  -- key is in progress or failed.
  pub run-IsCompleted :
      (server : Server) (cs : List Call)
      → All IsCompleted server.keys
      → All IsCompleted (run server cs).keys
  unfolding run
  run-IsCompleted server [] a = a
  run-IsCompleted server (c ∷ cs) a =
      run-IsCompleted (step server c) cs (step-IsCompleted server c a)
