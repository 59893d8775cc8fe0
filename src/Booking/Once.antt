-- ===== src/Booking/Once.antt =====
-- A reservation request of backend/internal/httpserver/stay_handlers.go that is sent again.
use sthira.Prelude.{ℕ, ◌+◌, ◌≡◌, refl, String, Bool, true, some, List, All, subst}
use sthira.Booking.Keys.{KeyRow, Answer, finish, new_row}
use sthira.Booking.Handlers.{
  valid_create, handle_create_reservation, legacy_check, reservation_payload_hash, created_answer,
}
use sthira.Booking.Requests.{CreateRequest, Library, Server, answered}
use sthira.Booking.Replay.{Settled, Settled-begin}
use sthira.Booking.Settled.{IsCompleted, begin-complete}
use sthira.Booking.Outcomes.{CreateOutcome, idle_create, made, create-CreateOutcome}
use sthira.Booking.History.{Call, SweptBy, run, run-Settled}

module _ (lib : Library) (synthetic : Bool) (session : String) (req : CreateRequest) where
  abbrev settled_row : ℕ → Answer → KeyRow
  settled_row now answer = finish answer (
      new_row session "reservation.create" req.idem_key (reservation_payload_hash lib session req)
        (now + 3600000000000))

  -- A request whose key is completed with its own hash is answered from the key.
  replays :
      (server : Server) (start stop : ℕ) (answer : Answer) (t : ℕ) (stay_id res_id : String)
      (now : ℕ)
      → lib.parse_date req.start_date ≡ some start
      → lib.parse_date req.end_date ≡ some stop
      → valid_create lib synthetic req start stop ≡ true
      → Settled session "reservation.create" req.idem_key (settled_row t answer) server.keys
      → handle_create_reservation lib synthetic server session req stay_id res_id now
        ≡ (server, answered 200 answer)
  unfolding handle_create_reservation
  replays server start stop answer t stay_id res_id now a b v settled =
      let e =
        Settled-begin session "reservation.create" req.idem_key (settled_row t answer) server.keys
          (some (legacy_check lib server session req)) (now + 3600000000000) settled in
      rw (a, b, v, e) refl

  once_made :
      (server : Server) (stay_id res_id : String) (now : ℕ) (server' : Server) (answer : Answer)
      (cs : List Call) (stay_id' res_id' : String) (now' : ℕ)
      → All IsCompleted server.keys
      → CreateOutcome lib synthetic server session req stay_id res_id now
          (server', answered 201 answer)
      → All (SweptBy (now + 3600000000000)) cs
      → handle_create_reservation lib synthetic
          (run lib synthetic server' cs)
          session
          req
          stay_id'
          res_id'
          now'
        ≡ (run lib synthetic server' cs, answered 200 answer)
  once_made server stay_id res_id now server' answer cs stay_id' res_id' now' a (idle_create p q)
        w =
      cc
  once_made server stay_id res_id now server' answer cs stay_id' res_id' now' a
        (made start stop keys d e v b c) w =
      let same : created_answer lib res_id stay_id ≡ answer =
        reply_answer (created_answer lib res_id stay_id) (c.reply) in
      let (_, settled) =
        begin-complete session "reservation.create" req.idem_key server.keys
          (reservation_payload_hash lib session req) (some (legacy_check lib server session req))
          (now + 3600000000000) keys server'.keys answer a b (rw same at (c.keys_done)) in
      let row = settled_row now answer in
      replays (run lib synthetic server' cs) start stop answer now stay_id' res_id' now' d e v (
        run-Settled lib synthetic session "reservation.create" req.idem_key row server' cs w
          settled)
    where
      reply_answer : (b : Answer) → answered 201 answer ≡ answered 201 b → b ≡ answer
      reply_answer b h = cc

-- Once a reservation request was answered as created, on a server whose keys are all completed, then
-- after any further calls, whose removals of expired keys come no later than an hour after it, the same
-- request is answered with the same ids and changes nothing, whichever ids and clock it comes with.
pub exactly_once :
    (lib : Library) (synthetic : Bool) (server : Server) (session : String) (req : CreateRequest)
    (stay_id res_id : String) (now : ℕ) (server' : Server) (answer : Answer) (cs : List Call)
    (stay_id' res_id' : String) (now' : ℕ)
    → All IsCompleted server.keys
    → handle_create_reservation lib synthetic server session req stay_id res_id now
      ≡ (server', answered 201 answer)
    → All (SweptBy (now + 3600000000000)) cs
    → handle_create_reservation lib synthetic
        (run lib synthetic server' cs)
        session
        req
        stay_id'
        res_id'
        now'
      ≡ (run lib synthetic server' cs, answered 200 answer)
exactly_once lib synthetic server session req stay_id res_id now server' answer cs stay_id' res_id'
      now' a h w =
    once_made lib synthetic session req server stay_id res_id now server' answer cs stay_id' res_id'
      now' a
      (subst (CreateOutcome lib synthetic server session req stay_id res_id now) h
        (create-CreateOutcome lib synthetic server session req stay_id res_id now))
      w
