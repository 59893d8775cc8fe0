-- ===== src/Lib.antt =====
-- Verification of the backend of sthira, a service that guides people to shelters and books
-- temporary stays there, online and offline. The models are translations of Go code of
-- backend/internal; each file names the file that it is about.
--
-- The parts, and how they stand together in the program:
-- * Stay, of backend/internal/store/stay.go with InTx and execConditional of
--   backend/internal/store/store.go: the stays, and for each facility and date how many places
--   are held and occupied. Stay/Model has the tables, Stay/Inventory and Stay/Rows the statements
--   on them, Stay/Ops and Stay/Changes the operations of StayStore. The HTTP handlers call these
--   operations, each in a transaction, and so does the expiry worker of
--   backend/internal/store/expiry.go, whose tick is in Stay/Expiry.
-- * Audit, of backend/internal/store/audit.go: the hash chain of the audit log, to which every
--   operation on a stay appends in its transaction. Audit/Chain and Audit/Tampering are about what
--   its verification shows.
-- * Booking, of backend/internal/httpserver/stay_handlers.go and of
--   backend/internal/store/idempotency.go (Booking/Keys) and the revalidation in
--   backend/internal/store/stay.go (Booking/Authority, on the rows of Booking/Tables): the two
--   handlers that write, handleCreateReservation (Booking/Handlers, with Booking/Requests) and
--   handleStayEvent (Booking/Events). They put the other parts together: in one transaction a
--   handler claims the idempotency key, revalidates the context, calls Stay with the audit chain
--   as its sink, and completes the key. Booking/Outcomes takes a transaction apart, Booking/Replay
--   and Booking/Settled are about the keys, Booking/Fit is about the revalidation, and
--   Booking/History, Booking/Once, Booking/Accounts and Booking/Commitments are about sequences of
--   calls.
-- * Queue, of backend/internal/offlinequeue/queue.go (Queue/Operation),
--   backend/internal/offlinequeue/store.go (Queue/Store) and backend/internal/offlinequeue/worker.go
--   (Queue/Worker, with the classes of codes in Codes, the check of an answer in Envelope and
--   DrainQueue in Drain): the operations that a client confirmed offline, and their submission to
--   those handlers.
-- * Delivery/Tracker, of backend/internal/offlinedelivery/monotonic.go: the accepted revision of
--   the offline manifest of each jurisdiction, with its revoked packages and cancelled routes.
-- * OfflinePkg, of backend/internal/offlinepkg: the signed manifest of a region (types.go), its
--   validation in Structure (validate.go, parse.go), the trust store and the verification in Trust
--   (trust.go, canonical.go, validate.go) and the checks of revocations in Revocation (validate.go).
--   Signed and Revoked are about the trust store.
-- * Publication, of backend/internal/store/publication.go and
--   backend/internal/store/publisher.go: the tables of published manifests (Manifests), cards
--   (Cards) and resources (Resources), on the authority tables of Booking/Tables (Authorities),
--   and the trusted publication of manifests (Publisher) and cards (CardPublisher). The
--   publisher verifies a manifest with OfflinePkg and stores it staged, and a promotion makes
--   it current. Promotion and CardAuthority take a promotion apart; History, Immutable, Trusted
--   and Withdrawn are about sequences of operations, Delivered and Effective about what is
--   delivered.
-- * Serving, of backend/internal/offlinedelivery/cache.go: the memory cache in front of the
--   publications. Shelves, Eviction and Bounded are about its accounts, History, Clogged and Served
--   about sequences of calls.
-- * Correlation, of backend/internal/orchestration/correlation.go: which worker response a request
--   still waits for.
-- * SourceAct, of backend/internal/sourceact/activation.go: which government source may drive
--   guidance.
-- * CapFeed, of backend/internal/capfeed/lifecycle.go: the alerts that such a source publishes,
--   with their updates, cancellations and expiry.
-- * Circuit, of backend/internal/orchestration/circuitbreaker.go: the breaker around the calls of
--   the speech workers.
-- * Admission, of backend/internal/orchestration/admission.go: the bounded queue before each stage of
--   the orchestrator, with its waiters and their watchers as interleaved critical sections.
-- * TtsCache, of backend/internal/ttsworker/cache.go: the cache of synthesised audio of one of
--   these workers.
-- Prelude holds what they share: tests on numbers and texts, lists, Go's maps as association
-- lists, signed integers, and Go's pair of a value and an error as one result.
--
-- An operation is a function of the state, the arguments and the clock to the new state or an error.
-- A method that mutates its receiver returns the new value; the receiver is never shared in the code
-- modelled, but through the locks, and where a method takes its lock twice (Execute, Commit) each
-- critical section is a function of its own, so that other callers may run in between. Instants are
-- natural numbers of nanoseconds, dates are days. A statement of SQL is a function on the tables,
-- with the constraints of the schema that the code relies on; a failed transaction is rolled back.
-- Go's int is unbounded here: the counts are of people, places, revisions and calls; the breaker's
-- uint64 counter and a correlation's generation wrap. The loops are structural recursions on the list
-- that they read; the worker's retry loop counts its attempts down from the configured number, and the
-- eviction of Serving has a round for each candidate, which Serving/Bounded shows to be enough. A
-- promotion reads its row before and under its lock, and takes both tables as arguments.
--
-- Parameters stand for what is not code of the repository: strings.TrimSpace, strings.Split,
-- sort.Strings, json.Valid, json.Marshal, filepath.Join, what raw JSON reads back as after
-- json.MarshalIndent, which files os.ReadDir lists, sha256, the order in which the database selects the
-- due holds, the audit sink that a stay store is given, what a timestamptz column gives back for
-- an instant, time.Format and time.Parse, strings.ToUpper and ToLower, fmt.Sprintf, base64 and
-- ed25519, the length of a text in bytes, the decoding and the writing of JSON, and for each
-- attempt of the worker what the dispatch, the clock, the token provider and the context give.
-- Of sha256 it is assumed that its hex has 64 digits, and of json.MarshalIndent that it reformats only
-- once, where a theorem says so, and of the rest nothing. A duration of the worker stays below 2^62 nanoseconds, and a stay's days and a hold's
-- seconds within Go's durations. Parsing an RFC 3339 time is an option, `none` where it fails.
-- Maps are read in the order of their association list, where the result does not depend on the
-- order.
--
-- Not modelled: the decoding of requests, the handlers that only read, sessions and operators, the
-- search for duplicate keys in an answer's JSON, the speech and translation workers, the orchestrator,
-- the structure of cards, byte ranges, the coalescing of fetches, the
-- offline client, the other tables of the store, XML parsing,
-- commands, drills and evaluation, and all that is not Go.
pub mod Prelude
pub mod Circuit
pub mod Stay
pub mod Delivery
pub mod SourceAct
pub mod OfflinePkg
pub mod Publication
pub mod Serving
pub mod Correlation
pub mod Queue
pub mod TtsCache
pub mod CapFeed
pub mod Admission
pub mod Audit
pub mod Booking
