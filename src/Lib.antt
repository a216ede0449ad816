-- ===== src/Lib.antt =====
-- demedia-nostr: a relay of the nostr protocol as a hub, to which clients connect by websockets,
-- and peers, each of which keeps the events of its owner. The hub finds the peer of a public key
-- in its registry and calls the peer's bridge service to save, delete and query events.
--
-- Prelude has the helpers: tests, lists and integers on native numbers, texts, association lists
-- for maps (Prelude/Map), the outcome of Go code that may panic or block (Prelude/Go), and
-- hexadecimal digits; Prelude/Matching has tests that the meanings of queries share.
-- Nostr has the types of the package go-nostr; its functions are the fields of a record.
-- Listener is relayer/listener.go. Listener/Defs has setListener, removeListenerId, removeListener,
-- notifyListeners and GetListeningFilters on the nested map of subscriptions; Listener/Orders has
-- the map up to its representation, as a quotient.
-- Logger is the default logger of relayer/start.go.
-- HashUtil is relayer/hashutil/hashutil.go, on a record of the cryptographic functions.
-- Storage is relayer/interface.go.
-- Postgres is relayer/storage/postgresql: Postgres/Table has the statements of save.go and
-- delete.go as functions on rows, with a list of the failures to come; Postgres/Query has query.go,
-- where Query and Rebind of the database are parameters, and Postgres/Query/Conditions its statement
-- as conditions, with what they say of a row by the meaning of SQL; Postgres/Init has init.go;
-- Postgres/Peers has get.go, SavePeer and the ticker of hub/main.go; Postgres/Backend puts them
-- together as a storage.
-- Ql is relayer/ql, and Bridge is peer/bridge/bridge.go. Bridge/Remote puts the two together,
-- and Bridge/Stored these and a Postgres storage.
-- Server is relayer/handlers.go with add-event.go, send-event.go, delete-event.go and
-- fetch-event.go: the code that a goroutine runs for one message of a connection, as a function on
-- the world outside, the listeners, the writes to the connections and the authentications.
-- Server/Dispatch has the switch on the type of the message; Server/Publish, Server/Media and
-- Server/Deletion the case EVENT; Server/Subscribe, Server/Restrict and Server/Verify the case REQ.
-- Server/Clients is the map of clients of start.go and the cleanup of a reader of handlers.go.
-- Server/Session is handleWebsocket of handlers.go: the readers, the writers and the messages of
-- all connections, in any order, as a step relation. Server/Nip11 is handleNIP11. Server/Injecting
-- is NewServer and the goroutine for an Injector of start.go; Server/Switching interrupts the case
-- REQ; Server/Hosted, Server/Answered and Server/Erasing are about a hub whose calls reach a peer.
-- Start is Start, StartConf, startListener and Shutdown of relayer/start.go.
-- Elastic is relayer/storage/elasticsearch: Elastic/Dsl has buildDsl and isGetByID of query.go,
-- where what esquery builds is data; Elastic/Search the rest of query.go; Elastic/Write has SaveEvent
-- and DeleteEvent of elasticsearch.go, Elastic/Init its Init, Elastic/Registry GetPeer and
-- SavePeer; Elastic/Client has what they call, as a record, and how a call ends. Elastic/Meaning has
-- the documented meaning of queries, as hypotheses on a function from queries and events to hits, where
-- a number of seconds in a document is compared with a date as if it counted milliseconds,
-- and Elastic/Answering has what a search is relied on for. A pointer to the variable of a loop in
-- getByID leads to that variable's last value, since the module is written for Go 1.18.
-- Backends compares what the two storages find.
-- Store is blob/blob.go and ipfs/ipfs.go; Store/Rehosting puts them together with Server/Media and
-- Server/Deletion.
-- Hub is hub/ping/ping.go, Peer is peer/handler/handler.go, and Peer/Pinger the ticker of
-- peer/main.go; Hub/Registration puts the ticker, the ping service and the registry together.
-- Programs is the methods of the relays of hub/main.go and peer/main.go; Programs/HubMain and
-- Programs/PeerMain are their main functions, in which log.Fatalf is an outcome (Programs/Exiting);
-- Programs/Tracing is trace/trace.go, and Programs/Addresses has port/port.go. Keys is
-- keys/keys.go and host/host.go.
-- Tests has concrete packages, a hub and a peer, and applies the theorems to them.
--
-- A Go map is an association list, visited in its order; a nil slice and an empty one differ only
-- in a filter, and a nil map and an empty one only in Elastic/Registry. There is no fuel: every loop
-- is over a list or a number of rounds, or, in the digits of a number, on a well-founded order. Steps
-- of different goroutines are interleaved at the functions that hold a mutex (Listener), and in
-- Server/Session, where a message is one step; Server/Switching takes the case REQ apart. Logs,
-- traces and contexts are left out of the handlers. Not modelled are the HTTP handler of the hub,
-- which answers with the registry, the choice of a route by mux, GetWriterOptions of blob/blob.go,
-- which nothing calls, and toInterfaceSlice of elasticsearch/query.go, which keeps the elements of a
-- slice as they are.
pub mod Prelude
pub mod Nostr
pub mod Listener
pub mod Logger
pub mod HashUtil
pub mod Storage
pub mod Postgres
pub mod Ql
pub mod Bridge
pub mod Server
pub mod Hub
pub mod Peer
pub mod Elastic
pub mod Backends
pub mod Store
pub mod Start
pub mod Programs
pub mod Keys
pub mod Tests
