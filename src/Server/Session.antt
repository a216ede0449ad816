-- ===== src/Server/Session.antt =====
-- handlers.go: handleWebsocket. The goroutines of all connections, in any order: the reader and
-- the writer of each, and one goroutine for each message that a reader has read, which is one step
-- of the model at the time when it ends. A connection and its WebSocket are one address.
pub mod Upkeep
pub mod Ended
use demedia_nostr.Prelude.{
  ℕ, String, Bool, true, false, Option, none, some, List, [], ◌∷◌, ◌++◌, ◌≡◌, nat_beq, nat_eq,
  if◌then◌else◌,
}
use demedia_nostr.Prelude.Map.{Map, lookup}
use demedia_nostr.Prelude.Go.{returns}
use demedia_nostr.Nostr.{Frame}
use demedia_nostr.Server.{Server, World, write_json}
use demedia_nostr.Server.Clients.{Connections, is_client, connect, clean_up, disconnect_all_clients}
use demedia_nostr.Server.Dispatch.{WebSocket, handle_message}

-- The reader before its loop, in it, and after the deferred function.
pub data Reader : Type 0 where
  absent : Reader
  starting : Reader
  reading : Reader
  ended : Reader

pub data Writer : Type 0 where
  idle : Writer
  waiting : Writer
  gone : Writer

-- What handleWebsocket makes for a connection: whether conn is open, the two goroutines, whether
-- the ticker runs and whether its channel, of capacity one, holds a tick, the challenge, and the
-- messages that were read and whose goroutines have not ended.
pub record Session : Type 0 where
  pub is_open : Bool
  pub reader : Reader
  pub writer : Writer
  pub ticking : Bool
  pub has_tick : Bool
  pub challenge : String
  pub in_flight : List String

abbrev pub no_session : Session
no_session = record {
  is_open = false;
  reader = absent;
  writer = idle;
  ticking = false;
  has_tick = false;
  challenge = "";
  in_flight = [];
}

-- After the upgrade.
abbrev pub new_session : String → Session
new_session challenge = record {
  is_open = true;
  reader = starting;
  writer = waiting;
  ticking = true;
  has_tick = false;
  challenge = challenge;
  in_flight = [];
}

abbrev pub update : (ℕ → Session) → ℕ → Session → ℕ → Session
update sessions ws s other = if nat_beq ws other then s else sessions other

pub record Net (Env : Type 0) : Type 0 where
  pub clients : Map ℕ (Unit {0})
  pub world : World Env
  pub sessions : ℕ → Session

abbrev pub connections : {Env : Type 0} → Net Env → Connections
connections n = record { clients = n.clients; listeners = n.world.listeners }

abbrev pub with_connections : {Env : Type 0} → Connections → Net Env → Net Env
with_connections c n = record n {
  clients = c.clients;
  world = record n.world { listeners = c.listeners };
}

abbrev pub set_session : {Env : Type 0} → ℕ → Session → Net Env → Net Env
set_session ws s n = record n { sessions = update n.sessions ws s }

-- The first message to a client, where the relay is an Auther.
abbrev pub greet : {Env : Type 0} → Server Env → ℕ → String → World Env → World Env
greet s ws challenge w = elim s.relay.auther [
  | none ↦ w
  | some url ↦ (write_json ws (Frame.auth challenge) w).1
]

-- The reader's deferred function: the ticker stops, and conn is closed if it is a client.
abbrev pub end_reader : Bool → Session → Session
end_reader b s = record s {
  reader = ended;
  ticking = false;
  is_open = if b then false else s.is_open;
}

-- The writer's deferred function.
abbrev pub end_writer : Session → Session
end_writer s = record s { writer = gone; has_tick = false; ticking = false; is_open = false }

-- conn.Close() of each client.
abbrev pub close_clients : Map ℕ (Unit {0}) → (ℕ → Session) → ℕ → Session
close_clients clients sessions ws =
    if is_client (lookup ws clients) then record (sessions ws) { is_open = false } else sessions ws

-- The reader's loop ends, and with it the reader.
abbrev pub stopped : {Env : Type 0} → ℕ → Net Env → Net Env
stopped ws n =
    set_session ws (end_reader (is_client (lookup ws n.clients)) (n.sessions ws))
      (with_connections (clean_up ws (connections n)) n)

module _ {Env : Type 0} (s : Server Env) (carrier : Map String String) where
  pub data Step (n : Net Env) : Net Env → Type 0 where
    -- The upgrade of a new connection, whose address no other has had.
    upgrade :
        (ws : ℕ) (challenge : String)
        → (n.sessions ws).reader ≡ absent
        → Step n (
            set_session ws
              (new_session challenge)
              (with_connections (connect ws (connections n)) n))
    start :
        (ws : ℕ)
        → (n.sessions ws).reader ≡ starting
        → Step n (
            set_session ws
              (record (n.sessions ws) { reader = reading })
              (record n { world = greet s ws (n.sessions ws).challenge n.world }))
    -- A message is read, and its goroutine starts.
    read :
        (ws : ℕ) (message : String)
        → (n.sessions ws).reader ≡ reading
        → (n.sessions ws).is_open ≡ true
        → Step n (
            set_session ws
              (record (n.sessions ws) { in_flight = message ∷ (n.sessions ws).in_flight })
              n)
    -- A ping is read, and answered on the connection.
    pong : (ws : ℕ) → (n.sessions ws).reader ≡ reading → (n.sessions ws).is_open ≡ true → Step n n
    -- The goroutine of a message ends without a panic.
    handle :
        (ws : ℕ) (message : String) (before after : List String) (w : World Env)
        → (n.sessions ws).in_flight ≡ before ++ (message ∷ after)
        → handle_message s carrier
            (record { address = ws; challenge = (n.sessions ws).challenge })
            message
            n.world
          ≡ (returns tt, w)
        → Step n (
            set_session ws
              (record (n.sessions ws) { in_flight = before ++ after })
              (record n { world = w }))
    -- ReadMessage returns an error.
    stop : (ws : ℕ) → (n.sessions ws).reader ≡ reading → Step n (stopped ws n)
    tick :
        (ws : ℕ)
        → (n.sessions ws).ticking ≡ true
        → Step n (set_session ws (record (n.sessions ws) { has_tick = true }) n)
    ping :
        (ws : ℕ)
        → (n.sessions ws).writer ≡ waiting
        → (n.sessions ws).has_tick ≡ true
        → (n.sessions ws).is_open ≡ true
        → Step n (set_session ws (record (n.sessions ws) { has_tick = false }) n)
    fail_ping :
        (ws : ℕ)
        → (n.sessions ws).writer ≡ waiting
        → (n.sessions ws).has_tick ≡ true
        → Step n (set_session ws (end_writer (n.sessions ws)) n)
    shut_down : Step n (record (with_connections (disconnect_all_clients (connections n)) n) {
      sessions = close_clients n.clients n.sessions;
    })

  pub data Steps (n : Net Env) : Net Env → Type 0 where
    done : Steps n n
    later : {m k : Net Env} → Steps n m → Step m k → Steps n k

-- Before the first connection.
abbrev pub initial : {Env : Type 0} → World Env → Net Env
initial w = record {
  clients = [];
  world = record w { listeners = [] };
  sessions = λ ws. no_session;
}
