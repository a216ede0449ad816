-- ===== src/Programs/PeerMain.antt =====
-- peer/main.go: the main function. What it calls of gorpc and of gin, and the server's platform for
-- what it makes, are the fields of a record.
use demedia_nostr.Prelude.{ℕ, pos, String, Option, none, not, ◌==◌, ◌≡◌, refl, if◌then◌else◌}
use demedia_nostr.Prelude.Text.{◌<>◌, itoa}
use demedia_nostr.Nostr.{Error, Result, ok}
use demedia_nostr.Keys.{
  KeyTools, Keys, get_keys, Ip, Interface, HostTools, get_host, get_multi_addr,
}
use demedia_nostr.Prelude.{List}
use demedia_nostr.Start
use demedia_nostr.Start.{start}
use demedia_nostr.Programs.{name_or}
use demedia_nostr.Programs.Exiting.{
  Program, continue_inv, Ensures, Ensures-bind, Ensures-deferred, deferred, or_exit_inv,
  or_exit_with_inv, ◌>>=◌, ◌>>◌, or_exit, or_exit_with, does, may_panic, prefixed,
}
use demedia_nostr.Programs.Addresses.{find_add, get_target_address_port}
use demedia_nostr.Programs.Tracing.{TracerConfig, Telemetry, create_tracers}

-- The fields that envconfig reads.
pub record Config : Type 0 where
  pub postgres_database : String
  pub hex : String
  pub hub_hex : String
  pub hub : String
  pub web_port : String
  pub p2p_port : String
  pub local_net : String
  pub environment : String
  pub version : String
  pub trace_exporter : String
  pub service_name : String
  pub elasticsearch_url : String
  pub elasticsearch_index : String

-- The storage that the main function makes, by the name of the index, or by the URL of the
-- database and the name of the service. The map of both is nil.
pub data Backend : Type 0 where
  elasticsearch : String → Backend
  postgres : String → String → Backend

-- The relay with the fields that the main function sets.
pub record Relay (Host : Type 0) : Type 0 where
  pub config : Config
  pub storage : Backend
  pub host : Host
  pub btc_pub_key : String
  pub peer_address : String

pub record Platform (Env : Type 0) : Type 1 where
  pub process_env : Env → Result Config × Env
  pub telemetry : Telemetry Env
  pub keys : KeyTools Env
  pub external_ip : Env → Result Ip × Env
  pub interface_addrs : Env → Result (List Interface) × Env
  pub hosts : HostTools Env keys.Libp2pKey
  pub intn : ℕ → Env → ℕ × Env
  -- hex.EncodeToString of schnorr.SerializePubKey
  pub pub_key_text : keys.BtcPubKey → String
  -- gorpc.NewServer and the registration of a BridgeService of the relay
  pub register_bridge : Relay hosts.Host → telemetry.Tracer → Env → Option Error × Env
  -- the goroutine of handler.Start with the relay and the public key of the hub's key
  pub go_handler : String → Relay hosts.Host → keys.EcdsaKey → Env → Unit {0} × Env
  -- the server of the relay, with no host, no blob storage and no key
  pub server : Relay hosts.Host → telemetry.Tracer → Start.Platform Env

module _ {Env : Type 0} (p : Platform Env) where
  abbrev pub name_of : Config → String
  name_of r = name_or "Peer" r.service_name

  abbrev pub tracers_of : Config → TracerConfig
  tracers_of r = record {
    trace_exporter = r.trace_exporter;
    service_name = name_of r;
    environment = r.environment;
    service_version = r.version;
  }

  abbrev pub backend_of : Config → Backend
  backend_of r =
      if not (r.elasticsearch_url == "")
      then elasticsearch r.elasticsearch_index
      else postgres r.postgres_database (name_of r)

  -- The default port of the hub stands for one at random.
  abbrev pub port_of : Config → Program Env String
  port_of r =
      if r.p2p_port == "10880"
      then does (λ w. let n = get_target_address_port p.intn w in (itoa (pos n.0), n.1))
      else does (λ w. (r.p2p_port, w))

  abbrev pub relay_of : Config → Keys p.keys → p.hosts.Host → String → Relay p.hosts.Host
  relay_of r k h addr = record {
    config = r;
    storage = backend_of r;
    host = h;
    btc_pub_key = p.pub_key_text k.btc.1;
    peer_address = addr;
  }

  abbrev pub register_relay : Relay p.hosts.Host → p.telemetry.Tracer → Program Env (Unit {0})
  register_relay relay tc =
      or_exit_with (prefixed "failed to register rpc server") (p.register_bridge relay tc)

  -- From the handler on.
  abbrev pub serve : Relay p.hosts.Host → p.telemetry.Tracer → Keys p.keys → Program Env (Unit {0})
  serve relay tc hub = do
    does (p.go_handler (":" <> relay.config.web_port) relay hub.ecdsa)
    or_exit_with (prefixed "server terminated") (start (p.server relay tc))

  abbrev pub find_key : Config → Program Env (Keys p.keys)
  find_key r = or_exit (prefixed "failed to get priv key for libp2p") (get_keys p.keys r.hex)

  abbrev pub find_hub : Config → Program Env (Keys p.keys)
  find_hub r = or_exit (prefixed "failed to get priv key for hub hex") (get_keys p.keys r.hub_hex)

  abbrev pub make_host : Keys p.keys → String → Program Env p.hosts.Host
  make_host k add = or_exit (prefixed "failed to get host") (get_host p.hosts k.libp2p add)

  abbrev pub address_of : p.hosts.Host → Program Env String
  address_of h = may_panic (λ w. (get_multi_addr p.hosts h, w))

  -- The error of the deferred shutdown is dropped.
  abbrev pub shut_down : p.telemetry.Tracer → Env → Env
  shut_down tc w = (p.telemetry.shutdown tc w).1

  abbrev pub register_and_serve : Relay p.hosts.Host → p.telemetry.Tracer → Program Env (Unit {0})
  register_and_serve relay tc = do
    register_relay relay tc
    hub ← find_hub relay.config
    serve relay tc hub

  -- After the tracer.
  abbrev pub rest_of_main : Config → p.telemetry.Tracer → Program Env (Unit {0})
  rest_of_main r tc = do
    port ← port_of r
    k ← find_key r
    add ← find_add p.external_ip p.interface_addrs port r.local_net
    h ← make_host k add
    addr ← address_of h
    register_and_serve (relay_of r k h addr) tc

  unfoldable pub peer_main : Program Env (Unit {0})
  peer_main = do
    r ← or_exit (prefixed "failed to read from env") p.process_env
    tc ← create_tracers p.telemetry (tracers_of r)
    deferred (shut_down tc) (rest_of_main r tc)

  -- How the function came to its end.
  pub record Served (w' : Env) : Type 0 where
    pub relay : Relay p.hosts.Host
    pub tracer : p.telemetry.Tracer
    pub hub : Keys p.keys
    pub before : Env
    pub registered : Env
    pub ready : Env
    pub stopped : Env
    pub registers : p.register_bridge relay tracer before ≡ (none, registered)
    pub finds_hub : get_keys p.keys relay.config.hub_hex registered ≡ (ok hub, ready)
    pub serves :
        start
          (p.server relay tracer)
          (p.go_handler (":" <> relay.config.web_port) relay hub.ecdsa ready).1
        ≡ (none, stopped)
    pub shuts_down : w' ≡ shut_down tracer stopped

  registered_served :
      (relay : Relay p.hosts.Host) (tc : p.telemetry.Tracer)
      → Ensures (λ v. Served (shut_down tc v)) (register_and_serve relay tc)
  registered_served relay tc w a w' e =
      let (_, v, registers, rest) =
        continue_inv (λ _. find_hub relay.config >>= λ hub. serve relay tc hub)
          (register_relay relay tc w) a w' e in
      let (hub, u, finds, serves) =
        continue_inv (λ k. serve relay tc k) (find_hub relay.config v) a w' rest in
      record {
        relay = relay;
        tracer = tc;
        hub = hub;
        before = w;
        registered = v;
        ready = u;
        stopped = w';
        registers =
            or_exit_with_inv (prefixed "failed to register rpc server") (p.register_bridge relay tc)
              w v registers;
        finds_hub =
            or_exit_inv (prefixed "failed to get priv key for hub hex")
              (get_keys p.keys relay.config.hub_hex) hub v u finds;
        serves =
            or_exit_with_inv (prefixed "server terminated") (start (p.server relay tc))
              (p.go_handler (":" <> relay.config.web_port) relay hub.ecdsa u).1 w' serves;
        shuts_down = refl;
      }

  rest_of_main_served :
      (r : Config) (tc : p.telemetry.Tracer)
      → Ensures (λ v. Served (shut_down tc v)) (rest_of_main r tc)
  rest_of_main_served r tc =
      let P : Env → Type 0 = λ v. Served (shut_down tc v) in
      Ensures-bind P (port_of r) _ λ port. Ensures-bind P (find_key r) _ λ k.
        Ensures-bind P (find_add p.external_ip p.interface_addrs port r.local_net) _ λ add.
          Ensures-bind P (make_host k add) _
            λ h. Ensures-bind P (address_of h) _ λ addr. registered_served (relay_of r k h addr) tc

  -- If the main function of a peer returns, then its bridge service was registered without an
  -- error, the hub's key was made before the handler was started with it and the server served,
  -- the server ended without an error, and the provider of the tracer was shut down last.
  peer_main_returns : Ensures Served peer_main
  unfolding peer_main
  peer_main_returns =
      Ensures-bind Served (or_exit (prefixed "failed to read from env") p.process_env) _ λ r.
        Ensures-bind Served (create_tracers p.telemetry (tracers_of r)) _ λ tc.
          Ensures-deferred Served (shut_down tc) (rest_of_main r tc) (rest_of_main_served r tc)
