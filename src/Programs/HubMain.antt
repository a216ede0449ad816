-- ===== src/Programs/HubMain.antt =====
-- hub/main.go: the main function. What it calls of gorpc, of gin and of the shell of IPFS, and
-- the server's platform for what it makes, are the fields of a record.
use demedia_nostr.Prelude.{String, Option, List, ◌≡◌, refl, none}
use demedia_nostr.Prelude.Text.{◌<>◌}
use demedia_nostr.Nostr.{Error, Result}
use demedia_nostr.Keys.{
  KeyTools, Keys, get_keys, Ip, Interface, HostTools, get_host, get_multi_addr,
}
use demedia_nostr.Store.Ipfs.{AuthTransport, new_ipfs_client}
use demedia_nostr.Start
use demedia_nostr.Start.{start_conf}
use demedia_nostr.Programs.{name_or}
use demedia_nostr.Programs.Exiting.{
  Program, continue_inv, Ensures, Ensures-bind, Ensures-deferred, deferred, or_exit_with_inv, ◌>>=◌,
  ◌>>◌, or_exit, or_exit_with, does, may_panic, prefixed,
}
use demedia_nostr.Programs.Addresses.{find_add}
use demedia_nostr.Programs.Tracing.{TracerConfig, Telemetry, create_tracers}

-- The fields that envconfig reads.
pub record Config : Type 0 where
  pub postgres_database : String
  pub hex : String
  pub web_port : String
  pub p2p_port : String
  pub relay_port : String
  pub local_net : String
  pub environment : String
  pub version : String
  pub ipfs_node : String
  pub trace_exporter : String
  pub infura_project_id : String
  pub infura_project_secret : String
  pub service_name : String

-- A PostgresBackend as the main function makes it, with an empty map.
pub record Backend : Type 0 where
  pub database_url : String
  pub service_name : String

pub record Platform (Env : Type 0) : Type 1 where
  pub process_env : Env → Result Config × Env
  pub telemetry : Telemetry Env
  pub keys : KeyTools Env
  pub external_ip : Env → Result Ip × Env
  pub interface_addrs : Env → Result (List Interface) × Env
  pub hosts : HostTools Env keys.Libp2pKey
  -- gorpc.NewServer and the registration of a PingService of the relay
  pub register_ping : hosts.Host → Backend → Env → Option Error × Env
  pub Shell : Type 0
  pub new_shell : String → Shell
  pub new_shell_with_client : String → AuthTransport → Shell
  -- the goroutine of handler.Start on the map of the backend
  pub go_handler : String → Backend → Env → Unit {0} × Env
  -- the server of the relay, with no blob storage
  pub server : Backend → hosts.Host → keys.EcdsaKey → Shell → telemetry.Tracer → Start.Platform Env

module _ {Env : Type 0} (p : Platform Env) where
  abbrev pub name_of : Config → String
  name_of r = name_or "Hub" r.service_name

  abbrev pub tracers_of : Config → TracerConfig
  tracers_of r = record {
    trace_exporter = r.trace_exporter;
    service_name = name_of r;
    environment = r.environment;
    service_version = r.version;
  }

  abbrev pub backend_of : Config → Backend
  backend_of r = record { database_url = r.postgres_database; service_name = name_of r }

  abbrev pub settings_of : Config → Start.Settings
  settings_of r = record { host = ""; port = r.relay_port }

  abbrev pub shell_of : Config → p.Shell
  shell_of r =
      new_ipfs_client p.new_shell p.new_shell_with_client r.ipfs_node r.infura_project_id
        r.infura_project_secret

  -- relayer.StartConf
  abbrev pub start_relay :
      Config → p.telemetry.Tracer → Keys p.keys → p.hosts.Host → Env → Option Error × Env
  start_relay r tc k h =
      start_conf (p.server (backend_of r) h k.ecdsa (shell_of r) tc) (settings_of r)

  -- From NewIPFSClient on. The error that is tested after it is that of GetHost, which is nil.
  abbrev pub serve :
      Config → p.telemetry.Tracer → Keys p.keys → p.hosts.Host → Program Env (Unit {0})
  serve r tc k h = do
    does (p.go_handler (":" <> r.web_port) (backend_of r))
    or_exit_with (prefixed "server terminated") (start_relay r tc k h)

  abbrev pub find_key : Config → Program Env (Keys p.keys)
  find_key r = or_exit (prefixed "failed to get priv key for libp2p") (get_keys p.keys r.hex)

  abbrev pub make_host : Keys p.keys → String → Program Env p.hosts.Host
  make_host k add = or_exit (prefixed "failed to get host") (get_host p.hosts k.libp2p add)

  abbrev pub address_of : p.hosts.Host → Program Env String
  address_of h = may_panic (λ w. (get_multi_addr p.hosts h, w))

  abbrev pub register_service : p.hosts.Host → Config → Program Env (Unit {0})
  register_service h r =
      or_exit_with (prefixed "failed to register rpc server") (p.register_ping h (backend_of r))

  -- The error of the deferred shutdown is dropped.
  abbrev pub shut_down : p.telemetry.Tracer → Env → Env
  shut_down tc w = (p.telemetry.shutdown tc w).1

  -- After the tracer.
  abbrev pub rest_of_main : Config → p.telemetry.Tracer → Program Env (Unit {0})
  rest_of_main r tc = do
    k ← find_key r
    add ← find_add p.external_ip p.interface_addrs r.p2p_port r.local_net
    h ← make_host k add
    host_addr ← address_of h
    register_service h r
    serve r tc k h

  unfoldable pub hub_main : Program Env (Unit {0})
  hub_main = do
    r ← or_exit (prefixed "failed to read from env") p.process_env
    tc ← create_tracers p.telemetry (tracers_of r)
    deferred (shut_down tc) (rest_of_main r tc)

  -- How the function came to its end.
  pub record Served (w' : Env) : Type 0 where
    pub config : Config
    pub tracer : p.telemetry.Tracer
    pub keys : Keys p.keys
    pub host : p.hosts.Host
    pub ready : Env
    pub registered : Env
    pub stopped : Env
    pub registers : p.register_ping host (backend_of config) ready ≡ (none, registered)
    pub serves :
        start_relay config tracer keys host
          (p.go_handler (":" <> config.web_port) (backend_of config) registered).1
        ≡ (none, stopped)
    pub shuts_down : w' ≡ shut_down tracer stopped

  registered_served :
      (r : Config) (tc : p.telemetry.Tracer) (k : Keys p.keys) (h : p.hosts.Host)
      → Ensures (λ v. Served (shut_down tc v)) (register_service h r >> serve r tc k h)
  registered_served r tc k h w a w' e =
      let (_, v, registers, rest) =
        continue_inv (λ _. serve r tc k h) (register_service h r w) a w' e in
      record {
        config = r;
        tracer = tc;
        keys = k;
        host = h;
        ready = w;
        registered = v;
        stopped = w';
        registers =
            or_exit_with_inv (prefixed "failed to register rpc server")
              (p.register_ping h (backend_of r)) w v registers;
        serves =
            or_exit_with_inv (prefixed "server terminated") (start_relay r tc k h)
              (p.go_handler (":" <> r.web_port) (backend_of r) v).1 w' rest;
        shuts_down = refl;
      }

  rest_of_main_served :
      (r : Config) (tc : p.telemetry.Tracer)
      → Ensures (λ v. Served (shut_down tc v)) (rest_of_main r tc)
  rest_of_main_served r tc =
      let P : Env → Type 0 = λ v. Served (shut_down tc v) in
      Ensures-bind P (find_key r) _ λ k.
        Ensures-bind P (find_add p.external_ip p.interface_addrs r.p2p_port r.local_net) _ λ add.
          Ensures-bind P (make_host k add) _
            λ h. Ensures-bind P (address_of h) _ λ host_addr. registered_served r tc k h

  -- If the main function of the hub returns, then the ping service was registered without an error
  -- before the handler was started and the server served, the server ended without an error, and
  -- the provider of the tracer was shut down last.
  hub_main_returns : Ensures Served hub_main
  unfolding hub_main
  hub_main_returns =
      Ensures-bind Served (or_exit (prefixed "failed to read from env") p.process_env) _ λ r.
        Ensures-bind Served (create_tracers p.telemetry (tracers_of r)) _ λ tc.
          Ensures-deferred Served (shut_down tc) (rest_of_main r tc) (rest_of_main_served r tc)
