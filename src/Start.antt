-- ===== src/Start.antt =====
-- relayer/start.go: the start of a server and its end. What the program calls of the packages net,
-- net/http and envconfig, and of a relay's own methods, are fields of a record.
use demedia_nostr.Prelude.{
  String, Option, none, some, ◌≡◌, ◌↔◌, ap, ◌≢◌, ◌⊎◌, refl, arith, inl, inr,
}
use demedia_nostr.Prelude.Text.{◌<>◌}
use demedia_nostr.Nostr.{Error, message, error_text, Result, ok, err}

pub record Settings : Type 0 where
  pub host : String
  pub port : String

-- What Serve returns: http.ErrServerClosed is an error that the program compares with.
pub data Served : Type 0 where
  closed : Served
  failed : Option Error → Served

pub record Platform (Env : Type 0) : Type 0 where
  -- envconfig.Process of the settings
  pub process_settings : Env → Result Settings × Env
  pub join_host_port : String → String → String
  -- net.Listen, with the address of the listener
  pub listen : String → Env → Result String × Env
  -- the relay's Init, the Init of its storage and OnInitialized, with the address of the server
  pub init_relay : Env → Option Error × Env
  pub init_storage : Env → Option Error × Env
  -- the goroutine for an Injector, if the relay is one
  pub start_injector : Option (Env → Env)
  pub on_initialized : String → Env → Env
  pub serve : String → Env → Served × Env
  -- Shutdown of the http.Server, and OnShutdown of a ShutdownAware relay
  pub shut_down_http : Env → Option Error × Env
  pub on_shutdown : Option (Env → Env)

not_some : {e : Error} → some e ≢ none
not_some h = ground (arith, h)

module _ {Env : Type 0} (p : Platform Env) where
  abbrev pub optionally : Option (Env → Env) → Env → Env
  optionally none w = w
  optionally (some f) w = f w

  -- err == http.ErrServerClosed
  abbrev pub unless_closed : Served × Env → Option Error × Env
  unless_closed (closed, w) = (none, w)
  unless_closed (failed e, w) = (e, w)

  abbrev pub after_storage : String → Option Error × Env → Option Error × Env
  after_storage addr (some e, w) = (some (message ("storage init: " <> error_text e)), w)
  after_storage addr (none, w) =
      unless_closed (p.serve addr (p.on_initialized addr (optionally p.start_injector w)))

  abbrev pub after_relay : String → Option Error × Env → Option Error × Env
  after_relay addr (some e, w) = (some (message ("relay init: " <> error_text e)), w)
  after_relay addr (none, w) = after_storage addr (p.init_storage w)

  unfoldable pub start_listener : String → Env → Option Error × Env
  start_listener addr w = after_relay addr (p.init_relay w)

  abbrev pub after_listen : Result String × Env → Option Error × Env
  after_listen (err e, w) = (some e, w)
  after_listen (ok addr, w) = start_listener addr w

  -- Server.Start
  unfoldable pub start_server : String → Env → Option Error × Env
  unfolding start_listener
  start_server addr w = after_listen (p.listen addr w)

  unfoldable pub start_conf : Settings → Env → Option Error × Env
  start_conf s w = start_server (p.join_host_port s.host s.port) w

  abbrev pub after_process : Result Settings × Env → Option Error × Env
  after_process (err e, w) = (some (message ("envconfig: " <> error_text e)), w)
  after_process (ok s, w) = start_conf s w

  unfoldable pub start : Env → Option Error × Env
  unfolding start_conf
  start w = after_process (p.process_settings w)

  unfoldable pub shut_down : Env → Option Error × Env
  shut_down w = let r = p.shut_down_http w in (r.0, optionally p.on_shutdown r.1)

  -- The server runs at the address, from a state to another.
  pub record Runs (addr : String) (w w' : Env) : Type 0 where
    pub listener : String
    pub after_listen : Env
    pub after_init : Env
    pub after_storage : Env
    pub end : Served
    pub listens : p.listen addr w ≡ (ok listener, after_listen)
    pub inits_relay : p.init_relay after_listen ≡ (none, after_init)
    pub inits_storage : p.init_storage after_init ≡ (none, after_storage)
    pub serves :
        p.serve listener (p.on_initialized listener (optionally p.start_injector after_storage))
        ≡ (end, w')
    pub ends : (end ≡ closed) ⊎ (end ≡ failed none)

  module _ (addr : String) (w w' : Env) where
    ended_with :
        (r : Served × Env)
        → unless_closed r ≡ (none, w')
        → ((r.0 ≡ closed) ⊎ (r.0 ≡ failed none)) × (r.1 ≡ w')
    ended_with (closed, v) h = (inl refl, ap (λ x. x.1) h)
    ended_with (failed e, v) h = (inr (ap (λ x. failed x.0) h), ap (λ x. x.1) h)

    Runs-storage :
        (listener : String) (l i : Env) (r : Option Error × Env)
        → p.listen addr w ≡ (ok listener, l)
        → p.init_relay l ≡ (none, i)
        → p.init_storage i ≡ r
        → after_storage listener r ≡ (none, w')
        → Runs addr w w'
    Runs-storage listener l i (some e, v) a b c h = absurd (not_some (ap (λ x. x.0) h))
    Runs-storage listener l i (none, v) a b c h =
        let served : Served × Env =
          p.serve listener (p.on_initialized listener (optionally p.start_injector v)) in
        let (d, e) = ended_with served h in
        record {
          listener = listener;
          after_listen = l;
          after_init = i;
          after_storage = v;
          end = served.0;
          listens = a;
          inits_relay = b;
          inits_storage = c;
          serves = ap (λ x. (served.0, x)) e;
          ends = d;
        }

    Runs-relay :
        (listener : String) (l : Env) (r : Option Error × Env)
        → p.listen addr w ≡ (ok listener, l)
        → p.init_relay l ≡ r
        → after_relay listener r ≡ (none, w')
        → Runs addr w w'
    Runs-relay listener l (some e, v) a b h = absurd (not_some (ap (λ x. x.0) h))
    Runs-relay listener l (none, v) a b h = Runs-storage listener l v (p.init_storage v) a b refl h

    Runs-listen :
        (r : Result String × Env)
        → p.listen addr w ≡ r
        → after_listen r ≡ (none, w')
        → Runs addr w w'
    unfolding start_listener
    Runs-listen (err e, v) a h = absurd (not_some (ap (λ x. x.0) h))
    Runs-listen (ok listener, v) a h = Runs-relay listener v (p.init_relay v) a refl h

    returns_nil : Runs addr w w' → start_server addr w ≡ (none, w')
    unfolding start_server start_listener
    returns_nil r =
        rw (r.listens, r.inits_relay, r.inits_storage, r.serves)
          (elim r.ends [ inl e ↦ rw e refl | inr e ↦ rw e refl ])

    -- Start returns no error exactly if the address is listened at, the relay and then its storage
    -- are initialised without an error, and the server, which OnInitialized sees first, is served
    -- until it is shut down or ends without an error.
    pub start_server-Runs : (start_server addr w ≡ (none, w')) ↔ Runs addr w w'
    unfolding start_server
    start_server-Runs = (Runs-listen (p.listen addr w) refl, returns_nil)
