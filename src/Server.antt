-- ===== src/Server.antt =====
-- relayer/start.go, relayer/websocket.go: the server's configuration, the state that its handlers
-- share, and the actions on it.
pub mod Events
pub mod Media
pub mod Publish
pub mod Deletion
pub mod Erasing
pub mod Restrict
pub mod Verify
pub mod Subscribe
pub mod Dispatch
pub mod Signatures
pub mod Access
pub mod Clients
pub mod Session
pub mod Nip11
pub mod Isolation
pub mod Faults
pub mod Hosted
pub mod Answered
pub mod Signing
pub mod Switching
pub mod Injecting
use demedia_nostr.Prelude.{
  ℕ, String, Bool, Option, none, some, List, [], ◌∷◌, ◌++◌, nat_beq, if◌then◌else◌,
}
use demedia_nostr.Prelude.Go.{Go, returns, panics, blocks}
use demedia_nostr.Nostr.{Event, Nostr, Error, Result, Frame, Write}
use demedia_nostr.HashUtil.{Crypto}
use demedia_nostr.Storage.{Relay}
use demedia_nostr.Ql.{Codec, Network}
use demedia_nostr.Listener.{Listeners, notify_listeners}

-- blob.BlobStorage and ipfs.IPFSClient, as far as the server calls them.
pub record Blob (Env : Type 0) : Type 0 where
  pub save_file : String → String → Env → Option Error × Env
  pub get_file_url : String → Env → Result String × Env

pub record Ipfs (Env : Type 0) : Type 0 where
  pub upload_file : String → Env → Result String × Env
  pub delete_file : String → Env → Option Error × Env

-- The type Server of start.go, less the router, the logger and the tracer, and with the packages
-- that its handlers call. A pointer that may be nil is an option; `Env` is the state of all that
-- is outside of the package relayer.
pub record Server (Env : Type 0) : Type 1 where
  pub nostr : Nostr
  pub crypto : Crypto
  pub codec : Codec
  pub network : Network Env
  pub relay : Relay Env
  -- s.host != nil
  pub has_host : Bool
  pub blob : Option (Blob Env)
  pub ipfs : Option (Ipfs Env)
  pub ecdsa_pvt_key : Option crypto.PrivateKey
  -- req.C().R().Get of a URL: its error, or what io.ReadAll gives of the body
  pub get : String → Env → Result (Result String) × Env

-- What the goroutines of the server share: the world outside, the global listeners, what was
-- written to the connections, in order, and the public key under which each connection, by the
-- address of its WebSocket, has authenticated itself ("" before).
pub record World (Env : Type 0) : Type 0 where
  pub env : Env
  pub listeners : Listeners
  pub sent : List Write
  pub authed : ℕ → String

-- A run of handler code, which may panic.
abbrev pub M : Type 0 → Type 0 → Type 0
M Env A = World Env → Go A × World Env

abbrev pub continue : {Env A B : Type 0} → (A → M Env B) → Go A × World Env → Go B × World Env
continue f (returns a, w) = f a w
continue f (panics, w) = (panics, w)
continue f (blocks, w) = (blocks, w)

infixl 5 ◌>>=◌ ◌>>◌
abbrev pub ◌>>=◌ : {Env A B : Type 0} → M Env A → (A → M Env B) → M Env B
◌>>=◌ m f w = continue f (m w)

abbrev pub ◌>>◌ : {Env A B : Type 0} → M Env A → M Env B → M Env B
m >> k = m >>= λ _. k

abbrev pub pure : {Env A : Type 0} → A → M Env A
pure a w = (returns a, w)

-- An index out of range.
abbrev pub panic : {Env A : Type 0} → M Env A
panic w = (panics, w)

abbrev pub of_go : {Env A : Type 0} → Go A → M Env A
of_go r w = (r, w)

abbrev pub outside_done : {Env A : Type 0} → World Env → A × Env → Go A × World Env
outside_done w (a, e) = (returns a, record w { env = e })

-- A call of something outside.
abbrev pub outside : {Env A : Type 0} → (Env → A × Env) → M Env A
outside f w = outside_done w (f w.env)

-- ws.WriteJSON, which holds the connection's mutex; the handlers drop its error.
abbrev pub write_json : {Env : Type 0} → ℕ → Frame → M Env (Unit {0})
write_json ws frame w =
    (returns tt, record w { sent = w.sent ++ (record { ws = ws; frame = frame } ∷ []) })

-- A function of listener.go that changes the listeners.
abbrev pub update_listeners : {Env : Type 0} → (Listeners → Listeners) → M Env (Unit {0})
update_listeners f w = (returns tt, record w { listeners = f w.listeners })

-- notifyListeners
unfoldable pub notify : {Env : Type 0} → Nostr → Event → M Env (Unit {0})
notify n evt w = (returns tt, record w { sent = w.sent ++ notify_listeners n evt w.listeners })
