-- ===== src/Ql.antt =====
-- relayer/ql: the call of a method of a peer. The network (multiaddr, its DNS resolver, libp2p and
-- gorpc) and encoding/json are the fields of records.
use demedia_nostr.Prelude.{String, Option, none, some, List, [], ◌∷◌, length, pos}
use demedia_nostr.Prelude.Text.{◌<>◌, itoa}
use demedia_nostr.Prelude.Map.{Map}
use demedia_nostr.Nostr.{Event, Filter, Error, message, error_text, Result, ok, err}

-- BridgeCall. The bodies are texts of JSON. BridgeArgs and BridgeReply hold one text each.
pub record BridgeCall : Type 0 where
  pub body : String
  pub method : String
  pub carrier : Map String String

-- json.Marshal and json.Unmarshal, at the types at which the program uses them.
pub record Codec : Type 0 where
  pub marshal_event : Event → Result String
  pub unmarshal_event : String → Result Event
  pub marshal_filter : Filter → Result String
  pub unmarshal_filter : String → Result Filter
  pub marshal_events : List Event → Result String
  pub unmarshal_events : String → Result (List Event)
  pub marshal_call : BridgeCall → Result String
  pub unmarshal_call : String → Result BridgeCall
  -- into []json.RawMessage
  pub unmarshal_request : String → Result (List String)
  -- into a string whose error the program drops: where it fails, the empty text
  pub unmarshal_text : String → String

pub record Network (Env : Type 0) : Type 1 where
  pub Multiaddr : Type 0
  pub AddrInfo : Type 0
  pub new_multiaddr : String → Result Multiaddr
  pub resolve : Multiaddr → Env → Result (List Multiaddr)
  pub addr_info : Multiaddr → Result AddrInfo
  pub connect : AddrInfo → Env → Option Error × Env
  -- rpcClient.Call of the peer, the service and its method, with the text of BridgeArgs
  pub call : AddrInfo → String → String → String → Env → Result String × Env

-- A step that may fail, on the state of the world outside.
abbrev pub Act : Type 0 → Type 0 → Type 0
Act Env A = Env → Result A × Env

abbrev pub continue : {Env A B : Type 0} → (A → Act Env B) → Result A × Env → Result B × Env
continue f (ok a, w) = f a w
continue f (err e, w) = (err e, w)

infixl 5 ◌>>=◌ ◌>>◌
abbrev pub ◌>>=◌ : {Env A B : Type 0} → Act Env A → (A → Act Env B) → Act Env B
◌>>=◌ m f w = continue f (m w)

abbrev pub ◌>>◌ : {Env A B : Type 0} → Act Env A → Act Env B → Act Env B
m >> k = m >>= λ _. k

abbrev pub pure : {Env A : Type 0} → A → Act Env A
pure a w = (ok a, w)

abbrev pub raise : {Env A : Type 0} → String → Act Env A
raise s w = (err (message s), w)

abbrev pub lift : {Env A : Type 0} → Result A → Act Env A
lift r w = (r, w)

-- fmt.Errorf("…: %w", err)
abbrev pub wrapped : {A : Type 0} → String → Result A → Result A
wrapped prefix (ok a) = ok a
wrapped prefix (err e) = err (message (prefix <> error_text e))

abbrev pub connected : {Env : Type 0} → Option Error × Env → Result (Unit {0}) × Env
connected (none, w) = (ok tt, w)
connected (some e, w) = (err (message ("QlCall, host connection: \n" <> error_text e)), w)

abbrev pub called : {Env A : Type 0} → Result A × Env → Result A × Env
called (r, w) = (wrapped "QlCall, rpcClient call: " r, w)

module _ {Env : Type 0} (net : Network Env) where
  -- `len(addrs) != 1`, and then addrs[0]
  abbrev pub the_only : List net.Multiaddr → Act Env net.Multiaddr
  the_only [] = raise "QlCall, DNS address count: 0"
  the_only (a ∷ []) = pure a
  the_only (a ∷ b ∷ more) =
      raise ("QlCall, DNS address count: " <> itoa (pos (length (a ∷ b ∷ more))))

  abbrev pub connect : net.AddrInfo → Act Env (Unit {0})
  connect info w = connected (net.connect info w)

  abbrev pub call : net.AddrInfo → String → String → String → Act Env String
  call info service method args w = called (net.call info service method args w)

  -- `input` is what json.Marshal makes of the input, and the carrier is empty without a span.
  unfoldable pub ql_call :
      Codec → Result String → String → String → String → String → Map String String → Act Env String
  ql_call j input peer_addr service_name service_method method carrier = do
    body ← lift (wrapped "QlCall, json marshal input: " input)
    ma ← lift (net.new_multiaddr peer_addr)
    addrs ← λ w. (wrapped "QlCall, DNS resolve: " (net.resolve ma w), w)
    addr ← the_only addrs
    info ← lift (net.addr_info addr)
    connect info
    let b_call : BridgeCall = record { body = body; method = method; carrier = carrier }
    args ← lift (wrapped "QlCall, json marshal BridgeCall: " (j.marshal_call b_call))
    call info service_name service_method args
