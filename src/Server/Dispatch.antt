-- ===== src/Server/Dispatch.antt =====
-- handlers.go: what a goroutine does with one message of a connection.
use demedia_nostr.Prelude.{
  ℕ, String, true, false, ◌==◌, Option, none, some, List, [], ◌∷◌, nat_beq, if◌then◌else◌,
}
use demedia_nostr.Prelude.Text.{◌<>◌}
use demedia_nostr.Prelude.Map.{Map}
use demedia_nostr.Nostr.{Event, error_text, Result, ok, err, Frame}
use demedia_nostr.Listener.{remove_listener_id}
use demedia_nostr.Server.{Server, M, ◌>>=◌, ◌>>◌, pure, outside, write_json, update_listeners}
use demedia_nostr.Server.Publish.{handle_event}
use demedia_nostr.Server.Subscribe.{handle_req}

-- A connection: the address of its WebSocket, and its challenge.
pub record WebSocket : Type 0 where
  pub address : ℕ
  pub challenge : String

-- ws.authed = pubkey
abbrev pub set_authed : {Env : Type 0} → ℕ → String → M Env (Unit {0})
set_authed ws pubkey w =
    ((pure tt w).0, record w { authed = λ ws'. if nat_beq ws ws' then pubkey else w.authed ws' })

module _ {Env : Type 0} (s : Server Env) (carrier : Map String String) (ws : WebSocket) where
  unfoldable pub handle_close : String → M Env String
  handle_close raw =
      let id = s.codec.unmarshal_text raw in
      if id == ""
      then pure "CLOSE has no <id>"
      else (do update_listeners (remove_listener_id ws.address id); pure "")

  abbrev pub authenticated : Event → Option String → M Env (Unit {0})
  authenticated evt none =
      write_json ws.address (Frame.accepted evt.id false "error: failed to authenticate")
  authenticated evt (some pubkey) = do
    set_authed ws.address pubkey
    write_json ws.address (Frame.accepted evt.id true "authentication success")

  abbrev pub decoded_auth : String → Result Event → M Env String
  decoded_auth url (err e) = pure ("failed to decode auth event: " <> error_text e)
  decoded_auth url (ok evt) = do
    authenticated evt (s.nostr.validate_auth_event evt ws.challenge url)
    pure ""

  unfoldable pub handle_auth : Option String → String → M Env String
  handle_auth none raw = pure ""
  handle_auth (some url) raw = decoded_auth url (s.codec.unmarshal_event raw)

  unfoldable pub handle_unknown :
      Option (ℕ → String → List String → Env → Env) → String → List String → M Env String
  handle_unknown none typ request = pure ("unknown message type " <> typ)
  handle_unknown (some f) typ request = do outside (λ e. (tt, f ws.address typ request e)); pure ""

  -- The switch, on request[0], request[1] and request[2:].
  unfoldable pub handle_request : String → String → List String → M Env String
  unfolding handle_event handle_req handle_close handle_auth handle_unknown
  handle_request first second more =
      let typ = s.codec.unmarshal_text first in
      if typ == "EVENT"
      then handle_event s carrier ws.address second
      else if typ == "REQ"
      then handle_req s carrier ws.address second more
      else if typ == "CLOSE"
      then handle_close second
      else if typ == "AUTH"
      then handle_auth s.relay.auther second
      else handle_unknown s.relay.custom_handler typ (first ∷ second ∷ more)

  abbrev pub with_request : Result (List String) → M Env String
  with_request (err e) = pure ""
  with_request (ok []) = pure "request has less than 2 parameters"
  with_request (ok (a ∷ [])) = pure "request has less than 2 parameters"
  with_request (ok (a ∷ b ∷ more)) = handle_request a b more

  -- The deferred function writes the notice, if there is one.
  abbrev pub write_notice : String → M Env (Unit {0})
  write_notice notice =
      if notice == "" then pure tt else write_json ws.address (Frame.notice notice)

  unfoldable pub handle_message : String → M Env (Unit {0})
  unfolding handle_request
  handle_message message = do
    notice ← with_request (s.codec.unmarshal_request message)
    write_notice notice
