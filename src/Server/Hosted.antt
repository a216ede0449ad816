-- ===== src/Server/Hosted.antt =====
-- send-event.go, delete-event.go and fetch-event.go on a hub whose call reaches the author's peer.
use demedia_nostr.Prelude.{String, true, false, none, some, List, ◌++◌, ◌≡◌, refl}
use demedia_nostr.Prelude.Text.{◌<>◌}
use demedia_nostr.Prelude.Map.{Map}
use demedia_nostr.Prelude.Go.{returns}
use demedia_nostr.Nostr.{Event, Filter, ok, Error, error_text}
use demedia_nostr.Listener.{notify_listeners}
use demedia_nostr.Server.{Server, World, notify}
use demedia_nostr.Storage.{Storage}
use demedia_nostr.Bridge.Remote.{IsLossless, LeadsTo, remote_save, remote_query}
use demedia_nostr.Server.Events.{is_ephemeral, send_event, finish_send, fetch_event}

module _ {Env : Type 0} (s : Server Env) (carrier : Map String String) (peer : Storage Env)
    (lossless : IsLossless s.codec) where
  -- A hub whose call reaches the peer of an event's author, an accepted event of a kind that is
  -- stored, and a peer that saves it, where json reads back what it writes: the world outside
  -- changes as the peer's saving changes it, the writes of notifyListeners for the event follow,
  -- once, and the answer is that it was accepted.
  pub send_event-saved :
      (evt : Event) (w : World Env) (address body args : String) (e e' : Env)
      → s.relay.accept_event evt ≡ true
      → is_ephemeral evt.kind ≡ false
      → s.relay.storage.get_peer evt.pub_key w.env ≡ (address, e)
      → LeadsTo s.codec s.network peer address
      → s.codec.marshal_event evt ≡ ok body
      → s.codec.marshal_call (record { body = body; method = "saveEvent"; carrier = carrier })
        ≡ ok args
      → peer.save_event evt e ≡ (none, e')
      → send_event s carrier evt w ≡ (
        returns (true, ""),
        record w { env = e'; sent = w.sent ++ notify_listeners s.nostr evt w.listeners },
      )
  unfolding send_event finish_send notify
  send_event-saved evt w address body args e e' a k g l b c p =
      rw
        (
          a,
          k,
          g,
          remote_save s.codec s.network peer address lossless l carrier evt body args e b c,
          p,
        )
        refl

  -- A hub whose call reaches the peer of an event's author, an accepted event of a kind that is
  -- stored, and a peer that fails to save it with some error, where json reads back what it writes:
  -- nothing is sent to a subscriber, the world outside changes as the peer's attempt changes it,
  -- and the answer is that the event was not accepted, with the text of the error.
  pub send_event-failed :
      (evt : Event) (w : World Env) (address body args : String) (e e' : Env) (error : Error)
      → s.relay.accept_event evt ≡ true
      → is_ephemeral evt.kind ≡ false
      → s.relay.storage.get_peer evt.pub_key w.env ≡ (address, e)
      → LeadsTo s.codec s.network peer address
      → s.codec.marshal_event evt ≡ ok body
      → s.codec.marshal_call (record { body = body; method = "saveEvent"; carrier = carrier })
        ≡ ok args
      → peer.save_event evt e ≡ (some error, e')
      → send_event s carrier evt w ≡ (
        returns
            (false, "error: failed to sand: " <> ("QlCall, rpcClient call: " <> error_text error)),
        record w { env = e' },
      )
  unfolding send_event finish_send notify
  send_event-failed evt w address body args e e' error a k g l b c p =
      rw
        (
          a,
          k,
          g,
          remote_save s.codec s.network peer address lossless l carrier evt body args e b c,
          p,
        )
        refl

  -- A hub whose call reaches the peer of a public key, where json reads back what it writes: if the
  -- peer finds events for a filter, then those events, in that order, are what the hub fetches, and
  -- the world changes as the peer's query changes it.
  pub fetch_event-found :
      (f : Filter) (pubkey : String) (w : World Env) (address body args reply : String) (e e' : Env)
      (events : List Event)
      → s.relay.storage.get_peer pubkey w.env ≡ (address, e)
      → LeadsTo s.codec s.network peer address
      → s.codec.marshal_filter f ≡ ok body
      → s.codec.marshal_call (record { body = body; method = "queryEvents"; carrier = carrier })
        ≡ ok args
      → peer.query_events f e ≡ (ok events, e')
      → s.codec.marshal_events events ≡ ok reply
      → fetch_event s carrier pubkey f w ≡ (returns (ok events), record w { env = e' })
  unfolding fetch_event
  fetch_event-found f pubkey w address body args reply e e' events g l b c p r =
      rw
        (
          g,
          remote_query s.codec s.network peer address lossless l carrier f body args e b c,
          p,
          r,
          lossless.events events reply r,
        )
        refl
