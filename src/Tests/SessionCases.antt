-- ===== src/Tests/SessionCases.antt =====
-- The theorems of Session at one connection, which is made and whose reader then ends.
use demedia_nostr.Prelude.{false, none, some, [], ◌∷◌, List, ◌≡◌, refl, nat_eq}
use demedia_nostr.Prelude.Map.{lookup, insert}
use demedia_nostr.Prelude.Go.{returns}
use demedia_nostr.Nostr.{Event, Frame, ok}
use demedia_nostr.Server.{Server, World}
use demedia_nostr.Server.Dispatch.{handle_message}
use demedia_nostr.Listener.{set_listener, remove_listener}
use demedia_nostr.Server.Clients.{clean_up, is_client, connect, disconnect_all_clients}
use demedia_nostr.Server.Session.{
  reading, ended, waiting, new_session, Net, connections, with_connections, set_session,
  close_clients, stopped, initial, upgrade, start, read, handle, stop, shut_down, Steps, done,
  later,
}
use demedia_nostr.Server.Session.Upkeep.{ended_connection}
use demedia_nostr.Server.Session.Ended.{writer_waits, subscriptions_stay, no_subscription}
use demedia_nostr.Tests.Hub.{codec, hub, world}

abbrev empty : Net (List Event)
empty = initial (world [])

abbrev upgraded : Net (List Event)
upgraded = set_session 1 (new_session "c") (with_connections (connect 1 (connections empty)) empty)

abbrev started : Net (List Event)
started = set_session 1 (record (new_session "c") { reader = reading }) upgraded

abbrev over : Net (List Event)
over = stopped 1 started

abbrev to_started : Steps hub [] empty started
to_started = later (later done (upgrade 1 "c" refl)) (start 1 refl)

abbrev to_over : Steps hub [] empty over
to_over = later to_started (stop 1 refl)

-- The server shuts down.
abbrev down : Net (List Event) → Net (List Event)
down n = record (with_connections (disconnect_all_clients (connections n)) n) {
  sessions = close_clients n.clients n.sessions;
}

-- A server that reads every message as a request without filters.
abbrev asking : Server (List Event)
asking = record hub { codec = record codec { unmarshal_request = λ s. ok ("REQ" ∷ "sub" ∷ []) } }

-- The reader ends before the goroutine of the request does.
abbrev asked : Net (List Event)
asked =
    stopped 1 (
      set_session 1 (record (new_session "c") { reader = reading; in_flight = "req" ∷ [] }) started)

abbrev served : World (List Event)
served = record (world []) {
  listeners = (1, ("sub", record { filters = [] }) ∷ []) ∷ [];
  sent = record { ws = 1; frame = Frame.eose "sub" } ∷ [];
}

abbrev subscribed : Net (List Event)
subscribed =
    set_session 1 (record (asked.sessions 1) { in_flight = [] }) (record asked { world = served })

served_late :
    handle_message asking [] (record { address = 1; challenge = "c" }) "req" asked.world
    ≡ (returns tt, served)
unfolding handle_message set_listener lookup clean_up connect insert remove_listener
served_late = refl

-- So a subscription can be there after the reader has ended.
to_subscribed : Steps asking [] empty subscribed
to_subscribed =
    later (later (later to_asked_started (read 1 "req" refl refl)) (stop 1 refl))
      (handle 1 "req" [] [] served refl served_late)
  where
    to_asked_started : Steps asking [] empty started
    to_asked_started = later (later done (upgrade 1 "c" refl)) (start 1 refl)

-- A connection with a subscription before its reader ends.
abbrev client : Net (List Event)
client = record started { world = world [] }

ended_connection_example :
    ((over.sessions 1).is_open ≡ false)
    × (is_client (lookup 1 over.clients) ≡ false)
    × ((over.sessions 1).ticking ≡ false)
ended_connection_example = ended_connection hub [] (world []) over 1 to_over refl

writer_waits_example :
    (((down over).sessions 1).writer ≡ waiting) × (((down over).sessions 1).reader ≡ ended)
unfolding connect lookup
writer_waits_example =
    writer_waits hub [] 1 (world []) over (down over) to_over refl refl refl (later done shut_down)

subscriptions_stay_example :
    lookup 1 (down subscribed).world.listeners ≡ some (("sub", record { filters = [] }) ∷ [])
unfolding disconnect_all_clients lookup
subscriptions_stay_example =
    subscriptions_stay asking [] 1 subscribed (down subscribed) refl refl (later done shut_down)

no_subscription_example : lookup 1 (down (stopped 1 client)).world.listeners ≡ none
unfolding lookup connect insert
no_subscription_example =
    no_subscription hub [] 1 client (down (stopped 1 client)) refl refl (later done shut_down)
