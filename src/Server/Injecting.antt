-- ===== src/Server/Injecting.antt =====
-- start.go: NewServer with its routes, and the goroutine that notifies the events of an Injector.
use demedia_nostr.Prelude.{ℕ, ◌+◌, String, List, [], ◌∷◌, ◌≡◌, refl, arith}
use demedia_nostr.Nostr.{Event, Nostr}
use demedia_nostr.Listener.{Listeners, notify_listeners}
use demedia_nostr.Listener.Refinement.{subscription}
use demedia_nostr.Listener.Validity.{IsValid}
use demedia_nostr.Listener.Delivery.{deliveries, deliveries-append, due, deliveries-notify}
use demedia_nostr.Server.{World, M, ◌>>◌, pure, notify}

pub data Handler : Type 0 where
  handle_websocket : Handler
  handle_nip11 : Handler

-- What a route of mux asks of a request: its path, and the value of a header.
pub record Route : Type 0 where
  pub path : String
  pub header : String
  pub value : String
  pub handler : Handler

-- The address and the router of a new server, with the name that its middleware gets.
pub record Router : Type 0 where
  pub addr : String
  pub middleware : String
  pub routes : List Route

unfoldable pub new_server : String → String → Router
new_server addr name = record {
  addr = addr;
  middleware = name;
  routes =
      record { path = "/"; header = "Upgrade"; value = "websocket"; handler = handle_websocket }
      ∷ record {
        path = "/";
        header = "Accept";
        value = "application/nostr+json";
        handler = handle_nip11;
      }
      ∷ [];
}

-- How many of the events the filters of a subscription match.
unfoldable pub all_due : Nostr → ℕ → String → Listeners → List Event → ℕ
all_due n ws id listeners [] = 0
all_due n ws id listeners (evt ∷ events) =
    due n evt (subscription listeners ws id) + all_due n ws id listeners events

module _ {Env : Type 0} (n : Nostr) where
  -- The events that come on the channel, in order.
  unfoldable pub inject_events : List Event → M Env (Unit {0})
  unfolding notify
  inject_events [] = pure tt
  inject_events (evt ∷ events) = do notify n evt; inject_events events

  -- In valid listeners, the events of an Injector reach a subscription as often as its filters
  -- match one of them, and the listeners stay as they are.
  pub deliveries-inject :
      (ws : ℕ) (id : String) (events : List Event) (w : World Env)
      → IsValid w.listeners
      → (deliveries ws id (inject_events events w).1.sent
          ≡ deliveries ws id w.sent + all_due n ws id w.listeners events)
        × ((inject_events events w).1.listeners ≡ w.listeners)
  unfolding inject_events notify all_due
  deliveries-inject ws id [] w v = (omega arith, refl)
  deliveries-inject ws id (evt ∷ events) w v =
      let w' : World Env = (notify n evt w).1 in
      let rest = deliveries-inject ws id events w' v in
      (
        omega (
          arith,
          rest.0,
          deliveries-append ws id w.sent (notify_listeners n evt w.listeners),
          deliveries-notify n evt ws id w.listeners v,
        ),
        rest.1,
      )
