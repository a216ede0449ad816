-- ===== src/Tests/ListenerCases.antt =====
-- The theorems of Listener at subscriptions of two connections.
use demedia_nostr.Prelude.{true, List, [], ◌∷◌, ◌≡◌, refl, All, int_beq_iff}
use demedia_nostr.Nostr.{Event, Filter, Frame}
use demedia_nostr.Listener.{Listeners, notify_listeners, listener_filters, get_listening_filters}
use demedia_nostr.Listener.Refinement.{
  Op, set, remove_id, remove, run, run_promised, subscription, subscription-run,
}
use demedia_nostr.Listener.Validity.{IsValid, run-IsValid}
use demedia_nostr.Listener.Delivery.{
  deliveries, deliveries-notify, due, CarriesEvent, CarriesEvent-notify,
}
use demedia_nostr.Listener.Distinct.{Collected, get_listening_filters-Collected}
use demedia_nostr.Tests.Packages.{nostr}
use demedia_nostr.Server.Events.{fetch_event}
use demedia_nostr.Ql.{ql_call}
use demedia_nostr.Bridge.{ql}
use demedia_nostr.Prelude.Map.{lookup, insert}
use demedia_nostr.Listener.{set_listener}
use demedia_nostr.Listener.Orders.{view, calls_of, calls_but, view-run_apart}
use demedia_nostr.Server.{World, ◌>>◌, notify}
use demedia_nostr.Server.Subscribe.{serve_filters, handle_req}
use demedia_nostr.Server.Switching.{interrupted, got, handle_req_switches}
use demedia_nostr.Tests.Hub.{note, any_filter, hub, world}

abbrev ops : List Op
ops =
    set "a" 1 (any_filter ∷ [])
    ∷ set "b" 2 (any_filter ∷ [])
    ∷ set "c" 2 []
    ∷ remove_id 2 "b"
    ∷ remove 1
    ∷ []

subscription-run_example : subscription (run ops []) ≡ run_promised ops (subscription [])
subscription-run_example = subscription-run ops []

run-IsValid_example : IsValid (run ops [])
run-IsValid_example = run-IsValid ops

abbrev two : Listeners
two = run (set "a" 1 (any_filter ∷ []) ∷ set "b" 2 (any_filter ∷ []) ∷ []) []

deliveries-notify_example :
    deliveries 2 "b" (notify_listeners nostr note two) ≡ due nostr note (subscription two 2 "b")
deliveries-notify_example =
    deliveries-notify nostr note 2 "b" two
      (run-IsValid (set "a" 1 (any_filter ∷ []) ∷ set "b" 2 (any_filter ∷ []) ∷ []))

CarriesEvent-notify_example : All (CarriesEvent nostr note) (notify_listeners nostr note two)
CarriesEvent-notify_example = CarriesEvent-notify nostr note two

filter_equal_refl : (f : Filter) → nostr.filter_equal f f ≡ true
filter_equal_refl f = (int_beq_iff f.limit f.limit).1 refl

get_listening_filters-Collected_example :
    Collected nostr (listener_filters nostr two) (get_listening_filters nostr two)
get_listening_filters-Collected_example =
    get_listening_filters-Collected nostr filter_equal_refl two

-- Connection 1 asks under a new id for what it has under "sub".
abbrev hub_world : World (List Event)
hub_world = record (world (note ∷ [])) { listeners = run (set "sub" 1 (any_filter ∷ []) ∷ []) [] }

handle_req_switches_example :
    (got hub [] 1 "new"
        ("filter" ∷ [])
        (interrupted hub [] 1 "new" ("filter" ∷ []) (notify nostr note) hub_world).1
      ≡ 1)
    × ((interrupted hub [] 1 "new" ("filter" ∷ []) (notify nostr note) hub_world).1.listeners
        ≡ (handle_req hub [] 1 "new" ("filter" ∷ []) hub_world).1.listeners)
    × (got hub [] 1 "new"
          ("filter" ∷ [])
          ((handle_req hub [] 1 "new" ("filter" ∷ []) >> notify nostr note) hub_world).1
        ≡ 2)
unfolding serve_filters fetch_event ql_call ql deliveries handle_req subscription lookup run
    set_listener insert
handle_req_switches_example =
    handle_req_switches hub [] 1 "new" ("filter" ∷ []) note hub_world
      (record hub_world { sent = record { ws = 1; frame = Frame.event "new" note } ∷ [] })
      (any_filter ∷ []) refl refl (run-IsValid (set "sub" 1 (any_filter ∷ []) ∷ []))

view-run_apart_example : view (run ops []) ≡ view (run (calls_of 1 ops) (run (calls_but 1 ops) []))
view-run_apart_example = view-run_apart 1 ops []
