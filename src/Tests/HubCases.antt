-- ===== src/Tests/HubCases.antt =====
-- The theorems of Bridge and of the hub's calls at the peer of the tests.
use demedia_nostr.Prelude.{true, [], ◌∷◌, ◌++◌, ◌≡◌, refl}
use demedia_nostr.Prelude.Go.{returns}
use demedia_nostr.Prelude.{[], string_eq}
use demedia_nostr.Listener.{notify_listeners}
use demedia_nostr.Server.Events.{send_event}
use demedia_nostr.Server.Hosted.{send_event-saved}
use demedia_nostr.Tests.Packages.{nostr}
use demedia_nostr.Tests.Hub.{note, codec-IsLossless, network-LeadsTo, peer, hub, world}

send_event-saved_example : send_event hub [] note (world []) ≡ (
  returns (true, ""),
  record (world []) {
    env = note ∷ [];
    sent = [] ++ notify_listeners nostr note (world []).listeners;
  },
)
send_event-saved_example =
    send_event-saved hub [] peer codec-IsLossless note (world []) "/dns/alice" "note" "save" []
      (note ∷ []) refl refl refl network-LeadsTo refl refl refl
