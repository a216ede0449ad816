-- ===== src/Tests/ServerCases.antt =====
-- The theorems of HashUtil and Server at the hub of the tests.
use demedia_nostr.Prelude.{
  String, false, some, List, [], ◌∷◌, ◌≡◌, ◌≢◌, refl, ◌⊎◌, length, arith, pos, ◌<◌, nat_eq,
}
use demedia_nostr.Prelude.Go.{returns}
use demedia_nostr.Prelude.Map.{lookup}
use demedia_nostr.Server.Clients.{Connections}
use demedia_nostr.Nostr.{Filter}
use demedia_nostr.HashUtil.{get_sing, get_sha256}
use demedia_nostr.Server.Publish.{finish_event}
use demedia_nostr.Server.Verify.{verify_event}
use demedia_nostr.Server.Restrict.{restriction}
use demedia_nostr.Server.Dispatch.{WebSocket, handle_message}
use demedia_nostr.Server.Signing.{verify_event-finish_event}
use demedia_nostr.Server.Access.{restriction-none}
use demedia_nostr.Server.Isolation.Serving.{handle_message-Agrees}
use demedia_nostr.Tests.Packages.{crypto, encode, crypto-IsLawful}
use demedia_nostr.Tests.Hub.{note, any_filter, hub, world}

-- The signature of the key 5 for any text.
abbrev hash_sig : String
hash_sig = encode (5 ∷ 9 ∷ 7 ∷ 27 ∷ [])

verify_event-finish_event_example :
    verify_event crypto (some 5) (finish_event hub note false)
    ≡ returns (finish_event hub note false)
unfolding encode get_sing get_sha256
verify_event-finish_event_example =
    verify_event-finish_event hub crypto-IsLawful 5 note hash_sig refl refl refl refl (λ tag. refl)

-- Messages from bob to alice.
abbrev private_filter : Filter
private_filter = record any_filter {
  kinds = some (pos 4 ∷ []);
  authors = some ("bob" ∷ []);
  tags = ("p", "alice" ∷ []) ∷ [];
}

abbrev senders : List String
senders = "bob" ∷ []

abbrev receivers : List String
receivers = "alice" ∷ []

restriction-none_example :
    (◌≢◌ {A = String} "bob" "")
    × (((senders ≡ "bob" ∷ []) × (length receivers < 2))
        ⊎ ((receivers ≡ "bob" ∷ []) × (length senders < 2)))
unfolding restriction lookup
restriction-none_example = restriction-none "bob" private_filter refl refl

abbrev socket : WebSocket
socket = record { address = 2; challenge = "c" }

handle_message-Agrees_example :
    (lookup 1 (handle_message hub [] socket "close" (world [])).1.listeners
      ≡ lookup 1 (world []).listeners)
    × ((handle_message hub [] socket "close" (world [])).1.authed 1 ≡ "")
handle_message-Agrees_example =
    handle_message-Agrees hub [] socket "close" 1 (world []) (λ e. ground (arith, e))

-- Connections 1 and 2, and a subscription of the first.
abbrev connections : Connections
connections = record { clients = (1, tt) ∷ (2, tt) ∷ []; listeners = (world []).listeners }
