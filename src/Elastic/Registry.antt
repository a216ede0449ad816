-- ===== src/Elastic/Registry.antt =====
-- elasticsearch.go: GetPeer and SavePeer, which are those of the Postgres storage on a map of its
-- own. That map is nil, here `none`, unless whoever makes the storage gives it one.
use demedia_nostr.Prelude.{ℕ, String, Option, none, some, []}
use demedia_nostr.Prelude.Go.{Go, returns, panics}
use demedia_nostr.Postgres.Peers
use demedia_nostr.Postgres.Peers.{Peers}

-- A nil map reads as an empty one.
abbrev pub entries : Option Peers → Peers
entries none = []
entries (some peers) = peers

unfoldable pub get_peer : (ℕ → ℕ) → String → Option Peers → String
get_peer intn pubkey peers = Peers.get_peer intn pubkey (entries peers)

-- An assignment to an entry of a nil map panics.
unfoldable pub save_peer : ℕ → String → String → Option Peers → Go Peers
save_peer now address pubkey none = panics
save_peer now address pubkey (some peers) = returns (Peers.save_peer now address pubkey peers)
