-- ===== src/Hub/Registration.antt =====
-- peer/main.go, ping.go and get.go together: a peer registers itself at the hub.
use demedia_nostr.Prelude.{
  ℕ, String, eq_iff, false, none, some, [], ◌∷◌, ◌≡◌, ◌≢◌, refl, arith, string_eq,
}
use demedia_nostr.Prelude.Text.{◌<>◌, trim}
use demedia_nostr.Prelude.Splits.{has_code}
use demedia_nostr.Prelude.Map.{lookup, lookup-insert}
use demedia_nostr.Prelude.Go.{returns}
use demedia_nostr.Nostr.{Result, ok}
use demedia_nostr.Ql.{Codec, Network, ql_call}
use demedia_nostr.Postgres.Peers.{Peers, save_peer, get_peer, get_peer_known}
use demedia_nostr.Hub.{is_cut, ping, ping-register}
use demedia_nostr.Peer.Pinger.{ping_hub}

-- The address leads to the hub, which the peer can connect to, and which answers calls of
-- PingService.Ping by its method, at a time.
pub record LeadsToHub (j : Codec) (net : Network Peers) (now : ℕ) (hub : String) : Type 0 where
  pub ma : net.Multiaddr
  pub info : net.AddrInfo
  pub parses : net.new_multiaddr hub ≡ ok ma
  pub resolves : (w : Peers) → net.resolve ma w ≡ ok (ma ∷ [])
  pub has_info : net.addr_info ma ≡ ok info
  pub connects : (w : Peers) → net.connect info w ≡ (none, w)
  pub answers :
      (args : String) (w w' : Peers) (r : Result String)
      → ping j (save_peer now) args w ≡ (returns r, w')
      → net.call info "PingService" "Ping" args w ≡ (r, w')

lookup-save_peer :
    (now : ℕ) (key address : String) (peers : Peers)
    → lookup key (save_peer now address key peers)
      ≡ some (record { address = address; last_update = now })
unfolding save_peer
lookup-save_peer now key address peers = ground (
  arith,
  lookup-insert key key (record { address = address; last_update = now }) peers,
  eq_iff key key,
)

module _ (j : Codec) (net : Network Peers) (marshal_text : String → Result String) (now : ℕ)
    (key address hub : String) (leads : LeadsToHub j net now hub) where
  -- A peer whose call reaches the hub, with a key and an address without a semicolon in them that
  -- json writes as the call's body, and reads back, between quotes, waits five seconds for its next
  -- round, and then the hub's GetPeer returns that address for that key, unless it is empty.
  pub get_peer-ping_hub :
      (intn : ℕ → ℕ) (body args : String) (w : Peers)
      → marshal_text (key <> ";" <> address) ≡ ok body
      → trim body is_cut ≡ key <> ";" <> address
      → j.marshal_call (record { body = body; method = ""; carrier = [] }) ≡ ok args
      → j.unmarshal_call args ≡ ok (record { body = body; method = ""; carrier = [] })
      → has_code b';' key ≡ false
      → has_code b';' address ≡ false
      → address ≢ ""
      → ((ping_hub net j marshal_text key address hub w).0 ≡ returns 5)
        × (get_peer intn key (ping_hub net j marshal_text key address hub w).1 ≡ address)
  unfolding ping_hub ql_call
  get_peer-ping_hub intn body args w m t c u h h' ne =
      rw
        (
          m,
          leads.parses,
          leads.resolves w,
          leads.has_info,
          leads.connects w,
          c,
          leads.answers args w _ _ (
              ping-register j (save_peer now) args key address
                (record { body = body; method = ""; carrier = [] }) w u t h h'),
        )
        (
          refl,
          get_peer_known intn key (save_peer now address key w)
              (record { address = address; last_update = now }) (lookup-save_peer now key address w)
              ne,
        )
