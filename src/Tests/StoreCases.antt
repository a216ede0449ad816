-- ===== src/Tests/StoreCases.antt =====
-- The theorems of Store at a shell that knows one file and a bucket that has one, and that of
-- Registration at a hub.
use demedia_nostr.Prelude.{
  String, true, none, some, [], ◌∷◌, List, ◌≡◌, refl, ap, arith, eq_iff, ◌-◌,
}
use demedia_nostr.Prelude.Text.{trim}
use demedia_nostr.Prelude.Splits.{has_code}
use demedia_nostr.Prelude.Go.{Go, returns, panics, blocks}
use demedia_nostr.Nostr.{Event, Result, ok, err, message}
use demedia_nostr.Ql.{Codec, Network}
use demedia_nostr.Server.{◌>>=◌, outside}
use demedia_nostr.Server.Deletion.{delete_audio, fail_on}
use demedia_nostr.Store.Blob.{Bucket}
use demedia_nostr.Store.Ipfs.{Shell, upload_file, ipfs_client}
use demedia_nostr.Store.Rehosting.{delete_audio-upload_file}
use demedia_nostr.Postgres.Peers.{Peers, save_peer, get_peer}
use demedia_nostr.Hub.{ping}
use demedia_nostr.Peer.Pinger.{ping_hub}
use demedia_nostr.Hub.Registration.{LeadsToHub, get_peer-ping_hub}
use demedia_nostr.Tests.Hub.{note, codec, hub, world}

abbrev shell : Shell (List Event)
shell = record {
  add = λ data_text w. (ok "Qm1", w);
  cat = λ cid w. (err (message "cat"), w);
  unpin = λ cid w. (none, []);
}

delete_audio-upload_file_example :
    delete_audio hub [] 1 note
      (some (ipfs_client shell))
      ("audio" ∷ "https://gateway.ipfs.io/ipfs/Qm1" ∷ [])
      (world (note ∷ []))
    ≡ (outside (shell.unpin "Qm1") >>= fail_on hub [] 1 note) (world (note ∷ []))
unfolding has_code upload_file
delete_audio-upload_file_example =
    delete_audio-upload_file hub [] 1 note shell "sound" "Qm1" "https://gateway.ipfs.io/ipfs/Qm1" []
      (world (note ∷ [])) [] refl refl refl

abbrev bucket : Bucket (List Event)
bucket = record {
  Writer = String;
  exists = λ filepath w. ((true, none), w);
  new_writer = λ filepath w. (ok filepath, w);
  write = λ writer data_text w. (none, w);
  close = λ writer w. (none, w);
  signed_url = λ filepath w. (ok filepath, w);
  new_reader = λ filepath w. (ok filepath, w);
  delete = λ filepath w. (none, w);
}

abbrev quoted : String
quoted = "\"alice;/dns/a\""

abbrev pings : Codec
pings = record codec {
  marshal_call = λ c. ok "call";
  unmarshal_call = λ s. ok (record { body = quoted; method = ""; carrier = [] });
}

abbrev replied : Go (Result String) × Peers → Result String × Peers
replied (returns r, w) = (r, w)
replied (panics, w) = (err (message "closed"), w)
replied (blocks, w) = (err (message "timeout"), w)

abbrev to_hub : Network Peers
to_hub = record {
  Multiaddr = String;
  AddrInfo = String;
  new_multiaddr = λ s. ok s;
  resolve = λ ma w. ok (ma ∷ []);
  addr_info = λ ma. ok ma;
  connect = λ info w. (none, w);
  call = λ info service method args w. replied (ping pings (save_peer 7) args w);
}

leads : LeadsToHub pings to_hub 7 "/dns/hub"
leads = record {
  ma = "/dns/hub";
  info = "/dns/hub";
  parses = refl;
  resolves = λ w. refl;
  has_info = refl;
  connects = λ w. refl;
  answers = λ args w w' r h. ap replied h;
}

get_peer-ping_hub_example :
    ((ping_hub to_hub pings (λ s. ok quoted) "alice" "/dns/a" "/dns/hub" []).0 ≡ returns 5)
    × (get_peer
          (λ n. n - 1)
          "alice"
          (ping_hub to_hub pings (λ s. ok quoted) "alice" "/dns/a" "/dns/hub" []).1
        ≡ "/dns/a")
unfolding trim has_code
get_peer-ping_hub_example =
    get_peer-ping_hub pings to_hub (λ s. ok quoted) 7 "alice" "/dns/a" "/dns/hub" leads (λ n. n - 1)
      quoted "call" [] refl refl refl refl refl refl (λ h. ground (arith, (eq_iff "/dns/a" "").1 h))
