-- ===== src/Tests/ErasingCases.antt =====
-- The theorem of Server.Erasing at a hub that gets a forged event of kind 5.
use demedia_nostr.Prelude.{
  String, true, false, none, some, List, [], ◌∷◌, ap, any, not, ◌==◌, ◌≡◌, refl, pos, if◌then◌else◌,
  string_eq,
}
use demedia_nostr.Prelude.Map.{lookup}
use demedia_nostr.Prelude.Go.{returns}
use demedia_nostr.Nostr.{Event, ok, err, message}
use demedia_nostr.Ql.{Codec, Network}
use demedia_nostr.Bridge.{ql}
use demedia_nostr.Bridge.Remote.{IsLossless, LeadsTo}
use demedia_nostr.Postgres.Table.{PostgresBackend, PeerInfo}
use demedia_nostr.Postgres.Peers.{get_peer}
use demedia_nostr.Postgres.Select.{select}
use demedia_nostr.Postgres.Backend.{storage}
use demedia_nostr.Server.{Server, World}
use demedia_nostr.Server.Publish.{handle_event}
use demedia_nostr.Server.Deletion.{event_of_id}
use demedia_nostr.Server.Erasing.{is_named_by, at_rows, handle_event_erases}
use demedia_nostr.Tests.Packages.{nostr, crypto}
use demedia_nostr.Tests.Hub.{
  note, any_filter, is_any_filter, is_any_filter-eq, is_same, is_same-eq, codec_for,
  codec_for-IsLossless, marshal_if-ok,
}
use demedia_nostr.Tests.StoredCases.{platform}

-- Its signature is not alice's.
abbrev deletion : Event
deletion = record note {
  kind = pos 5;
  sig = "bad";
  tags = ("e" ∷ "n1" ∷ []) ∷ ("t" ∷ "n0" ∷ []) ∷ [];
}

abbrev asked : Event
asked = event_of_id "n1" "alice"

abbrev base : Codec
base = codec_for asked (is_same asked) any_filter is_any_filter

base-IsLossless : IsLossless base
base-IsLossless =
    codec_for-IsLossless asked (is_same asked) any_filter is_any_filter
      (λ e h. is_same-eq asked e refl h) is_any_filter-eq

abbrev codec : Codec
codec = record base {
  unmarshal_event = λ s. if s == "deletion" then ok deletion else base.unmarshal_event s;
}

lossless : IsLossless codec
lossless = record {
  event = λ d s e.
      let p = marshal_if-ok (is_same asked d) "note" s e in
      rw (← p.1) (ap ok (is_same-eq asked d refl p.0));
  filter = base-IsLossless.filter;
  events = base-IsLossless.events;
  call = base-IsLossless.call;
}

abbrev network : Network PostgresBackend
network = record {
  Multiaddr = String;
  AddrInfo = String;
  new_multiaddr = λ s. ok s;
  resolve = λ ma w. ok (ma ∷ []);
  addr_info = λ ma. ok ma;
  connect = λ info w. (none, w);
  call = λ info service method args w. ql codec (storage nostr platform) args w;
}

leads : LeadsTo codec network (storage nostr platform) "/dns/alice"
leads = record {
  ma = "/dns/alice";
  info = "/dns/alice";
  parses = refl;
  resolves = λ w. refl;
  has_info = refl;
  connects = λ w. refl;
  answers = λ args w. refl;
}

abbrev hub : Server PostgresBackend
hub = record {
  nostr = nostr;
  crypto = crypto;
  codec = codec;
  network = network;
  relay = record {
    storage = storage nostr platform;
    accept_event = λ evt. true;
    advanced_querier = none;
    advanced_deleter = none;
    advanced_saver = none;
    auther = none;
    custom_handler = none;
  };
  has_host = true;
  blob = none;
  ipfs = none;
  ecdsa_pvt_key = some 5;
  get = λ url w. (err (message "get"), w);
}

abbrev peers : List (String × PeerInfo)
peers = ("alice", record { address = "/dns/alice"; last_update = 7 }) ∷ []

abbrev table : List Event
table = record note { id = "n0" } ∷ note ∷ record note { id = "n2"; pub_key = "bob" } ∷ []

abbrev world : World PostgresBackend
world = record {
  env = record { db = record { rows = []; faults = [] }; peers = [] };
  listeners = [];
  sent = [];
  authed = λ ws. "";
}

handle_event_erases_example :
    handle_event hub [] 1 "deletion"
      (at_rows hub [] 1 nostr platform "/dns/alice" peers "alice" world table)
    ≡ (
      returns "",
      at_rows hub [] 1 nostr platform "/dns/alice" peers "alice" world
          (select (λ r. not (any (λ t. is_named_by "alice" t r) deletion.tags)) table),
    )
unfolding storage get_peer lookup
handle_event_erases_example =
    handle_event_erases hub [] 1 nostr platform "/dns/alice" peers "alice" "deletion" deletion false
      world table
      (record {
        has_host = refl;
        no_deleter = refl;
        lossless = lossless;
        leads = leads;
        knows = λ rows. refl;
      })
      refl refl refl refl
      (
        (refl, record { body = "note"; args = "delete"; of_event = refl; of_call = refl }),
        ((refl, tt), tt),
      )
