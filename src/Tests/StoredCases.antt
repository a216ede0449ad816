-- ===== src/Tests/StoredCases.antt =====
-- The theorems of Bridge.Stored at a peer whose table holds one event.
use demedia_nostr.Prelude.{String, List, none, [], ◌∷◌, ◌++◌, not, ◌-◌, ◌≡◌, refl}
use demedia_nostr.Nostr.{Event, ok}
use demedia_nostr.Ql.{Network, ql_call}
use demedia_nostr.Bridge.{ql}
use demedia_nostr.Bridge.Remote.{LeadsTo}
use demedia_nostr.Bridge.Stored.{remote_delete-rows, remote_save-rows}
use demedia_nostr.Postgres.Table.{PostgresBackend, has_id, save_event, exec, insert_new}
use demedia_nostr.Postgres.Select.{select}
use demedia_nostr.Postgres.Save.{survivors}
use demedia_nostr.Postgres.Backend.{Platform, storage}
use demedia_nostr.Tests.Packages.{nostr}
use demedia_nostr.Tests.Hub.{note, codec, codec-IsLossless}

abbrev pub platform : Platform
platform = record {
  rebind = λ s. s;
  quote = λ s. s;
  query = λ rows s params. ok [];
  now = 7;
  intn = λ n. n - 1;
}

abbrev older : Event
older = record note { id = "n0"; content = "before" }

abbrev table : List Event → PostgresBackend
table rows = record { db = record { rows = rows; faults = [] }; peers = [] }

abbrev to_peer : Network PostgresBackend
to_peer = record {
  Multiaddr = String;
  AddrInfo = String;
  new_multiaddr = λ s. ok s;
  resolve = λ ma w. ok (ma ∷ []);
  addr_info = λ ma. ok ma;
  connect = λ info w. (none, w);
  call = λ info service method args w. ql codec (storage nostr platform) args w;
}

leads : LeadsTo codec to_peer (storage nostr platform) "/dns/alice"
leads = record {
  ma = "/dns/alice";
  info = "/dns/alice";
  parses = refl;
  resolves = λ w. refl;
  has_info = refl;
  connects = λ w. refl;
  answers = λ args w. refl;
}

remote_delete-rows_example :
    ((ql_call to_peer codec
        (ok "note")
        "/dns/alice"
        "BridgeService"
        "Ql"
        "deleteEvent"
        []
        (table (older ∷ note ∷ []))).0
      ≡ ok "")
    × ((ql_call to_peer codec
          (ok "note")
          "/dns/alice"
          "BridgeService"
          "Ql"
          "deleteEvent"
          []
          (table (older ∷ note ∷ []))).1.db.rows
        ≡ select (λ r. not (has_id "n1" "alice" r)) (older ∷ note ∷ []))
remote_delete-rows_example =
    remote_delete-rows codec to_peer nostr platform "/dns/alice" codec-IsLossless leads [] note
      "note" "delete" (table (older ∷ note ∷ [])) refl refl refl

remote_save-rows_example :
    (ql_call to_peer codec
      (ok "note")
      "/dns/alice"
      "BridgeService"
      "Ql"
      "saveEvent"
      []
      (table (older ∷ []))).1.db.rows
    ≡ survivors nostr note (older ∷ []) ++ (note ∷ [])
unfolding ql_call ql storage save_event exec insert_new
remote_save-rows_example =
    remote_save-rows codec to_peer nostr platform "/dns/alice" codec-IsLossless leads [] note "note"
      "save" (table (older ∷ [])) refl refl refl refl
