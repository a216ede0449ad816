-- ===== src/Postgres/Backend.antt =====
-- relayer/storage/postgresql: the type PostgresBackend as the storage of a relay.
use demedia_nostr.Prelude.{ℕ, String, some, List}
use demedia_nostr.Nostr.{Event, Nostr, Result}
use demedia_nostr.Storage.{Storage}
use demedia_nostr.Postgres.Table.{PostgresBackend, delete_event, save_event}
use demedia_nostr.Postgres.Query.Text.{Param, query_events}
use demedia_nostr.Postgres.Peers.{save_peer, get_peer}

-- The packages: the texts that Rebind and the verb %q make, what Query gives for the rows of the
-- table, and the answers of time.Now and rand.Intn.
pub record Platform : Type 0 where
  pub rebind : String → String
  pub quote : String → String
  pub query : List Event → String → List Param → Result (List (Result Event))
  pub now : ℕ
  pub intn : ℕ → ℕ

unfoldable pub storage : Nostr → Platform → Storage PostgresBackend
storage n p = record {
  query_events = λ f b. (query_events p.rebind p.quote (p.query b.db.rows) (some f), b);
  delete_event = delete_event;
  save_event = save_event n;
  save_peer = λ address pubkey b. record b { peers = save_peer p.now address pubkey b.peers };
  get_peer = λ pubkey b. (get_peer p.intn pubkey b.peers, b);
}
