-- ===== src/Server/Answered.antt =====
-- send-event.go, and handlers.go with fetch-event.go, on a hub whose calls reach a peer with a Postgres storage.
use Prim.Native.String.{len}
use demedia_nostr.Prelude.{
  ℕ, String, true, false, none, some, List, [], ◌∷◌, ◌++◌, map, take, All, pos, ◌≡◌, refl, ◌∙◌, ap,
  if◌then◌else◌,
}
use demedia_nostr.Prelude.Map.{Map}
use demedia_nostr.Prelude.Go.{returns}
use demedia_nostr.Prelude.Hex.{hex_decode}
use demedia_nostr.Nostr.{Event, Filter, Nostr, ok}
use demedia_nostr.Bridge.Remote.{IsLossless, LeadsTo}
use demedia_nostr.Postgres.Table.{PostgresBackend, save_event}
use demedia_nostr.Postgres.Select.{select}
use demedia_nostr.Postgres.Backend.{Platform, storage}
use demedia_nostr.Postgres.Query.Text.{limit_param}
use demedia_nostr.Postgres.Query.Conditions.{Condition, conditions, printed}
use demedia_nostr.Postgres.Query.Conditions.Meaning.{names, all_hold}
use demedia_nostr.Postgres.Query.Saved.{by_id, query_events-save_event}
use demedia_nostr.Listener.{notify_listeners}
use demedia_nostr.Server.{Server, World, outside}
use demedia_nostr.Server.Events.{is_ephemeral, send_event, fetch_event}
use demedia_nostr.Server.Subscribe.{first_of_both, find_events}
use demedia_nostr.Server.Restrict.{or_empty, receivers_of}
use demedia_nostr.Server.Hosted.{send_event-saved, fetch_event-found}

-- The peer that is asked for a filter of one author.
find_events_hosted :
    {Env : Type 0} (s : Server Env) (carrier : Map String String) (ws : ℕ) (id pub_key : String)
    (f : Filter) (w : World Env)
    → s.has_host ≡ true
    → f.authors ≡ some (pub_key ∷ [])
    → find_events s carrier ws id f w ≡ fetch_event s carrier pub_key f w
unfolding find_events
find_events_hosted s carrier ws id pub_key f w h a =
    ap
      (λ b.
        (if b
            then fetch_event s carrier (first_of_both (or_empty f.authors) (receivers_of f)) f
            else outside (s.relay.storage.query_events f))
          w)
      h
    ∙ ap (λ o. fetch_event s carrier (first_of_both (or_empty o) (receivers_of f)) f w) a

module _ (s : Server PostgresBackend) (carrier : Map String String) (n : Nostr) (p : Platform)
    (sort : List Event → List Event) (lossless : IsLossless s.codec) where
  -- Let a hub's calls reach the peer of an event's author, before the event is saved and after;
  -- what the hub's storage and the peer's keep is one state here. If the hub accepts the event, its
  -- kind is stored, and the peer's table takes it without an error, then the hub answers that it was
  -- accepted, and what it then finds for a filter of a REQ for the public key and the ID of the
  -- event is the event and nothing else, provided that the hub has a host, the database runs the
  -- statement of the query by the meaning of SQL and its order leaves one row, and none, as it is,
  -- json reads back what it writes and can write what is sent, the public key and the ID of the
  -- event are 64 hexadecimal digits in lower case, and all IDs and public keys of the table then
  -- have 64 characters.
  pub find_events-send_event :
      (ws : ℕ) (id : String) (evt : Event) (w : World PostgresBackend)
      (address body args filter_body query_args reply : String) (b : PostgresBackend)
      → s.has_host ≡ true
      → s.relay.accept_event evt ≡ true
      → is_ephemeral evt.kind ≡ false
      → s.relay.storage.get_peer evt.pub_key w.env ≡ (address, b)
      → s.relay.storage.get_peer evt.pub_key (save_event n evt b).1
        ≡ (address, (save_event n evt b).1)
      → LeadsTo s.codec s.network (storage n p) address
      → s.codec.marshal_event evt ≡ ok body
      → s.codec.marshal_call (record { body = body; method = "saveEvent"; carrier = carrier })
        ≡ ok args
      → s.codec.marshal_filter (by_id evt.pub_key evt.id) ≡ ok filter_body
      → s.codec.marshal_call
          (record { body = filter_body; method = "queryEvents"; carrier = carrier })
        ≡ ok query_args
      → s.codec.marshal_events (evt ∷ []) ≡ ok reply
      → (save_event n evt b).0 ≡ none
      → names (hex_decode evt.pub_key) evt.pub_key ≡ true
      → names (hex_decode evt.id) evt.id ≡ true
      → All (λ r. (len r.id ≡ 64) × (len r.pub_key ≡ 64)) (save_event n evt b).1.db.rows
      → sort [] ≡ []
      → sort (evt ∷ []) ≡ evt ∷ []
      → ((cs : List Condition) (m : ℕ)
          → conditions (by_id evt.pub_key evt.id) ≡ some cs
          → limit_param (pos 0) ≡ pos m
          → p.query
              (save_event n evt b).1.db.rows
              (p.rebind (printed (pos 0) cs).0)
              (printed (pos 0) cs).1
            ≡ ok (map ok (take m (sort (select (all_hold cs) (save_event n evt b).1.db.rows)))))
      → ((send_event s carrier evt w).0 ≡ returns (true, ""))
        × (find_events s carrier ws id (by_id evt.pub_key evt.id) (send_event s carrier evt w).1
            ≡ (returns (ok (evt ∷ [])), (send_event s carrier evt w).1))
  unfolding storage
  find_events-send_event ws id evt w address body args filter_body query_args reply b host a k g g'
        l mb ma mf mq mr h hex hex' full empty one runs =
      let b' : PostgresBackend = (save_event n evt b).1 in
      let sent : World PostgresBackend = record w {
        env = b';
        sent = w.sent ++ notify_listeners s.nostr evt w.listeners;
      } in
      rw
        (send_event-saved s carrier (storage n p) lossless evt w address body args b b' a k g l mb
          ma (ap (λ x. (x, b')) h))
        (
          refl,
          find_events_hosted s carrier ws id evt.pub_key (by_id evt.pub_key evt.id) sent host refl
              ∙ fetch_event-found s carrier (storage n p) lossless (by_id evt.pub_key evt.id)
                  evt.pub_key sent address filter_body query_args reply b' b' (evt ∷ []) g' l mf mq
                  (query_events-save_event n p sort evt b h hex hex' full empty one runs) mr,
        )
