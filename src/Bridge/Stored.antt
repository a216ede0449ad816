-- ===== src/Bridge/Stored.antt =====
-- The hub's calls of a peer whose storage is a Postgres table.
use demedia_nostr.Prelude.{
  String, not, Option, none, some, arith, [], ◌∷◌, ◌++◌, sym, ◌≡◌, refl, ◌∙◌, ap,
}
use demedia_nostr.Prelude.Map.{Map}
use demedia_nostr.Nostr.{Event, Nostr, Error, ok}
use demedia_nostr.Ql.{Codec, Network, called, ql_call}
use demedia_nostr.Bridge.{done}
use demedia_nostr.Bridge.Remote.{IsLossless, LeadsTo, remote_delete, remote_save}
use demedia_nostr.Postgres.Table.{PostgresBackend, fine, fault_of, has_id, delete_event, save_event}
use demedia_nostr.Postgres.Select.{select}
use demedia_nostr.Postgres.Save.{delete_event-rows, save_event-rows, survivors}
use demedia_nostr.Postgres.Backend.{Platform, storage}

done-none : (r : Option Error × PostgresBackend) → r.0 ≡ none → done r ≡ (ok "", r.1)
done-none (none, b) h = refl
done-none (some e, b) h = absurd (ground (arith, h))

none_of_done : (r : Option Error × PostgresBackend) → (called (done r)).0 ≡ ok "" → r.0 ≡ none
none_of_done (none, b) h = refl
none_of_done (some e, b) h = absurd (ground (arith, h))

module _ (j : Codec) (net : Network PostgresBackend) (n : Nostr) (p : Platform) (address : String)
    (lossless : IsLossless j) (leads : LeadsTo j net (storage n p) address)
    (carrier : Map String String) where
  -- If json reads back what it writes, and can write the event and the call, then a call of
  -- deleteEvent at an address that leads to a peer whose table does not fail at the first statement
  -- returns no error, and leaves of the peer's table all but the event that has the id and the
  -- author.
  pub remote_delete-rows :
      (evt : Event) (body args : String) (b : PostgresBackend)
      → j.marshal_event evt ≡ ok body
      → j.marshal_call (record { body = body; method = "deleteEvent"; carrier = carrier }) ≡ ok args
      → fault_of b.db.faults ≡ fine
      → ((ql_call net j
            (j.marshal_event evt)
            address
            "BridgeService"
            "Ql"
            "deleteEvent"
            carrier
            b).0
          ≡ ok "")
        × ((ql_call net j
              (j.marshal_event evt)
              address
              "BridgeService"
              "Ql"
              "deleteEvent"
              carrier
              b).1.db.rows
            ≡ select (λ r. not (has_id evt.id evt.pub_key r)) b.db.rows)
  unfolding storage
  remote_delete-rows evt body args b m c f =
      let (e, rows) = delete_event-rows evt.id evt.pub_key b f in
      rw (remote_delete j net (storage n p) address lossless leads carrier evt body args b m c)
        (rw (done-none (delete_event evt.id evt.pub_key b) e) (refl, rows))

  -- If json reads back what it writes, and can write the event and the call, then a call of
  -- saveEvent at an address that leads to a peer whose table does not fail at the first statement,
  -- and that returns no error, leaves in the peer's table what was there, less what the event
  -- replaces, and the event last.
  pub remote_save-rows :
      (evt : Event) (body args : String) (b : PostgresBackend)
      → j.marshal_event evt ≡ ok body
      → j.marshal_call (record { body = body; method = "saveEvent"; carrier = carrier }) ≡ ok args
      → fault_of b.db.faults ≡ fine
      → (ql_call net j (j.marshal_event evt) address "BridgeService" "Ql" "saveEvent" carrier b).0
        ≡ ok ""
      → (ql_call net j
          (j.marshal_event evt)
          address
          "BridgeService"
          "Ql"
          "saveEvent"
          carrier
          b).1.db.rows
        ≡ survivors n evt b.db.rows ++ (evt ∷ [])
  unfolding storage
  remote_save-rows evt body args b m c f h =
      let s = remote_save j net (storage n p) address lossless leads carrier evt body args b m c in
      let e = none_of_done (save_event n evt b) (sym (ap (λ r. r.0) s) ∙ h) in
      rw s (rw (done-none (save_event n evt b) e) (save_event-rows n evt b f e))
