-- ===== src/Elastic/Write.antt =====
-- elasticsearch.go: SaveEvent and DeleteEvent.
use demedia_nostr.Prelude.{
  String, Bool, false, ◌&&◌, ◌||◌, ◌==◌, Option, none, some, List, [], ◌∷◌, nat_beq, ℤ, pos,
  int_beq, int_leb, int_ltb, if◌then◌else◌,
}
use demedia_nostr.Prelude.Text.{◌<>◌}
use demedia_nostr.Nostr.{Event, Filter, Nostr, Error, message, Result, ok, err}
use demedia_nostr.Elastic.Client.{
  IndexedEvent, Item, index, delete, Answer, success, failure, rejected, silent, Client, returns,
  blocks, Act, ◌>>=◌, ◌>>◌, pure, lift,
}
use demedia_nostr.Elastic.Search.{get_by_id, query_events}

abbrev pub empty_filter : Filter
empty_filter = record {
  ids = none;
  kinds = none;
  authors = none;
  tags = [];
  since = none;
  until = none;
  limit = pos 0;
}

abbrev pub id_filter : String → Filter
id_filter id = record empty_filter { ids = some (id ∷ []) }

-- The filter for the past events of a kind of an author, and the same with a value of "d".
abbrev pub past_filter : Event → Filter
past_filter evt = record empty_filter {
  authors = some (evt.pub_key ∷ []);
  kinds = some (evt.kind ∷ []);
}

abbrev pub d_filter : Event → String → Filter
d_filter evt d = record (past_filter evt) { tags = ("d", d ∷ []) ∷ [] }

-- The document that is indexed.
abbrev pub indexed : Event → IndexedEvent
indexed evt = record {
  event = evt;
  content_search = if int_beq evt.kind (pos 4) then "" else evt.content;
}

-- found[0].PubKey != pubkey
abbrev pub is_owner : String → List Event → Bool
is_owner pubkey [] = false
is_owner pubkey (e ∷ events) = e.pub_key == pubkey

-- found, _ := …
abbrev pub or_none : Result (List Event) → List Event
or_none (err e) = []
or_none (ok events) = events

module _ (n : Nostr) where
  abbrev pub is_replaceable : ℤ → Bool
  is_replaceable kind =
      int_beq kind n.kind_set_metadata
      || int_beq kind n.kind_contact_list
      || int_beq kind n.kind_recommend_server
      || (int_leb (pos 10000) kind && int_ltb kind (pos 20000))

  -- The loop of queryForDelete.
  unfoldable pub delete_ids : Event → List Event → List String
  delete_ids evt [] = []
  delete_ids evt (e ∷ events) =
      let rest = delete_ids evt events in
      if int_beq evt.kind n.kind_recommend_server
      then (if e.content == evt.content then e.id ∷ rest else rest)
      else e.id ∷ rest

  -- Which filter the past events are queried with, if any.
  unfoldable pub past_query : Event → Option Filter
  past_query evt =
      if is_replaceable evt.kind
      then some (past_filter evt)
      else if int_leb (pos 30000) evt.kind && int_ltb evt.kind (pos 40000)
      then elim (n.tags_get_first_value evt.tags "d") [
        | none ↦ none
        | some d ↦ some (d_filter evt d)
      ]
      else none

module _ {Env : Type 0} (es : Client Env) (index_name : String) where
  -- err = <-done, in DeleteEvent: no failure if the document is not there.
  abbrev pub deleted : Answer → Act Env (Option Error)
  deleted success w = (returns none, w)
  deleted (failure e) w = (returns (some e), w)
  deleted (rejected r) w =
      (returns (if nat_beq r.status 404 then none else some (message ("ERROR: " <> r.json))), w)
  deleted silent w = (blocks, w)

  abbrev pub wait_deleted : String → Option Error → Act Env (Option Error)
  wait_deleted id (some e) = pure (some e)
  wait_deleted id none = do a ← lift (es.settle (delete id)); deleted a

  abbrev pub delete_found : String → String → List Event → Act Env (Option Error)
  delete_found id pubkey found =
      if is_owner pubkey found
      then (do e ← lift (es.add (delete id)); wait_deleted id e)
      else pure none

  unfoldable pub delete_event : String → String → Act Env (Option Error)
  unfolding get_by_id
  delete_event id pubkey = do
    r ← get_by_id es index_name (id_filter id)
    delete_found id pubkey (or_none r)

  abbrev pub saved : Answer → Act Env (Option Error)
  saved success w = (returns none, w)
  saved (failure e) w = (returns (some e), w)
  saved (rejected r) w =
      (returns (some (message ("ERROR: " <> r.error_type <> ": " <> r.error_reason))), w)
  saved silent w = (blocks, w)

  -- The loop over deleteIDs, which drops the errors.
  unfoldable pub add_deletes : List String → Act Env (Unit {0})
  add_deletes [] = pure tt
  add_deletes (id ∷ ids) = do lift (es.add (delete id)); add_deletes ids

  abbrev pub wait_saved : Item → Option Error → Act Env (Option Error)
  wait_saved item (some e) = pure (some e)
  wait_saved item none = do a ← lift (es.settle item); saved a

  module _ (n : Nostr) where
    abbrev pub ids_found : Event → Option Filter → Act Env (List String)
    ids_found evt none = pure []
    ids_found evt (some f) = do
      r ← query_events es index_name (some f)
      pure (delete_ids n evt (or_none r))

    unfoldable pub ids_to_delete : Event → Act Env (List String)
    unfolding past_query delete_ids query_events
    ids_to_delete evt = ids_found evt (past_query n evt)

    abbrev pub with_data : Event → Result String → Act Env (Option Error)
    with_data evt (err e) = pure (some e)
    with_data evt (ok data_text) = do
      ids ← ids_to_delete evt
      add_deletes ids
      e ← lift (es.add (index evt.id data_text))
      wait_saved (index evt.id data_text) e

    unfoldable pub save_event : Event → Act Env (Option Error)
    unfolding ids_to_delete add_deletes
    save_event evt = with_data evt (es.marshal_indexed (indexed evt))
