-- ===== src/Elastic/Recording.antt =====
-- elasticsearch.go: what SaveEvent asks the bulk indexer for, in order.
use demedia_nostr.Prelude.{
  ℕ, String, Option, none, some, List, [], ◌∷◌, ◌++◌, map, ◌≡◌, refl, ◌∙◌, sym, ap,
}
use mathlib.Core.List.{append_assoc}
use demedia_nostr.Nostr.{Event, Filter, Nostr, Error, Result, ok, err}
use demedia_nostr.Elastic.Client.{
  IndexedEvent, Response, refused, body, Item, index, delete, Answer, success, failure, rejected,
  silent, Client, Run, returns, blocks, exits, continue,
}
use demedia_nostr.Elastic.Search.{hits, run_search, send_by_id, query_events}
use demedia_nostr.Elastic.Write.{
  past_query, delete_ids, or_none, ids_found, ids_to_delete, add_deletes, saved, wait_saved,
  save_event, indexed,
}
use demedia_nostr.Elastic.Outcomes.{is_get_by_id-past_query}

-- `log` tells which items were added to the bulk indexer: an Add appends its item, whether it
-- fails or not, and the other calls of SaveEvent leave the list.
pub record IsRecorded {Env : Type 0} (es : Client Env) (log : Env → List Item) : Type 0 where
  pub of_add : (item : Item) (w : Env) → log (es.add item w).1 ≡ log w ++ (item ∷ [])
  pub of_settle : (item : Item) (w : Env) → log (es.settle item w).1 ≡ log w
  pub of_search :
      (index_name dsl : String) (size : ℕ) (sort : String) (w : Env)
      → log (es.search index_name dsl size sort w).1 ≡ log w

module _ {Env : Type 0} (es : Client Env) (index_name : String) (n : Nostr) (log : Env → List Item)
    (recorded : IsRecorded es log) where
  log-hits :
      (r : Result (Response (List IndexedEvent))) (w : Env) → log (hits es index_name r w).1 ≡ log w
  log-hits (err e) w = refl
  log-hits (ok (refused txt)) w = refl
  log-hits (ok (body (err e))) w = refl
  log-hits (ok (body (ok found))) w = refl

  log-run_search :
      (f : Filter) (r : Result String) (w : Env) → log (run_search es index_name f r w).1 ≡ log w
  log-run_search f (err e) w = refl
  log-run_search f (ok dsl) w = log-hits _ _ ∙ recorded.of_search index_name dsl _ _ w

  log-continue :
      {A B : Type 0} (f : A → B) (r : Run A × Env)
      → log (continue (λ a w. (returns (f a), w)) r).1 ≡ log r.1
  log-continue f (returns a, w) = refl
  log-continue f (blocks, w) = refl
  log-continue f (exits, w) = refl

  log-ids_found :
      (evt : Event) (o : Option Filter) (w : Env)
      → past_query n evt ≡ o
      → log (ids_found es index_name n evt o w).1 ≡ log w
  unfolding query_events send_by_id
  log-ids_found evt none w h = refl
  log-ids_found evt (some f) w h =
      log-continue (λ r. delete_ids n evt (or_none r)) (query_events es index_name (some f) w)
      ∙ rw (is_get_by_id-past_query es index_name n evt f h) (log-run_search f _ w)

  log-saved : (a : Answer) (w : Env) → log (saved es index_name a w).1 ≡ log w
  log-saved success w = refl
  log-saved (failure e) w = refl
  log-saved (rejected r) w = refl
  log-saved silent w = refl

  log-wait_saved :
      (item : Item) (e : Option Error) (w : Env) → log (wait_saved es index_name item e w).1 ≡ log w
  log-wait_saved item (some e) w = refl
  log-wait_saved item none w = log-saved _ _ ∙ recorded.of_settle item w

  log-ids_to_delete : (evt : Event) (w : Env) → log (ids_to_delete es index_name n evt w).1 ≡ log w
  unfolding ids_to_delete
  log-ids_to_delete evt w = log-ids_found evt (past_query n evt) w refl

  -- The deletions, which always return, and then the rest.
  log-after_deletes :
      {B : Type 0} (ids : List String) (f : Env → Run B × Env) (w : Env) (items : List Item)
      → ((v : Env) → log (f v).1 ≡ log v ++ items)
      → log (continue (λ _. f) (add_deletes es index_name ids w)).1
        ≡ log w ++ (map delete ids ++ items)
  unfolding add_deletes
  log-after_deletes [] f w items h = h w
  log-after_deletes (id ∷ ids) f w items h =
      log-after_deletes ids f (es.add (delete id) w).1 items h
      ∙ rw (recorded.of_add (delete id) w)
          (append_assoc (log w) (delete id ∷ []) (map delete ids ++ items))

  -- If the event can be marshalled and its search for past events returns, then SaveEvent adds to
  -- the bulk indexer the deletions of what was found, in order, and the new event after them, even
  -- if the indexer returns errors for deletions.
  pub log-save_event :
      (evt : Event) (data_text : String) (ids : List String) (w w' : Env)
      → es.marshal_indexed (indexed evt) ≡ ok data_text
      → ids_to_delete es index_name n evt w ≡ (returns ids, w')
      → log (save_event es index_name n evt w).1
        ≡ log w ++ (map delete ids ++ (index evt.id data_text ∷ []))
  unfolding save_event
  log-save_event evt data_text ids w w' m h =
      rw (m, h)
        (log-after_deletes ids _ w' (index evt.id data_text ∷ [])
            (λ v. log-wait_saved _ _ _ ∙ recorded.of_add _ v)
          ∙ ap (λ l. l ++ (map delete ids ++ (index evt.id data_text ∷ [])))
              (sym (ap (λ r. log r.1) h) ∙ log-ids_to_delete evt w))
