-- ===== src/Elastic/Outcomes.antt =====
-- How the calls of the Elasticsearch storage end.
use mathlib.Core.Path.{subst}
use demedia_nostr.Prelude.{
  All, ◌++◌, sym, ◌+◌, String, Bool, true, false, not, ◌&&◌, Option, none, some, List, [], ◌∷◌,
  length, ◌≡◌, ◌≢◌, refl, ap, ◌∙◌, arith, Bool-cases, inl, inr,
}
use demedia_nostr.Nostr.{Event, Filter, Nostr, Error, Result, ok, err}
use demedia_nostr.Elastic.Dsl.{build_dsl, is_get_by_id, is_nil}
use demedia_nostr.Elastic.Client.{
  IndexedEvent, Doc, Response, refused, body, Item, Answer, success, failure, rejected, silent,
  Client, Run, returns, blocks, exits, Act, continue,
}
use demedia_nostr.Elastic.Search.{
  found_events, found_as, last_doc, fetched, get_by_id, after_get_by_id, send_by_id, hits,
  run_search, unless_failed, query_events, int64, count_by_id, count_events,
}
use demedia_nostr.Elastic.Write.{
  id_filter, or_none, is_owner, delete_event, past_query, ids_found, ids_to_delete, add_deletes,
  with_data, wait_saved, saved, save_event,
}

abbrev pub is_blocked : {A : Type 0} → Run A → Bool
is_blocked (returns a) = false
is_blocked blocks = true
is_blocked exits = false

-- Whether a document is found.
abbrev pub finds : Result (List Event) → Bool
finds (err e) = false
finds (ok events) = not (is_nil events)

found_as-All : (evt : Event) (docs : List Doc) → All (λ e. e ≡ evt) (found_as evt docs)
unfolding found_as
found_as-All evt [] = tt
found_as-All evt (d ∷ docs) = elim (Bool-cases d.found) [
  | inl b ↦ rw b (refl, found_as-All evt docs)
  | inr b ↦ rw b (found_as-All evt docs)
]

last_doc-snoc : (d : Doc) (docs : List Doc) (x : Doc) → last_doc d (docs ++ (x ∷ [])) ≡ x
last_doc-snoc d [] x = refl
last_doc-snoc d (d' ∷ docs) x = last_doc-snoc d' docs x

found_events-All :
    (docs : List Doc) (d : Doc) → All (λ e. e ≡ d.source.event) (found_events (docs ++ (d ∷ [])))
unfolding found_events
found_events-All [] d = found_as-All d.source.event (d ∷ [])
found_events-All (d' ∷ docs) d =
    let all : List Doc = d' ∷ (docs ++ (d ∷ [])) in
    subst (λ (x : Doc). All (λ e. e ≡ d.source.event) (found_as x.source.event all))
      (sym (last_doc-snoc d' docs d)) (found_as-All d.source.event all)

abbrev returned : Run (Result (List Event)) → List Event
returned (returns (ok events)) = events
returned (returns (err e)) = []
returned blocks = []
returned exits = []

module _ {Env : Type 0} (es : Client Env) (index_name : String) where
  hits_end :
      (r : Result (Response (List IndexedEvent))) (w : Env)
      → is_blocked (hits es index_name r w).0 ≡ false
  hits_end (err e) w = refl
  hits_end (ok (refused txt)) w = refl
  hits_end (ok (body (err e))) w = refl
  hits_end (ok (body (ok es'))) w = refl

  run_search_ends :
      (f : Filter) (r : Result String) (w : Env)
      → is_blocked (run_search es index_name f r w).0 ≡ false
  run_search_ends f (err e) w = refl
  run_search_ends f (ok dsl) w = hits_end _ _

  after_get_by_id_blocks :
      (f : Filter) (r : Result (List Event)) (w : Env)
      → is_blocked
          (continue (λ e. unless_failed es index_name f e) (after_get_by_id es index_name r w)).0
        ≡ finds r
  after_get_by_id_blocks f (err e) w = refl
  after_get_by_id_blocks f (ok []) w = run_search_ends f _ w
  after_get_by_id_blocks f (ok (e ∷ events)) w = refl

  -- QueryEvents waits for ever exactly if the filter asks for IDs of 64 characters and for nothing
  -- else, and a document is found for one of them.
  pub query_events_blocks :
      (f : Filter) (w : Env)
      → is_blocked (query_events es index_name (some f) w).0
        ≡ (is_get_by_id f && finds (fetched (es.mget index_name f w).0))
  unfolding query_events send_by_id get_by_id
  query_events_blocks f w = elim (Bool-cases (is_get_by_id f)) [
    | inl b ↦ rw (b, query_events, send_by_id) (after_get_by_id_blocks f _ _)
    | inr b ↦ rw (b, query_events, send_by_id) (run_search_ends f _ w)
  ]

  found_last :
      (f : Filter) (docs : List Doc) (d : Doc) (w w' : Env)
      → es.mget index_name f w ≡ (ok (ok (docs ++ (d ∷ []))), w')
      → get_by_id es index_name f w ≡ (returns (ok (found_events (docs ++ (d ∷ [])))), w')
  unfolding get_by_id
  found_last f docs d w w' m = rw m refl

  -- Every event that getByID returns is that of the last document of the answer, whichever
  -- documents are found.
  pub get_by_id_last :
      (f : Filter) (docs : List Doc) (d : Doc) (events : List Event) (w w' : Env)
      → es.mget index_name f w ≡ (ok (ok (docs ++ (d ∷ []))), w')
      → get_by_id es index_name f w ≡ (returns (ok events), w')
      → All (λ e. e ≡ d.source.event) events
  get_by_id_last f docs d events w w' m g =
      subst (λ r. All (λ e. e ≡ d.source.event) (returned r.0))
        (sym (found_last f docs d w w' m) ∙ g) (found_events-All docs d)

  -- A count of IDs of 64 characters and nothing else, where Elasticsearch counts as many documents
  -- as it finds: the result is twice their number.
  pub count_events_twice :
      (f : Filter) (docs : List Doc) (dsl : String) (w w' w'' : Env)
      → is_get_by_id f ≡ true
      → es.mget index_name f w ≡ (ok (ok docs), w')
      → es.marshal_query (build_dsl f) ≡ ok dsl
      → es.count index_name dsl w' ≡ (ok (body (ok (length (found_events docs)))), w'')
      → count_events es index_name (some f) w
        ≡ (returns (ok (int64 (length (found_events docs) + length (found_events docs)))), w'')
  unfolding count_events count_by_id get_by_id
  count_events_twice f docs dsl w w' w'' b g m c = rw (b, g, m, c) refl

  -- If no event is found under the ID, or the first that is found is of another author, then
  -- DeleteEvent returns no error, and adds nothing to the bulk indexer.
  pub delete_event_other :
      (id pubkey : String) (w : Env)
      → is_owner pubkey (or_none (fetched (es.mget index_name (id_filter id) w).0)) ≡ false
      → delete_event es index_name id pubkey w
        ≡ (returns none, (es.mget index_name (id_filter id) w).1)
  unfolding delete_event get_by_id
  delete_event_other id pubkey w h = rw h refl

  continue_ends :
      {A B : Type 0} (f : A → Act Env B) (r : Run A × Env)
      → is_blocked r.0 ≡ false
      → ((a : A) (w : Env) → is_blocked (f a w).0 ≡ false)
      → is_blocked (continue f r).0 ≡ false
  continue_ends f (returns a, w) h k = k a w
  continue_ends f (blocks, w) h k = absurd (ground (arith, h))
  continue_ends f (exits, w) h k = refl

  add_deletes_ends :
      (ids : List String) (w : Env) → is_blocked (add_deletes es index_name ids w).0 ≡ false
  unfolding add_deletes
  add_deletes_ends [] w = refl
  add_deletes_ends (id ∷ ids) w = add_deletes_ends ids _

  module _ (n : Nostr) where
    -- No query for past events is one by ID.
    pub is_get_by_id-past_query :
        (evt : Event) (f : Filter) → past_query n evt ≡ some f → is_get_by_id f ≡ false
    unfolding past_query is_get_by_id
    is_get_by_id-past_query evt f h = ground (arith, h)

    ids_found_ends :
        (evt : Event) (o : Option Filter) (w : Env)
        → past_query n evt ≡ o
        → is_blocked (ids_found es index_name n evt o w).0 ≡ false
    ids_found_ends evt none w h = refl
    ids_found_ends evt (some f) w h =
        continue_ends _ _
          (query_events_blocks f w
            ∙ ap (λ b. b && finds (fetched (es.mget index_name f w).0))
                (is_get_by_id-past_query evt f h))
          (λ r w'. refl)

    saved_ends :
        (a : Answer) (w : Env) → a ≢ silent → is_blocked (saved es index_name a w).0 ≡ false
    saved_ends success w h = refl
    saved_ends (failure e) w h = refl
    saved_ends (rejected r) w h = refl
    saved_ends silent w h = absurd (h refl)

    module _ (answers : (item : Item) (w : Env) → (es.settle item w).0 ≢ silent) where
      wait_saved_ends :
          (item : Item) (e : Option Error) (w : Env)
          → is_blocked (wait_saved es index_name item e w).0 ≡ false
      wait_saved_ends item (some e) w = refl
      wait_saved_ends item none w = saved_ends _ _ (answers item w)

      with_data_ends :
          (evt : Event) (r : Result String) (w : Env)
          → is_blocked (with_data es index_name n evt r w).0 ≡ false
      unfolding ids_to_delete
      with_data_ends evt (err e) w = refl
      with_data_ends evt (ok data_text) w =
          continue_ends _ _ (ids_found_ends evt _ w refl)
            (λ ids w'. continue_ends _ _ (add_deletes_ends ids w') (λ _ w''. wait_saved_ends _ _ _))

      -- If the bulk indexer calls a callback for every item, then SaveEvent comes to an end for
      -- every event: its queries for past events are none of those that wait for ever.
      pub save_event_ends :
          (evt : Event) (w : Env) → is_blocked (save_event es index_name n evt w).0 ≡ false
      unfolding save_event
      save_event_ends evt w = with_data_ends evt _ w
