-- ===== src/Elastic/Search.antt =====
-- query.go: getByID, QueryEvents and CountEvents.
use demedia_nostr.Prelude.{
  ℕ, ◌+◌, ◌-◌, ◌%◌, ◌^◌, String, Option, none, some, List, [], ◌∷◌, map, length, ltb, ℤ, pos,
  negsuc, if◌then◌else◌,
}
use demedia_nostr.Prelude.Text.{◌<>◌}
use demedia_nostr.Nostr.{Event, Filter, Error, message, error_text, Result, ok, err}
use demedia_nostr.Elastic.Dsl.{build_dsl, is_get_by_id}
use demedia_nostr.Elastic.Client.{
  IndexedEvent, Doc, Response, refused, body, Client, returns, blocks, exits, Act, ◌>>=◌, ◌>>◌,
  pure, lift,
}

-- The loop's variable after the last round; the language version of the module, 1.18, has one
-- variable for all rounds.
abbrev pub last_doc : Doc → List Doc → Doc
last_doc d [] = d
last_doc d (d' ∷ docs) = last_doc d' docs

-- A pointer to a field of that variable, for each document that is found.
unfoldable pub found_as : Event → List Doc → List Event
found_as evt [] = []
found_as evt (d ∷ docs) = let rest = found_as evt docs in if d.found then evt ∷ rest else rest

-- What the pointers lead to when the function returns.
unfoldable pub found_events : List Doc → List Event
unfolding found_as
found_events [] = []
found_events (d ∷ docs) = found_as (last_doc d docs).source.event (d ∷ docs)

-- Both errors of the call are returned as they are.
abbrev pub fetched : Result (Result (List Doc)) → Result (List Event)
fetched (err e) = err e
fetched (ok (err e)) = err e
fetched (ok (ok docs)) = ok (found_events docs)

-- 1000, or the filter's limit if it is positive and less
unfoldable pub limit_of : ℤ → ℕ
limit_of (pos n) = if ltb 0 n then (if ltb n 1000 then n else 1000) else 1000
limit_of (negsuc n) = 1000

-- An int64, of the sum of two.
abbrev pub int64 : ℕ → ℤ
int64 n = if ltb (n % 2 ^ 64) (2 ^ 63) then pos (n % 2 ^ 64) else negsuc (2 ^ 64 - 1 - n % 2 ^ 64)

module _ {Env : Type 0} (es : Client Env) (index_name : String) where
  unfoldable pub get_by_id : Filter → Act Env (Result (List Event))
  unfolding found_events
  get_by_id f = do r ← lift (es.mget index_name f); pure (fetched r)

  -- `ch <- evt` for each event, where nobody receives, and then close(ch).
  abbrev pub send_all : List Event → Act Env (Unit {0})
  send_all [] w = (returns tt, w)
  send_all (evt ∷ events) w = (blocks, w)

  -- The block `if isGetByID(filter)`; an error is wrapped and returned.
  abbrev pub after_get_by_id : Result (List Event) → Act Env (Option Error)
  after_get_by_id (err e) = pure (some (message ("error getting by id: " <> error_text e)))
  after_get_by_id (ok events) = do send_all events; pure none

  unfoldable pub send_by_id : Filter → Act Env (Option Error)
  unfolding get_by_id
  send_by_id f = if is_get_by_id f then (do r ← get_by_id f; after_get_by_id r) else pure none

  abbrev pub hits : Result (Response (List IndexedEvent)) → Act Env (Result (List Event))
  hits (err e) w = (exits, w)
  hits (ok (refused txt)) w = (returns (err (message txt)), w)
  hits (ok (body (err e))) w = (returns (err e), w)
  hits (ok (body (ok es))) w = (returns (ok (map (λ (i : IndexedEvent). i.event) es)), w)

  abbrev pub run_search : Filter → Result String → Act Env (Result (List Event))
  run_search f (err e) = pure (err e)
  run_search f (ok dsl) = do
    res ← lift (es.search index_name dsl (limit_of f.limit) "event.created_at:desc")
    hits res

  abbrev pub unless_failed : Filter → Option Error → Act Env (Result (List Event))
  unless_failed f (some e) = pure (err e)
  unless_failed f none = run_search f (es.marshal_query (build_dsl f))

  unfoldable pub query_events : Option Filter → Act Env (Result (List Event))
  unfolding send_by_id limit_of build_dsl
  query_events none = pure (err (message "filter cannot be null"))
  query_events (some f) = do e ← send_by_id f; unless_failed f e

  -- The block of CountEvents: the number of the events that were found.
  abbrev pub count_found : Result (List Event) → Result ℕ
  count_found (err e) = err (message ("error getting by id: " <> error_text e))
  count_found (ok events) = ok (length events)

  unfoldable pub count_by_id : Filter → Act Env (Result ℕ)
  unfolding get_by_id
  count_by_id f = if is_get_by_id f then (do r ← get_by_id f; pure (count_found r)) else pure (ok 0)

  abbrev pub counted : ℕ → Result (Response ℕ) → Act Env (Result ℤ)
  counted n (err e) w = (exits, w)
  counted n (ok (refused txt)) w = (returns (err (message txt)), w)
  counted n (ok (body (err e))) w = (returns (err e), w)
  counted n (ok (body (ok c))) w = (returns (ok (int64 (c + n))), w)

  abbrev pub run_count : ℕ → Result String → Act Env (Result ℤ)
  run_count n (err e) = pure (err e)
  run_count n (ok dsl) = do res ← lift (es.count index_name dsl); counted n res

  abbrev pub after_count : Filter → Result ℕ → Act Env (Result ℤ)
  after_count f (err e) = pure (err e)
  after_count f (ok n) = run_count n (es.marshal_query (build_dsl f))

  unfoldable pub count_events : Option Filter → Act Env (Result ℤ)
  unfolding count_by_id build_dsl
  count_events none = pure (err (message "filter cannot be null"))
  count_events (some f) = do r ← count_by_id f; after_count f r
