-- ===== src/Server/Subscribe.antt =====
-- handlers.go: the case "REQ".
use demedia_nostr.Prelude.{
  ℕ, String, ◌==◌, ◌&&◌, Option, none, some, List, [], ◌∷◌, length, take, ltb, ℤ, pos, negsuc,
  if◌then◌else◌, string_eq, ◌⊎◌, inl, inr,
}
use demedia_nostr.Prelude.Map.{Map}
use demedia_nostr.Nostr.{Event, Filter, Result, ok, err, Frame}
use demedia_nostr.Storage.{AdvancedQuerier}
use demedia_nostr.Listener.{set_listener}
use demedia_nostr.Server.{
  Server, M, ◌>>=◌, ◌>>◌, pure, of_go, outside, write_json, update_listeners,
}
use demedia_nostr.Server.Restrict.{or_empty, receivers_of, guard}
use demedia_nostr.Server.Verify.{verify_event}
use demedia_nostr.Server.Events.{fetch_event}

-- senders[0], else receivers[0], else ""
abbrev pub first_of_both : List String → List String → String
first_of_both (x ∷ xs) receivers = x
first_of_both [] (r ∷ rs) = r
first_of_both [] [] = ""

-- events[0:filter.Limit], where the limit is positive and less than their number
unfoldable pub truncate : ℤ → List Event → List Event
truncate (negsuc n) events = events
truncate (pos n) events = if ltb 0 n && ltb n (length events) then take n events else events

module _ {Env : Type 0} (s : Server Env) where
  unfoldable pub before_query : Option (AdvancedQuerier Env) → Filter → M Env Filter
  before_query none f = pure f
  before_query (some a) f = outside (a.before_query f)

  unfoldable pub after_query :
      Option (AdvancedQuerier Env) → List Event → Filter → M Env (List Event × Filter)
  after_query none events f = pure (events, f)
  after_query (some a) events f = outside (a.after_query events f)

  module _ (carrier : Map String String) (ws : ℕ) (id : String) where
    unfoldable pub send_events : List Event → M Env (Unit {0})
    unfolding verify_event
    send_events [] = pure tt
    send_events (evt ∷ events) = do
      evt' ← of_go (verify_event s.crypto s.ecdsa_pvt_key evt)
      write_json ws (Frame.event id evt')
      send_events events

    unfoldable pub find_events : Filter → M Env (Result (List Event))
    find_events f =
        if s.has_host
        then fetch_event s carrier (first_of_both (or_empty f.authors) (receivers_of f)) f
        else outside (s.relay.storage.query_events f)

    abbrev pub send_limited : List Event × Filter → M Env Filter
    send_limited (events, f) = do send_events (truncate f.limit events); pure f

    -- The filter as the body of the loop leaves it.
    unfoldable pub serve_found : Filter → Result (List Event) → M Env Filter
    unfolding after_query send_events truncate
    serve_found f (err e) = pure f
    serve_found f (ok events) = do r ← after_query s.relay.advanced_querier events f; send_limited r

    -- A notice, or the filters as they are after the loop.
    abbrev pub Served : Type 0
    Served = String ⊎ List Filter

    abbrev pub push_filter : Filter → Served → Served
    push_filter f (inl notice) = inl notice
    push_filter f (inr fs) = inr (f ∷ fs)

    unfoldable pub serve_filter : Filter → M Env Filter
    unfolding before_query find_events serve_found
    serve_filter f = do
      f' ← before_query s.relay.advanced_querier f
      found ← find_events f'
      serve_found f' found

    abbrev pub after_guard : Filter → Option String → M Env Served → M Env Served
    after_guard f (some notice) rest = pure (inl notice)
    after_guard f none rest = do f' ← serve_filter f; r ← rest; pure (push_filter f' r)

    abbrev pub after_decode : String → Result Filter → M Env Served → M Env Served
    after_decode authed (err e) rest = pure (inl "failed to decode filter")
    after_decode authed (ok f) rest = after_guard f (guard s.relay.auther authed f) rest

    -- The loop over the filters of the request.
    unfoldable pub serve_filters : List String → M Env Served
    unfolding serve_filter
    serve_filters [] w = pure (inr []) w
    serve_filters (raw ∷ raws) w =
        after_decode (w.authed ws) (s.codec.unmarshal_filter raw) (serve_filters raws) w

    abbrev pub finish_req : Served → M Env String
    finish_req (inl notice) = pure notice
    finish_req (inr filters) = do
      write_json ws (Frame.eose id)
      update_listeners (set_listener id ws filters)
      pure ""

  -- On request[1] and request[2:]; the notice that the function ends with.
  unfoldable pub handle_req : Map String String → ℕ → String → List String → M Env String
  unfolding serve_filters
  handle_req carrier ws raw filters =
      let id = s.codec.unmarshal_text raw in
      if id == ""
      then pure "REQ has no <id>"
      else (do r ← serve_filters carrier ws id filters; finish_req carrier ws id r)
