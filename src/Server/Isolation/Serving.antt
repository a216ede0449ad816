-- ===== src/Server/Isolation/Serving.antt =====
-- handlers.go: no message of a connection changes the subscriptions or the authentication of
-- another.
use demedia_nostr.Prelude.{
  ℕ, String, Option, none, some, List, [], ◌∷◌, ◌≡◌, ◌≢◌, refl, ◌∙◌, arith, nat_eq, string_eq, inl,
  inr, Option-cases,
}
use demedia_nostr.Prelude.Map.{Map, lookup, insert, erase, lookup-insert, lookup-erase}
use demedia_nostr.Nostr.{Event, Filter, Result, ok, err, Write}
use demedia_nostr.Listener.{Listener, Listeners, set_listener, drop_if_empty, remove_listener_id}
use demedia_nostr.Server.{Server, World, M}
use demedia_nostr.Storage.{AdvancedQuerier}
use demedia_nostr.Server.Isolation.{Agrees, Keeps, keeping}
use demedia_nostr.Server.Isolation.Publishing.{Keeps-handle_event, Keeps-fetch_event}
use demedia_nostr.Server.Subscribe.{
  before_query, after_query, send_events, find_events, serve_found, Served, serve_filter,
  after_guard, after_decode, serve_filters, finish_req, handle_req,
}
use demedia_nostr.Server.Dispatch.{
  WebSocket, handle_close, authenticated, decoded_auth, handle_auth, handle_unknown, handle_request,
  with_request, handle_message,
}

lookup-insert_other :
    (other ws : ℕ) (subs : Map String Listener) (l : Listeners)
    → ws ≢ other
    → lookup other (insert ws subs l) ≡ lookup other l
lookup-insert_other other ws subs l ne = ground (arith, lookup-insert other ws subs l, ne)

lookup-set_listener :
    (other ws : ℕ) (id : String) (fs : List Filter) (l : Listeners)
    → ws ≢ other
    → lookup other (set_listener id ws fs l) ≡ lookup other l
unfolding set_listener
lookup-set_listener other ws id fs l ne = elim (Option-cases (lookup ws l)) [
  | inl p ↦ rw (set_listener, p) (lookup-insert_other other ws _ l ne)
  | inr (subs, p) ↦ rw (set_listener, p) (lookup-insert_other other ws _ l ne)
]

lookup-drop_if_empty :
    (other ws : ℕ) (subs : Map String Listener) (l : Listeners)
    → ws ≢ other
    → lookup other (drop_if_empty ws subs l) ≡ lookup other l
lookup-drop_if_empty other ws [] l ne = ground (arith, lookup-erase other ws l, ne)
lookup-drop_if_empty other ws (s ∷ subs) l ne = lookup-insert_other other ws (s ∷ subs) l ne

lookup-remove_listener_id :
    (other ws : ℕ) (id : String) (l : Listeners)
    → ws ≢ other
    → lookup other (remove_listener_id ws id l) ≡ lookup other l
unfolding remove_listener_id
lookup-remove_listener_id other ws id l ne = elim (Option-cases (lookup ws l)) [
  | inl p ↦ rw (remove_listener_id, p) refl
  | inr (subs, p) ↦ rw (remove_listener_id, p) (lookup-drop_if_empty other ws (erase id subs) l ne)
]

module _ {Env : Type 0} (other : ℕ) (w : World Env) (s : Server Env) where
  Keeps-before_query :
      (o : Option (AdvancedQuerier Env)) (f : Filter) → Keeps other w (before_query s o f)
  unfolding before_query
  Keeps-before_query none f w' h = h
  Keeps-before_query (some a) f w' h = search (keeping, h)

  Keeps-after_query :
      (o : Option (AdvancedQuerier Env)) (events : List Event) (f : Filter)
      → Keeps other w (after_query s o events f)
  unfolding after_query
  Keeps-after_query none events f w' h = h
  Keeps-after_query (some a) events f w' h = search (keeping, h)

  module _ (carrier : Map String String) (ws : ℕ) (id : String) where
    Keeps-send_events : (events : List Event) → Keeps other w (send_events s carrier ws id events)
    unfolding send_events
    Keeps-send_events [] w' h = h
    Keeps-send_events (evt ∷ events) w' h = search (keeping, Keeps-send_events events, h)

    Keeps-find_events : (f : Filter) → Keeps other w (find_events s carrier ws id f)
    unfolding find_events
    Keeps-find_events f w' h = search (keeping, Keeps-fetch_event, h)

    Keeps-serve_found :
        (f : Filter) (r : Result (List Event)) → Keeps other w (serve_found s carrier ws id f r)
    unfolding serve_found
    Keeps-serve_found f (err e) w' h = h
    Keeps-serve_found f (ok events) w' h = search (keeping, Keeps-after_query, Keeps-send_events, h)

    Keeps-serve_filter : (f : Filter) → Keeps other w (serve_filter s carrier ws id f)
    unfolding serve_filter
    Keeps-serve_filter f w' h =
        search (keeping, Keeps-before_query, Keeps-find_events, Keeps-serve_found, h) depth 7

    Keeps-after_guard :
        (f : Filter) (o : Option String) (rest : M Env (Served s carrier ws id))
        → Keeps other w rest
        → Keeps other w (after_guard s carrier ws id f o rest)
    Keeps-after_guard f (some notice) rest k w' h = h
    Keeps-after_guard f none rest k w' h = search (keeping, Keeps-serve_filter, k, h)

    Keeps-after_decode :
        (authed : String) (r : Result Filter) (rest : M Env (Served s carrier ws id))
        → Keeps other w rest
        → Keeps other w (after_decode s carrier ws id authed r rest)
    Keeps-after_decode authed (err e) rest k w' h = h
    Keeps-after_decode authed (ok f) rest k w' h = Keeps-after_guard f _ rest k w' h

    pub Keeps-serve_filters :
        (raws : List String) → Keeps other w (serve_filters s carrier ws id raws)
    unfolding serve_filters
    Keeps-serve_filters [] w' h = h
    Keeps-serve_filters (raw ∷ raws) w' h =
        Keeps-after_decode (w'.authed ws) (s.codec.unmarshal_filter raw)
          (serve_filters s carrier ws id raws) (Keeps-serve_filters raws) w' h

    Agrees-set_listener :
        (fs : List Filter) (sent : List Write) (w' : World Env)
        → ws ≢ other
        → Agrees other w w'
        → Agrees other w (record w' { listeners = set_listener id ws fs w'.listeners; sent = sent })
    unfolding Agrees
    Agrees-set_listener fs sent w' ne h =
        (lookup-set_listener other ws id fs w'.listeners ne ∙ h.0, h.1)

    Keeps-finish_req :
        ws ≢ other → (r : Served s carrier ws id) → Keeps other w (finish_req s carrier ws id r)
    Keeps-finish_req ne (inl notice) w' h = h
    Keeps-finish_req ne (inr filters) w' h = Agrees-set_listener filters _ w' ne h

  Keeps-handle_req :
      (carrier : Map String String) (ws : ℕ) (raw : String) (filters : List String)
      → ws ≢ other
      → Keeps other w (handle_req s carrier ws raw filters)
  unfolding handle_req
  Keeps-handle_req carrier ws raw filters ne w' h =
      search (keeping, Keeps-serve_filters, Keeps-finish_req, ne, h)

  module _ (carrier : Map String String) (ws : WebSocket) where
    Agrees-remove_listener_id :
        (id : String) (w' : World Env)
        → ws.address ≢ other
        → Agrees other w w'
        → Agrees other w (record w' { listeners = remove_listener_id ws.address id w'.listeners })
    unfolding Agrees
    Agrees-remove_listener_id id w' ne h =
        (lookup-remove_listener_id other ws.address id w'.listeners ne ∙ h.0, h.1)

    Keeps-handle_close :
        (raw : String) → ws.address ≢ other → Keeps other w (handle_close s carrier ws raw)
    unfolding handle_close
    Keeps-handle_close raw ne w' h = search (keeping, Agrees-remove_listener_id, ne, h)

    Keeps-authenticated :
        (evt : Event) (o : Option String)
        → ws.address ≢ other
        → Keeps other w (authenticated s carrier ws evt o)
    unfolding Agrees
    Keeps-authenticated evt none ne w' h = h
    Keeps-authenticated evt (some pubkey) ne w' h = (h.0, ground (arith, ne, h.1))

    Keeps-decoded_auth :
        (url : String) (r : Result Event)
        → ws.address ≢ other
        → Keeps other w (decoded_auth s carrier ws url r)
    Keeps-decoded_auth url (err e) ne w' h = h
    Keeps-decoded_auth url (ok evt) ne w' h = search (keeping, Keeps-authenticated, ne, h)

    Keeps-handle_auth :
        (o : Option String) (raw : String)
        → ws.address ≢ other
        → Keeps other w (handle_auth s carrier ws o raw)
    unfolding handle_auth
    Keeps-handle_auth none raw ne w' h = h
    Keeps-handle_auth (some url) raw ne w' h = Keeps-decoded_auth url _ ne w' h

    Keeps-handle_unknown :
        (o : Option (ℕ → String → List String → Env → Env)) (typ : String) (request : List String)
        → Keeps other w (handle_unknown s carrier ws o typ request)
    unfolding handle_unknown
    Keeps-handle_unknown none typ request w' h = h
    Keeps-handle_unknown (some f) typ request w' h = search (keeping, h)

    Keeps-handle_request :
        (first second : String) (more : List String)
        → ws.address ≢ other
        → Keeps other w (handle_request s carrier ws first second more)
    unfolding handle_request
    Keeps-handle_request first second more ne w' h =
        search
          (
            keeping, Keeps-handle_event, Keeps-handle_req, Keeps-handle_close, Keeps-handle_auth,
            Keeps-handle_unknown, ne, h,
          )
          depth 8

    Keeps-with_request :
        (r : Result (List String))
        → ws.address ≢ other
        → Keeps other w (with_request s carrier ws r)
    Keeps-with_request (err e) ne w' h = h
    Keeps-with_request (ok []) ne w' h = h
    Keeps-with_request (ok (a ∷ [])) ne w' h = h
    Keeps-with_request (ok (a ∷ b ∷ more)) ne w' h = Keeps-handle_request a b more ne w' h

    Keeps-handle_message :
        (raw : String) → ws.address ≢ other → Keeps other w (handle_message s carrier ws raw)
    unfolding handle_message
    Keeps-handle_message raw ne w' h = search (keeping, Keeps-with_request, ne, h)

-- Whatever message a connection sends, and whether the server panics or not, the subscriptions
-- and the authentication of every other connection stay as they were.
pub handle_message-Agrees :
    {Env : Type 0} (s : Server Env) (carrier : Map String String) (ws : WebSocket) (raw : String)
    (other : ℕ) (w : World Env)
    → ws.address ≢ other
    → (lookup other (handle_message s carrier ws raw w).1.listeners ≡ lookup other w.listeners)
      × ((handle_message s carrier ws raw w).1.authed other ≡ w.authed other)
unfolding Agrees
handle_message-Agrees s carrier ws raw other w ne =
    Keeps-handle_message other w s carrier ws raw ne w (refl, refl)
