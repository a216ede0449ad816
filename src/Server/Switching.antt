-- ===== src/Server/Switching.antt =====
-- handlers.go: what a subscriber gets of an event that another goroutine notifies while its REQ is
-- handled, between the answers of the storage and setListener.
use demedia_nostr.Prelude.{
  ℕ, ◌+◌, String, false, ◌==◌, some, List, [], ◌∷◌, ◌++◌, ◌≡◌, refl, ap, sym, ◌∙◌, arith, inr,
  nat_beq_iff, eq_iff, if◌then◌else◌, nat_eq, string_eq,
}
use demedia_nostr.Prelude.Map.{Map}
use demedia_nostr.Prelude.Go.{Go, returns}
use demedia_nostr.Nostr.{Event, Filter, Frame, Write}
use demedia_nostr.Listener.{Listeners, set_listener, notify_listeners}
use demedia_nostr.Listener.Refinement.{in_subs, subscription, subscription-set}
use demedia_nostr.Listener.Validity.{IsValid, set_listener-IsValid}
use demedia_nostr.Listener.Delivery.{deliveries, deliveries-append, due, deliveries-notify}
use demedia_nostr.Server.{Server, World, M, ◌>>=◌, ◌>>◌, pure, notify}
use demedia_nostr.Server.Subscribe.{Served, serve_filters, finish_req, handle_req}
use demedia_nostr.Server.Isolation.{Agrees}
use demedia_nostr.Server.Isolation.Serving.{Keeps-serve_filters}

module _ {Env : Type 0} (s : Server Env) (carrier : Map String String) (ws : ℕ) (raw : String)
    (filters : List String) where
  -- The case "REQ" with a step of another goroutine after the loop over the filters.
  unfoldable pub interrupted : M Env (Unit {0}) → M Env String
  interrupted others =
      let id = s.codec.unmarshal_text raw in
      if id == ""
      then pure "REQ has no <id>"
      else (do r ← serve_filters s carrier ws id filters; others; finish_req s carrier ws id r)

  interrupted_none :
      (w : World Env) → interrupted (pure tt) w ≡ handle_req s carrier ws raw filters w
  unfolding interrupted handle_req
  interrupted_none w = refl

  subscription-serve_filters :
      (w : World Env)
      → subscription
          (serve_filters s carrier ws (s.codec.unmarshal_text raw) filters w).1.listeners
          ws
          (s.codec.unmarshal_text raw)
        ≡ subscription w.listeners ws (s.codec.unmarshal_text raw)
  unfolding Agrees subscription
  subscription-serve_filters w =
      ap (in_subs (s.codec.unmarshal_text raw))
        (Keeps-serve_filters ws w s carrier ws (s.codec.unmarshal_text raw) filters w
          (refl, refl)).0

  -- The EVENT arrays that a connection has got for the id of the request.
  abbrev pub got : World Env → ℕ
  got w = deliveries ws (s.codec.unmarshal_text raw) w.sent

  -- If the answer to a REQ with a non-empty id ends with EOSE, and the listeners are valid when the
  -- last filter has been served, then an event that another goroutine notifies at that moment, before
  -- EOSE and setListener, reaches the id of the request by the filters that it had before, if any,
  -- and the listeners are in the end as if the event had not been; and one that is notified after
  -- the REQ reaches it once if the filters of the REQ match it, else never.
  pub handle_req_switches :
      (evt : Event) (w w' : World Env) (fs : List Filter)
      → (s.codec.unmarshal_text raw == "") ≡ false
      → serve_filters s carrier ws (s.codec.unmarshal_text raw) filters w ≡ (returns (inr fs), w')
      → IsValid w'.listeners
      → (got (interrupted (notify s.nostr evt) w).1
          ≡ got (handle_req s carrier ws raw filters w).1
            + due s.nostr evt (subscription w.listeners ws (s.codec.unmarshal_text raw)))
        × ((interrupted (notify s.nostr evt) w).1.listeners
            ≡ (handle_req s carrier ws raw filters w).1.listeners)
        × (got ((handle_req s carrier ws raw filters >> notify s.nostr evt) w).1
            ≡ got (handle_req s carrier ws raw filters w).1 + due s.nostr evt (some fs))
  unfolding interrupted handle_req notify
  handle_req_switches evt w w' fs e h v =
      let id : String = s.codec.unmarshal_text raw in
      let eose : List Write = record { ws = ws; frame = Frame.eose id } ∷ [] in
      let now : List Write = notify_listeners s.nostr evt w'.listeners in
      let later : Listeners = set_listener id ws fs w'.listeners in
      let old : due s.nostr evt (subscription w'.listeners ws id)
          ≡ due s.nostr evt (subscription w.listeners ws id) =
        ap
          (λ (r : Go (Served s carrier ws id) × World Env).
            due s.nostr evt (subscription r.1.listeners ws id))
          (sym h)
        ∙ ap (due s.nostr evt) (subscription-serve_filters w) in
      let set : subscription later ws id ≡ some fs =
        ground
          (arith, subscription-set w'.listeners ws id fs ws id, nat_beq_iff ws ws, eq_iff id id) in
      let new : due s.nostr evt (subscription later ws id) ≡ due s.nostr evt (some fs) =
        ap (due s.nostr evt) set in
      let during : deliveries ws id ((w'.sent ++ now) ++ eose)
          ≡ deliveries ws id (w'.sent ++ eose) + due s.nostr evt (subscription w.listeners ws id) =
        omega (
          arith,
          deliveries-append ws id (w'.sent ++ now) eose,
          deliveries-append ws id w'.sent now,
          deliveries-append ws id w'.sent eose,
          deliveries-notify s.nostr evt ws id w'.listeners v,
          old,
        ) in
      let after : deliveries ws id ((w'.sent ++ eose) ++ notify_listeners s.nostr evt later)
          ≡ deliveries ws id (w'.sent ++ eose) + due s.nostr evt (some fs) =
        omega (
          arith,
          deliveries-append ws id (w'.sent ++ eose) (notify_listeners s.nostr evt later),
          deliveries-notify s.nostr evt ws id later (set_listener-IsValid id ws fs w'.listeners v),
          new,
        ) in
      rw (e, h) (during, refl, after)
