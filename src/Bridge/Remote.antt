-- ===== src/Bridge/Remote.antt =====
-- The hub's call of a peer and the peer's service together: a remote storage.
use demedia_nostr.Prelude.{String, ◌≡◌, refl, ◌∙◌, none, List, [], ◌∷◌}
use demedia_nostr.Prelude.Map.{Map}
use demedia_nostr.Nostr.{Event, Filter, ok}
use demedia_nostr.Storage.{Storage}
use demedia_nostr.Ql.{BridgeCall, Codec, Network, called, continue, ql_call}
use demedia_nostr.Bridge.{done, dispatch, ql}

-- What the program relies on in encoding/json: what is marshalled is read back.
pub record IsLossless (j : Codec) : Type 0 where
  pub event : (d : Event) (s : String) → j.marshal_event d ≡ ok s → j.unmarshal_event s ≡ ok d
  pub filter : (d : Filter) (s : String) → j.marshal_filter d ≡ ok s → j.unmarshal_filter s ≡ ok d
  pub events :
      (d : List Event) (s : String) → j.marshal_events d ≡ ok s → j.unmarshal_events s ≡ ok d
  pub call : (d : BridgeCall) (s : String) → j.marshal_call d ≡ ok s → j.unmarshal_call s ≡ ok d

-- The address leads to one peer, which answers calls of BridgeService.Ql by its method, and which
-- the hub can connect to without a change of the state outside.
pub record LeadsTo {Env : Type 0} (j : Codec) (net : Network Env) (storage : Storage Env)
    (address : String) : Type 0 where
  pub ma : net.Multiaddr
  pub info : net.AddrInfo
  pub parses : net.new_multiaddr address ≡ ok ma
  pub resolves : (w : Env) → net.resolve ma w ≡ ok (ma ∷ [])
  pub has_info : net.addr_info ma ≡ ok info
  pub connects : (w : Env) → net.connect info w ≡ (none, w)
  pub answers :
      (args : String) (w : Env) → net.call info "BridgeService" "Ql" args w ≡ ql j storage args w

module _ {Env : Type 0} (j : Codec) (net : Network Env) (storage : Storage Env) (address : String)
    (lossless : IsLossless j) (leads : LeadsTo j net storage address)
    (carrier : Map String String) where
  ql_call-dispatch :
      (body method args : String) (w : Env)
      → j.marshal_call (record { body = body; method = method; carrier = carrier }) ≡ ok args
      → ql_call net j (ok body) address "BridgeService" "Ql" method carrier w
        ≡ called (dispatch j storage (record { body = body; method = method; carrier = carrier }) w)
  unfolding ql_call ql
  ql_call-dispatch body method args w h =
      rw
        (
          leads.parses,
          leads.resolves w,
          leads.has_info,
          leads.connects w,
          h,
          leads.answers args w,
          lossless.call _ args h,
        )
        refl

  -- A call of saveEvent at an address that leads to a peer does to the state outside what the
  -- peer's storage does when it saves the event, and fails exactly if that fails.
  pub remote_save :
      (evt : Event) (body args : String) (w : Env)
      → j.marshal_event evt ≡ ok body
      → j.marshal_call (record { body = body; method = "saveEvent"; carrier = carrier }) ≡ ok args
      → ql_call net j (j.marshal_event evt) address "BridgeService" "Ql" "saveEvent" carrier w
        ≡ called (done (storage.save_event evt w))
  remote_save evt body args w e h =
      rw e (ql_call-dispatch body "saveEvent" args w h ∙ rw (lossless.event evt body e) refl)

  -- If json reads back what it writes, and the event and the call can be written, then a call of
  -- deleteEvent at an address that leads to a peer does to the state outside what the peer's
  -- storage does when it deletes by the event's id and author, and fails exactly if that fails.
  pub remote_delete :
      (evt : Event) (body args : String) (w : Env)
      → j.marshal_event evt ≡ ok body
      → j.marshal_call (record { body = body; method = "deleteEvent"; carrier = carrier }) ≡ ok args
      → ql_call net j (j.marshal_event evt) address "BridgeService" "Ql" "deleteEvent" carrier w
        ≡ called (done (storage.delete_event evt.id evt.pub_key w))
  remote_delete evt body args w e h =
      rw e (ql_call-dispatch body "deleteEvent" args w h ∙ rw (lossless.event evt body e) refl)

  -- The same of queryEvents: the reply is the text of the events that the peer's storage finds.
  pub remote_query :
      (f : Filter) (body args : String) (w : Env)
      → j.marshal_filter f ≡ ok body
      → j.marshal_call (record { body = body; method = "queryEvents"; carrier = carrier }) ≡ ok args
      → ql_call net j (j.marshal_filter f) address "BridgeService" "Ql" "queryEvents" carrier w
        ≡ called (continue (λ events w'. (j.marshal_events events, w')) (storage.query_events f w))
  remote_query f body args w e h =
      rw e (ql_call-dispatch body "queryEvents" args w h ∙ rw (lossless.filter f body e) refl)
