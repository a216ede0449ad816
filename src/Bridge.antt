-- ===== src/Bridge.antt =====
-- peer/bridge/bridge.go: the method Ql of a peer's BridgeService, which carries out on the peer's
-- storage what the hub asks for. Extracting the trace context from the carrier is left out.
pub mod Remote
pub mod Stored
use demedia_nostr.Prelude.{String, ◌==◌, Option, none, some, List, if◌then◌else◌}
use demedia_nostr.Nostr.{Event, Filter, Error, message, Result, ok, err}
use demedia_nostr.Storage.{Storage}
use demedia_nostr.Ql.{BridgeCall, Codec, Act, ◌>>=◌, lift, raise}

-- The error of a method that returns nothing else; the reply stays empty.
abbrev pub done : {Env : Type 0} → Option Error × Env → Result String × Env
done (none, w) = (ok "", w)
done (some e, w) = (err e, w)

module _ {Env : Type 0} (j : Codec) (storage : Storage Env) where
  abbrev pub dispatch : BridgeCall → Act Env String
  dispatch call =
      if call.method == "saveEvent"
      then (do d ← lift (j.unmarshal_event call.body); λ w. done (storage.save_event d w))
      else if call.method == "queryEvents"
      then (do
        d ← lift (j.unmarshal_filter call.body)
        events ← storage.query_events d
        lift (j.marshal_events events))
      else if call.method == "deleteEvent"
      then (do
        d ← lift (j.unmarshal_event call.body)
        λ w. done (storage.delete_event d.id d.pub_key w))
      else raise "method not found"

  -- The argument is the text of BridgeArgs, and the value that of BridgeReply.
  unfoldable pub ql : String → Act Env String
  ql args = do call ← lift (j.unmarshal_call args); dispatch call
