-- ===== src/Server/Events.antt =====
-- add-event.go, send-event.go, delete-event.go and fetch-event.go.
use demedia_nostr.Prelude.{
  String, Bool, true, false, ◌&&◌, not, Option, none, some, List, int_leb, int_ltb, ℤ, pos,
  if◌then◌else◌,
}
use demedia_nostr.Prelude.Text.{◌<>◌}
use demedia_nostr.Prelude.Map.{Map}
use demedia_nostr.Nostr.{Event, Filter, Error, dup_event, message, error_text, Result, ok, err}
use demedia_nostr.Storage.{AdvancedSaver}
use demedia_nostr.Ql.{ql_call}
use demedia_nostr.Server.{Server, M, ◌>>=◌, ◌>>◌, pure, outside, notify}

abbrev pub is_ephemeral : ℤ → Bool
is_ephemeral kind = int_leb (pos 20000) kind && int_ltb kind (pos 30000)

module _ {Env : Type 0} (s : Server Env) where
  unfoldable pub before_save : Option (AdvancedSaver Env) → Event → M Env Event
  before_save none evt = pure evt
  before_save (some a) evt = outside (a.before_save evt)

  unfoldable pub after_save : Option (AdvancedSaver Env) → Event → M Env Event
  after_save none evt = pure evt
  after_save (some a) evt = outside (a.after_save evt)

  -- What follows SaveEvent: the switch on its error, or the rest of the function.
  unfoldable pub finish_add : Event → Option Error → M Env (Bool × String)
  finish_add evt (some dup_event) = pure (true, error_text dup_event)
  finish_add evt (some (message e)) = pure (false, "error: failed to save: " <> e)
  finish_add evt none = do
    evt' ← after_save s.relay.advanced_saver evt
    notify s.nostr evt'
    pure (true, "")

  unfoldable pub add_event : Event → M Env (Bool × String)
  unfolding before_save after_save finish_add notify
  add_event evt =
      if not (s.relay.accept_event evt)
      then pure (false, "blocked: event blocked by relay")
      else if is_ephemeral evt.kind
      then (do notify s.nostr evt; pure (true, ""))
      else (do
        evt' ← before_save s.relay.advanced_saver evt
        e ← outside (s.relay.storage.save_event evt')
        finish_add evt' e)

  -- The address of the author's peer, and then the call. The carrier stands for what
  -- TraceContext.Inject makes of the span.
  abbrev pub call_peer :
      Map String String → Result String → String → String → Env → Result String × Env
  call_peer carrier input pubkey method e =
      let (address, e') = s.relay.storage.get_peer pubkey e in
      ql_call s.network s.codec input address "BridgeService" "Ql" method carrier e'

  module _ (carrier : Map String String) where
    unfoldable pub finish_send : Event → Result String → M Env (Bool × String)
    finish_send evt (err e) = pure (false, "error: failed to sand: " <> error_text e)
    finish_send evt (ok _) = do notify s.nostr evt; pure (true, "")

    unfoldable pub send_event : Event → M Env (Bool × String)
    unfolding finish_send notify
    send_event evt =
        if not (s.relay.accept_event evt)
        then pure (false, "blocked: event blocked by relay")
        else if is_ephemeral evt.kind
        then (do notify s.nostr evt; pure (true, ""))
        else (do
          r ← outside (call_peer carrier (s.codec.marshal_event evt) evt.pub_key "saveEvent")
          finish_send evt r)

    abbrev pub deleted : Result String → Option Error
    deleted (ok _) = none
    deleted (err e) = some (message ("error: failed to delete: " <> error_text e))

    unfoldable pub delete_event : Event → M Env (Option Error)
    delete_event evt = do
      r ← outside (call_peer carrier (s.codec.marshal_event evt) evt.pub_key "deleteEvent")
      pure (deleted r)

    -- The events are marshalled by the peer and read back here.
    abbrev pub decoded : Result (List Event) → Result (List Event)
    decoded (ok d) = ok d
    decoded (err e) = err (message ("failed to unmarshal reply data: " <> error_text e))

    abbrev pub fetched : Result String → Result (List Event)
    fetched (err e) = err (message ("error: failed to fetch: " <> error_text e))
    fetched (ok reply) = decoded (s.codec.unmarshal_events reply)

    unfoldable pub fetch_event : String → Filter → M Env (Result (List Event))
    fetch_event pubkey f = do
      r ← outside (call_peer carrier (s.codec.marshal_filter f) pubkey "queryEvents")
      pure (fetched r)
