-- ===== src/Server/Publish.antt =====
-- handlers.go: the case "EVENT".
use demedia_nostr.Prelude.{
  ℕ, String, Bool, true, false, ◌==◌, not, ◌&&◌, ◌||◌, Option, none, some, List, [], ◌∷◌, any,
  length, nat_beq, pos, int_beq, if◌then◌else◌,
}
use demedia_nostr.Prelude.Text.{◌<>◌}
use demedia_nostr.Prelude.Hex.{hex_encode}
use demedia_nostr.Prelude.Map.{Map}
use demedia_nostr.Nostr.{Event, Tag, error_text, Result, ok, err, Frame}
use demedia_nostr.HashUtil.{get_sing, get_sha256, stringify_event}
use demedia_nostr.Server.{Server, M, ◌>>=◌, ◌>>◌, pure, write_json}
use demedia_nostr.Server.Events.{add_event, send_event}
use demedia_nostr.Server.Media.{rehost_tags, has_store}
use demedia_nostr.Server.Deletion.{delete_tags}

-- len(tag) >= 2 and tag[0] is "p" or "e"
abbrev pub is_reference : Tag → Bool
is_reference [] = false
is_reference (name ∷ []) = false
is_reference (name ∷ value ∷ more) = name == "p" || name == "e"

abbrev pub is_empty : String → Bool
is_empty s = s == ""

module _ {Env : Type 0} (s : Server Env) where
  -- evt.ID = hex(sha256(evt.Serialize()))
  abbrev pub identified : Event → Event
  identified evt = record evt { id = hex_encode (s.crypto.sha256 (s.nostr.serialize evt)) }

  -- evt.ID = %x of the hash of a text of the event
  abbrev pub renamed : Event → String → Event
  renamed evt p = if is_empty p then evt else record evt { id = hex_encode (get_sha256 s.crypto p) }

  abbrev pub with_hash : Event → Result String → Event × Bool
  with_hash evt (err e) = (evt, false)
  with_hash evt (ok sig) =
      (record evt { tags = s.nostr.append_unique evt.tags ("hash" ∷ sig ∷ "true" ∷ []) }, true)

  -- The event with its hash tag, and whether it was added.
  unfoldable pub sign_content : Option s.crypto.PrivateKey → Bool → Event → Event × Bool
  sign_content none changed evt = (evt, false)
  sign_content (some key) changed evt =
      if int_beq evt.kind (pos 1) && (changed || nat_beq (length evt.tags) 0)
      then with_hash evt (get_sing s.crypto (get_sha256 s.crypto evt.content) key)
      else (evt, false)

  -- From `isHashAdded := false` to the new ID.
  unfoldable pub finish_event : Event → Bool → Event
  unfolding sign_content
  finish_event evt changed =
      let (evt', added) = sign_content s.ecdsa_pvt_key changed evt in
      renamed evt' (if changed || added then stringify_event evt' else "")

  unfoldable pub rehost : Event → M Env (List Tag × Bool)
  rehost evt =
      if int_beq evt.kind (pos 1) && has_store s.blob s.ipfs
      then rehost_tags s evt.tags
      else pure (evt.tags, false)

  module _ (carrier : Map String String) (ws : ℕ) where
    abbrev pub deliver : Event → M Env (Bool × String)
    deliver evt = if s.has_host then send_event s carrier evt else add_event s evt

    unfoldable pub publish : Event → M Env (Unit {0})
    unfolding rehost finish_event
    publish evt = do
      t ← rehost evt
      let hosted : Event = record evt { tags = t.0 }
      let final = finish_event hosted (t.1 || any is_reference t.0)
      r ← deliver final
      write_json ws (Frame.accepted final.id r.0 r.1)

    abbrev pub refuse : Event → String → M Env (Unit {0})
    refuse evt reason = write_json ws (Frame.accepted evt.id false reason)

    -- What follows CheckSignature.
    unfoldable pub checked : Event → Result Bool → M Env (Unit {0})
    checked evt (err e) = refuse evt "error: failed to verify signature"
    checked evt (ok valid) =
        if not valid && not (int_beq evt.kind (pos 5))
        then refuse evt "invalid: signature is invalid"
        else if int_beq evt.kind (pos 5)
        then delete_tags s carrier ws evt evt.tags
        else publish evt

    abbrev pub decoded_event : Result Event → M Env String
    decoded_event (err e) = pure ("failed to decode event: " <> error_text e)
    decoded_event (ok evt) = do
      checked (identified evt) (s.nostr.check_signature (identified evt))
      pure ""

    -- On request[1]; the notice that the function ends with.
    unfoldable pub handle_event : String → M Env String
    unfolding checked
    handle_event raw = decoded_event (s.codec.unmarshal_event raw)
