-- ===== src/Server/Deletion.antt =====
-- handlers.go: an event of kind 5 asks for the deletion of events and of audio files.
use demedia_nostr.Prelude.{
  ℕ, String, Bool, true, false, ◌==◌, Option, none, some, List, [], ◌∷◌, pos, negsuc, if◌then◌else◌,
}
use demedia_nostr.Prelude.Text.{◌<>◌, split}
use demedia_nostr.Prelude.Map.{Map}
use demedia_nostr.Nostr.{Event, Tag, Error, error_text, Frame}
use demedia_nostr.Storage.{AdvancedDeleter}
use demedia_nostr.Server.{Server, Ipfs, M, ◌>>=◌, ◌>>◌, pure, panic, outside, write_json}
use demedia_nostr.Server.Events.{delete_event}

-- nostr.Event{ID: id, PubKey: pubkey}; the zero time is in the year 1.
abbrev pub event_of_id : String → String → Event
event_of_id id pubkey = record {
  id = id;
  pub_key = pubkey;
  created_at = negsuc 62135596799;
  kind = pos 0;
  tags = [];
  content = "";
  sig = "";
}

-- urlChunks[4], where there are five
abbrev pub fifth : List String → Option String
fifth (a ∷ b ∷ c ∷ d ∷ e ∷ []) = some e
fifth _ = none

abbrev pub rounds : {Env : Type 0} → Bool → M Env (Unit {0}) → M Env (Unit {0})
rounds true m = pure tt
rounds false m = m

module _ {Env : Type 0} (s : Server Env) (carrier : Map String String) (ws : ℕ) (evt : Event) where
  unfoldable pub before_delete : Option (AdvancedDeleter Env) → String → M Env (Unit {0})
  before_delete none id = pure tt
  before_delete (some a) id = outside (λ e. (tt, a.before_delete id evt.pub_key e))

  unfoldable pub after_delete : Option (AdvancedDeleter Env) → String → M Env (Unit {0})
  after_delete none id = pure tt
  after_delete (some a) id = outside (λ e. (tt, a.after_delete id evt.pub_key e))

  -- `return` with an error, which is true here, or the loop goes on.
  abbrev pub fail_on : Option Error → M Env Bool
  fail_on none = pure false
  fail_on (some e) = do
    write_json ws (Frame.accepted evt.id false ("error: " <> error_text e))
    pure true

  unfoldable pub delete_id : Bool → String → M Env (Option Error)
  delete_id true id = delete_event s carrier (event_of_id id evt.pub_key)
  delete_id false id = outside (s.relay.storage.delete_event id evt.pub_key)

  abbrev pub unless_stopped : Bool → M Env Bool → M Env Bool
  unless_stopped true m = pure true
  unless_stopped false m = m

  unfoldable pub delete_tagged : String → M Env Bool
  unfolding before_delete after_delete delete_id
  delete_tagged id = do
    before_delete s.relay.advanced_deleter id
    e ← delete_id s.has_host id
    stopped ← fail_on e
    unless_stopped stopped (do after_delete s.relay.advanced_deleter id; pure false)

  abbrev pub unpin : Ipfs Env → Option String → M Env Bool
  unpin i none = pure false
  unpin i (some cid) = do e ← outside (i.delete_file cid); fail_on e

  -- The second test of the loop: it reads tag[0] of every tag, and tag[1] of those that pass.
  unfoldable pub delete_audio : Option (Ipfs Env) → Tag → M Env Bool
  delete_audio i [] = panic
  delete_audio none (name ∷ more) = pure false
  delete_audio (some i) (name ∷ []) = if name == "audio" then panic else pure false
  delete_audio (some i) (name ∷ url ∷ more) =
      if name == "audio" then unpin i (fifth (split url b'/')) else pure false

  unfoldable pub delete_if_e : Tag → M Env Bool
  unfolding delete_tagged
  delete_if_e [] = pure false
  delete_if_e (name ∷ []) = pure false
  delete_if_e (name ∷ id ∷ more) = if name == "e" then delete_tagged id else pure false

  unfoldable pub delete_tags : List Tag → M Env (Unit {0})
  unfolding delete_if_e delete_audio
  delete_tags [] = pure tt
  delete_tags (tag ∷ tags) = do
    stopped ← delete_if_e tag
    stopped' ← unless_stopped stopped (delete_audio s.ipfs tag)
    rounds stopped' (delete_tags tags)
