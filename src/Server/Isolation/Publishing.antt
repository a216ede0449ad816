-- ===== src/Server/Isolation/Publishing.antt =====
-- handlers.go: an event that a connection sends changes nothing of another connection.
use demedia_nostr.Prelude.{
  ℕ, String, Bool, true, false, Option, none, some, List, [], ◌∷◌, nat_eq, string_eq,
}
use demedia_nostr.Prelude.Map.{Map}
use demedia_nostr.Nostr.{Event, Filter, Tag, Result, ok, err, Error, dup_event, message}
use demedia_nostr.Server.{Server, Blob, Ipfs, World, M}
use demedia_nostr.Server.Events.{
  add_event, send_event, delete_event, fetch_event, finish_add, after_save, before_save,
  finish_send,
}
use demedia_nostr.Server.Media.{after_save_file, store_file, after_get, rehost_tag, rehost_tags}
use demedia_nostr.Server.Publish.{rehost}
use demedia_nostr.Storage.{AdvancedSaver, AdvancedDeleter}
use demedia_nostr.Server.Isolation.{Keeps, keeping}
use demedia_nostr.Server.Deletion.{
  delete_tags, delete_audio, delete_if_e, delete_tagged, delete_id, before_delete, after_delete,
  unpin, fail_on, unless_stopped, rounds,
}
use demedia_nostr.Server.Publish.{publish, checked, deliver, decoded_event, handle_event}

module _ {Env : Type 0} (other : ℕ) (w : World Env) where
  module _ (s : Server Env) where
    Keeps-before_save :
        (o : Option (AdvancedSaver Env)) (evt : Event) → Keeps other w (before_save s o evt)
    unfolding before_save
    Keeps-before_save none evt w' h = h
    Keeps-before_save (some a) evt w' h = search (keeping, h)

    Keeps-after_save :
        (o : Option (AdvancedSaver Env)) (evt : Event) → Keeps other w (after_save s o evt)
    unfolding after_save
    Keeps-after_save none evt w' h = h
    Keeps-after_save (some a) evt w' h = search (keeping, h)

    Keeps-finish_add : (evt : Event) (e : Option Error) → Keeps other w (finish_add s evt e)
    unfolding finish_add
    Keeps-finish_add evt (some dup_event) w' h = h
    Keeps-finish_add evt (some (message e)) w' h = h
    Keeps-finish_add evt none w' h = search (keeping, Keeps-after_save, h)

    pub Keeps-add_event : (evt : Event) → Keeps other w (add_event s evt)
    unfolding add_event
    Keeps-add_event evt w' h = search (keeping, Keeps-before_save, Keeps-finish_add, h)

    module _ (carrier : Map String String) where
      Keeps-finish_send :
          (evt : Event) (r : Result String) → Keeps other w (finish_send s carrier evt r)
      unfolding finish_send
      Keeps-finish_send evt (err e) w' h = h
      Keeps-finish_send evt (ok r) w' h = search (keeping, h)

      pub Keeps-send_event : (evt : Event) → Keeps other w (send_event s carrier evt)
      unfolding send_event
      Keeps-send_event evt w' h = search (keeping, Keeps-finish_send, h)

      pub Keeps-delete_event : (evt : Event) → Keeps other w (delete_event s carrier evt)
      unfolding delete_event
      Keeps-delete_event evt w' h = search (keeping, h)

      pub Keeps-fetch_event :
          (pubkey : String) (f : Filter) → Keeps other w (fetch_event s carrier pubkey f)
      unfolding fetch_event
      Keeps-fetch_event pubkey f w' h = search (keeping, h)

    Keeps-after_save_file :
        (b : Blob Env) (name : String) (e : Option Error)
        → Keeps other w (after_save_file s b name e)
    Keeps-after_save_file b name (some e) w' h = h
    Keeps-after_save_file b name none w' h = search (keeping, h)

    Keeps-store_file :
        (b : Option (Blob Env)) (i : Option (Ipfs Env)) (url file_bytes : String)
        → Keeps other w (store_file s b i url file_bytes)
    unfolding store_file
    Keeps-store_file (some b) i url file_bytes w' h = search (keeping, Keeps-after_save_file, h)
    Keeps-store_file none (some i) url file_bytes w' h = search (keeping, h)
    Keeps-store_file none none url file_bytes w' h = h

    Keeps-after_get :
        (url : String) (r : Result (Result String)) → Keeps other w (after_get s url r)
    unfolding after_get
    Keeps-after_get url (err e) w' h = h
    Keeps-after_get url (ok (err e)) w' h = h
    Keeps-after_get url (ok (ok file_bytes)) w' h =
        Keeps-store_file s.blob s.ipfs url file_bytes w' h

    Keeps-rehost_tag : (tag : Tag) → Keeps other w (rehost_tag s tag)
    unfolding rehost_tag
    Keeps-rehost_tag [] w' h = h
    Keeps-rehost_tag (name ∷ []) w' h = h
    Keeps-rehost_tag (name ∷ url ∷ []) w' h = search (keeping, Keeps-after_get, h)
    Keeps-rehost_tag (name ∷ url ∷ x ∷ xs) w' h = h

    Keeps-rehost_tags : (tags : List Tag) → Keeps other w (rehost_tags s tags)
    unfolding rehost_tags
    Keeps-rehost_tags [] w' h = h
    Keeps-rehost_tags (tag ∷ tags) w' h =
        search (keeping, Keeps-rehost_tag tag, Keeps-rehost_tags tags, h)

    pub Keeps-rehost : (evt : Event) → Keeps other w (rehost s evt)
    unfolding rehost
    Keeps-rehost evt w' h = search (keeping, Keeps-rehost_tags, h)

    module _ (carrier : Map String String) (ws : ℕ) (evt : Event) where
      Keeps-before_delete :
          (o : Option (AdvancedDeleter Env)) (id : String)
          → Keeps other w (before_delete s carrier ws evt o id)
      unfolding before_delete
      Keeps-before_delete none id w' h = h
      Keeps-before_delete (some a) id w' h = search (keeping, h)

      Keeps-after_delete :
          (o : Option (AdvancedDeleter Env)) (id : String)
          → Keeps other w (after_delete s carrier ws evt o id)
      unfolding after_delete
      Keeps-after_delete none id w' h = h
      Keeps-after_delete (some a) id w' h = search (keeping, h)

      Keeps-fail_on : (e : Option Error) → Keeps other w (fail_on s carrier ws evt e)
      Keeps-fail_on none w' h = h
      Keeps-fail_on (some e) w' h = search (keeping, h)

      Keeps-delete_id : (b : Bool) (id : String) → Keeps other w (delete_id s carrier ws evt b id)
      unfolding delete_id
      Keeps-delete_id true id w' h = search (Keeps-delete_event, h)
      Keeps-delete_id false id w' h = search (keeping, h)

      Keeps-unless_stopped :
          (b : Bool) (m : M Env Bool)
          → Keeps other w m
          → Keeps other w (unless_stopped s carrier ws evt b m)
      Keeps-unless_stopped true m k w' h = h
      Keeps-unless_stopped false m k w' h = k w' h

      Keeps-delete_tagged : (id : String) → Keeps other w (delete_tagged s carrier ws evt id)
      unfolding delete_tagged
      Keeps-delete_tagged id w' h =
          search
            (
              keeping, Keeps-before_delete, Keeps-after_delete, Keeps-fail_on, Keeps-delete_id,
              Keeps-unless_stopped, h,
            )
            depth 9

      Keeps-unpin : (i : Ipfs Env) (o : Option String) → Keeps other w (unpin s carrier ws evt i o)
      Keeps-unpin i none w' h = h
      Keeps-unpin i (some cid) w' h = search (keeping, Keeps-fail_on, h)

      Keeps-delete_audio :
          (o : Option (Ipfs Env)) (tag : Tag) → Keeps other w (delete_audio s carrier ws evt o tag)
      unfolding delete_audio
      Keeps-delete_audio o [] w' h = h
      Keeps-delete_audio none (name ∷ more) w' h = h
      Keeps-delete_audio (some i) (name ∷ []) w' h = search (keeping, h)
      Keeps-delete_audio (some i) (name ∷ url ∷ more) w' h = search (keeping, Keeps-unpin, h)

      Keeps-delete_if_e : (tag : Tag) → Keeps other w (delete_if_e s carrier ws evt tag)
      unfolding delete_if_e
      Keeps-delete_if_e [] w' h = h
      Keeps-delete_if_e (name ∷ []) w' h = h
      Keeps-delete_if_e (name ∷ id ∷ more) w' h = search (keeping, Keeps-delete_tagged, h)

      Keeps-rounds :
          (b : Bool) (m : M Env (Unit {0})) → Keeps other w m → Keeps other w (rounds b m)
      Keeps-rounds true m k w' h = h
      Keeps-rounds false m k w' h = k w' h

      Keeps-delete_tags : (tags : List Tag) → Keeps other w (delete_tags s carrier ws evt tags)
      unfolding delete_tags
      Keeps-delete_tags [] w' h = h
      Keeps-delete_tags (tag ∷ tags) w' h =
          search
            (
              keeping,
              Keeps-delete_if_e tag,
              Keeps-delete_audio s.ipfs tag,
              Keeps-unless_stopped,
              Keeps-rounds,
              Keeps-delete_tags tags,
              h,
            )
            depth 9

    module _ (carrier : Map String String) (ws : ℕ) where
      Keeps-deliver : (evt : Event) → Keeps other w (deliver s carrier ws evt)
      Keeps-deliver evt w' h = search (keeping, Keeps-send_event, Keeps-add_event, h)

      Keeps-publish : (evt : Event) → Keeps other w (publish s carrier ws evt)
      unfolding publish
      Keeps-publish evt w' h = search (keeping, Keeps-rehost, Keeps-deliver, h)

      Keeps-checked : (evt : Event) (r : Result Bool) → Keeps other w (checked s carrier ws evt r)
      unfolding checked
      Keeps-checked evt (err e) w' h = search (keeping, h)
      Keeps-checked evt (ok valid) w' h = search (keeping, Keeps-delete_tags, Keeps-publish, h)

      Keeps-decoded_event : (r : Result Event) → Keeps other w (decoded_event s carrier ws r)
      Keeps-decoded_event (err e) w' h = h
      Keeps-decoded_event (ok evt) w' h = search (keeping, Keeps-checked, h)

      pub Keeps-handle_event : (raw : String) → Keeps other w (handle_event s carrier ws raw)
      unfolding handle_event
      Keeps-handle_event raw w' h = search (Keeps-decoded_event, h)
