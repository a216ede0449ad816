-- ===== src/Server/Media.antt =====
-- handlers.go: an audio file of an event is fetched and stored by the hub, and the tag is given
-- the new URL.
use demedia_nostr.Prelude.{
  String, Bool, true, false, ◌==◌, ◌||◌, Option, none, some, List, [], ◌∷◌, if◌then◌else◌,
}
use demedia_nostr.Prelude.Text.{◌<>◌, split}
use demedia_nostr.Nostr.{Tag, Error, Result, ok, err}
use demedia_nostr.Server.{Server, Blob, Ipfs, M, ◌>>=◌, pure, outside}

-- The last element, of a list that is never empty.
abbrev pub last : List String → String
last [] = ""
last (x ∷ []) = x
last (x ∷ y ∷ xs) = last (y ∷ xs)

abbrev pub url_of : Result String → Option String
url_of (ok u) = some u
url_of (err e) = none

-- s.blob != nil || s.ipfs != nil
abbrev pub has_store : {Env : Type 0} → Option (Blob Env) → Option (Ipfs Env) → Bool
has_store none none = false
has_store none (some i) = true
has_store (some b) i = true

module _ {Env : Type 0} (s : Server Env) where
  abbrev pub after_save_file : Blob Env → String → Option Error → M Env (Option String)
  after_save_file b file_name (some e) = pure none
  after_save_file b file_name none = do u ← outside (b.get_file_url file_name); pure (url_of u)

  -- The new URL; `none` is a `continue` of the loop.
  unfoldable pub store_file :
      Option (Blob Env) → Option (Ipfs Env) → String → String → M Env (Option String)
  store_file (some b) i url file_bytes = do
    let file_name = "hub_" <> last (split url b'/')
    e ← outside (b.save_file file_name file_bytes)
    after_save_file b file_name e
  store_file none (some i) url file_bytes = do
    u ← outside (i.upload_file file_bytes)
    pure (url_of u)
  store_file none none url file_bytes = pure (some "")

  unfoldable pub after_get : String → Result (Result String) → M Env (Option String)
  unfolding store_file
  after_get url (err e) = pure none
  after_get url (ok (err e)) = pure none
  after_get url (ok (ok file_bytes)) = store_file s.blob s.ipfs url file_bytes

  abbrev pub with_url : String → String → Option String → Tag × Bool
  with_url name url none = (name ∷ url ∷ [], false)
  with_url name url (some u) = (name ∷ u ∷ [], true)

  -- One round of the loop: the tag, and whether it was changed.
  unfoldable pub rehost_tag : Tag → M Env (Tag × Bool)
  unfolding after_get
  rehost_tag (name ∷ url ∷ []) =
      if name == "audio"
      then (do r ← outside (s.get url); u ← after_get url r; pure (with_url name url u))
      else pure (name ∷ url ∷ [], false)
  rehost_tag tag = pure (tag, false)

  unfoldable pub rehost_tags : List Tag → M Env (List Tag × Bool)
  unfolding rehost_tag
  rehost_tags [] = pure ([], false)
  rehost_tags (tag ∷ tags) = do
    t ← rehost_tag tag
    ts ← rehost_tags tags
    pure (t.0 ∷ ts.0, t.1 || ts.1)
