-- ===== src/Store/Rehosting.antt =====
-- handlers.go with blob.go and ipfs.go: what becomes of the audio files of events.
use demedia_nostr.Prelude.{
  ℕ, String, true, false, Option, none, some, List, [], ◌∷◌, ◌≡◌, refl, ◌∙◌, ap, sym,
}
use Prim.Native.String.append
use package.text.Mathlib.TextLemmas.{append_assoc}
use demedia_nostr.Prelude.Text.{◌<>◌, split}
use demedia_nostr.Prelude.Splits.{has_code, split_one, split-append}
use demedia_nostr.Prelude.Map.{Map}
use demedia_nostr.Nostr.{Event, Error, Result, ok, err}
use demedia_nostr.Server.{Server, Ipfs, World, ◌>>=◌, outside, pure}
use demedia_nostr.Server.Media.{store_file, last, url_of}
use demedia_nostr.Server.Deletion.{delete_audio, fail_on}
use demedia_nostr.Store.Blob.{Bucket, blob_storage, save_file, get_file_url}
use demedia_nostr.Store.Ipfs.{Shell, gateway, url_of_cid, upload_file, delete_file, ipfs_client}

split_first : (t : String) → split ("/" <> t) b'/' ≡ "" ∷ split t b'/'
unfolding split
split_first t = rw (append.cons "/" "" t, append.nil) refl

split_slash :
    (k t : String) → has_code b'/' k ≡ false → split (k <> "/" <> t) b'/' ≡ k ∷ split t b'/'
unfolding split
split_slash k t h = split-append k ("/" <> t) t b'/' h (split_first t)

gateway_parts :
    (cid : String)
    → gateway <> cid ≡ "https:" <> "/" <> "/" <> "gateway.ipfs.io" <> "/" <> "ipfs" <> "/" <> cid
gateway_parts cid =
    append_assoc "https://gateway.ipfs.io/ipfs" "/" cid
    ∙ (append_assoc "https://gateway.ipfs.io/" "ipfs" ("/" <> cid)
        ∙ (append_assoc "https://gateway.ipfs.io" "/" ("ipfs" <> "/" <> cid)
            ∙ (append_assoc "https://" "gateway.ipfs.io" ("/" <> "ipfs" <> "/" <> cid)
                ∙ (append_assoc "https:/" "/" ("gateway.ipfs.io" <> "/" <> "ipfs" <> "/" <> cid)
                    ∙ append_assoc "https:" "/"
                        ("/" <> "gateway.ipfs.io" <> "/" <> "ipfs" <> "/" <> cid)))))

split-gateway :
    (cid : String)
    → has_code b'/' cid ≡ false
    → split (gateway <> cid) b'/' ≡ "https:" ∷ "" ∷ "gateway.ipfs.io" ∷ "ipfs" ∷ cid ∷ []
unfolding has_code
split-gateway cid h =
    rw
      (
        gateway_parts,
        split_slash "https:" ("/" <> "gateway.ipfs.io" <> "/" <> "ipfs" <> "/" <> cid) refl,
        split_first ("gateway.ipfs.io" <> "/" <> "ipfs" <> "/" <> cid),
        split_slash "gateway.ipfs.io" ("ipfs" <> "/" <> cid) refl,
        split_slash "ipfs" cid refl,
        split_one cid b'/' h,
      )
      refl

ok_injective : {s t : String} → ok s ≡ ok t → s ≡ t
ok_injective h = ap (λ (r : Result String). of_ok r) h
  where
    of_ok : Result String → String
    of_ok (ok a) = a
    of_ok (err e) = ""

module _ {Env : Type 0} (s : Server Env) (carrier : Map String String) (ws : ℕ) (evt : Event)
    (sh : Shell Env) where
  -- If UploadFile returned the URL of a CID without slash, and an event of kind 5 has a tag "audio"
  -- with that URL, then the CID is unpinned, and an error of that ends the loop with an answer.
  pub delete_audio-upload_file :
      (data_text cid url : String) (more : List String) (w : World Env) (e : Env)
      → has_code b'/' cid ≡ false
      → (sh.add data_text e).0 ≡ ok cid
      → (upload_file sh data_text e).0 ≡ ok url
      → delete_audio s carrier ws evt (some (ipfs_client sh)) ("audio" ∷ url ∷ more) w
        ≡ (outside (sh.unpin cid) >>= fail_on s carrier ws evt) w
  unfolding delete_audio upload_file delete_file
  delete_audio-upload_file data_text cid url more w e h a u =
      let same : gateway <> cid ≡ url = ok_injective (ap url_of_cid (sym a) ∙ u) in
      rw (sym same, split-gateway cid h) refl

module _ {Env : Type 0} (s : Server Env) (b : Bucket Env) where
  -- If the bucket already has a file under the name that an audio file gets, "hub_" and what comes
  -- after the last slash of its URL, then the tag gets the URL of that file, whatever was fetched,
  -- and nothing is written to the bucket.
  pub store_file_exists :
      (i : Option (Ipfs Env)) (url file_bytes : String) (w : World Env) (e : Env) (x : Option Error)
      → b.exists ("hub_" <> last (split url b'/')) w.env ≡ ((true, x), e)
      → store_file s (some (blob_storage b none)) i url file_bytes w
        ≡ (outside (b.signed_url ("hub_" <> last (split url b'/'))) >>= λ u. pure (url_of u))
            (record w { env = e })
  unfolding store_file save_file get_file_url
  store_file_exists i url file_bytes w e x h = rw h refl
