-- ===== src/Server/Signatures.antt =====
-- handlers.go: what the check of an event's signature decides.
use demedia_nostr.Prelude.{ℕ, String, Bool, true, false, List, [], ◌∷◌, ◌≡◌, refl, pos, int_beq}
use demedia_nostr.Prelude.Map.{Map}
use demedia_nostr.Prelude.Go.{returns, panics}
use demedia_nostr.Nostr.{Event, Tag, ok}
use demedia_nostr.HashUtil.{Crypto, get_sing, get_sha256}
use demedia_nostr.HashUtil.Laws.{IsLawful, get_verification-get_sing}
use demedia_nostr.Server.{Server, World, continue}
use demedia_nostr.Server.Publish.{identified, checked, handle_event}
use demedia_nostr.Server.Deletion.{delete_tags}
use demedia_nostr.Server.Verify.{verify_tag, retagged}

module _ {Env : Type 0} (s : Server Env) (carrier : Map String String) (ws : ℕ) where
  -- An event of kind 5 is carried out whether its signature is found valid or invalid: every
  -- answer of the check but an error leads to the deletions that the tags of the event ask for.
  pub handle_event_deletion :
      (raw : String) (evt : Event) (valid : Bool) (w : World Env)
      → s.codec.unmarshal_event raw ≡ ok evt
      → s.nostr.check_signature (identified s evt) ≡ ok valid
      → int_beq evt.kind (pos 5) ≡ true
      → handle_event s carrier ws raw w
        ≡ continue
            (λ _ w'. (returns "", w'))
            (delete_tags s carrier ws (identified s evt) evt.tags w)
  unfolding handle_event checked
  handle_event_deletion raw evt true w d c k = rw (d, c, k) refl
  handle_event_deletion raw evt false w d c k = rw (d, c, k) refl

module _ (c : Crypto) (L : IsLawful c) (key : c.PrivateKey) where
  -- If go-ethereum's functions do what they document, then a hash tag with the signature that
  -- the server's key gives of the hash of an event's content, whatever verdict it holds, has the
  -- verdict "true" when the event is sent to a client, and the event a new ID.
  pub verify_tag-get_sing :
      (evt : Event) (before after : List Tag) (hash_sig old : String) (more : List String)
      → get_sing c (get_sha256 c evt.content) key ≡ ok hash_sig
      → verify_tag c key evt before ("hash" ∷ hash_sig ∷ old ∷ more) after
        ≡ returns (
          retagged c key evt before ("hash" ∷ hash_sig ∷ "true" ∷ more) after,
          "hash" ∷ hash_sig ∷ "true" ∷ more,
        )
  unfolding verify_tag
  verify_tag-get_sing evt before after hash_sig old more h =
      rw (get_verification-get_sing c L (get_sha256 c evt.content) key hash_sig h) refl

  -- If go-ethereum's functions do what they document, then the server panics at a hash tag of two
  -- items, the second of which is what GetSing returns for the hash of the event's content under
  -- the server's key.
  pub verify_tag_short :
      (evt : Event) (before after : List Tag) (hash_sig : String)
      → get_sing c (get_sha256 c evt.content) key ≡ ok hash_sig
      → verify_tag c key evt before ("hash" ∷ hash_sig ∷ []) after ≡ panics
  unfolding verify_tag
  verify_tag_short evt before after hash_sig h =
      rw (get_verification-get_sing c L (get_sha256 c evt.content) key hash_sig h) refl
