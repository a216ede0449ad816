-- ===== src/Server/Verify.antt =====
-- handlers.go: the hash tags of an event that is sent to a client are given the verdict on their
-- signature.
use demedia_nostr.Prelude.{
  String, Bool, ◌==◌, ◌&&◌, Option, none, some, List, [], ◌∷◌, ◌++◌, length, ltb, pos, int_beq,
  if◌then◌else◌,
}
use demedia_nostr.Prelude.Text.{format_bool}
use demedia_nostr.Prelude.Hex.{hex_encode}
use demedia_nostr.Prelude.Go.{Go, returns, panics, blocks}
use demedia_nostr.Nostr.{Event, Tag, Result, ok, err}
use demedia_nostr.HashUtil.{Crypto, get_verification, get_sha256, stringify_event}

-- tag[2] = verdict
abbrev pub set_verdict : Tag → String → Go Tag
set_verdict (name ∷ sig ∷ old ∷ more) verdict = returns (name ∷ sig ∷ verdict ∷ more)
set_verdict _ verdict = panics

module _ (c : Crypto) (key : c.PrivateKey) where
  -- The event with its tag at the end of `before` replaced, and its new ID.
  abbrev pub retagged : Event → List Tag → Tag → List Tag → Event
  retagged evt before tag after =
      let evt' : Event = record evt { tags = before ++ (tag ∷ after) } in
      record evt' { id = hex_encode (get_sha256 c (stringify_event evt')) }

  abbrev pub with_verdict : Event → List Tag → Go Tag → List Tag → Go (Event × Tag)
  with_verdict evt before (returns tag) after = returns (retagged evt before tag after, tag)
  with_verdict evt before panics after = panics
  with_verdict evt before blocks after = blocks

  abbrev pub on_verdict : Event → List Tag → Tag → List Tag → Go (Result Bool) → Go (Event × Tag)
  on_verdict evt before tag after (returns (err e)) = returns (evt, tag)
  on_verdict evt before tag after (returns (ok b)) =
      with_verdict evt before (set_verdict tag (format_bool b)) after
  on_verdict evt before tag after panics = panics
  on_verdict evt before tag after blocks = blocks

  -- A round of the loop over the tags: the event and the tag as they are after it.
  unfoldable pub verify_tag : Event → List Tag → Tag → List Tag → Go (Event × Tag)
  verify_tag evt before (name ∷ sig ∷ more) after =
      if name == "hash"
      then on_verdict evt before (name ∷ sig ∷ more) after
          (get_verification c sig (get_sha256 c evt.content) (c.public_key key))
      else returns (evt, name ∷ sig ∷ more)
  verify_tag evt before tag after = returns (evt, tag)

  abbrev pub next_round : Go (Event × Tag) → (Event → Tag → Go Event) → Go Event
  next_round (returns (evt, tag)) f = f evt tag
  next_round panics f = panics
  next_round blocks f = blocks

  -- The tags that the loop has passed, and those that are left.
  unfoldable pub verify_tags : Event → List Tag → List Tag → Go Event
  unfolding verify_tag
  verify_tags evt before [] = returns evt
  verify_tags evt before (tag ∷ after) =
      next_round (verify_tag evt before tag after)
        (λ evt' tag'. verify_tags evt' (before ++ (tag' ∷ [])) after)

unfoldable pub verify_event : (c : Crypto) → Option c.PrivateKey → Event → Go Event
unfolding verify_tags
verify_event c none evt = returns evt
verify_event c (some key) evt =
    if int_beq evt.kind (pos 1) && ltb 0 (length evt.tags)
    then verify_tags c key evt [] evt.tags
    else returns evt
