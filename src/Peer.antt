-- ===== src/Peer.antt =====
-- peer/handler/handler.go: the events that a peer answers with over HTTP, each with the verdict on
-- its last tag.
pub mod Verdicts
pub mod Pinger
use demedia_nostr.Prelude.{
  String, Bool, true, false, ◌==◌, ◌&&◌, Option, none, some, List, [], ◌∷◌, ◌++◌, pos, int_beq,
  if◌then◌else◌,
}
use demedia_nostr.Prelude.Text.{format_bool}
use demedia_nostr.Prelude.Hex.{hex_encode}
use demedia_nostr.Prelude.Go.{Go, returns, panics, blocks, ◌>>=◌}
use demedia_nostr.Nostr.{Event, Filter, Tag, Result, ok, err}
use demedia_nostr.HashUtil.{Crypto, get_verification, get_sha256, stringify_event}
use demedia_nostr.Server.Verify.{set_verdict}

-- The tags before the last, and the last, of the tags that start with one.
abbrev pub split_last : Tag → List Tag → List Tag × Tag
split_last tag [] = ([], tag)
split_last tag (t ∷ ts) = let (before, last) = split_last t ts in (tag ∷ before, last)

module _ (c : Crypto) (pub_key : c.PublicKey) where
  -- The event with its last tag replaced, and its new ID.
  abbrev pub with_last : Event → List Tag → Tag → Event
  with_last evt before tag =
      let evt' : Event = record evt { tags = before ++ (tag ∷ []) } in
      record evt' { id = hex_encode (get_sha256 c (stringify_event evt')) }

  abbrev pub on_verification : Event → List Tag → Tag → Result Bool → Go Event
  on_verification evt before tag (err e) = returns evt
  on_verification evt before tag (ok b) =
      set_verdict tag (format_bool b) >>= λ tag'. returns (with_last evt before tag')

  abbrev pub on_last : Event → List Tag → Tag → Go Event
  on_last evt before [] = returns evt
  on_last evt before (name ∷ []) = if name == "hash" then panics else returns evt
  on_last evt before (name ∷ sig ∷ more) =
      if name == "hash"
      then get_verification c sig (get_sha256 c evt.content) pub_key
        >>= on_verification evt before (name ∷ sig ∷ more)
      else returns evt

  abbrev pub on_tags : Event → List Tag → Go Event
  on_tags evt [] = returns evt
  on_tags evt (tag ∷ tags) = let (before, last) = split_last tag tags in on_last evt before last

  -- One round of the loop.
  unfoldable pub give_verdict : Event → Go Event
  give_verdict evt = if int_beq evt.kind (pos 1) then on_tags evt evt.tags else returns evt

  unfoldable pub give_verdicts : List Event → Go (List Event)
  unfolding give_verdict
  give_verdicts [] = returns []
  give_verdicts (evt ∷ events) =
      give_verdict evt >>= λ evt'. give_verdicts events >>= λ events'. returns (evt' ∷ events')

  -- The answer to GET /v1/data, from what QueryEvents returns.
  unfoldable pub data_handler : Result (List Event) → Go (Result (List Event))
  unfolding give_verdicts
  data_handler (err e) = returns (err e)
  data_handler (ok events) = give_verdicts events >>= λ events'. returns (ok events')
