-- ===== src/Server/Faults.antt =====
-- handlers.go: a deletion event that makes the server panic.
use demedia_nostr.Prelude.{
  ℕ, String, Bool, true, false, ◌==◌, not, none, List, [], ◌∷◌, ◌++◌, ◌≡◌, refl, arith, All,
}
use demedia_nostr.Prelude.Map.{Map}
use demedia_nostr.Prelude.Go.{returns, panics}
use demedia_nostr.Nostr.{Event, Tag}
use demedia_nostr.Server.{Server, World}
use demedia_nostr.Server.Deletion.{delete_tags, delete_audio, delete_if_e}

-- A tag with a name that is not "e".
abbrev pub is_other : Tag → Bool
is_other [] = false
is_other (name ∷ more) = not (name == "e")

module _ {Env : Type 0} (s : Server Env) (carrier : Map String String) (ws : ℕ) (evt : Event) where
  delete_if_e-other :
      (tag : Tag) (w : World Env)
      → is_other tag ≡ true
      → delete_if_e s carrier ws evt tag w ≡ (returns false, w)
  unfolding delete_if_e
  delete_if_e-other [] w h = refl
  delete_if_e-other (name ∷ []) w h = refl
  delete_if_e-other (name ∷ id ∷ more) w h = ground (arith, h)

  delete_audio-other :
      (tag : Tag) (w : World Env)
      → is_other tag ≡ true
      → delete_audio s carrier ws evt none tag w ≡ (returns false, w)
  unfolding delete_audio
  delete_audio-other [] w h = absurd (ground (arith, h))
  delete_audio-other (name ∷ more) w h = refl

  -- On a server without IPFS, the loop over the tags of an event of kind 5 panics at an empty tag
  -- that comes after tags which have another name than "e", whatever comes after it.
  pub delete_tags-panics :
      (before after : List Tag) (w : World Env)
      → s.ipfs ≡ none
      → All (λ tag. is_other tag ≡ true) before
      → delete_tags s carrier ws evt (before ++ [] ∷ after) w ≡ (panics, w)
  unfolding delete_tags
  delete_tags-panics [] after w i h = refl
  delete_tags-panics (tag ∷ before) after w i h =
      rw (delete_tags, delete_if_e-other tag w h.0, i, delete_audio-other tag w h.0)
        (delete_tags-panics before after w i h.1)
