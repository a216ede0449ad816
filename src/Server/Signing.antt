-- ===== src/Server/Signing.antt =====
-- handlers.go: an event that the server has signed, when it is sent to a client.
use demedia_nostr.Prelude.{
  String, false, ◌==◌, some, [], ◌∷◌, ◌≡◌, ◌≢◌, refl, pos, Bool-cases, inl, inr,
}
use demedia_nostr.Prelude.Hex.{hex_encode}
use demedia_nostr.Prelude.Go.{returns}
use demedia_nostr.Nostr.{Event, Tag, ok}
use demedia_nostr.HashUtil.{get_sing, get_sha256, stringify_event}
use demedia_nostr.HashUtil.Laws.{IsLawful, get_verification-get_sing, stringify_event-ne-nil}
use demedia_nostr.Server.{Server}
use demedia_nostr.Server.Publish.{sign_content, renamed, finish_event}
use demedia_nostr.Server.Verify.{verify_event, verify_tags}
use text.Mathlib.TextEquality.{eq_iff}

module _ {Env : Type 0} (s : Server Env) (lawful : IsLawful s.crypto)
    (key : s.crypto.PrivateKey) where
  -- The note with the hash tag that holds the signature.
  abbrev pub signed : Event → String → Event
  signed evt hash_sig = record evt { tags = ("hash" ∷ hash_sig ∷ "true" ∷ []) ∷ [] }

  abbrev pub final : Event → String → Event
  final evt hash_sig = record (signed evt hash_sig) {
    id = hex_encode (get_sha256 s.crypto (stringify_event (signed evt hash_sig)));
  }

  renamed-ne-nil :
      (evt : Event) (p : String)
      → p ≢ ""
      → renamed s evt p ≡ record evt { id = hex_encode (get_sha256 s.crypto p) }
  renamed-ne-nil evt p h = elim (Bool-cases (p == "")) [
    | inl e ↦ absurd (h ((eq_iff p "").0 e))
    | inr e ↦ rw e refl
  ]

  module _ (evt : Event) (hash_sig : String) (p : s.ecdsa_pvt_key ≡ some key) (k : evt.kind ≡ pos 1)
      (g : get_sing s.crypto (get_sha256 s.crypto evt.content) key ≡ ok hash_sig) where
    pub finish_event-final :
        evt.tags ≡ []
        → ((tag : Tag) → s.nostr.append_unique [] tag ≡ tag ∷ [])
        → finish_event s evt false ≡ final evt hash_sig
    unfolding finish_event sign_content
    finish_event-final t u =
        rw (finish_event, sign_content, p, k, t, g, u ("hash" ∷ hash_sig ∷ "true" ∷ []))
          (renamed-ne-nil _ _ (stringify_event-ne-nil _))

    verify_event-final :
        verify_event s.crypto s.ecdsa_pvt_key (final evt hash_sig) ≡ returns (final evt hash_sig)
    unfolding verify_event verify_tags stringify_event
    verify_event-final =
        rw
          (
            p,
            k,
            get_verification-get_sing s.crypto lawful (get_sha256 s.crypto evt.content) key hash_sig
                g,
          )
          refl

  -- Let go-ethereum's functions and AppendUnique, at the empty slice, do what they document. A text
  -- note without tags that the server signs on its arrival is sent to clients as it was stored: the
  -- check of its hash tag changes neither a tag nor the ID.
  pub verify_event-finish_event :
      (evt : Event) (hash_sig : String)
      → s.ecdsa_pvt_key ≡ some key
      → evt.kind ≡ pos 1
      → evt.tags ≡ []
      → get_sing s.crypto (get_sha256 s.crypto evt.content) key ≡ ok hash_sig
      → ((tag : Tag) → s.nostr.append_unique [] tag ≡ tag ∷ [])
      → verify_event s.crypto s.ecdsa_pvt_key (finish_event s evt false)
        ≡ returns (finish_event s evt false)
  verify_event-finish_event evt hash_sig p k t g u =
      rw (finish_event-final evt hash_sig p k g t u) (verify_event-final evt hash_sig p k g)
