-- ===== src/HashUtil/Laws.antt =====
-- The signatures of hash tags, and the text of an event.
use demedia_nostr.Prelude.{
  String, ◌≡◌, refl, ap, ◌≢◌, true, List, [], ◌∷◌, ◌++◌, arith, ◌∙◌, inl, inr,
}
use demedia_nostr.Prelude.Text.{◌<>◌, join}
use demedia_nostr.Prelude.Hex.{Bytes}
use demedia_nostr.Prelude.Go.{returns}
use demedia_nostr.Nostr.{Event, Tag, Result-cases, ok}
use mathlib.Core.List.{map-append}
use text.Mathlib.TextLemmas.{append_assoc, append-eq-nil_iff, cons-ne-nil}
use demedia_nostr.HashUtil.{
  Crypto, drop_last, without_recovery_id, get_sing, get_verification, stringify_tag,
  stringify_event,
}

-- What go-ethereum documents of its functions: Decode undoes Encode, a signature has 65 bytes
-- and so is not empty, and without its last byte, the recovery id, it verifies under the key's
-- public half.
pub record IsLawful (c : Crypto) : Type 0 where
  pub decode-encode : (bs : Bytes) → c.decode (c.encode bs) ≡ ok bs
  pub sign-ne-nil : (h : Bytes) (k : c.PrivateKey) → c.sign h k ≢ ok []
  pub verify-sign :
      (h sig : Bytes) (k : c.PrivateKey)
      → c.sign h k ≡ ok sig
      → c.verify_signature (c.from_ecdsa_pub (c.public_key k)) h (drop_last sig) ≡ true

without_recovery_id_lem :
    (sig : Bytes) → sig ≢ [] → without_recovery_id sig ≡ returns (drop_last sig)
without_recovery_id_lem [] h = absurd (h refl)
without_recovery_id_lem (b ∷ bs) h = refl

-- If go-ethereum's functions do what they document, then a text that GetSing returns for an input
-- and a private key is accepted by GetVerification for the same input and the public key.
pub get_verification-get_sing :
    (c : Crypto)
    → IsLawful c
    → (input : Bytes) (k : c.PrivateKey) (s : String) → get_sing c input k ≡ ok s
    → get_verification c s input (c.public_key k) ≡ returns (ok true)
unfolding get_sing get_verification
get_verification-get_sing c L input k s h = elim (Result-cases (c.marshal input)) [
  | inr (e, p) ↦ absurd (ground (arith, p))
  | inl (body, p) ↦ elim (Result-cases (c.sign (c.keccak256 body) k)) [
    | inr (e, q) ↦ absurd (ground (arith, p, q))
    | inl (sig, q) ↦
        let s_eq : s ≡ c.encode sig = ground (arith, p, q) in
        rw (s_eq, L.decode-encode, get_verification)
          (ground (
            arith,
            p,
            without_recovery_id_lem sig (λ e. L.sign-ne-nil (c.keccak256 body) k (q ∙ ap ok e)),
            L.verify-sign (c.keccak256 body) sig k q,
          ))
  ]
]

-- The text of an event is never empty, so the test `p != ""` of the server is whether it was made.
pub stringify_event-ne-nil : (evt : Event) → stringify_event evt ≢ ""
unfolding stringify_event
stringify_event-ne-nil evt e = cons-ne-nil _ _ (append-eq-nil_iff.0 e).0

module _ (a b : String) (t : Tag) where
  stringify_tag_merge : stringify_tag ((a <> "\",\"" <> b) ∷ t) ≡ stringify_tag (a ∷ b ∷ t)
  unfolding join
  stringify_tag_merge = ap (λ (x : String). "[\"" <> x <> "\"]") (join_merge t)
    where
      join_merge : (t : Tag) → join ((a <> "\",\"" <> b) ∷ t) "\",\"" ≡ join (a ∷ b ∷ t) "\",\""
      join_merge [] = refl
      join_merge (x ∷ xs) = simp append_assoc

  -- The text of an event stays the same if, of its tags, one that starts with two items is replaced
  -- by one that holds both, and the characters `","` between them, in its first item.
  pub stringify_event_merge :
      (evt : Event) (before after : List Tag)
      → stringify_event (record evt { tags = before ++ ((a <> "\",\"" <> b) ∷ t) ∷ after })
        ≡ stringify_event (record evt { tags = before ++ (a ∷ b ∷ t) ∷ after })
  unfolding stringify_event
  stringify_event_merge evt before after = rw (map-append, stringify_tag_merge) (rw map-append refl)
